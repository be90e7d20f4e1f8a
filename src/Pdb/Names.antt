-- ===== src/Pdb/Names.antt =====
-- Document names: `md_parse_document_name` of src/dnmd/pdb_blobs.c.
use dnmd.Base.{ℕ, zero, suc, ◌+◌, ◌-◌, ◌%◌, ◌^◌}
use dnmd.Base.{List, [], ◌∷◌, ◌++◌, length, take, Option, none, some, Bool, true, false, not, ◌||◌}
use dnmd.Base.{ltb, ◌==◌, ◌!=◌, if◌then◌else◌, Outcome, ok, failed, fault, ◌>>=◌}
use dnmd.Bytes.{Mdcdata, read_u8, decompress_u32}
use dnmd.Context.{Mdcxt}
use dnmd.Heaps.{try_get_blob}
use dnmd.Pdb.{
  BlobResult, mdbpr_success, mdbpr_insufficient_buffer, mdbpr_invalid_argument, mdbpr_invalid_blob,
  mdbpr_fault, Buffer, then_parse,
}
pub mod Joined
mod Runs

-- What is stored at `name`, `remaining_name_len`, `required_len`, and that `result` is
-- `mdbpr_InsufficientBuffer`.
pub record NameOut : Type 0 where
  pub written : List ℕ
  pub remaining_name_len : ℕ
  pub required_len : ℕ
  pub short : Bool

abbrev pub no_name : ℕ → NameOut
no_name len = record { written = []; remaining_name_len = len; required_len = 0; short = false }

-- The space that is asked for, in a `size_t` of 64 bits.
abbrev pub add_required : ℕ → NameOut → NameOut
add_required n o = record o { required_len = (o.required_len + n) % 2 ^ 64 }

-- `advance_output_stream` behind the bytes that are written.
abbrev pub write : List ℕ → ℕ → NameOut → NameOut
write bytes n o = record o {
  written = o.written ++ bytes;
  remaining_name_len = o.remaining_name_len - n;
}

abbrev pub lacking : NameOut → NameOut
lacking o = record o { short = true }

-- A separator or the terminator. `given` is that `name` is not NULL.
unfoldable pub put_byte : Bool → ℕ → NameOut → NameOut
put_byte given b o =
    if not given || o.remaining_name_len == 0
    then lacking (add_required 1 o)
    else write (b ∷ []) 1 (add_required 1 o)

-- A part. Nothing is read past the accessible bytes of a blob.
unfoldable pub put_part : Bool → Mdcdata → NameOut → Outcome NameOut
put_part given part o =
    if not given || ltb o.remaining_name_len part.size
    then ok (lacking (add_required part.size o))
    else if ltb (length part.ptr) part.size
    then fault
    else ok (write (take part.size part.ptr) part.size (add_required part.size o))

abbrev pub put_separator : Bool → ℕ → Bool → NameOut → NameOut
put_separator given separator write_separator o =
    if write_separator then put_byte given separator o else o

-- The loop. Each iteration takes a byte at least, so that as many as there are bytes are enough.
pub put_parts : ℕ → Mdcxt → Bool → ℕ → Bool → NameOut → Mdcdata → Outcome NameOut
put_parts zero cxt given separator write_separator o s = ok o
put_parts (suc fuel) cxt given separator write_separator o s =
    let rest = decompress_u32 s >>= λ offset. try_get_blob cxt offset.0 >>= λ part.
    put_part given part (put_separator given separator write_separator o) >>= λ o'.
    put_parts fuel cxt given separator (separator != 0) o' offset.1 in
    if s.size == 0 then ok o else rest

-- `*name_len`, and the bytes where the buffer is large enough for all.
unfoldable pub name_result : NameOut → BlobResult (ℕ × List ℕ)
name_result o =
    if o.short
    then mdbpr_insufficient_buffer o.required_len
    else mdbpr_success (o.required_len, o.written)

unfoldable pub parse_parts : Mdcxt → Buffer → ℕ × Mdcdata → BlobResult (ℕ × List ℕ)
unfolding put_parts
parse_parts cxt buffer (separator, s) =
    if ltb 0x7f separator
    then mdbpr_invalid_blob
    else then_parse (put_parts s.size cxt buffer.given separator false (no_name buffer.len) s)
        (λ o. name_result (put_byte buffer.given 0 o))

-- `blob` and `name_len` are not NULL. What a buffer that is too small holds is left out.
unfoldable pub md_parse_document_name : Option Mdcxt → Mdcdata → Buffer → BlobResult (ℕ × List ℕ)
md_parse_document_name none blob buffer = mdbpr_invalid_argument
md_parse_document_name (some cxt) blob buffer = then_parse (read_u8 blob) (parse_parts cxt buffer)
