-- ===== src/Heaps.antt =====
-- The heaps of src/dnmd/streams.c: strings, user strings, blobs and GUIDs, and the walk of the user
-- strings in src/dnmd/query.c.
use dnmd.Base.{ℕ, zero, suc, ◌+◌, ◌-◌, ◌*◌, ◌/◌, ◌%◌, ◌^◌}
use dnmd.Base.{List, [], ◌∷◌, Option, none, some, Bool, true, false, ◌&&◌}
use dnmd.Base.{
  length, drop, take, get_elem?, ltb, leb, ◌==◌, ◌!=◌, if◌then◌else◌, Outcome, ok, failed, fault,
  ◌>>=◌, ◌>>◌, guard,
}
use dnmd.Bytes.{Mdcdata, peek, decompress_u32}
use dnmd.Context.{Mdcxt}
pub mod UserStrings
pub mod Blobs
pub mod Guids
mod Runs

-- A `char const*` is the list of the bytes from it on; "\0" of the source has two of them.
unfoldable pub try_get_string : Mdcxt → ℕ → Outcome (List ℕ)
try_get_string cxt offset =
    let h = cxt.strings_heap in
    if h.size == 0 && offset == 0
    then ok (0 ∷ 0 ∷ [])
    else if leb h.size offset
    then failed
    else ok (drop offset h.ptr)

-- The first byte of a heap that is not empty has to be 0.
starts_with_zero : Mdcdata → Outcome (Unit {0})
starts_with_zero h = if h.size == 0 then ok tt else do first ← peek h.ptr; guard (first == 0)

unfoldable pub validate_strings_heap : Mdcxt → Outcome (Unit {0})
unfolding starts_with_zero
validate_strings_heap cxt = starts_with_zero cxt.strings_heap

unfoldable pub validate_user_string_heap : Mdcxt → Outcome (Unit {0})
unfolding starts_with_zero
validate_user_string_heap cxt = starts_with_zero cxt.user_string_heap

unfoldable pub validate_blob_heap : Mdcxt → Outcome (Unit {0})
unfolding starts_with_zero
validate_blob_heap cxt = starts_with_zero cxt.blob_heap

-- `mduserstring_t`; `none` is NULL.
pub record Mduserstring : Type 0 where
  pub str : Option (List ℕ)
  pub str_bytes : ℕ
  pub final_byte : ℕ

-- `p - h->ptr` of a pointer into the heap.
abbrev pub offset_in : Mdcdata → List ℕ → ℕ
offset_in h p = length h.ptr - length p

-- `begin[i]`
abbrev pub byte_at : List ℕ → ℕ → Outcome ℕ
byte_at p i = elim (get_elem? p i) [ none ↦ fault | some b ↦ ok b ]

unfoldable pub user_string_of : List ℕ → ℕ → Outcome Mduserstring
user_string_of begin byte_count =
    if byte_count == 0 then ok (record { str = none; str_bytes = 0; final_byte = 0 }) else do
      last ← byte_at begin (byte_count - 1)
      ok (record { str = some begin; str_bytes = byte_count; final_byte = last })

-- The string and `*next_offset`.
unfoldable pub try_get_user_string : Mdcxt → ℕ → Outcome (Mduserstring × ℕ)
try_get_user_string cxt offset =
    let h = cxt.user_string_heap in
    if leb h.size offset then failed else do
      (byte_count, s) ← decompress_u32 (record { ptr = drop offset h.ptr; size = h.size - offset })
      guard (leb (offset_in h s.ptr + byte_count) h.size)
      str ← user_string_of s.ptr byte_count
      ok (str, offset_in h s.ptr + byte_count)

-- `md_walk_user_string_heap`: a handle with no context returns -1, which is `true` as a `bool`, and
-- sets nothing: `none`. Else the string, `*offset` and the new `*cursor`.
unfoldable pub md_walk_user_string_heap : Option Mdcxt → ℕ → Outcome (Option (Mduserstring × ℕ × ℕ))
md_walk_user_string_heap none cursor = ok none
md_walk_user_string_heap (some cxt) cursor = do
  let offset = cursor % 2 ^ 32
  (str, next_offset) ← try_get_user_string cxt offset
  ok (some (str, offset, next_offset))

-- The blob, as its pointer and `*blob_len`. `h->size - offset` is a `size_t` of 64 bits.
unfoldable pub try_get_blob : Mdcxt → ℕ → Outcome Mdcdata
try_get_blob cxt offset =
    let h = cxt.blob_heap in
    if h.size == 0 && offset == 0
    then ok (record { ptr = h.ptr; size = 0 })
    else if leb h.size offset
    then failed
    else do
      let data_len = (h.size + 2 ^ 64 - offset) % 2 ^ 64
      (byte_count, s) ← decompress_u32 (record { ptr = drop offset h.ptr; size = data_len })
      ok (record { ptr = s.ptr; size = byte_count })

-- `sizeof(mdguid_t)`, and the null GUID.
abbrev pub guid_size : ℕ
guid_size = 16

abbrev pub null_guid : List ℕ
null_guid = 0 ∷ 0 ∷ 0 ∷ 0 ∷ 0 ∷ 0 ∷ 0 ∷ 0 ∷ 0 ∷ 0 ∷ 0 ∷ 0 ∷ 0 ∷ 0 ∷ 0 ∷ 0 ∷ []

-- The bytes of the GUID.
unfoldable pub try_get_guid : Mdcxt → ℕ → Outcome (List ℕ)
try_get_guid cxt idx =
    let h = cxt.guid_heap in
    let at = drop ((idx - 1) * guid_size) h.ptr in
    if ltb (h.size / guid_size) idx
    then failed
    else if idx == 0
    then ok null_guid
    else if ltb (length at) guid_size
    then fault
    else ok (take guid_size at)

unfoldable pub validate_guid_heap : Mdcxt → Outcome (Unit {0})
validate_guid_heap cxt = guard (cxt.guid_heap.size % guid_size == 0)
