-- ===== src/Pdb/Names/Joined.antt =====
-- The name that `md_parse_document_name` of src/dnmd/pdb_blobs.c writes, and the buffer it needs.
use dnmd.Base.{
  ℕ, zero, suc, ◌+◌, ◌%◌, ◌^◌, ◌≤◌, ◌<◌, ◌≡◌, ◌⊎◌, inl, inr, arith, refl, sym, subst, ap,
}
use dnmd.Base.{
  List, [], ◌∷◌, ◌++◌, length, length-append, length-take, take, some, Bool, true, false,
  Bool-cases, ◌&&◌, leb, ltb, ◌==◌, ◌!=◌, if◌then◌else◌, ok,
}
use mathlib.Core.List.{append-nil, append_assoc}
use dnmd.Bytes.{Mdcdata, IsStream, read_u8, decompress_u32}
use dnmd.Context.{Mdcxt}
use dnmd.Heaps.{try_get_blob}
use dnmd.Pdb.{BlobResult, mdbpr_success, mdbpr_insufficient_buffer, Buffer}
use dnmd.Pdb.Names.{
  NameOut, no_name, add_required, write, lacking, put_byte, put_part, put_separator, put_parts,
  name_result, parse_parts, md_parse_document_name,
}
use dnmd.Pdb.Walk.{decompress_u32-shorter, read_u8-shorter}

-- The blob is the offsets of these parts, to its end.
pub data IsParts (cxt : Mdcxt) : Mdcdata → List Mdcdata → Type 0 where
  no_parts : (s : Mdcdata) → s.size ≡ 0 → IsParts cxt s []
  one_part :
      (s s' part : Mdcdata) (offset : ℕ) (parts : List Mdcdata)
      → decompress_u32 s ≡ ok (offset, s')
      → try_get_blob cxt offset ≡ ok part
      → part.size ≤ length part.ptr
      → IsParts cxt s' parts
      → IsParts cxt s (part ∷ parts)

-- The parts with the separator between them, where it is not 0.
abbrev pub separated : ℕ → Bool → List ℕ
separated separator write_separator = if write_separator then separator ∷ [] else []

abbrev pub bytes_of : Mdcdata → List ℕ
bytes_of part = take part.size part.ptr

abbrev pub joined : ℕ → Bool → List Mdcdata → List ℕ
joined separator write_separator [] = []
joined separator write_separator (part ∷ parts) =
    (separated separator write_separator ++ bytes_of part)
    ++ joined separator (separator != 0) parts

module _ (given : Bool) (len : ℕ) where
  -- A buffer that is given has no room for so many bytes.
  abbrev NoRoom : ℕ → Type 0
  NoRoom n = given ≡ true → len < n

  -- The output holds the text, or the buffer has no room for it.
  record Holds (text : List ℕ) (o : NameOut) : Type 0 where
    asked : o.required_len ≡ length text
    state :
        ((o.short ≡ false) × (o.written ≡ text) × (o.remaining_name_len + length text ≡ len))
        ⊎ ((o.short ≡ true) × NoRoom (length text))

  no_name-Holds : Holds [] (no_name len)
  no_name-Holds = record { asked = refl; state = inl (refl, refl, omega arith) }

  module _ (text bytes : List ℕ) (n : ℕ) (o : NameOut) (holds : Holds text o) (e : length bytes ≡ n)
      (small : length text + n < 2 ^ 64) where
    asked_more : (o.required_len + n) % 2 ^ 64 ≡ length (text ++ bytes)
    asked_more = omega (arith, holds.asked, e, length-append text bytes)

    lacking-Holds : NoRoom (length text + n) → Holds (text ++ bytes) (lacking (add_required n o))
    lacking-Holds full = record {
      asked = asked_more;
      state = inr (refl, λ g. omega (arith, full g, e, length-append text bytes));
    }

    write-Holds :
        n ≤ o.remaining_name_len → Holds (text ++ bytes) (write bytes n (add_required n o))
    write-Holds room = record {
      asked = asked_more;
      state = elim holds.state [
        | inl (fine, same, left) ↦ inl (
          fine,
          ap (λ (xs : List ℕ). xs ++ bytes) same,
          omega (arith, left, room, e, length-append text bytes),
        )
        | inr (short, full) ↦ inr (short, λ g. omega (arith, full g, length-append text bytes))
      ];
    }

no_buffer : false ≡ true → ⊥
no_buffer g = cc

full_at :
    (len : ℕ) (text : List ℕ) (o : NameOut) (n : ℕ)
    → Holds true len text o
    → o.remaining_name_len < n
    → NoRoom true len (length text + n)
full_at len text o n holds lt = elim holds.state [
  | inl (fine, same, left) ↦ λ g. omega (arith, left, lt)
  | inr (short, full) ↦ λ g. omega (arith, full g)
]

put_byte-Holds :
    (given : Bool) (len b : ℕ) (text : List ℕ) (o : NameOut)
    → Holds given len text o
    → length text + 1 < 2 ^ 64
    → Holds given len (text ++ (b ∷ [])) (put_byte given b o)
unfolding put_byte
put_byte-Holds false len b text o holds small =
    lacking-Holds false len text (b ∷ []) 1 o holds refl small (λ g. absurd (no_buffer g))
put_byte-Holds true len b text o holds small = elim (Bool-cases (o.remaining_name_len == 0)) [
  | inl none_left ↦ rw none_left (
      lacking-Holds true len text (b ∷ []) 1 o holds refl small
        (full_at len text o 1 holds (ground arith)))
  | inr left ↦ rw left (write-Holds true len text (b ∷ []) 1 o holds refl small (ground arith))
]

put_part-Holds :
    (given : Bool) (len : ℕ) (text : List ℕ) (part : Mdcdata) (o : NameOut)
    → Holds given len text o
    → part.size ≤ length part.ptr
    → length text + part.size < 2 ^ 64
    → (o' : NameOut) × (put_part given part o ≡ ok o') × Holds given len (text ++ bytes_of part) o'
unfolding put_part
put_part-Holds false len text part o holds inside small = (
  lacking (add_required part.size o),
  refl,
  lacking-Holds false len text (bytes_of part) part.size o holds
      (length-take part.size part.ptr inside) small (λ g. absurd (no_buffer g)),
)
put_part-Holds true len text part o holds inside small =
    elim (Bool-cases (ltb o.remaining_name_len part.size)) [
      | inl less ↦ (
        lacking (add_required part.size o),
        rw less refl,
        lacking-Holds true len text (bytes_of part) part.size o holds
            (length-take part.size part.ptr inside) small
            (full_at len text o part.size holds (ground arith)),
      )
      | inr enough ↦
          let readable : ltb (length part.ptr) part.size ≡ false = ground arith in
          (
            write (bytes_of part) part.size (add_required part.size o),
            rw (enough, readable) refl,
            write-Holds true len text (bytes_of part) part.size o holds
                (length-take part.size part.ptr inside) small (ground arith),
          )
    ]

module _ (cxt : Mdcxt) (given : Bool) (len separator : ℕ) where
  put_separator-Holds :
      (write_separator : Bool) (text : List ℕ) (o : NameOut)
      → Holds given len text o
      → length text + length (separated separator write_separator) < 2 ^ 64
      → Holds given len
          (text ++ separated separator write_separator)
          (put_separator given separator write_separator o)
  put_separator-Holds true text o holds small =
      put_byte-Holds given len separator text o holds small
  put_separator-Holds false text o holds small =
      subst (λ (xs : List ℕ). Holds given len xs o) (sym (append-nil text)) holds

  at_end :
      (fuel : ℕ) (w : Bool) (o : NameOut) (s : Mdcdata)
      → s.size ≡ 0
      → put_parts fuel cxt given separator w o s ≡ ok o
  unfolding put_parts
  at_end zero w o s empty = refl
  at_end (suc fuel) w o s empty = let e : (s.size == 0) ≡ true = ground (arith, empty) in rw e refl

  -- As many rounds as there are bytes put all parts.
  put_parts-Holds :
      (fuel : ℕ) (write_separator : Bool) (text : List ℕ) (o : NameOut) (s : Mdcdata)
      (parts : List Mdcdata)
      → IsParts cxt s parts
      → IsStream s
      → s.size ≤ fuel
      → Holds given len text o
      → length text + length (joined separator write_separator parts) < 2 ^ 64
      → (o' : NameOut) × (put_parts fuel cxt given separator write_separator o s ≡ ok o')
        × Holds given len (text ++ joined separator write_separator parts) o'
  unfolding put_parts
  put_parts-Holds fuel w text o _ _ (no_parts s empty) valid enough holds small = (
    o,
    at_end fuel w o s empty,
    subst (λ (xs : List ℕ). Holds given len xs o) (sym (append-nil text)) holds,
  )
  put_parts-Holds zero w text o _ _ (one_part s s' part offset parts' read found inside more) valid
        enough holds small =
      let (less, valid') = decompress_u32-shorter s (offset, s') valid read in absurd (omega arith)
  put_parts-Holds (suc fuel) w text o _ _ (one_part s s' part offset parts' read found inside more)
        valid enough holds small =
      let sep : List ℕ = separated separator w in
      let rest : List ℕ = joined separator (separator != 0) parts' in
      let (less, valid') = decompress_u32-shorter s (offset, s') valid read in
      let some_left : (s.size == 0) ≡ false = ground arith in
      let taken = length-take part.size part.ptr inside in
      let whole : length ((sep ++ bytes_of part) ++ rest) ≡ length sep + part.size + length rest =
        omega (
          arith,
          taken,
          length-append (sep ++ bytes_of part) rest,
          length-append sep (bytes_of part),
        ) in
      let h1 = put_separator-Holds w text o holds (omega arith) in
      let (o2, e2, h2) =
        put_part-Holds given len (text ++ sep) part (put_separator given separator w o) h1 inside
          (omega (arith, length-append text sep)) in
      let (o3, e3, h3) =
        put_parts-Holds fuel (separator != 0) ((text ++ sep) ++ bytes_of part) o2 s' parts' more
          valid' (omega arith) h2
          (omega
            (arith, taken, length-append text sep, length-append (text ++ sep) (bytes_of part))) in
      let same : ((text ++ sep) ++ bytes_of part) ++ rest
          ≡ text ++ ((sep ++ bytes_of part) ++ rest) =
        rw (append_assoc, append_assoc, append_assoc) refl in
      (
        o3,
        rw (some_left, read, found, e2) e3,
        subst (λ (xs : List ℕ). Holds given len xs o3) same h3,
      )

-- The result of a call for the name `text`, its terminator included.
abbrev pub IsName : Buffer → List ℕ → BlobResult (ℕ × List ℕ) → Type 0
IsName buffer text result = result ≡ (
    if buffer.given && leb (length text) buffer.len
    then mdbpr_success (length text, text)
    else mdbpr_insufficient_buffer (length text))

put_byte-IsName :
    (given : Bool) (len : ℕ) (text : List ℕ) (o : NameOut)
    → length text + 1 < 2 ^ 64
    → Holds given len text o
    → IsName
        (record { given = given; len = len })
        (text ++ (0 ∷ []))
        (name_result (put_byte given 0 o))
unfolding name_result put_byte
put_byte-IsName false len text o small holds =
    ap (λ (n : ℕ). mdbpr_insufficient_buffer n)
      (put_byte-Holds false len 0 text o holds small).asked
put_byte-IsName true len text o small holds =
    let named = put_byte-Holds true len 0 text o holds small in
    elim named.state [
      | inl (fine, same, left) ↦
          let fits : leb (length (text ++ (0 ∷ []))) len ≡ true = ground (arith, left) in
          rw (fine, fits, named.asked, same) refl
      | inr (short, full) ↦
          let lacks : leb (length (text ++ (0 ∷ []))) len ≡ false = ground (arith, full refl) in
          rw (short, lacks, named.asked) refl
    ]

-- For a blob of a separator below 0x80 and the offsets of parts whose bytes can be read, the call
-- returns the parts with the separator between them and a terminator behind them where the buffer
-- is given and large enough, and else asks for a buffer of exactly that length. The length fits a
-- `size_t`.
pub md_parse_document_name-IsName :
    (cxt : Mdcxt) (buffer : Buffer) (blob s : Mdcdata) (separator : ℕ) (parts : List Mdcdata)
    → IsStream blob
    → read_u8 blob ≡ ok (separator, s)
    → separator < 128
    → IsParts cxt s parts
    → length (joined separator false parts) + 1 < 2 ^ 64
    → IsName buffer
        (joined separator false parts ++ (0 ∷ []))
        (md_parse_document_name (some cxt) blob buffer)
unfolding md_parse_document_name parse_parts
md_parse_document_name-IsName cxt buffer blob s separator parts valid first ascii is small =
    let (less, valid') = read_u8-shorter blob separator s valid first in
    let known : ltb 0x7f separator ≡ false = ground arith in
    let (o, put, holds) =
      put_parts-Holds cxt buffer.given buffer.len separator s.size false [] (no_name buffer.len) s
        parts is valid' (omega arith) (no_name-Holds buffer.given buffer.len) (omega arith) in
    rw (first, known, put)
      (put_byte-IsName buffer.given buffer.len (joined separator false parts) o small holds)
