-- ===== src/Pdb/Constants/Values.antt =====
-- The values of integral constants, in `md_parse_local_constant_sig` of src/dnmd/pdb_blobs.c.
use dnmd.Base.{ℕ, ◌+◌, ◌-◌, ◌%◌, ◌<◌, ◌≡◌, ◌⊎◌, arith, refl, sym, ap, ◌∙◌}
use dnmd.Base.{
  List, some, Bool, true, false, Bool-cases, inl, inr, ◌||◌, ◌==◌, if◌then◌else◌, drop, Outcome, ok,
  failed, ◌>>=◌, >>=-eq-ok, ok-injective,
}
use native.Mathlib.Decide.{dec_lt}
use dnmd.Bytes.{Mdcdata, IsStream, read_le, read_u8, read_u16, read_u32, read_u64, decompress_u32}
use dnmd.Bytes.Little.{IsWidth, read_le-little, read_le_short}
use dnmd.Bytes.Decompress.{decompress_u32-Takes}
use dnmd.Context.{Mdcxt}
use dnmd.Pdb.{
  BlobResult, mdbpr_success, mdbpr_insufficient_buffer, mdbpr_invalid_argument, mdbpr_invalid_blob,
  mdbpr_fault, blob_result, Buffer, required_size,
}
use dnmd.Pdb.Buffers.{then_parse-success, in_buffer-success, blob_result-success}
use dnmd.Pdb.Constants.{
  LocalConstantSig, Modifier, with_modifiers, walk_modifiers, modifiers_from, fill_constant,
  md_parse_local_constant_sig,
}
use dnmd.Pdb.Constants.{
  ConstantKind, mdck_primitive_constant, mdck_enum_constant, is_integral, after, skip_value,
  parse_integral, constant_of,
}
use dnmd.Pdb.Constants.{
  element_type_boolean, element_type_char, element_type_i1, element_type_u1, element_type_i2,
  element_type_u2, element_type_i4, element_type_u4, element_type_i8, element_type_u8,
}
use dnmd.Pdb.Imports.{decode_type}

-- The size of a value of an integral type.
abbrev pub value_width : ℕ → ℕ
value_width code =
    if code == element_type_boolean || code == element_type_i1 || code == element_type_u1
    then 1
    else if code == element_type_char || code == element_type_i2 || code == element_type_u2
    then 2
    else if code == element_type_i4 || code == element_type_u4
    then 4
    else 8

read_le-after :
    (s rest : Mdcdata) (w : ℕ)
    → IsStream s
    → IsWidth w
    → after (read_le s w) ≡ ok rest
    → rest.size + w ≡ s.size
read_le-after s rest w valid width h = elim (dec_lt s.size w) [
  | yes short ↦ absurd (refused (sym (ap after (read_le_short s w short)) ∙ h))
  | no long ↦
      let same : record { ptr = drop w s.ptr; size = s.size - w } ≡ rest =
        ok-injective (sym (ap after (read_le-little s w valid width (omega arith))) ∙ h) in
      omega (arith, ap (λ (d : Mdcdata). d.size) same)
]
  where
    refused : failed ≡ ok rest → ⊥
    refused e = cc

skip_value-width :
    (code : ℕ) (s rest : Mdcdata)
    → IsStream s
    → skip_value code s ≡ ok rest
    → rest.size + value_width code ≡ s.size
unfolding skip_value read_u8 read_u16 read_u32 read_u64
skip_value-width code s rest valid h =
    elim (Bool-cases
      (code == element_type_boolean || code == element_type_i1 || code == element_type_u1)) [
        | inl one ↦ rw one (read_le-after s rest 1 valid (inl refl) (rw one at h))
        | inr a ↦
            elim (Bool-cases
              (code == element_type_char || code == element_type_i2 || code == element_type_u2)) [
                | inl two ↦
                    rw (a, two) (read_le-after s rest 2 valid (inr (inl refl)) (rw (a, two) at h))
                | inr b ↦ elim (Bool-cases (code == element_type_i4 || code == element_type_u4)) [
                  | inl four ↦
                      rw (a, b, four)
                        (read_le-after s rest 4 valid (inr (inr (inl refl))) (rw (a, b, four) at h))
                  | inr c ↦
                      rw (a, b, c)
                        (eight (code == element_type_i8 || code == element_type_u8)
                          (rw (a, b, c) at h))
                ]
              ]
      ]
  where
    eight :
        (d : Bool) → (if d then after (read_le s 8) else failed) ≡ ok rest → rest.size + 8 ≡ s.size
    eight true k = read_le-after s rest 8 valid (inr (inr (inr refl))) k
    eight false k = cc

-- What an integral value is stored as: the first bytes behind the type code, alone or, where bytes
-- follow, as the value of an enum.
abbrev pub IsIntegral : ℕ → Mdcdata → ConstantKind → Mdcdata → Type 0
IsIntegral code s kind value =
    (value.ptr ≡ s.ptr)
    × (value.size ≡ value_width code)
    × (((kind ≡ mdck_primitive_constant (code % 256)) × (s.size ≡ value_width code))
        ⊎ ((token : ℕ) × (kind ≡ mdck_enum_constant (code % 256) token)
            × (value_width code < s.size)))

abbrev stored : ConstantKind → Mdcdata → Outcome (ConstantKind × Mdcdata)
stored kind value = ok (kind, value)

parse_integral-IsIntegral :
    (code : ℕ) (s : Mdcdata) (kind : ConstantKind) (value : Mdcdata)
    → IsStream s
    → parse_integral code s ≡ ok (kind, value)
    → IsIntegral code s kind value
unfolding parse_integral
parse_integral-IsIntegral code s kind value valid h =
    let (rest, p, q) = >>=-eq-ok (skip_value code s) _ h in
    let width = skip_value-width code s rest valid p in
    elim (Bool-cases (rest.size == 0)) [
      | inl alone ↦ plain rest width (ground arith) (rw alone at q)
      | inr followed ↦ enum rest width (ground arith) (rw followed at q)
    ]
  where
    plain :
        (rest : Mdcdata)
        → rest.size + value_width code ≡ s.size
        → rest.size ≡ 0
        → stored (mdck_primitive_constant (code % 256)) s ≡ ok (kind, value)
        → IsIntegral code s kind value
    plain rest width none k =
        let same = ok-injective k in
        let v : s ≡ value = ap (λ (x : ConstantKind × Mdcdata). x.1) same in
        (
          ap (λ (d : Mdcdata). d.ptr) (sym v),
          ap (λ (d : Mdcdata). d.size) (sym v) ∙ omega (arith, width, none),
          inl (ap (λ (x : ConstantKind × Mdcdata). x.0) (sym same), omega (arith, width, none)),
        )

    enum :
        (rest : Mdcdata)
        → rest.size + value_width code ≡ s.size
        → 0 < rest.size
        → (decompress_u32 rest >>= λ i. decode_type i.0 >>= λ token.
            stored (mdck_enum_constant (code % 256) token) (record s { size = s.size - rest.size }))
          ≡ ok (kind, value)
        → IsIntegral code s kind value
    enum rest width more k =
        let (i, p, q) = >>=-eq-ok (decompress_u32 rest) _ k in
        let (token, p', q') = >>=-eq-ok (decode_type i.0) _ q in
        let same = ok-injective q' in
        let v : record s { size = s.size - rest.size } ≡ value =
          ap (λ (x : ConstantKind × Mdcdata). x.1) same in
        (
          ap (λ (d : Mdcdata). d.ptr) (sym v),
          ap (λ (d : Mdcdata). d.size) (sym v) ∙ omega (arith, width),
          inr (
            token,
            ap (λ (x : ConstantKind × Mdcdata). x.0) (sym same),
            omega (arith, width, more),
          ),
        )

constant_of-integral :
    (code : ℕ) (s : Mdcdata)
    → is_integral code ≡ true
    → constant_of code s ≡ blob_result (parse_integral code s)
unfolding constant_of
constant_of-integral code s h = ground arith

with_modifiers-success :
    (num : ℕ) (modifiers : List Modifier) (x : BlobResult (ConstantKind × Mdcdata))
    (sig : LocalConstantSig)
    → with_modifiers num modifiers x ≡ mdbpr_success sig
    → x ≡ mdbpr_success (sig.constant_kind, sig.value_blob)
with_modifiers-success num modifiers (mdbpr_success (kind, value)) sig h = cc
with_modifiers-success num modifiers (mdbpr_insufficient_buffer required) sig h = cc
with_modifiers-success num modifiers mdbpr_invalid_argument sig h = cc
with_modifiers-success num modifiers mdbpr_invalid_blob sig h = cc
with_modifiers-success num modifiers mdbpr_fault sig h = cc

-- A success of a signature with an integral type code has stored as its value the bytes that the
-- type has, right behind the code: as a primitive where the blob ends there, as an enum's where an
-- encoded type follows.
pub md_parse_local_constant_sig-IsIntegral :
    (cxt : Mdcxt) (blob : Mdcdata) (buffer : Buffer) (code : ℕ × Mdcdata) (sig : LocalConstantSig)
    → IsStream blob
    → decompress_u32 blob ≡ ok code
    → is_integral code.0 ≡ true
    → md_parse_local_constant_sig (some cxt) blob buffer ≡ mdbpr_success sig
    → IsIntegral code.0 code.1 sig.constant_kind sig.value_blob
unfolding md_parse_local_constant_sig fill_constant
md_parse_local_constant_sig-IsIntegral cxt blob buffer code sig valid e integral h =
    let (walked, p, q) = then_parse-success (walk_modifiers blob.size 0 blob) _ sig h in
    let filled =
      in_buffer-success buffer (required_size 40 8 walked.0) (fill_constant blob walked.0 walked.1)
        sig q in
    let (modifiers, p', q') = then_parse-success (modifiers_from walked.0 walked.1) _ sig filled in
    let (read, p'', q'') = then_parse-success (decompress_u32 blob) _ sig q' in
    let same : read ≡ code = ok-injective (sym p'' ∙ e) in
    let constant = with_modifiers-success walked.0 modifiers (constant_of read.0 read.1) sig q'' in
    let at_code : constant_of code.0 code.1 ≡ mdbpr_success (sig.constant_kind, sig.value_blob) =
      ap (λ (c : ℕ × Mdcdata). constant_of c.0 c.1) (sym same) ∙ constant in
    let (takes, valid') = decompress_u32-Takes blob code.0 code.1 valid e in
    parse_integral-IsIntegral code.0 code.1 sig.constant_kind sig.value_blob valid' (
      blob_result-success (parse_integral code.0 code.1) _
        (sym (constant_of-integral code.0 code.1 integral) ∙ at_code))
