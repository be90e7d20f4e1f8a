-- ===== src/Pdb/Constants.antt =====
-- Signatures of local constants: `md_parse_local_constant_sig` of src/dnmd/pdb_blobs.c.
use dnmd.Base.{ℕ, zero, suc, ◌+◌, ◌-◌, ◌%◌, ◌^◌, bit_or}
use dnmd.Base.{
  List, [], ◌∷◌, Option, none, some, Bool, true, false, not, ◌&&◌, ◌||◌, ◌==◌, ◌!=◌, if◌then◌else◌,
}
use dnmd.Base.{Outcome, ok, failed, fault, ◌>>=◌, ◌>>◌, guard}
use dnmd.Bytes.{Mdcdata, read_u8, read_u16, read_u32, read_u64, decompress_u32}
use dnmd.Context.{Mdcxt}
use dnmd.Pdb.{
  BlobResult, mdbpr_success, mdbpr_insufficient_buffer, mdbpr_invalid_argument, mdbpr_invalid_blob,
  mdbpr_fault, blob_result, then_parse, Buffer, in_buffer, required_size,
}
use dnmd.Pdb.Imports.{decode_type}
pub mod Modified
mod Runs
pub mod Values

-- The element types that the signatures use.
abbrev pub element_type_boolean : ℕ
element_type_boolean = 0x02

abbrev pub element_type_char : ℕ
element_type_char = 0x03

abbrev pub element_type_i1 : ℕ
element_type_i1 = 0x04

abbrev pub element_type_u1 : ℕ
element_type_u1 = 0x05

abbrev pub element_type_i2 : ℕ
element_type_i2 = 0x06

abbrev pub element_type_u2 : ℕ
element_type_u2 = 0x07

abbrev pub element_type_i4 : ℕ
element_type_i4 = 0x08

abbrev pub element_type_u4 : ℕ
element_type_u4 = 0x09

abbrev pub element_type_i8 : ℕ
element_type_i8 = 0x0a

abbrev pub element_type_u8 : ℕ
element_type_u8 = 0x0b

abbrev pub element_type_r4 : ℕ
element_type_r4 = 0x0c

abbrev pub element_type_r8 : ℕ
element_type_r8 = 0x0d

abbrev pub element_type_string : ℕ
element_type_string = 0x0e

abbrev pub element_type_valuetype : ℕ
element_type_valuetype = 0x11

abbrev pub element_type_class : ℕ
element_type_class = 0x12

abbrev pub element_type_object : ℕ
element_type_object = 0x1c

abbrev pub element_type_cmod_reqd : ℕ
element_type_cmod_reqd = 0x1f

abbrev pub element_type_cmod_opt : ℕ
element_type_cmod_opt = 0x20

-- The kind of a general constant, and `constant_kind` with the union beside it.
pub data GeneralKind : Type 0 where
  mdgc_value_type mdgc_class mdgc_object : GeneralKind

pub data ConstantKind : Type 0 where
  mdck_primitive_constant : (type_code : ℕ) → ConstantKind
  mdck_enum_constant : (type_code enum_type : ℕ) → ConstantKind
  mdck_general_constant : GeneralKind → (type : ℕ) → ConstantKind

-- An entry of `custom_modifiers`.
pub record Modifier : Type 0 where
  pub required : Bool
  pub type : ℕ

-- `md_local_constant_sig_t`. `custom_modifiers` holds the entries that are stored.
pub record LocalConstantSig : Type 0 where
  pub constant_kind : ConstantKind
  pub value_blob : Mdcdata
  pub custom_modifier_count : ℕ
  pub custom_modifiers : List Modifier

abbrev pub is_modifier : ℕ → Bool
is_modifier element_type =
    element_type == element_type_cmod_opt || element_type == element_type_cmod_reqd

-- The walk over the modifiers: their number, and the blob behind the element type that ends it. An
-- iteration takes two bytes at least.
pub walk_modifiers : ℕ → ℕ → Mdcdata → Outcome (ℕ × Mdcdata)
walk_modifiers zero num s = ok (num, s)
walk_modifiers (suc fuel) num s =
    let walk = decompress_u32 s >>= λ element.
    (let rest =
        decompress_u32 element.1 >>= λ cindex. walk_modifiers fuel ((num + 1) % 2 ^ 32) cindex.1 in
      if not (is_modifier element.0) then ok (num, element.1) else rest) in
    if s.size == 0 then ok (num, s) else walk

unfoldable pub read_modifier : ℕ → Mdcdata → Outcome (Modifier × Mdcdata)
read_modifier element_type s = do
  (cindex, s') ← decompress_u32 s
  token ← decode_type cindex
  ok (record { required = element_type == element_type_cmod_reqd; type = token }, s')

-- The second loop over the modifiers, which goes on where the walk has ended.
pub modifiers_from : ℕ → Mdcdata → Outcome (List Modifier)
modifiers_from zero s = ok []
modifiers_from (suc n) s = decompress_u32 s >>= λ element.
    (let rest =
        read_modifier element.0 element.1 >>= λ m. modifiers_from n m.1 >>= λ ms. ok (m.0 ∷ ms) in
      if not (is_modifier element.0) then ok [] else rest)

abbrev pub after {ℓ} : {A : Type ℓ} → Outcome (A × Mdcdata) → Outcome Mdcdata
after read = read >>= λ r. ok r.1

-- The bytes of an integral value are read over.
unfoldable pub skip_value : ℕ → Mdcdata → Outcome Mdcdata
skip_value code s =
    if code == element_type_boolean || code == element_type_i1 || code == element_type_u1
    then after (read_u8 s)
    else if code == element_type_char || code == element_type_i2 || code == element_type_u2
    then after (read_u16 s)
    else if code == element_type_i4 || code == element_type_u4
    then after (read_u32 s)
    else if code == element_type_i8 || code == element_type_u8
    then after (read_u64 s)
    else failed

unfoldable pub parse_general : GeneralKind → Mdcdata → Outcome (ConstantKind × Mdcdata)
parse_general kind s = do
  (index, s') ← decompress_u32 s
  token ← decode_type index
  ok (mdck_general_constant kind token, s')

unfoldable pub parse_real : ℕ → ℕ → Mdcdata → Outcome (ConstantKind × Mdcdata)
parse_real code size s =
    if s.size != size then failed else ok (mdck_primitive_constant (code % 256), s)

-- An integral value, or that of an enum where its type follows.
unfoldable pub parse_integral : ℕ → Mdcdata → Outcome (ConstantKind × Mdcdata)
parse_integral code s = do
  rest ← skip_value code s
  if rest.size == 0 then ok (mdck_primitive_constant (code % 256), s) else do
    (index, s') ← decompress_u32 rest
    token ← decode_type index
    ok (mdck_enum_constant (code % 256) token, record s { size = s.size - rest.size })

abbrev pub is_integral : ℕ → Bool
is_integral code =
    code == element_type_boolean
    || code == element_type_char
    || code == element_type_i1
    || code == element_type_u1
    || code == element_type_i2
    || code == element_type_u2
    || code == element_type_i4
    || code == element_type_u4
    || code == element_type_i8
    || code == element_type_u8

-- The `switch` over the type code: the kind and the value. The assertion of its default is no test.
unfoldable pub constant_of : ℕ → Mdcdata → BlobResult (ConstantKind × Mdcdata)
constant_of code s =
    if code == element_type_object
    then mdbpr_success (mdck_general_constant mdgc_object 0, s)
    else if code == element_type_valuetype
    then blob_result (parse_general mdgc_value_type s)
    else if code == element_type_class
    then blob_result (parse_general mdgc_class s)
    else if code == element_type_r4
    then blob_result (parse_real code 4 s)
    else if code == element_type_r8
    then blob_result (parse_real code 8 s)
    else if code == element_type_string
    then mdbpr_success (mdck_primitive_constant (code % 256), s)
    else if is_integral code
    then blob_result (parse_integral code s)
    else mdbpr_invalid_argument

abbrev pub with_modifiers :
    ℕ → List Modifier → BlobResult (ConstantKind × Mdcdata) → BlobResult LocalConstantSig
with_modifiers num modifiers (mdbpr_success (kind, value)) = mdbpr_success (record {
  constant_kind = kind;
  value_blob = value;
  custom_modifier_count = num;
  custom_modifiers = modifiers;
})
with_modifiers num modifiers (mdbpr_insufficient_buffer required) =
    mdbpr_insufficient_buffer required
with_modifiers num modifiers mdbpr_invalid_argument = mdbpr_invalid_argument
with_modifiers num modifiers mdbpr_invalid_blob = mdbpr_invalid_blob
with_modifiers num modifiers mdbpr_fault = mdbpr_fault

-- The type code is read from the start of the blob.
unfoldable pub fill_constant : Mdcdata → ℕ → Mdcdata → BlobResult LocalConstantSig
unfolding modifiers_from
fill_constant blob num behind = then_parse (modifiers_from num behind) (λ modifiers.
    then_parse (decompress_u32 blob)
      (λ code. with_modifiers num modifiers (constant_of code.0 code.1)))

-- The sizes are those of `md_local_constant_sig_t` and its entries where pointers have 64 bits.
-- `blob` and `buffer_len` are not NULL.
unfoldable pub md_parse_local_constant_sig :
    Option Mdcxt → Mdcdata → Buffer → BlobResult LocalConstantSig
unfolding walk_modifiers
md_parse_local_constant_sig none blob buffer = mdbpr_invalid_argument
md_parse_local_constant_sig (some cxt) blob buffer =
    then_parse (walk_modifiers blob.size 0 blob) (λ walked.
      in_buffer buffer (required_size 40 8 walked.0) (fill_constant blob walked.0 walked.1))
