-- ===== src/Pdb/Constants/Modified.antt =====
-- Signatures with custom modifiers, in `md_parse_local_constant_sig` of src/dnmd/pdb_blobs.c.
use dnmd.Base.{ℕ, ◌≡◌, arith, sym, ap, ◌∙◌}
use dnmd.Base.{
  Option, none, some, Bool, true, false, not, ◌||◌, ltb, if◌then◌else◌, Outcome, ok, failed, fault,
}
use dnmd.Bytes.{Mdcdata, decompress_u32}
use dnmd.Context.{Mdcxt}
use dnmd.Pdb.{
  BlobResult, mdbpr_success, mdbpr_insufficient_buffer, mdbpr_invalid_argument, then_parse, Buffer,
  in_buffer, required_size,
}
use dnmd.Pdb.Constants.{
  LocalConstantSig, is_modifier, constant_of, with_modifiers, modifiers_from, walk_modifiers,
  fill_constant, md_parse_local_constant_sig,
}

-- A result that is no success.
abbrev Never {ℓ} : {A : Type ℓ} → BlobResult A → Type ℓ
Never {A = A} x = (a : A) → x ≡ mdbpr_success a → ⊥

then_parse-Never {ℓ κ} :
    {A : Type ℓ} {B : Type κ} (o : Outcome A) (next : A → BlobResult B)
    → ((a : A) → Never (next a))
    → Never (then_parse o next)
then_parse-Never (ok a) next h = h a
then_parse-Never failed next h = λ a e. cc
then_parse-Never fault next h = λ a e. cc

in_buffer-Never {ℓ} :
    {A : Type ℓ} (buffer : Buffer) (required : Outcome ℕ) (parse : BlobResult A)
    → Never parse
    → Never (in_buffer buffer required parse)
unfolding in_buffer
in_buffer-Never buffer failed parse h = λ a e. cc
in_buffer-Never buffer fault parse h = λ a e. cc
in_buffer-Never buffer (ok required) parse h =
    λ a e. either (not buffer.given || ltb buffer.len required) a e
  where
    either : (b : Bool) → Never (if b then mdbpr_insufficient_buffer required else parse)
    either true a e = cc
    either false a e = h a e

constant_of_modifier :
    (code : ℕ) (s : Mdcdata) → is_modifier code ≡ true → constant_of code s ≡ mdbpr_invalid_argument
unfolding constant_of
constant_of_modifier code s h = ground arith

fill_constant-Never :
    (blob : Mdcdata) (num : ℕ) (behind : Mdcdata) (code : ℕ × Mdcdata)
    → decompress_u32 blob ≡ ok code
    → is_modifier code.0 ≡ true
    → Never (fill_constant blob num behind)
unfolding fill_constant
fill_constant-Never blob num behind code e h =
    then_parse-Never (modifiers_from num behind) _ (λ modifiers a k.
      refused
        (ap (λ (x : BlobResult _). with_modifiers num modifiers x)
          (constant_of_modifier code.0 code.1 h))
        a
        (ap
            (λ (o : Outcome (ℕ × Mdcdata)).
              then_parse o (λ c. with_modifiers num modifiers (constant_of c.0 c.1)))
            (sym e)
          ∙ k))
  where
    refused : {x : BlobResult LocalConstantSig} → x ≡ mdbpr_invalid_argument → Never x
    refused p a q = cc

-- A signature that starts with a custom modifier is never parsed: whatever the handle and the buffer,
-- the call does not succeed.
pub md_parse_local_constant_sig-modified :
    (handle : Option Mdcxt) (blob : Mdcdata) (buffer : Buffer) (code : ℕ × Mdcdata)
    (sig : LocalConstantSig)
    → decompress_u32 blob ≡ ok code
    → is_modifier code.0 ≡ true
    → ¬ (md_parse_local_constant_sig handle blob buffer ≡ mdbpr_success sig)
unfolding md_parse_local_constant_sig
md_parse_local_constant_sig-modified none blob buffer code sig e h = λ k. cc
md_parse_local_constant_sig-modified (some cxt) blob buffer code sig e h =
    then_parse-Never (walk_modifiers blob.size 0 blob) _
      (λ walked.
        in_buffer-Never buffer (required_size 40 8 walked.0) (fill_constant blob walked.0 walked.1)
          (fill_constant-Never blob walked.0 walked.1 code e h))
      sig
