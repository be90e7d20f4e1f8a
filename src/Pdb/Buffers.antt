-- ===== src/Pdb/Buffers.antt =====
-- When the parsers of src/dnmd/pdb_blobs.c fill the buffer, and what they ask for when they do not.
use dnmd.Base.{ℕ, ◌+◌, ◌*◌, ◌^◌, ◌≤◌, ◌<◌, ◌≡◌, ◌≢◌, arith, refl, sym, ap, ◌∙◌}
use dnmd.Base.{
  Bool, if◌then◌else◌, Bool-cases, inl, inr, true, false, not, ◌||◌, leb, ltb, ◌==◌, Outcome, ok,
  failed, fault,
}
use native.Mathlib.Decide.{ℕ_discrete}
use dnmd.Pdb.{
  BlobResult, mdbpr_success, mdbpr_insufficient_buffer, mdbpr_invalid_blob, Buffer, uint32_max,
  blob_result, then_parse, required_size, safe_mul_size, safe_add_size, in_buffer, parse_counted,
}

required_size-ok :
    (header entry n : ℕ)
    → header + n * entry < 2 ^ 64
    → required_size header entry n ≡ ok (header + n * entry)
unfolding required_size safe_mul_size safe_add_size
required_size-ok header entry n small =
    let a : leb (2 ^ 64) (n * entry) ≡ false = ground arith in
    let b : leb (2 ^ 64) (header + n * entry) ≡ false = ground arith in rw (a, b) refl

module _ {ℓ} {A : Type ℓ} (buffer : Buffer) (header entry n : ℕ)
    (small : header + n * entry < 2 ^ 64) (parse : ℕ → Outcome A) where
  abbrev size : ℕ
  size = header + n * entry

  -- The buffer is filled where it is given and large enough.
  pub fills :
      n ≢ uint32_max
      → buffer.given ≡ true
      → header + n * entry ≤ buffer.len
      → parse_counted (ok n) buffer header entry parse ≡ blob_result (parse n)
  unfolding parse_counted in_buffer
  fills ne given room =
      let walked : (n == uint32_max) ≡ false = ground arith in
      let large : (not buffer.given || ltb buffer.len size) ≡ false = ground arith in
      rw (walked, required_size-ok header entry n small, large) refl

  -- Otherwise its size is asked for.
  pub asks :
      n ≢ uint32_max
      → (not buffer.given || ltb buffer.len size) ≡ true
      → parse_counted (ok n) buffer header entry parse
        ≡ mdbpr_insufficient_buffer (header + n * entry)
  unfolding parse_counted in_buffer
  asks ne lacks =
      let walked : (n == uint32_max) ≡ false = ground arith in
      rw (walked, required_size-ok header entry n small, lacks) refl

pub blob_result-success {ℓ} :
    {A : Type ℓ} (o : Outcome A) (a : A) → blob_result o ≡ mdbpr_success a → o ≡ ok a
blob_result-success (ok b) a h = cc
blob_result-success failed a h = cc
blob_result-success fault a h = cc

unwalked {ℓ} :
    {A : Type ℓ} (buffer : Buffer) (header entry : ℕ) (parse : ℕ → Outcome A)
    → parse_counted (ok uint32_max) buffer header entry parse ≡ mdbpr_invalid_blob
unfolding parse_counted
unwalked buffer header entry parse = refl

no_success {ℓ} :
    {A : Type ℓ} {x : BlobResult A} {a : A} → x ≡ mdbpr_invalid_blob → x ≡ mdbpr_success a → ⊥
no_success e h = cc

asked {ℓ} :
    {A : Type ℓ} {x : BlobResult A} {a : A} {r : ℕ}
    → x ≡ mdbpr_insufficient_buffer r
    → x ≡ mdbpr_success a
    → ⊥
asked e h = cc

-- A success has walked the blob and filled a buffer that is given and large enough.
pub parse_counted-success {ℓ} :
    {A : Type ℓ} (count : Outcome ℕ) (buffer : Buffer) (header entry : ℕ) (parse : ℕ → Outcome A)
    (a : A)
    → ((n : ℕ) → count ≡ ok n → header + n * entry < 2 ^ 64)
    → parse_counted count buffer header entry parse ≡ mdbpr_success a
    → (n : ℕ) × (count ≡ ok n)
      × (n ≢ uint32_max)
      × (buffer.given ≡ true)
      × (header + n * entry ≤ buffer.len)
      × (parse n ≡ ok a)
unfolding parse_counted
parse_counted-success failed buffer header entry parse a small h = cc
parse_counted-success fault buffer header entry parse a small h = cc
parse_counted-success (ok n) buffer header entry parse a small h = elim (ℕ_discrete n uint32_max) [
  | yes unwalkable ↦ absurd (
      no_success
        (ap (λ (k : ℕ). parse_counted (ok k) buffer header entry parse) unwalkable
          ∙ unwalked buffer header entry parse)
        h)
  | no walked ↦ elim (Bool-cases (not buffer.given || ltb buffer.len (header + n * entry))) [
    | inl lacks ↦ absurd (asked (asks buffer header entry n (small n refl) parse walked lacks) h)
    | inr large ↦
        let given : buffer.given ≡ true = ground arith in
        let room : header + n * entry ≤ buffer.len = ground arith in
        (
          n,
          refl,
          walked,
          given,
          room,
          blob_result-success (parse n) a
              (sym (fills buffer header entry n (small n refl) parse walked given room) ∙ h),
        )
  ]
]

pub then_parse-success {ℓ κ} :
    {A : Type ℓ} {B : Type κ} (o : Outcome A) (next : A → BlobResult B) (b : B)
    → then_parse o next ≡ mdbpr_success b
    → (a : A) × (o ≡ ok a) × (next a ≡ mdbpr_success b)
then_parse-success (ok a) next b h = (a, refl, h)
then_parse-success failed next b h = cc
then_parse-success fault next b h = cc

pub in_buffer-success {ℓ} :
    {A : Type ℓ} (buffer : Buffer) (required : Outcome ℕ) (parse : BlobResult A) (a : A)
    → in_buffer buffer required parse ≡ mdbpr_success a
    → parse ≡ mdbpr_success a
unfolding in_buffer
in_buffer-success buffer failed parse a h = cc
in_buffer-success buffer fault parse a h = cc
in_buffer-success buffer (ok required) parse a h =
    either (not buffer.given || ltb buffer.len required) h
  where
    either :
        (b : Bool)
        → (if b then mdbpr_insufficient_buffer required else parse) ≡ mdbpr_success a
        → parse ≡ mdbpr_success a
    either true k = cc
    either false k = k
