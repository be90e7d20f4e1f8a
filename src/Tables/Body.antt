-- ===== src/Tables/Body.antt =====
-- A turn of the loop of `initialize_tables` of src/dnmd/streams.c over the tables.
use dnmd.Base.{ℕ, suc, ◌+◌, ◌/◌, ◌%◌, ◌^◌, ◌<◌, ◌≡◌, ◌≢◌, ◌⊎◌, arith, refl, subst, ap, sym}
use dnmd.Base.{List, inl, inr, get_elem?}
use dnmd.Base.{◌==◌, if◌then◌else◌, Outcome, ok, >>=-eq-ok, ok-injective}
use dnmd.Bytes.{Mdcdata, IsStream}
use dnmd.Schema.Details.{Mdtable}
use dnmd.Tables.{initialize_table, initialize_valid, initialize_from}
use dnmd.Tables.Loaded.{Loads, initialize_entry-parts}
use native.Mathlib.Decide.{ℕ_discrete}

stop :
    {B : Type 0} (n : ℕ) (x y : B) (r : Outcome B)
    → n ≡ 0
    → (if n == 0 then ok x else r) ≡ ok y
    → x ≡ y
stop n x y r z e = ground arith

go_on :
    {B : Type 0} (n : ℕ) (x y : B) (r : Outcome B)
    → n ≢ 0
    → (if n == 0 then ok x else r) ≡ ok y
    → r ≡ ok y
go_on n x y r z e = ground arith

-- One turn of the loop: it is over, or the body has been run and the loop goes on.
pub turn :
    (n : ℕ) (counts : List ℕ) (flags i valid sorted : ℕ) (tables tables' : List Mdtable)
    (s s' : Mdcdata)
    → initialize_from (suc n) counts flags i valid sorted tables s ≡ ok (tables', s')
    → ((valid ≡ 0) × (tables ≡ tables'))
      ⊎ (p : List Mdtable × Mdcdata) × (valid ≢ 0)
        × (initialize_valid counts flags i valid sorted tables s ≡ ok p)
        × (initialize_from n counts flags (i + 1) (valid / 2) (sorted / 2) p.0 p.1
            ≡ ok (tables', s'))
unfolding initialize_from
turn n counts flags i valid sorted tables tables' s s' e = elim (ℕ_discrete valid 0) [
  | yes done ↦ inl (done, ap (λ r. r.0) (stop valid _ _ _ done e))
  | no more ↦
      let (p, e1, e2) =
        >>=-eq-ok (initialize_valid counts flags i valid sorted tables s) _
          (go_on valid _ _ _ more e) in
      inr (p, more, e1, e2)
]

-- A bit of the mask.
abbrev pub HasBit : ℕ → ℕ → Type 0
HasBit valid j = valid / 2 ^ j % 2 ≡ 1

-- What the body does, where the mask has the bit and where it has not.
abbrev pub RunsBody : List ℕ → ℕ → ℕ → ℕ → List Mdtable → Mdcdata → List Mdtable × Mdcdata → Type 0
RunsBody counts i valid sorted tables s p =
    ((valid % 2 ≡ 1) × Loads counts i (sorted % 2 == 1) tables s p.0 p.1)
    ⊎ ((valid % 2 ≡ 0) × (p.0 ≡ tables) × (p.1 ≡ s) × IsStream p.1)

pub valid_parts :
    (counts : List ℕ) (flags i valid sorted : ℕ) (tables : List Mdtable) (s : Mdcdata)
    (p : List Mdtable × Mdcdata)
    → i < 56
    → IsStream s
    → initialize_valid counts flags i valid sorted tables s ≡ ok p
    → RunsBody counts i valid sorted tables s p
valid_parts counts flags i valid sorted tables s p lt v e = elim (ℕ_discrete (valid % 2) 1) [
  | yes odd ↦ inl (
    odd,
    initialize_entry-parts counts flags i (sorted % 2 == 1) tables p.0 s p.1 (get_elem? tables i) lt
        v refl (taken odd),
  )
  | no even ↦
      let q : (tables, s) ≡ p = ok-injective (passed even) in
      inr (
        omega arith,
        sym (ap (λ r. r.0) q),
        sym (ap (λ r. r.1) q),
        subst IsStream (ap (λ r. r.1) q) v,
      )
]
  where
    taken : valid % 2 ≡ 1 → initialize_table counts flags i (sorted % 2 == 1) tables s ≡ ok p
    taken odd = ground arith

    passed : valid % 2 ≢ 1 → ok (tables, s) ≡ ok p
    passed even = ground arith
