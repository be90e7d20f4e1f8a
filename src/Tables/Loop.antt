-- ===== src/Tables/Loop.antt =====
-- The loop of `initialize_tables` of src/dnmd/streams.c over the tables.
use dnmd.Base.{
  ℕ, zero, suc, ◌+◌, ◌*◌, ◌/◌, ◌%◌, ◌^◌, ◌≤◌, ◌<◌, ◌≡◌, ◌≢◌, ◌⊎◌, arith, refl, subst, ap, sym, ◌∙◌,
}
use dnmd.Base.{
  List, Option, none, some, true, false, drop-drop, inl, inr, drop, get_elem?, bit_and, bit_or,
}
use dnmd.Base.{◌==◌, if◌then◌else◌, Outcome, ok, >>=-eq-ok, ok-injective}
use dnmd.Bytes.{Mdcdata, IsStream}
use dnmd.Bytes.Little.{little}
use dnmd.Context.{Mdcxt, mdc_extra_data}
use dnmd.Schema.Details.{Mdtable}
use dnmd.Tables.{initialize_tables, initialize_table, initialize_valid, initialize_from, merge_pdb}
use dnmd.Bytes.Count.{ones}
use dnmd.Tables.Counts.{after, after-IsStream, counts_of}
use dnmd.Tables.Header.{initialize_tables-from_header, from_header, sized}
use dnmd.Tables.Loaded.{IsEntry, Loads, initialize_entry-parts, get_elem?-set_other}
use dnmd.Tables.Masks.{load, plain_counted}
use native.Mathlib.Decide.{ℕ_discrete}
use native.Mathlib.Nat.{pow-suc, mul_comm, div-div-eq-div-mul}
use dnmd.Tables.Body.{turn, HasBit, RunsBody, valid_parts}
pub mod Whole

-- The bytes that the rows of table `i` take.
abbrev rows_size : List Mdtable → ℕ → ℕ
rows_size tables i = elim (get_elem? tables i) [ none ↦ 0 | some t ↦ t.contents.size ]

-- The bytes before the rows of table `i + j`, in a mask from the table `i` on.
pub rows_before : ℕ → ℕ → ℕ → List Mdtable → ℕ
rows_before zero i valid tables = 0
rows_before (suc j) i valid tables =
    (if valid % 2 == 1 then rows_size tables i else 0) + rows_before j (i + 1) (valid / 2) tables

-- The tables of the mask `valid`, from the table `i` on, are loaded with the rows of the stream one
-- behind the other, and all others stand as before.
pub record AllLoaded (counts : List ℕ) (i valid sorted : ℕ) (s : Mdcdata)
    (tables tables' : List Mdtable) : Type 0 where
  pub loaded :
      (j : ℕ)
      → HasBit valid j
      → (t : Mdtable) × (get_elem? tables' (i + j) ≡ some t)
        × IsEntry counts
            (i + j)
            (sorted / 2 ^ j % 2 == 1)
            (drop (rows_before j i valid tables') s.ptr)
            t
  pub others :
      (k : ℕ)
      → ((j : ℕ) → k ≡ i + j → HasBit valid j → ⊥)
      → get_elem? tables' k ≡ get_elem? tables k

no_bit : (j : ℕ) → HasBit 0 j → ⊥
no_bit j h = grind arith

half : (v j : ℕ) → v / 2 / 2 ^ j ≡ v / 2 ^ suc j
half v j =
    div-div-eq-div-mul v 2 (2 ^ j) ∙ ap (λ (w : ℕ). v / w) (mul_comm 2 (2 ^ j) ∙ sym (pow-suc 2 j))

next_bit : (valid j : ℕ) → HasBit valid (suc j) → HasBit (valid / 2) j
next_bit valid j h = ap (λ (v : ℕ). v % 2) (half valid j) ∙ h

earlier_bit : (valid j : ℕ) → HasBit (valid / 2) j → HasBit valid (suc j)
earlier_bit valid j h = ap (λ (v : ℕ). v % 2) (sym (half valid j)) ∙ h

all_zero :
    (counts : List ℕ) (i valid sorted : ℕ) (s : Mdcdata) (tables tables' : List Mdtable)
    → valid ≡ 0
    → tables ≡ tables'
    → AllLoaded counts i valid sorted s tables tables'
all_zero counts i valid sorted s tables tables' z e = record {
  loaded = λ j b. absurd (no_bit j (subst (λ v. HasBit v j) z b));
  others = λ k h. ap (λ t. get_elem? t k) (sym e);
}

RunsBody-AllLoaded :
    (counts : List ℕ) (i valid sorted : ℕ) (tables tables' : List Mdtable) (s : Mdcdata)
    (p : List Mdtable × Mdcdata)
    → RunsBody counts i valid sorted tables s p
    → AllLoaded counts (i + 1) (valid / 2) (sorted / 2) p.1 p.0 tables'
    → AllLoaded counts i valid sorted s tables tables'
unfolding rows_before
RunsBody-AllLoaded counts i valid sorted tables tables' s p now later = record {
  loaded = loaded;
  others = others;
}
  where
    here : get_elem? tables' i ≡ get_elem? p.0 i
    here = later.others i (λ j e b. omega arith)

    -- The stream after the turn.
    moved : p.1.ptr ≡ drop (if valid % 2 == 1 then rows_size tables' i else 0) s.ptr
    moved = elim now [
      | inl (odd, (t, is, at, _, after_rows, _)) ↦
          let taken : (valid % 2 == 1) ≡ true = ground arith in
          let size : rows_size tables' i ≡ t.contents.size =
            ap (λ (o : Option Mdtable). elim o as (λ _. ℕ) [ none ↦ 0 | some u ↦ u.contents.size ])
              (here ∙ at) in
          rw (taken, size) (ap (λ (d : Mdcdata). d.ptr) after_rows)
      | inr (even, _, same, _) ↦
          let passed : (valid % 2 == 1) ≡ false = ground arith in
          rw passed (ap (λ (d : Mdcdata). d.ptr) same)
    ]

    loaded :
        (j : ℕ)
        → HasBit valid j
        → (t : Mdtable) × (get_elem? tables' (i + j) ≡ some t)
          × IsEntry counts
              (i + j)
              (sorted / 2 ^ j % 2 == 1)
              (drop (rows_before j i valid tables') s.ptr)
              t
    loaded zero b = elim now [
      | inl (odd, (t, is, at, _, _, _)) ↦
          let first : i ≡ i + 0 = omega arith in
          let bit : sorted % 2 ≡ sorted / 2 ^ 0 % 2 = omega arith in
          (
            t,
            ap (get_elem? tables') (omega arith) ∙ here ∙ at,
            subst (λ (k : ℕ). IsEntry counts k (sorted / 2 ^ 0 % 2 == 1) s.ptr t) first
                (subst (λ (d : ℕ). IsEntry counts i (d == 1) s.ptr t) bit is),
          )
      | inr (even, _, _, _) ↦ absurd (omega arith)
    ]
    loaded (suc j) b =
        let (t, at, is) = later.loaded j (next_bit valid j b) in
        let number : i + 1 + j ≡ i + suc j = omega arith in
        let there : List ℕ = drop (rows_before j (i + 1) (valid / 2) tables') p.1.ptr in
        let rows : drop (rows_before j (i + 1) (valid / 2) tables') p.1.ptr
            ≡ drop (rows_before (suc j) i valid tables') s.ptr =
          rw moved (
            drop-drop (rows_before j (i + 1) (valid / 2) tables')
              (if valid % 2 == 1 then rows_size tables' i else 0) s.ptr) in
        (
          t,
          ap (get_elem? tables') (omega arith) ∙ at,
          subst (λ (d : List ℕ). IsEntry counts (i + suc j) (sorted / 2 ^ suc j % 2 == 1) d t) rows
              (subst (λ (v : ℕ). IsEntry counts (i + suc j) (v % 2 == 1) there t) (half sorted j)
                (subst (λ (k : ℕ). IsEntry counts k (sorted / 2 / 2 ^ j % 2 == 1) there t) number
                  is)),
        )

    others :
        (k : ℕ)
        → ((j : ℕ) → k ≡ i + j → HasBit valid j → ⊥)
        → get_elem? tables' k ≡ get_elem? tables k
    others k h = later.others k (λ j e b. h (suc j) (omega arith) (earlier_bit valid j b)) ∙ before
      where
        before : get_elem? p.0 k ≡ get_elem? tables k
        before = elim now [
          | inl (odd, loads) ↦
              ap (λ u. get_elem? u k) loads.3
              ∙ get_elem?-set_other tables i k loads.0 (λ same. h zero (omega arith) (omega arith))
          | inr (_, e, _, _) ↦ ap (λ u. get_elem? u k) e
        ]

rest_IsStream :
    (counts : List ℕ) (i valid sorted : ℕ) (tables : List Mdtable) (s : Mdcdata)
    (p : List Mdtable × Mdcdata)
    → RunsBody counts i valid sorted tables s p
    → IsStream p.1
rest_IsStream counts i valid sorted tables s p (inl (_, (_, _, _, _, _, r))) = r
rest_IsStream counts i valid sorted tables s p (inr (_, _, _, r)) = r

-- The loop over the tables loads those of a mask of at most `m` tables that end at the last one.
pub initialize_from-AllLoaded :
    (n m : ℕ) (counts : List ℕ) (flags i valid sorted : ℕ) (tables tables' : List Mdtable)
    (s s' : Mdcdata)
    → i + m ≡ 56
    → valid < 2 ^ m
    → m ≤ n
    → IsStream s
    → initialize_from n counts flags i valid sorted tables s ≡ ok (tables', s')
    → AllLoaded counts i valid sorted s tables tables'
unfolding initialize_from
initialize_from-AllLoaded zero zero counts flags i valid sorted tables tables' s s' em lt le v e =
    all_zero counts i valid sorted s tables tables' (omega arith) (ap (λ r. r.0) (ok-injective e))
initialize_from-AllLoaded zero (suc m) counts flags i valid sorted tables tables' s s' em lt le v
      e =
    absurd (omega arith)
initialize_from-AllLoaded (suc n) zero counts flags i valid sorted tables tables' s s' em lt le v
      e =
    elim (turn n counts flags i valid sorted tables tables' s s' e) [
      | inl (z, same) ↦ all_zero counts i valid sorted s tables tables' z same
      | inr (p, more, _, _) ↦ absurd (more (omega arith))
    ]
initialize_from-AllLoaded (suc n) (suc m) counts flags i valid sorted tables tables' s s' em lt le v
      e =
    elim (turn n counts flags i valid sorted tables tables' s s' e) [
      | inl (z, same) ↦ all_zero counts i valid sorted s tables tables' z same
      | inr (p, more, e1, e2) ↦
          let now = valid_parts counts flags i valid sorted tables s p (omega arith) v e1 in
          RunsBody-AllLoaded counts i valid sorted tables tables' s p now (
            initialize_from-AllLoaded n m counts flags (i + 1) (valid / 2) (sorted / 2) p.0 tables'
              p.1 s' (omega arith) (omega (arith, pow-suc 2 m)) (omega arith)
              (rest_IsStream counts i valid sorted tables s p now) e2)
    ]
