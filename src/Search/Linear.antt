-- ===== src/Search/Linear.antt =====
-- `md_lsearch` finds the first row that holds the key.
use dnmd.Base.{
  ℕ, zero, suc, ◌+◌, ◌*◌, ◌≤◌, ◌<◌, ◌≡◌, ◌≢◌, ◌↔◌, arith, refl, false, Bool-cases, inl, inr, none,
  some, subst, ◌==◌, Option,
}
use native.Mathlib.Decide.{ℕ_discrete}
use dnmd.Search.{lsearch_loop, md_lsearch}

-- The answer of a search from row `lo` up to `n`: the first row with the key.
abbrev pub FirstAnswers : ℕ → (ℕ → ℕ) → ℕ → ℕ → ℕ → ℕ → Option ℕ → Type 0
FirstAnswers size col start key lo n none = (i : ℕ) → lo ≤ i → i < n → col i ≢ key
FirstAnswers size col start key lo n (some row) =
    (i : ℕ) × (lo ≤ i)
    × (i < n)
    × (row ≡ start + size * i)
    × (col i ≡ key)
    × ((j : ℕ) → lo ≤ j → j < i → col j ≢ key)

module _ (compare : ℕ → ℕ) (size : ℕ) (col : ℕ → ℕ) (start key n : ℕ)
    (equal : (i : ℕ) → i < n → (compare (start + size * i) ≡ 0) ↔ (key ≡ col i)) where
  skip-FirstAnswers :
      (lo : ℕ) (o : Option ℕ)
      → col lo ≢ key
      → FirstAnswers size col start key (lo + 1) n o
      → FirstAnswers size col start key lo n o
  skip-FirstAnswers lo none miss h =
      λ i p q. elim (ℕ_discrete i lo) [ yes e ↦ rw e miss | no e ↦ h i (omega arith) q ]
  skip-FirstAnswers lo (some row) miss (i, p, q, r, e, first) = (
    i,
    omega arith,
    q,
    r,
    e,
    λ j a b. elim (ℕ_discrete j lo) [
      | yes same ↦ rw same miss
      | no other ↦ first j (omega arith) b
    ],
  )

  following_row : (lo : ℕ) → start + size * lo + size ≡ start + size * (lo + 1)
  following_row lo = omega arith

  lsearch_loop-FirstAnswers :
      (left lo : ℕ)
      → lo + left ≡ n
      → FirstAnswers size col start key lo n (lsearch_loop compare size left (start + size * lo))
  unfolding lsearch_loop
  lsearch_loop-FirstAnswers zero lo e = λ i p q. absurd (omega arith)
  lsearch_loop-FirstAnswers (suc left) lo e = elim (Bool-cases (compare (start + size * lo) == 0)) [
    | inl hit ↦ rw hit (
      lo,
      omega arith,
      omega arith,
      refl,
      ground (arith, equal lo (omega arith)),
      λ j p q. absurd (omega arith),
    )
    | inr miss ↦
        rw (miss, following_row)
          (skip-FirstAnswers lo _ (missed lo e miss)
            (lsearch_loop-FirstAnswers left (lo + 1) (omega arith)))
  ]
    where
      missed :
          (lo : ℕ) → lo + suc left ≡ n → compare (start + size * lo) == 0 ≡ false → col lo ≢ key
      missed lo e miss same = ground (arith, equal lo (omega arith))

  -- In rows of any order `md_lsearch` returns the first row that holds the key, and NULL only where
  -- no row does.
  pub md_lsearch-FirstAnswers :
      FirstAnswers size col start key 0 n (md_lsearch compare size start n)
  unfolding md_lsearch
  md_lsearch-FirstAnswers =
      subst (λ (t : ℕ). FirstAnswers size col start key 0 n (lsearch_loop compare size n t))
        (omega arith) (lsearch_loop-FirstAnswers n 0 (omega arith))
