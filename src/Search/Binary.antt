-- ===== src/Search/Binary.antt =====
-- `md_bsearch` finds a key in sorted rows exactly where it stands.
use dnmd.Base.{
  ℕ, zero, suc, ◌+◌, ◌-◌, ◌*◌, ◌/◌, ◌≤◌, ◌<◌, ◌≡◌, ◌≢◌, arith, refl, true, false, Bool-cases, inl,
  inr, none, some, ◌==◌, if◌then◌else◌, subst, Option,
}
use native.Mathlib.Decide.{dec_lt}
use dnmd.Search.{is_negative, middle, bsearch_loop, md_bsearch}
use dnmd.Search.Compare.{Orders}

-- The rows from number `lo` on, `count` of them, hold the values of an ascending column.
abbrev pub Ascends : (ℕ → ℕ) → ℕ → Type 0
Ascends col n = (i j : ℕ) → i ≤ j → j < n → col i ≤ col j

-- The answer of a search for a key among the rows lo to lo + count.
abbrev pub Answers : ℕ → (ℕ → ℕ) → ℕ → ℕ → ℕ → ℕ → Option ℕ → Type 0
Answers size col start key lo count none = (i : ℕ) → lo ≤ i → i < lo + count → col i ≢ key
Answers size col start key lo count (some row) =
    (i : ℕ) × (lo ≤ i) × (i < lo + count) × (row ≡ start + size * i) × (col i ≡ key)

module _ (compare : ℕ → ℕ) (size : ℕ) (col : ℕ → ℕ) (start key n : ℕ)
    (orders : (i : ℕ) → i < n → Orders (compare (start + size * i)) key (col i))
    (sorted : Ascends col n) where
  module _ (lo count : ℕ) (some_row : 0 < count) (inside : lo + count ≤ n) where
    abbrev mid : ℕ
    mid = lo + count / 2

    row-eq : middle compare size (start + size * lo) count ≡ start + size * mid
    row-eq = omega arith

    at_mid : Orders (compare (start + size * mid)) key (col mid)
    at_mid = orders mid (omega arith)

    -- A key below the middle row stands in no row from there on, one above it in no row up to it.
    not_above :
        is_negative (compare (start + size * mid)) ≡ true
        → (i : ℕ) → mid ≤ i
        → i < lo + count
        → col i ≢ key
    not_above e i p q same = omega (arith, at_mid.less.0 e, sorted mid i p (omega arith))

    not_below :
        compare (start + size * mid) ≢ 0
        → is_negative (compare (start + size * mid)) ≡ false
        → (i : ℕ) → i ≤ mid
        → col i ≢ key
    not_below e f i p same =
        ground (arith, at_mid.less.1, at_mid.equal.1, sorted i mid p (omega arith))

    lower-Answers :
        (o : Option ℕ)
        → is_negative (compare (start + size * mid)) ≡ true
        → Answers size col start key lo (count / 2) o
        → Answers size col start key lo count o
    lower-Answers none e h = λ i p q. elim (dec_lt i mid) [
      | yes below ↦ h i p below
      | no above ↦ not_above e i (omega arith) q
    ]
    lower-Answers (some row) e (i, p, q, r, k) = (i, p, omega arith, r, k)

    upper-Answers :
        (o : Option ℕ)
        → compare (start + size * mid) ≢ 0
        → is_negative (compare (start + size * mid)) ≡ false
        → Answers size col start key mid (count - count / 2) o
        → Answers size col start key lo count o
    upper-Answers none e f h = λ i p q. elim (dec_lt i mid) [
      | yes below ↦ not_below e f i (omega arith)
      | no above ↦ h i (omega arith) (omega arith)
    ]
    upper-Answers (some row) e f (i, p, q, r, k) = (i, omega arith, omega arith, r, k)

    no_hit :
        compare (start + size * mid) == 0 ≡ false
        → count == 1 ≡ true
        → (i : ℕ) → lo ≤ i
        → i < lo + count
        → col i ≢ key
    no_hit miss single i p q same =
        let one : count ≡ 1 = ground arith in
        let here : i ≡ mid = omega arith in ground (arith, at_mid.equal.1)

    -- What a round answers, from the answers of the rounds that may follow.
    round-Answers :
        (lower upper : Option ℕ)
        → Answers size col start key lo (count / 2) lower
        → (count == 1 ≡ false → Answers size col start key mid (count - count / 2) upper)
        → Answers size col start key lo count (
            if compare (start + size * mid) == 0
            then some (start + size * mid)
            else if count == 1
            then none
            else if is_negative (compare (start + size * mid))
            then lower
            else upper)
    round-Answers lower upper below above = elim (Bool-cases (compare (start + size * mid) == 0)) [
      | inl hit ↦ rw hit (mid, omega arith, omega arith, refl, ground (arith, at_mid.equal.0))
      | inr miss ↦ elim (Bool-cases (count == 1)) [
        | inl single ↦ rw (miss, single) (λ i p q same. no_hit miss single i p q same)
        | inr more ↦ elim (Bool-cases (is_negative (compare (start + size * mid)))) [
          | inl less ↦ rw (miss, more, less) (lower-Answers lower less below)
          | inr not_less ↦
              rw (miss, more, not_less) (upper-Answers upper (ground arith) not_less (above more))
        ]
      ]
    ]

  bsearch_loop-Answers :
      (fuel lo count : ℕ)
      → count ≤ fuel
      → lo + count ≤ n
      → Answers size col start key lo count
          (bsearch_loop compare size fuel (start + size * lo) count)
  unfolding bsearch_loop
  bsearch_loop-Answers zero lo count f h = λ i p q. absurd (omega arith)
  bsearch_loop-Answers (suc fuel) lo count f h = elim (Bool-cases (count == 0)) [
    | inl none_left ↦ rw none_left (λ i p q. absurd (ground arith))
    | inr left ↦
        let pos : 0 < count = ground arith in
        rw (left, row-eq lo count pos h)
          (round-Answers lo count pos h
            (bsearch_loop compare size fuel (start + size * lo) (count / 2))
            (bsearch_loop compare size fuel (start + size * (lo + count / 2)) (count - count / 2))
            (bsearch_loop-Answers fuel lo (count / 2) (ground arith) (omega arith))
            (λ more.
              bsearch_loop-Answers fuel (lo + count / 2) (count - count / 2) (ground arith)
                (omega arith)))
  ]

  -- On ascending rows `md_bsearch` returns a row that holds the key, and NULL only where no row does.
  pub md_bsearch-Answers : Answers size col start key 0 n (md_bsearch compare size start n)
  unfolding md_bsearch
  md_bsearch-Answers =
      subst (λ (t : ℕ). Answers size col start key 0 n (bsearch_loop compare size n t n))
        (omega arith) (bsearch_loop-Answers n 0 n (omega arith) (omega arith))
