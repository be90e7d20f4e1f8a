-- ===== src/Search/Closest.antt =====
-- `mdtable_bsearch_closest` finds a row to start from, also for a key that stands in no row.
use dnmd.Base.{
  ℕ, zero, suc, ◌+◌, ◌-◌, ◌*◌, ◌/◌, ◌≤◌, ◌<◌, ◌≡◌, ◌≢◌, ◌⊎◌, arith, refl, true, false, Bool-cases,
  inl, inr, subst, ap, ◌==◌, ◌||◌, if◌then◌else◌,
}
use dnmd.Search.{is_negative, middle, closest_loop, mdtable_bsearch_closest}
use dnmd.Search.Compare.{Orders}
use native.Mathlib.Nat.{mul-div_right}
use dnmd.Search.Binary.{Ascends}

-- The row number `i` with the comparison `res` against it: it holds the key, or the key is below
-- every row and this is the first one, or it is the last row below the key.
pub record IsClosest (col : ℕ → ℕ) (key n res i : ℕ) : Type 0 where
  pub in_table : i < n
  pub equal : res ≡ 0 → col i ≡ key
  pub below_all : is_negative res ≡ true → (i ≡ 0) × ((j : ℕ) → j < n → key < col j)
  pub above :
      res ≢ 0 → is_negative res ≡ false → (col i < key) × ((j : ℕ) → i < j → j < n → key < col j)

-- The result of the loop, its row as an address.
abbrev ClosestAt : (ℕ → ℕ) → ℕ → ℕ → ℕ → ℕ → ℕ × ℕ → Type 0
ClosestAt col key n size start r = (i : ℕ) × (r.1 ≡ start + size * i) × IsClosest col key n r.0 i

module _ (compare : ℕ → ℕ) (size : ℕ) (col : ℕ → ℕ) (start key n : ℕ)
    (orders : (i : ℕ) → i < n → Orders (compare (start + size * i)) key (col i))
    (sorted : Ascends col n) where
  -- The rows up to `lo` are below the key, if any has been passed, and those behind are above it.
  record Between (lo count : ℕ) : Type 0 where
    some_row : 0 < count
    inside : lo + count ≤ n
    passed : (lo ≡ 0) ⊎ (col lo < key)
    behind : (j : ℕ) → lo + count ≤ j → j < n → key < col j

  module _ (lo count : ℕ) (b : Between lo count) where
    abbrev mid : ℕ
    mid = lo + count / 2

    at_mid : Orders (compare (start + size * mid)) key (col mid)
    at_mid = orders mid (omega (arith, b.some_row, b.inside))

    row-eq : middle compare size (start + size * lo) count ≡ start + size * mid
    row-eq = omega arith

    lower-Between :
        count ≢ 1 → is_negative (compare (start + size * mid)) ≡ true → Between lo (count / 2)
    lower-Between more e = record {
      some_row = omega (arith, b.some_row);
      inside = omega (arith, b.inside);
      passed = b.passed;
      behind = λ j p q. omega (arith, at_mid.less.0 e, sorted mid j p q);
    }

    upper-Between :
        count ≢ 1
        → compare (start + size * mid) ≢ 0
        → is_negative (compare (start + size * mid)) ≡ false
        → Between mid (count - count / 2)
    upper-Between more e f = record {
      some_row = omega (arith, b.some_row);
      inside = omega (arith, b.inside);
      passed = inr (ground (arith, at_mid.less.1, at_mid.equal.1));
      behind = λ j p q. b.behind j (omega arith) q;
    }

    hit-IsClosest :
        compare (start + size * mid) ≡ 0 → IsClosest col key n (compare (start + size * mid)) mid
    hit-IsClosest e = record {
      in_table = omega (arith, b.some_row, b.inside);
      equal = λ z. ground (arith, at_mid.equal.0);
      below_all = λ neg. absurd (ground arith);
      above = λ ne. absurd (ne e);
    }

    here : count ≡ 1 → mid ≡ lo
    here e = omega arith

    first_below :
        count ≡ 1
        → is_negative (compare (start + size * mid)) ≡ true
        → (mid ≡ 0) × ((j : ℕ) → j < n → key < col j)
    first_below e neg =
        let less : key < col mid = at_mid.less.0 neg in
        let same : col mid ≡ col lo = ap col (here e) in
        let zero_lo : mid ≡ 0 = elim b.passed [
          | inl z ↦ omega (arith, here e)
          | inr p ↦ absurd (omega arith)
        ] in
        (zero_lo, λ j p. omega (arith, sorted mid j (omega arith) p))

    last_above :
        count ≡ 1
        → compare (start + size * mid) ≢ 0
        → is_negative (compare (start + size * mid)) ≡ false
        → (col mid < key) × ((j : ℕ) → mid < j → j < n → key < col j)
    last_above e ne not_neg = (
      ground (arith, at_mid.less.1, at_mid.equal.1),
      λ j p q. b.behind j (omega (arith, here e)) q,
    )

    single-IsClosest : count ≡ 1 → IsClosest col key n (compare (start + size * mid)) mid
    single-IsClosest e = record {
      in_table = omega (arith, b.some_row, b.inside);
      equal = λ z. ground (arith, at_mid.equal.0);
      below_all = λ neg. first_below e neg;
      above = λ ne not_neg. last_above e ne not_neg;
    }

  -- What a round returns, from what the rounds that may follow return.
  round-ClosestAt :
      (lo count : ℕ) (b : Between lo count) (lower upper : ℕ × ℕ)
      → (Between lo (count / 2) → ClosestAt col key n size start lower)
      → (count ≢ 1
          → Between (lo + count / 2) (count - count / 2)
          → ClosestAt col key n size start upper)
      → let row = start + size * (lo + count / 2) in
        ClosestAt col key n size start (
          if compare row == 0 || count == 1
          then (compare row, row)
          else if is_negative (compare row)
          then lower
          else upper)
  round-ClosestAt lo count b lower upper below above =
      elim (Bool-cases (compare (start + size * mid lo count b) == 0)) [
        | inl hit ↦ rw hit (mid lo count b, refl, hit-IsClosest lo count b (ground arith))
        | inr miss ↦ elim (Bool-cases (count == 1)) [
          | inl single ↦
              rw (miss, single) (mid lo count b, refl, single-IsClosest lo count b (ground arith))
          | inr more ↦ elim (Bool-cases (is_negative (compare (start + size * mid lo count b)))) [
            | inl less ↦
                rw (miss, more, less) (below (lower-Between lo count b (ground arith) less))
            | inr not_less ↦
                rw (miss, more, not_less)
                  (above (ground arith)
                    (upper-Between lo count b (ground arith) (ground arith) not_less))
          ]
        ]
      ]

  closest_loop-IsClosest :
      (fuel lo count res row : ℕ)
      → count ≤ fuel
      → Between lo count
      → ClosestAt col key n size start
          (closest_loop compare size fuel (start + size * lo) count res row)
  unfolding closest_loop
  closest_loop-IsClosest zero lo count res row f b = absurd (omega (arith, b.some_row))
  closest_loop-IsClosest (suc fuel) lo count res row f b =
      let left : count == 0 ≡ false = ground (arith, b.some_row) in
      rw (left, row-eq lo count b)
        (round-ClosestAt lo count b
          (closest_loop compare size fuel (start + size * lo) (count / 2) _ _)
          (closest_loop compare size fuel (start + size * (lo + count / 2)) (count - count / 2) _ _)
          (λ b'. closest_loop-IsClosest fuel lo (count / 2) _ _ (omega (arith, b.some_row)) b')
          (λ ne b'.
            closest_loop-IsClosest fuel (lo + count / 2) (count - count / 2) _ _ (omega arith) b'))

  -- In ascending rows, one at least, `mdtable_bsearch_closest` returns the number, from 1 on, of a
  -- row as `IsClosest` says, with the comparison against it.
  pub mdtable_bsearch_closest-IsClosest :
      0 < size
      → 0 < n
      → let (res, found) = mdtable_bsearch_closest compare size start n in
        (1 ≤ found) × IsClosest col key n res (found - 1)
  unfolding mdtable_bsearch_closest
  mdtable_bsearch_closest-IsClosest pos rows =
      let (i, at, closest) = whole rows in
      (
        omega arith,
        subst (λ (t : ℕ). IsClosest col key n (closest_loop compare size n start n 0 start).0 t)
            (number i _ pos at) closest,
      )
    where
      whole : 0 < n → ClosestAt col key n size start (closest_loop compare size n start n 0 start)
      whole some =
          subst
            (λ (t : ℕ). ClosestAt col key n size start (closest_loop compare size n t n 0 start))
            (omega arith)
            (closest_loop-IsClosest n 0 n 0 start (omega arith) (record {
              some_row = some;
              inside = omega arith;
              passed = inl refl;
              behind = λ j p q. absurd (omega arith);
            }))

      number : (i row : ℕ) → 0 < size → row ≡ start + size * i → i ≡ (row - start) / size + 1 - 1
      number i row p e =
          let q : (size * i) / size ≡ i = mul-div_right i p in
          let d : row - start ≡ size * i = omega arith in
          omega (arith, q, ap (λ (t : ℕ). t / size) d)
