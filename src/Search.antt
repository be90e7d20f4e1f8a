-- ===== src/Search.antt =====
-- The searches of src/dnmd/search.template.h and the comparisons of src/dnmd/query.c that they are
-- instantiated with. A pointer to a row is its address; `SEARCH_COMPARE` at a key is a function from
-- the address to the int32_t that it returns, as a bit pattern.
use dnmd.Base.{ℕ, zero, suc, ◌+◌, ◌-◌, ◌*◌, ◌/◌, ◌%◌, ◌^◌}
use dnmd.Base.{Bool, Option, none, some, leb, ◌==◌, if◌then◌else◌, ◌||◌}
pub mod Compare
pub mod Binary
pub mod Closest
pub mod Linear
mod Runs

-- `res < 0` of an int32_t
abbrev pub is_negative : ℕ → Bool
is_negative res = leb (2 ^ 31) res

-- `return lhs - rhs;` of two uint16_t, and of two uint32_t
unfoldable pub col_compare_2bytes : ℕ → ℕ → ℕ
col_compare_2bytes lhs rhs = (lhs + 2 ^ 32 - rhs) % 2 ^ 32

unfoldable pub col_compare_4bytes : ℕ → ℕ → ℕ
col_compare_4bytes lhs rhs = (lhs + 2 ^ 32 - rhs) % 2 ^ 32

module _ (compare : ℕ → ℕ) (element_size : ℕ) where
  -- The row in the middle of `count` rows from `base` on.
  abbrev pub middle : ℕ → ℕ → ℕ
  middle base count = base + element_size * (count / 2)

  -- The loop at `base` and `count`; `none` is NULL. A round that goes on leaves fewer rows, so
  -- `count` rounds are enough, and no row is left where they are used up.
  bsearch_loop : ℕ → ℕ → ℕ → Option ℕ
  bsearch_loop zero base count = none
  bsearch_loop (suc fuel) base count =
      let row = middle base count in
      let res = compare row in
      let lower = bsearch_loop fuel base (count / 2) in
      let upper = bsearch_loop fuel row (count - count / 2) in
      if count == 0
      then none
      else if res == 0
      then some row
      else if count == 1
      then none
      else if is_negative res
      then lower
      else upper

  unfoldable pub md_bsearch : ℕ → ℕ → Option ℕ
  unfolding bsearch_loop
  md_bsearch base count = bsearch_loop count base count

  -- The rounds left and the row.
  lsearch_loop : ℕ → ℕ → Option ℕ
  lsearch_loop zero row = none
  lsearch_loop (suc left) row =
      if compare row == 0 then some row else lsearch_loop left (row + element_size)

  unfoldable pub md_lsearch : ℕ → ℕ → Option ℕ
  unfolding lsearch_loop
  md_lsearch base count = lsearch_loop count base

  -- The loop of `mdtable_bsearch_closest`: the last comparison and the last row.
  closest_loop : ℕ → ℕ → ℕ → ℕ → ℕ → ℕ × ℕ
  closest_loop zero base count res row = (res, row)
  closest_loop (suc fuel) base count res row =
      let row' = middle base count in
      let res' = compare row' in
      let lower = closest_loop fuel base (count / 2) res' row' in
      let upper = closest_loop fuel row' (count - count / 2) res' row' in
      if count == 0
      then (res, row)
      else if res' == 0 || count == 1
      then (res', row')
      else if is_negative res'
      then lower
      else upper

  -- The comparison and the number of the row, which counts from 1.
  unfoldable pub mdtable_bsearch_closest : ℕ → ℕ → ℕ × ℕ
  unfolding closest_loop
  mdtable_bsearch_closest base count =
      let (res, row) = closest_loop count base count 0 base in
      (res, (row - base) / element_size + 1)
