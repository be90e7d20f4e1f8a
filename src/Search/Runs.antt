-- ===== src/Search/Runs.antt =====
-- Runs of the searches over three rows of two bytes from address 100 on.
use dnmd.Base.{ℕ, ◌+◌, ◌-◌, ◌*◌, ◌/◌, ◌^◌, ◌≤◌, ◌<◌, ◌≡◌, ◌↔◌, arith}
use dnmd.Search.{
  col_compare_2bytes, col_compare_4bytes, md_bsearch, md_lsearch, mdtable_bsearch_closest,
}
use dnmd.Search.Binary.{Answers, md_bsearch-Answers, Ascends}
use dnmd.Search.Closest.{IsClosest, mdtable_bsearch_closest-IsClosest}
use dnmd.Search.Compare.{Orders, col_compare_2bytes-Orders, col_compare_4bytes-Orders_iff}
use dnmd.Search.Linear.{FirstAnswers, md_lsearch-FirstAnswers}

-- The values 10, 20, 30, ...
abbrev tens : ℕ → ℕ
tens i = 10 * i + 10

abbrev compare_key : ℕ → ℕ
compare_key row = col_compare_2bytes 20 (tens ((row - 100) / 2))

tens-Ascends : Ascends tens 3
tens-Ascends i j le lt = omega arith

ordered : (i : ℕ) → i < 3 → Orders (compare_key (100 + 2 * i)) 20 (tens i)
ordered i lt =
    let at : (100 + 2 * i - 100) / 2 ≡ i = omega arith in
    rw at (col_compare_2bytes-Orders 20 (tens i) (omega arith) (omega arith))

equal_only : (i : ℕ) → i < 3 → (compare_key (100 + 2 * i) ≡ 0) ↔ (20 ≡ tens i)
equal_only i lt = (ordered i lt).equal

md_bsearch-Answers_example : Answers 2 tens 100 20 0 3 (md_bsearch compare_key 2 100 3)
md_bsearch-Answers_example = md_bsearch-Answers compare_key 2 tens 100 20 3 ordered tens-Ascends

md_lsearch-FirstAnswers_example : FirstAnswers 2 tens 100 20 0 3 (md_lsearch compare_key 2 100 3)
md_lsearch-FirstAnswers_example = md_lsearch-FirstAnswers compare_key 2 tens 100 20 3 equal_only

mdtable_bsearch_closest-IsClosest_example :
    let (res, found) = mdtable_bsearch_closest compare_key 2 100 3 in
    (1 ≤ found) × IsClosest tens 20 3 res (found - 1)
mdtable_bsearch_closest-IsClosest_example =
    mdtable_bsearch_closest-IsClosest compare_key 2 tens 100 20 3 ordered tens-Ascends (omega arith)
      (omega arith)

col_compare_4bytes-Orders_iff_example :
    Orders (col_compare_4bytes 1 0x90000000) 1 0x90000000
    ↔ ((1 < 0x90000000 + 2 ^ 31) × (0x90000000 ≤ 1 + 2 ^ 31))
col_compare_4bytes-Orders_iff_example =
    col_compare_4bytes-Orders_iff 1 0x90000000 (omega arith) (omega arith)
