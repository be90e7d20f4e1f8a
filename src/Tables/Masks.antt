-- ===== src/Tables/Masks.antt =====
-- The test of `initialize_tables` of src/dnmd/streams.c that the row counts end at `table_begin`.
use dnmd.Base.{
  ℕ, ◌+◌, ◌*◌, ◌/◌, ◌^◌, ◌≤◌, ◌<◌, ◌≡◌, ◌≢◌, arith, refl, subst, sym, ◌∙◌, bit_and, bit_or,
}
use dnmd.Base.{List, length-drop, drop}
use dnmd.Base.{◌==◌, Outcome, ok, failed, ◌>>=◌, ◌>>◌, guard}
use dnmd.Bytes.{Mdcdata, IsStream, advance_stream, count_set_bits}
use dnmd.Bytes.Count.{ones, ones_split, ones-positive, count_set_bits-ones}
use dnmd.Bytes.Little.{little}
use dnmd.Context.{Mdcxt, mdc_extra_data}
use dnmd.Tables.{
  initialize_tables, initialize_counted, initialize_from, merge_pdb, skip_extra_data, moved_by,
}
use dnmd.Tables.Counts.{
  after, after-IsStream, after-after, counts_of, counted, read_row_counts-counted,
}
use dnmd.Tables.Header.{initialize_tables-from_header, sized}
use native.Mathlib.Decide.{dec_lt}

-- The part of `initialize_tables` from the test on.
abbrev pub load : Mdcxt → ℕ → ℕ → List ℕ → Mdcdata → Outcome Mdcxt
load cxt valid_tables sorted_tables row_counts s2 = do
  merged ← merge_pdb cxt row_counts
  (tables, _) ←
      initialize_from 64 merged cxt.context_flags 0 valid_tables sorted_tables cxt.tables s2
  ok (record cxt { tables = tables })

-- How far the test finds the stream.
moved_by-after :
    (s : Mdcdata) (k n : ℕ) → IsStream s → k ≤ s.size → moved_by s (after s k) n ≡ (k == n)
moved_by-after s k n v le = rw length-drop (ground (arith, v.readable))

counted_enough :
    (valid : ℕ) (s : Mdcdata)
    → ones 56 valid * 4 ≤ s.size
    → counted 56 valid s ≡ ok (counts_of 56 valid s.ptr, after s (ones 56 valid * 4))
counted_enough valid s le = ground arith

counted_little :
    (valid : ℕ) (s : Mdcdata) → s.size < ones 56 valid * 4 → counted 56 valid s ≡ failed
counted_little valid s lt = ground arith

-- From the masks on, where the row counts can be read.
counted_long :
    (cxt : Mdcxt) (valid sorted : ℕ) (s : Mdcdata)
    → IsStream s
    → ones 56 valid * 4 ≤ s.size
    → initialize_counted cxt valid sorted s ≡ (
        skip_extra_data cxt.context_flags (after s (ones 56 valid * 4)) >>= λ s2.
        guard (moved_by s s2 (count_set_bits valid * 4))
        >> load cxt valid sorted (counts_of 56 valid s.ptr) s2)
unfolding initialize_counted
counted_long cxt valid sorted s v le =
    rw (read_row_counts-counted 56 valid s v, counted_enough valid s le) refl

counted_short :
    (cxt : Mdcxt) (valid sorted : ℕ) (s : Mdcdata)
    → IsStream s
    → s.size < ones 56 valid * 4
    → initialize_counted cxt valid sorted s ≡ failed
unfolding initialize_counted
counted_short cxt valid sorted s v lt =
    rw (read_row_counts-counted 56 valid s v, counted_little valid s lt) refl

-- The flag that the masks and the heap sizes are read with.
abbrev pub HasExtraData : ℕ → Type 0
HasExtraData flags = bit_and flags mdc_extra_data ≢ 0

-- The test fails where the stream has not moved by 4 bytes for each bit.
test_fails :
    {B : Type 0} (s : Mdcdata) (k n : ℕ) (r : Outcome B)
    → IsStream s
    → k ≤ s.size
    → k ≢ n
    → (guard (moved_by s (after s k) n) >> r) ≡ failed
test_fails s k n r v le ne = rw (moved_by-after s k n v le) (ground arith)

test_holds :
    {B : Type 0} (s : Mdcdata) (k n : ℕ) (r : Outcome B)
    → IsStream s
    → k ≤ s.size
    → k ≡ n
    → (guard (moved_by s (after s k) n) >> r) ≡ r
test_holds s k n r v le e = rw (moved_by-after s k n v le) (ground arith)

-- The extra data is skipped before the test, which then fails or is not reached.
skip_fails :
    {B : Type 0} (flags : ℕ) (s : Mdcdata) (k : Mdcdata → Outcome B)
    → HasExtraData flags
    → (4 ≤ s.size → k (after s 4) ≡ failed)
    → (skip_extra_data flags s >>= k) ≡ failed
unfolding advance_stream
skip_fails flags s k h test = elim (dec_lt s.size 4) [
  | yes short ↦ ground arith
  | no long ↦ ground (arith, test (omega arith))
]

no_skip :
    {B : Type 0} (flags : ℕ) (s : Mdcdata) (k : Mdcdata → Outcome B)
    → bit_and flags mdc_extra_data ≡ 0
    → (skip_extra_data flags s >>= k) ≡ k s
no_skip flags s k h = rw h refl

extra_data_counted :
    (cxt : Mdcxt) (valid sorted : ℕ) (s : Mdcdata)
    → IsStream s
    → valid < 2 ^ 56
    → HasExtraData cxt.context_flags
    → initialize_counted cxt valid sorted s ≡ failed
extra_data_counted cxt valid sorted s v small flag = elim (dec_lt s.size (ones 56 valid * 4)) [
  | yes short ↦ counted_short cxt valid sorted s v short
  | no long ↦
      counted_long cxt valid sorted s v (omega arith)
      ∙ skip_fails cxt.context_flags (after s (ones 56 valid * 4)) _ flag (λ room.
        let r = load cxt valid sorted (counts_of 56 valid s.ptr) in
        subst (λ t. (guard (moved_by s t (count_set_bits valid * 4)) >> r t) ≡ failed)
          (sym (after-after s (ones 56 valid * 4) 4))
          (test_fails s (ones 56 valid * 4 + 4) (count_set_bits valid * 4) _ v (omega arith)
            (λ same. absurd (omega (arith, same, count_set_bits-ones 56 valid small)))))
]

-- Without the extra data: a mask of the tables there are is loaded where its counts can be read.
pub plain_counted :
    (cxt : Mdcxt) (valid sorted : ℕ) (s : Mdcdata)
    → IsStream s
    → valid < 2 ^ 56
    → bit_and cxt.context_flags mdc_extra_data ≡ 0
    → initialize_counted cxt valid sorted s
      ≡ sized s
          (ones 56 valid * 4)
          (load cxt valid sorted (counts_of 56 valid s.ptr) (after s (ones 56 valid * 4)))
plain_counted cxt valid sorted s v small flag = elim (dec_lt s.size (ones 56 valid * 4)) [
  | yes short ↦ counted_short cxt valid sorted s v short ∙ ground arith
  | no long ↦
      counted_long cxt valid sorted s v (omega arith)
      ∙ no_skip cxt.context_flags (after s (ones 56 valid * 4)) _ flag
      ∙ test_holds s (ones 56 valid * 4) (count_set_bits valid * 4) _ v (omega arith)
          (omega (arith, count_set_bits-ones 56 valid small))
      ∙ ground arith
]

more_ones : (valid : ℕ) → 2 ^ 56 ≤ valid → valid < 2 ^ 64 → ones 56 valid < count_set_bits valid
more_ones valid le lt = omega (
  arith,
  count_set_bits-ones 64 valid lt,
  ones_split 56 8 valid,
  ones-positive 8 (valid / 2 ^ 56) (omega arith) (omega arith),
)

unknown_counted :
    (cxt : Mdcxt) (valid sorted : ℕ) (s : Mdcdata)
    → IsStream s
    → 2 ^ 56 ≤ valid
    → valid < 2 ^ 64
    → bit_and cxt.context_flags mdc_extra_data ≡ 0
    → initialize_counted cxt valid sorted s ≡ failed
unknown_counted cxt valid sorted s v le lt flag = elim (dec_lt s.size (ones 56 valid * 4)) [
  | yes short ↦ counted_short cxt valid sorted s v short
  | no long ↦
      counted_long cxt valid sorted s v (omega arith)
      ∙ no_skip cxt.context_flags (after s (ones 56 valid * 4)) _ flag
      ∙ test_fails s (ones 56 valid * 4) (count_set_bits valid * 4) _ v (omega arith)
          (λ same. absurd (omega (arith, same, more_ones valid le lt)))
]

sized_failed : (s : Mdcdata) (m : ℕ) (r : Outcome Mdcxt) → r ≡ failed → sized s m r ≡ failed
sized_failed s m r e = ground arith

-- A table heap that asks for the extra data is refused, where its mask has no bit of a table that
-- there is not.
pub initialize_tables_extra_data :
    (cxt : Mdcxt)
    → IsStream cxt.tables_heap
    → little 8 (drop 8 cxt.tables_heap.ptr) < 2 ^ 56
    → HasExtraData (bit_or cxt.context_flags (little 1 (drop 6 cxt.tables_heap.ptr)))
    → initialize_tables cxt ≡ failed
initialize_tables_extra_data cxt v small flag = elim (dec_lt cxt.tables_heap.size 24) [
  | yes short ↦ initialize_tables-from_header cxt v ∙ ground arith
  | no long ↦
      initialize_tables-from_header cxt v
      ∙ sized_failed cxt.tables_heap 24 _ (
          extra_data_counted _ _ _ (after cxt.tables_heap 24)
            (after-IsStream cxt.tables_heap 24 v (omega arith)) small flag)
]

-- A mask that has a bit of a table that there is not is refused, where no extra data is asked for.
pub initialize_tables_unknown :
    (cxt : Mdcxt)
    → IsStream cxt.tables_heap
    → 2 ^ 56 ≤ little 8 (drop 8 cxt.tables_heap.ptr)
    → little 8 (drop 8 cxt.tables_heap.ptr) < 2 ^ 64
    → bit_and (bit_or cxt.context_flags (little 1 (drop 6 cxt.tables_heap.ptr))) mdc_extra_data ≡ 0
    → initialize_tables cxt ≡ failed
initialize_tables_unknown cxt v le lt flag = elim (dec_lt cxt.tables_heap.size 24) [
  | yes short ↦ initialize_tables-from_header cxt v ∙ ground arith
  | no long ↦
      initialize_tables-from_header cxt v
      ∙ sized_failed cxt.tables_heap 24 _ (
          unknown_counted _ _ _ (after cxt.tables_heap 24)
            (after-IsStream cxt.tables_heap 24 v (omega arith)) le lt flag)
]
