-- ===== src/Tables/Counts.antt =====
-- The row counts that `initialize_tables` and `try_get_pdb` of src/dnmd/streams.c read.
use dnmd.Base.{ℕ, zero, suc, ◌+◌, ◌-◌, ◌*◌, ◌/◌, ◌%◌, ◌≤◌, ◌<◌, ◌≡◌, arith, refl, ap, sym, ◌∙◌}
use dnmd.Base.{◌⊎◌, List, [], ◌∷◌, inl, inr, length-drop, drop, All-drop, drop-drop}
use dnmd.Base.{ltb, ◌==◌, if◌then◌else◌, Outcome, ok, failed, ◌>>=◌}
use dnmd.Bytes.{Mdcdata, IsStream, IsByte, read_u32}
use dnmd.Bytes.Count.{ones}
use dnmd.Bytes.Little.{little, read_le-little, read_le_short}
use native.Mathlib.Decide.{dec_lt, ℕ_discrete}
use dnmd.Tables.{read_row_count, read_row_counts}

-- The stream after its first `n` bytes.
abbrev pub after : Mdcdata → ℕ → Mdcdata
after s n = record { ptr = drop n s.ptr; size = s.size - n }

pub after-IsStream : (s : Mdcdata) (n : ℕ) → IsStream s → n ≤ s.size → IsStream (after s n)
after-IsStream s n valid le = record {
  readable = rw length-drop (omega (arith, valid.readable));
  bytes = All-drop IsByte n s.ptr valid.bytes;
}

pub after-after : (s : Mdcdata) (m n : ℕ) → after (after s m) n ≡ after s (m + n)
after-after s m n =
    let e : s.size - m - n ≡ s.size - (m + n) = omega arith in rw (drop-drop n m s.ptr, e) refl

-- The counts as a list: 4 bytes for each bit of the mask, and 0 for a table that is not there.
unfoldable pub counts_of : ℕ → ℕ → List ℕ → List ℕ
counts_of zero valid d = []
counts_of (suc n) valid d =
    if valid % 2 == 1
    then little 4 d ∷ counts_of n (valid / 2) (drop 4 d)
    else 0 ∷ counts_of n (valid / 2) d

-- What the loop does, as one reading.
abbrev pub counted : ℕ → ℕ → Mdcdata → Outcome (List ℕ × Mdcdata)
counted n valid s =
    if ltb s.size (ones n valid * 4)
    then failed
    else ok (counts_of n valid s.ptr, after s (ones n valid * 4))

read_u32-little :
    (s : Mdcdata) → IsStream s → 4 ≤ s.size → read_u32 s ≡ ok (little 4 s.ptr, after s 4)
unfolding read_u32
read_u32-little s valid le = read_le-little s 4 valid (inr (inr (inl refl))) le

read_u32_short : (s : Mdcdata) → s.size < 4 → read_u32 s ≡ failed
unfolding read_u32
read_u32_short s lt = read_le_short s 4 lt

-- A count in front of the others.
cons_count : ℕ → Outcome (List ℕ × Mdcdata) → Outcome (List ℕ × Mdcdata)
cons_count c m = do (counts, s2) ← m; ok (c ∷ counts, s2)

after-past : (s : Mdcdata) (k n : ℕ) → k ≡ 4 + n → after (after s 4) n ≡ after s k
after-past s k n e = after-after s 4 n ∙ ap (after s) (sym e)

counted_odd :
    (n valid : ℕ) (s : Mdcdata)
    → valid % 2 ≡ 1
    → 4 ≤ s.size
    → cons_count (little 4 s.ptr) (counted n (valid / 2) (after s 4)) ≡ counted (suc n) valid s
unfolding cons_count ones counts_of
counted_odd n valid s odd le =
    let past : after (after s 4) (ones n (valid / 2) * 4) ≡ after s (ones (suc n) valid * 4) =
      after-past s (ones (suc n) valid * 4) (ones n (valid / 2) * 4) (omega arith) in
    ground arith

counted_even :
    (n valid : ℕ) (s : Mdcdata)
    → valid % 2 ≡ 0
    → cons_count 0 (counted n (valid / 2) s) ≡ counted (suc n) valid s
unfolding cons_count ones counts_of
counted_even n valid s even =
    let same : ones n (valid / 2) ≡ ones (suc n) valid = omega arith in ground arith

count_even : (valid : ℕ) (s : Mdcdata) → valid % 2 ≡ 0 → read_row_count valid s ≡ ok (0, s)
unfolding read_row_count
count_even valid s h = ground arith

count_odd : (valid : ℕ) (s : Mdcdata) → valid % 2 ≡ 1 → read_row_count valid s ≡ read_u32 s
unfolding read_row_count
count_odd valid s h = ground arith

-- One turn of the loop.
read_row_counts_turn :
    (n valid : ℕ) (s : Mdcdata)
    → ((valid % 2 ≡ 0)
        × (read_row_counts (suc n) valid s ≡ cons_count 0 (read_row_counts n (valid / 2) s)))
      ⊎ ((valid % 2 ≡ 1) × (s.size < 4) × (IsStream s → read_row_counts (suc n) valid s ≡ failed))
      ⊎ ((valid % 2 ≡ 1)
          × (4 ≤ s.size)
          × (IsStream s
              → read_row_counts (suc n) valid s
                ≡ cons_count (little 4 s.ptr) (read_row_counts n (valid / 2) (after s 4))))
unfolding read_row_counts cons_count
read_row_counts_turn n valid s = elim (ℕ_discrete (valid % 2) 1) [
  | no even ↦ inl (omega arith, rw (count_even valid s (omega arith)) refl)
  | yes odd ↦ elim (dec_lt s.size 4) [
    | yes short ↦
        inr (inl (odd, short, λ v. rw (count_odd valid s odd, read_u32_short s short) refl))
    | no long ↦ inr (
        inr (
          odd,
          omega arith,
          λ v. rw (count_odd valid s odd, read_u32-little s v (omega arith)) refl,
        ))
  ]
]

-- The loop over the row counts reads 4 bytes for each bit of the mask among the first `n`, and fails
-- where the stream is too short for all of them.
pub read_row_counts-counted :
    (n valid : ℕ) (s : Mdcdata) → IsStream s → read_row_counts n valid s ≡ counted n valid s
unfolding read_row_counts ones counts_of
read_row_counts-counted zero valid s ok_s = ground arith
read_row_counts-counted (suc n) valid s ok_s = elim (read_row_counts_turn n valid s) [
  | inl (even, turn) ↦
      turn
      ∙ ap (cons_count 0) (read_row_counts-counted n (valid / 2) s ok_s)
      ∙ counted_even n valid s even
  | inr (inl (odd, short, turn)) ↦ turn ok_s ∙ ground arith
  | inr (inr (odd, long, turn)) ↦
      turn ok_s
      ∙ ap (cons_count (little 4 s.ptr))
          (read_row_counts-counted n (valid / 2) (after s 4) (after-IsStream s 4 ok_s long))
      ∙ counted_odd n valid s odd long
]
