-- ===== src/Pdb/Points/Count.antt =====
-- What `get_num_sequence_points` of src/dnmd/pdb_blobs.c counts.
use dnmd.Base.{ℕ, zero, suc, ◌+◌, ◌≤◌, ◌<◌, ◌≡◌, arith, refl, sym, ap, subst, ◌∙◌}
use dnmd.Base.{
  Bool, true, false, not, ◌==◌, ◌!=◌, ◌||◌, ◌&&◌, if◌then◌else◌, Outcome, ok, ◌>>=◌, >>=-eq-ok,
  ok-injective,
}
use native.Mathlib.Decide.{dec_lt}
use dnmd.Bytes.{Mdcdata, IsStream, decompress_u32}
use dnmd.Pdb.{uint32_max, skip_u32}
use dnmd.Pdb.Points.{skip_record, num_records_from}
use dnmd.Pdb.Walk.{skip_u32-Shrinks, then-Shrinks, decompress_u32-shorter}

-- The blob is `n` records, one behind the other; the first one of all if `first`.
pub data IsRecords : Bool → ℕ → Mdcdata → Type 0 where
  no_record : (first : Bool) (s : Mdcdata) → s.size ≡ 0 → IsRecords first 0 s
  one_more :
      (first : Bool) (s s' : Mdcdata) (n : ℕ)
      → 0 < s.size
      → skip_record first s ≡ ok s'
      → IsRecords false n s'
      → IsRecords first (suc n) s

-- The end of a record that is no document.
start_Shrinks :
    (b : Bool) (s s' : Mdcdata)
    → IsStream s
    → (if b then skip_u32 s >>= skip_u32 else ok s) ≡ ok s'
    → (s'.size ≤ s.size) × IsStream s'
start_Shrinks true s s' valid h =
    then-Shrinks skip_u32 skip_u32 skip_u32-Shrinks skip_u32-Shrinks s s' valid h
start_Shrinks false s s' valid h =
    let same : s ≡ s' = ok-injective h in
    (omega (arith, ap (λ (d : Mdcdata). d.size) same), subst IsStream same valid)

pub skip_record-shorter :
    (first : Bool) (s s' : Mdcdata)
    → IsStream s
    → skip_record first s ≡ ok s'
    → (s'.size < s.size) × IsStream s'
unfolding skip_record
skip_record-shorter first s s' valid h =
    let (r, e, f) = >>=-eq-ok (decompress_u32 s) _ h in
    let (lt, v) = decompress_u32-shorter s r valid e in
    let (le, v') = rest (not first && r.0 == 0) r.1 v f in (omega (arith, lt, le), v')
  where
    point :
        (s1 : Mdcdata)
        → IsStream s1
        → (decompress_u32 s1 >>= λ a. decompress_u32 a.1 >>= λ b.
            if a.0 != 0 || b.0 != 0 then skip_u32 b.1 >>= skip_u32 else ok b.1)
          ≡ ok s'
        → (s'.size ≤ s1.size) × IsStream s'
    point s1 v f =
        let (a, e1, f1) = >>=-eq-ok (decompress_u32 s1) _ f in
        let (lt1, v1) = decompress_u32-shorter s1 a v e1 in
        let (b, e2, f2) = >>=-eq-ok (decompress_u32 a.1) _ f1 in
        let (lt2, v2) = decompress_u32-shorter a.1 b v1 e2 in
        let (le, v3) = start_Shrinks (a.0 != 0 || b.0 != 0) b.1 s' v2 f2 in
        (omega (arith, lt1, lt2, le), v3)

    rest :
        (d : Bool) (s1 : Mdcdata)
        → IsStream s1
        → (if d
            then skip_u32 s1
            else decompress_u32 s1 >>= λ a. decompress_u32 a.1 >>= λ b.
                if a.0 != 0 || b.0 != 0 then skip_u32 b.1 >>= skip_u32 else ok b.1)
          ≡ ok s'
        → (s'.size ≤ s1.size) × IsStream s'
    rest true s1 v f = skip_u32-Shrinks s1 s' v f
    rest false s1 v f = point s1 v f

last_round :
    (fuel n : ℕ) (first : Bool) (s : Mdcdata) → s.size ≡ 0 → num_records_from fuel n first s ≡ ok n
unfolding num_records_from
last_round zero n first s e = refl
last_round (suc fuel) n first s e = let stop : (s.size == 0) ≡ true = ground arith in rw stop refl

more_rounds :
    (fuel n : ℕ) (first : Bool) (s : Mdcdata)
    → 0 < s.size
    → n < uint32_max
    → num_records_from (suc fuel) n first s
      ≡ (skip_record first s >>= num_records_from fuel (n + 1) false)
unfolding num_records_from
more_rounds fuel n first s pos lt =
    let on : (s.size == 0) ≡ false = ground arith in
    let few : (n == uint32_max) ≡ false = ground arith in rw (on, few) refl

-- A blob whose records are counted is these records, with no bytes behind them.
pub num_records_from-IsRecords :
    (fuel n m : ℕ) (first : Bool) (s : Mdcdata)
    → IsStream s
    → s.size ≤ fuel
    → n + s.size < uint32_max
    → num_records_from fuel n first s ≡ ok m
    → (k : ℕ) × (m ≡ n + k) × IsRecords first k s
num_records_from-IsRecords zero n m first s valid f small h = (
  0,
  omega (arith, ok-injective (sym (last_round zero n first s (omega arith)) ∙ h)),
  no_record first s (omega arith),
)
num_records_from-IsRecords (suc fuel) n m first s valid f small h = elim (dec_lt 0 s.size) [
  | no empty ↦
      let none_left : s.size ≡ 0 = omega arith in
      (
        0,
        omega (arith, ok-injective (sym (last_round (suc fuel) n first s none_left) ∙ h)),
        no_record first s none_left,
      )
  | yes left ↦
      let h' = sym (more_rounds fuel n first s left (omega arith)) ∙ h in
      let (s', e, rest) =
        >>=-eq-ok (skip_record first s) (num_records_from fuel (n + 1) false) h' in
      let (lt, v) = skip_record-shorter first s s' valid e in
      let (k, same, is) =
        num_records_from-IsRecords fuel (n + 1) m false s' v (omega arith) (omega arith) rest in
      (suc k, omega arith, one_more first s s' k left e is)
]

-- A blob that is records to its end is counted, with as many rounds as it has bytes.
pub IsRecords-num_records_from :
    (k fuel n : ℕ) (first : Bool) (s : Mdcdata)
    → IsStream s
    → s.size ≤ fuel
    → n + s.size < uint32_max
    → IsRecords first k s
    → num_records_from fuel n first s ≡ ok (n + k)
IsRecords-num_records_from _ fuel n first s valid f small (no_record _ _ e) =
    last_round fuel n first s e ∙ ap (λ (k : ℕ). ok k) (omega arith)
IsRecords-num_records_from _ zero n first s valid f small (one_more _ _ s' k pos e rest) =
    absurd (omega arith)
IsRecords-num_records_from _ (suc fuel) n first s valid f small (one_more _ _ s' k pos e rest) =
    let (lt, v) = skip_record-shorter first s s' valid e in
    more_rounds fuel n first s pos (omega arith)
    ∙ ap (λ (o : Outcome Mdcdata). o >>= num_records_from fuel (n + 1) false) e
    ∙ IsRecords-num_records_from k fuel (n + 1) false s' v (omega arith) (omega arith) rest
    ∙ ap (λ (j : ℕ). ok j) (omega arith)
