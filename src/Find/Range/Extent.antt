-- ===== src/Find/Range/Extent.antt =====
-- The two loops of `md_find_range_from_cursor` in src/dnmd/query.c stop at the ends of the run of
-- equal values.
use dnmd.Base.{ℕ, zero, suc, ◌+◌, ◌%◌, ◌^◌, ◌≤◌, ◌<◌, ◌≡◌, arith, refl, inl, inr, ap, ◌∙◌}
use dnmd.Base.{true, false, Bool-cases, ok, failed, ◌==◌, ◌!=◌, ◌&&◌, not, Outcome}
use native.Mathlib.Decide.{ℕ_discrete}
use dnmd.Access.{Mdcursor, create_cursor, cursor_row}
use dnmd.Cursors.{cursor_move_no_checks, move_to}
use dnmd.Cursors.Moves.{row_back, unchecked, can_move}
use dnmd.Find.{FindCxt, compare_row, cursor_to_row_bytes}
use dnmd.Find.Range.{
  range_start, range_end, back_round, forth_round, res_at, minus_one, moved_or_not,
}
use dnmd.Cursors.{cursor_end}
use dnmd.Schema.Details.{Mdtable}
use dnmd.Search.{is_negative}
use dnmd.Search.Compare.{Orders}

module _ (t : Mdtable) (fcxt : FindCxt) (key : ℕ) (v : ℕ → ℕ) (small : t.row_count + 1 < 2 ^ 24)
    (orders : (r : ℕ)
      → 0 < r
      → r ≤ t.row_count
      → Orders (compare_row fcxt t.contents.ptr key (cursor_to_row_bytes t r)) key (v r))
    (sorted : (q r : ℕ) → 0 < q → q ≤ r → r ≤ t.row_count → v q ≤ v r) where
  up :
      (r : ℕ)
      → r ≤ t.row_count
      → cursor_move_no_checks (create_cursor t r) 1 ≡ ok (create_cursor t (r + 1))
  up r le =
      let next : (cursor_row (create_cursor t r) + 1) % 2 ^ 32 ≡ r + 1 =
        omega (arith, row_back t r (omega arith)) in
      unchecked (create_cursor t r) t 1 refl
      ∙ ap (move_to t) next
      ∙ can_move t (r + 1) small (omega arith) (omega arith)

  down_to :
      (r : ℕ)
      → r ≤ t.row_count
      → cursor_move_no_checks (create_cursor t (suc r)) minus_one ≡ move_to t r
  down_to r le =
      let last : (cursor_row (create_cursor t (suc r)) + minus_one) % 2 ^ 32 ≡ r =
        omega (arith, row_back t (suc r) (omega arith)) in
      unchecked (create_cursor t (suc r)) t minus_one refl ∙ ap (move_to t) last

  stuck : move_to t 0 ≡ failed
  unfolding move_to
  stuck = refl

  res_at-Orders :
      (r : ℕ) → 0 < r → r ≤ t.row_count → Orders (res_at t fcxt key (create_cursor t r)) key (v r)
  res_at-Orders r pos le = rw (row_back t r (omega arith)) (orders r pos le)

  -- The cursor is at the first row of the run of the key that ends at `r`.
  abbrev pub IsStart : ℕ → Mdcursor → Type 0
  IsStart r c =
      (s : ℕ) × (c ≡ create_cursor t s)
      × (0 < s)
      × (s ≤ r)
      × ((q : ℕ) → s ≤ q → q ≤ r → v q ≡ key)
      × ((q : ℕ) → 0 < q → q < s → v q < key)

  widen : (r : ℕ) (c : Mdcursor) → v (suc r) ≡ key → IsStart r c → IsStart (suc r) c
  widen r c e (s, at, pos, le, run, before) = (
    s,
    at,
    pos,
    omega arith,
    λ q a b. elim (ℕ_discrete q (suc r)) [
      | yes same ↦ ap v same ∙ e
      | no other ↦ run q a (omega arith)
    ],
    before,
  )

  start_round :
      (fuel : ℕ) (c : Mdcursor) (m : Outcome Mdcursor)
      → cursor_move_no_checks c minus_one ≡ m
      → range_start t fcxt key (suc fuel) c
        ≡ back_round t fcxt key c (range_start t fcxt key fuel (moved_or_not m c)) m
  unfolding range_start
  start_round fuel c m e =
      ap
        (λ (x : Outcome Mdcursor).
          back_round t fcxt key c (range_start t fcxt key fuel (moved_or_not x c)) x)
        e

  back_to :
      (r : ℕ)
      → 0 < r
      → r ≤ t.row_count
      → cursor_move_no_checks (create_cursor t (suc r)) minus_one ≡ ok (create_cursor t r)
  back_to r pos le = down_to r le ∙ can_move t r small pos (omega arith)

  pub range_start-IsStart :
      (fuel r : ℕ)
      → r ≤ fuel
      → 0 < r
      → r ≤ t.row_count
      → v r ≡ key
      → IsStart r (range_start t fcxt key fuel (create_cursor t r))
  range_start-IsStart zero r f pos le e = absurd (omega arith)
  range_start-IsStart (suc fuel) zero f pos le e = absurd (omega arith)
  range_start-IsStart (suc fuel) (suc zero) f pos le e =
      rw (start_round fuel (create_cursor t 1) failed (down_to 0 (omega arith) ∙ stuck)) (
        1,
        refl,
        omega arith,
        omega arith,
        λ q a b. ap v (omega arith) ∙ e,
        λ q a b. absurd (omega arith),
      )
  range_start-IsStart (suc fuel) (suc (suc r)) f pos le e =
      let o = res_at-Orders (suc r) (omega arith) (omega arith) in
      let below : v (suc r) ≤ key =
        omega (arith, sorted (suc r) (suc (suc r)) (omega arith) (omega arith) le) in
      let round =
        start_round fuel (create_cursor t (suc (suc r))) (ok (create_cursor t (suc r)))
          (back_to (suc r) (omega arith) (omega arith)) in
      elim (Bool-cases (
        res_at t fcxt key (create_cursor t (suc r)) != 0
        && not (is_negative (res_at t fcxt key (create_cursor t (suc r)))))) [
          | inl stop ↦
              let less : v (suc r) < key = ground (arith, o.equal.1, o.less.1) in
              rw (round, stop, up (suc r) (omega arith))
                (
                  suc (suc r),
                  ap (create_cursor t) (omega arith),
                  omega arith,
                  omega arith,
                  λ q a b. ap v (omega arith) ∙ e,
                  λ q a b. omega (arith, sorted q (suc r) a (omega arith) (omega arith)),
                )
          | inr on ↦
              let same : v (suc r) ≡ key = ground (arith, o.equal.0, o.less.0) in
              rw (round, on)
                (widen (suc r) _ e
                  (range_start-IsStart fuel (suc r) (omega arith) (omega arith) (omega arith) same))
        ]

  -- The cursor is behind the last row of the run of the key that starts at `r`.
  abbrev pub IsEnd : ℕ → Mdcursor → Type 0
  IsEnd r c =
      (e : ℕ) × (c ≡ create_cursor t e)
      × (r < e)
      × (e ≤ t.row_count + 1)
      × ((q : ℕ) → r ≤ q → q < e → v q ≡ key)
      × ((q : ℕ) → e ≤ q → q ≤ t.row_count → key < v q)

  extend : (r : ℕ) (c : Mdcursor) → v r ≡ key → IsEnd (r + 1) c → IsEnd r c
  extend r c same (e, at, pos, le, run, after) = (
    e,
    at,
    omega arith,
    le,
    λ q a b. elim (ℕ_discrete q r) [
      | yes here ↦ ap v here ∙ same
      | no other ↦ run q (omega arith) b
    ],
    after,
  )

  end_round :
      (fuel : ℕ) (c : Mdcursor) (m : Outcome Mdcursor)
      → cursor_move_no_checks c 1 ≡ m
      → range_end t fcxt key (suc fuel) c
        ≡ forth_round t fcxt key c (range_end t fcxt key fuel (moved_or_not m c)) m
  unfolding range_end
  end_round fuel c m e =
      ap
        (λ (x : Outcome Mdcursor).
          forth_round t fcxt key c (range_end t fcxt key fuel (moved_or_not x c)) x)
        e

  at_end : (r : ℕ) → r ≤ t.row_count → cursor_end t (create_cursor t (r + 1)) ≡ (r == t.row_count)
  at_end r le = ground (arith, row_back t (r + 1) (omega arith))

  single-IsEnd :
      (r : ℕ)
      → v r ≡ key
      → r ≤ t.row_count
      → ((q : ℕ) → r < q → q ≤ t.row_count → key < v q)
      → IsEnd r (create_cursor t (r + 1))
  single-IsEnd r e le after = (
    r + 1,
    refl,
    omega arith,
    omega arith,
    λ q a b. ap v (omega arith) ∙ e,
    λ q a b. after q (omega arith) b,
  )

  pub range_end-IsEnd :
      (fuel r : ℕ)
      → t.row_count < r + fuel
      → 0 < r
      → r ≤ t.row_count
      → v r ≡ key
      → IsEnd r (range_end t fcxt key fuel (create_cursor t r))
  range_end-IsEnd zero r f pos le e = absurd (omega arith)
  range_end-IsEnd (suc fuel) r f pos le e =
      let round = end_round fuel (create_cursor t r) (ok (create_cursor t (r + 1))) (up r le) in
      elim (ℕ_discrete r t.row_count) [
        | yes last ↦
            let stop : (r == t.row_count) ≡ true = ground arith in
            rw (round, at_end r le, stop) (single-IsEnd r e le (λ q a b. absurd (omega arith)))
        | no more ↦
            let on : (r == t.row_count) ≡ false = ground arith in
            let o = res_at-Orders (r + 1) (omega arith) (omega arith) in
            let above : key ≤ v (r + 1) =
              omega (arith, sorted r (r + 1) pos (omega arith) (omega arith)) in
            elim (Bool-cases (is_negative (res_at t fcxt key (create_cursor t (r + 1))))) [
              | inl less ↦
                  rw (round, at_end r le, on, less)
                    (single-IsEnd r e le (λ q a b.
                      omega (arith, o.less.0 less, sorted (r + 1) q (omega arith) (omega arith) b)))
              | inr not_less ↦
                  let same : v (r + 1) ≡ key = ground (arith, o.less.1) in
                  rw (round, at_end r le, on, not_less)
                    (extend r _ e
                      (range_end-IsEnd fuel (r + 1) (omega arith) (omega arith) (omega arith) same))
            ]
      ]
