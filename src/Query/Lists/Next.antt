-- ===== src/Query/Lists/Next.antt =====
-- Where the lists of child rows end that `md_get_column_value_as_range` of src/dnmd/query.c returns.
use dnmd.Base.{ℕ, zero, suc, ◌+◌, ◌%◌, ◌^◌, ◌≤◌, ◌<◌, ◌≡◌, ◌≢◌, ◌⊎◌, inl, inr, arith, refl, ap, ◌∙◌}
use dnmd.Base.{
  List, [], ◌∷◌, set, get_elem?, some, Bool, true, false, Bool-cases, ◌||◌, ◌&&◌, ◌==◌, ◌!=◌, leb,
  ok,
}
use native.Mathlib.Decide.{ℕ_discrete}
use dnmd.Access.{Mdcursor, create_cursor, cursor_row}
use dnmd.Context.{Mdcxt}
use dnmd.Cursors.{cursor_null, cursor_move_no_checks, move_to}
use dnmd.Cursors.Moves.{row_back, unchecked, can_move}
use dnmd.Query.{type_to_table, with_id, get_column_target, md_get_column_value_as_cursor}
use dnmd.Query.Lists.{at_end_of, difference, remaining, count_from, md_get_column_value_as_range}
use dnmd.Query.Tokens.{looked_up}
use dnmd.Schema.Details.{Mdtable}

-- The context has a table `id` of `n` rows.
abbrev pub HasTable : ℕ → ℕ → Mdcxt → Type 0
HasTable id n cxt = (u : Mdtable) × (type_to_table cxt id ≡ ok u) × (u.row_count ≡ n)

get_elem?-set :
    (ts : List Mdtable) (i : ℕ) (u v : Mdtable)
    → get_elem? ts i ≡ some u
    → get_elem? (set ts i v) i ≡ some v
get_elem?-set [] i u v e = cc
get_elem?-set (t ∷ ts) zero u v e = refl
get_elem?-set (t ∷ ts) (suc i) u v e = get_elem?-set ts i u v e

with_id-row_count : (u : Mdtable) (id : ℕ) → (with_id u id).row_count ≡ u.row_count
with_id-row_count u id = elim (Bool-cases (u.table_id == 0 && id != 0)) [
  | inl e ↦ rw e refl
  | inr e ↦ rw e refl
]

module _ (t : Mdtable) (idx id n : ℕ) (targets : ℕ → ℕ) (few : t.row_count + 1 < 2 ^ 24)
    (few_targets : n + 1 < 2 ^ 24)
    (targets_at : (r : ℕ)
      → 0 < r
      → r ≤ t.row_count
      → get_column_target (create_cursor t r) idx ≡ ok (id, targets r))
    (bounded : (r : ℕ) → 0 < r → r ≤ t.row_count → targets r ≤ n + 1) where
  -- The row that the next list starts at, from the row `r` on: that of the first row with one, or
  -- the end of the target table.
  pub data NextStart : ℕ → ℕ → Type 0 where
    past_end : (r : ℕ) → r ≡ t.row_count + 1 → NextStart r (n + 1)
    starts : (r : ℕ) → r ≤ t.row_count → targets r ≢ 0 → NextStart r (targets r)
    skips : (r m : ℕ) → r ≤ t.row_count → targets r ≡ 0 → NextStart (r + 1) m → NextStart r m

  -- A read of the column gives a cursor into a table of `n` rows.
  record Reads (r : ℕ) (cxt : Mdcxt) : Type 0 where
    into : Mdtable
    rows : into.row_count ≡ n
    after : Mdcxt
    has : HasTable id n after
    reads :
        md_get_column_value_as_cursor cxt (create_cursor t r) idx
        ≡ ok (create_cursor into (targets r), after)

  md_get_column_value_as_cursor-Reads :
      (r : ℕ) (cxt : Mdcxt) → 0 < r → r ≤ t.row_count → HasTable id n cxt → Reads r cxt
  unfolding md_get_column_value_as_cursor
  md_get_column_value_as_cursor-Reads r cxt pos le (u, e, rows) =
      let room : leb (targets r) ((u.row_count + 1) % 2 ^ 32) ≡ true =
        ground (arith, bounded r pos le) in
      let there =
        get_elem?-set cxt.tables id u (with_id u id) (looked_up (get_elem? cxt.tables id) u e) in
      record {
        into = with_id u id;
        rows = with_id-row_count u id ∙ rows;
        after = record cxt { tables = set cxt.tables id (with_id u id) };
        has = (with_id u id, rw (type_to_table, there) refl, with_id-row_count u id ∙ rows);
        reads = rw (targets_at r pos le, e, room) refl;
      }

  up :
      (r : ℕ)
      → r ≤ t.row_count
      → cursor_move_no_checks (create_cursor t r) 1 ≡ ok (create_cursor t (r + 1))
  up r le =
      let next : (cursor_row (create_cursor t r) + 1) % 2 ^ 32 ≡ r + 1 =
        omega (arith, row_back t r (omega arith)) in
      unchecked (create_cursor t r) t 1 refl
      ∙ ap (move_to t) next
      ∙ can_move t (r + 1) few (omega arith) (omega arith)

  at_end_of-of :
      (u : Mdtable) (r : ℕ)
      → u.row_count + 1 < 2 ^ 24
      → r < 2 ^ 24
      → at_end_of (create_cursor u r) ≡ ok (r == u.row_count + 1)
  unfolding at_end_of
  at_end_of-of u r small lt =
      let back = row_back u r lt in
      let same : ((u.row_count + 1) % 2 ^ 32 == cursor_row (create_cursor u r))
          ≡ (r == u.row_count + 1) =
        ground arith in
      ap (λ (b : Bool). ok b) same

  abbrev Counted : ℕ → Mdtable → ℕ → ℕ → Mdcxt → Type 0
  Counted fuel u s r cxt =
      (m : ℕ) × (cxt' : Mdcxt) × NextStart (r + 1) m
      × (count_from fuel cxt idx (create_cursor u s) (create_cursor t r)
          ≡ ok (difference m s, cxt'))

  remaining-of :
      (u : Mdtable) (s : ℕ)
      → u.row_count ≡ n
      → s ≤ n
      → remaining (create_cursor u s) ≡ ok (difference (n + 1) s)
  unfolding remaining
  remaining-of u s rows le =
      let back = row_back u s (omega arith) in ap (λ (k : ℕ). ok k) (omega arith)

  count_from-Counted :
      (fuel r : ℕ) (cxt : Mdcxt) (u : Mdtable) (s : ℕ)
      → u.row_count ≡ n
      → s ≤ n
      → 0 < r
      → r ≤ t.row_count
      → t.row_count < r + fuel
      → HasTable id n cxt
      → Counted fuel u s r cxt
  unfolding count_from
  count_from-Counted zero r cxt u s rows le pos below enough has = absurd (omega arith)
  count_from-Counted (suc fuel) r cxt u s rows le pos below enough has =
      elim (ℕ_discrete r t.row_count) [
        | yes last ↦
            let at_end : (r + 1 == t.row_count + 1) ≡ true = ground arith in
            (
              n + 1,
              cxt,
              past_end (r + 1) (omega arith),
              rw
                  (
                    up r below,
                    at_end_of-of t (r + 1) few (omega arith),
                    at_end,
                    remaining-of u s rows le,
                  )
                  refl,
            )
        | no more ↦
            let inside : (r + 1 == t.row_count + 1) ≡ false = ground arith in
            let read =
              md_get_column_value_as_cursor-Reads (r + 1) cxt (omega arith) (omega arith) has in
            let back =
              row_back read.into (targets (r + 1))
                (omega (arith, bounded (r + 1) (omega arith) (omega arith))) in
            elim (ℕ_discrete (targets (r + 1)) 0) [
              | yes none_here ↦
                  let null : cursor_null (create_cursor read.into (targets (r + 1))) ≡ true =
                    ground arith in
                  let (m, cxt', next, counted) =
                    count_from-Counted fuel (r + 1) read.after u s rows le (omega arith)
                      (omega arith) (omega arith) read.has in
                  (
                    m,
                    cxt',
                    skips (r + 1) m (omega arith) none_here next,
                    rw
                        (
                          up r below,
                          at_end_of-of t (r + 1) few (omega arith),
                          inside,
                          read.reads,
                          null,
                          counted,
                        )
                        refl,
                  )
              | no there ↦
                  let null : cursor_null (create_cursor read.into (targets (r + 1))) ≡ false =
                    ground arith in
                  (
                    targets (r + 1),
                    read.after,
                    starts (r + 1) (omega arith) there,
                    rw
                        (
                          up r below,
                          at_end_of-of t (r + 1) few (omega arith),
                          inside,
                          read.reads,
                          null,
                          back,
                          row_back u s (omega arith),
                        )
                        refl,
                  )
            ]
      ]

  -- The list of a row: empty where the column is null or the end of the target table, else from the
  -- row that it names to the start of the next list.
  abbrev pub IsList : ℕ → Mdtable → Mdcursor × ℕ × Mdcxt → Type 0
  IsList r u (cursor, count, cxt) =
      (cursor ≡ create_cursor u (targets r))
      × ((((targets r ≡ 0) ⊎ (targets r ≡ n + 1)) × (count ≡ 0))
          ⊎ ((m : ℕ) × NextStart (r + 1) m × (count ≡ difference m (targets r))))

  -- Of a row of a table whose column can be read, the call returns, through any number of null
  -- values behind it, the list of the row.
  pub md_get_column_value_as_range-IsList :
      (cxt : Mdcxt) (r : ℕ)
      → HasTable id n cxt
      → 0 < r
      → r ≤ t.row_count
      → (u : Mdtable) × (list : Mdcursor × ℕ × Mdcxt) × (md_get_column_value_as_range cxt
            (create_cursor t r)
            idx
          ≡ ok list)
        × (u.row_count ≡ n)
        × IsList r u list
  unfolding md_get_column_value_as_range
  md_get_column_value_as_range-IsList cxt r has pos le =
      let read = md_get_column_value_as_cursor-Reads r cxt pos le has in
      let back = row_back read.into (targets r) (omega (arith, bounded r pos le)) in
      let ends =
        at_end_of-of read.into (targets r) (omega (arith, read.rows))
          (omega (arith, bounded r pos le)) in
      elim (Bool-cases (targets r == 0 || targets r == read.into.row_count + 1)) [
        | inl empty ↦
            let test : (cursor_null (create_cursor read.into (targets r))
                  || targets r == read.into.row_count + 1)
                ≡ true =
              ground arith in
            let which : (targets r ≡ 0) ⊎ (targets r ≡ n + 1) = elim (ℕ_discrete (targets r) 0) [
              | yes zero_row ↦ inl zero_row
              | no some_row ↦ inr (ground (arith, read.rows))
            ] in
            (
              read.into,
              (create_cursor read.into (targets r), 0, read.after),
              rw (read.reads, ends, test) refl,
              read.rows,
              (refl, inl (which, refl)),
            )
        | inr full ↦
            let test : (cursor_null (create_cursor read.into (targets r))
                  || targets r == read.into.row_count + 1)
                ≡ false =
              ground arith in
            let inside : targets r ≤ n = ground (arith, bounded r pos le, read.rows) in
            let (m, cxt', next, counted) =
              count_from-Counted t.row_count r read.after read.into (targets r) read.rows inside pos
                le (omega arith) read.has in
            (
              read.into,
              (create_cursor read.into (targets r), difference m (targets r), cxt'),
              rw (read.reads, ends, test, counted) refl,
              read.rows,
              (refl, inr (m, next, refl)),
            )
      ]
