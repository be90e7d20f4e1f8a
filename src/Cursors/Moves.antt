-- ===== src/Cursors/Moves.antt =====
-- A cursor stays in its table, and a move can be taken back.
use dnmd.Base.{ℕ, ◌+◌, ◌-◌, ◌%◌, ◌^◌, ◌≤◌, ◌<◌, ◌≡◌, arith, refl, sym, ap, ◌∙◌, bit_and_low}
use dnmd.Base.{some, ok}
use dnmd.Access.{Mdcursor, cursor_row, create_cursor}
use dnmd.Cursors.{move_to, cursor_move_no_checks, md_cursor_move}
use dnmd.Schema.Details.{Mdtable}

pub unchecked :
    (c : Mdcursor) (t : Mdtable) (delta : ℕ)
    → c.table_of ≡ some t
    → cursor_move_no_checks c delta ≡ move_to t ((cursor_row c + delta) % 2 ^ 32)
unfolding cursor_move_no_checks
unchecked c t delta e = rw e refl

md_cursor_move-move_to :
    (c : Mdcursor) (t : Mdtable) (delta : ℕ)
    → c.table_of ≡ some t
    → md_cursor_move (some c) delta ≡ move_to t ((cursor_row c + delta) % 2 ^ 32)
unfolding md_cursor_move
md_cursor_move-move_to c t delta e = rw e (unchecked c t delta e)

moved :
    (t : Mdtable) (row : ℕ) (c : Mdcursor)
    → t.row_count + 1 < 2 ^ 24
    → move_to t row ≡ ok c
    → (0 < row) × (row ≤ t.row_count + 1) × (create_cursor t row ≡ c)
unfolding move_to
moved t row c small e = (ground arith, ground arith, ground arith)

pub can_move :
    (t : Mdtable) (row : ℕ)
    → t.row_count + 1 < 2 ^ 24
    → 0 < row
    → row ≤ t.row_count + 1
    → move_to t row ≡ ok (create_cursor t row)
unfolding move_to
can_move t row small pos le = ground arith

pub row_back : (t : Mdtable) (row : ℕ) → row < 2 ^ 24 → cursor_row (create_cursor t row) ≡ row
row_back t row small = bit_and_low 24 row ∙ omega arith

-- In a table of less than 2 ^ 24 - 1 rows, a cursor on a row or at the end that is moved stays on a
-- row or at the end, and the opposite move leads back.
pub md_cursor_move_back :
    (c c' : Mdcursor) (t : Mdtable) (delta : ℕ)
    → c.table_of ≡ some t
    → t.row_count + 1 < 2 ^ 24
    → 0 < cursor_row c
    → cursor_row c ≤ t.row_count + 1
    → delta < 2 ^ 32
    → md_cursor_move (some c) delta ≡ ok c'
    → (0 < cursor_row c')
      × (cursor_row c' ≤ t.row_count + 1)
      × (md_cursor_move (some c') ((2 ^ 32 - delta) % 2 ^ 32) ≡ ok (create_cursor t (cursor_row c)))
md_cursor_move_back c c' t delta at small pos le lt e =
    let row : ℕ = (cursor_row c + delta) % 2 ^ 32 in
    let (p, q, same) = moved t row c' small (sym (md_cursor_move-move_to c t delta at) ∙ e) in
    let here : cursor_row c' ≡ row = ap cursor_row (sym same) ∙ row_back t row (omega arith) in
    let back : (cursor_row c' + (2 ^ 32 - delta) % 2 ^ 32) % 2 ^ 32 ≡ cursor_row c =
      omega (arith, here) in
    (
      omega (arith, here, p),
      omega (arith, here, q),
      md_cursor_move-move_to c' t ((2 ^ 32 - delta) % 2 ^ 32)
            (ap (λ (d : Mdcursor). d.table_of) (sym same))
          ∙ ap (move_to t) back
          ∙ can_move t (cursor_row c) small pos le,
    )
