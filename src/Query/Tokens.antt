-- ===== src/Query/Tokens.antt =====
-- Tokens and cursors name the same rows: `md_token_to_cursor` and `md_cursor_to_token` of
-- src/dnmd/query.c.
use dnmd.Base.{ℕ, ◌+◌, ◌*◌, ◌%◌, ◌^◌, ◌≤◌, ◌<◌, ◌≡◌, ◌↔◌, arith, refl, sym, ap, ◌∙◌}
use dnmd.Base.{
  Option, none, some, Bool, true, false, ◌||◌, ◌==◌, leb, ltb, get_elem?, if◌then◌else◌, Outcome,
  ok, failed, fault, ◌>>=◌, >>=-eq-ok, ok-injective,
}
use dnmd.Access.{Mdcursor, create_cursor}
use dnmd.Coded.{rid_from_token, extract_token_type}
use dnmd.Coded.Tokens.{rid_mod, type_mod, token_fields}
use dnmd.Context.{Mdcxt}
use dnmd.Cursors.Moves.{row_back}
use dnmd.Ids.{mdtable_max_count}
use dnmd.Query.{type_to_table, md_token_to_cursor, md_cursor_to_token}
use dnmd.Schema.Details.{Mdtable}

-- Each table that has rows has the id that it is found by. The others may have none.
abbrev pub Numbered : Mdcxt → Type 0
Numbered cxt =
    (i : ℕ) (u : Mdtable) → get_elem? cxt.tables i ≡ some u → 0 < u.row_count → u.table_id ≡ i

cursor_token :
    (t : Mdtable) (row : ℕ)
    → t.table_id < 56
    → row ≤ t.row_count
    → t.row_count + 1 < 2 ^ 24
    → md_cursor_to_token (create_cursor t row) ≡ (t.table_id * 2 ^ 24 + row, true)
unfolding md_cursor_to_token
cursor_token t row lt le small =
    let back = row_back t row (omega arith) in
    let again : rid_from_token row ≡ row = omega (arith, rid_mod row) in
    let room : leb row ((t.row_count + 1) % 2 ^ 32) ≡ true = ground arith in
    rw (back, again, token_fields t.table_id row (omega arith) (omega arith), room) refl

-- A token with its fields.
split_token :
    (id row : ℕ)
    → id < 56
    → row < 2 ^ 24
    → (extract_token_type (id * 2 ^ 24 + row) ≡ id) × (rid_from_token (id * 2 ^ 24 + row) ≡ row)
split_token id row lt small =
    (omega (arith, type_mod (id * 2 ^ 24 + row)), omega (arith, rid_mod (id * 2 ^ 24 + row)))

token_cursor :
    (cxt : Mdcxt) (t : Mdtable) (row : ℕ)
    → t.table_id < 56
    → get_elem? cxt.tables t.table_id ≡ some t
    → 0 < row
    → row ≤ t.row_count
    → t.row_count + 1 < 2 ^ 24
    → md_token_to_cursor (some cxt) (t.table_id * 2 ^ 24 + row) ≡ ok (create_cursor t row)
unfolding md_token_to_cursor
token_cursor cxt t row lt at pos le small =
    let (e, f) = split_token t.table_id row lt (omega arith) in
    let known : leb mdtable_max_count t.table_id ≡ false = ground arith in
    let inside : (row == 0 || ltb t.row_count row) ≡ false = ground arith in
    rw (e, f, known, type_to_table, at, inside) refl

pub looked_up :
    (o : Option Mdtable) (u : Mdtable)
    → (elim o as (λ _. Outcome Mdtable) [ none ↦ fault | some t ↦ ok t ]) ≡ ok u
    → o ≡ some u
looked_up none u h = cc
looked_up (some t) u h = ap (λ (x : Mdtable). some x) (ok-injective h)

-- The table and the row of a token that has a cursor.
token_target :
    (cxt : Mdcxt) (tk : ℕ) (c : Mdcursor)
    → md_token_to_cursor (some cxt) tk ≡ ok c
    → (u : Mdtable) × (get_elem? cxt.tables (extract_token_type tk) ≡ some u)
      × (create_cursor u (rid_from_token tk) ≡ c)
unfolding md_token_to_cursor
token_target cxt tk c h = known (leb mdtable_max_count (extract_token_type tk)) h
  where
    row_known :
        (b : Bool) (u : Mdtable)
        → (if b then failed else ok (create_cursor u (rid_from_token tk))) ≡ ok c
        → create_cursor u (rid_from_token tk) ≡ c
    row_known true u k = cc
    row_known false u k = ok-injective k

    known :
        (b : Bool)
        → (if b
            then failed
            else type_to_table cxt (extract_token_type tk) >>= λ table.
                if rid_from_token tk == 0 || ltb table.row_count (rid_from_token tk)
                then failed
                else ok (create_cursor table (rid_from_token tk)))
          ≡ ok c
        → (u : Mdtable) × (get_elem? cxt.tables (extract_token_type tk) ≡ some u)
          × (create_cursor u (rid_from_token tk) ≡ c)
    known true k = cc
    known false k =
        let (u, e, f) = >>=-eq-ok (type_to_table cxt (extract_token_type tk)) _ k in
        (
          u,
          looked_up (get_elem? cxt.tables (extract_token_type tk)) u e,
          row_known (rid_from_token tk == 0 || ltb u.row_count (rid_from_token tk)) u f,
        )

table_inside : {a b : Option Mdtable} {x y : Mdtable} → a ≡ some x → b ≡ some y → a ≡ b → x ≡ y
table_inside e f g = cc

-- In a context whose tables with rows have their ids, a token of 32 bits leads to the cursor of a row of a
-- table of less than 2 ^ 24 - 1 rows exactly where that cursor gives the token.
pub md_token_to_cursor-md_cursor_to_token :
    (cxt : Mdcxt) (t : Mdtable) (row tk : ℕ)
    → Numbered cxt
    → t.table_id < 56
    → get_elem? cxt.tables t.table_id ≡ some t
    → 0 < row
    → row ≤ t.row_count
    → t.row_count + 1 < 2 ^ 24
    → tk < 2 ^ 32
    → (md_token_to_cursor (some cxt) tk ≡ ok (create_cursor t row))
      ↔ (md_cursor_to_token (create_cursor t row) ≡ (tk, true))
md_token_to_cursor-md_cursor_to_token cxt t row tk numbered lt at pos le small word = (
  λ h.
      let (u, e, f) = token_target cxt tk (create_cursor t row) h in
      let same : u ≡ t = table_inside refl refl (ap (λ (c : Mdcursor). c.table_of) f) in
      let id : t.table_id ≡ extract_token_type tk =
        numbered (extract_token_type tk) t (e ∙ ap (λ (x : Mdtable). some x) same) (omega arith) in
      let rid : rid_from_token tk ≡ row = ap (λ (c : Mdcursor). c.row_of) f in
      let fields : t.table_id * 2 ^ 24 + row ≡ tk =
        omega (arith, id, rid, type_mod tk, rid_mod tk) in
      cursor_token t row lt le small ∙ ap (λ (k : ℕ). pair k true) fields,
  λ h.
      let fields : t.table_id * 2 ^ 24 + row ≡ tk =
        ap (λ (p : ℕ × Bool). p.0) (sym (cursor_token t row lt le small) ∙ h) in
      ap (md_token_to_cursor (some cxt)) (sym fields) ∙ token_cursor cxt t row lt at pos le small,
)
  where
    pair : ℕ → Bool → ℕ × Bool
    pair k b = (k, b)
