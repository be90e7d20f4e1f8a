-- ===== src/Query/Runs.antt =====
-- Runs on a table of owners whose two rows have the lists 1 and null, of three fields.
use dnmd.Base.{ℕ, zero, suc, ◌+◌, ◌≤◌, ◌<◌, ◌≡◌, ◌↔◌, arith, refl, sym, ap, ◌∙◌}
use dnmd.Base.{
  List, [], ◌∷◌, get_elem?, some, Bool, true, false, ok, ◌==◌, ◌||◌, ◌&&◌, subst, if◌then◌else◌,
  Outcome,
}
use native.Mathlib.Decide.{ℕ_discrete}
use dnmd.Access.{Mdcursor, create_cursor, create_access_context, access_row, read_column_data}
use dnmd.Bytes.{read_u16, read_le, read_sized}
use dnmd.Context.{Mdcxt}
use dnmd.Query.{get_column_target, target_of, md_token_to_cursor, md_cursor_to_token}
use dnmd.Query.Lists.{md_get_column_value_as_range}
use dnmd.Query.Lists.Next.{IsList, md_get_column_value_as_range-IsList}
use dnmd.Query.Tokens.{Numbered, md_token_to_cursor-md_cursor_to_token}
use dnmd.Samples.{context_of, copies, nested_class}
use dnmd.Schema.Details.{Mdtable}

abbrev owners : Mdtable
owners = record {
  contents = record { ptr = 1 ∷ 0 ∷ 0 ∷ 0 ∷ []; size = 4 };
  row_count = 2;
  row_size_bytes = 2;
  column_count = 1;
  is_sorted = false;
  is_adding_new_row = false;
  table_id = 0x2;
  initialized = true;
  column_details = 0x40014 ∷ [];
}

abbrev fields : Mdtable
fields = record owners { row_count = 3; table_id = 0x4 }

abbrev lists : ℕ → ℕ
lists r = if r == 1 then 1 else 0

first_list : get_column_target (create_cursor owners 1) 0 ≡ ok (4, 1)
unfolding get_column_target target_of create_access_context access_row read_column_data read_u16
    read_le read_sized
first_list = refl

second_list : get_column_target (create_cursor owners 2) 0 ≡ ok (4, 0)
unfolding get_column_target target_of create_access_context access_row read_column_data read_u16
    read_le read_sized
second_list = refl

abbrev target : ℕ → Outcome (ℕ × ℕ)
target r = ok (4, r)

lists_at : (r : ℕ) → 0 < r → r ≤ 2 → get_column_target (create_cursor owners r) 0 ≡ ok (4, lists r)
lists_at r pos le = elim (ℕ_discrete r 1) [
  | yes one ↦
      let listed : lists r ≡ 1 = ground arith in
      ap (λ (k : ℕ). get_column_target (create_cursor owners k) 0) one
      ∙ first_list
      ∙ ap target (sym listed)
  | no other ↦
      let two : r ≡ 2 = omega arith in
      let listed : lists r ≡ 0 = ground arith in
      ap (λ (k : ℕ). get_column_target (create_cursor owners k) 0) two
      ∙ second_list
      ∙ ap target (sym listed)
]

lists_bounded : (r : ℕ) → 0 < r → r ≤ 2 → lists r ≤ 3 + 1
lists_bounded r pos le = ground arith

abbrev cxt : Mdcxt
cxt = context_of 4 (fields ∷ [])

md_get_column_value_as_range-IsList_example :
    (u : Mdtable) × (list : Mdcursor × ℕ × Mdcxt) × (md_get_column_value_as_range cxt
        (create_cursor owners 1)
        0
      ≡ ok list)
    × (u.row_count ≡ 3)
    × IsList owners 0 4 3 lists (omega arith) (omega arith) lists_at lists_bounded 1 u list
md_get_column_value_as_range-IsList_example =
    md_get_column_value_as_range-IsList owners 0 4 3 lists (omega arith) (omega arith) lists_at
      lists_bounded cxt 1 (fields, refl, refl) (omega arith) (omega arith)

-- A context of 56 tables, of which one has rows.
abbrev full : Mdcxt
full = context_of 41 (nested_class ∷ copies 14 [])

-- The tables from the number `n` on that have rows have their ids.
numbered_from : ℕ → List Mdtable → Bool
numbered_from n [] = true
numbered_from n (t ∷ ts) = (t.row_count == 0 || t.table_id == n) && numbered_from (n + 1) ts

table_of : {x y : Mdtable} → some x ≡ some y → x ≡ y
table_of h = cc

numbered_from-named :
    (n : ℕ) (ts : List Mdtable) (i : ℕ) (u : Mdtable)
    → numbered_from n ts ≡ true
    → get_elem? ts i ≡ some u
    → 0 < u.row_count
    → u.table_id ≡ n + i
unfolding numbered_from
numbered_from-named n [] i u h e some_rows = cc
numbered_from-named n (t ∷ ts) zero u h e some_rows =
    let same : t ≡ u = table_of e in
    subst (λ (v : Mdtable). 0 < v.row_count → v.table_id ≡ n + 0) same (λ pos. ground arith)
      some_rows
numbered_from-named n (t ∷ ts) (suc i) u h e some_rows =
    omega (arith, numbered_from-named (n + 1) ts i u (ground arith) e some_rows)

full_numbered : numbered_from 0 full.tables ≡ true
unfolding numbered_from
full_numbered = refl

full-Numbered : Numbered full
full-Numbered i u e some_rows =
    omega (arith, numbered_from-named 0 full.tables i u full_numbered e some_rows)

md_token_to_cursor-md_cursor_to_token_example :
    (md_token_to_cursor (some full) 0x29000002 ≡ ok (create_cursor nested_class 2))
    ↔ (md_cursor_to_token (create_cursor nested_class 2) ≡ (0x29000002, true))
md_token_to_cursor-md_cursor_to_token_example =
    md_token_to_cursor-md_cursor_to_token full nested_class 2 0x29000002 full-Numbered (omega arith)
      refl (omega arith) (omega arith) (omega arith) (omega arith)
