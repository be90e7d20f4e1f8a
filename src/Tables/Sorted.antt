-- ===== src/Tables/Sorted.antt =====
-- What `validate_tables` of src/dnmd/streams.c says of the order of the rows.
use dnmd.Base.{ℕ, zero, suc, ◌+◌, ◌-◌, ◌≤◌, ◌<◌, ◌≡◌, ◌⊎◌, inl, inr, arith, refl, sym, subst, ◌∙◌}
use dnmd.Base.{
  List, [], ◌∷◌, some, Bool, true, false, not, ◌||◌, length, get_elem?, leb, ltb, ◌==◌, ◌!=◌,
  bit_and,
}
use dnmd.Base.{if◌then◌else◌, Outcome, ok, failed, ◌>>◌, guard, >>=-eq-ok}
use dnmd.Access.{create_cursor, AccessCxt, create_access_context, read_column_data, read_column}
use dnmd.Context.{Mdcxt}
use dnmd.Schema.Details.{Mdtable}
use dnmd.Schema.Keys.{MdKeyInfo, get_table_keys}
use dnmd.Tables.Valid.{
  mdc_uncompressed_table_heap, has_indirect, in_direction, check_keys, check_rows, validate_table,
  validate_from, validate_tables,
}
use native.Mathlib.Decide.{ℕ_discrete}

some-injective {ℓ} : {A : Type ℓ} {x y : A} → some x ≡ some y → x ≡ y
some-injective h = cc

-- The value `a` comes before `b` in the direction of the key.
abbrev pub Precedes : MdKeyInfo → ℕ → ℕ → Type 0
Precedes k a b = (in_direction k.descending a b).0 < (in_direction k.descending a b).1

-- The row `r` and the next one can be read and are in lexicographic order of the keys.
abbrev pub Ordered : Mdtable → ℕ → List MdKeyInfo → Type 0
Ordered t r [] = Unit {0}
Ordered t r (k ∷ keys) =
    (a b : ℕ) × (read_column (create_cursor t r) k.index ≡ ok a)
    × (read_column (create_cursor t (r + 1)) k.index ≡ ok b)
    × (Precedes k a b ⊎ ((a ≡ b) × Ordered t r keys))

read_at_row :
    (c : AccessCxt) (t : Mdtable) (r i a : ℕ)
    → create_access_context (create_cursor t r) i ≡ ok c
    → read_column_data c ≡ ok a
    → read_column (create_cursor t r) i ≡ ok a
unfolding read_column
read_at_row c t r i a e f = rw e f

decided :
    (d : Bool) (a b : ℕ) (rest : Outcome (Unit {0}))
    → (if ltb (in_direction d a b).1 (in_direction d a b).0
        then failed
        else if ltb (in_direction d a b).0 (in_direction d a b).1
        then ok tt
        else rest)
      ≡ ok tt
    → ((in_direction d a b).0 < (in_direction d a b).1) ⊎ ((a ≡ b) × (rest ≡ ok tt))
decided true a b rest e = ground arith
decided false a b rest e = ground arith

check_keys-Ordered :
    (t : Mdtable) (r : ℕ) (keys : List MdKeyInfo) → check_keys t r keys ≡ ok tt → Ordered t r keys
unfolding check_keys
check_keys-Ordered t r [] e = tt
check_keys-Ordered t r (k ∷ keys) e =
    let (c1, e1, f1) = >>=-eq-ok (create_access_context (create_cursor t r) k.index) _ e in
    let (c2, e2, f2) = >>=-eq-ok (create_access_context (create_cursor t (r + 1)) k.index) _ f1 in
    let (a, e3, f3) = >>=-eq-ok (read_column_data c1) _ f2 in
    let (b, e4, f4) = >>=-eq-ok (read_column_data c2) _ f3 in
    let order : Precedes k a b ⊎ ((a ≡ b) × (check_keys t r keys ≡ ok tt)) =
      decided k.descending a b (check_keys t r keys) f4 in
    (
      a,
      b,
      read_at_row c1 t r k.index a e1 e3,
      read_at_row c2 t (r + 1) k.index b e2 e4,
      elim order [
        | inl p ↦ inl p
        | inr (same, more) ↦ inr (same, check_keys-Ordered t r keys more)
      ],
    )

check_rows-Ordered :
    (n r : ℕ) (t : Mdtable) (keys : List MdKeyInfo)
    → check_rows n r t keys ≡ ok tt
    → (q : ℕ) → r ≤ q
    → q < r + n
    → Ordered t q keys
unfolding check_rows
check_rows-Ordered zero r t keys e q le lt = absurd (omega arith)
check_rows-Ordered (suc n) r t keys e q le lt =
    let (_, e1, f1) = >>=-eq-ok (check_keys t r keys) _ e in
    elim (ℕ_discrete r q) [
      | yes same ↦ subst (λ q. Ordered t q keys) same (check_keys-Ordered t r keys (e1 ∙ refl))
      | no other ↦ check_rows-Ordered n (r + 1) t keys f1 q (omega arith) (omega arith)
    ]

validate_table-Ordered :
    (id : ℕ) (t : Mdtable) (keys : List MdKeyInfo)
    → validate_table id t ≡ ok tt
    → t.is_sorted ≡ true
    → get_table_keys id ≡ ok keys
    → (r : ℕ) → 1 ≤ r
    → r < t.row_count
    → Ordered t r keys
unfolding validate_table
validate_table-Ordered id t [] e sorted known r le lt = tt
validate_table-Ordered id t (k ∷ keys) e sorted known r le lt =
    let many : leb t.row_count 1 ≡ false = ground arith in
    let some_keys : (length (k ∷ keys) == 0) ≡ false = ground arith in
    let reached : validate_table id t ≡ check_rows (t.row_count - 1) 1 t (k ∷ keys) =
      rw (sorted, many, known, some_keys) refl in
    check_rows-Ordered (t.row_count - 1) 1 t (k ∷ keys) (sym reached ∙ e) r le (omega arith)

validate_from-table :
    (id : ℕ) (tables : List Mdtable) (i : ℕ) (t : Mdtable)
    → validate_from id tables ≡ ok tt
    → get_elem? tables i ≡ some t
    → validate_table (id + i) t ≡ ok tt
unfolding validate_from
validate_from-table id [] i t e f = cc
validate_from-table id (u ∷ tables) zero t e f =
    let (_, e1, _) = >>=-eq-ok (validate_table id u) _ e in
    let same : u ≡ t = some-injective f in
    let here : id + 0 ≡ id = omega arith in
    rw here (subst (λ u. validate_table id u ≡ ok tt) same e1)
validate_from-table id (u ∷ tables) (suc i) t e f =
    let (_, _, rest) = >>=-eq-ok (validate_table id u) _ e in
    let here : id + suc i ≡ id + 1 + i = omega arith in
    rw here (validate_from-table (id + 1) tables i t rest f)

after_guard : (b : Bool) (r : Outcome (Unit {0})) → (guard b >> r) ≡ ok tt → r ≡ ok tt
after_guard true r e = e
after_guard false r e = cc

-- Where `validate_tables` succeeds, any two neighbouring rows of a table that is marked as sorted are
-- in the lexicographic order of the table's keys.
pub validate_tables-Ordered :
    (cxt : Mdcxt) (id : ℕ) (t : Mdtable) (keys : List MdKeyInfo) (r : ℕ)
    → validate_tables cxt ≡ ok tt
    → get_elem? cxt.tables id ≡ some t
    → t.is_sorted ≡ true
    → get_table_keys id ≡ ok keys
    → 1 ≤ r
    → r < t.row_count
    → Ordered t r keys
unfolding validate_tables
validate_tables-Ordered cxt id t keys r e there sorted known le lt =
    let all : validate_from 0 cxt.tables ≡ ok tt =
      after_guard
        (bit_and cxt.context_flags mdc_uncompressed_table_heap != 0
          || not (has_indirect 0 cxt.tables))
        (validate_from 0 cxt.tables) e in
    let body : validate_table (0 + id) t ≡ ok tt =
      validate_from-table 0 cxt.tables id t all there in
    let same : 0 + id ≡ id = omega arith in
    validate_table-Ordered id t keys (subst (λ i. validate_table i t ≡ ok tt) same body) sorted
      known r le lt
