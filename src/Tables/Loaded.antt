-- ===== src/Tables/Loaded.antt =====
-- What `initialize_tables` of src/dnmd/streams.c leaves in the tables of the context.
use dnmd.Base.{ℕ, zero, suc, ◌*◌, ◌≤◌, ◌<◌, ◌≡◌, ◌≢◌, arith, refl, subst, ap, sym, ◌∙◌}
use dnmd.Base.{All, List, [], ◌∷◌, Option, none, some, Bool, true, length, get_elem?, set}
use dnmd.Base.{ok, failed, >>=-eq-ok, ok-injective}
use dnmd.Bytes.{Mdcdata, IsStream, advance_stream}
use dnmd.Schema.Complete.{IsTableId, initialize_table_details-Tiles}
use dnmd.Schema.Details.{Mdtable, initialize_table_details, consume_table_rows}
use dnmd.Schema.Kinds.{kinds_of}
use dnmd.Schema.Layout.{IsSized, Tiles}
use dnmd.Tables.{initialize_entry, count_at}
use dnmd.Tables.Counts.{after, after-IsStream}

-- A table whose columns tile its rows, and whose rows are the bytes that it has.
pub record IsLoaded (t : Mdtable) : Type 0 where
  pub tiles : Tiles 0 t.column_details t.row_size_bytes
  pub one_width : All IsSized t.column_details
  pub columns : length t.column_details ≡ t.column_count
  pub row_at_most : t.row_size_bytes ≤ 36
  pub filled : t.contents.size ≡ t.row_size_bytes * t.row_count
  pub valid : IsStream t.contents
  pub present : 0 < t.row_count

no_rows :
    (rc : ℕ → ℕ) (flags id : ℕ) (is_sorted : Bool) (t : Mdtable)
    → rc id ≡ 0
    → initialize_table_details rc flags id is_sorted t ≡ failed
unfolding initialize_table_details
no_rows rc flags id is_sorted t e = ground arith

-- The three ids between the tables of the images and those of the PDBs.
unknown :
    (rc : ℕ → ℕ) (flags id : ℕ) (is_sorted : Bool) (t : Mdtable)
    → kinds_of id ≡ none
    → initialize_table_details rc flags id is_sorted t ≡ failed
unfolding initialize_table_details
unknown rc flags id is_sorted t e = ground arith

kinds_2d : kinds_of 0x2d ≡ none
unfolding kinds_of
kinds_2d = refl

kinds_2e : kinds_of 0x2e ≡ none
unfolding kinds_of
kinds_2e = refl

kinds_2f : kinds_of 0x2f ≡ none
unfolding kinds_of
kinds_2f = refl

-- A call that succeeds has been for a table that there is, with a row.
details_known :
    (rc : ℕ → ℕ) (flags id : ℕ) (is_sorted : Bool) (t t' : Mdtable)
    → id < 56
    → initialize_table_details rc flags id is_sorted t ≡ ok t'
    → (rc id ≢ 0) × IsTableId id
details_known rc flags id is_sorted t t' lt e = (
  λ z. absurd (fails (no_rows rc flags id is_sorted t z)),
  (
    lt,
    λ z. absurd (fails (unknown rc flags id is_sorted t (ap kinds_of z ∙ kinds_2d))),
    λ z. absurd (fails (unknown rc flags id is_sorted t (ap kinds_of z ∙ kinds_2e))),
    λ z. absurd (fails (unknown rc flags id is_sorted t (ap kinds_of z ∙ kinds_2f))),
  ),
)
  where
    fails : initialize_table_details rc flags id is_sorted t ≡ failed → ⊥
    fails f = cc

consume_table_rows-parts :
    (t t' : Mdtable) (s s' : Mdcdata)
    → consume_table_rows t s ≡ ok (t', s')
    → 0 < t.row_count
    → (t.row_size_bytes * t.row_count ≤ s.size)
      × (s' ≡ after s (t.row_size_bytes * t.row_count))
      × (t' ≡ record t { contents = record { ptr = s.ptr; size = t.row_size_bytes * t.row_count } })
unfolding consume_table_rows advance_stream
consume_table_rows-parts t t' s s' e p = (ground arith, ground arith, ground arith)

pub get_elem?-set_same {ℓ} :
    {A : Type ℓ} (xs : List A) (i : ℕ) (t v : A)
    → get_elem? xs i ≡ some t
    → get_elem? (set xs i v) i ≡ some v
get_elem?-set_same [] i t v h = cc
get_elem?-set_same (x ∷ xs) zero t v h = refl
get_elem?-set_same (x ∷ xs) (suc i) t v h = get_elem?-set_same xs i t v h

pub get_elem?-set_other {ℓ} :
    {A : Type ℓ} (xs : List A) (i j : ℕ) (v : A) → i ≢ j → get_elem? (set xs i v) j ≡ get_elem? xs j
get_elem?-set_other [] i j v h = refl
get_elem?-set_other (x ∷ xs) zero zero v h = absurd (h refl)
get_elem?-set_other (x ∷ xs) zero (suc j) v h = refl
get_elem?-set_other (x ∷ xs) (suc i) zero v h = refl
get_elem?-set_other (x ∷ xs) (suc i) (suc j) v h = get_elem?-set_other xs i j v (λ e. h (ap suc e))

-- The table `k` of the context after the loop: marked, with its id, its row count and its sorted
-- bit, laid out, and with its rows at the start of `bytes`.
pub record IsEntry (counts : List ℕ) (k : ℕ) (is_sorted : Bool) (bytes : List ℕ) (t : Mdtable)
    : Type 0 where
  pub loaded : IsLoaded t
  pub marked : t.initialized ≡ true
  pub named : t.table_id ≡ k
  pub counted : t.row_count ≡ count_at counts k
  pub sorted : t.is_sorted ≡ is_sorted
  pub rows : t.contents.ptr ≡ bytes

-- The part of it that `initialize_table_details` gives.
record IsLaidOut (counts : List ℕ) (k : ℕ) (is_sorted : Bool) (t : Mdtable) : Type 0 where
  tiles : Tiles 0 t.column_details t.row_size_bytes
  one_width : All IsSized t.column_details
  columns : length t.column_details ≡ t.column_count
  row_at_most : t.row_size_bytes ≤ 36
  present : 0 < t.row_count
  named : t.table_id ≡ k
  counted : t.row_count ≡ count_at counts k
  sorted : t.is_sorted ≡ is_sorted

details-IsLaidOut :
    (counts : List ℕ) (flags i : ℕ) (b : Bool) (t t1 : Mdtable)
    → i < 56
    → initialize_table_details (count_at counts) flags i b t ≡ ok t1
    → IsLaidOut counts i b t1
details-IsLaidOut counts flags i b t t1 lt e =
    let (rows, known) = details_known (count_at counts) flags i b t t1 lt e in
    let (t0, made, tiles, columns, _, _, at_most, count, named, one_width, sorted) =
      initialize_table_details-Tiles (count_at counts) flags i b t known rows in
    subst (IsLaidOut counts i b) (ok-injective (sym made ∙ e)) (record {
      tiles = tiles;
      one_width = one_width;
      columns = columns;
      row_at_most = at_most;
      present = ground (arith, rows, count);
      named = named;
      counted = count;
      sorted = sorted;
    })

-- The table at `i` is loaded from the stream, which moves past its rows, and the others stand as
-- they were.
abbrev pub Loads : List ℕ → ℕ → Bool → List Mdtable → Mdcdata → List Mdtable → Mdcdata → Type 0
Loads counts i is_sorted tables s tables' s' =
    (t : Mdtable) × IsEntry counts i is_sorted s.ptr t
    × (get_elem? tables' i ≡ some t)
    × (tables' ≡ set tables i t)
    × (s' ≡ after s t.contents.size)
    × IsStream s'

-- The table that is laid out and filled.
consume_table_rows-IsEntry :
    (counts : List ℕ) (flags i : ℕ) (b : Bool) (t t1 t2 : Mdtable) (s s' : Mdcdata)
    → i < 56
    → IsStream s
    → initialize_table_details (count_at counts) flags i b t ≡ ok t1
    → consume_table_rows t1 s ≡ ok (t2, s')
    → IsEntry counts i b s.ptr (record t2 { initialized = true })
      × (s' ≡ after s t2.contents.size)
      × IsStream s'
consume_table_rows-IsEntry counts flags i b t t1 t2 s s' lt v e f =
    let laid = details-IsLaidOut counts flags i b t t1 lt e in
    let (room, rest, contents) = consume_table_rows-parts t1 t2 s s' f laid.present in
    (
      subst (λ u. IsEntry counts i b s.ptr (record u { initialized = true })) (sym contents)
          (record {
            loaded = record {
              tiles = laid.tiles;
              one_width = laid.one_width;
              columns = laid.columns;
              row_at_most = laid.row_at_most;
              filled = refl;
              valid = record { readable = omega (arith, v.readable, room); bytes = v.bytes };
              present = laid.present;
            };
            marked = refl;
            named = laid.named;
            counted = laid.counted;
            sorted = laid.sorted;
            rows = refl;
          }),
      rest ∙ ap (λ (u : Mdtable). after s u.contents.size) (sym contents),
      subst IsStream (sym rest) (after-IsStream s (t1.row_size_bytes * t1.row_count) v room),
    )

-- A body of the loop.
pub initialize_entry-parts :
    (counts : List ℕ) (flags i : ℕ) (b : Bool) (tables tables' : List Mdtable) (s s' : Mdcdata)
    (o : Option Mdtable)
    → i < 56
    → IsStream s
    → get_elem? tables i ≡ o
    → initialize_entry counts flags i b tables s o ≡ ok (tables', s')
    → Loads counts i b tables s tables' s'
unfolding initialize_entry
initialize_entry-parts counts flags i b tables tables' s s' none lt v there e = cc
initialize_entry-parts counts flags i b tables tables' s s' (some t) lt v there e =
    let (t1, e1, f) = >>=-eq-ok (initialize_table_details (count_at counts) flags i b t) _ e in
    let (p, e2, g) = >>=-eq-ok (consume_table_rows t1 s) _ f in
    let (entry, moved, v') =
      consume_table_rows-IsEntry counts flags i b t t1 p.0 s p.1 lt v e1 e2 in
    let q = ok-injective g in
    (
      record p.0 { initialized = true },
      entry,
      ap (λ r. get_elem? r.0 i) (sym q) ∙ get_elem?-set_same tables i t _ there,
      sym (ap (λ r. r.0) q),
      sym (ap (λ r. r.1) q) ∙ moved,
      subst IsStream (ap (λ r. r.1) q) v',
    )
