-- ===== src/Schema/New.antt =====
-- The tables that `initialize_new_table_details` of src/dnmd/tables.c lays out, and the tables that
-- stand for others.
use dnmd.Base.{ℕ, ◌<◌, ◌≡◌, ◌≢◌, arith, refl}
use dnmd.Base.{
  List, [], ◌∷◌, All, Option, none, some, Bool, true, false, ◌&&◌, ◌||◌, length, get_elem?,
}
use dnmd.Base.{all_below, all_below_sound, ltb, ◌==◌, ◌!=◌, ok}
use dnmd.Ids.{mdtid_unused}
use dnmd.Schema.Complete.{IsTableId, initialize_table_details-Tiles}
use dnmd.Schema.Details.{Mdtable, get_table_column_count}
use dnmd.Schema.Keys.{
  MdKeyInfo, table_keys, get_table_keys, real_row_counts, initialize_new_table_details,
  table_is_indirect_table, get_corresponding_indirection_table,
}
use dnmd.Schema.Kinds.{table_column_counts}
use dnmd.Schema.Layout.{IsSized, Tiles}

-- All keys are columns of a table with `count` columns.
keys_below : ℕ → List MdKeyInfo → Bool
keys_below count [] = true
keys_below count (k ∷ keys) = ltb k.index count && keys_below count keys

has_columns : Option (List MdKeyInfo) → Option ℕ → Bool
has_columns (some keys) (some count) = keys_below count keys
has_columns _ _ = false

keys_table :
    all_below 56 (λ id. has_columns (get_elem? table_keys id) (get_elem? table_column_counts id))
    ≡ true
unfolding all_below has_columns keys_below table_keys table_column_counts
keys_table = refl

-- Every sort key is a column.
abbrev pub AreColumns : ℕ → List MdKeyInfo → Type 0
AreColumns count keys = All (λ (k : MdKeyInfo). k.index < count) keys

keys_below-AreColumns :
    (count : ℕ) (keys : List MdKeyInfo) → keys_below count keys ≡ true → AreColumns count keys
unfolding keys_below
keys_below-AreColumns count [] h = tt
keys_below-AreColumns count (k ∷ keys) h =
    (ground arith, keys_below-AreColumns count keys (ground arith))

-- The sort keys of a table are among its columns.
pub get_table_keys-AreColumns :
    (id : ℕ)
    → id < 56
    → (keys : List MdKeyInfo) × (count : ℕ) × (get_table_keys id ≡ ok keys)
      × (get_table_column_count id ≡ ok count)
      × AreColumns count keys
unfolding get_table_keys get_table_column_count has_columns
get_table_keys-AreColumns id lt =
    from (get_elem? table_keys id) (get_elem? table_column_counts id)
      (all_below_sound 56 _ id keys_table lt) refl refl
  where
    from :
        (o : Option (List MdKeyInfo)) (n : Option ℕ)
        → has_columns o n ≡ true
        → get_elem? table_keys id ≡ o
        → get_elem? table_column_counts id ≡ n
        → (keys : List MdKeyInfo) × (count : ℕ) × (get_table_keys id ≡ ok keys)
          × (get_table_column_count id ≡ ok count)
          × AreColumns count keys
    from (some keys) (some count) h e f =
        (keys, count, ground arith, ground arith, keys_below-AreColumns count keys h)
    from none n h e f = cc
    from (some keys) none h e f = cc

-- A new table is laid out like a loaded one, has its id and no rows, and counts as sorted exactly if
-- it has keys.
pub initialize_new_table_details-Tiles :
    (flags id : ℕ) (tables : List Mdtable) (t : Mdtable)
    → IsTableId id
    → (t' : Mdtable) × (keys : List MdKeyInfo) × (initialize_new_table_details flags tables id t
        ≡ ok t')
      × (get_table_keys id ≡ ok keys)
      × Tiles 0 t'.column_details t'.row_size_bytes
      × All IsSized t'.column_details
      × (length t'.column_details ≡ t'.column_count)
      × (t'.row_count ≡ 0)
      × (t'.table_id ≡ id)
      × (t'.is_sorted ≡ (length keys != 0))
unfolding initialize_new_table_details
initialize_new_table_details-Tiles flags id tables t known =
    let (keys, count, e, _, _) = get_table_keys-AreColumns id known.0 in
    let (t1, made, tiles, columns, _, _, _, _, named, one_width, sorted) =
      initialize_table_details-Tiles (real_row_counts tables id) flags id (length keys != 0) t known
        (ground arith) in
    (
      record t1 { row_count = 0 },
      keys,
      rw (e, made) refl,
      e,
      tiles,
      one_width,
      columns,
      refl,
      named,
      sorted,
    )

indirection_table :
    all_below 56 (λ id.
      get_corresponding_indirection_table id == mdtid_unused
      || table_is_indirect_table (get_corresponding_indirection_table id))
    ≡ true
unfolding all_below get_corresponding_indirection_table table_is_indirect_table
indirection_table = refl

-- What stands for a table is an indirection table, where there is any.
pub get_corresponding_indirection_table-is_indirect :
    (id : ℕ)
    → id < 56
    → get_corresponding_indirection_table id ≢ mdtid_unused
    → table_is_indirect_table (get_corresponding_indirection_table id) ≡ true
get_corresponding_indirection_table-is_indirect id lt h =
    let e = all_below_sound 56 _ id indirection_table lt in ground arith
