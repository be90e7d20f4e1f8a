-- ===== src/Schema/Keys.antt =====
-- Sort keys, new tables and indirection tables: the rest of src/dnmd/tables.c.
use dnmd.Base.{ℕ}
use dnmd.Base.{List, [], ◌∷◌, none, some, Bool, true, false, ◌||◌}
use dnmd.Base.{get_elem?, length, ◌==◌, ◌!=◌, if◌then◌else◌, Outcome, ok, fault, ◌>>=◌}
use dnmd.Ids.{
  mdtid_unused, mdtid_field_ptr, mdtid_method_ptr, mdtid_param_ptr, mdtid_event_ptr,
  mdtid_property_ptr, mdtid_field, mdtid_method_def, mdtid_param, mdtid_event, mdtid_property,
}
use dnmd.Schema.Details.{Mdtable, initialize_table_details}

-- `md_key_info_t`
pub record MdKeyInfo : Type 0 where
  pub index : ℕ
  pub descending : Bool

abbrev ascending : ℕ → MdKeyInfo
ascending index = record { index = index; descending = false }

-- The entries of `table_keys` by id; the arrays `keys_...` are written out in them.
abbrev no_keys : List MdKeyInfo
no_keys = []

abbrev key : ℕ → List MdKeyInfo
key index = ascending index ∷ []

abbrev keys_generic_param : List MdKeyInfo
keys_generic_param = ascending 2 ∷ ascending 0 ∷ []

abbrev keys_local_scope : List MdKeyInfo
keys_local_scope = ascending 0 ∷ ascending 4 ∷ record { index = 5; descending = true } ∷ []

unfoldable pub table_keys : List (List MdKeyInfo)
table_keys =
    no_keys
    ∷ no_keys
    ∷ no_keys
    ∷ no_keys
    ∷ no_keys
    ∷ no_keys
    ∷ no_keys
    ∷ no_keys
    ∷ no_keys
    ∷ key 0
    ∷ no_keys
    ∷ key 1
    ∷ key 0
    ∷ key 0
    ∷ key 1
    ∷ key 2
    ∷ key 1
    ∷ no_keys
    ∷ no_keys
    ∷ no_keys
    ∷ no_keys
    ∷ no_keys
    ∷ no_keys
    ∷ no_keys
    ∷ key 2
    ∷ key 0
    ∷ no_keys
    ∷ no_keys
    ∷ key 1
    ∷ key 1
    ∷ no_keys
    ∷ no_keys
    ∷ no_keys
    ∷ no_keys
    ∷ no_keys
    ∷ no_keys
    ∷ no_keys
    ∷ no_keys
    ∷ no_keys
    ∷ no_keys
    ∷ no_keys
    ∷ key 0
    ∷ keys_generic_param
    ∷ no_keys
    ∷ key 0
    ∷ no_keys
    ∷ no_keys
    ∷ no_keys
    ∷ no_keys
    ∷ no_keys
    ∷ keys_local_scope
    ∷ no_keys
    ∷ no_keys
    ∷ no_keys
    ∷ key 0
    ∷ key 0
    ∷ []

-- The keys and their count in one list.
unfoldable pub get_table_keys : ℕ → Outcome (List MdKeyInfo)
get_table_keys id = elim (get_elem? table_keys id) [ none ↦ fault | some keys ↦ ok keys ]

-- `table_row_counts[i] = cxt->tables[i].row_count`, and `table_row_counts[id] = 1`.
abbrev pub real_row_counts : List Mdtable → ℕ → ℕ → ℕ
real_row_counts tables id i =
    if i == id then 1 else elim (get_elem? tables i) [ none ↦ 0 | some t ↦ t.row_count ]

-- Of the context only the flags and the tables are used.
unfoldable pub initialize_new_table_details : ℕ → List Mdtable → ℕ → Mdtable → Outcome Mdtable
initialize_new_table_details flags tables id t = do
  keys ← get_table_keys id
  t' ← initialize_table_details (real_row_counts tables id) flags id (length keys != 0) t
  ok (record t' { row_count = 0 })

unfoldable pub table_is_indirect_table : ℕ → Bool
table_is_indirect_table id =
    id == mdtid_field_ptr
    || id == mdtid_method_ptr
    || id == mdtid_param_ptr
    || id == mdtid_event_ptr
    || id == mdtid_property_ptr

unfoldable pub get_corresponding_indirection_table : ℕ → ℕ
get_corresponding_indirection_table id =
    if id == mdtid_field
    then mdtid_field_ptr
    else if id == mdtid_method_def
    then mdtid_method_ptr
    else if id == mdtid_param
    then mdtid_param_ptr
    else if id == mdtid_event
    then mdtid_event_ptr
    else if id == mdtid_property
    then mdtid_property_ptr
    else mdtid_unused
