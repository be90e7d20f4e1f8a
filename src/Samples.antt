-- ===== src/Samples.antt =====
-- A NestedClass table with two rows, for the runs of several modules.
use dnmd.Base.{ℕ, zero, suc, arith, refl, inl}
use dnmd.Base.{List, [], ◌∷◌, true, false}
use dnmd.Bytes.{Mdcdata}
use dnmd.Bytes.Check.{is_stream-IsStream}
use dnmd.Context.{Mdcxt}
use dnmd.Schema.Details.{Mdtable}
use dnmd.Tables.Loaded.{IsLoaded}

abbrev pub rows : List ℕ
rows = 1 ∷ 0 ∷ 9 ∷ 0 ∷ 3 ∷ 0 ∷ 8 ∷ 0 ∷ []

abbrev pub nested_class : Mdtable
nested_class = record {
  contents = record { ptr = rows; size = 8 };
  row_count = 2;
  row_size_bytes = 4;
  column_count = 2;
  is_sorted = true;
  is_adding_new_row = false;
  table_id = 0x29;
  initialized = true;
  column_details = 0x20014 ∷ 0x20214 ∷ [];
}

pub nested_class-IsLoaded : IsLoaded nested_class
nested_class-IsLoaded = record {
  tiles = (refl, (refl, refl));
  one_width = (inl refl, (inl refl, tt));
  columns = refl;
  row_at_most = omega arith;
  filled = refl;
  valid = is_stream-IsStream nested_class.contents refl;
  present = omega arith;
}

abbrev pub no_heap : Mdcdata
no_heap = record { ptr = []; size = 0 }

abbrev pub empty_table : Mdtable
empty_table = record nested_class { row_count = 0; is_sorted = false }

abbrev pub copies : ℕ → List Mdtable → List Mdtable
copies zero rest = rest
copies (suc n) rest = empty_table ∷ copies n rest

-- A context without heaps, whose tables from `n` on are these.
abbrev pub context_of : ℕ → List Mdtable → Mdcxt
context_of n rest = record {
  context_flags = 0;
  strings_heap = no_heap;
  guid_heap = no_heap;
  blob_heap = no_heap;
  user_string_heap = no_heap;
  tables_heap = no_heap;
  pdb = no_heap;
  tables = copies n rest;
}
