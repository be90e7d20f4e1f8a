-- ===== src/Context.antt =====
-- `mdcxt_t` of src/dnmd/internal.h, as far as the streams and the tables use it.
use dnmd.Base.{ℕ, List}
use dnmd.Bytes.{Mdcdata}
use dnmd.Schema.Details.{Mdtable}

-- The parts of it that the memory manager and the editor use are left out. `tables` has 56 entries in
-- the source; here it is a list, and an index past its end is an access out of range.
pub record Mdcxt : Type 0 where
  pub context_flags : ℕ
  pub strings_heap : Mdcdata
  pub guid_heap : Mdcdata
  pub blob_heap : Mdcdata
  pub user_string_heap : Mdcdata
  pub tables_heap : Mdcdata
  pub pdb : Mdcdata
  pub tables : List Mdtable

abbrev pub mdc_extra_data : ℕ
mdc_extra_data = 0x0040
