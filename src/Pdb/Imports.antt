-- ===== src/Pdb/Imports.antt =====
-- Imports blobs: `get_num_imports` and `md_parse_imports` of src/dnmd/pdb_blobs.c.
use dnmd.Base.{ℕ, zero, suc, ◌+◌, bit_or}
use dnmd.Base.{List, [], ◌∷◌, Option, none, some, Bool, true, false, ◌||◌, leb, ◌==◌, if◌then◌else◌}
use dnmd.Base.{Outcome, ok, failed, fault, ◌>>=◌}
use dnmd.Bytes.{Mdcdata, read_u8, decompress_u32}
use dnmd.Coded.{create_token_type, decompose_coded_index, insert_coded_index}
use dnmd.Context.{Mdcxt}
use dnmd.Flags.{mdtc_idx_coded, mdci_type_def_or_ref}
use dnmd.Heaps.{try_get_blob}
use dnmd.Ids.{mdtid_assembly_ref}
use dnmd.Pdb.{
  BlobResult, mdbpr_invalid_argument, Buffer, parse_counted, or_max, uint32_max, skip_u32,
}
pub mod Count
pub mod Entries
pub mod Format
pub mod Layout
mod Runs

-- The values of an import's `kind`.
abbrev pub mdidk_import_namespace : ℕ
mdidk_import_namespace = 1

abbrev pub mdidk_import_assembly_namespace : ℕ
mdidk_import_assembly_namespace = 2

abbrev pub mdidk_import_type : ℕ
mdidk_import_type = 3

abbrev pub mdidk_import_xml_namespace : ℕ
mdidk_import_xml_namespace = 4

abbrev pub mdidk_import_assembly_reference_alias : ℕ
mdidk_import_assembly_reference_alias = 5

abbrev pub mdidk_alias_assembly_reference : ℕ
mdidk_alias_assembly_reference = 6

abbrev pub mdidk_alias_namespace : ℕ
mdidk_alias_namespace = 7

abbrev pub mdidk_alias_assembly_namespace : ℕ
mdidk_alias_assembly_namespace = 8

abbrev pub mdidk_alias_type : ℕ
mdidk_alias_type = 9

-- An entry of `md_imports_t`. A blob that is not set is NULL with length 0.
pub record Import : Type 0 where
  pub kind : ℕ
  pub alias : Mdcdata
  pub assembly : ℕ
  pub target_namespace : Mdcdata
  pub target_type : ℕ

abbrev pub no_blob : Mdcdata
no_blob = record { ptr = []; size = 0 }

-- The entry after `memset` and the store of its kind.
abbrev pub zeroed : ℕ → Import
zeroed kind = record {
  kind = kind;
  alias = no_blob;
  assembly = 0;
  target_namespace = no_blob;
  target_type = 0;
}

-- An iteration of the count.
unfoldable pub skip_fields : ℕ → Mdcdata → Outcome Mdcdata
skip_fields kind s =
    if kind == mdidk_import_namespace
    then skip_u32 s
    else if kind == mdidk_import_assembly_namespace
    then skip_u32 s >>= skip_u32
    else if kind == mdidk_import_type
    then skip_u32 s
    else if kind == mdidk_alias_namespace || kind == mdidk_import_xml_namespace
    then skip_u32 s >>= skip_u32
    else if kind == mdidk_import_assembly_reference_alias
    then skip_u32 s
    else if kind == mdidk_alias_assembly_reference
    then skip_u32 s >>= skip_u32
    else if kind == mdidk_alias_assembly_namespace
    then skip_u32 s >>= skip_u32 >>= skip_u32
    else if kind == mdidk_alias_type
    then skip_u32 s >>= skip_u32
    else failed

unfoldable pub skip_import : Mdcdata → Outcome Mdcdata
skip_import s = do (kind, s') ← read_u8 s; skip_fields kind s'

-- The loop from `num_imports` on. Each iteration takes a byte at least, so that as many as there are
-- bytes are enough.
pub num_imports_from : ℕ → ℕ → Mdcdata → Outcome ℕ
num_imports_from zero num_imports s = ok num_imports
num_imports_from (suc fuel) num_imports s =
    let rest = skip_import s >>= num_imports_from fuel (num_imports + 1) in
    if s.size == 0 || leb uint32_max num_imports then ok num_imports else rest

unfoldable pub get_num_imports : Mdcdata → Outcome ℕ
unfolding num_imports_from
get_num_imports s = or_max (num_imports_from s.size 0 s)

-- The fields of an entry, each read into it.
abbrev pub read_target_namespace : Mdcxt → Import × Mdcdata → Outcome (Import × Mdcdata)
read_target_namespace cxt (i, s) = do
  (raw, s') ← decompress_u32 s
  blob ← try_get_blob cxt raw
  ok (record i { target_namespace = blob }, s')

abbrev pub read_alias : Mdcxt → Import × Mdcdata → Outcome (Import × Mdcdata)
read_alias cxt (i, s) = do
  (raw, s') ← decompress_u32 s
  blob ← try_get_blob cxt raw
  ok (record i { alias = blob }, s')

abbrev pub read_assembly : Import × Mdcdata → Outcome (Import × Mdcdata)
read_assembly (i, s) = do
  (raw, s') ← decompress_u32 s
  ok (record i { assembly = bit_or (create_token_type mdtid_assembly_ref) raw }, s')

-- A `TypeDefOrRef` coded index as a token.
unfoldable pub decode_type : ℕ → Outcome ℕ
decode_type raw = do
  (table, row_id) ←
      decompose_coded_index raw (bit_or mdtc_idx_coded (insert_coded_index mdci_type_def_or_ref))
  ok (bit_or (create_token_type table) row_id)

abbrev pub read_target_type : Import × Mdcdata → Outcome (Import × Mdcdata)
read_target_type (i, s) = do
  (raw, s') ← decompress_u32 s
  token ← decode_type raw
  ok (record i { target_type = token }, s')

unfoldable pub parse_fields : Mdcxt → ℕ → Import × Mdcdata → Outcome (Import × Mdcdata)
parse_fields cxt kind e =
    if kind == mdidk_import_namespace
    then read_target_namespace cxt e
    else if kind == mdidk_import_assembly_namespace
    then read_assembly e >>= read_target_namespace cxt
    else if kind == mdidk_import_type
    then read_target_type e
    else if kind == mdidk_alias_namespace || kind == mdidk_import_xml_namespace
    then read_alias cxt e >>= read_target_namespace cxt
    else if kind == mdidk_import_assembly_reference_alias
    then read_alias cxt e
    else if kind == mdidk_alias_assembly_reference
    then read_alias cxt e >>= read_assembly
    else if kind == mdidk_alias_assembly_namespace
    then read_alias cxt e >>= read_assembly >>= read_target_namespace cxt
    else if kind == mdidk_alias_type
    then read_alias cxt e >>= read_target_type
    else failed

unfoldable pub parse_import : Mdcxt → Mdcdata → Outcome (Import × Mdcdata)
parse_import cxt s = do (kind, s') ← read_u8 s; parse_fields cxt kind (zeroed kind, s')

-- The loop with `n` iterations left: the entries, and what is left of the blob.
pub imports_from : Mdcxt → ℕ → Mdcdata → Outcome (List Import × Mdcdata)
imports_from cxt zero s = ok ([], s)
imports_from cxt (suc n) s = do
  (entry, s') ← parse_import cxt s
  (entries, s'') ← imports_from cxt n s'
  ok (entry ∷ entries, s'')

-- The sizes are those of `md_imports_t` and its entries where pointers have 64 bits. `blob` and
-- `buffer_len` are not NULL.
unfoldable pub md_parse_imports : Option Mdcxt → Mdcdata → Buffer → BlobResult (List Import)
unfolding imports_from
md_parse_imports none blob buffer = mdbpr_invalid_argument
md_parse_imports (some cxt) blob buffer =
    parse_counted (get_num_imports blob) buffer 8 40 (λ n. imports_from cxt n blob >>= λ r. ok r.0)
