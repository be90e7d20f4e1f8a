-- ===== src/Pdb/Imports/Format.antt =====
-- The format of an Imports blob, as the portable PDB format describes it, apart from the code of
-- src/dnmd/pdb_blobs.c.
use dnmd.Base.{ℕ, zero, suc, ◌/◌, ◌%◌, ◌≡◌, bit_or}
use dnmd.Base.{
  List, [], ◌∷◌, Option, none, some, get_elem?, Bool, true, false, ◌==◌, if◌then◌else◌, Outcome, ok,
  failed,
}
use dnmd.Bytes.{Mdcdata, read_u8, decompress_u32}
use dnmd.Context.{Mdcxt}
use dnmd.Heaps.{try_get_blob}
use dnmd.Pdb.Imports.{Import, no_blob}

-- Which fields an import has. They stand in this order.
pub record Layout : Type 0 where
  pub alias : Bool
  pub assembly : Bool
  pub target_namespace : Bool
  pub target_type : Bool

abbrev pub layouts : List Layout
layouts =
    record { alias = false; assembly = false; target_namespace = true; target_type = false }
    ∷ record { alias = false; assembly = true; target_namespace = true; target_type = false }
    ∷ record { alias = false; assembly = false; target_namespace = false; target_type = true }
    ∷ record { alias = true; assembly = false; target_namespace = true; target_type = false }
    ∷ record { alias = true; assembly = false; target_namespace = false; target_type = false }
    ∷ record { alias = true; assembly = true; target_namespace = false; target_type = false }
    ∷ record { alias = true; assembly = false; target_namespace = true; target_type = false }
    ∷ record { alias = true; assembly = true; target_namespace = true; target_type = false }
    ∷ record { alias = true; assembly = false; target_namespace = false; target_type = true }
    ∷ []

-- The kinds are numbered from 1 on.
abbrev pub layout : ℕ → Option Layout
layout zero = none
layout (suc n) = get_elem? layouts n

-- A `TypeDefOrRef` coded index: the low 2 bits name the table, TypeDef, TypeRef or TypeSpec.
abbrev pub type_token : ℕ → Outcome ℕ
type_token raw =
    if raw % 4 == 0
    then ok (bit_or 0x02000000 (raw / 4))
    else if raw % 4 == 1
    then ok (bit_or 0x01000000 (raw / 4))
    else if raw % 4 == 2
    then ok (bit_or 0x1b000000 (raw / 4))
    else failed

-- A row of the AssemblyRef table.
abbrev pub assembly_token : ℕ → Outcome ℕ
assembly_token raw = ok (bit_or 0x23000000 raw)

-- A field of the format: a compressed number that decodes to the value where the field is there, and
-- else the value of the entry before it is filled.
abbrev pub IsField {ℓ} : {A : Type ℓ} → Bool → A → (ℕ → Outcome A) → A → Mdcdata → Mdcdata → Type ℓ
IsField true blank decode a s s' =
    (raw : ℕ) × (decompress_u32 s ≡ ok (raw, s')) × (decode raw ≡ ok a)
IsField false blank decode a s s' = (a ≡ blank) × (s ≡ s')

-- An import of the format, and what is behind it: a byte for its kind, and the fields of the kind.
pub record IsImport (cxt : Mdcxt) (i : Import) (s s' : Mdcdata) : Type 0 where
  pub fields : Layout
  pub known : layout i.kind ≡ some fields
  pub behind_kind : Mdcdata
  pub behind_alias : Mdcdata
  pub behind_assembly : Mdcdata
  pub behind_namespace : Mdcdata
  pub kind_read : read_u8 s ≡ ok (i.kind, behind_kind)
  pub alias_read : IsField fields.alias no_blob (try_get_blob cxt) i.alias behind_kind behind_alias
  pub assembly_read :
      IsField fields.assembly 0 assembly_token i.assembly behind_alias behind_assembly
  pub namespace_read :
      IsField fields.target_namespace no_blob
        (try_get_blob cxt)
        i.target_namespace
        behind_assembly
        behind_namespace
  pub type_read : IsField fields.target_type 0 type_token i.target_type behind_namespace s'

-- A compressed number of the format, where there is one.
abbrev pub IsNumber : Bool → Mdcdata → Mdcdata → Type 0
IsNumber true s s' = (raw : ℕ) × (decompress_u32 s ≡ ok (raw, s'))
IsNumber false s s' = s ≡ s'

-- The bytes of an import, whatever its fields decode to.
pub record IsImportBytes (s s' : Mdcdata) : Type 0 where
  pub kind : ℕ
  pub fields : Layout
  pub known : layout kind ≡ some fields
  pub behind_kind : Mdcdata
  pub behind_alias : Mdcdata
  pub behind_assembly : Mdcdata
  pub behind_namespace : Mdcdata
  pub kind_read : read_u8 s ≡ ok (kind, behind_kind)
  pub alias_read : IsNumber fields.alias behind_kind behind_alias
  pub assembly_read : IsNumber fields.assembly behind_alias behind_assembly
  pub namespace_read : IsNumber fields.target_namespace behind_assembly behind_namespace
  pub type_read : IsNumber fields.target_type behind_namespace s'
