-- ===== src/Flags.antt =====
-- The column flags of `mdtcol_t` and the ids of `md_coded_idx_t` in src/dnmd/internal.h.
use Prim.Native.Nat.{ℕ}

abbrev pub mdtc_constant : ℕ
mdtc_constant = 0x1

abbrev pub mdtc_idx_heap : ℕ
mdtc_idx_heap = 0x2

abbrev pub mdtc_idx_table : ℕ
mdtc_idx_table = 0x4

abbrev pub mdtc_idx_coded : ℕ
mdtc_idx_coded = 0x8

abbrev pub mdtc_b2 : ℕ
mdtc_b2 = 0x10

abbrev pub mdtc_b4 : ℕ
mdtc_b4 = 0x20

abbrev pub mdtc_comask : ℕ
mdtc_comask = 0xff00

abbrev pub mdtc_timask : ℕ
mdtc_timask = 0xff0000

abbrev pub mdtc_cimask : ℕ
mdtc_cimask = 0xf000000

abbrev pub mdtc_hguid : ℕ
mdtc_hguid = 0x10000000

abbrev pub mdtc_hstring : ℕ
mdtc_hstring = 0x20000000

abbrev pub mdtc_hus : ℕ
mdtc_hus = 0x40000000

abbrev pub mdtc_hblob : ℕ
mdtc_hblob = 0x80000000

abbrev pub mdtc_hmask : ℕ
mdtc_hmask = 0xf0000000

abbrev pub mdci_type_def_or_ref : ℕ
mdci_type_def_or_ref = 0

abbrev pub mdci_has_constant : ℕ
mdci_has_constant = 1

abbrev pub mdci_has_custom_attribute : ℕ
mdci_has_custom_attribute = 2

abbrev pub mdci_has_field_marshall : ℕ
mdci_has_field_marshall = 3

abbrev pub mdci_has_decl_security : ℕ
mdci_has_decl_security = 4

abbrev pub mdci_member_ref_parent : ℕ
mdci_member_ref_parent = 5

abbrev pub mdci_has_semantics : ℕ
mdci_has_semantics = 6

abbrev pub mdci_method_def_or_ref : ℕ
mdci_method_def_or_ref = 7

abbrev pub mdci_member_forwarded : ℕ
mdci_member_forwarded = 8

abbrev pub mdci_implementation : ℕ
mdci_implementation = 9

abbrev pub mdci_custom_attribute_type : ℕ
mdci_custom_attribute_type = 10

abbrev pub mdci_resolution_scope : ℕ
mdci_resolution_scope = 11

abbrev pub mdci_type_or_method_def : ℕ
mdci_type_or_method_def = 12

abbrev pub mdci_has_custom_debug_information : ℕ
mdci_has_custom_debug_information = 13
