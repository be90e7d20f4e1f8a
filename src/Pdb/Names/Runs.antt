-- ===== src/Pdb/Names/Runs.antt =====
-- A run on the document name "a/bc", whose parts stand in a blob heap.
use dnmd.Base.{◌≡◌, arith, refl}
use dnmd.Base.{[], ◌∷◌, some, true, ok}
use dnmd.Bytes.{Mdcdata, read_u8, read_sized, decompress_u32, decompress_onebyte}
use dnmd.Bytes.Check.{is_stream-IsStream}
use dnmd.Context.{Mdcxt}
use dnmd.Heaps.{try_get_blob}
use dnmd.Pdb.{mdbpr_success}
use dnmd.Pdb.Names.{md_parse_document_name}
use dnmd.Pdb.Names.Joined.{IsParts, no_parts, one_part, md_parse_document_name-IsName}
use dnmd.Samples.{context_of}

abbrev cxt : Mdcxt
cxt = record (context_of 0 []) {
  blob_heap = record { ptr = 0 ∷ 1 ∷ 97 ∷ 2 ∷ 98 ∷ 99 ∷ []; size = 6 };
}

abbrev blob : Mdcdata
blob = record { ptr = 47 ∷ 1 ∷ 3 ∷ []; size = 3 }

abbrev offsets : Mdcdata
offsets = record { ptr = 1 ∷ 3 ∷ []; size = 2 }

abbrev second : Mdcdata
second = record { ptr = 3 ∷ []; size = 1 }

abbrev ended : Mdcdata
ended = record { ptr = []; size = 0 }

abbrev part_a : Mdcdata
part_a = record { ptr = 97 ∷ 2 ∷ 98 ∷ 99 ∷ []; size = 1 }

abbrev part_bc : Mdcdata
part_bc = record { ptr = 98 ∷ 99 ∷ []; size = 2 }

first_read : read_u8 blob ≡ ok (47, offsets)
unfolding read_u8 read_sized
first_read = refl

offset_a : decompress_u32 offsets ≡ ok (1, second)
unfolding decompress_u32 decompress_onebyte
offset_a = refl

offset_bc : decompress_u32 second ≡ ok (3, ended)
unfolding decompress_u32 decompress_onebyte
offset_bc = refl

found_a : try_get_blob cxt 1 ≡ ok part_a
unfolding try_get_blob decompress_u32 decompress_onebyte
found_a = refl

found_bc : try_get_blob cxt 3 ≡ ok part_bc
unfolding try_get_blob decompress_u32 decompress_onebyte
found_bc = refl

offsets-IsParts : IsParts cxt offsets (part_a ∷ part_bc ∷ [])
offsets-IsParts =
    one_part offsets second part_a 1 (part_bc ∷ []) offset_a found_a (omega arith)
      (one_part second ended part_bc 3 [] offset_bc found_bc (omega arith) (no_parts ended refl))

md_parse_document_name-IsName_example :
    md_parse_document_name (some cxt) blob (record { given = true; len = 8 })
    ≡ mdbpr_success (5, 97 ∷ 47 ∷ 98 ∷ 99 ∷ 0 ∷ [])
md_parse_document_name-IsName_example =
    md_parse_document_name-IsName cxt (record { given = true; len = 8 }) blob offsets 47
      (part_a ∷ part_bc ∷ []) (is_stream-IsStream blob refl) first_read (omega arith)
      offsets-IsParts (omega arith)
