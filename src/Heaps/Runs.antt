-- ===== src/Heaps/Runs.antt =====
-- Runs of the heaps of src/dnmd/streams.c.
use dnmd.Base.{
  ℕ, ◌-◌, ◌*◌, ◌/◌, ◌≤◌, ◌<◌, ◌≡◌, ◌≢◌, arith, refl, List, [], ◌∷◌, some, length, drop, take, ok,
  failed, ◌>>=◌,
}
use dnmd.Bytes.{Mdcdata, decompress_u32, decompress_onebyte}
use dnmd.Bytes.Check.{is_stream-IsStream}
use dnmd.Context.{Mdcxt}
use dnmd.Heaps.{
  Mduserstring, user_string_of, try_get_user_string, try_get_blob, try_get_guid, guid_size,
  null_guid,
}
use dnmd.Heaps.Blobs.{from, behind_length, try_get_blob_lem}
use dnmd.Bytes.Decompress.{decoded}
use dnmd.Heaps.Guids.{try_get_guid_lem}
use dnmd.Heaps.UserStrings.{IsUserString, try_get_user_string-IsUserString}

abbrev stream : List ℕ → Mdcdata
stream d = record { ptr = d; size = length d }

-- "A" in UTF-16 with its final byte, and a GUID of 16 ones.
abbrev heaps : Mdcxt
heaps = record {
  context_flags = 0;
  strings_heap = stream [];
  guid_heap = stream (1 ∷ 1 ∷ 1 ∷ 1 ∷ 1 ∷ 1 ∷ 1 ∷ 1 ∷ 1 ∷ 1 ∷ 1 ∷ 1 ∷ 1 ∷ 1 ∷ 1 ∷ 1 ∷ []);
  blob_heap = stream (0 ∷ 2 ∷ 0xab ∷ 0xcd ∷ []);
  user_string_heap = stream (0 ∷ 3 ∷ 0x41 ∷ 0 ∷ 0 ∷ []);
  tables_heap = stream [];
  pdb = stream [];
  tables = [];
}

abbrev letter_a : Mduserstring
letter_a = record { str = some (0x41 ∷ 0 ∷ 0 ∷ []); str_bytes = 3; final_byte = 0 }

try_get_user_string-IsUserString_example : IsUserString heaps.user_string_heap 1 5 letter_a
unfolding try_get_user_string user_string_of decompress_u32 decompress_onebyte
try_get_user_string-IsUserString_example =
    try_get_user_string-IsUserString heaps 1 letter_a 5
      (is_stream-IsStream heaps.user_string_heap refl) refl

abbrev first : ℕ
first = 1

try_get_blob_lem_example :
    (heaps.blob_heap.size ≡ 0
      → first ≡ 0
      → try_get_blob heaps first ≡ ok (record { ptr = heaps.blob_heap.ptr; size = 0 }))
    × (heaps.blob_heap.size ≤ first → first ≢ 0 → try_get_blob heaps first ≡ failed)
    × (first < heaps.blob_heap.size
        → try_get_blob heaps first ≡ (decoded (from heaps.blob_heap first) >>= behind_length))
try_get_blob_lem_example =
    try_get_blob_lem heaps first (is_stream-IsStream heaps.blob_heap refl) (omega arith)

try_get_guid_lem_example :
    (heaps.guid_heap.size / guid_size < first → try_get_guid heaps first ≡ failed)
    × (first ≡ 0 → try_get_guid heaps first ≡ ok null_guid)
    × (0 < first
        → first ≤ heaps.guid_heap.size / guid_size
        → (try_get_guid heaps first
            ≡ ok (take guid_size (drop ((first - 1) * guid_size) heaps.guid_heap.ptr)))
          × (length (take guid_size (drop ((first - 1) * guid_size) heaps.guid_heap.ptr))
              ≡ guid_size))
try_get_guid_lem_example = try_get_guid_lem heaps first (is_stream-IsStream heaps.guid_heap refl)
