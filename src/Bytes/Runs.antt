-- ===== src/Bytes/Runs.antt =====
-- Runs of the reads and writes of src/dnmd/bytes.c at concrete bytes.
use dnmd.Base.{ℕ, ◌-◌, ◌≡◌, arith, refl, inl, inr, List, [], ◌∷◌, ◌++◌, length, drop, ok, failed}
use dnmd.Bytes.{
  Mdcdata, Output, read_le, write_le, decompress_u32, decompress_i32, compress_u32, count_set_bits,
}
use dnmd.Bytes.Check.{is_stream-IsStream, all_bytes-IsByte}
use dnmd.Bytes.Compress.{decompress_u32-compress_u32}
use dnmd.Bytes.Count.{ones, count_set_bits-ones}
use dnmd.Bytes.Decompress.{decoded, decompress_u32-decoded}
use dnmd.Bytes.Little.{read_le-write_le}
use dnmd.Bytes.Signed.{unrotate, decompress_i32-unrotate}

abbrev stream : List ℕ → Mdcdata
stream d = record { ptr = d; size = length d }

-- An encoding of two bytes, 0x2e57, and a byte of the next one.
abbrev two_bytes : Mdcdata
two_bytes = stream (0xae ∷ 0x57 ∷ 0x03 ∷ [])

abbrev six_bytes : Mdcdata
six_bytes = stream (0x78 ∷ 0x56 ∷ 0x34 ∷ 0x12 ∷ 0xff ∷ 0x00 ∷ [])

abbrev room : Output
room = record { before = 1 ∷ []; ptr = 9 ∷ 9 ∷ 9 ∷ 9 ∷ 9 ∷ []; size = 5 }

decompress_u32-compress_u32_example :
    (out : List ℕ) × (n : ℕ) × (compress_u32 0x2e57 (9 ∷ 9 ∷ 9 ∷ 9 ∷ []) 4 ≡ ok (out, n))
    × (length out ≡ 4)
    × (decompress_u32 (record { ptr = out; size = 4 })
        ≡ ok (0x2e57, record { ptr = drop n out; size = 4 - n }))
decompress_u32-compress_u32_example =
    decompress_u32-compress_u32 0x2e57 9 9 9 9 [] 4 4 (omega arith) (omega arith) (omega arith)
      (omega arith) (all_bytes-IsByte (9 ∷ 9 ∷ 9 ∷ 9 ∷ []) refl)

decompress_u32-decoded_example : decompress_u32 two_bytes ≡ decoded two_bytes
decompress_u32-decoded_example =
    decompress_u32-decoded two_bytes (is_stream-IsStream two_bytes refl)

decompress_i32-unrotate_example :
    ((v : ℕ) (s' : Mdcdata)
      → decompress_u32 two_bytes ≡ ok (v, s')
      → decompress_i32 two_bytes ≡ ok (unrotate (two_bytes.size - s'.size) v, s'))
    × (decompress_u32 two_bytes ≡ failed → decompress_i32 two_bytes ≡ failed)
decompress_i32-unrotate_example =
    decompress_i32-unrotate two_bytes (is_stream-IsStream two_bytes refl)

read_le-write_le_example :
    (out' : Output) × (write_le room 0x1234 2 ≡ ok out')
    × (length (out'.before ++ out'.ptr) ≡ 6)
    × (read_le (record { ptr = drop 1 (out'.before ++ out'.ptr); size = 5 }) 2
        ≡ ok (0x1234, record { ptr = out'.ptr; size = out'.size }))
read_le-write_le_example =
    read_le-write_le room 0x1234 2 (inr (inl refl)) (omega arith) (omega arith)
      (all_bytes-IsByte room.ptr refl) (omega arith)

count_set_bits-ones_example : count_set_bits 0xb5 ≡ ones 8 0xb5
count_set_bits-ones_example = count_set_bits-ones 8 0xb5 (omega arith)
