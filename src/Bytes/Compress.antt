-- ===== src/Bytes/Compress.antt =====
-- `compress_u32` and its inverse.
use dnmd.Base.{ℕ, ◌+◌, ◌-◌, ◌/◌, ◌%◌, ◌^◌, ◌≤◌, ◌<◌, ◌≡◌, arith, ◌⊎◌, inl, inr}
use dnmd.Base.{◌∙◌, bit_or, bit_or_fields', List, ◌∷◌, length, drop, All}
use dnmd.Base.{ok, failed, leb, Bool-cases, if◌then◌else◌}
use dnmd.Bytes.{
  IsByte, store, compress_onebyte, compress_twobyte, compress_fourbyte, compress_u32,
  decompress_u32,
}
use dnmd.Bytes.Decompress.{decoded, decompress_u32-decoded}

-- The bytes of an encoding.
abbrev pub encoded : ℕ → List ℕ → List ℕ × ℕ
encoded v (b0 ∷ b1 ∷ b2 ∷ b3 ∷ rest) =
    if leb v 0x7f
    then (v ∷ b1 ∷ b2 ∷ b3 ∷ rest, 1)
    else if leb v 0x3fff
    then ((v / 2 ^ 8 + 0x80) ∷ (v % 256) ∷ b2 ∷ b3 ∷ rest, 2)
    else ((v / 2 ^ 24 + 0xc0) ∷ (v / 2 ^ 16 % 256) ∷ (v / 2 ^ 8 % 256) ∷ (v % 256) ∷ rest, 4)
encoded v other = (other, 0)

-- The tag bits of the first byte.
tag_two : (v : ℕ) → v ≤ 0x3fff → bit_or (v / 2 ^ 8) 0x80 % 256 ≡ v / 2 ^ 8 + 0x80
tag_two v h = omega (arith, bit_or_fields' 7 1 (v / 2 ^ 8) (omega arith))

tag_four : (v : ℕ) → v ≤ 0x1fffffff → bit_or (v / 2 ^ 24) 0xc0 % 256 ≡ v / 2 ^ 24 + 0xc0
tag_four v h = omega (arith, bit_or_fields' 6 3 (v / 2 ^ 24) (omega arith))

compress_u32-encoded :
    (v b0 b1 b2 b3 : ℕ) (rest : List ℕ) (len : ℕ)
    → v ≤ 0x1fffffff
    → 4 ≤ len
    → compress_u32 v (b0 ∷ b1 ∷ b2 ∷ b3 ∷ rest) len ≡ ok (encoded v (b0 ∷ b1 ∷ b2 ∷ b3 ∷ rest))
unfolding compress_u32 compress_onebyte compress_twobyte compress_fourbyte store
compress_u32-encoded v b0 b1 b2 b3 rest len hv hl = ground (arith, tag_two v, tag_four v)

encoded-decoded :
    (v b0 b1 b2 b3 : ℕ) (rest : List ℕ) (size : ℕ)
    → v ≤ 0x1fffffff
    → 4 ≤ size
    → let (out, n) = encoded v (b0 ∷ b1 ∷ b2 ∷ b3 ∷ rest) in
      decoded (record { ptr = out; size = size })
      ≡ ok (v, record { ptr = drop n out; size = size - n })
encoded-decoded v b0 b1 b2 b3 rest size hv hs = elim (Bool-cases (leb v 0x7f)) [
  | inl one ↦ rw one (ground arith)
  | inr more ↦ elim (Bool-cases (leb v 0x3fff)) [
    | inl two ↦ rw (more, two) (ground arith)
    | inr four ↦ rw (more, four) (ground arith)
  ]
]

length-encoded :
    (v b0 b1 b2 b3 : ℕ) (rest : List ℕ)
    → length (encoded v (b0 ∷ b1 ∷ b2 ∷ b3 ∷ rest)).0 ≡ length rest + 4
length-encoded v b0 b1 b2 b3 rest = ground arith

encoded-IsByte :
    (v b0 b1 b2 b3 : ℕ) (rest : List ℕ)
    → v ≤ 0x1fffffff
    → All IsByte (b0 ∷ b1 ∷ b2 ∷ b3 ∷ rest)
    → All IsByte (encoded v (b0 ∷ b1 ∷ b2 ∷ b3 ∷ rest)).0
encoded-IsByte v b0 b1 b2 b3 rest hv h = elim (Bool-cases (leb v 0x7f)) [
  | inl one ↦ rw one (ground arith)
  | inr more ↦ elim (Bool-cases (leb v 0x3fff)) [
    | inl two ↦ rw (more, two) (ground arith)
    | inr four ↦ rw (more, four) (ground arith)
  ]
]

-- Every number up to 0x1fffffff is compressed into a buffer of four bytes, and decompressing what
-- was written gives the number back and goes on behind it. The buffer keeps its length.
pub decompress_u32-compress_u32 :
    (v b0 b1 b2 b3 : ℕ) (rest : List ℕ) (len size : ℕ)
    → v ≤ 0x1fffffff
    → 4 ≤ len
    → 4 ≤ size
    → size ≤ length rest + 4
    → All IsByte (b0 ∷ b1 ∷ b2 ∷ b3 ∷ rest)
    → (out : List ℕ) × (n : ℕ) × (compress_u32 v (b0 ∷ b1 ∷ b2 ∷ b3 ∷ rest) len ≡ ok (out, n))
      × (length out ≡ length rest + 4)
      × (decompress_u32 (record { ptr = out; size = size })
          ≡ ok (v, record { ptr = drop n out; size = size - n }))
decompress_u32-compress_u32 v b0 b1 b2 b3 rest len size hv hl hs fits bytes = (
  (encoded v (b0 ∷ b1 ∷ b2 ∷ b3 ∷ rest)).0,
  (encoded v (b0 ∷ b1 ∷ b2 ∷ b3 ∷ rest)).1,
  compress_u32-encoded v b0 b1 b2 b3 rest len hv hl,
  length-encoded v b0 b1 b2 b3 rest,
  decompress_u32-decoded _ (record {
    readable = omega (arith, length-encoded v b0 b1 b2 b3 rest);
    bytes = encoded-IsByte v b0 b1 b2 b3 rest hv bytes;
  })
      ∙ encoded-decoded v b0 b1 b2 b3 rest size hv hs,
)

-- A number above 0x1fffffff, and a buffer that the encoding does not fit, are refused.
pub compress_u32_refuses :
    (v : ℕ) (buf : List ℕ) (len : ℕ)
    → (0x1fffffff < v) ⊎ (len < 1) ⊎ (0x7f < v × (len < 2)) ⊎ (0x3fff < v × (len < 4))
    → compress_u32 v buf len ≡ failed
unfolding compress_u32 compress_onebyte compress_twobyte compress_fourbyte
compress_u32_refuses v buf len h = ground arith
