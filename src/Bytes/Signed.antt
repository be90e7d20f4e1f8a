-- ===== src/Bytes/Signed.antt =====
-- `decompress_i32`: the sign extension of ECMA-335 II.23.2.
use dnmd.Base.{ℕ, ◌+◌, ◌-◌, ◌/◌, ◌%◌, ◌^◌, ◌≡◌, arith, inl, inr}
use dnmd.Base.{bit_and, bit_and_low, bit_or_fields'}
use dnmd.Base.{ok, failed, ◌==◌, if◌then◌else◌}
use dnmd.Bytes.{Mdcdata, IsStream, sign_extend, decompress_u32, decompress_i32}
use dnmd.Bytes.Decompress.{payload, IsEncodedWidth, decompress_u32-Takes}

-- Half the range of an encoding of `w` bytes: 2 ^ 6, 2 ^ 13 or 2 ^ 28.
abbrev pub half_range : ℕ → ℕ
half_range w = if w == 1 then 2 ^ 6 else if w == 2 then 2 ^ 13 else 2 ^ 28

-- The standard rotates the sign bit to the lowest place: an even number is twice the value, and half
-- of an odd one is the value plus half the range. The result is an int32_t's bit pattern.
abbrev pub unrotate : ℕ → ℕ → ℕ
unrotate w v = if v % 2 == 0 then v / 2 else v / 2 + 2 ^ 32 - half_range w

sign_extend-unrotate :
    (w v : ℕ)
    → IsEncodedWidth w
    → payload w v ≡ v
    → v % 2 ≡ 1
    → sign_extend w (v / 2) ≡ ok (unrotate w v)
unfolding sign_extend
sign_extend-unrotate w v (inl e) small odd =
    ground (arith, bit_or_fields' 6 0x3ffffff (v / 2) (ground arith))
sign_extend-unrotate w v (inr (inl e)) small odd =
    ground (arith, bit_or_fields' 13 0x7ffff (v / 2) (ground arith))
sign_extend-unrotate w v (inr (inr e)) small odd =
    ground (arith, bit_or_fields' 28 0xf (v / 2) (ground arith))

low_bit : (v : ℕ) → bit_and v 1 ≡ v % 2
low_bit v = bit_and_low 1 v

-- Where `decompress_u32` takes `v` in `w` bytes, `decompress_i32` returns `v` with its sign bit
-- rotated back and extended to 32 bits, and takes the same bytes; where it fails so does this.
pub decompress_i32-unrotate :
    (s : Mdcdata)
    → IsStream s
    → ((v : ℕ) (s' : Mdcdata)
        → decompress_u32 s ≡ ok (v, s')
        → decompress_i32 s ≡ ok (unrotate (s.size - s'.size) v, s'))
      × (decompress_u32 s ≡ failed → decompress_i32 s ≡ failed)
decompress_i32-unrotate s valid = (taken, λ e. unfold decompress_i32 in rw e)
  where
    taken :
        (v : ℕ) (s' : Mdcdata)
        → decompress_u32 s ≡ ok (v, s')
        → decompress_i32 s ≡ ok (unrotate (s.size - s'.size) v, s')
    taken v s' e =
        let (t, _) = decompress_u32-Takes s v s' valid e in
        let w : s.size - s'.size ≡ t.taken = omega (arith, t.shorter) in
        unfold decompress_i32 in
        rw (e, w, low_bit) (ground (arith, sign_extend-unrotate t.taken v t.as_encoded t.fits))
