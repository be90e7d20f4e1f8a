-- ===== src/Bytes/Align.antt =====
-- `align_to` with a power of two.
use dnmd.Base.{ℕ, ◌+◌, ◌-◌, ◌*◌, ◌/◌, ◌%◌, ◌^◌, ◌≤◌, ◌<◌, ◌≡◌, arith}
use dnmd.Base.{ap, bit_and_high}
use dnmd.Bytes.{align_to}
use native.Mathlib.Nat.{one-le-pow, div-lt_iff_lt-mul, mod-lt, div-add-mod}

module _ (k j : ℕ) (e : 2 ^ j * 2 ^ k ≡ 2 ^ 32) where
  product_split : (2 ^ j - 1) * 2 ^ k + 2 ^ k ≡ 2 ^ 32
  product_split =
      let one : 2 ^ j ≡ 2 ^ j - 1 + 1 = omega (arith, one-le-pow j 2) in
      omega (arith, e, ap (λ (t : ℕ). t * 2 ^ k) one)

  mask_low : (2 ^ k + 2 ^ 32 - 1) % 2 ^ 32 ≡ 2 ^ k - 1
  mask_low = omega (arith, product_split, one-le-pow k 2)

  -- `~(align - 1)` is a mask of high ones.
  mask_high : 2 ^ 32 - 1 - (2 ^ k - 1) ≡ (2 ^ j - 1) * 2 ^ k
  mask_high = omega (arith, product_split, one-le-pow k 2)

  module _ (val : ℕ) (fits : val + (2 ^ k - 1) < 2 ^ 32) where
    abbrev quotient : ℕ
    quotient = (val + (2 ^ k - 1)) / 2 ^ k

    quotient_parts :
        (quotient < 2 ^ j)
        × ((val + (2 ^ k - 1)) % 2 ^ k < 2 ^ k)
        × (quotient * 2 ^ k + (val + (2 ^ k - 1)) % 2 ^ k ≡ val + (2 ^ k - 1))
    quotient_parts =
        let pos : 0 < 2 ^ k = one-le-pow k 2 (omega arith) in
        let below : val + (2 ^ k - 1) < 2 ^ j * 2 ^ k = omega (arith, e) in
        (
          (div-lt_iff_lt-mul pos).1 below,
          mod-lt _ pos,
          omega (arith, div-add-mod (val + (2 ^ k - 1)) (2 ^ k)),
        )

    align_to-quotient : align_to val (2 ^ k) ≡ quotient * 2 ^ k
    unfolding align_to
    align_to-quotient = grind (
      arith,
      mask_low,
      mask_high,
      quotient_parts,
      bit_and_high k j quotient ((val + (2 ^ k - 1)) % 2 ^ k),
    )

    -- With `align` a power of two and no overflow, `align_to` returns a multiple of it that is not
    -- below the value, and less than `align` above it.
    pub align_to_least :
        (m : ℕ) × (align_to val (2 ^ k) ≡ m * 2 ^ k)
        × (val ≤ align_to val (2 ^ k))
        × (align_to val (2 ^ k) < val + 2 ^ k)
    align_to_least = (
      quotient,
      align_to-quotient,
      omega (arith, align_to-quotient, quotient_parts, one-le-pow k 2),
      omega (arith, align_to-quotient, quotient_parts, one-le-pow k 2),
    )
