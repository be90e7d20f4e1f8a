-- ===== src/Base/Bits.antt =====
-- `&` and `|` at variables, from the recursion on binary digits that they stand for.
use Prim.Native.Nat.{ℕ, zero, suc, ◌+◌, ◌-◌, ◌*◌, ◌/◌, ◌%◌, ◌^◌, ◌≤◌, ◌<◌, min, max}
use Prim.Native.Nat.{digits, bit_and, bit_or, bit_and-bitwise, bit_or-bitwise}
use native.Mathlib.Nat.{pow-suc, one-le-pow}
use mathlib.Core.Path.{◌≡◌, refl, ap}
use mathlib.Core.Bool.{Bool, true, ◌&&◌}
use native.Mathlib.Omega.{arith}

-- The value of the digit recursion does not depend on its fuel.
module _ (z : ℕ → ℕ) (f : ℕ → ℕ → ℕ) where
  digits-fuel : (m n a b : ℕ) → a ≤ m → a ≤ n → digits z f m a b ≡ digits z f n a b
  digits-fuel zero zero a b p q = refl
  digits-fuel zero (suc n) zero b p q = refl
  digits-fuel zero (suc n) (suc a) b p q = absurd (omega arith)
  digits-fuel (suc m) zero zero b p q = refl
  digits-fuel (suc m) zero (suc a) b p q = absurd (omega arith)
  digits-fuel (suc m) (suc n) zero b p q = refl
  digits-fuel (suc m) (suc n) (suc a) b p q =
      rw (digits-fuel m n (suc a / 2) (b / 2) (omega arith) (omega arith))

-- The lowest digit and the rest of a conjunction and of a disjunction.
pub bit_and_step : (u v : ℕ) → bit_and u v ≡ min (u % 2) (v % 2) + 2 * bit_and (u / 2) (v / 2)
bit_and_step zero v = simp bit_and-bitwise (omega arith)
bit_and_step (suc u) v =
    let halves =
      digits-fuel (λ y. 0) min u (suc u / 2) (suc u / 2) (v / 2) (omega arith) (omega arith) in
    omega (arith, halves, bit_and-bitwise (suc u) v, bit_and-bitwise (suc u / 2) (v / 2))

pub bit_or_step : (u v : ℕ) → bit_or u v ≡ max (u % 2) (v % 2) + 2 * bit_or (u / 2) (v / 2)
bit_or_step zero v = simp bit_or-bitwise (omega arith)
bit_or_step (suc u) v =
    let halves =
      digits-fuel (λ y. y) max u (suc u / 2) (suc u / 2) (v / 2) (omega arith) (omega arith) in
    omega (arith, halves, bit_or-bitwise (suc u) v, bit_or-bitwise (suc u / 2) (v / 2))

pub bit_and-le : (a b : ℕ) → bit_and a b ≤ a
bit_and-le a b = below a a b (omega arith)
  where
    below : (n c d : ℕ) → c ≤ n → bit_and c d ≤ c
    below n zero d h = omega (arith, bit_and-bitwise 0 d)
    below zero (suc c) d h = absurd (omega arith)
    below (suc n) (suc c) d h =
        omega (arith, bit_and_step (suc c) d, below n (suc c / 2) (d / 2) (omega arith))

pub bit_and-le_right : (a b : ℕ) → bit_and a b ≤ b
bit_and-le_right a b = below a a b (omega arith)
  where
    below : (n c d : ℕ) → c ≤ n → bit_and c d ≤ d
    below n zero d h = omega (arith, bit_and-bitwise 0 d)
    below zero (suc c) d h = absurd (omega arith)
    below (suc n) (suc c) d h =
        omega (arith, bit_and_step (suc c) d, below n (suc c / 2) (d / 2) (omega arith))

-- `val & (val - 1)` clears a bit.
pub bit_and-lt_pred : (a : ℕ) → 0 < a → bit_and a (a - 1) < a
bit_and-lt_pred a h = omega (arith, bit_and-le_right a (a - 1))

-- The product of a number and the next power of two.
mul-pow-suc : (q k : ℕ) → q * 2 ^ suc k ≡ q * 2 ^ k * 2
mul-pow-suc q k = omega (arith, ap (λ (t : ℕ). q * t) (pow-suc 2 k))

half_fields : (q r k : ℕ) → (q * 2 ^ suc k + r) / 2 ≡ q * 2 ^ k + r / 2
half_fields q r k = omega (arith, mul-pow-suc q k)

half_lt : (r k : ℕ) → r < 2 ^ suc k → r / 2 < 2 ^ k
half_lt r k h = omega (arith, pow-suc 2 k)

half_mask : (k : ℕ) → (2 ^ suc k - 1) / 2 ≡ 2 ^ k - 1
half_mask k = omega (arith, pow-suc 2 k, one-le-pow k 2)

pub bit_and-zero : (a : ℕ) → bit_and a 0 ≡ 0
bit_and-zero a = below a a (omega arith)
  where
    below : (n b : ℕ) → b ≤ n → bit_and b 0 ≡ 0
    below n zero h = refl
    below zero (suc b) h = absurd (omega arith)
    below (suc n) (suc b) h =
        omega (arith, bit_and_step (suc b) 0, below n (suc b / 2) (omega arith))

pub bit_or-zero : (a : ℕ) → bit_or a 0 ≡ a
bit_or-zero a = below a a (omega arith)
  where
    below : (n b : ℕ) → b ≤ n → bit_or b 0 ≡ b
    below n zero h = refl
    below zero (suc b) h = absurd (omega arith)
    below (suc n) (suc b) h =
        omega (arith, bit_or_step (suc b) 0, below n (suc b / 2) (omega arith))

pub bit_and_self : (a : ℕ) → bit_and a a ≡ a
bit_and_self a = below a a (omega arith)
  where
    below : (n b : ℕ) → b ≤ n → bit_and b b ≡ b
    below n zero h = refl
    below zero (suc b) h = absurd (omega arith)
    below (suc n) (suc b) h =
        omega (arith, bit_and_step (suc b) (suc b), below n (suc b / 2) (omega arith))

-- Both operations act on the digits above and below a place `k` apart.
pub bit_and_split :
    (k q r p s : ℕ)
    → r < 2 ^ k
    → s < 2 ^ k
    → bit_and (q * 2 ^ k + r) (p * 2 ^ k + s) ≡ bit_and q p * 2 ^ k + bit_and r s
bit_and_split zero q r p s hr hs = ground arith
bit_and_split (suc k) q r p s hr hs = omega (
  arith,
  bit_and_step (q * 2 ^ suc k + r) (p * 2 ^ suc k + s),
  bit_and_step r s,
  mul-pow-suc q k,
  mul-pow-suc p k,
  mul-pow-suc (bit_and q p) k,
  pow-suc 2 k,
  ap (λ (t : ℕ). bit_and t (p * 2 ^ k + s / 2)) (half_fields q r k),
  ap (λ (t : ℕ). bit_and ((q * 2 ^ suc k + r) / 2) t) (half_fields p s k),
  bit_and_split k q (r / 2) p (s / 2) (half_lt r k hr) (half_lt s k hs),
)

pub bit_or_split :
    (k q r p s : ℕ)
    → r < 2 ^ k
    → s < 2 ^ k
    → bit_or (q * 2 ^ k + r) (p * 2 ^ k + s) ≡ bit_or q p * 2 ^ k + bit_or r s
bit_or_split zero q r p s hr hs = ground (arith, bit_or-zero 0)
bit_or_split (suc k) q r p s hr hs = omega (
  arith,
  bit_or_step (q * 2 ^ suc k + r) (p * 2 ^ suc k + s),
  bit_or_step r s,
  mul-pow-suc q k,
  mul-pow-suc p k,
  mul-pow-suc (bit_or q p) k,
  pow-suc 2 k,
  ap (λ (t : ℕ). bit_or t (p * 2 ^ k + s / 2)) (half_fields q r k),
  ap (λ (t : ℕ). bit_or ((q * 2 ^ suc k + r) / 2) t) (half_fields p s k),
  bit_or_split k q (r / 2) p (s / 2) (half_lt r k hr) (half_lt s k hs),
)

bit_and_ones : (k a : ℕ) → a < 2 ^ k → bit_and a (2 ^ k - 1) ≡ a
bit_and_ones zero a h = rw bit_and-zero (omega arith)
bit_and_ones (suc k) a h = omega (
  arith,
  bit_and_step a (2 ^ suc k - 1),
  ap (λ (t : ℕ). bit_and (a / 2) t) (half_mask k),
  one-le-pow k 2,
  pow-suc 2 k,
  bit_and_ones k (a / 2) (half_lt a k h),
)

zero-bit_or : (a : ℕ) → bit_or 0 a ≡ a
zero-bit_or a = bit_or-bitwise 0 a

-- A low mask keeps the low field.
pub bit_and_low_fields : (k q r : ℕ) → r < 2 ^ k → bit_and (q * 2 ^ k + r) (2 ^ k - 1) ≡ r
bit_and_low_fields k q r h = grind (
  arith,
  bit_and_split k q r 0 (2 ^ k - 1) h (omega (arith, one-le-pow k 2)),
  bit_and-zero q,
  bit_and_ones k r h,
)

pub bit_and_low : (k a : ℕ) → bit_and a (2 ^ k - 1) ≡ a % 2 ^ k
bit_and_low k a = ground (arith, one-le-pow k 2, bit_and_low_fields k (a / 2 ^ k) (a % 2 ^ k))

-- A high mask clears the low field.
pub bit_and_high :
    (k j q r : ℕ)
    → q < 2 ^ j
    → r < 2 ^ k
    → bit_and (q * 2 ^ k + r) ((2 ^ j - 1) * 2 ^ k) ≡ q * 2 ^ k
bit_and_high k j q r hq hr = grind (
  arith,
  bit_and_split k q r (2 ^ j - 1) 0 hr (omega arith),
  bit_and-zero r,
  ap (λ (t : ℕ). t * 2 ^ k) (bit_and_ones j q hq),
)

-- Fields that do not overlap add up, in either order.
pub bit_or_fields : (k q r : ℕ) → r < 2 ^ k → bit_or (q * 2 ^ k) r ≡ q * 2 ^ k + r
bit_or_fields k q r h = grind (
  arith,
  bit_or_split k q 0 0 r (omega arith) h,
  zero-bit_or r,
  ap (λ (t : ℕ). t * 2 ^ k) (bit_or-zero q),
)

pub bit_or_fields' : (k q r : ℕ) → r < 2 ^ k → bit_or r (q * 2 ^ k) ≡ q * 2 ^ k + r
bit_or_fields' k q r h = grind (
  arith,
  bit_or_split k 0 r q 0 h (omega arith),
  bit_or-zero r,
  ap (λ (t : ℕ). t * 2 ^ k) (zero-bit_or q),
)

-- A test of every value below a bound, by evaluation.
unfoldable pub all_below : ℕ → (ℕ → Bool) → Bool
all_below zero test = true
all_below (suc bound) test = test bound && all_below bound test

pub all_below_sound :
    (bound : ℕ) (test : ℕ → Bool) (value : ℕ)
    → all_below bound test ≡ true
    → value < bound
    → test value ≡ true
unfolding all_below
all_below_sound zero test value passed below = absurd (omega arith)
all_below_sound (suc bound) test value passed below =
    ground (arith, all_below_sound bound test value)
