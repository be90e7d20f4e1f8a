-- ===== src/Bytes/Count.antt =====
-- `count_set_bits`: Kernighan's loop counts the ones of the binary notation.
use dnmd.Base.{ℕ, zero, suc, ◌+◌, ◌-◌, ◌/◌, ◌%◌, ◌^◌, ◌<◌, bit_and, ◌≡◌, arith}
use dnmd.Base.{sym, refl, bit_and_step, bit_and_self, bit_and-lt_pred, lt_wf}
use dnmd.Bytes.{count_loop, count_set_bits}
use mathlib.Core.Logic.{dif_pos, dif_neg}
use mathlib.Core.WellFounded.{Acc}
use native.Mathlib.Bridge.{le_prop}
use native.Mathlib.Decide.{dec_lt, ℕ_discrete}
use native.Mathlib.Nat.{pow-suc, mul_comm, div-div-eq-div-mul}

-- The number of ones among the `w` lowest binary digits.
unfoldable pub ones : ℕ → ℕ → ℕ
ones zero v = 0
ones (suc w) v = v % 2 + ones w (v / 2)

ones-zero : (w : ℕ) → ones w 0 ≡ 0
unfolding ones
ones-zero zero = refl
ones-zero (suc w) = omega (arith, ones-zero w)

clear_odd : (v : ℕ) → v % 2 ≡ 1 → bit_and v (v - 1) / 2 ≡ v / 2
clear_odd v h = grind (arith, bit_and_step v (v - 1), bit_and_self (v / 2))

clear_even : (v : ℕ) → 0 < v → v % 2 ≡ 0 → bit_and v (v - 1) / 2 ≡ bit_and (v / 2) (v / 2 - 1)
clear_even v p h = grind (arith, bit_and_step v (v - 1))

clear_low : (v : ℕ) → 0 < v → bit_and v (v - 1) % 2 ≡ 0
clear_low v p = omega (arith, bit_and_step v (v - 1))

ones_clear : (w v : ℕ) → 0 < v → v < 2 ^ w → ones w v ≡ ones w (bit_and v (v - 1)) + 1
unfolding ones
ones_clear zero v p q = absurd (omega arith)
ones_clear (suc w) v p q = elim (ℕ_discrete (v % 2) 1) [
  | yes odd ↦ rw (clear_odd v odd, clear_low v p) (omega arith)
  | no even ↦
      let e : v % 2 ≡ 0 = omega arith in
      let half : v / 2 < 2 ^ w = omega (arith, pow-suc 2 w) in
      rw (clear_even v p e, clear_low v p) (omega (arith, ones_clear w (v / 2) (omega arith) half))
]

count_loop-ones :
    (w val : ℕ) (acc : Acc ◌<◌ val) (count : ℕ)
    → val < 2 ^ w
    → count_loop val acc count ≡ count + ones w val
unfolding count_loop
count_loop-ones w val (Acc.intro _ smaller) count h = elim (dec_lt 0 val) [
  | yes p ↦
      let next : ℕ = bit_and val (val - 1) in
      let shrinks = bit_and-lt_pred val p in
      rw (dif_pos (dec_lt 0 val) le_prop p) (
        omega (
          arith,
          count_loop-ones w next (smaller next shrinks) (count + 1) (omega arith),
          ones_clear w val p h,
        ))
  | no p ↦
      let z : val ≡ 0 = omega arith in rw (dif_neg (dec_lt 0 val) p, z) (omega (arith, ones-zero w))
]

-- On a `w`-bit value `count_set_bits` returns the number of ones among its binary digits.
pub count_set_bits-ones : (w val : ℕ) → val < 2 ^ w → count_set_bits val ≡ ones w val
unfolding count_set_bits
count_set_bits-ones w val h = omega (arith, count_loop-ones w val (lt_wf.apply val) 0 h)

-- The ones of the lower and the upper digits.
pub ones_split : (a b v : ℕ) → ones (a + b) v ≡ ones a v + ones b (v / 2 ^ a)
unfolding ones
ones_split zero b v =
    let e : 0 + b ≡ b = omega arith in let f : v / 1 ≡ v = omega arith in rw (e, f) (omega arith)
ones_split (suc a) b v =
    let e : suc a + b ≡ suc (a + b) = omega arith in
    let f : v / 2 ^ suc a ≡ v / 2 / 2 ^ a =
      rw (pow-suc 2 a, mul_comm (2 ^ a) 2) (sym (div-div-eq-div-mul v 2 (2 ^ a))) in
    rw (e, f) (omega (arith, ones_split a b (v / 2)))

pub ones-positive : (w v : ℕ) → v < 2 ^ w → 0 < v → 0 < ones w v
unfolding ones
ones-positive zero v h p = absurd (omega arith)
ones-positive (suc w) v h p = elim (ℕ_discrete (v % 2) 0) [
  | yes even ↦ omega (arith, ones-positive w (v / 2) (omega (arith, pow-suc 2 w)) (omega arith))
  | no odd ↦ omega arith
]
