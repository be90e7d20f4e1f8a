-- ===== src/Search/Compare.antt =====
-- Where the comparisons of columns order as the numbers do.
use dnmd.Base.{ℕ, ◌+◌, ◌-◌, ◌%◌, ◌^◌, ◌≤◌, ◌<◌, ◌≡◌, ◌↔◌, true, arith}
use dnmd.Search.{is_negative, col_compare_2bytes, col_compare_4bytes}

-- What the searches take the result of a comparison for.
pub record Orders (res key value : ℕ) : Type 0 where
  pub equal : (res ≡ 0) ↔ (key ≡ value)
  pub less : (is_negative res ≡ true) ↔ (key < value)

-- Two-byte columns are always ordered right.
pub col_compare_2bytes-Orders :
    (lhs rhs : ℕ) → lhs < 2 ^ 16 → rhs < 2 ^ 16 → Orders (col_compare_2bytes lhs rhs) lhs rhs
unfolding col_compare_2bytes
col_compare_2bytes-Orders lhs rhs h k = record {
  equal = (λ e. omega arith, λ e. omega arith);
  less = (λ e. ground arith, λ e. ground arith);
}

near_of :
    (lhs rhs : ℕ)
    → lhs < 2 ^ 32
    → rhs < 2 ^ 32
    → (is_negative ((lhs + 2 ^ 32 - rhs) % 2 ^ 32) ≡ true) ↔ (lhs < rhs)
    → (lhs < rhs + 2 ^ 31) × (rhs ≤ lhs + 2 ^ 31)
near_of lhs rhs h k less = ground (arith, less.0, less.1)

-- Four-byte columns are ordered right exactly where the two values are less than 2 ^ 31 apart, or
-- 2 ^ 31 apart with the key below.
pub col_compare_4bytes-Orders_iff :
    (lhs rhs : ℕ)
    → lhs < 2 ^ 32
    → rhs < 2 ^ 32
    → Orders (col_compare_4bytes lhs rhs) lhs rhs ↔ ((lhs < rhs + 2 ^ 31) × (rhs ≤ lhs + 2 ^ 31))
unfolding col_compare_4bytes
col_compare_4bytes-Orders_iff lhs rhs h k = (
  λ o. near_of lhs rhs h k o.less,
  λ near. record {
    equal = (λ e. omega arith, λ e. omega arith);
    less = (λ e. ground arith, λ e. ground arith);
  },
)

-- Four-byte columns are told equal right, whatever the two values.
pub col_compare_4bytes-equal :
    (lhs rhs : ℕ) → lhs < 2 ^ 32 → rhs < 2 ^ 32 → (col_compare_4bytes lhs rhs ≡ 0) ↔ (lhs ≡ rhs)
unfolding col_compare_4bytes
col_compare_4bytes-equal lhs rhs h k = (λ e. omega arith, λ e. omega arith)
