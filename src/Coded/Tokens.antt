-- ===== src/Coded/Tokens.antt =====
-- The two fields of a token.
use dnmd.Base.{
  ℕ, ◌+◌, ◌*◌, ◌/◌, ◌%◌, ◌^◌, ◌<◌, ◌≡◌, arith, bit_or, bit_and_low, bit_and_high, bit_or_fields,
}
use dnmd.Coded.{rid_from_token, extract_token_type, create_token_type}

pub rid_mod : (tk : ℕ) → rid_from_token tk ≡ tk % 2 ^ 24
rid_mod tk = bit_and_low 24 tk

pub type_mod : (tk : ℕ) → extract_token_type tk ≡ tk / 2 ^ 24 % 2 ^ 8
type_mod tk = bit_and_low 8 (tk / 2 ^ 24)

pub create_token : (t : ℕ) → t < 2 ^ 8 → create_token_type t ≡ t * 2 ^ 24
create_token t h = ground (arith, bit_and_high 24 8 t 0 h (omega arith))

pub token_fields :
    (t r : ℕ) → t < 2 ^ 8 → r < 2 ^ 24 → bit_or (create_token_type t) r ≡ t * 2 ^ 24 + r
token_fields t r ht hr = rw (create_token t ht) (bit_or_fields 24 t r hr)

pub rid-lt : (tk : ℕ) → rid_from_token tk < 2 ^ 24
rid-lt tk = omega (arith, rid_mod tk)
