-- ===== src/Bytes.antt =====
-- The byte streams of src/dnmd/bytes.c. A pointer is the list of the bytes that can be read from
-- it on, and stands beside the length that the code keeps, as in `mdcdata_t`.
use dnmd.Base.{ℕ, zero, suc, ◌+◌, ◌-◌, ◌*◌, ◌/◌, ◌%◌, ◌^◌, ◌≤◌, ◌<◌, bit_and, bit_or}
use dnmd.Base.{Bool, true, List, [], ◌∷◌, ◌++◌, ltb, leb, ◌==◌, ◌!=◌, if◌then◌else◌}
use dnmd.Base.{
  ◌≡◌, arith, length, drop, set, All, lt_wf, bit_and-le, bit_and-lt_pred, Outcome, ok, failed,
  fault, ◌>>=◌, ◌>>◌,
}
use mathlib.Core.Logic.{dite}
use mathlib.Core.WellFounded.{Acc}
use native.Mathlib.Decide.{dec_lt}
pub mod Align
pub mod Count
pub mod Little
pub mod Decompress
pub mod Compress
pub mod Signed
pub mod Check
mod Runs

-- A pointer and a length: `mdcdata_t`, `mdstream_t`, and each pair `data`, `data_len`.
pub record Mdcdata : Type 0 where
  pub ptr : List ℕ
  pub size : ℕ

-- An output pointer into a buffer: the bytes before it, those from it on, and the length left.
pub record Output : Type 0 where
  pub before : List ℕ
  pub ptr : List ℕ
  pub size : ℕ

abbrev pub IsByte : ℕ → Type 0
IsByte b = b < 256

-- The bytes that the length promises can be read.
pub record IsStream (s : Mdcdata) : Type 0 where
  pub readable : s.size ≤ length s.ptr
  pub bytes : All IsByte s.ptr

-- `*s` and `*s++`
abbrev pub peek : List ℕ → Outcome ℕ
peek [] = fault
peek (b ∷ rest) = ok b

abbrev pub next : List ℕ → Outcome (ℕ × List ℕ)
next [] = fault
next (b ∷ rest) = ok (b, rest)

abbrev u32 : ℕ → ℕ
u32 n = n % 2 ^ 32

-- `~x` of a uint32_t
abbrev not32 : ℕ → ℕ
not32 x = 2 ^ 32 - 1 - x

unfoldable pub align_to : ℕ → ℕ → ℕ
align_to val align =
    let below = u32 (align + 2 ^ 32 - 1) in bit_and (u32 (val + below)) (not32 below)

unfoldable pub advance_stream : Mdcdata → ℕ → Outcome Mdcdata
advance_stream s b =
    if ltb s.size b then failed else ok (record { ptr = drop b s.ptr; size = s.size - b })

-- `integer |= (uint64_t)*d++ << shift`, `n` times from `shift` on. The first of them is an
-- assignment in the source; here it is `|` with 0.
read_fields : ℕ → ℕ → ℕ → List ℕ → Outcome (ℕ × List ℕ)
read_fields zero shift integer d = ok (integer, d)
read_fields (suc n) shift integer d = do
  (b, d') ← next d
  read_fields n (shift + 8) (bit_or integer (b * 2 ^ shift)) d'

unfoldable pub read_sized : Mdcdata → ℕ → Outcome (ℕ × Mdcdata)
unfolding read_fields
read_sized s n = do
  (integer, d) ← read_fields n 0 0 s.ptr
  ok (integer, record { ptr = d; size = s.size - n })

unfoldable pub read_le : Mdcdata → ℕ → Outcome (ℕ × Mdcdata)
read_le s o_size =
    if ltb s.size o_size
    then failed
    else if o_size == 8
    then read_sized s 8
    else if o_size == 4
    then read_sized s 4
    else if o_size == 2
    then read_sized s 2
    else if o_size == 1
    then read_sized s 1
    else failed

unfoldable pub read_u8 : Mdcdata → Outcome (ℕ × Mdcdata)
unfolding read_le
read_u8 s = read_le s 1

unfoldable pub read_u16 : Mdcdata → Outcome (ℕ × Mdcdata)
unfolding read_le
read_u16 s = read_le s 2

unfoldable pub read_u32 : Mdcdata → Outcome (ℕ × Mdcdata)
unfolding read_le
read_u32 s = read_le s 4

unfoldable pub read_u64 : Mdcdata → Outcome (ℕ × Mdcdata)
unfolding read_le
read_u64 s = read_le s 8

-- `*d++ = (uint8_t)(o >> shift)`, `n` times from `shift` on.
unfoldable pub write_fields : ℕ → ℕ → ℕ → Output → Outcome Output
write_fields zero shift o out = ok out
write_fields (suc n) shift o out = do
  (old, rest) ← next out.ptr
  let b = o / 2 ^ shift % 256
  let out' : Output = record { before = out.before ++ b ∷ []; ptr = rest; size = out.size - 1 }
  write_fields n (shift + 8) o out'

unfoldable pub write_le : Output → ℕ → ℕ → Outcome Output
write_le out o o_size =
    if ltb out.size o_size
    then failed
    else if o_size == 8
    then write_fields 8 0 o out
    else if o_size == 4
    then write_fields 4 0 o out
    else if o_size == 2
    then write_fields 2 0 o out
    else if o_size == 1
    then write_fields 1 0 o out
    else failed

-- The three branches of `decompress_u32`, for encodings of 1, 2 and 4 bytes.
unfoldable pub decompress_onebyte : Mdcdata → Outcome (ℕ × Mdcdata)
decompress_onebyte s =
    if ltb s.size 1
    then failed
    else do (b0, d) ← next s.ptr; ok (b0, record { ptr = d; size = s.size - 1 })

unfoldable pub decompress_twobyte : Mdcdata → Outcome (ℕ × Mdcdata)
decompress_twobyte s = if ltb s.size 2 then failed else do
  (b0, d0) ← next s.ptr
  (b1, d1) ← next d0
  ok (bit_or (bit_and b0 0x3f * 2 ^ 8) b1, record { ptr = d1; size = s.size - 2 })

unfoldable pub decompress_fourbyte : Mdcdata → Outcome (ℕ × Mdcdata)
decompress_fourbyte s = if ltb s.size 4 then failed else do
  (b0, d0) ← next s.ptr
  (b1, d1) ← next d0
  (b2, d2) ← next d1
  (b3, d3) ← next d2
  let val = bit_or (bit_or (bit_or (bit_and b0 0x1f * 2 ^ 24) (b1 * 2 ^ 16)) (b2 * 2 ^ 8)) b3
  ok (val, record { ptr = d3; size = s.size - 4 })

-- The first byte is read before the length is looked at.
unfoldable pub decompress_u32 : Mdcdata → Outcome (ℕ × Mdcdata)
decompress_u32 s = do
  first ← peek s.ptr
  if bit_and first 0x80 == 0x00
      then decompress_onebyte s
      else if bit_and first 0xc0 == 0x80
      then decompress_twobyte s
      else if bit_and first 0xe0 == 0xc0
      then decompress_fourbyte s
      else failed

abbrev pub sign_mask_onebyte : ℕ
sign_mask_onebyte = 0xffffffc0

abbrev pub sign_mask_twobyte : ℕ
sign_mask_twobyte = 0xffffe000

abbrev pub sign_mask_fourbyte : ℕ
sign_mask_fourbyte = 0xf0000000

-- The `switch` on the number of bytes taken. The result is the bit pattern of the int32_t.
unfoldable pub sign_extend : ℕ → ℕ → Outcome ℕ
sign_extend taken value =
    if taken == 1
    then ok (bit_or value sign_mask_onebyte)
    else if taken == 2
    then ok (bit_or value sign_mask_twobyte)
    else if taken == 4
    then ok (bit_or value sign_mask_fourbyte)
    else failed

unfoldable pub decompress_i32 : Mdcdata → Outcome (ℕ × Mdcdata)
decompress_i32 s = do
  (unsigned_value, s') ← decompress_u32 s
  let half = unsigned_value / 2
  value ← if bit_and unsigned_value 1 != 0 then sign_extend (s.size - s'.size) half else ok half
  ok (value, s')

-- `compressed[i] = (uint8_t)v`
unfoldable pub store : List ℕ → ℕ → ℕ → Outcome (List ℕ)
store buf i v = if ltb i (length buf) then ok (set buf i (v % 256)) else fault

-- The branches of `compress_u32`: the buffer after the call, and `*compressed_len`.
unfoldable pub compress_onebyte : ℕ → List ℕ → ℕ → Outcome (List ℕ × ℕ)
compress_onebyte value compressed compressed_len =
    if ltb compressed_len 1 then failed else do c0 ← store compressed 0 value; ok (c0, 1)

unfoldable pub compress_twobyte : ℕ → List ℕ → ℕ → Outcome (List ℕ × ℕ)
compress_twobyte value compressed compressed_len =
    if ltb compressed_len 2
    then failed
    else do c0 ← store compressed 0 (bit_or (value / 2 ^ 8) 0x80); c1 ← store c0 1 value; ok (c1, 2)

unfoldable pub compress_fourbyte : ℕ → List ℕ → ℕ → Outcome (List ℕ × ℕ)
compress_fourbyte value compressed compressed_len = if ltb compressed_len 4 then failed else do
  c0 ← store compressed 0 (bit_or (value / 2 ^ 24) 0xc0)
  c1 ← store c0 1 (value / 2 ^ 16)
  c2 ← store c1 2 (value / 2 ^ 8)
  c3 ← store c2 3 value
  ok (c3, 4)

unfoldable pub compress_u32 : ℕ → List ℕ → ℕ → Outcome (List ℕ × ℕ)
compress_u32 value compressed compressed_len =
    if leb value 0x7f
    then compress_onebyte value compressed compressed_len
    else if leb value 0x3fff
    then compress_twobyte value compressed compressed_len
    else if leb value 0x1fffffff
    then compress_fourbyte value compressed compressed_len
    else failed

-- `val & (val - 1)` is smaller, so the loop ends.
count_loop : (val : ℕ) → Acc ◌<◌ val → ℕ → ℕ
count_loop val (Acc.intro _ smaller) count =
    dite (dec_lt 0 val)
      (λ more.
        count_loop (bit_and val (val - 1)) (smaller _ (bit_and-lt_pred val more)) (count + 1))
      (λ _. count)

unfoldable pub count_set_bits : ℕ → ℕ
unfolding count_loop lt_wf dec_lt
count_set_bits val = count_loop val (lt_wf.apply val) 0
