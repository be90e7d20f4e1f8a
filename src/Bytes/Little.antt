-- ===== src/Bytes/Little.antt =====
-- The little-endian reads and writes.
use dnmd.Base.{ℕ, zero, suc, ◌+◌, ◌-◌, ◌*◌, ◌/◌, ◌%◌, ◌^◌, ◌≤◌, ◌<◌, ◌≡◌, arith, ◌⊎◌}
use dnmd.Base.{
  refl, ap, sym, ◌∙◌, bit_or_fields', List, [], ◌∷◌, ◌++◌, length, length-append, drop, All,
}
use dnmd.Base.{length-drop, drop-append, All-drop, ok, failed}
use mathlib.Core.List.{append-nil, append_assoc}
use native.Mathlib.Nat.{pow-suc, mul_comm, div-div-eq-div-mul}
use native.Mathlib.Numerals.{towards_suc}
use dnmd.Bytes.{
  Mdcdata, IsStream, Output, IsByte, read_fields, read_sized, read_le, write_fields, write_le,
}

-- What the first `n` bytes stand for.
abbrev pub little : ℕ → List ℕ → ℕ
little zero d = 0
little (suc n) [] = 0
little (suc n) (b ∷ d) = b + 256 * little n d

shift_eight : (s : ℕ) → 2 ^ (s + 8) ≡ 256 * 2 ^ s
shift_eight s = simp towards_suc (omega arith)

room : (s b i : ℕ) → b < 256 → i < 2 ^ s → b * 2 ^ s + i < 2 ^ (s + 8)
room s b i hb hi = rw shift_eight (grind arith)

regroup : (s b i l : ℕ) → b * 2 ^ s + i + l * 2 ^ (s + 8) ≡ i + (b + 256 * l) * 2 ^ s
regroup s b i l = omega (arith, ap (λ (t : ℕ). l * t) (shift_eight s))

read_fields-little :
    (n shift integer : ℕ) (d : List ℕ)
    → All IsByte d
    → n ≤ length d
    → integer < 2 ^ shift
    → read_fields n shift integer d ≡ ok (integer + little n d * 2 ^ shift, drop n d)
unfolding read_fields
read_fields-little zero shift integer d h p q = ap (λ (t : ℕ). ok (t, d)) (omega arith)
read_fields-little (suc n) shift integer [] h p q = absurd (omega arith)
read_fields-little (suc n) shift integer (b ∷ d) h p q = rw (bit_or_fields' shift b integer q) (
    read_fields-little n (shift + 8) (b * 2 ^ shift + integer) d h.1 (omega arith)
      (room shift b integer h.0 q)
    ∙ ap (λ (t : ℕ). ok (t, drop n d)) (regroup shift b integer (little n d)))

-- The bytes of a number, lowest first.
abbrev pub spell : ℕ → ℕ → List ℕ
spell zero o = []
spell (suc n) o = (o % 256) ∷ spell n (o / 256)

power_some : (n : ℕ) → 0 < 256 ^ n
power_some zero = omega arith
power_some (suc n) = omega (arith, pow-suc 256 n, power_some n)

pub little-lt : (n : ℕ) (d : List ℕ) → All IsByte d → little n d < 256 ^ n
little-lt zero d h = omega arith
little-lt (suc n) [] h = omega (arith, power_some (suc n))
little-lt (suc n) (b ∷ d) h = omega (arith, pow-suc 256 n, little-lt n d h.1, h.0)

little-spell : (n o : ℕ) (rest : List ℕ) → o < 256 ^ n → little n (spell n o ++ rest) ≡ o
little-spell zero o rest h = omega arith
little-spell (suc n) o rest h =
    omega (arith, pow-suc 256 n, little-spell n (o / 256) rest (omega (arith, pow-suc 256 n)))

length-spell : (n o : ℕ) → length (spell n o) ≡ n
length-spell zero o = refl
length-spell (suc n) o = ap suc (length-spell n (o / 256))

spell-IsByte : (n o : ℕ) (rest : List ℕ) → All IsByte rest → All IsByte (spell n o ++ rest)
spell-IsByte zero o rest h = h
spell-IsByte (suc n) o rest h = (omega arith, spell-IsByte n (o / 256) rest h)

div_shift : (o s : ℕ) → o / 2 ^ (s + 8) ≡ o / 2 ^ s / 256
div_shift o s = rw (shift_eight, mul_comm) (sym (div-div-eq-div-mul o (2 ^ s) 256))

write_fields-spell :
    (n shift o : ℕ) (before ptr : List ℕ) (size : ℕ)
    → n ≤ length ptr
    → write_fields n shift o (record { before = before; ptr = ptr; size = size })
      ≡ ok
          (record { before = before ++ spell n (o / 2 ^ shift); ptr = drop n ptr; size = size - n })
unfolding write_fields
write_fields-spell zero shift o before ptr size h =
    rw append-nil
      (ap (λ (t : ℕ). ok (record { before = before; ptr = ptr; size = t })) (omega arith))
write_fields-spell (suc n) shift o before [] size h = absurd (omega arith)
write_fields-spell (suc n) shift o before (b ∷ ptr) size h =
    write_fields-spell n (shift + 8) o (before ++ o / 2 ^ shift % 256 ∷ []) ptr (size - 1)
      (omega arith)
    ∙ rw (div_shift, append_assoc)
        (ap
          (λ (t : ℕ). ok (record {
            before = before ++ (o / 2 ^ shift % 256) ∷ spell n (o / 2 ^ shift / 256);
            ptr = drop n ptr;
            size = t;
          }))
          (omega arith))

-- The sizes that the reads and writes support.
abbrev pub IsWidth : ℕ → Type 0
IsWidth n = (n ≡ 1) ⊎ (n ≡ 2) ⊎ (n ≡ 4) ⊎ (n ≡ 8)

read_sized-little :
    (s : Mdcdata) (n : ℕ)
    → IsStream s
    → n ≤ s.size
    → read_sized s n ≡ ok (little n s.ptr, record { ptr = drop n s.ptr; size = s.size - n })
unfolding read_sized
read_sized-little s n v h =
    rw (read_fields-little n 0 0 s.ptr v.bytes (omega (arith, v.readable)) (omega arith))
      (ap (λ (t : ℕ). ok (t, record { ptr = drop n s.ptr; size = s.size - n })) (omega arith))

read_le-sized : (s : Mdcdata) (n : ℕ) → IsWidth n → n ≤ s.size → read_le s n ≡ read_sized s n
unfolding read_le
read_le-sized s n w h = ground arith

-- Of a stream that is long enough, `read_le` takes the first bytes, lowest first.
pub read_le-little :
    (s : Mdcdata) (n : ℕ)
    → IsStream s
    → IsWidth n
    → n ≤ s.size
    → read_le s n ≡ ok (little n s.ptr, record { ptr = drop n s.ptr; size = s.size - n })
read_le-little s n v w h = read_le-sized s n w h ∙ read_sized-little s n v h

-- A stream that is too short is refused, whatever the size asked for.
pub read_le_short : (s : Mdcdata) (n : ℕ) → s.size < n → read_le s n ≡ failed
unfolding read_le
read_le_short s n h = ground arith

write_le-fields :
    (out : Output) (o n : ℕ) → IsWidth n → n ≤ out.size → write_le out o n ≡ write_fields n 0 o out
unfolding write_le
write_le-fields out o n w h = ground arith

drop-spell : (n o : ℕ) (ys : List ℕ) → drop n (spell n o ++ ys) ≡ ys
drop-spell zero o ys = refl
drop-spell (suc n) o ys = drop-spell n (o / 256) ys

-- Where there is room, `write_le` puts the bytes of the number, lowest first, and moves past them.
pub write_le-spell :
    (out : Output) (o n : ℕ)
    → IsWidth n
    → n ≤ out.size
    → out.size ≤ length out.ptr
    → write_le out o n
      ≡ ok (record { before = out.before ++ spell n o; ptr = drop n out.ptr; size = out.size - n })
write_le-spell out o n w h room =
    write_le-fields out o n w h
    ∙ write_fields-spell n 0 o out.before out.ptr out.size (omega arith)
    ∙ ap
        (λ (t : ℕ).
          ok (record {
            before = out.before ++ spell n t;
            ptr = drop n out.ptr;
            size = out.size - n;
          }))
        (omega arith)

module _ (out : Output) (o n : ℕ) (w : IsWidth n) (h : n ≤ out.size)
    (room : out.size ≤ length out.ptr) (bytes : All IsByte out.ptr) (fits : o < 256 ^ n) where
  abbrev kept : List ℕ
  kept = spell n o ++ drop n out.ptr

  length-kept : length kept ≡ length out.ptr
  length-kept = rw (length-append, length-drop, length-spell) (omega arith)

  kept-IsStream : IsStream (record { ptr = kept; size = out.size })
  kept-IsStream = record {
    readable = rw length-kept room;
    bytes = spell-IsByte n o (drop n out.ptr) (All-drop IsByte n out.ptr bytes);
  }

  read_kept :
      read_le (record { ptr = kept; size = out.size }) n
      ≡ ok (o, record { ptr = drop n out.ptr; size = out.size - n })
  read_kept =
      read_le-little (record { ptr = kept; size = out.size }) n kept-IsStream w h
      ∙ rw (little-spell n o (drop n out.ptr) fits, drop-spell)

  at_start : drop (length out.before) ((out.before ++ spell n o) ++ drop n out.ptr) ≡ kept
  at_start = rw append_assoc (drop-append out.before kept)

  -- Reading back where a number of a supported size was written gives the number, and goes on where
  -- the write stopped. The write keeps the buffer's length.
  pub read_le-write_le :
      (out' : Output) × (write_le out o n ≡ ok out')
      × (length (out'.before ++ out'.ptr) ≡ length (out.before ++ out.ptr))
      × (read_le
            (record { ptr = drop (length out.before) (out'.before ++ out'.ptr); size = out.size })
            n
          ≡ ok (o, record { ptr = out'.ptr; size = out'.size }))
  read_le-write_le = (
    record { before = out.before ++ spell n o; ptr = drop n out.ptr; size = out.size - n },
    write_le-spell out o n w h room,
    rw (append_assoc, length-append)
        (rw (length-append out.before out.ptr) (omega (arith, length-kept))),
    rw at_start read_kept,
  )
