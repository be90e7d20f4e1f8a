-- ===== src/Bytes/Decompress.antt =====
-- `decompress_u32` against the format of ECMA-335 II.23.2.
use dnmd.Base.{ℕ, zero, suc, ◌+◌, ◌-◌, ◌*◌, ◌/◌, ◌%◌, ◌^◌, ◌≤◌, ◌<◌, ◌≡◌, arith, ◌⊎◌}
use dnmd.Base.{
  refl, sym, ◌∙◌, true, bit_and, bit_or, bit_and_low, bit_or_fields, List, [], ◌∷◌, length,
  length-drop, drop, All, All-drop,
}
use dnmd.Base.{Option, none, some, ltb, ◌==◌, ==_iff, if◌then◌else◌, all_below, all_below_sound}
use dnmd.Base.{ok, failed, fault, Outcome}
use dnmd.Bytes.{
  Mdcdata, IsStream, IsByte, decompress_onebyte, decompress_twobyte, decompress_fourbyte,
  decompress_u32,
}

-- The masks of the leading bits, by evaluation over a byte.
mask_table : all_below 256 (λ b. bit_and b 0x80 == b / 128 * 128) ≡ true
unfolding all_below
mask_table = refl

mask_80 : (b : ℕ) → b < 256 → bit_and b 0x80 ≡ b / 128 * 128
mask_80 b h = (==_iff _ _).0 (all_below_sound 256 _ b mask_table h)

mask_c0_table : all_below 256 (λ b. bit_and b 0xc0 == b / 64 * 64) ≡ true
unfolding all_below
mask_c0_table = refl

mask_c0 : (b : ℕ) → b < 256 → bit_and b 0xc0 ≡ b / 64 * 64
mask_c0 b h = (==_iff _ _).0 (all_below_sound 256 _ b mask_c0_table h)

mask_e0_table : all_below 256 (λ b. bit_and b 0xe0 == b / 32 * 32) ≡ true
unfolding all_below
mask_e0_table = refl

mask_e0 : (b : ℕ) → b < 256 → bit_and b 0xe0 ≡ b / 32 * 32
mask_e0 b h = (==_iff _ _).0 (all_below_sound 256 _ b mask_e0_table h)

-- The length of an encoding by its first byte: 0xxxxxxx, 10xxxxxx and 110xxxxx.
abbrev pub width : ℕ → Option ℕ
width b =
    if ltb b 128 then some 1 else if ltb b 192 then some 2 else if ltb b 224 then some 4 else none

-- The first `n` bytes as a big-endian number.
abbrev pub big : ℕ → ℕ → List ℕ → ℕ
big zero acc d = acc
big (suc n) acc [] = acc
big (suc n) acc (b ∷ d) = big n (acc * 256 + b) d

-- What is left of the encoding's bits beside the leading ones: 7, 14 or 29.
abbrev pub payload : ℕ → ℕ → ℕ
payload w v = if w == 1 then v % 2 ^ 7 else if w == 2 then v % 2 ^ 14 else v % 2 ^ 29

abbrev take_encoding : Mdcdata → Option ℕ → Outcome (ℕ × Mdcdata)
take_encoding s none = failed
take_encoding s (some w) =
    if ltb s.size w
    then failed
    else ok (payload w (big w 0 s.ptr), record { ptr = drop w s.ptr; size = s.size - w })

-- The number at the head of a stream, as the standard describes it.
abbrev pub decoded : Mdcdata → Outcome (ℕ × Mdcdata)
decoded s = elim s.ptr [ [] ↦ fault | b ∷ d ↦ take_encoding s (width b) ]

abbrev at : List ℕ → ℕ → Mdcdata
at d size = record { ptr = d; size = size }

onebyte :
    (b : ℕ) (d : List ℕ) (size : ℕ)
    → b < 128
    → decompress_onebyte (at (b ∷ d) size) ≡ take_encoding (at (b ∷ d) size) (some 1)
unfolding decompress_onebyte
onebyte b d size h = ground arith

two_fields :
    (b c : ℕ) → c < 256 → bit_or (bit_and b 0x3f * 2 ^ 8) c ≡ payload 2 ((0 * 256 + b) * 256 + c)
two_fields b c h = ground (arith, bit_and_low 6 b, bit_or_fields 8 (b % 2 ^ 6) c h)

twobyte :
    (b : ℕ) (d : List ℕ) (size : ℕ)
    → size ≤ length (b ∷ d)
    → All IsByte d
    → decompress_twobyte (at (b ∷ d) size) ≡ take_encoding (at (b ∷ d) size) (some 2)
unfolding decompress_twobyte
twobyte b [] size r h = ground arith
twobyte b (c ∷ d) size r h = rw (two_fields b c h.0) (ground arith)

join : (k q r t : ℕ) → t ≡ q * 2 ^ k → r < 2 ^ k → bit_or t r ≡ t + r
join k q r t e h = rw e (bit_or_fields k q r h)

four_fields :
    (b c e f : ℕ)
    → c < 256
    → e < 256
    → f < 256
    → bit_or (bit_or (bit_or (bit_and b 0x1f * 2 ^ 24) (c * 2 ^ 16)) (e * 2 ^ 8)) f
      ≡ payload 4 ((((0 * 256 + b) * 256 + c) * 256 + e) * 256 + f)
four_fields b c e f hc he hf = rw (bit_and_low 5 b) (
    ground (
      arith,
      join 24 (b % 32) (c * 65536) (b % 32 * 16777216),
      join 16 (b % 32 * 256 + c) (e * 256) (b % 32 * 16777216 + c * 65536),
      join 8 ((b % 32 * 256 + c) * 256 + e) f (b % 32 * 16777216 + c * 65536 + e * 256),
    ))

fourbyte :
    (b : ℕ) (d : List ℕ) (size : ℕ)
    → size ≤ length (b ∷ d)
    → All IsByte d
    → decompress_fourbyte (at (b ∷ d) size) ≡ take_encoding (at (b ∷ d) size) (some 4)
unfolding decompress_fourbyte
fourbyte b [] size r h = ground arith
fourbyte b (c ∷ []) size r h = ground arith
fourbyte b (c ∷ e ∷ []) size r h = ground arith
fourbyte b (c ∷ e ∷ f ∷ d) size r (hc, (he, (hf, _))) =
    rw (four_fields b c e f hc he hf) (ground arith)

by_first :
    (b : ℕ) (d : List ℕ) (size : ℕ)
    → size ≤ length (b ∷ d)
    → All IsByte (b ∷ d)
    → decompress_u32 (at (b ∷ d) size) ≡ take_encoding (at (b ∷ d) size) (width b)
unfolding decompress_u32
by_first b d size r h = ground (
  arith,
  mask_80 b h.0,
  mask_c0 b h.0,
  mask_e0 b h.0,
  onebyte b d size,
  twobyte b d size r h.1,
  fourbyte b d size r h.1,
)

-- On a stream with a readable byte `decompress_u32` takes the encoding that the standard describes,
-- and refuses a first byte that starts none and a stream that is too short for it. Where not even
-- one byte can be read it reads out of range.
pub decompress_u32-decoded : (s : Mdcdata) → IsStream s → decompress_u32 s ≡ decoded s
decompress_u32-decoded s v = go s.ptr s.size v.readable v.bytes
  where
    go :
        (d : List ℕ) (size : ℕ)
        → size ≤ length d
        → All IsByte d
        → decompress_u32 (at d size) ≡ decoded (at d size)
    go [] size r h = unfold decompress_u32 in refl
    go (b ∷ d) size r h = by_first b d size r h

-- How many bytes an encoding takes.
abbrev pub IsEncodedWidth : ℕ → Type 0
IsEncodedWidth w = (w ≡ 1) ⊎ (w ≡ 2) ⊎ (w ≡ 4)

-- What a successful read has done to the stream.
pub record Takes (s : Mdcdata) (v : ℕ) (s' : Mdcdata) : Type 0 where
  pub taken : ℕ
  pub as_encoded : IsEncodedWidth taken
  pub moved : s'.ptr ≡ drop taken s.ptr
  pub shorter : s'.size + taken ≡ s.size
  pub small : v < 2 ^ 29
  pub fits : payload taken v ≡ v

payload-lt : (w v : ℕ) → payload w v < 2 ^ 29
payload-lt w v = ground arith

payload_twice : (w v : ℕ) → payload w (payload w v) ≡ payload w v
payload_twice w v = ground arith

width-IsEncodedWidth : (b w : ℕ) → width b ≡ some w → IsEncodedWidth w
width-IsEncodedWidth b w h = ground arith

take_encoding-Takes :
    (s : Mdcdata) (o : Option ℕ) (v : ℕ) (s' : Mdcdata)
    → ((w : ℕ) → o ≡ some w → IsEncodedWidth w)
    → take_encoding s o ≡ ok (v, s')
    → Takes s v s'
take_encoding-Takes s none v s' e h = cc
take_encoding-Takes s (some w) v s' e h = record {
  taken = w;
  as_encoded = e w refl;
  moved = ground arith;
  shorter = ground arith;
  small = ground (arith, payload-lt w (big w 0 s.ptr));
  fits = ground (arith, payload_twice w (big w 0 s.ptr));
}

decoded-Takes :
    (d : List ℕ) (size v : ℕ) (s' : Mdcdata)
    → decoded (at d size) ≡ ok (v, s')
    → Takes (at d size) v s'
decoded-Takes [] size v s' h = cc
decoded-Takes (b ∷ d) size v s' h =
    take_encoding-Takes (at (b ∷ d) size) (width b) v s' (width-IsEncodedWidth b) h

pub Takes-IsStream : {s s' : Mdcdata} {v : ℕ} → Takes s v s' → IsStream s → IsStream s'
Takes-IsStream {s} t valid = record {
  readable = rw (t.moved, length-drop) (omega (arith, t.shorter, valid.readable));
  bytes = rw t.moved (All-drop IsByte t.taken s.ptr valid.bytes);
}

-- A successful `decompress_u32` returns less than 2 ^ 29, and moves past the 1, 2 or 4 bytes that
-- it takes off the length.
pub decompress_u32-Takes :
    (s : Mdcdata) (v : ℕ) (s' : Mdcdata)
    → IsStream s
    → decompress_u32 s ≡ ok (v, s')
    → Takes s v s' × IsStream s'
decompress_u32-Takes s v s' valid h =
    let t = decoded-Takes s.ptr s.size v s' (sym (decompress_u32-decoded s valid) ∙ h) in
    (t, Takes-IsStream t valid)
