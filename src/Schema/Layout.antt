-- ===== src/Schema/Layout.antt =====
-- `compute_row_offsets_size` lays the columns side by side.
use dnmd.Base.{ℕ, suc, ◌+◌, ◌*◌, ◌/◌, ◌%◌, ◌^◌, ◌≤◌, ◌<◌, ◌≡◌, arith, refl, ap, ◌∙◌, bit_or}
use dnmd.Base.{◌⊎◌, List, [], ◌∷◌, length, All}
use dnmd.Base.{bit_and_split, bit_or_split, bit_and-zero, bit_or-zero, bit_or_fields', bit_and_high}
use dnmd.Schema.Details.{insert_offset, extract_offset, column_width, compute_row_offsets_size}

-- Exactly one of the two width flags is set.
abbrev pub IsSized : ℕ → Type 0
IsSized col = (col / 2 ^ 4 % 4 ≡ 1) ⊎ (col / 2 ^ 4 % 4 ≡ 2)

-- The column has a width, and no offset has been put into its details yet.
abbrev pub IsFresh : ℕ → Type 0
IsFresh col = IsSized col × (col / 2 ^ 8 % 2 ^ 8 ≡ 0)

-- The columns stand side by side from `c` to `size`.
abbrev pub Tiles : ℕ → List ℕ → ℕ → Type 0
Tiles c [] size = c ≡ size
Tiles c (col ∷ cols) size = (extract_offset col ≡ c) × Tiles (c + column_width col) cols size

-- Two details that differ in the offset at most.
abbrev pub SameKind : ℕ → ℕ → Type 0
SameKind col col' = (col' / 2 ^ 16 ≡ col / 2 ^ 16) × (col' % 2 ^ 8 ≡ col % 2 ^ 8)

abbrev pub SameKinds : List ℕ → List ℕ → Type 0
SameKinds [] [] = Unit
SameKinds (c ∷ cs) (d ∷ ds) = SameKind c d × SameKinds cs ds
SameKinds _ _ = ⊥

inserted : (c : ℕ) → c < 256 → insert_offset c ≡ c * 2 ^ 8
inserted c h = ground (arith, bit_and_high 8 8 c 0 h (omega arith))

-- The parts of a fresh column with an offset put in.
placed :
    (hi lo c : ℕ)
    → lo < 256
    → c < 256
    → bit_or (hi * 2 ^ 16 + lo) (insert_offset c) ≡ hi * 2 ^ 16 + (c * 2 ^ 8 + lo)
placed hi lo c hl hc = grind (
  arith,
  inserted c hc,
  bit_or_split 16 hi lo 0 (c * 2 ^ 8),
  bit_or-zero hi,
  bit_or_fields' 8 c lo hl,
)

offset_of : (hi lo c : ℕ) → lo < 256 → c < 256 → extract_offset (hi * 2 ^ 16 + (c * 2 ^ 8 + lo)) ≡ c
offset_of hi lo c hl hc = grind (
  arith,
  bit_and_split 16 hi (c * 2 ^ 8 + lo) 0 0xff00,
  bit_and-zero hi,
  bit_and_high 8 8 c lo hc hl,
)

-- What the loop stores for a fresh column.
abbrev stored : ℕ → ℕ → ℕ
stored c col = bit_or col (insert_offset c)

stored-eq :
    (c col : ℕ)
    → IsFresh col
    → c < 256
    → stored c col ≡ col / 2 ^ 16 * 2 ^ 16 + (c * 2 ^ 8 + col % 2 ^ 8)
stored-eq c col fresh h =
    let e : col ≡ col / 2 ^ 16 * 2 ^ 16 + col % 2 ^ 8 = omega arith in
    ap (λ (t : ℕ). bit_or t (insert_offset c)) e
    ∙ placed (col / 2 ^ 16) (col % 2 ^ 8) c (omega arith) h

stored-SameKind : (c col : ℕ) → IsFresh col → c < 256 → SameKind col (stored c col)
stored-SameKind c col fresh h = omega (arith, stored-eq c col fresh h)

stored_offset : (c col : ℕ) → IsFresh col → c < 256 → extract_offset (stored c col) ≡ c
stored_offset c col fresh h =
    rw (stored-eq c col fresh h) (offset_of (col / 2 ^ 16) (col % 2 ^ 8) c (omega arith) h)

stored-IsSized : (c col : ℕ) → IsFresh col → c < 256 → IsSized (stored c col)
stored-IsSized c col fresh h =
    let e : stored c col / 2 ^ 4 % 4 ≡ col / 2 ^ 4 % 4 = omega (arith, stored-eq c col fresh h) in
    rw e fresh.0

width_bounds : (col : ℕ) → (2 ≤ column_width col) × (column_width col ≤ 4)
width_bounds col = ground arith

-- On fresh columns that fit a row of 255 bytes, the columns that `compute_row_offsets_size` stores
-- stand side by side from offset 0 to the size that it returns, which is at most 4 bytes a column,
-- and keep all but their offsets: each has one width flag.
pub compute_row_offsets_size-Tiles :
    (c : ℕ) (cols : List ℕ)
    → All IsFresh cols
    → c + 4 * length cols < 256
    → Tiles c (compute_row_offsets_size c cols).0 (compute_row_offsets_size c cols).1
      × SameKinds cols (compute_row_offsets_size c cols).0
      × (length (compute_row_offsets_size c cols).0 ≡ length cols)
      × (c + 2 * length cols ≤ (compute_row_offsets_size c cols).1)
      × ((compute_row_offsets_size c cols).1 ≤ c + 4 * length cols)
      × All IsSized (compute_row_offsets_size c cols).0
unfolding compute_row_offsets_size
compute_row_offsets_size-Tiles c [] h fits = (refl, tt, refl, omega arith, omega arith, tt)
compute_row_offsets_size-Tiles c (col ∷ cols) (fresh, h) fits =
    let bounds = width_bounds (stored c col) in
    let (tiles, same, len, lo, hi, all_sized) =
      compute_row_offsets_size-Tiles (c + column_width (stored c col)) cols h (omega arith) in
    (
      (stored_offset c col fresh (omega arith), tiles),
      (stored-SameKind c col fresh (omega arith), same),
      ap suc len,
      omega arith,
      omega arith,
      (stored-IsSized c col fresh (omega arith), all_sized),
    )
