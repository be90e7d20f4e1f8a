-- ===== src/Coded/RoundTrip.antt =====
-- `compose_coded_index` and `decompose_coded_index` undo one another.
use dnmd.Base.{ℕ, zero, suc, ◌+◌, ◌-◌, ◌*◌, ◌/◌, ◌%◌, ◌^◌, ◌≤◌, ◌<◌, ◌≡◌, arith, refl, ap, ◌∙◌}
use dnmd.Base.{List, [], ◌∷◌, Option, none, some, Bool, true, false, ◌&&◌, ◌≢◌, inl, inr}
use dnmd.Base.{
  length, get_elem?, ltb, leb, Bool-cases, ◌==◌, if◌then◌else◌, Outcome, ok, failed, >>=-eq-ok,
}
use dnmd.Base.{bit_and, bit_or, bit_and_low, bit_or_fields, bit_and_low_fields}
use native.Mathlib.Nat.{div-add-mod}
use dnmd.Ids.{mdtid_unused}
use dnmd.Coded.Tokens.{rid_mod, type_mod, token_fields, rid-lt}
use dnmd.Coded.{
  CodedIndexEntry, coded_index_map, entry_of, find_table, compose_coded_index,
  decompose_coded_index,
}
use dnmd.Coded.{rid_from_token, extract_token_type, create_token_type, extract_coded_index}

-- Each table but `mdtid_Unused` is below 56 and stands in a list once.
distinct : List ℕ → Bool
distinct [] = true
distinct (t ∷ ts) =
    (if t == mdtid_unused
      then true
      else ltb t 56 && elim (find_table t ts 0) [ none ↦ true | some _ ↦ false ])
    && distinct ts

fits : CodedIndexEntry → Bool
fits e =
    leb (length e.lookup) (2 ^ e.bit_encoding_size)
    && leb e.bit_encoding_size 5
    && distinct e.lookup

all_fit : List CodedIndexEntry → Bool
all_fit [] = true
all_fit (e ∷ es) = fits e && all_fit es

all_fit_at :
    (es : List CodedIndexEntry) (i : ℕ) (e : CodedIndexEntry)
    → all_fit es ≡ true
    → get_elem? es i ≡ some e
    → fits e ≡ true
unfolding all_fit
all_fit_at [] i e h p = cc
all_fit_at (x ∷ es) zero e h p = ground arith
all_fit_at (x ∷ es) (suc i) e h p = all_fit_at es i e (ground arith) p

map_fits : all_fit coded_index_map ≡ true
unfolding all_fit fits distinct find_table coded_index_map
map_fits = refl

entry-fits : (col : ℕ) (e : CodedIndexEntry) → entry_of col ≡ ok e → fits e ≡ true
unfolding entry_of
entry-fits col e h = all_fit_at coded_index_map (extract_coded_index col) e map_fits (ground arith)

-- What `find_table` finds.
find_table_found :
    (t : ℕ) (ts : List ℕ) (i j : ℕ)
    → find_table t ts i ≡ some j
    → (k : ℕ) × (j ≡ i + k) × (k < length ts) × (get_elem? ts k ≡ some t)
unfolding find_table
find_table_found t [] i j h = cc
find_table_found t (x ∷ ts) i j h = elim (Bool-cases (x == t)) [
  | inl same ↦ (0, ground arith, omega arith, ground arith)
  | inr other ↦
      let (k, e, lt, p) = find_table_found t ts (i + 1) j (rw other at h) in
      (suc k, omega arith, omega arith, p)
]

-- A table is found where it stands, if it stands nowhere else.
find_table_at :
    (ts : List ℕ) (i j t : ℕ)
    → distinct ts ≡ true
    → t ≢ mdtid_unused
    → get_elem? ts j ≡ some t
    → find_table t ts i ≡ some (i + j)
unfolding find_table distinct
find_table_at [] i j t d u h = cc
find_table_at (x ∷ ts) i zero t d u h = ground arith
find_table_at (x ∷ ts) i (suc j) t d u h =
    ground (arith, find_table_at ts (i + 1) j t, find_table_at ts 0 j t)

-- The fields of a token.
-- The fields of a coded index.
module _ (bits row code : ℕ) (small : code < 2 ^ bits) where
  low_field : bit_and (row * 2 ^ bits + code) (2 ^ bits - 1) ≡ code
  low_field = bit_and_low_fields bits row code small

  high_field : (row * 2 ^ bits + code) / 2 ^ bits ≡ row
  high_field = grind arith

shifted_fits : (bits row : ℕ) → bits ≤ 5 → row < 2 ^ 24 → row * 2 ^ bits < 2 ^ 32
shifted_fits zero row h r = omega arith
shifted_fits (suc zero) row h r = omega arith
shifted_fits (suc (suc zero)) row h r = omega arith
shifted_fits (suc (suc (suc zero))) row h r = omega arith
shifted_fits (suc (suc (suc (suc zero)))) row h r = omega arith
shifted_fits (suc (suc (suc (suc (suc zero))))) row h r = omega arith
shifted_fits (suc (suc (suc (suc (suc (suc b)))))) row h r = absurd (omega arith)

chosen {ℓ κ} :
    {A : Type ℓ} {B : Type κ} (o : Option A) (f : A → B) (b : B)
    → ◌≡◌ {A = Outcome B} (elim o [ none ↦ failed | some a ↦ ok (f a) ]) (ok b)
    → (a : A) × (o ≡ some a) × (b ≡ f a)
chosen none f b h = cc
chosen (some a) f b h = (a, refl, cc)

-- What a success of each function rests on.
composed :
    (tk col c : ℕ)
    → compose_coded_index tk col ≡ ok c
    → (e : CodedIndexEntry) × (entry_of col ≡ ok e)
      × (i : ℕ) × (find_table (extract_token_type tk) e.lookup 0 ≡ some i)
      × (c ≡ bit_or (rid_from_token tk * 2 ^ e.bit_encoding_size % 2 ^ 32) i)
unfolding compose_coded_index
composed tk col c h =
    let (e, pe, h') = >>=-eq-ok (entry_of col) _ h in
    let (i, pi, pc) =
      chosen (find_table (extract_token_type tk) e.lookup 0)
        (λ i. bit_or (rid_from_token tk * 2 ^ e.bit_encoding_size % 2 ^ 32) i) c h' in
    (e, pe, i, pi, pc)

decomposed :
    (c col t row : ℕ)
    → decompose_coded_index c col ≡ ok (t, row)
    → (e : CodedIndexEntry) × (entry_of col ≡ ok e)
      × (get_elem? e.lookup (bit_and c (2 ^ e.bit_encoding_size - 1)) ≡ some t)
      × (row ≡ c / 2 ^ e.bit_encoding_size)
unfolding decompose_coded_index
decomposed c col t row h =
    let (e, pe, h') = >>=-eq-ok (entry_of col) _ h in
    let (t', pt, pc) =
      chosen (get_elem? e.lookup (bit_and c (2 ^ e.bit_encoding_size - 1)))
        (λ t. (t, c / 2 ^ e.bit_encoding_size)) (t, row) h' in
    (e, pe, ground (arith, pt, pc), ground (arith, pc))

fits-parts :
    (e : CodedIndexEntry)
    → fits e ≡ true
    → (length e.lookup ≤ 2 ^ e.bit_encoding_size)
      × (e.bit_encoding_size ≤ 5)
      × (distinct e.lookup ≡ true)
unfolding fits
fits-parts e h = ground arith

distinct-lt :
    (ts : List ℕ) (j t : ℕ)
    → distinct ts ≡ true
    → get_elem? ts j ≡ some t
    → t ≢ mdtid_unused
    → t < 56
unfolding distinct
distinct-lt [] j t d h u = cc
distinct-lt (x ∷ ts) zero t d h u = ground arith
distinct-lt (x ∷ ts) (suc j) t d h u = distinct-lt ts j t (ground arith) h u

get_elem?-lt {ℓ} :
    {A : Type ℓ} (xs : List A) (i : ℕ) {x : A} → get_elem? xs i ≡ some x → i < length xs
get_elem?-lt [] i h = cc
get_elem?-lt (y ∷ xs) zero h = omega arith
get_elem?-lt (y ∷ xs) (suc i) h = omega (arith, get_elem?-lt xs i h)

module _ (col : ℕ) (e : CodedIndexEntry) (found : entry_of col ≡ ok e) where
  parts :
      (length e.lookup ≤ 2 ^ e.bit_encoding_size)
      × (e.bit_encoding_size ≤ 5)
      × (distinct e.lookup ≡ true)
  parts = fits-parts e (entry-fits col e found)

  decompose_at :
      (row code t : ℕ)
      → get_elem? e.lookup code ≡ some t
      → decompose_coded_index (row * 2 ^ e.bit_encoding_size + code) col ≡ ok (t, row)
  unfolding decompose_coded_index
  decompose_at row code t h =
      let small : code < 2 ^ e.bit_encoding_size =
        omega (arith, parts, get_elem?-lt e.lookup code h) in
      ground (
        arith,
        low_field e.bit_encoding_size row code small,
        high_field e.bit_encoding_size row code small,
      )

  joined :
      (row i : ℕ)
      → row < 2 ^ 24
      → i < length e.lookup
      → bit_or (row * 2 ^ e.bit_encoding_size % 2 ^ 32) i ≡ row * 2 ^ e.bit_encoding_size + i
  joined row i hr hi =
      ground (
        arith,
        parts,
        shifted_fits e.bit_encoding_size row,
        bit_or_fields e.bit_encoding_size row i,
      )

  compose_at :
      (tk i : ℕ)
      → find_table (extract_token_type tk) e.lookup 0 ≡ some i
      → compose_coded_index tk col
        ≡ ok (bit_or (rid_from_token tk * 2 ^ e.bit_encoding_size % 2 ^ 32) i)
  unfolding compose_coded_index
  compose_at tk i h = ground arith

whole : (c row bits : ℕ) → row ≡ c / 2 ^ bits → row * 2 ^ bits + bit_and c (2 ^ bits - 1) ≡ c
whole c row bits h = rw (bit_and_low, h) (omega (arith, div-add-mod c (2 ^ bits)))

-- Composing a token into a coded index and decomposing that gives the token's table and row.
pub decompose-compose :
    (tk col c : ℕ)
    → compose_coded_index tk col ≡ ok c
    → decompose_coded_index c col ≡ ok (extract_token_type tk, rid_from_token tk)
decompose-compose tk col c h =
    let (e, found, i, pi, pc) = composed tk col c h in
    let (k, ik, lt, at) = find_table_found (extract_token_type tk) e.lookup 0 i pi in
    let same : i ≡ k = omega arith in
    rw (pc, same, joined col e found (rid_from_token tk) k (rid-lt tk) lt)
      (decompose_at col e found (rid_from_token tk) k (extract_token_type tk) at)

-- Decomposing a coded index into a table in use and a row of 24 bits, and composing the token of
-- these, gives the coded index back.
pub compose-decompose :
    (c col t row : ℕ)
    → decompose_coded_index c col ≡ ok (t, row)
    → t ≢ mdtid_unused
    → row < 2 ^ 24
    → compose_coded_index (bit_or (create_token_type t) row) col ≡ ok c
compose-decompose c col t row h used r =
    let (e, found, at, shifted) = decomposed c col t row h in
    let bits : ℕ = e.bit_encoding_size in
    let code : ℕ = bit_and c (2 ^ bits - 1) in
    let tk : ℕ = bit_or (create_token_type t) row in
    let (long, few, once) = parts col e found in
    let lt = distinct-lt e.lookup code t once at used in
    let fields = token_fields t row (omega arith) r in
    let is_type : extract_token_type tk ≡ t = omega (arith, fields, type_mod tk) in
    let is_row : rid_from_token tk ≡ row = omega (arith, fields, rid_mod tk) in
    let place : find_table (extract_token_type tk) e.lookup 0 ≡ some code =
      rw is_type (find_table_at e.lookup 0 code t once used at ∙ ap some (omega arith)) in
    compose_at col e found tk code place
    ∙ ap ok (
        rw is_row (
          joined col e found row code r (get_elem?-lt e.lookup code at) ∙ whole c row bits shifted))
