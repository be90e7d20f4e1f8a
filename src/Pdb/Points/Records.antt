-- ===== src/Pdb/Points/Records.antt =====
-- The records that `md_parse_sequence_points` of src/dnmd/pdb_blobs.c stores are those that the count
-- counts.
use dnmd.Base.{ℕ, ◌+◌, ◌-◌, ◌≡◌, arith, refl, ap, bit_and, ◌/◌, ◌∙◌}
use dnmd.Base.{
  some, Bool, Bool-cases, inl, inr, not, ◌==◌, ◌!=◌, ◌||◌, ◌&&◌, leb, if◌then◌else◌, Outcome, ok,
  ◌>>=◌, guard, >>=-eq-ok, ok-injective,
}
use dnmd.Bytes.{Mdcdata, decompress_u32, decompress_i32, sign_extend}
use dnmd.Context.{Mdcxt}
use dnmd.Pdb.{skip_u32, uint32_max}
use dnmd.Pdb.Points.{
  SequencePoint, Running, skip_record, read_delta_columns, read_first_start, read_next_start,
  read_start, parse_document, parse_point, store_point, parse_record, document_token,
}
use dnmd.Query.{md_token_to_cursor}

-- A signed number is read from the bytes of an unsigned one.
decompress_i32-bytes :
    (s : Mdcdata) (r : ℕ × Mdcdata)
    → decompress_i32 s ≡ ok r
    → (u : ℕ × Mdcdata) × (decompress_u32 s ≡ ok u) × (u.1 ≡ r.1)
unfolding decompress_i32
decompress_i32-bytes s r h =
    let (u, p, q) = >>=-eq-ok (decompress_u32 s) _ h in
    let (v, p', q') =
      >>=-eq-ok
        (if bit_and u.0 1 != 0 then sign_extend (s.size - u.1.size) (u.0 / 2) else ok (u.0 / 2)) _
        q in
    (u, p, ap (λ (x : ℕ × Mdcdata). x.1) (ok-injective q'))

two_skips :
    (s m s' : Mdcdata) (a b : ℕ)
    → decompress_u32 s ≡ ok (a, m)
    → decompress_u32 m ≡ ok (b, s')
    → (skip_u32 s >>= skip_u32) ≡ ok s'
two_skips s m s' a b e f = rw (e, f) refl

read_start-skips :
    (r : Running) (s : Mdcdata) (r' : Running × Mdcdata)
    → read_start r s ≡ ok r'
    → (skip_u32 s >>= skip_u32) ≡ ok r'.1
unfolding read_first_start read_next_start
read_start-skips r s r' h = elim (Bool-cases (not r.seen)) [
  | inl first ↦ first_start (rw first at h)
  | inr next ↦ next_start (rw next at h)
]
  where
    first_start : read_first_start r s ≡ ok r' → (skip_u32 s >>= skip_u32) ≡ ok r'.1
    first_start h =
        let (a, p, q) = >>=-eq-ok (decompress_u32 s) _ h in
        let (b, p', q') = >>=-eq-ok (decompress_u32 a.1) _ q in
        two_skips s a.1 r'.1 a.0 b.0 p (
          p'
          ∙ ap (λ (m : Mdcdata). ok (b.0, m))
              (ap (λ (x : Running × Mdcdata). x.1) (ok-injective q')))

    next_start : read_next_start r s ≡ ok r' → (skip_u32 s >>= skip_u32) ≡ ok r'.1
    next_start h =
        let (a, p, q) = >>=-eq-ok (decompress_i32 s) _ h in
        let (b, p', q') = >>=-eq-ok (decompress_i32 a.1) _ q in
        let (u, e, moved) = decompress_i32-bytes s a p in
        let (w, f, moved') = decompress_i32-bytes a.1 b p' in
        let end : w.1 ≡ r'.1 = moved' ∙ ap (λ (x : Running × Mdcdata). x.1) (ok-injective q') in
        two_skips s a.1 r'.1 u.0 w.0 (e ∙ ap (λ (m : Mdcdata). ok (u.0, m)) moved)
          (f ∙ ap (λ (m : Mdcdata). ok (w.0, m)) end)

delta_columns-skip :
    (delta_lines : ℕ) (s : Mdcdata) (b : ℕ × Mdcdata)
    → read_delta_columns delta_lines s ≡ ok b
    → (c : ℕ × Mdcdata) × (decompress_u32 s ≡ ok c)
      × (c.1 ≡ b.1)
      × ((delta_lines != 0 || c.0 != 0) ≡ not (delta_lines == 0 && b.0 == 0))
unfolding read_delta_columns
delta_columns-skip delta_lines s b h = elim (Bool-cases (delta_lines == 0)) [
  | inl zero_lines ↦ (b, rw zero_lines at h, refl, ground arith)
  | inr lines ↦
      let (m, p, q) = >>=-eq-ok (decompress_i32 s) _ (rw lines at h) in
      let (u, e, same) = decompress_i32-bytes s m p in
      let moved : m.1 ≡ b.1 = ap (λ (x : ℕ × Mdcdata). x.1) (ok-injective q) in
      (u, e, same ∙ moved, ground arith)
]

parse_document-skip :
    (cxt : Mdcxt) (r : Running) (s : Mdcdata) (e : (SequencePoint × Running) × Mdcdata)
    → parse_document cxt r s ≡ ok e
    → skip_u32 s ≡ ok e.1
unfolding parse_document
parse_document-skip cxt r s e h =
    let (a, p, q) = >>=-eq-ok (decompress_u32 s) _ h in
    let (d, p', q') = >>=-eq-ok (md_token_to_cursor (some cxt) (document_token a.0)) _ q in
    rw p (
      ap (λ (x : Mdcdata). ok x)
        (ap (λ (x : (SequencePoint × Running) × Mdcdata). x.1) (ok-injective q')))

-- The fields behind the IL offset, the way the count skips them.
abbrev skip_point : Mdcdata → Outcome Mdcdata
skip_point s = do
  (delta_lines, s2) ← decompress_u32 s
  (delta_columns, s3) ← decompress_u32 s2
  if delta_lines != 0 || delta_columns != 0 then skip_u32 s3 >>= skip_u32 else ok s3

store_point-skip :
    (delta_lines delta_columns : ℕ) (r : Running) (s : Mdcdata)
    (e : (SequencePoint × Running) × Mdcdata)
    → store_point delta_lines delta_columns r s ≡ ok e
    → (if not (delta_lines == 0 && delta_columns == 0) then skip_u32 s >>= skip_u32 else ok s)
      ≡ ok e.1
unfolding store_point
store_point-skip delta_lines delta_columns r s e h =
    elim (Bool-cases (delta_lines == 0 && delta_columns == 0)) [
      | inl hidden ↦ rw hidden (
          ap (λ (x : Mdcdata). ok x)
            (ap (λ (x : (SequencePoint × Running) × Mdcdata). x.1) (ok-injective (rw hidden at h))))
      | inr shown ↦
          let (m, p, q) = >>=-eq-ok (read_start r s) _ (rw shown at h) in
          rw shown (
            read_start-skips r s m p
            ∙ ap (λ (x : Mdcdata). ok x)
                (ap (λ (x : (SequencePoint × Running) × Mdcdata). x.1) (ok-injective q)))
    ]

parse_point-skip :
    (il_offset : ℕ) (r : Running) (s : Mdcdata) (e : (SequencePoint × Running) × Mdcdata)
    → parse_point il_offset r s ≡ ok e
    → skip_point s ≡ ok e.1
unfolding parse_point
parse_point-skip il_offset r s e h =
    let (_, _, h0) = >>=-eq-ok (guard (leb il_offset (uint32_max - r.running_il))) _ h in
    let (a, p, q) = >>=-eq-ok (decompress_u32 s) _ h0 in
    let (b, p', q') = >>=-eq-ok (read_delta_columns a.0 a.1) _ q in
    let (c, p'', same, test) = delta_columns-skip a.0 a.1 b p' in
    rw (p, p'', test, same)
      (store_point-skip a.0 b.0 (record r { running_il = r.running_il + il_offset }) b.1 e q')

pub parse_record-skip_record :
    (cxt : Mdcxt) (first : Bool) (r : Running) (s : Mdcdata)
    (e : (SequencePoint × Running) × Mdcdata)
    → parse_record cxt first r s ≡ ok e
    → skip_record first s ≡ ok e.1
unfolding parse_record skip_record
parse_record-skip_record cxt first r s e h =
    let (a, p, q) = >>=-eq-ok (decompress_u32 s) _ h in
    elim (Bool-cases (not first && a.0 == 0)) [
      | inl document ↦ rw (p, document) (parse_document-skip cxt r a.1 e (rw document at q))
      | inr point ↦ rw (p, point) (parse_point-skip a.0 r a.1 e (rw point at q))
    ]
