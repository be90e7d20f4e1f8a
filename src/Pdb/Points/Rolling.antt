-- ===== src/Pdb/Points/Rolling.antt =====
-- The rolling IL offsets that `md_parse_sequence_points` of src/dnmd/pdb_blobs.c stores.
use dnmd.Base.{ℕ, zero, suc, ◌+◌, ◌-◌, ◌≤◌, ◌<◌, ◌≡◌, arith, refl, sym, ap, subst, ◌∙◌}
use dnmd.Base.{
  List, [], ◌∷◌, some, Bool, true, false, Bool-cases, inl, inr, not, ◌==◌, ◌&&◌, leb, ok, guard,
  >>=-eq-ok, ok-injective,
}
use native.Mathlib.Decide.{dec_lt}
use dnmd.Access.{Mdcursor}
use dnmd.Bytes.{Mdcdata, IsStream, decompress_u32, decompress_i32}
use dnmd.Context.{Mdcxt}
use dnmd.Pdb.{mdbpr_success, Buffer, uint32_max}
use dnmd.Pdb.Points.{
  SequencePoint, SequencePoints, mdsp_document_record, mdsp_sequence_point_record,
  mdsp_hidden_sequence_point_record, Running, at_start, read_delta_columns, read_start,
  read_first_start, read_next_start, parse_document, parse_point, store_point, parse_record,
  records_from, document_token, md_parse_sequence_points,
}
use dnmd.Pdb.Points.Whole.{all_read, next_read, more, succeeded}
use dnmd.Query.{md_token_to_cursor}

-- The step from one running offset to the next, with the record that it stores.
abbrev Moves : ℕ → SequencePoint → ℕ → Type 0
Moves lo (mdsp_document_record d) lo' = lo' ≡ lo
Moves lo (mdsp_sequence_point_record il _ _ _ _) lo' = (lo ≤ il) × (il ≤ uint32_max) × (lo' ≡ il)
Moves lo (mdsp_hidden_sequence_point_record il) lo' = (lo ≤ il) × (il ≤ uint32_max) × (lo' ≡ il)

-- The offsets of the points, from `lo` on, do not descend and are of 32 bits.
abbrev pub Rolling : ℕ → List SequencePoint → Type 0
Rolling lo [] = Unit {0}
Rolling lo (mdsp_document_record d ∷ points) = Rolling lo points
Rolling lo (mdsp_sequence_point_record il _ _ _ _ ∷ points) =
    (lo ≤ il) × (il ≤ uint32_max) × Rolling il points
Rolling lo (mdsp_hidden_sequence_point_record il ∷ points) =
    (lo ≤ il) × (il ≤ uint32_max) × Rolling il points

read_start-il :
    (r : Running) (s : Mdcdata) (m : Running × Mdcdata)
    → read_start r s ≡ ok m
    → m.0.running_il ≡ r.running_il
unfolding read_first_start read_next_start
read_start-il r s m h = elim (Bool-cases (not r.seen)) [
  | inl first ↦ first_start (rw first at h)
  | inr next ↦ next_start (rw next at h)
]
  where
    first_start : read_first_start r s ≡ ok m → m.0.running_il ≡ r.running_il
    first_start k =
        let (a, p, q) = >>=-eq-ok (decompress_u32 s) _ k in
        let (b, p', q') = >>=-eq-ok (decompress_u32 a.1) _ q in
        ap (λ (x : Running × Mdcdata). x.0.running_il) (sym (ok-injective q'))

    next_start : read_next_start r s ≡ ok m → m.0.running_il ≡ r.running_il
    next_start k =
        let (a, p, q) = >>=-eq-ok (decompress_i32 s) _ k in
        let (b, p', q') = >>=-eq-ok (decompress_i32 a.1) _ q in
        ap (λ (x : Running × Mdcdata). x.0.running_il) (sym (ok-injective q'))

-- A record, the running sums behind it, and the offset before it.
abbrev MovesTo : ℕ → (SequencePoint × Running) × Mdcdata → Type 0
MovesTo lo e = Moves lo e.0.0 e.0.1.running_il

store_point-MovesTo :
    (lo dl dc : ℕ) (r : Running) (s : Mdcdata) (e : (SequencePoint × Running) × Mdcdata)
    → lo ≤ r.running_il
    → r.running_il ≤ uint32_max
    → store_point dl dc r s ≡ ok e
    → MovesTo lo e
unfolding store_point
store_point-MovesTo lo dl dc r s e le max h = elim (Bool-cases (dl == 0 && dc == 0)) [
  | inl hidden ↦ subst (MovesTo lo) (ok-injective (rw hidden at h)) (le, max, refl)
  | inr shown ↦
      let (m, p, q) = >>=-eq-ok (read_start r s) _ (rw shown at h) in
      let same = read_start-il r s m p in
      subst (MovesTo lo) (ok-injective q) (omega (arith, same, le), omega (arith, same, max), refl)
]

allowed : (b : Bool) → guard b ≡ ok tt → b ≡ true
allowed true h = refl
allowed false h = cc

parse_record-MovesTo :
    (cxt : Mdcxt) (first : Bool) (r : Running) (s : Mdcdata)
    (e : (SequencePoint × Running) × Mdcdata)
    → r.running_il ≤ uint32_max
    → parse_record cxt first r s ≡ ok e
    → MovesTo r.running_il e
unfolding parse_record parse_document parse_point
parse_record-MovesTo cxt first r s e max h =
    let (a, p, q) = >>=-eq-ok (decompress_u32 s) _ h in
    elim (Bool-cases (not first && a.0 == 0)) [
      | inl document ↦ documented a.1 (rw document at q)
      | inr point ↦ pointed a.0 a.1 (rw point at q)
    ]
  where
    documented : (s1 : Mdcdata) → parse_document cxt r s1 ≡ ok e → MovesTo r.running_il e
    documented s1 k =
        let (a, p, q) = >>=-eq-ok (decompress_u32 s1) _ k in
        let (d, p', q') = >>=-eq-ok (md_token_to_cursor (some cxt) (document_token a.0)) _ q in
        subst (MovesTo r.running_il) (ok-injective q') refl

    pointed : (il : ℕ) (s1 : Mdcdata) → parse_point il r s1 ≡ ok e → MovesTo r.running_il e
    pointed il s1 k =
        let (u, p0, k0) = >>=-eq-ok (guard (leb il (uint32_max - r.running_il))) _ k in
        let room = allowed (leb il (uint32_max - r.running_il)) p0 in
        let (a, p, q) = >>=-eq-ok (decompress_u32 s1) _ k0 in
        let (b, p', q') = >>=-eq-ok (read_delta_columns a.0 a.1) _ q in
        store_point-MovesTo r.running_il a.0 b.0 (record r { running_il = r.running_il + il }) b.1 e
          (omega arith) (ground arith) q'

MovesTo-Rolling :
    (lo : ℕ) (point : SequencePoint) (lo' : ℕ) (points : List SequencePoint)
    → Moves lo point lo'
    → Rolling lo' points
    → Rolling lo (point ∷ points)
MovesTo-Rolling lo (mdsp_document_record d) lo' points e rolling =
    subst (λ (l : ℕ). Rolling l points) e rolling
MovesTo-Rolling lo (mdsp_sequence_point_record il _ _ _ _) lo' points (le, max, e) rolling =
    (le, max, subst (λ (l : ℕ). Rolling l points) e rolling)
MovesTo-Rolling lo (mdsp_hidden_sequence_point_record il) lo' points (le, max, e) rolling =
    (le, max, subst (λ (l : ℕ). Rolling l points) e rolling)

Moves-max :
    (lo : ℕ) (point : SequencePoint) (lo' : ℕ)
    → lo ≤ uint32_max
    → Moves lo point lo'
    → lo' ≤ uint32_max
Moves-max lo (mdsp_document_record d) lo' max e = omega arith
Moves-max lo (mdsp_sequence_point_record il _ _ _ _) lo' max (_, le, e) = omega arith
Moves-max lo (mdsp_hidden_sequence_point_record il) lo' max (_, le, e) = omega arith

first_of : {x y : List SequencePoint × Mdcdata} → ok x ≡ ok y → x.0 ≡ y.0
first_of h = ap (λ (p : List SequencePoint × Mdcdata). p.0) (ok-injective h)

records_from-Rolling :
    (cxt : Mdcxt) (n : ℕ) (first : Bool) (r : Running) (s : Mdcdata)
    (points : List SequencePoint × Mdcdata)
    → r.running_il ≤ uint32_max
    → records_from cxt n first r s ≡ ok points
    → Rolling r.running_il points.0
unfolding records_from
records_from-Rolling cxt zero first r s points max h = subst (Rolling r.running_il) (first_of h) tt
records_from-Rolling cxt (suc n) first r s points max h = elim (dec_lt 0 s.size) [
  | no empty ↦
      subst (Rolling r.running_il)
        (first_of (sym (all_read cxt (suc n) first r s (omega arith)) ∙ h)) tt
  | yes left ↦
      let (one, p, q) =
        >>=-eq-ok (parse_record cxt first r s) (more cxt n)
          (sym (next_read cxt n first r s left) ∙ h) in
      let (rest, p', q') = >>=-eq-ok (records_from cxt n false one.0.1 one.1) _ q in
      let to = parse_record-MovesTo cxt first r s one max p in
      let rolling =
        records_from-Rolling cxt n false one.0.1 one.1 rest
          (Moves-max r.running_il one.0.0 one.0.1.running_il max to) p' in
      subst (Rolling r.running_il) (first_of q')
        (MovesTo-Rolling r.running_il one.0.0 one.0.1.running_il rest.0 to rolling)
]

-- Of a blob of less than 2 ^ 32 - 1 bytes, a success has stored rolling IL offsets that do not
-- descend from record to record and that never wrap around.
pub md_parse_sequence_points-Rolling :
    (cxt : Mdcxt) (mdi : Mdcursor) (blob : Mdcdata) (buffer : Buffer) (points : SequencePoints)
    → IsStream blob
    → blob.size < uint32_max
    → md_parse_sequence_points cxt mdi blob buffer ≡ mdbpr_success points
    → Rolling 0 points.records
md_parse_sequence_points-Rolling cxt mdi blob buffer points valid small h =
    let (n, parsed) = succeeded cxt mdi blob buffer points valid small h in
    records_from-Rolling parsed.cxt' n true at_start parsed.body (points.records, parsed.rest)
      (omega arith) parsed.read
