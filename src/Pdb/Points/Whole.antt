-- ===== src/Pdb/Points/Whole.antt =====
-- What a successful `md_parse_sequence_points` of src/dnmd/pdb_blobs.c has stored.
use dnmd.Base.{ℕ, zero, suc, ◌+◌, ◌*◌, ◌^◌, ◌≤◌, ◌<◌, ◌≡◌, ◌≢◌, arith, refl, sym, ap, subst, ◌∙◌}
use dnmd.Base.{
  List, [], ◌∷◌, length, Option, some, none, Bool, true, false, Bool-cases, inl, inr, ◌==◌,
  if◌then◌else◌, Outcome, ok, failed, fault, ◌>>=◌, guard, >>=-eq-ok, ok-injective,
}
use native.Mathlib.Decide.{ℕ_discrete}
use dnmd.Access.{Mdcursor}
use dnmd.Bytes.{Mdcdata, IsStream, decompress_u32}
use dnmd.Context.{Mdcxt}
use dnmd.Cursors.{cursor_null, cursor_end}
use dnmd.Pdb.{
  BlobResult, mdbpr_success, mdbpr_invalid_argument, Buffer, skip_u32, uint32_max, or_max,
  parse_counted,
}
use dnmd.Pdb.Buffers.{parse_counted-success}
use dnmd.Pdb.Points.{
  SequencePoint, SequencePoints, Running, at_start, parse_record, records_from, num_records_from,
  skip_header, get_num_sequence_points, initial_document, named_document, is_end, before_end,
  parse_points, md_parse_sequence_points, document_column,
}
use dnmd.Pdb.Points.Count.{
  IsRecords, no_record, one_more, skip_record-shorter, num_records_from-IsRecords,
}
use dnmd.Pdb.Points.Records.{parse_record-skip_record}
use dnmd.Pdb.Walk.{skip_u32-Shrinks}
use dnmd.Schema.Details.{Mdtable}
use dnmd.Query.{md_get_column_value_as_cursor}

pub all_read :
    (cxt : Mdcxt) (n : ℕ) (first : Bool) (r : Running) (s : Mdcdata)
    → s.size ≡ 0
    → records_from cxt n first r s ≡ ok ([], s)
unfolding records_from
all_read cxt zero first r s e = refl
all_read cxt (suc n) first r s e = let stop : (s.size == 0) ≡ true = ground arith in rw stop refl

-- The rest of the records, behind the first one.
abbrev pub more :
    Mdcxt → ℕ → (SequencePoint × Running) × Mdcdata → Outcome (List SequencePoint × Mdcdata)
more cxt n one = records_from cxt n false one.0.1 one.1 >>= λ rest. ok (one.0.0 ∷ rest.0, rest.1)

pub next_read :
    (cxt : Mdcxt) (n : ℕ) (first : Bool) (r : Running) (s : Mdcdata)
    → 0 < s.size
    → records_from cxt (suc n) first r s ≡ (parse_record cxt first r s >>= more cxt n)
unfolding records_from
next_read cxt n first r s pos = let on : (s.size == 0) ≡ false = ground arith in rw on refl

records_from-length :
    (cxt : Mdcxt) (n : ℕ) (first : Bool) (r : Running) (s : Mdcdata)
    (points : List SequencePoint × Mdcdata)
    → IsRecords first n s
    → records_from cxt n first r s ≡ ok points
    → length points.0 ≡ n
records_from-length cxt _ first r s points (no_record _ _ e) h =
    ap (λ (p : List SequencePoint × Mdcdata). length p.0)
      (sym (ok-injective (sym (all_read cxt 0 first r s e) ∙ h)))
records_from-length cxt _ first r s points (one_more _ _ s' n pos e is) h =
    let (one, p, q) =
      >>=-eq-ok (parse_record cxt first r s) (more cxt n)
        (sym (next_read cxt n first r s pos) ∙ h) in
    let (rest, p', q') = >>=-eq-ok (records_from cxt n false one.0.1 one.1) _ q in
    let same : s' ≡ one.1 = ok-injective (sym e ∙ parse_record-skip_record cxt first r s one p) in
    let count =
      records_from-length cxt n false one.0.1 s' rest is
        (ap (records_from cxt n false one.0.1) same ∙ p') in
    let all : one.0.0 ∷ rest.0 ≡ points.0 =
      ap (λ (x : List SequencePoint × Mdcdata). x.0) (ok-injective q') in
    ap (length) (sym all) ∙ ap (λ (k : ℕ). suc k) count

initial_document-skip :
    (cxt : Mdcxt) (document : Mdcursor) (s : Mdcdata) (d : Mdcursor × Mdcdata)
    → initial_document cxt document s ≡ ok d
    → (if cursor_null document then skip_u32 s else ok s) ≡ ok d.1
unfolding initial_document
initial_document-skip cxt document s d h = elim (Bool-cases (cursor_null document)) [
  | inl null ↦
      let (a, p, q) = >>=-eq-ok (decompress_u32 s) _ (rw null at h) in
      let (c, p', q') = >>=-eq-ok (named_document cxt a.0) _ q in
      rw (null, p)
        (ap (λ (x : Mdcdata). ok x) (ap (λ (x : Mdcursor × Mdcdata). x.1) (ok-injective q')))
  | inr there ↦ rw there (kept (is_end document) (rw there at h))
]
  where
    kept : (b : Bool) → (if b then failed else ok (document, s)) ≡ ok d → ok s ≡ ok d.1
    kept true k = cc
    kept false k = ap (λ (x : Mdcursor × Mdcdata). ok x.1) (ok-injective k)

-- What the count says of the blob.
counted :
    (o : Outcome Mdcdata) (s1 : Mdcdata) (n : ℕ)
    → o ≡ ok s1
    → IsStream s1
    → s1.size < uint32_max
    → n ≢ uint32_max
    → or_max (o >>= λ s. num_records_from s.size 0 true s) ≡ ok n
    → IsRecords true n s1
counted o s1 n e valid small ne h =
    let walked : num_records_from s1.size 0 true s1 ≡ ok n = found _ (
      ap (λ (x : Outcome Mdcdata). or_max (x >>= λ s. num_records_from s.size 0 true s)) (sym e)
      ∙ h) in
    let (k, same, is) =
      num_records_from-IsRecords s1.size 0 n true s1 valid (omega arith) (omega arith) walked in
    subst (λ (j : ℕ). IsRecords true j s1) (omega arith) is
  where
    found : (o : Outcome ℕ) → or_max o ≡ ok n → o ≡ ok n
    found (ok m) k = k
    found failed k = absurd (ne (sym (ok-injective k)))
    found fault k = cc

-- The parts of a success: the blob behind the header, with the records in it.
pub record Parsed (cxt : Mdcxt) (mdi : Mdcursor) (blob : Mdcdata) (n : ℕ) (points : SequencePoints)
    : Type 0 where
  pub cxt' : Mdcxt
  pub body : Mdcdata
  pub rest : Mdcdata
  pub header : skip_header cxt mdi blob ≡ ok body
  pub read : records_from cxt' n true at_start body ≡ ok (points.records, rest)

parse_points-Parsed :
    (cxt : Mdcxt) (mdi : Mdcursor) (blob : Mdcdata) (n : ℕ) (points : SequencePoints)
    → parse_points cxt mdi blob n ≡ ok points
    → Parsed cxt mdi blob n points
unfolding parse_points skip_header
parse_points-Parsed cxt mdi blob n points h =
    let (a, p1, h1) = >>=-eq-ok (decompress_u32 blob) _ h in
    let (d, p2, h2) = >>=-eq-ok (md_get_column_value_as_cursor cxt mdi document_column) _ h1 in
    let (f, p3, h3) = >>=-eq-ok (initial_document d.1 d.0 a.1) _ h2 in
    let (r, p4, h4) = >>=-eq-ok (records_from d.1 n true at_start f.1) _ h3 in
    let (_, _, h5) = >>=-eq-ok (guard (r.1.size == 0)) _ h4 in
    let same : r.0 ≡ points.records = ap (λ (x : SequencePoints). x.records) (ok-injective h5) in
    record {
      cxt' = d.1;
      body = f.1;
      rest = r.1;
      header = rw (p1, p2) (initial_document-skip d.1 d.0 a.1 f p3);
      read = p4 ∙ ap (λ (x : List SequencePoint). ok (x, r.1)) same;
    }

skip_header-IsStream :
    (cxt : Mdcxt) (mdi : Mdcursor) (blob body : Mdcdata)
    → IsStream blob
    → skip_header cxt mdi blob ≡ ok body
    → (body.size ≤ blob.size) × IsStream body
unfolding skip_header
skip_header-IsStream cxt mdi blob body valid h =
    let (s, p, q) = >>=-eq-ok (skip_u32 blob) _ h in
    let (le, v) = skip_u32-Shrinks blob s valid p in
    let (d, p', q') = >>=-eq-ok (md_get_column_value_as_cursor cxt mdi document_column) _ q in
    let (le', v') = either (cursor_null d.0) s v q' in (omega (arith, le, le'), v')
  where
    either :
        (b : Bool) (s : Mdcdata)
        → IsStream s
        → (if b then skip_u32 s else ok s) ≡ ok body
        → (body.size ≤ s.size) × IsStream body
    either true s v k = skip_u32-Shrinks s body v k
    either false s v k =
        let same : s ≡ body = ok-injective k in
        (omega (arith, ap (λ (x : Mdcdata). x.size) same), subst IsStream same v)

Parsed-length :
    (cxt : Mdcxt) (mdi : Mdcursor) (blob : Mdcdata) (n : ℕ) (points : SequencePoints)
    → IsStream blob
    → blob.size < uint32_max
    → n ≢ uint32_max
    → get_num_sequence_points cxt mdi blob ≡ ok n
    → Parsed cxt mdi blob n points
    → length points.records ≡ n
unfolding get_num_sequence_points
Parsed-length cxt mdi blob n points valid small ne h parsed =
    let (le, v) = skip_header-IsStream cxt mdi blob parsed.body valid parsed.header in
    let is = counted (skip_header cxt mdi blob) parsed.body n parsed.header v (omega arith) ne h in
    records_from-length parsed.cxt' n true at_start parsed.body (points.records, parsed.rest) is
      parsed.read

before_end-success :
    (o : Option Mdtable) (c : Mdcursor) (x : BlobResult SequencePoints) (points : SequencePoints)
    → before_end o c x ≡ mdbpr_success points
    → x ≡ mdbpr_success points
unfolding before_end
before_end-success none c x points h = cc
before_end-success (some t) c x points h = either (cursor_end t c) h
  where
    either :
        (b : Bool)
        → (if b then mdbpr_invalid_argument else x) ≡ mdbpr_success points
        → x ≡ mdbpr_success points
    either true k = cc
    either false k = k

-- The count and the parse, where the call gets that far.
called :
    (cxt : Mdcxt) (mdi : Mdcursor) (blob : Mdcdata) (buffer : Buffer) (points : SequencePoints)
    → md_parse_sequence_points cxt mdi blob buffer ≡ mdbpr_success points
    → parse_counted (get_num_sequence_points cxt mdi blob) buffer 32 40 (parse_points cxt mdi blob)
      ≡ mdbpr_success points
unfolding md_parse_sequence_points
called cxt mdi blob buffer points h = elim (Bool-cases (cursor_null mdi)) [
  | inl null ↦ absurd (refused (rw null at h))
  | inr there ↦ before_end-success mdi.table_of mdi _ points (rw there at h)
]
  where
    refused : mdbpr_invalid_argument ≡ mdbpr_success points → ⊥
    refused k = cc

record_bound : (n : ℕ) (s : Mdcdata) (first : Bool) → IsStream s → IsRecords first n s → n ≤ s.size
record_bound _ s first valid (no_record _ _ e) = omega arith
record_bound _ s first valid (one_more _ _ s' n pos e is) =
    let (lt, v) = skip_record-shorter first s s' valid e in
    omega (arith, lt, record_bound n s' false v is)

-- The count is found to be small enough for the sizes, or to have failed.
count_small :
    (cxt : Mdcxt) (mdi : Mdcursor) (blob : Mdcdata) (n : ℕ)
    → IsStream blob
    → blob.size < uint32_max
    → get_num_sequence_points cxt mdi blob ≡ ok n
    → 32 + n * 40 < 2 ^ 64
unfolding get_num_sequence_points
count_small cxt mdi blob n valid small h = elim (ℕ_discrete n uint32_max) [
  | yes unwalked ↦ omega arith
  | no walked ↦ headed (skip_header cxt mdi blob) refl h walked
]
  where
    headed :
        (o : Outcome Mdcdata)
        → skip_header cxt mdi blob ≡ o
        → or_max (o >>= λ s. num_records_from s.size 0 true s) ≡ ok n
        → n ≢ uint32_max
        → 32 + n * 40 < 2 ^ 64
    headed (ok body) e k ne =
        let (le, v) = skip_header-IsStream cxt mdi blob body valid e in
        omega
          (arith, record_bound n body true v (counted (ok body) body n refl v (omega arith) ne k))
    headed failed e k ne = absurd (ne (sym (ok-injective k)))
    headed fault e k ne = cc

-- A success has a header and records that are parsed.
pub succeeded :
    (cxt : Mdcxt) (mdi : Mdcursor) (blob : Mdcdata) (buffer : Buffer) (points : SequencePoints)
    → IsStream blob
    → blob.size < uint32_max
    → md_parse_sequence_points cxt mdi blob buffer ≡ mdbpr_success points
    → (n : ℕ) × Parsed cxt mdi blob n points
succeeded cxt mdi blob buffer points valid small h =
    let (n, found, ne, given, room, parsed) =
      parse_counted-success (get_num_sequence_points cxt mdi blob) buffer 32 40
        (parse_points cxt mdi blob) points (λ k. count_small cxt mdi blob k valid small)
        (called cxt mdi blob buffer points h) in
    (n, parse_points-Parsed cxt mdi blob n points parsed)

-- Of a blob of less than 2 ^ 32 - 1 bytes, a success has stored as many records as were counted,
-- in a buffer that is given and holds them.
pub md_parse_sequence_points-length :
    (cxt : Mdcxt) (mdi : Mdcursor) (blob : Mdcdata) (buffer : Buffer) (points : SequencePoints)
    → IsStream blob
    → blob.size < uint32_max
    → md_parse_sequence_points cxt mdi blob buffer ≡ mdbpr_success points
    → (get_num_sequence_points cxt mdi blob ≡ ok (length points.records))
      × (buffer.given ≡ true)
      × (32 + length points.records * 40 ≤ buffer.len)
md_parse_sequence_points-length cxt mdi blob buffer points valid small h =
    let (n, found, ne, given, room, parsed) =
      parse_counted-success (get_num_sequence_points cxt mdi blob) buffer 32 40
        (parse_points cxt mdi blob) points (λ k. count_small cxt mdi blob k valid small)
        (called cxt mdi blob buffer points h) in
    let same =
      Parsed-length cxt mdi blob n points valid small ne found
        (parse_points-Parsed cxt mdi blob n points parsed) in
    (found ∙ ap (λ (k : ℕ). ok k) (sym same), given, omega (arith, same, room))
