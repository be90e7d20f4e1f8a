-- ===== src/Pdb/Imports/Layout/Whole.antt =====
-- The imports that src/dnmd/pdb_blobs.c parses and counts are those of the format.
use dnmd.Base.{ℕ, ◌≡◌, refl, sym, ap, subst, ◌∙◌}
use dnmd.Base.{Option, none, some, Bool, true, false, Outcome, ok, ◌>>=◌, >>=-eq-ok, ok-injective}
use dnmd.Bytes.{Mdcdata, read_u8, decompress_u32}
use dnmd.Context.{Mdcxt}
use dnmd.Heaps.{try_get_blob}
use dnmd.Pdb.Imports.{Import, no_blob, zeroed, skip_import, parse_import}
use dnmd.Pdb.Imports.Format.{
  Layout, layout, type_token, assembly_token, IsImport, IsNumber, IsImportBytes,
}
use dnmd.Pdb.Imports.Layout.{
  skip, skip_layout, skip_fields-layout, keep, put_alias, put_assembly, put_namespace, put_type,
  parse_layout, parse_fields-layout, keep-IsField, IsField-keep,
}

-- The steps of a chain of four.
chain :
    {X : Type 0} (m : Outcome X) (f g h : X → Outcome X) (e : X)
    → (m >>= f >>= g >>= h) ≡ ok e
    → (e1 : X) × (e2 : X) × (e3 : X) × (m ≡ ok e1) × (f e1 ≡ ok e2) × (g e2 ≡ ok e3) × (h e3 ≡ ok e)
chain m f g h e p =
    let (e3, p3, q4) = >>=-eq-ok (m >>= f >>= g) h p in
    let (e2, p2, q3) = >>=-eq-ok (m >>= f) g p3 in
    let (e1, q1, q2) = >>=-eq-ok m f p2 in (e1, e2, e3, q1, q2, q3, q4)

module _ (cxt : Mdcxt) where
  layout-IsImport :
      (l : Layout) (kind : ℕ) (s s0 : Mdcdata) (e : Import × Mdcdata)
      → layout kind ≡ some l
      → read_u8 s ≡ ok (kind, s0)
      → parse_layout cxt (some l) (zeroed kind, s0) ≡ ok e
      → IsImport cxt e.0 s e.1
  layout-IsImport l kind s s0 e known read h =
      let (e1, e2, e3, h1, h2, h3, h4) =
        chain (keep l.alias put_alias (try_get_blob cxt) (zeroed kind, s0))
          (keep l.assembly put_assembly assembly_token)
          (keep l.target_namespace put_namespace (try_get_blob cxt))
          (keep l.target_type put_type type_token) e h in
      let (a, p1, q1) =
        keep-IsField no_blob put_alias (try_get_blob cxt) (zeroed kind) refl l.alias s0 e1 h1 in
      let (b, p2, r2) =
        keep-IsField 0 put_assembly assembly_token e1.0 (ap (put_assembly 0) q1 ∙ sym q1) l.assembly
          e1.1 e2 h2 in
      let q2 = r2 ∙ ap (put_assembly b) q1 in
      let (c, p3, r3) =
        keep-IsField no_blob put_namespace (try_get_blob cxt) e2.0
          (ap (put_namespace no_blob) q2 ∙ sym q2) l.target_namespace e2.1 e3 h3 in
      let q3 = r3 ∙ ap (put_namespace c) q2 in
      let (d, p4, r4) =
        keep-IsField 0 put_type type_token e3.0 (ap (put_type 0) q3 ∙ sym q3) l.target_type e3.1 e
          h4 in
      let q4 = r4 ∙ ap (put_type d) q3 in
      subst (λ (i : Import). IsImport cxt i s e.1) (sym q4)
        (record {
          fields = l;
          known = known;
          behind_kind = s0;
          behind_alias = e1.1;
          behind_assembly = e2.1;
          behind_namespace = e3.1;
          kind_read = read;
          alias_read = p1;
          assembly_read = p2;
          namespace_read = p3;
          type_read = p4;
        })

  parse_layout-IsImport :
      (o : Option Layout) (kind : ℕ) (s s0 : Mdcdata) (e : Import × Mdcdata)
      → layout kind ≡ o
      → read_u8 s ≡ ok (kind, s0)
      → parse_layout cxt o (zeroed kind, s0) ≡ ok e
      → IsImport cxt e.0 s e.1
  parse_layout-IsImport none kind s s0 e known read h = cc
  parse_layout-IsImport (some l) kind s s0 e known read h =
      layout-IsImport l kind s s0 e known read h

  pub parse_import-IsImport :
      (s s' : Mdcdata) (i : Import) → parse_import cxt s ≡ ok (i, s') → IsImport cxt i s s'
  unfolding parse_import
  parse_import-IsImport s s' i h =
      let (r, p, q) = >>=-eq-ok (read_u8 s) _ h in
      parse_layout-IsImport (layout r.0) r.0 s r.1 (i, s') refl p
        (sym (parse_fields-layout cxt r.0 (zeroed r.0, r.1)) ∙ q)

  pub IsImport-parse_import :
      (s s' : Mdcdata) (i : Import) → IsImport cxt i s s' → parse_import cxt s ≡ ok (i, s')
  unfolding parse_import
  IsImport-parse_import s s' i is =
      let e1 =
        IsField-keep no_blob put_alias (try_get_blob cxt) (zeroed i.kind) refl is.fields.alias
          i.alias is.behind_kind is.behind_alias is.alias_read in
      let i1 : Import = put_alias i.alias (zeroed i.kind) in
      let e2 =
        IsField-keep 0 put_assembly assembly_token i1 refl is.fields.assembly i.assembly
          is.behind_alias is.behind_assembly is.assembly_read in
      let i2 : Import = put_assembly i.assembly i1 in
      let e3 =
        IsField-keep no_blob put_namespace (try_get_blob cxt) i2 refl is.fields.target_namespace
          i.target_namespace is.behind_assembly is.behind_namespace is.namespace_read in
      let i3 : Import = put_namespace i.target_namespace i2 in
      let e4 =
        IsField-keep 0 put_type type_token i3 refl is.fields.target_type i.target_type
          is.behind_namespace s' is.type_read in
      rw
        (
          is.kind_read,
          parse_fields-layout cxt i.kind (zeroed i.kind, is.behind_kind),
          is.known,
          e1,
          e2,
          e3,
          e4,
        )
        refl

skip-IsNumber : (b : Bool) (s s' : Mdcdata) → skip b s ≡ ok s' → IsNumber b s s'
skip-IsNumber true s s' h =
    let (r, p, q) = >>=-eq-ok (decompress_u32 s) _ h in
    (r.0, p ∙ ap (λ (x : Mdcdata). ok (r.0, x)) (ok-injective q))
skip-IsNumber false s s' h = ok-injective h

IsNumber-skip : (b : Bool) (s s' : Mdcdata) → IsNumber b s s' → skip b s ≡ ok s'
IsNumber-skip true s s' (raw, e) = rw e refl
IsNumber-skip false s s' e = ap (λ (x : Mdcdata). ok x) e

skip_layout-IsImportBytes :
    (o : Option Layout) (kind : ℕ) (s s0 s' : Mdcdata)
    → layout kind ≡ o
    → read_u8 s ≡ ok (kind, s0)
    → skip_layout o s0 ≡ ok s'
    → IsImportBytes s s'
skip_layout-IsImportBytes none kind s s0 s' known read h = cc
skip_layout-IsImportBytes (some l) kind s s0 s' known read h =
    let (s1, s2, s3, h1, h2, h3, h4) =
      chain (skip l.alias s0) (skip l.assembly) (skip l.target_namespace) (skip l.target_type) s'
        h in
    record {
      kind = kind;
      fields = l;
      known = known;
      behind_kind = s0;
      behind_alias = s1;
      behind_assembly = s2;
      behind_namespace = s3;
      kind_read = read;
      alias_read = skip-IsNumber l.alias s0 s1 h1;
      assembly_read = skip-IsNumber l.assembly s1 s2 h2;
      namespace_read = skip-IsNumber l.target_namespace s2 s3 h3;
      type_read = skip-IsNumber l.target_type s3 s' h4;
    }

pub skip_import-IsImportBytes : (s s' : Mdcdata) → skip_import s ≡ ok s' → IsImportBytes s s'
unfolding skip_import
skip_import-IsImportBytes s s' h =
    let (r, p, q) = >>=-eq-ok (read_u8 s) _ h in
    skip_layout-IsImportBytes (layout r.0) r.0 s r.1 s' refl p
      (sym (skip_fields-layout r.0 r.1) ∙ q)

pub IsImportBytes-skip_import : (s s' : Mdcdata) → IsImportBytes s s' → skip_import s ≡ ok s'
unfolding skip_import
IsImportBytes-skip_import s s' is =
    rw
      (
        is.kind_read,
        skip_fields-layout is.kind is.behind_kind,
        is.known,
        IsNumber-skip is.fields.alias is.behind_kind is.behind_alias is.alias_read,
        IsNumber-skip is.fields.assembly is.behind_alias is.behind_assembly is.assembly_read,
        IsNumber-skip is.fields.target_namespace is.behind_assembly is.behind_namespace
            is.namespace_read,
        IsNumber-skip is.fields.target_type is.behind_namespace s' is.type_read,
      )
      refl
