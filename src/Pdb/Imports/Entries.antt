-- ===== src/Pdb/Imports/Entries.antt =====
-- The entries that `md_parse_imports` of src/dnmd/pdb_blobs.c stores.
use dnmd.Base.{ℕ, suc, ◌+◌, ◌*◌, ◌^◌, ◌≤◌, ◌<◌, ◌≡◌, ◌≢◌, ◌↔◌, arith, refl, sym, ap, subst, ◌∙◌}
use dnmd.Base.{
  List, [], ◌∷◌, length, some, Bool, true, false, Outcome, ok, ◌>>=◌, >>=-eq-ok, ok-injective,
}
use dnmd.Bytes.{Mdcdata, IsStream}
use dnmd.Context.{Mdcxt}
use dnmd.Pdb.{mdbpr_success, Buffer, uint32_max}
use native.Mathlib.Decide.{ℕ_discrete}
use dnmd.Pdb.Buffers.{parse_counted-success, fills}
use dnmd.Pdb.Imports.{
  Import, skip_import, parse_import, imports_from, get_num_imports, md_parse_imports,
}
use dnmd.Pdb.Imports.{}
use dnmd.Pdb.Imports.Count.{
  IsImports, no_import, one_more, skip_import-shorter, get_num_imports-IsImports,
}
use dnmd.Pdb.Imports.Format.{IsField, IsImport, IsNumber, IsImportBytes}
use dnmd.Pdb.Imports.Layout.Whole.{
  parse_import-IsImport, IsImport-parse_import, IsImportBytes-skip_import,
}

IsField-IsNumber {ℓ} :
    {A : Type ℓ} (b : Bool) (blank : A) (decode : ℕ → Outcome A) (a : A) (s s' : Mdcdata)
    → IsField b blank decode a s s'
    → IsNumber b s s'
IsField-IsNumber true blank decode a s s' (raw, e, f) = (raw, e)
IsField-IsNumber false blank decode a s s' (e, f) = f

-- An import takes the bytes of an import.
IsImport-IsImportBytes :
    (cxt : Mdcxt) (i : Import) (s s' : Mdcdata) → IsImport cxt i s s' → IsImportBytes s s'
IsImport-IsImportBytes cxt i s s' is = record {
  kind = i.kind;
  fields = is.fields;
  known = is.known;
  behind_kind = is.behind_kind;
  behind_alias = is.behind_alias;
  behind_assembly = is.behind_assembly;
  behind_namespace = is.behind_namespace;
  kind_read = is.kind_read;
  alias_read = IsField-IsNumber is.fields.alias _ _ _ _ _ is.alias_read;
  assembly_read = IsField-IsNumber is.fields.assembly _ _ _ _ _ is.assembly_read;
  namespace_read = IsField-IsNumber is.fields.target_namespace _ _ _ _ _ is.namespace_read;
  type_read = IsField-IsNumber is.fields.target_type _ _ _ _ _ is.type_read;
}

-- An import that is parsed takes the bytes that the count takes for it.
pub parse_import-skip_import :
    (cxt : Mdcxt) (s s' : Mdcdata) (i : Import)
    → parse_import cxt s ≡ ok (i, s')
    → skip_import s ≡ ok s'
parse_import-skip_import cxt s s' i h =
    IsImportBytes-skip_import s s'
      (IsImport-IsImportBytes cxt i s s' (parse_import-IsImport cxt s s' i h))

-- The blob is these imports of the format, one behind the other.
pub data Parses (cxt : Mdcxt) : List Import → Mdcdata → Type 0 where
  parsed_all : (s : Mdcdata) → s.size ≡ 0 → Parses cxt [] s
  parsed_one :
      (s s' : Mdcdata) (i : Import) (entries : List Import)
      → 0 < s.size
      → IsImport cxt i s s'
      → Parses cxt entries s'
      → Parses cxt (i ∷ entries) s

Parses-IsImports :
    {cxt : Mdcxt} {entries : List Import} {s : Mdcdata}
    → Parses cxt entries s
    → IsImports (length entries) s
Parses-IsImports (parsed_all s e) = no_import s e
Parses-IsImports {cxt} (parsed_one s s' i entries pos e rest) =
    one_more s s' (length entries) pos (IsImport-IsImportBytes cxt i s s' e) (Parses-IsImports rest)

IsImports-Parses :
    (cxt : Mdcxt) (n : ℕ) (s : Mdcdata) (entries : List Import) (rest : Mdcdata)
    → IsImports n s
    → imports_from cxt n s ≡ ok (entries, rest)
    → Parses cxt entries s × (length entries ≡ n)
unfolding imports_from
IsImports-Parses cxt _ s entries rest (no_import _ e) h =
    let none : [] ≡ entries = ap (λ (r : List Import × Mdcdata). r.0) (ok-injective h) in
    (subst (λ (es : List Import). Parses cxt es s) none (parsed_all s e), ap (length) (sym none))
IsImports-Parses cxt _ s entries rest (one_more _ s' n pos bytes is) h =
    let e = IsImportBytes-skip_import s s' bytes in
    let (r, p, q) = >>=-eq-ok (parse_import cxt s) _ h in
    let (rs, p', q') = >>=-eq-ok (imports_from cxt n r.1) _ q in
    let same : s' ≡ r.1 = ok-injective (sym e ∙ parse_import-skip_import cxt s r.1 r.0 p) in
    let (parses, count) =
      IsImports-Parses cxt n s' rs.0 rs.1 is (ap (imports_from cxt n) same ∙ p') in
    let all : r.0 ∷ rs.0 ≡ entries = ap (λ (x : List Import × Mdcdata). x.0) (ok-injective q') in
    (
      subst (λ (es : List Import). Parses cxt es s) all
          (parsed_one s s' r.0 rs.0 pos
            (parse_import-IsImport cxt s s' r.0 (p ∙ ap (λ (x : Mdcdata). ok (r.0, x)) (sym same)))
            parses),
      ap (length) (sym all) ∙ ap (λ (k : ℕ). suc k) count,
    )

Parses-imports_from :
    (cxt : Mdcxt) (s : Mdcdata) (entries : List Import)
    → Parses cxt entries s
    → (rest : Mdcdata) × (imports_from cxt (length entries) s ≡ ok (entries, rest))
unfolding imports_from
Parses-imports_from cxt s _ (parsed_all _ e) = (s, refl)
Parses-imports_from cxt s _ (parsed_one _ s' i entries pos is rest) =
    let e = IsImport-parse_import cxt s s' i is in
    let (end, h) = Parses-imports_from cxt s' entries rest in (end, rw (e, h) refl)

IsImports-size : (n : ℕ) (s : Mdcdata) → IsStream s → IsImports n s → n ≤ s.size
IsImports-size _ s valid (no_import _ e) = omega arith
IsImports-size _ s valid (one_more _ s' n pos e is) =
    let (lt, v) = skip_import-shorter s s' valid (IsImportBytes-skip_import s s' e) in
    omega (arith, lt, IsImports-size n s' v is)

size_small :
    (s : Mdcdata) (n : ℕ)
    → IsStream s
    → s.size < uint32_max
    → get_num_imports s ≡ ok n
    → 8 + n * 40 < 2 ^ 64
size_small s n valid small e = elim (ℕ_discrete n uint32_max) [
  | yes unwalked ↦ omega arith
  | no walked ↦
      omega
        (arith, IsImports-size n s valid ((get_num_imports-IsImports s n valid small walked).0 e))
]

-- Of a blob of less than 2 ^ 32 - 1 bytes, the call succeeds with some entries exactly where the
-- blob is these imports of the format, with nothing behind them, and where the buffer is given and holds them.
pub md_parse_imports-Parses :
    (cxt : Mdcxt) (s : Mdcdata) (buffer : Buffer) (entries : List Import)
    → IsStream s
    → s.size < uint32_max
    → (md_parse_imports (some cxt) s buffer ≡ mdbpr_success entries)
      ↔ (Parses cxt entries s × (buffer.given ≡ true) × (8 + length entries * 40 ≤ buffer.len))
unfolding md_parse_imports
md_parse_imports-Parses cxt s buffer entries valid small = (
  λ h.
      let (n, counted, ne, given, room, parsed) =
        parse_counted-success (get_num_imports s) buffer 8 40 _ entries
          (λ k. size_small s k valid small) h in
      let (r, p, q) = >>=-eq-ok (imports_from cxt n s) _ parsed in
      let is = (get_num_imports-IsImports s n valid small ne).0 counted in
      let (parses, count) = IsImports-Parses cxt n s r.0 r.1 is p in
      let same : r.0 ≡ entries = ok-injective q in
      (
        subst (λ (es : List Import). Parses cxt es s) same parses,
        given,
        omega (arith, ap (length {A = Import}) same, count, room),
      ),
  λ (parses, given, room).
      let is = Parses-IsImports parses in
      let few = IsImports-size (length entries) s valid is in
      let ne : length entries ≢ uint32_max = λ e. omega arith in
      let counted = (get_num_imports-IsImports s (length entries) valid small ne).1 is in
      let (rest, parsed) = Parses-imports_from cxt s entries parses in
      rw
        (
          counted,
          fills buffer 8 40 (length entries) (omega arith)
              (λ n. imports_from cxt n s >>= λ r. ok r.0) ne given room,
          parsed,
        )
        refl,
)
