-- ===== src/Pdb/Imports/Layout.antt =====
-- The two `switch` statements over the kind of an import in src/dnmd/pdb_blobs.c against the format.
use dnmd.Base.{
  ℕ, zero, suc, ◌+◌, ◌*◌, ◌/◌, ◌%◌, ◌^◌, ◌≤◌, ◌<◌, ◌≡◌, ◌≢◌, ◌⊎◌, inl, inr, ◌↔◌, arith, refl, sym,
  ap, subst, ◌∙◌, bit_and, bit_or, bit_and_low,
}
use dnmd.Base.{
  List, [], ◌∷◌, Option, none, some, get_elem?, length, Bool, true, false, ◌==◌, if◌then◌else◌,
  Outcome, ok, failed, fault, ◌>>=◌, >>=-eq-ok, ok-injective,
}
use native.Mathlib.Decide.{ℕ_discrete}
use dnmd.Bytes.{Mdcdata, read_u8, decompress_u32}
use dnmd.Coded.{decompose_coded_index, coded_index_map, entry_of, insert_coded_index}
use dnmd.Flags.{mdtc_idx_coded, mdci_type_def_or_ref}
use dnmd.Context.{Mdcxt}
use dnmd.Heaps.{try_get_blob}
use dnmd.Pdb.{skip_u32}
use dnmd.Pdb.Imports.Format.{
  Layout, layouts, layout, type_token, assembly_token, IsField, IsImport, IsNumber, IsImportBytes,
}
use dnmd.Pdb.Imports.{
  Import, no_blob, zeroed, skip_fields, skip_import, parse_fields, parse_import, read_alias,
  read_assembly, read_target_namespace, read_target_type, decode_type,
}
pub mod Whole

-- The fields that are there, in the order of the format.
abbrev pub skip : Bool → Mdcdata → Outcome Mdcdata
skip true s = skip_u32 s
skip false s = ok s

abbrev pub skip_layout : Option Layout → Mdcdata → Outcome Mdcdata
skip_layout none s = failed
skip_layout (some l) s =
    skip l.alias s >>= skip l.assembly >>= skip l.target_namespace >>= skip l.target_type

not_there : (o : Outcome Mdcdata) → (o >>= skip false) ≡ o
not_there (ok s) = refl
not_there failed = refl
not_there fault = refl

get_elem?-past {ℓ} : {A : Type ℓ} (xs : List A) (i : ℕ) → length xs ≤ i → get_elem? xs i ≡ none
get_elem?-past [] i le = refl
get_elem?-past (x ∷ xs) zero le = absurd (omega arith)
get_elem?-past (x ∷ xs) (suc i) le = get_elem?-past xs i (omega arith)

no_layout : (kind : ℕ) → (kind ≡ 0) ⊎ (10 ≤ kind) → layout kind ≡ none
no_layout zero h = refl
no_layout (suc n) (inl e) = absurd (omega arith)
no_layout (suc n) (inr le) = get_elem?-past layouts n (omega arith)

-- The kinds one by one.
by_kind {ℓ} :
    (P : ℕ → Type ℓ)
    → P 1
    → P 2
    → P 3
    → P 4
    → P 5
    → P 6
    → P 7
    → P 8
    → P 9
    → ((kind : ℕ) → (kind ≡ 0) ⊎ (10 ≤ kind) → P kind)
    → (kind : ℕ) → P kind
by_kind P p1 p2 p3 p4 p5 p6 p7 p8 p9 rest kind = elim (ℕ_discrete kind 1) [
  | yes e ↦ subst P (sym e) p1
  | no n1 ↦ elim (ℕ_discrete kind 2) [
    | yes e ↦ subst P (sym e) p2
    | no n2 ↦ elim (ℕ_discrete kind 3) [
      | yes e ↦ subst P (sym e) p3
      | no n3 ↦ elim (ℕ_discrete kind 4) [
        | yes e ↦ subst P (sym e) p4
        | no n4 ↦ elim (ℕ_discrete kind 5) [
          | yes e ↦ subst P (sym e) p5
          | no n5 ↦ elim (ℕ_discrete kind 6) [
            | yes e ↦ subst P (sym e) p6
            | no n6 ↦ elim (ℕ_discrete kind 7) [
              | yes e ↦ subst P (sym e) p7
              | no n7 ↦ elim (ℕ_discrete kind 8) [
                | yes e ↦ subst P (sym e) p8
                | no n8 ↦ elim (ℕ_discrete kind 9) [
                  | yes e ↦ subst P (sym e) p9
                  | no n9 ↦ elim (ℕ_discrete kind 0) [
                    | yes e ↦ rest kind (inl e)
                    | no n0 ↦ rest kind (inr (omega arith))
                  ]
                ]
              ]
            ]
          ]
        ]
      ]
    ]
  ]
]

pub skip_fields-layout : (kind : ℕ) (s : Mdcdata) → skip_fields kind s ≡ skip_layout (layout kind) s
unfolding skip_fields
skip_fields-layout kind s =
    by_kind (λ (k : ℕ). skip_fields k s ≡ skip_layout (layout k) s) (rw not_there refl)
      (rw not_there refl) refl (rw (not_there, not_there) refl)
      (rw (not_there, not_there, not_there) refl) (rw (not_there, not_there) refl)
      (rw (not_there, not_there) refl) (rw not_there refl) (rw (not_there, not_there) refl)
      (λ k h. rw (no_layout k h) (ground arith)) kind

type_entry :
    entry_of (bit_or mdtc_idx_coded (insert_coded_index mdci_type_def_or_ref))
    ≡ ok (record { lookup = 2 ∷ 1 ∷ 0x1b ∷ []; bit_encoding_size = 2 })
unfolding coded_index_map entry_of
type_entry = refl

abbrev table_row : ℕ → ℕ → Outcome (ℕ × ℕ)
table_row raw code = elim (get_elem? {A = ℕ} (2 ∷ 1 ∷ 0x1b ∷ []) code) [
  | none ↦ failed
  | some table ↦ ok (table, raw / 4)
]

decomposed :
    (raw : ℕ)
    → decompose_coded_index raw (bit_or mdtc_idx_coded (insert_coded_index mdci_type_def_or_ref))
      ≡ table_row raw (raw % 4)
unfolding decompose_coded_index
decomposed raw = rw type_entry (ap (table_row raw) (bit_and_low 2 raw))

decode_type-type_token : (raw : ℕ) → decode_type raw ≡ type_token raw
unfolding decode_type
decode_type-type_token raw = rw (decomposed raw) (elim (ℕ_discrete (raw % 4) 0) [
  | yes e ↦ rw e refl
  | no n0 ↦ elim (ℕ_discrete (raw % 4) 1) [
    | yes e ↦ rw e refl
    | no n1 ↦ elim (ℕ_discrete (raw % 4) 2) [
      | yes e ↦ rw e refl
      | no n2 ↦ let e : raw % 4 ≡ 3 = omega arith in rw e refl
    ]
  ]
])

-- A field is stored where it is there. `put` stores it.
abbrev pub keep {ℓ} :
    {A : Type ℓ}
    → Bool
    → (A → Import → Import)
    → (ℕ → Outcome A)
    → Import × Mdcdata
    → Outcome (Import × Mdcdata)
keep true put decode (i, s) = decompress_u32 s >>= λ r. decode r.0 >>= λ a. ok (put a i, r.1)
keep false put decode e = ok e

abbrev pub put_alias : Mdcdata → Import → Import
put_alias a i = record i { alias = a }

abbrev pub put_assembly : ℕ → Import → Import
put_assembly a i = record i { assembly = a }

abbrev pub put_namespace : Mdcdata → Import → Import
put_namespace a i = record i { target_namespace = a }

abbrev pub put_type : ℕ → Import → Import
put_type a i = record i { target_type = a }

abbrev pub parse_layout : Mdcxt → Option Layout → Import × Mdcdata → Outcome (Import × Mdcdata)
parse_layout cxt none e = failed
parse_layout cxt (some l) e =
    keep l.alias put_alias (try_get_blob cxt) e
    >>= keep l.assembly put_assembly assembly_token
    >>= keep l.target_namespace put_namespace (try_get_blob cxt)
    >>= keep l.target_type put_type type_token

not_kept {ℓ} :
    {A : Type ℓ} (put : A → Import → Import) (decode : ℕ → Outcome A)
    (o : Outcome (Import × Mdcdata))
    → (o >>= keep false put decode) ≡ o
not_kept put decode (ok e) = refl
not_kept put decode failed = refl
not_kept put decode fault = refl

no_assembly : (o : Outcome (Import × Mdcdata)) → (o >>= keep false put_assembly assembly_token) ≡ o
no_assembly = not_kept put_assembly assembly_token

no_namespace :
    (cxt : Mdcxt) (o : Outcome (Import × Mdcdata))
    → (o >>= keep false put_namespace (try_get_blob cxt)) ≡ o
no_namespace cxt = not_kept put_namespace (try_get_blob cxt)

no_type : (o : Outcome (Import × Mdcdata)) → (o >>= keep false put_type type_token) ≡ o
no_type = not_kept put_type type_token

read_target_type-keep :
    (e : Import × Mdcdata) → read_target_type e ≡ keep true put_type type_token e
read_target_type-keep (i, s) = elim_read (decompress_u32 s)
  where
    stored : Mdcdata → ℕ → Outcome (Import × Mdcdata)
    stored s' a = ok (put_type a i, s')

    elim_read :
        (o : Outcome (ℕ × Mdcdata))
        → (o >>= λ r. decode_type r.0 >>= stored r.1) ≡ (o >>= λ r. type_token r.0 >>= stored r.1)
    elim_read (ok r) = ap (λ (t : Outcome ℕ). t >>= stored r.1) (decode_type-type_token r.0)
    elim_read failed = refl
    elim_read fault = refl

then_type :
    (o : Outcome (Import × Mdcdata))
    → (o >>= read_target_type) ≡ (o >>= keep true put_type type_token)
then_type (ok e) = read_target_type-keep e
then_type failed = refl
then_type fault = refl

pub parse_fields-layout :
    (cxt : Mdcxt) (kind : ℕ) (e : Import × Mdcdata)
    → parse_fields cxt kind e ≡ parse_layout cxt (layout kind) e
unfolding parse_fields
parse_fields-layout cxt kind e =
    by_kind (λ (k : ℕ). parse_fields cxt k e ≡ parse_layout cxt (layout k) e) (rw no_type refl)
      (rw no_type refl) (read_target_type-keep e) (rw (no_assembly, no_type) refl)
      (rw (no_assembly, no_namespace cxt, no_type) refl) (rw (no_namespace cxt, no_type) refl)
      (rw (no_assembly, no_type) refl) (rw no_type refl)
      (rw (no_assembly, no_namespace cxt) (then_type (read_alias cxt e)))
      (λ k h. rw (no_layout k h) (ground arith)) kind

module _ {ℓ} {A : Type ℓ} (blank : A) (put : A → Import → Import) (decode : ℕ → Outcome A)
    (i : Import) (empty : put blank i ≡ i) where
  pub keep-IsField :
      (b : Bool) (s : Mdcdata) (e : Import × Mdcdata)
      → keep b put decode (i, s) ≡ ok e
      → (a : A) × IsField b blank decode a s e.1 × (e.0 ≡ put a i)
  keep-IsField true s e h =
      let (r, p, q) = >>=-eq-ok (decompress_u32 s) _ h in
      let (a, p', q') = >>=-eq-ok (decode r.0) _ q in
      let behind : r.1 ≡ e.1 = ap (λ (x : Import × Mdcdata). x.1) (ok-injective q') in
      (
        a,
        (r.0, p ∙ ap (λ (x : Mdcdata). ok (r.0, x)) behind, p'),
        sym (ap (λ (x : Import × Mdcdata). x.0) (ok-injective q')),
      )
  keep-IsField false s e h = (
    blank,
    (refl, ap (λ (x : Import × Mdcdata). x.1) (ok-injective h)),
    sym (ap (λ (x : Import × Mdcdata). x.0) (ok-injective h)) ∙ sym empty,
  )

  pub IsField-keep :
      (b : Bool) (a : A) (s s' : Mdcdata)
      → IsField b blank decode a s s'
      → keep b put decode (i, s) ≡ ok (put a i, s')
  IsField-keep true a s s' (raw, e, f) = rw (e, f) refl
  IsField-keep false a s s' (e, f) = rw (e, f, empty) refl
