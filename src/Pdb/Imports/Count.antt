-- ===== src/Pdb/Imports/Count.antt =====
-- What `get_num_imports` of src/dnmd/pdb_blobs.c counts.
use dnmd.Base.{ℕ, zero, suc, ◌+◌, ◌≤◌, ◌<◌, ◌≡◌, ◌≢◌, ◌↔◌, arith, refl, sym, ap, subst, ◌∙◌}
use dnmd.Base.{
  true, false, ◌==◌, ◌||◌, leb, Outcome, ok, failed, fault, ◌>>=◌, >>=-eq-ok, ok-injective,
}
use native.Mathlib.Decide.{dec_lt}
use dnmd.Bytes.{Mdcdata, IsStream, read_u8}
use dnmd.Pdb.{uint32_max, or_max, skip_u32}
use dnmd.Pdb.Imports.Format.{IsImportBytes}
use dnmd.Pdb.Imports.Layout.Whole.{skip_import-IsImportBytes, IsImportBytes-skip_import}
use dnmd.Pdb.Imports.{skip_fields, skip_import, num_imports_from, get_num_imports}
use dnmd.Pdb.Imports.{
  mdidk_import_namespace, mdidk_import_assembly_namespace, mdidk_import_type,
  mdidk_import_xml_namespace, mdidk_import_assembly_reference_alias, mdidk_alias_assembly_reference,
  mdidk_alias_namespace, mdidk_alias_assembly_namespace, mdidk_alias_type,
}
use dnmd.Pdb.Walk.{
  Shrinks, skip_u32-Shrinks, then-Shrinks, if-Shrinks, failed-Shrinks, read_u8-shorter,
}

-- The blob is `n` imports of the format, one behind the other.
pub data IsImports : ℕ → Mdcdata → Type 0 where
  no_import : (s : Mdcdata) → s.size ≡ 0 → IsImports 0 s
  one_more :
      (s s' : Mdcdata) (n : ℕ)
      → 0 < s.size
      → IsImportBytes s s'
      → IsImports n s'
      → IsImports (suc n) s

one : Shrinks skip_u32
one = skip_u32-Shrinks

two : Shrinks (λ s. skip_u32 s >>= skip_u32)
two = then-Shrinks skip_u32 skip_u32 one one

skip_fields-Shrinks : (kind : ℕ) → Shrinks (skip_fields kind)
unfolding skip_fields
skip_fields-Shrinks kind = if-Shrinks (kind == mdidk_import_namespace) _ _ one (
    if-Shrinks (kind == mdidk_import_assembly_namespace) _ _ two (
      if-Shrinks (kind == mdidk_import_type) _ _ one (
        if-Shrinks (kind == mdidk_alias_namespace || kind == mdidk_import_xml_namespace) _ _ two (
          if-Shrinks (kind == mdidk_import_assembly_reference_alias) _ _ one (
            if-Shrinks (kind == mdidk_alias_assembly_reference) _ _ two (
              if-Shrinks (kind == mdidk_alias_assembly_namespace) _ _ (then-Shrinks _ _ two one)
                (if-Shrinks (kind == mdidk_alias_type) _ _ two failed-Shrinks)))))))

pub skip_import-shorter :
    (s s' : Mdcdata) → IsStream s → skip_import s ≡ ok s' → (s'.size < s.size) × IsStream s'
unfolding skip_import
skip_import-shorter s s' valid h =
    let (r, e, f) = >>=-eq-ok (read_u8 s) _ h in
    let (lt, v) = read_u8-shorter s r.0 r.1 valid e in
    let (le, v') = skip_fields-Shrinks r.0 r.1 s' v f in (omega (arith, lt, le), v')

last_round : (fuel n : ℕ) (s : Mdcdata) → s.size ≡ 0 → num_imports_from fuel n s ≡ ok n
unfolding num_imports_from
last_round zero n s e = refl
last_round (suc fuel) n s e =
    let stop : (s.size == 0 || leb uint32_max n) ≡ true = ground arith in rw stop refl

more_rounds :
    (fuel n : ℕ) (s : Mdcdata)
    → 0 < s.size
    → n < uint32_max
    → num_imports_from (suc fuel) n s ≡ (skip_import s >>= num_imports_from fuel (n + 1))
unfolding num_imports_from
more_rounds fuel n s pos lt =
    let on : (s.size == 0 || leb uint32_max n) ≡ false = ground arith in rw on refl

num_imports_from-IsImports :
    (fuel n m : ℕ) (s : Mdcdata)
    → IsStream s
    → s.size ≤ fuel
    → n + s.size < uint32_max
    → num_imports_from fuel n s ≡ ok m
    → (k : ℕ) × (m ≡ n + k) × IsImports k s
num_imports_from-IsImports zero n m s valid f small h = (
  0,
  omega (arith, ok-injective (sym (last_round zero n s (omega arith)) ∙ h)),
  no_import s (omega arith),
)
num_imports_from-IsImports (suc fuel) n m s valid f small h = elim (dec_lt 0 s.size) [
  | no empty ↦
      let none_left : s.size ≡ 0 = omega arith in
      (
        0,
        omega (arith, ok-injective (sym (last_round (suc fuel) n s none_left) ∙ h)),
        no_import s none_left,
      )
  | yes left ↦
      let h' = sym (more_rounds fuel n s left (omega arith)) ∙ h in
      let (s', e, rest) = >>=-eq-ok (skip_import s) (num_imports_from fuel (n + 1)) h' in
      let (lt, v) = skip_import-shorter s s' valid e in
      let (k, same, is) =
        num_imports_from-IsImports fuel (n + 1) m s' v (omega arith) (omega arith) rest in
      (suc k, omega arith, one_more s s' k left (skip_import-IsImportBytes s s' e) is)
]

IsImports-num_imports_from :
    (k fuel n : ℕ) (s : Mdcdata)
    → IsStream s
    → s.size ≤ fuel
    → n + s.size < uint32_max
    → IsImports k s
    → num_imports_from fuel n s ≡ ok (n + k)
IsImports-num_imports_from _ fuel n s valid f small (no_import _ e) =
    last_round fuel n s e ∙ ap (λ (k : ℕ). ok k) (omega arith)
IsImports-num_imports_from _ zero n s valid f small (one_more _ s' k pos e rest) =
    absurd (omega arith)
IsImports-num_imports_from _ (suc fuel) n s valid f small (one_more _ s' k pos bytes rest) =
    let e = IsImportBytes-skip_import s s' bytes in
    let (lt, v) = skip_import-shorter s s' valid e in
    more_rounds fuel n s pos (omega arith)
    ∙ ap (λ (o : Outcome Mdcdata). o >>= num_imports_from fuel (n + 1)) e
    ∙ IsImports-num_imports_from k fuel (n + 1) s' v (omega arith) (omega arith) rest
    ∙ ap (λ (j : ℕ). ok j) (omega arith)

-- Of a blob of less than 2 ^ 32 - 1 bytes a number other than 2 ^ 32 - 1 is returned exactly where
-- the blob is so many imports of the format, with no bytes behind them.
pub get_num_imports-IsImports :
    (s : Mdcdata) (n : ℕ)
    → IsStream s
    → s.size < uint32_max
    → n ≢ uint32_max
    → (get_num_imports s ≡ ok n) ↔ IsImports n s
unfolding get_num_imports
get_num_imports-IsImports s n valid small ne = (
  λ h.
      let (k, same, is) =
        num_imports_from-IsImports s.size 0 n s valid (omega arith) (omega arith) (counted _ h) in
      subst (λ (j : ℕ). IsImports j s) (omega arith) is,
  λ is. ap or_max (
      IsImports-num_imports_from n s.size 0 s valid (omega arith) (omega arith) is
      ∙ ap (λ (j : ℕ). ok j) (omega arith)),
)
  where
    counted : (o : Outcome ℕ) → or_max o ≡ ok n → o ≡ ok n
    counted (ok m) h = h
    counted failed h = absurd (ne (sym (ok-injective h)))
    counted fault h = cc
