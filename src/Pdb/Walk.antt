-- ===== src/Pdb/Walk.antt =====
-- Steps through the blobs of src/dnmd/pdb_blobs.c: what they leave of the blob.
use dnmd.Base.{ℕ, ◌+◌, ◌-◌, ◌≤◌, ◌<◌, ◌≡◌, arith, refl, sym, subst, ap, ◌∙◌}
use native.Mathlib.Decide.{dec_lt}
use dnmd.Base.{
  Bool, true, false, drop, All-drop, length-drop, if◌then◌else◌, Outcome, ok, failed, ◌>>=◌,
  >>=-eq-ok, ok-injective, inl, inr,
}
use dnmd.Bytes.{Mdcdata, IsStream, IsByte, read_u8, read_le, decompress_u32}
use dnmd.Bytes.Decompress.{IsEncodedWidth, decompress_u32-Takes}
use dnmd.Bytes.Little.{read_le-little, read_le_short}
use dnmd.Pdb.{skip_u32}

-- What is left after a step is no longer, and can be read.
abbrev pub Shrinks : (Mdcdata → Outcome Mdcdata) → Type 0
Shrinks step = (s s' : Mdcdata) → IsStream s → step s ≡ ok s' → (s'.size ≤ s.size) × IsStream s'

-- A compressed number takes a byte at least.
pub decompress_u32-shorter :
    (s : Mdcdata) (r : ℕ × Mdcdata)
    → IsStream s
    → decompress_u32 s ≡ ok r
    → (r.1.size < s.size) × IsStream r.1
decompress_u32-shorter s r valid e =
    let (takes, valid') = decompress_u32-Takes s r.0 r.1 valid e in
    (positive takes.as_encoded takes.shorter, valid')
  where
    positive : {w : ℕ} → IsEncodedWidth w → r.1.size + w ≡ s.size → r.1.size < s.size
    positive (inl e) h = omega arith
    positive (inr (inl e)) h = omega arith
    positive (inr (inr e)) h = omega arith

pub skip_u32-Shrinks : Shrinks skip_u32
skip_u32-Shrinks s s' valid h =
    let (r, e, f) = >>=-eq-ok (decompress_u32 s) _ h in
    let (lt, valid') = decompress_u32-shorter s r valid e in
    let same : r.1 ≡ s' = ok-injective f in
    (omega (arith, lt, ap (λ (d : Mdcdata). d.size) same), subst IsStream same valid')

pub then-Shrinks :
    (f g : Mdcdata → Outcome Mdcdata) → Shrinks f → Shrinks g → Shrinks (λ s. f s >>= g)
then-Shrinks f g hf hg s s' valid h =
    let (m, e, k) = >>=-eq-ok (f s) g h in
    let (le1, v1) = hf s m valid e in let (le2, v2) = hg m s' v1 k in (omega (arith, le1, le2), v2)

pub if-Shrinks :
    (b : Bool) (f g : Mdcdata → Outcome Mdcdata)
    → Shrinks f
    → Shrinks g
    → Shrinks (λ s. if b then f s else g s)
if-Shrinks true f g hf hg = hf
if-Shrinks false f g hf hg = hg

pub failed-Shrinks : Shrinks (λ s. failed)
failed-Shrinks s s' valid h = cc

-- A byte that is read is taken off the stream.
pub read_u8-shorter :
    (s : Mdcdata) (v : ℕ) (s' : Mdcdata)
    → IsStream s
    → read_u8 s ≡ ok (v, s')
    → (s'.size < s.size) × IsStream s'
unfolding read_u8
read_u8-shorter s v s' valid h = elim (dec_lt s.size 1) [
  | yes short ↦ absurd (fails (read_le_short s 1 short))
  | no long ↦
      let e = read_le-little s 1 valid (inl refl) (omega arith) in
      let same : record { ptr = drop 1 s.ptr; size = s.size - 1 } ≡ s' =
        ap (λ (r : ℕ × Mdcdata). r.1) (ok-injective (sym e ∙ h)) in
      (
        omega (arith, ap (λ (d : Mdcdata). d.size) same),
        subst IsStream same (record {
          readable = rw length-drop (omega (arith, valid.readable));
          bytes = All-drop IsByte 1 s.ptr valid.bytes;
        }),
      )
]
  where
    fails : read_le s 1 ≡ failed → ⊥
    fails e = cc
