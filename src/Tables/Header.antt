-- ===== src/Tables/Header.antt =====
-- The 24 bytes of the header that `initialize_tables` of src/dnmd/streams.c reads.
use dnmd.Base.{ℕ, ◌+◌, ◌≤◌, ◌≡◌, ◌≢◌, arith, refl, subst, sym, ◌∙◌}
use dnmd.Base.{inl, inr, drop, bit_or}
use dnmd.Base.{ltb, ◌==◌, if◌then◌else◌, Outcome, failed, ◌>>=◌}
use dnmd.Bytes.{Mdcdata, IsStream, read_le, advance_stream, read_u8, read_u64}
use dnmd.Bytes.Little.{little, IsWidth, read_le-little, read_le_short}
use dnmd.Context.{Mdcxt}
use dnmd.Tables.{initialize_tables, initialize_counted}
use dnmd.Tables.Counts.{after, after-IsStream, after-after}
use native.Mathlib.Decide.{dec_lt, ℕ_discrete}

-- `r`, where the stream has `m` bytes.
abbrev pub sized {ℓ} : {B : Type ℓ} → Mdcdata → ℕ → Outcome B → Outcome B
sized s m r = if ltb s.size m then failed else r

sized_part {ℓ} :
    {B : Type ℓ} (s : Mdcdata) (n m : ℕ) (r : Outcome B)
    → n ≤ s.size
    → sized (after s n) m r ≡ sized s (n + m) r
sized_part s n m r le = ground arith

-- A read and what follows it.
read_then {ℓ} :
    {B : Type ℓ} (s : Mdcdata) (n m : ℕ) (k : ℕ × Mdcdata → Outcome B) (r : Outcome B)
    → IsStream s
    → IsWidth n
    → (IsStream (after s n) → k (little n s.ptr, after s n) ≡ sized (after s n) m r)
    → (read_le s n >>= k) ≡ sized s (n + m) r
read_then s n m k r v w rest = elim (dec_lt s.size n) [
  | yes short ↦ rw (read_le_short s n short) (ground arith)
  | no long ↦
      let le : n ≤ s.size = omega arith in
      rw (read_le-little s n v w le) (rest (after-IsStream s n v le) ∙ sized_part s n m r le)
]

advance_then {ℓ} :
    {B : Type ℓ} (s : Mdcdata) (n m : ℕ) (k : Mdcdata → Outcome B) (r : Outcome B)
    → IsStream s
    → (IsStream (after s n) → k (after s n) ≡ sized (after s n) m r)
    → (advance_stream s n >>= k) ≡ sized s (n + m) r
unfolding advance_stream
advance_then s n m k r v rest = elim (dec_lt s.size n) [
  | yes short ↦ ground arith
  | no long ↦
      let le : n ≤ s.size = omega arith in
      let e = rest (after-IsStream s n v le) ∙ sized_part s n m r le in ground arith
]

-- A read at the offset `a`, and what follows it.
read_at {ℓ} :
    {B : Type ℓ} (s : Mdcdata) (a n m : ℕ) (k : ℕ × Mdcdata → Outcome B) (r : Outcome B)
    → IsStream (after s a)
    → IsWidth n
    → (IsStream (after s (a + n))
        → k (little n (drop a s.ptr), after s (a + n)) ≡ sized (after s (a + n)) m r)
    → (read_le (after s a) n >>= k) ≡ sized (after s a) (n + m) r
read_at s a n m k r v w rest = read_then (after s a) n m k r v w moved
  where
    moved :
        IsStream (after (after s a) n)
        → k (little n (drop a s.ptr), after (after s a) n) ≡ sized (after (after s a) n) m r
    moved =
        subst (λ t. IsStream t → k (little n (drop a s.ptr), t) ≡ sized t m r)
          (sym (after-after s a n)) rest

sized_none {ℓ} : {B : Type ℓ} (s : Mdcdata) (r : Outcome B) → r ≡ sized s 0 r
sized_none s r = ground arith

-- The heap sizes, the two masks and the rest, at their places in the heap.
abbrev pub from_header : Mdcxt → Outcome Mdcxt
from_header cxt =
    let p = cxt.tables_heap.ptr in
    initialize_counted
      (record cxt { context_flags = bit_or cxt.context_flags (little 1 (drop 6 p)) })
      (little 8 (drop 8 p)) (little 8 (drop 16 p)) (after cxt.tables_heap 24)

is_one : IsWidth 1
is_one = inl refl

is_eight : IsWidth 8
is_eight = inr (inr (inr refl))

if_nonempty {ℓ} : {B : Type ℓ} {r : Outcome B} (n : ℕ) → n ≢ 0 → (if n == 0 then failed else r) ≡ r
if_nonempty n h = ground arith

no_heap : (cxt : Mdcxt) → cxt.tables_heap.size ≡ 0 → initialize_tables cxt ≡ failed
unfolding initialize_tables
no_heap cxt h = rw h refl

by_reads :
    (cxt : Mdcxt)
    → IsStream cxt.tables_heap
    → cxt.tables_heap.size ≢ 0
    → initialize_tables cxt ≡ sized cxt.tables_heap 24 (from_header cxt)
unfolding initialize_tables read_u8 read_u64 read_le
by_reads cxt v nonempty =
    let h = cxt.tables_heap in
    let r = from_header cxt in
    if_nonempty h.size nonempty
    ∙ advance_then h 4 20 _ r v (λ v4. read_at h 4 1 19 _ r v4 is_one (λ v5.
      read_at h 5 1 18 _ r v5 is_one (λ v6. read_at h 6 1 17 _ r v6 is_one (λ v7.
        read_at h 7 1 16 _ r v7 is_one (λ v8.
          read_at h 8 8 8 _ r v8 is_eight
            (λ v16. read_at h 16 8 0 _ r v16 is_eight (λ v24. sized_none (after h 24) r)))))))

-- `initialize_tables` takes the sizes of the heaps from byte 6 and the two masks from bytes 8 and
-- 16, and goes on at byte 24. A heap of less than 24 bytes is refused.
pub initialize_tables-from_header :
    (cxt : Mdcxt)
    → IsStream cxt.tables_heap
    → initialize_tables cxt ≡ sized cxt.tables_heap 24 (from_header cxt)
initialize_tables-from_header cxt v = elim (ℕ_discrete cxt.tables_heap.size 0) [
  | yes empty ↦ no_heap cxt empty ∙ ground arith
  | no filled ↦ by_reads cxt v filled
]
