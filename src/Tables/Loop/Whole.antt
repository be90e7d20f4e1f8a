-- ===== src/Tables/Loop/Whole.antt =====
-- What a successful `initialize_tables` of src/dnmd/streams.c has loaded.
use dnmd.Base.{ℕ, ◌*◌, ◌^◌, ◌≤◌, ◌<◌, ◌≡◌, arith, refl, subst, sym, ◌∙◌}
use dnmd.Base.{List, drop, bit_and, bit_or}
use dnmd.Base.{Outcome, ok, >>=-eq-ok, ok-injective}
use dnmd.Bytes.{Mdcdata, IsStream}
use dnmd.Bytes.Little.{little}
use dnmd.Context.{Mdcxt, mdc_extra_data}
use dnmd.Tables.{initialize_tables, initialize_from, merge_pdb}
use dnmd.Bytes.Count.{ones}
use dnmd.Tables.Counts.{after, after-IsStream, counts_of}
use dnmd.Tables.Header.{initialize_tables-from_header, from_header, sized}
use dnmd.Tables.Masks.{load, plain_counted}
use dnmd.Tables.Loop.{AllLoaded, initialize_from-AllLoaded}

-- The row counts that the PDB stream has been merged into, and the tables that they give.
abbrev pub LoadedFrom : Mdcxt → ℕ → ℕ → List ℕ → Mdcdata → Mdcxt → Type 0
LoadedFrom cxt valid sorted counts s cxt' =
    (rows : List ℕ) × (merge_pdb cxt counts ≡ ok rows)
    × AllLoaded rows 0 valid sorted s cxt.tables cxt'.tables

load-LoadedFrom :
    (cxt cxt' : Mdcxt) (valid sorted : ℕ) (counts : List ℕ) (s : Mdcdata)
    → valid < 2 ^ 56
    → IsStream s
    → load cxt valid sorted counts s ≡ ok cxt'
    → LoadedFrom cxt valid sorted counts s cxt'
load-LoadedFrom cxt cxt' valid sorted counts s lt v e =
    let (merged, e1, f) = >>=-eq-ok (merge_pdb cxt counts) _ e in
    let (p, e2, g) =
      >>=-eq-ok (initialize_from 64 merged cxt.context_flags 0 valid sorted cxt.tables s) _ f in
    (
      merged,
      e1,
      subst (λ (c : Mdcxt). AllLoaded merged 0 valid sorted s cxt.tables c.tables) (ok-injective g)
          (initialize_from-AllLoaded 64 56 merged cxt.context_flags 0 valid sorted cxt.tables p.0 s
            p.1 refl lt (omega arith) v e2),
    )

sized_ok :
    {B : Type 0} {b : B} (s : Mdcdata) (m : ℕ) (r : Outcome B)
    → sized s m r ≡ ok b
    → (m ≤ s.size) × (r ≡ ok b)
sized_ok s m r e = (ground arith, ground arith)

-- Where the row counts start, and how many bytes they take.
abbrev pub behind_header : Mdcxt → Mdcdata
behind_header cxt = after cxt.tables_heap 24

abbrev pub mask_of : Mdcxt → ℕ
mask_of cxt = little 8 (drop 8 cxt.tables_heap.ptr)

abbrev pub sorted_of : Mdcxt → ℕ
sorted_of cxt = little 8 (drop 16 cxt.tables_heap.ptr)

abbrev pub with_sizes : Mdcxt → Mdcxt
with_sizes cxt = record cxt {
  context_flags = bit_or cxt.context_flags (little 1 (drop 6 cxt.tables_heap.ptr));
}

-- An accepted table heap without extra data, with a mask of tables that there are: the row counts
-- behind the header are merged with those of the PDB stream, and every table of the mask is marked
-- as initialised, with its id, its row count, its sorted bit and the layout of its columns, and with
-- its rows in the bytes behind the counts, where the rows of the table before it end. No other table
-- of the context has changed.
pub initialize_tables-LoadedFrom :
    (cxt cxt' : Mdcxt)
    → IsStream cxt.tables_heap
    → mask_of cxt < 2 ^ 56
    → bit_and (with_sizes cxt).context_flags mdc_extra_data ≡ 0
    → initialize_tables cxt ≡ ok cxt'
    → LoadedFrom
        (with_sizes cxt)
        (mask_of cxt)
        (sorted_of cxt)
        (counts_of 56 (mask_of cxt) (behind_header cxt).ptr)
        (after (behind_header cxt) (ones 56 (mask_of cxt) * 4))
        cxt'
initialize_tables-LoadedFrom cxt cxt' v small flag e =
    let (long, e') =
      sized_ok cxt.tables_heap 24 (from_header cxt)
        (sym (initialize_tables-from_header cxt v) ∙ e) in
    let v' = after-IsStream cxt.tables_heap 24 v long in
    let (room, e'') =
      sized_ok (behind_header cxt) _ _
        (sym (plain_counted _ _ _ (behind_header cxt) v' small flag) ∙ e') in
    load-LoadedFrom _ cxt' _ _ _ _ small (after-IsStream (behind_header cxt) _ v' room) e''
