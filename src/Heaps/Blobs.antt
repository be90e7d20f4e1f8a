-- ===== src/Heaps/Blobs.antt =====
-- Where a blob starts, and how long it is: `try_get_blob` of src/dnmd/streams.c.
use dnmd.Base.{ℕ, ◌+◌, ◌-◌, ◌%◌, ◌^◌, ◌≤◌, ◌<◌, ◌≡◌, ◌≢◌, arith, refl}
use dnmd.Base.{drop, leb, ◌==◌, ◌&&◌, false, true, Outcome, ok, failed, ◌>>=◌}
use dnmd.Bytes.{Mdcdata, IsStream}
use dnmd.Bytes.Decompress.{decoded, decompress_u32-decoded}
use dnmd.Context.{Mdcxt}
use dnmd.Heaps.{try_get_blob}
use dnmd.Heaps.UserStrings.{drop-IsStream}

abbrev pub from : Mdcdata → ℕ → Mdcdata
from h offset = record { ptr = drop offset h.ptr; size = h.size - offset }

abbrev pub behind_length : ℕ × Mdcdata → Outcome Mdcdata
behind_length (n, s) = ok (record { ptr = s.ptr; size = n })

-- In an empty heap only the offset 0 gives a blob, which is empty; an offset past the end fails. At
-- an offset inside a heap of less than 2 ^ 64 bytes the blob has the length that is encoded there,
-- and starts behind the encoding; it fails where none is. Nothing is said of where it ends.
pub try_get_blob_lem :
    (cxt : Mdcxt) (offset : ℕ)
    → IsStream cxt.blob_heap
    → cxt.blob_heap.size < 2 ^ 64
    → (cxt.blob_heap.size ≡ 0
        → offset ≡ 0
        → try_get_blob cxt offset ≡ ok (record { ptr = cxt.blob_heap.ptr; size = 0 }))
      × (cxt.blob_heap.size ≤ offset → offset ≢ 0 → try_get_blob cxt offset ≡ failed)
      × (offset < cxt.blob_heap.size
          → try_get_blob cxt offset ≡ (decoded (from cxt.blob_heap offset) >>= behind_length))
unfolding try_get_blob
try_get_blob_lem cxt offset valid small = (
  λ e f.
      let empty : (cxt.blob_heap.size == 0 && offset == 0) ≡ true = ground arith in rw empty refl,
  λ le some_offset. ground arith,
  λ lt.
      let not_empty : (cxt.blob_heap.size == 0 && offset == 0) ≡ false = ground arith in
      let inside : leb cxt.blob_heap.size offset ≡ false = ground arith in
      let left : (cxt.blob_heap.size + 2 ^ 64 - offset) % 2 ^ 64 ≡ cxt.blob_heap.size - offset =
        omega arith in
      rw
        (
          not_empty,
          inside,
          left,
          decompress_u32-decoded (from cxt.blob_heap offset)
              (drop-IsStream cxt.blob_heap offset valid lt),
        )
        refl,
)
