-- ===== src/Heaps/Guids.antt =====
-- Where a GUID can be had.
use dnmd.Base.{length-take, ℕ, ◌+◌, ◌-◌, ◌*◌, ◌/◌, ◌≤◌, ◌<◌, ◌≡◌, arith}
use dnmd.Base.{List, length, length-drop, drop, take, ok, failed}
use dnmd.Bytes.{IsStream}
use dnmd.Context.{Mdcxt}
use dnmd.Heaps.{try_get_guid, guid_size, null_guid}

room : (size idx : ℕ) → idx ≤ size / 16 → 0 < idx → (idx - 1) * 16 + 16 ≤ size
room size idx le pos = omega arith

-- Every index up to the number of whole GUIDs in the heap gives 16 bytes, 0 giving the null GUID, and
-- an index past it is refused.
pub try_get_guid_lem :
    (cxt : Mdcxt) (idx : ℕ)
    → IsStream cxt.guid_heap
    → (cxt.guid_heap.size / guid_size < idx → try_get_guid cxt idx ≡ failed)
      × (idx ≡ 0 → try_get_guid cxt idx ≡ ok null_guid)
      × (0 < idx
          → idx ≤ cxt.guid_heap.size / guid_size
          → (try_get_guid cxt idx
              ≡ ok (take guid_size (drop ((idx - 1) * guid_size) cxt.guid_heap.ptr)))
            × (length (take guid_size (drop ((idx - 1) * guid_size) cxt.guid_heap.ptr))
                ≡ guid_size))
unfolding try_get_guid
try_get_guid_lem cxt idx valid = (λ past. ground arith, λ z. ground arith, λ pos le. inside pos le)
  where
    at : List ℕ
    at = drop ((idx - 1) * guid_size) cxt.guid_heap.ptr

    enough : 0 < idx → idx ≤ cxt.guid_heap.size / guid_size → guid_size ≤ length at
    enough pos le =
        rw length-drop (omega (arith, room cxt.guid_heap.size idx le pos, valid.readable))

    inside :
        0 < idx
        → idx ≤ cxt.guid_heap.size / guid_size
        → (try_get_guid cxt idx ≡ ok (take guid_size at)) × (length (take guid_size at) ≡ guid_size)
    inside pos le = let e = enough pos le in (ground (arith, e), length-take guid_size at e)
