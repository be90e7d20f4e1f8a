-- ===== src/Heaps/UserStrings.antt =====
-- User strings lie inside their heap, and a walk goes forward.
use dnmd.Base.{
  ℕ, ◌+◌, ◌-◌, ◌≤◌, ◌<◌, ◌≡◌, arith, refl, ap, sym, ◌∙◌, some, none, List, leb, length, drop,
  length-drop, get_elem?, get_elem?-drop, drop-drop, Outcome, ok, fault, failed, ◌>>◌, ◌>>=◌, guard,
  All-drop,
}
use dnmd.Bytes.{Mdcdata, IsStream, IsByte, decompress_u32}
use dnmd.Bytes.Decompress.{decompress_u32-Takes}
use dnmd.Context.{Mdcxt}
use dnmd.Heaps.{Mduserstring, offset_in, user_string_of, try_get_user_string, byte_at}

-- The string in the heap `h` that starts at `offset` and ends before `next`.
pub record IsUserString (h : Mdcdata) (offset next : ℕ) (str : Mduserstring) : Type 0 where
  pub forward : offset < next
  pub inside : next ≤ h.size
  pub start : offset + 1 ≤ next - str.str_bytes
  pub room : str.str_bytes ≤ next
  pub empty : str.str_bytes ≡ 0 → str.str ≡ none
  pub at_start : 0 < str.str_bytes → str.str ≡ some (drop (next - str.str_bytes) h.ptr)
  pub last_byte : 0 < str.str_bytes → get_elem? h.ptr (next - 1) ≡ some str.final_byte

pub drop-IsStream :
    (h : Mdcdata) (offset : ℕ)
    → IsStream h
    → offset < h.size
    → IsStream (record { ptr = drop offset h.ptr; size = h.size - offset })
drop-IsStream h offset valid lt = record {
  readable = rw length-drop (omega (arith, valid.readable));
  bytes = All-drop IsByte offset h.ptr valid.bytes;
}

-- Where a pointer that is `n` bytes into the heap points.
offset_in-drop : (h : Mdcdata) (n : ℕ) → n ≤ length h.ptr → offset_in h (drop n h.ptr) ≡ n
offset_in-drop h n le = rw length-drop (omega arith)

some_byte : (p : List ℕ) (i b : ℕ) → byte_at p i ≡ ok b → get_elem? p i ≡ some b
some_byte p i b e = ground arith

-- What `user_string_of` makes of the bytes at `p`.
user_string_of-parts :
    (p : List ℕ) (n : ℕ) (str : Mduserstring)
    → user_string_of p n ≡ ok str
    → (str.str_bytes ≡ n)
      × (n ≡ 0 → str.str ≡ none)
      × (0 < n → str.str ≡ some p)
      × (0 < n → get_elem? p (n - 1) ≡ some str.final_byte)
unfolding user_string_of
user_string_of-parts p n str e = (ground arith, ground arith, ground arith, ground arith)

user_string_of-IsUserString :
    (h : Mdcdata) (offset at byte_count : ℕ) (str : Mduserstring)
    → offset < at
    → at + byte_count ≤ h.size
    → user_string_of (drop at h.ptr) byte_count ≡ ok str
    → IsUserString h offset (at + byte_count) str
user_string_of-IsUserString h offset at n str lt le e =
    let (many, no_bytes, start, last) = user_string_of-parts (drop at h.ptr) n str e in
    let before : 0 < str.str_bytes → at + n - 1 ≡ at + (n - 1) = λ z. omega arith in
    let begin : at + n - str.str_bytes ≡ at = omega arith in
    record {
      forward = omega arith;
      inside = le;
      start = omega arith;
      room = omega arith;
      empty = λ z. no_bytes (sym many ∙ z);
      at_start = λ z. rw begin (start (omega arith));
      last_byte = λ z.
          ap (get_elem? h.ptr) (before z)
          ∙ sym (get_elem?-drop at (n - 1) h.ptr)
          ∙ last (omega arith);
    }

-- The steps of `try_get_user_string` after the count is read.
body : Mdcdata → Outcome (ℕ × Mdcdata) → Outcome (Mduserstring × ℕ)
body h read = do
  (byte_count, s) ← read
  guard (leb (offset_in h s.ptr + byte_count) h.size)
  str ← user_string_of s.ptr byte_count
  ok (str, offset_in h s.ptr + byte_count)

body_parts :
    (h : Mdcdata) (read : Outcome (ℕ × Mdcdata)) (str : Mduserstring) (next : ℕ)
    → body h read ≡ ok (str, next)
    → (n : ℕ) × (s : Mdcdata) × (read ≡ ok (n, s))
      × (offset_in h s.ptr + n ≤ h.size)
      × (user_string_of s.ptr n ≡ ok str)
      × (next ≡ offset_in h s.ptr + n)
unfolding body
body_parts h (ok (n, s)) str next e = (n, s, refl, ground arith, ground arith, ground arith)
body_parts h failed str next e = cc
body_parts h fault str next e = cc

by_body :
    (cxt : Mdcxt) (offset : ℕ) (str : Mduserstring) (next : ℕ)
    → try_get_user_string cxt offset ≡ ok (str, next)
    → (offset < cxt.user_string_heap.size)
      × (body cxt.user_string_heap (
            decompress_u32 (record {
              ptr = drop offset cxt.user_string_heap.ptr;
              size = cxt.user_string_heap.size - offset;
            }))
          ≡ ok (str, next))
unfolding try_get_user_string body
by_body cxt offset str next e = (ground arith, ground arith)

-- A user string lies inside the heap: `*next_offset` is after the offset and not after the heap's
-- end, and the bytes before it are the string, whose last one is `final_byte`.
pub try_get_user_string-IsUserString :
    (cxt : Mdcxt) (offset : ℕ) (str : Mduserstring) (next : ℕ)
    → IsStream cxt.user_string_heap
    → try_get_user_string cxt offset ≡ ok (str, next)
    → IsUserString cxt.user_string_heap offset next str
try_get_user_string-IsUserString cxt offset str next valid e =
    let h = cxt.user_string_heap in
    let (lt, e') = by_body cxt offset str next e in
    let (n, s, read, inside, made, ends) = body_parts h _ str next e' in
    let (t, _) = decompress_u32-Takes _ n s (drop-IsStream h offset valid lt) read in
    let at : s.ptr ≡ drop (offset + t.taken) h.ptr = t.moved ∙ drop-drop t.taken offset h.ptr in
    let taken : 0 < t.taken = ground (arith, t.as_encoded) in
    let place : offset_in h s.ptr ≡ offset + t.taken =
      ap (offset_in h) at
      ∙ offset_in-drop h (offset + t.taken) (omega (arith, t.shorter, valid.readable)) in
    let fit : offset + t.taken + n ≤ h.size = omega arith in
    let start : user_string_of (drop (offset + t.taken) h.ptr) n ≡ ok str =
      ap (λ p. user_string_of p n) (sym at) ∙ made in
    rw (ends, place)
      (user_string_of-IsUserString h offset (offset + t.taken) n str (omega arith) fit start)
