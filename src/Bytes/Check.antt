-- ===== src/Bytes/Check.antt =====
-- A test of streams, for concrete ones.
use dnmd.Base.{ℕ, List, [], ◌∷◌, All, length, Bool, true, ◌&&◌, ◌≡◌, ltb, leb, arith}
use dnmd.Bytes.{Mdcdata, IsStream, IsByte}

abbrev pub all_bytes : List ℕ → Bool
all_bytes [] = true
all_bytes (b ∷ d) = ltb b 256 && all_bytes d

abbrev pub is_stream : Mdcdata → Bool
is_stream s = leb s.size (length s.ptr) && all_bytes s.ptr

pub all_bytes-IsByte : (d : List ℕ) → all_bytes d ≡ true → All IsByte d
all_bytes-IsByte [] h = tt
all_bytes-IsByte (b ∷ d) h = (ground arith, all_bytes-IsByte d (ground arith))

pub is_stream-IsStream : (s : Mdcdata) → is_stream s ≡ true → IsStream s
is_stream-IsStream s h = record {
  readable = ground arith;
  bytes = all_bytes-IsByte s.ptr (ground arith);
}
