-- ===== src/Pdb.antt =====
-- The blobs of portable PDBs: src/dnmd/pdb_blobs.c. What its parsers share: their results, the sizes
-- of their buffers, and the count pass before the one that fills the buffer.
use dnmd.Base.{ℕ, ◌+◌, ◌-◌, ◌*◌, ◌^◌}
use dnmd.Base.{Bool, not, ◌||◌, leb, ltb, ◌==◌, if◌then◌else◌, Outcome, ok, failed, fault, ◌>>=◌}
use dnmd.Bytes.{Mdcdata, decompress_u32}
pub mod Buffers
pub mod Constants
pub mod Imports
pub mod Names
pub mod Points
pub mod Walk

-- `md_blob_parse_result_t`, with what is stored where it is returned; `mdbpr_fault` is a read
-- outside the accessible bytes.
pub data BlobResult {ℓ} (A : Type ℓ) : Type ℓ where
  mdbpr_success : A → BlobResult A
  mdbpr_insufficient_buffer : ℕ → BlobResult A
  mdbpr_invalid_argument mdbpr_invalid_blob mdbpr_fault : BlobResult A

-- Where every failure returns `mdbpr_InvalidBlob`.
abbrev pub blob_result {ℓ} : {A : Type ℓ} → Outcome A → BlobResult A
blob_result (ok a) = mdbpr_success a
blob_result failed = mdbpr_invalid_blob
blob_result fault = mdbpr_fault

abbrev pub uint32_max : ℕ
uint32_max = 2 ^ 32 - 1

-- A step whose failure returns `mdbpr_InvalidBlob`.
abbrev pub then_parse {ℓ κ} :
    {A : Type ℓ} {B : Type κ} → Outcome A → (A → BlobResult B) → BlobResult B
then_parse (ok a) next = next a
then_parse failed next = mdbpr_invalid_blob
then_parse fault next = mdbpr_fault

-- The buffer for the result and `*buffer_len`. `given` is that it is not NULL.
pub record Buffer : Type 0 where
  pub given : Bool
  pub len : ℕ

-- The functions of src/dnmd/internal.h, where `size_t` has 64 bits.
unfoldable pub safe_add_size : ℕ → ℕ → Outcome ℕ
safe_add_size a b = if leb (2 ^ 64) (a + b) then failed else ok (a + b)

unfoldable pub safe_mul_size : ℕ → ℕ → Outcome ℕ
safe_mul_size a b = if leb (2 ^ 64) (a * b) then failed else ok (a * b)

-- The size of a header and of `count` entries.
unfoldable pub required_size : ℕ → ℕ → ℕ → Outcome ℕ
required_size header entry count = do
  entries ← safe_mul_size count entry
  safe_add_size header entries

-- What is parsed goes into a buffer that is there and large enough.
unfoldable pub in_buffer {ℓ} : {A : Type ℓ} → Buffer → Outcome ℕ → BlobResult A → BlobResult A
in_buffer buffer failed parse = mdbpr_invalid_blob
in_buffer buffer fault parse = mdbpr_fault
in_buffer buffer (ok required) parse =
    if not buffer.given || ltb buffer.len required
    then mdbpr_insufficient_buffer required
    else parse

-- The count, which is `UINT32_MAX` for a blob that cannot be walked, and then the entries.
unfoldable pub parse_counted {ℓ} :
    {A : Type ℓ} → Outcome ℕ → Buffer → ℕ → ℕ → (ℕ → Outcome A) → BlobResult A
parse_counted failed buffer header entry parse = mdbpr_invalid_blob
parse_counted fault buffer header entry parse = mdbpr_fault
parse_counted (ok num) buffer header entry parse =
    if num == uint32_max
    then mdbpr_invalid_blob
    else in_buffer buffer (required_size header entry num) (blob_result (parse num))

-- `UINT32_MAX` for a walk that fails.
abbrev pub or_max : Outcome ℕ → Outcome ℕ
or_max (ok n) = ok n
or_max failed = ok uint32_max
or_max fault = fault

-- One compressed number, whose value is not looked at.
abbrev pub skip_u32 : Mdcdata → Outcome Mdcdata
skip_u32 s = decompress_u32 s >>= λ r. ok r.1
