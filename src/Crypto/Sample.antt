-- ===== src/Crypto/Sample.antt =====
-- A digest for the tests: the first 32 bytes of its input, filled up with zeros.
use fairchain.Base.{ℕ, List}
use fairchain.Base.Bytes.{put_le, le_value, length-put_le, put_le-IsByte}
use fairchain.Types.Hash.{IsHash}
use fairchain.Crypto.Digest.{Sha256}

abbrev pub sample_sum : List ℕ → List ℕ
sample_sum bytes = put_le 32 (le_value bytes)

pub sample_sum-IsHash : (bytes : List ℕ) → IsHash (sample_sum bytes)
sample_sum-IsHash bytes = (length-put_le 32 (le_value bytes), put_le-IsByte 32 (le_value bytes))

abbrev pub sample_sha : Sha256
sample_sha = record { sum256 = sample_sum; sum256-IsHash = sample_sum-IsHash }
