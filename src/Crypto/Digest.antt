-- ===== src/Crypto/Digest.antt =====
-- `DoubleSHA256`, `HashBlockHeader` and `HashTransaction` (internal/crypto/hash.go), over the
-- digest of Go's crypto/sha256.
use fairchain.Base.{List, ℕ}
use fairchain.Types.Hash.{Hash, IsHash}
use fairchain.Types.Transaction.{Transaction, serialize}
use fairchain.Types.Block.{BlockHeader, serialize_header}

-- `sha256.Sum256` returns 32 bytes. Nothing else is assumed of it.
pub record Sha256 : Type 0 where
  pub sum256 : List ℕ → List ℕ
  pub sum256-IsHash : (bytes : List ℕ) → IsHash (sum256 bytes)

module _ (sha : Sha256) where
  unfoldable pub double_sha256 : List ℕ → Hash
  double_sha256 bytes = sha.sum256 (sha.sum256 bytes)

  unfoldable pub hash_block_header : BlockHeader → Hash
  hash_block_header h = double_sha256 (serialize_header h)

  -- `SerializeToBytes` writes to a byte slice, which returns no error, so neither does this.
  unfoldable pub hash_transaction : Transaction → Hash
  hash_transaction tx = double_sha256 (serialize tx)

  pub double_sha256-IsHash : (bytes : List ℕ) → IsHash (double_sha256 bytes)
  unfolding double_sha256
  double_sha256-IsHash bytes = sha.sum256-IsHash (sha.sum256 bytes)

  pub hash_transaction-IsHash : (tx : Transaction) → IsHash (hash_transaction tx)
  unfolding hash_transaction
  hash_transaction-IsHash tx = double_sha256-IsHash (serialize tx)
