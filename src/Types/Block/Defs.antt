-- ===== src/Types/Block/Defs.antt =====
-- `BlockHeader`, `Block` and their encodings (internal/types/block.go).
use fairchain.Base.{ℕ, ◌≤◌, List, ◌++◌, length, All, ltb, slice}
use fairchain.Base.Bytes.{IsU32, put_le, le_value}
use fairchain.Types.Hash.{Hash, IsHash}
use fairchain.Types.Reader.{
  Reader, ◌>>=◌, ◌>>◌, pure, reject_if, read_full, read_many, put_all, too_many_txs,
}
use fairchain.Types.Varint.{put_varint, read_varint}
use fairchain.Types.Transaction.{Transaction, TransactionFits, serialize, deserialize}

abbrev pub block_header_size : ℕ
block_header_size = 80

pub record BlockHeader : Type 0 where
  pub version : ℕ
  pub prev_block : Hash
  pub merkle_root : Hash
  pub timestamp : ℕ
  pub bits : ℕ
  pub nonce : ℕ

pub record Block : Type 0 where
  pub header : BlockHeader
  pub transactions : List Transaction

abbrev pub max_block_tx_count : ℕ
max_block_tx_count = 50000

-- `serializeInto`: the six slices of the buffer, which follow one another and fill it.
unfoldable pub serialize_header : BlockHeader → List ℕ
serialize_header h =
    put_le 4 h.version
    ++ (h.prev_block
        ++ (h.merkle_root ++ (put_le 4 h.timestamp ++ (put_le 4 h.bits ++ put_le 4 h.nonce))))

unfoldable pub header_of_buffer : List ℕ → BlockHeader
header_of_buffer buf = record {
  version = le_value (slice 0 4 buf);
  prev_block = slice 4 32 buf;
  merkle_root = slice 36 32 buf;
  timestamp = le_value (slice 68 4 buf);
  bits = le_value (slice 72 4 buf);
  nonce = le_value (slice 76 4 buf);
}

unfoldable pub deserialize_header : Reader BlockHeader
deserialize_header = read_full block_header_size >>= λ buf. pure (header_of_buffer buf)

unfoldable pub serialize_block : Block → List ℕ
serialize_block b =
    serialize_header b.header
    ++ (put_varint (length b.transactions) ++ put_all serialize b.transactions)

unfoldable pub deserialize_block : Reader Block
deserialize_block = do
  header ← deserialize_header
  tx_count ← read_varint
  reject_if (ltb max_block_tx_count tx_count) too_many_txs
  transactions ← read_many deserialize tx_count
  pure (record { header = header; transactions = transactions })

pub record HeaderFits (h : BlockHeader) : Type 0 where
  pub version : IsU32 h.version
  pub prev_block : IsHash h.prev_block
  pub merkle_root : IsHash h.merkle_root
  pub timestamp : IsU32 h.timestamp
  pub bits : IsU32 h.bits
  pub nonce : IsU32 h.nonce

pub record BlockFits (b : Block) : Type 0 where
  pub header : HeaderFits b.header
  pub transactions : All TransactionFits b.transactions
  pub few : length b.transactions ≤ max_block_tx_count
