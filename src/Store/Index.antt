-- ===== src/Store/Index.antt =====
-- `DiskBlockIndex` (internal/store/blockindex.go) and the batch of internal/store/chainstate.go.
use fairchain.Base.{ℕ, ◌+◌, ◌/◌, ◌%◌, Bool, List, [], ◌∷◌, ◌++◌, Option, ◌==◌, if◌then◌else◌}
use fairchain.Base.Bytes.{put_le}
use fairchain.Types.Hash.{Hash}
use fairchain.Types.Block.{BlockHeader}

-- `ChainWork` is a pointer, which may be nil.
pub record DiskBlockIndex : Type 0 where
  pub header : BlockHeader
  pub height : ℕ
  pub status : ℕ
  pub tx_count : ℕ
  pub file_num : ℕ
  pub data_pos : ℕ
  pub data_size : ℕ
  pub undo_file : ℕ
  pub undo_pos : ℕ
  pub undo_size : ℕ
  pub chain_work : Option ℕ

abbrev pub status_valid_header : ℕ
status_valid_header = 1

abbrev pub status_valid_tx : ℕ
status_valid_tx = 4

abbrev pub status_have_data : ℕ
status_have_data = 16

abbrev pub status_have_undo : ℕ
status_have_undo = 32

-- `status & flag != 0`, for a flag that is a power of two
abbrev pub has_flag : ℕ → ℕ → Bool
has_flag status flag = status / flag % 2 == 1

-- `status | flag`, for a flag that is a power of two
abbrev pub with_flag : ℕ → ℕ → ℕ
with_flag status flag = if has_flag status flag then status else status + flag

-- What a batch holds: the writes of LevelDB, in order.
pub data BatchWrite : Type 0 where
  put : List ℕ → List ℕ → BatchWrite
  delete : List ℕ → BatchWrite

abbrev pub ChainstateWriteBatch : Type 0
ChainstateWriteBatch = List BatchWrite

-- `'C'` and `'B'`
abbrev pub prefix_utxo : ℕ
prefix_utxo = 67

abbrev pub key_best_block : List ℕ
key_best_block = 66 ∷ []

unfoldable pub utxo_key : Hash → ℕ → List ℕ
utxo_key tx_hash index = prefix_utxo ∷ (tx_hash ++ put_le 4 index)

abbrev pub put_utxo : ChainstateWriteBatch → Hash → ℕ → List ℕ → ChainstateWriteBatch
put_utxo wb tx_hash index data_bytes = wb ++ (put (utxo_key tx_hash index) data_bytes ∷ [])

abbrev pub delete_utxo : ChainstateWriteBatch → Hash → ℕ → ChainstateWriteBatch
delete_utxo wb tx_hash index = wb ++ (delete (utxo_key tx_hash index) ∷ [])

abbrev pub put_best_block : ChainstateWriteBatch → Hash → ChainstateWriteBatch
put_best_block wb hash = wb ++ (put key_best_block hash ∷ [])
