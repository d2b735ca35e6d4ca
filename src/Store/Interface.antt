-- ===== src/Store/Interface.antt =====
-- `BlockStore` (internal/store/store.go): the operations that internal/chain calls. `none` and `false`
-- stand for an error; what a failed write leaves is the store's own affair, so it returns a store too.
use fairchain.Base.{ℕ, Bool, List, Option}
use fairchain.Types.Hash.{Hash}
use fairchain.Types.Block.{BlockHeader, Block}
use fairchain.Store.Index.{DiskBlockIndex, ChainstateWriteBatch}

-- The file, the offset and the size that `WriteBlock` returns.
pub record Location : Type 0 where
  pub file_num : ℕ
  pub offset : ℕ
  pub size : ℕ

pub record BlockStore (S : Type 0) : Type 0 where
  pub has_block : S → Hash → Bool
  pub write_block : S → Hash → Block → Option Location × S
  pub write_undo : S → ℕ → List ℕ → Option (ℕ × ℕ) × S
  pub read_undo : S → ℕ → ℕ → ℕ → Option (List ℕ)
  pub put_block_index : S → Hash → DiskBlockIndex → Bool × S
  pub get_block_index : S → Hash → Option DiskBlockIndex
  -- What an iteration visits, and whether it ends without an error.
  pub block_indexes : S → List (Hash × DiskBlockIndex) × Bool
  pub get_chain_tip : S → Option (Hash × ℕ)
  pub put_chain_tip : S → Hash → ℕ → Bool × S
  pub flush_utxo_batch : S → ChainstateWriteBatch → Bool × S
  pub get_best_block : S → Option Hash
  pub utxos : S → List ((Hash × ℕ) × List ℕ) × Bool
  pub get_block : S → Hash → Option Block
  pub get_header : S → Hash → Option BlockHeader
