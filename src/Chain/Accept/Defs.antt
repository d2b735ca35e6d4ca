-- ===== src/Chain/Accept/Defs.antt =====
-- The parts that `ProcessBlock` and `processOrphans` (internal/chain/chain.go) share: the checks before
-- a block is stored, and how it goes on the main chain.
use fairchain.Base.{
  ℕ, ◌+◌, ◌%◌, ◌^◌, Bool, ◌&&◌, ◌||◌, Option, none, some, length, ltb, ◌==◌, panic, err, ok,
}
use fairchain.Base.Bytes.{bytes_less}
use fairchain.Base.KeyMap.{insert}
use fairchain.Types.Hash.{Hash}
use fairchain.Types.Block.{Block}
use fairchain.Crypto.Target.{calc_work}
use fairchain.Utxo.Connect.{BlockUndoData, disconnect_block}
use fairchain.Consensus.Timestamp.{validate_header_timestamp}
use fairchain.Store.Index.{DiskBlockIndex, with_flag, status_have_data, status_valid_header}
use fairchain.Store.Interface.{Location}
use fairchain.Chain.State.{
  Env, load_parent, header_invalid, timestamp_invalid, block_invalid, parent_work, store_tip,
  ChainState, Action, ◌>>=◌, ◌>>◌, modify, write, pure, gets, lift, found,
}
use fairchain.Chain.Ancestors.{build_ancestor_lookup}
use fairchain.Chain.Reorg.{set_tip, index_block}

abbrev pub index_record : Block → ℕ → Location → ℕ → DiskBlockIndex
index_record block height place work = record {
  header = block.header;
  height = height;
  status = with_flag status_have_data status_valid_header;
  tx_count = length block.transactions % 2 ^ 32;
  file_num = place.file_num;
  data_pos = place.offset;
  data_size = place.size;
  undo_file = 0;
  undo_pos = 0;
  undo_size = 0;
  chain_work = some work;
}

-- `newWork.Cmp(c.tipWork) > 0 || (newWork.Cmp(c.tipWork) == 0 && bytes.Compare(hash, c.tipHash) < 0)`
unfoldable pub beats : ℕ → Hash → ChainState → Bool
beats work hash c = ltb c.tip_work work || (work == c.tip_work && bytes_less hash c.tip_hash)

abbrev pub index_side_block : Hash → ℕ → ChainState → ChainState
index_side_block hash height c = record c { height_by_hash = insert hash height c.height_by_hash }

module _ {S E Signature PubKey : Type 0} (env : Env S E Signature PubKey) where
  -- `workForParentChain`
  unfoldable pub work_for_parent_chain : S → Hash → Option ℕ
  work_for_parent_chain st hash = elim (env.db.get_block_index st hash) [
    | none ↦ none
    | some rec ↦ rec.chain_work
  ]

  -- What stands before the block is stored: the checks, and the work of the chain that it ends.
  unfoldable pub check_block : Block → ℕ → Action S ℕ
  check_block block parent_height = do
    w ← gets (λ w. w)
    parent ← found load_parent (env.db.get_header w.store block.header.prev_block)
    let get_ancestor =
        build_ancestor_lookup env.db w.store w.chain.hash_by_height block.header.prev_block
          parent_height
    lift header_invalid (
        env.engine.validate_header block.header parent ((parent_height + 1) % 2 ^ 32) get_ancestor
          w.chain.params)
    lift timestamp_invalid (
        validate_header_timestamp block.header parent (env.now_unix % 2 ^ 32) get_ancestor
          parent_height w.chain.params)
    lift block_invalid
        (env.engine.validate_block block ((parent_height + 1) % 2 ^ 32) w.chain.params)
    work ← found parent_work (work_for_parent_chain w.store block.header.prev_block)
    pure (work + calc_work block.header.bits)

  unfoldable pub extend_chain : Hash → ℕ → ℕ → Action S (Unit {0})
  extend_chain hash height work = do
    write (λ st. env.db.put_chain_tip st hash height) store_tip
    modify (index_block hash height)
    modify (set_tip hash height work)

  -- `c.utxoSet.DisconnectBlock(block, undoData)` where the action fails
  unfoldable pub or_disconnect : Block → BlockUndoData → Action S (Unit {0}) → Action S (Unit {0})
  or_disconnect block undo action w =
      let (r, w') = action w in
      elim r [
        | panic ↦ (panic, w')
        | err why ↦ (
          err why,
          record w' {
            chain = record w'.chain {
              utxo_set = disconnect_block env.sha w'.chain.utxo_set block undo;
            };
          },
        )
        | ok t ↦ (ok t, w')
      ]
