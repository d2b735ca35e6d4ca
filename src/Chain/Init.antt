-- ===== src/Chain/Init.antt =====
-- `Init` and what it calls (internal/chain/chain.go).
use fairchain.Base.{
  ℕ, zero, suc, ◌+◌, ◌%◌, ◌^◌, true, false, not, ◌&&◌, List, [], ◌∷◌, Option, none, some, length,
  ltb, ◌==◌, if◌then◌else◌, panic, err, ok,
}
use fairchain.Base.Bytes.{bytes_eq}
use fairchain.Base.KeyMap.{KeyMap, lookup, insert}
use fairchain.Types.Hash.{Hash, is_zero}
use fairchain.Types.Block.{Block}
use fairchain.Crypto.Digest.{hash_block_header}
use fairchain.Crypto.Target.{calc_work}
use fairchain.Utxo.Set.{connect_genesis}
use fairchain.Utxo.Connect.{connect_block}
use fairchain.Store.Index.{
  DiskBlockIndex, has_flag, with_flag, status_have_data, status_valid_header, status_valid_tx,
}
use fairchain.Store.Interface.{Location}
use fairchain.Chain.State.{
  Env, genesis_mismatch, store_block, store_index, store_tip, missing_height, load_block,
  connect_utxos, walk_chain, Action, ◌>>=◌, ◌>>◌, modify, write, write_with, pure, fail, gets, lift,
  found, hash_at, set_hash,
}
use fairchain.Chain.Persist.{flush_utxo_set_to_chainstate, load_utxo_set_from_chainstate}
use fairchain.Chain.Reorg.{set_tip, index_block}

-- The callback of `ForEachBlockIndex`
unfoldable pub index_stored : List (Hash × DiskBlockIndex) → KeyMap ℕ → KeyMap ℕ
index_stored [] m = m
index_stored ((hash, rec) ∷ rest) m =
    index_stored rest (if has_flag rec.status status_have_data then insert hash rec.height m else m)

module _ {S E Signature PubKey : Type 0} (env : Env S E Signature PubKey) where
  abbrev pub genesis_record : Block → Location → DiskBlockIndex
  genesis_record block place = record {
    header = block.header;
    height = 0;
    status = with_flag (with_flag status_have_data status_valid_header) status_valid_tx;
    tx_count = length block.transactions % 2 ^ 32;
    file_num = place.file_num;
    data_pos = place.offset;
    data_size = place.size;
    undo_file = 0;
    undo_pos = 0;
    undo_size = 0;
    chain_work = some (calc_work block.header.bits);
  }

  abbrev check_genesis : Hash → Hash → Action S (Unit {0})
  check_genesis hash expected =
      if not (is_zero expected) && not (bytes_eq hash expected)
      then fail genesis_mismatch
      else pure tt

  unfoldable pub init_genesis : Action S (Unit {0})
  init_genesis = do
    c ← gets (λ w. w.chain)
    let block = c.params.genesis_block
    let hash = hash_block_header env.sha block.header
    check_genesis hash c.params.genesis_hash
    place ← write_with (λ st. env.db.write_block st hash block) store_block
    write (λ st. env.db.put_block_index st hash (genesis_record block place)) store_index
    write (λ st. env.db.put_chain_tip st hash 0) store_tip
    modify (set_tip hash 0 (calc_work block.header.bits))
    modify (index_block hash 0)
    modify (λ c. record c { utxo_set = connect_genesis env.sha c.utxo_set block })
    flush_utxo_set_to_chainstate env

  -- One round of the walk from a block down: the index, and the work, which is added up.
  unfoldable pub visit : ℕ → Hash → Action S Hash
  visit h current = do
    modify (λ c. record c { hash_by_height = set_hash h current c.hash_by_height })
    st ← gets (λ w. w.store)
    rec ← found walk_chain (env.db.get_block_index st current)
    modify (λ c. record c { tip_work = c.tip_work + calc_work rec.header.bits })
    pure rec.header.prev_block

  unfoldable pub walk_down : ℕ → Hash → Action S (Unit {0})
  walk_down zero current = do _ ← visit zero current; pure tt
  walk_down (suc h) current = do prev ← visit (suc h) current; walk_down h prev

  unfoldable pub replay_at : ℕ → Action S (Unit {0})
  replay_at h = do
    c ← gets (λ w. w.chain)
    hash ← found missing_height (hash_at h c.hash_by_height)
    st ← gets (λ w. w.store)
    block ← found load_block (env.db.get_block st hash)
    elim (h == 0) [
      | true ↦ modify (λ c. record c { utxo_set = connect_genesis env.sha c.utxo_set block })
      | false ↦ do
        (s, undo) ← lift connect_utxos (connect_block env.sha c.utxo_set block h)
        modify (λ c. record c { utxo_set = s })
    ]

  -- The heights from `h` up, `count` of them.
  unfoldable pub replay : ℕ → ℕ → Action S (Unit {0})
  replay zero h = pure tt
  replay (suc count) h = do replay_at h; replay count (h + 1)

  -- The set in memory is not emptied first.
  unfoldable pub rebuild_utxo_set : Action S (Unit {0})
  rebuild_utxo_set = do
    c ← gets (λ w. w.chain)
    replay (c.tip_height + 1) 0
    flush_utxo_set_to_chainstate env

  unfoldable pub load_or_rebuild : Action S (Unit {0})
  load_or_rebuild w =
      let (r, w') = load_utxo_set_from_chainstate env w in
      elim r [ panic ↦ (panic, w') | err why ↦ rebuild_utxo_set w' | ok t ↦ (ok t, w') ]

  -- The chainstate is ahead of the tip of the index.
  unfoldable pub advance_tip : Hash → ℕ → Action S (Unit {0})
  advance_tip best height = do
    modify (λ c. record c { hash_by_height = []; tip_work = 0 })
    walk_down height best
    modify (λ c. record c { tip_hash = best; tip_height = height })
    write (λ st. env.db.put_chain_tip st best height) store_tip
    load_or_rebuild

  unfoldable pub load_chainstate : Hash → ℕ → Option Hash → Action S (Unit {0})
  load_chainstate hash height none = rebuild_utxo_set
  load_chainstate hash height (some best) = do
    c ← gets (λ w. w.chain)
    elim (bytes_eq best hash) [
      | true ↦ load_or_rebuild
      | false ↦ elim (lookup best c.height_by_hash) [
        | none ↦ rebuild_utxo_set
        | some best_height ↦ elim (ltb height best_height) [
          | true ↦ advance_tip best best_height
          | false ↦ rebuild_utxo_set
        ]
      ]
    ]

  unfoldable pub load_chain : Hash → ℕ → Action S (Unit {0})
  load_chain hash height = do
    modify (λ c. record c { tip_hash = hash; tip_height = height; tip_work = 0 })
    st ← gets (λ w. w.store)
    let (stored, complete) = env.db.block_indexes st
    modify (λ c. record c { height_by_hash = index_stored stored c.height_by_hash })
    if complete then pure tt else fail walk_chain
    walk_down height hash
    st' ← gets (λ w. w.store)
    load_chainstate hash height (env.db.get_best_block st')

  unfoldable pub init : Action S (Unit {0})
  init = do
    st ← gets (λ w. w.store)
    elim (env.db.get_chain_tip st) [
      | none ↦ init_genesis
      | some (hash, height) ↦ load_chain hash height
    ]
