-- ===== src/Chain/Reorg/Defs.antt =====
-- `reorg` (internal/chain/chain.go): the walk to the fork, the disconnects, the connects, and the
-- snapshot that an error restores.
use fairchain.Base.{
  ℕ, zero, suc, ◌+◌, ◌-◌, ◌%◌, ◌^◌, Bool, true, false, ◌&&◌, List, [], ◌∷◌, reverse, Option, none,
  some, ltb, if◌then◌else◌, Outcome, panic, err, ok,
}
use fairchain.Base.Bytes.{bytes_eq}
use fairchain.Base.KeyMap.{lookup, insert, erase}
use fairchain.Types.Hash.{Hash}
use fairchain.Types.Block.{Block}
use fairchain.Utxo.Connect.{BlockUndoData, connect_block, disconnect_block}
use fairchain.Utxo.Undo.{serialize_undo, deserialize_undo}
use fairchain.Consensus.Inputs.{validate_transaction_inputs}
use fairchain.Store.Index.{DiskBlockIndex, has_flag, with_flag, status_have_undo, status_valid_tx}
use fairchain.Chain.State.{
  Env, ChainError, load_block, load_index, no_undo, read_undo, decode_undo, inputs_invalid,
  connect_utxos, too_deep, endless, store_tip, store_undo, store_index, ChainState, World, Action,
  ◌>>=◌, ◌>>◌, modify, write, write_with, pure, fail, gets, lift, found, hash_at, hash_or_zero,
  set_hash, delete_hash,
}
use fairchain.Chain.Persist.{clone_utxo_set, persist_utxo_changes, persist_utxo_disconnect}

abbrev pub with_undo : DiskBlockIndex → ℕ × ℕ → DiskBlockIndex
with_undo rec (undo_pos, undo_size) = record rec {
  undo_file = rec.file_num;
  undo_pos = undo_pos;
  undo_size = undo_size;
  status = with_flag (with_flag rec.status status_have_undo) status_valid_tx;
}

-- `parentHeight, ok := c.heightByHash[hash]; ok && c.hashByHeight[parentHeight] == hash`
unfoldable pub joins_main : ChainState → Hash → Bool
joins_main c hash = elim (lookup hash c.height_by_hash) [
  | none ↦ false
  | some height ↦ bytes_eq (hash_or_zero height c.hash_by_height) hash
]

-- The connected blocks whose undo data is still to be written.
pub record ReorgBlockEntry : Type 0 where
  pub hash : Hash
  pub undo_data : BlockUndoData

unfoldable pub index_block : Hash → ℕ → ChainState → ChainState
index_block hash height c = record c {
  height_by_hash = insert hash height c.height_by_hash;
  hash_by_height = set_hash height hash c.hash_by_height;
}

abbrev pub remove_at : Option Hash → ℕ → ChainState → ChainState
remove_at none h c = c
remove_at (some hash) h c = record c {
  height_by_hash = erase hash c.height_by_hash;
  hash_by_height = delete_hash h c.hash_by_height;
}

-- The heights from `h` up, `count` of them.
unfoldable pub remove_above : ℕ → ℕ → ChainState → ChainState
remove_above zero h c = c
remove_above (suc count) h c =
    remove_above count (h + 1) (remove_at (hash_at h c.hash_by_height) h c)

abbrev pub set_tip : Hash → ℕ → ℕ → ChainState → ChainState
set_tip hash height work c = record c { tip_hash = hash; tip_height = height; tip_work = work }

abbrev pub restore_snapshot : ChainState → ChainState → ChainState
restore_snapshot old c = record c {
  height_by_hash = old.height_by_hash;
  hash_by_height = old.hash_by_height;
  tip_hash = old.tip_hash;
  tip_height = old.tip_height;
  tip_work = old.tip_work;
  utxo_set = clone_utxo_set old.utxo_set;
}

module _ {S E Signature PubKey : Type 0} (env : Env S E Signature PubKey) where
  -- `newChain`, the tip first, and the parent of its last block. The loop has no bound of its own.
  unfoldable pub find_fork : ℕ → Hash → World S → Outcome ChainError (List Hash × Hash)
  find_fork zero current w = err endless
  find_fork (suc left) current w = elim (env.db.get_block w.store current) [
    | none ↦ err load_block
    | some block ↦ elim (joins_main w.chain block.header.prev_block) [
      | true ↦ ok (current ∷ [], block.header.prev_block)
      | false ↦ elim (find_fork left block.header.prev_block w) [
        | panic ↦ panic
        | err why ↦ err why
        | ok (hashes, fork) ↦ ok (current ∷ hashes, fork)
      ]
    ]
  ]

  -- The block of the main chain and its undo data, as they are stored.
  unfoldable pub load_undo : Hash → Action S (Block × BlockUndoData)
  load_undo hash = do
    st ← gets (λ w. w.store)
    block ← found load_block (env.db.get_block st hash)
    rec ← found load_index (env.db.get_block_index st hash)
    if has_flag rec.status status_have_undo then pure tt else fail no_undo
    bytes ← found read_undo (env.db.read_undo st rec.undo_file rec.undo_pos rec.undo_size)
    undo ← lift decode_undo (deserialize_undo bytes)
    pure (block, undo)

  unfoldable pub disconnect_at : Hash → Action S (Unit {0})
  disconnect_at hash = do
    (block, undo) ← load_undo hash
    modify (λ c. record c { utxo_set = disconnect_block env.sha c.utxo_set block undo })
    persist_utxo_disconnect env block undo block.header.prev_block

  -- The loop from height `fork + count` down to `fork + 1`.
  unfoldable pub disconnect_down : ℕ → ℕ → Action S (Unit {0})
  disconnect_down fork zero = pure tt
  disconnect_down fork (suc count) = do
    c ← gets (λ w. w.chain)
    elim (hash_at (fork + suc count) c.hash_by_height) [
      | none ↦ pure tt
      | some hash ↦ disconnect_at hash
    ]
    disconnect_down fork count

  -- The checks of the inputs, and the block's changes to the set in memory.
  unfoldable pub connect_tip : Block → ℕ → Action S BlockUndoData
  connect_tip block height = do
    c ← gets (λ w. w.chain)
    _ ←
        lift inputs_invalid (
          validate_transaction_inputs env.sha env.ripemd env.curve block c.utxo_set height c.params)
    (s, undo) ← lift connect_utxos (connect_block env.sha c.utxo_set block height)
    modify (λ c. record c { utxo_set = s })
    pure undo

  unfoldable pub connect_new : Hash → ℕ → Action S ReorgBlockEntry
  connect_new hash height = do
    st ← gets (λ w. w.store)
    block ← found load_block (env.db.get_block st hash)
    undo ← connect_tip block height
    persist_utxo_changes env block undo hash
    modify (index_block hash height)
    pure (record { hash = hash; undo_data = undo })

  -- The blocks from the fork up, the first of them `k` above it. The heights are uint32.
  unfoldable pub connect_up : ℕ → ℕ → List Hash → Action S (List ReorgBlockEntry)
  connect_up fork k [] = pure []
  connect_up fork k (hash ∷ hashes) = do
    entry ← connect_new hash ((fork + k) % 2 ^ 32)
    entries ← connect_up fork (k + 1) hashes
    pure (entry ∷ entries)

  unfoldable pub write_undos : List ReorgBlockEntry → Action S (Unit {0})
  write_undos [] = pure tt
  write_undos (entry ∷ entries) = do
    st ← gets (λ w. w.store)
    rec ← found load_index (env.db.get_block_index st entry.hash)
    place ←
        write_with (λ st. env.db.write_undo st rec.file_num (serialize_undo entry.undo_data))
          store_undo
    write (λ st. env.db.put_block_index st entry.hash (with_undo rec place)) store_index
    write_undos entries

  -- The fork's height, where the map's value of a missing key is 0, and the depth.
  abbrev pub fork_height : ChainState → Hash → ℕ
  fork_height c fork = elim (lookup fork c.height_by_hash) [ none ↦ 0 | some height ↦ height ]

  abbrev pub check_depth : ChainState → ℕ → Action S (Unit {0})
  check_depth c height =
      let depth = (c.tip_height + 2 ^ 32 - height) % 2 ^ 32 in
      if ltb 0 c.params.max_reorg_depth && ltb c.params.max_reorg_depth depth
      then fail too_deep
      else pure tt

  -- A header's height is a uint32, so no chain has more blocks than this.
  abbrev pub chain_bound : ℕ
  chain_bound = 2 ^ 32

  -- What follows once the new chain is connected.
  unfoldable pub finish_switch : Hash → ℕ → ℕ → List ReorgBlockEntry → Action S (Unit {0})
  finish_switch new_tip_hash new_tip_height new_work connected = do
    write (λ st. env.db.put_chain_tip st new_tip_hash new_tip_height) store_tip
    modify (set_tip new_tip_hash new_tip_height new_work)
    write_undos connected

  -- The blocks above the fork, the new ones' hashes from the tip down.
  unfoldable pub replace_above : ChainState → ℕ → List Hash → Action S (List ReorgBlockEntry)
  replace_above c fork hashes = do
    check_depth c fork
    disconnect_down fork (c.tip_height - fork)
    modify (remove_above (c.tip_height - fork) (fork + 1))
    connect_up fork 1 (reverse hashes)

  unfoldable pub switch_chain : Hash → ℕ → ℕ → Action S (Unit {0})
  switch_chain new_tip_hash new_tip_height new_work = do
    walked ← (λ w. (find_fork chain_bound new_tip_hash w, w))
    c ← gets (λ w. w.chain)
    connected ← replace_above c (fork_height c walked.1) walked.0
    finish_switch new_tip_hash new_tip_height new_work connected

  -- The deferred call, with the chain as it was before.
  unfoldable pub or_restore :
      ChainState → Outcome ChainError (Unit {0}) → World S → Outcome ChainError (Unit {0}) × World S
  or_restore old panic w = (panic, w)
  or_restore old (err why) w = (err why, record w { chain = restore_snapshot old w.chain })
  or_restore old (ok t) w = (ok t, w)

  unfoldable pub reorg : Hash → ℕ → ℕ → Action S (Unit {0})
  reorg new_tip_hash new_tip_height new_work w =
      let (r, w') = switch_chain new_tip_hash new_tip_height new_work w in or_restore w.chain r w'
