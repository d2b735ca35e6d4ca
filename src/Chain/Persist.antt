-- ===== src/Chain/Persist.antt =====
-- What internal/chain/chain.go writes to the chainstate, and the UTXO set that it reads from there.
use fairchain.Base.{ℕ, ◌+◌, List, [], ◌∷◌, none, some, take, drop, if◌then◌else◌}
use fairchain.Base.Bytes.{le_value}
use fairchain.Types.Hash.{Hash, hash_size}
use fairchain.Types.Transaction.{TxOutput, Transaction}
use fairchain.Types.Block.{Block}
use fairchain.Crypto.Digest.{Sha256, hash_transaction}
use fairchain.Utxo.Entry.{serialize_entry, deserialize_entry}
use fairchain.Utxo.Set.{UtxoSet, new_set, get, add, index_u32}
use fairchain.Utxo.Connect.{SpentOutput, BlockUndoData}
use fairchain.Store.Index.{ChainstateWriteBatch, put_utxo, delete_utxo, put_best_block}
use fairchain.Chain.State.{
  Env, persist_utxos, decode_utxo, Action, ◌>>=◌, ◌>>◌, modify, write, pure, fail, lift, gets,
}

-- An output that was spent in the block itself is in the set no more.
unfoldable pub put_outputs :
    UtxoSet → Hash → ℕ → List TxOutput → ChainstateWriteBatch → ChainstateWriteBatch
put_outputs s tx_hash i [] wb = wb
put_outputs s tx_hash i (o ∷ os) wb =
    put_outputs s tx_hash (i + 1) os (elim (get s tx_hash (index_u32 i)) [
      | none ↦ wb
      | some entry ↦ put_utxo wb tx_hash (index_u32 i) (serialize_entry entry)
    ])

unfoldable pub delete_outputs :
    Hash → ℕ → List TxOutput → ChainstateWriteBatch → ChainstateWriteBatch
delete_outputs tx_hash i [] wb = wb
delete_outputs tx_hash i (o ∷ os) wb =
    delete_outputs tx_hash (i + 1) os (delete_utxo wb tx_hash (index_u32 i))

unfoldable pub delete_spent : List SpentOutput → ChainstateWriteBatch → ChainstateWriteBatch
delete_spent [] wb = wb
delete_spent (so ∷ sos) wb = delete_spent sos (delete_utxo wb so.out_point.hash so.out_point.index)

unfoldable pub put_spent : List SpentOutput → ChainstateWriteBatch → ChainstateWriteBatch
put_spent [] wb = wb
put_spent (so ∷ sos) wb =
    put_spent sos (put_utxo wb so.out_point.hash so.out_point.index (serialize_entry so.entry))

module _ (sha : Sha256) where
  unfoldable pub put_transactions :
      UtxoSet → List Transaction → ChainstateWriteBatch → ChainstateWriteBatch
  put_transactions s [] wb = wb
  put_transactions s (tx ∷ txs) wb =
      put_transactions s txs (put_outputs s (hash_transaction sha tx) 0 tx.outputs wb)

  unfoldable pub delete_transactions :
      List Transaction → ChainstateWriteBatch → ChainstateWriteBatch
  delete_transactions [] wb = wb
  delete_transactions (tx ∷ txs) wb =
      delete_transactions txs (delete_outputs (hash_transaction sha tx) 0 tx.outputs wb)

  -- The batch of `persistUtxoChanges`.
  unfoldable pub connect_batch : UtxoSet → Block → BlockUndoData → Hash → ChainstateWriteBatch
  connect_batch s block undo block_hash =
      put_best_block (delete_spent undo.spent_outputs (put_transactions s block.transactions []))
        block_hash

  -- The batch of `persistUtxoDisconnect`.
  unfoldable pub disconnect_batch : Block → BlockUndoData → Hash → ChainstateWriteBatch
  disconnect_batch block undo new_best_hash =
      put_best_block (put_spent undo.spent_outputs (delete_transactions block.transactions []))
        new_best_hash

-- The entries of the set, in the order of the list: Go's order over a map is not fixed.
unfoldable pub put_entries : UtxoSet → ChainstateWriteBatch → ChainstateWriteBatch
put_entries [] wb = wb
put_entries ((key, entry) ∷ s) wb =
    put_entries s
      (put_utxo wb (take hash_size key) (le_value (drop hash_size key)) (serialize_entry entry))

-- `cloneUtxoSet`: each key is taken apart and put together again.
unfoldable pub clone_utxo_set : UtxoSet → UtxoSet
clone_utxo_set [] = new_set
clone_utxo_set ((key, entry) ∷ s) =
    add (clone_utxo_set s) (take hash_size key) (le_value (drop hash_size key)) entry

module _ {S E Signature PubKey : Type 0} (env : Env S E Signature PubKey) where
  unfoldable pub persist_utxo_changes : Block → BlockUndoData → Hash → Action S (Unit {0})
  persist_utxo_changes block undo block_hash = do
    s ← gets (λ w. w.chain.utxo_set)
    write (λ st. env.db.flush_utxo_batch st (connect_batch env.sha s block undo block_hash))
        persist_utxos

  unfoldable pub persist_utxo_disconnect : Block → BlockUndoData → Hash → Action S (Unit {0})
  persist_utxo_disconnect block undo new_best_hash =
      write (λ st. env.db.flush_utxo_batch st (disconnect_batch env.sha block undo new_best_hash))
        persist_utxos

  unfoldable pub flush_utxo_set_to_chainstate : Action S (Unit {0})
  flush_utxo_set_to_chainstate = do
    c ← gets (λ w. w.chain)
    write (λ st. env.db.flush_utxo_batch st (put_best_block (put_entries c.utxo_set []) c.tip_hash))
        persist_utxos

  -- The callback of `ForEachUtxo`: the entries before one that fails stay in the set.
  unfoldable pub load_entries : List ((Hash × ℕ) × List ℕ) → Action S (Unit {0})
  load_entries [] = pure tt
  load_entries (((tx_hash, index), data_bytes) ∷ rest) = do
    entry ← lift decode_utxo (deserialize_entry data_bytes)
    modify (λ c. record c { utxo_set = add c.utxo_set tx_hash index entry })
    load_entries rest

  unfoldable pub load_utxo_set_from_chainstate : Action S (Unit {0})
  load_utxo_set_from_chainstate = do
    st ← gets (λ w. w.store)
    let (stored, complete) = env.db.utxos st
    load_entries stored
    if complete then pure tt else fail decode_utxo
