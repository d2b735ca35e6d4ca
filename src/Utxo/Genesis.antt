-- ===== src/Utxo/Genesis.antt =====
-- `ConnectGenesis` keeps placeholder scripts out of the set.
use fairchain.Base.{
  ℕ, ◌+◌, ◌≡◌, ◌⊎◌, inl, inr, Bool, false, List, [], ◌∷◌, some, Bool-cases, if◌then◌else◌, some-eq,
}
use fairchain.Base.Bytes.{bytes_eq}
use fairchain.Base.KeyMap.{lookup, insert, lookup-insert}
use fairchain.Crypto.Digest.{Sha256, hash_transaction}
use fairchain.Types.Hash.{Hash}
use fairchain.Types.Transaction.{TxOutput, Transaction, is_coinbase}
use fairchain.Types.Block.{Block}
use fairchain.Utxo.Entry.{UtxoEntry, outpoint_key}
use fairchain.Utxo.Set.{
  UtxoSet, add, index_u32, is_legacy_placeholder, genesis_outputs, genesis_txs, connect_genesis,
}

one_output :
    (key : List ℕ) (entry : UtxoEntry) (s : UtxoSet) (j : List ℕ) (e : UtxoEntry)
    → lookup j (if is_legacy_placeholder entry.pk_script then s else insert key entry s) ≡ some e
    → (is_legacy_placeholder e.pk_script ≡ false) ⊎ (lookup j s ≡ some e)
one_output key entry s j e h = elim (Bool-cases (is_legacy_placeholder entry.pk_script)) [
  | inl legacy ↦ inr (rw legacy at h)
  | inr real ↦ elim (Bool-cases (bytes_eq key j)) [
    | inl same ↦
        let found : entry ≡ e =
          some-eq (rw (lookup-insert key j entry s, same) at (rw real at h)) in
        inl (rw (← found) real)
    | inr other ↦ inr (rw (lookup-insert key j entry s, other) at (rw real at h))
  ]
]

genesis_outputs-scripts :
    (tx_hash : Hash) (cb : Bool) (os : List TxOutput) (i : ℕ) (s : UtxoSet) (j : List ℕ)
    (e : UtxoEntry)
    → lookup j (genesis_outputs tx_hash cb os i s) ≡ some e
    → (is_legacy_placeholder e.pk_script ≡ false) ⊎ (lookup j s ≡ some e)
unfolding genesis_outputs add
genesis_outputs-scripts tx_hash cb [] i s j e h = inr h
genesis_outputs-scripts tx_hash cb (o ∷ os) i s j e h =
    let key = outpoint_key tx_hash (index_u32 i) in
    let entry : UtxoEntry = record {
      value = o.value;
      pk_script = o.pk_script;
      height = 0;
      is_coinbase = cb;
    } in
    let stored = if is_legacy_placeholder o.pk_script then s else insert key entry s in
    elim (genesis_outputs-scripts tx_hash cb os (i + 1) stored j e h) [
      | inl kept ↦ inl kept
      | inr here ↦ one_output key entry s j e here
    ]

genesis_txs-scripts :
    (sha : Sha256) (txs : List Transaction) (s : UtxoSet) (j : List ℕ) (e : UtxoEntry)
    → lookup j (genesis_txs sha txs s) ≡ some e
    → (is_legacy_placeholder e.pk_script ≡ false) ⊎ (lookup j s ≡ some e)
unfolding genesis_txs
genesis_txs-scripts sha [] s j e h = inr h
genesis_txs-scripts sha (tx ∷ txs) s j e h = elim (genesis_txs-scripts sha txs _ j e h) [
  | inl kept ↦ inl kept
  | inr before ↦
      genesis_outputs-scripts (hash_transaction sha tx) (is_coinbase tx) tx.outputs 0 s j e before
]

-- An entry that stands in the set after the genesis block was connected has a script that is no
-- placeholder (empty, or the one byte 0), or stood there before.
connect_genesis-scripts :
    (sha : Sha256) (s : UtxoSet) (block : Block) (j : List ℕ) (e : UtxoEntry)
    → lookup j (connect_genesis sha s block) ≡ some e
    → (is_legacy_placeholder e.pk_script ≡ false) ⊎ (lookup j s ≡ some e)
unfolding connect_genesis
connect_genesis-scripts sha s block j e h = genesis_txs-scripts sha block.transactions s j e h
