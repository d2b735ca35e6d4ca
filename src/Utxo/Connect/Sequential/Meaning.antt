-- ===== src/Utxo/Connect/Sequential/Meaning.antt =====
-- The plain meaning: an input takes its output out of the set, or the block is refused; an output
-- goes into the set.
use fairchain.Base.{ℕ, ◌+◌, Bool, List, [], ◌∷◌, Option, none, some, if◌then◌else◌}
use fairchain.Base.KeyMap.{lookup, insert, erase}
use fairchain.Crypto.Digest.{Sha256, hash_transaction}
use fairchain.Types.Hash.{Hash}
use fairchain.Types.Transaction.{TxInput, TxOutput, Transaction, is_coinbase}
use fairchain.Utxo.Entry.{outpoint_key}
use fairchain.Utxo.Set.{UtxoSet, index_u32}
use fairchain.Utxo.Connect.Defs.{input_key, entry_of}

unfoldable pub apply_input : UtxoSet → TxInput → Option UtxoSet
apply_input m i = elim (lookup (input_key i) m) [
  | none ↦ none
  | some e ↦ some (erase (input_key i) m)
]

unfoldable pub apply_inputs : UtxoSet → List TxInput → Option UtxoSet
apply_inputs m [] = some m
apply_inputs m (i ∷ is) = elim (apply_input m i) [ none ↦ none | some m' ↦ apply_inputs m' is ]

unfoldable pub apply_outputs : Hash → ℕ → Bool → ℕ → UtxoSet → List TxOutput → UtxoSet
apply_outputs tx_hash height coinbase i m [] = m
apply_outputs tx_hash height coinbase i m (o ∷ os) =
    apply_outputs tx_hash height coinbase (i + 1)
      (insert (outpoint_key tx_hash (index_u32 i)) (entry_of height coinbase o) m) os

unfoldable pub apply_tx : Sha256 → ℕ → UtxoSet → Transaction → Option UtxoSet
apply_tx sha height m tx = elim (if is_coinbase tx then some m else apply_inputs m tx.inputs) [
  | none ↦ none
  | some m' ↦ some (apply_outputs (hash_transaction sha tx) height (is_coinbase tx) 0 m' tx.outputs)
]

unfoldable pub apply_txs : Sha256 → ℕ → UtxoSet → List Transaction → Option UtxoSet
apply_txs sha height m [] = some m
apply_txs sha height m (tx ∷ txs) = elim (apply_tx sha height m tx) [
  | none ↦ none
  | some m' ↦ apply_txs sha height m' txs
]
