-- ===== src/Utxo/Connect/Defs.antt =====
-- `ConnectBlock` gathers removals, additions and undo data, and applies them at the end;
-- `DisconnectBlock` removes what the block created and puts back what it spent.
use fairchain.Base.{
  ℕ, ◌+◌, Bool, not, List, [], ◌∷◌, ◌++◌, reverse, Option, none, some, if◌then◌else◌, Outcome, ok,
  ◌>>=◌, ◌>>◌, fail_if, or_fail,
}
use fairchain.Base.KeyMap.{KeyMap, KeySet, lookup, insert, erase, contains}
use fairchain.Crypto.Digest.{Sha256, hash_transaction}
use fairchain.Types.Hash.{Hash}
use fairchain.Types.Transaction.{OutPoint, TxInput, TxOutput, Transaction, is_coinbase}
use fairchain.Types.Block.{Block}
use fairchain.Utxo.Entry.{UtxoEntry, outpoint_key}
use fairchain.Utxo.Set.{UtxoSet, index_u32}

pub record SpentOutput : Type 0 where
  pub out_point : OutPoint
  pub entry : UtxoEntry

pub record BlockUndoData : Type 0 where
  pub spent_outputs : List SpentOutput

pub data ConnectError : Type 0 where
  duplicate_input already_spent missing_utxo : ConnectError

-- The variables of the loop over the transactions.
pub record Pending : Type 0 where
  pub spent_outputs : List SpentOutput
  pub to_remove : List (List ℕ)
  pub to_add : List (List ℕ × UtxoEntry)
  pub spent_in_block : KeySet
  pub created_in_block : KeyMap UtxoEntry

abbrev pub nothing_pending : Pending
nothing_pending = record {
  spent_outputs = [];
  to_remove = [];
  to_add = [];
  spent_in_block = [];
  created_in_block = [];
}

abbrev pub input_key : TxInput → List ℕ
input_key i = outpoint_key i.previous_out_point.hash i.previous_out_point.index

-- An output made in this block first, then the persistent set.
abbrev pub find_entry : UtxoSet → Pending → List ℕ → Option UtxoEntry
find_entry s p key = elim (lookup key p.created_in_block) [ some e ↦ some e | none ↦ lookup key s ]

abbrev pub spend : Pending → TxInput → UtxoEntry → Pending
spend p i entry = record p {
  spent_outputs =
      p.spent_outputs ++ (record { out_point = i.previous_out_point; entry = entry } ∷ []);
  to_remove = p.to_remove ++ (input_key i ∷ []);
  spent_in_block = insert (input_key i) tt p.spent_in_block;
  created_in_block = erase (input_key i) p.created_in_block;
}

unfoldable pub connect_input : UtxoSet → KeySet → Pending → TxInput → Outcome ConnectError Pending
connect_input s seen p i = do
  fail_if (contains (input_key i) seen) duplicate_input
  fail_if (contains (input_key i) p.spent_in_block) already_spent
  entry ← or_fail (find_entry s p (input_key i)) missing_utxo
  ok (spend p i entry)

unfoldable pub connect_inputs :
    UtxoSet → KeySet → Pending → List TxInput → Outcome ConnectError Pending
connect_inputs s seen p [] = ok p
connect_inputs s seen p (i ∷ is) = do
  p' ← connect_input s seen p i
  connect_inputs s (insert (input_key i) tt seen) p' is

abbrev pub entry_of : ℕ → Bool → TxOutput → UtxoEntry
entry_of height coinbase o = record {
  value = o.value;
  pk_script = o.pk_script;
  height = height;
  is_coinbase = coinbase;
}

abbrev pub create : Pending → List ℕ → UtxoEntry → Pending
create p key entry = record p {
  to_add = p.to_add ++ ((key, entry) ∷ []);
  created_in_block = insert key entry p.created_in_block;
}

unfoldable pub connect_outputs : Hash → ℕ → Bool → ℕ → Pending → List TxOutput → Pending
connect_outputs tx_hash height coinbase i p [] = p
connect_outputs tx_hash height coinbase i p (o ∷ os) =
    connect_outputs tx_hash height coinbase (i + 1)
      (create p (outpoint_key tx_hash (index_u32 i)) (entry_of height coinbase o)) os

unfoldable pub remove_keys : List (List ℕ) → UtxoSet → UtxoSet
remove_keys [] s = s
remove_keys (key ∷ keys) s = remove_keys keys (erase key s)

unfoldable pub add_unspent : KeySet → List (List ℕ × UtxoEntry) → UtxoSet → UtxoSet
add_unspent spent [] s = s
add_unspent spent ((key, entry) ∷ r) s =
    add_unspent spent r (if not (contains key spent) then insert key entry s else s)

-- The keys of a transaction's outputs, in order.
unfoldable pub output_keys : Hash → ℕ → List TxOutput → List (List ℕ)
output_keys tx_hash i [] = []
output_keys tx_hash i (o ∷ os) = outpoint_key tx_hash (index_u32 i) ∷ output_keys tx_hash (i + 1) os

abbrev pub spent_key : SpentOutput → List ℕ
spent_key so = outpoint_key so.out_point.hash so.out_point.index

unfoldable pub restore : List SpentOutput → UtxoSet → UtxoSet
restore [] s = s
restore (so ∷ r) s = restore r (insert (spent_key so) so.entry s)

module _ (sha : Sha256) where
  unfoldable pub connect_tx : UtxoSet → ℕ → Pending → Transaction → Outcome ConnectError Pending
  connect_tx s height p tx = do
    p' ← if is_coinbase tx then ok p else connect_inputs s [] p tx.inputs
    ok (connect_outputs (hash_transaction sha tx) height (is_coinbase tx) 0 p' tx.outputs)

  unfoldable pub connect_txs :
      UtxoSet → ℕ → Pending → List Transaction → Outcome ConnectError Pending
  connect_txs s height p [] = ok p
  connect_txs s height p (tx ∷ txs) = do p' ← connect_tx s height p tx; connect_txs s height p' txs

  -- The set is returned only by a block that is connected: an error leaves it as it was.
  unfoldable pub connect_block :
      UtxoSet → Block → ℕ → Outcome ConnectError (UtxoSet × BlockUndoData)
  connect_block s block height = do
    p ← connect_txs s height nothing_pending block.transactions
    ok (
      add_unspent p.spent_in_block p.to_add (remove_keys p.to_remove s),
      record { spent_outputs = p.spent_outputs },
    )

  -- The keys of all outputs of a list of transactions.
  unfoldable pub created_keys : List Transaction → List (List ℕ)
  created_keys [] = []
  created_keys (tx ∷ txs) = output_keys (hash_transaction sha tx) 0 tx.outputs ++ created_keys txs

  -- The loop runs over the transactions from the last to the first.
  unfoldable pub disconnect_block : UtxoSet → Block → BlockUndoData → UtxoSet
  disconnect_block s block undo =
      restore undo.spent_outputs (remove_keys (created_keys (reverse block.transactions)) s)
