-- ===== src/Utxo/Tests.antt =====
-- Runs of the set, and its theorems at concrete inputs.
use mathlib.Core.Path.{subst}
use fairchain.Base.{
  ℕ, ◌-◌, ◌^◌, ◌<◌, inl, inr, Bool-cases, sym, length, ◌≡◌, ◌≢◌, refl, List, [], ◌∷◌, ◌++◌,
  replicate, map, true, false, some, none, ok, err, panic, arith,
}
use fairchain.Base.KeyMap.{lookup, insert, erase, contains, member, Distinct}
use fairchain.Base.Bytes.{put_le, le_value, bytes_eq, bytes_eq_iff}
use fairchain.Crypto.Sample.{sample_sha}
use fairchain.Crypto.Digest.{hash_transaction, double_sha256}
use fairchain.Types.Hash.{zero_hash, is_zero}
use fairchain.Types.Transaction.{
  Transaction, TxInput, coinbase_out_point, serialize, is_coinbase, input_is_coinbase,
  serialize_input, serialize_output, put_script,
}
use fairchain.Types.Varint.{put_varint}
use fairchain.Types.Reader.{put_all}
use fairchain.Types.Block.{Block}
use fairchain.Utxo.Entry.{UtxoEntry, outpoint_key, serialize_entry, deserialize_entry, flags_of}
use fairchain.Utxo.Entry.Stored.{deserialize_entry-serialize_entry, deserialize_entry-panics}
use fairchain.Utxo.Undo.{serialize_undo, serialize_spent, deserialize_undo}
use fairchain.Utxo.Undo.Stored.{deserialize_undo-serialize_undo}
use fairchain.Utxo.Set.{
  UtxoSet, connect_genesis, genesis_txs, genesis_outputs, add, is_legacy_placeholder,
}
use fairchain.Utxo.Connect.{
  BlockUndoData, connect_block, connect_txs, connect_tx, connect_inputs, connect_input,
  connect_outputs, disconnect_block, created_keys, output_keys, add_unspent, remove_keys, spent_key,
  missing_utxo,
}
use fairchain.Utxo.Connect.RoundTrip.{disconnect-connect, disconnect_leaves_spent}
use fairchain.Utxo.Connect.Sequential.{connect_block-apply_txs, Agrees, apply_txs}

abbrev coin : List ℕ
coin = 7 ∷ replicate 31 0

abbrev input_of : List ℕ → ℕ → TxInput
input_of hash index = record {
  previous_out_point = record { hash = hash; index = index };
  signature_script = [];
  sequence = 0;
}

abbrev coinbase : Transaction
coinbase = record {
  version = 1;
  inputs =
      record { previous_out_point = coinbase_out_point; signature_script = []; sequence = 0 } ∷ [];
  outputs = record { value = 50; pk_script = 0x51 ∷ [] } ∷ [];
  lock_time = 0;
}

abbrev payment : Transaction
payment = record {
  version = 2;
  inputs = input_of coin 0 ∷ [];
  outputs = record { value = 9; pk_script = 0x51 ∷ [] } ∷ [];
  lock_time = 0;
}

abbrev block_of : List Transaction → Block
block_of txs = record {
  header = record {
    version = 1;
    prev_block = zero_hash;
    merkle_root = zero_hash;
    timestamp = 0;
    bits = 0;
    nonce = 0;
  };
  transactions = txs;
}

abbrev block : Block
block = block_of (coinbase ∷ payment ∷ [])

abbrev old_entry : UtxoEntry
old_entry = record { value = 10; pk_script = 0x51 ∷ []; height = 1; is_coinbase = false }

abbrev before : UtxoSet
before = (outpoint_key coin 0, old_entry) ∷ []

abbrev undo : BlockUndoData
undo = record {
  spent_outputs = record { out_point = record { hash = coin; index = 0 }; entry = old_entry } ∷ [];
}

-- The set after the block.
abbrev after : UtxoSet
after =
    (
      outpoint_key (hash_transaction sample_sha coinbase) 0,
      record { value = 50; pk_script = 0x51 ∷ []; height = 5; is_coinbase = true },
    )
    ∷ (
      outpoint_key (hash_transaction sample_sha payment) 0,
      record { value = 9; pk_script = 0x51 ∷ []; height = 5; is_coinbase = false },
    )
    ∷ []

connected : connect_block sample_sha before block 5 ≡ ok (after, undo)
unfolding connect_block connect_txs connect_tx connect_inputs connect_input connect_outputs
    add_unspent remove_keys outpoint_key lookup insert erase contains bytes_eq put_le le_value
    hash_transaction double_sha256 serialize serialize_input serialize_output put_script put_varint
    put_all is_coinbase input_is_coinbase is_zero
connected = refl

missing_is_refused : connect_block sample_sha [] block 5 ≡ err missing_utxo
unfolding connect_block connect_txs connect_tx connect_inputs connect_input connect_outputs
    outpoint_key lookup insert erase contains bytes_eq put_le le_value hash_transaction
    double_sha256 serialize serialize_input serialize_output put_script put_varint put_all
    is_coinbase input_is_coinbase is_zero
missing_is_refused = refl

-- The keys that the block creates do not stand in `before`.
created_are_new :
    (j : List ℕ)
    → member j (created_keys sample_sha block.transactions) ≡ true
    → lookup j before ≡ none
created_are_new j h = elim (Bool-cases (bytes_eq (outpoint_key coin 0) j)) [
  | inl same ↦
      let e : outpoint_key coin 0 ≡ j = (bytes_eq_iff (outpoint_key coin 0) j).0 same in
      cc (
        coin_is_not_created,
        subst (λ x. member x (created_keys sample_sha block.transactions) ≡ true) (sym e) h,
      )
  | inr other ↦ unfold lookup in rw other
]
  where
    coin_is_not_created :
        member (outpoint_key coin 0) (created_keys sample_sha block.transactions) ≡ false
    coin_is_not_created =
        unfold member created_keys output_keys outpoint_key bytes_eq put_le le_value
          hash_transaction double_sha256 serialize serialize_input serialize_output put_script
          put_varint put_all in
        refl

created_keys-Distinct : Distinct (created_keys sample_sha block.transactions)
unfolding member created_keys output_keys outpoint_key bytes_eq put_le le_value hash_transaction
    double_sha256 serialize serialize_input serialize_output put_script put_varint put_all
created_keys-Distinct = (refl, (refl, tt))

coin_stood : lookup (outpoint_key coin 0) before ≡ some old_entry
unfolding lookup bytes_eq outpoint_key put_le
coin_stood = refl

disconnect-connect_example :
    lookup (outpoint_key coin 0) (disconnect_block sample_sha after block undo)
    ≡ lookup (outpoint_key coin 0) before
disconnect-connect_example =
    disconnect-connect sample_sha before block 5 after undo connected created_are_new
      (coin_stood, tt) (outpoint_key coin 0)

connect_block-apply_txs_example :
    Agrees
      (connect_block sample_sha before block 5)
      (apply_txs sample_sha 5 before block.transactions)
connect_block-apply_txs_example =
    connect_block-apply_txs sample_sha before block 5 created_are_new created_keys-Distinct

-- A block whose second transaction spends an output of the first.
abbrev first_hash : List ℕ
first_hash = hash_transaction sample_sha coinbase

abbrev chained : Transaction
chained = record {
  version = 3;
  inputs = input_of first_hash 0 ∷ [];
  outputs = record { value = 50; pk_script = 0x51 ∷ [] } ∷ [];
  lock_time = 0;
}

abbrev chained_block : Block
chained_block = block_of (coinbase ∷ chained ∷ [])

abbrev first_entry : UtxoEntry
first_entry = record { value = 50; pk_script = 0x51 ∷ []; height = 5; is_coinbase = true }

abbrev chained_undo : BlockUndoData
chained_undo = record {
  spent_outputs =
      record { out_point = record { hash = first_hash; index = 0 }; entry = first_entry } ∷ [];
}

abbrev chained_after : UtxoSet
chained_after =
    (
      outpoint_key (hash_transaction sample_sha chained) 0,
      record first_entry { is_coinbase = false },
    )
    ∷ []

chained_connected : connect_block sample_sha [] chained_block 5 ≡ ok (chained_after, chained_undo)
unfolding connect_block connect_txs connect_tx connect_inputs connect_input connect_outputs
    add_unspent remove_keys outpoint_key lookup insert erase contains bytes_eq put_le le_value
    hash_transaction double_sha256 serialize serialize_input serialize_output put_script put_varint
    put_all is_coinbase input_is_coinbase is_zero
chained_connected = refl

first_is_spent :
    member (outpoint_key first_hash 0) (map spent_key chained_undo.spent_outputs) ≡ true
unfolding member bytes_eq outpoint_key put_le le_value hash_transaction double_sha256 serialize
    serialize_input serialize_output put_script put_varint put_all
first_is_spent = refl

disconnect_leaves_spent_example :
    lookup
      (outpoint_key first_hash 0)
      (disconnect_block sample_sha chained_after chained_block chained_undo)
    ≢ lookup (outpoint_key first_hash 0) []
disconnect_leaves_spent_example =
    disconnect_leaves_spent sample_sha [] chained_block 5 chained_after chained_undo
      (outpoint_key first_hash 0) chained_connected first_is_spent (unfold lookup in refl)

deserialize_entry-serialize_entry_example :
    deserialize_entry (serialize_entry old_entry) ≡ ok old_entry
deserialize_entry-serialize_entry_example =
    deserialize_entry-serialize_entry old_entry (omega arith)

deserialize_entry-panics_example :
    deserialize_entry
      (put_le 8 10 ++ (put_le 4 1 ++ (flags_of false ∷ (put_varint (2 ^ 64 - 1) ++ (1 ∷ [])))))
    ≡ panic
deserialize_entry-panics_example =
    deserialize_entry-panics 10 1 (2 ^ 64 - 1) false (1 ∷ []) (omega arith) (omega arith)
      (omega arith) (omega arith)

deserialize_undo-serialize_undo_example : deserialize_undo (serialize_undo undo) ≡ ok undo
deserialize_undo-serialize_undo_example =
    deserialize_undo-serialize_undo undo (omega arith) (omega arith) short
  where
    short : length (serialize_undo undo) < 2 ^ 63
    short =
        unfold serialize_undo serialize_spent serialize_entry put_varint put_le put_all in
        omega arith

abbrev genesis : Block
genesis = block_of (coinbase ∷ [])

genesis_entry :
    lookup (outpoint_key first_hash 0) (connect_genesis sample_sha [] genesis)
    ≡ some (record first_entry { height = 0 })
unfolding connect_genesis genesis_txs genesis_outputs add is_legacy_placeholder outpoint_key lookup
    insert bytes_eq put_le le_value hash_transaction double_sha256 serialize serialize_input
    serialize_output put_script put_varint put_all is_coinbase input_is_coinbase is_zero
genesis_entry = refl
