-- ===== src/Consensus/Inputs/Connects.antt =====
-- A block that internal/consensus/txvalidation.go accepts is connected by internal/utxo/utxo.go.
use fairchain.Base.{
  ℕ, ◌+◌, ◌≡◌, refl, sym, ◌∙◌, Bool, true, false, List, [], ◌∷◌, some, length, ltb, ◌==◌, ok,
  or_fail, >>=-eq-ok, fail_if-eq-ok, or_fail-eq-ok, ok-eq, inl, inr, Bool-cases, Option-cases,
}
use fairchain.Base.KeyMap.{KeySet, lookup, insert, contains}
use fairchain.Types.Hash.{Hash}
use fairchain.Types.Transaction.{TxInput, TxOutput, Transaction, is_coinbase}
use fairchain.Types.Block.{Block}
use fairchain.Crypto.Digest.{Sha256, hash_transaction}
use fairchain.Crypto.Keys.{Ripemd160}
use fairchain.Script.Machine.{Curve}
use fairchain.Params.{ChainParams}
use fairchain.Utxo.Entry.{UtxoEntry}
use fairchain.Utxo.Set.{UtxoSet, get}
use fairchain.Utxo.Connect.{
  BlockUndoData, Pending, nothing_pending, input_key, find_entry, spend, connect_input,
  connect_inputs, connect_outputs, connect_tx, connect_txs, connect_block, add_unspent, remove_keys,
}
use fairchain.Consensus.Inputs.Defs.{
  TxError, no_inputs, no_outputs, insufficient_input, fees_overflow, duplicate_input, double_spend,
  add_u64, entry_at, add_input, spent_key_of, add_block_inputs, add_outputs, check_coinbase_outputs,
  check_scripts, validate_block_tx, validate_block_txs, validate_transaction_inputs,
}
use fairchain.Consensus.Inputs.Money.{validate_block_txs_plain, validate_block_txs_coinbase}

pub add_input-finds :
    (s : UtxoSet) (height : ℕ) (p : ChainParams) (i : TxInput) (total_in : ℕ) {sum : ℕ}
    → add_input s height p i total_in ≡ ok sum
    → (entry : UtxoEntry) × (lookup (input_key i) s ≡ some entry)
unfolding add_input get
add_input-finds s height p i total_in h =
    let (entry, found, _) = >>=-eq-ok (or_fail (entry_at s i) TxError.missing_utxo) _ h in
    (entry, or_fail-eq-ok (entry_at s i) TxError.missing_utxo found)

find_entry-finds :
    (s : UtxoSet) (pending : Pending) (key : List ℕ) {entry : UtxoEntry}
    → lookup key s ≡ some entry
    → (e : UtxoEntry) × (find_entry s pending key ≡ some e)
find_entry-finds s pending key {entry} there =
    elim (Option-cases (lookup key pending.created_in_block)) [
      | inl none_made ↦ (entry, rw (none_made, find_entry, there) refl)
      | inr (e, made) ↦ (e, rw (made, find_entry) refl)
    ]

-- Where the outpoints spent so far are the same, an input that the check takes is connected.
connect_inputs-follow :
    (s : UtxoSet) (height : ℕ) (p : ChainParams) (seen : KeySet) (pending : Pending) (total_in : ℕ)
    (is : List TxInput) {total : ℕ} {spent : KeySet}
    → add_block_inputs s height p seen pending.spent_in_block total_in is ≡ ok (total, spent)
    → (after : Pending) × (connect_inputs s seen pending is ≡ ok after)
      × (after.spent_in_block ≡ spent)
unfolding add_block_inputs connect_inputs connect_input
connect_inputs-follow s height p seen pending total_in [] h =
    let (_, e) = ok-eq h in (pending, refl, e)
connect_inputs-follow s height p seen pending total_in (i ∷ is) h =
    let (fresh, h1) = fail_if-eq-ok (contains (spent_key_of i) seen) duplicate_input _ h in
    let (unspent, h2) =
      fail_if-eq-ok (contains (spent_key_of i) pending.spent_in_block) double_spend _ h1 in
    let (sum, added, h3) = >>=-eq-ok (add_input s height p i total_in) _ h2 in
    let (entry, there) = add_input-finds s height p i total_in added in
    let (e, found) = find_entry-finds s pending (input_key i) there in
    let (after, connected, same) =
      connect_inputs-follow s height p (insert (spent_key_of i) tt seen) (spend pending i e) sum is
        h3 in
    (after, rw (fresh, unspent, found) connected, same)

module _ (sha : Sha256) (ripemd : Ripemd160) {Signature PubKey : Type 0}
    (curve : Curve Signature PubKey) (s : UtxoSet) where
  pub validate_block_tx-adds :
      (height : ℕ) (p : ChainParams) (spent : KeySet) (tx : Transaction) {fee : ℕ} {spent' : KeySet}
      → validate_block_tx sha ripemd curve s height p spent tx ≡ ok (fee, spent')
      → (total : ℕ) × (add_block_inputs s height p [] spent 0 tx.inputs ≡ ok (total, spent'))
  unfolding validate_block_tx
  validate_block_tx-adds height p spent tx h =
      let (_, h1) = fail_if-eq-ok (length tx.inputs == 0) no_inputs _ h in
      let (_, h2) = fail_if-eq-ok (length tx.outputs == 0) no_outputs _ h1 in
      let ((total_in, spent1), ins, h3) =
        >>=-eq-ok (add_block_inputs s height p [] spent 0 tx.inputs) _ h2 in
      let (total_out, outs, h4) = >>=-eq-ok (add_outputs 0 tx.outputs) _ h3 in
      let (_, h5) = fail_if-eq-ok (ltb total_in total_out) insufficient_input _ h4 in
      let (_, scripts, h6) = >>=-eq-ok (check_scripts sha ripemd curve s tx 0 tx.inputs) _ h5 in
      let (_, e) = ok-eq h6 in (total_in, rw (← e) ins)

  -- Outputs leave alone what is spent.
  connect_outputs-spent :
      (tx_hash : Hash) (height : ℕ) (coinbase : Bool) (i : ℕ) (pending : Pending)
      (os : List TxOutput)
      → (connect_outputs tx_hash height coinbase i pending os).spent_in_block
        ≡ pending.spent_in_block
  unfolding connect_outputs
  connect_outputs-spent tx_hash height coinbase i pending [] = refl
  connect_outputs-spent tx_hash height coinbase i pending (o ∷ os) =
      connect_outputs-spent tx_hash height coinbase (i + 1) _ os

  connect_txs-follow :
      (height at : ℕ) (p : ChainParams) (pending : Pending) (total_fees : ℕ)
      (txs : List Transaction) {fees : ℕ}
      → validate_block_txs sha ripemd curve s height p pending.spent_in_block total_fees txs
        ≡ ok fees
      → (after : Pending) × (connect_txs sha s at pending txs ≡ ok after)
  unfolding connect_txs connect_tx
  connect_txs-follow height at p pending total_fees [] h = (pending, refl)
  connect_txs-follow height at p pending total_fees (tx ∷ txs) {fees} h =
      elim (Bool-cases (is_coinbase tx)) [
        | inl first ↦
            let (_, _, h1) = >>=-eq-ok (check_coinbase_outputs tx.outputs) _ (
              sym (
                validate_block_txs_coinbase sha ripemd curve s height p pending.spent_in_block
                  total_fees tx txs first)
              ∙ h) in
            let made = connect_outputs (hash_transaction sha tx) at true 0 pending tx.outputs in
            let same =
              connect_outputs-spent (hash_transaction sha tx) at true 0 pending tx.outputs in
            let (after, e) =
              connect_txs-follow height at p made total_fees txs {fees = fees} (rw same h1) in
            (after, rw first e)
        | inr plain ↦
            let ((fee, spent), one, h1) =
              >>=-eq-ok (validate_block_tx sha ripemd curve s height p pending.spent_in_block tx) _
                (sym (
                    validate_block_txs_plain sha ripemd curve s height p pending.spent_in_block
                      total_fees tx txs plain)
                  ∙ h) in
            let (sum, _, h2) = >>=-eq-ok (add_u64 total_fees fee fees_overflow) _ h1 in
            let (total, ins) = validate_block_tx-adds height p pending.spent_in_block tx one in
            let (paid, connected, e) =
              connect_inputs-follow s height p [] pending 0 tx.inputs ins in
            let made = connect_outputs (hash_transaction sha tx) at false 0 paid tx.outputs in
            let same = connect_outputs-spent (hash_transaction sha tx) at false 0 paid tx.outputs in
            let (after, all) =
              connect_txs-follow height at p made sum txs {fees = fees} (rw (same, e) h2) in
            (after, rw (plain, connected) all)
      ]

  -- A block that the check of its inputs accepts against a set is connected to that set, at any
  -- height: `ConnectBlock` returns no error on it.
  pub connect_block-validate_transaction_inputs :
      (height at : ℕ) (p : ChainParams) (block : Block) {fees : ℕ}
      → validate_transaction_inputs sha ripemd curve block s height p ≡ ok fees
      → (after : UtxoSet × BlockUndoData) × (connect_block sha s block at ≡ ok after)
  unfolding validate_transaction_inputs connect_block
  connect_block-validate_transaction_inputs height at p block h =
      let (total_fees, walked, _) =
        >>=-eq-ok (validate_block_txs sha ripemd curve s height p [] 0 block.transactions) _ h in
      let (after, e) = connect_txs-follow height at p nothing_pending 0 block.transactions walked in
      (
        (
          add_unspent after.spent_in_block after.to_add (remove_keys after.to_remove s),
          record { spent_outputs = after.spent_outputs },
        ),
        rw e refl,
      )
