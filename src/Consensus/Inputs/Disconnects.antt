-- ===== src/Consensus/Inputs/Disconnects.antt =====
-- What internal/consensus/txvalidation.go accepts, internal/utxo/utxo.go disconnects exactly.
use fairchain.Base.{
  ℕ, ◌+◌, ◌≡◌, refl, sym, ◌∙◌, ◌⊎◌, inl, inr, Bool, true, List, [], ◌∷◌, none, some, All,
  All-append, Bool-cases, Option-cases, fail_if-eq-ok, >>=-eq-ok, ok, ok-injective, ok-eq,
  if◌then◌else◌, arith,
}
use mathlib.Core.Path.{subst}
use fairchain.Base.Bytes.{bytes_eq}
use fairchain.Base.KeyMap.{
  KeySet, lookup, insert, member, member-append, lookup-insert, lookup-erase,
}
use fairchain.Types.Hash.{Hash}
use fairchain.Types.Transaction.{TxInput, TxOutput, Transaction, is_coinbase}
use fairchain.Types.Block.{Block}
use fairchain.Crypto.Digest.{Sha256, hash_transaction}
use fairchain.Crypto.Keys.{Ripemd160}
use fairchain.Script.Machine.{Curve}
use fairchain.Params.{ChainParams}
use fairchain.Utxo.Entry.{UtxoEntry, outpoint_key}
use fairchain.Utxo.Set.{UtxoSet, index_u32}
use fairchain.Utxo.Connect.{
  BlockUndoData, Pending, nothing_pending, input_key, find_entry, create, entry_of, connect_input,
  connect_inputs, connect_outputs, connect_tx, connect_txs, connect_block, output_keys,
  created_keys, disconnect_block,
}
use fairchain.Utxo.Connect.RoundTrip.{disconnect-connect}
use fairchain.Utxo.Connect.Tracks.{StoodIn, connect_input-ok}
use fairchain.Consensus.Inputs.Defs.{
  double_spend, duplicate_input, fees_overflow, add_u64, add_input, spent_key_of, add_block_inputs,
  check_coinbase_outputs, validate_block_tx, validate_block_txs, validate_transaction_inputs,
}
use fairchain.Consensus.Inputs.Money.{validate_block_txs_plain, validate_block_txs_coinbase}
use fairchain.Consensus.Inputs.Connects.{add_input-finds, validate_block_tx-adds}

-- The outpoint of an input is in the set.
abbrev Stands : UtxoSet → TxInput → Type 0
Stands s i = (e : UtxoEntry) × (lookup (input_key i) s ≡ some e)

-- A coinbase, or all of whose inputs are in the set.
abbrev Spendable : UtxoSet → Transaction → Type 0
Spendable s tx = (is_coinbase tx ≡ true) ⊎ All (Stands s) tx.inputs

add_block_inputs-Stands :
    (s : UtxoSet) (height : ℕ) (p : ChainParams) (seen spent : KeySet) (total_in : ℕ)
    (is : List TxInput) {r : ℕ × KeySet}
    → add_block_inputs s height p seen spent total_in is ≡ ok r
    → All (Stands s) is
unfolding add_block_inputs
add_block_inputs-Stands s height p seen spent total_in [] h = tt
add_block_inputs-Stands s height p seen spent total_in (i ∷ is) h =
    let (_, h1) = fail_if-eq-ok _ duplicate_input _ h in
    let (_, h2) = fail_if-eq-ok _ double_spend _ h1 in
    let (sum, added, h3) = >>=-eq-ok (add_input s height p i total_in) _ h2 in
    (
      add_input-finds s height p i total_in added,
      add_block_inputs-Stands s height p (insert (spent_key_of i) tt seen)
          (insert (spent_key_of i) tt spent) sum is h3,
    )

module _ (sha : Sha256) (ripemd : Ripemd160) {Signature PubKey : Type 0}
    (curve : Curve Signature PubKey) (s : UtxoSet) (height : ℕ) (p : ChainParams) where
  validate_block_txs-Spendable :
      (spent : KeySet) (total_fees : ℕ) (txs : List Transaction) {fees : ℕ}
      → validate_block_txs sha ripemd curve s height p spent total_fees txs ≡ ok fees
      → All (Spendable s) txs
  validate_block_txs-Spendable spent total_fees [] h = tt
  validate_block_txs-Spendable spent total_fees (tx ∷ txs) h = elim (Bool-cases (is_coinbase tx)) [
    | inl first ↦
        let (_, _, h1) = >>=-eq-ok (check_coinbase_outputs tx.outputs) _ (
          sym
            (validate_block_txs_coinbase sha ripemd curve s height p spent total_fees tx txs first)
          ∙ h) in
        (inl first, validate_block_txs-Spendable spent total_fees txs h1)
    | inr plain ↦
        let ((fee, spent'), one, h1) =
          >>=-eq-ok (validate_block_tx sha ripemd curve s height p spent tx) _ (
            sym (validate_block_txs_plain sha ripemd curve s height p spent total_fees tx txs plain)
            ∙ h) in
        let (sum, _, h2) = >>=-eq-ok (add_u64 total_fees fee fees_overflow) _ h1 in
        let (total, ins) = validate_block_tx-adds sha ripemd curve s height p spent tx one in
        (
          inr (add_block_inputs-Stands s height p [] spent 0 tx.inputs ins),
          validate_block_txs-Spendable spent' sum txs h2,
        )
  ]

-- Every entry to restore stood in the set, and no output that was made so far did.
abbrev Sound : UtxoSet → Pending → Type 0
Sound s p =
    All (StoodIn s) p.spent_outputs
    × ((j : List ℕ) (e : UtxoEntry) → lookup j p.created_in_block ≡ some e → lookup j s ≡ none)

module _ (s : UtxoSet) where
  connect_input-Sound :
      (seen : KeySet) (p p' : Pending) (i : TxInput)
      → Sound s p
      → Stands s i
      → connect_input s seen p i ≡ ok p'
      → Sound s p'
  connect_input-Sound seen p p' i (stood, fresh) (e₀, there) h =
      let (e, _, _, found, spent) = connect_input-ok s seen p p' i h in
      let key = input_key i in
      let not_made : lookup key p.created_in_block ≡ none =
        elim (Option-cases (lookup key p.created_in_block)) [
          | inl missing ↦ missing
          | inr (e', made) ↦ absurd (cc (fresh key e' made, there))
        ] in
      let in_set : lookup key s ≡ some e = rw (not_made, find_entry) at found in
      subst (Sound s) spent (
        All-append (StoodIn s) p.spent_outputs _ stood (in_set, tt),
        λ j e' made. fresh j e' (ground (arith, made, lookup-erase key j p.created_in_block)),
      )

  connect_inputs-Sound :
      (seen : KeySet) (p p' : Pending) (is : List TxInput)
      → Sound s p
      → All (Stands s) is
      → connect_inputs s seen p is ≡ ok p'
      → Sound s p'
  unfolding connect_inputs
  connect_inputs-Sound seen p p' [] sound there h = subst (Sound s) (ok-injective h) sound
  connect_inputs-Sound seen p p' (i ∷ is) sound there h =
      let (mid, e, k) = >>=-eq-ok (connect_input s seen p i) _ h in
      connect_inputs-Sound (insert (input_key i) tt seen) mid p' is
        (connect_input-Sound seen p mid i sound there.0 e) there.1 k

  -- None of these keys stands in the set.
  abbrev Absent : List (List ℕ) → Type 0
  Absent ks = (j : List ℕ) → member j ks ≡ true → lookup j s ≡ none

  connect_outputs-Sound :
      (tx_hash : Hash) (height : ℕ) (cb : Bool) (i : ℕ) (p : Pending) (os : List TxOutput)
      → Absent (output_keys tx_hash i os)
      → Sound s p
      → Sound s (connect_outputs tx_hash height cb i p os)
  unfolding connect_outputs output_keys member
  connect_outputs-Sound tx_hash height cb i p [] absent sound = sound
  connect_outputs-Sound tx_hash height cb i p (o ∷ os) absent (stood, fresh) =
      let key = outpoint_key tx_hash (index_u32 i) in
      connect_outputs-Sound tx_hash height cb (i + 1) (create p key (entry_of height cb o)) os
        (λ j m. absent j (ground (arith, m)))
        (
          stood,
          λ j e made. elim (Bool-cases (bytes_eq key j)) [
            | inl same ↦ absent j (ground (arith, same))
            | inr other ↦ fresh j e (
                sym (lookup-insert key j (entry_of height cb o) p.created_in_block ∙ rw other refl)
                ∙ made)
          ],
        )

  module _ (sha : Sha256) (height : ℕ) where
    connect_txs-Sound :
        (p p' : Pending) (txs : List Transaction)
        → Sound s p
        → All (Spendable s) txs
        → Absent (created_keys sha txs)
        → connect_txs sha s height p txs ≡ ok p'
        → Sound s p'
    unfolding connect_txs connect_tx created_keys
    connect_txs-Sound p p' [] sound there absent h = subst (Sound s) (ok-injective h) sound
    connect_txs-Sound p p' (tx ∷ txs) sound there absent h =
        let (mid, one, rest) = >>=-eq-ok (connect_tx sha s height p tx) _ h in
        let (paid, ins, outs) =
          >>=-eq-ok (if is_coinbase tx then ok p else connect_inputs s [] p tx.inputs) _ one in
        let paid_sound : Sound s paid = elim (Bool-cases (is_coinbase tx)) [
          | inl first ↦ subst (Sound s) (ok-injective (rw first at ins)) sound
          | inr plain ↦ elim there.0 [
            | inl first ↦ absurd (cc (first, plain))
            | inr stands ↦ connect_inputs-Sound [] p paid tx.inputs sound stands (rw plain at ins)
          ]
        ] in
        let hash = hash_transaction sha tx in
        let made_sound =
          connect_outputs-Sound hash height (is_coinbase tx) 0 paid tx.outputs
            (λ j m. absent j (member-append j (output_keys hash 0 tx.outputs) _ ∙ rw m refl))
            paid_sound in
        connect_txs-Sound mid p' txs (subst (Sound s) (ok-injective outs) made_sound) there.1
          (λ j m. absent j (
            ground
              (arith, member-append j (output_keys hash 0 tx.outputs) (created_keys sha txs), m)))
          rest

-- Of a block that the check of its inputs accepts against a set in which none of its outputs stands,
-- disconnecting it after it was connected gives back the set at every key.
pub disconnect-validate_transaction_inputs :
    (sha : Sha256) (ripemd : Ripemd160) {Signature PubKey : Type 0} (curve : Curve Signature PubKey)
    (s : UtxoSet) (height at : ℕ) (p : ChainParams) (block : Block) {fees : ℕ} {s' : UtxoSet}
    {undo : BlockUndoData}
    → validate_transaction_inputs sha ripemd curve block s height p ≡ ok fees
    → connect_block sha s block at ≡ ok (s', undo)
    → ((j : List ℕ) → member j (created_keys sha block.transactions) ≡ true → lookup j s ≡ none)
    → (j : List ℕ) → lookup j (disconnect_block sha s' block undo) ≡ lookup j s
unfolding validate_transaction_inputs connect_block lookup
disconnect-validate_transaction_inputs sha ripemd curve s height at p block {s' = s'} {undo = undo}
      valid h fresh =
    let (total_fees, walked, _) =
      >>=-eq-ok (validate_block_txs sha ripemd curve s height p [] 0 block.transactions) _ valid in
    let (pending, run, done) =
      >>=-eq-ok (connect_txs sha s at nothing_pending block.transactions) _ h in
    let (stood, _) =
      connect_txs-Sound s sha at nothing_pending pending block.transactions
        (tt, λ j e made. cc made)
        (validate_block_txs-Spendable sha ripemd curve s height p [] 0 block.transactions walked)
        fresh run in
    let (_, undone) = ok-eq done in
    disconnect-connect sha s block at s' undo h fresh
      (subst (λ u. All (StoodIn s) u.spent_outputs) undone stood)
