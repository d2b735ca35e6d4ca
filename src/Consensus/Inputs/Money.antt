-- ===== src/Consensus/Inputs/Money.antt =====
-- No value is created by what internal/consensus/txvalidation.go lets through.
use native.Mathlib.Nat.{div-le_self}
use fairchain.Base.{
  ℕ, ◌+◌, ◌/◌, ◌%◌, ◌^◌, ◌≤◌, ◌<◌, ◌≡◌, refl, sym, ◌∙◌, arith, true, false, List, [], ◌∷◌, All,
  length, ltb, ◌==◌, ok, ◌>>=◌, ◌>>◌, >>=-eq-ok, fail_if-eq-ok, ok-injective, ok-eq,
}
use fairchain.Base.KeyMap.{KeySet}
use fairchain.Types.Transaction.{TxOutput, Transaction, is_coinbase}
use fairchain.Types.Block.{BlockHeader}
use fairchain.Crypto.Digest.{Sha256}
use fairchain.Crypto.Keys.{Ripemd160}
use fairchain.Script.Machine.{Curve}
use fairchain.Params.{ChainParams, calc_subsidy}
use fairchain.Utxo.Set.{UtxoSet}
use fairchain.Consensus.Inputs.Defs.{
  no_inputs, no_outputs, insufficient_input, fees_overflow, reward_overflow, coinbase_excess,
  lone_coinbase, add_u64, add_block_inputs, add_inputs, add_outputs, check_coinbase_outputs,
  add_coinbase_outputs, check_scripts, validate_block_tx, validate_block_txs,
  validate_transaction_inputs, validate_single_transaction,
}
use fairchain.Consensus.Inputs.Sums.{
  ValuesFit, inputs_value, outputs_value, add_u64-eq-ok, add_block_inputs-eq-ok, add_inputs-eq-ok,
  add_outputs-eq-ok, add_coinbase_outputs-eq-ok,
}

-- What the transactions of a list spend and pay, without a bound.
unfoldable pub total_inputs : UtxoSet → List Transaction → ℕ
total_inputs s [] = 0
total_inputs s (tx ∷ txs) = inputs_value s tx.inputs + total_inputs s txs

unfoldable pub total_outputs : List Transaction → ℕ
total_outputs [] = 0
total_outputs (tx ∷ txs) = outputs_value tx.outputs + total_outputs txs

calc_subsidy-le : (p : ChainParams) (height : ℕ) → calc_subsidy p height ≤ p.initial_subsidy
unfolding calc_subsidy
calc_subsidy-le p height =
    let least : p.initial_subsidy / 2 ^ (height / p.subsidy_halving_interval) ≤ p.initial_subsidy =
      div-le_self p.initial_subsidy (2 ^ (height / p.subsidy_halving_interval)) in
    ground arith

module _ (sha : Sha256) (ripemd : Ripemd160) {Signature PubKey : Type 0}
    (curve : Curve Signature PubKey) (s : UtxoSet) where
  validate_block_tx-eq-ok :
      (height : ℕ) (p : ChainParams) (spent : KeySet) (tx : Transaction) {fee : ℕ} {spent' : KeySet}
      → ValuesFit s
      → validate_block_tx sha ripemd curve s height p spent tx ≡ ok (fee, spent')
      → (fee + outputs_value tx.outputs ≡ inputs_value s tx.inputs) × (fee < 2 ^ 64)
  unfolding validate_block_tx
  validate_block_tx-eq-ok height p spent tx fit h =
      let (_, h1) = fail_if-eq-ok (length tx.inputs == 0) no_inputs _ h in
      let (_, h2) = fail_if-eq-ok (length tx.outputs == 0) no_outputs _ h1 in
      let ((total_in, spent1), ins, h3) =
        >>=-eq-ok (add_block_inputs s height p [] spent 0 tx.inputs) _ h2 in
      let (total_out, outs, h4) = >>=-eq-ok (add_outputs 0 tx.outputs) _ h3 in
      let (enough, h5) = fail_if-eq-ok (ltb total_in total_out) insufficient_input _ h4 in
      let (_, scripts, h6) = >>=-eq-ok (check_scripts sha ripemd curve s tx 0 tx.inputs) _ h5 in
      let (e, _) = ok-eq h6 in
      let (e_in, small) =
        add_block_inputs-eq-ok s height p [] spent 0 tx.inputs fit (omega arith) ins in
      let (e_out, _) = add_outputs-eq-ok 0 tx.outputs (omega arith) outs in
      (ground arith, ground arith)

  pub validate_block_txs_plain :
      (height : ℕ) (p : ChainParams) (spent : KeySet) (total_fees : ℕ) (tx : Transaction)
      (txs : List Transaction)
      → is_coinbase tx ≡ false
      → validate_block_txs sha ripemd curve s height p spent total_fees (tx ∷ txs) ≡ (
          validate_block_tx sha ripemd curve s height p spent tx >>= λ r.
          add_u64 total_fees r.0 fees_overflow >>= λ fees.
          validate_block_txs sha ripemd curve s height p r.1 fees txs)
  unfolding validate_block_txs
  validate_block_txs_plain height p spent total_fees tx txs plain =
      rw (plain, validate_block_txs) refl

  pub validate_block_txs_coinbase :
      (height : ℕ) (p : ChainParams) (spent : KeySet) (total_fees : ℕ) (tx : Transaction)
      (txs : List Transaction)
      → is_coinbase tx ≡ true
      → validate_block_txs sha ripemd curve s height p spent total_fees (tx ∷ txs) ≡ (
          check_coinbase_outputs tx.outputs
          >> validate_block_txs sha ripemd curve s height p spent total_fees txs)
  unfolding validate_block_txs
  validate_block_txs_coinbase height p spent total_fees tx txs first =
      rw (first, validate_block_txs) refl

  validate_block_txs-eq-ok :
      (height : ℕ) (p : ChainParams) (spent : KeySet) (total_fees : ℕ) (txs : List Transaction)
      {fees : ℕ}
      → ValuesFit s
      → total_fees < 2 ^ 64
      → All (λ (tx : Transaction). is_coinbase tx ≡ false) txs
      → validate_block_txs sha ripemd curve s height p spent total_fees txs ≡ ok fees
      → (fees + total_outputs txs ≡ total_fees + total_inputs s txs) × (fees < 2 ^ 64)
  unfolding validate_block_txs total_inputs total_outputs
  validate_block_txs-eq-ok height p spent total_fees [] fit small plain h =
      let e = ok-injective h in (omega arith, omega arith)
  validate_block_txs-eq-ok height p spent total_fees (tx ∷ txs) fit small plain h =
      let ((fee, spent1), one, h1) =
        >>=-eq-ok (validate_block_tx sha ripemd curve s height p spent tx) _
          (sym (validate_block_txs_plain height p spent total_fees tx txs plain.0) ∙ h) in
      let (sum, added, h2) = >>=-eq-ok (add_u64 total_fees fee fees_overflow) _ h1 in
      let (e1, small1) = validate_block_tx-eq-ok height p spent tx fit one in
      let (e2, small2) = add_u64-eq-ok total_fees fee fees_overflow small small1 added in
      let (e3, small3) = validate_block_txs-eq-ok height p spent1 sum txs fit small2 plain.1 h2 in
      (omega arith, small3)

  -- Of a block whose first transaction is a coinbase and whose others are not, against a set whose
  -- values are uint64: if the check accepts it with `fees`, then the fees are what the other
  -- transactions spend and do not pay, and the outputs of all of the block's transactions together
  -- are worth at most the subsidy and what its transactions spend. The sums are of natural
  -- numbers, so no sum of the code has wrapped.
  pub validate_transaction_inputs-conserves :
      (height : ℕ) (p : ChainParams) (header : BlockHeader) (first : Transaction)
      (txs : List Transaction) {fees : ℕ}
      → ValuesFit s
      → is_coinbase first ≡ true
      → All (λ (tx : Transaction). is_coinbase tx ≡ false) txs
      → All (λ (o : TxOutput). o.value < 2 ^ 64) first.outputs
      → p.initial_subsidy < 2 ^ 64
      → validate_transaction_inputs sha ripemd curve
          (record { header = header; transactions = first ∷ txs })
          s
          height
          p
        ≡ ok fees
      → (fees + total_outputs txs ≡ total_inputs s txs)
        × (total_outputs (first ∷ txs) ≤ calc_subsidy p height + total_inputs s txs)
  unfolding validate_transaction_inputs total_outputs
  validate_transaction_inputs-conserves height p header first txs fit coinbase plain outs sub h =
      let (total_fees, walked, h1) =
        >>=-eq-ok (validate_block_txs sha ripemd curve s height p [] 0 (first ∷ txs)) _ h in
      let (most, rewarded, h2) =
        >>=-eq-ok (add_u64 (calc_subsidy p height) total_fees reward_overflow) _ h1 in
      let (value, paid, h3) = >>=-eq-ok (add_coinbase_outputs 0 first.outputs) _ h2 in
      let (within, h4) = fail_if-eq-ok (ltb most value) coinbase_excess _ h3 in
      let e = ok-injective h4 in
      let walked' = sym (validate_block_txs_coinbase height p [] 0 first txs coinbase) ∙ walked in
      let (_, _, rest) = >>=-eq-ok (check_coinbase_outputs first.outputs) _ walked' in
      let (e1, small1) = validate_block_txs-eq-ok height p [] 0 txs fit (omega arith) plain rest in
      let (e2, _) =
        add_u64-eq-ok (calc_subsidy p height) total_fees reward_overflow
          (omega (arith, calc_subsidy-le p height)) small1 rewarded in
      let (e3, _) = add_coinbase_outputs-eq-ok 0 first.outputs (omega arith) outs paid in
      (omega arith, ground arith)

  pub validate_single_transaction-eq-ok :
      (tip_height : ℕ) (p : ChainParams) (tx : Transaction) {fee : ℕ}
      → ValuesFit s
      → validate_single_transaction sha ripemd curve tx s tip_height p ≡ ok fee
      → (fee + outputs_value tx.outputs ≡ inputs_value s tx.inputs)
        × (inputs_value s tx.inputs < 2 ^ 64)
        × (is_coinbase tx ≡ false)
  unfolding validate_single_transaction
  validate_single_transaction-eq-ok tip_height p tx fit h =
      let (plain, h0) = fail_if-eq-ok (is_coinbase tx) lone_coinbase _ h in
      let (_, h1) = fail_if-eq-ok (length tx.inputs == 0) no_inputs _ h0 in
      let (_, h2) = fail_if-eq-ok (length tx.outputs == 0) no_outputs _ h1 in
      let (total_in, ins, h3) =
        >>=-eq-ok (add_inputs s ((tip_height + 1) % 2 ^ 32) p [] 0 tx.inputs) _ h2 in
      let (total_out, outs, h4) = >>=-eq-ok (add_outputs 0 tx.outputs) _ h3 in
      let (enough, h5) = fail_if-eq-ok (ltb total_in total_out) insufficient_input _ h4 in
      let (_, scripts, h6) = >>=-eq-ok (check_scripts sha ripemd curve s tx 0 tx.inputs) _ h5 in
      let e = ok-injective h6 in
      let (e_in, small) =
        add_inputs-eq-ok s ((tip_height + 1) % 2 ^ 32) p [] 0 tx.inputs fit (omega arith) ins in
      let (e_out, _) = add_outputs-eq-ok 0 tx.outputs (omega arith) outs in
      (ground arith, omega arith, plain)
