-- ===== src/Consensus/Inputs/Fee.antt =====
-- `CalcTxFee` against `ValidateSingleTransaction` (internal/consensus/txvalidation.go).
use fairchain.Base.{
  ℕ, ◌+◌, ◌-◌, ◌%◌, ◌^◌, ◌<◌, ◌≡◌, arith, false, List, [], ◌∷◌, some, ltb, leb, if◌then◌else◌, ok,
}
use fairchain.Types.Transaction.{TxInput, TxOutput, Transaction}
use fairchain.Crypto.Digest.{Sha256}
use fairchain.Crypto.Keys.{Ripemd160}
use fairchain.Script.Machine.{Curve}
use fairchain.Params.{ChainParams}
use fairchain.Utxo.Set.{UtxoSet}
use fairchain.Consensus.Inputs.Defs.{
  validate_single_transaction, value_at, fee_inputs, fee_outputs, calc_tx_fee,
}
use fairchain.Consensus.Inputs.Sums.{ValuesFit, inputs_value, outputs_value}
use fairchain.Consensus.Inputs.Money.{validate_single_transaction-eq-ok}

fee_inputs-inputs_value :
    (s : UtxoSet) (total : ℕ) (is : List TxInput)
    → total + inputs_value s is < 2 ^ 64
    → fee_inputs s total is ≡ some (total + inputs_value s is)
unfolding fee_inputs inputs_value
fee_inputs-inputs_value s total [] h = let e : total + 0 ≡ total = omega arith in rw e
fee_inputs-inputs_value s total (i ∷ is) h =
    let kept : (total + value_at s i) % 2 ^ 64 ≡ total + value_at s i = omega arith in
    let fits : ltb (total + value_at s i) total ≡ false = ground arith in
    let e : total + (value_at s i + inputs_value s is) ≡ total + value_at s i + inputs_value s is =
      omega arith in
    rw (kept, fits, e) (fee_inputs-inputs_value s (total + value_at s i) is (omega arith))

fee_outputs-outputs_value :
    (total : ℕ) (os : List TxOutput)
    → total + outputs_value os < 2 ^ 64
    → fee_outputs total os ≡ some (total + outputs_value os)
unfolding fee_outputs outputs_value
fee_outputs-outputs_value total [] h = let e : total + 0 ≡ total = omega arith in rw e
fee_outputs-outputs_value total (o ∷ os) h =
    let kept : (total + o.value) % 2 ^ 64 ≡ total + o.value = omega arith in
    let fits : ltb (total + o.value) total ≡ false = ground arith in
    let e : total + (o.value + outputs_value os) ≡ total + o.value + outputs_value os =
      omega arith in
    rw (kept, fits, e) (fee_outputs-outputs_value (total + o.value) os (omega arith))

-- Against a set whose values are uint64, a transaction that is accepted for the mempool with a fee
-- spends exactly what it pays and the fee, as sums of natural numbers, and `CalcTxFee` computes
-- the same fee.
pub validate_single_transaction-calc_tx_fee :
    (sha : Sha256) (ripemd : Ripemd160) {Signature PubKey : Type 0} (curve : Curve Signature PubKey)
    (s : UtxoSet) (tip_height : ℕ) (p : ChainParams) (tx : Transaction) {fee : ℕ}
    → ValuesFit s
    → validate_single_transaction sha ripemd curve tx s tip_height p ≡ ok fee
    → (fee + outputs_value tx.outputs ≡ inputs_value s tx.inputs) × (calc_tx_fee tx s ≡ fee)
unfolding calc_tx_fee
validate_single_transaction-calc_tx_fee sha ripemd curve s tip_height p tx {fee} fit h =
    let (e, small, plain) =
      validate_single_transaction-eq-ok sha ripemd curve s tip_height p tx fit h in
    let ins = fee_inputs-inputs_value s 0 tx.inputs (omega arith) in
    let outs = fee_outputs-outputs_value 0 tx.outputs (omega arith) in
    let rest : (if leb (0 + inputs_value s tx.inputs) (0 + outputs_value tx.outputs)
          then 0
          else (0 + inputs_value s tx.inputs - (0 + outputs_value tx.outputs)))
        ≡ fee =
      ground arith in
    (e, rw (plain, ins, outs) rest)
