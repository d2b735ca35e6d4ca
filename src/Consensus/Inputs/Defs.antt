-- ===== src/Consensus/Inputs/Defs.antt =====
-- `ValidateTransactionInputs`, `ValidateSingleTransaction` and `CalcTxFee`
-- (internal/consensus/txvalidation.go).
use fairchain.Base.{
  ℕ, ◌+◌, ◌-◌, ◌%◌, ◌^◌, true, false, ◌&&◌, List, [], ◌∷◌, Option, none, some, length, ltb, leb,
  ◌==◌, if◌then◌else◌, Outcome, ok, err, panic, ◌>>=◌, ◌>>◌, fail_if, or_fail,
}
use fairchain.Base.KeyMap.{KeySet, insert, contains}
use fairchain.Types.Transaction.{TxInput, TxOutput, Transaction, is_coinbase}
use fairchain.Types.Block.{Block}
use fairchain.Crypto.Digest.{Sha256}
use fairchain.Crypto.Keys.{Ripemd160}
use fairchain.Script.Machine.{Curve, ScriptError, verify, is_legacy_unvalidated_script}
use fairchain.Params.{ChainParams, calc_subsidy}
use fairchain.Utxo.Entry.{UtxoEntry, outpoint_key}
use fairchain.Utxo.Set.{UtxoSet, get}

pub data TxError : Type 0 where
  zero_value no_inputs no_outputs duplicate_input double_spend missing_utxo : TxError
  spent_before_creation immature input_overflow above_max_money output_overflow : TxError
  insufficient_input script_failed fees_overflow reward_overflow coinbase_overflow : TxError
  coinbase_excess lone_coinbase : TxError

-- `params.MaxMoneyValue`
abbrev pub max_money_value : ℕ
max_money_value = 2_099_999_997_690_000

-- `a + b < a` is the test for a uint64 sum that wrapped.
unfoldable pub add_u64 : ℕ → ℕ → TxError → Outcome TxError ℕ
add_u64 total value why = do
  fail_if (ltb ((total + value) % 2 ^ 64) total) why
  ok ((total + value) % 2 ^ 64)

abbrev pub spent_key_of : TxInput → List ℕ
spent_key_of i = outpoint_key i.previous_out_point.hash i.previous_out_point.index

abbrev pub entry_at : UtxoSet → TxInput → Option UtxoEntry
entry_at s i = get s i.previous_out_point.hash i.previous_out_point.index

unfoldable pub check_maturity : ChainParams → ℕ → UtxoEntry → Outcome TxError (Unit {0})
check_maturity p height entry = do
  fail_if (entry.is_coinbase && ltb height entry.height) spent_before_creation
  fail_if (entry.is_coinbase && ltb (height - entry.height) p.coinbase_maturity) immature

-- The part of the loop over the inputs that both functions share.
unfoldable pub add_input : UtxoSet → ℕ → ChainParams → TxInput → ℕ → Outcome TxError ℕ
add_input s height p i total_in = do
  entry ← or_fail (entry_at s i) missing_utxo
  check_maturity p height entry
  add_u64 total_in entry.value input_overflow

-- What the inputs of a transaction of a block leave: their value, and the outpoints spent so far.
unfoldable pub add_block_inputs :
    UtxoSet → ℕ → ChainParams → KeySet → KeySet → ℕ → List TxInput → Outcome TxError (ℕ × KeySet)
add_block_inputs s height p seen spent total_in [] = ok (total_in, spent)
add_block_inputs s height p seen spent total_in (i ∷ is) = do
  fail_if (contains (spent_key_of i) seen) duplicate_input
  fail_if (contains (spent_key_of i) spent) double_spend
  sum ← add_input s height p i total_in
  add_block_inputs s height p (insert (spent_key_of i) tt seen) (insert (spent_key_of i) tt spent)
      sum is

unfoldable pub add_inputs :
    UtxoSet → ℕ → ChainParams → KeySet → ℕ → List TxInput → Outcome TxError ℕ
add_inputs s height p seen total_in [] = ok total_in
add_inputs s height p seen total_in (i ∷ is) = do
  fail_if (contains (spent_key_of i) seen) duplicate_input
  sum ← add_input s height p i total_in
  add_inputs s height p (insert (spent_key_of i) tt seen) sum is

unfoldable pub add_outputs : ℕ → List TxOutput → Outcome TxError ℕ
add_outputs total_out [] = ok total_out
add_outputs total_out (o ∷ os) = do
  fail_if (o.value == 0) zero_value
  fail_if (ltb max_money_value o.value) above_max_money
  sum ← add_u64 total_out o.value output_overflow
  add_outputs sum os

-- The coinbase's outputs may not be zero while the block is walked.
unfoldable pub check_coinbase_outputs : List TxOutput → Outcome TxError (Unit {0})
check_coinbase_outputs [] = ok tt
check_coinbase_outputs (o ∷ os) = do fail_if (o.value == 0) zero_value; check_coinbase_outputs os

unfoldable pub add_coinbase_outputs : ℕ → List TxOutput → Outcome TxError ℕ
add_coinbase_outputs total [] = ok total
add_coinbase_outputs total (o ∷ os) = do
  sum ← add_u64 total o.value coinbase_overflow
  add_coinbase_outputs sum os

abbrev pub wrap_script_error : Outcome ScriptError (Unit {0}) → Outcome TxError (Unit {0})
wrap_script_error panic = panic
wrap_script_error (err e) = err script_failed
wrap_script_error (ok t) = ok tt

module _ (sha : Sha256) (ripemd : Ripemd160) {Signature PubKey : Type 0}
    (curve : Curve Signature PubKey) where
  unfoldable pub check_script : UtxoSet → Transaction → ℕ → TxInput → Outcome TxError (Unit {0})
  check_script s tx in_idx i = elim (entry_at s i) [
    | none ↦ ok tt
    | some entry ↦
        if is_legacy_unvalidated_script entry.pk_script
        then ok tt
        else wrap_script_error
            (verify sha ripemd curve i.signature_script entry.pk_script tx in_idx)
  ]

  unfoldable pub check_scripts :
      UtxoSet → Transaction → ℕ → List TxInput → Outcome TxError (Unit {0})
  check_scripts s tx in_idx [] = ok tt
  check_scripts s tx in_idx (i ∷ is) = do
    check_script s tx in_idx i
    check_scripts s tx (in_idx + 1) is

  -- A transaction that is no coinbase: its fee, and the outpoints spent with its own.
  unfoldable pub validate_block_tx :
      UtxoSet → ℕ → ChainParams → KeySet → Transaction → Outcome TxError (ℕ × KeySet)
  validate_block_tx s height p spent tx = do
    fail_if (length tx.inputs == 0) no_inputs
    fail_if (length tx.outputs == 0) no_outputs
    r ← add_block_inputs s height p [] spent 0 tx.inputs
    total_out ← add_outputs 0 tx.outputs
    fail_if (ltb r.0 total_out) insufficient_input
    check_scripts s tx 0 tx.inputs
    ok (r.0 - total_out, r.1)

  unfoldable pub validate_block_txs :
      UtxoSet → ℕ → ChainParams → KeySet → ℕ → List Transaction → Outcome TxError ℕ
  validate_block_txs s height p spent total_fees [] = ok total_fees
  validate_block_txs s height p spent total_fees (tx ∷ txs) = elim (is_coinbase tx) [
    | true ↦ do
      check_coinbase_outputs tx.outputs
      validate_block_txs s height p spent total_fees txs
    | false ↦ do
      r ← validate_block_tx s height p spent tx
      fees ← add_u64 total_fees r.0 fees_overflow
      validate_block_txs s height p r.1 fees txs
  ]

  -- `block.Transactions[0]` panics on a block without transactions.
  unfoldable pub validate_transaction_inputs : Block → UtxoSet → ℕ → ChainParams → Outcome TxError ℕ
  validate_transaction_inputs block s height p = do
    total_fees ← validate_block_txs s height p [] 0 block.transactions
    max_coinbase ← add_u64 (calc_subsidy p height) total_fees reward_overflow
    coinbase_value ← elim block.transactions [
      | [] ↦ panic
      | tx ∷ txs ↦ add_coinbase_outputs 0 tx.outputs
    ]
    fail_if (ltb max_coinbase coinbase_value) coinbase_excess
    ok total_fees

  -- `tipHeight + 1` is a uint32.
  unfoldable pub validate_single_transaction :
      Transaction → UtxoSet → ℕ → ChainParams → Outcome TxError ℕ
  validate_single_transaction tx s tip_height p = do
    fail_if (is_coinbase tx) lone_coinbase
    fail_if (length tx.inputs == 0) no_inputs
    fail_if (length tx.outputs == 0) no_outputs
    total_in ← add_inputs s ((tip_height + 1) % 2 ^ 32) p [] 0 tx.inputs
    total_out ← add_outputs 0 tx.outputs
    fail_if (ltb total_in total_out) insufficient_input
    check_scripts s tx 0 tx.inputs
    ok (total_in - total_out)

-- The value of the output that an input spends, nothing where there is none.
unfoldable pub value_at : UtxoSet → TxInput → ℕ
value_at s i = elim (entry_at s i) [ none ↦ 0 | some entry ↦ entry.value ]

-- The two sums of `CalcTxFee`: `none` where it returns 0 because a sum wrapped.
unfoldable pub fee_inputs : UtxoSet → ℕ → List TxInput → Option ℕ
unfolding value_at
fee_inputs s total_in [] = some total_in
fee_inputs s total_in (i ∷ is) =
    let rest = fee_inputs s ((total_in + value_at s i) % 2 ^ 64) is in
    if ltb ((total_in + value_at s i) % 2 ^ 64) total_in then none else rest

unfoldable pub fee_outputs : ℕ → List TxOutput → Option ℕ
fee_outputs total_out [] = some total_out
fee_outputs total_out (o ∷ os) =
    let rest = fee_outputs ((total_out + o.value) % 2 ^ 64) os in
    if ltb ((total_out + o.value) % 2 ^ 64) total_out then none else rest

unfoldable pub calc_tx_fee : Transaction → UtxoSet → ℕ
calc_tx_fee tx s = if is_coinbase tx then 0 else elim (fee_inputs s 0 tx.inputs) [
  | none ↦ 0
  | some total_in ↦ elim (fee_outputs 0 tx.outputs) [
    | none ↦ 0
    | some total_out ↦ if leb total_in total_out then 0 else (total_in - total_out)
  ]
]
