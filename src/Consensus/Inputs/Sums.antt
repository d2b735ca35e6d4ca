-- ===== src/Consensus/Inputs/Sums.antt =====
-- What the checked uint64 sums of internal/consensus/txvalidation.go amount to.
use fairchain.Base.{
  ℕ, ◌+◌, ◌%◌, ◌^◌, ◌<◌, ◌≡◌, refl, arith, true, List, [], ◌∷◌, some, All, ltb, ◌==◌, ok, or_fail,
  >>=-eq-ok, fail_if-eq-ok, or_fail-eq-ok, ok-injective, ok-eq,
}
use fairchain.Base.KeyMap.{KeySet, lookup, insert, contains}
use fairchain.Types.Transaction.{TxInput, TxOutput}
use fairchain.Params.{ChainParams}
use fairchain.Utxo.Entry.{UtxoEntry}
use fairchain.Utxo.Set.{UtxoSet, get}
use fairchain.Consensus.Inputs.Defs.{
  TxError, zero_value, duplicate_input, double_spend, missing_utxo, above_max_money,
  output_overflow, input_overflow, coinbase_overflow, max_money_value, add_u64, spent_key_of,
  entry_at, check_maturity, add_input, add_block_inputs, add_inputs, add_outputs,
  add_coinbase_outputs, value_at,
}

-- The values of the set are those of uint64 fields.
abbrev pub ValuesFit : UtxoSet → Type 0
ValuesFit s = (key : List ℕ) (entry : UtxoEntry) → lookup key s ≡ some entry → entry.value < 2 ^ 64

-- The sums without a bound.
unfoldable pub inputs_value : UtxoSet → List TxInput → ℕ
inputs_value s [] = 0
inputs_value s (i ∷ is) = value_at s i + inputs_value s is

unfoldable pub outputs_value : List TxOutput → ℕ
outputs_value [] = 0
outputs_value (o ∷ os) = o.value + outputs_value os

pub add_u64-eq-ok :
    (total value : ℕ) (why : TxError) {sum : ℕ}
    → total < 2 ^ 64
    → value < 2 ^ 64
    → add_u64 total value why ≡ ok sum
    → (sum ≡ total + value) × (sum < 2 ^ 64)
unfolding add_u64
add_u64-eq-ok total value why small_total small h =
    let (kept, e) = fail_if-eq-ok _ why (ok ((total + value) % 2 ^ 64)) h in
    let e' = ok-injective e in (ground arith, ground arith)

pub add_input-eq-ok :
    (s : UtxoSet) (height : ℕ) (p : ChainParams) (i : TxInput) (total_in : ℕ) {sum : ℕ}
    → ValuesFit s
    → total_in < 2 ^ 64
    → add_input s height p i total_in ≡ ok sum
    → (sum ≡ total_in + value_at s i) × (sum < 2 ^ 64) × (contains (spent_key_of i) s ≡ true)
unfolding add_input value_at contains get
add_input-eq-ok s height p i total_in fit small h =
    let (entry, found, h1) = >>=-eq-ok (or_fail (entry_at s i) missing_utxo) _ h in
    let there = or_fail-eq-ok (entry_at s i) missing_utxo found in
    let (checked, mature, h2) = >>=-eq-ok (check_maturity p height entry) _ h1 in
    let (e, bound) =
      add_u64-eq-ok total_in entry.value input_overflow small (fit (spent_key_of i) entry there)
        h2 in
    let worth : value_at s i ≡ entry.value = rw (there, value_at) refl in
    let known : contains (spent_key_of i) s ≡ true = rw (there, contains) refl in
    (omega arith, bound, known)

pub add_block_inputs-eq-ok :
    (s : UtxoSet) (height : ℕ) (p : ChainParams) (seen spent : KeySet) (total_in : ℕ)
    (is : List TxInput) {total : ℕ} {spent' : KeySet}
    → ValuesFit s
    → total_in < 2 ^ 64
    → add_block_inputs s height p seen spent total_in is ≡ ok (total, spent')
    → (total ≡ total_in + inputs_value s is) × (total < 2 ^ 64)
unfolding add_block_inputs inputs_value
add_block_inputs-eq-ok s height p seen spent total_in [] fit small h =
    let (e, _) = ok-eq h in (omega arith, omega arith)
add_block_inputs-eq-ok s height p seen spent total_in (i ∷ is) fit small h =
    let (fresh, h1) = fail_if-eq-ok (contains (spent_key_of i) seen) duplicate_input _ h in
    let (unspent, h2) = fail_if-eq-ok (contains (spent_key_of i) spent) double_spend _ h1 in
    let (sum, added, h3) = >>=-eq-ok (add_input s height p i total_in) _ h2 in
    let (e, bound, _) = add_input-eq-ok s height p i total_in fit small added in
    let (e', bound') =
      add_block_inputs-eq-ok s height p (insert (spent_key_of i) tt seen)
        (insert (spent_key_of i) tt spent) sum is fit bound h3 in
    (omega arith, bound')

pub add_inputs-eq-ok :
    (s : UtxoSet) (height : ℕ) (p : ChainParams) (seen : KeySet) (total_in : ℕ) (is : List TxInput)
    {total : ℕ}
    → ValuesFit s
    → total_in < 2 ^ 64
    → add_inputs s height p seen total_in is ≡ ok total
    → (total ≡ total_in + inputs_value s is) × (total < 2 ^ 64)
unfolding add_inputs inputs_value
add_inputs-eq-ok s height p seen total_in [] fit small h =
    let e = ok-injective h in (omega arith, omega arith)
add_inputs-eq-ok s height p seen total_in (i ∷ is) fit small h =
    let (fresh, h1) = fail_if-eq-ok (contains (spent_key_of i) seen) duplicate_input _ h in
    let (sum, added, h2) = >>=-eq-ok (add_input s height p i total_in) _ h1 in
    let (e, bound, _) = add_input-eq-ok s height p i total_in fit small added in
    let (e', bound') =
      add_inputs-eq-ok s height p (insert (spent_key_of i) tt seen) sum is fit bound h2 in
    (omega arith, bound')

pub add_outputs-eq-ok :
    (total_out : ℕ) (os : List TxOutput) {total : ℕ}
    → total_out < 2 ^ 64
    → add_outputs total_out os ≡ ok total
    → (total ≡ total_out + outputs_value os) × (total < 2 ^ 64)
unfolding add_outputs outputs_value
add_outputs-eq-ok total_out [] small h = let e = ok-injective h in (omega arith, omega arith)
add_outputs-eq-ok total_out (o ∷ os) small h =
    let (positive, h1) = fail_if-eq-ok (o.value == 0) zero_value _ h in
    let (fits, h2) = fail_if-eq-ok (ltb max_money_value o.value) above_max_money _ h1 in
    let (sum, added, h3) = >>=-eq-ok (add_u64 total_out o.value output_overflow) _ h2 in
    let (e, bound) = add_u64-eq-ok total_out o.value output_overflow small (ground arith) added in
    let (e', bound') = add_outputs-eq-ok sum os bound h3 in (omega arith, bound')

pub add_coinbase_outputs-eq-ok :
    (total_out : ℕ) (os : List TxOutput) {total : ℕ}
    → total_out < 2 ^ 64
    → All (λ (o : TxOutput). o.value < 2 ^ 64) os
    → add_coinbase_outputs total_out os ≡ ok total
    → (total ≡ total_out + outputs_value os) × (total < 2 ^ 64)
unfolding add_coinbase_outputs outputs_value
add_coinbase_outputs-eq-ok total_out [] small fit h =
    let e = ok-injective h in (omega arith, omega arith)
add_coinbase_outputs-eq-ok total_out (o ∷ os) small fit h =
    let (sum, added, h1) = >>=-eq-ok (add_u64 total_out o.value coinbase_overflow) _ h in
    let (e, bound) = add_u64-eq-ok total_out o.value coinbase_overflow small fit.0 added in
    let (e', bound') = add_coinbase_outputs-eq-ok sum os bound fit.1 h1 in (omega arith, bound')
