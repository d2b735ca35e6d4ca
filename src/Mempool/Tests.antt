-- ===== src/Mempool/Tests.antt =====
-- A pool with one payment, and the theorems of the pool at it.
use fairchain.Base.{◌≡◌, refl, true, some, ok}
use fairchain.Base.Bytes.{bytes_eq, bytes_eq_refl, put_le}
use fairchain.Base.KeyMap.{lookup, insert, contains, member}
use fairchain.Types.Hash.{Hash, is_zero}
use fairchain.Types.Transaction.{is_coinbase, input_is_coinbase}
use fairchain.Crypto.Sample.{sample_sha}
use fairchain.Crypto.Digest.{hash_transaction}
use fairchain.Script.Machine.{
  verify, byte_at, execute, run, round, step, check_final, is_true, is_legacy_unvalidated_script,
}
use fairchain.Script.Tests.{sample_ripemd, sample_curve}
use fairchain.Utxo.Entry.{outpoint_key}
use fairchain.Utxo.Set.{get}
use fairchain.Consensus.Inputs.{
  add_u64, check_maturity, add_input, add_inputs, add_outputs, check_script, check_scripts,
  validate_single_transaction,
}
use fairchain.Consensus.Tests.{coin, coins, params, payment}
use fairchain.Mempool.{
  TxEntry, Mempool, input_keys, conflicts, entry_for, store, add_tx, new_mempool,
}
use fairchain.Mempool.Consistency.{IsConsistent}
use fairchain.Mempool.Steps.{Step, Reachable, Reachable-IsConsistent, Reachable-no_double_spend}

abbrev payment_hash : Hash
payment_hash = hash_transaction sample_sha payment

abbrev entry : TxEntry
entry = entry_for payment payment_hash 1

abbrev pool : Mempool
pool = store (new_mempool params coins) entry

payment_added :
    add_tx sample_sha sample_ripemd sample_curve (new_mempool params coins) payment
    ≡ ok (pool, payment_hash)
unfolding add_tx validate_single_transaction add_inputs add_input add_outputs check_maturity
    check_scripts check_script add_u64 get outpoint_key lookup insert contains bytes_eq put_le
    is_coinbase input_is_coinbase is_zero verify byte_at execute run round step check_final is_true
    is_legacy_unvalidated_script conflicts
payment_added = refl

pool-Reachable : Reachable sample_sha sample_ripemd sample_curve params coins pool
pool-Reachable = Reachable.next (Reachable.start refl) (Step.added payment payment_added)

Reachable-IsConsistent_example : IsConsistent pool
Reachable-IsConsistent_example =
    Reachable-IsConsistent sample_sha sample_ripemd sample_curve params coins pool-Reachable

payment_stands : lookup payment_hash pool.txs ≡ some entry
unfolding store insert lookup
payment_stands = rw (bytes_eq_refl payment_hash) refl

payment_spends_coin : member (outpoint_key coin 0) (input_keys payment.inputs) ≡ true
unfolding member
payment_spends_coin = rw (bytes_eq_refl (outpoint_key coin 0)) refl

Reachable-no_double_spend_example : payment_hash ≡ payment_hash
Reachable-no_double_spend_example =
    Reachable-no_double_spend sample_sha sample_ripemd sample_curve params coins payment_hash
      payment_hash entry entry (outpoint_key coin 0) pool-Reachable payment_stands payment_stands
      payment_spends_coin payment_spends_coin
