-- ===== src/Consensus/Tests.antt =====
-- A block with a payment, the check of it, and the theorems of the checks at that block.
use fairchain.Base.{
  ℕ, ◌+◌, ◌*◌, ◌≤◌, ◌<◌, ◌≡◌, ◌⊎◌, ◌++◌, inl, inr, Bool-cases, some-eq, refl, arith, true, false,
  List, [], ◌∷◌, Option, some, length, replicate, ok,
}
use fairchain.Base.Bytes.{bytes_eq, put_le, le_value}
use fairchain.Base.KeyMap.{lookup, insert, contains, Distinct}
use fairchain.Types.Hash.{Hash, zero_hash, is_zero}
use fairchain.Types.Varint.{put_varint}
use fairchain.Types.Reader.{put_all}
use fairchain.Types.Transaction.{
  Transaction, coinbase_out_point, is_coinbase, input_is_coinbase, serialize, serialize_input,
  serialize_output, put_script,
}
use fairchain.Types.Block.{Block, BlockHeader, serialize_block, serialize_header}
use fairchain.Crypto.Sample.{sample_sha}
use fairchain.Crypto.Digest.{hash_transaction, double_sha256}
use fairchain.Crypto.Merkle.{
  merkle_root, compute_merkle_root, merkle_loop, pair_up, even_out, combine,
}
use fairchain.Crypto.Merkle.Tree.{Collision}
use fairchain.Script.Machine.{
  verify, byte_at, execute, run, round, step, check_final, is_true, is_legacy_unvalidated_script,
}
use fairchain.Script.Tests.{sample_ripemd, sample_curve}
use fairchain.Params.{ChainParams, calc_subsidy}
use fairchain.Utxo.Entry.{outpoint_key}
use fairchain.Utxo.Set.{UtxoSet, get}
use fairchain.Utxo.Connect.{BlockUndoData, connect_block}
use fairchain.Consensus.Inputs.{
  ValuesFit, inputs_value, outputs_value, add_u64, check_maturity, add_input, add_block_inputs,
  add_inputs, add_outputs, check_coinbase_outputs, add_coinbase_outputs, check_script,
  check_scripts, validate_block_tx, validate_block_txs, validate_transaction_inputs,
  validate_single_transaction, calc_tx_fee,
}
use fairchain.Consensus.Inputs.Money.{total_inputs, total_outputs}
use fairchain.Consensus.Inputs.Connects.{connect_block-validate_transaction_inputs}
use fairchain.Consensus.Inputs.Fee.{validate_single_transaction-calc_tx_fee}
use fairchain.Consensus.Structure.{
  validate_block_structure, check_transactions, check_no_coinbase, check_tx_ids,
}
use fairchain.Consensus.Structure.Accepted.{tx_ids, validate_block_structure-binding}
use fairchain.Consensus.Supply.{total_outputs-le-calc_subsidy}
use fairchain.Consensus.Timestamp.{collect_timestamps, calc_median_time_past, median_count}
use fairchain.Consensus.Timestamp.Median.{count_below, count_above, calc_median_time_past-median}

abbrev pub coin : List ℕ
coin = 7 ∷ replicate 31 0

abbrev pub coinbase : Transaction
coinbase = record {
  version = 1;
  inputs =
      record { previous_out_point = coinbase_out_point; signature_script = []; sequence = 0 } ∷ [];
  outputs = record { value = 51; pk_script = 0x51 ∷ [] } ∷ [];
  lock_time = 0;
}

abbrev pub payment : Transaction
payment = record {
  version = 2;
  inputs =
      record {
        previous_out_point = record { hash = coin; index = 0 };
        signature_script = [];
        sequence = 0;
      }
      ∷ [];
  outputs = record { value = 9; pk_script = 0x51 ∷ [] } ∷ [];
  lock_time = 0;
}

abbrev pub header_with : Hash → BlockHeader
header_with root = record {
  version = 1;
  prev_block = zero_hash;
  merkle_root = root;
  timestamp = 0;
  bits = 0;
  nonce = 0;
}

abbrev pub root : Hash
root =
    double_sha256 sample_sha
      (hash_transaction sample_sha coinbase ++ hash_transaction sample_sha payment)

abbrev pub block : Block
block = record { header = header_with root; transactions = coinbase ∷ (payment ∷ []) }

abbrev pub params : ChainParams
params = record {
  name = [];
  data_dir_name = [];
  network_magic = [];
  default_port = 0;
  address_prefix = 0;
  genesis_block = block;
  genesis_hash = zero_hash;
  target_block_spacing = 0;
  retarget_interval = 1;
  target_timespan = 0;
  max_time_future_drift = 0;
  min_timestamp_rule = [];
  initial_bits = 0;
  min_bits = 0;
  no_retarget = true;
  max_block_size = 1000000;
  max_block_tx_count = 100;
  initial_subsidy = 50;
  subsidy_halving_interval = 0;
  coinbase_maturity = 10;
  max_reorg_depth = 0;
  max_mempool_size = 100;
  min_relay_tx_fee = 1;
  seed_nodes = [];
  activation_heights = [];
}

abbrev pub coins : UtxoSet
coins =
    (
      outpoint_key coin 0,
      record { value = 10; pk_script = 0x51 ∷ []; height = 1; is_coinbase = false },
    )
    ∷ []

pub coins-ValuesFit : ValuesFit coins
unfolding lookup
coins-ValuesFit key entry found = elim (Bool-cases (bytes_eq (outpoint_key coin 0) key)) [
  | inl same ↦ let e = some-eq (rw same at found) in rw (← e) (omega arith)
  | inr other ↦ absurd (cc (rw other at found))
]

structure_accepted : validate_block_structure sample_sha block 0 params ≡ ok tt
unfolding validate_block_structure check_transactions check_no_coinbase check_tx_ids
    compute_merkle_root merkle_root merkle_loop pair_up even_out combine add_coinbase_outputs
    add_u64 outpoint_key lookup insert contains bytes_eq put_le le_value hash_transaction
    double_sha256 serialize serialize_input serialize_output put_script put_varint put_all
    is_coinbase input_is_coinbase is_zero serialize_block serialize_header
structure_accepted = refl

inputs_accepted :
    validate_transaction_inputs sample_sha sample_ripemd sample_curve block coins 0 params ≡ ok 1
unfolding validate_transaction_inputs validate_block_txs validate_block_tx add_block_inputs
    add_input add_outputs check_coinbase_outputs add_coinbase_outputs check_maturity check_scripts
    check_script add_u64 get outpoint_key lookup insert contains bytes_eq put_le is_coinbase
    input_is_coinbase is_zero verify byte_at execute run round step check_final is_true
    is_legacy_unvalidated_script calc_subsidy
inputs_accepted = refl

total_outputs-le-calc_subsidy_example :
    (1 + total_outputs (payment ∷ []) ≡ total_inputs coins (payment ∷ []))
    × (total_outputs (coinbase ∷ (payment ∷ []))
        ≤ calc_subsidy params 0 + total_inputs coins (payment ∷ []))
total_outputs-le-calc_subsidy_example =
    total_outputs-le-calc_subsidy sample_sha sample_ripemd sample_curve coins 0 params block
      coins-ValuesFit (omega arith) (omega arith) structure_accepted inputs_accepted

connect_block-validate_transaction_inputs_example :
    (after : UtxoSet × BlockUndoData) × (connect_block sample_sha coins block 0 ≡ ok after)
connect_block-validate_transaction_inputs_example =
    connect_block-validate_transaction_inputs sample_sha sample_ripemd sample_curve coins 0 0 params
      block inputs_accepted

payment_accepted :
    validate_single_transaction sample_sha sample_ripemd sample_curve payment coins 0 params ≡ ok 1
unfolding validate_single_transaction add_inputs add_input add_outputs check_maturity check_scripts
    check_script add_u64 get outpoint_key lookup insert contains bytes_eq put_le is_coinbase
    input_is_coinbase is_zero verify byte_at execute run round step check_final is_true
    is_legacy_unvalidated_script
payment_accepted = refl

validate_single_transaction-calc_tx_fee_example :
    (1 + outputs_value payment.outputs ≡ inputs_value coins payment.inputs)
    × (calc_tx_fee payment coins ≡ 1)
validate_single_transaction-calc_tx_fee_example =
    validate_single_transaction-calc_tx_fee sample_sha sample_ripemd sample_curve coins 0 params
      payment coins-ValuesFit payment_accepted

validate_block_structure-binding_example :
    ((tx_ids sample_sha block.transactions ≡ tx_ids sample_sha block.transactions)
      ⊎ Collision sample_sha
          (tx_ids sample_sha block.transactions)
          (tx_ids sample_sha block.transactions))
    × Distinct (tx_ids sample_sha block.transactions)
    × Distinct (tx_ids sample_sha block.transactions)
validate_block_structure-binding_example =
    validate_block_structure-binding sample_sha block block 0 params refl refl structure_accepted
      structure_accepted

-- Every block before the tip has its height for a timestamp.
abbrev ancestor : ℕ → Option BlockHeader
ancestor height = some (record {
  version = 1;
  prev_block = zero_hash;
  merkle_root = zero_hash;
  timestamp = height;
  bits = 0;
  nonce = 0;
})

calc_median_time_past-median_example :
    (2
        * count_below
            (calc_median_time_past 20 ancestor)
            (collect_timestamps median_count 0 20 ancestor)
      ≤ length (collect_timestamps median_count 0 20 ancestor))
    × (2
          * count_above
              (calc_median_time_past 20 ancestor)
              (collect_timestamps median_count 0 20 ancestor)
        < length (collect_timestamps median_count 0 20 ancestor))
calc_median_time_past-median_example =
    calc_median_time_past-median 20 ancestor (unfold collect_timestamps in (omega arith))
