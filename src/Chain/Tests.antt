-- ===== src/Chain/Tests.antt =====
-- A chain of a genesis block and its children over a store in memory, and the theorems at it.
use fairchain.Base.{
  ℕ, ◌≡◌, refl, Bool, true, false, List, [], ◌∷◌, none, some, ok, err, length, replicate, arith,
  All-append, length-append, ◌∙◌, Bool-cases, inl, inr, map, ◌<◌, ◌≤◌, ◌++◌, ◌-◌,
}
use fairchain.Types.Hash.{Hash, zero_hash, is_zero}
use fairchain.Types.Transaction.{Transaction}
use fairchain.Types.Block.{Block, serialize_header}
use fairchain.Crypto.Sample.{sample_sha}
use fairchain.Crypto.Digest.{
  hash_block_header, hash_transaction, double_sha256, double_sha256-IsHash,
}
use fairchain.Params.{ChainParams, calc_subsidy}
use fairchain.Consensus.Timestamp.{prev_plus_1, check_rule, validate_header_timestamp}
use fairchain.Consensus.Tests.{params, coinbase}
use fairchain.Base.KeyMap.{lookup, insert, contains, erase, member}
use fairchain.Utxo.Entry.{outpoint_key}
use fairchain.Store.Index.{put, utxo_key}
use fairchain.Utxo.Connect.{
  remove_keys, created_keys, connect_outputs, add_unspent, connect_tx, connect_txs, connect_block,
  output_keys, disconnect_block,
}
use fairchain.Chain.Locator.{block_locator}
use fairchain.Chain.State.{store_undo, World, new_chain, ◌>>=◌, hash_at, HeightMap}
use fairchain.Chain.Accept.{
  process_block, accept_block, check_block, work_for_parent_chain, accept_checked, accept_tip,
  or_disconnect,
}
use fairchain.Chain.Sample.{MemoryStore, empty_store, memory_db, env}
use fairchain.Base.Bytes.{
  bytes_eq, put_le, le_value, bytes_eq_iff, IsByte, put_le-IsByte, length-put_le,
}
use fairchain.Types.Transaction.{
  input_is_coinbase, is_coinbase, serialize, serialize_input, serialize_output, put_script,
}
use fairchain.Types.Varint.{put_varint}
use fairchain.Crypto.Target.{size_of, compact_to_big, calc_work}
use fairchain.Consensus.Inputs.{
  add_u64, check_coinbase_outputs, add_coinbase_outputs, validate_block_txs,
  validate_transaction_inputs,
}
use fairchain.Chain.Reorg.{connect_tip}
use fairchain.Chain.Safety.Tips.{index_of}
use fairchain.Chain.Safety.Blocks.{process_block-index_of, process_block-utxo_set}
use fairchain.Chain.Safety.Clone.{IsUtxoKey}
use mathlib.Core.Path.{subst}
use fairchain.Chain.Choice.Process.{process_block-TipPath}
use fairchain.Chain.Choice.Path.{TipPath, tip_of}
use fairchain.Chain.Locator.Descent.{block_locator-DownToZero, DownToZero}
use fairchain.Types.Reader.{put_all}
use fairchain.Chain.Ancestors.{build_ancestor_lookup}
use fairchain.Chain.Ancestors.Walk.{header_back, Linked, build_ancestor_lookup-header_back}
use fairchain.Consensus.Inputs.Disconnects.{disconnect-validate_transaction_inputs}
use fairchain.Utxo.Set.{UtxoSet}
use fairchain.Script.Tests.{sample_ripemd, sample_curve}

abbrev genesis : Block
genesis = record {
  header = record {
    version = 1;
    prev_block = zero_hash;
    merkle_root = zero_hash;
    timestamp = 0;
    bits = 0x207f_ffff;
    nonce = 0;
  };
  transactions = coinbase ∷ [];
}

abbrev chain_params : ChainParams
chain_params = record params {
  genesis_block = genesis;
  genesis_hash = zero_hash;
  min_timestamp_rule = prev_plus_1;
}

abbrev genesis_hash : Hash
genesis_hash = hash_block_header sample_sha genesis.header

abbrev held : UtxoSet
held =
    (
      outpoint_key (hash_transaction sample_sha coinbase) 0,
      record { value = 51; pk_script = 0x51 ∷ []; height = 0; is_coinbase = true },
    )
    ∷ []

-- The chain as `Init` leaves it on an empty store.
abbrev started : Bool → World MemoryStore
started full = record {
  chain = record (new_chain chain_params) {
    tip_hash = genesis_hash;
    tip_work = 2;
    height_by_hash = (genesis_hash, 0) ∷ [];
    hash_by_height = (0, genesis_hash) ∷ [];
    utxo_set = held;
  };
  store = record (empty_store full) {
    blocks = (genesis_hash, genesis) ∷ [];
    indexes =
        (
          genesis_hash,
          record {
            header = genesis.header;
            height = 0;
            status = 21;
            tx_count = 1;
            file_num = 0;
            data_pos = 0;
            data_size = 0;
            undo_file = 0;
            undo_pos = 0;
            undo_size = 0;
            chain_work = some 2;
          },
        )
        ∷ [];
    tip = some (genesis_hash, 0);
    writes = put (utxo_key (hash_transaction sample_sha coinbase) 0) (51 ∷ []) ∷ [];
  };
}

abbrev child_coinbase : Transaction
child_coinbase = record coinbase {
  version = 7;
  outputs = record { value = 9; pk_script = 0x51 ∷ [] } ∷ [];
}

abbrev child : Block
child = record {
  header = record genesis.header {
    version = 2;
    prev_block = hash_block_header sample_sha genesis.header;
    timestamp = 5;
  };
  transactions = child_coinbase ∷ [];
}

-- The undo data cannot be written.
child_refused : (process_block env child (started true)).0 ≡ err store_undo
unfolding bytes_eq put_le le_value lookup insert contains erase double_sha256 hash_block_header
    hash_transaction serialize_header input_is_coinbase is_coinbase serialize serialize_input
    serialize_output put_script put_varint is_zero size_of compact_to_big calc_work calc_subsidy
    outpoint_key connect_outputs add_unspent connect_tx connect_txs connect_block add_u64
    check_coinbase_outputs add_coinbase_outputs validate_block_txs validate_transaction_inputs
    check_rule validate_header_timestamp new_chain ◌>>=◌ connect_tip process_block accept_block
    check_block work_for_parent_chain accept_checked accept_tip or_disconnect
child_refused = refl

process_block-index_of_example :
    index_of (process_block env child (started true)).1.chain ≡ index_of (started true).chain
process_block-index_of_example =
    process_block-index_of env child (started true) store_undo child_refused (λ e. cc e)

child_key : List ℕ
child_key = 7 ∷ (0 ∷ (0 ∷ (0 ∷ (1 ∷ replicate 31 0))))

child_fresh :
    (j : List ℕ)
    → member j (created_keys sample_sha child.transactions) ≡ true
    → lookup j (started true).chain.utxo_set ≡ none
unfolding member created_keys output_keys lookup bytes_eq put_le le_value double_sha256
    hash_transaction serialize serialize_input serialize_output put_script put_varint outpoint_key
    new_chain child_key put_all
child_fresh j h = elim (Bool-cases (bytes_eq child_key j)) [
  | inl same ↦
      subst (λ k. lookup k (started true).chain.utxo_set ≡ none) ((bytes_eq_iff child_key j).0 same)
        refl
  | inr other ↦ absurd (cc (h, other))
]

coin_key-IsUtxoKey :
    (index : ℕ) → IsUtxoKey (outpoint_key (hash_transaction sample_sha coinbase) index)
unfolding outpoint_key hash_transaction
coin_key-IsUtxoKey index =
    let (long, bytes) = double_sha256-IsHash sample_sha (serialize coinbase) in
    (
      length-append (double_sha256 sample_sha (serialize coinbase)) (put_le 4 index)
          ∙ ground (arith, long, length-put_le 4 index),
      All-append IsByte _ _ bytes (put_le-IsByte 4 index),
    )

process_block-utxo_set_example :
    lookup (outpoint_key genesis_hash 0) (process_block env child (started true)).1.chain.utxo_set
    ≡ lookup (outpoint_key genesis_hash 0) (started true).chain.utxo_set
unfolding new_chain
process_block-utxo_set_example =
    process_block-utxo_set env child (started true) store_undo (outpoint_key genesis_hash 0)
      child_refused (λ e. cc e) (λ e. cc e) child_fresh (coin_key-IsUtxoKey 0, tt)

process_block-TipPath_example :
    TipPath env
      (tip_of (started false).chain)
      (tip_of (process_block env child (started false)).1.chain)
unfolding new_chain
process_block-TipPath_example = process_block-TipPath env child (started false) tt

genesis_indexed :
    (h : ℕ) → h ≤ 0 → hash_at h (started false).chain.hash_by_height ≡ some genesis_hash
unfolding hash_at new_chain
genesis_indexed h le = let same : h ≡ 0 = omega arith in rw same refl

block_locator-DownToZero_example :
    (hs : List ℕ) × (block_locator (started false).chain
      ≡ (genesis_hash ∷ map (λ _. genesis_hash) hs))
    × DownToZero 0 hs
    × (length hs < 43)
unfolding new_chain
block_locator-DownToZero_example =
    block_locator-DownToZero (started false).chain (λ _. genesis_hash) genesis_indexed (omega arith)

child_hash : Hash
child_hash = hash_block_header sample_sha child.header

-- The child is stored beside the main chain.
abbrev beside : MemoryStore
beside = record (empty_store false) {
  blocks = (genesis_hash, genesis) ∷ ((child_hash, child) ∷ []);
}

abbrev main : HeightMap
main = (0, genesis_hash) ∷ []

main-Linked : Linked memory_db beside main
unfolding hash_at
main-Linked h hash header there stored = absurd (ground (arith, there))

child_back : header_back memory_db beside 1 child_hash ≡ some genesis.header
unfolding header_back lookup bytes_eq put_le le_value double_sha256 hash_block_header
    serialize_header is_zero child_hash
child_back = refl

build_ancestor_lookup-header_back_example :
    build_ancestor_lookup memory_db beside main child_hash 1 (1 - 1) ≡ some genesis.header
build_ancestor_lookup-header_back_example =
    build_ancestor_lookup-header_back memory_db beside main main-Linked child_hash 1 1 (omega arith)
      child_back

abbrev held_next : UtxoSet
held_next =
    held
    ++ ((
      outpoint_key (hash_transaction sample_sha child_coinbase) 0,
      record { value = 9; pk_script = 0x51 ∷ []; height = 1; is_coinbase = true },
    )
        ∷ [])

child_valid :
    validate_transaction_inputs sample_sha sample_ripemd sample_curve child held 1 chain_params
    ≡ ok 0
unfolding bytes_eq put_le le_value lookup insert contains erase double_sha256 hash_transaction
    input_is_coinbase is_coinbase serialize serialize_input serialize_output put_script put_varint
    put_all is_zero calc_subsidy outpoint_key connect_outputs add_unspent connect_tx connect_txs
    connect_block add_u64 check_coinbase_outputs add_coinbase_outputs validate_block_txs
    validate_transaction_inputs remove_keys
child_valid = refl

child_connected :
    connect_block sample_sha held child 1 ≡ ok (held_next, record { spent_outputs = [] })
unfolding bytes_eq put_le le_value lookup insert contains erase double_sha256 hash_transaction
    input_is_coinbase is_coinbase serialize serialize_input serialize_output put_script put_varint
    put_all is_zero calc_subsidy outpoint_key connect_outputs add_unspent connect_tx connect_txs
    connect_block add_u64 check_coinbase_outputs add_coinbase_outputs validate_block_txs
    validate_transaction_inputs remove_keys
child_connected = refl

disconnect-validate_transaction_inputs_example :
    lookup
      (outpoint_key genesis_hash 0)
      (disconnect_block sample_sha held_next child (record { spent_outputs = [] }))
    ≡ lookup (outpoint_key genesis_hash 0) held
unfolding new_chain
disconnect-validate_transaction_inputs_example =
    disconnect-validate_transaction_inputs sample_sha sample_ripemd sample_curve held 1 1
      chain_params child child_valid child_connected child_fresh (outpoint_key genesis_hash 0)
