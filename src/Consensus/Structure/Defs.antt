-- ===== src/Consensus/Structure/Defs.antt =====
-- `ValidateBlockStructure` and `validateCoinbaseScriptSig` (internal/consensus/validation.go).
use fairchain.Base.{
  ℕ, ◌+◌, ◌%◌, ◌^◌, Bool, true, not, ◌||◌, List, [], ◌∷◌, Option, none, some, length, get_or, slice,
  ltb, ◌==◌, if◌then◌else◌, Outcome, ok, err, panic, ◌>>◌, fail_if,
}
use fairchain.Base.Bytes.{bytes_eq, le_value}
use fairchain.Base.KeyMap.{KeySet, insert, contains}
use fairchain.Types.Hash.{Hash}
use fairchain.Types.Transaction.{TxInput, Transaction, is_coinbase}
use fairchain.Types.Block.{Block, BlockHeader, serialize_block}
use fairchain.Crypto.Digest.{Sha256, hash_transaction}
use fairchain.Crypto.Merkle.{compute_merkle_root}
use fairchain.Params.{ChainParams}
use fairchain.Consensus.Inputs.{TxError, add_coinbase_outputs}

pub data StructureError : Type 0 where
  no_transactions first_not_coinbase unexpected_coinbase too_many_transactions : StructureError
  duplicate_tx_id merkle_mismatch block_too_large coinbase_value_overflow : StructureError
  script_sig_too_short script_sig_too_long push_out_of_range height_cut_off wrong_height :
      StructureError

-- The bytes of the height are shifted to places that do not overlap, so `|=` adds them up.
unfoldable pub validate_coinbase_script_sig : List ℕ → ℕ → Outcome StructureError (Unit {0})
validate_coinbase_script_sig script_sig height = do
  fail_if (ltb (length script_sig) 2) script_sig_too_short
  fail_if (ltb 100 (length script_sig)) script_sig_too_long
  fail_if (ltb (get_or script_sig 0 0) 1 || ltb 4 (get_or script_sig 0 0)) push_out_of_range
  fail_if (ltb (length script_sig) (1 + get_or script_sig 0 0)) height_cut_off
  fail_if (not (le_value (slice 1 (get_or script_sig 0 0) script_sig) == height)) wrong_height

-- `Inputs[0]` panics where there is no input; a coinbase has one.
abbrev pub check_height : ℕ → List TxInput → Outcome StructureError (Unit {0})
check_height height [] = panic
check_height height (i ∷ is) = validate_coinbase_script_sig i.signature_script height

unfoldable pub check_no_coinbase : List Transaction → Outcome StructureError (Unit {0})
check_no_coinbase [] = ok tt
check_no_coinbase (tx ∷ txs) = do
  fail_if (is_coinbase tx) unexpected_coinbase
  check_no_coinbase txs

abbrev pub lift_sum : Outcome TxError ℕ → Outcome StructureError (Unit {0})
lift_sum (ok total) = ok tt
lift_sum (err e) = err coinbase_value_overflow
lift_sum panic = panic

-- `merkle != block.Header.MerkleRoot`; the root is always there.
abbrev pub differs : Option Hash → Hash → Bool
differs none root = true
differs (some merkle) root = not (bytes_eq merkle root)

module _ (sha : Sha256) where
  unfoldable pub check_tx_ids : KeySet → List Transaction → Outcome StructureError (Unit {0})
  check_tx_ids tx_ids [] = ok tt
  check_tx_ids tx_ids (tx ∷ txs) = do
    fail_if (contains (hash_transaction sha tx) tx_ids) duplicate_tx_id
    check_tx_ids (insert (hash_transaction sha tx) tt tx_ids) txs

  unfoldable pub check_transactions :
      BlockHeader
      → ℕ
      → ChainParams
      → Transaction
      → List Transaction
      → Outcome StructureError (Unit {0})
  check_transactions header height p first txs = do
    fail_if (not (is_coinbase first)) first_not_coinbase
    if ltb 0 height then check_height height first.inputs else ok tt
    check_no_coinbase txs
    fail_if (ltb p.max_block_tx_count (length (first ∷ txs) % 2 ^ 32)) too_many_transactions
    check_tx_ids [] (first ∷ txs)
    fail_if (differs (compute_merkle_root sha (first ∷ txs)) header.merkle_root) merkle_mismatch
    let size = length (serialize_block (record { header = header; transactions = first ∷ txs }))
    fail_if (ltb p.max_block_size (size % 2 ^ 32)) block_too_large
    lift_sum (add_coinbase_outputs 0 first.outputs)

  unfoldable pub validate_block_structure :
      Block → ℕ → ChainParams → Outcome StructureError (Unit {0})
  validate_block_structure block height p = elim block.transactions [
    | [] ↦ err no_transactions
    | first ∷ txs ↦ check_transactions block.header height p first txs
  ]
