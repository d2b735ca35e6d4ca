-- ===== src/Consensus/Supply.antt =====
-- A block that both checks of internal/consensus let through creates no value.
use fairchain.Base.{ℕ, ◌+◌, ◌^◌, ◌≤◌, ◌<◌, ◌≡◌, List, [], ◌∷◌, drop, All, ok}
use fairchain.Types.Transaction.{TxOutput, Transaction}
use fairchain.Types.Block.{Block, BlockHeader}
use fairchain.Crypto.Digest.{Sha256}
use fairchain.Crypto.Keys.{Ripemd160}
use fairchain.Script.Machine.{Curve}
use fairchain.Params.{ChainParams, calc_subsidy}
use fairchain.Utxo.Set.{UtxoSet}
use fairchain.Consensus.Inputs.{ValuesFit, validate_transaction_inputs}
use fairchain.Consensus.Inputs.Money.{
  total_inputs, total_outputs, validate_transaction_inputs-conserves,
}
use fairchain.Consensus.Structure.{validate_block_structure}
use fairchain.Consensus.Structure.Accepted.{check_transactions-Sound}

-- The outputs' values are those of uint64 fields.
abbrev pub OutputsFit : List Transaction → Type 0
OutputsFit = All (λ (tx : Transaction). All (λ (o : TxOutput). o.value < 2 ^ 64) tx.outputs)

module _ (sha : Sha256) (ripemd : Ripemd160) {Signature PubKey : Type 0}
    (curve : Curve Signature PubKey) (s : UtxoSet) (height : ℕ) (p : ChainParams) where
  -- Of a block and a set whose values are uint64: where the structural check accepts the block and
  -- the check of its inputs accepts it with `fees`, the outputs of all of its transactions together
  -- are worth at most the subsidy of the height and the outputs that the transactions after the
  -- first spend; and the fees are what those transactions spend and do not pay. The sums are of
  -- natural numbers.
  pub total_outputs-le-calc_subsidy :
      (block : Block) {fees : ℕ}
      → ValuesFit s
      → OutputsFit block.transactions
      → p.initial_subsidy < 2 ^ 64
      → validate_block_structure sha block height p ≡ ok tt
      → validate_transaction_inputs sha ripemd curve block s height p ≡ ok fees
      → (fees + total_outputs (drop 1 block.transactions)
          ≡ total_inputs s (drop 1 block.transactions))
        × (total_outputs block.transactions
            ≤ calc_subsidy p height + total_inputs s (drop 1 block.transactions))
  unfolding validate_block_structure
  total_outputs-le-calc_subsidy block {fees} fit outs reward sound h =
      go block.header block.transactions outs sound h
    where
      go :
          (header : BlockHeader) (txs : List Transaction)
          → OutputsFit txs
          → validate_block_structure sha (record { header = header; transactions = txs }) height p
            ≡ ok tt
          → validate_transaction_inputs sha ripemd curve
              (record { header = header; transactions = txs })
              s
              height
              p
            ≡ ok fees
          → (fees + total_outputs (drop 1 txs) ≡ total_inputs s (drop 1 txs))
            × (total_outputs txs ≤ calc_subsidy p height + total_inputs s (drop 1 txs))
      go header [] outs sound h = absurd (cc sound)
      go header (first ∷ txs) outs sound h =
          let v = check_transactions-Sound sha header height p first txs sound in
          validate_transaction_inputs-conserves sha ripemd curve s height p header first txs fit
            v.coinbase v.plain outs.0 reward h
