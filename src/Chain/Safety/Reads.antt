-- ===== src/Chain/Safety/Reads.antt =====
-- The parts of `ProcessBlock` (internal/chain/chain.go) that leave the chain in memory alone.
use fairchain.Base.{ℕ, refl}
use fairchain.Types.Hash.{Hash}
use fairchain.Types.Block.{Block}
use fairchain.Utxo.Connect.{BlockUndoData}
use fairchain.Chain.State.{Env}
use fairchain.Chain.Persist.{persist_utxo_changes}
use fairchain.Chain.Accept.{check_block}
use fairchain.Chain.Safety.Frame.{Keeps-bind, ReadsOnly, found-ReadsOnly, lift-ReadsOnly}

module _ {S E Signature PubKey : Type 0} (env : Env S E Signature PubKey) where
  pub persist_utxo_changes-ReadsOnly :
      (block : Block) (undo : BlockUndoData) (hash : Hash)
      → ReadsOnly (persist_utxo_changes env block undo hash)
  unfolding persist_utxo_changes
  persist_utxo_changes-ReadsOnly block undo hash = Keeps-bind _ _ _ (λ w. refl) (λ s w. refl)

  pub check_block-ReadsOnly :
      (block : Block) (parent_height : ℕ) → ReadsOnly (check_block env block parent_height)
  unfolding check_block
  check_block-ReadsOnly block parent_height =
      Keeps-bind _ _ _ (λ w. refl)
        (λ w. Keeps-bind _ _ _ (found-ReadsOnly _ _) (λ parent.
          Keeps-bind _ _ _ (lift-ReadsOnly _ _) (λ _. Keeps-bind _ _ _ (lift-ReadsOnly _ _) (λ _.
            Keeps-bind _ _ _ (lift-ReadsOnly _ _)
              (λ _. Keeps-bind _ _ _ (found-ReadsOnly _ _) (λ work w. refl))))))
