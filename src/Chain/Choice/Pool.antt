-- ===== src/Chain/Choice/Pool.antt =====
-- The orphan pool of internal/chain/chain.go while orphans are taken up from it: the loop over the queue ends, and
-- the tip follows a path.
use fairchain.Base.{ℕ, refl, ap, ◌∙◌, List, [], ◌∷◌, ◌++◌}
use fairchain.Base.Bytes.{bytes_eq}
use fairchain.Base.KeyMap.{KeyMap, lookup}
use fairchain.Types.Hash.{Hash}
use fairchain.Types.Block.{Block}
use fairchain.Store.Interface.{Location}
use fairchain.Chain.State.{OrphanBlock, Env, ChainState, Action, pure, load_parent}
use fairchain.Chain.Reorg.{index_block, reorg}
use fairchain.Chain.Accept.{
  OrphanEntry, skipped, queued, reorganised, or_skip, beats, extend_chain, try_write_undo,
  adopt_tip, adopt_better, adopt_checked, adopt_orphan, adopt_orphans,
}
use fairchain.Chain.Safety.Frame.{Keeps, Keeps-bind, found-ReadsOnly}
use fairchain.Chain.Safety.Failures.{Keeps-reads, Keeps-test}
use fairchain.Chain.Safety.Reads.{check_block-ReadsOnly, persist_utxo_changes-ReadsOnly}
use fairchain.Chain.Choice.Switch.{connect_tip-Keeps, reorg-orphans}
use fairchain.Chain.Choice.Steps.{or_disconnect-Keeps}
use fairchain.Chain.Choice.Orphans.{after_adoption-view}

abbrev pub pool : ChainState → KeyMap OrphanBlock
pool c = c.orphans

module _ {S E Signature PubKey : Type 0} (env : Env S E Signature PubKey) where
  pub extend_chain-pool :
      (hash : Hash) (height work : ℕ) → Keeps pool (extend_chain env hash height work)
  unfolding extend_chain index_block
  extend_chain-pool hash height work =
      Keeps-reads pool _ _ (λ w. refl) (λ _. Keeps-bind pool _ _ (λ w. refl) (λ _ w. refl))

  adopt_tip-pool :
      (hash : Hash) (block : Block) (height work : ℕ) (place : Location)
      → Keeps pool (adopt_tip env hash block height work place)
  unfolding adopt_tip try_write_undo
  adopt_tip-pool hash block height work place =
      Keeps-bind pool _ _ (λ w. ap (λ v. v.1) (connect_tip-Keeps env block height w))
        (λ undo.
          Keeps-bind pool _ _
            (or_disconnect-Keeps env pool (λ c s. refl) block undo _
              (Keeps-bind pool _ _ (λ w. refl)
                (λ rec.
                  Keeps-bind pool _ _ (λ w. refl)
                    (λ _ w. ap pool (persist_utxo_changes-ReadsOnly env block undo hash w)))))
            (λ _. Keeps-bind pool _ _ (extend_chain-pool hash height work) (λ _ w. refl)))

  adopt_better-pool :
      (hash : Hash) (height work : ℕ) → Keeps pool (adopt_better env hash height work)
  unfolding adopt_better
  adopt_better-pool hash height work w =
      ap (λ v. v.1)
        (after_adoption-view env hash (reorg env hash height work w).0
          (reorg env hash height work w).1)
      ∙ reorg-orphans env hash height work w

  adopt_checked-pool :
      (hash : Hash) (block : Block) (height work : ℕ)
      → Keeps pool (adopt_checked env hash block height work)
  unfolding adopt_checked
  adopt_checked-pool hash block height work =
      Keeps-bind pool _ _ (λ w. refl)
        (λ place.
          Keeps-bind pool _ _ (λ w. refl)
            (λ c.
              Keeps-test pool (bytes_eq block.header.prev_block c.tip_hash) _ _
                (adopt_tip-pool hash block height work place)
                (Keeps-bind pool _ _ (λ w. refl)
                  (λ _.
                    Keeps-bind pool _ _ (λ w. refl)
                      (λ _.
                        Keeps-test pool (beats work hash c) _ _ (adopt_better-pool hash height work)
                          (λ w. refl))))))

  adopt_orphan-pool : (entry : OrphanEntry) → Keeps pool (adopt_orphan env entry)
  unfolding adopt_orphan
  adopt_orphan-pool (hash, block) =
      Keeps-bind pool _ _ (λ w. refl)
        (λ before.
          Keeps-bind pool _ _
            (λ w. ap pool (
              found-ReadsOnly load_parent (lookup block.header.prev_block before.height_by_hash) w))
            (λ parent_height.
              Keeps-bind pool _ _ (λ w. ap pool (check_block-ReadsOnly env block parent_height w))
                (λ work. adopt_checked-pool hash block _ work)))

  pub adopt_orphans-pool :
      (entries : List OrphanEntry) (queue : List Hash)
      → Keeps pool (adopt_orphans env entries queue)
  unfolding adopt_orphans
  adopt_orphans-pool [] queue = λ w. refl
  adopt_orphans-pool (entry ∷ entries) queue =
      Keeps-bind pool (or_skip (adopt_orphan env entry)) _ (λ w. adopt_orphan-pool entry w)
        (λ became.
          elim became
            as (λ b. Keeps pool (elim b as (λ _. Action S (List Hash)) [
              | skipped ↦ adopt_orphans env entries queue
              | queued ↦ adopt_orphans env entries (queue ++ (entry.0 ∷ []))
              | reorganised ↦ pure (entry.0 ∷ [])
            ])) [
              | skipped ↦ adopt_orphans-pool entries queue
              | queued ↦ adopt_orphans-pool entries (queue ++ (entry.0 ∷ []))
              | reorganised ↦ λ w. refl
            ])
