-- ===== src/Chain/Choice/Orphans.antt =====
-- `processOrphans` (internal/chain/chain.go) makes the tip follow a path, and leaves in the pool what it does
-- not take up.
use fairchain.Base.{
  ℕ, ◌+◌, ◌%◌, ◌^◌, ◌≡◌, refl, sym, ap, Bool, true, false, List, [], ◌∷◌, ◌++◌, All, Outcome, panic,
  err, ok,
}
use mathlib.Core.Path.{subst}
use fairchain.Base.Bytes.{bytes_eq}
use fairchain.Base.KeyMap.{lookup}
use fairchain.Types.Hash.{Hash}
use fairchain.Types.Block.{Block}
use fairchain.Crypto.Digest.{hash_block_header}
use fairchain.Store.Interface.{Location}
use fairchain.Chain.State.{
  Env, ChainError, ChainState, World, Action, ◌>>◌, modify, pure, load_parent,
}
use fairchain.Chain.Reorg.{reorg}
use fairchain.Chain.Accept.{
  OrphanEntry, Adopted, skipped, queued, reorganised, or_skip, beats, index_side_block,
  try_write_undo, adopt_tip, after_adoption, adopt_better, adopt_checked, adopt_orphan,
  adopt_orphans, forget, is_too_deep,
}
use fairchain.Chain.Safety.Frame.{Keeps, Keeps-bind, found-ReadsOnly}
use fairchain.Chain.Safety.Failures.{ReadsOnly-Keeps}
use fairchain.Chain.Safety.Reads.{check_block-ReadsOnly, persist_utxo_changes-ReadsOnly}
use fairchain.Chain.Choice.Path.{
  Tip, tip_of, view, TipPath, stay, Follows, Follows-bind, Follows-kept, Follows-known,
  Follows-test,
}
use fairchain.Chain.Persist.{persist_utxo_changes}
use fairchain.Chain.Choice.Switch.{connect_tip-Keeps}
use fairchain.Chain.Choice.Steps.{
  Accepted, Child, Better, extend_chain-Follows, reorg-Better, check_block-Accepted, Checked,
  Checked-Child, Checked-Better, or_disconnect-Keeps,
}

module _ {S E Signature PubKey : Type 0} (env : Env S E Signature PubKey) where
  adopt_tip-Follows :
      (hash : Hash) (block : Block) (height work : ℕ) (place : Location)
      → Follows env (Child env block hash height) (adopt_tip env hash block height work place)
  unfolding adopt_tip try_write_undo
  adopt_tip-Follows hash block height work place =
      Follows-kept env (Child env block hash height) _ _
        (λ w. ap (λ v. v.0) (connect_tip-Keeps env block height w))
        (λ undo.
          Follows-kept env (Child env block hash height) _ _
            (or_disconnect-Keeps env tip_of (λ c s. refl) block undo _
              (Keeps-bind tip_of _ _ (λ w. refl)
                (λ rec.
                  Keeps-bind tip_of _ _ (λ w. refl)
                    (λ _.
                      ReadsOnly-Keeps tip_of (persist_utxo_changes env block undo hash)
                        (persist_utxo_changes-ReadsOnly env block undo hash)))))
            (λ _.
              Follows-bind env (Child env block hash height) (λ _ _. Unit {0}) _ _
                (extend_chain-Follows env block hash height work) (λ w v p h. tt) (λ _ w _. stay)))

  pub after_adoption-view :
      (hash : Hash) (r : Outcome ChainError (Unit {0})) → Keeps view (after_adoption env hash r)
  unfolding after_adoption
  after_adoption-view hash panic w = refl
  after_adoption-view hash (err why) w = forgotten (is_too_deep why)
    where
      forgotten : (b : Bool) → view (forget b hash w.chain) ≡ view w.chain
      forgotten true = refl
      forgotten false = refl
  after_adoption-view hash (ok t) w = refl

  adopt_better-Follows :
      (hash : Hash) (block : Block) (height work : ℕ)
      → Follows env (Better env block hash height work) (adopt_better env hash height work)
  unfolding adopt_better
  adopt_better-Follows hash block height work w p =
      subst (TipPath env (tip_of w.chain))
        (sym (
          ap (λ v. v.0)
            (after_adoption-view hash (reorg env hash height work w).0
              (reorg env hash height work w).1)))
        (reorg-Better env block hash height work w p)

  -- The block goes beside the tip, or a better chain is switched to.
  adopt_aside-Follows :
      (hash : Hash) (block : Block) (height work : ℕ) (c : ChainState) (aside : Action S (Unit {0}))
      → Keeps tip_of aside
      → Follows env (Checked env block hash height c) (
          aside
          >> (modify (index_side_block hash height) >> elim (beats work hash c) [
            | true ↦ adopt_better env hash height work
            | false ↦ pure queued
          ]))
  adopt_aside-Follows hash block height work c aside kept =
      Follows-kept env (Checked env block hash height c) _ _ kept (λ _.
        Follows-kept env (Checked env block hash height c) _ _ (λ w. refl)
          (λ _.
            Follows-test env (Checked env block hash height c) (beats work hash c) _ _
              (λ better w p.
                adopt_better-Follows hash block height work w
                  (Checked-Better env block hash height work c (tip_of w.chain) better p))
              (λ _ w _. stay)))

  adopt_checked-Follows :
      (hash : Hash) (block : Block) (height work : ℕ)
      → Follows env (Accepted env block hash height) (adopt_checked env hash block height work)
  unfolding adopt_checked
  adopt_checked-Follows hash block height work =
      Follows-kept env (Accepted env block hash height) _ _ (λ w. refl)
        (λ place.
          Follows-known env (Accepted env block hash height) (Checked env block hash height) _ _
            (λ w. refl) (λ w c accepted h. (accepted, ap tip_of (read w c h)))
            (λ c.
              Follows-test env (Checked env block hash height c)
                (bytes_eq block.header.prev_block c.tip_hash) _ _
                (λ child w p.
                  adopt_tip-Follows hash block height work place w
                    (Checked-Child env block hash height c (tip_of w.chain) child p))
                (λ _. adopt_aside-Follows hash block height work c _ (λ w. refl))))
    where
      read :
          (w : World S) (c : ChainState)
          → ◌≡◌ {A = Outcome ChainError ChainState} (ok w.chain) (ok c)
          → c ≡ w.chain
      read w c h = cc h

  adopt_orphan-Follows :
      (entry : OrphanEntry)
      → entry.0 ≡ hash_block_header env.sha entry.1.header
      → Follows env (λ _. Unit {0}) (adopt_orphan env entry)
  unfolding adopt_orphan
  adopt_orphan-Follows (hash, block) named =
      Follows-kept env (λ _. Unit {0}) _ _ (λ w. refl)
        (λ before.
          Follows-kept env (λ _. Unit {0}) _ _
            (λ w. ap tip_of (
              found-ReadsOnly load_parent (lookup block.header.prev_block before.height_by_hash) w))
            (λ parent_height.
              Follows-known env (λ _. Unit {0})
                (λ _. Accepted env block hash ((parent_height + 1) % 2 ^ 32)) _ _
                (λ w. ap tip_of (check_block-ReadsOnly env block parent_height w))
                (λ w work _ h. (named, check_block-Accepted env block parent_height w work h))
                (λ work. adopt_checked-Follows hash block ((parent_height + 1) % 2 ^ 32) work)))

  abbrev pub Named : List OrphanEntry → Type 0
  Named entries = All (λ e. e.0 ≡ hash_block_header env.sha e.1.header) entries

  or_skip-Follows :
      (P : Tip → Type 0) (action : Action S Adopted)
      → Follows env P action
      → Follows env P (or_skip action)
  or_skip-Follows P action f w p = f w p

  pub adopt_orphans-Follows :
      (entries : List OrphanEntry) (queue : List Hash)
      → Named entries
      → Follows env (λ _. Unit {0}) (adopt_orphans env entries queue)
  unfolding adopt_orphans
  adopt_orphans-Follows [] queue named = λ w _. stay
  adopt_orphans-Follows (entry ∷ entries) queue named =
      Follows-bind env (λ _. Unit {0}) (λ _ _. Unit {0}) _ _
        (or_skip-Follows (λ _. Unit {0}) (adopt_orphan env entry)
          (adopt_orphan-Follows entry named.0))
        (λ w v p h. tt)
        (λ became.
          elim became
            as (λ b.
              Follows env (λ _. Unit {0})
                (elim b as (λ _. Action S (List Hash)) [
                  | skipped ↦ adopt_orphans env entries queue
                  | queued ↦ adopt_orphans env entries (queue ++ (entry.0 ∷ []))
                  | reorganised ↦ pure (entry.0 ∷ [])
                ])) [
                  | skipped ↦ adopt_orphans-Follows entries queue named.1
                  | queued ↦ adopt_orphans-Follows entries (queue ++ (entry.0 ∷ [])) named.1
                  | reorganised ↦ λ w _. stay
                ])
