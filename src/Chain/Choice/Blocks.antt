-- ===== src/Chain/Choice/Blocks.antt =====
-- The path of the tip through `processOrphans` and through the end of `ProcessBlock` (internal/chain/chain.go).
use fairchain.Base.{
  ℕ, zero, suc, ◌≡◌, refl, sym, Bool, true, false, List, [], ◌∷◌, All, Outcome, panic, err, ok,
  Bool-cases, inl, inr, if◌then◌else◌,
}
use mathlib.Core.Path.{subst}
use fairchain.Base.Bytes.{bytes_eq, bytes_less}
use fairchain.Base.KeyMap.{KeyMap}
use fairchain.Types.Hash.{Hash}
use fairchain.Crypto.Digest.{hash_block_header}
use fairchain.Chain.State.{OrphanBlock, Env, ChainError, World}
use fairchain.Chain.Accept.{
  OrphanEntry, children_of, without_children, insert_entry, sort_entries, adopt_orphans,
  process_queue, process_orphans, keep_side_block, after_reorg, is_too_deep,
}
use fairchain.Chain.Safety.Failures.{OkKeeps}
use fairchain.Chain.Choice.Path.{tip_of, TipPath, stay, TipPath-bind}
use fairchain.Chain.Choice.Steps.{>>=-ok}
use fairchain.Chain.Choice.Orphans.{Named, adopt_orphans-Follows}
use fairchain.Chain.Choice.Pool.{pool, adopt_orphans-pool}

module _ {S E Signature PubKey : Type 0} (env : Env S E Signature PubKey) where
  -- Every orphan stands under the hash of its header.
  abbrev pub NamedPool : KeyMap OrphanBlock → Type 0
  NamedPool orphans = All (λ p. p.0 ≡ hash_block_header env.sha p.1.block.header) orphans

  children_of-Named :
      (parent : Hash) (orphans : KeyMap OrphanBlock)
      → NamedPool orphans
      → Named env (children_of parent orphans)
  unfolding children_of
  children_of-Named parent [] named = tt
  children_of-Named parent ((hash, ob) ∷ rest) named =
      kept _ (bytes_eq ob.block.header.prev_block parent) (children_of-Named parent rest named.1)
    where
      kept :
          (found : List OrphanEntry) (b : Bool)
          → Named env found
          → Named env (if b then (hash, ob.block) ∷ found else found)
      kept _ true n = (named.0, n)
      kept _ false n = n

  without_children-NamedPool :
      (parent : Hash) (orphans : KeyMap OrphanBlock)
      → NamedPool orphans
      → NamedPool (without_children parent orphans)
  unfolding without_children
  without_children-NamedPool parent [] named = tt
  without_children-NamedPool parent ((hash, ob) ∷ rest) named =
      kept _ (bytes_eq ob.block.header.prev_block parent)
        (without_children-NamedPool parent rest named.1)
    where
      kept :
          (left : KeyMap OrphanBlock) (b : Bool)
          → NamedPool left
          → NamedPool (if b then left else (hash, ob) ∷ left)
      kept _ true n = n
      kept _ false n = (named.0, n)

  insert_entry-Named :
      (entry : OrphanEntry) (entries : List OrphanEntry)
      → Named env (entry ∷ entries)
      → Named env (insert_entry entry entries)
  unfolding insert_entry
  insert_entry-Named entry [] named = named
  insert_entry-Named entry (e ∷ entries) named =
      placed _ (bytes_less e.0 entry.0) (insert_entry-Named entry entries (named.0, named.1.1))
    where
      placed :
          (rest : List OrphanEntry) (b : Bool)
          → Named env rest
          → Named env (if b then e ∷ rest else entry ∷ (e ∷ entries))
      placed _ true n = (named.1.0, n)
      placed _ false n = named

  sort_entries-Named :
      (entries : List OrphanEntry) → Named env entries → Named env (sort_entries entries)
  unfolding sort_entries
  sort_entries-Named [] named = tt
  sort_entries-Named (entry ∷ entries) named =
      insert_entry-Named entry (sort_entries entries) (named.0, sort_entries-Named entries named.1)

  process_queue-TipPath :
      (n : ℕ) (queue : List Hash) (w : World S)
      → NamedPool w.chain.orphans
      → TipPath env (tip_of w.chain) (tip_of (process_queue env n queue w).1.chain)
  unfolding process_queue
  process_queue-TipPath zero queue w named = stay
  process_queue-TipPath (suc left) [] w named = stay
  process_queue-TipPath (suc left) (parent ∷ queue) w named =
      TipPath-bind env _ _ w stay (λ orphans read. TipPath-bind env _ _ w stay (λ _ _.
        TipPath-bind env (adopt_orphans env (sort_entries (children_of parent orphans)) queue) _
          (cleared w)
          (adopt_orphans-Follows env (sort_entries (children_of parent orphans)) queue
            (sort_entries-Named (children_of parent orphans)
              (children_of-Named parent orphans (subst NamedPool (taken read) named)))
            (cleared w) tt)
          (λ next _. process_queue-TipPath left next _ (
            subst NamedPool
              (sym (
                adopt_orphans-pool env (sort_entries (children_of parent orphans)) queue
                  (cleared w)))
              (without_children-NamedPool parent w.chain.orphans named)))))
    where
      cleared : World S → World S
      cleared w = record w {
        chain = record w.chain { orphans = without_children parent w.chain.orphans };
      }

      taken :
          {orphans : KeyMap OrphanBlock}
          → ◌≡◌ {A = Outcome ChainError (KeyMap OrphanBlock)} (ok w.chain.orphans) (ok orphans)
          → w.chain.orphans ≡ orphans
      taken h = cc h

  pub process_orphans-TipPath :
      (hash : Hash) (w : World S)
      → NamedPool w.chain.orphans
      → TipPath env (tip_of w.chain) (tip_of (process_orphans env hash w).1.chain)
  unfolding process_orphans
  process_orphans-TipPath hash w = process_queue-TipPath _ (hash ∷ []) w

  pub keep_side_block-TipPath :
      (hash : Hash) (height : ℕ) (w : World S)
      → NamedPool w.chain.orphans
      → TipPath env (tip_of w.chain) (tip_of (keep_side_block env hash height w).1.chain)
  unfolding keep_side_block
  keep_side_block-TipPath hash height w named =
      TipPath-bind env _ _ w stay
        (λ _ _. TipPath-bind env _ _ _ (process_orphans-TipPath hash _ named) (λ _ _. stay))

  -- A block that is kept beside the main chain is reported by an error.
  pub keep_side_block-OkKeeps :
      (hash : Hash) (height : ℕ) → OkKeeps pool (keep_side_block env hash height)
  unfolding keep_side_block
  keep_side_block-OkKeeps hash height w v h =
      let (_, _, h1) = >>=-ok _ _ w h in let (_, _, h2) = >>=-ok _ _ _ h1 in absurd (cc h2)

  pub after_reorg-TipPath :
      (hash : Hash) (height : ℕ) (r : Outcome ChainError (Unit {0})) (w : World S)
      → NamedPool w.chain.orphans
      → TipPath env (tip_of w.chain) (tip_of (after_reorg env hash height r w).1.chain)
  unfolding after_reorg
  after_reorg-TipPath hash height panic w named = stay
  after_reorg-TipPath hash height (err why) w named = elim (Bool-cases (is_too_deep why)) [
    | inl deep ↦ rw (deep, after_reorg) (keep_side_block-TipPath hash height w named)
    | inr shallow ↦ rw (shallow, after_reorg) stay
  ]
  after_reorg-TipPath hash height (ok t) w named = stay

  pub after_reorg-OkKeeps :
      (hash : Hash) (height : ℕ) (r : Outcome ChainError (Unit {0}))
      → OkKeeps pool (after_reorg env hash height r)
  unfolding after_reorg
  after_reorg-OkKeeps hash height panic w v h = refl
  after_reorg-OkKeeps hash height (err why) w v h = elim (Bool-cases (is_too_deep why)) [
    | inl deep ↦
        rw (deep, after_reorg)
          (keep_side_block-OkKeeps hash height w v (rw (deep, after_reorg) at h))
    | inr shallow ↦ absurd (cc (rw (shallow, after_reorg) at h))
  ]
  after_reorg-OkKeeps hash height (ok t) w v h = refl
