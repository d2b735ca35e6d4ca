-- ===== src/Chain/Safety/Blocks.antt =====
-- A block that internal/chain rejects leaves the chain in memory as it was.
use fairchain.Base.{
  ℕ, ◌+◌, ◌%◌, ◌^◌, ◌≡◌, ◌≢◌, refl, inl, inr, true, false, List, none, Outcome, panic, err, ok, All,
  Bool-cases,
}
use fairchain.Base.Bytes.{bytes_eq}
use fairchain.Base.KeyMap.{KeyMap, keys, member, lookup}
use fairchain.Types.Hash.{Hash}
use fairchain.Types.Block.{Block}
use fairchain.Crypto.Target.{validate_proof_of_work}
use fairchain.Utxo.Connect.{created_keys}
use fairchain.Store.Interface.{Location}
use fairchain.Chain.State.{
  OrphanBlock, Env, ChainError, side_chain, orphan_block, store_tip, store_index, ChainState, World,
  ◌>>=◌, ◌>>◌, modify, write, fail,
}
use fairchain.Chain.Reorg.{or_restore, reorg}
use fairchain.Chain.Accept.{
  keep_side_block, after_reorg, is_too_deep, process_orphans, index_record, beats, keep_orphan,
  accept_better, accept_checked, accept_block, process_block,
}
use fairchain.Chain.Safety.Clone.{IsUtxoKey, lookup-clone_utxo_set}
use fairchain.Chain.Safety.Reads.{check_block-ReadsOnly}
use fairchain.Chain.Safety.Queue.{process_orphans-Unfailing}
use fairchain.Chain.Safety.Frame.{
  OnError, OnError-bind-Unfailing, OnError-bind_reads, Unfailing-bind, Unfailing-OnError,
  OnError-bind_ensured,
}
use fairchain.Chain.Safety.Failures.{OnError-test, OnError-found, test-ReadsOnly}
use fairchain.Chain.Safety.Tips.{index_of, SameEntries, Restored, Restored-refl, accept_tip-OnError}

module _ {S E Signature PubKey : Type 0} (env : Env S E Signature PubKey) (block : Block) where
  -- Whatever a reorganisation did before it failed.
  abbrev Reverted : ChainState → ChainState → Type 0
  Reverted c c' =
      (index_of c' ≡ index_of c)
      × (All IsUtxoKey (keys c.utxo_set) → SameEntries c.utxo_set c'.utxo_set)

  or_restore-Reverted :
      (old : ChainState) (r : Outcome ChainError (Unit {0})) (w : World S) (why : ChainError)
      → (or_restore env old r w).0 ≡ err why
      → Reverted old (or_restore env old r w).1.chain
  unfolding or_restore
  or_restore-Reverted old panic w why h = absurd (cc h)
  or_restore-Reverted old (err e) w why h =
      (refl, λ fit key. lookup-clone_utxo_set old.utxo_set fit key)
  or_restore-Reverted old (ok t) w why h = absurd (cc h)

  pub reorg-OnError :
      (hash : Hash) (height work : ℕ)
      → OnError (λ why c c'. Reverted c c') (reorg env hash height work)
  unfolding reorg
  reorg-OnError hash height work w why h = or_restore-Reverted w.chain _ _ why h

  abbrev SideChain : ChainError → ChainState → ChainState → Type 0
  SideChain why c c' = why ≡ side_chain

  keep_side_block-SideChain :
      (hash : Hash) (height : ℕ) → OnError SideChain (keep_side_block env hash height)
  unfolding keep_side_block
  keep_side_block-SideChain hash height =
      OnError-bind_ensured (λ _ _ _. Unit {0}) SideChain _ _ (λ w v h. tt) (λ w why h. cc h)
        (λ _ _.
          OnError-bind_ensured (λ _ _ _. Unit {0}) (λ why c c'. Unit {0} → SideChain why c c') _ _
            (λ w v h. tt)
            (Unfailing-OnError (λ why c c'. Unit {0} → SideChain why c c')
              (process_orphans env hash) (process_orphans-Unfailing env hash))
            (λ _ _. λ w why h _ _. cc h))

  after_reorg-Restored :
      (hash : Hash) (height : ℕ) (c : ChainState) (r : Outcome ChainError (Unit {0})) (w : World S)
      → ((e : ChainError) → r ≡ err e → Reverted c w.chain)
      → (why : ChainError) → (after_reorg env hash height r w).0 ≡ err why
      → Restored env block why c (after_reorg env hash height r w).1.chain
  unfolding after_reorg
  after_reorg-Restored hash height c panic w reverted why h = absurd (cc h)
  after_reorg-Restored hash height c (err e) w reverted why h = elim (Bool-cases (is_too_deep e)) [
    | inl deep ↦ λ other.
        absurd (other (keep_side_block-SideChain hash height w why (rw (deep, after_reorg) at h)))
    | inr shallow ↦
        rw (shallow, after_reorg) (λ _. let (i, s) = reverted e refl in (i, λ _ u. s u.1))
  ]
  after_reorg-Restored hash height c (ok t) w reverted why h = absurd (cc h)

  accept_better-OnError :
      (hash : Hash) (height work : ℕ)
      → OnError (Restored env block) (accept_better env hash height work)
  unfolding accept_better
  accept_better-OnError hash height work w =
      after_reorg-Restored hash height w.chain (reorg env hash height work w).0
        (reorg env hash height work w).1 (λ e h. reorg-OnError hash height work w e h)

  -- The error of a side chain is the one that `Restored` leaves out.
  keep_side_block-OnError :
      (hash : Hash) (height : ℕ) → OnError (Restored env block) (keep_side_block env hash height)
  keep_side_block-OnError hash height w why h other =
      absurd (other (keep_side_block-SideChain hash height w why h))

  -- The block is not a child of the tip.
  side-OnError :
      (hash : Hash) (height work : ℕ) (place : Location) (c : ChainState)
      → OnError (Restored env block) (
          write
            (λ st. env.db.put_block_index st hash (index_record block height place work))
            store_index
          >> elim (beats work hash c) [
            | true ↦ accept_better env hash height work
            | false ↦ keep_side_block env hash height
          ])
  side-OnError hash height work place c =
      OnError-bind_reads (Restored env block) (Restored-refl env block) _ _ (λ w. refl)
        (λ _.
          OnError-test (Restored env block) (beats work hash c) _ _
            (accept_better-OnError hash height work) (keep_side_block-OnError hash height))

  accept_checked-OnError :
      (hash : Hash) (height work : ℕ)
      → OnError (Restored env block) (accept_checked env hash block height work)
  unfolding accept_checked
  accept_checked-OnError hash height work =
      OnError-bind_reads (Restored env block) (Restored-refl env block) _ _ (λ w. refl)
        (λ place.
          OnError-bind_reads (Restored env block) (Restored-refl env block) _ _ (λ w. refl)
            (λ c.
              OnError-test (Restored env block) (bytes_eq block.header.prev_block c.tip_hash) _ _
                (accept_tip-OnError env block hash height work place)
                (side-OnError hash height work place c)))

  accept_block-OnError :
      (hash : Hash) (parent_height : ℕ)
      → OnError (Restored env block) (accept_block env hash block parent_height)
  unfolding accept_block
  accept_block-OnError hash parent_height =
      OnError-bind_reads (Restored env block) (Restored-refl env block) _ _
        (check_block-ReadsOnly env block parent_height)
        (λ work.
          OnError-bind-Unfailing (Restored env block) _ _
            (accept_checked-OnError hash ((parent_height + 1) % 2 ^ 32) work)
            (λ _. Unfailing-bind _ _ (process_orphans-Unfailing env hash) (λ _ w why h. cc h)))

  -- The pool is not a part of what `Restored` is about.
  pool-OnError :
      (f : ChainState → KeyMap OrphanBlock) (reason : ChainError)
      → OnError {S = S} {A = ℕ}
          (Restored env block)
          (modify (λ c. record c { orphans = f c }) >> fail reason)
  unfolding ◌>>=◌
  pool-OnError f reason w why h _ = (refl, λ _ _ key. refl)

  keep_orphan-OnError : (hash : Hash) → OnError (Restored env block) (keep_orphan env hash block)
  unfolding keep_orphan
  keep_orphan-OnError hash =
      OnError-bind_reads (Restored env block) (Restored-refl env block) _ _
        (test-ReadsOnly (validate_proof_of_work hash block.header.bits) _ _ (λ w. refl) (λ w. refl))
        (λ _. pool-OnError _ orphan_block)

  process_block-Restored : OnError (Restored env block) (process_block env block)
  unfolding process_block
  process_block-Restored =
      OnError-bind_reads (Restored env block) (Restored-refl env block) _ _ (λ w. refl)
        (λ c.
          OnError-bind_reads (Restored env block) (Restored-refl env block) _ _
            (test-ReadsOnly _ _ _ (λ w. refl) (λ w. refl))
            (λ _.
              OnError-bind_reads (Restored env block) (Restored-refl env block) _ _
                (test-ReadsOnly _ _ _ (λ w. refl) (λ w. refl))
                (λ _.
                  OnError-found (Restored env block)
                    (lookup block.header.prev_block c.height_by_hash) _ _ (keep_orphan-OnError _)
                    (λ parent_height. accept_block-OnError _ parent_height))))

  -- Where `ProcessBlock` returns an error that is not `ErrSideChain`, the tip, its height and work and both indexes
  -- of the chain in memory are what they were before, a reorganisation that has failed half-way included.
  pub process_block-index_of :
      (w : World S) (why : ChainError)
      → (process_block env block w).0 ≡ err why
      → why ≢ side_chain
      → index_of (process_block env block w).1.chain ≡ index_of w.chain
  process_block-index_of w why h other = (process_block-Restored w why h other).0

  -- Where `ProcessBlock` returns an error that is neither `ErrSideChain` nor that of writing the tip to the
  -- store, the UTXO set in memory has at every key the entry that it had before, provided that no output of
  -- the block stood in the set and that the set's keys have the length of an outpoint.
  pub process_block-utxo_set :
      (w : World S) (why : ChainError) (key : List ℕ)
      → (process_block env block w).0 ≡ err why
      → why ≢ side_chain
      → why ≢ store_tip
      → ((j : List ℕ)
          → member j (created_keys env.sha block.transactions) ≡ true
          → lookup j w.chain.utxo_set ≡ none)
      → All IsUtxoKey (keys w.chain.utxo_set)
      → lookup key (process_block env block w).1.chain.utxo_set ≡ lookup key w.chain.utxo_set
  process_block-utxo_set w why key h other written fresh fit =
      (process_block-Restored w why h other).1 written (fresh, fit) key
