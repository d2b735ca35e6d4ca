-- ===== src/Chain/Choice/Switch.antt =====
-- `reorg` (internal/chain/chain.go) moves the tip to the block that it is given, or not at all.
use fairchain.Base.{
  ℕ, zero, suc, ◌+◌, ◌≡◌, refl, sym, ap, ◌∙◌, List, [], ◌∷◌, reverse, Outcome, panic, err, ok,
  Option, none, some,
}
use mathlib.Core.Path.{subst}
use fairchain.Types.Hash.{Hash}
use fairchain.Types.Block.{Block}
use fairchain.Params.{ChainParams}
use fairchain.Chain.State.{Env, ChainError, ChainState, World, hash_at, modify}
use fairchain.Chain.Persist.{persist_utxo_disconnect}
use fairchain.Chain.Reorg.{
  connect_tip, index_block, remove_at, ReorgBlockEntry, remove_above, set_tip, load_undo,
  disconnect_at, disconnect_down, connect_new, connect_up, write_undos, finish_switch,
  replace_above, switch_chain, or_restore, reorg, check_depth, fork_height,
}
use fairchain.Chain.Safety.Frame.{Keeps, Keeps-bind, ReadsOnly, found-ReadsOnly, lift-ReadsOnly}
use fairchain.Chain.Safety.Failures.{Keeps-reads, Keeps-found, ReadsOnly-Keeps, test-ReadsOnly}
use fairchain.Chain.Safety.Reads.{persist_utxo_changes-ReadsOnly}
use fairchain.Chain.Choice.Path.{
  Tip, tip_of, view, Follows-kept, TipMove, TipPath, stay, move, Follows, Follows-bind,
  Follows-Keeps, TipPath-params,
}

module _ {S E Signature PubKey : Type 0} (env : Env S E Signature PubKey) where
  load_undo-ReadsOnly : (hash : Hash) → ReadsOnly (load_undo env hash)
  unfolding load_undo
  load_undo-ReadsOnly hash =
      Keeps-bind _ _ _ (λ w. refl)
        (λ st. Keeps-bind _ _ _ (found-ReadsOnly _ _) (λ block.
          Keeps-bind _ _ _ (found-ReadsOnly _ _) (λ rec.
            Keeps-bind _ _ _ (test-ReadsOnly _ _ _ (λ w. refl) (λ w. refl)) (λ _.
              Keeps-bind _ _ _ (found-ReadsOnly _ _)
                (λ bytes. Keeps-bind _ _ _ (lift-ReadsOnly _ _) (λ undo w. refl))))))

  disconnect_at-Keeps : (hash : Hash) → Keeps view (disconnect_at env hash)
  unfolding disconnect_at persist_utxo_disconnect
  disconnect_at-Keeps hash =
      Keeps-reads view _ _ (load_undo-ReadsOnly hash)
        (λ r. Keeps-bind view _ _ (λ w. refl) (λ _ w. refl))

  disconnect_down-Keeps : (fork count : ℕ) → Keeps view (disconnect_down env fork count)
  unfolding disconnect_down
  disconnect_down-Keeps fork zero = λ w. refl
  disconnect_down-Keeps fork (suc count) =
      Keeps-reads view _ _ (λ w. refl)
        (λ c.
          Keeps-bind view _ _
            (Keeps-found view (hash_at (fork + suc count) c.hash_by_height) _ _ (λ w. refl)
              (λ hash. disconnect_at-Keeps hash))
            (λ _. disconnect_down-Keeps fork count))

  remove_above-view : (count h : ℕ) (c : ChainState) → view (remove_above count h c) ≡ view c
  unfolding remove_above
  remove_above-view zero h c = refl
  remove_above-view (suc count) h c =
      remove_above-view count (h + 1) _ ∙ one (hash_at h c.hash_by_height)
    where
      one : (o : Option Hash) → view (remove_at o h c) ≡ view c
      one none = refl
      one (some hash) = refl

  pub connect_tip-Keeps : (block : Block) (height : ℕ) → Keeps view (connect_tip env block height)
  unfolding connect_tip
  connect_tip-Keeps block height =
      Keeps-reads view _ _ (λ w. refl)
        (λ c. Keeps-reads view _ _ (lift-ReadsOnly _ _) (λ _.
          Keeps-reads view _ _ (lift-ReadsOnly _ _)
            (λ r. Keeps-bind view _ _ (λ w. refl) (λ _ w. refl))))

  connect_new-Keeps : (hash : Hash) (height : ℕ) → Keeps view (connect_new env hash height)
  unfolding connect_new
  connect_new-Keeps hash height =
      Keeps-reads view _ _ (λ w. refl)
        (λ st. Keeps-reads view _ _ (found-ReadsOnly _ _) (λ block.
          Keeps-bind view _ _ (connect_tip-Keeps block height) (λ undo.
            Keeps-reads view _ _ (persist_utxo_changes-ReadsOnly env block undo hash)
              (λ _. Keeps-bind view _ _ (indexed hash height) (λ _ w. refl)))))
    where
      indexed : (hash : Hash) (height : ℕ) → Keeps {S = S} view (modify (index_block hash height))
      indexed hash height w = unfold index_block in refl

  connect_up-Keeps : (fork k : ℕ) (hashes : List Hash) → Keeps view (connect_up env fork k hashes)
  unfolding connect_up
  connect_up-Keeps fork k [] = λ w. refl
  connect_up-Keeps fork k (hash ∷ hashes) =
      Keeps-bind view _ _ (connect_new-Keeps hash _)
        (λ entry. Keeps-bind view _ _ (connect_up-Keeps fork (k + 1) hashes) (λ entries w. refl))

  write_undos-ReadsOnly : (entries : List ReorgBlockEntry) → ReadsOnly (write_undos env entries)
  unfolding write_undos
  write_undos-ReadsOnly [] = λ w. refl
  write_undos-ReadsOnly (entry ∷ entries) =
      Keeps-bind _ _ _ (λ w. refl)
        (λ st. Keeps-bind _ _ _ (found-ReadsOnly _ _) (λ rec.
          Keeps-bind _ _ _ (λ w. refl)
            (λ place. Keeps-bind _ _ _ (λ w. refl) (λ _. write_undos-ReadsOnly entries))))

  check_depth-ReadsOnly : (c : ChainState) (height : ℕ) → ReadsOnly (check_depth env c height)
  check_depth-ReadsOnly c height = test-ReadsOnly _ _ _ (λ w. refl) (λ w. refl)

  replace_above-Keeps :
      (c : ChainState) (fork : ℕ) (hashes : List Hash)
      → Keeps view (replace_above env c fork hashes)
  unfolding replace_above
  replace_above-Keeps c fork hashes = Keeps-reads view _ _ (check_depth-ReadsOnly c fork) (λ _.
      Keeps-bind view _ _ (disconnect_down-Keeps fork _) (λ _.
        Keeps-bind view _ _ (λ w. remove_above-view _ _ w.chain)
          (λ _. connect_up-Keeps fork 1 (reverse hashes))))

  -- What `reorg` is to make of the tip.
  abbrev pub moved : Hash → ℕ → ℕ → Tip → Tip
  moved hash height work t = record { params = t.params; hash = hash; height = height; work = work }

  module _ (P : Tip → Type 0) (hash : Hash) (height work : ℕ)
      (good : (t : Tip) → P t → TipMove env t (moved hash height work t)) where
    set_tip-Follows : Follows env P (modify (set_tip hash height work))
    set_tip-Follows w p = move stay (good (tip_of w.chain) p)

    finish_switch-Follows :
        (connected : List ReorgBlockEntry)
        → Follows env P (finish_switch env hash height work connected)
    unfolding finish_switch
    finish_switch-Follows connected =
        Follows-kept env P _ _ (λ w. refl)
          (λ _.
            Follows-bind env P (λ _ _. Unit {0}) _ _ set_tip-Follows (λ w v p h. tt)
              (λ _.
                Follows-Keeps env (λ _. Unit {0}) (write_undos env connected)
                  (ReadsOnly-Keeps tip_of (write_undos env connected)
                    (write_undos-ReadsOnly connected))))

    switch_chain-Follows : Follows env P (switch_chain env hash height work)
    unfolding switch_chain
    switch_chain-Follows =
        Follows-kept env P _ _ (λ w. refl)
          (λ walked.
            Follows-kept env P _ _ (λ w. refl)
              (λ c.
                Follows-kept env P _ _
                  (λ w.
                    ap (λ v. v.0) (replace_above-Keeps c (fork_height env c walked.1) walked.0 w))
                  (λ connected. finish_switch-Follows connected)))

    or_restore-Follows :
        (old : ChainState) (r : Outcome ChainError (Unit {0})) (w : World S)
        → TipPath env (tip_of old) (tip_of w.chain)
        → TipPath env (tip_of old) (tip_of (or_restore env old r w).1.chain)
    unfolding or_restore
    or_restore-Follows old panic w way = way
    or_restore-Follows old (err why) w way =
        subst (TipPath env (tip_of old))
          (ap (λ (p : ChainParams). record (tip_of old) { params = p })
            (sym (TipPath-params env way)))
          stay
    or_restore-Follows old (ok t) w way = way

    -- A reorganisation moves the tip to the block that it is given, or leaves it, whatever happens.
    pub reorg-Follows : Follows env P (reorg env hash height work)
    unfolding reorg
    reorg-Follows w p = or_restore-Follows w.chain _ _ (switch_chain-Follows w p)

  -- The pool stays, whatever a reorganisation does.
  pub reorg-orphans :
      (hash : Hash) (height work : ℕ) → Keeps (λ c. c.orphans) (reorg env hash height work)
  unfolding reorg
  reorg-orphans hash height work w = restored w.chain _ _ ∙ switched w
    where
      restored :
          (old : ChainState) (r : Outcome ChainError (Unit {0})) (w : World S)
          → (or_restore env old r w).1.chain.orphans ≡ w.chain.orphans
      restored old panic w = unfold or_restore in refl
      restored old (err why) w = unfold or_restore in refl
      restored old (ok t) w = unfold or_restore in refl

      finished :
          (connected : List ReorgBlockEntry)
          → Keeps (λ c. c.orphans) (finish_switch env hash height work connected)
      finished connected =
          unfold finish_switch in
          Keeps-reads (λ c. c.orphans) _ _ (λ w. refl)
            (λ _.
              Keeps-bind (λ c. c.orphans) _ _ (λ w. refl)
                (λ _.
                  ReadsOnly-Keeps (λ c. c.orphans) (write_undos env connected)
                    (write_undos-ReadsOnly connected)))

      switched : Keeps (λ c. c.orphans) (switch_chain env hash height work)
      switched =
          unfold switch_chain in
          Keeps-reads (λ c. c.orphans) _ _ (λ w. refl)
            (λ walked.
              Keeps-reads (λ c. c.orphans) _ _ (λ w. refl)
                (λ c.
                  Keeps-bind (λ c. c.orphans) _ _
                    (λ w.
                      ap (λ v. v.1) (replace_above-Keeps c (fork_height env c walked.1) walked.0 w))
                    (λ connected. finished connected)))
