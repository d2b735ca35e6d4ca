-- ===== src/Chain/Safety/Queue.antt =====
-- `processOrphans` (internal/chain/chain.go) returns no error.
use fairchain.Base.{zero, suc, ◌≡◌, List, [], ◌∷◌, ◌++◌, ℕ, Outcome, panic, err, ok}
use fairchain.Types.Hash.{Hash}
use fairchain.Chain.State.{Env, ChainError, Action, pure}
use fairchain.Chain.Accept.{
  OrphanEntry, Adopted, skipped, queued, reorganised, or_skip, adopt_orphan, adopt_orphans,
  process_queue, process_orphans,
}
use fairchain.Chain.Safety.Frame.{Unfailing, Unfailing-bind}

module _ {S : Type 0} where
  or_skip-Unfailing : (action : Action S Adopted) → Unfailing (or_skip action)
  or_skip-Unfailing action w why h = no_error (action w).0 h
    where
      no_error :
          (r : Outcome ChainError Adopted) {why : ChainError}
          → ◌≡◌ {A = Outcome ChainError Adopted}
              (elim r [ panic ↦ panic | err why ↦ ok skipped | ok a ↦ ok a ])
              (err why)
          → ⊥
      no_error panic h = cc h
      no_error (err e) h = cc h
      no_error (ok a) h = cc h

module _ {S E Signature PubKey : Type 0} (env : Env S E Signature PubKey) where
  adopt_orphans-Unfailing :
      (entries : List OrphanEntry) (queue : List Hash) → Unfailing (adopt_orphans env entries queue)
  unfolding adopt_orphans
  adopt_orphans-Unfailing [] queue = λ w why h. cc h
  adopt_orphans-Unfailing (entry ∷ entries) queue =
      Unfailing-bind (or_skip (adopt_orphan env entry)) _
        (or_skip-Unfailing (adopt_orphan env entry))
        (λ became.
          elim became
            as (λ b. Unfailing (elim b as (λ _. Action S (List Hash)) [
              | skipped ↦ adopt_orphans env entries queue
              | queued ↦ adopt_orphans env entries (queue ++ (entry.0 ∷ []))
              | reorganised ↦ pure (entry.0 ∷ [])
            ])) [
              | skipped ↦ adopt_orphans-Unfailing entries queue
              | queued ↦ adopt_orphans-Unfailing entries (queue ++ (entry.0 ∷ []))
              | reorganised ↦ λ w why h. cc h
            ])

  process_queue-Unfailing : (n : ℕ) (queue : List Hash) → Unfailing (process_queue env n queue)
  unfolding process_queue
  process_queue-Unfailing zero queue = λ w why h. cc h
  process_queue-Unfailing (suc left) [] = λ w why h. cc h
  process_queue-Unfailing (suc left) (parent ∷ queue) =
      Unfailing-bind _ _ (λ w why h. cc h)
        (λ orphans.
          Unfailing-bind _ _ (λ w why h. cc h)
            (λ _.
              Unfailing-bind _ _ (adopt_orphans-Unfailing _ queue)
                (λ next. process_queue-Unfailing left next)))

  pub process_orphans-Unfailing : (hash : Hash) → Unfailing (process_orphans env hash)
  unfolding process_orphans
  process_orphans-Unfailing hash w = process_queue-Unfailing _ (hash ∷ []) w
