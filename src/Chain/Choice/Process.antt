-- ===== src/Chain/Choice/Process.antt =====
-- `ProcessBlock` (internal/chain/chain.go) moves the tip only to blocks that the engine accepts, each a child of the
-- tip before it or the end of a better chain.
use fairchain.Base.{
  ℕ, ◌+◌, ◌%◌, ◌^◌, ◌≡◌, refl, sym, ap, ◌∙◌, Bool, true, false, Outcome, ok, Option, none, some,
}
use mathlib.Core.Path.{subst}
use fairchain.Base.Bytes.{bytes_eq}
use fairchain.Base.KeyMap.{lookup}
use fairchain.Types.Hash.{Hash}
use fairchain.Types.Block.{Block}
use fairchain.Crypto.Digest.{hash_block_header}
use fairchain.Crypto.Target.{validate_proof_of_work}
use fairchain.Store.Interface.{Location}
use fairchain.Chain.State.{Env, ChainError, ChainState, World, Action, ◌>>=◌, ◌>>◌}
use fairchain.Chain.Reorg.{reorg}
use fairchain.Chain.Accept.{
  beats, check_block, accept_tip, keep_side_block, accept_better, accept_checked, accept_block,
  keep_orphan, process_block,
}
use fairchain.Chain.Safety.Frame.{Keeps, Keeps-bind}
use fairchain.Chain.Safety.Failures.{test-ReadsOnly, OkKeeps, OkKeeps-bind, OkKeeps-test}
use fairchain.Chain.Safety.Reads.{check_block-ReadsOnly, persist_utxo_changes-ReadsOnly}
use fairchain.Chain.Choice.Path.{
  Tip, tip_of, TipPath, stay, Follows, Follows-kept, TipPath-trans, TipPath-bind,
}
use fairchain.Chain.Choice.Switch.{connect_tip-Keeps, reorg-orphans}
use fairchain.Chain.Choice.Steps.{
  Accepted, Checked, Child, Checked-Child, Checked-Better, Better, extend_chain-Follows,
  reorg-Better, check_block-Accepted, or_disconnect-Keeps,
}
use fairchain.Chain.Choice.Blocks.{
  NamedPool, process_orphans-TipPath, keep_side_block-TipPath, keep_side_block-OkKeeps,
  after_reorg-TipPath, after_reorg-OkKeeps,
}
use fairchain.Chain.Choice.Pool.{extend_chain-pool, pool}

module _ {S E Signature PubKey : Type 0} (env : Env S E Signature PubKey) where
  accept_tip-Follows :
      (hash : Hash) (block : Block) (height work : ℕ) (place : Location)
      → Follows env (Child env block hash height) (accept_tip env hash block height work place)
  unfolding accept_tip
  accept_tip-Follows hash block height work place =
      Follows-kept env (Child env block hash height) _ _
        (λ w. ap (λ v. v.0) (connect_tip-Keeps env block height w))
        (λ undo.
          Follows-kept env (Child env block hash height) _ _
            (or_disconnect-Keeps env tip_of (λ c s. refl) block undo _
              (Keeps-bind tip_of _ _ (λ w. refl)
                (λ rec.
                  Keeps-bind tip_of _ _ (λ w. refl)
                    (λ _ w. ap tip_of (persist_utxo_changes-ReadsOnly env block undo hash w)))))
            (λ _. extend_chain-Follows env block hash height work))

  accept_tip-pool :
      (hash : Hash) (block : Block) (height work : ℕ) (place : Location)
      → Keeps pool (accept_tip env hash block height work place)
  unfolding accept_tip
  accept_tip-pool hash block height work place =
      Keeps-bind pool _ _ (λ w. ap (λ v. v.1) (connect_tip-Keeps env block height w))
        (λ undo.
          Keeps-bind pool _ _
            (or_disconnect-Keeps env pool (λ c s. refl) block undo _
              (Keeps-bind pool _ _ (λ w. refl)
                (λ rec.
                  Keeps-bind pool _ _ (λ w. refl)
                    (λ _ w. ap pool (persist_utxo_changes-ReadsOnly env block undo hash w)))))
            (λ _. extend_chain-pool env hash height work))

  -- As `Follows`, from a chain whose orphans stand under their hashes.
  abbrev Advances {ℓ} : {A : Type ℓ} → (Tip → Type 0) → Action S A → Type 0
  Advances P m =
      (w : World S)
      → NamedPool env w.chain.orphans
      → P (tip_of w.chain)
      → TipPath env (tip_of w.chain) (tip_of (m w).1.chain)

  Advances-reads {ℓ κ} :
      {A : Type ℓ} {B : Type κ} (P : Tip → Type 0) (m : Action S A) (next : A → Action S B)
      → Keeps (λ c. c) m
      → ((v : A) → Advances P (next v))
      → Advances P (m >>= next)
  Advances-reads P m next kept rest w named p =
      TipPath-bind env m next w
        (subst (λ x. TipPath env (tip_of w.chain) (tip_of x)) (sym (kept w)) stay)
        (λ v _.
          rest v (m w).1 (subst (λ x. NamedPool env x.orphans) (sym (kept w)) named)
            (subst (λ x. P (tip_of x)) (sym (kept w)) p))

  accept_better-Advances :
      (hash : Hash) (block : Block) (height work : ℕ)
      → Advances (Better env block hash height work) (accept_better env hash height work)
  unfolding accept_better
  accept_better-Advances hash block height work w named p =
      TipPath-trans env (reorg-Better env block hash height work w p) (
        after_reorg-TipPath env hash height (reorg env hash height work w).0
          (reorg env hash height work w).1
          (subst (NamedPool env) (sym (reorg-orphans env hash height work w)) named))

  accept_better-OkKeeps :
      (hash : Hash) (height work : ℕ) → OkKeeps pool (accept_better env hash height work)
  unfolding accept_better
  accept_better-OkKeeps hash height work w v h =
      after_reorg-OkKeeps env hash height _ _ v h ∙ reorg-orphans env hash height work w

  accept_checked-OkKeeps :
      (hash : Hash) (block : Block) (height work : ℕ)
      → OkKeeps pool (accept_checked env hash block height work)
  unfolding accept_checked
  accept_checked-OkKeeps hash block height work =
      OkKeeps-bind pool _ _ (λ w. refl)
        (λ place.
          OkKeeps-bind pool _ _ (λ w. refl)
            (λ c.
              OkKeeps-test pool (bytes_eq block.header.prev_block c.tip_hash) _ _
                (λ w v _. accept_tip-pool hash block height work place w)
                (OkKeeps-bind pool _ _ (λ w. refl)
                  (λ _.
                    OkKeeps-test pool (beats work hash c) _ _
                      (accept_better-OkKeeps hash height work)
                      (keep_side_block-OkKeeps env hash height)))))

  -- The block is not a child of the tip.
  aside-Advances :
      (hash : Hash) (block : Block) (height work : ℕ) (c : ChainState)
      → Advances (Checked env block hash height c) (elim (beats work hash c) [
        | true ↦ accept_better env hash height work
        | false ↦ keep_side_block env hash height
      ])
  aside-Advances hash block height work c = by_work (beats work hash c) refl
    where
      by_work :
          (b : Bool)
          → beats work hash c ≡ b
          → Advances (Checked env block hash height c) (elim b [
            | true ↦ accept_better env hash height work
            | false ↦ keep_side_block env hash height
          ])
      by_work true better w named p =
          accept_better-Advances hash block height work w named
            (Checked-Better env block hash height work c (tip_of w.chain) better p)
      by_work false worse w named p = keep_side_block-TipPath env hash height w named

  place-Advances :
      (hash : Hash) (block : Block) (height work : ℕ) (place : Location) (c : ChainState)
      (aside : Action S (Unit {0}))
      → Keeps (λ c. c) aside
      → Advances
          (Checked env block hash height c)
          (elim (bytes_eq block.header.prev_block c.tip_hash) [
            | true ↦ accept_tip env hash block height work place
            | false ↦ aside >> elim (beats work hash c) [
              | true ↦ accept_better env hash height work
              | false ↦ keep_side_block env hash height
            ]
          ])
  place-Advances hash block height work place c aside kept =
      by_parent (bytes_eq block.header.prev_block c.tip_hash) refl
    where
      by_parent :
          (b : Bool)
          → bytes_eq block.header.prev_block c.tip_hash ≡ b
          → Advances (Checked env block hash height c) (elim b [
            | true ↦ accept_tip env hash block height work place
            | false ↦ aside >> elim (beats work hash c) [
              | true ↦ accept_better env hash height work
              | false ↦ keep_side_block env hash height
            ]
          ])
      by_parent true child = λ w named p.
          accept_tip-Follows hash block height work place w
            (Checked-Child env block hash height c (tip_of w.chain) child p)
      by_parent false other =
          Advances-reads (Checked env block hash height c) aside _ kept
            (λ _. aside-Advances hash block height work c)

  accept_checked-Advances :
      (hash : Hash) (block : Block) (height work : ℕ)
      → Advances (Accepted env block hash height) (accept_checked env hash block height work)
  unfolding accept_checked
  accept_checked-Advances hash block height work w named accepted =
      TipPath-bind env _ _ w stay (λ place _. TipPath-bind env _ _ _ stay (λ c read.
        place-Advances hash block height work place c _ (λ w. refl) _ named
          (accepted, ap tip_of (taken read))))
    where
      taken :
          {c : ChainState}
          → ◌≡◌ {A = Outcome ChainError ChainState} (ok w.chain) (ok c)
          → c ≡ w.chain
      taken h = cc h

  accept_block-Advances :
      (hash : Hash) (block : Block) (parent_height : ℕ)
      → hash ≡ hash_block_header env.sha block.header
      → Advances (λ _. Unit {0}) (accept_block env hash block parent_height)
  unfolding accept_block
  accept_block-Advances hash block parent_height header w named _ =
      let kept = check_block-ReadsOnly env block parent_height in
      TipPath-bind env (check_block env block parent_height) _ w
        (subst (λ x. TipPath env (tip_of w.chain) (tip_of x)) (sym (kept w)) stay)
        (λ work checked.
          let w₁ = (check_block env block parent_height w).1 in
          let named₁ = subst (λ x. NamedPool env x.orphans) (sym (kept w)) named in
          let valid = check_block-Accepted env block parent_height w work checked in
          TipPath-bind env (accept_checked env hash block ((parent_height + 1) % 2 ^ 32) work) _ w₁
            (accept_checked-Advances hash block ((parent_height + 1) % 2 ^ 32) work w₁ named₁ (
              header,
              subst
                  (λ x.
                    env.engine.validate_block block ((parent_height + 1) % 2 ^ 32) x.params ≡ ok tt)
                  (sym (kept w)) valid,
            ))
            (λ t stored.
              TipPath-bind env _ _ _
                (process_orphans-TipPath env hash _ (
                  subst (NamedPool env)
                    (sym (
                      accept_checked-OkKeeps hash block ((parent_height + 1) % 2 ^ 32) work w₁ t
                        stored))
                    named₁))
                (λ _ _. stay)))

  keep_orphan-tip : (hash : Hash) (block : Block) → Keeps tip_of (keep_orphan env hash block)
  unfolding keep_orphan
  keep_orphan-tip hash block =
      Keeps-bind tip_of _ _
        (λ w. ap tip_of (
          test-ReadsOnly (validate_proof_of_work hash block.header.bits) _ _ (λ w. refl) (λ w. refl)
            w))
        (λ _. Keeps-bind tip_of _ _ (λ w. refl) (λ _ w. refl))

  -- However `ProcessBlock` ends, from a chain whose orphans stand under the hashes of their headers: the tip has moved
  -- along a path, on which every new tip is the header hash of a block that the engine accepts at the height of
  -- the new tip, and either is a child of the tip before it, or has more work, or as much work and the
  -- smaller hash. The orphans that are taken up after the block are a part of this.
  pub process_block-TipPath :
      (block : Block) (w : World S)
      → NamedPool env w.chain.orphans
      → TipPath env (tip_of w.chain) (tip_of (process_block env block w).1.chain)
  unfolding process_block
  process_block-TipPath block w named = TipPath-bind env _ _ w stay (λ c _.
      Advances-reads (λ _. Unit {0}) _ _ (test-ReadsOnly _ _ _ (λ w. refl) (λ w. refl))
        (λ _.
          Advances-reads (λ _. Unit {0}) _ _ (test-ReadsOnly _ _ _ (λ w. refl) (λ w. refl))
            (λ _. by_parent (lookup block.header.prev_block c.height_by_hash)))
        w named tt)
    where
      by_parent :
          (o : Option ℕ)
          → Advances
              (λ _. Unit {0})
              (elim o [
                | none ↦ keep_orphan env (hash_block_header env.sha block.header) block
                | some parent_height ↦
                    accept_block env (hash_block_header env.sha block.header) block parent_height
              ])
      by_parent none =
          λ w _ _. subst (TipPath env (tip_of w.chain)) (sym (keep_orphan-tip _ block w)) stay
      by_parent (some parent_height) = accept_block-Advances _ block parent_height refl
