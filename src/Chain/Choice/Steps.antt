-- ===== src/Chain/Choice/Steps.antt =====
-- What the parts of `ProcessBlock` and `processOrphans` (internal/chain/chain.go) do to the tip.
use fairchain.Base.{
  ℕ, ◌+◌, ◌%◌, ◌^◌, ◌≡◌, refl, sym, ap, ◌∙◌, inl, inr, true, Outcome, panic, err, ok,
}
use mathlib.Core.Path.{subst}
use fairchain.Base.Bytes.{bytes_eq, bytes_eq_iff}
use fairchain.Types.Hash.{Hash}
use fairchain.Types.Block.{Block}
use fairchain.Crypto.Digest.{hash_block_header}
use fairchain.Utxo.Set.{UtxoSet}
use fairchain.Utxo.Connect.{BlockUndoData}
use fairchain.Chain.State.{Env, ChainError, ChainState, World, Action, ◌>>=◌, lift}
use fairchain.Chain.Reorg.{index_block, reorg}
use fairchain.Chain.Accept.{beats, check_block, extend_chain, or_disconnect}
use fairchain.Chain.Safety.Frame.{Keeps}
use fairchain.Chain.Choice.Path.{Tip, tip_of, Beats, stay, move, Follows, Follows-kept}
use fairchain.Chain.Choice.Switch.{moved, reorg-Follows}

-- A sequence of actions that gives a value has both its parts succeed.
pub >>=-ok {ℓ κ} :
    {S : Type 0} {A : Type ℓ} {B : Type κ} (m : Action S A) (next : A → Action S B) (w : World S)
    {v : B}
    → ((m >>= next) w).0 ≡ ok v
    → (a : A) × ((m w).0 ≡ ok a) × ((next a (m w).1).0 ≡ ok v)
unfolding ◌>>=◌
>>=-ok {S = S} {A = A} {B = B} m next w {v} h = after (m w).0 (m w).1 h
  where
    after :
        (r : Outcome ChainError A) (w' : World S)
        → (((λ (_ : World S). (r, w')) >>= next) w').0 ≡ ok v
        → (a : A) × (r ≡ ok a) × ((next a w').0 ≡ ok v)
    after panic w' h = absurd (cc h)
    after (err e) w' h = absurd (cc h)
    after (ok a) w' h = (a, refl, h)

lift-ok {ℓ} :
    {S E : Type 0} {A : Type ℓ} (why : ChainError) (o : Outcome E A) (w : World S) {v : A}
    → (lift why o w).0 ≡ ok v
    → o ≡ ok v
lift-ok why panic w h = absurd (cc h)
lift-ok why (err e) w h = absurd (cc h)
lift-ok why (ok v) w h = cc h

module _ {S E Signature PubKey : Type 0} (env : Env S E Signature PubKey) where
  pub or_disconnect-Keeps {ℓ} :
      {X : Type ℓ} (P : ChainState → X)
      (stable : (c : ChainState) (s : UtxoSet) → P (record c { utxo_set = s }) ≡ P c)
      (block : Block) (undo : BlockUndoData) (action : Action S (Unit {0}))
      → Keeps P action
      → Keeps P (or_disconnect env block undo action)
  unfolding or_disconnect
  or_disconnect-Keeps P stable block undo action kept w = after (action w).0 (action w).1 ∙ kept w
    where
      after :
          (r : Outcome ChainError (Unit {0})) (w' : World S)
          → P (or_disconnect env block undo (λ _. (r, w')) w).1.chain ≡ P w'.chain
      after panic w' = refl
      after (err e) w' = stable w'.chain _
      after (ok t) w' = refl

  -- The engine accepts the block at this height.
  abbrev pub Accepted : Block → Hash → ℕ → Tip → Type 0
  Accepted block hash height t =
      (hash ≡ hash_block_header env.sha block.header)
      × (env.engine.validate_block block height t.params ≡ ok tt)

  abbrev pub Child : Block → Hash → ℕ → Tip → Type 0
  Child block hash height t = Accepted block hash height t × (block.header.prev_block ≡ t.hash)

  abbrev pub Better : Block → Hash → ℕ → ℕ → Tip → Type 0
  Better block hash height work t =
      Accepted block hash height t × Beats (moved env hash height work t) t

  -- What is known once the chain `c` has been read, which has the tip.
  abbrev pub Checked : Block → Hash → ℕ → ChainState → Tip → Type 0
  Checked block hash height c t = Accepted block hash height t × (tip_of c ≡ t)

  pub Checked-Child :
      (block : Block) (hash : Hash) (height : ℕ) (c : ChainState) (t : Tip)
      → bytes_eq block.header.prev_block c.tip_hash ≡ true
      → Checked block hash height c t
      → Child block hash height t
  Checked-Child block hash height c t child (accepted, same) =
      (accepted, (bytes_eq_iff _ _).0 child ∙ ap (λ (x : Tip). x.hash) same)

  pub extend_chain-Follows :
      (block : Block) (hash : Hash) (height work : ℕ)
      → Follows env (Child block hash height) (extend_chain env hash height work)
  unfolding extend_chain index_block
  extend_chain-Follows block hash height work =
      Follows-kept env (Child block hash height) _ _ (λ w. refl)
        (λ _.
          Follows-kept env (Child block hash height) _ _ (λ w. refl)
            (λ _ w ((named, valid), child). move stay (block, refl, named, valid, inl child)))

  pub reorg-Better :
      (block : Block) (hash : Hash) (height work : ℕ)
      → Follows env (Better block hash height work) (reorg env hash height work)
  reorg-Better block hash height work =
      reorg-Follows env (Better block hash height work) hash height work
        (λ t ((named, valid), better). (block, refl, named, valid, inr better))

  pub check_block-Accepted :
      (block : Block) (parent_height : ℕ) (w : World S) (work : ℕ)
      → (check_block env block parent_height w).0 ≡ ok work
      → env.engine.validate_block block ((parent_height + 1) % 2 ^ 32) w.chain.params ≡ ok tt
  unfolding check_block
  check_block-Accepted block parent_height w work h =
      let (a, e, h1) = >>=-ok _ _ w h in
      let (parent, _, h2) = >>=-ok _ _ _ h1 in
      let (_, _, h3) = >>=-ok _ _ _ h2 in
      let (_, _, h4) = >>=-ok _ _ _ h3 in
      let (_, valid, _) = >>=-ok _ _ _ h4 in
      let same : w ≡ a = cc e in
      subst
        (λ x. env.engine.validate_block block ((parent_height + 1) % 2 ^ 32) x.chain.params ≡ ok tt)
        (sym same) (lift-ok _ _ _ valid)

  pub Checked-Better :
      (block : Block) (hash : Hash) (height work : ℕ) (c : ChainState) (t : Tip)
      → beats work hash c ≡ true
      → Checked block hash height c t
      → Better block hash height work t
  unfolding beats
  Checked-Better block hash height work c t better (accepted, same) =
      (accepted, subst (λ t. Beats (moved env hash height work t) t) same better)
