-- ===== src/Chain/Choice/Path.antt =====
-- The moves of the tip, and actions whose effect on the tip is a sequence of them.
use fairchain.Base.{
  ℕ, ◌≡◌, refl, sym, ◌∙◌, ◌⊎◌, Bool, true, false, ◌&&◌, ◌||◌, ltb, ◌==◌, Outcome, panic, err, ok,
}
use mathlib.Core.Path.{subst}
use fairchain.Base.Bytes.{bytes_less}
use fairchain.Types.Hash.{Hash}
use fairchain.Types.Block.{Block}
use fairchain.Crypto.Digest.{hash_block_header}
use fairchain.Params.{ChainParams}
use fairchain.Base.KeyMap.{KeyMap}
use fairchain.Chain.State.{OrphanBlock, Env, ChainError, ChainState, World, Action, ◌>>=◌}
use fairchain.Chain.Safety.Frame.{Keeps}

-- The tip, with the parameters, which no operation changes.
pub record Tip : Type 0 where
  pub params : ChainParams
  pub hash : Hash
  pub height : ℕ
  pub work : ℕ

abbrev pub tip_of : ChainState → Tip
tip_of c = record { params = c.params; hash = c.tip_hash; height = c.tip_height; work = c.tip_work }

-- With the orphans, which only `ProcessBlock` and `processOrphans` touch.
abbrev pub view : ChainState → Tip × KeyMap OrphanBlock
view c = (tip_of c, c.orphans)

-- More work, or as much work and the smaller hash.
abbrev pub Beats : Tip → Tip → Type 0
Beats new old =
    (ltb old.work new.work || (new.work == old.work && bytes_less new.hash old.hash)) ≡ true

module _ {S E Signature PubKey : Type 0} (env : Env S E Signature PubKey) where
  -- The new tip is the header hash of a block that the engine accepts at the new height, and that is a
  -- child of the old tip or ends a better chain.
  abbrev pub TipMove : Tip → Tip → Type 0
  TipMove old new =
      (block : Block) × (new.params ≡ old.params)
      × (new.hash ≡ hash_block_header env.sha block.header)
      × (env.engine.validate_block block new.height old.params ≡ ok tt)
      × ((block.header.prev_block ≡ old.hash) ⊎ Beats new old)

  pub data TipPath : Tip → Tip → Type 0 where
    stay : {t : Tip} → TipPath t t
    move : {a b c : Tip} → TipPath a b → TipMove b c → TipPath a c

  pub TipPath-trans : {a b c : Tip} → TipPath a b → TipPath b c → TipPath a c
  TipPath-trans p stay = p
  TipPath-trans p (move q m) = move (TipPath-trans p q) m

  pub TipPath-params : {a b : Tip} → TipPath a b → b.params ≡ a.params
  TipPath-params stay = refl
  TipPath-params (move q (_, same, _, _, _)) = same ∙ TipPath-params q

  -- From a tip that `P` holds of, the action moves the tip along a path.
  abbrev pub Follows {ℓ} : {A : Type ℓ} → (Tip → Type 0) → Action S A → Type 0
  Follows P m = (w : World S) → P (tip_of w.chain) → TipPath (tip_of w.chain) (tip_of (m w).1.chain)

module _ {ℓ} {S E Signature PubKey : Type 0} (env : Env S E Signature PubKey) {A : Type ℓ}
    (P : Tip → Type 0) where
  pub Follows-Keeps : (m : Action S A) → Keeps tip_of m → Follows env P m
  Follows-Keeps m kept w _ = subst (TipPath env (tip_of w.chain)) (sym (kept w)) stay

module _ {ℓ κ} {S E Signature PubKey : Type 0} (env : Env S E Signature PubKey) {A : Type ℓ}
    {B : Type κ} (P : Tip → Type 0) (P' : A → Tip → Type 0) where
  Follows-after :
      (old : Tip) (r : Outcome ChainError A) (w : World S) (next : A → Action S B)
      → TipPath env old (tip_of w.chain)
      → ((v : A) → r ≡ ok v → P' v (tip_of w.chain))
      → ((v : A) → Follows env (P' v) (next v))
      → TipPath env old (tip_of (((λ _. (r, w)) >>= next) w).1.chain)
  unfolding ◌>>=◌
  Follows-after old panic w next way known rest = way
  Follows-after old (err why) w next way known rest = way
  Follows-after old (ok v) w next way known rest = TipPath-trans env way (rest v w (known v refl))

  -- `P'` is what is known of the tip after the first action.
  pub Follows-bind :
      (m : Action S A) (next : A → Action S B)
      → Follows env P m
      → ((w : World S) (v : A) → P (tip_of w.chain) → (m w).0 ≡ ok v → P' v (tip_of (m w).1.chain))
      → ((v : A) → Follows env (P' v) (next v))
      → Follows env P (m >>= next)
  unfolding ◌>>=◌
  Follows-bind m next first known rest w p =
      Follows-after (tip_of w.chain) (m w).0 (m w).1 next (first w p) (λ v. known w v p) rest

module _ {ℓ κ} {S E Signature PubKey : Type 0} (env : Env S E Signature PubKey) {A : Type ℓ}
    {B : Type κ} (P : Tip → Type 0) where
  -- The first action leaves the tip.
  pub Follows-kept :
      (m : Action S A) (next : A → Action S B)
      → Keeps tip_of m
      → ((v : A) → Follows env P (next v))
      → Follows env P (m >>= next)
  Follows-kept m next kept rest =
      Follows-bind env P (λ _. P) m next (Follows-Keeps env P m kept)
        (λ w v p _. subst P (sym (kept w)) p) rest

  -- As `Follows-kept`, with what the result tells of the tip.
  pub Follows-known :
      (P' : A → Tip → Type 0) (m : Action S A) (next : A → Action S B)
      → Keeps tip_of m
      → ((w : World S) (v : A) → P (tip_of w.chain) → (m w).0 ≡ ok v → P' v (tip_of w.chain))
      → ((v : A) → Follows env (P' v) (next v))
      → Follows env P (m >>= next)
  Follows-known P' m next kept known rest =
      Follows-bind env P P' m next (Follows-Keeps env P m kept)
        (λ w v p h. subst (P' v) (sym (kept w)) (known w v p h)) rest

module _ {ℓ} {S E Signature PubKey : Type 0} (env : Env S E Signature PubKey) {A : Type ℓ}
    (P : Tip → Type 0) where
  pub Follows-test :
      (b : Bool) (taken other : Action S A)
      → (b ≡ true → Follows env P taken)
      → (b ≡ false → Follows env P other)
      → Follows env P (elim b [ true ↦ taken | false ↦ other ])
  Follows-test true taken other t o = t refl
  Follows-test false taken other t o = o refl

module _ {ℓ κ} {S E Signature PubKey : Type 0} (env : Env S E Signature PubKey) {A : Type ℓ}
    {B : Type κ} where
  TipPath-after :
      (old : Tip) (r : Outcome ChainError A) (w : World S) (next : A → Action S B)
      → TipPath env old (tip_of w.chain)
      → ((v : A) → r ≡ ok v → TipPath env (tip_of w.chain) (tip_of (next v w).1.chain))
      → TipPath env old (tip_of (((λ _. (r, w)) >>= next) w).1.chain)
  unfolding ◌>>=◌
  TipPath-after old panic w next way rest = way
  TipPath-after old (err why) w next way rest = way
  TipPath-after old (ok v) w next way rest = TipPath-trans env way (rest v refl)

  -- A sequence at one state of the chain.
  pub TipPath-bind :
      (m : Action S A) (next : A → Action S B) (w : World S)
      → TipPath env (tip_of w.chain) (tip_of (m w).1.chain)
      → ((v : A)
          → (m w).0 ≡ ok v
          → TipPath env (tip_of (m w).1.chain) (tip_of (next v (m w).1).1.chain))
      → TipPath env (tip_of w.chain) (tip_of ((m >>= next) w).1.chain)
  unfolding ◌>>=◌
  TipPath-bind m next w way rest = TipPath-after (tip_of w.chain) (m w).0 (m w).1 next way rest
