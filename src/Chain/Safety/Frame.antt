-- ===== src/Chain/Safety/Frame.antt =====
-- Actions that keep a part of the chain, and how sequences of them do.
use fairchain.Base.{◌≡◌, refl, sym, ap, ◌∙◌, Bool, Option, none, some, Outcome, panic, err, ok}
use mathlib.Core.Path.{subst}
use fairchain.Chain.State.{
  ChainError, ChainState, World, Action, ◌>>=◌, write, write_with, lift, found,
}

-- Whatever the result, the part that `P` reads stays.
abbrev pub Keeps {ℓ κ} :
    {S : Type 0} {A : Type ℓ} {X : Type κ} → (ChainState → X) → Action S A → Type κ
Keeps {S = S} P m = (w : World S) → P (m w).1.chain ≡ P w.chain

-- Where the action fails, `R` relates the error and the chains before and after.
abbrev pub OnError {ℓ κ} :
    {S : Type 0} {A : Type ℓ}
    → (ChainError → ChainState → ChainState → Type κ)
    → Action S A
    → Type (ℓ ⊔ κ)
OnError {S = S} R m =
    (w : World S) (why : ChainError) → (m w).0 ≡ err why → R why w.chain (m w).1.chain

abbrev pub Unfailing {ℓ} : {S : Type 0} {A : Type ℓ} → Action S A → Type ℓ
Unfailing {S = S} m = (w : World S) (why : ChainError) → (m w).0 ≡ err why → ⊥

err-injective {ℓ} :
    {A : Type ℓ} {a b : ChainError} → ◌≡◌ {A = Outcome ChainError A} (err a) (err b) → a ≡ b
err-injective h = cc

module _ {ℓ κ ι} {S : Type 0} {A : Type ℓ} {B : Type κ} {X : Type ι} (P : ChainState → X) where
  -- The action after a result `r` that is there already.
  Keeps-after :
      (r : Outcome ChainError A) (w : World S) (next : A → Action S B)
      → ((v : A) → Keeps P (next v))
      → P (((λ _. (r, w)) >>= next) w).1.chain ≡ P w.chain
  unfolding ◌>>=◌
  Keeps-after panic w next rest = refl
  Keeps-after (err why) w next rest = refl
  Keeps-after (ok v) w next rest = rest v w

  pub Keeps-bind :
      (m : Action S A) (next : A → Action S B)
      → Keeps P m
      → ((v : A) → Keeps P (next v))
      → Keeps P (m >>= next)
  unfolding ◌>>=◌
  Keeps-bind m next first rest w = Keeps-after (m w).0 (m w).1 next rest ∙ first w

module _ {ℓ κ ι} {S : Type 0} {A : Type ℓ} {B : Type κ}
    (R : ChainError → ChainState → ChainState → Type ι) where
  OnError-after :
      (r : Outcome ChainError A) (w : World S) (next : A → Action S B) (c : ChainState)
      → w.chain ≡ c
      → ((why : ChainError) → r ≡ err why → R why c w.chain)
      → ((v : A) → OnError R (next v))
      → (why : ChainError) → (((λ _. (r, w)) >>= next) w).0 ≡ err why
      → R why c (((λ _. (r, w)) >>= next) w).1.chain
  unfolding ◌>>=◌
  OnError-after panic w next c same first rest why h = absurd (cc h)
  OnError-after (err why') w next c same first rest why h =
      first why (ap (λ (x : ChainError). err x) (err-injective h))
  OnError-after (ok v) w next c same first rest why h =
      subst (λ c. R why c (next v w).1.chain) same (rest v w why h)

  -- The first action leaves the chain as it is.
  OnError-bind :
      (m : Action S A) (next : A → Action S B)
      → Keeps (λ c. c) m
      → OnError R m
      → ((v : A) → OnError R (next v))
      → OnError R (m >>= next)
  unfolding ◌>>=◌
  OnError-bind m next kept first rest w =
      OnError-after (m w).0 (m w).1 next w.chain (kept w) (first w) rest

  OnError-after-Unfailing :
      (r : Outcome ChainError A) (w : World S) (next : A → Action S B) (c : ChainState)
      → ((why : ChainError) → r ≡ err why → R why c w.chain)
      → ((v : A) → Unfailing (next v))
      → (why : ChainError) → (((λ _. (r, w)) >>= next) w).0 ≡ err why
      → R why c (((λ _. (r, w)) >>= next) w).1.chain
  unfolding ◌>>=◌
  OnError-after-Unfailing panic w next c first rest why h = absurd (cc h)
  OnError-after-Unfailing (err why') w next c first rest why h =
      first why (ap (λ (x : ChainError). err x) (err-injective h))
  OnError-after-Unfailing (ok v) w next c first rest why h = absurd (rest v w why h)

  pub OnError-bind-Unfailing :
      (m : Action S A) (next : A → Action S B)
      → OnError R m
      → ((v : A) → Unfailing (next v))
      → OnError R (m >>= next)
  unfolding ◌>>=◌
  OnError-bind-Unfailing m next first rest w =
      OnError-after-Unfailing (m w).0 (m w).1 next w.chain (first w) rest

-- An action that leaves the whole chain as it is.
abbrev pub ReadsOnly {ℓ} : {S : Type 0} {A : Type ℓ} → Action S A → Type 0
ReadsOnly m = Keeps (λ c. c) m

module _ {ℓ κ} {S : Type 0} {A : Type ℓ} (R : ChainError → ChainState → ChainState → Type κ) where
  ReadsOnly-OnError :
      ((why : ChainError) (c : ChainState) → R why c c)
      → (m : Action S A) → ReadsOnly m
      → OnError R m
  ReadsOnly-OnError same m kept w why h =
      subst (λ c. R why w.chain c) (sym (kept w)) (same why w.chain)

module _ {S : Type 0} where
  write-ReadsOnly : (put : S → Bool × S) (why : ChainError) → ReadsOnly (write put why)
  write-ReadsOnly put why w = refl

module _ {ℓ} {S : Type 0} {A : Type ℓ} where
  write_with-ReadsOnly :
      (put : S → Option A × S) (why : ChainError) → ReadsOnly (write_with put why)
  write_with-ReadsOnly put why w = refl

  pub found-ReadsOnly : (why : ChainError) (o : Option A) → ReadsOnly (found {S = S} why o)
  found-ReadsOnly why none w = refl
  found-ReadsOnly why (some v) w = refl

  pub lift-ReadsOnly :
      {E : Type 0} (why : ChainError) (o : Outcome E A) → ReadsOnly (lift {S = S} why o)
  lift-ReadsOnly why panic w = refl
  lift-ReadsOnly why (err e) w = refl
  lift-ReadsOnly why (ok v) w = refl

-- What the result of an action says about the chain before and after it.
abbrev pub Ensures {ℓ κ} :
    {S : Type 0} {A : Type ℓ} → (ChainState → A → ChainState → Type κ) → Action S A → Type (ℓ ⊔ κ)
Ensures {S = S} {A = A} Q m = (w : World S) (v : A) → (m w).0 ≡ ok v → Q w.chain v (m w).1.chain

module _ {ℓ κ ι λ'} {S : Type 0} {A : Type ℓ} {B : Type κ}
    (Q : ChainState → A → ChainState → Type ι)
    (R : ChainError → ChainState → ChainState → Type λ') where
  OnError-after_ensured :
      (r : Outcome ChainError A) (w : World S) (next : A → Action S B) (c : ChainState)
      → ((v : A) → r ≡ ok v → Q c v w.chain)
      → ((why : ChainError) → r ≡ err why → R why c w.chain)
      → ((v : A) → OnError (λ why c₁ c₂. Q c v c₁ → R why c c₂) (next v))
      → (why : ChainError) → (((λ _. (r, w)) >>= next) w).0 ≡ err why
      → R why c (((λ _. (r, w)) >>= next) w).1.chain
  unfolding ◌>>=◌
  OnError-after_ensured panic w next c ensured first rest why h = absurd (cc h)
  OnError-after_ensured (err why') w next c ensured first rest why h =
      first why (ap (λ (x : ChainError). err x) (err-injective h))
  OnError-after_ensured (ok v) w next c ensured first rest why h = rest v w why h (ensured v refl)

  pub OnError-bind_ensured :
      (m : Action S A) (next : A → Action S B)
      → Ensures Q m
      → OnError R m
      → ((c : ChainState) (v : A) → OnError (λ why c₁ c₂. Q c v c₁ → R why c c₂) (next v))
      → OnError R (m >>= next)
  unfolding ◌>>=◌
  OnError-bind_ensured m next ensured first rest w =
      OnError-after_ensured (m w).0 (m w).1 next w.chain (ensured w) (first w) (rest w.chain)

module _ {ℓ κ} {S : Type 0} {A : Type ℓ} {B : Type κ} where
  Unfailing-after :
      (r : Outcome ChainError A) (w : World S) (next : A → Action S B)
      → ((why : ChainError) → r ≡ err why → ⊥)
      → ((v : A) → Unfailing (next v))
      → (why : ChainError) → (((λ _. (r, w)) >>= next) w).0 ≡ err why
      → ⊥
  unfolding ◌>>=◌
  Unfailing-after panic w next first rest why h = cc h
  Unfailing-after (err why') w next first rest why h = first why' refl
  Unfailing-after (ok v) w next first rest why h = rest v w why h

  pub Unfailing-bind :
      (m : Action S A) (next : A → Action S B)
      → Unfailing m
      → ((v : A) → Unfailing (next v))
      → Unfailing (m >>= next)
  unfolding ◌>>=◌
  Unfailing-bind m next first rest w = Unfailing-after (m w).0 (m w).1 next (first w) rest

module _ {ℓ κ} {S : Type 0} {A : Type ℓ} (R : ChainError → ChainState → ChainState → Type κ) where
  pub Unfailing-OnError : (m : Action S A) → Unfailing m → OnError R m
  Unfailing-OnError m never w why h = absurd (never w why h)

module _ {ℓ κ ι} {S : Type 0} {A : Type ℓ} {B : Type κ}
    (R : ChainError → ChainState → ChainState → Type ι)
    (same : (why : ChainError) (c : ChainState) → R why c c) where
  pub OnError-bind_reads :
      (m : Action S A) (next : A → Action S B)
      → ReadsOnly m
      → ((v : A) → OnError R (next v))
      → OnError R (m >>= next)
  OnError-bind_reads m next kept rest =
      OnError-bind R m next kept (ReadsOnly-OnError R same m kept) rest
