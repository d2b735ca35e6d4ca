-- ===== src/Chain/Safety/Failures.antt =====
-- Actions that fail with one error, that cannot fail, and that keep a part of the chain where they
-- succeed.
use fairchain.Base.{
  ◌≡◌, refl, ap, ◌∙◌, Bool, true, false, Option, none, some, Outcome, panic, err, ok, if◌then◌else◌,
}
use fairchain.Chain.State.{ChainError, ChainState, World, Action, ◌>>=◌, write}
use fairchain.Chain.Safety.Frame.{Keeps, OnError, Keeps-bind, ReadsOnly}

abbrev pub Fails : ChainError → ChainError → ChainState → ChainState → Type 0
Fails reason why c c' = (why ≡ reason) × (c' ≡ c)

-- The action fails with `reason` alone, and then leaves the chain as it is.
abbrev pub FailsWith {ℓ} : {S : Type 0} {A : Type ℓ} → ChainError → Action S A → Type ℓ
FailsWith reason m = OnError (Fails reason) m

module _ {S : Type 0} where
  pub write-FailsWith : (put : S → Bool × S) (why : ChainError) → FailsWith why (write put why)
  write-FailsWith put why w reason h = (which (put w.store).0 h, refl)
    where
      which :
          (done : Bool)
          → ◌≡◌ {A = Outcome ChainError (Unit {0})} (if done then ok tt else err why) (err reason)
          → reason ≡ why
      which true h = absurd (cc h)
      which false h = cc h

module _ {ℓ ι} {S : Type 0} {A : Type ℓ} (R : ChainError → ChainState → ChainState → Type ι) where
  pub OnError-test :
      (b : Bool) (taken other : Action S A)
      → OnError R taken
      → OnError R other
      → OnError R (elim b [ true ↦ taken | false ↦ other ])
  OnError-test true taken other y n = y
  OnError-test false taken other y n = n

  pub OnError-found {κ} :
      {B : Type κ} (o : Option B) (missing : Action S A) (there : B → Action S A)
      → OnError R missing
      → ((v : B) → OnError R (there v))
      → OnError R (elim o [ none ↦ missing | some v ↦ there v ])
  OnError-found none missing there m t = m
  OnError-found (some v) missing there m t = t v

module _ {S : Type 0} where
  pub test-ReadsOnly :
      (b : Bool) (taken other : Action S (Unit {0}))
      → ReadsOnly taken
      → ReadsOnly other
      → ReadsOnly (if b then taken else other)
  test-ReadsOnly true taken other y n = y
  test-ReadsOnly false taken other y n = n

module _ {ℓ κ} {S : Type 0} {A : Type ℓ} {X : Type κ} (P : ChainState → X) where
  pub ReadsOnly-Keeps : (m : Action S A) → ReadsOnly m → Keeps P m
  ReadsOnly-Keeps m kept w = ap P (kept w)

  pub Keeps-found :
      {B : Type 0} (o : Option B) (missing : Action S A) (there : B → Action S A)
      → Keeps P missing
      → ((v : B) → Keeps P (there v))
      → Keeps P (elim o [ none ↦ missing | some v ↦ there v ])
  Keeps-found none missing there m t = m
  Keeps-found (some v) missing there m t = t v

  -- The first action leaves the whole chain as it is.
  pub Keeps-reads {ι} :
      {B : Type ι} (m : Action S B) (next : B → Action S A)
      → ReadsOnly m
      → ((v : B) → Keeps P (next v))
      → Keeps P (m >>= next)
  Keeps-reads m next kept rest = Keeps-bind P m next (λ w. ap P (kept w)) rest

module _ {ℓ κ} {S : Type 0} {A : Type ℓ} {X : Type κ} (P : ChainState → X) where
  pub Keeps-test :
      (b : Bool) (taken other : Action S A)
      → Keeps P taken
      → Keeps P other
      → Keeps P (elim b [ true ↦ taken | false ↦ other ])
  Keeps-test true taken other t o = t
  Keeps-test false taken other t o = o

module _ {ℓ κ} {S : Type 0} {A : Type ℓ} {B : Type κ} where
  same-after :
      (r : Outcome ChainError A) (w : World S) (next next' : A → Action S B)
      → ((v : A) → r ≡ ok v → next v w ≡ next' v w)
      → ((λ _. (r, w)) >>= next) w ≡ ((λ _. (r, w)) >>= next') w
  unfolding ◌>>=◌
  same-after panic w next next' same = refl
  same-after (err why) w next next' same = refl
  same-after (ok v) w next next' same = same v refl

  -- Sequences whose second parts agree on what the first one gives.
  pub >>=-same :
      (m : Action S A) (next next' : A → Action S B) (w : World S)
      → ((v : A) → (m w).0 ≡ ok v → next v (m w).1 ≡ next' v (m w).1)
      → (m >>= next) w ≡ (m >>= next') w
  unfolding ◌>>=◌
  >>=-same m next next' w same = same-after (m w).0 (m w).1 next next' same

-- A success keeps the part that `P` reads.
abbrev pub OkKeeps {ℓ κ} :
    {S : Type 0} {A : Type ℓ} {X : Type κ} → (ChainState → X) → Action S A → Type (ℓ ⊔ κ)
OkKeeps {S = S} {A = A} P m = (w : World S) (v : A) → (m w).0 ≡ ok v → P (m w).1.chain ≡ P w.chain

module _ {ℓ κ ι} {S : Type 0} {A : Type ℓ} {B : Type κ} {X : Type ι} (P : ChainState → X) where
  OkKeeps-after :
      (r : Outcome ChainError A) (w : World S) (next : A → Action S B)
      → ((v : A) → OkKeeps P (next v))
      → (v : B) → (((λ _. (r, w)) >>= next) w).0 ≡ ok v
      → P (((λ _. (r, w)) >>= next) w).1.chain ≡ P w.chain
  unfolding ◌>>=◌
  OkKeeps-after panic w next rest v h = absurd (cc h)
  OkKeeps-after (err why) w next rest v h = absurd (cc h)
  OkKeeps-after (ok a) w next rest v h = rest a w v h

  pub OkKeeps-bind :
      (m : Action S A) (next : A → Action S B)
      → Keeps P m
      → ((v : A) → OkKeeps P (next v))
      → OkKeeps P (m >>= next)
  unfolding ◌>>=◌
  OkKeeps-bind m next kept rest w v h = OkKeeps-after (m w).0 (m w).1 next rest v h ∙ kept w

module _ {ℓ κ} {S : Type 0} {A : Type ℓ} {X : Type κ} (P : ChainState → X) where
  pub OkKeeps-test :
      (b : Bool) (taken other : Action S A)
      → OkKeeps P taken
      → OkKeeps P other
      → OkKeeps P (elim b [ true ↦ taken | false ↦ other ])
  OkKeeps-test true taken other t o = t
  OkKeeps-test false taken other t o = o
