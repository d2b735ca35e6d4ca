-- ===== src/Base/Results.antt =====
-- What a Go call ends in: a value, an error value, or a run-time panic.
use mathlib.Core.Path.{◌≡◌, refl}
use mathlib.Core.Bool.{Bool, true, false}
use mathlib.Core.Option.{Option, none, some}

pub data Outcome {ℓ} (E : Type 0) (A : Type ℓ) : Type ℓ where
  panic : Outcome E A
  err : E → Outcome E A
  ok : A → Outcome E A

module _ {ℓ κ} {E : Type 0} {A : Type ℓ} {B : Type κ} where
  infixl 5 ◌>>=◌
  -- The call that follows, unless this one has failed.
  abbrev pub ◌>>=◌ : Outcome E A → (A → Outcome E B) → Outcome E B
  panic >>= _ = panic
  err why >>= _ = err why
  ok v >>= next = next v

  -- A sequence of calls that gives a value has both its parts succeed.
  pub >>=-eq-ok :
      (first : Outcome E A) (next : A → Outcome E B) {w : B}
      → (first >>= next) ≡ ok w
      → (v : A) × (first ≡ ok v) × (next v ≡ ok w)
  >>=-eq-ok panic _ run = cc run
  >>=-eq-ok (err why) _ run = cc run
  >>=-eq-ok (ok v) _ run = (v, refl, run)

module _ {ℓ} {E : Type 0} {A : Type ℓ} where
  infixl 5 ◌>>◌
  abbrev pub ◌>>◌ : Outcome E (Unit {0}) → Outcome E A → Outcome E A
  first >> next = first >>= λ _. next

  abbrev pub or_fail : Option A → E → Outcome E A
  or_fail o why = elim o [ none ↦ err why | some v ↦ ok v ]

  pub or_fail-eq-ok : (o : Option A) (why : E) {v : A} → or_fail o why ≡ ok v → o ≡ some v
  or_fail-eq-ok none _ run = cc run
  or_fail-eq-ok (some _) _ run = cc run

module _ {E : Type 0} where
  -- `if bad { return why }`
  abbrev pub fail_if : Bool → E → Outcome E (Unit {0})
  fail_if bad why = elim bad [ false ↦ ok tt | true ↦ err why ]

module _ {ℓ} {E : Type 0} {A : Type ℓ} where
  pub fail_if-eq-ok :
      (bad : Bool) (why : E) (rest : Outcome E A) {v : A}
      → (fail_if bad why >> rest) ≡ ok v
      → (bad ≡ false) × (rest ≡ ok v)
  fail_if-eq-ok false _ _ run = (refl, run)
  fail_if-eq-ok true _ _ run = cc run

-- The parts of a result that carries what is left of the input.
pub ok-eq {ℓ κ} :
    {E : Type 0} {A : Type ℓ} {B : Type κ} {a a' : A} {b b' : B}
    → ◌≡◌ {A = Outcome E (A × B)} (ok (a, b)) (ok (a', b'))
    → (a ≡ a') × (b ≡ b')
ok-eq h = (cc, cc)

pub ok-injective {ℓ} :
    {E : Type 0} {A : Type ℓ} {a a' : A} → ◌≡◌ {A = Outcome E A} (ok a) (ok a') → a ≡ a'
ok-injective h = cc
