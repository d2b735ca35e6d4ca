-- ===== src/Base/KeyMap.antt =====
-- A Go map as an association list, keyed by any type with a Boolean equality.
use Prim.Native.Nat.{ℕ}
use mathlib.Core.Path.{◌≡◌, refl}
use mathlib.Core.Bool.{Bool, true, false, ◌||◌}
use mathlib.Core.Option.{Option, none, some}
use mathlib.Core.List.{List, [], ◌∷◌, ◌++◌, map}
use native.Mathlib.Omega.{arith}
use fairchain.Base.Tests.{if◌then◌else◌}
use fairchain.Base.Bytes.{bytes_eq, bytes_eq_iff}

abbrev pub KeyMap {ℓ} : Type ℓ → Type ℓ
KeyMap V = List (List ℕ × V)

module _ {ℓ} {V : Type ℓ} where
  -- `m[want]`, where the first pair of a key counts
  unfoldable pub lookup : List ℕ → KeyMap V → Option V
  lookup want [] = none
  lookup want (pair ∷ rest) = if bytes_eq pair.0 want then some pair.1 else lookup want rest

  -- `m[key] = new`
  unfoldable pub insert : List ℕ → V → KeyMap V → KeyMap V
  insert key new [] = (key, new) ∷ []
  insert key new (pair ∷ rest) =
      if bytes_eq pair.0 key then (key, new) ∷ rest else pair ∷ insert key new rest

  -- `delete(m, key)`: every pair of the key, so that no hypothesis on the list is needed.
  unfoldable pub erase : List ℕ → KeyMap V → KeyMap V
  erase key [] = []
  erase key (pair ∷ rest) =
      let kept = erase key rest in if bytes_eq pair.0 key then kept else pair ∷ kept

  -- `_, ok := m[key]`
  unfoldable pub contains : List ℕ → KeyMap V → Bool
  contains key m = elim (lookup key m) [ none ↦ false | some _ ↦ true ]

  pub lookup-insert :
      (key want : List ℕ) (new : V) (m : KeyMap V)
      → lookup want (insert key new m) ≡ (if bytes_eq key want then some new else lookup want m)
  unfolding insert lookup
  lookup-insert key want new [] = refl
  lookup-insert key want new (pair ∷ rest) = ground (
    arith,
    lookup-insert key want new rest,
    bytes_eq_iff pair.0 want,
    bytes_eq_iff pair.0 key,
    bytes_eq_iff key want,
  )

  pub lookup-erase :
      (key want : List ℕ) (m : KeyMap V)
      → lookup want (erase key m) ≡ (if bytes_eq key want then none else lookup want m)
  unfolding erase lookup
  lookup-erase key want [] = ground arith
  lookup-erase key want (pair ∷ rest) = ground (
    arith,
    lookup-erase key want rest,
    bytes_eq_iff pair.0 want,
    bytes_eq_iff pair.0 key,
    bytes_eq_iff key want,
  )

-- `map[K]struct{}`
abbrev pub KeySet : Type 0
KeySet = KeyMap (Unit {0})

unfoldable pub member : List ℕ → List (List ℕ) → Bool
member j [] = false
member j (k ∷ ks) = bytes_eq k j || member j ks

pub member-append :
    (j : List ℕ) (xs ys : List (List ℕ)) → member j (xs ++ ys) ≡ (member j xs || member j ys)
unfolding member
member-append j [] ys = refl
member-append j (x ∷ xs) ys = ground (arith, member-append j xs ys)

module _ {ℓ} {V : Type ℓ} where
  abbrev pub keys : KeyMap V → List (List ℕ)
  keys = map (λ p. p.0)

module _ {ℓ} {V : Type ℓ} where
  pub contains-insert :
      (k j : List ℕ) (v : V) (m : KeyMap V)
      → contains j (insert k v m) ≡ (bytes_eq k j || contains j m)
  unfolding contains
  contains-insert k j v m = ground (arith, lookup-insert k j v m)

-- No key stands in the list twice.
abbrev pub Distinct : List (List ℕ) → Type 0
Distinct [] = Unit
Distinct (k ∷ ks) = (member k ks ≡ false) × Distinct ks

pub member-Distinct_append :
    (xs : List (List ℕ)) (k : List ℕ) (ys : List (List ℕ))
    → Distinct (xs ++ (k ∷ ys))
    → member k xs ≡ false
unfolding member
member-Distinct_append [] k ys h = refl
member-Distinct_append (x ∷ xs) k ys (notin, h) = ground (
  arith,
  member-Distinct_append xs k ys h,
  member-append x xs (k ∷ ys),
  bytes_eq_iff x k,
  bytes_eq_iff k x,
)
