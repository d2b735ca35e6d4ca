-- ===== src/Script/Ends.antt =====
-- The rounds of the script engine that need no digest (internal/script/script.go): what each leaves.
use fairchain.Base.{
  ℕ, zero, suc, ◌+◌, ◌*◌, ◌≤◌, ◌<◌, ◌≡◌, ◌≢◌, refl, arith, Bool, false, List, [], ◌∷◌, length, take,
  drop, get_or, le→ltb, ◌==◌, All, length-drop_le, ltb, Outcome, ok, err, panic, ◌>>=◌, inl, inr,
  Bool-cases,
}
use fairchain.Base.Bytes.{bytes_eq}
use fairchain.Script.Machine.{
  ScriptError, out_of_fuel, Stack, Round, byte_at, cut, push_bytes, push_data1, push_data2, truth,
  op_dup_round, op_equal_round, op_equal_verify_round, max_stack_size, max_stack_elem_size,
}

abbrev pub IsSmall : List ℕ → Type 0
IsSmall element = length element ≤ max_stack_elem_size

-- What a stack keeps to between rounds.
abbrev pub IsBounded : Stack → Type 0
IsBounded stack = (length stack ≤ max_stack_size) × All IsSmall stack

-- A result that is no panic and not the end of the fuel, and that satisfies `P` where it is a value.
abbrev pub Ends {ℓ} : {A : Type ℓ} → (A → Type 0) → Outcome ScriptError A → Type 0
Ends P (ok a) = P a
Ends P (err e) = e ≢ out_of_fuel
Ends P panic = ⊥

pub Ends-bind {ℓ κ} :
    {A : Type ℓ} {B : Type κ} (P : A → Type 0) (Q : B → Type 0) (m : Outcome ScriptError A)
    (f : A → Outcome ScriptError B)
    → Ends P m
    → ((a : A) → P a → Ends Q (f a))
    → Ends Q (m >>= f)
Ends-bind P Q (ok a) f h next = next a h
Ends-bind P Q (err e) f h next = h
Ends-bind P Q panic f h next = h

pub Ends-bind_cong {ℓ κ} :
    {A : Type ℓ} {B : Type κ} (P : A → Type 0) (m : Outcome ScriptError A)
    (f g : A → Outcome ScriptError B)
    → Ends P m
    → ((a : A) → P a → f a ≡ g a)
    → (m >>= f) ≡ (m >>= g)
Ends-bind_cong P (ok a) f g h same = same a h
Ends-bind_cong P (err e) f g h same = refl
Ends-bind_cong P panic f g h same = refl

pub byte_at-get_or : (bs : List ℕ) (i : ℕ) → i < length bs → byte_at bs i ≡ ok (get_or bs i 0)
unfolding byte_at
byte_at-get_or [] i h = absurd (omega arith)
byte_at-get_or (b ∷ bs) zero h = refl
byte_at-get_or (b ∷ bs) (suc i) h = byte_at-get_or bs i (omega arith)

pub cut-take : (n : ℕ) (bs : List ℕ) → n ≤ length bs → cut n bs ≡ ok (take n bs, drop n bs)
unfolding cut
cut-take n bs h = rw (le→ltb (length bs) n h) refl

-- A round reads forward, and only a round that ends by `continue` escapes the test of the size.
abbrev pub Fair : List ℕ → Stack → Round → Type 0
Fair rest stack r =
    (length r.rest ≤ length rest)
    × All IsSmall r.stack
    × (r.sized ≡ false → length r.stack ≤ length stack)

length-take_le' : (n : ℕ) (bs : List ℕ) → length (take n bs) ≤ n
length-take_le' zero bs = omega arith
length-take_le' (suc n) [] = omega arith
length-take_le' (suc n) (b ∷ bs) = omega (arith, length-take_le' n bs)

pub push_bytes-Ends :
    (n : ℕ) (rest : List ℕ) (stack : Stack)
    → All IsSmall stack
    → Ends (Fair rest stack) (push_bytes n rest stack)
unfolding push_bytes
push_bytes-Ends n rest stack small = elim (Bool-cases (ltb (length rest) n)) [
  | inl short ↦ rw short (λ e. cc e)
  | inr enough ↦ elim (Bool-cases (ltb max_stack_elem_size n)) [
    | inl long ↦ rw (enough, long) (λ e. cc e)
    | inr fits ↦
        rw (enough, fits, cut-take n rest (ground arith))
          (
            omega (arith, length-drop_le n rest),
            (ground (arith, length-take_le' n rest), small),
            λ e. cc e,
          )
  ]
]

-- A round that read more bytes is fair all the more.
Fair-longer :
    (b : ℕ) (rest : List ℕ) (stack : Stack) (m : Outcome ScriptError Round)
    → Ends (Fair rest stack) m
    → Ends (Fair (b ∷ rest) stack) m
Fair-longer b rest stack (ok r) (short, small, sized) = (omega arith, small, sized)
Fair-longer b rest stack (err e) h = h
Fair-longer b rest stack panic h = h

pub push_data1-Ends :
    (rest : List ℕ) (stack : Stack)
    → All IsSmall stack
    → Ends (Fair rest stack) (push_data1 rest stack)
unfolding push_data1 byte_at
push_data1-Ends [] stack small = λ e. cc e
push_data1-Ends (n ∷ rest) stack small =
    let there : (length (n ∷ rest) == 0) ≡ false = ground arith in
    rw there
      (Fair-longer n rest stack (push_bytes n rest stack) (push_bytes-Ends n rest stack small))

pub push_data2-Ends :
    (rest : List ℕ) (stack : Stack)
    → All IsSmall stack
    → Ends (Fair rest stack) (push_data2 rest stack)
unfolding push_data2 byte_at
push_data2-Ends [] stack small = λ e. cc e
push_data2-Ends (low ∷ []) stack small = λ e. cc e
push_data2-Ends (low ∷ high ∷ rest) stack small =
    let n = low + high * 256 in
    let there : ltb (length (low ∷ (high ∷ rest))) 2 ≡ false = ground arith in
    rw there (
      Fair-longer low (high ∷ rest) stack (push_bytes n rest stack) (
        Fair-longer high rest stack (push_bytes n rest stack) (push_bytes-Ends n rest stack small)))

pub truth-IsSmall : (b : Bool) → IsSmall (truth b)
truth-IsSmall b = ground arith

pub op_dup-Ends :
    (rest : List ℕ) (stack : Stack)
    → All IsSmall stack
    → Ends (Fair rest stack) (op_dup_round rest stack)
unfolding op_dup_round
op_dup-Ends rest [] small = λ e. cc e
op_dup-Ends rest (top ∷ stack) small = (omega arith, (small.0, small), λ e. cc e)

pub op_equal-Ends :
    (rest : List ℕ) (stack : Stack)
    → All IsSmall stack
    → Ends (Fair rest stack) (op_equal_round rest stack)
unfolding op_equal_round
op_equal-Ends rest [] small = λ e. cc e
op_equal-Ends rest (b ∷ []) small = λ e. cc e
op_equal-Ends rest (b ∷ a ∷ stack) small =
    (omega arith, (truth-IsSmall (bytes_eq a b), small.1.1), λ e. cc e)

pub op_equal_verify-Ends :
    (rest : List ℕ) (stack : Stack)
    → All IsSmall stack
    → Ends (Fair rest stack) (op_equal_verify_round rest stack)
unfolding op_equal_verify_round
op_equal_verify-Ends rest [] small = λ e. cc e
op_equal_verify-Ends rest (b ∷ []) small = λ e. cc e
op_equal_verify-Ends rest (b ∷ a ∷ stack) small = elim (Bool-cases (bytes_eq a b)) [
  | inl same ↦ rw same (omega arith, small.1.1, λ e. cc e)
  | inr other ↦ rw other (λ e. cc e)
]
