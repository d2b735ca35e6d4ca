-- ===== src/Types/Reader/Laws.antt =====
-- A codec: what an encoder writes is read back, and what is read was so written.
use fairchain.Base.{
  ℕ, ◌+◌, ◌≡◌, refl, List, ◌++◌, length, All, ltb, Bool, true, false, ok, err, panic, Outcome,
  arith, inl, inr, Bool-cases, le→ltb, length-append, take-append, drop-append, length-take_le,
  All-split, take-append-drop,
}
use mathlib.Core.Path.{subst}
use fairchain.Base.Bytes.{IsByte}
use fairchain.Types.Reader.Monad.{Reader, ◌>>=◌, read_full, reject_if, ReadError}

module _ {A : Type 0} (put : A → List ℕ) (get : Reader A) (Valid : A → Type 0) where
  -- Both directions; the second says that an accepted input has one spelling only.
  pub record IsCodec : Type 0 where
    pub reads : (a : A) (rest : List ℕ) → Valid a → get (put a ++ rest) ≡ ok (a, rest)
    pub canonical :
        (bs : List ℕ) (a : A) (rest : List ℕ)
        → All IsByte bs
        → get bs ≡ ok (a, rest)
        → Valid a × (bs ≡ put a ++ rest) × All IsByte rest

pub >>=-reads {ℓ κ} :
    {A : Type ℓ} {B : Type κ} (m : Reader A) (f : A → Reader B) (bs : List ℕ) {b : B}
    {rest : List ℕ}
    → (m >>= f) bs ≡ ok (b, rest)
    → (a : A) × (mid : List ℕ) × (m bs ≡ ok (a, mid)) × (f a mid ≡ ok (b, rest))
>>=-reads {A} {B} m f bs {b} {rest} h = go (m bs) refl h
  where
    go :
        (o : Outcome _ (A × List ℕ))
        → m bs ≡ o
        → elim o [ ok (a, mid) ↦ f a mid | err e ↦ err e | panic ↦ panic ] ≡ ok (b, rest)
        → (a : A) × (mid : List ℕ) × (m bs ≡ ok (a, mid)) × (f a mid ≡ ok (b, rest))
    go (ok (a, mid)) e k = (a, mid, e, k)
    go (err x) e k = cc
    go panic e k = cc

-- `read_full` takes the bytes in front.
pub read_full-append :
    (n : ℕ) (front rest : List ℕ)
    → length front ≡ n
    → read_full n (front ++ rest) ≡ ok (front, rest)
unfolding read_full
read_full-append n front rest h = rw (
  length-append front rest,
  h,
  le→ltb (n + length rest) n (omega arith),
  take-append n front rest h,
  drop-append n front rest h,
)

pub read_full-reads :
    (n : ℕ) (bs front rest : List ℕ)
    → read_full n bs ≡ ok (front, rest)
    → (length front ≡ n) × (bs ≡ front ++ rest)
unfolding read_full
read_full-reads n bs front rest h = elim (Bool-cases (ltb (length bs) n)) [
  | inl short ↦ cc (rw short at h)
  | inr enough ↦ ground (arith, length-take_le n bs, take-append-drop n bs)
]

pub read_full-All :
    (n : ℕ) (bs front rest : List ℕ)
    → read_full n bs ≡ ok (front, rest)
    → All IsByte bs
    → All IsByte front × All IsByte rest
read_full-All n bs front rest h v =
    All-split IsByte front rest (subst (All IsByte) (read_full-reads n bs front rest h).1 v)

-- A step whose outcome is known.
pub >>=-ok {ℓ κ} :
    {A : Type ℓ} {B : Type κ} (m : Reader A) (f : A → Reader B) {bs mid : List ℕ} {a : A}
    → m bs ≡ ok (a, mid)
    → (m >>= f) bs ≡ f a mid
>>=-ok m f e = rw (e, ◌>>=◌)

pub >>=-err {ℓ κ} :
    {A : Type ℓ} {B : Type κ} (m : Reader A) (f : A → Reader B) {bs : List ℕ} {x : ReadError}
    → m bs ≡ err x
    → (m >>= f) bs ≡ err x
>>=-err m f e = rw (e, ◌>>=◌)

pub reject_if-reads {ℓ} :
    {B : Type ℓ} (b : Bool) (e : ReadError) (f : Unit {0} → Reader B) (bs : List ℕ) {r : B × List ℕ}
    → (reject_if b e >>= f) bs ≡ ok r
    → (b ≡ false) × (f tt bs ≡ ok r)
reject_if-reads true e f bs h = cc
reject_if-reads false e f bs h = (refl, h)

pub reject_if-ok {ℓ} :
    {B : Type ℓ} (b : Bool) (e : ReadError) (f : Unit {0} → Reader B) (bs : List ℕ)
    → b ≡ false
    → (reject_if b e >>= f) bs ≡ f tt bs
reject_if-ok b e f bs h = rw h
