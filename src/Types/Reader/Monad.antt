-- ===== src/Types/Reader/Monad.antt =====
-- Readers, their chains, and `io.ReadFull`, as the `Deserialize` methods use it.
use fairchain.Base.{
  ℕ, zero, suc, Bool, List, [], ◌∷◌, length, take, drop, ltb, if◌then◌else◌, Outcome, ok, err,
  panic,
}

pub data ReadError : Type 0 where
  short_read noncanonical : ReadError
  too_many_inputs too_many_outputs script_too_long too_many_txs : ReadError

abbrev pub Reader {ℓ} : Type ℓ → Type ℓ
Reader A = List ℕ → Outcome ReadError (A × List ℕ)

infixl 5 ◌>>=◌ ◌>>◌
abbrev pub ◌>>=◌ {ℓ κ} : {A : Type ℓ} {B : Type κ} → Reader A → (A → Reader B) → Reader B
◌>>=◌ m f bs = elim (m bs) [ ok (a, rest) ↦ f a rest | err e ↦ err e | panic ↦ panic ]

abbrev pub ◌>>◌ {ℓ} : {B : Type ℓ} → Reader (Unit {0}) → Reader B → Reader B
m >> k = m >>= λ _. k

abbrev pub pure {ℓ} : {A : Type ℓ} → A → Reader A
pure a bs = ok (a, bs)

abbrev pub reject_if : Bool → ReadError → Reader (Unit {0})
reject_if b e bs = if b then err e else ok (tt, bs)

-- `io.ReadFull(r, buf)` with `len(buf) == n`.
unfoldable pub read_full : ℕ → Reader (List ℕ)
read_full n bs = if ltb (length bs) n then err short_read else ok (take n bs, drop n bs)

-- `for i := 0; i < n; i++ { xs[i].Deserialize(r) }`
module _ {ℓ} {A : Type ℓ} where
  unfoldable pub read_many : Reader A → ℕ → Reader (List A)
  read_many get zero = pure []
  read_many get (suc n) = get >>= λ a. read_many get n >>= λ as'. pure (a ∷ as')
