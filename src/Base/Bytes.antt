-- ===== src/Base/Bytes.antt =====
-- Byte slices: comparison, little-endian words, and the reads that the decoders make.
use Prim.Native.Nat.{ℕ, zero, suc, ◌+◌, ◌*◌, ◌/◌, ◌%◌, ◌^◌, ◌<◌}
use mathlib.Core.Path.{◌≡◌, refl, ap}
use mathlib.Core.Logic.{◌↔◌}
use mathlib.Core.Bool.{Bool, true, false, ◌&&◌}
use mathlib.Core.List.{List, [], ◌∷◌}
use native.Mathlib.Omega.{arith}
use fairchain.Base.Tests.{◌==◌, ltb, if◌then◌else◌}
use fairchain.Base.Lists.{length, All}

abbrev pub IsByte : ℕ → Type 0
IsByte b = b < 256

abbrev pub IsU32 : ℕ → Type 0
IsU32 n = n < 2 ^ 32

abbrev pub IsU64 : ℕ → Type 0
IsU64 n = n < 2 ^ 64

-- `a == b` on arrays of bytes.
unfoldable pub bytes_eq : List ℕ → List ℕ → Bool
bytes_eq [] [] = true
bytes_eq [] (b ∷ bs) = false
bytes_eq (a ∷ as') [] = false
bytes_eq (a ∷ as') (b ∷ bs) = a == b && bytes_eq as' bs

-- `bytes.Compare(a, b) < 0`: the first byte that differs decides.
unfoldable pub bytes_less : List ℕ → List ℕ → Bool
bytes_less [] [] = false
bytes_less [] (y ∷ ys) = true
bytes_less (x ∷ xs) [] = false
bytes_less (x ∷ xs) (y ∷ ys) =
    let rest = bytes_less xs ys in if ltb x y then true else if ltb y x then false else rest

pub bytes_eq_iff : (a b : List ℕ) → (bytes_eq a b ≡ true) ↔ (a ≡ b)
unfolding bytes_eq
bytes_eq_iff [] [] = ground arith
bytes_eq_iff [] (b ∷ bs) = ground arith
bytes_eq_iff (a ∷ as') [] = ground arith
bytes_eq_iff (a ∷ as') (b ∷ bs) = ground (arith, bytes_eq_iff as' bs)

pub bytes_eq_refl : (a : List ℕ) → bytes_eq a a ≡ true
bytes_eq_refl a = (bytes_eq_iff a a).1 refl

-- `binary.LittleEndian.PutUint`: the lowest `k` bytes of `n`, the lowest first.
unfoldable pub put_le : ℕ → ℕ → List ℕ
put_le zero n = []
put_le (suc k) n = (n % 256) ∷ put_le k (n / 256)

-- `binary.LittleEndian.Uint`
unfoldable pub le_value : List ℕ → ℕ
le_value [] = 0
le_value (b ∷ bs) = b + 256 * le_value bs

pub length-put_le : (k n : ℕ) → length (put_le k n) ≡ k
unfolding put_le
length-put_le zero n = refl
length-put_le (suc k) n = ap suc (length-put_le k (n / 256))

pub put_le-IsByte : (k n : ℕ) → All IsByte (put_le k n)
unfolding put_le
put_le-IsByte zero n = tt
put_le-IsByte (suc k) n = (omega arith, put_le-IsByte k (n / 256))

pub le_value-put_le : (k n : ℕ) → n < 256 ^ k → le_value (put_le k n) ≡ n
unfolding put_le le_value
le_value-put_le zero n h = omega arith
le_value-put_le (suc k) n h = omega (arith, le_value-put_le k (n / 256) (omega arith))

low_byte-lt : (k v b : ℕ) → v < 256 ^ k → b < 256 → b + 256 * v < 256 ^ suc k
low_byte-lt k v b h hb = omega arith

pub le_value-lt : (bs : List ℕ) → All IsByte bs → le_value bs < 256 ^ length bs
unfolding le_value
le_value-lt [] h = omega arith
le_value-lt (b ∷ bs) h = low_byte-lt (length bs) (le_value bs) b (le_value-lt bs h.1) h.0

pub put_le-le_value : (bs : List ℕ) → All IsByte bs → put_le (length bs) (le_value bs) ≡ bs
unfolding put_le le_value
put_le-le_value [] h = refl
put_le-le_value (b ∷ bs) h =
    let low : (b + 256 * le_value bs) % 256 ≡ b = omega arith in
    let high : (b + 256 * le_value bs) / 256 ≡ le_value bs = omega arith in
    rw (low, high, put_le-le_value bs h.1)
