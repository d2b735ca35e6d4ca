-- ===== src/Types/Hash/Defs.antt =====
-- The type `Hash` and its comparisons (internal/types/hash.go).
use fairchain.Base.{
  ℕ, zero, suc, ◌≡◌, Bool, true, false, ◌||◌, List, length, All, replicate, get_or, ltb,
  if◌then◌else◌,
}
use fairchain.Base.Bytes.{IsByte, bytes_eq}

abbrev pub hash_size : ℕ
hash_size = 32

abbrev pub Hash : Type 0
Hash = List ℕ

-- Go's `[32]byte` holds exactly this.
abbrev pub IsHash : Hash → Type 0
IsHash h = (length h ≡ hash_size) × All IsByte h

abbrev pub zero_hash : Hash
zero_hash = replicate hash_size 0

unfoldable pub is_zero : Hash → Bool
is_zero h = bytes_eq h zero_hash

-- `n` is `i + 1`: the bytes from `i` down to 0 are still to be compared.
unfoldable pub less_from : ℕ → Hash → Hash → Bool
less_from zero h other = false
less_from (suc i) h other =
    let rest = less_from i h other in
    if ltb (get_or h i 0) (get_or other i 0)
    then true
    else if ltb (get_or other i 0) (get_or h i 0)
    then false
    else rest

unfoldable pub less : Hash → Hash → Bool
unfolding less_from
less h other = less_from hash_size h other

unfoldable pub less_or_equal : Hash → Hash → Bool
less_or_equal h other = bytes_eq h other || less h other
