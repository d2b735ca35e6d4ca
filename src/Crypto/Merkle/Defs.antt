-- ===== src/Crypto/Merkle/Defs.antt =====
-- `MerkleRoot` and `ComputeMerkleRoot` (internal/crypto/merkle.go).
use fairchain.Base.{
  ℕ, zero, suc, ◌-◌, ◌%◌, true, false, not, List, [], ◌∷◌, ◌++◌, map, Option, none, some, length,
  get_or, ltb, ◌==◌, if◌then◌else◌,
}
use fairchain.Types.Hash.{Hash, zero_hash}
use fairchain.Types.Transaction.{Transaction}
use fairchain.Crypto.Digest.{Sha256, double_sha256, hash_transaction}

-- A level of odd length repeats its last hash.
unfoldable pub even_out : List Hash → List Hash
even_out level =
    if not (length level % 2 == 0)
    then level ++ (get_or level (length level - 1) zero_hash ∷ [])
    else level

module _ (sha : Sha256) where
  unfoldable pub combine : Hash → Hash → Hash
  combine left right = double_sha256 sha (left ++ right)

  -- `none` is an index out of range: `level[i+1]` on a level of odd length.
  unfoldable pub pair_up : List Hash → Option (List Hash)
  pair_up [] = some []
  pair_up (left ∷ []) = none
  pair_up (left ∷ right ∷ level) = elim (pair_up level) [
    | some next ↦ some (combine left right ∷ next)
    | none ↦ none
  ]

  -- `none` is an index out of range, or the end of the fuel, which is the number of hashes.
  unfoldable pub merkle_loop : ℕ → List Hash → Option Hash
  merkle_loop zero level = none
  merkle_loop (suc fuel) level = elim (ltb 1 (length level)) [
    | true ↦ elim (pair_up (even_out level)) [ some next ↦ merkle_loop fuel next | none ↦ none ]
    | false ↦ some (get_or level 0 zero_hash)
  ]

  unfoldable pub merkle_root : List Hash → Option Hash
  merkle_root hashes =
      if length hashes == 0 then some zero_hash else merkle_loop (length hashes) hashes

  unfoldable pub compute_merkle_root : List Transaction → Option Hash
  compute_merkle_root txs =
      if length txs == 0 then some zero_hash else merkle_root (map (hash_transaction sha) txs)
