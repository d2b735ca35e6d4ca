-- ===== src/Crypto/Merkle/Tree.antt =====
-- The levels of a merkle tree and what is digested in it (internal/crypto/merkle.go).
use fairchain.Base.{
  ℕ, zero, suc, ◌+◌, ◌-◌, ◌/◌, ◌%◌, ◌≡◌, ◌≢◌, inl, inr, refl, sym, ap, ◌∙◌, arith, true, false,
  List, [], ◌∷◌, ◌++◌, length, get_or, take, drop, take-append, drop-append, length-append, All,
  All-append, Bool-cases, ltb, ◌==◌, map,
}
use fairchain.Base.KeyMap.{member}
use fairchain.Types.Hash.{Hash, IsHash, zero_hash}
use fairchain.Crypto.Digest.{Sha256, double_sha256}
use fairchain.Crypto.Merkle.Defs.{even_out}

-- The two hashes of each pair, joined.
unfoldable pub pairs_of : List Hash → List (List ℕ)
pairs_of [] = []
pairs_of (a ∷ []) = []
pairs_of (a ∷ b ∷ level) = (a ++ b) ∷ pairs_of level

module _ (sha : Sha256) where
  -- The level above.
  abbrev pub above : List Hash → List Hash
  above level = map (double_sha256 sha) (pairs_of (even_out level))

  -- What is digested on the way from the hashes to their root: the joined pairs of every level.
  unfoldable pub tree_inputs : ℕ → List Hash → List (List ℕ)
  tree_inputs zero level = []
  tree_inputs (suc fuel) level = elim (ltb 1 (length level)) [
    | true ↦ pairs_of (even_out level) ++ tree_inputs fuel (above level)
    | false ↦ []
  ]

  -- An input of each, which differ and have the same digest.
  abbrev pub Collides : List (List ℕ) → List (List ℕ) → Type 0
  Collides ps qs =
      (a : List ℕ) × (b : List ℕ) × (member a ps ≡ true)
      × (member b qs ≡ true)
      × (a ≢ b)
      × (double_sha256 sha a ≡ double_sha256 sha b)

  -- A joined pair of the one tree and a joined pair of the other that differ and have the same
  -- digest. Nothing outside the two trees is a collision here.
  abbrev pub Collision : List Hash → List Hash → Type 0
  Collision xs ys = Collides (tree_inputs (length xs) xs) (tree_inputs (length ys) ys)

get_or-IsHash : (level : List Hash) (i : ℕ) → All IsHash level → IsHash (get_or level i zero_hash)
get_or-IsHash [] i h = (refl, omega arith)
get_or-IsHash (a ∷ level) zero h = h.0
get_or-IsHash (a ∷ level) (suc i) h = get_or-IsHash level i h.1

pub even_out-IsHash : (level : List Hash) → All IsHash level → All IsHash (even_out level)
unfolding even_out
even_out-IsHash level h = elim (Bool-cases (length level % 2 == 0)) [
  | inl even ↦ rw even h
  | inr odd ↦ rw odd (All-append IsHash level _ h (get_or-IsHash level (length level - 1) h, tt))
]

pub length-even_out :
    (level : List Hash) → length (even_out level) ≡ length level + length level % 2
unfolding even_out
length-even_out level = elim (Bool-cases (length level % 2 == 0)) [
  | inl even ↦ rw even (ground arith)
  | inr odd ↦
      rw odd
        (ground (arith, length-append {0} level (get_or level (length level - 1) zero_hash ∷ [])))
]

pub even_out-injective :
    (xs ys : List Hash) → length xs ≡ length ys → even_out xs ≡ even_out ys → xs ≡ ys
unfolding even_out
even_out-injective xs ys same h = elim (Bool-cases (length ys % 2 == 0)) [
  | inl even ↦ rw (same, even) at h
  | inr odd ↦
      let h' = ap (take (length ys)) (rw (same, odd) at h) in
      sym (take-append (length ys) xs _ same) ∙ (h' ∙ take-append (length ys) ys _ refl)
]

pub length-pairs_of : (level : List Hash) → length (pairs_of level) ≡ length level / 2
unfolding pairs_of
length-pairs_of [] = omega arith
length-pairs_of (a ∷ []) = omega arith
length-pairs_of (a ∷ b ∷ level) = omega (arith, length-pairs_of level)

-- Joined hashes come apart in one way only.
pub pairs_of-injective :
    (xs ys : List Hash)
    → length xs ≡ length ys
    → length ys % 2 ≡ 0
    → All IsHash xs
    → All IsHash ys
    → pairs_of xs ≡ pairs_of ys
    → xs ≡ ys
unfolding pairs_of
pairs_of-injective [] [] size even hx hy h = refl
pairs_of-injective [] (c ∷ ys) size even hx hy h = absurd (omega arith)
pairs_of-injective (a ∷ xs) [] size even hx hy h = absurd (omega arith)
pairs_of-injective (a ∷ []) (c ∷ ys) size even hx hy h = absurd (omega arith)
pairs_of-injective (a ∷ b ∷ xs) (c ∷ []) size even hx hy h = absurd (omega arith)
pairs_of-injective (a ∷ b ∷ xs) (c ∷ d ∷ ys) size even hx hy h =
    let e : a ++ b ≡ c ++ d = cc h in
    let rest : pairs_of xs ≡ pairs_of ys = cc h in
    let same : length a ≡ length c = omega (arith, hx.0.0, hy.0.0) in
    let ac : a ≡ c =
      sym (take-append (length c) a b same)
      ∙ (ap (take (length c)) e ∙ take-append (length c) c d refl) in
    let bd : b ≡ d =
      sym (drop-append (length c) a b same)
      ∙ (ap (drop (length c)) e ∙ drop-append (length c) c d refl) in
    cc (ac, bd, pairs_of-injective xs ys (omega arith) (omega arith) hx.1.1 hy.1.1 rest)
