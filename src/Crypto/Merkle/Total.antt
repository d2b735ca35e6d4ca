-- ===== src/Crypto/Merkle/Total.antt =====
-- The loop of `MerkleRoot` ends, and what it makes of a repeated last hash
-- (internal/crypto/merkle.go).
use fairchain.Base.{
  ℕ, zero, suc, ◌+◌, ◌-◌, ◌%◌, ◌≤◌, ◌<◌, ◌≡◌, refl, sym, ap, ◌∙◌, arith, true, false, List, [], ◌∷◌,
  ◌++◌, length, get_or, length-append, inl, inr, Bool-cases, ltb, ◌==◌, map,
}
use fairchain.Types.Hash.{Hash, zero_hash}
use fairchain.Crypto.Digest.{Sha256, double_sha256}
use fairchain.Crypto.Merkle.Defs.{even_out, merkle_loop, merkle_root}
use fairchain.Crypto.Merkle.Binding.{length-above, merkle_loop_many, merkle_loop_one, rooted}
use fairchain.Crypto.Merkle.Tree.{above, pairs_of, length-even_out}

module _ (sha : Sha256) where
  -- More fuel changes nothing.
  merkle_loop-fuel :
      (fuel more : ℕ) (level : List Hash)
      → 1 ≤ length level
      → length level ≤ fuel
      → length level ≤ more
      → merkle_loop sha fuel level ≡ merkle_loop sha more level
  merkle_loop-fuel zero more level some_hash h k = absurd (omega arith)
  merkle_loop-fuel (suc fuel) zero level some_hash h k = absurd (omega arith)
  merkle_loop-fuel (suc fuel) (suc more) level some_hash h k =
      elim (Bool-cases (ltb 1 (length level))) [
        | inr one ↦ merkle_loop_one sha fuel level one ∙ sym (merkle_loop_one sha more level one)
        | inl many ↦
            let l1 = length-even_out level in
            let l2 = length-above sha level in
            let two : 1 < length level = ground arith in
            merkle_loop_many sha fuel level many
            ∙ (merkle_loop-fuel fuel more (above sha level) (omega arith) (omega arith)
                  (omega arith)
                ∙ sym (merkle_loop_many sha more level many))
      ]

  repeated : List Hash → List Hash
  repeated hashes = hashes ++ (get_or hashes (length hashes - 1) zero_hash ∷ [])

  length-repeated : (hashes : List Hash) → length (repeated hashes) ≡ length hashes + 1
  unfolding repeated
  length-repeated hashes =
      omega (arith, length-append {0} hashes (get_or hashes (length hashes - 1) zero_hash ∷ []))

  -- Both lists are the same once their length is even.
  even_out-repeated :
      (hashes : List Hash) → length hashes % 2 ≡ 1 → even_out (repeated hashes) ≡ even_out hashes
  unfolding even_out repeated
  even_out-repeated hashes odd =
      let l = length-repeated hashes in
      let not_even : (length hashes % 2 == 0) ≡ false = ground arith in
      let now_even : (length (hashes ++ (get_or hashes (length hashes - 1) zero_hash ∷ [])) % 2
            == 0)
          ≡ true =
        ground arith in
      rw (not_even, now_even) refl

  -- Where the number of hashes is odd and more than one, the list with its last hash once more has
  -- the same root, so a comparison of roots alone does not tell the two lists apart.
  pub merkle_root-repeats_last :
      (hashes : List Hash)
      → length hashes % 2 ≡ 1
      → 1 < length hashes
      → merkle_root sha (hashes ++ (get_or hashes (length hashes - 1) zero_hash ∷ []))
        ≡ merkle_root sha hashes
  unfolding repeated
  merkle_root-repeats_last [] odd many = absurd (omega arith)
  merkle_root-repeats_last (a ∷ level) odd many =
      let hashes = a ∷ level in
      let tail = level ++ (get_or hashes (length hashes - 1) zero_hash ∷ []) in
      let more = a ∷ tail in
      let l : length more ≡ length hashes + 1 = length-repeated hashes in
      let le = length-even_out hashes in
      let lp = length-above sha hashes in
      let ready : ltb 1 (length hashes) ≡ true = ground arith in
      let ready' : ltb 1 (length more) ≡ true = ground arith in
      rooted sha a tail
      ∙ (merkle_loop_many sha (length tail) more ready'
          ∙ (ap
                (λ (e : List Hash).
                  merkle_loop sha (length tail) (map (double_sha256 sha) (pairs_of e)))
                (even_out-repeated hashes odd)
              ∙ (merkle_loop-fuel (length tail) (length level) (above sha hashes) (omega arith)
                    (omega arith) (omega arith)
                  ∙ (sym (merkle_loop_many sha (length level) hashes ready)
                      ∙ sym (rooted sha a level)))))
