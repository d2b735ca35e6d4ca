-- ===== src/Crypto/Merkle/Binding.antt =====
-- What the merkle root of internal/crypto/merkle.go says of the list of hashes.
use fairchain.Base.{
  ℕ, zero, suc, ◌/◌, ◌%◌, ◌≤◌, ◌<◌, ◌≡◌, ◌⊎◌, inl, inr, refl, sym, ap, ◌∙◌, arith, true, false,
  List, [], ◌∷◌, ◌++◌, some, length, get_or, All, Bool-cases, ltb, ◌==◌, some-eq, map,
}
use fairchain.Base.Bytes.{bytes_eq, bytes_eq_iff, bytes_eq_refl}
use fairchain.Base.KeyMap.{member, member-append}
use fairchain.Types.Hash.{Hash, IsHash, zero_hash}
use fairchain.Crypto.Digest.{Sha256, double_sha256, double_sha256-IsHash}
use fairchain.Crypto.Merkle.Defs.{even_out, combine, pair_up, merkle_loop, merkle_root}
use fairchain.Crypto.Merkle.Tree.{
  pairs_of, above, tree_inputs, Collides, Collision, even_out-IsHash, length-even_out,
  even_out-injective, length-pairs_of, pairs_of-injective,
}

module _ (sha : Sha256) where
  length-digests : (ps : List (List ℕ)) → length (map (double_sha256 sha) ps) ≡ length ps
  length-digests [] = refl
  length-digests (p ∷ ps) = ap suc (length-digests ps)

  pub length-above : (level : List Hash) → length (above sha level) ≡ length (even_out level) / 2
  length-above level = length-digests (pairs_of (even_out level)) ∙ length-pairs_of (even_out level)

  digests-IsHash : (ps : List (List ℕ)) → All IsHash (map (double_sha256 sha) ps)
  digests-IsHash [] = tt
  digests-IsHash (p ∷ ps) = (double_sha256-IsHash sha p, digests-IsHash ps)

  -- A level of even length is paired up without an index out of range.
  pair_up-pairs_of :
      (level : List Hash)
      → length level % 2 ≡ 0
      → pair_up sha level ≡ some (map (double_sha256 sha) (pairs_of level))
  unfolding pair_up combine pairs_of
  pair_up-pairs_of [] even = refl
  pair_up-pairs_of (a ∷ []) even = absurd (omega arith)
  pair_up-pairs_of (a ∷ b ∷ level) even = rw (pair_up-pairs_of level (omega arith)) refl

  pair_up-above : (level : List Hash) → pair_up sha (even_out level) ≡ some (above sha level)
  pair_up-above level = pair_up-pairs_of (even_out level) (omega (arith, length-even_out level))

  Collides-front :
      (ps ps' qs qs' : List (List ℕ)) → Collides sha ps qs → Collides sha (ps ++ ps') (qs ++ qs')
  Collides-front ps ps' qs qs' (a, b, in_ps, in_qs, differ, same) = (
    a,
    b,
    rw (member-append a ps ps', in_ps) refl,
    rw (member-append b qs qs', in_qs) refl,
    differ,
    same,
  )

  Collides-back :
      (ps ps' qs qs' : List (List ℕ)) → Collides sha ps' qs' → Collides sha (ps ++ ps') (qs ++ qs')
  Collides-back ps ps' qs qs' (a, b, in_ps, in_qs, differ, same) = (
    a,
    b,
    ground (arith, member-append a ps ps', in_ps),
    ground (arith, member-append b qs qs', in_qs),
    differ,
    same,
  )

  digests-injective :
      (ps qs : List (List ℕ))
      → length ps ≡ length qs
      → map (double_sha256 sha) ps ≡ map (double_sha256 sha) qs
      → (ps ≡ qs) ⊎ Collides sha ps qs
  unfolding member
  digests-injective [] [] size h = inl refl
  digests-injective [] (q ∷ qs) size h = absurd (omega arith)
  digests-injective (p ∷ ps) [] size h = absurd (omega arith)
  digests-injective (p ∷ ps) (q ∷ qs) size h = elim (Bool-cases (bytes_eq p q)) [
    | inr other ↦ inr (
      p,
      q,
      rw (bytes_eq_refl p) refl,
      rw (bytes_eq_refl q) refl,
      ground (arith, bytes_eq_iff p q),
      cc h,
    )
    | inl same ↦
        let e : p ≡ q = (bytes_eq_iff p q).0 same in
        elim (digests-injective ps qs (omega arith) (cc h)) [
          | inl rest ↦ inl (cc (e, rest))
          | inr found ↦ inr (Collides-back (p ∷ []) ps (q ∷ []) qs found)
        ]
  ]

  pub merkle_loop_many :
      (fuel : ℕ) (level : List Hash)
      → ltb 1 (length level) ≡ true
      → merkle_loop sha (suc fuel) level ≡ merkle_loop sha fuel (above sha level)
  unfolding merkle_loop
  merkle_loop_many fuel level many = rw (many, merkle_loop, pair_up-above level) refl

  pub merkle_loop_one :
      (fuel : ℕ) (level : List Hash)
      → ltb 1 (length level) ≡ false
      → merkle_loop sha (suc fuel) level ≡ some (get_or level 0 zero_hash)
  unfolding merkle_loop
  merkle_loop_one fuel level one = rw (one, merkle_loop) refl

  tree_inputs_many :
      (fuel : ℕ) (level : List Hash)
      → ltb 1 (length level) ≡ true
      → tree_inputs sha (suc fuel) level
        ≡ pairs_of (even_out level) ++ tree_inputs sha fuel (above sha level)
  unfolding tree_inputs
  tree_inputs_many fuel level many = rw (many, tree_inputs) refl

  -- Two levels of one length have equal levels above only where they are equal or two of their
  -- pairs collide.
  above-injective :
      (xs ys : List Hash)
      → length xs ≡ length ys
      → All IsHash xs
      → All IsHash ys
      → above sha xs ≡ above sha ys
      → (xs ≡ ys) ⊎ Collides sha (pairs_of (even_out xs)) (pairs_of (even_out ys))
  above-injective xs ys size hx hy h =
      let lx = length-even_out xs in
      let ly = length-even_out ys in
      let size' : length (even_out xs) ≡ length (even_out ys) = rw (lx, ly, size) refl in
      elim (digests-injective (pairs_of (even_out xs)) (pairs_of (even_out ys))
        (omega (arith, length-pairs_of (even_out xs), length-pairs_of (even_out ys))) h) [
          | inr found ↦ inr found
          | inl same ↦ inl (
              even_out-injective xs ys size (
                pairs_of-injective (even_out xs) (even_out ys) size' (omega arith)
                  (even_out-IsHash xs hx) (even_out-IsHash ys hy) same))
        ]

  merkle_loop-injective :
      (fuel : ℕ) (xs ys : List Hash)
      → length xs ≡ length ys
      → 1 ≤ length ys
      → length ys ≤ fuel
      → All IsHash xs
      → All IsHash ys
      → merkle_loop sha fuel xs ≡ merkle_loop sha fuel ys
      → (xs ≡ ys) ⊎ Collides sha (tree_inputs sha fuel xs) (tree_inputs sha fuel ys)
  merkle_loop-injective zero xs ys size some_hash enough hx hy h = absurd (omega arith)
  merkle_loop-injective (suc fuel) xs ys size some_hash enough hx hy h =
      elim (Bool-cases (ltb 1 (length ys))) [
        | inr one ↦ inl (
            single xs ys (omega (arith, size, ground_one ys one some_hash))
              (ground_one ys one some_hash)
              (some-eq
                (sym (merkle_loop_one fuel xs (rw size one)) ∙ (h ∙ merkle_loop_one fuel ys one))))
        | inl many ↦
            let lx = length-even_out xs in
            let ly = length-even_out ys in
            let lpx = length-above xs in
            let lpy = length-above ys in
            let more : 1 < length ys = ground arith in
            let many' : ltb 1 (length xs) ≡ true = rw size many in
            rw (tree_inputs_many fuel xs many', tree_inputs_many fuel ys many)
              (elim (merkle_loop-injective fuel (above sha xs) (above sha ys) (omega arith)
                (omega arith) (omega arith) (digests-IsHash (pairs_of (even_out xs)))
                (digests-IsHash (pairs_of (even_out ys)))
                (sym (merkle_loop_many fuel xs many') ∙ (h ∙ merkle_loop_many fuel ys many))) [
                  | inr found ↦
                      inr
                        (Collides-back (pairs_of (even_out xs)) _ (pairs_of (even_out ys)) _ found)
                  | inl level ↦ elim (above-injective xs ys size hx hy level) [
                    | inl same ↦ inl same
                    | inr found ↦
                        inr (
                          Collides-front (pairs_of (even_out xs)) _ (pairs_of (even_out ys)) _
                            found)
                  ]
                ])
      ]
    where
      ground_one : (ys : List Hash) → ltb 1 (length ys) ≡ false → 1 ≤ length ys → length ys ≡ 1
      ground_one ys one some_hash = ground arith

      single :
          (xs ys : List Hash)
          → length xs ≡ 1
          → length ys ≡ 1
          → get_or xs 0 zero_hash ≡ get_or ys 0 zero_hash
          → xs ≡ ys
      single (a ∷ []) (b ∷ []) hx hy h = cc h
      single [] ys hx hy h = absurd (omega arith)
      single (a ∷ a' ∷ xs) ys hx hy h = absurd (omega arith)
      single (a ∷ []) [] hx hy h = absurd (omega arith)
      single (a ∷ []) (b ∷ b' ∷ ys) hx hy h = absurd (omega arith)

  pub rooted :
      (a : Hash) (level : List Hash)
      → merkle_root sha (a ∷ level) ≡ merkle_loop sha (length (a ∷ level)) (a ∷ level)
  unfolding merkle_root
  rooted a level = let e : (length (a ∷ level) == 0) ≡ false = ground arith in rw e refl

  -- The root binds the hashes, their number known: of two lists of the same length with the same
  -- root, either the lists are equal, or a joined pair of hashes in the tree of the one and a joined
  -- pair in the tree of the other differ and have the same double digest.
  pub merkle_root-binding :
      (xs ys : List Hash)
      → length xs ≡ length ys
      → All IsHash xs
      → All IsHash ys
      → merkle_root sha xs ≡ merkle_root sha ys
      → (xs ≡ ys) ⊎ Collision sha xs ys
  unfolding merkle_root
  merkle_root-binding [] [] size hx hy h = inl refl
  merkle_root-binding [] (b ∷ ys) size hx hy h = absurd (omega arith)
  merkle_root-binding (a ∷ xs) [] size hx hy h = absurd (omega arith)
  merkle_root-binding (a ∷ xs) (b ∷ ys) size hx hy h = rw size (
      merkle_loop-injective (length (b ∷ ys)) (a ∷ xs) (b ∷ ys) size (omega arith) (omega arith) hx
        hy (rw size at (sym (rooted a xs) ∙ (h ∙ rooted b ys))))
