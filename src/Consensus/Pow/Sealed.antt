-- ===== src/Consensus/Pow/Sealed.antt =====
-- What sealing a header (internal/consensus/pow/engine.go) comes to.
use fairchain.Base.{
  ℕ, zero, suc, ◌+◌, ◌-◌, ◌%◌, ◌^◌, ◌<◌, ◌≡◌, refl, arith, true, Option, ◌==◌, ok, >>=-eq-ok,
  ok-injective, inl, inr, Bool-cases,
}
use fairchain.Base.Bytes.{bytes_eq, bytes_eq_iff}
use fairchain.Types.Hash.{Hash, less_or_equal}
use fairchain.Types.Block.{BlockHeader}
use fairchain.Crypto.Digest.{Sha256, hash_block_header}
use fairchain.Crypto.Target.{compact_to_hash, validate_proof_of_work}
use fairchain.Params.{ChainParams}
use fairchain.Consensus.Pow.Defs.{
  calc_next_bits, set_bits, next_nonce, prepare_header, validate_header, seal_header,
}

module _ (sha : Sha256) where
  -- Only the nonce changes, and a header that counts as sealed meets the target.
  seal_header-keeps :
      (left : ℕ) (header : BlockHeader) (target : Hash) {sealed : BlockHeader}
      → seal_header sha left header target ≡ (sealed, true)
      → (sealed.prev_block ≡ header.prev_block)
        × (sealed.bits ≡ header.bits)
        × (less_or_equal (hash_block_header sha sealed) target ≡ true)
  unfolding seal_header
  seal_header-keeps zero header target h = cc h
  seal_header-keeps (suc left) header target {sealed} h =
      elim (Bool-cases (less_or_equal (hash_block_header sha header) target)) [
        | inl met ↦
            let e : header ≡ sealed = cc (rw (met, seal_header) at h) in rw (← e) (refl, refl, met)
        | inr missed ↦ elim (Bool-cases ((next_nonce header).nonce == 0)) [
          | inl wrapped ↦ absurd (cc (rw (missed, wrapped, seal_header) at h))
          | inr more ↦
              seal_header-keeps left (next_nonce header) target
                (rw (missed, more, seal_header) at h)
        ]
      ]

  -- A header on top of a parent of height below 2^32 - 1 that is prepared by the engine and then
  -- sealed within any number of attempts, against the target of its bits, passes the engine's own
  -- check of headers at the next height.
  pub validate_header-seal_header :
      (header parent : BlockHeader) (parent_height left : ℕ) (get_ancestor : ℕ → Option BlockHeader)
      (p : ChainParams) {prepared sealed : BlockHeader}
      → parent_height + 1 < 2 ^ 32
      → header.prev_block ≡ hash_block_header sha parent
      → prepare_header header parent parent_height get_ancestor p ≡ ok prepared
      → seal_header sha left prepared (compact_to_hash prepared.bits) ≡ (sealed, true)
      → validate_header sha sealed parent (parent_height + 1) get_ancestor p ≡ ok tt
  unfolding prepare_header validate_header validate_proof_of_work
  validate_header-seal_header header parent parent_height left get_ancestor p {prepared} {sealed}
        low on_top made done =
      let (bits, expected, e) =
        >>=-eq-ok (calc_next_bits parent parent_height get_ancestor p) _ made in
      let made' : set_bits header bits ≡ prepared = ok-injective e in
      let (same_prev, same_bits, met) =
        seal_header-keeps left prepared (compact_to_hash prepared.bits) done in
      let height : (parent_height + 1 + (2 ^ 32 - 1)) % 2 ^ 32 ≡ parent_height = omega arith in
      let linked : bytes_eq sealed.prev_block (hash_block_header sha parent) ≡ true =
        (bytes_eq_iff sealed.prev_block (hash_block_header sha parent)).1
          (cc (same_prev, made', on_top)) in
      let right : sealed.bits ≡ bits = cc (same_bits, made') in
      let agreed : (sealed.bits == bits) ≡ true = ground arith in
      let enough : less_or_equal (hash_block_header sha sealed) (compact_to_hash sealed.bits)
          ≡ true =
        cc (same_bits, met) in
      rw (linked, height, expected, agreed, enough) refl
