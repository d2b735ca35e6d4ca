-- ===== src/Consensus/Structure/Accepted.antt =====
-- What a block has that `ValidateBlockStructure` (internal/consensus/validation.go) accepts.
use fairchain.Base.{
  ℕ, suc, ◌%◌, ◌^◌, ◌≡◌, ◌⊎◌, refl, sym, ◌∙◌, arith, true, false, not, List, [], ◌∷◌, map, Option,
  none, some, length, All, ltb, ◌==◌, if◌then◌else◌, ok, fail_if-eq-ok, >>=-eq-ok, ap,
}
use fairchain.Base.Bytes.{bytes_eq_iff, bytes_eq_refl}
use fairchain.Base.KeyMap.{KeySet, insert, contains, contains-insert, member, Distinct}
use fairchain.Types.Hash.{Hash, IsHash}
use fairchain.Types.Transaction.{Transaction, is_coinbase}
use fairchain.Types.Block.{Block, BlockHeader}
use fairchain.Crypto.Digest.{Sha256, hash_transaction, hash_transaction-IsHash}
use fairchain.Crypto.Merkle.{compute_merkle_root, merkle_root}
use fairchain.Crypto.Merkle.Binding.{merkle_root-binding}
use fairchain.Crypto.Merkle.Tree.{Collision}
use fairchain.Params.{ChainParams}
use fairchain.Consensus.Structure.Defs.{
  first_not_coinbase, unexpected_coinbase, too_many_transactions, duplicate_tx_id, merkle_mismatch,
  check_height, check_no_coinbase, check_tx_ids, differs, check_transactions,
  validate_block_structure,
}

check_no_coinbase-eq-ok :
    (txs : List Transaction)
    → check_no_coinbase txs ≡ ok tt
    → All (λ (tx : Transaction). is_coinbase tx ≡ false) txs
unfolding check_no_coinbase
check_no_coinbase-eq-ok [] h = tt
check_no_coinbase-eq-ok (tx ∷ txs) h =
    let (plain, rest) = fail_if-eq-ok (is_coinbase tx) unexpected_coinbase _ h in
    (plain, check_no_coinbase-eq-ok txs rest)

differs-eq-false : (o : Option Hash) (root : Hash) → differs o root ≡ false → o ≡ some root
differs-eq-false none root h = cc h
differs-eq-false (some merkle) root h = ap some ((bytes_eq_iff merkle root).0 (ground arith))

module _ (sha : Sha256) where
  abbrev pub tx_ids : List Transaction → List Hash
  tx_ids = map (hash_transaction sha)

  check_tx_ids-fresh :
      (seen : KeySet) (txs : List Transaction) (id : Hash)
      → check_tx_ids sha seen txs ≡ ok tt
      → contains id seen ≡ true
      → member id (tx_ids txs) ≡ false
  unfolding check_tx_ids member
  check_tx_ids-fresh seen [] id h known = refl
  check_tx_ids-fresh seen (tx ∷ txs) id h known =
      let this = hash_transaction sha tx in
      let (new, rest) = fail_if-eq-ok (contains this seen) duplicate_tx_id _ h in
      let later =
        check_tx_ids-fresh (insert this tt seen) txs id rest
          (ground (arith, contains-insert this id tt seen)) in
      ground (arith, later, bytes_eq_iff this id)

  check_tx_ids-Distinct :
      (seen : KeySet) (txs : List Transaction)
      → check_tx_ids sha seen txs ≡ ok tt
      → Distinct (tx_ids txs)
  unfolding check_tx_ids
  check_tx_ids-Distinct seen [] h = tt
  check_tx_ids-Distinct seen (tx ∷ txs) h =
      let this = hash_transaction sha tx in
      let (new, rest) = fail_if-eq-ok (contains this seen) duplicate_tx_id _ h in
      (
        check_tx_ids-fresh (insert this tt seen) txs this rest
            (ground (arith, contains-insert this this tt seen, bytes_eq_refl this)),
        check_tx_ids-Distinct (insert this tt seen) txs rest,
      )

  compute_merkle_root-tx_ids :
      (first : Transaction) (txs : List Transaction)
      → compute_merkle_root sha (first ∷ txs) ≡ merkle_root sha (tx_ids (first ∷ txs))
  unfolding compute_merkle_root
  compute_merkle_root-tx_ids first txs =
      let some_tx : (length (first ∷ txs) == 0) ≡ false = ground arith in rw some_tx refl

  tx_ids-IsHash : (txs : List Transaction) → All IsHash (tx_ids txs)
  tx_ids-IsHash [] = tt
  tx_ids-IsHash (tx ∷ txs) = (hash_transaction-IsHash sha tx, tx_ids-IsHash txs)

  length-tx_ids : (txs : List Transaction) → length (tx_ids txs) ≡ length txs
  length-tx_ids [] = refl
  length-tx_ids (tx ∷ txs) = ap suc (length-tx_ids txs)

  -- What the checks of the transactions leave.
  pub record Sound (header : BlockHeader) (p : ChainParams) (first : Transaction)
      (txs : List Transaction) : Type 0 where
    pub coinbase : is_coinbase first ≡ true
    pub plain : All (λ (tx : Transaction). is_coinbase tx ≡ false) txs
    pub distinct : Distinct (tx_ids (first ∷ txs))
    pub rooted : merkle_root sha (tx_ids (first ∷ txs)) ≡ some header.merkle_root

  pub check_transactions-Sound :
      (header : BlockHeader) (height : ℕ) (p : ChainParams) (first : Transaction)
      (txs : List Transaction)
      → check_transactions sha header height p first txs ≡ ok tt
      → Sound header p first txs
  unfolding check_transactions
  check_transactions-Sound header height p first txs h =
      let (is_first, h1) = fail_if-eq-ok (not (is_coinbase first)) first_not_coinbase _ h in
      let (_, _, h2) =
        >>=-eq-ok (if ltb 0 height then check_height height first.inputs else ok tt) _ h1 in
      let (_, others, h3) = >>=-eq-ok (check_no_coinbase txs) _ h2 in
      let (_, h4) =
        fail_if-eq-ok (ltb p.max_block_tx_count (length (first ∷ txs) % 2 ^ 32))
          too_many_transactions _ h3 in
      let (_, ids, h5) = >>=-eq-ok (check_tx_ids sha [] (first ∷ txs)) _ h4 in
      let (root, _) =
        fail_if-eq-ok (differs (compute_merkle_root sha (first ∷ txs)) header.merkle_root)
          merkle_mismatch _ h5 in
      record {
        coinbase = ground arith;
        plain = check_no_coinbase-eq-ok txs others;
        distinct = check_tx_ids-Distinct [] (first ∷ txs) ids;
        rooted =
            sym (compute_merkle_root-tx_ids first txs) ∙ differs-eq-false _ header.merkle_root root;
      }

  -- Two blocks that the structural check accepts, with the same number of transactions and the same
  -- merkle root in the header, hold transactions with the same identifiers in the same order, or a
  -- joined pair in the merkle tree of the one's identifiers and a joined pair in the tree of the
  -- other's differ and have the same double digest. In each block no identifier stands twice.
  pub validate_block_structure-binding :
      (a b : Block) (height : ℕ) (p : ChainParams)
      → length a.transactions ≡ length b.transactions
      → a.header.merkle_root ≡ b.header.merkle_root
      → validate_block_structure sha a height p ≡ ok tt
      → validate_block_structure sha b height p ≡ ok tt
      → ((tx_ids a.transactions ≡ tx_ids b.transactions)
          ⊎ Collision sha (tx_ids a.transactions) (tx_ids b.transactions))
        × Distinct (tx_ids a.transactions)
        × Distinct (tx_ids b.transactions)
  unfolding validate_block_structure
  validate_block_structure-binding a b height p size root ha hb =
      go a.header a.transactions b.header b.transactions size root ha hb
    where
      go :
          (ha : BlockHeader) (xs : List Transaction) (hb : BlockHeader) (ys : List Transaction)
          → length xs ≡ length ys
          → ha.merkle_root ≡ hb.merkle_root
          → validate_block_structure sha (record { header = ha; transactions = xs }) height p
            ≡ ok tt
          → validate_block_structure sha (record { header = hb; transactions = ys }) height p
            ≡ ok tt
          → ((tx_ids xs ≡ tx_ids ys) ⊎ Collision sha (tx_ids xs) (tx_ids ys))
            × Distinct (tx_ids xs)
            × Distinct (tx_ids ys)
      go ha [] hb ys size root a b = absurd (cc a)
      go ha (x ∷ xs) hb [] size root a b = absurd (cc b)
      go ha (x ∷ xs) hb (y ∷ ys) size root a b =
          let sa = check_transactions-Sound ha height p x xs a in
          let sb = check_transactions-Sound hb height p y ys b in
          (
            merkle_root-binding sha (tx_ids (x ∷ xs)) (tx_ids (y ∷ ys))
                (length-tx_ids (x ∷ xs) ∙ (size ∙ sym (length-tx_ids (y ∷ ys))))
                (tx_ids-IsHash (x ∷ xs)) (tx_ids-IsHash (y ∷ ys))
                (sa.rooted ∙ (ap some root ∙ sym sb.rooted)),
            sa.distinct,
            sb.distinct,
          )
