-- ===== src/Mempool/Steps.antt =====
-- The states that the operations of internal/mempool/mempool.go reach.
use fairchain.Base.{
  Outcome, [], ◌∷◌, zero, suc, ◌⊎◌, inl, inr, ap, drop, err, panic, ok-injective, ℕ, ◌%◌, ◌^◌, ◌≡◌,
  refl, Bool, true, false, ◌&&◌, List, Option, none, some, length, ltb, leb, ◌==◌, ok,
  fail_if-eq-ok, >>=-eq-ok, ok-eq,
}
use fairchain.Types.Varint.{varint_size, read_varint_from_bytes}
use fairchain.Types.Transaction.{deserialize, Transaction, is_coinbase}
use fairchain.Mempool.Defs.{
  MempoolError, or_stop, admitted, load_loop, load_from_bytes, TxEntry, Mempool, lone_coinbase,
  no_inputs, no_outputs, already_there, full, conflicting, fee_too_low, input_keys, conflicts,
  wrap_tx_error, entry_for, add_tx, remove_tx, remove_txs, new_mempool, set_tip_height,
  lowest_entry, evict_lowest_fee_rate,
}
use fairchain.Base.KeyMap.{lookup, contains, member}
use fairchain.Types.Hash.{Hash}
use fairchain.Crypto.Digest.{Sha256, hash_transaction}
use fairchain.Crypto.Keys.{Ripemd160}
use fairchain.Script.Machine.{Curve}
use fairchain.Params.{ChainParams}
use fairchain.Utxo.Set.{UtxoSet}
use fairchain.Consensus.Inputs.{validate_single_transaction}
use fairchain.Mempool.Consistency.{
  IsConsistent, store-IsConsistent, remove_tx-IsConsistent, remove_txs-IsConsistent,
  IsConsistent-same,
}

missing_entry :
    (o : Option TxEntry) → elim o as (λ _. Bool) [ none ↦ false | some _ ↦ true ] ≡ false → o ≡ none
missing_entry none h = refl
missing_entry (some e) h = cc h

or_stop-cases {ℓ} :
    {E : Type 0} {A : Type ℓ} (o : Outcome E A) (stop : Mempool × ℕ)
    (after : A → Outcome MempoolError (Mempool × ℕ)) {r : Mempool × ℕ}
    → or_stop o stop after ≡ ok r
    → (stop ≡ r) ⊎ ((a : A) × (after a ≡ ok r))
or_stop-cases panic stop after h = cc h
or_stop-cases (err why) stop after h = inl (ok-injective h)
or_stop-cases (ok a) stop after h = inr (a, h)

module _ (sha : Sha256) (ripemd : Ripemd160) {Signature PubKey : Type 0}
    (curve : Curve Signature PubKey) where
  -- The calls that change the pool.
  pub data Step : Mempool → Mempool → Type 0 where
    added :
        {m m' : Mempool} {hash : Hash} (tx : Transaction)
        → add_tx sha ripemd curve m tx ≡ ok (m', hash)
        → Step m m'
    removed : {m m' : Mempool} (hashes : List Hash) → m' ≡ remove_txs m hashes → Step m m'
    evicted : {m m' : Mempool} → m' ≡ (evict_lowest_fee_rate m).0 → Step m m'
    restored :
        {m m' : Mempool} {count : ℕ} (bytes : List ℕ)
        → load_from_bytes sha ripemd curve m bytes ≡ ok (m', count)
        → Step m m'
    tip_set : {m m' : Mempool} (height : ℕ) → m' ≡ set_tip_height m height → Step m m'
    -- The chain connects and disconnects blocks on the set that the pool shares with it.
    set_changed : {m m' : Mempool} (s : UtxoSet) → m' ≡ record m { utxo_set = s } → Step m m'

  pub data Reachable (p : ChainParams) (s : UtxoSet) : Mempool → Type 0 where
    start : {m : Mempool} → m ≡ new_mempool p s → Reachable p s m
    next : {m m' : Mempool} → Reachable p s m → Step m m' → Reachable p s m'

  pub add_tx-IsConsistent :
      (m : Mempool) (tx : Transaction) {m' : Mempool} {hash : Hash}
      → IsConsistent m
      → add_tx sha ripemd curve m tx ≡ ok (m', hash)
      → IsConsistent m'
  unfolding add_tx contains
  add_tx-IsConsistent m tx v h =
      let this = hash_transaction sha tx in
      let (_, h1) = fail_if-eq-ok (is_coinbase tx) lone_coinbase _ h in
      let (_, h2) = fail_if-eq-ok (length tx.inputs == 0) no_inputs _ h1 in
      let (_, h3) = fail_if-eq-ok (length tx.outputs == 0) no_outputs _ h2 in
      let (new, h4) = fail_if-eq-ok (contains this m.txs) already_there _ h3 in
      let (_, h5) =
        fail_if-eq-ok (leb m.params.max_mempool_size (length m.txs % 2 ^ 32)) full _ h4 in
      let (free, h6) =
        fail_if-eq-ok (conflicts (input_keys tx.inputs) m.spent_outpoints) conflicting _ h5 in
      let (fee, _, h7) =
        >>=-eq-ok
          (wrap_tx_error
            (validate_single_transaction sha ripemd curve tx m.utxo_set m.tip_height m.params))
          _ h6 in
      let (_, h8) =
        fail_if-eq-ok (ltb 0 m.params.min_relay_tx_fee && ltb fee m.params.min_relay_tx_fee)
          fee_too_low _ h7 in
      let (e, _) = ok-eq h8 in
      rw (← e) (
        store-IsConsistent m (entry_for tx this fee) v (missing_entry (lookup this m.txs) new) free)

  admitted-IsConsistent :
      (m : Mempool) (loaded : ℕ) (tx : Transaction) (state : Mempool × ℕ)
      → IsConsistent m
      → admitted m loaded (add_tx sha ripemd curve m tx) ≡ ok state
      → IsConsistent state.0
  admitted-IsConsistent m loaded tx state v h = go (add_tx sha ripemd curve m tx) refl h
    where
      go :
          (o : Outcome MempoolError (Mempool × Hash))
          → add_tx sha ripemd curve m tx ≡ o
          → admitted m loaded o ≡ ok state
          → IsConsistent state.0
      go panic e h = cc h
      go (err why) e h =
          let e' : m ≡ state.0 = ap (λ (s : Mempool × ℕ). s.0) (ok-injective h) in rw (← e') v
      go (ok (m', hash)) e h =
          let e' : m' ≡ state.0 = ap (λ (s : Mempool × ℕ). s.0) (ok-injective h) in
          rw (← e') (add_tx-IsConsistent m tx v e)

  evict-IsConsistent : (m : Mempool) → IsConsistent m → IsConsistent (evict_lowest_fee_rate m).0
  unfolding evict_lowest_fee_rate
  evict-IsConsistent m v = go (lowest_entry m.txs none)
    where
      go :
          (o : Option TxEntry)
          → IsConsistent
              (elim o as (λ _. Mempool × Bool) [
                | none ↦ (m, false)
                | some l ↦ (remove_tx m l.hash, true)
              ]).0
      go none = v
      go (some l) = remove_tx-IsConsistent m l.hash v

  load_loop-IsConsistent :
      (left : ℕ) (bytes : List ℕ) (m : Mempool) (loaded : ℕ) {m' : Mempool} {count : ℕ}
      → IsConsistent m
      → load_loop sha ripemd curve left bytes m loaded ≡ ok (m', count)
      → IsConsistent m'
  unfolding load_loop
  load_loop-IsConsistent zero bytes m loaded v h = let (e, _) = ok-eq h in rw (← e) v
  load_loop-IsConsistent (suc left) [] m loaded v h = let (e, _) = ok-eq h in rw (← e) v
  load_loop-IsConsistent (suc left) (b ∷ bytes) m loaded v h =
      elim (or_stop-cases (deserialize (b ∷ bytes)) (m, loaded) _ h) [
        | inl stopped ↦ let e = ap (λ (s : Mempool × ℕ). s.0) stopped in rw (← e) v
        | inr (read, h1) ↦
            let (state, e1, h2) =
              >>=-eq-ok (admitted m loaded (add_tx sha ripemd curve m read.0)) _ h1 in
            load_loop-IsConsistent left read.1 state.0 state.1
              (admitted-IsConsistent m loaded read.0 state v e1) h2
      ]

  load_from_bytes-IsConsistent :
      (m : Mempool) (bytes : List ℕ) {m' : Mempool} {count : ℕ}
      → IsConsistent m
      → load_from_bytes sha ripemd curve m bytes ≡ ok (m', count)
      → IsConsistent m'
  unfolding load_from_bytes
  load_from_bytes-IsConsistent m [] v h = let (e, _) = ok-eq h in rw (← e) v
  load_from_bytes-IsConsistent m (b ∷ bytes) v h =
      elim (or_stop-cases (read_varint_from_bytes (b ∷ bytes)) (m, 0) _ h) [
        | inl stopped ↦ let e = ap (λ (s : Mempool × ℕ). s.0) stopped in rw (← e) v
        | inr (count, h1) ↦
            load_loop-IsConsistent count (drop (varint_size count) (b ∷ bytes)) m 0 v h1
      ]

  Step-IsConsistent : {m m' : Mempool} → Step m m' → IsConsistent m → IsConsistent m'
  Step-IsConsistent {m} (added tx h) v = add_tx-IsConsistent m tx v h
  Step-IsConsistent {m} (removed hashes e) v = rw e (remove_txs-IsConsistent m hashes v)
  Step-IsConsistent {m} (evicted e) v = rw e (evict-IsConsistent m v)
  Step-IsConsistent {m} (restored bytes e) v = load_from_bytes-IsConsistent m bytes v e
  Step-IsConsistent {m} (tip_set height e) v =
      rw e (record { claimed = v.claimed; backed = v.backed })
  Step-IsConsistent {m} (set_changed s e) v =
      rw e (record { claimed = v.claimed; backed = v.backed })

  -- In every pool that calls of AddTx, RemoveTxs, EvictLowestFeeRate, LoadFromBytes and
  -- SetTipHeight make of a new
  -- one, in any order and with any changes of the shared set between them, the table of spent outpoints holds exactly the outpoints of the pool's
  -- transactions, each with the transaction that spends it.
  pub Reachable-IsConsistent :
      (p : ChainParams) (s : UtxoSet) {m : Mempool} → Reachable p s m → IsConsistent m
  unfolding lookup
  Reachable-IsConsistent p s (start e) =
      rw e
        (record { claimed = λ h e k found mine. cc found; backed = λ k h found. absurd (cc found) })
  Reachable-IsConsistent p s (next r step) = Step-IsConsistent step (Reachable-IsConsistent p s r)

  -- No two transactions of a pool that is reached spend the same outpoint: entries under hashes
  -- `h` and `k` that both spend `key` stand under one hash.
  pub Reachable-no_double_spend :
      (p : ChainParams) (s : UtxoSet) {m : Mempool} (h k : Hash) (a b : TxEntry) (key : List ℕ)
      → Reachable p s m
      → lookup h m.txs ≡ some a
      → lookup k m.txs ≡ some b
      → member key (input_keys a.tx.inputs) ≡ true
      → member key (input_keys b.tx.inputs) ≡ true
      → h ≡ k
  Reachable-no_double_spend p s {m} h k a b key r there other in_a in_b =
      IsConsistent-same m h k a b key (Reachable-IsConsistent p s r) there other in_a in_b
