-- ===== src/Utxo/Connect/Sequential/Together.antt =====
-- The two ways of connecting a block, step by step.
use mathlib.Core.List.{append_assoc, append-nil}
use fairchain.Base.{
  ℕ, ◌+◌, ◌≡◌, sym, ◌∙◌, ◌⊎◌, inl, inr, Bool, true, false, List, [], ◌∷◌, ◌++◌, Option, none, some,
  Bool-cases, Option-cases, if◌then◌else◌, Outcome, ok, err, panic, ◌>>=◌, arith,
}
use fairchain.Base.Bytes.{bytes_eq_refl}
use fairchain.Base.KeyMap.{
  KeySet, lookup, insert, erase, contains, contains-insert, member, member-append, Distinct,
  member-Distinct_append,
}
use fairchain.Crypto.Digest.{Sha256, hash_transaction}
use fairchain.Types.Hash.{Hash}
use fairchain.Types.Transaction.{TxInput, TxOutput, Transaction, is_coinbase}
use fairchain.Utxo.Entry.{UtxoEntry, outpoint_key}
use fairchain.Utxo.Set.{UtxoSet, index_u32}
use fairchain.Utxo.Connect.Defs.{
  Pending, ConnectError, spend, create, input_key, find_entry, entry_of, connect_input,
  connect_inputs, connect_outputs, connect_tx, connect_txs, output_keys, created_keys,
  duplicate_input, already_spent, missing_utxo,
}
use fairchain.Utxo.Connect.Sequential.Meaning.{
  apply_input, apply_inputs, apply_outputs, apply_tx, apply_txs,
}
use fairchain.Utxo.Connect.Sequential.Step.{Mirrors, spend-Mirrors, create-Mirrors}

-- The two go on together: both fail, or both succeed and are related.
abbrev pub InStep : {A B : Type 0} → (A → B → Type 0) → Outcome ConnectError A → Option B → Type 0
InStep R (ok a) (some b) = R a b
InStep R (err e) none = Unit
InStep R _ _ = ⊥

module _ (s : UtxoSet) where
  input_step :
      (made : List (List ℕ)) (seen : KeySet) (p : Pending) (m : UtxoSet) (i : TxInput)
      → Mirrors s made p m
      → (contains (input_key i) seen ≡ true → contains (input_key i) p.spent_in_block ≡ true)
      → ((x : ConnectError) × (connect_input s seen p i ≡ err x) × (apply_input m i ≡ none))
        ⊎ ((e : UtxoEntry) × (connect_input s seen p i ≡ ok (spend p i e))
            × (apply_input m i ≡ some (erase (input_key i) m))
            × (contains (input_key i) p.spent_in_block ≡ false)
            × (find_entry s p (input_key i) ≡ some e))
  unfolding connect_input apply_input
  input_step made seen p m i mir seen_spent =
      let k : List ℕ = input_key i in
      elim (Bool-cases (contains k seen)) [
        | inl dup ↦ inl (duplicate_input, rw dup, rw ((mir k).gone (seen_spent dup), apply_input))
        | inr not_seen ↦ elim (Bool-cases (contains k p.spent_in_block)) [
          | inl spent ↦
              inl (already_spent, rw (not_seen, spent), rw ((mir k).gone spent, apply_input))
          | inr unspent ↦ elim (Option-cases (find_entry s p k)) [
            | inl missing ↦ inl (
              missing_utxo,
              rw (not_seen, unspent, missing),
              rw (sym ((mir k).present unspent) ∙ missing, apply_input),
            )
            | inr (e, found) ↦ inr (
              e,
              rw (not_seen, unspent, found),
              rw (sym ((mir k).present unspent) ∙ found, apply_input),
              unspent,
              found,
            )
          ]
        ]
      ]

  inputs_together :
      (made : List (List ℕ)) (seen : KeySet) (p : Pending) (m : UtxoSet) (is : List TxInput)
      → Mirrors s made p m
      → ((j : List ℕ) → contains j seen ≡ true → contains j p.spent_in_block ≡ true)
      → InStep (Mirrors s made) (connect_inputs s seen p is) (apply_inputs m is)
  unfolding connect_inputs apply_inputs
  inputs_together made seen p m [] mir seen_spent = mir
  inputs_together made seen p m (i ∷ is) mir seen_spent =
      let k : List ℕ = input_key i in
      elim (input_step made seen p m i mir (seen_spent k)) [
        | inl (x, failed, refused) ↦ rw (failed, refused, apply_inputs) tt
        | inr (e, went, taken, unspent, found) ↦
            rw (went, taken, apply_inputs)
              (inputs_together made (insert k tt seen) (spend p i e) (erase k m) is
                (spend-Mirrors s made p m i e mir unspent found)
                (λ j seen'. ground (
                  arith,
                  contains-insert k j tt seen,
                  contains-insert k j tt p.spent_in_block,
                  seen_spent j,
                )))
      ]

  -- No output that is still to be made stood in the set, and none is made twice.
  abbrev CanMake : List (List ℕ) → List (List ℕ) → Type 0
  CanMake made keys' =
      ((j : List ℕ) → member j keys' ≡ true → lookup j s ≡ none) × Distinct (made ++ keys')

  unspent_next :
      (made : List (List ℕ)) (p : Pending) (m : UtxoSet) (k : List ℕ) (rest : List (List ℕ))
      → Mirrors s made p m
      → CanMake made (k ∷ rest)
      → contains k p.spent_in_block ≡ false
  unspent_next made p m k rest mir (fresh, distinct) =
      elim (Bool-cases (contains k p.spent_in_block)) [
        | inl spent ↦ elim ((mir k).origin spent) [
          | inl stood ↦ absurd (stood (fresh k here))
          | inr again ↦ cc (again, member-Distinct_append made k rest distinct)
        ]
        | inr unspent ↦ unspent
      ]
    where
      here : member k (k ∷ rest) ≡ true
      here = unfold member in rw (bytes_eq_refl k)

  outputs_mirror :
      (tx_hash : Hash) (height : ℕ) (cb : Bool) (i : ℕ) (made : List (List ℕ)) (p : Pending)
      (m : UtxoSet) (os : List TxOutput) (rest : List (List ℕ))
      → Mirrors s made p m
      → CanMake made (output_keys tx_hash i os ++ rest)
      → Mirrors s
          (made ++ output_keys tx_hash i os)
          (connect_outputs tx_hash height cb i p os)
          (apply_outputs tx_hash height cb i m os)
  unfolding connect_outputs apply_outputs output_keys
  outputs_mirror tx_hash height cb i made p m [] rest mir can = rw (append-nil made) mir
  outputs_mirror tx_hash height cb i made p m (o ∷ os) rest mir can =
      let k = outpoint_key tx_hash (index_u32 i) in
      let e = entry_of height cb o in
      let later = output_keys tx_hash (i + 1) os in
      let unspent = unspent_next made p m k (later ++ rest) mir can in
      rw (← append_assoc made (k ∷ []) later) (
        outputs_mirror tx_hash height cb (i + 1) (made ++ (k ∷ [])) (create p k e) (insert k e m) os
          rest (create-Mirrors s made p m k e mir unspent)
          (CanMake-snoc made k (later ++ rest) can))
    where
      CanMake-snoc :
          (made : List (List ℕ)) (k : List ℕ) (rest : List (List ℕ))
          → CanMake made (k ∷ rest)
          → CanMake (made ++ (k ∷ [])) rest
      CanMake-snoc made k rest (fresh, distinct) =
          ((λ j h. fresh j (later_member j h)), rw (append_assoc made (k ∷ []) rest) distinct)
        where
          later_member : (j : List ℕ) → member j rest ≡ true → member j (k ∷ rest) ≡ true
          later_member j h = unfold member in ground arith

module _ (sha : Sha256) (s : UtxoSet) (height : ℕ) where
  abbrev tx_keys : Transaction → List (List ℕ)
  tx_keys tx = output_keys (hash_transaction sha tx) 0 tx.outputs

  spent_part :
      (coinbase : Bool) (made : List (List ℕ)) (p : Pending) (m : UtxoSet) (is : List TxInput)
      → Mirrors s made p m
      → InStep
          (Mirrors s made)
          (if coinbase then ok p else connect_inputs s [] p is)
          (if coinbase then some m else apply_inputs m is)
  spent_part true made p m is mir = mir
  spent_part false made p m is mir =
      inputs_together s made [] p m is mir (λ j h. absurd (none_seen j h))
    where
      none_seen : (j : List ℕ) → contains {V = Unit {0}} j [] ≡ true → ⊥
      none_seen j h = unfold contains lookup in cc

  made_part :
      (made : List (List ℕ)) (tx : Transaction) (rest : List (List ℕ))
      (o : Outcome ConnectError Pending) (a : Option UtxoSet)
      → CanMake s made (tx_keys tx ++ rest)
      → InStep (Mirrors s made) o a
      → InStep
          (Mirrors s (made ++ tx_keys tx))
          (o >>= λ p'.
            ok (connect_outputs (hash_transaction sha tx) height (is_coinbase tx) 0 p' tx.outputs))
          (elim a [
            | none ↦ none
            | some m' ↦
                some
                  (apply_outputs (hash_transaction sha tx) height (is_coinbase tx) 0 m' tx.outputs)
          ])
  made_part made tx rest (ok p) (some m) can mir =
      outputs_mirror s (hash_transaction sha tx) height (is_coinbase tx) 0 made p m tx.outputs rest
        mir can
  made_part made tx rest (err e) none can t = tt
  made_part made tx rest (ok p) none can t = absurd t
  made_part made tx rest (err e) (some m) can t = absurd t
  made_part made tx rest panic (some m) can t = absurd t
  made_part made tx rest panic none can t = absurd t

  tx_together :
      (made : List (List ℕ)) (p : Pending) (m : UtxoSet) (tx : Transaction) (rest : List (List ℕ))
      → Mirrors s made p m
      → CanMake s made (tx_keys tx ++ rest)
      → InStep
          (Mirrors s (made ++ tx_keys tx))
          (connect_tx sha s height p tx)
          (apply_tx sha height m tx)
  unfolding connect_tx apply_tx
  tx_together made p m tx rest mir can =
      made_part made tx rest _ _ can (spent_part (is_coinbase tx) made p m tx.inputs mir)

  CanMake-append :
      (made : List (List ℕ)) (tx : Transaction) (rest : List (List ℕ))
      → CanMake s made (tx_keys tx ++ rest)
      → CanMake s (made ++ tx_keys tx) rest
  CanMake-append made tx rest (fresh, distinct) = (
    (λ j h. fresh j (member-append j (tx_keys tx) rest ∙ ground arith)),
    rw (append_assoc made (tx_keys tx) rest) distinct,
  )

  -- The rest of the block, after the outcome of one transaction.
  rest_part :
      (made : List (List ℕ)) (txs : List Transaction) (o : Outcome ConnectError Pending)
      (a : Option UtxoSet)
      → ((p : Pending) (m : UtxoSet)
          → Mirrors s made p m
          → InStep
              (Mirrors s (made ++ created_keys sha txs))
              (connect_txs sha s height p txs)
              (apply_txs sha height m txs))
      → InStep (Mirrors s made) o a
      → InStep
          (Mirrors s (made ++ created_keys sha txs))
          (o >>= λ p'. connect_txs sha s height p' txs)
          (elim a [ none ↦ none | some m' ↦ apply_txs sha height m' txs ])
  rest_part made txs (ok p) (some m) go mir = go p m mir
  rest_part made txs (err e) none go t = tt
  rest_part made txs (ok p) none go t = absurd t
  rest_part made txs (err e) (some m) go t = absurd t
  rest_part made txs panic (some m) go t = absurd t
  rest_part made txs panic none go t = absurd t

  pub txs_together :
      (made : List (List ℕ)) (p : Pending) (m : UtxoSet) (txs : List Transaction)
      → Mirrors s made p m
      → CanMake s made (created_keys sha txs)
      → InStep
          (Mirrors s (made ++ created_keys sha txs))
          (connect_txs sha s height p txs)
          (apply_txs sha height m txs)
  unfolding connect_txs apply_txs created_keys
  txs_together made p m [] mir can = rw (append-nil made) mir
  txs_together made p m (tx ∷ txs) mir can =
      rw (← append_assoc made (tx_keys tx) (created_keys sha txs)) (
        rest_part (made ++ tx_keys tx) txs _ _
          (λ p' m' mir'.
            txs_together (made ++ tx_keys tx) p' m' txs mir'
              (CanMake-append made tx (created_keys sha txs) can))
          (tx_together made p m tx (created_keys sha txs) mir can))
