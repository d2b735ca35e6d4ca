-- ===== src/Utxo/Connect/Tracks.antt =====
-- What a connected block leaves of the set: the outpoints that it touched, and those that it did not.
use mathlib.Core.Path.{subst}
use mathlib.Core.List.{append_assoc, append-nil, map-append, reverse-append}
use fairchain.Base.{
  ℕ, ◌+◌, ◌≡◌, refl, ap, sym, ◌∙◌, Bool, true, false, not, ◌||◌, List, [], ◌∷◌, ◌++◌, reverse, map,
  All, none, some, if◌then◌else◌, ok, >>=-eq-ok, fail_if-eq-ok, or_fail-eq-ok, or_fail,
  ok-injective, ok-eq, arith,
}
use fairchain.Base.Bytes.{bytes_eq_iff}
use fairchain.Base.KeyMap.{
  KeySet, lookup, insert, erase, lookup-insert, lookup-erase, member, member-append, keys, contains,
}
use fairchain.Crypto.Digest.{Sha256, hash_transaction}
use fairchain.Types.Hash.{Hash}
use fairchain.Types.Transaction.{TxInput, TxOutput, Transaction, is_coinbase}
use fairchain.Types.Block.{Block}
use fairchain.Utxo.Entry.{UtxoEntry, outpoint_key}
use fairchain.Utxo.Set.{UtxoSet, index_u32}
use fairchain.Utxo.Connect.Defs.{
  SpentOutput, BlockUndoData, Pending, nothing_pending, spend, create, connect_input,
  connect_inputs, connect_outputs, connect_tx, connect_txs, connect_block, remove_keys, add_unspent,
  output_keys, created_keys, restore, spent_key, entry_of, input_key, find_entry, duplicate_input,
  already_spent, missing_utxo,
}

pub lookup-remove_keys :
    (j : List ℕ) (ks : List (List ℕ)) (s : UtxoSet)
    → lookup j (remove_keys ks s) ≡ (if member j ks then none else lookup j s)
unfolding remove_keys member
lookup-remove_keys j [] s = refl
lookup-remove_keys j (k ∷ ks) s =
    ground (arith, lookup-remove_keys j ks (erase k s), lookup-erase k j s)

pub lookup-add_unspent_other :
    (j : List ℕ) (spent : KeySet) (adds : List (List ℕ × UtxoEntry)) (s : UtxoSet)
    → member j (keys adds) ≡ false
    → lookup j (add_unspent spent adds s) ≡ lookup j s
unfolding add_unspent member
lookup-add_unspent_other j spent [] s h = refl
lookup-add_unspent_other j spent ((k, e) ∷ r) s h = ground (
  arith,
  lookup-add_unspent_other j spent r (if not (contains k spent) then insert k e s else s),
  lookup-insert k j e s,
)

abbrev pub StoodIn : UtxoSet → SpentOutput → Type 0
StoodIn s so = lookup (spent_key so) s ≡ some so.entry

-- Restoring entries that stood in `orig` gives those back, and touches nothing else.
pub lookup-restore :
    (orig : UtxoSet) (j : List ℕ) (sos : List SpentOutput) (m : UtxoSet)
    → All (StoodIn orig) sos
    → lookup j (restore sos m)
      ≡ (if member j (map spent_key sos) then lookup j orig else lookup j m)
unfolding restore member
lookup-restore orig j [] m h = refl
lookup-restore orig j (so ∷ r) m h = ground (
  arith,
  lookup-restore orig j r (insert (spent_key so) so.entry m) h.1,
  lookup-insert (spent_key so) j so.entry m,
  bytes_eq_iff (spent_key so) j,
  h.0,
)

-- What the loops keep: a key is queued for removal for each output in the undo data, and an entry
-- for each output that was made so far.
abbrev Tracks : List (List ℕ) → Pending → Type 0
Tracks made p = (p.to_remove ≡ map spent_key p.spent_outputs) × (keys p.to_add ≡ made)

spend-Tracks :
    (made : List (List ℕ)) (p : Pending) (i : TxInput) (e : UtxoEntry)
    → Tracks made p
    → Tracks made (spend p i e)
spend-Tracks made p i e (r, a) =
    let so : SpentOutput = record { out_point = i.previous_out_point; entry = e } in
    (ap (λ t. t ++ (spent_key so ∷ [])) r ∙ sym (map-append spent_key p.spent_outputs (so ∷ [])), a)

-- What a successful step found and did.
pub connect_input-ok :
    (s : UtxoSet) (seen : KeySet) (p p' : Pending) (i : TxInput)
    → connect_input s seen p i ≡ ok p'
    → (e : UtxoEntry) × (contains (input_key i) seen ≡ false)
      × (contains (input_key i) p.spent_in_block ≡ false)
      × (find_entry s p (input_key i) ≡ some e)
      × (spend p i e ≡ p')
unfolding connect_input
connect_input-ok s seen p p' i h =
    let (a, h1) = fail_if-eq-ok (contains (input_key i) seen) duplicate_input _ h in
    let (b, h2) = fail_if-eq-ok (contains (input_key i) p.spent_in_block) already_spent _ h1 in
    let (e, c, h3) = >>=-eq-ok (or_fail (find_entry s p (input_key i)) missing_utxo) _ h2 in
    (e, a, b, or_fail-eq-ok (find_entry s p (input_key i)) missing_utxo c, ok-injective h3)

connect_input-Tracks :
    (made : List (List ℕ)) (s : UtxoSet) (seen : KeySet) (p p' : Pending) (i : TxInput)
    → Tracks made p
    → connect_input s seen p i ≡ ok p'
    → Tracks made p'
connect_input-Tracks made s seen p p' i t h =
    let (e, _, _, _, spent) = connect_input-ok s seen p p' i h in
    subst (Tracks made) spent (spend-Tracks made p i e t)

connect_inputs-Tracks :
    (made : List (List ℕ)) (s : UtxoSet) (seen : KeySet) (p p' : Pending) (is : List TxInput)
    → Tracks made p
    → connect_inputs s seen p is ≡ ok p'
    → Tracks made p'
unfolding connect_inputs
connect_inputs-Tracks made s seen p p' [] t h = subst (Tracks made) (ok-injective h) t
connect_inputs-Tracks made s seen p p' (i ∷ is) t h =
    let (mid, e, k) = >>=-eq-ok (connect_input s seen p i) _ h in
    connect_inputs-Tracks made s (insert (input_key i) tt seen) mid p' is
      (connect_input-Tracks made s seen p mid i t e) k

connect_outputs-Tracks :
    (made : List (List ℕ)) (tx_hash : Hash) (height : ℕ) (cb : Bool) (i : ℕ) (p : Pending)
    (os : List TxOutput)
    → Tracks made p
    → Tracks (made ++ output_keys tx_hash i os) (connect_outputs tx_hash height cb i p os)
unfolding connect_outputs output_keys
connect_outputs-Tracks made tx_hash height cb i p [] t = rw (append-nil made) t
connect_outputs-Tracks made tx_hash height cb i p (o ∷ os) (r, a) =
    let key = outpoint_key tx_hash (index_u32 i) in
    let entry = entry_of height cb o in
    subst (λ m. Tracks m (connect_outputs tx_hash height cb (i + 1) (create p key entry) os))
      (append_assoc made (key ∷ []) (output_keys tx_hash (i + 1) os))
      (connect_outputs-Tracks (made ++ (key ∷ [])) tx_hash height cb (i + 1) (create p key entry) os
        (r, map-append (λ q. q.0) p.to_add ((key, entry) ∷ []) ∙ ap (λ t. t ++ (key ∷ [])) a))

module _ (sha : Sha256) (s : UtxoSet) (height : ℕ) where
  inputs_part :
      (made : List (List ℕ)) (p p' : Pending) (tx : Transaction) (coinbase : Bool)
      → Tracks made p
      → (if coinbase then ok p else connect_inputs s [] p tx.inputs) ≡ ok p'
      → Tracks made p'
  inputs_part made p p' tx true t h = subst (Tracks made) (ok-injective h) t
  inputs_part made p p' tx false t h = connect_inputs-Tracks made s [] p p' tx.inputs t h

  connect_tx-Tracks :
      (made : List (List ℕ)) (p p' : Pending) (tx : Transaction)
      → Tracks made p
      → connect_tx sha s height p tx ≡ ok p'
      → Tracks (made ++ output_keys (hash_transaction sha tx) 0 tx.outputs) p'
  unfolding connect_tx
  connect_tx-Tracks made p p' tx t h =
      let (mid, e, k) =
        >>=-eq-ok (if is_coinbase tx then ok p else connect_inputs s [] p tx.inputs) _ h in
      subst (Tracks (made ++ output_keys (hash_transaction sha tx) 0 tx.outputs)) (ok-injective k) (
        connect_outputs-Tracks made (hash_transaction sha tx) height (is_coinbase tx) 0 mid
          tx.outputs (inputs_part made p mid tx (is_coinbase tx) t e))

  connect_txs-Tracks :
      (made : List (List ℕ)) (p p' : Pending) (txs : List Transaction)
      → Tracks made p
      → connect_txs sha s height p txs ≡ ok p'
      → Tracks (made ++ created_keys sha txs) p'
  unfolding connect_txs created_keys
  connect_txs-Tracks made p p' [] t h =
      rw (append-nil made) (subst (Tracks made) (ok-injective h) t)
  connect_txs-Tracks made p p' (tx ∷ txs) t h =
      let (mid, e, k) = >>=-eq-ok (connect_tx sha s height p tx) _ h in
      rw
        (← append_assoc made (output_keys (hash_transaction sha tx) 0 tx.outputs)
          (created_keys sha txs))
        (connect_txs-Tracks (made ++ output_keys (hash_transaction sha tx) 0 tx.outputs) mid p' txs
          (connect_tx-Tracks made p mid tx t e) k)

created_keys-append :
    (sha : Sha256) (xs ys : List Transaction)
    → created_keys sha (xs ++ ys) ≡ created_keys sha xs ++ created_keys sha ys
unfolding created_keys
created_keys-append sha [] ys = refl
created_keys-append sha (tx ∷ xs) ys = rw (created_keys-append sha xs ys) (
    sym (
      append_assoc (output_keys (hash_transaction sha tx) 0 tx.outputs) (created_keys sha xs)
        (created_keys sha ys)))

-- The order of the transactions does not matter to what is removed.
pub member-created_reverse :
    (sha : Sha256) (j : List ℕ) (txs : List Transaction)
    → member j (created_keys sha (reverse txs)) ≡ member j (created_keys sha txs)
unfolding created_keys
member-created_reverse sha j [] = refl
member-created_reverse sha j (tx ∷ txs) =
    let mine = output_keys (hash_transaction sha tx) 0 tx.outputs in
    ap (λ l. member j (created_keys sha l)) (reverse-append (tx ∷ []) txs)
    ∙ ap (member j) (created_keys-append sha (reverse txs) (tx ∷ []))
    ∙ member-append j (created_keys sha (reverse txs)) (created_keys sha (tx ∷ []))
    ∙ rw
        (
          append-nil mine,
          member-created_reverse sha j txs,
          member-append j mine (created_keys sha txs),
        )
        (or_comm (member j (created_keys sha txs)) (member j mine))
  where
    or_comm : (a b : Bool) → (a || b) ≡ (b || a)
    or_comm a b = ground arith

-- What a connected block has done to the set, as far as its keys go.
pub connect_block-Tracks :
    (sha : Sha256) (s : UtxoSet) (block : Block) (height : ℕ) (s' : UtxoSet) (undo : BlockUndoData)
    → connect_block sha s block height ≡ ok (s', undo)
    → (p : Pending) × Tracks (created_keys sha block.transactions) p
      × (s' ≡ add_unspent p.spent_in_block p.to_add (remove_keys p.to_remove s))
      × (undo.spent_outputs ≡ p.spent_outputs)
unfolding connect_block
connect_block-Tracks sha s block height s' undo h =
    let (p, e, k) = >>=-eq-ok (connect_txs sha s height nothing_pending block.transactions) _ h in
    let (es, eu) = ok-eq k in
    (
      p,
      connect_txs-Tracks sha s height [] nothing_pending p block.transactions (refl, refl) e,
      sym es,
      sym (ap (λ (u : BlockUndoData). u.spent_outputs) eu),
    )
