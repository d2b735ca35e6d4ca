-- ===== src/Utxo/Connect/Sequential/Agreement.antt =====
-- `ConnectBlock` accepts the blocks that the plain meaning accepts, with the same set.
use fairchain.Base.{
  ℕ, ◌≡◌, refl, true, not, List, [], ◌∷◌, Option, none, some, if◌then◌else◌, Outcome, ok, err,
  panic, ◌>>=◌, arith,
}
use fairchain.Base.Bytes.{bytes_eq_iff}
use fairchain.Base.KeyMap.{KeySet, lookup, insert, contains, lookup-insert, member, Distinct}
use fairchain.Crypto.Digest.{Sha256}
use fairchain.Types.Block.{Block}
use fairchain.Utxo.Entry.{UtxoEntry}
use fairchain.Utxo.Set.{UtxoSet}
use fairchain.Utxo.Connect.Defs.{
  Pending, ConnectError, BlockUndoData, nothing_pending, connect_block, created_keys, add_unspent,
  remove_keys,
}
use fairchain.Utxo.Connect.Tracks.{lookup-remove_keys}
use fairchain.Utxo.Connect.Sequential.Meaning.{apply_txs}
use fairchain.Utxo.Connect.Sequential.Step.{last_added, Mirrors}
use fairchain.Utxo.Connect.Sequential.Together.{InStep, txs_together}

lookup-add_unspent :
    (j : List ℕ) (spent : KeySet) (adds : List (List ℕ × UtxoEntry)) (s : UtxoSet)
    → lookup j (add_unspent spent adds s) ≡ (
        if contains j spent
        then lookup j s
        else elim (last_added j adds) [ some e ↦ some e | none ↦ lookup j s ])
unfolding add_unspent last_added
lookup-add_unspent j spent [] s = ground arith
lookup-add_unspent j spent ((k, e) ∷ r) s = ground (
  arith,
  lookup-add_unspent j spent r (if not (contains k spent) then insert k e s else s),
  lookup-insert k j e s,
  bytes_eq_iff k j,
)

starts-Mirrors : (s : UtxoSet) → Mirrors s [] nothing_pending s
unfolding contains lookup member last_added
starts-Mirrors s j = record {
  queued = refl;
  added = λ _. refl;
  present = λ _. refl;
  gone = λ spent. cc;
  origin = λ spent. cc;
  made_here = λ here. absurd (here refl);
}

-- At the end the queued changes give the plainly updated set.
applied :
    (s : UtxoSet) (made : List (List ℕ)) (p : Pending) (m : UtxoSet)
    → Mirrors s made p m
    → (j : List ℕ)
    → lookup j (add_unspent p.spent_in_block p.to_add (remove_keys p.to_remove s)) ≡ lookup j m
applied s made p m mir j = ground (
  arith,
  lookup-add_unspent j p.spent_in_block p.to_add (remove_keys p.to_remove s),
  lookup-remove_keys j p.to_remove s,
  (mir j).queued,
  (mir j).added,
  (mir j).present,
  (mir j).gone,
)

-- Both refuse the block, or both accept it and the sets agree at every key.
abbrev pub Agrees : Outcome ConnectError (UtxoSet × BlockUndoData) → Option UtxoSet → Type 0
Agrees (ok (s', undo)) (some m) = (j : List ℕ) → lookup j s' ≡ lookup j m
Agrees (err e) none = Unit
Agrees _ _ = ⊥

-- `ConnectBlock`, which queues its changes, does what applying the block's inputs and outputs one
-- by one does: it refuses the same blocks, and gives the same set at every key. The outputs that
-- the block creates must be distinct, and none of them may stand in the set already.
pub connect_block-apply_txs :
    (sha : Sha256) (s : UtxoSet) (block : Block) (height : ℕ)
    → ((j : List ℕ) → member j (created_keys sha block.transactions) ≡ true → lookup j s ≡ none)
    → Distinct (created_keys sha block.transactions)
    → Agrees (connect_block sha s block height) (apply_txs sha height s block.transactions)
unfolding connect_block
connect_block-apply_txs sha s block height fresh distinct = finish _ _ (
    txs_together sha s height [] nothing_pending s block.transactions (starts-Mirrors s)
      (fresh, distinct))
  where
    finish :
        (o : Outcome ConnectError Pending) (a : Option UtxoSet)
        → InStep (Mirrors s (created_keys sha block.transactions)) o a
        → Agrees
            (o >>= λ p. ok (
              add_unspent p.spent_in_block p.to_add (remove_keys p.to_remove s),
              record { spent_outputs = p.spent_outputs },
            ))
            a
    finish (ok p) (some m) mir = applied s (created_keys sha block.transactions) p m mir
    finish (err e) none t = tt
    finish (ok p) none t = absurd t
    finish (err e) (some m) t = absurd t
    finish panic (some m) t = absurd t
    finish panic none t = absurd t
