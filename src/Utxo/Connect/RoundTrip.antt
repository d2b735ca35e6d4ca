-- ===== src/Utxo/Connect/RoundTrip.antt =====
-- Disconnecting a block that was connected.
use fairchain.Base.{
  ℕ, ◌≡◌, ap, sym, ◌∙◌, true, false, List, [], ◌∷◌, reverse, map, All, none, some, inl, inr,
  Bool-cases, ok, ◌≢◌,
}
use fairchain.Base.Bytes.{bytes_eq}
use fairchain.Base.KeyMap.{lookup, lookup-insert, member}
use fairchain.Crypto.Digest.{Sha256}
use fairchain.Types.Block.{Block}
use fairchain.Utxo.Entry.{UtxoEntry}
use fairchain.Utxo.Set.{UtxoSet}
use fairchain.Utxo.Connect.Defs.{
  SpentOutput, BlockUndoData, connect_block, remove_keys, created_keys, restore, spent_key,
  disconnect_block,
}
use fairchain.Utxo.Connect.Tracks.{
  lookup-remove_keys, lookup-add_unspent_other, StoodIn, lookup-restore, member-created_reverse,
  connect_block-Tracks,
}

-- A connected block touches only the keys that it spends and those that it creates.
pub connect_block-others :
    (sha : Sha256) (s : UtxoSet) (block : Block) (height : ℕ) (s' : UtxoSet) (undo : BlockUndoData)
    → connect_block sha s block height ≡ ok (s', undo)
    → (j : List ℕ) → member j (map spent_key undo.spent_outputs) ≡ false
    → member j (created_keys sha block.transactions) ≡ false
    → lookup j s' ≡ lookup j s
connect_block-others sha s block height s' undo h j not_spent not_made =
    let (p, (r, a), es, eu) = connect_block-Tracks sha s block height s' undo h in
    let kept : member j p.to_remove ≡ false =
      ap (member j) r ∙ ap (λ l. member j (map spent_key l)) (sym eu) ∙ not_spent in
    ap (lookup j) es
    ∙ lookup-add_unspent_other j p.spent_in_block p.to_add (remove_keys p.to_remove s)
        (ap (member j) a ∙ not_made)
    ∙ lookup-remove_keys j p.to_remove s
    ∙ rw kept

-- Disconnecting a connected block gives back the set that it was connected to, at every key, if
-- no output that it creates stood in that set and every output that it spends did.
pub disconnect-connect :
    (sha : Sha256) (s : UtxoSet) (block : Block) (height : ℕ) (s' : UtxoSet) (undo : BlockUndoData)
    → connect_block sha s block height ≡ ok (s', undo)
    → ((j : List ℕ) → member j (created_keys sha block.transactions) ≡ true → lookup j s ≡ none)
    → All (StoodIn s) undo.spent_outputs
    → (j : List ℕ) → lookup j (disconnect_block sha s' block undo) ≡ lookup j s
unfolding disconnect_block
disconnect-connect sha s block height s' undo h fresh stood j =
    let made = created_keys sha (reverse block.transactions) in
    lookup-restore s j undo.spent_outputs (remove_keys made s') stood
    ∙ rw (lookup-remove_keys j made s', member-created_reverse sha j block.transactions)
        (elim (Bool-cases (member j (map spent_key undo.spent_outputs))) [
          | inl spent ↦ rw spent
          | inr not_spent ↦
              rw not_spent (elim (Bool-cases (member j (created_keys sha block.transactions))) [
                | inl created ↦ rw created (sym (fresh j created))
                | inr not_made ↦
                    rw not_made
                      (connect_block-others sha s block height s' undo h j not_spent not_made)
              ])
        ])

lookup-restore_kept :
    (j : List ℕ) (sos : List SpentOutput) (m : UtxoSet) (e : UtxoEntry)
    → lookup j m ≡ some e
    → (e' : UtxoEntry) × (lookup j (restore sos m) ≡ some e')
unfolding restore
lookup-restore_kept j [] m e h = (e, h)
lookup-restore_kept j (so ∷ r) m e h = elim (Bool-cases (bytes_eq (spent_key so) j)) [
  | inl same ↦
      lookup-restore_kept j r _ so.entry (lookup-insert (spent_key so) j so.entry m ∙ rw same)
  | inr other ↦ lookup-restore_kept j r _ e (lookup-insert (spent_key so) j so.entry m ∙ rw other h)
]

lookup-restore_spent :
    (j : List ℕ) (sos : List SpentOutput) (m : UtxoSet)
    → member j (map spent_key sos) ≡ true
    → (e : UtxoEntry) × (lookup j (restore sos m) ≡ some e)
unfolding restore member
lookup-restore_spent j [] m h = cc
lookup-restore_spent j (so ∷ r) m h = elim (Bool-cases (bytes_eq (spent_key so) j)) [
  | inl same ↦
      lookup-restore_kept j r _ so.entry (lookup-insert (spent_key so) j so.entry m ∙ rw same)
  | inr other ↦ lookup-restore_spent j r _ (rw other at h)
]

-- An output that the block both creates and spends is left behind: where it did not stand in the
-- set before, disconnecting the block that was connected leaves an entry for it.
pub disconnect_leaves_spent :
    (sha : Sha256) (s : UtxoSet) (block : Block) (height : ℕ) (s' : UtxoSet) (undo : BlockUndoData)
    (j : List ℕ)
    → connect_block sha s block height ≡ ok (s', undo)
    → member j (map spent_key undo.spent_outputs) ≡ true
    → lookup j s ≡ none
    → lookup j (disconnect_block sha s' block undo) ≢ lookup j s
unfolding disconnect_block
disconnect_leaves_spent sha s block height s' undo j h spent absent same =
    let (e, back) =
      lookup-restore_spent j undo.spent_outputs
        (remove_keys (created_keys sha (reverse block.transactions)) s') spent in
    cc (back, same, absent)
