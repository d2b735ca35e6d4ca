-- ===== src/Chain/Accept/Orphans.antt =====
-- `processOrphans` (internal/chain/chain.go): what waits for a block is taken up once it is there.
use fairchain.Base.{
  ℕ, zero, suc, ◌+◌, ◌%◌, ◌^◌, Bool, true, false, List, [], ◌∷◌, ◌++◌, length, none, some,
  if◌then◌else◌, Outcome, panic, err, ok,
}
use fairchain.Base.Bytes.{bytes_eq, bytes_less}
use fairchain.Base.KeyMap.{KeyMap, lookup, erase}
use fairchain.Types.Hash.{Hash}
use fairchain.Types.Block.{Block}
use fairchain.Utxo.Connect.{BlockUndoData}
use fairchain.Utxo.Undo.{serialize_undo}
use fairchain.Store.Index.{DiskBlockIndex}
use fairchain.Store.Interface.{Location}
use fairchain.Chain.State.{
  OrphanBlock, Env, ChainError, load_parent, store_block, store_index, too_deep, ChainState, Action,
  ◌>>=◌, ◌>>◌, modify, write, write_with, pure, gets, found,
}
use fairchain.Chain.Persist.{persist_utxo_changes}
use fairchain.Chain.Reorg.{connect_tip, reorg, with_undo}
use fairchain.Chain.Accept.Defs.{
  index_record, beats, index_side_block, check_block, extend_chain, or_disconnect,
}

abbrev pub OrphanEntry : Type 0
OrphanEntry = Hash × Block

unfoldable pub children_of : Hash → KeyMap OrphanBlock → List OrphanEntry
children_of parent [] = []
children_of parent ((hash, ob) ∷ rest) =
    let found = children_of parent rest in
    if bytes_eq ob.block.header.prev_block parent then (hash, ob.block) ∷ found else found

unfoldable pub without_children : Hash → KeyMap OrphanBlock → KeyMap OrphanBlock
without_children parent [] = []
without_children parent ((hash, ob) ∷ rest) =
    let kept = without_children parent rest in
    if bytes_eq ob.block.header.prev_block parent then kept else (hash, ob) ∷ kept

unfoldable pub insert_entry : OrphanEntry → List OrphanEntry → List OrphanEntry
insert_entry entry [] = entry ∷ []
insert_entry entry (e ∷ sorted) =
    let rest = insert_entry entry sorted in
    if bytes_less e.0 entry.0 then e ∷ rest else entry ∷ (e ∷ sorted)

-- `sort.Slice` by the hashes, which are the keys of a map and so all different.
unfoldable pub sort_entries : List OrphanEntry → List OrphanEntry
sort_entries [] = []
sort_entries (entry ∷ entries) = insert_entry entry (sort_entries entries)

-- What becomes of one orphan.
pub data Adopted : Type 0 where
  skipped queued reorganised : Adopted

module _ {S : Type 0} where
  -- `_ = c.store.PutBlockIndex(…)`
  abbrev pub ignore : Action S (Unit {0}) → Action S (Unit {0})
  ignore action w =
      let (r, w') = action w in (elim r [ panic ↦ panic | err why ↦ ok tt | ok t ↦ ok t ], w')

  -- `continue` on every error
  abbrev pub or_skip : Action S Adopted → Action S Adopted
  or_skip action w =
      let (r, w') = action w in (elim r [ panic ↦ panic | err why ↦ ok skipped | ok a ↦ ok a ], w')

abbrev pub is_too_deep : ChainError → Bool
is_too_deep why = elim why [ too_deep ↦ true | _ ↦ false ]

-- A reorganisation that fails takes the block from the index again, unless it was too deep.
abbrev pub forget : Bool → Hash → ChainState → ChainState
forget true hash c = c
forget false hash c = record c { height_by_hash = erase hash c.height_by_hash }

module _ {S E Signature PubKey : Type 0} (env : Env S E Signature PubKey) where
  -- The record with the place of the undo data, or as it was where that was not written.
  unfoldable pub try_write_undo : DiskBlockIndex → BlockUndoData → Action S DiskBlockIndex
  try_write_undo rec undo w =
      let (r, s) = env.db.write_undo w.store rec.file_num (serialize_undo undo) in
      (ok (elim r [ none ↦ rec | some place ↦ with_undo rec place ]), record w { store = s })

  unfoldable pub adopt_tip : Hash → Block → ℕ → ℕ → Location → Action S Adopted
  adopt_tip hash block height work place = do
    undo ← connect_tip env block height
    or_disconnect env block undo do
      rec ← try_write_undo (index_record block height place work) undo
      write (λ st. env.db.put_block_index st hash rec) store_index
      persist_utxo_changes env block undo hash
    extend_chain env hash height work
    pure queued

  unfoldable pub after_adoption : Hash → Outcome ChainError (Unit {0}) → Action S Adopted
  after_adoption hash panic w = (panic, w)
  after_adoption hash (err why) w =
      (err why, record w { chain = forget (is_too_deep why) hash w.chain })
  after_adoption hash (ok t) w = (ok reorganised, w)

  unfoldable pub adopt_better : Hash → ℕ → ℕ → Action S Adopted
  adopt_better hash height work w =
      let (r, w') = reorg env hash height work w in after_adoption hash r w'

  -- The block has passed the checks, and is to be stored and to find its place.
  unfoldable pub adopt_checked : Hash → Block → ℕ → ℕ → Action S Adopted
  adopt_checked hash block height work = do
    place ← write_with (λ st. env.db.write_block st hash block) store_block
    c ← gets (λ w. w.chain)
    elim (bytes_eq block.header.prev_block c.tip_hash) [
      | true ↦ adopt_tip hash block height work place
      | false ↦ do
        ignore (
            write (λ st. env.db.put_block_index st hash (index_record block height place work))
              store_index)
        modify (index_side_block hash height)
        elim (beats work hash c) [ true ↦ adopt_better hash height work | false ↦ pure queued ]
    ]

  unfoldable pub adopt_orphan : OrphanEntry → Action S Adopted
  adopt_orphan (hash, block) = do
    before ← gets (λ w. w.chain)
    parent_height ← found load_parent (lookup block.header.prev_block before.height_by_hash)
    work ← check_block env block parent_height
    adopt_checked hash block ((parent_height + 1) % 2 ^ 32) work

  -- The queue after one parent's orphans: a reorganisation leaves the loop and the rest of them.
  unfoldable pub adopt_orphans : List OrphanEntry → List Hash → Action S (List Hash)
  adopt_orphans [] queue = pure queue
  adopt_orphans (entry ∷ entries) queue = do
    became ← or_skip (adopt_orphan entry)
    elim became [
      | skipped ↦ adopt_orphans entries queue
      | queued ↦ adopt_orphans entries (queue ++ (entry.0 ∷ []))
      | reorganised ↦ pure (entry.0 ∷ [])
    ]

  unfoldable pub process_queue : ℕ → List Hash → Action S (Unit {0})
  process_queue zero queue = pure tt
  process_queue (suc left) [] = pure tt
  process_queue (suc left) (parent ∷ queue) = do
    orphans ← gets (λ w. w.chain.orphans)
    modify (λ c. record c { orphans = without_children parent c.orphans })
    next ← adopt_orphans (sort_entries (children_of parent orphans)) queue
    process_queue left next

  -- Each round takes a hash from the queue, and each that is added was an orphan.
  unfoldable pub process_orphans : Hash → Action S (Unit {0})
  process_orphans parent_hash w = process_queue (length w.chain.orphans + 1) (parent_hash ∷ []) w
