-- ===== src/Chain/Accept/Process.antt =====
-- `ProcessBlock` and the orphan pool (internal/chain/chain.go).
use fairchain.Base.{
  ℕ, ◌+◌, ◌-◌, ◌%◌, ◌^◌, true, false, [], ◌∷◌, length, none, some, leb, ltb, if◌then◌else◌,
  get_elem?, Outcome, panic, err, ok,
}
use fairchain.Base.Bytes.{bytes_eq}
use fairchain.Base.KeyMap.{KeyMap, lookup, insert, erase, contains}
use fairchain.Types.Hash.{Hash}
use fairchain.Types.Block.{Block}
use fairchain.Crypto.Digest.{hash_block_header}
use fairchain.Crypto.Target.{validate_proof_of_work}
use fairchain.Utxo.Undo.{serialize_undo}
use fairchain.Store.Interface.{Location}
use fairchain.Chain.State.{
  OrphanBlock, Env, ChainError, already_in_chain, already_in_orphan_pool, orphan_pow, orphan_block,
  side_chain, store_block, store_undo, store_index, reorg_failed, Action, ◌>>=◌, ◌>>◌, modify,
  write, write_with, pure, fail, gets,
}
use fairchain.Chain.Persist.{persist_utxo_changes}
use fairchain.Chain.Reorg.{connect_tip, reorg, with_undo}
use fairchain.Chain.Accept.Defs.{
  index_record, beats, index_side_block, check_block, extend_chain, or_disconnect,
}
use fairchain.Chain.Accept.Orphans.{is_too_deep, process_orphans}

abbrev pub max_orphan_blocks : ℕ
max_orphan_blocks = 100

-- 20 minutes in nanoseconds
abbrev pub orphan_expiry : ℕ
orphan_expiry = 1_200_000_000_000

unfoldable pub evict_expired_orphans : ℕ → KeyMap OrphanBlock → KeyMap OrphanBlock
evict_expired_orphans now [] = []
evict_expired_orphans now ((hash, ob) ∷ rest) =
    let kept = evict_expired_orphans now rest in
    if ltb orphan_expiry (now - ob.added_at) then kept else (hash, ob) ∷ kept

-- `pick` says which pair the loop over the map meets first.
unfoldable pub evict_random_orphan : ℕ → KeyMap OrphanBlock → KeyMap OrphanBlock
evict_random_orphan pick orphans = elim (get_elem? orphans (pick % length orphans)) [
  | none ↦ orphans
  | some pair ↦ erase pair.0 orphans
]

unfoldable pub add_orphan : ℕ → ℕ → Hash → Block → KeyMap OrphanBlock → KeyMap OrphanBlock
add_orphan now pick hash block orphans =
    let kept = evict_expired_orphans now orphans in
    insert hash (record { block = block; added_at = now })
      (if leb max_orphan_blocks (length kept) then evict_random_orphan pick kept else kept)

module _ {S E Signature PubKey : Type 0} (env : Env S E Signature PubKey) where
  unfoldable pub accept_tip : Hash → Block → ℕ → ℕ → Location → Action S (Unit {0})
  accept_tip hash block height work place = do
    undo ← connect_tip env block height
    or_disconnect env block undo do
      undo_place ←
          write_with (λ st. env.db.write_undo st place.file_num (serialize_undo undo)) store_undo
      write
          (λ st.
            env.db.put_block_index st hash
              (with_undo (index_record block height place work) undo_place))
          store_index
      persist_utxo_changes env block undo hash
    extend_chain env hash height work

  -- The block is stored but not on the main chain.
  unfoldable pub keep_side_block : Hash → ℕ → Action S (Unit {0})
  keep_side_block hash height = do
    modify (index_side_block hash height)
    process_orphans env hash
    fail side_chain

  -- What is done with the result of `reorg`.
  unfoldable pub after_reorg : Hash → ℕ → Outcome ChainError (Unit {0}) → Action S (Unit {0})
  after_reorg hash height panic w = (panic, w)
  after_reorg hash height (err why) w = elim (is_too_deep why) [
    | true ↦ keep_side_block hash height w
    | false ↦ (err (reorg_failed why), w)
  ]
  after_reorg hash height (ok t) w = (ok t, w)

  unfoldable pub accept_better : Hash → ℕ → ℕ → Action S (Unit {0})
  accept_better hash height work w =
      let (r, w') = reorg env hash height work w in after_reorg hash height r w'

  -- The block has passed the checks, and is to be stored and to find its place.
  unfoldable pub accept_checked : Hash → Block → ℕ → ℕ → Action S (Unit {0})
  accept_checked hash block height work = do
    place ← write_with (λ st. env.db.write_block st hash block) store_block
    c ← gets (λ w. w.chain)
    elim (bytes_eq block.header.prev_block c.tip_hash) [
      | true ↦ accept_tip hash block height work place
      | false ↦ do
        write (λ st. env.db.put_block_index st hash (index_record block height place work))
            store_index
        elim (beats work hash c) [
          | true ↦ accept_better hash height work
          | false ↦ keep_side_block hash height
        ]
    ]

  unfoldable pub accept_block : Hash → Block → ℕ → Action S ℕ
  accept_block hash block parent_height = do
    work ← check_block env block parent_height
    accept_checked hash block ((parent_height + 1) % 2 ^ 32) work
    process_orphans env hash
    pure ((parent_height + 1) % 2 ^ 32)

  unfoldable pub keep_orphan : Hash → Block → Action S ℕ
  keep_orphan hash block = do
    if validate_proof_of_work hash block.header.bits then pure tt else fail orphan_pow
    modify (λ c. record c { orphans = add_orphan env.clock env.pick hash block c.orphans })
    fail orphan_block

  unfoldable pub process_block : Block → Action S ℕ
  process_block block = do
    let hash = hash_block_header env.sha block.header
    c ← gets (λ w. w.chain)
    if contains hash c.height_by_hash then fail already_in_chain else pure tt
    if contains hash c.orphans then fail already_in_orphan_pool else pure tt
    elim (lookup block.header.prev_block c.height_by_hash) [
      | none ↦ keep_orphan hash block
      | some parent_height ↦ accept_block hash block parent_height
    ]
