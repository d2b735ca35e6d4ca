-- ===== src/Chain/Queries.antt =====
-- The operations of internal/chain/chain.go that only read.
use fairchain.Base.{
  ℕ, zero, suc, ◌+◌, ◌-◌, ◌/◌, ◌%◌, Bool, true, false, ◌||◌, List, [], ◌∷◌, Option, none, some,
  length, get_or, leb, ltb, ◌==◌, if◌then◌else◌,
}
use fairchain.Base.KeyMap.{lookup, contains}
use fairchain.Types.Hash.{Hash}
use fairchain.Types.Block.{BlockHeader, Block}
use fairchain.Utxo.Set.{count, total_value}
use fairchain.Consensus.Timestamp.{sort_timestamps, median_count}
use fairchain.Store.Interface.{BlockStore}
use fairchain.Chain.State.{ChainState, hash_at, World}
use fairchain.Chain.Ancestors.{on_main, get_ancestor_unsafe}

unfoldable pub tip : ChainState → Hash × ℕ
tip c = (c.tip_hash, c.tip_height)

unfoldable pub get_block_height : ChainState → Hash → Option ℕ
get_block_height c hash = lookup hash c.height_by_hash

-- `none` stands for `(0, false)`.
unfoldable pub find_main_chain_hash : ChainState → Hash → Option ℕ
find_main_chain_hash c hash = elim (lookup hash c.height_by_hash) [
  | none ↦ none
  | some height ↦ if on_main c.hash_by_height height hash then some height else none
]

unfoldable pub has_block_on_chain : ChainState → Hash → Bool
has_block_on_chain c hash = contains hash c.height_by_hash

pub record TxOutSetInfoResult : Type 0 where
  pub height : ℕ
  pub best_hash : Hash
  pub tx_outs : ℕ
  pub total_value : ℕ

unfoldable pub tx_out_set_info : ChainState → TxOutSetInfoResult
tx_out_set_info c = record {
  height = c.tip_height;
  best_hash = c.tip_hash;
  tx_outs = count c.utxo_set;
  total_value = total_value c.utxo_set;
}

module _ {S : Type 0} (db : BlockStore S) where
  unfoldable pub tip_header : World S → Option BlockHeader
  tip_header w = db.get_header w.store w.chain.tip_hash

  unfoldable pub get_header_by_height : World S → ℕ → Option BlockHeader
  get_header_by_height w height = elim (hash_at height w.chain.hash_by_height) [
    | none ↦ none
    | some hash ↦ db.get_header w.store hash
  ]

  unfoldable pub get_block_by_height : World S → ℕ → Option (Block × Hash)
  get_block_by_height w height = elim (hash_at height w.chain.hash_by_height) [
    | none ↦ none
    | some hash ↦ elim (db.get_block w.store hash) [ none ↦ none | some block ↦ some (block, hash) ]
  ]

  unfoldable pub get_ancestor : World S → ℕ → Option BlockHeader
  get_ancestor w height = get_ancestor_unsafe db w.store w.chain.hash_by_height height

  unfoldable pub has_block : World S → Hash → Bool
  has_block w hash =
      contains hash w.chain.height_by_hash
      || (contains hash w.chain.orphans || db.has_block w.store hash)

  -- The loop that gathers the timestamps of the tip and of the blocks under it.
  unfoldable pub tip_timestamps : World S → ℕ → ℕ → List ℕ
  tip_timestamps w zero i = []
  tip_timestamps w (suc left) i = elim (leb i w.chain.tip_height) [
    | false ↦ []
    | true ↦ elim (get_header_by_height w (w.chain.tip_height - i)) [
      | none ↦ []
      | some header ↦ header.timestamp ∷ tip_timestamps w left (i + 1)
    ]
  ]

  pub record ChainInfo : Type 0 where
    pub network : List ℕ
    pub height : ℕ
    pub best_hash : Hash
    pub genesis_hash : Hash
    pub bits : ℕ
    pub chainwork : ℕ
    pub median_time_past : ℕ
    pub retarget_epoch : ℕ
    pub epoch_progress : ℕ
    pub epoch_blocks_left : ℕ
    pub retarget_interval : ℕ

  abbrev pub median_of : List ℕ → ℕ
  median_of timestamps =
      if length timestamps == 0
      then 0
      else get_or (sort_timestamps timestamps) (length timestamps / 2) 0

  -- Without the two floating-point fields.
  unfoldable pub get_chain_info : World S → ChainInfo
  get_chain_info w =
      let c = w.chain in
      let interval = c.params.retarget_interval in
      record {
        network = c.params.name;
        height = c.tip_height;
        best_hash = c.tip_hash;
        genesis_hash = c.params.genesis_hash;
        bits = elim (tip_header w) [ none ↦ 0 | some header ↦ header.bits ];
        chainwork = c.tip_work;
        median_time_past = median_of (tip_timestamps w median_count 0);
        retarget_epoch = if ltb 0 interval then c.tip_height / interval else 0;
        epoch_progress = if ltb 0 interval then c.tip_height % interval else 0;
        epoch_blocks_left = if ltb 0 interval then interval - c.tip_height % interval else 0;
        retarget_interval = interval;
      }
