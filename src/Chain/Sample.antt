-- ===== src/Chain/Sample.antt =====
-- A store in memory and an engine for the tests.
use fairchain.Base.{
  ℕ, Bool, true, false, List, [], ◌∷◌, ◌++◌, Option, none, some, length, get_elem?, ok,
}
use fairchain.Base.KeyMap.{KeyMap, lookup, insert, contains}
use fairchain.Types.Hash.{Hash}
use fairchain.Types.Block.{Block}
use fairchain.Crypto.Sample.{sample_sha}
use fairchain.Script.Tests.{sample_ripemd, sample_curve}
use fairchain.Consensus.Engine.{Engine}
use fairchain.Store.Index.{DiskBlockIndex, BatchWrite}
use fairchain.Store.Interface.{BlockStore}
use fairchain.Chain.State.{Env}

-- `undo_full` makes every write of undo data fail.
pub record MemoryStore : Type 0 where
  pub blocks : KeyMap Block
  pub indexes : KeyMap DiskBlockIndex
  pub undos : List (List ℕ)
  pub undo_full : Bool
  pub tip : Option (Hash × ℕ)
  pub writes : List BatchWrite

abbrev pub empty_store : Bool → MemoryStore
empty_store full = record {
  blocks = [];
  indexes = [];
  undos = [];
  undo_full = full;
  tip = none;
  writes = [];
}

abbrev pub memory_db : BlockStore MemoryStore
memory_db = record {
  has_block = λ s hash. contains hash s.blocks;
  write_block = λ s hash block. (
    some (record { file_num = 0; offset = length s.blocks; size = 0 }),
    record s { blocks = insert hash block s.blocks },
  );
  write_undo = λ s file bytes. elim s.undo_full [
    | true ↦ (none, s)
    | false ↦ (some (length s.undos, 1), record s { undos = s.undos ++ (bytes ∷ []) })
  ];
  read_undo = λ s file offset size. get_elem? s.undos offset;
  put_block_index = λ s hash rec. (true, record s { indexes = insert hash rec s.indexes });
  get_block_index = λ s hash. lookup hash s.indexes;
  block_indexes = λ s. (s.indexes, true);
  get_chain_tip = λ s. s.tip;
  put_chain_tip = λ s hash height. (true, record s { tip = some (hash, height) });
  flush_utxo_batch = λ s wb. (true, record s { writes = s.writes ++ wb });
  get_best_block = λ s. none;
  utxos = λ s. ([], true);
  get_block = λ s hash. lookup hash s.blocks;
  get_header = λ s hash. elim (lookup hash s.blocks) [ none ↦ none | some b ↦ some b.header ];
}

-- An engine that accepts every block.
abbrev pub lax_engine : Engine (Unit {0})
lax_engine = record {
  validate_header = λ header parent height get_ancestor p. ok tt;
  validate_block = λ block height p. ok tt;
  calc_next_bits = λ tip tip_height get_ancestor p. ok 0;
  prepare_header = λ header parent parent_height get_ancestor p. ok header;
  seal_header = λ header target max_iterations. (header, true);
  name = [];
}

abbrev pub env : Env MemoryStore (Unit {0}) (List ℕ) (List ℕ)
env = record {
  sha = sample_sha;
  ripemd = sample_ripemd;
  curve = sample_curve;
  db = memory_db;
  engine = lax_engine;
  now_unix = 1_000;
  clock = 0;
  pick = 0;
}
