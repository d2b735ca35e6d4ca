-- ===== src/Params.antt =====
-- `ChainParams` and `CalcSubsidy` (internal/params/params.go). A duration is its nanoseconds.
use fairchain.Base.{ℕ, ◌/◌, ◌^◌, Bool, List, leb, ◌==◌, if◌then◌else◌}
use fairchain.Base.KeyMap.{KeyMap}
use fairchain.Types.Hash.{Hash}
use fairchain.Types.Block.{Block}

pub record ChainParams : Type 0 where
  pub name : List ℕ
  pub data_dir_name : List ℕ
  pub network_magic : List ℕ
  pub default_port : ℕ
  pub address_prefix : ℕ
  pub genesis_block : Block
  pub genesis_hash : Hash
  pub target_block_spacing : ℕ
  pub retarget_interval : ℕ
  pub target_timespan : ℕ
  pub max_time_future_drift : ℕ
  pub min_timestamp_rule : List ℕ
  pub initial_bits : ℕ
  pub min_bits : ℕ
  pub no_retarget : Bool
  pub max_block_size : ℕ
  pub max_block_tx_count : ℕ
  pub initial_subsidy : ℕ
  pub subsidy_halving_interval : ℕ
  pub coinbase_maturity : ℕ
  pub max_reorg_depth : ℕ
  pub max_mempool_size : ℕ
  pub min_relay_tx_fee : ℕ
  pub seed_nodes : List (List ℕ)
  pub activation_heights : KeyMap ℕ

-- `time.Second`
abbrev pub second : ℕ
second = 1_000_000_000

-- A shift to the right by `halvings` divides by its power of two.
unfoldable pub calc_subsidy : ChainParams → ℕ → ℕ
calc_subsidy p height =
    if p.subsidy_halving_interval == 0
    then p.initial_subsidy
    else (let halvings = height / p.subsidy_halving_interval in
        if leb 64 halvings then 0 else p.initial_subsidy / 2 ^ halvings)
