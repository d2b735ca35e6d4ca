-- ===== src/Consensus/Pow/Tests.antt =====
-- A header that is prepared and sealed, and difficulty adjustments at concrete inputs.
use fairchain.Base.{◌+◌, ◌*◌, ℕ, ◌≡◌, refl, arith, true, false, none, some, ok, ◌/◌, ◌≤◌, ◌<◌}
use fairchain.Base.Bytes.{put_le, le_value, bytes_eq}
use fairchain.Types.Hash.{zero_hash, less_or_equal, less, less_from}
use fairchain.Types.Block.{BlockHeader, serialize_header}
use fairchain.Crypto.Sample.{sample_sha}
use fairchain.Crypto.Digest.{hash_block_header, double_sha256}
use fairchain.Crypto.Target.{
  compact_to_hash, compact_to_big, size_of, big_to_compact, byte_len, BigInt,
}
use fairchain.Params.{ChainParams}
use fairchain.Consensus.Tests.{params}
use fairchain.Consensus.Pow.{
  calc_next_bits, retarget, clamp_timespan, scale_target, exceeds, set_bits, prepare_header,
  validate_header, seal_header,
}
use fairchain.Consensus.Pow.Bounds.{scale_target-clamp_timespan}
use fairchain.Consensus.Pow.Sealed.{validate_header-seal_header}

abbrev easy_bits : ℕ
easy_bits = 0x207f_ffff

abbrev regtest : ChainParams
regtest = record params { initial_bits = easy_bits }

abbrev parent : BlockHeader
parent = record {
  version = 1;
  prev_block = zero_hash;
  merkle_root = zero_hash;
  timestamp = 0;
  bits = easy_bits;
  nonce = 0;
}

abbrev child : BlockHeader
child = record parent { prev_block = hash_block_header sample_sha parent; bits = 0 }

child_prepared :
    prepare_header child parent 0 (λ height. none) regtest ≡ ok (set_bits child easy_bits)
unfolding prepare_header calc_next_bits
child_prepared = refl

child_sealed :
    seal_header sample_sha 1 (set_bits child easy_bits) (compact_to_hash easy_bits)
    ≡ (set_bits child easy_bits, true)
unfolding seal_header less_or_equal less less_from hash_block_header double_sha256 serialize_header
    compact_to_hash compact_to_big size_of put_le le_value bytes_eq
child_sealed = refl

validate_header-seal_header_example :
    validate_header sample_sha (set_bits child easy_bits) parent 1 (λ height. none) regtest ≡ ok tt
validate_header-seal_header_example =
    validate_header-seal_header sample_sha child parent 0 1 (λ height. none) regtest (omega arith)
      refl child_prepared child_sealed

-- Blocks that came twice as fast halve the target.
abbrev adjusting : ChainParams
adjusting = record params {
  no_retarget = false;
  retarget_interval = 10;
  target_timespan = 1_000_000_000_000;
  min_bits = easy_bits;
}

target_is_halved :
    calc_next_bits
      (record parent { bits = 0x1d00_ffff; timestamp = 500 })
      9
      (λ height. some parent)
      adjusting
    ≡ ok 0x1c7f_ff80
unfolding calc_next_bits retarget clamp_timespan scale_target exceeds compact_to_big size_of
    big_to_compact byte_len
target_is_halved = refl

abbrev old_target : BigInt
old_target = record { negative = false; magnitude = 640 }

-- The second block came before the first.
scale_target-clamp_timespan_example :
    ((scale_target old_target (clamp_timespan 5 900 1000) 1000).magnitude ≤ 4 * 640)
    × (640 * (1000 / 4)
        < ((scale_target old_target (clamp_timespan 5 900 1000) 1000).magnitude + 1) * 1000)
scale_target-clamp_timespan_example =
    scale_target-clamp_timespan old_target 5 900 1000 (omega arith) refl
