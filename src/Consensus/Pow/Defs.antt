-- ===== src/Consensus/Pow/Defs.antt =====
-- The proof-of-work engine (internal/consensus/pow/engine.go). The parameters' durations are not
-- negative.
use fairchain.Base.{
  ℕ, zero, suc, ◌+◌, ◌-◌, ◌*◌, ◌/◌, ◌%◌, ◌^◌, Bool, true, false, not, ◌&&◌, Option, none, some, ltb,
  ◌==◌, if◌then◌else◌, Outcome, ok, err, panic, ◌>>=◌, ◌>>◌, fail_if,
}
use fairchain.Base.Bytes.{bytes_eq}
use fairchain.Types.Hash.{Hash, less_or_equal}
use fairchain.Types.Block.{BlockHeader, Block}
use fairchain.Crypto.Digest.{Sha256, hash_block_header}
use fairchain.Crypto.Merkle.{compute_merkle_root}
use fairchain.Crypto.Target.{
  BigInt, compact_to_big, big_to_compact, compact_to_hash, validate_proof_of_work,
}
use fairchain.Params.{ChainParams, second}

pub data PowError : Type 0 where
  prev_block_mismatch incorrect_bits proof_too_weak nonces_exhausted : PowError

-- The signed difference of the timestamps, clamped to a quarter of the target and four times it. A
-- negative difference is below the quarter.
unfoldable pub clamp_timespan : ℕ → ℕ → ℕ → ℕ
clamp_timespan last first target =
    if ltb last first
    then target / 4
    else if ltb (last - first) (target / 4)
    then target / 4
    else if ltb (target * 4) (last - first)
    then (target * 4)
    else (last - first)

-- `Div` rounds so that the remainder is not negative.
unfoldable pub scale_target : BigInt → ℕ → ℕ → BigInt
scale_target old actual target =
    let size =
      (if old.negative
        then ((old.magnitude * actual + (target - 1)) / target)
        else (old.magnitude * actual / target)) in
    record { negative = old.negative && not (size == 0); magnitude = size }

-- `a.Cmp(b) > 0`
unfoldable pub exceeds : BigInt → BigInt → Bool
exceeds a b =
    if a.negative
    then (b.negative && ltb a.magnitude b.magnitude)
    else if b.negative
    then true
    else ltb b.magnitude a.magnitude

unfoldable pub retarget : BlockHeader → BlockHeader → ChainParams → Outcome PowError ℕ
retarget tip first p =
    let target = p.target_timespan / second in
    let actual = clamp_timespan tip.timestamp first.timestamp target in
    let new_target = scale_target (compact_to_big tip.bits) actual target in
    let max_target = compact_to_big p.min_bits in
    if target == 0
    then panic
    else ok (big_to_compact (if exceeds new_target max_target then max_target else new_target))

-- A remainder by an interval of 0 panics.
unfoldable pub calc_next_bits :
    BlockHeader → ℕ → (ℕ → Option BlockHeader) → ChainParams → Outcome PowError ℕ
calc_next_bits tip tip_height get_ancestor p =
    if p.no_retarget
    then ok p.initial_bits
    else if p.retarget_interval == 0
    then panic
    else if not ((tip_height + 1) % 2 ^ 32 % p.retarget_interval == 0)
    then ok tip.bits
    else elim (get_ancestor ((tip_height + 2 ^ 32 - (p.retarget_interval - 1)) % 2 ^ 32)) [
      | none ↦ ok tip.bits
      | some first ↦ retarget tip first p
    ]

abbrev pub set_bits : BlockHeader → ℕ → BlockHeader
set_bits h bits = record h { bits = bits }

-- `header.Nonce++`
abbrev pub next_nonce : BlockHeader → BlockHeader
next_nonce h = record h { nonce = (h.nonce + 1) % 2 ^ 32 }

unfoldable pub prepare_header :
    BlockHeader
    → BlockHeader
    → ℕ
    → (ℕ → Option BlockHeader)
    → ChainParams
    → Outcome PowError BlockHeader
prepare_header header parent parent_height get_ancestor p = do
  bits ← calc_next_bits parent parent_height get_ancestor p
  ok (set_bits header bits)

module _ (sha : Sha256) where
  -- `height-1` is a uint32.
  unfoldable pub validate_header :
      BlockHeader
      → BlockHeader
      → ℕ
      → (ℕ → Option BlockHeader)
      → ChainParams
      → Outcome PowError (Unit {0})
  validate_header header parent height get_ancestor p = do
    fail_if (not (bytes_eq header.prev_block (hash_block_header sha parent))) prev_block_mismatch
    expected ← calc_next_bits parent ((height + (2 ^ 32 - 1)) % 2 ^ 32) get_ancestor p
    fail_if (not (header.bits == expected)) incorrect_bits
    fail_if (not (validate_proof_of_work (hash_block_header sha header) header.bits)) proof_too_weak

  -- The header as the loop leaves it, and whether it was sealed.
  unfoldable pub seal_header : ℕ → BlockHeader → Hash → BlockHeader × Bool
  seal_header zero header target = (header, false)
  seal_header (suc left) header target =
      elim (less_or_equal (hash_block_header sha header) target) [
        | true ↦ (header, true)
        | false ↦ elim ((next_nonce header).nonce == 0) [
          | true ↦ (next_nonce header, false)
          | false ↦ seal_header left (next_nonce header) target
        ]
      ]

  -- The loop has no bound of its own: it ends when the nonce wraps, after 2^32 rounds at most.
  unfoldable pub mine_genesis : Block → Outcome PowError Block
  mine_genesis block = elim (compute_merkle_root sha block.transactions) [
    | none ↦ panic
    | some merkle ↦
        let header : BlockHeader = record block.header { merkle_root = merkle } in
        let sealed = seal_header (2 ^ 32) header (compact_to_hash header.bits) in
        if sealed.1 then ok (record block { header = sealed.0 }) else err nonces_exhausted
  ]
