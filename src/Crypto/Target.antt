-- ===== src/Crypto/Target.antt =====
-- Compact difficulty targets (internal/crypto/target.go). A big.Int is a sign and a size.
use fairchain.Base.{
  ℕ, zero, suc, ◌+◌, ◌-◌, ◌*◌, ◌/◌, ◌%◌, ◌^◌, Bool, true, false, not, ◌&&◌, leb, ◌==◌,
  if◌then◌else◌,
}
use fairchain.Base.Bytes.{put_le, le_value}
use fairchain.Types.Hash.{Hash, less_or_equal}

pub record BigInt : Type 0 where
  pub negative : Bool
  pub magnitude : ℕ

-- The bits of the mantissa, of its sign, and of the exponent.
abbrev pub mantissa_of : ℕ → ℕ
mantissa_of compact = compact % 0x80_0000

abbrev pub sign_of : ℕ → Bool
sign_of compact = not (compact / 0x80_0000 % 2 == 0)

abbrev pub exponent_of : ℕ → ℕ
exponent_of compact = compact / 2 ^ 24

unfoldable pub size_of : ℕ → ℕ
size_of compact =
    if leb (exponent_of compact) 3
    then mantissa_of compact / 2 ^ (8 * (3 - exponent_of compact))
    else mantissa_of compact * 2 ^ (8 * (exponent_of compact - 3))

-- Zero has no sign, so the negation of zero is zero.
unfoldable pub compact_to_big : ℕ → BigInt
compact_to_big compact = record {
  negative = sign_of compact && not (size_of compact == 0);
  magnitude = size_of compact;
}

-- `(BitLen() + 7) / 8`: the number of bytes of `n`, of which `fuel` are counted at most.
unfoldable pub byte_len : ℕ → ℕ → ℕ
byte_len zero n = 0
byte_len (suc fuel) n = elim (n == 0) [ true ↦ 0 | false ↦ suc (byte_len fuel (n / 256)) ]

-- A mantissa whose bit 23 is set moves down by a byte.
abbrev pub normalize : ℕ → ℕ → ℕ × ℕ
normalize compact len =
    if not (compact / 0x80_0000 % 2 == 0) then (compact / 256, len + 1) else (compact, len)

-- The mantissa has at most 23 bits after `normalize`, so `|=` adds. The bytes of the sizes that the
-- code meets are counted with a fuel of 300, since an exponent is at most 255.
unfoldable pub big_to_compact : BigInt → ℕ
big_to_compact target =
    let len = byte_len 300 target.magnitude in
    let low =
      (if leb len 3
        then target.magnitude * 2 ^ (8 * (3 - len))
        else (target.magnitude / 2 ^ (8 * (len - 3)))) in
    let (mantissa, len') = normalize low len in
    if target.magnitude == 0
    then 0
    else ((mantissa + len' * 2 ^ 24 + (if target.negative then 0x80_0000 else 0)) % 2 ^ 32)

-- The lowest 32 bytes of the target's size, the lowest first.
unfoldable pub compact_to_hash : ℕ → Hash
compact_to_hash compact = put_le 32 (compact_to_big compact).magnitude

unfoldable pub hash_to_big : Hash → BigInt
hash_to_big h = record { negative = false; magnitude = le_value h }

unfoldable pub calc_work : ℕ → ℕ
calc_work bits =
    let target = compact_to_big bits in
    if target.negative
    then 0
    else if target.magnitude == 0
    then 0
    else (2 ^ 256 / (target.magnitude + 1))

-- True where the code returns no error.
unfoldable pub validate_proof_of_work : Hash → ℕ → Bool
validate_proof_of_work header_hash bits = less_or_equal header_hash (compact_to_hash bits)
