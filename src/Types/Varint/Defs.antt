-- ===== src/Types/Varint/Defs.antt =====
-- `PutVarInt`, `VarIntSize`, `ReadVarInt` and `ReadVarIntFromBytes` (internal/types/transaction.go).
use fairchain.Base.{
  ℕ, ◌+◌, ◌%◌, ◌^◌, List, [], ◌∷◌, length, take, drop, get_or, ltb, leb, ◌==◌, if◌then◌else◌,
  Outcome, ok, err,
}
use fairchain.Base.Bytes.{put_le, le_value}
use fairchain.Types.Reader.{Reader, read_full, reject_if, pure, noncanonical, ◌>>=◌ as bind}

-- The bytes that `PutVarInt` leaves in front of its buffer; it returns their number.
unfoldable pub put_varint : ℕ → List ℕ
put_varint val =
    if ltb val 0xfd
    then (val % 256) ∷ []
    else if leb val 0xffff
    then 0xfd ∷ put_le 2 (val % 2 ^ 16)
    else if leb val 0xffff_ffff
    then 0xfe ∷ put_le 4 (val % 2 ^ 32)
    else 0xff ∷ put_le 8 val

unfoldable pub varint_size : ℕ → ℕ
varint_size val =
    if ltb val 0xfd then 1 else if leb val 0xffff then 3 else if leb val 0xffff_ffff then 5 else 9

-- A wide form: `n` bytes, whose value must be at least `low`.
unfoldable pub read_wide : ℕ → ℕ → Reader ℕ
read_wide n low =
    bind (read_full n)
      λ buf. bind (reject_if (ltb (le_value buf) low) noncanonical) λ _. pure (le_value buf)

unfoldable pub read_by_discriminant : ℕ → Reader ℕ
unfolding read_wide
read_by_discriminant d =
    if d == 0xfd
    then read_wide 2 0xfd
    else if d == 0xfe
    then read_wide 4 0x1_0000
    else if d == 0xff
    then read_wide 8 0x1_0000_0000
    else pure d

unfoldable pub read_varint : Reader ℕ
read_varint = bind (read_full 1) λ buf. read_by_discriminant (get_or buf 0 0)

pub data BytesError : Type 0 where
  empty_data too_few_bytes noncanonical_bytes : BytesError

-- `data[1:1+n]` after the length check.
unfoldable pub wide_from_bytes : List ℕ → ℕ → ℕ → Outcome BytesError ℕ
wide_from_bytes bytes n low =
    let val = le_value (take n (drop 1 bytes)) in
    if ltb (length bytes) (n + 1)
    then err too_few_bytes
    else if ltb val low
    then err noncanonical_bytes
    else ok val

unfoldable pub read_varint_from_bytes : List ℕ → Outcome BytesError ℕ
unfolding wide_from_bytes
read_varint_from_bytes bytes =
    let d = get_or bytes 0 0 in
    if length bytes == 0
    then err empty_data
    else if d == 0xfd
    then wide_from_bytes bytes 2 0xfd
    else if d == 0xfe
    then wide_from_bytes bytes 4 0x1_0000
    else if d == 0xff
    then wide_from_bytes bytes 8 0x1_0000_0000
    else ok d
