-- ===== src/Utxo/Entry/Defs.antt =====
-- `UtxoEntry`, `Serialize`, `DeserializeUtxoEntry` and `OutpointKey` (internal/utxo/utxo.go).
use Prim.Native.Nat.{bit_and, bit_or}
use fairchain.Base.{
  ℕ, ◌+◌, ◌%◌, ◌^◌, ◌≤◌, Bool, false, not, List, [], ◌∷◌, ◌++◌, length, drop, get_or, slice, ltb,
  ◌==◌, if◌then◌else◌, Outcome, ok, err, panic,
}
use fairchain.Base.Bytes.{IsU32, IsU64, put_le, le_value}
use fairchain.Types.Hash.{Hash}
use fairchain.Types.Varint.{put_varint, varint_size, read_varint_from_bytes, BytesError}

pub record UtxoEntry : Type 0 where
  pub value : ℕ
  pub pk_script : List ℕ
  pub height : ℕ
  pub is_coinbase : Bool

-- `flags |= 0x01`
abbrev pub flags_of : Bool → ℕ
flags_of b = if b then bit_or 0 1 else 0

unfoldable pub serialize_entry : UtxoEntry → List ℕ
serialize_entry e =
    put_le 8 e.value
    ++ (put_le 4 e.height
        ++ (flags_of e.is_coinbase ∷ (put_varint (length e.pk_script) ++ e.pk_script)))

pub data EntryError : Type 0 where
  entry_too_short entry_truncated : EntryError
  script_length : BytesError → EntryError

-- The longest slice that `make` gives on a 64-bit machine; it panics above.
abbrev pub max_alloc : ℕ
max_alloc = 2 ^ 48

-- `have < vi + int(n)`, where `n` is a uint64: the sum is taken modulo 2^64 and read as signed.
unfoldable pub shorter_than : ℕ → ℕ → ℕ → Bool
shorter_than have vi n =
    let sum = (vi + n) % 2 ^ 64 in if ltb sum (2 ^ 63) then ltb have sum else false

-- `make([]byte, n)` and the copy of the script.
unfoldable pub copy_script : UtxoEntry → List ℕ → ℕ → Outcome EntryError UtxoEntry
copy_script e rest n =
    if shorter_than (length rest) (varint_size n) n
    then err entry_truncated
    else if ltb max_alloc n
    then panic
    else ok (record e { pk_script = slice (varint_size n) n rest })

unfoldable pub read_entry_script : UtxoEntry → List ℕ → Outcome EntryError UtxoEntry
unfolding copy_script
read_entry_script e rest = elim (read_varint_from_bytes rest) [
  | ok n ↦ copy_script e rest n
  | err x ↦ err (script_length x)
  | panic ↦ panic
]

unfoldable pub deserialize_entry : List ℕ → Outcome EntryError UtxoEntry
unfolding read_entry_script
deserialize_entry bytes =
    if ltb (length bytes) 13
    then err entry_too_short
    else read_entry_script
        (record {
          value = le_value (slice 0 8 bytes);
          pk_script = [];
          height = le_value (slice 8 4 bytes);
          is_coinbase = not (bit_and (get_or bytes 12 0) 1 == 0);
        })
        (drop 13 bytes)

unfoldable pub outpoint_key : Hash → ℕ → List ℕ
outpoint_key tx_hash index = tx_hash ++ put_le 4 index

pub record EntryFits (e : UtxoEntry) : Type 0 where
  pub value : IsU64 e.value
  pub height : IsU32 e.height
  pub short : length e.pk_script ≤ max_alloc
