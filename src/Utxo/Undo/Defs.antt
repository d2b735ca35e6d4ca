-- ===== src/Utxo/Undo/Defs.antt =====
-- `SerializeUndoData` and `DeserializeUndoData` (internal/utxo/utxo.go).
use fairchain.Base.{
  ℕ, zero, suc, ◌+◌, ◌*◌, ◌>>◌, List, [], ◌∷◌, ◌++◌, length, drop, slice, ltb, ◌==◌, if◌then◌else◌,
  Outcome, ok, err, panic, ◌>>=◌,
}
use fairchain.Base.Bytes.{put_le, le_value}
use fairchain.Types.Transaction.{OutPointFits}
use fairchain.Types.Reader.{put_all}
use fairchain.Types.Varint.{put_varint, varint_size, read_varint_from_bytes, BytesError}
use fairchain.Utxo.Entry.{
  UtxoEntry, EntryError, serialize_entry, deserialize_entry, shorter_than, max_alloc, EntryFits,
}
use fairchain.Utxo.Connect.{SpentOutput, BlockUndoData}

abbrev pub put_entry_behind_length : UtxoEntry → List ℕ
put_entry_behind_length e = put_varint (length (serialize_entry e)) ++ serialize_entry e

unfoldable pub serialize_spent : SpentOutput → List ℕ
serialize_spent so =
    so.out_point.hash ++ (put_le 4 so.out_point.index ++ put_entry_behind_length so.entry)

unfoldable pub serialize_undo : BlockUndoData → List ℕ
serialize_undo undo =
    put_varint (length undo.spent_outputs) ++ put_all serialize_spent undo.spent_outputs

pub data UndoError : Type 0 where
  undo_count entry_length : BytesError → UndoError
  undo_truncated undo_entry_truncated : UndoError
  bad_entry : EntryError → UndoError

-- `data[offset:offset+n]` and the new offset, after the check `offset+n > len(data)`: the sum is
-- taken modulo 2^64 and read as signed, and a slice that does not lie within the data panics.
abbrev pub entry_slice : List ℕ → ℕ → ℕ → Outcome UndoError (List ℕ × ℕ)
entry_slice bytes offset n =
    if shorter_than (length bytes) offset n
    then err undo_entry_truncated
    else if ltb (length bytes) (offset + n)
    then panic
    else ok (slice offset n bytes, offset + n)

abbrev pub lift_bytes : (BytesError → UndoError) → Outcome BytesError ℕ → Outcome UndoError ℕ
lift_bytes f (ok n) = ok n
lift_bytes f (err e) = err (f e)
lift_bytes f panic = panic

abbrev pub lift_entry : Outcome EntryError UtxoEntry → Outcome UndoError UtxoEntry
lift_entry (ok e) = ok e
lift_entry (err x) = err (bad_entry x)
lift_entry panic = panic

-- One round of the loop: the output, and the offset behind it.
unfoldable pub read_spent : List ℕ → ℕ → Outcome UndoError (SpentOutput × ℕ)
read_spent bytes offset = if ltb (length bytes) (offset + 36) then err undo_truncated else do
  entry_len ← lift_bytes entry_length (read_varint_from_bytes (drop (offset + 36) bytes))
  (part, next) ← entry_slice bytes (offset + 36 + varint_size entry_len) entry_len
  entry ← lift_entry (deserialize_entry part)
  ok (
    record {
      out_point = record {
        hash = slice offset 32 bytes;
        index = le_value (slice (offset + 32) 4 bytes);
      };
      entry = entry;
    },
    next,
  )

unfoldable pub read_spents : List ℕ → ℕ → ℕ → Outcome UndoError (List SpentOutput)
read_spents bytes offset zero = ok []
read_spents bytes offset (suc count) = elim (read_spent bytes offset) [
  | ok (so, next) ↦ read_spents bytes next count >>= λ sos. ok (so ∷ sos)
  | err e ↦ err e
  | panic ↦ panic
]

-- The size of a `SpentOutput` in memory, which `make` multiplies by the count.
abbrev pub spent_output_bytes : ℕ
spent_output_bytes = 80

unfoldable pub deserialize_undo : List ℕ → Outcome UndoError BlockUndoData
deserialize_undo bytes = if length bytes == 0 then ok (record { spent_outputs = [] }) else do
  count ← lift_bytes undo_count (read_varint_from_bytes bytes)
  if ltb max_alloc (count * spent_output_bytes) then panic else ok tt
  spent ← read_spents bytes (varint_size count) count
  ok (record { spent_outputs = spent })

pub record SpentFits (so : SpentOutput) : Type 0 where
  pub out_point : OutPointFits so.out_point
  pub entry : EntryFits so.entry
