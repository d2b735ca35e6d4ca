-- ===== src/Store/Record/Defs.antt =====
-- `Serialize` and `DeserializeDiskBlockIndex` (internal/store/blockindex.go), and the keys.
use fairchain.Base.{
  ℕ, ◌^◌, ◌<◌, List, ◌∷◌, ◌++◌, length, reverse, Option, none, some, ltb, if◌then◌else◌, Outcome,
  ok, err, panic,
}
use fairchain.Base.Bytes.{IsU32, put_le, le_value}
use fairchain.Types.Hash.{Hash}
use fairchain.Types.Block.{serialize_header, deserialize_header, HeaderFits}
use fairchain.Types.Reader.{Reader, ◌>>=◌, pure, read_le, read_full, ReadError, short_read}
use fairchain.Store.Index.{DiskBlockIndex}

-- The bytes of a `big.Int` at the end of `n` zeros, where they fit.
unfoldable pub put_big : ℕ → ℕ → List ℕ
put_big n v = reverse (put_le n v)

-- `SetBytes`
unfoldable pub big_value : List ℕ → ℕ
big_value bs = le_value (reverse bs)

-- The 32 bytes of the work. A work of more bytes makes `32-len(b)` negative, and the slice panics.
unfoldable pub work_bytes : Option ℕ → Outcome ReadError (List ℕ)
work_bytes none = ok (put_big 32 0)
work_bytes (some work) = if ltb work (2 ^ 256) then ok (put_big 32 work) else panic

-- The fields of four bytes.
unfoldable pub serialize_words : DiskBlockIndex → List ℕ
serialize_words d =
    put_le 4 d.height
    ++ (put_le 4 d.status
        ++ (put_le 4 d.tx_count
            ++ (put_le 4 d.file_num
                ++ (put_le 4 d.data_pos
                    ++ (put_le 4 d.data_size
                        ++ (put_le 4 d.undo_file
                            ++ (put_le 4 d.undo_pos ++ put_le 4 d.undo_size)))))))

unfoldable pub serialize_record : DiskBlockIndex → Outcome ReadError (List ℕ)
serialize_record d = elim (work_bytes d.chain_work) [
  | ok work ↦ ok (serialize_words d ++ (serialize_header d.header ++ work))
  | err e ↦ err e
  | panic ↦ panic
]

-- The record has its length when this starts, so that none of the reads is short, and the errors of
-- `binary.Read` that the code drops do not occur.
unfoldable pub read_record : Reader DiskBlockIndex
read_record = do
  height ← read_le 4
  status ← read_le 4
  tx_count ← read_le 4
  file_num ← read_le 4
  data_pos ← read_le 4
  data_size ← read_le 4
  undo_file ← read_le 4
  undo_pos ← read_le 4
  undo_size ← read_le 4
  header ← deserialize_header
  work ← read_full 32
  pure (record {
    header = header;
    height = height;
    status = status;
    tx_count = tx_count;
    file_num = file_num;
    data_pos = data_pos;
    data_size = data_size;
    undo_file = undo_file;
    undo_pos = undo_pos;
    undo_size = undo_size;
    chain_work = some (big_value work);
  })

unfoldable pub deserialize_record : List ℕ → Outcome ReadError DiskBlockIndex
deserialize_record bs =
    let read = read_record bs in
    if ltb (length bs) 148
    then err short_read
    else elim read [ ok (d, rest) ↦ ok d | err e ↦ err e | panic ↦ panic ]

-- `'b'`, then the hash
unfoldable pub block_index_key : Hash → List ℕ
block_index_key hash = 98 ∷ hash

-- `'f'`, then the number of the file
unfoldable pub file_info_key : ℕ → List ℕ
file_info_key file_num = 102 ∷ put_le 4 file_num

abbrev pub work_or_zero : Option ℕ → ℕ
work_or_zero none = 0
work_or_zero (some work) = work

-- What a record holds after it was stored: a work that was nil is zero.
abbrev pub stored : DiskBlockIndex → DiskBlockIndex
stored d = record d { chain_work = some (work_or_zero d.chain_work) }

-- Go's types hold exactly this, but for the bound of the work.
pub record RecordFits (d : DiskBlockIndex) : Type 0 where
  pub header : HeaderFits d.header
  pub height : IsU32 d.height
  pub status : IsU32 d.status
  pub tx_count : IsU32 d.tx_count
  pub file_num : IsU32 d.file_num
  pub data_pos : IsU32 d.data_pos
  pub data_size : IsU32 d.data_size
  pub undo_file : IsU32 d.undo_file
  pub undo_pos : IsU32 d.undo_pos
  pub undo_size : IsU32 d.undo_size
  pub chain_work : work_or_zero d.chain_work < 2 ^ 256
