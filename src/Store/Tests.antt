-- ===== src/Store/Tests.antt =====
-- Records of the index at concrete values.
use fairchain.Base.{
  ℕ, ◌^◌, ◌≡◌, refl, List, [], ◌∷◌, ◌++◌, length, Option, none, some, ok, err, panic, replicate,
  arith,
}
use fairchain.Base.Bytes.{le_value}
use fairchain.Types.Hash.{zero_hash}
use fairchain.Types.Reader.{read_le, read_full, short_read}
use fairchain.Types.Block.{BlockHeader, deserialize_header, header_of_buffer}
use fairchain.Store.Index.{DiskBlockIndex}
use fairchain.Store.Record.{
  big_value, work_bytes, serialize_record, read_record, deserialize_record, stored, RecordFits,
}
use fairchain.Store.Record.Codec.{deserialize_record-serialize_record, deserialize_record-canonical}

abbrev header : BlockHeader
header = record {
  version = 1;
  prev_block = zero_hash;
  merkle_root = replicate 32 7;
  timestamp = 1000;
  bits = 0x207fffff;
  nonce = 3;
}

abbrev record_at : Option ℕ → DiskBlockIndex
record_at work = record {
  header = header;
  height = 2;
  status = 61;
  tx_count = 1;
  file_num = 0;
  data_pos = 600;
  data_size = 200;
  undo_file = 0;
  undo_pos = 90;
  undo_size = 258;
  chain_work = work;
}

record_at-RecordFits : RecordFits (record_at none)
record_at-RecordFits = record {
  header = record {
    version = omega arith;
    prev_block = omega arith;
    merkle_root = omega arith;
    timestamp = omega arith;
    bits = omega arith;
    nonce = omega arith;
  };
  height = omega arith;
  status = omega arith;
  tx_count = omega arith;
  file_num = omega arith;
  data_pos = omega arith;
  data_size = omega arith;
  undo_file = omega arith;
  undo_pos = omega arith;
  undo_size = omega arith;
  chain_work = omega arith;
}

-- A work of 33 bytes panics, and a short record is refused.
too_much_work : serialize_record (record_at (some (2 ^ 256))) ≡ panic
unfolding serialize_record work_bytes
too_much_work = refl

too_short : deserialize_record (replicate 147 0) ≡ err short_read
unfolding deserialize_record
too_short = refl

deserialize_record-serialize_record_example :
    (bs : List ℕ) × (serialize_record (record_at none) ≡ ok bs)
    × (length bs ≡ 148)
    × (deserialize_record (bs ++ (9 ∷ [])) ≡ ok (stored (record_at none)))
deserialize_record-serialize_record_example =
    deserialize_record-serialize_record (record_at none) (9 ∷ []) record_at-RecordFits

abbrev record_bytes : List ℕ
record_bytes =
    (2 ∷ 0 ∷ 0 ∷ 0 ∷ 61 ∷ 0 ∷ 0 ∷ 0 ∷ 1 ∷ 0 ∷ 0 ∷ 0 ∷ 0 ∷ 0 ∷ 0 ∷ 0 ∷ 88 ∷ 2 ∷ 0 ∷ 0 ∷ 200 ∷ 0 ∷ [])
    ++ ((0 ∷ 0 ∷ 0 ∷ 0 ∷ 0 ∷ 0 ∷ 90 ∷ 0 ∷ 0 ∷ 0 ∷ 2 ∷ 1 ∷ 0 ∷ 0 ∷ 1 ∷ 0 ∷ 0 ∷ 0 ∷ [])
        ++ (zero_hash
            ++ (replicate 32 7
                ++ ((0xe8 ∷ 3 ∷ 0 ∷ 0 ∷ 0xff ∷ 0xff ∷ 0x7f ∷ 0x20 ∷ 3 ∷ 0 ∷ 0 ∷ 0 ∷ [])
                    ++ (replicate 31 0 ++ (6 ∷ []))))))

record_read : deserialize_record record_bytes ≡ ok (record_at (some 6))
unfolding deserialize_record read_record deserialize_header header_of_buffer read_le read_full
    le_value big_value
record_read = refl

deserialize_record-canonical_example :
    RecordFits (record_at (some 6))
    × (front : List ℕ) × (rest : List ℕ) × (serialize_record (record_at (some 6)) ≡ ok front)
    × (record_bytes ≡ front ++ rest)
deserialize_record-canonical_example =
    deserialize_record-canonical record_bytes (record_at (some 6)) (omega arith) record_read
