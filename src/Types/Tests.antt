-- ===== src/Types/Tests.antt =====
-- Runs of the codecs, and their theorems at concrete inputs.
use fairchain.Base.{
  ℕ, ◌≡◌, refl, List, [], ◌∷◌, ◌++◌, length, replicate, All, ltb, leb, ok, err, arith,
}
use fairchain.Base.Bytes.{IsByte, put_le, le_value}
use fairchain.Types.Hash.{zero_hash, less, less_or_equal, less-le_value, less_or_equal-le_value}
use fairchain.Types.Varint.{put_varint, read_varint, read_by_discriminant, read_varint_from_bytes}
use fairchain.Types.Varint.Codec.{
  read_varint-put_varint, read_varint_from_bytes-read_varint, from_bytes, from_reader,
}
use fairchain.Types.Transaction.{
  Transaction, coinbase_out_point, serialize, serialize_size, deserialize, TransactionFits,
  deserialize_input, deserialize_output, read_script,
}
use fairchain.Types.Transaction.Codec.{deserialize-serialize, deserialize-canonical}
use fairchain.Types.Transaction.Size.{serialize_size-length}
use fairchain.Types.Block.{
  Block, serialize_block, deserialize_block, deserialize_header, header_of_buffer, BlockFits,
}
use fairchain.Types.Block.Codec.{deserialize_block-serialize_block, deserialize_block-canonical}
use fairchain.Types.Reader.{read_le, read_many, read_full, noncanonical}

abbrev one_hash : List ℕ
one_hash = 1 ∷ replicate 31 0

abbrev coinbase : Transaction
coinbase = record {
  version = 1;
  inputs =
      record {
        previous_out_point = coinbase_out_point;
        signature_script = 4 ∷ 7 ∷ 0 ∷ 0 ∷ 0 ∷ [];
        sequence = 0xffff_ffff;
      }
      ∷ [];
  outputs = record { value = 5000; pk_script = 0x51 ∷ [] } ∷ [];
  lock_time = 0;
}

abbrev pub block : Block
block = record {
  header = record {
    version = 1;
    prev_block = one_hash;
    merkle_root = zero_hash;
    timestamp = 1000;
    bits = 0x1d00_ffff;
    nonce = 3;
  };
  transactions = coinbase ∷ [];
}

put_515 : put_varint 515 ≡ 0xfd ∷ 3 ∷ 2 ∷ []
unfolding put_varint put_le
put_515 = refl

read_padded : read_varint (0xfd ∷ 3 ∷ 0 ∷ []) ≡ err noncanonical
unfolding read_varint read_by_discriminant read_full le_value
read_padded = refl

coinbase-TransactionFits : TransactionFits coinbase
coinbase-TransactionFits = omega arith

pub block-BlockFits : BlockFits block
block-BlockFits = omega arith

less-le_value_example : less zero_hash one_hash ≡ ltb (le_value zero_hash) (le_value one_hash)
less-le_value_example = less-le_value zero_hash one_hash (omega arith) (omega arith)

less_or_equal-le_value_example :
    less_or_equal one_hash zero_hash ≡ leb (le_value one_hash) (le_value zero_hash)
less_or_equal-le_value_example =
    less_or_equal-le_value one_hash zero_hash (omega arith) (omega arith)

read_varint-put_varint_example : read_varint (put_varint 515 ++ (9 ∷ [])) ≡ ok (515, 9 ∷ [])
read_varint-put_varint_example = read_varint-put_varint 515 (9 ∷ []) (omega arith)

read_515 : read_varint (0xfd ∷ 3 ∷ 2 ∷ 9 ∷ []) ≡ ok (515, 9 ∷ [])
unfolding read_varint read_by_discriminant read_full le_value
read_515 = refl

read_varint_from_bytes-read_varint_example :
    from_bytes (read_varint_from_bytes (0xfd ∷ 3 ∷ 2 ∷ []))
    ≡ from_reader (read_varint (0xfd ∷ 3 ∷ 2 ∷ []))
read_varint_from_bytes-read_varint_example = read_varint_from_bytes-read_varint (0xfd ∷ 3 ∷ 2 ∷ [])

deserialize-serialize_example : deserialize (serialize coinbase ++ (9 ∷ [])) ≡ ok (coinbase, 9 ∷ [])
deserialize-serialize_example = deserialize-serialize coinbase (9 ∷ []) coinbase-TransactionFits

abbrev coinbase_bytes : List ℕ
coinbase_bytes =
    (1 ∷ 0 ∷ 0 ∷ 0 ∷ 1 ∷ [])
    ++ (zero_hash
        ++ (replicate 4 255
            ++ ((5 ∷ 4 ∷ 7 ∷ 0 ∷ 0 ∷ 0 ∷ [])
                ++ (replicate 4 255
                    ++ (1 ∷ 0x88 ∷ 0x13 ∷ 0 ∷ 0 ∷ 0 ∷ 0 ∷ 0 ∷ 0 ∷ 1 ∷ 0x51 ∷ 0 ∷ 0 ∷ 0 ∷ 0 ∷ [])))))

coinbase_read : deserialize coinbase_bytes ≡ ok (coinbase, [])
unfolding deserialize deserialize_input deserialize_output read_script read_le read_many read_varint
    read_by_discriminant read_full le_value
coinbase_read = refl

deserialize-canonical_example :
    TransactionFits coinbase × (coinbase_bytes ≡ serialize coinbase ++ []) × All IsByte []
deserialize-canonical_example =
    deserialize-canonical coinbase_bytes coinbase [] (omega arith) coinbase_read

serialize_size-length_example : serialize_size coinbase ≡ length (serialize coinbase)
serialize_size-length_example = serialize_size-length coinbase coinbase-TransactionFits

deserialize_block-serialize_block_example :
    deserialize_block (serialize_block block ++ []) ≡ ok (block, [])
deserialize_block-serialize_block_example =
    deserialize_block-serialize_block block [] block-BlockFits

abbrev block_bytes : List ℕ
block_bytes =
    (1 ∷ 0 ∷ 0 ∷ 0 ∷ [])
    ++ (one_hash
        ++ (zero_hash
            ++ ((0xe8 ∷ 3 ∷ 0 ∷ 0 ∷ 0xff ∷ 0xff ∷ 0 ∷ 0x1d ∷ 3 ∷ 0 ∷ 0 ∷ 0 ∷ 1 ∷ [])
                ++ coinbase_bytes)))

block_read : deserialize_block block_bytes ≡ ok (block, [])
unfolding deserialize_block deserialize_header header_of_buffer deserialize deserialize_input
    deserialize_output read_script read_le read_many read_varint read_by_discriminant read_full
    le_value
block_read = refl

deserialize_block-canonical_example :
    BlockFits block × (block_bytes ≡ serialize_block block ++ []) × All IsByte []
deserialize_block-canonical_example =
    deserialize_block-canonical block_bytes block [] (omega arith) block_read
