-- ===== src/Types/Transaction/Size.antt =====
-- `SerializeSize` is the length of the encoding.
use fairchain.Base.{ℕ, ◌+◌, ◌≡◌, List, [], ◌∷◌, length, All, arith, length-append}
use fairchain.Base.Bytes.{length-put_le}
use fairchain.Types.Reader.{put_all}
use fairchain.Types.Varint.{varint_size}
use fairchain.Types.Varint.Codec.{length-put_varint}
use fairchain.Types.Transaction.Defs.{
  TxInput, TxOutput, Transaction, serialize_input, serialize_output, serialize, put_script,
  input_size, output_size, add_sizes, serialize_size, InputFits, TransactionFits,
}

length-serialize_input : (i : TxInput) → InputFits i → length (serialize_input i) ≡ input_size i
unfolding serialize_input put_script input_size
length-serialize_input i v =
    simp (length-append, length-put_le, length-put_varint) (omega (arith, v.out_point.hash.0))

length-serialize_output : (o : TxOutput) → length (serialize_output o) ≡ output_size o
unfolding serialize_output put_script output_size
length-serialize_output o = simp (length-append, length-put_le, length-put_varint) (omega arith)

module _ {A : Type 0} (P : A → Type 0) (put : A → List ℕ) (size : A → ℕ)
    (sized : (a : A) → P a → length (put a) ≡ size a) where
  add_sizes-length :
      (xs : List A) (n : ℕ) → All P xs → add_sizes size xs n ≡ n + length (put_all put xs)
  unfolding add_sizes put_all
  add_sizes-length [] n v = omega arith
  add_sizes-length (a ∷ xs) n v =
      rw (length-append (put a) (put_all put xs))
        (omega (arith, add_sizes-length xs (n + size a) v.1, sized a v.0))

All-any : (xs : List TxOutput) → All (λ _. Unit {0}) xs
All-any [] = tt
All-any (x ∷ xs) = (tt, All-any xs)

-- The capacity that `SerializeToBytes` reserves, and the size that the mempool divides a fee by,
-- is the length of the encoding of a well-formed transaction.
pub serialize_size-length :
    (tx : Transaction) → TransactionFits tx → serialize_size tx ≡ length (serialize tx)
unfolding serialize_size serialize
serialize_size-length tx v =
    simp (length-append, length-put_le, length-put_varint)
      (omega (
        arith,
        add_sizes-length InputFits serialize_input input_size length-serialize_input tx.inputs
            (4 + varint_size (length tx.inputs)) v.inputs,
        add_sizes-length (λ _. Unit {0}) serialize_output output_size
            (λ o _. length-serialize_output o) tx.outputs
            (add_sizes input_size tx.inputs (4 + varint_size (length tx.inputs))
              + varint_size (length tx.outputs))
            (All-any tx.outputs),
      ))
