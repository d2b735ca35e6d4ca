-- ===== src/Types/Transaction/Defs.antt =====
-- `OutPoint`, `TxInput`, `TxOutput`, `Transaction` and their methods
-- (internal/types/transaction.go). The writer is the byte slice of `SerializeToBytes`, whose
-- `Write` returns no error, so an encoder is the list of the bytes that it appends.
use fairchain.Base.{ℕ, ◌+◌, ◌≤◌, Bool, false, ◌&&◌, List, [], ◌∷◌, ◌++◌, length, All, ltb, ◌==◌}
use fairchain.Base.Bytes.{IsByte, IsU32, IsU64, put_le}
use fairchain.Types.Hash.{Hash, IsHash, zero_hash, is_zero}
use fairchain.Types.Reader.{
  Reader, ◌>>=◌, ◌>>◌, pure, reject_if, read_full, read_many, read_le, put_all, too_many_inputs,
  too_many_outputs, script_too_long,
}
use fairchain.Types.Varint.{put_varint, varint_size, read_varint}

pub record OutPoint : Type 0 where
  pub hash : Hash
  pub index : ℕ

abbrev pub coinbase_out_point : OutPoint
coinbase_out_point = record { hash = zero_hash; index = 0xffff_ffff }

pub record TxInput : Type 0 where
  pub previous_out_point : OutPoint
  pub signature_script : List ℕ
  pub sequence : ℕ

unfoldable pub input_is_coinbase : TxInput → Bool
unfolding is_zero
input_is_coinbase i = is_zero i.previous_out_point.hash && i.previous_out_point.index == 0xffff_ffff

pub record TxOutput : Type 0 where
  pub value : ℕ
  pub pk_script : List ℕ

pub record Transaction : Type 0 where
  pub version : ℕ
  pub inputs : List TxInput
  pub outputs : List TxOutput
  pub lock_time : ℕ

-- `len(tx.Inputs) == 1 && tx.Inputs[0].IsCoinbase()`
abbrev pub sole_input_is_coinbase : List TxInput → Bool
sole_input_is_coinbase [] = false
sole_input_is_coinbase (i ∷ []) = input_is_coinbase i
sole_input_is_coinbase (i ∷ j ∷ r) = false

unfoldable pub is_coinbase : Transaction → Bool
is_coinbase tx = sole_input_is_coinbase tx.inputs

abbrev pub max_tx_inputs : ℕ
max_tx_inputs = 10000

abbrev pub max_tx_outputs : ℕ
max_tx_outputs = 10000

abbrev pub max_script_size : ℕ
max_script_size = 10000

-- A script behind its length, as both kinds of script are written.
unfoldable pub put_script : List ℕ → List ℕ
put_script s = put_varint (length s) ++ s

unfoldable pub serialize_input : TxInput → List ℕ
serialize_input i =
    i.previous_out_point.hash
    ++ (put_le 4 i.previous_out_point.index
        ++ (put_script i.signature_script ++ put_le 4 i.sequence))

unfoldable pub serialize_output : TxOutput → List ℕ
serialize_output o = put_le 8 o.value ++ put_script o.pk_script

unfoldable pub serialize : Transaction → List ℕ
serialize tx =
    put_le 4 tx.version
    ++ (put_varint (length tx.inputs)
        ++ (put_all serialize_input tx.inputs
            ++ (put_varint (length tx.outputs)
                ++ (put_all serialize_output tx.outputs ++ put_le 4 tx.lock_time))))

unfoldable pub input_size : TxInput → ℕ
input_size i = 36 + varint_size (length i.signature_script) + length i.signature_script + 4

unfoldable pub output_size : TxOutput → ℕ
output_size o = 8 + varint_size (length o.pk_script) + length o.pk_script

-- `for i := range xs { n += xs[i].SerializeSize() }`
unfoldable pub add_sizes {ℓ} : {A : Type ℓ} → (A → ℕ) → List A → ℕ → ℕ
add_sizes size [] n = n
add_sizes size (a ∷ as') n = add_sizes size as' (n + size a)

unfoldable pub serialize_size : Transaction → ℕ
serialize_size tx =
    let n = add_sizes input_size tx.inputs (4 + varint_size (length tx.inputs)) in
    add_sizes output_size tx.outputs (n + varint_size (length tx.outputs)) + 4

unfoldable pub read_script : Reader (List ℕ)
read_script = do
  script_len ← read_varint
  reject_if (ltb max_script_size script_len) script_too_long
  read_full script_len

unfoldable pub deserialize_input : Reader TxInput
deserialize_input = do
  hash ← read_full 32
  index ← read_le 4
  signature_script ← read_script
  sequence ← read_le 4
  pure (record {
    previous_out_point = record { hash = hash; index = index };
    signature_script = signature_script;
    sequence = sequence;
  })

unfoldable pub deserialize_output : Reader TxOutput
deserialize_output = do
  value ← read_le 8
  pk_script ← read_script
  pure (record { value = value; pk_script = pk_script })

unfoldable pub deserialize : Reader Transaction
deserialize = do
  version ← read_le 4
  in_count ← read_varint
  reject_if (ltb max_tx_inputs in_count) too_many_inputs
  inputs ← read_many deserialize_input in_count
  out_count ← read_varint
  reject_if (ltb max_tx_outputs out_count) too_many_outputs
  outputs ← read_many deserialize_output out_count
  lock_time ← read_le 4
  pure (record { version = version; inputs = inputs; outputs = outputs; lock_time = lock_time })

-- What Go's types give, and the limits on what is read.
pub record ScriptFits (s : List ℕ) : Type 0 where
  pub short : length s ≤ max_script_size
  pub bytes : All IsByte s

pub record OutPointFits (o : OutPoint) : Type 0 where
  pub hash : IsHash o.hash
  pub index : IsU32 o.index

pub record InputFits (i : TxInput) : Type 0 where
  pub out_point : OutPointFits i.previous_out_point
  pub script : ScriptFits i.signature_script
  pub sequence : IsU32 i.sequence

pub record OutputFits (o : TxOutput) : Type 0 where
  pub value : IsU64 o.value
  pub script : ScriptFits o.pk_script

pub record TransactionFits (tx : Transaction) : Type 0 where
  pub version : IsU32 tx.version
  pub inputs : All InputFits tx.inputs
  pub outputs : All OutputFits tx.outputs
  pub lock_time : IsU32 tx.lock_time
  pub few_inputs : length tx.inputs ≤ max_tx_inputs
  pub few_outputs : length tx.outputs ≤ max_tx_outputs
