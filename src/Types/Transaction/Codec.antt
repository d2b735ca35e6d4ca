-- ===== src/Types/Transaction/Codec.antt =====
-- Transactions are a codec: decoding inverts encoding, and a transaction has one encoding only.
use mathlib.Core.List.{append_assoc}
use fairchain.Base.{
  ℕ, ◌≤◌, ◌≡◌, refl, ◌∙◌, List, ◌++◌, length, All, ok, ok-eq, arith, ltb, false, le→ltb,
}
use fairchain.Base.Bytes.{IsByte}
use fairchain.Types.Reader.{
  IsCodec, read_many, reject_if-reads, >>=-ok, read_full-append, read_full-reads, read_full-All,
  many-step, step-reads, step-canonical, many-reads, le-IsCodec, array-IsCodec, reject_if-ok,
}
use fairchain.Types.Varint.{put_varint}
use fairchain.Types.Varint.Codec.{varint-IsCodec}
use fairchain.Types.Transaction.Defs.{
  TxInput, TxOutput, Transaction, serialize_input, serialize_output, serialize, put_script,
  read_script, deserialize_input, deserialize_output, deserialize, ScriptFits, InputFits,
  OutputFits, TransactionFits, max_script_size, max_tx_inputs, max_tx_outputs,
}

script-reads : (s rest : List ℕ) → ScriptFits s → read_script (put_script s ++ rest) ≡ ok (s, rest)
unfolding read_script put_script
script-reads s rest v = rw (append_assoc (put_varint (length s)) s rest) (
    step-reads varint-IsCodec _ (length s) (s ++ rest) (omega (arith, v.short))
    ∙ reject_if-ok (ltb max_script_size (length s)) _ _ (s ++ rest) (le→ltb _ _ v.short)
    ∙ read_full-append (length s) s rest refl)

script-canonical :
    (bs s rest : List ℕ)
    → All IsByte bs
    → read_script bs ≡ ok (s, rest)
    → ScriptFits s × (bs ≡ put_script s ++ rest) × All IsByte rest
unfolding read_script put_script
script-canonical bs s rest vb h = step-canonical varint-IsCodec _ bs vb h λ n mid vn split vm k.
    let (short, r) = reject_if-reads (ltb max_script_size n) _ _ mid k in
    let (len, split') = read_full-reads n mid s rest r in
    let (vs, vr) = read_full-All n mid s rest r vm in
    let short' : length s ≤ max_script_size = ground (arith, len, short) in
    (record { short = short'; bytes = vs }, simp (split, split', len, append_assoc), vr)

pub script-IsCodec : IsCodec put_script read_script ScriptFits
script-IsCodec = record { reads = script-reads; canonical = script-canonical }

input-reads :
    (i : TxInput) (rest : List ℕ)
    → InputFits i
    → deserialize_input (serialize_input i ++ rest) ≡ ok (i, rest)
unfolding deserialize_input serialize_input
input-reads i rest v = simp append_assoc (
    step-reads (array-IsCodec 32) _ i.previous_out_point.hash _ v.out_point.hash
    ∙ step-reads (le-IsCodec 4) _ i.previous_out_point.index _ (omega arith)
    ∙ step-reads script-IsCodec _ i.signature_script _ v.script
    ∙ step-reads (le-IsCodec 4) _ i.sequence rest (omega arith))

input-canonical :
    (bs : List ℕ) (i : TxInput) (rest : List ℕ)
    → All IsByte bs
    → deserialize_input bs ≡ ok (i, rest)
    → InputFits i × (bs ≡ serialize_input i ++ rest) × All IsByte rest
unfolding deserialize_input serialize_input
input-canonical bs i rest vb h = step-canonical (array-IsCodec 32) _ bs vb h λ hash bs1 v1 e1 b1 k1.
    step-canonical (le-IsCodec 4) _ bs1 b1 k1 λ index bs2 v2 e2 b2 k2.
      step-canonical script-IsCodec _ bs2 b2 k2 λ script bs3 v3 e3 b3 k3.
        step-canonical (le-IsCodec 4) _ bs3 b3 k3 λ sequence bs4 v4 e4 b4 k4.
          let (ei, er) = ok-eq k4 in
          rw (← ei, ← er)
            (
              record {
                out_point = record { hash = v1; index = omega arith };
                script = v3;
                sequence = omega arith;
              },
              simp (e1, e2, e3, e4, append_assoc),
              b4,
            )

pub input-IsCodec : IsCodec serialize_input deserialize_input InputFits
input-IsCodec = record { reads = input-reads; canonical = input-canonical }

output-reads :
    (o : TxOutput) (rest : List ℕ)
    → OutputFits o
    → deserialize_output (serialize_output o ++ rest) ≡ ok (o, rest)
unfolding deserialize_output serialize_output
output-reads o rest v = simp append_assoc (
    step-reads (le-IsCodec 8) _ o.value _ (omega arith)
    ∙ step-reads script-IsCodec _ o.pk_script rest v.script)

output-canonical :
    (bs : List ℕ) (o : TxOutput) (rest : List ℕ)
    → All IsByte bs
    → deserialize_output bs ≡ ok (o, rest)
    → OutputFits o × (bs ≡ serialize_output o ++ rest) × All IsByte rest
unfolding deserialize_output serialize_output
output-canonical bs o rest vb h = step-canonical (le-IsCodec 8) _ bs vb h λ value bs1 v1 e1 b1 k1.
    step-canonical script-IsCodec _ bs1 b1 k1 λ script bs2 v2 e2 b2 k2.
      let (eo, er) = ok-eq k2 in
      rw (← eo, ← er) (record { value = omega arith; script = v2 }, simp (e1, e2, append_assoc), b2)

pub output-IsCodec : IsCodec serialize_output deserialize_output OutputFits
output-IsCodec = record { reads = output-reads; canonical = output-canonical }

-- A well-formed transaction, encoded and followed by any bytes, is decoded to itself, with those
-- bytes left to read.
pub deserialize-serialize :
    (tx : Transaction) (rest : List ℕ)
    → TransactionFits tx
    → deserialize (serialize tx ++ rest) ≡ ok (tx, rest)
unfolding deserialize serialize
deserialize-serialize tx rest v = simp append_assoc (
    step-reads (le-IsCodec 4) _ tx.version _ (omega arith)
    ∙ step-reads varint-IsCodec _ (length tx.inputs) _ (omega (arith, v.few_inputs))
    ∙ reject_if-ok (ltb max_tx_inputs (length tx.inputs)) _ _ _ (le→ltb _ _ v.few_inputs)
    ∙ >>=-ok (read_many deserialize_input (length tx.inputs)) _
        (many-reads input-IsCodec tx.inputs _ v.inputs)
    ∙ step-reads varint-IsCodec _ (length tx.outputs) _ (omega (arith, v.few_outputs))
    ∙ reject_if-ok (ltb max_tx_outputs (length tx.outputs)) _ _ _ (le→ltb _ _ v.few_outputs)
    ∙ >>=-ok (read_many deserialize_output (length tx.outputs)) _
        (many-reads output-IsCodec tx.outputs _ v.outputs)
    ∙ step-reads (le-IsCodec 4) _ tx.lock_time rest (omega arith))

within : (max n len : ℕ) → ltb max n ≡ false → len ≡ n → len ≤ max
within max n len small e = ground arith

-- A transaction has one encoding: bytes that `Deserialize` accepts give a well-formed transaction,
-- and are its encoding followed by what is left to read.
pub deserialize-canonical :
    (bs : List ℕ) (tx : Transaction) (rest : List ℕ)
    → All IsByte bs
    → deserialize bs ≡ ok (tx, rest)
    → TransactionFits tx × (bs ≡ serialize tx ++ rest) × All IsByte rest
unfolding deserialize serialize
deserialize-canonical bs tx rest vb h =
    step-canonical (le-IsCodec 4) _ bs vb h λ version bs1 v1 e1 b1 k1.
      step-canonical varint-IsCodec _ bs1 b1 k1 λ in_count bs2 v2 e2 b2 k2.
        let (few_in, k3) = reject_if-reads (ltb max_tx_inputs in_count) _ _ bs2 k2 in
        many-step input-IsCodec in_count _ bs2 b2 k3 λ inputs bs4 v4 len4 e4 b4 k4.
          step-canonical varint-IsCodec _ bs4 b4 k4 λ out_count bs5 v5 e5 b5 k5.
            let (few_out, k6) = reject_if-reads (ltb max_tx_outputs out_count) _ _ bs5 k5 in
            many-step output-IsCodec out_count _ bs5 b5 k6 λ outputs bs7 v7 len7 e7 b7 k7.
              step-canonical (le-IsCodec 4) _ bs7 b7 k7 λ lock_time bs8 v8 e8 b8 k8.
                let (et, er) = ok-eq k8 in
                rw (← et, ← er)
                  (
                    record {
                      version = omega arith;
                      inputs = v4;
                      outputs = v7;
                      lock_time = omega arith;
                      few_inputs = within max_tx_inputs in_count (length inputs) few_in len4;
                      few_outputs = within max_tx_outputs out_count (length outputs) few_out len7;
                    },
                    simp (e1, e2, e4, e5, e7, e8, len4, len7, append_assoc),
                    b8,
                  )

pub transaction-IsCodec : IsCodec serialize deserialize TransactionFits
transaction-IsCodec = record { reads = deserialize-serialize; canonical = deserialize-canonical }
