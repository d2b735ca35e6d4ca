-- ===== src/Script/Machine.antt =====
-- The stack machine of internal/script/script.go. A stack is a list with the top first; the Go
-- slice holds it last. What is left of the script from `pos` on is the list `rest`.
use fairchain.Base.{
  ℕ, zero, suc, ◌+◌, ◌-◌, ◌*◌, Bool, true, false, ◌&&◌, not, List, [], ◌∷◌, Option, none, some,
  length, take, drop, get_or, ltb, leb, ◌==◌, if◌then◌else◌, Outcome, ok, err, panic, ◌>>=◌, ◌>>◌,
  fail_if,
}
use fairchain.Base.Bytes.{bytes_eq}
use fairchain.Types.Hash.{Hash}
use fairchain.Types.Transaction.{Transaction}
use fairchain.Crypto.Digest.{Sha256}
use fairchain.Crypto.Keys.{
  Ripemd160, hash160, compute_sig_hash, sig_hash_all, op_dup, op_hash160, op_equal_verify,
  op_check_sig, op_return, is_p2pkh_script,
}

-- The secp256k1 library: its parsers and its check of a signature.
pub record Curve (Signature PubKey : Type 0) : Type 0 where
  pub parse_der_signature : List ℕ → Option Signature
  pub parse_pub_key : List ℕ → Option PubKey
  pub verify_signature : Signature → Hash → PubKey → Bool

abbrev pub op_false : ℕ
op_false = 0x00

abbrev pub op_push_data1 : ℕ
op_push_data1 = 0x4c

abbrev pub op_push_data2 : ℕ
op_push_data2 = 0x4d

abbrev pub op_1 : ℕ
op_1 = 0x51

abbrev pub op_equal : ℕ
op_equal = 0x87

abbrev pub max_stack_size : ℕ
max_stack_size = 1000

abbrev pub max_engine_script_size : ℕ
max_engine_script_size = 10000

abbrev pub max_ops_per_script : ℕ
max_ops_per_script = 201

abbrev pub max_stack_elem_size : ℕ
max_stack_elem_size = 520

-- `out_of_fuel` is no error of the code: `Limits` shows that it does not come up.
pub data ScriptError : Type 0 where
  script_too_long too_many_ops script_too_short missing_length element_too_long : ScriptError
  stack_underflow values_not_equal unspendable unsupported_opcode stack_overflow : ScriptError
  empty_pk_script empty_stack evaluated_false unclean_stack out_of_fuel : ScriptError

abbrev pub Stack : Type 0
Stack = List (List ℕ)

-- What one round of the loop leaves: the script from `pos` on, the stack, and whether the round
-- comes to the test of the stack's size (`continue` does not).
pub record Round : Type 0 where
  pub rest : List ℕ
  pub stack : Stack
  pub sized : Bool

abbrev pub next_round : List ℕ → Stack → Outcome ScriptError Round
next_round rest stack = ok (record { rest = rest; stack = stack; sized = true })

-- `bs[i]`, which panics out of range.
unfoldable pub byte_at : List ℕ → ℕ → Outcome ScriptError ℕ
byte_at [] i = panic
byte_at (b ∷ bs) zero = ok b
byte_at (b ∷ bs) (suc i) = byte_at bs i

-- `bs[:n]` and `bs[n:]`, which panic where there are fewer bytes.
unfoldable pub cut : ℕ → List ℕ → Outcome ScriptError (List ℕ × List ℕ)
cut n bs = if ltb (length bs) n then panic else ok (take n bs, drop n bs)

-- `make`, `copy` of `script[pos:pos+n]`, `push` and `pos += n`
unfoldable pub push_bytes : ℕ → List ℕ → Stack → Outcome ScriptError Round
push_bytes n rest stack = do
  fail_if (ltb (length rest) n) script_too_short
  fail_if (ltb max_stack_elem_size n) element_too_long
  cut n rest >>= λ (element, left). next_round left (element ∷ stack)

unfoldable pub push_data1 : List ℕ → Stack → Outcome ScriptError Round
push_data1 rest stack = do
  fail_if (length rest == 0) missing_length
  n ← byte_at rest 0
  push_bytes n (drop 1 rest) stack

unfoldable pub push_data2 : List ℕ → Stack → Outcome ScriptError Round
push_data2 rest stack = do
  fail_if (ltb (length rest) 2) missing_length
  low ← byte_at rest 0
  high ← byte_at rest 1
  push_bytes (low + high * 256) (drop 2 rest) stack

-- What `OP_EQUAL` and `OP_CHECKSIG` push.
abbrev pub truth : Bool → List ℕ
truth b = if b then 1 ∷ [] else []

unfoldable pub op_dup_round : List ℕ → Stack → Outcome ScriptError Round
op_dup_round rest [] = err stack_underflow
op_dup_round rest (top ∷ stack) = next_round rest (top ∷ (top ∷ stack))

unfoldable pub op_equal_round : List ℕ → Stack → Outcome ScriptError Round
op_equal_round rest (b ∷ a ∷ stack) = next_round rest (truth (bytes_eq a b) ∷ stack)
op_equal_round rest (b ∷ []) = err stack_underflow
op_equal_round rest [] = err stack_underflow

unfoldable pub op_equal_verify_round : List ℕ → Stack → Outcome ScriptError Round
op_equal_verify_round rest (b ∷ a ∷ stack) =
    if bytes_eq a b then next_round rest stack else err values_not_equal
op_equal_verify_round rest (b ∷ []) = err stack_underflow
op_equal_verify_round rest [] = err stack_underflow

-- `numOps` after the opcode
abbrev pub count_op : ℕ → ℕ → ℕ
count_op op num_ops = if ltb op_push_data2 op then num_ops + 1 else num_ops

-- `isTrue`: CastToBool, with negative zero
unfoldable pub is_true : List ℕ → Bool
is_true [] = false
is_true (b ∷ bs) = if b == 0 then is_true bs else not (length bs == 0 && b == 0x80)

-- The three tests of the stack at the end of `Verify`.
unfoldable pub check_final : Stack → Outcome ScriptError (Unit {0})
check_final [] = err empty_stack
check_final (top ∷ stack) = do
  fail_if (not (is_true top)) evaluated_false
  fail_if (not (length stack == 0)) unclean_stack
  ok tt

module _ (sha : Sha256) (ripemd : Ripemd160) {Signature PubKey : Type 0}
    (curve : Curve Signature PubKey) where
  -- The end of `OP_CHECKSIG`: every branch but the first two ends the round with `continue`.
  unfoldable pub check_parsed :
      Option Signature → Option PubKey → Option Hash → List ℕ → Stack → Outcome ScriptError Round
  check_parsed (some sig) (some key) (some hash) rest stack =
      next_round rest (truth (curve.verify_signature sig hash key) ∷ stack)
  check_parsed none key hash rest stack =
      ok (record { rest = rest; stack = [] ∷ stack; sized = false })
  check_parsed (some sig) none hash rest stack =
      ok (record { rest = rest; stack = [] ∷ stack; sized = false })
  check_parsed (some sig) (some key) none rest stack =
      ok (record { rest = rest; stack = [] ∷ stack; sized = false })

  unfoldable pub op_check_sig_round :
      Transaction → ℕ → List ℕ → List ℕ → Stack → Outcome ScriptError Round
  op_check_sig_round tx input_idx pk_script rest (key_bytes ∷ sig_bytes ∷ stack) =
      let last = length sig_bytes - 1 in
      if ltb (length sig_bytes) 2
      then ok (record { rest = rest; stack = [] ∷ stack; sized = false })
      else byte_at sig_bytes last >>= λ hash_type.
          if not (hash_type == sig_hash_all)
          then ok (record { rest = rest; stack = [] ∷ stack; sized = false })
          else cut last sig_bytes >>= λ (der_sig, _).
              check_parsed (curve.parse_der_signature der_sig) (curve.parse_pub_key key_bytes)
                (compute_sig_hash sha tx input_idx pk_script) rest stack
  op_check_sig_round tx input_idx pk_script rest (key_bytes ∷ []) = err stack_underflow
  op_check_sig_round tx input_idx pk_script rest [] = err stack_underflow

  unfoldable pub op_hash160_round : List ℕ → Stack → Outcome ScriptError Round
  op_hash160_round rest [] = err stack_underflow
  op_hash160_round rest (top ∷ stack) = next_round rest (hash160 sha ripemd top ∷ stack)

  -- The `switch` of the loop.
  unfoldable pub step : Transaction → ℕ → List ℕ → ℕ → List ℕ → Stack → Outcome ScriptError Round
  step tx input_idx pk_script op rest stack =
      if op == op_false
      then next_round rest ([] ∷ stack)
      else if leb 0x01 op && leb op 0x4b
      then push_bytes op rest stack
      else if op == op_push_data1
      then push_data1 rest stack
      else if op == op_push_data2
      then push_data2 rest stack
      else if op == op_1
      then next_round rest ((1 ∷ []) ∷ stack)
      else if op == op_dup
      then op_dup_round rest stack
      else if op == op_hash160
      then op_hash160_round rest stack
      else if op == op_equal
      then op_equal_round rest stack
      else if op == op_equal_verify
      then op_equal_verify_round rest stack
      else if op == op_check_sig
      then op_check_sig_round tx input_idx pk_script rest stack
      else if op == op_return
      then err unspendable
      else err unsupported_opcode

  -- One round: the count of opcodes that push nothing, the `switch`, the stack's size.
  unfoldable pub round :
      Transaction → ℕ → List ℕ → ℕ → ℕ → List ℕ → Stack → Outcome ScriptError Round
  round tx input_idx pk_script num_ops op rest stack = do
    fail_if (ltb max_ops_per_script num_ops) too_many_ops
    r ← step tx input_idx pk_script op rest stack
    fail_if (r.sized && ltb max_stack_size (length r.stack)) stack_overflow
    ok r

  unfoldable pub run : ℕ → Transaction → ℕ → List ℕ → ℕ → List ℕ → Stack → Outcome ScriptError Stack
  run fuel tx input_idx pk_script num_ops [] stack = ok stack
  run zero tx input_idx pk_script num_ops (op ∷ rest) stack = err out_of_fuel
  run (suc fuel) tx input_idx pk_script num_ops (op ∷ rest) stack =
      round tx input_idx pk_script (count_op op num_ops) op rest stack >>= λ r.
      run fuel tx input_idx pk_script (count_op op num_ops) r.rest r.stack

  unfoldable pub execute : Transaction → ℕ → List ℕ → List ℕ → Stack → Outcome ScriptError Stack
  execute tx input_idx pk_script script stack = do
    fail_if (ltb max_engine_script_size (length script)) script_too_long
    run (length script) tx input_idx pk_script 0 script stack

  unfoldable pub verify : List ℕ → List ℕ → Transaction → ℕ → Outcome ScriptError (Unit {0})
  verify sig_script pk_script tx input_idx = do
    fail_if (length pk_script == 0) empty_pk_script
    first ← byte_at pk_script 0
    fail_if (first == op_return) unspendable
    after_sig ← execute tx input_idx pk_script sig_script []
    after_pk ← execute tx input_idx pk_script pk_script after_sig
    check_final after_pk

unfoldable pub is_standard_script : List ℕ → Bool
unfolding is_p2pkh_script
is_standard_script pk_script =
    if is_p2pkh_script pk_script
    then true
    else (ltb 0 (length pk_script) && get_or pk_script 0 0 == op_return)

unfoldable pub is_legacy_unvalidated_script : List ℕ → Bool
is_legacy_unvalidated_script pk_script = false
