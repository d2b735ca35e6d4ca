-- ===== src/Script/Limits.antt =====
-- What `execute` (internal/script/script.go) keeps to: it ends, its stack holds at most 1,000
-- elements, and no element is longer than 520 bytes.
use fairchain.Base.{
  ℕ, zero, suc, ◌-◌, ◌≤◌, ◌≡◌, refl, arith, Bool, true, false, ◌&&◌, List, [], ◌∷◌, Option, none,
  some, length, take, get_or, All, ltb, leb, ◌==◌, ok, ◌>>◌, fail_if, inl, inr, Bool-cases,
}
use fairchain.Types.Hash.{Hash}
use fairchain.Types.Transaction.{Transaction}
use fairchain.Crypto.Digest.{Sha256}
use fairchain.Crypto.Keys.{
  Ripemd160, hash160, compute_sig_hash, sig_hash_all, op_dup, op_hash160, op_equal_verify,
  op_check_sig, op_return,
}
use fairchain.Script.Machine.{
  Curve, stack_overflow, Stack, Round, op_false, op_push_data1, op_push_data2, op_1, op_equal,
  max_stack_size, max_engine_script_size, max_ops_per_script, check_parsed, op_check_sig_round,
  op_hash160_round, step, round, count_op, run, execute,
}
use fairchain.Script.Ends.{
  byte_at-get_or, cut-take, IsSmall, IsBounded, Ends, Ends-bind, Ends-bind_cong, Fair,
  push_bytes-Ends, push_data1-Ends, push_data2-Ends, truth-IsSmall, op_dup-Ends, op_equal-Ends,
  op_equal_verify-Ends,
}

module _ (sha : Sha256) (ripemd : Ripemd160) {Signature PubKey : Type 0}
    (curve : Curve Signature PubKey) where
  op_hash160-Ends :
      (rest : List ℕ) (stack : Stack)
      → All IsSmall stack
      → Ends (Fair rest stack) (op_hash160_round sha ripemd curve rest stack)
  unfolding op_hash160_round hash160
  op_hash160-Ends rest [] small = λ e. cc e
  op_hash160-Ends rest (top ∷ stack) small =
      (omega arith, (omega (arith, ripemd.length-sum160 (sha.sum256 top)), small.1), λ e. cc e)

  -- Two elements are taken and one is pushed, on every branch.
  check_parsed-Ends :
      (sig : Option Signature) (key : Option PubKey) (hash : Option Hash) (rest : List ℕ)
      (stack : Stack) (a b : List ℕ)
      → All IsSmall stack
      → Ends (Fair rest (a ∷ (b ∷ stack))) (check_parsed sha ripemd curve sig key hash rest stack)
  unfolding check_parsed
  check_parsed-Ends (some sig) (some key) (some hash) rest stack a b small =
      (omega arith, (truth-IsSmall (curve.verify_signature sig hash key), small), λ e. cc e)
  check_parsed-Ends none key hash rest stack a b small =
      (omega arith, (omega arith, small), λ e. omega arith)
  check_parsed-Ends (some sig) none hash rest stack a b small =
      (omega arith, (omega arith, small), λ e. omega arith)
  check_parsed-Ends (some sig) (some key) none rest stack a b small =
      (omega arith, (omega arith, small), λ e. omega arith)

  module _ (tx : Transaction) (input_idx : ℕ) (pk_script : List ℕ) where
    op_check_sig-Ends :
        (rest : List ℕ) (stack : Stack)
        → All IsSmall stack
        → Ends
            (Fair rest stack)
            (op_check_sig_round sha ripemd curve tx input_idx pk_script rest stack)
    unfolding op_check_sig_round
    op_check_sig-Ends rest [] small = λ e. cc e
    op_check_sig-Ends rest (key ∷ []) small = λ e. cc e
    op_check_sig-Ends rest (key ∷ sig ∷ stack) small =
        let last = length sig - 1 in
        elim (Bool-cases (ltb (length sig) 2)) [
          | inl short ↦ rw short (omega arith, (omega arith, small.1.1), λ e. omega arith)
          | inr long ↦ elim (Bool-cases (get_or sig (length sig - 1) 0 == sig_hash_all)) [
            | inl all ↦
                rw
                  (
                    long,
                    byte_at-get_or sig (length sig - 1) (ground arith),
                    all,
                    cut-take (length sig - 1) sig (omega arith),
                  )
                  (check_parsed-Ends (curve.parse_der_signature (take (length sig - 1) sig))
                    (curve.parse_pub_key key) (compute_sig_hash sha tx input_idx pk_script) rest
                    stack key sig small.1.1)
            | inr other ↦
                rw (long, byte_at-get_or sig (length sig - 1) (ground arith), other)
                  (omega arith, (omega arith, small.1.1), λ e. omega arith)
          ]
        ]

    step-Ends :
        (op : ℕ) (rest : List ℕ) (stack : Stack)
        → All IsSmall stack
        → Ends (Fair rest stack) (step sha ripemd curve tx input_idx pk_script op rest stack)
    unfolding step
    step-Ends op rest stack small = elim (Bool-cases (op == op_false)) [
      | inl t ↦ rw t (omega arith, (omega arith, small), λ e. cc e)
      | inr f0 ↦ rw f0 (elim (Bool-cases (leb 1 op && leb op 0x4b)) [
        | inl t ↦ rw t (push_bytes-Ends op rest stack small)
        | inr f1 ↦ rw f1 (elim (Bool-cases (op == op_push_data1)) [
          | inl t ↦ rw t (push_data1-Ends rest stack small)
          | inr f2 ↦ rw f2 (elim (Bool-cases (op == op_push_data2)) [
            | inl t ↦ rw t (push_data2-Ends rest stack small)
            | inr f3 ↦ rw f3 (elim (Bool-cases (op == op_1)) [
              | inl t ↦ rw t (omega arith, (omega arith, small), λ e. cc e)
              | inr f4 ↦ rw f4 (elim (Bool-cases (op == op_dup)) [
                | inl t ↦ rw t (op_dup-Ends rest stack small)
                | inr f5 ↦ rw f5 (elim (Bool-cases (op == op_hash160)) [
                  | inl t ↦ rw t (op_hash160-Ends rest stack small)
                  | inr f6 ↦ rw f6 (elim (Bool-cases (op == op_equal)) [
                    | inl t ↦ rw t (op_equal-Ends rest stack small)
                    | inr f7 ↦ rw f7 (elim (Bool-cases (op == op_equal_verify)) [
                      | inl t ↦ rw t (op_equal_verify-Ends rest stack small)
                      | inr f8 ↦ rw f8 (elim (Bool-cases (op == op_check_sig)) [
                        | inl t ↦ rw t (op_check_sig-Ends rest stack small)
                        | inr f9 ↦ rw f9 (elim (Bool-cases (op == op_return)) [
                          | inl t ↦ rw t (λ e. cc e)
                          | inr f10 ↦ rw f10 (λ e. cc e)
                        ])
                      ])
                    ])
                  ])
                ])
              ])
            ])
          ])
        ])
      ])
    ]

    sized-Ends :
        (rest left : List ℕ) (stack items : Stack) (sized : Bool)
        → length stack ≤ max_stack_size
        → (length left ≤ length rest)
        → All IsSmall items
        → (sized ≡ false → length items ≤ length stack)
        → Ends
            (λ (t : Round). (length t.rest ≤ length rest) × IsBounded t.stack)
            (fail_if (sized && ltb max_stack_size (length items)) stack_overflow
              >> ok (record { rest = left; stack = items; sized = sized }))
    sized-Ends rest left stack items true few short small h =
        elim (Bool-cases (ltb max_stack_size (length items))) [
          | inl over ↦ rw over (λ e. cc e)
          | inr fits ↦ rw fits (short, (ground arith, small))
        ]
    sized-Ends rest left stack items false few short small h =
        (short, (omega (arith, h refl), small))

    round-Ends :
        (num_ops op : ℕ) (rest : List ℕ) (stack : Stack)
        → IsBounded stack
        → Ends
            (λ (t : Round). (length t.rest ≤ length rest) × IsBounded t.stack)
            (round sha ripemd curve tx input_idx pk_script num_ops op rest stack)
    unfolding round
    round-Ends num_ops op rest stack (few, small) =
        elim (Bool-cases (ltb max_ops_per_script num_ops)) [
          | inl many ↦ rw many (λ e. cc e)
          | inr ops ↦ rw ops (
              Ends-bind (Fair rest stack)
                (λ (t : Round). (length t.rest ≤ length rest) × IsBounded t.stack)
                (step sha ripemd curve tx input_idx pk_script op rest stack) _
                (step-Ends op rest stack small)
                (λ r (short, still, sized).
                  sized-Ends rest r.rest stack r.stack r.sized few short still sized))
        ]

    run-Ends :
        (fuel num_ops : ℕ) (rest : List ℕ) (stack : Stack)
        → length rest ≤ fuel
        → IsBounded stack
        → Ends IsBounded (run sha ripemd curve fuel tx input_idx pk_script num_ops rest stack)
    unfolding run
    run-Ends fuel num_ops [] stack enough bounded = bounded
    run-Ends zero num_ops (op ∷ rest) stack enough bounded = absurd (omega arith)
    run-Ends (suc fuel) num_ops (op ∷ rest) stack enough bounded =
        Ends-bind (λ (t : Round). (length t.rest ≤ length rest) × IsBounded t.stack) IsBounded
          (round sha ripemd curve tx input_idx pk_script (count_op op num_ops) op rest stack) _
          (round-Ends (count_op op num_ops) op rest stack bounded)
          (λ r (less, still).
            run-Ends fuel (count_op op num_ops) r.rest r.stack (omega arith) still)

    -- The fuel does not matter, once it is the length of the script.
    pub run-fuel :
        (fuel more num_ops : ℕ) (rest : List ℕ) (stack : Stack)
        → length rest ≤ fuel
        → length rest ≤ more
        → IsBounded stack
        → run sha ripemd curve fuel tx input_idx pk_script num_ops rest stack
          ≡ run sha ripemd curve more tx input_idx pk_script num_ops rest stack
    unfolding run
    run-fuel fuel more num_ops [] stack h k bounded = refl
    run-fuel zero more num_ops (op ∷ rest) stack h k bounded = absurd (omega arith)
    run-fuel (suc fuel) zero num_ops (op ∷ rest) stack h k bounded = absurd (omega arith)
    run-fuel (suc fuel) (suc more) num_ops (op ∷ rest) stack h k bounded =
        Ends-bind_cong (λ (t : Round). (length t.rest ≤ length rest) × IsBounded t.stack)
          (round sha ripemd curve tx input_idx pk_script (count_op op num_ops) op rest stack) _ _
          (round-Ends (count_op op num_ops) op rest stack bounded)
          (λ r (less, still).
            run-fuel fuel more (count_op op num_ops) r.rest r.stack (omega arith) (omega arith)
              still)

    -- `execute` ends on every script: it never indexes or slices the script or a signature out of
    -- range, it never runs out of the fuel that the model gives it, and where it succeeds from a
    -- stack of at most 1,000 elements of at most 520 bytes each, it leaves such a stack.
    pub execute-Ends :
        (script : List ℕ) (stack : Stack)
        → IsBounded stack
        → Ends IsBounded (execute sha ripemd curve tx input_idx pk_script script stack)
    unfolding execute
    execute-Ends script stack bounded =
        elim (Bool-cases (ltb max_engine_script_size (length script))) [
          | inl long ↦ rw long (λ e. cc e)
          | inr fits ↦ rw fits (run-Ends (length script) 0 script stack (omega arith) bounded)
        ]
