-- ===== src/Script/P2pkh.antt =====
-- What `Verify` (internal/script/script.go) decides on the scripts that
-- internal/crypto/keys.go builds.
use mathlib.Core.Path.{subst}
use fairchain.Base.{
  ℕ, suc, ◌+◌, ◌-◌, ◌%◌, ◌≤◌, ◌≡◌, ◌∙◌, refl, arith, Bool, true, false, ◌&&◌, List, [], ◌∷◌, ◌++◌,
  Option, none, some, length, take, get_or, length-append, ltb, leb, ◌==◌, if◌then◌else◌, ok, err,
  inl, inr, Bool-cases,
}
use fairchain.Base.Bytes.{bytes_eq}
use fairchain.Types.Hash.{Hash}
use fairchain.Types.Transaction.{Transaction}
use fairchain.Crypto.Digest.{Sha256}
use fairchain.Crypto.Keys.{
  Ripemd160, hash160, compute_sig_hash, make_p2pkh_script, make_p2pkh_signature_script,
  sig_hash_all, op_dup, op_hash160, op_equal_verify, op_check_sig,
}
use fairchain.Script.Machine.{
  Curve, byte_at, next_round, evaluated_false, values_not_equal, truth, op_dup_round,
  op_equal_verify_round, op_hash160_round, check_parsed, op_check_sig_round, step, round, run,
  execute, check_final, is_true, verify,
}
use fairchain.Script.Ends.{byte_at-get_or, cut-take}
use fairchain.Script.Push.{append_nil, run-push, run-round, run-end}

length-p2pkh : (hash : List ℕ) → length (make_p2pkh_script hash) ≡ length hash + 5
unfolding make_p2pkh_script
length-p2pkh hash = omega (arith, length-append {0} hash (op_equal_verify ∷ (op_check_sig ∷ [])))

nonempty : (hash : List ℕ) → (length (make_p2pkh_script hash) == 0) ≡ false
nonempty hash = ground (arith, length-p2pkh hash)

first_byte : (hash : List ℕ) → byte_at (make_p2pkh_script hash) 0 ≡ ok op_dup
unfolding make_p2pkh_script byte_at
first_byte hash = refl

module _ (sha : Sha256) (ripemd : Ripemd160) {Signature PubKey : Type 0}
    (curve : Curve Signature PubKey) (tx : Transaction) (input_idx : ℕ) where
  -- The signature ends in SIGHASH_ALL, what stands before that byte and the key both parse, the
  -- index is one of the inputs, and the library accepts the signature of the transaction's digest.
  unfoldable pub is_signed : List ℕ → List ℕ → List ℕ → Bool
  is_signed pk_script sig key =
      leb 2 (length sig)
      && get_or sig (length sig - 1) 0 == sig_hash_all
      && elim (curve.parse_der_signature (take (length sig - 1) sig)) [
        | none ↦ false
        | some s ↦ elim (curve.parse_pub_key key) [
          | none ↦ false
          | some k ↦ elim (compute_sig_hash sha tx input_idx pk_script) [
            | none ↦ false
            | some h ↦ curve.verify_signature s h k
          ]
        ]
      ]

  module _ (pk_script : List ℕ) where
    check_sig-is_signed :
        (sig key : List ℕ) (rest : List ℕ)
        → (sized : Bool) × (op_check_sig_round sha ripemd curve tx input_idx pk_script rest
              (key ∷ (sig ∷ []))
            ≡ ok (record {
              rest = rest;
              stack = truth (is_signed pk_script sig key) ∷ [];
              sized = sized;
            }))
    unfolding op_check_sig_round check_parsed is_signed
    check_sig-is_signed sig key rest = elim (Bool-cases (ltb (length sig) 2)) [
      | inl short ↦
          let off : leb 2 (length sig) ≡ false = ground arith in rw (short, off) (false, refl)
      | inr long ↦
          let on : leb 2 (length sig) ≡ true = ground arith in
          elim (Bool-cases (get_or sig (length sig - 1) 0 == sig_hash_all)) [
            | inr other ↦
                rw (long, on, byte_at-get_or sig (length sig - 1) (ground arith), other)
                  (false, refl)
            | inl all ↦
                rw
                  (
                    long,
                    on,
                    byte_at-get_or sig (length sig - 1) (ground arith),
                    all,
                    cut-take (length sig - 1) sig (omega arith),
                  )
                  (parsed (curve.parse_der_signature (take (length sig - 1) sig))
                    (curve.parse_pub_key key) (compute_sig_hash sha tx input_idx pk_script))
          ]
    ]
      where
        parsed :
            (s : Option Signature) (k : Option PubKey) (h : Option Hash)
            → (sized : Bool) × (check_parsed sha ripemd curve s k h rest []
                ≡ ok (record {
                  rest = rest;
                  stack =
                      truth (elim s [
                        | none ↦ false
                        | some s ↦ elim k [
                          | none ↦ false
                          | some k ↦ elim h [ none ↦ false | some h ↦ curve.verify_signature s h k ]
                        ]
                      ])
                      ∷ [];
                  sized = sized;
                }))
        parsed none k h = (false, refl)
        parsed (some s) none h = (false, refl)
        parsed (some s) (some k) none = (false, refl)
        parsed (some s) (some k) (some h) = (true, refl)

    run-check_sig :
        (fuel : ℕ) (sig key : List ℕ)
        → run sha ripemd curve
            (suc fuel)
            tx
            input_idx
            pk_script
            3
            (op_check_sig ∷ [])
            (key ∷ (sig ∷ []))
          ≡ ok (truth (is_signed pk_script sig key) ∷ [])
    unfolding run round step
    run-check_sig fuel sig key = let (sized, e) = check_sig-is_signed sig key [] in go sized e
      where
        go :
            (sized : Bool)
            → op_check_sig_round sha ripemd curve tx input_idx pk_script [] (key ∷ (sig ∷ []))
              ≡ ok (record {
                rest = [];
                stack = truth (is_signed pk_script sig key) ∷ [];
                sized = sized;
              })
            → run sha ripemd curve
                (suc fuel)
                tx
                input_idx
                pk_script
                3
                (op_check_sig ∷ [])
                (key ∷ (sig ∷ []))
              ≡ ok (truth (is_signed pk_script sig key) ∷ [])
        go true e = rw e refl
        go false e = rw e refl

  dup :
      (pk_script key sig rest : List ℕ)
      → round sha ripemd curve tx input_idx pk_script 1 op_dup rest (key ∷ (sig ∷ []))
        ≡ next_round rest (key ∷ (key ∷ (sig ∷ [])))
  unfolding round step op_dup_round
  dup pk_script key sig rest = refl

  hashed :
      (pk_script key sig rest : List ℕ)
      → round sha ripemd curve tx input_idx pk_script 2 op_hash160 rest (key ∷ (key ∷ (sig ∷ [])))
        ≡ next_round rest (hash160 sha ripemd key ∷ (key ∷ (sig ∷ [])))
  unfolding round step op_hash160_round
  hashed pk_script key sig rest = refl

  compared :
      (pk_script key sig a b rest : List ℕ)
      → round sha ripemd curve tx input_idx pk_script 3 op_equal_verify rest
          (b ∷ (a ∷ (key ∷ (sig ∷ []))))
        ≡ (if bytes_eq a b then next_round rest (key ∷ (sig ∷ [])) else err values_not_equal)
  unfolding round step op_equal_verify_round
  compared pk_script key sig a b rest = elim (Bool-cases (bytes_eq a b)) [
    | inl t ↦ rw t refl
    | inr f ↦ rw f refl
  ]

  run-tail :
      (pk_script sig key a b : List ℕ)
      → run sha ripemd curve 22 tx input_idx pk_script 2
          (op_equal_verify ∷ (op_check_sig ∷ []))
          (b ∷ (a ∷ (key ∷ (sig ∷ []))))
        ≡ (if bytes_eq a b
            then ok (truth (is_signed pk_script sig key) ∷ [])
            else err values_not_equal)
  unfolding run
  run-tail pk_script sig key a b =
      rw (compared pk_script key sig a b (op_check_sig ∷ [])) (elim (Bool-cases (bytes_eq a b)) [
        | inl t ↦ rw t (run-check_sig pk_script 20 sig key)
        | inr f ↦ rw f refl
      ])

  run-pk_script :
      (pk_script sig key hash : List ℕ)
      → length hash ≡ 20
      → run sha ripemd curve
          (length (make_p2pkh_script hash))
          tx
          input_idx
          pk_script
          0
          (make_p2pkh_script hash)
          (key ∷ (sig ∷ []))
        ≡ (if bytes_eq (hash160 sha ripemd key) hash
            then ok (truth (is_signed pk_script sig key) ∷ [])
            else err values_not_equal)
  unfolding make_p2pkh_script
  run-pk_script pk_script sig key hash size =
      let tail = op_equal_verify ∷ (op_check_sig ∷ []) in
      let long : length (hash ++ tail) ≡ 22 = omega (arith, length-append {0} hash tail) in
      let start = key ∷ (sig ∷ []) in
      let pushed : run sha ripemd curve (suc 22) tx input_idx pk_script 2 (20 ∷ (hash ++ tail))
            (hash160 sha ripemd key ∷ start)
          ≡ run sha ripemd curve 22 tx input_idx pk_script 2 tail
              (hash ∷ (hash160 sha ripemd key ∷ start)) =
        subst
          (λ (n : ℕ).
            run sha ripemd curve (suc 22) tx input_idx pk_script 2 (n ∷ (hash ++ tail))
              (hash160 sha ripemd key ∷ start)
            ≡ run sha ripemd curve 22 tx input_idx pk_script 2 tail
                (hash ∷ (hash160 sha ripemd key ∷ start)))
          size
          (run-push sha ripemd curve tx input_idx pk_script 22 2 hash tail
            (hash160 sha ripemd key ∷ start) (omega arith) (omega arith) (omega arith)) in
      rw long (
        run-round sha ripemd curve tx input_idx pk_script 24 0 op_dup
          (op_hash160 ∷ (20 ∷ (hash ++ tail))) start _
          (dup pk_script key sig (op_hash160 ∷ (20 ∷ (hash ++ tail))))
        ∙ (run-round sha ripemd curve tx input_idx pk_script 23 1 op_hash160 (20 ∷ (hash ++ tail))
              (key ∷ start) _ (hashed pk_script key sig (20 ∷ (hash ++ tail)))
            ∙ (pushed ∙ run-tail pk_script sig key (hash160 sha ripemd key) hash)))

  execute-pk_script :
      (pk_script sig key hash : List ℕ)
      → length hash ≡ 20
      → execute sha ripemd curve tx input_idx pk_script (make_p2pkh_script hash) (key ∷ (sig ∷ []))
        ≡ (if bytes_eq (hash160 sha ripemd key) hash
            then ok (truth (is_signed pk_script sig key) ∷ [])
            else err values_not_equal)
  unfolding execute
  execute-pk_script pk_script sig key hash size =
      let fits : ltb 10000 (length (make_p2pkh_script hash)) ≡ false =
        ground (arith, length-p2pkh hash) in
      rw (fits, run-pk_script pk_script sig key hash size)

  execute-signature_script :
      (pk_script sig key : List ℕ)
      → length sig ≤ 75
      → length key ≤ 75
      → execute sha ripemd curve tx input_idx pk_script (make_p2pkh_signature_script sig key) []
        ≡ ok (key ∷ (sig ∷ []))
  unfolding execute make_p2pkh_signature_script
  execute-signature_script pk_script sig key few_sig few_key =
      let size : length (sig ++ (length key ∷ key)) ≡ suc (length sig + length key) =
        omega (arith, length-append {0} sig (length key ∷ key)) in
      let sig_byte : length sig % 256 ≡ length sig = omega arith in
      let key_byte : length key % 256 ≡ length key = omega arith in
      let fits : ltb 10000 (suc (suc (length sig + length key))) ≡ false = ground arith in
      rw
        (
          sig_byte,
          key_byte,
          size,
          fits,
          run-push sha ripemd curve tx input_idx pk_script (suc (length sig + length key)) 0 sig
              (length key ∷ key) [] few_sig (omega arith) (omega arith),
        )
        (subst
          (λ (bs : List ℕ).
            run sha ripemd curve (suc (length sig + length key)) tx input_idx pk_script 0
              (length key ∷ bs) (sig ∷ [])
            ≡ ok (key ∷ (sig ∷ [])))
          (append_nil key)
          (run-push sha ripemd curve tx input_idx pk_script (length sig + length key) 0 key []
              (sig ∷ []) few_key (omega arith) (omega arith)
            ∙ run-end sha ripemd curve tx input_idx pk_script (length sig + length key) 0
                (key ∷ (sig ∷ []))))

  -- The whole decision of `Verify` on a pay-to-public-key-hash output whose hash has 20 bytes, spent
  -- by a signature and a key of at most 75 bytes each: it fails with `values_not_equal` where the
  -- key's hash is not the output's, and otherwise it accepts exactly where the signature signs the
  -- transaction, and fails with `evaluated_false` where it does not.
  pub verify-make_p2pkh_script :
      (sig key hash : List ℕ)
      → length sig ≤ 75
      → length key ≤ 75
      → length hash ≡ 20
      → verify sha ripemd curve
          (make_p2pkh_signature_script sig key)
          (make_p2pkh_script hash)
          tx
          input_idx
        ≡ (if bytes_eq (hash160 sha ripemd key) hash
            then if is_signed (make_p2pkh_script hash) sig key then ok tt else err evaluated_false
            else err values_not_equal)
  unfolding verify check_final is_true
  verify-make_p2pkh_script sig key hash few_sig few_key size =
      rw
        (
          execute-signature_script (make_p2pkh_script hash) sig key few_sig few_key,
          execute-pk_script (make_p2pkh_script hash) sig key hash size,
          nonempty hash,
          first_byte hash,
        )
        (elim (Bool-cases (bytes_eq (hash160 sha ripemd key) hash)) [
          | inl same ↦ rw same (elim (Bool-cases (is_signed (make_p2pkh_script hash) sig key)) [
            | inl signed ↦ rw signed refl
            | inr unsigned ↦ rw unsigned refl
          ])
          | inr other ↦ rw other refl
        ])
