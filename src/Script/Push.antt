-- ===== src/Script/Push.antt =====
-- Rounds of the script engine that push an element (internal/script/script.go).
use mathlib.Core.Path.{subst}
use fairchain.Base.{
  ℕ, suc, ◌≤◌, ◌<◌, ◌≡◌, refl, ap, arith, true, false, List, [], ◌∷◌, ◌++◌, length, length-append,
  take-append, drop-append, ltb, leb, ◌==◌, ok,
}
use fairchain.Types.Transaction.{Transaction}
use fairchain.Crypto.Digest.{Sha256}
use fairchain.Crypto.Keys.{Ripemd160}
use fairchain.Script.Ends.{cut-take}
use fairchain.Script.Machine.{
  Curve, count_op, next_round, max_ops_per_script, max_stack_size, Stack, Round, push_bytes, step,
  round, run,
}

pub append_nil : (bs : List ℕ) → bs ++ [] ≡ bs
append_nil [] = refl
append_nil (b ∷ bs) = ap (λ (r : List ℕ). b ∷ r) (append_nil bs)

module _ (sha : Sha256) (ripemd : Ripemd160) {Signature PubKey : Type 0}
    (curve : Curve Signature PubKey) (tx : Transaction) (input_idx : ℕ) where
  module _ (pk_script : List ℕ) where
    step-push :
        (bs tail : List ℕ) (stack : Stack)
        → length bs ≤ 75
        → step sha ripemd curve tx input_idx pk_script (length bs) (bs ++ tail) stack
          ≡ next_round tail (bs ∷ stack)
    unfolding step push_bytes
    step-push [] tail stack few = refl
    step-push (b ∷ bs) tail stack few =
        let nonzero : (suc (length bs) == 0) ≡ false = ground arith in
        let positive : leb 1 (suc (length bs)) ≡ true = ground arith in
        let low : leb (suc (length bs)) 75 ≡ true = ground arith in
        let there : ltb (length (b ∷ (bs ++ tail))) (suc (length bs)) ≡ false =
          ground (arith, length-append {0} bs tail) in
        let fits : ltb 520 (suc (length bs)) ≡ false = ground arith in
        rw (
          nonzero,
          positive,
          low,
          there,
          fits,
          cut-take (length (b ∷ bs)) (b ∷ (bs ++ tail)) (omega (arith, length-append {0} bs tail)),
          drop-append (length bs) bs tail refl,
          take-append (length bs) bs tail refl,
        )

    round-push :
        (num_ops : ℕ) (bs tail : List ℕ) (stack : Stack)
        → length bs ≤ 75
        → length stack < 1000
        → num_ops ≤ 201
        → round sha ripemd curve tx input_idx pk_script
            (count_op (length bs) num_ops)
            (length bs)
            (bs ++ tail)
            stack
          ≡ next_round tail (bs ∷ stack)
    unfolding round
    round-push num_ops bs tail stack few room ops =
        let allowed : ltb max_ops_per_script (count_op (length bs) num_ops) ≡ false =
          ground arith in
        let fits : ltb max_stack_size (length (bs ∷ stack)) ≡ false = ground arith in
        rw (allowed, step-push bs tail stack few, fits)

    pub run-round :
        (fuel num_ops op : ℕ) (rest : List ℕ) (stack : Stack) (r : Round)
        → round sha ripemd curve tx input_idx pk_script (count_op op num_ops) op rest stack ≡ ok r
        → run sha ripemd curve (suc fuel) tx input_idx pk_script num_ops (op ∷ rest) stack
          ≡ run sha ripemd curve fuel tx input_idx pk_script (count_op op num_ops) r.rest r.stack
    unfolding run
    run-round fuel num_ops op rest stack r e = rw e refl

    pub run-push :
        (fuel num_ops : ℕ) (bs tail : List ℕ) (stack : Stack)
        → length bs ≤ 75
        → length stack < 1000
        → num_ops ≤ 201
        → run sha ripemd curve
            (suc fuel)
            tx
            input_idx
            pk_script
            num_ops
            (length bs ∷ (bs ++ tail))
            stack
          ≡ run sha ripemd curve fuel tx input_idx pk_script num_ops tail (bs ∷ stack)
    run-push fuel num_ops bs tail stack few room ops =
        let quiet : count_op (length bs) num_ops ≡ num_ops = ground arith in
        subst
          (λ (n : ℕ).
            run sha ripemd curve (suc fuel) tx input_idx pk_script num_ops
              (length bs ∷ (bs ++ tail)) stack
            ≡ run sha ripemd curve fuel tx input_idx pk_script n tail (bs ∷ stack))
          quiet
          (run-round fuel num_ops (length bs) (bs ++ tail) stack _
            (round-push num_ops bs tail stack few room ops))

    pub run-end :
        (fuel num_ops : ℕ) (stack : Stack)
        → run sha ripemd curve fuel tx input_idx pk_script num_ops [] stack ≡ ok stack
    unfolding run
    run-end fuel num_ops stack = refl
