-- ===== src/Script/Tests.antt =====
-- Concrete runs of the script engine.
use mathlib.Core.Path.{refl}
use fairchain.Base.{ℕ, ◌≡◌, arith, List, [], ◌∷◌, some, length, replicate, ok, err, if◌then◌else◌}
use fairchain.Base.Bytes.{bytes_eq}
use fairchain.Types.Transaction.{Transaction}
use fairchain.Crypto.Sample.{sample_sha}
use fairchain.Crypto.Keys.{Ripemd160, hash160, make_p2pkh_script, make_p2pkh_signature_script}
use fairchain.Script.Machine.{Curve, evaluated_false, values_not_equal, execute, verify}
use fairchain.Script.Ends.{Ends, IsBounded}
use fairchain.Script.Limits.{execute-Ends}
use fairchain.Script.P2pkh.{is_signed, verify-make_p2pkh_script}

abbrev pub sample_ripemd : Ripemd160
sample_ripemd = record {
  sum160 = λ bytes. replicate 20 (length bytes);
  length-sum160 = λ bytes. refl;
}

-- A curve on which a signature is right if it is the key.
abbrev pub sample_curve : Curve (List ℕ) (List ℕ)
sample_curve = record {
  parse_der_signature = λ bytes. some bytes;
  parse_pub_key = λ bytes. some bytes;
  verify_signature = λ sig hash key. bytes_eq sig key;
}

abbrev sample_tx : Transaction
sample_tx = record {
  version = 1;
  inputs =
      record {
        previous_out_point = record { hash = replicate 32 7; index = 0 };
        signature_script = [];
        sequence = 0;
      }
      ∷ [];
  outputs = [];
  lock_time = 0;
}

execute-Ends_example :
    Ends IsBounded (
      execute sample_sha sample_ripemd sample_curve sample_tx 0 [] (0x51 ∷ (0x76 ∷ (0x87 ∷ []))) [])
execute-Ends_example =
    execute-Ends sample_sha sample_ripemd sample_curve sample_tx 0 [] (0x51 ∷ (0x76 ∷ (0x87 ∷ [])))
      [] (omega arith, tt)

verify-make_p2pkh_script_example :
    verify sample_sha sample_ripemd sample_curve
      (make_p2pkh_signature_script (9 ∷ (1 ∷ [])) (9 ∷ []))
      (make_p2pkh_script (replicate 20 32))
      sample_tx
      0
    ≡ (if bytes_eq (hash160 sample_sha sample_ripemd (9 ∷ [])) (replicate 20 32)
        then if is_signed sample_sha sample_ripemd sample_curve sample_tx 0
            (make_p2pkh_script (replicate 20 32))
            (9 ∷ (1 ∷ []))
            (9 ∷ [])
          then ok tt
          else err evaluated_false
        else err values_not_equal)
verify-make_p2pkh_script_example =
    verify-make_p2pkh_script sample_sha sample_ripemd sample_curve sample_tx 0 (9 ∷ (1 ∷ []))
      (9 ∷ []) (replicate 20 32) (omega arith) (omega arith) refl
