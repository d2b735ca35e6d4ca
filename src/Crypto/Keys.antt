-- ===== src/Crypto/Keys.antt =====
-- The script builders of internal/crypto/keys.go and `ComputeSigHash` of
-- internal/crypto/signature.go's package, over RIPEMD-160 of golang.org/x/crypto.
use fairchain.Base.{
  ℕ, ◌+◌, ◌%◌, ◌≡◌, Bool, ◌&&◌, ◌||◌, List, [], ◌∷◌, ◌++◌, Option, none, some, length, take, get_or,
  slice, ltb, leb, ◌==◌, if◌then◌else◌,
}
use fairchain.Types.Hash.{Hash}
use fairchain.Types.Transaction.{TxInput, Transaction, serialize}
use fairchain.Crypto.Digest.{Sha256, double_sha256}

-- `ripemd160.New().Sum` returns 20 bytes.
pub record Ripemd160 : Type 0 where
  pub sum160 : List ℕ → List ℕ
  pub length-sum160 : (bytes : List ℕ) → length (sum160 bytes) ≡ 20

abbrev pub op_dup : ℕ
op_dup = 0x76

abbrev pub op_hash160 : ℕ
op_hash160 = 0xa9

abbrev pub op_equal_verify : ℕ
op_equal_verify = 0x88

abbrev pub op_check_sig : ℕ
op_check_sig = 0xac

abbrev pub op_return : ℕ
op_return = 0x6a

unfoldable pub hash160 : Sha256 → Ripemd160 → List ℕ → List ℕ
hash160 sha ripemd bytes = ripemd.sum160 (sha.sum256 bytes)

unfoldable pub make_p2pkh_script : List ℕ → List ℕ
make_p2pkh_script pub_key_hash =
    op_dup ∷ (op_hash160 ∷ (0x14 ∷ (pub_key_hash ++ (op_equal_verify ∷ (op_check_sig ∷ [])))))

-- `byte(len(sig))` keeps the low eight bits.
unfoldable pub make_p2pkh_signature_script : List ℕ → List ℕ → List ℕ
make_p2pkh_signature_script sig pub_key =
    (length sig % 256) ∷ (sig ++ ((length pub_key % 256) ∷ pub_key))

unfoldable pub is_p2pkh_script : List ℕ → Bool
is_p2pkh_script script =
    length script == 25
    && get_or script 0 0 == op_dup
    && get_or script 1 0 == op_hash160
    && get_or script 2 0 == 0x14
    && get_or script 23 0 == op_equal_verify
    && get_or script 24 0 == op_check_sig

unfoldable pub extract_p2pkh_hash : List ℕ → Option (List ℕ)
extract_p2pkh_hash script = if is_p2pkh_script script then some (slice 3 20 script) else none

unfoldable pub is_unspendable_script : List ℕ → Bool
is_unspendable_script script = length script == 0 || get_or script 0 0 == op_return

unfoldable pub make_op_return_script : List ℕ → List ℕ
make_op_return_script bytes =
    let kept = if ltb 80 (length bytes) then take 80 bytes else bytes in
    op_return ∷ ((length kept % 256) ∷ kept)

-- The inputs of the copy that is signed: no script but the subscript at the signed input.
unfoldable pub signed_inputs : List TxInput → ℕ → ℕ → List ℕ → List TxInput
signed_inputs [] i input_idx subscript = []
signed_inputs (input ∷ inputs) i input_idx subscript =
    record input { signature_script = if i == input_idx then subscript else [] }
    ∷ signed_inputs inputs (i + 1) input_idx subscript

abbrev pub sig_hash_all : ℕ
sig_hash_all = 1

-- `none` is the error of an input index that is out of range; the index is never negative here.
unfoldable pub compute_sig_hash : Sha256 → Transaction → ℕ → List ℕ → Option Hash
compute_sig_hash sha tx input_idx subscript =
    if leb (length tx.inputs) input_idx
    then none
    else some (
        double_sha256 sha (
          serialize (record tx { inputs = signed_inputs tx.inputs 0 input_idx subscript })
          ++ (sig_hash_all ∷ (0 ∷ (0 ∷ (0 ∷ []))))))
