-- ===== src/Crypto/Work.antt =====
-- The check of a header's hash against its target (internal/crypto/target.go), as numbers.
use fairchain.Base.{ℕ, ◌^◌, ◌<◌, ◌≡◌, ◌∙◌, leb, false}
use fairchain.Base.Bytes.{put_le, length-put_le, put_le-IsByte, le_value-put_le}
use fairchain.Types.Hash.{Hash, IsHash}
use fairchain.Types.Hash.Order.{less_or_equal-le_value}
use fairchain.Crypto.Target.{compact_to_big, compact_to_hash, hash_to_big, validate_proof_of_work}

-- Where the target of the bits is not negative and fits into 256 bits, `ValidateProofOfWork` accepts
-- exactly the hashes whose number is at most the target.
pub validate_proof_of_work-compact_to_big :
    (h : Hash) (bits : ℕ)
    → IsHash h
    → (compact_to_big bits).negative ≡ false
    → (compact_to_big bits).magnitude < 2 ^ 256
    → validate_proof_of_work h bits ≡ leb (hash_to_big h).magnitude (compact_to_big bits).magnitude
unfolding validate_proof_of_work compact_to_hash hash_to_big
validate_proof_of_work-compact_to_big h bits valid positive fits =
    let target = (compact_to_big bits).magnitude in
    less_or_equal-le_value h (put_le 32 target) valid
      (length-put_le 32 target, put_le-IsByte 32 target)
    ∙ rw (le_value-put_le 32 target fits)
