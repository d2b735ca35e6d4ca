-- ===== src/Crypto/Tests.antt =====
-- Concrete runs of the merkle tree and of the proof-of-work check.
use fairchain.Base.{◌*◌, ◌^◌, ◌≡◌, ◌⊎◌, refl, true, arith, List, [], ◌∷◌, ◌++◌, replicate, leb}
use fairchain.Base.Bytes.{put_le, bytes_eq}
use fairchain.Types.Hash.{Hash, zero_hash, less_or_equal, less, less_from}
use fairchain.Crypto.Sample.{sample_sha}
use fairchain.Crypto.Merkle.{merkle_root}
use fairchain.Crypto.Merkle.Binding.{merkle_root-binding}
use fairchain.Crypto.Merkle.Tree.{Collision}
use fairchain.Crypto.Merkle.Total.{merkle_root-repeats_last}
use fairchain.Crypto.Target.{
  compact_to_hash, compact_to_big, size_of, hash_to_big, big_to_compact, byte_len, calc_work,
  validate_proof_of_work,
}
use fairchain.Crypto.Work.{validate_proof_of_work-compact_to_big}

abbrev three_hashes : List Hash
three_hashes = replicate 32 1 ∷ (replicate 32 2 ∷ (replicate 32 3 ∷ []))

merkle_root-binding_example :
    (three_hashes ≡ three_hashes) ⊎ Collision sample_sha three_hashes three_hashes
merkle_root-binding_example =
    merkle_root-binding sample_sha three_hashes three_hashes refl (omega arith) (omega arith) refl

merkle_root-repeats_last_example :
    merkle_root sample_sha (three_hashes ++ (replicate 32 3 ∷ []))
    ≡ merkle_root sample_sha three_hashes
merkle_root-repeats_last_example =
    merkle_root-repeats_last sample_sha three_hashes refl (omega arith)

-- The target of regtest, which the lowest hash meets.
validate_proof_of_work-compact_to_big_example :
    validate_proof_of_work zero_hash 0x207f_ffff
    ≡ leb (hash_to_big zero_hash).magnitude (compact_to_big 0x207f_ffff).magnitude
unfolding compact_to_big size_of
validate_proof_of_work-compact_to_big_example =
    validate_proof_of_work-compact_to_big zero_hash 0x207f_ffff (refl, omega arith) refl
      (omega arith)

target_of_bits : size_of 0x1d00_ffff ≡ 0xffff * 2 ^ 208
unfolding size_of
target_of_bits = refl

bits_of_target : big_to_compact (compact_to_big 0x1d00_ffff) ≡ 0x1d00_ffff
unfolding big_to_compact compact_to_big size_of byte_len
bits_of_target = refl

work_of_bits : calc_work 0x1d00_ffff ≡ 0x1_0001_0001
unfolding calc_work compact_to_big size_of
work_of_bits = refl

-- A negative target, which no hash is at most and which is worth no work, is met by the lowest hash.
negative_target_met :
    ((compact_to_big 0x20ff_ffff).negative ≡ true)
    × (calc_work 0x20ff_ffff ≡ 0)
    × (validate_proof_of_work zero_hash 0x20ff_ffff ≡ true)
unfolding compact_to_big size_of calc_work validate_proof_of_work compact_to_hash less_or_equal less
    less_from put_le bytes_eq
negative_target_met = (refl, refl, refl)
