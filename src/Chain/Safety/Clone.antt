-- ===== src/Chain/Safety/Clone.antt =====
-- `cloneUtxoSet` (internal/chain/chain.go) gives back every entry.
use fairchain.Base.{
  ℕ, ◌≡◌, refl, ap, ◌∙◌, List, [], ◌∷◌, length, take, drop, All, arith, some, length-drop_le,
  All-drop, take-append-drop, if◌then◌else◌,
}
use fairchain.Base.Bytes.{IsByte, put_le, le_value, put_le-le_value, bytes_eq}
use fairchain.Base.KeyMap.{keys, lookup, lookup-insert}
use fairchain.Types.Hash.{hash_size}
use fairchain.Utxo.Entry.{outpoint_key}
use fairchain.Utxo.Set.{UtxoSet, add}
use fairchain.Chain.Persist.{clone_utxo_set}

-- The length of a Go key: a hash and a uint32.
abbrev pub IsUtxoKey : List ℕ → Type 0
IsUtxoKey key = (length key ≡ 36) × All IsByte key

outpoint_key-parts :
    (key : List ℕ)
    → IsUtxoKey key
    → outpoint_key (take hash_size key) (le_value (drop hash_size key)) ≡ key
unfolding outpoint_key
outpoint_key-parts key (long, bytes) =
    let four : length (drop hash_size key) ≡ 4 =
      length-drop_le hash_size key ∙ omega (arith, long) in
    let back : put_le 4 (le_value (drop hash_size key)) ≡ drop hash_size key =
      ap (λ n. put_le n (le_value (drop hash_size key))) (omega (arith, four))
      ∙ put_le-le_value (drop hash_size key) (All-drop IsByte hash_size key bytes) in
    rw back (take-append-drop hash_size key)

pub lookup-clone_utxo_set :
    (s : UtxoSet)
    → All IsUtxoKey (keys s)
    → (key : List ℕ) → lookup key (clone_utxo_set s) ≡ lookup key s
unfolding clone_utxo_set add lookup
lookup-clone_utxo_set [] fit key = refl
lookup-clone_utxo_set ((k, entry) ∷ s) fit key = rw (outpoint_key-parts k fit.0) (
    lookup-insert k key entry (clone_utxo_set s)
    ∙ ap (λ o. if bytes_eq k key then some entry else o) (lookup-clone_utxo_set s fit.1 key))
