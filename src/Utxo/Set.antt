-- ===== src/Utxo/Set.antt =====
-- The operations of `Set` (internal/utxo/utxo.go). The lock serialises them, so each is a function
-- on the map. Go's order over the map is not fixed; the list's order is one of them.
use fairchain.Base.{
  ℕ, ◌+◌, ◌-◌, ◌%◌, ◌^◌, Bool, ◌&&◌, ◌||◌, List, [], ◌∷◌, Option, length, get_or, ltb, ◌==◌,
  if◌then◌else◌,
}
use fairchain.Base.KeyMap.{KeyMap, lookup, insert, erase, contains}
use fairchain.Crypto.Digest.{Sha256, hash_transaction}
use fairchain.Types.Hash.{Hash}
use fairchain.Types.Transaction.{TxOutput, Transaction, is_coinbase}
use fairchain.Types.Block.{Block}
use fairchain.Utxo.Entry.{UtxoEntry, outpoint_key}

abbrev pub UtxoSet : Type 0
UtxoSet = KeyMap UtxoEntry

abbrev pub new_set : UtxoSet
new_set = []

unfoldable pub get : UtxoSet → Hash → ℕ → Option UtxoEntry
get s tx_hash index = lookup (outpoint_key tx_hash index) s

unfoldable pub has : UtxoSet → Hash → ℕ → Bool
has s tx_hash index = contains (outpoint_key tx_hash index) s

unfoldable pub add : UtxoSet → Hash → ℕ → UtxoEntry → UtxoSet
add s tx_hash index entry = insert (outpoint_key tx_hash index) entry s

unfoldable pub remove : UtxoSet → Hash → ℕ → Option UtxoEntry × UtxoSet
remove s tx_hash index = let key = outpoint_key tx_hash index in (lookup key s, erase key s)

unfoldable pub count : UtxoSet → ℕ
count s = length s

-- `total+e.Value < total` is the test for a uint64 that wrapped.
unfoldable pub add_values : UtxoSet → ℕ → ℕ
add_values [] total = total
add_values ((k, e) ∷ s) total =
    let sum = (total + e.value) % 2 ^ 64 in
    let rest = add_values s sum in if ltb sum total then 2 ^ 64 - 1 else rest

unfoldable pub total_value : UtxoSet → ℕ
unfolding add_values
total_value s = add_values s 0

unfoldable pub is_legacy_placeholder : List ℕ → Bool
is_legacy_placeholder pk = length pk == 0 || (length pk == 1 && get_or pk 0 0 == 0)

-- `uint32(outIdx)`
abbrev pub index_u32 : ℕ → ℕ
index_u32 i = i % 2 ^ 32

unfoldable pub genesis_outputs : Hash → Bool → List TxOutput → ℕ → UtxoSet → UtxoSet
genesis_outputs tx_hash coinbase [] i s = s
genesis_outputs tx_hash coinbase (o ∷ os) i s =
    let entry : UtxoEntry = record {
      value = o.value;
      pk_script = o.pk_script;
      height = 0;
      is_coinbase = coinbase;
    } in
    genesis_outputs tx_hash coinbase os (i + 1)
      (if is_legacy_placeholder o.pk_script then s else add s tx_hash (index_u32 i) entry)

unfoldable pub genesis_txs : Sha256 → List Transaction → UtxoSet → UtxoSet
genesis_txs sha [] s = s
genesis_txs sha (tx ∷ txs) s =
    genesis_txs sha txs (genesis_outputs (hash_transaction sha tx) (is_coinbase tx) tx.outputs 0 s)

unfoldable pub connect_genesis : Sha256 → UtxoSet → Block → UtxoSet
connect_genesis sha s b = genesis_txs sha b.transactions s
