-- ===== src/Mempool/Defs.antt =====
-- The pool of unconfirmed transactions (internal/mempool/mempool.go). The lock serialises its
-- operations, so each is a function on the state. Go's order over a map is not fixed; the order of
-- the list is one of them.
use fairchain.Base.{
  ℕ, zero, suc, ◌+◌, ◌/◌, ◌%◌, ◌^◌, Bool, true, false, not, ◌&&◌, ◌||◌, List, [], ◌∷◌, ◌++◌, map,
  Option, none, some, length, drop, ltb, leb, ◌==◌, if◌then◌else◌, Outcome, ok, err, panic, ◌>>=◌,
  ◌>>◌, fail_if,
}
use fairchain.Base.KeyMap.{KeyMap, lookup, insert, erase, contains}
use fairchain.Types.Hash.{Hash, less}
use fairchain.Types.Reader.{put_all}
use fairchain.Types.Varint.{put_varint, varint_size, read_varint_from_bytes}
use fairchain.Types.Transaction.{
  TxInput, Transaction, is_coinbase, serialize, serialize_size, deserialize,
}
use fairchain.Crypto.Digest.{Sha256, hash_transaction}
use fairchain.Crypto.Keys.{Ripemd160}
use fairchain.Script.Machine.{Curve}
use fairchain.Params.{ChainParams}
use fairchain.Utxo.Entry.{outpoint_key}
use fairchain.Utxo.Set.{UtxoSet}
use fairchain.Consensus.Inputs.{TxError, spent_key_of, validate_single_transaction}

pub record TxEntry : Type 0 where
  pub tx : Transaction
  pub hash : Hash
  pub fee : ℕ
  pub fee_rate : ℕ
  pub size : ℕ

pub record Mempool : Type 0 where
  pub txs : KeyMap TxEntry
  pub params : ChainParams
  pub spent_outpoints : KeyMap Hash
  pub utxo_set : UtxoSet
  pub tip_height : ℕ

abbrev pub new_mempool : ChainParams → UtxoSet → Mempool
new_mempool p utxo_set = record {
  txs = [];
  params = p;
  spent_outpoints = [];
  utxo_set = utxo_set;
  tip_height = 0;
}

abbrev pub set_tip_height : Mempool → ℕ → Mempool
set_tip_height m height = record m { tip_height = height }

pub data MempoolError : Type 0 where
  lone_coinbase no_inputs no_outputs already_there full conflicting fee_too_low : MempoolError
  invalid : TxError → MempoolError

abbrev pub input_keys : List TxInput → List (List ℕ)
input_keys = map spent_key_of

-- Whether an outpoint of the inputs is spent already.
unfoldable pub conflicts : List (List ℕ) → KeyMap Hash → Bool
conflicts [] spent = false
conflicts (key ∷ keys) spent = contains key spent || conflicts keys spent

unfoldable pub record_spends : List (List ℕ) → Hash → KeyMap Hash → KeyMap Hash
record_spends [] tx_hash spent = spent
record_spends (key ∷ keys) tx_hash spent = record_spends keys tx_hash (insert key tx_hash spent)

unfoldable pub forget_spends : List (List ℕ) → KeyMap Hash → KeyMap Hash
forget_spends [] spent = spent
forget_spends (key ∷ keys) spent = forget_spends keys (erase key spent)

abbrev pub wrap_tx_error : Outcome TxError ℕ → Outcome MempoolError ℕ
wrap_tx_error (ok fee) = ok fee
wrap_tx_error (err e) = err (invalid e)
wrap_tx_error panic = panic

abbrev pub entry_for : Transaction → Hash → ℕ → TxEntry
entry_for tx tx_hash fee =
    let size = (if serialize_size tx == 0 then 1 else serialize_size tx) in
    record { tx = tx; hash = tx_hash; fee = fee; fee_rate = fee / size; size = size }

-- `m.txs[txHash] = entry`, and its outpoints
unfoldable pub store : Mempool → TxEntry → Mempool
store m entry = record m {
  txs = insert entry.hash entry m.txs;
  spent_outpoints = record_spends (input_keys entry.tx.inputs) entry.hash m.spent_outpoints;
}

module _ (sha : Sha256) (ripemd : Ripemd160) {Signature PubKey : Type 0}
    (curve : Curve Signature PubKey) where
  -- The state changes only where no error is returned.
  unfoldable pub add_tx : Mempool → Transaction → Outcome MempoolError (Mempool × Hash)
  add_tx m tx = do
    fail_if (is_coinbase tx) lone_coinbase
    fail_if (length tx.inputs == 0) no_inputs
    fail_if (length tx.outputs == 0) no_outputs
    fail_if (contains (hash_transaction sha tx) m.txs) already_there
    fail_if (leb m.params.max_mempool_size (length m.txs % 2 ^ 32)) full
    fail_if (conflicts (input_keys tx.inputs) m.spent_outpoints) conflicting
    fee ←
        wrap_tx_error
          (validate_single_transaction sha ripemd curve tx m.utxo_set m.tip_height m.params)
    fail_if (ltb 0 m.params.min_relay_tx_fee && ltb fee m.params.min_relay_tx_fee) fee_too_low
    ok (store m (entry_for tx (hash_transaction sha tx) fee), hash_transaction sha tx)

abbrev pub get_tx_entry : Mempool → Hash → Option TxEntry
get_tx_entry m hash = lookup hash m.txs

unfoldable pub get_tx : Mempool → Hash → Option Transaction
get_tx m hash = elim (lookup hash m.txs) [ none ↦ none | some entry ↦ some entry.tx ]

unfoldable pub has_tx : Mempool → Hash → Bool
has_tx m hash = contains hash m.txs

abbrev pub drop_entry : Mempool → Hash → Option TxEntry → Mempool
drop_entry m hash none = m
drop_entry m hash (some entry) = record m {
  txs = erase hash m.txs;
  spent_outpoints = forget_spends (input_keys entry.tx.inputs) m.spent_outpoints;
}

unfoldable pub remove_tx : Mempool → Hash → Mempool
remove_tx m hash = drop_entry m hash (lookup hash m.txs)

unfoldable pub remove_txs : Mempool → List Hash → Mempool
remove_txs m [] = m
remove_txs m (hash ∷ hashes) = remove_txs (remove_tx m hash) hashes

unfoldable pub is_outpoint_spent : Mempool → Hash → ℕ → Bool
is_outpoint_spent m tx_hash index = contains (outpoint_key tx_hash index) m.spent_outpoints

abbrev pub mempool_count : Mempool → ℕ
mempool_count m = length m.txs

-- The order of a block template: the higher fee rate, then the lower hash.
abbrev pub comes_before : TxEntry → TxEntry → Bool
comes_before a b =
    if not (a.fee_rate == b.fee_rate) then ltb b.fee_rate a.fee_rate else less a.hash b.hash

-- `sort.Slice`, whose result is the one sorted list, since hashes differ.
unfoldable pub insert_entry : TxEntry → List TxEntry → List TxEntry
insert_entry e [] = e ∷ []
insert_entry e (f ∷ entries) =
    let rest = insert_entry e entries in if comes_before e f then e ∷ (f ∷ entries) else f ∷ rest

unfoldable pub sort_entries : KeyMap TxEntry → List TxEntry
sort_entries [] = []
sort_entries (pair ∷ txs) = insert_entry pair.1 (sort_entries txs)

-- The transactions and the sum of their fees; where the sum wraps, the loop stops, and the rest of
-- the slice stays nil.
unfoldable pub template_loop : ℕ → List TxEntry → List (Option Transaction) × ℕ
template_loop total [] = ([], total)
template_loop total (e ∷ entries) =
    let rest = template_loop ((total + e.fee) % 2 ^ 64) entries in
    if ltb ((total + e.fee) % 2 ^ 64) total
    then (some e.tx ∷ map (λ (f : TxEntry). none) entries, total)
    else (some e.tx ∷ rest.0, rest.1)

unfoldable pub block_template : Mempool → List (Option Transaction) × ℕ
block_template m = template_loop 0 (sort_entries m.txs)

unfoldable pub total_fees : KeyMap TxEntry → ℕ → ℕ
total_fees [] total = total
total_fees (pair ∷ txs) total = total_fees txs ((total + pair.1.fee) % 2 ^ 64)

-- The lowest entry so far, `none` before the first.
unfoldable pub lowest_entry : KeyMap TxEntry → Option TxEntry → Option TxEntry
lowest_entry [] lowest = lowest
lowest_entry (pair ∷ txs) lowest = lowest_entry txs (elim lowest [
  | none ↦ some pair.1
  | some l ↦
      if ltb pair.1.fee_rate l.fee_rate
        || (pair.1.fee_rate == l.fee_rate && less pair.1.hash l.hash)
      then some pair.1
      else some l
])

unfoldable pub evict_lowest_fee_rate : Mempool → Mempool × Bool
evict_lowest_fee_rate m = elim (lowest_entry m.txs none) [
  | none ↦ (m, false)
  | some l ↦ (remove_tx m l.hash, true)
]

unfoldable pub dump_to_bytes : Mempool → List ℕ
dump_to_bytes m =
    if length m.txs == 0
    then []
    else (put_varint (length m.txs)
        ++ put_all (λ (pair : Hash × TxEntry). serialize pair.1.tx) m.txs)

-- The hashes in their order; `sort.Slice` on keys, which differ.
unfoldable pub insert_hash : Hash → List Hash → List Hash
insert_hash h [] = h ∷ []
insert_hash h (k ∷ hashes) =
    let rest = insert_hash h hashes in if less h k then h ∷ (k ∷ hashes) else k ∷ rest

unfoldable pub get_tx_hashes : KeyMap TxEntry → List Hash
get_tx_hashes [] = []
get_tx_hashes (pair ∷ txs) = insert_hash pair.0 (get_tx_hashes txs)

-- An int, whose sum of sizes stays far below 2^63.
unfoldable pub total_size : KeyMap TxEntry → ℕ → ℕ
total_size [] total = total
total_size (pair ∷ txs) total = total_size txs (total + pair.1.size)

-- `if err != nil { break }`: what is loaded so far stays.
abbrev pub or_stop {ℓ} :
    {E : Type 0} {A : Type ℓ}
    → Outcome E A
    → Mempool × ℕ
    → (A → Outcome MempoolError (Mempool × ℕ))
    → Outcome MempoolError (Mempool × ℕ)
or_stop panic stop next = panic
or_stop (err e) stop next = ok stop
or_stop (ok a) stop next = next a

-- A transaction that is not admitted is passed over.
abbrev pub admitted :
    Mempool → ℕ → Outcome MempoolError (Mempool × Hash) → Outcome MempoolError (Mempool × ℕ)
admitted m loaded panic = panic
admitted m loaded (err e) = ok (m, loaded)
admitted m loaded (ok added) = ok (added.0, loaded + 1)

module _ (sha : Sha256) (ripemd : Ripemd160) {Signature PubKey : Type 0}
    (curve : Curve Signature PubKey) where
  -- The loop of `LoadFromBytes`, on what is left of the bytes from `offset` on.
  unfoldable pub load_loop : ℕ → List ℕ → Mempool → ℕ → Outcome MempoolError (Mempool × ℕ)
  load_loop zero bytes m loaded = ok (m, loaded)
  load_loop (suc left) [] m loaded = ok (m, loaded)
  load_loop (suc left) (b ∷ bytes) m loaded =
      or_stop (deserialize (b ∷ bytes)) (m, loaded)
        (λ read. admitted m loaded (add_tx sha ripemd curve m read.0) >>= λ state.
          load_loop left read.1 state.0 state.1)

  unfoldable pub load_from_bytes : Mempool → List ℕ → Outcome MempoolError (Mempool × ℕ)
  load_from_bytes m [] = ok (m, 0)
  load_from_bytes m (b ∷ bytes) =
      or_stop (read_varint_from_bytes (b ∷ bytes)) (m, 0)
        (λ count. load_loop count (drop (varint_size count) (b ∷ bytes)) m 0)
