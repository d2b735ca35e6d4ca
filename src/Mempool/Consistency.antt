-- ===== src/Mempool/Consistency.antt =====
-- The pool's table of spent outpoints (internal/mempool/mempool.go) and its transactions.
use fairchain.Base.{
  ℕ, ◌≡◌, refl, sym, ◌∙◌, arith, Bool, true, false, List, [], ◌∷◌, Option, none, some, some-eq,
  if◌then◌else◌, inl, inr, Bool-cases, Option-cases,
}
use fairchain.Base.Bytes.{bytes_eq, bytes_eq_iff}
use fairchain.Base.KeyMap.{
  KeyMap, lookup, insert, erase, contains, member, lookup-insert, lookup-erase,
}
use fairchain.Types.Hash.{Hash}
use fairchain.Mempool.Defs.{
  TxEntry, Mempool, input_keys, conflicts, record_spends, forget_spends, store, drop_entry,
  remove_tx, remove_txs,
}

lookup-record_spends :
    (keys : List (List ℕ)) (tx_hash : Hash) (spent : KeyMap Hash) (want : List ℕ)
    → lookup want (record_spends keys tx_hash spent)
      ≡ (if member want keys then some tx_hash else lookup want spent)
unfolding record_spends member
lookup-record_spends [] tx_hash spent want = refl
lookup-record_spends (key ∷ keys) tx_hash spent want = ground (
  arith,
  lookup-record_spends keys tx_hash (insert key tx_hash spent) want,
  lookup-insert key want tx_hash spent,
)

lookup-forget_spends :
    (keys : List (List ℕ)) (spent : KeyMap Hash) (want : List ℕ)
    → lookup want (forget_spends keys spent)
      ≡ (if member want keys then none else lookup want spent)
unfolding forget_spends member
lookup-forget_spends [] spent want = refl
lookup-forget_spends (key ∷ keys) spent want =
    ground (arith, lookup-forget_spends keys (erase key spent) want, lookup-erase key want spent)

missing :
    (o : Option Hash) → elim o as (λ _. Bool) [ none ↦ false | some _ ↦ true ] ≡ false → o ≡ none
missing none h = refl
missing (some h) e = cc e

contains-none :
    (spent : KeyMap Hash) (key : List ℕ) → contains key spent ≡ false → lookup key spent ≡ none
unfolding contains
contains-none spent key h = missing (lookup key spent) h

conflicts-member :
    (keys : List (List ℕ)) (spent : KeyMap Hash) (key : List ℕ)
    → conflicts keys spent ≡ false
    → member key keys ≡ true
    → lookup key spent ≡ none
unfolding conflicts member
conflicts-member [] spent key h m = cc m
conflicts-member (k ∷ keys) spent key h m = elim (Bool-cases (bytes_eq k key)) [
  | inl same ↦
      let e = (bytes_eq_iff k key).0 same in rw (← e) (contains-none spent k (ground arith))
  | inr other ↦ conflicts-member keys spent key (ground arith) (ground arith)
]

-- The table holds the outpoints of the pool's transactions, each with the transaction that spends
-- it, and no other.
pub record IsConsistent (m : Mempool) : Type 0 where
  pub claimed :
      (hash : Hash) (entry : TxEntry) (key : List ℕ)
      → lookup hash m.txs ≡ some entry
      → member key (input_keys entry.tx.inputs) ≡ true
      → lookup key m.spent_outpoints ≡ some hash
  pub backed :
      (key : List ℕ) (hash : Hash)
      → lookup key m.spent_outpoints ≡ some hash
      → (entry : TxEntry) × (lookup hash m.txs ≡ some entry)
        × (member key (input_keys entry.tx.inputs) ≡ true)

-- An entry that is new and that spends nothing that is spent already.
pub store-IsConsistent :
    (m : Mempool) (entry : TxEntry)
    → IsConsistent m
    → lookup entry.hash m.txs ≡ none
    → conflicts (input_keys entry.tx.inputs) m.spent_outpoints ≡ false
    → IsConsistent (store m entry)
unfolding store
store-IsConsistent m entry v new free = record {
  claimed = λ (hash : Hash) (e : TxEntry) (key : List ℕ) found mine.
      rw (lookup-record_spends keys entry.hash m.spent_outpoints key)
        (claims hash e key (sym (lookup-insert entry.hash hash entry m.txs) ∙ found) mine);
  backed = λ (key : List ℕ) (hash : Hash) found.
      backs key hash (sym (lookup-record_spends keys entry.hash m.spent_outpoints key) ∙ found);
}
  where
    keys : List (List ℕ)
    keys = input_keys entry.tx.inputs

    claims :
        (hash : Hash) (e : TxEntry) (key : List ℕ)
        → (if bytes_eq entry.hash hash then some entry else lookup hash m.txs) ≡ some e
        → member key (input_keys e.tx.inputs) ≡ true
        → (if member key keys then some entry.hash else lookup key m.spent_outpoints) ≡ some hash
    claims hash e key found mine = elim (Bool-cases (bytes_eq entry.hash hash)) [
      | inl same ↦
          let eh = (bytes_eq_iff entry.hash hash).0 same in
          let ee : entry ≡ e = some-eq (rw same at found) in
          let mine' : member key (input_keys entry.tx.inputs) ≡ true = rw ee mine in
          rw (mine', eh) refl
      | inr other ↦
          let old = v.claimed hash e key (rw other at found) mine in
          elim (Bool-cases (member key keys)) [
            | inl both ↦ absurd (cc (conflicts-member keys m.spent_outpoints key free both, old))
            | inr not_mine ↦ rw not_mine old
          ]
    ]

    backs :
        (key : List ℕ) (hash : Hash)
        → (if member key keys then some entry.hash else lookup key m.spent_outpoints) ≡ some hash
        → (e : TxEntry) × (lookup hash (insert entry.hash entry m.txs) ≡ some e)
          × (member key (input_keys e.tx.inputs) ≡ true)
    backs key hash found = elim (Bool-cases (member key keys)) [
      | inl mine ↦
          let eh : entry.hash ≡ hash = some-eq (rw mine at found) in
          (
            entry,
            lookup-insert entry.hash hash entry m.txs
                ∙ rw ((bytes_eq_iff entry.hash hash).1 eh) refl,
            mine,
          )
      | inr not_mine ↦
          let (e, there, its) = v.backed key hash (rw not_mine at found) in
          (
            e,
            lookup-insert entry.hash hash entry m.txs
                ∙ elim (Bool-cases (bytes_eq entry.hash hash)) [
                  | inl same ↦
                      let eh = (bytes_eq_iff entry.hash hash).0 same in absurd (cc (new, eh, there))
                  | inr other ↦ rw other there
                ],
            its,
          )
    ]

drop_entry-IsConsistent :
    (m : Mempool) (hash : Hash) (entry : TxEntry)
    → IsConsistent m
    → lookup hash m.txs ≡ some entry
    → IsConsistent (drop_entry m hash (some entry))
drop_entry-IsConsistent m hash entry v there = record {
  claimed = λ (h : Hash) (e : TxEntry) (key : List ℕ) found mine.
      lookup-forget_spends keys m.spent_outpoints key
      ∙ claims h e key (sym (lookup-erase hash h m.txs) ∙ found) mine;
  backed = λ (key : List ℕ) (h : Hash) found.
      backs key h (sym (lookup-forget_spends keys m.spent_outpoints key) ∙ found);
}
  where
    keys : List (List ℕ)
    keys = input_keys entry.tx.inputs

    claims :
        (h : Hash) (e : TxEntry) (key : List ℕ)
        → (if bytes_eq hash h then none else lookup h m.txs) ≡ some e
        → member key (input_keys e.tx.inputs) ≡ true
        → (if member key keys then none else lookup key m.spent_outpoints) ≡ some h
    claims h e key found mine = elim (Bool-cases (bytes_eq hash h)) [
      | inl same ↦ absurd (cc (rw same at found))
      | inr other ↦
          let old = v.claimed h e key (rw other at found) mine in
          elim (Bool-cases (member key keys)) [
            | inl both ↦
                let gone = v.claimed hash entry key there both in
                let eh : hash ≡ h = some-eq (sym gone ∙ old) in
                absurd (cc (other, (bytes_eq_iff hash h).1 eh))
            | inr not_mine ↦ rw not_mine old
          ]
    ]

    backs :
        (key : List ℕ) (h : Hash)
        → (if member key keys then none else lookup key m.spent_outpoints) ≡ some h
        → (e : TxEntry) × (lookup h (erase hash m.txs) ≡ some e)
          × (member key (input_keys e.tx.inputs) ≡ true)
    backs key h found = elim (Bool-cases (member key keys)) [
      | inl mine ↦ absurd (cc (rw mine at found))
      | inr not_mine ↦
          let (e, is_there, its) = v.backed key h (rw not_mine at found) in
          (
            e,
            lookup-erase hash h m.txs ∙ elim (Bool-cases (bytes_eq hash h)) [
              | inl same ↦
                  let eh = (bytes_eq_iff hash h).0 same in
                  let ee : e ≡ entry = some-eq (cc (eh, is_there, there)) in
                  absurd (cc (ee, its, not_mine))
              | inr other ↦ rw other is_there
            ],
            its,
          )
    ]

pub remove_tx-IsConsistent :
    (m : Mempool) (hash : Hash) → IsConsistent m → IsConsistent (remove_tx m hash)
unfolding remove_tx
remove_tx-IsConsistent m hash v = elim (Option-cases (lookup hash m.txs)) [
  | inl gone ↦ rw gone v
  | inr (entry, there) ↦ rw there (drop_entry-IsConsistent m hash entry v there)
]

pub remove_txs-IsConsistent :
    (m : Mempool) (hashes : List Hash) → IsConsistent m → IsConsistent (remove_txs m hashes)
unfolding remove_txs
remove_txs-IsConsistent m [] v = v
remove_txs-IsConsistent m (hash ∷ hashes) v =
    remove_txs-IsConsistent (remove_tx m hash) hashes (remove_tx-IsConsistent m hash v)

-- Two transactions of a consistent pool that share an outpoint are one.
pub IsConsistent-same :
    (m : Mempool) (h k : Hash) (a b : TxEntry) (key : List ℕ)
    → IsConsistent m
    → lookup h m.txs ≡ some a
    → lookup k m.txs ≡ some b
    → member key (input_keys a.tx.inputs) ≡ true
    → member key (input_keys b.tx.inputs) ≡ true
    → h ≡ k
IsConsistent-same m h k a b key v there other in_a in_b =
    some-eq (sym (v.claimed h a key there in_a) ∙ v.claimed k b key other in_b)
