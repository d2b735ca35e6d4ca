-- ===== src/Utxo/Connect/Sequential/Step.antt =====
-- The relation between the variables of `ConnectBlock` and the plainly updated set, kept by each
-- input and each output.
use fairchain.Base.{
  ℕ, ◌≡◌, ◌≢◌, ◌∙◌, ◌⊎◌, inl, inr, true, false, ◌||◌, List, [], ◌∷◌, ◌++◌, Option, none, some,
  Bool-cases, Option-cases, if◌then◌else◌, arith,
}
use mathlib.Core.Path.{subst}
use fairchain.Base.Bytes.{bytes_eq, bytes_eq_iff}
use fairchain.Base.KeyMap.{
  lookup, insert, erase, contains, lookup-insert, lookup-erase, contains-insert, member,
  member-append,
}
use fairchain.Types.Transaction.{TxInput}
use fairchain.Utxo.Entry.{UtxoEntry}
use fairchain.Utxo.Set.{UtxoSet}
use fairchain.Utxo.Connect.Defs.{Pending, spend, create, input_key, find_entry}

-- The last entry that the list gives a key.
unfoldable pub last_added : List ℕ → List (List ℕ × UtxoEntry) → Option UtxoEntry
last_added j [] = none
last_added j ((k, e) ∷ r) = elim (last_added j r) [
  | some e' ↦ some e'
  | none ↦ if bytes_eq k j then some e else none
]

pub last_added-snoc :
    (j : List ℕ) (xs : List (List ℕ × UtxoEntry)) (k : List ℕ) (e : UtxoEntry)
    → last_added j (xs ++ ((k, e) ∷ [])) ≡ (if bytes_eq k j then some e else last_added j xs)
unfolding last_added
last_added-snoc j [] k e = ground arith
last_added-snoc j ((k', e') ∷ r) k e = ground (arith, last_added-snoc j r k e)

-- At one key.
pub record SeenAt (s : UtxoSet) (made : List (List ℕ)) (p : Pending) (m : UtxoSet) (j : List ℕ)
    : Type 0 where
  pub queued : contains j p.spent_in_block ≡ member j p.to_remove
  pub added :
      contains j p.spent_in_block ≡ false → lookup j p.created_in_block ≡ last_added j p.to_add
  pub present : contains j p.spent_in_block ≡ false → find_entry s p j ≡ lookup j m
  pub gone : contains j p.spent_in_block ≡ true → lookup j m ≡ none
  pub origin : contains j p.spent_in_block ≡ true → (lookup j s ≢ none) ⊎ (member j made ≡ true)
  pub made_here : lookup j p.created_in_block ≢ none → member j made ≡ true

abbrev pub Mirrors : UtxoSet → List (List ℕ) → Pending → UtxoSet → Type 0
Mirrors s made p m = (j : List ℕ) → SeenAt s made p m j

member-snoc :
    (j : List ℕ) (xs : List (List ℕ)) (k : List ℕ)
    → member j (xs ++ (k ∷ [])) ≡ (member j xs || bytes_eq k j)
unfolding member
member-snoc j xs k = member-append j xs (k ∷ []) ∙ ground arith

-- The output that is taken was made here or stood in the set.
taken_origin :
    (s : UtxoSet) (made : List (List ℕ)) (p : Pending) (k : List ℕ) (e : UtxoEntry)
    → find_entry s p k ≡ some e
    → (lookup k p.created_in_block ≢ none → member k made ≡ true)
    → (lookup k s ≢ none) ⊎ (member k made ≡ true)
taken_origin s made p k e found made_here = elim (Option-cases (lookup k p.created_in_block)) [
  | inl absent ↦ inl (λ gone. cc (rw (absent, find_entry) at found))
  | inr (e', here) ↦ inr (made_here (λ gone. cc))
]

pub spend-Mirrors :
    (s : UtxoSet) (made : List (List ℕ)) (p : Pending) (m : UtxoSet) (i : TxInput) (e : UtxoEntry)
    → Mirrors s made p m
    → contains (input_key i) p.spent_in_block ≡ false
    → find_entry s p (input_key i) ≡ some e
    → Mirrors s made (spend p i e) (erase (input_key i) m)
spend-Mirrors s made p m i e mir unspent found j =
    let k : List ℕ = input_key i in
    let now = contains-insert k j tt p.spent_in_block in
    let at_j = mir j in
    let erased = lookup-erase k j m in
    let uncreated = lookup-erase k j p.created_in_block in
    record {
      queued = ground (arith, at_j.queued, now, member-snoc j p.to_remove k);
      added = λ u. ground (arith, at_j.added, now, uncreated);
      present = λ u. ground (arith, at_j.present, now, uncreated, erased);
      gone = λ g. ground (arith, at_j.gone, now, erased);
      origin = λ g. elim (Bool-cases (bytes_eq k j)) [
        | inl same ↦
            subst (λ x. (lookup x s ≢ none) ⊎ (member x made ≡ true)) ((bytes_eq_iff k j).0 same)
              (taken_origin s made p k e found (mir k).made_here)
        | inr other ↦ at_j.origin (ground (arith, now, other))
      ];
      made_here = λ h. ground (arith, at_j.made_here, uncreated);
    }

pub create-Mirrors :
    (s : UtxoSet) (made : List (List ℕ)) (p : Pending) (m : UtxoSet) (k : List ℕ) (e : UtxoEntry)
    → Mirrors s made p m
    → contains k p.spent_in_block ≡ false
    → Mirrors s (made ++ (k ∷ [])) (create p k e) (insert k e m)
create-Mirrors s made p m k e mir unspent j =
    let at_j = mir j in
    let made' = member-snoc j made k in
    let inserted = lookup-insert k j e m in
    let created = lookup-insert k j e p.created_in_block in
    let last = last_added-snoc j p.to_add k e in
    record {
      queued = at_j.queued;
      added = λ u. ground (arith, at_j.added, created, last);
      present = λ u. ground (arith, at_j.present, created, inserted);
      gone = λ g. ground (arith, at_j.gone, inserted, bytes_eq_iff k j, unspent);
      origin = λ g. ground (arith, at_j.origin, made');
      made_here = λ h. ground (arith, at_j.made_here, created, made');
    }
