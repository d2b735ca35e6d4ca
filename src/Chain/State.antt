-- ===== src/Chain/State.antt =====
-- The type `Chain` (internal/chain/chain.go) with its store, and its operations as actions on both.
use fairchain.Base.{
  ℕ, Bool, List, [], ◌∷◌, Option, none, some, ◌==◌, if◌then◌else◌, Outcome, panic, err, ok,
}
use fairchain.Base.KeyMap.{KeyMap}
use fairchain.Types.Hash.{Hash, zero_hash}
use fairchain.Types.Block.{Block}
use fairchain.Crypto.Digest.{Sha256}
use fairchain.Crypto.Keys.{Ripemd160}
use fairchain.Script.Machine.{Curve}
use fairchain.Params.{ChainParams}
use fairchain.Utxo.Set.{UtxoSet, new_set}
use fairchain.Consensus.Engine.{Engine}
use fairchain.Store.Interface.{BlockStore}

-- `addedAt` in nanoseconds
pub record OrphanBlock : Type 0 where
  pub block : Block
  pub added_at : ℕ

-- `map[uint32]types.Hash`
abbrev pub HeightMap : Type 0
HeightMap = List (ℕ × Hash)

unfoldable pub hash_at : ℕ → HeightMap → Option Hash
hash_at height [] = none
hash_at height (pair ∷ rest) = if pair.0 == height then some pair.1 else hash_at height rest

unfoldable pub set_hash : ℕ → Hash → HeightMap → HeightMap
set_hash height hash [] = (height, hash) ∷ []
set_hash height hash (pair ∷ rest) =
    if pair.0 == height then (height, hash) ∷ rest else pair ∷ set_hash height hash rest

unfoldable pub delete_hash : ℕ → HeightMap → HeightMap
delete_hash height [] = []
delete_hash height (pair ∷ rest) =
    let kept = delete_hash height rest in if pair.0 == height then kept else pair ∷ kept

-- The map's value at a key that may be missing, where the code reads it without a test.
abbrev pub hash_or_zero : ℕ → HeightMap → Hash
hash_or_zero height m = elim (hash_at height m) [ none ↦ zero_hash | some hash ↦ hash ]

pub record ChainState : Type 0 where
  pub params : ChainParams
  pub tip_hash : Hash
  pub tip_height : ℕ
  pub tip_work : ℕ
  pub height_by_hash : KeyMap ℕ
  pub hash_by_height : HeightMap
  pub orphans : KeyMap OrphanBlock
  pub utxo_set : UtxoSet

unfoldable pub new_chain : ChainParams → ChainState
new_chain p = record {
  params = p;
  tip_hash = zero_hash;
  tip_height = 0;
  tip_work = 0;
  height_by_hash = [];
  hash_by_height = [];
  orphans = [];
  utxo_set = new_set;
}

-- What the operations use and do not change: the packages behind `crypto`, the store, the engine, the
-- adjusted time in seconds, the clock in nanoseconds, and where the random order of a map starts.
pub record Env (S E Signature PubKey : Type 0) : Type 0 where
  pub sha : Sha256
  pub ripemd : Ripemd160
  pub curve : Curve Signature PubKey
  pub db : BlockStore S
  pub engine : Engine E
  pub now_unix : ℕ
  pub clock : ℕ
  pub pick : ℕ

-- One constructor for each error that an operation makes, without the text of its cause.
pub data ChainError : Type 0 where
  already_in_chain already_in_orphan_pool orphan_pow orphan_block side_chain : ChainError
  load_parent header_invalid timestamp_invalid block_invalid parent_work : ChainError
  store_block store_undo store_index store_tip inputs_invalid connect_utxos : ChainError
  persist_utxos too_deep load_block load_index no_undo read_undo decode_undo : ChainError
  genesis_mismatch missing_height decode_utxo walk_chain endless : ChainError
  reorg_failed : ChainError → ChainError

pub record World (S : Type 0) : Type 0 where
  pub chain : ChainState
  pub store : S

-- The state comes back with an error too: what was written stays written.
abbrev pub Action {ℓ} : Type 0 → Type ℓ → Type ℓ
Action S A = World S → Outcome ChainError A × World S

module _ {ℓ κ} {S : Type 0} {A : Type ℓ} {B : Type κ} where
  infixl 5 ◌>>=◌
  unfoldable pub ◌>>=◌ : Action S A → (A → Action S B) → Action S B
  ◌>>=◌ m next w =
      let (r, w') = m w in
      elim r [ panic ↦ (panic, w') | err why ↦ (err why, w') | ok v ↦ next v w' ]

module _ {κ} {S : Type 0} {B : Type κ} where
  infixl 5 ◌>>◌
  abbrev pub ◌>>◌ : Action S (Unit {0}) → Action S B → Action S B
  m >> next = m >>= λ _. next

module _ {S : Type 0} where
  abbrev pub modify : (ChainState → ChainState) → Action S (Unit {0})
  modify f w = (ok tt, record w { chain = f w.chain })

  -- A write to the store: `false` is the error `why`.
  abbrev pub write : (S → Bool × S) → ChainError → Action S (Unit {0})
  write put why w =
      let (done, s) = put w.store in (if done then ok tt else err why, record w { store = s })

module _ {ℓ} {S : Type 0} {A : Type ℓ} where
  abbrev pub pure : A → Action S A
  pure v w = (ok v, w)

  abbrev pub fail : ChainError → Action S A
  fail why w = (err why, w)

  abbrev pub gets : (World S → A) → Action S A
  gets f w = (ok (f w), w)

  -- A call that fails for a reason of its own, which `why` wraps.
  abbrev pub lift : {E : Type 0} → ChainError → Outcome E A → Action S A
  lift why panic w = (panic, w)
  lift why (err e) w = (err why, w)
  lift why (ok v) w = (ok v, w)

  abbrev pub found : ChainError → Option A → Action S A
  found why none w = (err why, w)
  found why (some v) w = (ok v, w)

  abbrev pub write_with : (S → Option A × S) → ChainError → Action S A
  write_with put why w =
      let (r, s) = put w.store in
      (elim r [ none ↦ err why | some v ↦ ok v ], record w { store = s })
