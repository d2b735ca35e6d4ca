-- ===== src/Chain/Safety/Tips.antt =====
-- The block that extends the tip, rejected half-way.
use fairchain.Base.{ℕ, ◌≡◌, ◌≢◌, refl, sym, ap, ◌∙◌, true, List, none, Outcome, panic, err, ok, All}
use mathlib.Core.Path.{subst}
use fairchain.Base.KeyMap.{KeyMap, keys, member, lookup}
use fairchain.Types.Hash.{Hash}
use fairchain.Types.Block.{Block}
use fairchain.Utxo.Set.{UtxoSet}
use fairchain.Utxo.Connect.{
  BlockUndoData, ConnectError, connect_block, disconnect_block, created_keys,
}
use fairchain.Consensus.Inputs.{TxError, validate_transaction_inputs}
use fairchain.Consensus.Inputs.Disconnects.{disconnect-validate_transaction_inputs}
use fairchain.Store.Interface.{Location}
use fairchain.Chain.State.{
  Env, ChainError, side_chain, store_tip, inputs_invalid, connect_utxos, ChainState, HeightMap,
  World, Action, ◌>>=◌, ◌>>◌, modify, pure, lift,
}
use fairchain.Chain.Reorg.{connect_tip}
use fairchain.Chain.Accept.{or_disconnect, extend_chain, accept_tip}
use fairchain.Chain.Safety.Clone.{IsUtxoKey}
use fairchain.Chain.Safety.Reads.{persist_utxo_changes-ReadsOnly}
use fairchain.Chain.Safety.Frame.{
  OnError, Keeps-bind, OnError-bind-Unfailing, ReadsOnly, OnError-bind_reads, Unfailing-bind,
  Ensures, OnError-bind_ensured, lift-ReadsOnly,
}
use fairchain.Chain.Safety.Failures.{Fails, FailsWith, write-FailsWith}

-- What says which chain is the main one.
abbrev pub index_of : ChainState → (Hash × ℕ × ℕ) × (KeyMap ℕ × HeightMap)
index_of c = ((c.tip_hash, c.tip_height, c.tip_work), (c.height_by_hash, c.hash_by_height))

-- The same entry at every key.
abbrev pub SameEntries : UtxoSet → UtxoSet → Type 0
SameEntries s s' = (key : List ℕ) → lookup key s' ≡ lookup key s

module _ {S E Signature PubKey : Type 0} (env : Env S E Signature PubKey) (block : Block) where
  -- No output of the block stands in the set, whose keys have the length of an outpoint.
  abbrev Unspent : UtxoSet → Type 0
  Unspent s =
      ((j : List ℕ) → member j (created_keys env.sha block.transactions) ≡ true → lookup j s ≡ none)
      × All IsUtxoKey (keys s)

  abbrev pub Restored : ChainError → ChainState → ChainState → Type 0
  Restored why c c' =
      why ≢ side_chain
      → (index_of c' ≡ index_of c)
        × (why ≢ store_tip → Unspent c.utxo_set → SameEntries c.utxo_set c'.utxo_set)

  pub Restored-refl : (why : ChainError) (c : ChainState) → Restored why c c
  Restored-refl why c _ = (refl, λ _ _ key. refl)

  -- The chain after `connect_tip`: disconnecting the block gives back the set.
  abbrev Connected : ChainState → BlockUndoData → ChainState → Type 0
  Connected c undo c' =
      (index_of c' ≡ index_of c)
      × (Unspent c.utxo_set
          → SameEntries c.utxo_set (disconnect_block env.sha c'.utxo_set block undo))

  -- `connect_tip` with the results of its two calls.
  abbrev connect_with :
      Outcome TxError ℕ → Outcome ConnectError (UtxoSet × BlockUndoData) → Action S BlockUndoData
  connect_with checked connected = do
    _ ← lift inputs_invalid checked
    (s, undo) ← lift connect_utxos connected
    modify (λ c. record c { utxo_set = s })
    pure undo

  connect_with-Connected :
      (height : ℕ) (w : World S) (checked : Outcome TxError ℕ)
      (connected : Outcome ConnectError (UtxoSet × BlockUndoData))
      → validate_transaction_inputs env.sha env.ripemd env.curve block w.chain.utxo_set height
          w.chain.params
        ≡ checked
      → connect_block env.sha w.chain.utxo_set block height ≡ connected
      → (undo : BlockUndoData) → (connect_with checked connected w).0 ≡ ok undo
      → Connected w.chain undo (connect_with checked connected w).1.chain
  unfolding ◌>>=◌
  connect_with-Connected height w panic connected ec eb undo h = cc h
  connect_with-Connected height w (err e) connected ec eb undo h = cc h
  connect_with-Connected height w (ok fees) panic ec eb undo h = cc h
  connect_with-Connected height w (ok fees) (err e) ec eb undo h = cc h
  connect_with-Connected height w (ok fees) (ok (s, made)) ec eb undo h =
      let same : made ≡ undo = cc h in
      (
        refl,
        λ (fresh, _) key.
            subst
              (λ u. lookup key (disconnect_block env.sha s block u) ≡ lookup key w.chain.utxo_set)
              same
              (disconnect-validate_transaction_inputs env.sha env.ripemd env.curve w.chain.utxo_set
                height height w.chain.params block ec eb fresh key),
      )

  connect_tip-Connected : (height : ℕ) → Ensures Connected (connect_tip env block height)
  unfolding connect_tip ◌>>=◌
  connect_tip-Connected height w = connect_with-Connected height w _ _ refl refl

  connect_tip-OnError : (height : ℕ) → OnError Restored (connect_tip env block height)
  unfolding connect_tip
  connect_tip-OnError height =
      OnError-bind_reads Restored Restored-refl _ _ (λ w. refl)
        (λ c. OnError-bind_reads Restored Restored-refl _ _ (lift-ReadsOnly _ _) (λ _.
          OnError-bind_reads Restored Restored-refl _ _ (lift-ReadsOnly _ _)
            (λ r. OnError-bind-Unfailing Restored _ _ (λ w why h. cc h) (λ _ w why h. cc h))))

  -- The calls that stand under `or_disconnect`, which leave the chain alone.
  or_disconnect-OnError :
      (c : ChainState) (undo : BlockUndoData) (action : Action S (Unit {0}))
      → ReadsOnly action
      → OnError
          (λ why c₁ c₂. Connected c undo c₁ → Restored why c c₂)
          (or_disconnect env block undo action)
  unfolding or_disconnect
  or_disconnect-OnError c undo action kept w = after (action w).0 (action w).1 (kept w)
    where
      after :
          (r : Outcome ChainError (Unit {0})) (w' : World S)
          → w'.chain ≡ w.chain
          → (why : ChainError) → (or_disconnect env block undo (λ _. (r, w')) w).0 ≡ err why
          → Connected c undo w.chain
          → Restored why c (or_disconnect env block undo (λ _. (r, w')) w).1.chain
      after panic w' same why h = absurd (cc h)
      after (err e) w' same why h = λ (i, s) _. (
        ap index_of same ∙ i,
        λ _ u key.
            ap (λ x. lookup key (disconnect_block env.sha x.utxo_set block undo)) same ∙ s u key,
      )
      after (ok t) w' same why h = absurd (cc h)

  extend_chain-FailsWith :
      (hash : Hash) (height work : ℕ) → FailsWith store_tip (extend_chain env hash height work)
  unfolding extend_chain
  extend_chain-FailsWith hash height work =
      OnError-bind-Unfailing (Fails store_tip) _ _
        (write-FailsWith (λ st. env.db.put_chain_tip st hash height) store_tip)
        (λ _. Unfailing-bind _ _ (λ w why h. cc h) (λ _ w why h. cc h))

  -- Only the last call fails without a disconnect.
  extend_chain-OnError :
      (c : ChainState) (undo : BlockUndoData) (hash : Hash) (height work : ℕ)
      → OnError
          (λ why c₁ c₂. Connected c undo c₁ → Restored why c c₂)
          (extend_chain env hash height work)
  extend_chain-OnError c undo hash height work w why h (i, s) _ =
      let (is_tip, same) = extend_chain-FailsWith hash height work w why h in
      (ap index_of same ∙ i, λ other. absurd (other is_tip))

  or_disconnect-kept :
      (undo : BlockUndoData) (action : Action S (Unit {0}))
      → ReadsOnly action
      → Ensures (λ c _ c'. c' ≡ c) (or_disconnect env block undo action)
  unfolding or_disconnect
  or_disconnect-kept undo action kept w v = after (action w).0 (action w).1 (kept w)
    where
      after :
          (r : Outcome ChainError (Unit {0})) (w' : World S)
          → w'.chain ≡ w.chain
          → (or_disconnect env block undo (λ _. (r, w')) w).0 ≡ ok v
          → (or_disconnect env block undo (λ _. (r, w')) w).1.chain ≡ w.chain
      after panic w' same h = absurd (cc h)
      after (err e) w' same h = absurd (cc h)
      after (ok t) w' same h = same

  -- The block is connected in memory, and is to be written and to become the tip.
  finish-OnError :
      (c : ChainState) (undo : BlockUndoData) (action : Action S (Unit {0})) (hash : Hash)
      (height work : ℕ)
      → ReadsOnly action
      → OnError
          (λ why c₁ c₂. Connected c undo c₁ → Restored why c c₂)
          (or_disconnect env block undo action >> extend_chain env hash height work)
  finish-OnError c undo action hash height work kept =
      OnError-bind_ensured (λ c₁ _ c₂. c₂ ≡ c₁)
        (λ why c₁ c₂. Connected c undo c₁ → Restored why c c₂) _ _
        (or_disconnect-kept undo action kept) (or_disconnect-OnError c undo action kept)
        (λ c₁ _ w why h same connected.
          extend_chain-OnError c undo hash height work w why h
            (subst (Connected c undo) (sym same) connected))

  pub accept_tip-OnError :
      (hash : Hash) (height work : ℕ) (place : Location)
      → OnError Restored (accept_tip env hash block height work place)
  unfolding accept_tip
  accept_tip-OnError hash height work place =
      OnError-bind_ensured Connected Restored _ _ (connect_tip-Connected height)
        (connect_tip-OnError height)
        (λ c undo. finish-OnError c undo _ hash height work (
          Keeps-bind _ _ _ (λ w. refl)
            (λ p.
              Keeps-bind _ _ _ (λ w. refl)
                (λ _. persist_utxo_changes-ReadsOnly env block undo hash))))
