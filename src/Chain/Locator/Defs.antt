-- ===== src/Chain/Locator/Defs.antt =====
-- The loop of `BlockLocator` over uint32 heights. It has no bound of its own: 43 rounds are enough for
-- every uint32 height.
use fairchain.Base.{
  ℕ, zero, suc, ◌+◌, ◌-◌, ◌*◌, ◌%◌, ◌^◌, true, false, List, [], ◌∷◌, none, some, ltb, ◌==◌,
  if◌then◌else◌,
}
use fairchain.Types.Hash.{Hash}
use fairchain.Chain.State.{ChainState, HeightMap, hash_at}

abbrev pub below : ℕ → ℕ → ℕ
below height step = if ltb height step then 0 else height - step

-- `count` is the length of the locator with the hash of this round.
abbrev pub next_step : ℕ → ℕ → ℕ
next_step count step = if ltb 10 count then step * 2 % 2 ^ 32 else step

-- `count` hashes are in the locator.
unfoldable pub locate : ℕ → HeightMap → ℕ → ℕ → ℕ → List Hash
locate zero m height step count = []
locate (suc left) m height step count = elim (hash_at height m) [
  | none ↦ []
  | some hash ↦ hash ∷ elim (height == 0) [
    | true ↦ []
    | false ↦ locate left m (below height step) (next_step (count + 1) step) (count + 1)
  ]
]

abbrev pub locator_rounds : ℕ
locator_rounds = 43

unfoldable pub block_locator : ChainState → List Hash
block_locator c = locate locator_rounds c.hash_by_height c.tip_height 1 0
