-- ===== src/Chain/Locator/Descent.antt =====
-- A locator goes down from the tip and ends at the genesis block.
use fairchain.Base.{
  ℕ, zero, suc, ◌+◌, ◌*◌, ◌^◌, ◌≤◌, ◌<◌, ◌≡◌, refl, ap, ◌∙◌, true, false, List, [], ◌∷◌, map,
  length, some, ◌==◌, arith, Bool-cases, inl, inr,
}
use native.Mathlib.Nat.{pow-suc}
use fairchain.Types.Hash.{Hash}
use fairchain.Chain.State.{ChainState, HeightMap, hash_at}
use fairchain.Chain.Locator.Defs.{below, next_step, locate, block_locator}

-- Heights below `top`, each below the one before it, down to 0.
abbrev pub DownToZero : ℕ → List ℕ → Type 0
DownToZero top [] = top ≡ 0
DownToZero top (h ∷ hs) = (h < top) × DownToZero h hs

-- Every height up to `top` is in the map.
abbrev pub Indexed : HeightMap → (ℕ → Hash) → ℕ → Type 0
Indexed m f top = (h : ℕ) → h ≤ top → hash_at h m ≡ some (f h)

module _ (m : HeightMap) (f : ℕ → Hash) where
  -- The heights of a locator that starts at `top` and has `size` hashes at most.
  abbrev Descent : ℕ → ℕ → List Hash → Type 0
  Descent size top hashes =
      (hs : List ℕ) × (hashes ≡ (f top ∷ map f hs)) × DownToZero top hs × (length hs < size)

  locate-at_zero :
      (left height step count : ℕ)
      → hash_at height m ≡ some (f height)
      → (height == 0) ≡ true
      → locate (suc left) m height step count ≡ (f height ∷ [])
  unfolding locate
  locate-at_zero left height step count there at_end = rw (there, at_end, locate) refl

  locate-above :
      (left height step count : ℕ)
      → hash_at height m ≡ some (f height)
      → (height == 0) ≡ false
      → locate (suc left) m height step count
        ≡ (f height ∷ locate left m (below height step) (next_step (count + 1) step) (count + 1))
  unfolding locate
  locate-above left height step count there above = rw (there, above, locate) refl

  -- One round, from what the rounds after it give.
  locate-round :
      (left height step count : ℕ)
      → Indexed m f height
      → (0 < height → 1 ≤ step)
      → (0 < height
          → Descent left
              (below height step)
              (locate left m (below height step) (next_step (count + 1) step) (count + 1)))
      → Descent (suc left) height (locate (suc left) m height step count)
  locate-round left height step count there pos rest = elim (Bool-cases (height == 0)) [
    | inl at_end ↦ (
      [],
      locate-at_zero left height step count (there height (omega arith)) at_end,
      ground (arith),
      omega arith,
    )
    | inr above ↦
        let (hs, e, down, short) = rest (ground arith) in
        let lower : below height step < height = ground (arith, pos (ground arith)) in
        (
          below height step ∷ hs,
          locate-above left height step count (there height (omega arith)) above
              ∙ ap (λ (t : List Hash). f height ∷ t) e,
          (lower, down),
          omega (arith, short),
        )
  ]

  Indexed-below : (height step : ℕ) → Indexed m f height → Indexed m f (below height step)
  Indexed-below height step there h le = there h (ground (arith))

  -- Once the steps double: `k` of them cover every height below `step * 2 ^ k`.
  abbrev Covered : ℕ → ℕ → ℕ → Type 0
  Covered k height step =
      0 < height → (1 ≤ step) × (height + step ≤ step * 2 ^ k) × (step * 2 ^ k ≤ 2 ^ 32)

  Covered-next :
      (k height step count : ℕ)
      → 10 ≤ count
      → 0 < height
      → Covered (suc k) height step
      → Covered k (below height step) (next_step (count + 1) step)
  Covered-next k height step count late up covered up' =
      let (pos, cover, small) = covered up in
      let e : step * 2 ^ suc k ≡ step * 2 * 2 ^ k = twice k step in
      let doubled : next_step (count + 1) step ≡ step * 2 = ground (arith, e, cover, small, up') in
      rw doubled (omega (arith, pos), ground (arith, e, cover, up'), omega (arith, e, small))
    where
      twice : (k step : ℕ) → step * 2 ^ suc k ≡ step * 2 * 2 ^ k
      twice k step = rw (pow-suc 2 k) (grind arith)

  locate-doubling :
      (k height step count : ℕ)
      → Indexed m f height
      → 10 ≤ count
      → Covered k height step
      → Descent (suc k) height (locate (suc k) m height step count)
  locate-doubling zero height step count there late covered =
      locate-round zero height step count there (λ up. (covered up).0)
        (λ up. absurd (omega (arith, (covered up).1)))
  locate-doubling (suc k) height step count there late covered =
      locate-round (suc k) height step count there (λ up. (covered up).0)
        (λ up.
          locate-doubling k (below height step) (next_step (count + 1) step) (count + 1)
            (Indexed-below height step there) (omega arith)
            (Covered-next k height step count late up covered))

  -- The first rounds, whose step is 1: `early` of them are left before the steps double.
  locate-early :
      (early left height count : ℕ)
      → Indexed m f height
      → count + early ≡ 10
      → left ≡ early + 33
      → height < 2 ^ 32
      → Descent left height (locate left m height 1 count)
  locate-early zero left height count there late rounds small = rw rounds (
      locate-doubling 32 height 1 count there (omega arith)
        (λ up. (omega arith, omega arith, omega arith)))
  locate-early (suc early) zero height count there late rounds small =
      absurd (omega (arith, rounds))
  locate-early (suc early) (suc left) height count there late rounds small =
      locate-round left height 1 count there (λ _. omega arith)
        (λ up.
          let same : next_step (count + 1) 1 ≡ 1 = ground (arith) in
          rw same (
            locate-early early left (below height 1) (count + 1) (Indexed-below height 1 there)
              (omega (arith, late)) (omega (arith, rounds)) (ground (arith))))

-- Where every height up to the tip is in the index, the locator is the tip's hash and the hashes of
-- heights that go down strictly from it and end at 0, in 43 hashes at most.
pub block_locator-DownToZero :
    (c : ChainState) (f : ℕ → Hash)
    → Indexed c.hash_by_height f c.tip_height
    → c.tip_height < 2 ^ 32
    → (hs : List ℕ) × (block_locator c ≡ (f c.tip_height ∷ map f hs))
      × DownToZero c.tip_height hs
      × (length hs < 43)
unfolding block_locator
block_locator-DownToZero c f there small =
    locate-early c.hash_by_height f 10 43 c.tip_height 0 there refl refl small
