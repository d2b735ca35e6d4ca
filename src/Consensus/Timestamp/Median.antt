-- ===== src/Consensus/Timestamp/Median.antt =====
-- What `calcMedianTimePast` (internal/consensus/validation.go) computes.
use mathlib.Core.List.{reverse-cons}
use fairchain.Base.{
  ℕ, zero, suc, ◌+◌, ◌*◌, ◌-◌, ◌/◌, ◌≤◌, ◌<◌, ◌≡◌, refl, ◌∙◌, arith, false, List, [], ◌∷◌, ◌++◌,
  reverse, Option, length, length-append, get_or, get_or-append, ltb, ◌==◌, if◌then◌else◌, inl, inr,
  Bool-cases,
}
use fairchain.Types.Block.{BlockHeader}
use fairchain.Consensus.Timestamp.Defs.{
  median_count, collect_timestamps, insert_key, sort_from, sort_timestamps, calc_median_time_past,
}

-- How many members are below, and how many are above, a bound.
unfoldable pub count_below : ℕ → List ℕ → ℕ
count_below bound [] = 0
count_below bound (t ∷ ts) = (if ltb t bound then 1 else 0) + count_below bound ts

unfoldable pub count_above : ℕ → List ℕ → ℕ
count_above bound [] = 0
count_above bound (t ∷ ts) = (if ltb bound t then 1 else 0) + count_above bound ts

-- From the largest down.
unfoldable pub Descends : ℕ → List ℕ → Type 0
Descends most [] = Unit
Descends most (t ∷ ts) = (t ≤ most) × Descends t ts

insert_key-Descends :
    (most key : ℕ) (ts : List ℕ) → key ≤ most → Descends most ts → Descends most (insert_key key ts)
unfolding insert_key Descends
insert_key-Descends most key [] small h = (small, tt)
insert_key-Descends most key (t ∷ ts) small h = elim (Bool-cases (ltb key t)) [
  | inl less ↦ rw less (h.0, insert_key-Descends t key ts (ground arith) h.1)
  | inr more ↦ rw more (small, (ground arith, h.1))
]

Descends-le : (most more : ℕ) (ts : List ℕ) → most ≤ more → Descends most ts → Descends more ts
unfolding Descends
Descends-le most more [] h d = tt
Descends-le most more (t ∷ ts) h d = (omega (arith, d.0), d.1)

-- A bound of a list.
unfoldable pub largest : List ℕ → ℕ
largest [] = 0
largest (t ∷ ts) = t + largest ts

sort_from-Descends :
    (most : ℕ) (sorted rest : List ℕ)
    → largest rest ≤ most
    → Descends most sorted
    → Descends most (sort_from sorted rest)
unfolding sort_from largest
sort_from-Descends most sorted [] h d = d
sort_from-Descends most sorted (key ∷ rest) h d =
    sort_from-Descends most (insert_key key sorted) rest (omega arith)
      (insert_key-Descends most key sorted (omega arith) d)

module _ (bound : ℕ) where
  count_below-insert_key :
      (key : ℕ) (ts : List ℕ)
      → count_below bound (insert_key key ts)
        ≡ (if ltb key bound then 1 else 0) + count_below bound ts
  unfolding count_below insert_key
  count_below-insert_key key [] = refl
  count_below-insert_key key (t ∷ ts) = elim (Bool-cases (ltb key t)) [
    | inl less ↦ rw less (omega (arith, count_below-insert_key key ts))
    | inr more ↦ rw more refl
  ]

  count_above-insert_key :
      (key : ℕ) (ts : List ℕ)
      → count_above bound (insert_key key ts)
        ≡ (if ltb bound key then 1 else 0) + count_above bound ts
  unfolding count_above insert_key
  count_above-insert_key key [] = refl
  count_above-insert_key key (t ∷ ts) = elim (Bool-cases (ltb key t)) [
    | inl less ↦ rw less (omega (arith, count_above-insert_key key ts))
    | inr more ↦ rw more refl
  ]

  count_below-sort_from :
      (sorted rest : List ℕ)
      → count_below bound (sort_from sorted rest)
        ≡ count_below bound sorted + count_below bound rest
  unfolding sort_from count_below
  count_below-sort_from sorted [] = omega arith
  count_below-sort_from sorted (key ∷ rest) =
      omega (
        arith,
        count_below-sort_from (insert_key key sorted) rest,
        count_below-insert_key key sorted,
      )

  count_above-sort_from :
      (sorted rest : List ℕ)
      → count_above bound (sort_from sorted rest)
        ≡ count_above bound sorted + count_above bound rest
  unfolding sort_from count_above
  count_above-sort_from sorted [] = omega arith
  count_above-sort_from sorted (key ∷ rest) =
      omega (
        arith,
        count_above-sort_from (insert_key key sorted) rest,
        count_above-insert_key key sorted,
      )

  count_above-Descends : (ts : List ℕ) → Descends bound ts → count_above bound ts ≡ 0
  unfolding count_above Descends
  count_above-Descends [] d = refl
  count_above-Descends (t ∷ ts) d =
      ground (arith, count_above-Descends ts (Descends-le t bound ts d.0 d.1))

  count_below-length : (ts : List ℕ) → count_below bound ts ≤ length ts
  unfolding count_below
  count_below-length [] = omega arith
  count_below-length (t ∷ ts) = ground (arith, count_below-length ts)

length-insert_key : (key : ℕ) (ts : List ℕ) → length (insert_key key ts) ≡ suc (length ts)
unfolding insert_key
length-insert_key key [] = refl
length-insert_key key (t ∷ ts) = elim (Bool-cases (ltb key t)) [
  | inl less ↦ rw less (omega (arith, length-insert_key key ts))
  | inr more ↦ rw more refl
]

length-sort_from :
    (sorted rest : List ℕ) → length (sort_from sorted rest) ≡ length sorted + length rest
unfolding sort_from
length-sort_from sorted [] = omega arith
length-sort_from sorted (key ∷ rest) =
    omega (arith, length-sort_from (insert_key key sorted) rest, length-insert_key key sorted)

get_or-Descends : (most : ℕ) (ts : List ℕ) (j : ℕ) → Descends most ts → get_or ts j 0 ≤ most
unfolding Descends
get_or-Descends most [] j d = omega arith
get_or-Descends most (t ∷ ts) zero d = d.0
get_or-Descends most (t ∷ ts) (suc j) d = omega (arith, d.0, get_or-Descends t ts j d.1)

above-get_or :
    (most : ℕ) (ts : List ℕ) (j : ℕ)
    → Descends most ts
    → j < length ts
    → count_above (get_or ts j 0) ts ≤ j
unfolding Descends count_above
above-get_or most [] j d h = absurd (omega arith)
above-get_or most (t ∷ ts) zero d h = ground (arith, count_above-Descends t ts d.1)
above-get_or most (t ∷ ts) (suc j) d h = ground (arith, above-get_or t ts j d.1 (omega arith))

below-get_or :
    (most : ℕ) (ts : List ℕ) (j : ℕ)
    → Descends most ts
    → j < length ts
    → count_below (get_or ts j 0) ts + j < length ts
unfolding Descends count_below
below-get_or most [] j d h = absurd (omega arith)
below-get_or most (t ∷ ts) zero d h = ground (arith, count_below-length t ts)
below-get_or most (t ∷ ts) (suc j) d h =
    ground (arith, below-get_or t ts j d.1 (omega arith), get_or-Descends t ts j d.1)

length-reverse_native : (ts : List ℕ) → length (reverse ts) ≡ length ts
length-reverse_native [] = refl
length-reverse_native (t ∷ ts) =
    rw (reverse-cons t ts)
      (omega (arith, length-append {0} (reverse ts) (t ∷ []), length-reverse_native ts))

get_or-append_front :
    (xs ys : List ℕ) (i : ℕ) → i < length xs → get_or (xs ++ ys) i 0 ≡ get_or xs i 0
get_or-append_front [] ys i h = absurd (omega arith)
get_or-append_front (x ∷ xs) ys zero h = refl
get_or-append_front (x ∷ xs) ys (suc i) h = get_or-append_front xs ys i (omega arith)

get_or-reverse :
    (ts : List ℕ) (i j : ℕ) → i + j + 1 ≡ length ts → get_or (reverse ts) i 0 ≡ get_or ts j 0
get_or-reverse [] i j h = absurd (omega arith)
get_or-reverse (t ∷ ts) i zero h =
    let e : i ≡ length ts + 0 = omega arith in
    rw (reverse-cons t ts, e)
      (get_or-append (length ts) 0 (reverse ts) (t ∷ []) 0 (length-reverse_native ts))
get_or-reverse (t ∷ ts) i (suc j) h = rw (reverse-cons t ts) (
    get_or-append_front (reverse ts) (t ∷ []) i (omega (arith, length-reverse_native ts))
    ∙ get_or-reverse ts i j (omega arith))

Descends-nil : (most : ℕ) → Descends most []
unfolding Descends
Descends-nil most = tt

median-sort_timestamps :
    (ts : List ℕ)
    → 0 < length ts
    → (2 * count_below (get_or (sort_timestamps ts) (length ts / 2) 0) ts ≤ length ts)
      × (2 * count_above (get_or (sort_timestamps ts) (length ts / 2) 0) ts < length ts)
unfolding sort_timestamps count_below count_above
median-sort_timestamps ts h =
    let down = sort_from [] ts in
    let i = length ts / 2 in
    let j = length ts - 1 - i in
    let size : length down ≡ length ts = omega (arith, length-sort_from [] ts) in
    let d : Descends (largest ts) down =
      sort_from-Descends (largest ts) [] ts (omega arith) (Descends-nil (largest ts)) in
    let e : get_or (reverse down) i 0 ≡ get_or down j 0 = get_or-reverse down i j (omega arith) in
    let m = get_or down j 0 in
    rw e (
      omega
          (arith, below-get_or (largest ts) down j d (omega arith), count_below-sort_from m [] ts),
      omega
          (arith, above-get_or (largest ts) down j d (omega arith), count_above-sort_from m [] ts),
    )

-- The median time past is a median of the timestamps that are collected, where there are any: at
-- most half of them are below it, and fewer than half are above it.
pub calc_median_time_past-median :
    (tip_height : ℕ) (get_ancestor : ℕ → Option BlockHeader)
    → 0 < length (collect_timestamps median_count 0 tip_height get_ancestor)
    → (2
          * count_below
              (calc_median_time_past tip_height get_ancestor)
              (collect_timestamps median_count 0 tip_height get_ancestor)
        ≤ length (collect_timestamps median_count 0 tip_height get_ancestor))
      × (2
            * count_above
                (calc_median_time_past tip_height get_ancestor)
                (collect_timestamps median_count 0 tip_height get_ancestor)
          < length (collect_timestamps median_count 0 tip_height get_ancestor))
unfolding calc_median_time_past
calc_median_time_past-median tip_height get_ancestor some_time =
    let ts = collect_timestamps median_count 0 tip_height get_ancestor in
    let nonempty : (length ts == 0) ≡ false = ground arith in
    rw nonempty (median-sort_timestamps ts some_time)
