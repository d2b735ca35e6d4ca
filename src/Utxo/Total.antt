-- ===== src/Utxo/Total.antt =====
-- `TotalValue` is the sum of the values, kept at the largest uint64 where it does not fit.
use Prim.Native.Nat.{min}
use fairchain.Base.{ℕ, ◌+◌, ◌-◌, ◌%◌, ◌^◌, ◌<◌, ◌≡◌, [], ◌∷◌, All, arith}
use fairchain.Base.Bytes.{IsU64}
use fairchain.Utxo.Set.{UtxoSet, add_values, total_value}

abbrev pub sum_values : UtxoSet → ℕ
sum_values [] = 0
sum_values ((k, e) ∷ s) = e.value + sum_values s

add_values-min :
    (s : UtxoSet) (total : ℕ)
    → All (λ p. IsU64 (p.1).value) s
    → total < 2 ^ 64
    → add_values s total ≡ min (total + sum_values s) (2 ^ 64 - 1)
unfolding add_values
add_values-min [] total v h = omega arith
add_values-min ((k, e) ∷ s) total v h =
    ground (arith, add_values-min s ((total + e.value) % 2 ^ 64) v.1)

-- `TotalValue` of a set of uint64 values is their sum where that fits 64 bits, and the largest
-- uint64 where it does not. So it does not depend on the order in which the map is walked.
total_value-min :
    (s : UtxoSet) → All (λ p. IsU64 (p.1).value) s → total_value s ≡ min (sum_values s) (2 ^ 64 - 1)
unfolding total_value
total_value-min s v = omega (arith, add_values-min s 0 v (omega arith))
