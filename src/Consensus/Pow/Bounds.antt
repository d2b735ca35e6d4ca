-- ===== src/Consensus/Pow/Bounds.antt =====
-- How far an adjustment moves the target (internal/consensus/pow/engine.go).
use native.Mathlib.Nat.{div-lt_iff_lt-mul, mul-le-mul_left}
use fairchain.Base.{ℕ, ◌+◌, ◌*◌, ◌/◌, ◌≤◌, ◌<◌, ◌≡◌, arith, false}
use fairchain.Crypto.Target.{BigInt}
use fairchain.Consensus.Pow.Defs.{clamp_timespan, scale_target}

clamp_timespan-bounds :
    (last first target : ℕ)
    → (target / 4 ≤ clamp_timespan last first target)
      × (clamp_timespan last first target ≤ target * 4)
unfolding clamp_timespan
clamp_timespan-bounds last first target = ground arith

-- Where the target timespan is positive and the old target is not negative, the adjustment by the
-- clamped timespan, whatever the two timestamps are, makes a target of at most four times the old
-- size; and one more than the new size, times the target timespan, exceeds the old size times a
-- quarter of that timespan.
pub scale_target-clamp_timespan :
    (old : BigInt) (last first target : ℕ)
    → 0 < target
    → old.negative ≡ false
    → ((scale_target old (clamp_timespan last first target) target).magnitude ≤ 4 * old.magnitude)
      × (old.magnitude * (target / 4)
          < ((scale_target old (clamp_timespan last first target) target).magnitude + 1) * target)
unfolding scale_target
scale_target-clamp_timespan old last first target positive plain =
    let (low, high) = clamp_timespan-bounds last first target in
    let a = clamp_timespan last first target in
    let o = old.magnitude in
    let most : o * a ≤ o * (target * 4) = mul-le-mul_left o high in
    let least : o * (target / 4) ≤ o * a = mul-le-mul_left o low in
    let below : o * a < (4 * o + 1) * target = grind (arith, most, positive) in
    let upper : o * a / target < 4 * o + 1 = (div-lt_iff_lt-mul positive).1 below in
    let rest : o * a < (o * a / target + 1) * target =
      (div-lt_iff_lt-mul positive).0 (omega arith) in
    rw plain (omega (arith, upper), omega (arith, least, rest))
