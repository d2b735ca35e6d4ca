-- ===== src/Types/Hash/Order.antt =====
-- `Less` and `LessOrEqual` are the order of the 256-bit numbers.
use fairchain.Base.{
  ℕ, zero, suc, ◌+◌, ◌*◌, ◌^◌, ◌≤◌, ◌<◌, ◌≡◌, refl, ap, Bool, true, false, List, [], ◌∷◌, length,
  All, get_or, take, ltb, leb, arith, if◌then◌else◌, Bool-cases, inl, inr, lt→ltb, ltb→lt, le→ltb,
  sym, ◌∙◌, take_all,
}
use mathlib.Core.Path.{◌≡⟨◌⟩◌, ◌∎}
use native.Mathlib.Nat.{pow-suc}
use fairchain.Base.Bytes.{IsByte, le_value, put_le, put_le-le_value, bytes_eq, bytes_eq_iff}
use fairchain.Types.Hash.Defs.{Hash, IsHash, less_from, less, less_or_equal, hash_size}

-- The first `n` bytes as a number: one byte more counts on top.
le_value-take_next :
    (n : ℕ) (h : Hash)
    → n < length h
    → le_value (take (suc n) h) ≡ le_value (take n h) + 256 ^ n * get_or h n 0
unfolding le_value
le_value-take_next n [] lt = absurd (omega arith)
le_value-take_next zero (b ∷ bs) lt = omega arith
le_value-take_next (suc n) (b ∷ bs) lt = omega (
  arith,
  le_value-take_next n bs (omega arith),
  ap (λ (t : ℕ). t * get_or bs n 0) (pow-suc 256 n),
)

le_value-take_lt : (n : ℕ) (h : Hash) → All IsByte h → le_value (take n h) < 256 ^ n
unfolding le_value
le_value-take_lt zero h v = omega arith
le_value-take_lt (suc n) [] v = omega (arith, le_value-take_lt n [] tt)
le_value-take_lt (suc n) (b ∷ bs) v = omega (arith, le_value-take_lt n bs v.1)

get_or-IsByte : (n : ℕ) (h : Hash) → All IsByte h → n < length h → get_or h n 0 < 256
get_or-IsByte n [] v lt = absurd (omega arith)
get_or-IsByte zero (b ∷ bs) v lt = v.0
get_or-IsByte (suc n) (b ∷ bs) v lt = get_or-IsByte n bs v.1 (omega arith)

-- The digit in front decides, and the rest decides on a tie.
digit_lt : (p x y a b : ℕ) → x < p → y < p → a < b → x + p * a < y + p * b
digit_lt p x y a b hx hy h = grind (arith, digit_mul p a b)
  where
    digit_mul : (p a b : ℕ) → a < b → p * a + p ≤ p * b
    digit_mul p a b h = grind arith

digits-ltb :
    (p x y a b : ℕ) (r : Bool)
    → x < p
    → y < p
    → r ≡ ltb x y
    → (if ltb a b then true else if ltb b a then false else r) ≡ ltb (x + p * a) (y + p * b)
digits-ltb p x y a b r hx hy e = elim (Bool-cases (ltb a b)) [
  | inl lt ↦ rw (lt, lt→ltb _ _ (digit_lt p x y a b hx hy (ltb→lt a b lt)))
  | inr ge ↦ elim (Bool-cases (ltb b a)) [
    | inl gt ↦
        let above : y + p * b < x + p * a = digit_lt p y x b a hy hx (ltb→lt b a gt) in
        rw (ge, gt, le→ltb (x + p * a) (y + p * b) (omega arith))
    | inr le ↦ let tie : a ≡ b = ground arith in rw (tie, e) (ground arith)
  ]
]

less_from-ltb :
    (n : ℕ) (h o : Hash)
    → All IsByte h
    → All IsByte o
    → n ≤ length h
    → n ≤ length o
    → less_from n h o ≡ ltb (le_value (take n h)) (le_value (take n o))
unfolding less_from
less_from-ltb zero h o vh vo lh lo = unfold le_value in refl
less_from-ltb (suc n) h o vh vo lh lo =
    digits-ltb (256 ^ n) (le_value (take n h)) (le_value (take n o)) (get_or h n 0) (get_or o n 0)
      (less_from n h o) (le_value-take_lt n h vh) (le_value-take_lt n o vo)
      (less_from-ltb n h o vh vo (omega arith) (omega arith))
    ∙ rw (le_value-take_next n h lh, le_value-take_next n o lo)

le_value-injective :
    (a b : List ℕ)
    → All IsByte a
    → All IsByte b
    → length a ≡ length b
    → le_value a ≡ le_value b
    → a ≡ b
le_value-injective a b va vb l e =
    a
    ≡⟨ sym (put_le-le_value a va) ⟩ put_le (length a) (le_value a)
    ≡⟨ (rw (l, e)) ⟩ put_le (length b) (le_value b)
    ≡⟨ put_le-le_value b vb ⟩ b ∎

-- `h.Less(other)` is the order of the two 256-bit little-endian numbers.
pub less-le_value :
    (h other : Hash) → IsHash h → IsHash other → less h other ≡ ltb (le_value h) (le_value other)
unfolding less
less-le_value h o vh vo =
    less_from-ltb hash_size h o vh.1 vo.1 (omega (arith, vh.0)) (omega (arith, vo.0))
    ∙ rw (take_all hash_size h vh.0, take_all hash_size o vo.0)

-- `h.LessOrEqual(other)` holds exactly when the 256-bit number of `h` is at most that of `other`.
pub less_or_equal-le_value :
    (h other : Hash)
    → IsHash h
    → IsHash other
    → less_or_equal h other ≡ leb (le_value h) (le_value other)
unfolding less_or_equal
less_or_equal-le_value h o vh vo = rw (less-le_value h o vh vo) (elim (Bool-cases (bytes_eq h o)) [
  | inl same ↦ let e : h ≡ o = (bytes_eq_iff h o).0 same in rw (same, e) (ground arith)
  | inr differ ↦
      rw differ (ground (arith, bytes_eq_iff h o, le_value-injective h o vh.1 vo.1, vh.0, vo.0))
])
