-- ===== src/Types/Varint/Codec.antt =====
-- The variable-length integers are a codec, and the two readers agree.
use fairchain.Base.{
  ℕ, suc, ◌+◌, ◌%◌, ◌^◌, ◌≤◌, ◌<◌, ◌≡◌, refl, ◌∙◌, List, [], ◌∷◌, ◌++◌, length, All, take, drop,
  ltb, ◌==◌, ==_iff, if◌then◌else◌, Outcome, ok, err, panic, arith, Option, none, some, inl, inr,
  Bool-cases, true, false, le→ltb,
}
use fairchain.Base.Bytes.{
  IsByte, IsU64, put_le, le_value, le_value-put_le, length-put_le, put_le-le_value, put_le-IsByte,
  le_value-lt,
}
use native.Mathlib.Decide.{dec_lt}
use fairchain.Types.Reader.{
  read_full, pure, >>=-reads, IsCodec, ReadError, short_read, read_full-append, read_full-reads,
  read_full-All, >>=-ok, >>=-err, noncanonical, reject_if-reads,
}
use fairchain.Types.Varint.Defs.{
  put_varint, varint_size, read_wide, read_by_discriminant, read_varint, wide_from_bytes,
  read_varint_from_bytes, BytesError,
}

wide_reads :
    (n low v : ℕ) (rest : List ℕ)
    → v < 256 ^ n
    → low ≤ v
    → read_wide n low (put_le n v ++ rest) ≡ ok (v, rest)
unfolding read_wide
wide_reads n low v rest fits ge =
    let value : le_value (put_le n v) ≡ v = le_value-put_le n v fits in
    >>=-ok (read_full n) _ (read_full-append n (put_le n v) rest (length-put_le n v))
    ∙ rw (value, le→ltb v low ge)

wide_canonical :
    (n low v : ℕ) (bs rest : List ℕ)
    → All IsByte bs
    → read_wide n low bs ≡ ok (v, rest)
    → (v < 256 ^ n) × (low ≤ v) × (bs ≡ put_le n v ++ rest) × All IsByte rest
unfolding read_wide
wide_canonical n low v bs rest vb h =
    let (buf, mid, e, k) = >>=-reads (read_full n) _ bs h in
    let (big, r) = reject_if-reads (ltb (le_value buf) low) _ _ mid k in
    let (len, split) = read_full-reads n bs buf mid e in
    let (vbuf, vmid) = read_full-All n bs buf mid e vb in
    let bound : le_value buf < 256 ^ length buf = le_value-lt buf vbuf in
    let spelled : put_le (length buf) (le_value buf) ≡ buf = put_le-le_value buf vbuf in
    ground (arith, r, big, len, split, bound, spelled, vmid)

module _ (v : ℕ) where
  varint_one : v < 0xfd → put_varint v ≡ v ∷ []
  unfolding put_varint
  varint_one h = ground arith

  varint_two : 0xfd ≤ v → v < 256 ^ 2 → put_varint v ≡ 0xfd ∷ put_le 2 v
  unfolding put_varint
  varint_two h k = let low : v % 2 ^ 16 ≡ v = omega arith in rw low (ground arith)

  varint_four : 0x1_0000 ≤ v → v < 256 ^ 4 → put_varint v ≡ 0xfe ∷ put_le 4 v
  unfolding put_varint
  varint_four h k = let low : v % 2 ^ 32 ≡ v = omega arith in rw low (ground arith)

  varint_eight : 0x1_0000_0000 ≤ v → put_varint v ≡ 0xff ∷ put_le 8 v
  unfolding put_varint
  varint_eight h = ground arith

read_varint_step : (d : ℕ) (bs : List ℕ) → read_varint (d ∷ bs) ≡ read_by_discriminant d bs
unfolding read_varint
read_varint_step d bs = >>=-ok (read_full 1) _ (read_full-append 1 (d ∷ []) bs refl)

read_plain : (d : ℕ) (bs : List ℕ) → d < 0xfd → read_by_discriminant d bs ≡ ok (d, bs)
unfolding read_by_discriminant
read_plain d bs h = ground arith

-- Every uint64 that `PutVarInt` writes is read back by `ReadVarInt`, with the bytes after it left.
pub read_varint-put_varint :
    (v : ℕ) (rest : List ℕ) → IsU64 v → read_varint (put_varint v ++ rest) ≡ ok (v, rest)
read_varint-put_varint v rest h = elim (dec_lt v 0xfd) [
  | yes one ↦ rw (varint_one v one) (read_varint_step v rest ∙ read_plain v rest one)
  | no wide ↦ elim (dec_lt v (256 ^ 2)) [
    | yes two ↦ rw (varint_two v (omega arith) two) (
        read_varint_step 0xfd (put_le 2 v ++ rest)
        ∙ unfold read_by_discriminant in wide_reads 2 0xfd v rest two (omega arith))
    | no wider ↦ elim (dec_lt v (256 ^ 4)) [
      | yes four ↦ rw (varint_four v (omega arith) four) (
          read_varint_step 0xfe (put_le 4 v ++ rest)
          ∙ unfold read_by_discriminant in wide_reads 4 0x1_0000 v rest four (omega arith))
      | no widest ↦ rw (varint_eight v (omega arith)) (
          read_varint_step 0xff (put_le 8 v ++ rest)
          ∙ unfold read_by_discriminant in
            wide_reads 8 0x1_0000_0000 v rest (omega arith) (omega arith))
    ]
  ]
]

wide_spelled :
    (d n low v : ℕ) (bs rest : List ℕ)
    → All IsByte bs
    → ((w : ℕ) → low ≤ w → w < 256 ^ n → put_varint w ≡ d ∷ put_le n w)
    → 256 ^ n ≤ 2 ^ 64
    → read_wide n low bs ≡ ok (v, rest)
    → IsU64 v × (d ∷ bs ≡ put_varint v ++ rest) × All IsByte rest
wide_spelled d n low v bs rest vb spell small h =
    let (fits, ge, split, vr) = wide_canonical n low v bs rest vb h in
    (omega arith, rw (spell v ge fits, split), vr)

plain_form :
    (d : ℕ) (bs : List ℕ) (v : ℕ) (rest : List ℕ)
    → All IsByte (d ∷ bs)
    → d < 0xfd
    → pure d bs ≡ ok (v, rest)
    → IsU64 v × (d ∷ bs ≡ put_varint v ++ rest) × All IsByte rest
plain_form d bs v rest vb small h = ground (arith, varint_one d small, vb.1)

by_discriminant-canonical :
    (d : ℕ) (bs : List ℕ) (v : ℕ) (rest : List ℕ)
    → All IsByte (d ∷ bs)
    → read_by_discriminant d bs ≡ ok (v, rest)
    → IsU64 v × (d ∷ bs ≡ put_varint v ++ rest) × All IsByte rest
unfolding read_by_discriminant
by_discriminant-canonical d bs v rest vb h = elim (Bool-cases (d == 0xfd)) [
  | inl two ↦
      let e : d ≡ 0xfd = (==_iff d 0xfd).0 two in
      rw e (wide_spelled 0xfd 2 0xfd v bs rest vb.1 varint_two (omega arith) (rw two at h))
  | inr not_two ↦ elim (Bool-cases (d == 0xfe)) [
    | inl four ↦
        let e : d ≡ 0xfe = (==_iff d 0xfe).0 four in
        rw e (
          wide_spelled 0xfe 4 0x1_0000 v bs rest vb.1 varint_four (omega arith)
            (rw (not_two, four) at h))
    | inr not_four ↦ elim (Bool-cases (d == 0xff)) [
      | inl eight ↦
          let e : d ≡ 0xff = (==_iff d 0xff).0 eight in
          rw e (
            wide_spelled 0xff 8 0x1_0000_0000 v bs rest vb.1 (λ w low _. varint_eight w low)
              (omega arith) (rw (not_two, not_four, eight) at h))
      | inr plain ↦
          plain_form d bs v rest vb (ground (arith, vb.0)) (rw (not_two, not_four, plain) at h)
    ]
  ]
]

-- `ReadVarInt` accepts only the shortest spelling: what it reads is a uint64, and the bytes taken
-- are those that `PutVarInt` writes for it.
read_varint-canonical :
    (bs : List ℕ) (v : ℕ) (rest : List ℕ)
    → All IsByte bs
    → read_varint bs ≡ ok (v, rest)
    → IsU64 v × (bs ≡ put_varint v ++ rest) × All IsByte rest
read_varint-canonical [] v rest vb h = unfold read_varint read_full in cc
read_varint-canonical (d ∷ bs) v rest vb h =
    by_discriminant-canonical d bs v rest vb (rw (read_varint_step d bs) at h)

pub varint-IsCodec : IsCodec put_varint read_varint IsU64
varint-IsCodec = record { reads = read_varint-put_varint; canonical = read_varint-canonical }

-- `VarIntSize` is the length of what `PutVarInt` writes.
pub length-put_varint : (v : ℕ) → length (put_varint v) ≡ varint_size v
unfolding put_varint varint_size
length-put_varint v =
    ground (arith, length-put_le 2 (v % 2 ^ 16), length-put_le 4 (v % 2 ^ 32), length-put_le 8 v)

pub put_varint-IsByte : (v : ℕ) → All IsByte (put_varint v)
unfolding put_varint
put_varint-IsByte v =
    ground (arith, put_le-IsByte 2 (v % 2 ^ 16), put_le-IsByte 4 (v % 2 ^ 32), put_le-IsByte 8 v)

-- The number that a reader returns, if it returns one.
pub from_reader : Outcome ReadError (ℕ × List ℕ) → Option ℕ
from_reader (ok (v, rest)) = some v
from_reader (err e) = none
from_reader panic = none

pub from_bytes : Outcome BytesError ℕ → Option ℕ
from_bytes (ok v) = some v
from_bytes (err e) = none
from_bytes panic = none

wide_short :
    (n low : ℕ) (bs : List ℕ) → ltb (length bs) n ≡ true → read_wide n low bs ≡ err short_read
unfolding read_wide read_full
wide_short n low bs h = >>=-err (read_full n) _ (rw h)

wide_enough :
    (n low : ℕ) (bs : List ℕ)
    → ltb (length bs) n ≡ false
    → read_wide n low bs ≡ (
        if ltb (le_value (take n bs)) low
        then err noncanonical
        else ok (le_value (take n bs), drop n bs))
unfolding read_wide read_full
wide_enough n low bs h =
    let value = le_value (take n bs) in
    >>=-ok (read_full n) _ {mid = drop n bs} {a = take n bs} (rw h)
    ∙ elim (Bool-cases (ltb value low)) [ inl low' ↦ rw low' | inr high ↦ rw high ]

wide_agrees :
    (d n low : ℕ) (bs : List ℕ)
    → from_bytes (wide_from_bytes (d ∷ bs) n low) ≡ from_reader (read_wide n low bs)
unfolding wide_from_bytes from_bytes from_reader
wide_agrees d n low bs =
    let shift : ltb (suc (length bs)) (n + 1) ≡ ltb (length bs) n = ground arith in
    elim (Bool-cases (ltb (length bs) n)) [
      | inl short ↦ rw (shift, short, wide_short n low bs short)
      | inr enough ↦
          rw (shift, enough, wide_enough n low bs enough)
            (elim (Bool-cases (ltb (le_value (take n bs)) low)) [
              | inl low' ↦ rw low'
              | inr high ↦ rw high
            ])
    ]

nonempty : (bs : List ℕ) → (suc (length bs) == 0) ≡ false
nonempty bs = ground arith

-- On every input `ReadVarIntFromBytes` and `ReadVarInt` return the same number, or both fail.
pub read_varint_from_bytes-read_varint :
    (bs : List ℕ) → from_bytes (read_varint_from_bytes bs) ≡ from_reader (read_varint bs)
read_varint_from_bytes-read_varint [] =
    unfold read_varint_from_bytes read_varint read_full from_bytes from_reader in refl
read_varint_from_bytes-read_varint (d ∷ bs) = rw (read_varint_step d bs) (by_discriminant d bs)
  where
    by_discriminant :
        (d : ℕ) (bs : List ℕ)
        → from_bytes (read_varint_from_bytes (d ∷ bs)) ≡ from_reader (read_by_discriminant d bs)
    by_discriminant d bs = elim (Bool-cases (d == 0xfd)) [
      | inl two ↦
          unfold read_varint_from_bytes read_by_discriminant in
          rw (nonempty bs, two) (wide_agrees d 2 0xfd bs)
      | inr n2 ↦ elim (Bool-cases (d == 0xfe)) [
        | inl four ↦
            unfold read_varint_from_bytes read_by_discriminant in
            rw (nonempty bs, n2, four) (wide_agrees d 4 0x1_0000 bs)
        | inr n4 ↦ elim (Bool-cases (d == 0xff)) [
          | inl eight ↦
              unfold read_varint_from_bytes read_by_discriminant in
              rw (nonempty bs, n2, n4, eight) (wide_agrees d 8 0x1_0000_0000 bs)
          | inr n8 ↦
              unfold read_varint_from_bytes read_by_discriminant from_bytes from_reader in
              rw (nonempty bs, n2, n4, n8)
        ]
      ]
    ]

pub read_varint_from_bytes-put_varint :
    (v : ℕ) (rest : List ℕ) → IsU64 v → read_varint_from_bytes (put_varint v ++ rest) ≡ ok v
read_varint_from_bytes-put_varint v rest h =
    only_value (read_varint_from_bytes (put_varint v ++ rest)) (
      read_varint_from_bytes-read_varint (put_varint v ++ rest)
      ∙ rw (read_varint-put_varint v rest h) (unfold from_reader in refl))
  where
    only_value : (o : Outcome BytesError ℕ) → from_bytes o ≡ some v → o ≡ ok v
    only_value (ok w) e = unfold from_bytes in cc
    only_value (err x) e = unfold from_bytes in cc
    only_value panic e = unfold from_bytes in cc

pub varint_size-le : (v : ℕ) → varint_size v ≤ 9
unfolding varint_size
varint_size-le v = ground arith

pub varint_size-pos : (v : ℕ) → 1 ≤ varint_size v
unfolding varint_size
varint_size-pos v = ground arith
