-- ===== src/Store/Record/Codec.antt =====
-- A stored record of the block index is read back, and what is read was so stored.
use mathlib.Core.List.{append_assoc, reverse-cons, reverse-reverse}
use fairchain.Base.{
  ℕ, ◌^◌, ◌<◌, ◌≤◌, ◌≡◌, refl, ap, ◌∙◌, List, [], ◌∷◌, ◌++◌, length, reverse, Option, none, some,
  All, All-append, length-append, ltb, ok, err, panic, ok-eq, ok-injective, arith, le→ltb, lt→ltb,
  Bool-cases, inl, inr, Outcome,
}
use fairchain.Base.Bytes.{
  IsByte, put_le, le_value, length-put_le, le_value-put_le, put_le-le_value, le_value-lt,
}
use fairchain.Types.Reader.{
  ReadError, >>=-ok, read_full, read_full-append, step-reads, step-canonical, le-IsCodec,
  array-IsCodec,
}
use fairchain.Types.Block.{serialize_header}
use fairchain.Types.Block.Codec.{header-IsCodec, length-serialize_header}
use fairchain.Store.Index.{DiskBlockIndex}
use fairchain.Store.Record.Defs.{
  put_big, big_value, work_bytes, serialize_words, serialize_record, read_record,
  deserialize_record, stored, work_or_zero, RecordFits,
}

length-reverse : (bs : List ℕ) → length (reverse bs) ≡ length bs
length-reverse [] = refl
length-reverse (b ∷ bs) =
    rw (reverse-cons b bs)
      (omega (arith, length-append {0} (reverse bs) (b ∷ []), length-reverse bs))

big_value-put_big : (n v : ℕ) → v < 256 ^ n → big_value (put_big n v) ≡ v
unfolding big_value put_big
big_value-put_big n v h = rw (reverse-reverse (put_le n v)) (le_value-put_le n v h)

length-put_big : (n v : ℕ) → length (put_big n v) ≡ n
unfolding put_big
length-put_big n v = length-reverse (put_le n v) ∙ length-put_le n v

-- What is written for a work that fits.
work_bytes-put_big :
    (work : Option ℕ)
    → work_or_zero work < 2 ^ 256
    → work_bytes work ≡ ok (put_big 32 (work_or_zero work))
unfolding work_bytes
work_bytes-put_big none h = refl
work_bytes-put_big (some work) h = rw (lt→ltb work (2 ^ 256) h)

abbrev encoding : DiskBlockIndex → List ℕ
encoding d =
    serialize_words d ++ (serialize_header d.header ++ put_big 32 (work_or_zero d.chain_work))

serialize_record-encoding :
    (d : DiskBlockIndex) → RecordFits d → serialize_record d ≡ ok (encoding d)
unfolding serialize_record
serialize_record-encoding d v = rw (serialize_record, work_bytes-put_big d.chain_work v.chain_work)

length-encoding : (d : DiskBlockIndex) → RecordFits d → length (encoding d) ≡ 148
unfolding serialize_words
length-encoding d v = simp length-append (
    rw (
      length-put_le 4 d.height,
      length-put_le 4 d.status,
      length-put_le 4 d.tx_count,
      length-put_le 4 d.file_num,
      length-put_le 4 d.data_pos,
      length-put_le 4 d.data_size,
      length-put_le 4 d.undo_file,
      length-put_le 4 d.undo_pos,
      length-put_le 4 d.undo_size,
      length-serialize_header d.header v.header,
      length-put_big 32 (work_or_zero d.chain_work),
    ))

read_record-encoding :
    (d : DiskBlockIndex) (rest : List ℕ)
    → RecordFits d
    → read_record (encoding d ++ rest) ≡ ok (stored d, rest)
unfolding read_record serialize_words
read_record-encoding d rest v = simp append_assoc (
    step-reads (le-IsCodec 4) _ d.height _ (omega (arith, v.height))
    ∙ step-reads (le-IsCodec 4) _ d.status _ (omega (arith, v.status))
    ∙ step-reads (le-IsCodec 4) _ d.tx_count _ (omega (arith, v.tx_count))
    ∙ step-reads (le-IsCodec 4) _ d.file_num _ (omega (arith, v.file_num))
    ∙ step-reads (le-IsCodec 4) _ d.data_pos _ (omega (arith, v.data_pos))
    ∙ step-reads (le-IsCodec 4) _ d.data_size _ (omega (arith, v.data_size))
    ∙ step-reads (le-IsCodec 4) _ d.undo_file _ (omega (arith, v.undo_file))
    ∙ step-reads (le-IsCodec 4) _ d.undo_pos _ (omega (arith, v.undo_pos))
    ∙ step-reads (le-IsCodec 4) _ d.undo_size _ (omega (arith, v.undo_size))
    ∙ step-reads header-IsCodec _ d.header _ v.header
    ∙ >>=-ok (read_full 32) _ (
        read_full-append 32 (put_big 32 (work_or_zero d.chain_work)) rest
          (length-put_big 32 (work_or_zero d.chain_work)))
    ∙ ap (λ w. ok (record d { chain_work = some w }, rest))
        (big_value-put_big 32 (work_or_zero d.chain_work) v.chain_work))

deserialize_record-reads :
    (bs : List ℕ) {d : DiskBlockIndex} {rest : List ℕ}
    → 148 ≤ length bs
    → read_record bs ≡ ok (d, rest)
    → deserialize_record bs ≡ ok d
unfolding deserialize_record
deserialize_record-reads bs h e = rw (le→ltb (length bs) 148 h, e)

-- A record whose fields are those of Go's types and whose work is below 2^256 is stored in 148 bytes,
-- without a panic, and is decoded from them, whatever follows them, except that a nil work becomes
-- zero.
pub deserialize_record-serialize_record :
    (d : DiskBlockIndex) (rest : List ℕ)
    → RecordFits d
    → (bs : List ℕ) × (serialize_record d ≡ ok bs)
      × (length bs ≡ 148)
      × (deserialize_record (bs ++ rest) ≡ ok (stored d))
deserialize_record-serialize_record d rest v = (
  encoding d,
  serialize_record-encoding d v,
  length-encoding d v,
  deserialize_record-reads (encoding d ++ rest)
      (omega (arith, length-append (encoding d) rest, length-encoding d v))
      (read_record-encoding d rest v),
)

All-reverse : (bs : List ℕ) → All IsByte bs → All IsByte (reverse bs)
All-reverse [] h = tt
All-reverse (b ∷ bs) h =
    rw (reverse-cons b bs) (All-append IsByte (reverse bs) (b ∷ []) (All-reverse bs h.1) (h.0, tt))

big_value-lt : (bs : List ℕ) → All IsByte bs → length bs ≡ 32 → big_value bs < 2 ^ 256
unfolding big_value
big_value-lt bs h e =
    let bound = le_value-lt (reverse bs) (All-reverse bs h) in rw (length-reverse bs, e) at bound

put_big-big_value :
    (n : ℕ) (bs : List ℕ) → All IsByte bs → length bs ≡ n → put_big n (big_value bs) ≡ bs
unfolding put_big big_value
put_big-big_value n bs h len =
    let e : put_le (length (reverse bs)) (le_value (reverse bs)) ≡ reverse bs =
      put_le-le_value (reverse bs) (All-reverse bs h) in
    rw (← len, ← length-reverse bs, e) (reverse-reverse bs)

deserialize_record-read :
    (bs : List ℕ) (d : DiskBlockIndex)
    → deserialize_record bs ≡ ok d
    → (rest : List ℕ) × (read_record bs ≡ ok (d, rest))
unfolding deserialize_record
deserialize_record-read bs d h = elim (Bool-cases (ltb (length bs) 148)) [
  | inl short ↦ cc (rw short at h)
  | inr enough ↦ go (read_record bs) (rw enough at h)
]
  where
    go :
        (o : Outcome ReadError (DiskBlockIndex × List ℕ))
        → elim o [ ok (d', rest) ↦ ok d' | err e ↦ err e | panic ↦ panic ] ≡ ok d
        → (rest : List ℕ) × (o ≡ ok (d, rest))
    go (ok (d', rest)) h = (rest, ap (λ r. ok (r, rest)) (ok-injective h))
    go (err e) h = cc
    go panic h = cc

read_record-canonical :
    (bs : List ℕ) (d : DiskBlockIndex) (rest : List ℕ)
    → All IsByte bs
    → read_record bs ≡ ok (d, rest)
    → RecordFits d × (bs ≡ encoding d ++ rest)
unfolding read_record serialize_words
read_record-canonical bs d rest vb h =
    step-canonical (le-IsCodec 4) _ bs vb h λ height b1 v1 e1 a1 k1.
      step-canonical (le-IsCodec 4) _ b1 a1 k1 λ status b2 v2 e2 a2 k2.
        step-canonical (le-IsCodec 4) _ b2 a2 k2 λ tx_count b3 v3 e3 a3 k3.
          step-canonical (le-IsCodec 4) _ b3 a3 k3 λ file_num b4 v4 e4 a4 k4.
            step-canonical (le-IsCodec 4) _ b4 a4 k4 λ data_pos b5 v5 e5 a5 k5.
              step-canonical (le-IsCodec 4) _ b5 a5 k5 λ data_size b6 v6 e6 a6 k6.
                step-canonical (le-IsCodec 4) _ b6 a6 k6 λ undo_file b7 v7 e7 a7 k7.
                  step-canonical (le-IsCodec 4) _ b7 a7 k7 λ undo_pos b8 v8 e8 a8 k8.
                    step-canonical (le-IsCodec 4) _ b8 a8 k8 λ undo_size b9 v9 e9 a9 k9.
                      step-canonical header-IsCodec _ b9 a9 k9 λ header b10 v10 e10 a10 k10.
                        step-canonical (array-IsCodec 32) _ b10 a10 k10 λ work b11 v11 e11 a11 k11.
                          let (ed, er) = ok-eq k11 in
                          rw (← ed, ← er)
                            (
                              record {
                                header = v10;
                                height = v1;
                                status = v2;
                                tx_count = v3;
                                file_num = v4;
                                data_pos = v5;
                                data_size = v6;
                                undo_file = v7;
                                undo_pos = v8;
                                undo_size = v9;
                                chain_work = big_value-lt work v11.1 v11.0;
                              },
                              simp (
                                e1,
                                e2,
                                e3,
                                e4,
                                e5,
                                e6,
                                e7,
                                e8,
                                e9,
                                e10,
                                e11,
                                put_big-big_value 32 work v11.1 v11.0,
                                append_assoc,
                              ),
                            )

-- Every record that is decoded from bytes is well formed, and stores as the front of those bytes: a
-- record has one encoding.
pub deserialize_record-canonical :
    (bs : List ℕ) (d : DiskBlockIndex)
    → All IsByte bs
    → deserialize_record bs ≡ ok d
    → RecordFits d
      × (front : List ℕ) × (rest : List ℕ) × (serialize_record d ≡ ok front)
      × (bs ≡ front ++ rest)
deserialize_record-canonical bs d vb h =
    let (rest, e) = deserialize_record-read bs d h in
    let (v, split) = read_record-canonical bs d rest vb e in
    (v, encoding d, rest, serialize_record-encoding d v, split)
