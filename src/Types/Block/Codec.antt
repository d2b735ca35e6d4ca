-- ===== src/Types/Block/Codec.antt =====
-- Headers and blocks are codecs.
use mathlib.Core.List.{append_assoc, append-nil}
use fairchain.Base.{
  ℕ, ◌+◌, ◌^◌, ◌<◌, ◌≤◌, ◌≡◌, ap, sym, ◌∙◌, List, ◌++◌, length, All, ok, ok-eq, arith, ltb, false,
  le→ltb, length-append, slice, take, drop, take-append, drop-append, drop_past, drop_all,
  slice-append_drop, length-slice, All-slice, take_all,
}
use fairchain.Base.Bytes.{
  IsByte, put_le, le_value, length-put_le, le_value-put_le, put_le-le_value, le_value-lt,
}
use fairchain.Types.Reader.{
  IsCodec, read_full, read_many, reject_if-reads, reject_if-ok, >>=-ok, read_full-append,
  step-reads, step-canonical, many-reads, many-step, array-IsCodec,
}
use fairchain.Types.Varint.Codec.{varint-IsCodec}
use fairchain.Types.Transaction.{deserialize}
use fairchain.Types.Transaction.Codec.{transaction-IsCodec}
use fairchain.Types.Block.Defs.{
  BlockHeader, Block, serialize_header, header_of_buffer, deserialize_header, serialize_block,
  deserialize_block, HeaderFits, BlockFits, max_block_tx_count,
}

pub length-serialize_header : (h : BlockHeader) → HeaderFits h → length (serialize_header h) ≡ 80
unfolding serialize_header
length-serialize_header h v = simp length-append (
    omega (
      arith,
      v.prev_block.0,
      v.merkle_root.0,
      length-put_le 4 h.version,
      length-put_le 4 h.timestamp,
      length-put_le 4 h.bits,
      length-put_le 4 h.nonce,
    ))

module _ (a b c d g f : List ℕ) (la : length a ≡ 4) (lb : length b ≡ 32) (lc : length c ≡ 32)
    (ld : length d ≡ 4) (lg : length g ≡ 4) (lf : length f ≡ 4) where
  header_slices :
      let buf = a ++ (b ++ (c ++ (d ++ (g ++ f)))) in
      (slice 0 4 buf ≡ a)
      × (slice 4 32 buf ≡ b)
      × (slice 36 32 buf ≡ c)
      × (slice 68 4 buf ≡ d)
      × (slice 72 4 buf ≡ g)
      × (slice 76 4 buf ≡ f)
  header_slices = (
    take-append 4 a _ la,
    rw (drop-append 4 a (b ++ (c ++ (d ++ (g ++ f)))) la) (take-append 32 b _ lb),
    ap (take 32) (past_b 0) ∙ take-append 32 c _ lc,
    ap (take 4) (past_b 32 ∙ past_c 0) ∙ take-append 4 d _ ld,
    ap (take 4) (past_b 36 ∙ past_c 4 ∙ past_d 0) ∙ take-append 4 g _ lg,
    ap (take 4) (past_b 40 ∙ past_c 8 ∙ past_d 4 ∙ drop-append 4 g f lg) ∙ take_all 4 f lf,
  )
    where
      past_b :
          (n : ℕ)
          → drop (36 + n) (a ++ (b ++ (c ++ (d ++ (g ++ f))))) ≡ drop n (c ++ (d ++ (g ++ f)))
      past_b n =
          let e : 36 + n ≡ 4 + (32 + n) = omega arith in
          rw (e, drop_past 4 (32 + n) a (b ++ (c ++ (d ++ (g ++ f)))) la) (drop_past 32 n b _ lb)

      past_c : (n : ℕ) → drop (32 + n) (c ++ (d ++ (g ++ f))) ≡ drop n (d ++ (g ++ f))
      past_c n = drop_past 32 n c _ lc

      past_d : (n : ℕ) → drop (4 + n) (d ++ (g ++ f)) ≡ drop n (g ++ f)
      past_d n = drop_past 4 n d _ ld

header_of_buffer-serialize :
    (h : BlockHeader) → HeaderFits h → header_of_buffer (serialize_header h) ≡ h
unfolding header_of_buffer serialize_header
header_of_buffer-serialize h v =
    let (e1, e2, e3, e4, e5, e6) =
      header_slices (put_le 4 h.version) h.prev_block h.merkle_root (put_le 4 h.timestamp)
        (put_le 4 h.bits) (put_le 4 h.nonce) (length-put_le 4 h.version) v.prev_block.0
        v.merkle_root.0 (length-put_le 4 h.timestamp) (length-put_le 4 h.bits)
        (length-put_le 4 h.nonce) in
    λ i. record {
      version = (ap le_value e1 ∙ le_value-put_le 4 h.version (omega arith)) i;
      prev_block = e2 i;
      merkle_root = e3 i;
      timestamp = (ap le_value e4 ∙ le_value-put_le 4 h.timestamp (omega arith)) i;
      bits = (ap le_value e5 ∙ le_value-put_le 4 h.bits (omega arith)) i;
      nonce = (ap le_value e6 ∙ le_value-put_le 4 h.nonce (omega arith)) i;
    }

-- A well-formed header, written to its 80 bytes and followed by any bytes, is read back with those
-- bytes left to read.
deserialize_header-serialize_header :
    (h : BlockHeader) (rest : List ℕ)
    → HeaderFits h
    → deserialize_header (serialize_header h ++ rest) ≡ ok (h, rest)
unfolding deserialize_header
deserialize_header-serialize_header h rest v =
    >>=-ok (read_full 80) _
      (read_full-append 80 (serialize_header h) rest (length-serialize_header h v))
    ∙ ap (λ t. ok (t, rest)) (header_of_buffer-serialize h v)

-- A word read from a slice is written back as that slice.
put_le-slice :
    (lo n : ℕ) (buf : List ℕ)
    → All IsByte buf
    → lo + n ≤ length buf
    → (le_value (slice lo n buf) < 256 ^ n)
      × (put_le n (le_value (slice lo n buf)) ≡ slice lo n buf)
put_le-slice lo n buf vb h =
    let len : length (slice lo n buf) ≡ n = length-slice lo n buf h in
    let vs : All IsByte (slice lo n buf) = All-slice IsByte lo n buf vb in
    (rw len at (le_value-lt (slice lo n buf) vs), rw len at (put_le-le_value (slice lo n buf) vs))

header_of_buffer-HeaderFits :
    (buf : List ℕ) → All IsByte buf → length buf ≡ 80 → HeaderFits (header_of_buffer buf)
unfolding header_of_buffer
header_of_buffer-HeaderFits buf vb len = record {
  version = (put_le-slice 0 4 buf vb (omega arith)).0;
  prev_block = (length-slice 4 32 buf (omega arith), All-slice IsByte 4 32 buf vb);
  merkle_root = (length-slice 36 32 buf (omega arith), All-slice IsByte 36 32 buf vb);
  timestamp = (put_le-slice 68 4 buf vb (omega arith)).0;
  bits = (put_le-slice 72 4 buf vb (omega arith)).0;
  nonce = (put_le-slice 76 4 buf vb (omega arith)).0;
}

serialize-header_of_buffer :
    (buf : List ℕ)
    → All IsByte buf
    → length buf ≡ 80
    → serialize_header (header_of_buffer buf) ≡ buf
unfolding header_of_buffer serialize_header
serialize-header_of_buffer buf vb len =
    rw
      (
        (put_le-slice 0 4 buf vb (omega arith)).1,
        (put_le-slice 68 4 buf vb (omega arith)).1,
        (put_le-slice 72 4 buf vb (omega arith)).1,
        (put_le-slice 76 4 buf vb (omega arith)).1,
      )
      (sym (
        slice-append_drop 0 4 buf
        ∙ ap (λ t. slice 0 4 buf ++ t)
            (slice-append_drop 4 32 buf
              ∙ ap (λ t. slice 4 32 buf ++ t)
                  (slice-append_drop 36 32 buf
                    ∙ ap (λ t. slice 36 32 buf ++ t)
                        (slice-append_drop 68 4 buf
                          ∙ ap (λ t. slice 68 4 buf ++ t)
                              (slice-append_drop 72 4 buf
                                ∙ ap (λ t. slice 72 4 buf ++ t) last_slice))))))
  where
    last_slice : drop 76 buf ≡ slice 76 4 buf
    last_slice = slice-append_drop 76 4 buf ∙ rw (drop_all 80 buf len) (append-nil (slice 76 4 buf))

pub deserialize_header-canonical :
    (bs : List ℕ) (h : BlockHeader) (rest : List ℕ)
    → All IsByte bs
    → deserialize_header bs ≡ ok (h, rest)
    → HeaderFits h × (bs ≡ serialize_header h ++ rest) × All IsByte rest
unfolding deserialize_header
deserialize_header-canonical bs h rest vb e =
    step-canonical (array-IsCodec 80) _ bs vb e λ buf mid vbuf split vm r.
      let (eh, er) = ok-eq r in
      rw (← eh, ← er)
        (
          header_of_buffer-HeaderFits buf vbuf.1 vbuf.0,
          rw (split, serialize-header_of_buffer buf vbuf.1 vbuf.0),
          vm,
        )

pub header-IsCodec : IsCodec serialize_header deserialize_header HeaderFits
header-IsCodec = record {
  reads = deserialize_header-serialize_header;
  canonical = deserialize_header-canonical;
}

-- A well-formed block, encoded and followed by any bytes, is decoded to itself, with those bytes
-- left to read.
pub deserialize_block-serialize_block :
    (b : Block) (rest : List ℕ)
    → BlockFits b
    → deserialize_block (serialize_block b ++ rest) ≡ ok (b, rest)
unfolding deserialize_block serialize_block
deserialize_block-serialize_block b rest v =
    let n = length b.transactions in
    simp append_assoc (
      step-reads header-IsCodec _ b.header _ v.header
      ∙ step-reads varint-IsCodec _ n _ (omega (arith, v.few))
      ∙ reject_if-ok (ltb max_block_tx_count n) _ _ _ (le→ltb _ _ v.few)
      ∙ >>=-ok (read_many deserialize n) _
          (many-reads transaction-IsCodec b.transactions rest v.transactions))

within_count : (n len : ℕ) → ltb max_block_tx_count n ≡ false → len ≡ n → len ≤ max_block_tx_count
within_count n len small e = ground arith

-- A block has one encoding: bytes that `Deserialize` accepts give a well-formed block, and are its
-- encoding followed by what is left to read.
pub deserialize_block-canonical :
    (bs : List ℕ) (b : Block) (rest : List ℕ)
    → All IsByte bs
    → deserialize_block bs ≡ ok (b, rest)
    → BlockFits b × (bs ≡ serialize_block b ++ rest) × All IsByte rest
unfolding deserialize_block serialize_block
deserialize_block-canonical bs b rest vb h =
    step-canonical header-IsCodec _ bs vb h λ header bs1 v1 e1 b1 k1.
      step-canonical varint-IsCodec _ bs1 b1 k1 λ n bs2 v2 e2 b2 k2.
        let (few, k3) = reject_if-reads (ltb max_block_tx_count n) _ _ bs2 k2 in
        many-step transaction-IsCodec n _ bs2 b2 k3 λ txs bs4 v4 len4 e4 b4 k4.
          let (eb, er) = ok-eq k4 in
          rw (← eb, ← er)
            (
              record { header = v1; transactions = v4; few = within_count n (length txs) few len4 },
              simp (e1, e2, e4, len4, append_assoc),
              b4,
            )

pub block-IsCodec : IsCodec serialize_block deserialize_block BlockFits
block-IsCodec = record {
  reads = deserialize_block-serialize_block;
  canonical = deserialize_block-canonical;
}
