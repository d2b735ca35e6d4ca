-- ===== src/Utxo/Undo/Stored.antt =====
-- Undo data that was written is read back.
use mathlib.Core.List.{append_assoc}
use fairchain.Base.{
  ℕ, ◌+◌, ◌*◌, ◌^◌, ◌<◌, ◌≤◌, ◌≡◌, refl, ap, sym, ◌∙◌, false, ◌==◌, List, [], ◌∷◌, ◌++◌, length,
  All, drop, slice, ok, arith, le→ltb, length-append, drop-append, drop_past, take-append,
}
use fairchain.Base.Bytes.{put_le, le_value, length-put_le, le_value-put_le}
use fairchain.Types.Reader.{put_all}
use fairchain.Types.Varint.{put_varint, varint_size}
use fairchain.Types.Varint.Codec.{
  length-put_varint, varint_size-pos, read_varint_from_bytes-put_varint,
}
use fairchain.Utxo.Entry.{serialize_entry, max_alloc}
use fairchain.Utxo.Entry.Stored.{deserialize_entry-serialize_entry, fits-not_shorter}
use fairchain.Utxo.Connect.{SpentOutput, BlockUndoData}
use fairchain.Utxo.Undo.Defs.{
  serialize_spent, serialize_undo, read_spent, read_spents, deserialize_undo, SpentFits,
  spent_output_bytes,
}

pub slice_at {ℓ} :
    {A : Type ℓ} (front mid back : List A) (lo n : ℕ)
    → length front ≡ lo
    → length mid ≡ n
    → slice lo n (front ++ (mid ++ back)) ≡ mid
slice_at front mid back lo n hf hm =
    rw (drop-append lo front (mid ++ back) hf) (take-append n mid back hm)

-- One round of the loop, from what stands at the offset.
read_spent_at :
    (w tail : List ℕ) (offset : ℕ) (so : SpentOutput)
    → SpentFits so
    → let n = length (serialize_entry so.entry) in
      length w < 2 ^ 63
      → offset + 36 + varint_size n + n ≤ length w
      → drop (offset + 36) w ≡ put_varint n ++ tail
      → slice offset 32 w ≡ so.out_point.hash
      → slice (offset + 32) 4 w ≡ put_le 4 so.out_point.index
      → slice (offset + 36 + varint_size n) n w ≡ serialize_entry so.entry
      → read_spent w offset ≡ ok (so, offset + 36 + varint_size n + n)
unfolding read_spent
read_spent_at w tail offset so v small fits at_length at_hash at_index at_entry =
    let n = length (serialize_entry so.entry) in
    let index : le_value (put_le 4 so.out_point.index) ≡ so.out_point.index =
      le_value-put_le 4 so.out_point.index (omega (arith, v.out_point.index)) in
    rw (
      le→ltb (length w) (offset + 36) (omega arith),
      at_length,
      read_varint_from_bytes-put_varint n tail (omega arith),
      fits-not_shorter (length w) (offset + 36 + varint_size n) n fits small,
      le→ltb (length w) (offset + 36 + varint_size n + n) fits,
      at_entry,
      deserialize_entry-serialize_entry so.entry v.entry,
      at_hash,
      at_index,
      index,
    )

module _ (front : List ℕ) (so : SpentOutput) (more : List ℕ) (v : SpentFits so) where
  abbrev behind : List ℕ
  behind = put_varint (length (serialize_entry so.entry)) ++ (serialize_entry so.entry ++ more)

  spelled :
      front ++ (serialize_spent so ++ more)
      ≡ front ++ (so.out_point.hash ++ (put_le 4 so.out_point.index ++ behind))
  unfolding serialize_spent
  spelled = simp append_assoc

  -- What stands behind the hash and the index.
  past_point :
      (m : ℕ)
      → drop (length front + (36 + m)) (front ++ (serialize_spent so ++ more)) ≡ drop m behind
  past_point m =
      let h = so.out_point.hash in
      let ib = put_le 4 so.out_point.index in
      let regroup : 36 + m ≡ 32 + (4 + m) = omega arith in
      rw (spelled, drop_past (length front) (36 + m) front (h ++ (ib ++ behind)) refl, regroup)
        (drop_past 32 (4 + m) h (ib ++ behind) v.out_point.hash.0
          ∙ drop_past 4 m ib behind (length-put_le 4 so.out_point.index))

  index_at :
      slice (length front + 32) 4 (front ++ (serialize_spent so ++ more))
      ≡ put_le 4 so.out_point.index
  index_at =
      let h = so.out_point.hash in
      let ib = put_le 4 so.out_point.index in
      rw (spelled, drop_past (length front) 32 front (h ++ (ib ++ behind)) refl)
        (slice_at h ib behind 32 4 v.out_point.hash.0 (length-put_le 4 so.out_point.index))

  entry_at :
      let n = length (serialize_entry so.entry) in
      slice (length front + 36 + varint_size n) n (front ++ (serialize_spent so ++ more))
      ≡ serialize_entry so.entry
  entry_at =
      let n : ℕ = length (serialize_entry so.entry) in
      let regroup : length front + 36 + varint_size n ≡ length front + (36 + varint_size n) =
        omega arith in
      rw (regroup, past_point (varint_size n))
        (slice_at (put_varint n) (serialize_entry so.entry) more (varint_size n) n
          (length-put_varint n) refl)

  spent_length :
      let n = length (serialize_entry so.entry) in
      length front + 36 + varint_size n + n ≡ length (front ++ serialize_spent so)
  unfolding serialize_spent
  spent_length =
      let n : ℕ = length (serialize_entry so.entry) in
      simp (length-append, length-put_le, length-put_varint) (omega (arith, v.out_point.hash.0))

  read_spent-serialize_spent :
      length (front ++ (serialize_spent so ++ more)) < 2 ^ 63
      → read_spent (front ++ (serialize_spent so ++ more)) (length front)
        ≡ ok (so, length (front ++ serialize_spent so))
  read_spent-serialize_spent small =
      let fits : length (front ++ serialize_spent so)
          ≤ length (front ++ (serialize_spent so ++ more)) =
        omega (
          arith,
          length-append front (serialize_spent so),
          length-append front (serialize_spent so ++ more),
          length-append (serialize_spent so) more,
        ) in
      read_spent_at (front ++ (serialize_spent so ++ more)) (serialize_entry so.entry ++ more)
        (length front) so v small (omega (arith, fits, spent_length)) (past_point 0)
        (rw spelled (slice_at front so.out_point.hash _ (length front) 32 refl v.out_point.hash.0))
        index_at entry_at
      ∙ ap (λ k. ok (so, k)) spent_length

read_spents_at :
    (w front : List ℕ) (sos : List SpentOutput)
    → w ≡ front ++ put_all serialize_spent sos
    → All SpentFits sos
    → length w < 2 ^ 63
    → read_spents w (length front) (length sos) ≡ ok sos
unfolding read_spents put_all
read_spents_at w front [] e v small = refl
read_spents_at w front (so ∷ sos) e v small =
    let more = put_all serialize_spent sos in
    let next = front ++ serialize_spent so in
    let step : read_spent w (length front) ≡ ok (so, length next) =
      rw e (read_spent-serialize_spent front so more v.0 (rw e at small)) in
    let rest =
      read_spents_at w next sos (e ∙ sym (append_assoc front (serialize_spent so) more)) v.1
        small in
    rw (step, read_spents) (rw rest)

-- What `SerializeUndoData` writes is read back by `DeserializeUndoData`, for undo data of at most
-- 2^48 bytes in memory whose stored form is shorter than 2^63 bytes.
pub deserialize_undo-serialize_undo :
    (undo : BlockUndoData)
    → All SpentFits undo.spent_outputs
    → length undo.spent_outputs * spent_output_bytes ≤ max_alloc
    → length (serialize_undo undo) < 2 ^ 63
    → deserialize_undo (serialize_undo undo) ≡ ok undo
unfolding deserialize_undo serialize_undo
deserialize_undo-serialize_undo undo v few small =
    let n : ℕ = length undo.spent_outputs in
    let body = put_all serialize_spent undo.spent_outputs in
    let long : length (put_varint n ++ body) ≡ varint_size n + length body =
      length-append (put_varint n) body ∙ ap (λ k. k + length body) (length-put_varint n) in
    let nonempty : (length (put_varint n ++ body) == 0) ≡ false =
      ground (arith, long, varint_size-pos n) in
    let read =
      read_spents_at (put_varint n ++ body) (put_varint n) undo.spent_outputs refl v small in
    rw (
      nonempty,
      read_varint_from_bytes-put_varint n body (omega arith),
      le→ltb max_alloc (n * spent_output_bytes) few,
      ← length-put_varint n,
      read,
    )
