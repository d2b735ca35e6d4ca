-- ===== src/Utxo/Entry/Stored.antt =====
-- What is stored of an entry is read back, and lengths near 2^63 make the reader panic.
use Prim.Native.Nat.{bit_and}
use fairchain.Base.{
  ℕ, ◌+◌, ◌^◌, ◌<◌, ◌≤◌, ◌≡◌, refl, ◌∙◌, Bool, true, false, not, List, [], ◌∷◌, ◌++◌, length, drop,
  get_or, slice, ◌==◌, ok, panic, arith, le→ltb, length-append, take-append, drop-append, drop_past,
  take_all, lt→ltb, get_or-append,
}
use fairchain.Base.Bytes.{IsU64, put_le, le_value, length-put_le, le_value-put_le}
use fairchain.Types.Varint.{put_varint, varint_size}
use fairchain.Types.Varint.Codec.{
  length-put_varint, varint_size-le, read_varint_from_bytes-put_varint,
}
use fairchain.Utxo.Entry.Defs.{
  UtxoEntry, serialize_entry, deserialize_entry, read_entry_script, copy_script, shorter_than,
  flags_of, max_alloc, EntryFits,
}

module _ (a b : List ℕ) (f : ℕ) (rest : List ℕ) (la : length a ≡ 8) (lb : length b ≡ 4) where
  entry_slices :
      let buf = a ++ (b ++ (f ∷ rest)) in
      (slice 0 8 buf ≡ a)
      × (slice 8 4 buf ≡ b)
      × (get_or buf 12 0 ≡ f)
      × (drop 13 buf ≡ rest)
      × (length buf ≡ 13 + length rest)
  entry_slices = (
    take-append 8 a _ la,
    rw (drop-append 8 a (b ++ (f ∷ rest)) la) (take-append 4 b _ lb),
    flag_at,
    past 13 1 refl ∙ refl,
    rw (length-append a (b ++ (f ∷ rest)), length-append b (f ∷ rest), la, lb) (omega arith),
  )
    where
      past : (m n : ℕ) → m ≡ 12 + n → drop m (a ++ (b ++ (f ∷ rest))) ≡ drop n (f ∷ rest)
      past m n e =
          let regroup : 12 + n ≡ 8 + (4 + n) = omega arith in
          rw (e, regroup, drop_past 8 (4 + n) a (b ++ (f ∷ rest)) la)
            (drop_past 4 n b (f ∷ rest) lb)

      flag_at : get_or (a ++ (b ++ (f ∷ rest))) 12 0 ≡ f
      flag_at = get_or-append 8 4 a (b ++ (f ∷ rest)) 0 la ∙ get_or-append 4 0 b (f ∷ rest) 0 lb

flags-bit : (b : Bool) → not (bit_and (flags_of b) 1 == 0) ≡ b
flags-bit true = refl
flags-bit false = refl

-- The fixed part of what is stored is read back, and the rest is read as the script.
stored_prefix :
    (value height : ℕ) (b : Bool) (rest : List ℕ)
    → IsU64 value
    → height < 2 ^ 32
    → deserialize_entry (put_le 8 value ++ (put_le 4 height ++ (flags_of b ∷ rest)))
      ≡ read_entry_script
          (record { value = value; pk_script = []; height = height; is_coinbase = b })
          rest
unfolding deserialize_entry
stored_prefix value height b rest hv hh =
    let (s1, s2, s3, s4, len) =
      entry_slices (put_le 8 value) (put_le 4 height) (flags_of b) rest (length-put_le 8 value)
        (length-put_le 4 height) in
    let v1 : le_value (put_le 8 value) ≡ value = le_value-put_le 8 value (omega arith) in
    let v2 : le_value (put_le 4 height) ≡ height = le_value-put_le 4 height (omega arith) in
    rw (len, le→ltb (13 + length rest) 13 (omega arith), s1, s2, s3, s4, v1, v2, flags-bit b)

script_of_varint :
    (e : UtxoEntry) (n : ℕ) (tail : List ℕ)
    → IsU64 n
    → read_entry_script e (put_varint n ++ tail) ≡ copy_script e (put_varint n ++ tail) n
unfolding read_entry_script
script_of_varint e n tail h = rw (read_varint_from_bytes-put_varint n tail h, read_entry_script)

pub fits-not_shorter :
    (have vi n : ℕ) → vi + n ≤ have → have < 2 ^ 63 → shorter_than have vi n ≡ false
unfolding shorter_than
fits-not_shorter have vi n e h = ground arith

wraps-not_shorter :
    (have n : ℕ) → 2 ^ 63 ≤ n → n < 2 ^ 64 → 9 ≤ have → shorter_than have 9 n ≡ false
unfolding shorter_than
wraps-not_shorter have n lo hi h = ground arith

-- What `Serialize` writes of an entry, `DeserializeUtxoEntry` reads back.
pub deserialize_entry-serialize_entry :
    (e : UtxoEntry) → EntryFits e → deserialize_entry (serialize_entry e) ≡ ok e
unfolding serialize_entry
deserialize_entry-serialize_entry e v =
    stored_prefix e.value e.height e.is_coinbase (put_varint n ++ e.pk_script) v.value v.height
    ∙ script_of_varint blank n e.pk_script (omega (arith, v.short))
    ∙ copied
  where
    n : ℕ
    n = length e.pk_script

    blank : UtxoEntry
    blank = record {
      value = e.value;
      pk_script = [];
      height = e.height;
      is_coinbase = e.is_coinbase;
    }

    copied : copy_script blank (put_varint n ++ e.pk_script) n ≡ ok e
    copied =
        unfold copy_script in
        rw (
          fits-not_shorter (length (put_varint n ++ e.pk_script)) (varint_size n) n
              (omega (arith, length-append (put_varint n) e.pk_script, length-put_varint n))
              (omega (
                arith,
                length-append (put_varint n) e.pk_script,
                length-put_varint n,
                varint_size-le n,
                v.short,
              )),
          le→ltb max_alloc n v.short,
          drop-append (varint_size n) (put_varint n) e.pk_script (length-put_varint n),
          take_all n e.pk_script refl,
        )

-- A stored length of 2^63 or more wraps the length check to a number that passes it, and `make`
-- then panics: whatever follows, such bytes are not refused with an error.
pub deserialize_entry-panics :
    (value height n : ℕ) (b : Bool) (tail : List ℕ)
    → IsU64 value
    → height < 2 ^ 32
    → 2 ^ 63 ≤ n
    → n < 2 ^ 64
    → deserialize_entry
        (put_le 8 value ++ (put_le 4 height ++ (flags_of b ∷ (put_varint n ++ tail))))
      ≡ panic
deserialize_entry-panics value height n b tail hv hh lo hi =
    stored_prefix value height b (put_varint n ++ tail) hv hh ∙ script_of_varint _ n tail hi ∙ wraps
  where
    wraps :
        copy_script
          (record { value = value; pk_script = []; height = height; is_coinbase = b })
          (put_varint n ++ tail)
          n
        ≡ panic
    wraps =
        let size : varint_size n ≡ 9 = unfold varint_size in ground arith in
        let long : 9 ≤ length (put_varint n ++ tail) =
          omega (arith, length-append (put_varint n) tail, length-put_varint n, size) in
        unfold copy_script in
        rw (
          size,
          wraps-not_shorter (length (put_varint n ++ tail)) n lo hi long,
          lt→ltb max_alloc n (omega arith),
        )
