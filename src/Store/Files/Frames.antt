-- ===== src/Store/Files/Frames.antt =====
-- A frame and its record, as bytes of a file.
use mathlib.Core.List.{append_assoc}
use fairchain.Base.{
  ℕ, zero, suc, ◌+◌, ◌≤◌, ◌≡◌, refl, ap, ◌∙◌, false, not, ◌&&◌, List, [], ◌∷◌, ◌++◌, length, take,
  drop, ltb, ◌==◌, Outcome, ok, err, panic, >>=-eq-ok, fail_if-eq-ok, arith, length-append,
  length-drop_le,
}
use fairchain.Base.Bytes.{le_value, bytes_eq}
use fairchain.Types.Reader.{ReadError, read_full, read_full-reads, read_full-append}
use fairchain.Store.Files.Defs.{or_not_read, read_frame, bad_magic, size_mismatch}

-- What `read_frame` asks of the bytes in front of a record.
pub record IsFrame (magic : List ℕ) (size : ℕ) (frame bytes : List ℕ) : Type 0 where
  pub eight : length frame ≡ 8
  pub named : not (bytes_eq (take 4 frame) magic) ≡ false
  pub sized : (ltb 0 size && not (le_value (drop 4 frame) == size)) ≡ false
  pub spans : length bytes ≡ le_value (drop 4 frame)

or_not_read-ok {ℓ} :
    {A : Type ℓ} (o : Outcome ReadError A) {v : A} → or_not_read o ≡ ok v → o ≡ ok v
or_not_read-ok (ok v) h = cc
or_not_read-ok (err why) h = cc
or_not_read-ok panic h = cc

pub full-reads :
    (n : ℕ) (bs front rest : List ℕ)
    → or_not_read (read_full n bs) ≡ ok (front, rest)
    → (length front ≡ n) × (bs ≡ front ++ rest)
full-reads n bs front rest h = read_full-reads n bs front rest (or_not_read-ok (read_full n bs) h)

pub full-append :
    (n : ℕ) (front rest : List ℕ)
    → length front ≡ n
    → or_not_read (read_full n (front ++ rest)) ≡ ok (front, rest)
full-append n front rest h = rw (read_full-append n front rest h)

read_frame-IsFrame :
    (magic : List ℕ) (size : ℕ) (bs bytes rest : List ℕ)
    → read_frame magic size bs ≡ ok (bytes, rest)
    → (frame : List ℕ) × IsFrame magic size frame bytes × (bs ≡ frame ++ (bytes ++ rest))
unfolding read_frame
read_frame-IsFrame magic size bs bytes rest h =
    let ((frame, mid), e, k) = >>=-eq-ok (or_not_read (read_full 8 bs)) _ h in
    let (named, k') = fail_if-eq-ok _ bad_magic _ k in
    let (sized, k'') = fail_if-eq-ok _ size_mismatch _ k' in
    let (eight, split) = full-reads 8 bs frame mid e in
    let (spans, split') = full-reads (le_value (drop 4 frame)) mid bytes rest k'' in
    (
      frame,
      record { eight = eight; named = named; sized = sized; spans = spans },
      rw (split, split'),
    )

pub read_frame-frame :
    (magic : List ℕ) (size : ℕ) (frame bytes rest : List ℕ)
    → IsFrame magic size frame bytes
    → read_frame magic size (frame ++ (bytes ++ rest)) ≡ ok (bytes, rest)
unfolding read_frame
read_frame-frame magic size frame bytes rest v = rw (
  full-append 8 frame (bytes ++ rest) v.eight,
  v.named,
  v.sized,
  full-append (le_value (drop 4 frame)) bytes rest v.spans,
)

drop-append_short : (n : ℕ) (xs ys : List ℕ) → n ≤ length xs → drop n (xs ++ ys) ≡ drop n xs ++ ys
drop-append_short zero xs ys h = refl
drop-append_short (suc n) [] ys h = absurd (omega arith)
drop-append_short (suc n) (x ∷ xs) ys h = drop-append_short n xs ys (omega arith)

-- A record that is read is read as well where the file is longer.
pub read_frame-append :
    (magic : List ℕ) (size offset : ℕ) (bs more bytes rest : List ℕ)
    → read_frame magic size (drop offset bs) ≡ ok (bytes, rest)
    → read_frame magic size (drop offset (bs ++ more)) ≡ ok (bytes, rest ++ more)
read_frame-append magic size offset bs more bytes rest h =
    let (frame, v, split) = read_frame-IsFrame magic size (drop offset bs) bytes rest h in
    let len : length (drop offset bs) ≡ length frame + length (bytes ++ rest) =
      ap length split ∙ length-append frame (bytes ++ rest) in
    let inside : offset ≤ length bs = omega (arith, len, v.eight, length-drop_le offset bs) in
    let longer : drop offset (bs ++ more) ≡ frame ++ (bytes ++ (rest ++ more)) =
      drop-append_short offset bs more inside ∙ ap (λ t. t ++ more) split ∙ simp append_assoc in
    rw longer (read_frame-frame magic size frame bytes (rest ++ more) v)
