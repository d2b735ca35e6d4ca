-- ===== src/Types/Reader/Codecs.antt =====
-- Codecs of the parts of a message, and the steps that the codec of a message is proved by.
use mathlib.Core.List.{append_assoc}
use mathlib.Core.Path.{subst}
use fairchain.Base.{
  ℕ, zero, suc, ◌^◌, ◌<◌, ◌≡◌, refl, ap, ◌∙◌, List, [], ◌∷◌, ◌++◌, length, All, ok, ok-eq,
}
use fairchain.Base.Bytes.{
  IsByte, put_le, le_value, le_value-put_le, length-put_le, put_le-le_value, le_value-lt,
}
use fairchain.Types.Reader.Monad.{Reader, ◌>>=◌, read_full, read_many, pure}
use fairchain.Types.Reader.Laws.{
  IsCodec, >>=-reads, >>=-ok, read_full-append, read_full-reads, read_full-All,
}

-- `binary.LittleEndian.Uint32(buf[:4])` after `io.ReadFull(r, buf[:4])`, at any width.
unfoldable pub read_le : ℕ → Reader ℕ
read_le k = read_full k >>= λ buf. pure (le_value buf)

unfoldable pub put_all {ℓ} : {A : Type ℓ} → (A → List ℕ) → List A → List ℕ
put_all put [] = []
put_all put (a ∷ as') = put a ++ put_all put as'

module _ {A : Type 0} {put : A → List ℕ} {get : Reader A} {Valid : A → Type 0}
    (c : IsCodec put get Valid) where
  -- One step of a decoder on what its encoder wrote.
  pub step-reads {ℓ} :
      {B : Type ℓ} (f : A → Reader B) (a : A) (more : List ℕ)
      → Valid a
      → (get >>= f) (put a ++ more) ≡ f a more
  step-reads f a more v = >>=-ok get f (c.reads a more v)

  -- One step of a decoder that succeeded; `k` goes on with what the step gives.
  pub step-canonical {ℓ κ} :
      {B : Type ℓ} {P : Type κ} (f : A → Reader B) (bs : List ℕ) {b : B} {rest : List ℕ}
      → All IsByte bs
      → (get >>= f) bs ≡ ok (b, rest)
      → ((a : A) (mid : List ℕ)
          → Valid a
          → bs ≡ put a ++ mid
          → All IsByte mid
          → f a mid ≡ ok (b, rest)
          → P)
      → P
  step-canonical f bs vb h k =
      let (a, mid, e, r) = >>=-reads get f bs h in
      let (va, split, vm) = c.canonical bs a mid vb e in k a mid va split vm r

  pub many-reads :
      (as' : List A) (rest : List ℕ)
      → All Valid as'
      → read_many get (length as') (put_all put as' ++ rest) ≡ ok (as', rest)
  unfolding read_many put_all
  many-reads [] rest v = refl
  many-reads (a ∷ as') rest v = rw (append_assoc (put a) (put_all put as') rest) (
      step-reads _ a (put_all put as' ++ rest) v.0
      ∙ >>=-ok (read_many get (length as')) _ (many-reads as' rest v.1))

  pub many-canonical :
      (n : ℕ) (bs : List ℕ) (as' : List A) (rest : List ℕ)
      → All IsByte bs
      → read_many get n bs ≡ ok (as', rest)
      → All Valid as' × (length as' ≡ n) × (bs ≡ put_all put as' ++ rest) × All IsByte rest
  unfolding read_many put_all
  many-canonical zero bs [] rest vb h =
      let (_, e) = ok-eq h in (tt, refl, e, subst (All IsByte) e vb)
  many-canonical zero bs (a ∷ as') rest vb h = cc
  many-canonical (suc n) bs as' rest vb h = step-canonical _ bs vb h λ a mid va split vm k.
      let (tail, mid', e, k') = >>=-reads (read_many get n) _ mid k in
      extend a mid va split tail mid' (many-canonical n mid tail mid' vm e) (ok-eq k')
    where
      extend :
          (a : A) (mid : List ℕ)
          → Valid a
          → bs ≡ put a ++ mid
          → (tail : List A) (mid' : List ℕ)
          → (All Valid tail
              × (length tail ≡ n)
              × (mid ≡ put_all put tail ++ mid')
              × All IsByte mid')
          → (a ∷ tail ≡ as') × (mid' ≡ rest)
          → All Valid as' × (length as' ≡ suc n) × (bs ≡ put_all put as' ++ rest) × All IsByte rest
      extend a mid va split tail mid' (vt, len, split', vr) (ea, er) =
          rw (← ea, ← er)
            (
              (va, vt),
              ap suc len,
              rw (split, split', append_assoc (put a) (put_all put tail) mid'),
              vr,
            )

  pub many-step {ℓ κ} :
      {B : Type ℓ} {P : Type κ} (n : ℕ) (f : List A → Reader B) (bs : List ℕ) {b : B}
      {rest : List ℕ}
      → All IsByte bs
      → (read_many get n >>= f) bs ≡ ok (b, rest)
      → ((as' : List A) (mid : List ℕ)
          → All Valid as'
          → length as' ≡ n
          → bs ≡ put_all put as' ++ mid
          → All IsByte mid
          → f as' mid ≡ ok (b, rest)
          → P)
      → P
  many-step n f bs vb h k =
      let (as', mid, e, r) = >>=-reads (read_many get n) f bs h in
      let (va, len, split, vm) = many-canonical n bs as' mid vb e in k as' mid va len split vm r

pub le-IsCodec : (k : ℕ) → IsCodec (put_le k) (read_le k) (λ n. n < 256 ^ k)
unfolding read_le
le-IsCodec k = record {
  reads = λ n rest v.
      >>=-ok (read_full k) _ (read_full-append k (put_le k n) rest (length-put_le k n))
      ∙ ap (λ t. ok (t, rest)) (le_value-put_le k n v);
  canonical = λ bs n rest vb h. le_canonical k bs n rest vb h;
}
  where
    le_canonical :
        (k : ℕ) (bs : List ℕ) (n : ℕ) (rest : List ℕ)
        → All IsByte bs
        → read_le k bs ≡ ok (n, rest)
        → (n < 256 ^ k) × (bs ≡ put_le k n ++ rest) × All IsByte rest
    le_canonical k bs n rest vb h =
        let (buf, mid, e, r) = >>=-reads (read_full k) _ bs h in
        let (len, split) = read_full-reads k bs buf mid e in
        let (vbuf, vmid) = read_full-All k bs buf mid e vb in
        let bound : le_value buf < 256 ^ length buf = le_value-lt buf vbuf in
        let spelled : put_le (length buf) (le_value buf) ≡ buf = put_le-le_value buf vbuf in
        let (en, er) = ok-eq r in
        rw (← en, ← er) (rw len at bound, rw (split, ← len) (rw spelled), vmid)

-- An array of `n` bytes.
pub array-IsCodec :
    (n : ℕ) → IsCodec (λ (h : List ℕ). h) (read_full n) (λ h. (length h ≡ n) × All IsByte h)
array-IsCodec n = record {
  reads = λ h rest v. read_full-append n h rest v.0;
  canonical = λ bs h rest vb e.
      let (len, split) = read_full-reads n bs h rest e in
      let (vh, vr) = read_full-All n bs h rest e vb in ((len, vh), split, vr);
}
