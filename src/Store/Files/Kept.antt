-- ===== src/Store/Files/Kept.antt =====
-- What is in the files of internal/store/blockfile.go stays there, and so do the results of reads.
use mathlib.Core.List.{append_assoc, append-nil}
use fairchain.Base.{
  ℕ, ◌+◌, ◌≡◌, refl, sym, ap, ◌∙◌, Bool, true, false, ◌&&◌, List, [], ◌∷◌, ◌++◌, length, drop,
  Option, none, some, ltb, if◌then◌else◌, ok, >>=-eq-ok, or_fail, or_fail-eq-ok, inl, inr,
  Bool-cases,
}
use fairchain.Crypto.Digest.{Sha256}
use fairchain.Types.Reader.{read_full}
use fairchain.Types.Block.{Block, serialize_block}
use fairchain.Store.Interface.{Location}
use fairchain.Store.Files.Defs.{
  FileName, blk, rev, Files, BlockFileManager, not_opened, or_not_read, frame_of, read_frame,
  rotate, write_parts, append_parts, write_block, read_block, read_undo, max_block_file_size,
}
use fairchain.Store.Files.Frames.{read_frame-append, full-reads, full-append}

module _ {F : Type 0} (files : Files F) where
  -- No file has lost a byte.
  abbrev Extends : F → F → Type 0
  Extends f f' =
      (name : FileName) (bs : List ℕ)
      → files.contents f name ≡ some bs
      → (more : List ℕ) × (files.contents f' name ≡ some (bs ++ more))

  abbrev pub bytes_of : F → FileName → List ℕ
  bytes_of f name = elim (files.contents f name) [ none ↦ [] | some bs ↦ bs ]

  -- Files that are opened to be appended to. A write that fails may have written a part.
  pub record IsAppendOnly : Type 0 where
    pub open_extends : (f : F) (name : FileName) → Extends f (files.open_append f name).1
    pub open_finds :
        (f : F) (name : FileName)
        → (files.open_append f name).0 ≡ true
        → files.contents (files.open_append f name).1 name ≡ some (bytes_of f name)
    pub write_extends :
        (f : F) (name : FileName) (bs : List ℕ) → Extends f (files.write f name bs).1
    pub write_appends :
        (f : F) (name : FileName) (old bs : List ℕ)
        → files.contents f name ≡ some old
        → (files.write f name bs).0 ≡ true
        → files.contents (files.write f name bs).1 name ≡ some (old ++ bs)

module _ {F : Type 0} (files : Files F) (laws : IsAppendOnly files) where
  Extends-refl : (f : F) → Extends files f f
  Extends-refl f name bs h = ([], h ∙ ap some (sym (append-nil bs)))

  Extends-trans : (f g h : F) → Extends files f g → Extends files g h → Extends files f h
  Extends-trans f g h first second name bs e =
      let (more, e') = first name bs e in
      let (more', e'') = second name (bs ++ more) e' in
      (more ++ more', e'' ∙ ap some (append_assoc bs more more'))

  write_parts-Extends :
      (f : F) (name : FileName) (parts : List (List ℕ))
      → Extends files f (write_parts files f name parts).1
  unfolding write_parts
  write_parts-Extends f name [] = Extends-refl f
  write_parts-Extends f name (part ∷ parts) = elim (Bool-cases (files.write f name part).0) [
    | inl done ↦ rw done (
        Extends-trans f (files.write f name part).1 _ (laws.write_extends f name part)
          (write_parts-Extends (files.write f name part).1 name parts))
    | inr failed ↦ rw failed (laws.write_extends f name part)
  ]

  append_parts-Extends :
      (f : F) (name : FileName) (parts : List (List ℕ))
      → Extends files f (append_parts files f name parts).1
  unfolding append_parts
  append_parts-Extends f name parts = elim (Bool-cases (files.open_append f name).0) [
    | inl done ↦ rw done (
        Extends-trans f (files.open_append f name).1 _ (laws.open_extends f name)
          (write_parts-Extends (files.open_append f name).1 name parts))
    | inr failed ↦ rw failed (laws.open_extends f name)
  ]

  read_block-Extends :
      (m m' : BlockFileManager) (f f' : F)
      → m'.magic ≡ m.magic
      → Extends files f f'
      → (file_num offset size : ℕ) (block : Block)
      → read_block files (m, f) file_num offset size ≡ ok block
      → read_block files (m', f') file_num offset size ≡ ok block
  unfolding read_block
  read_block-Extends m m' f f' same ext file_num offset size block h =
      let (bs, e, k) = >>=-eq-ok (or_fail (files.contents f (blk file_num)) not_opened) _ h in
      let ((bytes, rest), e', k') = >>=-eq-ok (read_frame m.magic size (drop offset bs)) _ k in
      let (more, longer) = ext (blk file_num) bs (or_fail-eq-ok _ not_opened e) in
      rw (longer, same, read_frame-append m.magic size offset bs more bytes rest e') k'

  read_undo-Extends :
      (sha : Sha256) (m m' : BlockFileManager) (f f' : F)
      → m'.magic ≡ m.magic
      → Extends files f f'
      → (file_num offset size : ℕ) (undo : List ℕ)
      → read_undo files sha (m, f) file_num offset size ≡ ok undo
      → read_undo files sha (m', f') file_num offset size ≡ ok undo
  unfolding read_undo
  read_undo-Extends sha m m' f f' same ext file_num offset size undo h =
      let (bs, e, k) = >>=-eq-ok (or_fail (files.contents f (rev file_num)) not_opened) _ h in
      let ((bytes, rest), e', k') = >>=-eq-ok (read_frame m.magic size (drop offset bs)) _ k in
      let ((checksum, after), e'', k'') = >>=-eq-ok (or_not_read (read_full 32 rest)) _ k' in
      let (more, longer) = ext (rev file_num) bs (or_fail-eq-ok _ not_opened e) in
      let (len, split) = full-reads 32 rest checksum after e'' in
      let again : or_not_read (read_full 32 (rest ++ more)) ≡ ok (checksum, after ++ more) =
        rw (split, append_assoc checksum after more)
          (full-append 32 checksum (after ++ more) len) in
      rw (longer, same, read_frame-append m.magic size offset bs more bytes rest e', again) k''

-- Every block and all undo data that one state of the files gives back, the other gives back too.
abbrev pub Keeps :
    {F : Type 0} → Files F → Sha256 → BlockFileManager × F → BlockFileManager × F → Type 0
Keeps files sha w w' =
    ((file_num offset size : ℕ) (block : Block)
      → read_block files w file_num offset size ≡ ok block
      → read_block files w' file_num offset size ≡ ok block)
    × ((file_num offset size : ℕ) (undo : List ℕ)
        → read_undo files sha w file_num offset size ≡ ok undo
        → read_undo files sha w' file_num offset size ≡ ok undo)

pub rotate-magic : (m : BlockFileManager) (n : ℕ) → (rotate m n).magic ≡ m.magic
unfolding rotate
rotate-magic m n =
    elim (Bool-cases (ltb 0 m.cur_size && ltb max_block_file_size (m.cur_size + n))) [
      | inl full ↦ rw full refl
      | inr room ↦ rw room refl
    ]

Keeps-Extends :
    {F : Type 0} (files : Files F) (sha : Sha256) (laws : IsAppendOnly files)
    (m m' : BlockFileManager) (f f' : F)
    → m'.magic ≡ m.magic
    → Extends files f f'
    → Keeps files sha (m, f) (m', f')
Keeps-Extends files sha laws m m' f f' same ext = (
  read_block-Extends files laws m m' f f' same ext,
  read_undo-Extends files laws sha m m' f f' same ext,
)

Keeps-if :
    {F : Type 0} (files : Files F) (sha : Sha256) (w : BlockFileManager × F) (done : Bool)
    (x y : Option Location × (BlockFileManager × F))
    → Keeps files sha w x.1
    → Keeps files sha w y.1
    → Keeps files sha w (if done then x else y).1
Keeps-if files sha w true x y h k = h
Keeps-if files sha w false x y h k = k

pub write_block-Keeps :
    {F : Type 0} (files : Files F) (sha : Sha256) (m : BlockFileManager) (f : F)
    → IsAppendOnly files
    → (block : Block) → Keeps files sha (m, f) (write_block files (m, f) block).1
unfolding write_block
write_block-Keeps files sha m f laws block =
    let bytes = serialize_block block in
    let r = rotate m (8 + length bytes) in
    let same : r.magic ≡ m.magic = rotate-magic m (8 + length bytes) in
    let written =
      append_parts-Extends files laws f (blk r.cur_file) (frame_of r.magic bytes ∷ bytes ∷ []) in
    Keeps-if files sha (m, f) _ _ _ (Keeps-Extends files sha laws m _ f _ same written)
      (Keeps-Extends files sha laws m _ f _ same written)
