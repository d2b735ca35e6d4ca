-- ===== src/Store/Files/ReadUndo.antt =====
-- Undo data are read back from where they were written, and stay there.
use mathlib.Core.Path.{subst}
use fairchain.Base.{
  ℕ, ◌%◌, ◌^◌, ◌<◌, ◌≡◌, refl, List, [], ◌∷◌, ◌++◌, length, Option, none, some, ok, arith, inl, inr,
  Bool-cases, drop-append,
}
use fairchain.Base.Bytes.{bytes_eq_refl}
use fairchain.Crypto.Digest.{Sha256, double_sha256, double_sha256-IsHash}
use fairchain.Types.Block.{Block}
use fairchain.Store.Files.Defs.{
  rev, Files, BlockFileManager, frame_of, append_parts, write_block, write_undo, read_undo,
}
use fairchain.Store.Files.Frames.{read_frame-frame, full-append}
use fairchain.Store.Files.Kept.{IsAppendOnly, bytes_of, write_block-Keeps}
use fairchain.Store.Files.ReadBack.{append_parts-joined, frame_of-IsFrame}

-- `os.Stat` gives the length of the file, and fails only where there is none.
abbrev pub IsStated : {F : Type 0} → Files F → F → ℕ → Type 0
IsStated files f file_num =
    elim (files.stat_size f (rev file_num)) as (λ _. ℕ) [ none ↦ 0 | some size ↦ size ]
    ≡ length (bytes_of files f (rev file_num))

module _ {F : Type 0} (files : Files F) (sha : Sha256) (laws : IsAppendOnly files) where
  -- A frame, the undo data and their digest, at the end of the file.
  read_undo-joined :
      (m : BlockFileManager) (f : F) (file_num : ℕ) (old undo : List ℕ)
      → length m.magic ≡ 4
      → length undo < 2 ^ 32
      → files.contents f (rev file_num)
        ≡ some (old ++ (frame_of m.magic undo ++ (undo ++ (double_sha256 sha undo ++ []))))
      → read_undo files sha (m, f) file_num (length old) (length undo % 2 ^ 32) ≡ ok undo
  unfolding read_undo
  read_undo-joined m f file_num old undo four small e =
      let sum = double_sha256 sha undo in
      rw (
        e,
        drop-append (length old) old (frame_of m.magic undo ++ (undo ++ (sum ++ []))) refl,
        read_frame-frame m.magic (length undo % 2 ^ 32) (frame_of m.magic undo) undo (sum ++ [])
            (frame_of-IsFrame m.magic undo four small),
        full-append 32 sum [] (double_sha256-IsHash sha undo).0,
        bytes_eq_refl sum,
      )

  -- A result that was an offset and a size gives the undo data back.
  Returned : ℕ → List ℕ → Option (ℕ × ℕ) × (BlockFileManager × F) → Type 0
  Returned file_num undo (none, w) = Unit {0}
  Returned file_num undo (some (offset, size), w) =
      read_undo files sha w file_num offset size ≡ ok undo

  write_undo-Returned :
      (m : BlockFileManager) (f : F) (file_num : ℕ) (undo : List ℕ)
      → length m.magic ≡ 4
      → IsStated files f file_num
      → length (bytes_of files f (rev file_num)) < 2 ^ 32
      → length undo < 2 ^ 32
      → Returned file_num undo (write_undo files sha (m, f) file_num undo)
  unfolding write_undo Returned
  write_undo-Returned m f file_num undo four stated room small =
      let name = rev file_num in
      let parts = frame_of m.magic undo ∷ (undo ∷ (double_sha256 sha undo ∷ [])) in
      let old = bytes_of files f name in
      let at_end : length old % 2 ^ 32 ≡ length old = omega (arith, room) in
      elim (Bool-cases (append_parts files f name parts).0) [
        | inl done ↦
            rw (done, stated, at_end)
              (read_undo-joined m (append_parts files f name parts).1 file_num old undo four small
                (append_parts-joined files laws f name parts done))
        | inr failed ↦ rw failed tt
      ]

-- Where the files are appended to only and `os.Stat` gives the length of the undo file, less than
-- 2^32 bytes of undo data whose write succeeds are read back, with the right checksum, from the
-- offset and the size that the write returned, where the file was shorter than 2^32 bytes; and they
-- still are after the write of a block that follows, whether that succeeds or fails half-way.
pub read_undo-write_undo :
    {F : Type 0} (files : Files F) (sha : Sha256) (m m' : BlockFileManager) (f f' : F)
    (file_num : ℕ) (undo : List ℕ) (offset size : ℕ) (block : Block)
    → IsAppendOnly files
    → length m.magic ≡ 4
    → IsStated files f file_num
    → length (bytes_of files f (rev file_num)) < 2 ^ 32
    → length undo < 2 ^ 32
    → write_undo files sha (m, f) file_num undo ≡ (some (offset, size), (m', f'))
    → (read_undo files sha (m', f') file_num offset size ≡ ok undo)
      × (read_undo files sha (write_block files (m', f') block).1 file_num offset size ≡ ok undo)
unfolding Returned
read_undo-write_undo files sha m m' f f' file_num undo offset size block laws four stated room small
      h =
    let back : read_undo files sha (m', f') file_num offset size ≡ ok undo =
      subst (Returned files sha laws file_num undo) h
        (write_undo-Returned files sha laws m f file_num undo four stated room small) in
    (back, (write_block-Keeps files sha m' f' laws block).1 file_num offset size undo back)
