-- ===== src/Store/Files/ReadBack.antt =====
-- A block is read back from where it was written.
use mathlib.Core.List.{append_assoc, append-nil}
use mathlib.Core.Path.{subst}
use fairchain.Base.{
  ℕ, ◌+◌, ◌%◌, ◌^◌, ◌<◌, ◌≤◌, ◌≡◌, refl, sym, ap, ◌∙◌, true, ◌&&◌, List, [], ◌∷◌, ◌++◌, length,
  take, drop, Option, none, some, ltb, ok, arith, inl, inr, Bool-cases, length-append, take-append,
  drop-append,
}
use fairchain.Base.Bytes.{put_le, le_value, le_value-put_le, length-put_le, bytes_eq_refl}
use fairchain.Types.Block.{Block, BlockFits, serialize_block, deserialize_block}
use fairchain.Types.Block.Codec.{deserialize_block-serialize_block}
use fairchain.Store.Interface.{Location}
use fairchain.Store.Files.Defs.{
  FileName, blk, Files, BlockFileManager, frame_of, rotate, write_parts, append_parts, write_block,
  read_block, max_block_file_size,
}
use fairchain.Store.Files.Frames.{IsFrame, read_frame-frame}
use fairchain.Store.Files.Kept.{IsAppendOnly, bytes_of, rotate-magic}

abbrev pub joined : List (List ℕ) → List ℕ
joined [] = []
joined (part ∷ parts) = part ++ joined parts

module _ {F : Type 0} (files : Files F) (laws : IsAppendOnly files) where
  write_parts-joined :
      (f : F) (name : FileName) (old : List ℕ) (parts : List (List ℕ))
      → files.contents f name ≡ some old
      → (write_parts files f name parts).0 ≡ true
      → files.contents (write_parts files f name parts).1 name ≡ some (old ++ joined parts)
  unfolding write_parts
  write_parts-joined f name old [] e h = e ∙ ap some (sym (append-nil old))
  write_parts-joined f name old (part ∷ parts) e h = elim (Bool-cases (files.write f name part).0) [
    | inl done ↦
        rw (done, ← append_assoc old part (joined parts))
          (write_parts-joined (files.write f name part).1 name (old ++ part) parts
            (laws.write_appends f name old part e done) (rw done at h))
    | inr failed ↦ cc (rw failed at h)
  ]

  pub append_parts-joined :
      (f : F) (name : FileName) (parts : List (List ℕ))
      → (append_parts files f name parts).0 ≡ true
      → files.contents (append_parts files f name parts).1 name
        ≡ some (bytes_of files f name ++ joined parts)
  unfolding append_parts
  append_parts-joined f name parts h = elim (Bool-cases (files.open_append f name).0) [
    | inl opened ↦ rw opened (
        write_parts-joined (files.open_append f name).1 name (bytes_of files f name) parts
          (laws.open_finds f name opened) (rw opened at h))
    | inr failed ↦ cc (rw failed at h)
  ]

pub frame_of-IsFrame :
    (magic bytes : List ℕ)
    → length magic ≡ 4
    → length bytes < 2 ^ 32
    → IsFrame magic (length bytes % 2 ^ 32) (frame_of magic bytes) bytes
frame_of-IsFrame magic bytes four small =
    let len = length bytes in
    let front : take 4 (magic ++ put_le 4 len) ≡ magic = take-append 4 magic (put_le 4 len) four in
    let said : le_value (drop 4 (magic ++ put_le 4 len)) ≡ len =
      rw (drop-append 4 magic (put_le 4 len) four) (le_value-put_le 4 len (omega arith)) in
    let same : len % 2 ^ 32 ≡ len = omega arith in
    record {
      eight = omega (arith, length-append magic (put_le 4 len), length-put_le 4 len);
      named = rw (front, bytes_eq_refl magic) refl;
      sized = rw (said, same) (ground arith);
      spans = sym said;
    }

-- What the manager knows of the file that it writes to.
abbrev pub IsCurrent : {F : Type 0} → Files F → BlockFileManager → F → Type 0
IsCurrent files m f = m.cur_size ≡ length (bytes_of files f (blk m.cur_file))

rotate-IsCurrent :
    {F : Type 0} (files : Files F) (m : BlockFileManager) (f : F) (n : ℕ)
    → IsCurrent files m f
    → bytes_of files f (blk ((m.cur_file + 1) % 2 ^ 32)) ≡ []
    → IsCurrent files (rotate m n) f × ((rotate m n).cur_size ≤ max_block_file_size)
unfolding rotate
rotate-IsCurrent files m f n cur next =
    elim (Bool-cases (ltb 0 m.cur_size && ltb max_block_file_size (m.cur_size + n))) [
      | inl full ↦ rw full (rw next refl, omega arith)
      | inr room ↦ rw room (cur, ground arith)
    ]

module _ {F : Type 0} (files : Files F) (laws : IsAppendOnly files) where
  read_block-joined :
      (m : BlockFileManager) (f : F) (file_num : ℕ) (old : List ℕ) (block : Block)
      → length m.magic ≡ 4
      → BlockFits block
      → length (serialize_block block) < 2 ^ 32
      → files.contents f (blk file_num)
        ≡ some (old ++ (frame_of m.magic (serialize_block block) ++ (serialize_block block ++ [])))
      → read_block files (m, f) file_num (length old) (length (serialize_block block) % 2 ^ 32)
        ≡ ok block
  unfolding read_block
  read_block-joined m f file_num old block four v small e =
      let bytes = serialize_block block in
      let framed =
        read_frame-frame m.magic (length bytes % 2 ^ 32) (frame_of m.magic bytes) bytes []
          (frame_of-IsFrame m.magic bytes four small) in
      let decoded : deserialize_block bytes ≡ ok (block, []) =
        subst (λ t. deserialize_block t ≡ ok (block, [])) (append-nil bytes)
          (deserialize_block-serialize_block block [] v) in
      rw (
        e,
        drop-append (length old) old (frame_of m.magic bytes ++ (bytes ++ [])) refl,
        framed,
        decoded,
      )

  -- A result that was a location gives the block back.
  Returned : Block → Option Location × (BlockFileManager × F) → Type 0
  Returned block (none, w) = Unit {0}
  Returned block (some loc, (m, f)) =
      (read_block files (m, f) loc.file_num loc.offset loc.size ≡ ok block) × IsCurrent files m f

  nothing-Returned : (block : Block) (m : BlockFileManager) (f : F) → Returned block (none, (m, f))
  unfolding Returned
  nothing-Returned block m f = tt

  bytes_of-some :
      (f : F) (name : FileName) {bs : List ℕ}
      → files.contents f name ≡ some bs
      → bytes_of files f name ≡ bs
  bytes_of-some f name e = rw (bytes_of, e) refl

  stored-Returned :
      (r : BlockFileManager) (f f' : F) (block : Block)
      → length r.magic ≡ 4
      → IsCurrent files r f
      → r.cur_size ≤ max_block_file_size
      → BlockFits block
      → length (serialize_block block) < 2 ^ 32
      → files.contents f' (blk r.cur_file)
        ≡ some (
            bytes_of files f (blk r.cur_file)
            ++ (frame_of r.magic (serialize_block block) ++ (serialize_block block ++ [])))
      → Returned block (
        some (record {
          file_num = r.cur_file;
          offset = r.cur_size % 2 ^ 32;
          size = length (serialize_block block) % 2 ^ 32;
        }),
        (record r { cur_size = r.cur_size + (8 + length (serialize_block block)) }, f'),
      )
  unfolding Returned
  stored-Returned r f f' block four cur bound v small now =
      let bytes = serialize_block block in
      let frame = frame_of r.magic bytes in
      let old = bytes_of files f (blk r.cur_file) in
      let m' = record r { cur_size = r.cur_size + (8 + length bytes) } in
      let at_end : r.cur_size % 2 ^ 32 ≡ length old = omega (arith, cur, bound) in
      let longer : r.cur_size + (8 + length bytes) ≡ length (old ++ (frame ++ (bytes ++ []))) =
        omega (
          arith,
          cur,
          four,
          length-append old (frame ++ (bytes ++ [])),
          length-append frame (bytes ++ []),
          length-append bytes [],
          length-append r.magic (put_le 4 (length bytes)),
          length-put_le 4 (length bytes),
        ) in
      (
        rw at_end (read_block-joined m' f' r.cur_file old block four v small now),
        longer ∙ ap length (sym (bytes_of-some f' (blk r.cur_file) now)),
      )

  written-Returned :
      (r : BlockFileManager) (m : BlockFileManager) (f : F) (block : Block)
      → length r.magic ≡ 4
      → IsCurrent files r f
      → r.cur_size ≤ max_block_file_size
      → BlockFits block
      → length (serialize_block block) < 2 ^ 32
      → rotate m (8 + length (serialize_block block)) ≡ r
      → Returned block (write_block files (m, f) block)
  unfolding write_block
  written-Returned r m f block four cur bound v small turned =
      let bytes = serialize_block block in
      let parts = frame_of r.magic bytes ∷ bytes ∷ [] in
      rw turned (elim (Bool-cases (append_parts files f (blk r.cur_file) parts).0) [
        | inl done ↦ rw done (
            stored-Returned r f (append_parts files f (blk r.cur_file) parts).1 block four cur bound
              v small (append_parts-joined files laws f (blk r.cur_file) parts done))
        | inr failed ↦ rw failed (nothing-Returned block r _)
      ])

-- Where the files are appended to only and the manager knows the length of the file it writes to, a
-- well-formed block of less than 2^32 bytes whose write succeeds is read back from the location that
-- the write returned, also where the write began a new file, which must be empty then; and the
-- manager knows the length of its file after that.
pub read_block-write_block :
    {F : Type 0} (files : Files F) (m m' : BlockFileManager) (f f' : F) (block : Block)
    (loc : Location)
    → IsAppendOnly files
    → length m.magic ≡ 4
    → IsCurrent files m f
    → bytes_of files f (blk ((m.cur_file + 1) % 2 ^ 32)) ≡ []
    → BlockFits block
    → length (serialize_block block) < 2 ^ 32
    → write_block files (m, f) block ≡ (some loc, (m', f'))
    → (read_block files (m', f') loc.file_num loc.offset loc.size ≡ ok block)
      × IsCurrent files m' f'
unfolding Returned
read_block-write_block files m m' f f' block loc laws four cur next v small h =
    let n = 8 + length (serialize_block block) in
    let (cur', bound) = rotate-IsCurrent files m f n cur next in
    subst (Returned files laws block) h (
      written-Returned files laws (rotate m n) m f block (rw (rotate-magic m n) four) cur' bound v
        small refl)
