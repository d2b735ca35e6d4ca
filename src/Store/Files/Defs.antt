-- ===== src/Store/Files/Defs.antt =====
-- `BlockFileManager` (internal/store/blockfile.go): blk*.dat and rev*.dat, to which framed records are
-- appended. The files are a parameter, with the calls of package os that the code makes of them.
use fairchain.Base.{
  ℕ, ◌+◌, ◌*◌, ◌%◌, ◌^◌, Bool, true, false, not, ◌&&◌, List, [], ◌∷◌, ◌++◌, length, take, drop,
  Option, none, some, ltb, ◌==◌, if◌then◌else◌, Outcome, ok, err, panic, ◌>>=◌, ◌>>◌, or_fail,
  fail_if,
}
use fairchain.Base.Bytes.{put_le, le_value, bytes_eq}
use fairchain.Types.Block.{Block, serialize_block, deserialize_block}
use fairchain.Types.Reader.{ReadError, read_full}
use fairchain.Crypto.Digest.{Sha256, double_sha256}
use fairchain.Store.Interface.{Location}

abbrev pub max_block_file_size : ℕ
max_block_file_size = 128 * 1024 * 1024

-- The files of `blkPath` and `revPath`.
pub data FileName : Type 0 where
  blk rev : ℕ → FileName

-- `os.OpenFile` to append, which creates the file; `Write`; `os.Stat`; and what `os.Open` finds.
pub record Files (F : Type 0) : Type 0 where
  pub open_append : F → FileName → Bool × F
  pub write : F → FileName → List ℕ → Bool × F
  pub stat_size : F → FileName → Option ℕ
  pub contents : F → FileName → Option (List ℕ)

pub record BlockFileManager : Type 0 where
  pub magic : List ℕ
  pub cur_file : ℕ
  pub cur_size : ℕ

pub data FileError : Type 0 where
  not_opened bad_magic size_mismatch bad_checksum : FileError
  not_read : ReadError → FileError

abbrev pub or_not_read {ℓ} : {A : Type ℓ} → Outcome ReadError A → Outcome FileError A
or_not_read o = elim o [ ok v ↦ ok v | err why ↦ err (not_read why) | panic ↦ panic ]

-- The eight bytes in front of a record.
abbrev pub frame_of : List ℕ → List ℕ → List ℕ
frame_of magic bytes = magic ++ put_le 4 (length bytes)

-- A frame and the record behind it, and what is left of the file.
unfoldable pub read_frame : List ℕ → ℕ → List ℕ → Outcome FileError (List ℕ × List ℕ)
read_frame magic size bs = or_not_read (read_full 8 bs) >>= λ (frame, rest).
    fail_if (not (bytes_eq (take 4 frame) magic)) bad_magic
    >> (fail_if (ltb 0 size && not (le_value (drop 4 frame) == size)) size_mismatch
        >> or_not_read (read_full (le_value (drop 4 frame)) rest))

-- A new file is begun where the record would make the current one too long.
unfoldable pub rotate : BlockFileManager → ℕ → BlockFileManager
rotate m frame_size =
    if ltb 0 m.cur_size && ltb max_block_file_size (m.cur_size + frame_size)
    then record m { cur_file = (m.cur_file + 1) % 2 ^ 32; cur_size = 0 }
    else m

module _ {F : Type 0} (files : Files F) where
  -- The writes of a record, up to the first that fails.
  unfoldable pub write_parts : F → FileName → List (List ℕ) → Bool × F
  write_parts f name [] = (true, f)
  write_parts f name (part ∷ parts) =
      let (done, f') = files.write f name part in
      let rest = write_parts f' name parts in if done then rest else (false, f')

  unfoldable pub append_parts : F → FileName → List (List ℕ) → Bool × F
  append_parts f name parts =
      let (opened, f') = files.open_append f name in
      if opened then write_parts f' name parts else (false, f')

  unfoldable pub write_block :
      BlockFileManager × F → Block → Option Location × (BlockFileManager × F)
  write_block (m, f) block =
      let bytes = serialize_block block in
      let r = rotate m (8 + length bytes) in
      let (done, f') = append_parts f (blk r.cur_file) (frame_of r.magic bytes ∷ bytes ∷ []) in
      if done
      then (
        some (record {
          file_num = r.cur_file;
          offset = r.cur_size % 2 ^ 32;
          size = length bytes % 2 ^ 32;
        }),
        (record r { cur_size = r.cur_size + (8 + length bytes) }, f'),
      )
      else (none, (r, f'))

  unfoldable pub read_block : BlockFileManager × F → ℕ → ℕ → ℕ → Outcome FileError Block
  read_block (m, f) file_num offset size =
      or_fail (files.contents f (blk file_num)) not_opened >>= λ bs.
      read_frame m.magic size (drop offset bs) >>= λ (bytes, _).
      or_not_read (deserialize_block bytes) >>= λ (block, _). ok block

  module _ (sha : Sha256) where
    unfoldable pub write_undo :
        BlockFileManager × F → ℕ → List ℕ → Option (ℕ × ℕ) × (BlockFileManager × F)
    write_undo (m, f) file_num undo =
        let cur_size : ℕ = elim (files.stat_size f (rev file_num)) [
          | none ↦ 0
          | some size ↦ size
        ] in
        let (done, f') =
          append_parts f (rev file_num)
            (frame_of m.magic undo ∷ undo ∷ double_sha256 sha undo ∷ []) in
        (if done then some (cur_size % 2 ^ 32, length undo % 2 ^ 32) else none, (m, f'))

    unfoldable pub read_undo : BlockFileManager × F → ℕ → ℕ → ℕ → Outcome FileError (List ℕ)
    read_undo (m, f) file_num offset size =
        or_fail (files.contents f (rev file_num)) not_opened >>= λ bs.
        read_frame m.magic size (drop offset bs) >>= λ (bytes, rest).
        or_not_read (read_full 32 rest) >>= λ (stored_checksum, _).
        fail_if (not (bytes_eq stored_checksum (double_sha256 sha bytes))) bad_checksum >> ok bytes
