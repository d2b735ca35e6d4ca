-- ===== src/Store/Files/Tests.antt =====
-- Files in memory whose writes may fail half-way, and the theorems at them.
use mathlib.Core.List.{append-nil}
use fairchain.Base.{
  ℕ, ◌%◌, ◌^◌, ◌<◌, ◌≡◌, refl, sym, ap, ◌∙◌, Bool, true, false, List, [], ◌∷◌, ◌++◌, length, take,
  some, ◌==◌, if◌then◌else◌, ok, err, arith, inl, inr, Bool-cases,
}
use fairchain.Crypto.Sample.{sample_sha}
use fairchain.Base.Bytes.{put_le, bytes_eq}
use fairchain.Types.Reader.{read_full, put_all}
use fairchain.Types.Varint.{put_varint}
use fairchain.Types.Transaction.{serialize, serialize_input, serialize_output, put_script}
use fairchain.Types.Block.{serialize_block, serialize_header}
use fairchain.Types.Tests.{block, block-BlockFits}
use fairchain.Store.Interface.{Location}
use fairchain.Store.Files.{
  FileName, blk, rev, Files, BlockFileManager, bad_magic, write_block, read_block, write_undo,
  read_undo, rotate, write_parts, append_parts, read_frame,
}
use fairchain.Store.Files.Kept.{IsAppendOnly}
use fairchain.Store.Files.ReadUndo.{read_undo-write_undo}
use fairchain.Store.Files.ReadBack.{read_block-write_block, IsCurrent}

-- Which of the next writes fail, and the bytes of each file.
abbrev Disk : Type 0
Disk = List Bool × (FileName → List ℕ)

same_name : FileName → FileName → Bool
same_name (blk a) (blk b) = a == b
same_name (rev a) (rev b) = a == b
same_name (blk a) (rev b) = false
same_name (rev a) (blk b) = false

added : FileName → List ℕ → (FileName → List ℕ) → FileName → List ℕ
added name bs disk at_name = if same_name at_name name then disk at_name ++ bs else disk at_name

write_disk : Disk → FileName → List ℕ → Bool × Disk
write_disk ([], disk) name bs = (true, ([], added name bs disk))
write_disk (true ∷ faults, disk) name bs = (false, (faults, added name (take 2 bs) disk))
write_disk (false ∷ faults, disk) name bs = (true, (faults, added name bs disk))

abbrev memory_files : Files Disk
memory_files = record {
  open_append = λ f name. (true, f);
  write = write_disk;
  stat_size = λ f name. some (length (f.1 name));
  contents = λ f name. some (f.1 name);
}

some-injective : {a b : List ℕ} → some a ≡ some b → a ≡ b
some-injective e = cc

added-longer :
    (name : FileName) (bs : List ℕ) (disk : FileName → List ℕ) (at_name : FileName) (old : List ℕ)
    → some (disk at_name) ≡ some old
    → (more : List ℕ) × (some (added name bs disk at_name) ≡ some (old ++ more))
unfolding added
added-longer name bs disk at_name old e = elim (Bool-cases (same_name at_name name)) [
  | inl same ↦ (bs, rw (same, some-injective e) refl)
  | inr other ↦ ([], rw (other, some-injective e, append-nil old) refl)
]

same_name_refl : (name : FileName) → same_name name name ≡ true
unfolding same_name
same_name_refl (blk n) = ground arith
same_name_refl (rev n) = ground arith

added-all :
    (name : FileName) (old bs : List ℕ) (disk : FileName → List ℕ)
    → some (disk name) ≡ some old
    → some (added name bs disk name) ≡ some (old ++ bs)
unfolding added
added-all name old bs disk e = rw (same_name_refl name, some-injective e) refl

memory_files-IsAppendOnly : IsAppendOnly memory_files
unfolding write_disk
memory_files-IsAppendOnly = record {
  open_extends = λ f name at_name bs e. ([], e ∙ ap some (sym (append-nil bs)));
  open_finds = λ f name done. refl;
  write_extends = λ f name bs at_name old e. write_disk-longer f name bs at_name old e;
  write_appends = λ f name old bs e done. write_disk-appends f name old bs e done;
}
  where
    write_disk-longer :
        (f : Disk) (name : FileName) (bs : List ℕ) (at_name : FileName) (old : List ℕ)
        → some (f.1 at_name) ≡ some old
        → (more : List ℕ) × (some ((write_disk f name bs).1.1 at_name) ≡ some (old ++ more))
    write_disk-longer ([], disk) name bs at_name old e = added-longer name bs disk at_name old e
    write_disk-longer (true ∷ faults, disk) name bs at_name old e =
        added-longer name (take 2 bs) disk at_name old e
    write_disk-longer (false ∷ faults, disk) name bs at_name old e =
        added-longer name bs disk at_name old e

    write_disk-appends :
        (f : Disk) (name : FileName) (old bs : List ℕ)
        → some (f.1 name) ≡ some old
        → (write_disk f name bs).0 ≡ true
        → some ((write_disk f name bs).1.1 name) ≡ some (old ++ bs)
    write_disk-appends ([], disk) name old bs e done = added-all name old bs disk e
    write_disk-appends (true ∷ faults, disk) name old bs e done = cc
    write_disk-appends (false ∷ faults, disk) name old bs e done = added-all name old bs disk e

abbrev manager : BlockFileManager
manager = record { magic = 0xfa ∷ 0xbf ∷ 0xb5 ∷ 0xda ∷ []; cur_file = 0; cur_size = 0 }

abbrev start : List Bool → BlockFileManager × Disk
start faults = (manager, (faults, λ name. []))

abbrev first_location : Location
first_location = record { file_num = 0; offset = 0; size = length (serialize_block block) % 2 ^ 32 }

-- A write fails inside the frame, so that the next block is not where the manager says.
failed_write_shifts :
    let w = (write_block memory_files (start (true ∷ [])) block).1 in
    let (loc, w') = write_block memory_files w block in
    (loc ≡ some first_location) × (read_block memory_files w' 0 0 0 ≡ err bad_magic)
unfolding write_block write_disk added same_name rotate write_parts append_parts read_block
    read_frame read_full put_le serialize_block serialize_header put_varint put_all serialize
    serialize_input put_script serialize_output bytes_eq
failed_write_shifts = (refl, refl)

abbrev after_write : BlockFileManager × Disk
after_write = (write_block memory_files (start []) block).1

first_write : write_block memory_files (start []) block ≡ (some first_location, after_write)
unfolding write_block write_disk added same_name rotate write_parts append_parts
first_write = refl

small_block : length (serialize_block block) < 2 ^ 32
unfolding serialize_block serialize_header put_le put_varint put_all serialize serialize_input
    serialize_output put_script
small_block = omega arith

read_block-write_block_example :
    (read_block memory_files after_write 0 0 (length (serialize_block block) % 2 ^ 32) ≡ ok block)
    × IsCurrent memory_files after_write.0 after_write.1
read_block-write_block_example =
    read_block-write_block memory_files manager after_write.0 ([], λ name. []) after_write.1 block
      first_location memory_files-IsAppendOnly refl refl refl block-BlockFits small_block
      first_write

-- The undo data are written, and then the write of a block fails inside its frame.
abbrev undo_faults : List Bool
undo_faults = false ∷ (false ∷ (false ∷ (true ∷ [])))

abbrev undo_data : List ℕ
undo_data = 7 ∷ (8 ∷ [])

abbrev after_undo : BlockFileManager × Disk
after_undo = (write_undo memory_files sample_sha (start undo_faults) 0 undo_data).1

undo_written :
    write_undo memory_files sample_sha (start undo_faults) 0 undo_data ≡ (some (0, 2), after_undo)
unfolding write_undo write_disk added same_name write_parts append_parts
undo_written = refl

read_undo-write_undo_example :
    (read_undo memory_files sample_sha after_undo 0 0 2 ≡ ok undo_data)
    × (read_undo memory_files sample_sha (write_block memory_files after_undo block).1 0 0 2
        ≡ ok undo_data)
read_undo-write_undo_example =
    read_undo-write_undo memory_files sample_sha manager after_undo.0 (undo_faults, λ name. [])
      after_undo.1 0 undo_data 0 2 block memory_files-IsAppendOnly refl refl (omega arith)
      (omega arith) undo_written
