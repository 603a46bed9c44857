-- ===== src/Tests/Files.antt =====
-- A file of two blocks, at the start of block 20.
use os_lab5_challenge.Base.{
  ℕ, ◌+◌, ◌≤◌, ◌<◌, ◌≡◌, ◌≢◌, ◌⊎◌, refl, arith, true, false, leb, ltb, ◌==◌, ◌&&◌, if◌then◌else◌,
  some, done, ok, List, [], ◌∷◌,
}
use os_lab5_challenge.Fs.{Fs, disk_va, free_bit}
use os_lab5_challenge.Fs.Cache.{given}
use os_lab5_challenge.Fs.Files.{
  Place, load, f_size, f_direct, Memory, file_map_block, file_truncate, fs_sync,
}
use os_lab5_challenge.Fs.Files.Clear.{IsOffBitmap}
use os_lab5_challenge.Fs.Files.Sync.{is_stale, fs_sync_lem}
use os_lab5_challenge.Fs.Files.Walk.{file_map_block_lem}
use os_lab5_challenge.Fs.Files.Truncate.{is_listed, file_truncate_lem}
use os_lab5_challenge.Fs.Init.{check_write_block, check_write_block_lem}

abbrev pub file : Place
file = record { page = 0x10014000; word = 0 }

-- Blocks 10 and 11 are the file's.
abbrev pub disk : Fs
disk = record {
  super = some 40;
  has_bitmap = true;
  mapped = λ _. true;
  dirty = λ va. va == 0x10007000;
  cache = λ va j.
      if va == 0x10014000
      then (if j == 32 then 5000 else if j == 34 then 10 else if j == 35 then 11 else 0)
      else 0;
  disk = λ _ _. 0;
}

abbrev pub memory : Memory
memory = λ _. ok tt

fs_sync_example :
    (fs : Fs) × (fs_sync disk ≡ done tt fs)
    × (fs.cache ≡ disk.cache)
    × (fs.mapped ≡ disk.mapped)
    × ((b : ℕ) → b < 40 → is_stale disk b ≡ true → fs.disk b ≡ disk.cache (disk_va b))
    × ((b : ℕ) → (40 ≤ b) ⊎ (is_stale disk b ≡ false) → fs.disk b ≡ disk.disk b)
fs_sync_example = fs_sync_lem disk 40 refl (omega arith)

file_map_block_example :
    (fs : Fs) × (file_map_block memory file 1 false disk ≡ done (given 11) fs)
    × (fs.disk ≡ disk.disk)
    × ((va j : ℕ) → true ≡ true → fs.cache va j ≡ disk.cache va j)
file_map_block_example = file_map_block_lem memory disk file 1 (λ ne. absurd (ne refl))

file-IsOffBitmap : IsOffBitmap file
file-IsOffBitmap w lt e = absurd (omega arith)

file_truncate_example :
    (fs : Fs) × (file_truncate memory file 0 disk ≡ done tt fs)
    × (load file f_size fs ≡ 0)
    × ((i : ℕ)
        → i < 10
        → load file (f_direct + i) fs
          ≡ (if leb 0 i && ltb i 2 then 0 else load file (f_direct + i) disk))
    × ((x : ℕ)
        → x < 262144
        → free_bit fs x ≡ (if is_listed 40 file disk 0 2 x then 1 else free_bit disk x))
file_truncate_example =
    file_truncate_lem memory file 40 0 disk file-IsOffBitmap (omega arith) refl (omega arith)
      (omega arith) refl

-- `/disk0//a/b/`
abbrev path : List ℕ
path = b'/' ∷ b'd' ∷ b'i' ∷ b's' ∷ b'k' ∷ b'0' ∷ b'/' ∷ b'/' ∷ b'a' ∷ b'/' ∷ b'b' ∷ b'/' ∷ []

check_write_block_example :
    (fs : Fs) × (check_write_block disk ≡ done tt fs)
    × ((b : ℕ) → fs.disk b ≡ disk.disk b)
    × (fs.super ≡ some 0)
    × (fs.cache 0x10000000 ≡ disk.cache 0x10001000)
    × ((va : ℕ) → va ≢ 0x10000000 → fs.cache va ≡ disk.cache va)
check_write_block_example = check_write_block_lem disk refl refl
