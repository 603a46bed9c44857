-- ===== src/Tests/Blocks.antt =====
-- A disk of forty blocks, of which block 5 is free.
use os_lab5_challenge.Base.{
  ℕ, ◌+◌, ◌≤◌, ◌<◌, ◌≡◌, ◌≢◌, refl, arith, true, false, ◌==◌, if◌then◌else◌, Option, some, done,
  ◌⊎◌,
}
use os_lab5_challenge.Fs.{Fs, free_bit, free_block, alloc_block_num}
use os_lab5_challenge.Fs.Cache.{unmap_block, unmap_block_lem}
use os_lab5_challenge.Fs.Bitmap.{Takes, alloc_block_num_lem}

abbrev disk : Fs
disk = record {
  super = some 40;
  has_bitmap = true;
  mapped = λ _. true;
  dirty = λ _. false;
  cache = λ _ j. if j == 0 then 32 else 0;
  disk = λ _ _. 0;
}

alloc_block_num_example :
    (o : Option ℕ) × (fs : Fs) × (alloc_block_num disk ≡ done o fs) × Takes disk 40 o fs
alloc_block_num_example = alloc_block_num_lem disk 40 (omega arith) (λ b lt. refl) refl

unmap_block_example :
    (fs : Fs) × (unmap_block 1 disk ≡ done tt fs)
    × (fs.mapped 0x10001000 ≡ false)
    × (fs.disk 1 ≡ disk.disk 1)
    × ((x : ℕ) → 1 ≢ x → fs.disk x ≡ disk.disk x)
    × ((va : ℕ) → 0x10001000 ≢ va → fs.mapped va ≡ disk.mapped va)
unfolding os_lab5_challenge.Fs.block_is_free os_lab5_challenge.Base.Bits.halve
unmap_block_example = unmap_block_lem disk 1 (omega arith) refl
