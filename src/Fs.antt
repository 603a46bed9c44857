-- ===== src/Fs.antt =====
-- The block cache and the block bitmap of the file system server: the first part of fs/fs.c. The cache
-- is keyed by the addresses that `diskaddr` computes, and `bitmap` is the cached blocks from block 2 on.
-- Blocks and cache pages are 1024 words.
pub mod Bitmap
pub mod Cache
pub mod Files
pub mod Dirs
pub mod Init
use os_lab5_challenge.Base.{
  ℕ, zero, suc, ◌+◌, ◌-◌, ◌*◌, ◌/◌, ◌%◌, ◌^◌, Bool, true, false, not, ◌&&◌, ◌||◌, Option, none,
  some, bit_or, ltb, leb, ◌==◌, if◌then◌else◌, update, M, panic, done, pure, ◌>>=◌, ◌>>◌, require,
  modify, get,
}
use os_lab5_challenge.Base.Bits.{halve, double}

-- `super` is the pointer, with the number of blocks that it leads to; `has_bitmap` says that `bitmap` is
-- not NULL.
pub record Fs : Type 0 where
  pub super : Option ℕ
  pub has_bitmap : Bool
  pub mapped : ℕ → Bool
  pub dirty : ℕ → Bool
  pub cache : ℕ → ℕ → ℕ
  pub disk : ℕ → ℕ → ℕ

abbrev pub diskmap : ℕ
diskmap = 0x10000000

abbrev pub disk_va : ℕ → ℕ
disk_va blockno = (diskmap + 4096 * blockno % 2 ^ 32) % 2 ^ 32

unfoldable pub diskaddr : ℕ → M Fs ℕ
diskaddr blockno = do require (ltb (disk_va blockno) 0x50000000); pure (disk_va blockno)

unfoldable pub block_is_mapped : ℕ → M Fs (Option ℕ)
unfolding diskaddr
block_is_mapped blockno = do
  va ← diskaddr blockno
  fs ← get
  pure (if fs.mapped va then some va else none)

unfoldable pub block_is_dirty : ℕ → M Fs Bool
unfolding diskaddr
block_is_dirty blockno = do va ← diskaddr blockno; fs ← get; pure (fs.mapped va && fs.dirty va)

abbrev pub write_from : ℕ → Option ℕ → M Fs (Unit {0})
write_from blockno none = λ _. panic
write_from blockno (some va) =
    modify (λ fs. record fs { disk = update fs.disk blockno (fs.cache va) })

unfoldable pub write_block : ℕ → M Fs (Unit {0})
unfolding block_is_mapped diskaddr
write_block blockno = block_is_mapped blockno >>= write_from blockno

-- `bitmap[i]`
abbrev pub bitmap_word : Fs → ℕ → ℕ
bitmap_word fs i = fs.cache (disk_va (i / 1024 + 2)) (i % 1024)

-- `bitmap[i] = w`
abbrev pub set_bitmap_word : ℕ → ℕ → Fs → Fs
set_bitmap_word i w fs = record fs {
  cache = λ va j. if (disk_va (i / 1024 + 2) == va) && (i % 1024 == j) then w else fs.cache va j;
}

-- `bitmap[blockno / 32] & (1 << (blockno % 32))`, shifted down to 0 or 1.
abbrev pub free_bit : Fs → ℕ → ℕ
free_bit fs blockno = halve (blockno % 32) (bitmap_word fs (blockno / 32)) % 2

abbrev pub below : Option ℕ → ℕ → Bool
below none blockno = false
below (some n) blockno = ltb blockno n

unfoldable pub block_is_free : ℕ → Fs → Bool
block_is_free blockno fs = below fs.super blockno && (free_bit fs blockno == 1)

abbrev pub set_free : ℕ → Fs → Fs
set_free blockno fs =
    set_bitmap_word (blockno / 32)
      (bit_or (bitmap_word fs (blockno / 32)) (double (blockno % 32) 1)) fs

-- `&= ~(1 << ...)` at a bit that is set.
abbrev pub set_used : ℕ → Fs → Fs
set_used blockno fs =
    set_bitmap_word (blockno / 32) (bitmap_word fs (blockno / 32) - double (blockno % 32) 1) fs

-- Reading through a NULL `super` faults.
abbrev pub nblocks : M Fs ℕ
nblocks fs = elim fs.super [ none ↦ panic | some n ↦ done n fs ]

unfoldable pub free_block : ℕ → M Fs (Unit {0})
free_block blockno =
    if blockno == 0
    then pure tt
    else (do n ← nblocks; if leb n blockno then pure tt else modify (set_free blockno))

-- The loop of `alloc_block_num` from `blockno` on, with the rounds that are left; `none` is -E_NO_DISK.
unfoldable pub find_block : ℕ → ℕ → M Fs (Option ℕ)
unfolding write_block block_is_mapped diskaddr
find_block zero blockno fs = done none fs
find_block (suc n) blockno fs =
    let rest = find_block n (blockno + 1) fs in
    let taken = (write_block (blockno / 32768 + 2) >> pure (some blockno)) (set_used blockno fs) in
    if free_bit fs blockno == 1 then taken else rest

unfoldable pub alloc_block_num : M Fs (Option ℕ)
unfolding find_block
alloc_block_num = do n ← nblocks; find_block (n - 3) 3
