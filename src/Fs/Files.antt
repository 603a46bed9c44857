-- ===== src/Fs/Files.antt =====
-- The files of fs/fs.c: from the blocks of a file to its truncation and flushing. A `struct File` is 64 words
-- of a cached block; a pointer is the address of its page with the number of a word in it.
pub mod Sync
pub mod Walk
pub mod Clear
pub mod Truncate
use os_lab5_challenge.Base.{
  ℕ, zero, suc, ◌+◌, ◌-◌, ◌*◌, ◌/◌, Bool, true, false, ◌&&◌, Option, none, some, ltb, leb, ◌==◌,
  if◌then◌else◌, M, panic, done, pure, ◌>>=◌, ◌>>◌, modify, get, Error, Result,
}
use os_lab5_challenge.Fs.{Fs, nblocks, block_is_dirty, write_block, free_block}
use os_lab5_challenge.Fs.Cache.{
  Reply, given, no_disk, not_found, bad_path, file_exists, failed, read_block, alloc_block,
  dirty_block,
}

pub record Place : Type 0 where
  pub page : ℕ
  pub word : ℕ

-- `p[k]`
abbrev pub load : Place → ℕ → Fs → ℕ
load p k fs = fs.cache p.page (p.word + k)

-- `p[k] = w`
abbrev pub store : Place → ℕ → ℕ → Fs → Fs
store p k w fs = record fs {
  cache = λ va j. if (p.page == va) && (p.word + k == j) then w else fs.cache va j;
}

abbrev pub at : Place → ℕ → Place
at p k = record p { word = p.word + k }

-- The fields of `struct File`, as words.
abbrev pub f_size : ℕ
f_size = 32

abbrev pub f_type : ℕ
f_type = 33

abbrev pub f_direct : ℕ
f_direct = 34

abbrev pub f_indirect : ℕ
f_indirect = 44

abbrev pub f_dir : ℕ
f_dir = 45

-- A pointer as a number, and back.
abbrev pub address : Place → ℕ
address p = p.page + 4 * p.word

abbrev pub pointer : ℕ → Place
pointer a = record { page = a / 4096 * 4096; word = (a - a / 4096 * 4096) / 4 }

module _ {A B : Type 0} where
  -- `if ((r = ...) < 0) return r;`
  abbrev pub after_reply : (A → M Fs (Reply B)) → Reply A → M Fs (Reply B)
  after_reply k (given a) = k a
  after_reply k no_disk = pure no_disk
  after_reply k not_found = pure not_found
  after_reply k bad_path = pure bad_path
  after_reply k file_exists = pure file_exists
  after_reply k (failed e) = pure (failed e)

  abbrev pub or_return : M Fs (Reply A) → (A → M Fs (Reply B)) → M Fs (Reply B)
  or_return m k = m >>= after_reply k

-- Whether the kernel gives a page for a new block.
abbrev pub Memory : Type 0
Memory = Fs → Result (Unit {0})

unfoldable pub fresh_block : Memory → M Fs (Reply ℕ)
fresh_block memory fs = alloc_block (memory fs) fs

-- The number in a slot; with `alloc`, a new block's if there is none.
unfoldable pub filled_slot : Memory → Bool → Place → M Fs (Reply ℕ)
unfolding fresh_block
filled_slot memory alloc p = do
  fs ← get
  if load p 0 fs == 0
      then (if alloc
          then or_return (fresh_block memory) (λ b. modify (store p 0 b) >> pure (given b))
          else pure not_found)
      else pure (given (load p 0 fs))

unfoldable pub file_block_walk : Memory → Place → ℕ → Bool → M Fs (Reply Place)
unfolding filled_slot
file_block_walk memory f filebno alloc =
    if ltb filebno 10
    then pure (given (at f (f_direct + filebno)))
    else if ltb filebno 1024
    then or_return (filled_slot memory alloc (at f f_indirect))
        (λ b. do (va, isnew) ← read_block b; pure (given (record { page = va; word = filebno })))
    else pure (failed Error.inval)

unfoldable pub file_map_block : Memory → Place → ℕ → Bool → M Fs (Reply ℕ)
unfolding file_block_walk filled_slot
file_map_block memory f filebno alloc =
    or_return (file_block_walk memory f filebno alloc) (filled_slot memory alloc)

abbrev pub clear_slot : Place → M Fs (Reply (Unit {0}))
clear_slot p = do
  fs ← get
  if load p 0 fs == 0 then pure tt else free_block (load p 0 fs) >> modify (store p 0 0)
  pure (given tt)

unfoldable pub file_clear_block : Memory → Place → ℕ → M Fs (Reply (Unit {0}))
unfolding file_block_walk
file_clear_block memory f filebno = or_return (file_block_walk memory f filebno false) clear_slot

-- The address of the block in the cache.
unfoldable pub file_get_block : Memory → Place → ℕ → M Fs (Reply ℕ)
unfolding file_map_block
file_get_block memory f filebno =
    or_return (file_map_block memory f filebno true)
      (λ b. do (va, isnew) ← read_block b; pure (given va))

unfoldable pub file_dirty : Memory → Place → ℕ → M Fs (Reply (Unit {0}))
unfolding file_map_block
file_dirty memory f offset =
    or_return (file_map_block memory f (offset / 4096) false) (λ b fs. dirty_block (memory fs) b fs)

-- `for (bno = from; bno < from + n; bno++) file_clear_block(f, bno);`
unfoldable pub clear_blocks : Memory → Place → ℕ → ℕ → M Fs (Unit {0})
unfolding file_clear_block
clear_blocks memory f from zero = pure tt
clear_blocks memory f from (suc n) =
    file_clear_block memory f from >> clear_blocks memory f (from + 1) n

abbrev pub free_indirect : Place → M Fs (Unit {0})
free_indirect f = do
  fs ← get
  if load f f_indirect fs == 0
      then pure tt
      else free_block (load f f_indirect fs) >> modify (store f f_indirect 0)

abbrev pub blocks_kept : ℕ → ℕ
blocks_kept newsize = if newsize == 0 then 0 else newsize / 4096 + 1

unfoldable pub file_truncate : Memory → Place → ℕ → M Fs (Unit {0})
unfolding clear_blocks
file_truncate memory f newsize = do
  fs ← get
  clear_blocks memory f (blocks_kept newsize) (load f f_size fs / 4096 + 1 - blocks_kept newsize)
  if leb (blocks_kept newsize) 10 then free_indirect f else pure tt
  modify (store f f_size newsize)

unfoldable pub write_if_dirty : ℕ → M Fs (Unit {0})
unfolding block_is_dirty write_block
write_if_dirty b = do is_dirty ← block_is_dirty b; if is_dirty then write_block b else pure tt

-- A block that is not there is passed over.
abbrev pub flush_found : Reply ℕ → M Fs (Unit {0})
flush_found (given b) = write_if_dirty b
flush_found _ = pure tt

unfoldable pub flush_blocks : Memory → Place → ℕ → ℕ → M Fs (Unit {0})
unfolding file_map_block write_if_dirty
flush_blocks memory f bno zero = pure tt
flush_blocks memory f bno (suc n) =
    (file_map_block memory f bno false >>= flush_found) >> flush_blocks memory f (bno + 1) n

unfoldable pub file_flush : Memory → Place → M Fs (Unit {0})
unfolding flush_blocks
file_flush memory f = do fs ← get; flush_blocks memory f 0 (load f f_size fs / 4096 + 1)

-- `if (f->f_dir) file_flush(f->f_dir);`
unfoldable pub flush_dir : Memory → Place → M Fs (Unit {0})
unfolding file_flush
flush_dir memory f = do
  fs ← get
  if load f f_dir fs == 0 then pure tt else file_flush memory (pointer (load f f_dir fs))

unfoldable pub file_set_size : Memory → Place → ℕ → M Fs (Unit {0})
unfolding file_truncate flush_dir
file_set_size memory f newsize = do
  fs ← get
  if ltb newsize (load f f_size fs) then file_truncate memory f newsize else pure tt
  modify (store f f_size newsize)
  flush_dir memory f

unfoldable pub file_close : Memory → Place → M Fs (Unit {0})
unfolding file_flush flush_dir
file_close memory f = file_flush memory f >> flush_dir memory f

-- The loop of `fs_sync` reads `s_nblocks` in every round, which nothing changes meanwhile.
unfoldable pub sync_from : ℕ → ℕ → M Fs (Unit {0})
unfolding write_if_dirty
sync_from zero i = pure tt
sync_from (suc n) i = write_if_dirty i >> sync_from n (i + 1)

unfoldable pub fs_sync : M Fs (Unit {0})
unfolding sync_from
fs_sync = do n ← nblocks; sync_from n 0
