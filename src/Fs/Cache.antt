-- ===== src/Fs/Cache.antt =====
-- The block cache of fs/fs.c: reading, mapping and dropping blocks.
use os_lab5_challenge.Base.{
  ℕ, ◌<◌, ◌≡◌, ◌≢◌, refl, sym, Bool, true, false, not, ◌&&◌, Option, none, some, arith, ltb,
  if◌then◌else◌, Bool-cases, inl, inr, ==_self, ==_ne, M, done, update, pure, ◌>>=◌, ◌>>◌, require,
  modify, get, Error, Result, ok, err,
}
use os_lab5_challenge.Fs.{
  Fs, disk_va, diskaddr, block_is_mapped, block_is_dirty, write_block, block_is_free, free_block,
  alloc_block_num,
}

-- What the functions report: a value, -E_NO_DISK, -E_NOT_FOUND, -E_BAD_PATH, -E_FILE_EXISTS, or the error
-- of a system call.
pub data Reply (A : Type 0) : Type 0 where
  given : A → Reply A
  no_disk not_found bad_path file_exists : Reply A
  failed : Error → Reply A

abbrev pub fetch : ℕ → ℕ → Option ℕ → M Fs (ℕ × Bool)
fetch blockno va (some _) = pure (va, false)
fetch blockno va none = do
  modify (λ fs. record fs {
    mapped = update fs.mapped va true;
    dirty = update fs.dirty va false;
    cache = update fs.cache va (fs.disk blockno);
  })
  pure (va, true)

-- The address and `isnew`.
unfoldable pub read_block : ℕ → M Fs (ℕ × Bool)
read_block blockno = do
  fs ← get
  require (elim fs.super [ none ↦ true | some n ↦ ltb blockno n ])
  require (not (fs.has_bitmap && block_is_free blockno fs))
  va ← diskaddr blockno
  r ← block_is_mapped blockno
  fetch blockno va r

-- `syscall_mem_alloc`, with its result as an argument: a new page is clear.
abbrev pub map_page : ℕ → Result (Unit {0}) → Option ℕ → M Fs (Reply (Unit {0}))
map_page va r (some _) = pure (given tt)
map_page va (err e) none = pure (failed e)
map_page va (ok _) none = do
  modify (λ fs. record fs {
    mapped = update fs.mapped va true;
    dirty = update fs.dirty va false;
    cache = update fs.cache va (λ _. 0);
  })
  pure (given tt)

unfoldable pub map_block : Result (Unit {0}) → ℕ → M Fs (Reply (Unit {0}))
map_block r blockno = do va ← diskaddr blockno; o ← block_is_mapped blockno; map_page va r o

abbrev pub undo_take : ℕ → Reply (Unit {0}) → M Fs (Reply ℕ)
undo_take blockno (given _) = pure (given blockno)
undo_take blockno (failed e) = do free_block blockno; pure (failed e)
undo_take blockno no_disk = do free_block blockno; pure no_disk
undo_take blockno not_found = do free_block blockno; pure not_found
undo_take blockno bad_path = do free_block blockno; pure bad_path
undo_take blockno file_exists = do free_block blockno; pure file_exists

abbrev pub map_taken : Result (Unit {0}) → Option ℕ → M Fs (Reply ℕ)
map_taken r none = pure no_disk
map_taken r (some blockno) = map_block r blockno >>= undo_take blockno

unfoldable pub alloc_block : Result (Unit {0}) → M Fs (Reply ℕ)
alloc_block r = alloc_block_num >>= map_taken r

-- `syscall_mem_map` with PTE_DIRTY, with its result as an argument.
abbrev pub mark_dirty : ℕ → Result (Unit {0}) → M Fs (Reply (Unit {0}))
mark_dirty va (err e) = pure (failed e)
mark_dirty va (ok _) = do
  modify (λ fs. record fs { dirty = update fs.dirty va true })
  pure (given tt)

unfoldable pub dirty_block : Result (Unit {0}) → ℕ → M Fs (Reply (Unit {0}))
dirty_block r blockno = do
  va ← diskaddr blockno
  fs ← get
  if not (fs.mapped va)
      then pure not_found
      else if fs.dirty va
      then pure (given tt)
      else mark_dirty va r

-- `syscall_mem_unmap` fails for NULL, which nobody notices.
abbrev pub drop_page : Option ℕ → M Fs (Unit {0})
drop_page none = pure tt
drop_page (some va) = modify (λ fs. record fs { mapped = update fs.mapped va false })

unfoldable pub unmap_block : ℕ → M Fs (Unit {0})
unmap_block blockno = do
  r ← block_is_mapped blockno
  fs ← get
  is_dirty ← block_is_dirty blockno
  if not (block_is_free blockno fs) && is_dirty then write_block blockno else pure tt
  drop_page r
  o ← block_is_mapped blockno
  require (elim o [ none ↦ true | some _ ↦ false ])

in_cache : (k : ℕ) → k < 262144 → ltb (disk_va k) 0x50000000 ≡ true
in_cache k h = ground (arith, h)

-- A block of the disk below 2^18 that is not marked as free can be read: the result is its address in
-- the cache, what is cached stays, and a block that was not cached is cached as it is on disk.
pub read_block_lem :
    (fs : Fs) (b : ℕ)
    → b < 262144
    → (elim fs.super [ none ↦ true | some m ↦ ltb b m ]) ≡ true
    → (fs.has_bitmap && block_is_free b fs) ≡ false
    → (fs' : Fs) × (read_block b fs ≡ done (disk_va b, not (fs.mapped (disk_va b))) fs')
      × (fs'.mapped (disk_va b) ≡ true)
      × ((j : ℕ)
          → fs'.cache (disk_va b) j
            ≡ (if fs.mapped (disk_va b) then fs.cache (disk_va b) j else fs.disk b j))
      × ((va : ℕ) → va ≢ disk_va b → fs'.cache va ≡ fs.cache va)
      × (fs'.disk ≡ fs.disk)
unfolding read_block diskaddr block_is_mapped
read_block_lem fs b small inside used = elim (Bool-cases (fs.mapped (disk_va b))) [
  | inl t ↦ (fs, rw (inside, used, in_cache b small, t), t, λ j. rw t, λ va ne. refl, refl)
  | inr f ↦ (
    record fs {
      mapped = update fs.mapped (disk_va b) true;
      dirty = update fs.dirty (disk_va b) false;
      cache = update fs.cache (disk_va b) (fs.disk b);
    },
    rw (inside, used, in_cache b small, f),
    rw (==_self (disk_va b)),
    λ j. rw (f, ==_self (disk_va b)),
    λ va ne. rw (==_ne (disk_va b) va (λ e. ne (sym e))),
    refl,
  )
]

-- What `unmap_block` writes back first.
abbrev pub must_write : Fs → ℕ → Bool
must_write fs b = not (block_is_free b fs) && fs.dirty (disk_va b)

-- `unmap_block` of a cached block below 2^18 drops it from the cache, and no change is lost: a dirty block
-- in use is on disk as it was cached. No other block of the disk changes.
pub unmap_block_lem :
    (fs : Fs) (b : ℕ)
    → b < 262144
    → fs.mapped (disk_va b) ≡ true
    → (fs' : Fs) × (unmap_block b fs ≡ done tt fs')
      × (fs'.mapped (disk_va b) ≡ false)
      × (fs'.disk b ≡ (if must_write fs b then fs.cache (disk_va b) else fs.disk b))
      × ((x : ℕ) → b ≢ x → fs'.disk x ≡ fs.disk x)
      × ((va : ℕ) → disk_va b ≢ va → fs'.mapped va ≡ fs.mapped va)
unfolding unmap_block diskaddr block_is_mapped block_is_dirty write_block
unmap_block_lem fs b small there = elim (Bool-cases (must_write fs b)) [
  | inl t ↦ (
    record fs {
      mapped = update fs.mapped (disk_va b) false;
      disk = update fs.disk b (fs.cache (disk_va b));
    },
    rw (in_cache b small, there, t, there, ==_self (disk_va b)),
    rw (==_self (disk_va b)),
    rw (t, ==_self b),
    λ x ne. rw (==_ne b x ne),
    λ va ne. rw (==_ne (disk_va b) va ne),
  )
  | inr f ↦ (
    record fs { mapped = update fs.mapped (disk_va b) false },
    rw (in_cache b small, there, f, ==_self (disk_va b)),
    rw (==_self (disk_va b)),
    rw f,
    λ x ne. refl,
    λ va ne. rw (==_ne (disk_va b) va ne),
  )
]
