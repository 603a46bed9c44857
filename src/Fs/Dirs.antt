-- ===== src/Fs/Dirs.antt =====
-- Directories and paths of fs/fs.c. A directory's block is sixteen files of 64 words; a path is the list of its
-- bytes before the end, and so is a name.
pub mod Path
use os_lab5_challenge.Base.{
  ℕ, zero, suc, ◌+◌, ◌-◌, ◌*◌, ◌/◌, ◌%◌, ◌^◌, Bool, true, false, ◌&&◌, Option, none, some, List, [],
  ◌∷◌, length, ltb, leb, ◌==◌, if◌then◌else◌, M, panic, done, pure, ◌>>=◌, ◌>>◌, modify, get,
  require, Error,
}
use os_lab5_challenge.Fs.{Fs, disk_va, diskmap}
use os_lab5_challenge.Fs.Cache.{
  Reply, given, no_disk, not_found, bad_path, file_exists, failed, dirty_block,
}
use os_lab5_challenge.Fs.Files.{
  Place, load, store, f_size, f_type, f_dir, address, or_return, Memory, file_get_block,
  file_truncate, file_flush, flush_dir,
}

-- `((char *)f)[k]`
abbrev pub byte_of : Place → ℕ → Fs → ℕ
byte_of f k fs = load f (k / 4) fs / 256 ^ (k % 4) % 256

abbrev pub store_byte : Place → ℕ → ℕ → Fs → Fs
store_byte f k b fs =
    let w = load f (k / 4) fs in
    store f (k / 4) (w - w / 256 ^ (k % 4) % 256 * 256 ^ (k % 4) + b * 256 ^ (k % 4)) fs

-- `strcmp(name, f->f_name) == 0`, from byte `k` on.
abbrev pub is_name : List ℕ → ℕ → Place → Fs → Bool
is_name [] k f fs = byte_of f k fs == 0
is_name (c ∷ cs) k f fs = (byte_of f k fs == c) && is_name cs (k + 1) f fs

-- `strcpy(f->f_name, name)`
abbrev pub put_name : List ℕ → ℕ → Place → Fs → Fs
put_name [] k f fs = store_byte f k 0 fs
put_name (c ∷ cs) k f fs = put_name cs (k + 1) f (store_byte f k c fs)

unfoldable pub addr2disk : ℕ → M Fs ℕ
addr2disk addr = do
  require (leb diskmap addr && ltb addr 0x50000000)
  pure ((addr - diskmap) / 4096)

-- `((struct File *)blk)[j]`
abbrev pub file_at : ℕ → ℕ → Place
file_at blk j = record { page = blk; word = 64 * j }

-- The first file of the block from `j` on that passes the test.
unfoldable pub find_file : (Place → Fs → Bool) → ℕ → ℕ → ℕ → Fs → Option Place
find_file test zero j blk fs = none
find_file test (suc n) j blk fs =
    let rest = find_file test n (j + 1) blk fs in
    if test (file_at blk j) fs then some (file_at blk j) else rest

-- `f->f_dir = dir; dirty_block(addr2disk(blk));`
abbrev pub hit : Memory → Place → ℕ → Place → M Fs (Reply Place)
hit memory dir blk f = do
  modify (store f f_dir (address dir))
  b ← addr2disk blk
  fs ← get
  dirty_block (memory fs) b
  pure (given f)

unfoldable pub lookup_from : Memory → List ℕ → Place → ℕ → ℕ → M Fs (Reply Place)
unfolding find_file addr2disk
lookup_from memory name dir zero i = pure not_found
lookup_from memory name dir (suc n) i = or_return (file_get_block memory dir i) (λ blk. do
  fs ← get
  elim (find_file (is_name name 0) 16 0 blk fs) [
    | some f ↦ hit memory dir blk f
    | none ↦ lookup_from memory name dir n (i + 1)
  ])

unfoldable pub dir_lookup : Memory → Place → List ℕ → M Fs (Reply Place)
unfolding lookup_from
dir_lookup memory dir name = do fs ← get; lookup_from memory name dir (load dir f_size fs / 4096) 0

abbrev pub is_unused : Place → Fs → Bool
is_unused f fs = byte_of f 0 fs == 0

-- A block more for the directory.
abbrev pub extend_dir : Memory → Place → ℕ → M Fs (Reply Place)
extend_dir memory dir i = do
  modify (λ fs. store dir f_size ((load dir f_size fs + 4096) % 2 ^ 32) fs)
  or_return (file_get_block memory dir i) (λ blk. pure (given (file_at blk 0)))

unfoldable pub alloc_from : Memory → Place → ℕ → ℕ → M Fs (Reply Place)
unfolding find_file
alloc_from memory dir zero i = extend_dir memory dir i
alloc_from memory dir (suc n) i = or_return (file_get_block memory dir i) (λ blk. do
  fs ← get
  elim (find_file is_unused 16 0 blk fs) [
    | some f ↦ pure (given f)
    | none ↦ alloc_from memory dir n (i + 1)
  ])

unfoldable pub dir_alloc_file : Memory → Place → M Fs (Reply Place)
unfolding alloc_from
dir_alloc_file memory dir = do fs ← get; alloc_from memory dir (load dir f_size fs / 4096) 0

unfoldable pub skip_slash : List ℕ → List ℕ
skip_slash [] = []
skip_slash (c ∷ cs) = let rest = skip_slash cs in if c == b'/' then rest else c ∷ cs

-- `while (*path != '/' && *path != '\0') path++;`: what is passed, and what is left.
unfoldable pub first_name : List ℕ → List ℕ × List ℕ
first_name [] = ([], [])
first_name (c ∷ cs) =
    let (name, rest) = first_name cs in if c == b'/' then ([], c ∷ cs) else (c ∷ name, rest)

-- What `walk_path` returns, with `*pdir` and `lastelem` (`none` where it leaves or makes them empty).
pub record Walked : Type 0 where
  pub reply : Reply Place
  pub pdir : Option Place
  pub lastelem : Option (List ℕ)

abbrev pub stopped : Reply Place → Walked
stopped r = record { reply = r; pdir = none; lastelem = none }

-- After `dir_lookup`: the walk goes on with a file; at the end of the path a missing file has a directory.
abbrev pub after_lookup : (Place → M Fs Walked) → Bool → Place → List ℕ → Reply Place → M Fs Walked
after_lookup on is_last dir name (given file) = on file
after_lookup on is_last dir name not_found =
    if is_last
    then pure (record { reply = not_found; pdir = some dir; lastelem = some name })
    else pure (stopped not_found)
after_lookup on is_last dir name no_disk = pure (stopped no_disk)
after_lookup on is_last dir name bad_path = pure (stopped bad_path)
after_lookup on is_last dir name file_exists = pure (stopped file_exists)
after_lookup on is_last dir name (failed e) = pure (stopped (failed e))

-- The checks of a round: the length of the name, and the type of the file that is to hold it.
abbrev pub look_up : Memory → (Place → M Fs Walked) → Bool → Place → List ℕ → M Fs Walked
look_up memory on is_last dir name = if leb 128 (length name) then pure (stopped bad_path) else (do
  fs ← get
  if load dir f_type fs == 1
      then (dir_lookup memory dir name >>= after_lookup on is_last dir name)
      else pure (stopped not_found))

abbrev pub is_end : List ℕ → Bool
is_end [] = true
is_end (c ∷ cs) = false

-- The loop, with a bound on its rounds; the rounds running out is `panic`.
unfoldable pub walk_from : ℕ → Memory → List ℕ → Option Place → Place → M Fs Walked
unfolding skip_slash first_name
walk_from n memory [] dir file = pure (record { reply = given file; pdir = dir; lastelem = none })
walk_from zero memory (c ∷ cs) dir file = λ _. panic
walk_from (suc n) memory (c ∷ cs) dir file =
    let (name, rest) = first_name (c ∷ cs) in
    let path = skip_slash rest in
    look_up memory (walk_from n memory path (some file)) (is_end path) file name

abbrev pub drop : ℕ → List ℕ → List ℕ
drop zero xs = xs
drop (suc n) [] = []
drop (suc n) (x ∷ xs) = drop n xs

-- `&super->s_root`
abbrev pub root : Place
root = record { page = disk_va 1; word = 2 }

-- `ROOTDIR_NAMELEN` is 6.
unfoldable pub walk_path : Memory → List ℕ → M Fs Walked
unfolding walk_from
walk_path memory path = let p = skip_slash (drop 6 path) in walk_from (length p) memory p none root

unfoldable pub file_open : Memory → List ℕ → M Fs (Reply Place)
unfolding walk_path
file_open memory path = walk_path memory path >>= λ w. pure w.reply

-- If `dir_alloc_file` fails, `r` is still what `walk_path` returned.
abbrev pub name_new : List ℕ → Reply Place → M Fs (Reply Place)
name_new name (given f) = modify (put_name name 0 f) >> pure (given f)
name_new name _ = pure not_found

abbrev pub create_in : Memory → Option Place → Option (List ℕ) → M Fs (Reply Place)
create_in memory (some dir) (some name) = dir_alloc_file memory dir >>= name_new name
create_in memory _ _ = pure not_found

abbrev pub create_after : Memory → Walked → Reply Place → M Fs (Reply Place)
create_after memory w (given f) = pure file_exists
create_after memory w not_found = create_in memory w.pdir w.lastelem
create_after memory w no_disk = pure no_disk
create_after memory w bad_path = pure bad_path
create_after memory w file_exists = pure file_exists
create_after memory w (failed e) = pure (failed e)

unfoldable pub file_create : Memory → List ℕ → M Fs (Reply Place)
unfolding walk_path dir_alloc_file
file_create memory path = walk_path memory path >>= λ w. create_after memory w w.reply

unfoldable pub file_remove : Memory → List ℕ → M Fs (Reply (Unit {0}))
unfolding walk_path
file_remove memory path = or_return (file_open memory path) (λ f. do
  file_truncate memory f 0
  modify (store_byte f 0 0)
  file_flush memory f
  flush_dir memory f
  pure (given tt))
