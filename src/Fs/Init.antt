-- ===== src/Fs/Init.antt =====
-- How the file server starts: the super block and the bitmap are read and checked, and writing is tried.
use native.Mathlib.Decide.{ℕ_discrete}
use os_lab5_challenge.Base.{
  ℕ, zero, suc, ◌+◌, ◌*◌, ◌/◌, ◌%◌, ◌^◌, ◌≡◌, ◌≢◌, refl, sym, ap, ◌∙◌, Bool, true, false, not, ◌&&◌,
  Option, none, some, arith, ltb, leb, ◌<◌, ◌==◌, if◌then◌else◌, Bool-cases, inl, inr, update, M,
  done, pure, ◌>>=◌, ◌>>◌, modify, get, require, ==_same, ==_ne,
}
use os_lab5_challenge.Fs.{
  Fs, nblocks, disk_va, diskaddr, block_is_mapped, write_block, block_is_free,
}
use os_lab5_challenge.Fs.Bitmap.{written, write_block_lem}
use os_lab5_challenge.Fs.Cache.{read_block, drop_page}

-- `super = p` for the cached block 1.
abbrev pub set_super : Fs → Fs
set_super fs = record fs { super = some (fs.cache (disk_va 1) 1) }

unfoldable pub read_super : M Fs (Unit {0})
unfolding read_block
read_super = do
  read_block 1
  modify set_super
  fs ← get
  require (fs.cache (disk_va 1) 0 == 0x68286097)
  require (leb (fs.cache (disk_va 1) 1) 262144)

abbrev pub is_in_use : ℕ → M Fs (Unit {0})
is_in_use b = do fs ← get; require (not (block_is_free b fs))

-- The two loops over the blocks of the bitmap.
unfoldable pub read_blocks : ℕ → ℕ → M Fs (Unit {0})
read_blocks zero b = pure tt
read_blocks (suc n) b = read_block b >> read_blocks n (b + 1)

unfoldable pub check_blocks : ℕ → ℕ → M Fs (Unit {0})
check_blocks zero b = pure tt
check_blocks (suc n) b = is_in_use b >> check_blocks n (b + 1)

unfoldable pub read_bitmap : M Fs (Unit {0})
unfolding read_blocks check_blocks
read_bitmap = do
  n ← nblocks
  read_blocks (n / 32768 + 1) 2
  modify (λ s. record s { has_bitmap = true })
  is_in_use 0
  is_in_use 1
  check_blocks (n / 32768 + 1) 2

-- `memcpy(diskaddr(to), diskaddr(from), BY2PG)`
abbrev pub copy_block : ℕ → ℕ → Fs → Fs
copy_block to from fs = record fs { cache = update fs.cache (disk_va to) (fs.cache (disk_va from)) }

-- The words of a block that starts with "OOPS!\n": seven bytes, with the one that ends it.
abbrev pub oops : (ℕ → ℕ) → ℕ → ℕ
oops block j =
    if 0 == j then 0x53504f4f else if 1 == j then block 1 / 2 ^ 24 * 2 ^ 24 + 0x0a21 else block j

abbrev pub smash : Fs → Fs
smash fs = record fs { cache = update fs.cache (disk_va 1) (oops (fs.cache (disk_va 1))) }

-- `strcmp(..., "OOPS!\n") == 0`
abbrev pub is_oops : (ℕ → ℕ) → Bool
is_oops block = (block 0 == 0x53504f4f) && (block 1 % 2 ^ 24 == 0x0a21)

abbrev pub is_given : Option ℕ → Bool
is_given none = false
is_given (some va) = true

abbrev pub must_be : Bool → Option ℕ → M Fs (Unit {0})
must_be b r = require (if b then is_given r else not (is_given r))

-- From the copy of block 1 on.
unfoldable pub try_writing : M Fs (Unit {0})
try_writing = do
  modify (copy_block 0 1)
  modify smash
  write_block 1
  r ← block_is_mapped 1
  must_be true r
  drop_page (some (disk_va 1))
  r' ← block_is_mapped 1
  must_be false r'
  read_block 1
  fs ← get
  require (is_oops (fs.cache (disk_va 1)))
  modify (copy_block 1 0)
  write_block 1
  modify set_super

unfoldable pub check_write_block : M Fs (Unit {0})
unfolding try_writing
check_write_block = do modify (λ fs. record fs { super = none }); read_block 0; try_writing

unfoldable pub fs_init : M Fs (Unit {0})
unfolding read_super check_write_block read_bitmap
fs_init = read_super >> check_write_block >> read_bitmap

is_oops-oops : (block : ℕ → ℕ) → is_oops (oops block) ≡ true
is_oops-oops block = ground arith

and_false : (x : Bool) → (x && false) ≡ false
and_false true = refl
and_false false = refl

in_cache : (k : ℕ) → k < 262144 → ltb (disk_va k) 0x50000000 ≡ true
in_cache k h = ground (arith, h)

abbrev fetched : ℕ → Fs → Fs
fetched b fs = record fs {
  mapped = update fs.mapped (disk_va b) true;
  dirty = update fs.dirty (disk_va b) false;
  cache = update fs.cache (disk_va b) (fs.disk b);
}

abbrev dropped : ℕ → Fs → Fs
dropped b fs = record fs { mapped = update fs.mapped (disk_va b) false }

-- Reading and looking for a block while `super` is NULL.
module _ (fs : Fs) (b : ℕ) (small : b < 262144) where
  mapped_lem :
      {x : Bool}
      → fs.mapped (disk_va b) ≡ x
      → block_is_mapped b fs ≡ done (if x then some (disk_va b) else none) fs
  unfolding block_is_mapped diskaddr
  mapped_lem m = rw (in_cache b small, m)

  read_cached :
      fs.super ≡ none → fs.mapped (disk_va b) ≡ true → read_block b fs ≡ done (disk_va b, false) fs
  unfolding read_block block_is_mapped diskaddr block_is_free
  read_cached s m = rw (s, and_false fs.has_bitmap, in_cache b small, m)

  read_uncached :
      fs.super ≡ none
      → fs.mapped (disk_va b) ≡ false
      → read_block b fs ≡ done (disk_va b, true) (fetched b fs)
  unfolding read_block block_is_mapped diskaddr block_is_free
  read_uncached s m = rw (s, and_false fs.has_bitmap, in_cache b small, m)

-- The states of `try_writing`.
abbrev smashed : Fs → Fs
smashed fs = written 1 (smash (copy_block 0 1 fs))

abbrev read_back : Fs → Fs
read_back fs = fetched 1 (dropped 1 (smashed fs))

abbrev restored : Fs → Fs
restored fs = set_super (written 1 (copy_block 1 0 (read_back fs)))

try_writing_lem :
    (fs : Fs)
    → fs.super ≡ none
    → fs.mapped (disk_va 1) ≡ true
    → try_writing fs ≡ done tt (restored fs)
unfolding try_writing
try_writing_lem fs s m = rw (
  write_block_lem 1 (smash (copy_block 0 1 fs)) (omega arith) m,
  mapped_lem (smashed fs) 1 (omega arith) m,
  mapped_lem (dropped 1 (smashed fs)) 1 (omega arith) {x = false} refl,
  read_uncached (dropped 1 (smashed fs)) 1 (omega arith) s refl,
  is_oops-oops (fs.cache (disk_va 1)),
  write_block_lem 1 (copy_block 1 0 (read_back fs)) (omega arith) refl,
)

disk_restored :
    (d : ℕ → ℕ → ℕ) (x c : ℕ → ℕ) → d 1 ≡ c → (b : ℕ) → update (update d 1 x) 1 c b ≡ d b
disk_restored d x c e b = elim (ℕ_discrete 1 b) [
  | yes at_one ↦ rw (==_same 1 b at_one) (sym e ∙ ap d at_one)
  | no ne ↦ rw (==_ne 1 b ne)
]

cache_restored :
    (c : ℕ → ℕ → ℕ) (x y z : ℕ → ℕ) (va : ℕ)
    → va ≢ disk_va 0
    → update
        (update (update (update c (disk_va 0) x) (disk_va 1) y) (disk_va 1) z)
        (disk_va 1)
        (c (disk_va 1))
        va
      ≡ c va
cache_restored c x y z va ne = elim (ℕ_discrete (disk_va 1) va) [
  | yes at_one ↦ rw (==_same (disk_va 1) va at_one) (ap c at_one)
  | no other ↦ rw (==_ne (disk_va 1) va other, ==_ne (disk_va 0) va (λ e. ne (sym e)))
]

-- Once block 1 is cached as it is on disk, `check_write_block` finds what it has written and restores the super block: the disk is
-- as before, block 1 is cached as before, `super` points to it, and of the other blocks only block 0
-- is cached differently, as a copy of block 1.
pub check_write_block_lem :
    (fs : Fs)
    → fs.mapped (disk_va 1) ≡ true
    → fs.disk 1 ≡ fs.cache (disk_va 1)
    → (fs' : Fs) × (check_write_block fs ≡ done tt fs')
      × ((b : ℕ) → fs'.disk b ≡ fs.disk b)
      × (fs'.super ≡ some (fs.cache (disk_va 1) 1))
      × (fs'.cache (disk_va 0) ≡ fs.cache (disk_va 1))
      × ((va : ℕ) → va ≢ disk_va 0 → fs'.cache va ≡ fs.cache va)
unfolding check_write_block
check_write_block_lem fs there same = elim (Bool-cases (fs.mapped (disk_va 0))) [
  | inl t ↦
      let s = record fs { super = none } in
      (
        restored s,
        rw (read_cached s 0 (omega arith) refl t) (try_writing_lem s refl there),
        disk_restored fs.disk _ (fs.cache (disk_va 1)) same,
        refl,
        refl,
        cache_restored fs.cache _ _ _,
      )
  | inr f ↦
      let s = record fs { super = none } in
      (
        restored (fetched 0 s),
        rw (read_uncached s 0 (omega arith) refl f) (try_writing_lem (fetched 0 s) refl there),
        disk_restored fs.disk _ (fs.cache (disk_va 1)) same,
        refl,
        refl,
        λ va ne.
            cache_restored (update fs.cache (disk_va 0) (fs.disk 0)) _ _ _ va ne
            ∙ rw (==_ne (disk_va 0) va (λ e. ne (sym e))),
      )
]
