-- ===== src/Fs/Files/Sync.antt =====
-- `fs_sync` brings the disk up to the cache.
use native.Mathlib.Decide.{ℕ_discrete}
use os_lab5_challenge.Base.{
  ℕ, zero, suc, ◌+◌, ◌≤◌, ◌<◌, ◌≡◌, ◌≢◌, ◌⊎◌, refl, ap, ◌∙◌, Bool, true, false, ◌&&◌, some, arith,
  ltb, leb, if◌then◌else◌, Bool-cases, inl, inr, ==_self, ==_ne, subst, update, done, and_then,
}
use os_lab5_challenge.Fs.{Fs, disk_va, diskaddr, block_is_mapped, block_is_dirty, write_block}
use os_lab5_challenge.Fs.Bitmap.{nblocks_lem}
use os_lab5_challenge.Fs.Files.{write_if_dirty, sync_from, fs_sync}

in_cache : (k : ℕ) → k < 262144 → ltb (disk_va k) 0x50000000 ≡ true
in_cache k h = ground (arith, h)

abbrev pub is_stale : Fs → ℕ → Bool
is_stale fs b = fs.mapped (disk_va b) && fs.dirty (disk_va b)

abbrev written : ℕ → Fs → Fs
written k fs = record fs { disk = update fs.disk k (fs.cache (disk_va k)) }

both : (x y : Bool) → (x && y) ≡ true → (x ≡ true) × (y ≡ true)
both x y h = ground arith

pub write_if_dirty_lem :
    (k : ℕ) (fs : Fs)
    → k < 262144
    → write_if_dirty k fs ≡ done tt (if is_stale fs k then written k fs else fs)
unfolding write_if_dirty block_is_dirty write_block block_is_mapped diskaddr
write_if_dirty_lem k fs small = elim (Bool-cases (is_stale fs k)) [
  | inl t ↦ rw (in_cache k small, t, (both (fs.mapped (disk_va k)) (fs.dirty (disk_va k)) t).0)
  | inr f ↦ rw (in_cache k small, f)
]

-- The blocks from `i` to `i + n` are on disk as they are cached, where they were dirty; nothing else changes.
abbrev pub AreSynced : ℕ → ℕ → Fs → Fs → Type 0
AreSynced n i fs fs' =
    (fs'.cache ≡ fs.cache)
    × (fs'.mapped ≡ fs.mapped)
    × (fs'.dirty ≡ fs.dirty)
    × ((b : ℕ)
        → fs'.disk b ≡ (
            if (leb i b && ltb b (i + n)) && is_stale fs b
            then fs.cache (disk_va b)
            else fs.disk b))

-- What one more round at the front makes of block `b`.
module _ (p : ℕ → Bool) (c d : ℕ → ℕ → ℕ) (n i : ℕ) where
  abbrev brought_up : ℕ → ℕ → (ℕ → ℕ → ℕ) → ℕ → ℕ → ℕ
  brought_up m k e b = if (leb k b && ltb b (k + m)) && p b then c b else e b

  round_self :
      (x : Bool)
      → p i ≡ x
      → brought_up n (i + 1) (if x then update d i (c i) else d) i ≡ brought_up (suc n) i d i
  round_self x e = rw (below, inside) (by_case x e)
    where
      below : (leb (i + 1) i && ltb i (i + 1 + n)) ≡ false
      below = ground arith

      inside : (leb i i && ltb i (i + suc n)) ≡ true
      inside = ground arith

      by_case :
          (x : Bool) → p i ≡ x → (if x then update d i (c i) else d) i ≡ (if p i then c i else d i)
      by_case true e = rw (e, ==_self i)
      by_case false e = rw e

  round_ne :
      (x : Bool) (b : ℕ)
      → i ≢ b
      → brought_up n (i + 1) (if x then update d i (c i) else d) b ≡ brought_up (suc n) i d b
  round_ne x b ne = rw range (by_case x)
    where
      range : (leb (i + 1) b && ltb b (i + 1 + n)) ≡ (leb i b && ltb b (i + suc n))
      range = ground arith

      by_case :
          (x : Bool)
          → (if (leb i b && ltb b (i + suc n)) && p b
              then c b
              else (if x then update d i (c i) else d) b)
            ≡ (if (leb i b && ltb b (i + suc n)) && p b then c b else d b)
      by_case true = rw (==_ne i b ne)
      by_case false = refl

  round :
      (b : ℕ)
      → brought_up n (i + 1) (if p i then update d i (c i) else d) b ≡ brought_up (suc n) i d b
  round b = elim (ℕ_discrete i b) [
    | yes e ↦
        subst
          (λ k.
            brought_up n (i + 1) (if p i then update d i (c i) else d) k ≡ brought_up (suc n) i d k)
          e (round_self (p i) refl)
    | no ne ↦ round_ne (p i) b ne
  ]

shown :
    (fs : Fs) (n i b : ℕ)
    → brought_up
        (is_stale fs)
        (λ k. fs.cache (disk_va k))
        fs.disk
        n
        i
        n
        (i + 1)
        (if is_stale fs i then update fs.disk i (fs.cache (disk_va i)) else fs.disk)
        b
      ≡ brought_up (is_stale fs) (λ k. fs.cache (disk_va k)) fs.disk n i (suc n) i fs.disk b
shown fs n i b = round (is_stale fs) (λ k. fs.cache (disk_va k)) fs.disk n i b

none_left : (i b : ℕ) → (leb i b && ltb b (i + zero)) ≡ false
none_left i b = ground arith

sync_from_lem :
    (n i : ℕ) (fs : Fs)
    → i + n ≤ 262144
    → (fs' : Fs) × (sync_from n i fs ≡ done tt fs') × AreSynced n i fs fs'
unfolding sync_from
sync_from_lem zero i fs small = (fs, refl, (refl, refl, refl, λ b. rw (none_left i b) refl))
sync_from_lem (suc n) i fs small = elim (Bool-cases (is_stale fs i)) [
  | inl t ↦
      let (fs', run, (c, m, d, disk)) = sync_from_lem n (i + 1) (written i fs) (omega arith) in
      (
        fs',
        rw (write_if_dirty_lem i fs (omega arith), t) run,
        (c, m, d, λ b. disk b ∙ rw t at (shown fs n i b)),
      )
  | inr f ↦
      let (fs', run, (c, m, d, disk)) = sync_from_lem n (i + 1) fs (omega arith) in
      (
        fs',
        rw (write_if_dirty_lem i fs (omega arith), f) run,
        (c, m, d, λ b. disk b ∙ rw f at (shown fs n i b)),
      )
]

-- On a disk of at most 2^18 blocks `fs_sync` ends, and writes every block that is cached and dirty to the disk
-- as it is cached; no other block of the disk changes, and the cache does not.
pub fs_sync_lem :
    (fs : Fs) (n : ℕ)
    → fs.super ≡ some n
    → n ≤ 262144
    → (fs' : Fs) × (fs_sync fs ≡ done tt fs')
      × (fs'.cache ≡ fs.cache)
      × (fs'.mapped ≡ fs.mapped)
      × ((b : ℕ) → b < n → is_stale fs b ≡ true → fs'.disk b ≡ fs.cache (disk_va b))
      × ((b : ℕ) → (n ≤ b) ⊎ (is_stale fs b ≡ false) → fs'.disk b ≡ fs.disk b)
unfolding fs_sync
fs_sync_lem fs n sup small =
    let (fs', run, (c, m, d, disk)) = sync_from_lem n 0 fs (omega arith) in
    (
      fs',
      with_super sup ∙ run,
      c,
      m,
      (λ b lt stale. disk b ∙ rw (in_range b lt, stale)),
      λ b why. disk b ∙ left_alone b why,
    )
  where
    with_super : fs.super ≡ some n → fs_sync fs ≡ sync_from n 0 fs
    with_super s = ap (λ r. and_then r λ k. sync_from k 0) (nblocks_lem fs n s)

    in_range : (b : ℕ) → b < n → (leb 0 b && ltb b (0 + n)) ≡ true
    in_range b lt = ground arith

    out_of_range : (b : ℕ) → n ≤ b → (leb 0 b && ltb b (0 + n)) ≡ false
    out_of_range b le = ground arith

    last : (x : Bool) → (x && false) ≡ false
    last true = refl
    last false = refl

    left_alone :
        (b : ℕ)
        → (n ≤ b) ⊎ (is_stale fs b ≡ false)
        → (if (leb 0 b && ltb b (0 + n)) && is_stale fs b then fs.cache (disk_va b) else fs.disk b)
          ≡ fs.disk b
    left_alone b (inl le) = rw (out_of_range b le)
    left_alone b (inr f) = rw (f, last (leb 0 b && ltb b (0 + n)))
