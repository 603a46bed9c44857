-- ===== src/Fs/Bitmap.antt =====
-- The bitmap after `alloc_block_num` and `free_block`, in memory and on disk.
use native.Mathlib.Decide.{ℕ_discrete}
use os_lab5_challenge.Base.{
  ℕ, zero, suc, ◌+◌, ◌-◌, ◌/◌, ◌%◌, ◌≤◌, ◌<◌, ◌≡◌, ◌≢◌, refl, ◌∙◌, true, false, ◌&&◌, Option, none,
  some, ◌⊎◌, arith, ltb, leb, ◌==◌, Bool-cases, inl, inr, ap, ltb→lt, leb→le, ==_iff, ==_self,
  ==_ne, subst, done, panic, and_then, update,
}
use os_lab5_challenge.Base.Digits.{
  digit, set-digit_self, set-digit_ne, clear-digit_self, clear-digit_ne,
}
use os_lab5_challenge.Fs.{
  Fs, nblocks, disk_va, diskaddr, block_is_mapped, write_block, bitmap_word, set_bitmap_word,
  free_bit, set_free, set_used, free_block, find_block, alloc_block_num,
}

-- Bitmap words of different numbers are different words of the cache.
bitmap_word-set_ne :
    (fs : Fs) (i j w : ℕ)
    → i < 8192
    → j < 8192
    → i ≢ j
    → bitmap_word (set_bitmap_word i w fs) j ≡ bitmap_word fs j
bitmap_word-set_ne fs i j w p q ne =
    elim (Bool-cases
      ((disk_va (i / 1024 + 2) == disk_va (j / 1024 + 2)) && (i % 1024 == j % 1024))) [
        | inr f ↦ rw f
        | inl t ↦ absurd (clash t)
      ]
  where
    clash :
        ((disk_va (i / 1024 + 2) == disk_va (j / 1024 + 2)) && (i % 1024 == j % 1024)) ≡ true → ⊥
    clash t = ground (arith, t, p, q, ne)

bitmap_word-set_self : (fs : Fs) (i w : ℕ) → bitmap_word (set_bitmap_word i w fs) i ≡ w
bitmap_word-set_self fs i w = rw (==_self (disk_va (i / 1024 + 2)), ==_self (i % 1024))

-- Setting one bit to `c`.
module _ (fs : Fs) (b : ℕ) (small : b < 262144) where
  pub set_free-free_bit_self : free_bit (set_free b fs) b ≡ 1
  set_free-free_bit_self =
      ap (digit (b % 32)) (bitmap_word-set_self fs (b / 32) _)
      ∙ set-digit_self (b % 32) (bitmap_word fs (b / 32))

  set_used-free_bit_self : free_bit fs b ≡ 1 → free_bit (set_used b fs) b ≡ 0
  set_used-free_bit_self h =
      ap (digit (b % 32)) (bitmap_word-set_self fs (b / 32) _)
      ∙ clear-digit_self (b % 32) (bitmap_word fs (b / 32)) h

  module _ (x : ℕ) (small' : x < 262144) (ne : b ≢ x) where
    other :
        (w : ℕ)
        → (b / 32 ≡ x / 32 → digit (x % 32) w ≡ digit (x % 32) (bitmap_word fs (x / 32)))
        → free_bit (set_bitmap_word (b / 32) w fs) x ≡ free_bit fs x
    other w h = elim (ℕ_discrete (b / 32) (x / 32)) [
      | yes e ↦
          ap (digit (x % 32)) (
            subst (λ y. bitmap_word (set_bitmap_word (b / 32) w fs) y ≡ w) e
              (bitmap_word-set_self fs (b / 32) w))
          ∙ h e
      | no n ↦ ap (digit (x % 32)) (
          bitmap_word-set_ne fs (b / 32) (x / 32) w (omega (arith, small)) (omega (arith, small'))
            n)
    ]

    apart : b / 32 ≡ x / 32 → x % 32 ≢ b % 32
    apart e s = ne (omega (arith, e, s))

    pub set_free-free_bit_ne : free_bit (set_free b fs) x ≡ free_bit fs x
    set_free-free_bit_ne = other _ λ e.
        set-digit_ne (x % 32) (b % 32) (bitmap_word fs (b / 32)) (apart e)
        ∙ ap (λ i. digit (x % 32) (bitmap_word fs i)) e

    set_used-free_bit_ne : free_bit fs b ≡ 1 → free_bit (set_used b fs) x ≡ free_bit fs x
    set_used-free_bit_ne h = other _ λ e.
        clear-digit_ne (x % 32) (b % 32) (bitmap_word fs (b / 32)) (apart e) h
        ∙ ap (λ i. digit (x % 32) (bitmap_word fs i)) e

-- The file server once block `k` has been written back.
abbrev pub written : ℕ → Fs → Fs
written k fs = record fs { disk = update fs.disk k (fs.cache (disk_va k)) }

pub write_block_lem :
    (k : ℕ) (fs : Fs)
    → k < 262144
    → fs.mapped (disk_va k) ≡ true
    → write_block k fs ≡ done tt (written k fs)
unfolding write_block block_is_mapped diskaddr
write_block_lem k fs small there = rw (in_cache k small, there)
  where
    in_cache : (k : ℕ) → k < 262144 → ltb (disk_va k) 0x50000000 ≡ true
    in_cache k h = ground (arith, h)

-- How `alloc_block_num` ends on a disk of `n` blocks.
pub data Takes (fs : Fs) (n : ℕ) : Option ℕ → Fs → Type 0 where
  takes :
      (b : ℕ) (fs' : Fs)
      → 3 ≤ b
      → b < n
      → free_bit fs b ≡ 1
      → ((x : ℕ) → 3 ≤ x → x < b → free_bit fs x ≡ 0)
      → free_bit fs' b ≡ 0
      → ((x : ℕ) → x < 262144 → b ≢ x → free_bit fs' x ≡ free_bit fs x)
      → fs'.disk (b / 32768 + 2) ≡ fs'.cache (disk_va (b / 32768 + 2))
      → Takes fs n (some b) fs'
  all_used : ((x : ℕ) → 3 ≤ x → x < n → free_bit fs x ≡ 0) → Takes fs n none fs

-- The rounds that the loop has left before block `b`.
abbrev pub AreRounds : ℕ → ℕ → ℕ → Type 0
AreRounds r b n = (b + r ≡ n) ⊎ ((r ≡ 0) × (n ≤ b))

pub nblocks_lem : (fs : Fs) (n : ℕ) → fs.super ≡ some n → nblocks fs ≡ done n fs
nblocks_lem fs n s = by_super fs.super s
  where
    by_super :
        (o : Option ℕ) → o ≡ some n → (elim o [ none ↦ panic | some k ↦ done k fs ]) ≡ done n fs
    by_super o e = rw e

bit_zero : (x : ℕ) → x < 2 → (x == 1) ≡ false → x ≡ 0
bit_zero x lt ne = ground arith

module _ (fs : Fs) (n : ℕ) (small : n ≤ 262144)
    (cached : (b : ℕ) → b < n → fs.mapped (disk_va (b / 32768 + 2)) ≡ true) where
  take_block :
      (b : ℕ)
      → 3 ≤ b
      → b < n
      → free_bit fs b ≡ 1
      → ((x : ℕ) → 3 ≤ x → x < b → free_bit fs x ≡ 0)
      → Takes fs n (some b) (written (b / 32768 + 2) (set_used b fs))
  take_block b low high is_free before =
      let small_b : b < 262144 = omega (arith, high, small) in
      takes b (written (b / 32768 + 2) (set_used b fs)) low high is_free before
        (set_used-free_bit_self fs b small_b is_free)
        (λ x small_x ne. set_used-free_bit_ne fs b small_b x small_x ne is_free)
        (rw (==_self (b / 32768 + 2)))

  find_block_lem :
      (r b : ℕ)
      → 3 ≤ b
      → AreRounds r b n
      → ((x : ℕ) → 3 ≤ x → x < b → free_bit fs x ≡ 0)
      → (o : Option ℕ) × (fs' : Fs) × (find_block r b fs ≡ done o fs') × Takes fs n o fs'
  unfolding find_block
  find_block_lem zero b low end before =
      (none, fs, refl, all_used λ x p q. before x p (ended end q))
    where
      ended : {x : ℕ} → AreRounds zero b n → x < n → x < b
      ended (inl e) q = omega (arith, e, q)
      ended (inr (_, le)) q = omega (arith, le, q)
  find_block_lem (suc r) b low end before = elim (Bool-cases (free_bit fs b == 1)) [
    | inl t ↦
        let is_free = (==_iff (free_bit fs b) 1).0 t in
        let high = inside end in
        let run =
          write_block_lem (b / 32768 + 2) (set_used b fs) (omega (arith, high, small))
            (cached b high) in
        (
          some b,
          written (b / 32768 + 2) (set_used b fs),
          rw (t, run),
          take_block b low high is_free before,
        )
    | inr f ↦
        let zero_bit = bit_zero (free_bit fs b) (omega arith) f in
        let (o, fs', run, how) =
          find_block_lem r (b + 1) (omega (arith, low)) (inl (onward end)) (λ x p q.
            elim (ℕ_discrete b x) [
              | yes e ↦ subst (λ y. free_bit fs y ≡ 0) e zero_bit
              | no ne ↦ before x p (omega (arith, q, ne))
            ]) in
        (o, fs', rw f run, how)
  ]
    where
      inside : AreRounds (suc r) b n → b < n
      inside (inl e) = omega (arith, e)
      inside (inr (z, _)) = absurd (omega (arith, z))

      onward : AreRounds (suc r) b n → b + 1 + r ≡ n
      onward (inl e) = omega (arith, e)
      onward (inr (z, _)) = absurd (omega (arith, z))

  -- On a disk of at most 2^18 blocks whose bitmap is cached, `alloc_block_num` takes the first free block
  -- from block 3 on, marks it as used, changes no other block's mark, and writes the block of the
  -- bitmap with the mark to the disk; only if no block is free it reports -E_NO_DISK and changes
  -- nothing.
  pub alloc_block_num_lem :
      fs.super ≡ some n
      → (o : Option ℕ) × (fs' : Fs) × (alloc_block_num fs ≡ done o fs') × Takes fs n o fs'
  unfolding alloc_block_num
  alloc_block_num_lem sup =
      let (o, fs', run, how) =
        find_block_lem (n - 3) 3 (omega arith) (rounds n) (λ x p q. absurd (omega (arith, p, q))) in
      (o, fs', with_super sup ∙ run, how)
    where
      rounds : (n : ℕ) → AreRounds (n - 3) 3 n
      rounds n = elim (Bool-cases (ltb 3 n)) [
        | inl t ↦ inl (omega (arith, ltb→lt 3 n t))
        | inr f ↦ inr (ground (arith, f), ground (arith, f))
      ]

      with_super : fs.super ≡ some n → alloc_block_num fs ≡ find_block (n - 3) 3 fs
      with_super s = ap (λ r. and_then r λ k. find_block (k - 3) 3) (nblocks_lem fs n s)

-- How `free_block` ends on a disk of `n` blocks.
pub data Frees (fs : Fs) (n b : ℕ) : Fs → Type 0 where
  frees :
      (fs' : Fs)
      → b ≢ 0
      → b < n
      → free_bit fs' b ≡ 1
      → ((x : ℕ) → x < 262144 → b ≢ x → free_bit fs' x ≡ free_bit fs x)
      → Frees fs n b fs'
  no_block : (b ≡ 0) ⊎ (n ≤ b) → Frees fs n b fs

-- On a disk of at most 2^18 blocks `free_block` marks a block other than 0 as free and changes no other
-- mark; for any other number it changes nothing.
pub free_block_lem :
    (fs : Fs) (n b : ℕ)
    → fs.super ≡ some n
    → n ≤ 262144
    → (fs' : Fs) × (free_block b fs ≡ done tt fs') × Frees fs n b fs'
unfolding free_block
free_block_lem fs n b sup small = elim (ℕ_discrete b 0) [
  | yes z ↦ (fs, rw ((==_iff b 0).1 z), no_block (inl z))
  | no nz ↦ elim (Bool-cases (leb n b)) [
    | inl t ↦ (fs, rw (==_ne b 0 nz, nblocks_lem fs n sup, t), no_block (inr (leb→le n b t)))
    | inr f ↦
        let lt : b < n = ground (arith, f) in
        let small_b : b < 262144 = omega (arith, lt, small) in
        (
          set_free b fs,
          rw (==_ne b 0 nz, nblocks_lem fs n sup, f),
          frees (set_free b fs) nz lt (set_free-free_bit_self fs b small_b)
              (λ x small_x ne. set_free-free_bit_ne fs b small_b x small_x ne),
        )
  ]
]
