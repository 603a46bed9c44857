-- ===== src/Fs/Files/Truncate.antt =====
-- What truncating a file of at most ten blocks does to its numbers and to the bitmap.
use os_lab5_challenge.Base.{
  ℕ, zero, suc, ◌+◌, ◌-◌, ◌/◌, ◌≤◌, ◌<◌, ◌≡◌, refl, ap, ap₂, ◌∙◌, Bool, true, false, ◌&&◌, ◌||◌,
  some, arith, ltb, leb, ◌==◌, if◌then◌else◌, ==_self, ==_ne, done,
}
use os_lab5_challenge.Fs.{Fs, free_bit}
use os_lab5_challenge.Fs.Files.{
  Place, load, store, f_direct, f_indirect, f_size, Memory, clear_blocks, blocks_kept,
  file_truncate,
}
use os_lab5_challenge.Fs.Files.Clear.{
  IsOffBitmap, is_block, cleared, clear_one, super-cleared, load-cleared, free_bit-cleared,
  free_bit-store,
}

-- The loop of `file_clear_block` over `k` blocks.
abbrev all_cleared : ℕ → Place → ℕ → ℕ → Fs → Fs
all_cleared n f from zero fs = fs
all_cleared n f from (suc k) fs = all_cleared n f (from + 1) k (cleared n f from fs)

-- The file's blocks from `from` to `from + k` have `x` among them.
abbrev pub is_listed : ℕ → Place → Fs → ℕ → ℕ → ℕ → Bool
is_listed n f fs from zero x = false
is_listed n f fs from (suc k) x =
    (is_block n (load f (f_direct + from) fs) && (load f (f_direct + from) fs == x))
    || is_listed n f fs (from + 1) k x

-- The first block that a file of `newsize` bytes does without: the code counts one block more than
-- `newsize / 4096`, but for an empty file.
abbrev pub first_freed : ℕ → ℕ
first_freed newsize = if newsize == 0 then 0 else newsize / 4096 + 1

module _ (memory : Memory) (f : Place) (n : ℕ) where
  clear_blocks_lem :
      (k from : ℕ) (fs : Fs)
      → from + k ≤ 10
      → fs.super ≡ some n
      → clear_blocks memory f from k fs ≡ done tt (all_cleared n f from k fs)
  unfolding clear_blocks
  clear_blocks_lem zero from fs le sup = refl
  clear_blocks_lem (suc k) from fs le sup = rw (clear_one memory f n from fs (omega arith) sup) (
      clear_blocks_lem k (from + 1) (cleared n f from fs) (omega arith)
        (super-cleared memory f n from fs ∙ sup))

  module _ (off : IsOffBitmap f) (small : n ≤ 262144) where
    load-all_cleared :
        (k from w : ℕ) (fs : Fs)
        → load f w (all_cleared n f from k fs)
          ≡ (if leb (f_direct + from) w && ltb w (f_direct + from + k) then 0 else load f w fs)
    load-all_cleared zero from w fs = rw (empty (f_direct + from) w)
      where
        empty : (a w : ℕ) → (leb a w && ltb w (a + zero)) ≡ false
        empty a w = ground arith
    load-all_cleared (suc k) from w fs =
        load-all_cleared k (from + 1) w (cleared n f from fs)
        ∙ ground (arith, load-cleared memory f n off small from w fs)

    is_listed-cleared :
        (k from bno x : ℕ) (fs : Fs)
        → bno < from
        → is_listed n f (cleared n f bno fs) from k x ≡ is_listed n f fs from k x
    is_listed-cleared zero from bno x fs lt = refl
    is_listed-cleared (suc k) from bno x fs lt =
        ap₂ (λ e r. (is_block n e && (e == x)) || r)
          (load-cleared memory f n off small bno (f_direct + from) fs
            ∙ rw (==_ne (f_direct + bno) (f_direct + from) (omega arith)))
          (is_listed-cleared k (from + 1) bno x fs (omega arith))

    free_bit-all_cleared :
        (k from x : ℕ) (fs : Fs)
        → x < 262144
        → free_bit (all_cleared n f from k fs) x
          ≡ (if is_listed n f fs from k x then 1 else free_bit fs x)
    free_bit-all_cleared zero from x fs lt = refl
    free_bit-all_cleared (suc k) from x fs lt =
        free_bit-all_cleared k (from + 1) x (cleared n f from fs) lt
        ∙ ap₂ (λ l b. if l then 1 else b) (is_listed-cleared k (from + 1) from x fs (omega arith))
            (free_bit-cleared memory f n off small from x fs lt)
        ∙ either (is_block n e && (e == x)) (is_listed n f fs (from + 1) k x)
      where
        e : ℕ
        e = load f (f_direct + from) fs

        either :
            (a b : Bool)
            → (if b then 1 else (if a then 1 else free_bit fs x))
              ≡ (if a || b then 1 else free_bit fs x)
        either true true = refl
        either true false = refl
        either false true = refl
        either false false = refl

-- `file_truncate` makes a file without indirect block, of at most ten blocks, smaller or leaves its size: the file has the
-- new size, the numbers of the blocks past those that it keeps are 0 (all of them for size 0, else those past
-- `newsize / 4096 + 1`), its other numbers stay, and in the bitmap exactly those blocks are marked
-- as free in addition, if the file is in no block of the bitmap and the disk has at most 2^18 blocks.
pub file_truncate_lem :
    (memory : Memory) (f : Place) (n newsize : ℕ) (fs : Fs)
    → IsOffBitmap f
    → n ≤ 262144
    → fs.super ≡ some n
    → load f f_size fs < 40960
    → newsize ≤ load f f_size fs
    → load f f_indirect fs ≡ 0
    → let old = load f f_size fs / 4096 + 1 in
      let kept = first_freed newsize in
      (fs' : Fs) × (file_truncate memory f newsize fs ≡ done tt fs')
      × (load f f_size fs' ≡ newsize)
      × ((i : ℕ)
          → i < 10
          → load f (f_direct + i) fs'
            ≡ (if leb kept i && ltb i old then 0 else load f (f_direct + i) fs))
      × ((x : ℕ)
          → x < 262144
          → free_bit fs' x ≡ (if is_listed n f fs kept (old - kept) x then 1 else free_bit fs x))
unfolding file_truncate
file_truncate_lem memory f n newsize fs off small sup short shrinks alone =
    let old = load f f_size fs / 4096 + 1 in
    let kept = blocks_kept newsize in
    let s1 = all_cleared n f kept (old - kept) fs in
    (
      store f f_size newsize s1,
      rw (
        clear_blocks_lem memory f n (old - kept) kept fs (omega (arith, kept_le)) sup,
        ten,
        no_indirect,
      ),
      rw (==_self f.page, ==_self (f.word + f_size)),
      λ i lt.
          rw (==_self f.page, ==_ne (f.word + f_size) (f.word + (f_direct + i)) (omega arith))
            (load-all_cleared memory f n off small (old - kept) kept (f_direct + i) fs
              ∙ ap (λ x. if x then 0 else load f (f_direct + i) fs)
                  (range kept (load f f_size fs / 4096 + 1) i kept_le)),
      λ x lt.
          free_bit-store f off s1 f_size newsize x lt
          ∙ free_bit-all_cleared memory f n off small (old - kept) kept x fs lt,
    )
  where
    kept_le : blocks_kept newsize ≤ load f f_size fs / 4096 + 1
    kept_le = ground arith

    ten : leb (blocks_kept newsize) 10 ≡ true
    ten = ground (arith, kept_le)

    range :
        (a b i : ℕ)
        → a ≤ b
        → (leb (f_direct + a) (f_direct + i) && ltb (f_direct + i) (f_direct + a + (b - a)))
          ≡ (leb a i && ltb i b)
    range a b i le = ground arith

    no_indirect :
        load f f_indirect (
          all_cleared n f
            (blocks_kept newsize)
            (load f f_size fs / 4096 + 1 - blocks_kept newsize)
            fs)
        ≡ 0
    no_indirect =
        load-all_cleared memory f n off small (load f f_size fs / 4096 + 1 - blocks_kept newsize)
          (blocks_kept newsize) f_indirect fs
        ∙ ground (arith, kept_le)
