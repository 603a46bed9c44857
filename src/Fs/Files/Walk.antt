-- ===== src/Fs/Files/Walk.antt =====
-- Where a block of a file is on disk: `file_map_block` without `alloc`, in every case.
use native.Mathlib.Decide.{ℕ_discrete}
use os_lab5_challenge.Base.{
  ℕ, ◌+◌, ◌<◌, ◌≡◌, ◌≢◌, inl, inr, refl, ap, ◌∙◌, Bool, true, false, ◌&&◌, none, some, arith, ltb,
  ◌==◌, if◌then◌else◌, Bool-cases, sym, done, pure, ◌>>=◌, Error,
}
use os_lab5_challenge.Fs.{Fs, disk_va, block_is_free}
use os_lab5_challenge.Fs.Cache.{Reply, given, not_found, failed, read_block, read_block_lem}
use os_lab5_challenge.Fs.Files.{
  Place, load, at, f_direct, f_indirect, Memory, filled_slot, file_block_walk, file_map_block,
  after_reply,
}

-- The block that holds the numbers of the blocks from 10 on can be read.
pub record IsReadable (fs : Fs) (b : ℕ) : Type 0 where
  pub small : b < 262144
  pub inside : (elim fs.super [ none ↦ true | some m ↦ ltb b m ]) ≡ true
  pub used : (fs.has_bitmap && block_is_free b fs) ≡ false

-- A word of a block as it is cached, or else as it is on disk.
abbrev pub word_of_block : Fs → ℕ → ℕ → ℕ
word_of_block fs b j = if fs.mapped (disk_va b) then fs.cache (disk_va b) j else fs.disk b j

abbrev pub numbered : ℕ → Reply ℕ
numbered b = if b == 0 then not_found else given b

-- The number of a file's block, and the errors.
abbrev pub block_number : Fs → Place → ℕ → Reply ℕ
block_number fs f bno =
    if ltb bno 10
    then numbered (load f (f_direct + bno) fs)
    else if ltb bno 1024
    then (if load f f_indirect fs == 0
        then not_found
        else numbered (word_of_block fs (load f f_indirect fs) bno))
    else failed Error.inval

load-at : (p : Place) (k : ℕ) (fs : Fs) → load (at p k) 0 fs ≡ load p k fs
load-at p k fs = ap (fs.cache p.page) (omega arith)

numbered_ne : (n : ℕ) → (n == 0) ≡ false → numbered n ≡ given n
numbered_ne n e = rw e

slot_here :
    (memory : Memory) (q : Place) (fs : Fs)
    → filled_slot memory false q fs ≡ done (numbered (load q 0 fs)) fs
unfolding filled_slot
slot_here memory q fs = elim (Bool-cases (load q 0 fs == 0)) [ inl z ↦ rw z | inr nz ↦ rw nz ]

pub slot_found :
    (memory : Memory) (p : Place) (k : ℕ) (fs : Fs)
    → filled_slot memory false (at p k) fs ≡ done (numbered (load p k fs)) fs
slot_found memory p k fs =
    slot_here memory (at p k) fs ∙ ap (λ n. done (numbered n) fs) (load-at p k fs)

-- `file_block_walk` without `alloc`.
module _ (memory : Memory) (fs : Fs) (f : Place) (bno : ℕ) where
  pub walk_direct :
      ltb bno 10 ≡ true
      → file_block_walk memory f bno false fs ≡ done (given (at f (f_direct + bno))) fs
  unfolding file_block_walk
  walk_direct h = rw h

  walk_far :
      ltb bno 10 ≡ false
      → ltb bno 1024 ≡ false
      → file_block_walk memory f bno false fs ≡ done (failed Error.inval) fs
  unfolding file_block_walk
  walk_far h out = rw (h, out)

  walk_indirect :
      {r : Reply ℕ}
      → ltb bno 10 ≡ false
      → ltb bno 1024 ≡ true
      → filled_slot memory false (at f f_indirect) fs ≡ done r fs
      → file_block_walk memory f bno false fs
        ≡ after_reply
            (λ b. read_block b >>= λ x. pure (given (record { page = x.0; word = bno })))
            r
            fs
  unfolding file_block_walk
  walk_indirect h ok run = rw (h, ok, run)

  walk_read :
      (b : ℕ) {va : ℕ} {isnew : Bool} {fs1 : Fs}
      → ltb bno 10 ≡ false
      → ltb bno 1024 ≡ true
      → numbered (load f f_indirect fs) ≡ given b
      → read_block b fs ≡ done (va, isnew) fs1
      → file_block_walk memory f bno false fs ≡ done (given (record { page = va; word = bno })) fs1
  walk_read b h ok n run =
      walk_indirect h ok (slot_found memory f f_indirect fs ∙ ap (λ r. done r fs) n) ∙ rw run

-- Reading a block leaves what is cached.
same_word :
    (fs fs1 : Fs) (b va j : ℕ)
    → fs.mapped va ≡ true
    → fs1.cache (disk_va b) j
      ≡ (if fs.mapped (disk_va b) then fs.cache (disk_va b) j else fs.disk b j)
    → (va ≢ disk_va b → fs1.cache va ≡ fs.cache va)
    → fs1.cache va j ≡ fs.cache va j
same_word fs fs1 b va j m w o = elim (ℕ_discrete va (disk_va b)) [
  | no ne ↦ ap (λ c. c j) (o ne)
  | yes e ↦
      ap (λ a. fs1.cache a j) e
      ∙ w
      ∙ ap (λ x. if x then fs.cache (disk_va b) j else fs.disk b j) (ap fs.mapped (sym e) ∙ m)
      ∙ ap (λ a. fs.cache a j) (sym e)
]

nonzero : (x : ℕ) → (x == 0) ≡ false → x ≢ 0
nonzero x e = ground arith

-- Without `alloc`, `file_map_block` reports the number of a file's block (one of the ten in the file, or
-- one of the indirect block from 10 on), -E_NOT_FOUND where the number or the indirect block is 0, and -E_INVAL
-- from block 1024 on, if the indirect block, where there is one, can be read. It changes no cached word and
-- nothing on disk.
pub file_map_block_lem :
    (memory : Memory) (fs : Fs) (f : Place) (bno : ℕ)
    → (load f f_indirect fs ≢ 0 → IsReadable fs (load f f_indirect fs))
    → (fs' : Fs) × (file_map_block memory f bno false fs ≡ done (block_number fs f bno) fs')
      × (fs'.disk ≡ fs.disk)
      × ((va j : ℕ) → fs.mapped va ≡ true → fs'.cache va j ≡ fs.cache va j)
unfolding file_map_block
file_map_block_lem memory fs f bno readable = elim (Bool-cases (ltb bno 10)) [
  | inl direct ↦ (
    fs,
    rw (walk_direct memory fs f bno direct, direct) (slot_found memory f (f_direct + bno) fs),
    refl,
    λ va j m. refl,
  )
  | inr far ↦ elim (Bool-cases (ltb bno 1024)) [
    | inr out ↦ (fs, rw (walk_far memory fs f bno far out, far, out), refl, λ va j m. refl)
    | inl ok ↦ elim (Bool-cases (load f f_indirect fs == 0)) [
      | inl z ↦ (
        fs,
        rw (walk_indirect memory fs f bno far ok (slot_found memory f f_indirect fs), far, ok, z),
        refl,
        λ va j m. refl,
      )
      | inr nz ↦
          let b = load f f_indirect fs in
          let r = readable (nonzero b nz) in
          let (fs1, run, there, words, others, disk) =
            read_block_lem fs b r.small r.inside r.used in
          (
            fs1,
            rw (walk_read memory fs f bno b far ok (numbered_ne b nz) run, far, ok, nz)
                (slot_here memory (record { page = disk_va b; word = bno }) fs1
                  ∙ ap (λ n. done (numbered n) fs1)
                      (ap (fs1.cache (disk_va b)) {y = bno} (omega arith) ∙ words bno)),
            disk,
            λ va j m. same_word fs fs1 b va j m (words j) (others va),
          )
    ]
  ]
]
