-- ===== src/Fs/Files/Clear.antt =====
-- What `file_clear_block` does to a file's numbers and to the bitmap, for the ten blocks in the file.
use native.Mathlib.Decide.{ℕ_discrete}
use os_lab5_challenge.Base.{
  ℕ, ◌+◌, ◌/◌, ◌≤◌, ◌<◌, ◌≡◌, ◌≢◌, inl, inr, ap, ◌∙◌, Bool, true, false, not, ◌&&◌, some, arith,
  ltb, leb, ◌==◌, if◌then◌else◌, Bool-cases, ==_self, ==_ne, ==_iff, subst, sym, done,
}
use os_lab5_challenge.Fs.{Fs, disk_va, free_bit, set_free, free_block}
use os_lab5_challenge.Fs.Bitmap.{nblocks_lem, set_free-free_bit_self, set_free-free_bit_ne}
use os_lab5_challenge.Fs.Cache.{given}
use os_lab5_challenge.Fs.Files.{
  Place, load, store, at, f_direct, Memory, clear_slot, file_clear_block,
}
use os_lab5_challenge.Fs.Files.Walk.{walk_direct}

-- The file is in no block of the bitmap.
abbrev pub IsOffBitmap : Place → Type 0
IsOffBitmap f = (w : ℕ) → w < 8192 → f.page ≢ disk_va (w / 1024 + 2)

-- A block that can be given back.
abbrev pub is_block : ℕ → ℕ → Bool
is_block n b = not (b == 0) && ltb b n

pub freed : ℕ → ℕ → Fs → Fs
freed n b fs = if is_block n b then set_free b fs else fs

pub free_block-freed :
    (fs : Fs) (n b : ℕ) → fs.super ≡ some n → free_block b fs ≡ done tt (freed n b fs)
unfolding free_block freed
free_block-freed fs n b sup = elim (Bool-cases (b == 0)) [
  | inl z ↦ rw z
  | inr nz ↦ elim (Bool-cases (leb n b)) [
    | inl out ↦ rw (nz, nblocks_lem fs n sup, out, above out)
    | inr inside ↦ rw (nz, nblocks_lem fs n sup, inside, under inside)
  ]
]
  where
    above : leb n b ≡ true → ltb b n ≡ false
    above h = ground arith

    under : leb n b ≡ false → ltb b n ≡ true
    under h = ground arith

-- Marking a block as free changes no file, and a file's word is no part of the bitmap.
module _ (f : Place) (off : IsOffBitmap f) (fs : Fs) where
  pub load-freed : (n b k : ℕ) → n ≤ 262144 → load f k (freed n b fs) ≡ load f k fs
  unfolding freed
  load-freed n b k small = elim (Bool-cases (is_block n b)) [
    | inr f ↦ rw f
    | inl t ↦ rw (
      t,
      ==_ne (disk_va (b / 32 / 1024 + 2)) f.page (λ e. off (b / 32) (ground (arith, t)) (sym e)),
    )
  ]

  pub free_bit-store : (k w x : ℕ) → x < 262144 → free_bit (store f k w fs) x ≡ free_bit fs x
  free_bit-store k w x small =
      rw (==_ne f.page (disk_va (x / 32 / 1024 + 2)) (off (x / 32) (omega arith)))

pub free_bit-freed :
    (fs : Fs) (n b x : ℕ)
    → n ≤ 262144
    → x < 262144
    → free_bit (freed n b fs) x ≡ (if is_block n b && (b == x) then 1 else free_bit fs x)
unfolding freed
free_bit-freed fs n b x small lt = elim (Bool-cases (is_block n b)) [
  | inr f ↦ rw f
  | inl t ↦ rw t (elim (ℕ_discrete b x) [
    | yes e ↦
        subst (λ y. free_bit (set_free b fs) y ≡ (if b == y then 1 else free_bit fs y)) e
          (rw (==_self b) (set_free-free_bit_self fs b (ground (arith, t))))
    | no ne ↦ rw (==_ne b x ne) (set_free-free_bit_ne fs b (ground (arith, t)) x lt ne)
  ])
]

pub super-freed : (fs : Fs) (n b : ℕ) → (freed n b fs).super ≡ fs.super
unfolding freed
super-freed fs n b = elim (Bool-cases (is_block n b)) [ inl t ↦ rw t | inr f ↦ rw f ]

abbrev pub zeroed : ℕ → ℕ → Fs → Fs
zeroed page w fs = record fs {
  cache = λ va j. if (page == va) && (w == j) then 0 else fs.cache va j;
}

abbrev pub slot_cleared : ℕ → ℕ → ℕ → Fs → Fs
slot_cleared n page w fs =
    let e = fs.cache page w in if e == 0 then fs else zeroed page w (freed n e fs)

pub clear_slot_lem :
    (p : Place) (n : ℕ) (fs : Fs)
    → fs.super ≡ some n
    → clear_slot p fs ≡ done (given tt) (slot_cleared n p.page (p.word + 0) fs)
clear_slot_lem p n fs sup = elim (Bool-cases (load p 0 fs == 0)) [
  | inl z ↦ rw z
  | inr nz ↦ rw (nz, free_block-freed fs n (load p 0 fs) sup)
]

-- The file without the number of one block.
abbrev pub cleared : ℕ → Place → ℕ → Fs → Fs
cleared n f bno fs = slot_cleared n f.page (f.word + (f_direct + bno)) fs

module _ (memory : Memory) (f : Place) (n : ℕ) where
  pub clear_one :
      (bno : ℕ) (fs : Fs)
      → bno < 10
      → fs.super ≡ some n
      → file_clear_block memory f bno fs ≡ done (given tt) (cleared n f bno fs)
  unfolding file_clear_block
  clear_one bno fs lt sup = rw (walk_direct memory fs f bno (ground arith)) (
      clear_slot_lem (at f (f_direct + bno)) n fs sup
      ∙ ap (λ w. done (given tt) (slot_cleared n f.page w fs)) (omega arith))

  pub super-cleared : (bno : ℕ) (fs : Fs) → (cleared n f bno fs).super ≡ fs.super
  super-cleared bno fs = elim (Bool-cases (load f (f_direct + bno) fs == 0)) [
    | inl z ↦ rw z
    | inr nz ↦ rw nz (super-freed fs n (load f (f_direct + bno) fs))
  ]

  module _ (off : IsOffBitmap f) (small : n ≤ 262144) where
    pub load-cleared :
        (bno k : ℕ) (fs : Fs)
        → load f k (cleared n f bno fs) ≡ (if f_direct + bno == k then 0 else load f k fs)
    load-cleared bno k fs = elim (ℕ_discrete (f_direct + bno) k) [
      | yes e ↦
          subst
            (λ i. load f i (cleared n f bno fs) ≡ (if f_direct + bno == i then 0 else load f i fs))
            e (rw (==_self (f_direct + bno)) at_self)
      | no ne ↦ elim (Bool-cases (load f (f_direct + bno) fs == 0)) [
        | inl z ↦ rw (z, ==_ne (f_direct + bno) k ne)
        | inr nz ↦
            rw
              (
                nz,
                ==_self f.page,
                ==_ne (f.word + (f_direct + bno)) (f.word + k) (λ e. ne (omega arith)),
                ==_ne (f_direct + bno) k ne,
              )
              (load-freed f off fs n (load f (f_direct + bno) fs) k small)
      ]
    ]
      where
        at_self : load f (f_direct + bno) (cleared n f bno fs) ≡ 0
        at_self = elim (Bool-cases (load f (f_direct + bno) fs == 0)) [
          | inl z ↦ rw z ((==_iff _ 0).0 z)
          | inr nz ↦ rw (nz, ==_self f.page, ==_self (f.word + (f_direct + bno)))
        ]

    freed_case :
        (bno : ℕ) (fs : Fs)
        → (load f (f_direct + bno) fs == 0) ≡ false
        → cleared n f bno fs ≡ store f (f_direct + bno) 0 (freed n (load f (f_direct + bno) fs) fs)
    freed_case bno fs nz = rw nz

    pub free_bit-cleared :
        (bno x : ℕ) (fs : Fs)
        → x < 262144
        → let e = load f (f_direct + bno) fs in
          free_bit (cleared n f bno fs) x ≡ (if is_block n e && (e == x) then 1 else free_bit fs x)
    free_bit-cleared bno x fs lt = elim (Bool-cases (load f (f_direct + bno) fs == 0)) [
      | inl z ↦ rw z
      | inr nz ↦
          let e = load f (f_direct + bno) fs in
          ap (λ s. free_bit s x) (freed_case bno fs nz)
          ∙ free_bit-store f off (freed n e fs) (f_direct + bno) 0 x lt
          ∙ free_bit-freed fs n e x small lt
    ]
