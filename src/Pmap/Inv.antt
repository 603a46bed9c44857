-- ===== src/Pmap/Inv.antt =====
-- What a page is used for, how often the page tables name it, and the invariant that ties
-- `pp_ref`, the free list and the page tables of kern/pmap.c together.
use os_lab5_challenge.Base.{
  ℕ, ◌+◌, ◌^◌, ◌≤◌, ◌<◌, ◌≡◌, refl, sym, ◌∙◌, ◌≢◌, true, ◌&&◌, arith, ==_self, ==_ne, ◌==◌,
  if◌then◌else◌, has, IsDistinct,
}
use native.Mathlib.Decide.{ℕ_discrete}
use os_lab5_challenge.Base.Sums.{total, total-ext, total-change, total-zero, total-le-at}
use os_lab5_challenge.Pmap.{Machine, has_v, ppn, write}

-- A ghost: `table d i` is the second-level table that entry `i` of directory `d` names, and
-- `plain` a page that is free, that a caller has just allocated, or that user addresses map.
pub data Role : Type 0 where
  kernel dir plain : Role
  table : ℕ → ℕ → Role

abbrev pub Roles : Type 0
Roles = ℕ → Role

-- Whether an entry maps page `p`.
abbrev pub hit : ℕ → ℕ → ℕ
hit pte p = if has_v pte && (ppn pte == p) then 1 else 0

abbrev pub hits_in : Role → (ℕ → ℕ) → ℕ → ℕ
hits_in (table d i) w p = total 1024 (λ j. hit (w j) p)
hits_in kernel w p = 0
hits_in dir w p = 0
hits_in plain w p = 0

-- How many entries of the page tables map page `p`.
unfoldable pub count : ℕ → Roles → (ℕ → ℕ → ℕ) → ℕ → ℕ
count npage ρ w p = total npage (λ q. hits_in (ρ q) (w q) p)

-- The entries of a page directory below UTOP: `PDX(UTOP)`.
abbrev pub user_pdx : ℕ
user_pdx = 509

pub record Inv (ρ : Roles) (m : Machine) : Type 0 where
  pub bound : m.npage ≤ 2 ^ 20
  pub distinct : IsDistinct m.free
  pub unused : (p : ℕ) → has p m.free ≡ true → (p < m.npage) × (ρ p ≡ plain) × (m.pp_ref p ≡ 0)
  pub counted : (p : ℕ) → p < m.npage → ρ p ≡ plain → m.pp_ref p ≡ count m.npage ρ m.word p
  pub owned : (p d i : ℕ) → ρ p ≡ table d i → (p < m.npage) × (m.pp_ref p ≡ 1)
  pub held : (p : ℕ) → ρ p ≡ dir → (p < m.npage) × (m.pp_ref p ≡ 1)
  pub tables :
      (d i : ℕ)
      → ρ d ≡ dir
      → i < user_pdx
      → has_v (m.word d i) ≡ true
      → ρ (ppn (m.word d i)) ≡ table d i
  pub targets :
      (q d i j : ℕ)
      → ρ q ≡ table d i
      → j < 1024
      → has_v (m.word q j) ≡ true
      → (ppn (m.word q j) < m.npage) × (ρ (ppn (m.word q j)) ≡ plain)

pub hits_in_other : (r : Role) (w : ℕ → ℕ) (p : ℕ) → ((d i : ℕ) → r ≢ table d i) → hits_in r w p ≡ 0
hits_in_other kernel w p out = refl
hits_in_other dir w p out = refl
hits_in_other plain w p out = refl
hits_in_other (table d i) w p out = absurd (out d i refl)

-- A cleared table maps nothing.
pub hits_in_cleared : (d i p : ℕ) → hits_in (table d i) (λ _. 0) p ≡ 0
hits_in_cleared d i p = total-zero 1024 _ (λ j lt. refl)

module _ (n : ℕ) (w : ℕ → ℕ → ℕ) (p : ℕ) where
  -- Pages that are no table, and tables that do not change, count alike.
  pub count-ext :
      (ρ ρ' : Roles) (w' : ℕ → ℕ → ℕ)
      → ((q : ℕ) → q < n → hits_in (ρ q) (w q) p ≡ hits_in (ρ' q) (w' q) p)
      → count n ρ w p ≡ count n ρ' w' p
  unfolding count
  count-ext ρ ρ' w' h = total-ext n _ _ h

  hits_in-write_ne :
      (r : Role) (q q' j v : ℕ) → q' ≢ q → hits_in r (write w q j v q') p ≡ hits_in r (w q') p
  hits_in-write_ne (table d i) q q' j v h = total-ext 1024 _ _ (λ k lt. ground (arith, ==_ne q q'))
  hits_in-write_ne kernel q q' j v h = refl
  hits_in-write_ne dir q q' j v h = refl
  hits_in-write_ne plain q q' j v h = refl

  hits_in-write_self :
      (d i q j v : ℕ)
      → j < 1024
      → hits_in (table d i) (write w q j v q) p + hit (w q j) p
        ≡ hits_in (table d i) (w q) p + hit v p
  hits_in-write_self d i q j v h =
      let here : hit (write w q j v q j) p ≡ hit v p = rw (==_self q, ==_self j) in
      omega (
        arith,
        total-change 1024 (λ k. hit (write w q j v q k) p) (λ k. hit (w q k) p) j h
            (λ k lt ne. rw (==_self q, ==_ne j k (λ e. ne (sym e)))),
        here,
      )

  -- A write into a page table moves one reference.
  pub count-write :
      (ρ : Roles) (q d i j v : ℕ)
      → ρ q ≡ table d i
      → q < n
      → j < 1024
      → count n ρ (write w q j v) p + hit (w q j) p ≡ count n ρ w p + hit v p
  unfolding count
  count-write ρ q d i j v role lt h =
      let here : hits_in (ρ q) (write w q j v q) p + hit (w q j) p
          ≡ hits_in (ρ q) (w q) p + hit v p =
        rw role (hits_in-write_self d i q j v h) in
      omega (
        arith,
        total-change n (λ k. hits_in (ρ k) (write w q j v k) p) (λ k. hits_in (ρ k) (w k) p) q lt
            (λ k lt' ne. hits_in-write_ne (ρ k) q k j v ne),
        here,
      )

  -- A page that some entry maps is counted.
  pub count-pos :
      (ρ : Roles) (q d i j : ℕ)
      → ρ q ≡ table d i
      → q < n
      → j < 1024
      → hit (w q j) p ≡ 1
      → 0 < count n ρ w p
  unfolding count
  count-pos ρ q d i j role lt h one =
      let here : hit (w q j) p ≤ hits_in (ρ q) (w q) p =
        rw role (total-le-at 1024 (λ k. hit (w q k) p) j h) in
      omega (arith, here, total-le-at n (λ k. hits_in (ρ k) (w k) p) q lt)

  -- A write outside the page tables counts for nothing.
  pub count-write_other :
      (ρ : Roles) (q j v : ℕ)
      → ((d i : ℕ) → ρ q ≢ table d i)
      → count n ρ (write w q j v) p ≡ count n ρ w p
  unfolding count
  count-write_other ρ q j v out = total-ext n _ _ (λ k lt. elim (ℕ_discrete k q) [
    | yes e ↦
        hits_in_other (ρ k) (write w q j v k) p (λ d i r. out d i (rw (← e) r))
        ∙ sym (hits_in_other (ρ k) (w k) p (λ d i r. out d i (rw (← e) r)))
    | no ne ↦ hits_in-write_ne (ρ k) q k j v ne
  ])
