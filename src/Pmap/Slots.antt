-- ===== src/Pmap/Slots.antt =====
-- What a write does to the map from user addresses to entries.
use os_lab5_challenge.Base.{
  ◌⊎◌, ℕ, ◌<◌, ◌≡◌, sym, ◌∙◌, ◌≢◌, Bool, true, ◌&&◌, arith, ==_self, ==_ne, ==_iff, Bool-cases, inl,
  inr, ap, ◌==◌, if◌then◌else◌,
}
use native.Mathlib.Decide.{ℕ_discrete}
use os_lab5_challenge.Pmap.{Machine, has_v, ppn, pdx, ptx, utop, write}
use os_lab5_challenge.Pmap.Inv.{table, dir, Roles, Inv}
use os_lab5_challenge.Pmap.Walk.{entry_in, entry, entry_slot, pdx-lt-user}

-- Two user addresses lie in one page of one address space.
abbrev pub same_page : ℕ → ℕ → ℕ → ℕ → Bool
same_page d va d' va' = (d == d') && (ppn va == ppn va')

pub table-injective : {d i d' i' : ℕ} → table d i ≡ table d' i' → (d ≡ d') × (i ≡ i')
table-injective h = (cc, cc)

module _ (w : ℕ → ℕ → ℕ) (t j x : ℕ) where
  pub write_ne : (q i : ℕ) → t ≢ q → write w t j x q i ≡ w q i
  write_ne q i h = rw (==_ne t q h)

  pub write_self : write w t j x t j ≡ x
  write_self = rw (==_self t, ==_self j)

  pub write_other : (q i : ℕ) → ((t ≡ q) → (j ≡ i) → ⊥) → write w t j x q i ≡ w q i
  write_other q i h = elim (ℕ_discrete t q) [
    | yes e ↦ rw (==_ne j i (h e)) (ground arith)
    | no ne ↦ write_ne q i ne
  ]

  pub write_cases : (q i : ℕ) → (write w t j x q i ≡ x) ⊎ (write w t j x q i ≡ w q i)
  write_cases q i = elim (ℕ_discrete t q) [
    | yes e ↦ elim (ℕ_discrete j i) [
      | yes f ↦ inl (rw ((==_iff t q).1 e, (==_iff j i).1 f))
      | no g ↦ inr (write_other q i (λ _ f. g f))
    ]
    | no ne ↦ inr (write_ne q i ne)
  ]

module _ {ρ : Roles} {m : Machine} (v : Inv ρ m) {d va : ℕ} (rd : ρ d ≡ dir) (lt : va < utop)
    (mapped : has_v (m.word d (pdx va)) ≡ true) where
  open (entry_slot m d va) use {page as t, index as j}

  pub slot_role : ρ t ≡ table d (pdx va)
  slot_role = v.tables d (pdx va) rd (pdx-lt-user va lt) mapped

  -- A directory is no table.
  pub slot_ne_dir : (d' : ℕ) → ρ d' ≡ dir → t ≢ d'
  slot_ne_dir d' r e = distinct (sym slot_role ∙ ap ρ e ∙ r)
    where
      distinct : table d (pdx va) ≡ dir → ⊥
      distinct h = cc

  entry-write_self :
      (x va' : ℕ) → pdx va' ≡ pdx va → ptx va' ≡ ptx va → entry_in (write m.word t j x) d va' ≡ x
  unfolding entry_in
  entry-write_self x va' p q =
      rw (p, q)
        (rw (write_ne m.word t j x d (pdx va) (slot_ne_dir d rd))
          (rw mapped (write_self m.word t j x)))

  entry-write_other :
      (x d' va' : ℕ)
      → ρ d' ≡ dir
      → va' < utop
      → ((d ≡ d') → (ppn va ≡ ppn va') → ⊥)
      → entry_in (write m.word t j x) d' va' ≡ entry m d' va'
  unfolding entry_in
  entry-write_other x d' va' rd' lt' apart =
      rw (write_ne m.word t j x d' (pdx va') (slot_ne_dir d' rd'))
        (elim (Bool-cases (has_v (m.word d' (pdx va')))) [
          | inl h ↦ rw h (write_other m.word t j x _ (ptx va') (λ e q. meet h e q))
          | inr h ↦ rw h
        ])
    where
      same_ppn : pdx va ≡ pdx va' → ptx va ≡ ptx va' → ppn va ≡ ppn va'
      same_ppn p q = omega arith

      meet : has_v (m.word d' (pdx va')) ≡ true → t ≡ ppn (m.word d' (pdx va')) → j ≡ ptx va' → ⊥
      meet h e q =
          let (same_d, same_i) =
            table-injective
              (sym slot_role ∙ ap ρ e ∙ v.tables d' (pdx va') rd' (pdx-lt-user va' lt') h) in
          apart same_d (same_ppn same_i q)

  -- The entry that a slot holds is the one that a write to it changes, and no other.
  pub entry-write :
      (x d' va' : ℕ)
      → ρ d' ≡ dir
      → va' < utop
      → entry_in (write m.word t j x) d' va' ≡ (if same_page d va d' va' then x else entry m d' va')
  entry-write x d' va' rd' lt' = elim (ℕ_discrete d d') [
    | yes e ↦ elim (ℕ_discrete (ppn va) (ppn va')) [
      | yes f ↦
          rw ((==_iff d d').1 e, (==_iff (ppn va) (ppn va')).1 f)
            (rw (← e) (entry-write_self x va' (omega arith) (omega arith)))
      | no g ↦
          rw ((==_iff d d').1 e, ==_ne (ppn va) (ppn va') g)
            (entry-write_other x d' va' rd' lt' (λ _ f. g f))
    ]
    | no h ↦ rw (==_ne d d' h) (entry-write_other x d' va' rd' lt' (λ e f. h e))
  ]
