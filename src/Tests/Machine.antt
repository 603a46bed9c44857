-- ===== src/Tests/Machine.antt =====
-- A machine of sixteen pages, before and after a page is mapped.
use os_lab5_challenge.Base.{
  ℕ, ◌<◌, ◌≡◌, refl, sym, ◌∙◌, ◌≢◌, Bool, true, false, ◌||◌, arith, ==_ne, inl, inr, ap, ◌==◌,
  if◌then◌else◌, has, ◌⊎◌, [], ◌∷◌, Run, done, panic, ok, err, no_mem, some, subst,
}
use native.Mathlib.Decide.{ℕ_discrete}
use os_lab5_challenge.Base.Sums.{total-zero}
use os_lab5_challenge.Pmap.{Machine, has_v, pdx, pgdir_walk, page_remove, page_insert}
use os_lab5_challenge.Pmap.Inv.{dir, plain, table, Roles, count, hits_in, Inv}
use os_lab5_challenge.Pmap.Walk.{entry_slot}
use os_lab5_challenge.Pmap.Store.{IsMappable, IsInserted}
use os_lab5_challenge.Pmap.Create.{IsWalked, walk_create_lem}
use os_lab5_challenge.Pmap.Insert.{Inserts, page_insert_lem}
use os_lab5_challenge.Tlb.{tlb_refill}
use os_lab5_challenge.Tlb.Refill.{Refills, tlb_refill_lem}
use os_lab5_challenge.Pmap.Remove.{IsRemoved, page_remove_lem}

-- Pages 1 and 2 are page directories, page 4 has just been allocated.
abbrev pub machine : Machine
machine = record {
  npage = 16;
  pp_ref = λ p. if (p == 1) || (p == 2) then 1 else 0;
  free = 3 ∷ 5 ∷ 6 ∷ [];
  word = λ _ _. 0;
  tlb_out = [];
}

abbrev pub roles : Roles
roles p = if (p == 1) || (p == 2) then dir else plain

count_zero : (p : ℕ) → count 16 roles (λ _ _. 0) p ≡ 0
unfolding count
count_zero p = total-zero 16 (λ q. hits_in (roles q) (λ _. 0) p) (λ q lt. none_in q)
  where
    none_in : (q : ℕ) → hits_in (roles q) (λ _. 0) p ≡ 0
    none_in q = by_test ((q == 1) || (q == 2))
      where
        by_test : (b : Bool) → hits_in (if b then dir else plain) (λ _. 0) p ≡ 0
        by_test true = refl
        by_test false = refl

-- No page is a table, and the directories are pages 1 and 2.
no_table : (p d i : ℕ) → roles p ≢ table d i
no_table p d i = by_test ((p == 1) || (p == 2))
  where
    by_test : (b : Bool) → (if b then dir else plain) ≢ table d i
    by_test true h = cc
    by_test false h = cc

by_role :
    (p : ℕ)
    → ((roles p ≡ dir) × (p < 16) × (machine.pp_ref p ≡ 1))
      ⊎ ((roles p ≡ plain) × (machine.pp_ref p ≡ 0))
by_role p = elim (ℕ_discrete p 1) [
  | yes e ↦ inl (rw e, rw e (omega arith), rw e)
  | no n1 ↦ elim (ℕ_discrete p 2) [
    | yes e ↦ inl (rw e, rw e (omega arith), rw e)
    | no n2 ↦ inr (rw (==_ne p 1 n1, ==_ne p 2 n2), rw (==_ne p 1 n1, ==_ne p 2 n2))
  ]
]

clash_role : {A : Type 0} → dir ≡ plain → A
clash_role h = absurd (clash h)
  where
    clash : dir ≡ plain → ⊥
    clash h' = cc

pub machine-Inv : Inv roles machine
machine-Inv = record {
  bound = omega arith;
  distinct = (refl, (refl, (refl, tt)));
  unused = λ p h. free_page p h;
  counted = λ p lt r. elim (by_role p) [
    | inl (d, _, _) ↦ clash_role (sym d ∙ r)
    | inr (_, z) ↦ z ∙ sym (count_zero p)
  ];
  owned = λ p d i r. absurd (no_table p d i r);
  held = λ p r. elim (by_role p) [
    | inl (_, lt, one) ↦ (lt, one)
    | inr (pl, _) ↦ clash_role (sym r ∙ pl)
  ];
  tables = λ d i r lt h. absurd (clash h);
  targets = λ q d i j r. absurd (no_table q d i r);
}
  where
    clash : has_v 0 ≡ true → ⊥
    clash h = ground arith

    free_page :
        (p : ℕ) → has p machine.free ≡ true → (p < 16) × (roles p ≡ plain) × (machine.pp_ref p ≡ 0)
    free_page p h = ground arith

-- Page 4 can be mapped.
abbrev pub va_a : ℕ
va_a = 0x400000

abbrev pub va_b : ℕ
va_b = 0x401000

page_four-IsMappable : IsMappable roles machine 4
page_four-IsMappable = record {
  in_range = omega arith;
  role = refl;
  not_free = refl;
  room = omega arith;
}

-- `page_insert` maps page 4 at an address that has no table yet.
page_insert_example : Inserts roles machine 1 7 4 va_a 1024 (page_insert 1 7 4 va_a 1024 machine)
page_insert_example =
    page_insert_lem 1 7 4 va_a 1024 machine-Inv refl (omega arith) (omega arith)
      page_four-IsMappable

-- The machine that this leaves.
abbrev pub state_of : {A : Type 0} → Run Machine A → Machine
state_of (done a m) = m
state_of panic = machine

abbrev pub mapped : Machine
mapped = state_of (page_insert 1 7 4 va_a 1024 machine)

pub mapped_lem : (ρ : Roles) × IsInserted roles machine 1 va_a 4 1024 ρ mapped
mapped_lem =
    elim (page_insert_lem 1 7 4 va_a 1024 machine-Inv refl (omega arith) (omega arith)
      page_four-IsMappable) [
        | inl (_, _, empty) ↦ absurd (clash empty)
        | inr (ρ, m, r, ins) ↦
            (ρ, subst (IsInserted roles machine 1 va_a 4 1024 ρ) (sym (ap state_of r)) ins)
      ]
  where
    clash : machine.free ≡ [] → ⊥
    clash h = cc

-- The mapped address is looked up and unmapped, and its neighbour is walked to.
mapped_dir : mapped_lem.0 1 ≡ dir
mapped_dir = mapped_lem.1.dirs 1 refl

page_remove_example :
    (m : Machine) × (page_remove 1 7 va_a mapped ≡ done tt m)
    × IsRemoved mapped_lem.0 mapped 1 va_a m
page_remove_example = page_remove_lem 7 mapped_lem.1.inv mapped_dir (omega arith)

walk_create_example :
    ((has_v (machine.word 1 (pdx va_b)) ≡ false)
      × (machine.free ≡ [])
      × (pgdir_walk 1 va_b true machine ≡ done (err no_mem) machine))
    ⊎ ((ρ' : Roles) × (m' : Machine) × (pgdir_walk 1 va_b true machine
          ≡ done (ok (some (entry_slot m' 1 va_b))) m')
        × IsWalked roles machine 1 va_b ρ' m')
walk_create_example = walk_create_lem machine-Inv refl (omega arith)

tlb_refill_example : Refills roles machine 1 va_a (tlb_refill 2 va_a 1 7 machine)
tlb_refill_example = tlb_refill_lem roles machine machine-Inv 1 va_a refl (omega arith) 7
