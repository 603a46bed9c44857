-- ===== src/Tlb/Refill.antt =====
-- A refill needs at most one allocation.
use os_lab5_challenge.Base.{
  ℕ, suc, ◌<◌, ◌≡◌, refl, sym, ◌∙◌, true, false, arith, ==_self, Bool-cases, inl, inr, ap, [], Run,
  done, panic, Option, some, subst,
}
use os_lab5_challenge.Pmap.{Machine}
use os_lab5_challenge.Pmap.{utop, has_v, ppn, pte_addr, pte_d, page_pte}
use os_lab5_challenge.Pmap.Inv.{Roles, dir, Inv}
use os_lab5_challenge.Pmap.Alloc.{IsFresh, page_alloc_lem}
use os_lab5_challenge.Pmap.Walk.{entry, entry_table, entry_target, page_lookup_lem, ppn-pte_addr}
use os_lab5_challenge.Pmap.Entries.{has_v-page_pte}
use os_lab5_challenge.Pmap.Store.{IsInserted}
use os_lab5_challenge.Pmap.Insert.{page_insert_lem}
use os_lab5_challenge.Syscall.Memory.{fresh-IsMappable}
use os_lab5_challenge.Tlb.{is_refused, passive_alloc, tlb_refill}

-- How a refill for address `va` ends.
pub data Refills (ρ : Roles) (m : Machine) (d va : ℕ) : Run Machine (Option ℕ) → Type 0 where
  present : has_v (entry m d va) ≡ true → Refills ρ m d va (done (some (entry m d va)) m)
  refused : has_v (entry m d va) ≡ false → is_refused va ≡ true → Refills ρ m d va panic
  no_page : has_v (entry m d va) ≡ false → m.free ≡ [] → Refills ρ m d va panic
  no_table : (pp : ℕ) (m' : Machine) → IsFresh ρ m pp m' → m'.free ≡ [] → Refills ρ m d va panic
  filled :
      (pp : ℕ) (m1 m' : Machine) (ρ' : Roles)
      → has_v (entry m d va) ≡ false
      → is_refused va ≡ false
      → IsFresh ρ m pp m1
      → IsInserted ρ m1 d (pte_addr va) pp pte_d ρ' m'
      → Refills ρ m d va (done (some (page_pte pp pte_d)) m')

module _ {ρ : Roles} {m : Machine} (v : Inv ρ m) {d va : ℕ} (rd : ρ d ≡ dir) (lt : va < utop) where
  -- A valid entry ends the loop.
  refill_present :
      (n asid : ℕ)
      → has_v (entry m d va) ≡ true
      → tlb_refill (suc n) va d asid m ≡ done (some (entry m d va)) m
  unfolding tlb_refill
  refill_present n asid valid =
      rw (page_lookup_lem v rd lt, valid) (rw (entry_table v rd lt (entry_target v rd lt valid).0))

module _ (ρ : Roles) (m : Machine) (v : Inv ρ m) (d va : ℕ) (rd : ρ d ≡ dir) (lt : va < utop)
    (asid : ℕ) where
  inserted-entry :
      {pp : ℕ} {m1 m' : Machine} {ρ' : Roles}
      → IsInserted ρ m1 d (pte_addr va) pp pte_d ρ' m'
      → entry m' d va ≡ page_pte pp pte_d
  inserted-entry i = i.entries d va rd lt ∙ rw (ppn-pte_addr va) (rw (==_self d, ==_self (ppn va)))

  refill_missing :
      has_v (entry m d va) ≡ false
      → is_refused va ≡ false
      → Refills ρ m d va (tlb_refill 2 va d asid m)
  unfolding tlb_refill passive_alloc
  refill_missing out legal = elim (page_alloc_lem v) [
    | inl (empty, run) ↦ rw (page_lookup_lem v rd lt, out, legal, run) (no_page out empty)
    | inr (pp, m1, run, fresh) ↦
        elim (page_insert_lem d asid pp (pte_addr va) pte_d fresh.inv rd (omega (arith, lt))
          (omega arith) (fresh-IsMappable fresh)) [
            | inl (stop, _, empty) ↦
                rw (page_lookup_lem v rd lt, out, legal, run, stop) (no_table pp m1 fresh empty)
            | inr (ρ', m', go, ins) ↦
                let here = inserted-entry ins in
                let valid = ap has_v here ∙ has_v-page_pte pp pte_d in
                let again =
                  refill_present ins.inv (ins.dirs d rd) lt 0 asid valid
                  ∙ ap (λ e. done (some e) m') here in
                let once : tlb_refill 2 va d asid m ≡ tlb_refill 1 va d asid m' =
                  rw (page_lookup_lem v rd lt, out, legal, run, go) refl in
                subst (Refills ρ m d va) (sym (once ∙ again))
                  (filled pp m1 m' ρ' out legal fresh ins)
          ]
  ]

  -- With `Inv` and a user address, two rounds of the loop of `_do_tlb_refill` are enough: it returns
  -- the valid entry of the address, which it has made for a new page if there was none, or the
  -- kernel stops because the address is refused or a page is missing.
  pub tlb_refill_lem : Refills ρ m d va (tlb_refill 2 va d asid m)
  unfolding tlb_refill passive_alloc
  tlb_refill_lem = elim (Bool-cases (has_v (entry m d va))) [
    | inl valid ↦
        subst (Refills ρ m d va) (sym (refill_present v rd lt 1 asid valid)) (present valid)
    | inr out ↦ elim (Bool-cases (is_refused va)) [
      | inl bad ↦ rw (page_lookup_lem v rd lt, out, bad) (refused out bad)
      | inr legal ↦ refill_missing out legal
    ]
  ]
