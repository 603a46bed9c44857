-- ===== src/Pmap/Alloc.antt =====
-- `page_alloc`, `page_free` and `page_decref`.
use os_lab5_challenge.Base.{
  ℕ, zero, suc, ◌-◌, ◌^◌, ◌≤◌, ◌<◌, ◌≡◌, refl, sym, ◌∙◌, ◌≢◌, Bool, true, false, ◌||◌, arith,
  ==_self, ==_ne, inl, inr, ap, ◌==◌, if◌then◌else◌, has, IsDistinct, ◌⊎◌, List, [], ◌∷◌, done, ok,
  err, no_mem, update, lt→ltb,
}
use native.Mathlib.Decide.{ℕ_discrete}
use os_lab5_challenge.Pmap.{
  Machine, ppn, clear_page, alloc_first, page_alloc, page_free, page_decref, page2kva, page2pa,
}
use os_lab5_challenge.Pmap.Inv.{Role, plain, table, dir, Roles, hits_in, count-ext, Inv}

-- `page_alloc` has handed out the head of the free list, cleared.
pub record IsFresh (ρ : Roles) (m : Machine) (pp : ℕ) (m' : Machine) : Type 0 where
  pub inv : Inv ρ m'
  pub head : m.free ≡ pp ∷ m'.free
  pub same_npage : m'.npage ≡ m.npage
  pub in_range : pp < m.npage
  pub role : ρ pp ≡ plain
  pub unref : m'.pp_ref pp ≡ 0
  pub not_free : has pp m'.free ≡ false
  pub cleared : (i : ℕ) → m'.word pp i ≡ 0
  pub same_word : (q i : ℕ) → q ≢ pp → m'.word q i ≡ m.word q i
  pub same_ref : m'.pp_ref ≡ m.pp_ref

∨-true : (a : Bool) {b : Bool} → b ≡ true → (a || b) ≡ true
∨-true true h = refl
∨-true false h = h

hits_in-clear :
    (r : Role) (w : ℕ → ℕ → ℕ) (pp q p : ℕ)
    → (q ≡ pp → r ≡ plain)
    → hits_in r (w q) p ≡ hits_in r (λ j. if pp == q then 0 else w q j) p
hits_in-clear r w pp q p h = elim (ℕ_discrete pp q) [
  | yes e ↦ rw (h (sym e))
  | no ne ↦ rw (==_ne pp q ne)
]

module _ {ρ : Roles} {m : Machine} (v : Inv ρ m) (pp : ℕ) (rest : List ℕ)
    (e : m.free ≡ pp ∷ rest) where
  open v use {unused, bound, counted, owned, held, tables, targets, distinct}

  in_free : has pp m.free ≡ true
  in_free = rw e (rw (==_self pp))

  apart : (p : ℕ) (r : Role) → ρ p ≡ r → r ≢ plain → p ≢ pp
  apart p r h ne q = ne (sym h ∙ ap ρ q ∙ (unused pp in_free).1)

  tail : IsDistinct (pp ∷ rest)
  tail = rw e at distinct

  alloc-Inv : Inv ρ (clear_page pp (record m { free = rest }))
  alloc-Inv = record {
    bound = bound;
    distinct = tail.1;
    unused = λ p h. unused p (rw e (rw (∨-true (pp == p) h)));
    counted = λ p lt r.
        counted p lt r
        ∙ count-ext m.npage m.word p ρ ρ _
            (λ q _. hits_in-clear (ρ q) m.word pp q p (λ here. ap ρ here ∙ (unused pp in_free).1));
    owned = owned;
    held = held;
    tables = λ d i rd lt hv.
        let ne = ==_ne pp d (λ q. apart d dir rd (λ x. cc) (sym q)) in
        rw ne (tables d i rd lt (rw ne at hv));
    targets = λ q d i j rq lt hv.
        let ne = ==_ne pp q (λ x. apart q (table d i) rq (λ y. cc) (sym x)) in
        rw ne (targets q d i j rq lt (rw ne at hv));
  }

-- The address of a page in range leads back to the page.
pub ppn-page2pa : (pp npage : ℕ) → pp < npage → npage ≤ 2 ^ 20 → ppn (page2pa pp) ≡ pp
ppn-page2pa pp npage h k = omega arith

pub page2kva_lem :
    (pp : ℕ) (m : Machine) → pp < m.npage → m.npage ≤ 2 ^ 20 → page2kva pp m ≡ done pp m
page2kva_lem pp m h k = rw (ppn-page2pa pp m.npage h k, lt→ltb pp m.npage h)

module _ {ρ : Roles} {m : Machine} (v : Inv ρ m) where
  alloc_first-IsFresh :
      (l : List ℕ)
      → m.free ≡ l
      → ((l ≡ []) × (alloc_first l m ≡ done (err no_mem) m))
        ⊎ ((pp : ℕ) × (m' : Machine) × (alloc_first l m ≡ done (ok pp) m') × IsFresh ρ m pp m')
  unfolding alloc_first
  alloc_first-IsFresh [] e = inl (refl, refl)
  alloc_first-IsFresh (pp ∷ rest) e =
      let (lt, role, unref) = v.unused pp (in_free v pp rest e) in
      inr (
        pp,
        clear_page pp (record m { free = rest }),
        rw (page2kva_lem pp (record m { free = rest }) lt v.bound),
        record {
          inv = alloc-Inv v pp rest e;
          head = e;
          same_npage = refl;
          in_range = lt;
          role = role;
          unref = unref;
          not_free = (tail v pp rest e).0;
          cleared = λ i. rw (==_self pp);
          same_word = λ q i ne. rw (==_ne pp q (λ x. ne (sym x)));
          same_ref = refl;
        },
      )

  -- With `Inv`, `page_alloc` fails, and changes nothing, exactly when the free list is empty; otherwise it
  -- takes the head of the list, clears it, and `Inv` holds again.
  pub page_alloc_lem :
      ((m.free ≡ []) × (page_alloc m ≡ done (err no_mem) m))
      ⊎ ((pp : ℕ) × (m' : Machine) × (page_alloc m ≡ done (ok pp) m') × IsFresh ρ m pp m')
  unfolding page_alloc
  page_alloc_lem = alloc_first-IsFresh m.free refl

-- What `page_decref` leaves of a page with `k + 1` references.
abbrev pub dropped : ℕ → ℕ → Machine → Machine
dropped pp k m = record m {
  pp_ref = update m.pp_ref pp k;
  free = if k == 0 then pp ∷ m.free else m.free;
}

pub page_free_lem :
    (pp : ℕ) (m : Machine)
    → m.pp_ref pp ≡ 0
    → page_free pp m ≡ done tt (record m { free = pp ∷ m.free })
unfolding page_free
page_free_lem pp m h = rw h

sub_one : (k : ℕ) → suc k - 1 ≡ k
sub_one k = omega arith

pub page_decref_lem :
    (pp k : ℕ) (m : Machine) → m.pp_ref pp ≡ suc k → page_decref pp m ≡ done tt (dropped pp k m)
unfolding page_decref page_free
page_decref_lem pp zero m h = rw h (rw (==_self pp) (rw h))
page_decref_lem pp (suc k) m h = rw h (
    rw (lt→ltb 0 (suc (suc k)) (omega arith), sub_one (suc k), ==_ne (suc k) 0 (omega arith))
      (ap (λ t. done tt (record m { pp_ref = update m.pp_ref pp t })) (omega arith)))
