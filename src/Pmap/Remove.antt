-- ===== src/Pmap/Remove.antt =====
-- `page_remove`.
use os_lab5_challenge.Base.{
  ℕ, suc, ◌+◌, ◌-◌, ◌*◌, ◌%◌, ◌^◌, ◌<◌, ◌≡◌, refl, sym, ◌∙◌, ◌≢◌, true, false, ◌&&◌, arith, ==_self,
  ==_ne, Bool-cases, inl, inr, ap, ◌==◌, if◌then◌else◌, has, ◌⊎◌, ◌∷◌, done, update, bit_or,
}
use native.Mathlib.Decide.{ℕ_discrete}
use os_lab5_challenge.Pmap.{
  Machine, has_v, ppn, pdx, ptx, utop, write, pte_addr, store, page_remove, remove_slot,
}
use os_lab5_challenge.Pmap.Inv.{plain, table, dir, Roles, hit, count, count-write, count-pos, Inv}
use os_lab5_challenge.Pmap.Walk.{
  entry, entry_slot, entry_table, entry_target, page_lookup_lem, table_in_range,
}
use os_lab5_challenge.Pmap.Slots.{
  same_page, entry-write, slot_role, slot_ne_dir, write_ne, write_cases,
}
use os_lab5_challenge.Pmap.Alloc.{dropped, page_decref_lem}

-- The machine after the mapping of `va` in directory `d`, whose page has `k + 1` references, is
-- gone.
abbrev pub unmapped : Machine → ℕ → ℕ → ℕ → ℕ → Machine
unmapped m d va k entryhi =
    let m1 = store (entry_slot m d va) 0 (dropped (ppn (entry m d va)) k m) in
    record m1 { tlb_out = entryhi ∷ m1.tlb_out }

module _ {ρ : Roles} {m : Machine} (v : Inv ρ m) {d va : ℕ} (rd : ρ d ≡ dir) (lt : va < utop)
    (valid : has_v (entry m d va) ≡ true) where
  open v use {unused, bound, counted, owned, held, tables, targets, distinct}

  abbrev pp : ℕ
  pp = ppn (entry m d va)

  target : (has_v (m.word d (pdx va)) ≡ true) × (pp < m.npage) × (ρ pp ≡ plain)
  target = entry_target v rd lt valid

  in_slot : entry m d va ≡ m.word (ppn (m.word d (pdx va))) (ptx va)
  in_slot = entry_table v rd lt target.0

  hit_one : hit (m.word (ppn (m.word d (pdx va))) (ptx va)) pp ≡ 1
  hit_one = rw (← in_slot) (rw (valid, ==_self pp))

  -- The page of a mapping has a reference, so `page_decref` does not fail.
  pub ref_pos : 0 < m.pp_ref pp
  ref_pos = rw (counted pp target.1 target.2) (
      count-pos m.npage m.word pp ρ _ d (pdx va) (ptx va) (slot_role v rd lt target.0)
        (table_in_range v rd lt target.0) (omega arith) hit_one)

  plain_ne : (p : ℕ) → ρ p ≢ plain → pp ≢ p
  plain_ne p h e = h (sym (ap ρ e) ∙ target.2)

  pub not_free : has pp m.free ≡ false
  not_free = elim (Bool-cases (has pp m.free)) [
    | inl h ↦ absurd (omega (arith, (unused pp h).2, ref_pos))
    | inr h ↦ h
  ]

  freed :
      (k p : ℕ)
      → has p (if k == 0 then pp ∷ m.free else m.free) ≡ true
      → ((pp ≡ p) × (k ≡ 0)) ⊎ (has p m.free ≡ true)
  freed k p h = ground arith

  unmapped-counted :
      (k : ℕ)
      → m.pp_ref pp ≡ suc k
      → (p : ℕ) → p < m.npage
      → ρ p ≡ plain
      → update m.pp_ref pp k p
        ≡ count m.npage ρ (write m.word (ppn (m.word d (pdx va))) (ptx va) 0) p
  unmapped-counted k refs p ltp r = elim (ℕ_discrete pp p) [
    | yes e ↦
        rw (← e)
          (rw (==_self pp) (omega (arith, moved pp, hit_one, counted pp target.1 target.2, refs)))
    | no ne ↦
        let miss : hit (m.word (ppn (m.word d (pdx va))) (ptx va)) p ≡ 0 =
          rw (← in_slot) (rw (valid, ==_ne pp p ne)) in
        rw (==_ne pp p ne) (omega (arith, moved p, miss, counted p ltp r))
  ]
    where
      moved :
          (p : ℕ)
          → count m.npage ρ (write m.word (ppn (m.word d (pdx va))) (ptx va) 0) p
              + hit (m.word (ppn (m.word d (pdx va))) (ptx va)) p
            ≡ count m.npage ρ m.word p + 0
      moved p =
          count-write m.npage m.word p ρ _ d (pdx va) (ptx va) 0 (slot_role v rd lt target.0)
            (table_in_range v rd lt target.0) (omega arith)

  unmapped-Inv : (k h : ℕ) → m.pp_ref pp ≡ suc k → Inv ρ (unmapped m d va k h)
  unmapped-Inv k h refs = record {
    bound = bound;
    distinct = elim (Bool-cases (k == 0)) [
      | inl z ↦ rw z (not_free, distinct)
      | inr s ↦ rw s distinct
    ];
    unused = λ p fr. elim (freed k p fr) [
      | inl (e, z) ↦ rw (← e) (target.1, target.2, rw (==_self pp) z)
      | inr f ↦ (
        (unused p f).0,
        (unused p f).1,
        rw (==_ne pp p (λ e. clash (rw (← e) at f))) (unused p f).2,
      )
    ];
    counted = unmapped-counted k refs;
    owned = λ p d' i r. (
      (owned p d' i r).0,
      rw (==_ne pp p (plain_ne p (λ x. other d' i (sym r ∙ x)))) (owned p d' i r).1,
    );
    held =
        λ p r. ((held p r).0, rw (==_ne pp p (plain_ne p (λ x. no_dir (sym r ∙ x)))) (held p r).1);
    tables = λ d' i r lti hv.
        let same =
          write_ne m.word (ppn (m.word d (pdx va))) (ptx va) 0 d' i
            (slot_ne_dir v rd lt target.0 d' r) in
        rw same (tables d' i r lti (rw same at hv));
    targets = λ q d' i j' rq ltj hv.
        elim (write_cases m.word (ppn (m.word d (pdx va))) (ptx va) 0 q j') [
          | inl z ↦ absurd (no_entry (rw z at hv))
          | inr same ↦ rw same (targets q d' i j' rq ltj (rw same at hv))
        ];
  }
    where
      clash : has pp m.free ≡ true → ⊥
      clash f = cc (sym f ∙ not_free)

      other : (d' i : ℕ) → table d' i ≡ plain → ⊥
      other d' i x = cc

      no_dir : dir ≡ plain → ⊥
      no_dir x = cc

      no_entry : false ≡ true → ⊥
      no_entry x = cc

-- What `page_remove` does: the address is unmapped, every other user address of every directory
-- keeps its entry, the page loses one reference, and is put on the free list if that was its last.
pub record IsRemoved (ρ : Roles) (m : Machine) (d va : ℕ) (m' : Machine) : Type 0 where
  pub inv : Inv ρ m'
  pub unmapped : has_v (entry m' d va) ≡ false
  pub others :
      (d' va' : ℕ)
      → ρ d' ≡ dir
      → va' < utop
      → same_page d va d' va' ≡ false
      → entry m' d' va' ≡ entry m d' va'
  pub refs : (p : ℕ) → m'.pp_ref p + hit (entry m d va) p ≡ m.pp_ref p
  pub freed : m'.free ≡ (
      if has_v (entry m d va) && (m.pp_ref (ppn (entry m d va)) == 1)
      then ppn (entry m d va) ∷ m.free
      else m.free)
  pub dirs : (d' i : ℕ) → ρ d' ≡ dir → m'.word d' i ≡ m.word d' i
  pub same_npage : m'.npage ≡ m.npage

remove-mapped :
    {ρ : Roles} {m : Machine} (v : Inv ρ m) {d va : ℕ} (asid : ℕ)
    → ρ d ≡ dir
    → va < utop
    → has_v (entry m d va) ≡ true
    → (m' : Machine) × (page_remove d asid va m ≡ done tt m') × IsRemoved ρ m d va m'
unfolding page_remove remove_slot
remove-mapped {ρ} {m} v {d} {va} asid rd lt valid = (
  m',
  run,
  record {
    inv = unmapped-Inv v rd lt valid k _ refs;
    unmapped = rw (here d va rd lt) (rw (==_self d, ==_self (ppn va)));
    others = λ d' va' rd' lt' apart. here d' va' rd' lt' ∙ rw apart;
    refs = λ p. ground (arith, refs);
    freed = ground (arith, refs);
    dirs = λ d' i r. write_ne m.word _ (ptx va) 0 d' i (slot_ne_dir v rd lt mapped d' r);
    same_npage = refl;
  },
)
  where
    k : ℕ
    k = m.pp_ref (ppn (entry m d va)) - 1

    m' : Machine
    m' = unmapped m d va k (bit_or (pte_addr va) (asid * 64 % 2 ^ 32))

    mapped : has_v (m.word d (pdx va)) ≡ true
    mapped = (target v rd lt valid).0

    refs : m.pp_ref (ppn (entry m d va)) ≡ suc k
    refs = omega (arith, ref_pos v rd lt valid)

    run : page_remove d asid va m ≡ done tt m'
    run = rw (page_lookup_lem v rd lt, valid, page_decref_lem (ppn (entry m d va)) k m refs)

    here :
        (d' va' : ℕ)
        → ρ d' ≡ dir
        → va' < utop
        → entry m' d' va' ≡ (if same_page d va d' va' then 0 else entry m d' va')
    here = entry-write v rd lt mapped 0

remove-unmapped :
    {ρ : Roles} {m : Machine} (v : Inv ρ m) {d va : ℕ} (asid : ℕ)
    → ρ d ≡ dir
    → va < utop
    → has_v (entry m d va) ≡ false
    → (m' : Machine) × (page_remove d asid va m ≡ done tt m') × IsRemoved ρ m d va m'
unfolding page_remove remove_slot
remove-unmapped {ρ} {m} v {d} {va} asid rd lt free_va = (
  m,
  rw (page_lookup_lem v rd lt, free_va),
  record {
    inv = v;
    unmapped = free_va;
    others = λ d' va' rd' lt' apart. refl;
    refs = λ p. rw free_va (omega arith);
    freed = rw free_va;
    dirs = λ d' i r. refl;
    same_npage = refl;
  },
)

-- With `Inv` and a user address, `page_remove` always returns and has done what `IsRemoved` says: the
-- address is unmapped, the other entries stay, its page loses a reference and is freed at zero, and
-- `Inv` holds again.
pub page_remove_lem :
    {ρ : Roles} {m : Machine} {d va : ℕ} (asid : ℕ)
    → Inv ρ m
    → ρ d ≡ dir
    → va < utop
    → (m' : Machine) × (page_remove d asid va m ≡ done tt m') × IsRemoved ρ m d va m'
page_remove_lem {m} {d} {va} asid v rd lt = elim (Bool-cases (has_v (entry m d va))) [
  | inl h ↦ remove-mapped v asid rd lt h
  | inr h ↦ remove-unmapped v asid rd lt h
]
