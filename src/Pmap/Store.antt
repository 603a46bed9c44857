-- ===== src/Pmap/Store.antt =====
-- The store of a page table entry, and the counts that go with it.
use os_lab5_challenge.Base.{
  ℕ, ◌+◌, ◌^◌, ◌≤◌, ◌<◌, ◌≡◌, sym, ◌∙◌, ◌≢◌, true, false, arith, ==_self, ==_ne, inl, inr, ap, ◌==◌,
  if◌then◌else◌, has, ◌∷◌,
}
use native.Mathlib.Decide.{ℕ_discrete}
use os_lab5_challenge.Pmap.{Machine, has_v, ppn, pdx, utop, slot, store, incref, page_pte}
use os_lab5_challenge.Pmap.Inv.{Role, plain, dir, Roles, hit, count-write, Inv}
use os_lab5_challenge.Pmap.Walk.{entry, entry_slot, entry_table, table_in_range}
use os_lab5_challenge.Pmap.Slots.{
  same_page, entry-write, slot_role, slot_ne_dir, write_ne, write_cases,
}
use os_lab5_challenge.Pmap.Entries.{ppn-page_pte, has_v-page_pte}
use os_lab5_challenge.Pmap.Create.{IsWalked, Untaken}

-- A page that a caller may map: a plain one, off the free list, whose count has room.
pub record IsMappable (ρ : Roles) (m : Machine) (pp : ℕ) : Type 0 where
  pub in_range : pp < m.npage
  pub role : ρ pp ≡ plain
  pub not_free : has pp m.free ≡ false
  pub room : m.pp_ref pp < 65535

-- A valid word for a plain page is stored in the slot of `va`, and the counts follow.
module _ {ρ : Roles} {m : Machine} (v : Inv ρ m) {d va pp : ℕ} (rd : ρ d ≡ dir) (lt : va < utop)
    (table_there : has_v (m.word d (pdx va)) ≡ true) (ok_pp : IsMappable ρ m pp) where
  open v use {unused, bound, counted, owned, held, tables, targets, distinct}
  open (entry_slot m d va) use {page as t, index as j}

  apart : (p : ℕ) (r : Role) → ρ p ≡ r → (plain ≡ r → ⊥) → pp ≢ p
  apart p r h differs e = differs (sym ok_pp.role ∙ ap ρ e ∙ h)

  pub stored-Inv :
      (x : ℕ) (f : ℕ → ℕ)
      → has_v x ≡ true
      → ppn x ≡ pp
      → ((p : ℕ) → pp ≢ p → f p ≡ m.pp_ref p)
      → ((p : ℕ) → f p + hit (entry m d va) p ≡ m.pp_ref p + hit x p)
      → Inv ρ (record (store (slot t j) x m) { pp_ref = f })
  stored-Inv x f hx px same balance = record {
    bound = bound;
    distinct = distinct;
    unused = λ p fr.
        let (a, b, c) = unused p fr in
        (a, b, same p (λ e. clash (sym (ap (λ y. has y m.free) e ∙ fr) ∙ ok_pp.not_free)) ∙ c);
    counted = λ p l r. omega (
      arith,
      counted p l r,
      balance p,
      count-write m.npage m.word p ρ t d (pdx va) j x (slot_role v rd lt table_there)
          (table_in_range v rd lt table_there) (omega arith),
      ap (λ e. hit e p) (entry_table v rd lt table_there),
    );
    owned = λ p d' i r. let (a, b) = owned p d' i r in (a, same p (apart p _ r (λ y. cc)) ∙ b);
    held = λ p r. let (a, b) = held p r in (a, same p (apart p _ r (λ y. cc)) ∙ b);
    tables = λ d' i r l hv.
        let e = write_ne m.word t j x d' i (slot_ne_dir v rd lt table_there d' r) in
        rw e (tables d' i r l (rw e at hv));
    targets = λ q d' i i' rq l hv. elim (write_cases m.word t j x q i') [
      | inl e ↦ rw (e, px) (ok_pp.in_range, ok_pp.role)
      | inr e ↦ rw e (targets q d' i i' rq l (rw e at hv))
    ];
  }
    where
      clash : true ≡ false → ⊥
      clash h = cc

-- What `page_insert` has done where it returns 0: the address has the new entry, every other user
-- address of every directory has its old one, and the counts follow.
pub record IsInserted (ρ : Roles) (m : Machine) (d va pp perm : ℕ) (ρ' : Roles) (m' : Machine)
    : Type 0 where
  pub inv : Inv ρ' m'
  pub entries :
      (d' va' : ℕ)
      → ρ d' ≡ dir
      → va' < utop
      → entry m' d' va' ≡ (if same_page d va d' va' then page_pte pp perm else entry m d' va')
  pub dirs : (p : ℕ) → ρ p ≡ dir → ρ' p ≡ dir
  pub refs :
      (p : ℕ)
      → Untaken m d va p
      → m'.pp_ref p + hit (entry m d va) p ≡ m.pp_ref p + (if pp == p then 1 else 0)
  pub same_npage : m'.npage ≡ m.npage

pub hit_valid : (x pp p : ℕ) → has_v x ≡ true → ppn x ≡ pp → hit x p ≡ (if pp == p then 1 else 0)
hit_valid x pp p h e = rw (h, e)

pub hit_invalid : (x p : ℕ) → has_v x ≡ false → hit x p ≡ 0
hit_invalid x p h = rw h

-- `tlb_invalidate` touches nothing that the invariant speaks of.
abbrev pub logged : ℕ → Machine → Machine
logged h m = record m { tlb_out = h ∷ m.tlb_out }

pub logged-Inv : {ρ : Roles} {m : Machine} (h : ℕ) → Inv ρ m → Inv ρ (logged h m)
logged-Inv h v = record {
  bound = v.bound;
  distinct = v.distinct;
  unused = v.unused;
  counted = v.counted;
  owned = v.owned;
  held = v.held;
  tables = v.tables;
  targets = v.targets;
}

module _ {ρ ρ' : Roles} {m m' : Machine} {d va pp : ℕ} (perm : ℕ) (rd : ρ d ≡ dir) (lt : va < utop)
    (small : perm < 4096) (bound : m.npage ≤ 2 ^ 20) (walked : IsWalked ρ m d va ρ' m')
    (ok_pp : IsMappable ρ m pp) (free_va : has_v (entry m d va) ≡ false) where
  open walked use {inv, table_there, entries, dirs, kept, refs, same_npage}

  abbrev pub filled : Machine
  filled = incref pp (store (entry_slot m' d va) (page_pte pp perm) m')

  x_ppn : ppn (page_pte pp perm) ≡ pp
  x_ppn = ppn-page_pte pp perm (omega (arith, ok_pp.in_range)) small

  kept_pp : (ρ' pp ≡ plain) × (has pp m'.free ≡ false)
  kept_pp = kept pp ok_pp.role ok_pp.not_free

  ok_pp' : IsMappable ρ' m' pp
  ok_pp' = record {
    in_range = rw same_npage ok_pp.in_range;
    role = kept_pp.0;
    not_free = kept_pp.1;
    room = rw (refs pp (inl ok_pp.not_free)) ok_pp.room;
  }

  no_hit : (p : ℕ) → hit (entry m' d va) p ≡ 0
  no_hit p = ap (λ e. hit e p) (entries d va rd lt) ∙ hit_invalid (entry m d va) p free_va

  filled_ref : (p : ℕ) → filled.pp_ref p ≡ m'.pp_ref p + (if pp == p then 1 else 0)
  filled_ref p = elim (ℕ_discrete pp p) [
    | yes e ↦ rw (← e) (rw (==_self pp) (omega (arith, ok_pp'.room)))
    | no ne ↦ rw (==_ne pp p ne) (omega arith)
  ]

  pub filled-IsInserted : IsInserted ρ m d va pp perm ρ' filled
  filled-IsInserted = record {
    inv =
        stored-Inv inv (dirs d rd) lt table_there ok_pp' (page_pte pp perm) filled.pp_ref
          (has_v-page_pte pp perm) x_ppn (λ p ne. rw (==_ne pp p ne))
          (λ p. omega (
            arith,
            filled_ref p,
            no_hit p,
            hit_valid (page_pte pp perm) pp p (has_v-page_pte pp perm) x_ppn,
          ));
    entries = λ d' va' r l.
        entry-write inv (dirs d rd) lt table_there (page_pte pp perm) d' va' (dirs d' r) l
        ∙ ap (λ y. if same_page d va d' va' then page_pte pp perm else y) (entries d' va' r l);
    dirs = dirs;
    refs = λ p u. omega (arith, filled_ref p, hit_invalid (entry m d va) p free_va, refs p u);
    same_npage = same_npage;
  }
