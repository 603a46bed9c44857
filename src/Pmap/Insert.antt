-- ===== src/Pmap/Insert.antt =====
-- `page_insert`, on every branch.
use os_lab5_challenge.Base.{
  ℕ, ◌*◌, ◌%◌, ◌^◌, ◌<◌, ◌≡◌, refl, sym, ◌∙◌, ◌≢◌, Bool, true, false, arith, ==_ne, ==_iff,
  Bool-cases, inl, inr, ap, ◌==◌, if◌then◌else◌, has, ◌⊎◌, [], ◌∷◌, Run, done, ok, err, no_mem,
  Result, lt→ltb, Option, none, some, and_then, bit_or,
}
use native.Mathlib.Decide.{ℕ_discrete}
use os_lab5_challenge.Pmap.{
  Machine, has_v, ppn, pdx, utop, pte_addr, pgdir_walk, found, valid_slot, Slot, store, page_remove,
  incref, page_pte, set_entry, insert_entry, insert_over, page_insert,
}
use os_lab5_challenge.Pmap.Inv.{dir, Roles, hit, Inv}
use os_lab5_challenge.Pmap.Walk.{
  entry, entry_slot, entry_table, entry_missing, entry_target, walk_table, walk_missing,
}
use os_lab5_challenge.Pmap.Slots.{same_page, entry-write}
use os_lab5_challenge.Pmap.Entries.{ppn-page_pte, has_v-page_pte}
use os_lab5_challenge.Pmap.Create.{walk_create_lem}
use os_lab5_challenge.Pmap.Remove.{IsRemoved, page_remove_lem}
use os_lab5_challenge.Pmap.Store.{
  IsMappable, IsInserted, hit_valid, hit_invalid, logged, logged-Inv, filled-IsInserted, stored-Inv,
}

abbrev pub entryhi : ℕ → ℕ → ℕ
entryhi asid va = bit_or (pte_addr va) (asid * 64 % 2 ^ 32)

-- How `page_insert` of page `pp` at a user address ends.
abbrev pub Inserts : Roles → Machine → ℕ → ℕ → ℕ → ℕ → ℕ → Run Machine (Result (Unit {0})) → Type 0
Inserts ρ m d asid pp va perm r =
    ((r ≡ done (err no_mem) (logged (entryhi asid va) m))
      × (has_v (m.word d (pdx va)) ≡ false)
      × (m.free ≡ []))
    ⊎ ((ρ' : Roles) × (m' : Machine) × (r ≡ done (ok tt) m') × IsInserted ρ m d va pp perm ρ' m')

logged-IsInserted :
    {ρ ρ' : Roles} {m m' : Machine} {d va pp perm : ℕ} (h : ℕ)
    → IsInserted ρ (logged h m) d va pp perm ρ' m'
    → IsInserted ρ m d va pp perm ρ' m'
logged-IsInserted h i = record {
  inv = i.inv;
  entries = i.entries;
  dirs = i.dirs;
  refs = i.refs;
  same_npage = i.same_npage;
}

-- From the second step of `page_insert` on, at an address that maps nothing.
insert_entry_lem :
    {ρ : Roles} {m : Machine} (d asid pp va perm : ℕ)
    → Inv ρ m
    → ρ d ≡ dir
    → va < utop
    → perm < 4096
    → IsMappable ρ m pp
    → has_v (entry m d va) ≡ false
    → Inserts ρ m d asid pp va perm (insert_entry d asid pp va perm m)
unfolding insert_entry set_entry
insert_entry_lem {ρ} {m} d asid pp va perm v rd lt small can free_va =
    elim (walk_create_lem (logged-Inv (entryhi asid va) v) rd lt) [
      | inl (a, b, e) ↦ inl (rw e, a, b)
      | inr (ρ', m', e, walked) ↦ inr (
        ρ',
        incref pp (store (entry_slot m' d va) (page_pte pp perm) m'),
        rw e,
        logged-IsInserted _ (filled-IsInserted perm rd lt small v.bound walked can' free_va),
      )
    ]
  where
    can' : IsMappable ρ (logged (entryhi asid va) m) pp
    can' = record {
      in_range = can.in_range;
      role = can.role;
      not_free = can.not_free;
      room = can.room;
    }

module _ {ρ : Roles} {m : Machine} (d asid pp va perm : ℕ) (v : Inv ρ m) (rd : ρ d ≡ dir)
    (lt : va < utop) (small : perm < 4096) (can : IsMappable ρ m pp) where
  first_walk :
      (r : Result (Option Slot)) × (pgdir_walk d va false m ≡ done r m)
      × (valid_slot m (found r) ≡ (if has_v (entry m d va) then some (entry_slot m d va) else none))
  first_walk = elim (Bool-cases (has_v (m.word d (pdx va)))) [
    | inl t ↦
        (ok (some (entry_slot m d va)), walk_table v rd lt false t, rw (entry_table v rd lt t))
    | inr f ↦ (ok none, walk_missing v rd lt f, rw (entry_missing v rd lt f))
  ]

  insert_runs :
      page_insert d asid pp va perm m
      ≡ insert_over d asid pp va perm
          (if has_v (entry m d va) then some (entry_slot m d va) else none)
          m
  unfolding page_insert
  insert_runs = let (r, e, f) = first_walk in rw (e, f)

  insert_unmapped :
      has_v (entry m d va) ≡ false → Inserts ρ m d asid pp va perm (page_insert d asid pp va perm m)
  unfolding insert_over
  insert_unmapped free_va =
      rw (insert_runs, free_va) (insert_entry_lem d asid pp va perm v rd lt small can free_va)

  module _ (valid : has_v (entry m d va) ≡ true) where
    there : has_v (m.word d (pdx va)) ≡ true
    there = (entry_target v rd lt valid).0

    x_ppn : ppn (page_pte pp perm) ≡ pp
    x_ppn = ppn-page_pte pp perm (omega (arith, can.in_range, v.bound)) small

    over_runs : insert_over d asid pp va perm (some (entry_slot m d va)) m ≡ (
        if ppn (entry m d va) == pp
        then done
            (ok tt)
            (store (entry_slot m d va) (page_pte pp perm) (logged (entryhi asid va) m))
        else and_then (page_remove d asid va m) (λ _. insert_entry d asid pp va perm))
    unfolding insert_over
    over_runs = rw (← entry_table v rd lt there) (
        rw (lt→ltb _ _ (entry_target v rd lt valid).1)
          (elim (Bool-cases (ppn (entry m d va) == pp)) [ inl h ↦ rw h | inr h ↦ rw h ]))

    -- The page is mapped there already: only the flags change.
    again :
        ppn (entry m d va) ≡ pp
        → Inserts ρ m d asid pp va perm (
            done
              (ok tt)
              (store (entry_slot m d va) (page_pte pp perm) (logged (entryhi asid va) m)))
    again e = inr (
      ρ,
      store (entry_slot m d va) (page_pte pp perm) (logged (entryhi asid va) m),
      refl,
      record {
        inv = logged-Inv (entryhi asid va) (
            stored-Inv v rd lt there can (page_pte pp perm) m.pp_ref (has_v-page_pte pp perm) x_ppn
              (λ p ne. refl) (λ p. rw (same_hit p)));
        entries = entry-write v rd lt there (page_pte pp perm);
        dirs = λ p r. r;
        refs = λ p u. rw (hit_valid (entry m d va) pp p valid e);
        same_npage = refl;
      },
    )
      where
        same_hit : (p : ℕ) → hit (entry m d va) p ≡ hit (page_pte pp perm) p
        same_hit p =
            hit_valid (entry m d va) pp p valid e
            ∙ sym (hit_valid (page_pte pp perm) pp p (has_v-page_pte pp perm) x_ppn)

    -- Another page is mapped there: it is unmapped first.
    replaced :
        ppn (entry m d va) ≢ pp
        → Inserts ρ m d asid pp va perm
            (and_then (page_remove d asid va m) (λ _. insert_entry d asid pp va perm))
    replaced ne = let (m1, e, gone) = page_remove_lem asid v rd lt in rw e (after_remove m1 gone)
      where
        differs : (ppn (entry m d va) == pp) ≡ false
        differs = ==_ne (ppn (entry m d va)) pp ne

        no_hit : hit (entry m d va) pp ≡ 0
        no_hit = rw (valid, differs)

        freed_out : (b : Bool) → has pp (if b then ppn (entry m d va) ∷ m.free else m.free) ≡ false
        freed_out true = rw differs can.not_free
        freed_out false = can.not_free

        can' : (m1 : Machine) → IsRemoved ρ m d va m1 → IsMappable ρ m1 pp
        can' m1 gone = record {
          in_range = rw gone.same_npage can.in_range;
          role = can.role;
          not_free =
              ap (has pp) gone.freed ∙ rw valid (freed_out (m.pp_ref (ppn (entry m d va)) == 1));
          room = omega (arith, gone.refs pp, can.room);
        }

        clash : true ≡ false → ⊥
        clash x = cc

        replaced-IsInserted :
            {m1 m' : Machine} {ρ' : Roles}
            → IsRemoved ρ m d va m1
            → IsInserted ρ m1 d va pp perm ρ' m'
            → IsInserted ρ m d va pp perm ρ' m'
        replaced-IsInserted {m1} gone ins = record {
          inv = ins.inv;
          entries = λ d' va' r l.
              ins.entries d' va' r l ∙ elim (Bool-cases (same_page d va d' va')) [
                | inl h ↦ rw h
                | inr h ↦ rw h (gone.others d' va' r l h)
              ];
          dirs = ins.dirs;
          refs = λ p u. omega (
            arith,
            ins.refs p (inr (rw (gone.dirs d (pdx va) rd) there)),
            hit_invalid (entry m1 d va) p gone.unmapped,
            gone.refs p,
          );
          same_npage = ins.same_npage ∙ gone.same_npage;
        }

        after_remove :
            (m1 : Machine)
            → IsRemoved ρ m d va m1
            → Inserts ρ m d asid pp va perm (insert_entry d asid pp va perm m1)
        after_remove m1 gone =
            elim (insert_entry_lem d asid pp va perm gone.inv rd lt small (can' m1 gone)
              gone.unmapped) [
                | inl (a, b, c) ↦ absurd (clash (sym (rw (gone.dirs d (pdx va) rd) there) ∙ b))
                | inr (ρ', m', r, ins) ↦ inr (ρ', m', r, replaced-IsInserted gone ins)
              ]

  insert_mapped :
      has_v (entry m d va) ≡ true → Inserts ρ m d asid pp va perm (page_insert d asid pp va perm m)
  insert_mapped valid =
      rw (insert_runs, valid, over_runs valid)
        (elim (ℕ_discrete (ppn (entry m d va)) pp) [
          | yes e ↦ rw ((==_iff (ppn (entry m d va)) pp).1 e) (again valid e)
          | no ne ↦ rw (==_ne (ppn (entry m d va)) pp ne) (replaced valid ne)
        ])

  -- With `Inv`, a mappable page, a user address and flags below 4096, `page_insert` either fails for want of
  -- a page for the table, after a TLB flush only, or maps the page as `IsInserted` says: the entry of
  -- the address is the page's, every other entry stays, the counts follow, and `Inv` holds again.
  pub page_insert_lem : Inserts ρ m d asid pp va perm (page_insert d asid pp va perm m)
  page_insert_lem = elim (Bool-cases (has_v (entry m d va))) [
    | inl h ↦ insert_mapped h
    | inr h ↦ insert_unmapped h
  ]
