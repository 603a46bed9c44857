-- ===== src/Pmap/Create.antt =====
-- `pgdir_walk` with `create`, on every branch.
use os_lab5_challenge.Base.{
  ℕ, ◌^◌, ◌<◌, ◌≡◌, refl, sym, ◌∙◌, ◌≢◌, true, false, arith, ==_self, ==_ne, ==_iff, Bool-cases,
  inl, inr, ap, if◌then◌else◌, has, ◌⊎◌, [], done, ok, err, no_mem, some, has-cons_false,
}
use native.Mathlib.Decide.{ℕ_discrete}
use os_lab5_challenge.Pmap.{
  Machine, has_v, ppn, pdx, ptx, utop, write, pgdir_walk, page_alloc, walk_create, table_pde,
}
use os_lab5_challenge.Pmap.Inv.{plain, table, dir, Roles, Inv}
use os_lab5_challenge.Pmap.Walk.{
  entry_in, entry, entry_slot, pdx-lt-user, walk_table, table_entry_lem,
}
use os_lab5_challenge.Pmap.Slots.{write_ne, write_other}
use os_lab5_challenge.Pmap.Alloc.{IsFresh, page_alloc_lem}
use os_lab5_challenge.Pmap.Entries.{ppn-table_pde, has_v-table_pde}
use os_lab5_challenge.Pmap.Table.{with_table, tabled, tabled-Inv}

-- A page that making a table for the address does not take: one that is not free, or any page if
-- the table is there.
abbrev pub Untaken : Machine → ℕ → ℕ → ℕ → Type 0
Untaken m d va p = (has p m.free ≡ false) ⊎ (has_v (m.word d (pdx va)) ≡ true)

-- What `pgdir_walk` has done where it found or made a table: no entry and no count of a plain
-- page has changed, and a page that was neither free nor a table is none now.
pub record IsWalked (ρ : Roles) (m : Machine) (d va : ℕ) (ρ' : Roles) (m' : Machine) : Type 0 where
  pub inv : Inv ρ' m'
  pub table_there : has_v (m'.word d (pdx va)) ≡ true
  pub entries : (d' va' : ℕ) → ρ d' ≡ dir → va' < utop → entry m' d' va' ≡ entry m d' va'
  pub dirs : (p : ℕ) → ρ p ≡ dir → ρ' p ≡ dir
  pub kept : (p : ℕ) → ρ p ≡ plain → has p m.free ≡ false → (ρ' p ≡ plain) × (has p m'.free ≡ false)
  pub refs : (p : ℕ) → Untaken m d va p → m'.pp_ref p ≡ m.pp_ref p
  pub same_npage : m'.npage ≡ m.npage

-- Clearing a plain page changes no entry.
entry-clear :
    {ρ : Roles} {m : Machine} (v : Inv ρ m) (pp d va : ℕ) (w : ℕ → ℕ → ℕ)
    → ρ pp ≡ plain
    → ((q j : ℕ) → q ≢ pp → w q j ≡ m.word q j)
    → ρ d ≡ dir
    → va < utop
    → entry_in w d va ≡ entry m d va
unfolding entry_in
entry-clear {ρ} {m} v pp d va w role same rd lt =
    rw (same d (pdx va) (λ e. not_dir (sym role ∙ ap ρ (sym e) ∙ rd)))
      (elim (Bool-cases (has_v (m.word d (pdx va)))) [
        | inl h ↦ rw h (
            same _ (ptx va) (λ e.
              not_table (sym role ∙ ap ρ (sym e) ∙ v.tables d (pdx va) rd (pdx-lt-user va lt) h)))
        | inr h ↦ rw h
      ])
  where
    not_dir : plain ≡ dir → ⊥
    not_dir x = cc

    not_table : {d i : ℕ} → plain ≡ table d i → ⊥
    not_table x = cc

-- Nor does a new, empty table.
entry-tabled :
    {ρ : Roles} {m : Machine} (v : Inv ρ m) (d i pp d' va : ℕ)
    → ρ d ≡ dir
    → pp < m.npage
    → ρ pp ≡ plain
    → ((j : ℕ) → m.word pp j ≡ 0)
    → has_v (m.word d i) ≡ false
    → ρ d' ≡ dir
    → va < utop
    → entry_in (write m.word d i (table_pde pp)) d' va ≡ entry m d' va
unfolding entry_in
entry-tabled {ρ} {m} v d i pp d' va rd in_range role cleared missing rd' lt =
    elim (ℕ_discrete d d') [
      | yes e ↦ elim (ℕ_discrete i (pdx va)) [
        | yes f ↦ fresh e f
        | no ne ↦ other (write_other m.word d i (table_pde pp) d' (pdx va) (λ _. ne))
      ]
      | no ne ↦ other (write_ne m.word d i (table_pde pp) d' (pdx va) ne)
    ]
  where
    fresh : d ≡ d' → i ≡ pdx va → entry_in (write m.word d i (table_pde pp)) d' va ≡ entry m d' va
    fresh e f =
        let w = write m.word d i (table_pde pp) in
        let small : pp < 2 ^ 20 = omega (arith, v.bound) in
        let here : w d' (pdx va) ≡ table_pde pp = rw ((==_iff d d').1 e, (==_iff i (pdx va)).1 f) in
        let gone : has_v (m.word d' (pdx va)) ≡ false =
          ap (λ x. has_v (m.word x (pdx va))) (sym e)
          ∙ ap (λ x. has_v (m.word d x)) (sym f)
          ∙ missing in
        ap (λ x. if has_v x then w (ppn x) (ptx va) else 0) here
        ∙ rw (has_v-table_pde pp small, ppn-table_pde pp small)
            (write_ne m.word d i (table_pde pp) pp (ptx va)
                (λ x. not_dir (sym role ∙ ap ρ (sym x) ∙ rd))
              ∙ cleared (ptx va)
              ∙ rw gone)
      where
        not_dir : plain ≡ dir → ⊥
        not_dir x = cc

    other :
        write m.word d i (table_pde pp) d' (pdx va) ≡ m.word d' (pdx va)
        → entry_in (write m.word d i (table_pde pp)) d' va ≡ entry m d' va
    other same = rw same (elim (Bool-cases (has_v (m.word d' (pdx va)))) [
      | inl h ↦ rw h (
          write_ne m.word d i (table_pde pp) _ (ptx va)
            (λ e. not_table (sym rd ∙ ap ρ e ∙ v.tables d' (pdx va) rd' (pdx-lt-user va lt) h)))
      | inr h ↦ rw h
    ])
      where
        not_table : {a b : ℕ} → dir ≡ table a b → ⊥
        not_table x = cc

module _ {ρ : Roles} {m : Machine} (v : Inv ρ m) {d va : ℕ} (rd : ρ d ≡ dir) (lt : va < utop) where
  walk_there :
      has_v (m.word d (pdx va)) ≡ true
      → (pgdir_walk d va true m ≡ done (ok (some (entry_slot m d va))) m) × IsWalked ρ m d va ρ m
  walk_there h = (
    walk_table v rd lt true h,
    record {
      inv = v;
      table_there = h;
      entries = λ d' va' r l. refl;
      dirs = λ p r. r;
      kept = λ p r f. (r, f);
      refs = λ p u. refl;
      same_npage = refl;
    },
  )

  module _ (missing : has_v (m.word d (pdx va)) ≡ false) (pp : ℕ) (m' : Machine)
      (fresh : IsFresh ρ m pp m') where
    open fresh use {
      inv, in_range, role, unref, not_free, cleared, same_npage, same_word, same_ref, head,
    }

    in_range' : pp < m'.npage
    in_range' = rw same_npage in_range

    missing' : has_v (m'.word d (pdx va)) ≡ false
    missing' = rw (same_word d (pdx va) (λ e. not_dir (sym role ∙ ap ρ (sym e) ∙ rd))) missing
      where
        not_dir : plain ≡ dir → ⊥
        not_dir x = cc

    walk_made-IsWalked : IsWalked ρ m d va (with_table ρ pp d (pdx va)) (tabled m' pp d (pdx va))
    walk_made-IsWalked = record {
      inv = tabled-Inv inv d (pdx va) pp rd in_range' role unref not_free cleared;
      table_there = rw (==_self d, ==_self (pdx va)) (has_v-table_pde pp small);
      entries = λ d' va' r l.
          entry-tabled inv d (pdx va) pp d' va' rd in_range' role cleared missing' r l
          ∙ entry-clear v pp d' va' m'.word role same_word r l;
      dirs = λ p r. rw (==_ne pp p (λ e. not_dir (sym role ∙ ap ρ e ∙ r))) r;
      kept = λ p r f.
          let (ne, out) = has-cons_false p pp m'.free (ap (has p) (sym head) ∙ f) in
          (rw (==_ne pp p ne) r, out);
      refs = untouched;
      same_npage = same_npage;
    }
      where
        untouched : (p : ℕ) → Untaken m d va p → (tabled m' pp d (pdx va)).pp_ref p ≡ m.pp_ref p
        untouched p (inl f) =
            let (ne, out) = has-cons_false p pp m'.free (ap (has p) (sym head) ∙ f) in
            rw (==_ne pp p ne) (ap (λ g. g p) same_ref)
        untouched p (inr t) = absurd (clash (sym t ∙ missing))
          where
            clash : true ≡ false → ⊥
            clash x = cc

        small : pp < 2 ^ 20
        small = omega (arith, v.bound)

        not_dir : plain ≡ dir → ⊥
        not_dir x = cc

    walk_made :
        page_alloc m ≡ done (ok pp) m'
        → pgdir_walk d va true m
          ≡ done (ok (some (entry_slot (tabled m' pp d (pdx va)) d va))) (tabled m' pp d (pdx va))
    unfolding pgdir_walk walk_create
    walk_made e =
        let in_table : ppn (table_pde pp) < m'.npage =
          rw (ppn-table_pde pp (omega (arith, v.bound))) in_range' in
        rw (missing, e)
          (table_entry_lem (tabled m' pp d (pdx va)) (table_pde pp) va in_table
            ∙ rw (==_self d, ==_self (pdx va)))

  walk_full :
      has_v (m.word d (pdx va)) ≡ false
      → page_alloc m ≡ done (err no_mem) m
      → pgdir_walk d va true m ≡ done (err no_mem) m
  unfolding pgdir_walk walk_create
  walk_full missing e = rw (missing, e)

  -- With `Inv` and a user address, `pgdir_walk` with `create` fails, and changes nothing, exactly if there
  -- is no table for the address and no free page; otherwise it returns the entry's slot, and no entry,
  -- and no count of a page in use, has changed.
  pub walk_create_lem :
      ((has_v (m.word d (pdx va)) ≡ false)
        × (m.free ≡ [])
        × (pgdir_walk d va true m ≡ done (err no_mem) m))
      ⊎ ((ρ' : Roles) × (m' : Machine) × (pgdir_walk d va true m
            ≡ done (ok (some (entry_slot m' d va))) m')
          × IsWalked ρ m d va ρ' m')
  walk_create_lem = elim (Bool-cases (has_v (m.word d (pdx va)))) [
    | inl h ↦ let (a, b) = walk_there h in inr (ρ, m, a, b)
    | inr h ↦ elim (page_alloc_lem v) [
      | inl (e, f) ↦ inl (h, e, walk_full h f)
      | inr (pp, m', e, fresh) ↦ inr (
        with_table ρ pp d (pdx va),
        tabled m' pp d (pdx va),
        walk_made h pp m' fresh e,
        walk_made-IsWalked h pp m' fresh,
      )
    ]
  ]
