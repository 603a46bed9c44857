-- ===== src/Pmap/Table.antt =====
-- A new page table: the branch of `pgdir_walk` that creates one.
use os_lab5_challenge.Base.{
  ℕ, ◌<◌, ◌≡◌, sym, ◌∙◌, ◌≢◌, true, false, arith, ==_self, ==_ne, ==_iff, ap, has, update, subst,
  fun_ext,
}
use native.Mathlib.Decide.{ℕ_discrete}
use os_lab5_challenge.Pmap.{Machine, has_v, ppn, write, slot, store, incref, table_pde}
use os_lab5_challenge.Pmap.Inv.{
  Role, plain, table, dir, Roles, hit, hits_in, hits_in_cleared, count, count-ext,
  count-write_other, count-pos, Inv, user_pdx,
}
use os_lab5_challenge.Pmap.Slots.{write_ne, write_other}
use os_lab5_challenge.Pmap.Entries.{ppn-table_pde}

-- The roles once page `pp` is the table of entry `i` of directory `d`.
abbrev pub with_table : Roles → ℕ → ℕ → ℕ → Roles
with_table ρ pp d i = update ρ pp (table d i)

-- The machine once the cleared page `pp` is that table.
abbrev pub tabled : Machine → ℕ → ℕ → ℕ → Machine
tabled m pp d i = incref pp (store (slot d i) (table_pde pp) m)

module _ {ρ : Roles} {m : Machine} (v : Inv ρ m) (d i pp : ℕ) (rd : ρ d ≡ dir)
    (in_range : pp < m.npage) (role : ρ pp ≡ plain) (unref : m.pp_ref pp ≡ 0)
    (not_free : has pp m.free ≡ false) (cleared : (j : ℕ) → m.word pp j ≡ 0) where
  open v use {unused, bound, counted, owned, held, tables, targets, distinct}

  abbrev w : ℕ → ℕ → ℕ
  w = write m.word d i (table_pde pp)

  -- A page with another role is not the new table.
  pp_ne : (p : ℕ) (r : Role) → ρ p ≡ r → (r ≡ plain → ⊥) → pp ≢ p
  pp_ne p r h differs e = differs (sym h ∙ ap ρ (sym e) ∙ role)

  d_ne : (q : ℕ) (r : Role) → ρ q ≡ r → (r ≡ dir → ⊥) → d ≢ q
  d_ne q r h differs e = differs (sym h ∙ ap ρ (sym e) ∙ rd)

  -- No entry maps the new table.
  unmapped :
      (q d' i' j : ℕ)
      → ρ q ≡ table d' i'
      → j < 1024
      → has_v (m.word q j) ≡ true
      → pp ≢ ppn (m.word q j)
  unmapped q d' i' j rq lt hv e =
      let one : hit (m.word q j) pp ≡ 1 = rw (hv, (==_iff (ppn (m.word q j)) pp).1 (sym e)) in
      omega (
        arith,
        count-pos m.npage m.word pp ρ q d' i' j rq (owned q d' i' rq).0 lt one,
        counted pp in_range role,
        unref,
      )

  w_table : (q d' i' j : ℕ) → ρ q ≡ table d' i' → w q j ≡ m.word q j
  w_table q d' i' j rq = write_ne m.word d i (table_pde pp) q j (d_ne q _ rq (λ x. cc))

  w_new : (j : ℕ) → w pp j ≡ 0
  w_new j = write_ne m.word d i (table_pde pp) pp j (d_ne pp _ role (λ x. cc)) ∙ cleared j

  new_role : (p : ℕ) → pp ≢ p → with_table ρ pp d i p ≡ ρ p
  new_role p ne = rw (==_ne pp p ne)

  new_at : (p : ℕ) → pp ≡ p → with_table ρ pp d i p ≡ table d i
  new_at p e = rw ((==_iff pp p).1 e)

  not_new : (p : ℕ) (r : Role) → with_table ρ pp d i p ≡ r → (table d i ≡ r → ⊥) → pp ≢ p
  not_new p r h differs e = differs (sym (new_at p e) ∙ h)

  new_hits : (p : ℕ) → hits_in (table d i) (w pp) p ≡ 0
  new_hits p = ap (λ u. hits_in (table d i) u p) (fun_ext w_new) ∙ hits_in_cleared d i p

  tabled-counted : (p : ℕ) → count m.npage ρ m.word p ≡ count m.npage (with_table ρ pp d i) w p
  tabled-counted p =
      sym (
        count-write_other m.npage m.word p ρ d i (table_pde pp) (λ d' i' x. not_table (sym rd ∙ x)))
      ∙ count-ext m.npage w p ρ (with_table ρ pp d i) w (λ q _. elim (ℕ_discrete pp q) [
        | yes e ↦ rw (← e) (rw (role, ==_self pp) (sym (new_hits p)))
        | no ne ↦ rw (==_ne pp q ne)
      ])
    where
      not_table : {d' i' : ℕ} → dir ≡ table d' i' → ⊥
      not_table x = cc

  tabled-owned :
      (p d' i' : ℕ)
      → with_table ρ pp d i p ≡ table d' i'
      → (p < m.npage) × ((tabled m pp d i).pp_ref p ≡ 1)
  tabled-owned p d' i' r = elim (ℕ_discrete pp p) [
    | yes e ↦ rw (← e) (in_range, rw (==_self pp, unref))
    | no ne ↦ let (a, b) = owned p d' i' (sym (new_role p ne) ∙ r) in (a, rw (==_ne pp p ne) b)
  ]

  tabled-tables :
      (d' i' : ℕ)
      → with_table ρ pp d i d' ≡ dir
      → i' < user_pdx
      → has_v (w d' i') ≡ true
      → with_table ρ pp d i (ppn (w d' i')) ≡ table d' i'
  tabled-tables d' i' r lt hv = elim (ℕ_discrete d d') [
    | yes e ↦ elim (ℕ_discrete i i') [
      | yes f ↦ hit_new e f
      | no ne ↦ kept (write_other m.word d i (table_pde pp) d' i' (λ _. ne))
    ]
    | no ne ↦ kept (write_ne m.word d i (table_pde pp) d' i' ne)
  ]
    where
      rd' : ρ d' ≡ dir
      rd' = sym (new_role d' (not_new d' dir r (λ x. cc))) ∙ r

      hit_new : d ≡ d' → i ≡ i' → with_table ρ pp d i (ppn (w d' i')) ≡ table d' i'
      hit_new e f =
          let here : w d' i' ≡ table_pde pp = rw ((==_iff d d').1 e, (==_iff i i').1 f) in
          ap (λ x. with_table ρ pp d i (ppn x)) here
          ∙ new_at _ (sym (ppn-table_pde pp (omega arith)))
          ∙ cc

      kept : w d' i' ≡ m.word d' i' → with_table ρ pp d i (ppn (w d' i')) ≡ table d' i'
      kept same =
          let old = tables d' i' rd' lt (ap has_v (sym same) ∙ hv) in
          ap (λ x. with_table ρ pp d i (ppn x)) same ∙ new_role _ (pp_ne _ _ old (λ x. cc)) ∙ old

  tabled-targets :
      (q d' i' j : ℕ)
      → with_table ρ pp d i q ≡ table d' i'
      → j < 1024
      → has_v (w q j) ≡ true
      → (ppn (w q j) < m.npage) × (with_table ρ pp d i (ppn (w q j)) ≡ plain)
  tabled-targets q d' i' j r lt hv = elim (ℕ_discrete pp q) [
    | yes e ↦ absurd (empty (ap (λ x. has_v (w x j)) e ∙ hv))
    | no ne ↦
        let rq = sym (new_role q ne) ∙ r in
        let same = w_table q d' i' j rq in
        let old = ap has_v (sym same) ∙ hv in
        let (a, b) = targets q d' i' j rq lt old in
        subst (λ x. (ppn x < m.npage) × (with_table ρ pp d i (ppn x) ≡ plain)) (sym same)
          (a, new_role _ (unmapped q d' i' j rq lt old) ∙ b)
  ]
    where
      empty : has_v (w pp j) ≡ true → ⊥
      empty h = zero_entry (ap has_v (sym (w_new j)) ∙ h)
        where
          zero_entry : false ≡ true → ⊥
          zero_entry x = cc

  -- The invariant holds with the new table in place.
  pub tabled-Inv : Inv (with_table ρ pp d i) (tabled m pp d i)
  tabled-Inv = record {
    bound = bound;
    distinct = distinct;
    unused = λ p f.
        let ne = other_free p f in
        ((unused p f).0, new_role p ne ∙ (unused p f).1, rw (==_ne pp p ne) (unused p f).2);
    counted = λ p lt r.
        let ne = not_new p plain r (λ x. cc) in
        rw (==_ne pp p ne) (counted p lt (sym (new_role p ne) ∙ r) ∙ tabled-counted p);
    owned = tabled-owned;
    held = λ p r.
        let ne = not_new p dir r (λ x. cc) in
        let old = held p (sym (new_role p ne) ∙ r) in (old.0, rw (==_ne pp p ne) old.1);
    tables = tabled-tables;
    targets = tabled-targets;
  }
    where
      other_free : (p : ℕ) → has p m.free ≡ true → pp ≢ p
      other_free p f e = clash (sym (ap (λ x. has x m.free) e ∙ f) ∙ not_free)
        where
          clash : true ≡ false → ⊥
          clash h = cc
