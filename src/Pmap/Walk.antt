-- ===== src/Pmap/Walk.antt =====
-- `pgdir_walk` and `page_lookup` on user addresses, and the map from addresses to entries that a
-- page directory stands for.
use os_lab5_challenge.Base.{
  ℕ, ◌<◌, ◌≡◌, Bool, true, false, arith, Bool-cases, inl, inr, if◌then◌else◌, done, ok, lt→ltb,
  none, some,
}
use os_lab5_challenge.Pmap.{
  Machine, has_v, ppn, pdx, ptx, utop, pte_addr, table_entry, pgdir_walk, lookup_slot, page_lookup,
  Slot, slot,
}
use os_lab5_challenge.Pmap.Inv.{plain, dir, Roles, Inv, user_pdx}

-- The page table entry for `va`, and 0 where there is no table.
unfoldable pub entry_in : (ℕ → ℕ → ℕ) → ℕ → ℕ → ℕ
entry_in w d va = if has_v (w d (pdx va)) then w (ppn (w d (pdx va))) (ptx va) else 0

abbrev pub entry : Machine → ℕ → ℕ → ℕ
entry m = entry_in m.word

-- Where that entry stands.
abbrev pub entry_slot : Machine → ℕ → ℕ → Slot
entry_slot m d va = slot (ppn (m.word d (pdx va))) (ptx va)

pub ppn-pte_addr : (e : ℕ) → ppn (pte_addr e) ≡ ppn e
ppn-pte_addr e = omega arith

pub pdx-lt-user : (va : ℕ) → va < utop → pdx va < user_pdx
pdx-lt-user va h = omega arith

pub table_entry_lem :
    (m : Machine) (pde va : ℕ)
    → ppn pde < m.npage
    → table_entry pde va m ≡ done (ok (some (slot (ppn pde) (ptx va)))) m
unfolding table_entry
table_entry_lem m pde va h = rw (ppn-pte_addr pde, lt→ltb _ _ h)

module _ {ρ : Roles} {m : Machine} (v : Inv ρ m) {d va : ℕ} (rd : ρ d ≡ dir) (lt : va < utop) where
  pub table_in_range : has_v (m.word d (pdx va)) ≡ true → ppn (m.word d (pdx va)) < m.npage
  table_in_range h = (v.owned _ d (pdx va) (v.tables d (pdx va) rd (pdx-lt-user va lt) h)).0

  -- With a table there, a walk finds the slot and changes nothing, whether it may create or not.
  pub walk_table :
      (create : Bool)
      → has_v (m.word d (pdx va)) ≡ true
      → pgdir_walk d va create m ≡ done (ok (some (slot (ppn (m.word d (pdx va))) (ptx va)))) m
  unfolding pgdir_walk
  walk_table create h = rw h (table_entry_lem m _ va (table_in_range h))

  pub walk_missing : has_v (m.word d (pdx va)) ≡ false → pgdir_walk d va false m ≡ done (ok none) m
  unfolding pgdir_walk
  walk_missing h = rw h

  pub entry_table :
      has_v (m.word d (pdx va)) ≡ true → entry m d va ≡ m.word (ppn (m.word d (pdx va))) (ptx va)
  unfolding entry_in
  entry_table h = rw h

  pub entry_missing : has_v (m.word d (pdx va)) ≡ false → entry m d va ≡ 0
  unfolding entry_in
  entry_missing h = rw h

  -- A mapped user address has a table, and its page is a plain one in range.
  pub entry_target :
      has_v (entry m d va) ≡ true
      → (has_v (m.word d (pdx va)) ≡ true)
        × (ppn (entry m d va) < m.npage)
        × (ρ (ppn (entry m d va)) ≡ plain)
  entry_target h = elim (Bool-cases (has_v (m.word d (pdx va)))) [
    | inl t ↦
        let (a, b) =
          v.targets _ d (pdx va) (ptx va) (v.tables d (pdx va) rd (pdx-lt-user va lt) t)
            (omega arith) (rw (entry_table t) at h) in
        (t, rw (entry_table t) a, rw (entry_table t) b)
    | inr f ↦ absurd (no_entry (entry m d va) (entry_missing f) h)
  ]
    where
      no_entry : (e : ℕ) → e ≡ 0 → has_v e ≡ true → ⊥
      no_entry e z h = ground arith

  -- With `Inv` and a user address, `page_lookup` finds exactly the page that the entry maps, and changes
  -- nothing.
  pub page_lookup_lem :
      page_lookup d va m
      ≡ done (if has_v (entry m d va) then some (ppn (entry m d va), entry_slot m d va) else none) m
  unfolding page_lookup lookup_slot
  page_lookup_lem = elim (Bool-cases (has_v (m.word d (pdx va)))) [
    | inl t ↦ elim (Bool-cases (has_v (m.word (ppn (m.word d (pdx va))) (ptx va)))) [
      | inl h ↦
          rw (walk_table false t, entry_table t, h)
            (rw (lt→ltb _ _ (rw (entry_table t) at (entry_target (rw (entry_table t) h)).1)))
      | inr h ↦ rw (walk_table false t, entry_table t, h)
    ]
    | inr f ↦ rw (walk_missing f, entry_missing f)
  ]
