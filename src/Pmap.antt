-- ===== src/Pmap.antt =====
-- Physical pages and two-level page tables: kern/pmap.c, include/pmap.h and the address macros of
-- include/mmu.h. A `struct Page *` is the index of the page in `pages`. A kernel virtual address
-- is written as the page that it lies in and the word inside that page, so `page2kva(pp) + i` is
-- the pair of `pp` and `i`, and a page directory is named by the number of its page.
pub mod Alloc
pub mod Create
pub mod Entries
pub mod Inv
pub mod Insert
pub mod Remove
pub mod Slots
pub mod Store
pub mod Table
pub mod Walk
use os_lab5_challenge.Base.{
  ℕ, ◌+◌, ◌-◌, ◌*◌, ◌/◌, ◌%◌, ◌^◌, Bool, true, false, ◌&&◌, Option, none, some, List, [], ◌∷◌,
  bit_or, ltb, ◌==◌, if◌then◌else◌, update, M, panic, pure, ◌>>=◌, ◌>>◌, require, modify, get,
  Result, ok, err, no_mem,
}

abbrev pub by2pg : ℕ
by2pg = 4096

-- A `u_long` is a number below `2 ^ 32`.
abbrev pub ppn : ℕ → ℕ
ppn va = va / 4096

abbrev pub pdx : ℕ → ℕ
pdx va = va / 4194304 % 1024

abbrev pub ptx : ℕ → ℕ
ptx va = va / 4096 % 1024

abbrev pub pte_addr : ℕ → ℕ
pte_addr pte = pte / 4096 * 4096

abbrev pub pte_v : ℕ
pte_v = 512

abbrev pub pte_d : ℕ
pte_d = 1024

abbrev pub utemp : ℕ
utemp = 0x3fe000

abbrev pub utop : ℕ
utop = 0x7f400000

-- `pte & PTE_V`
abbrev pub has_v : ℕ → Bool
has_v pte = pte / 512 % 2 == 1

-- The kernel's memory: `pages[p].pp_ref`, `page_free_list` from its head on, the words of each
-- page, and the arguments of the calls of `tlb_out`, last one first.
pub record Machine : Type 0 where
  pub npage : ℕ
  pub pp_ref : ℕ → ℕ
  pub free : List ℕ
  pub word : ℕ → ℕ → ℕ
  pub tlb_out : List ℕ

-- The address of a page table entry.
pub record Slot : Type 0 where
  pub page : ℕ
  pub index : ℕ

abbrev pub slot : ℕ → ℕ → Slot
slot p i = record { page = p; index = i }

abbrev pub Mem : Type 0 → Type 0
Mem A = M Machine A

abbrev pub page2pa : ℕ → ℕ
page2pa pp = pp * 4096 % 2 ^ 32

-- `KADDR(pa)`, as the page of the address. The callers give page-aligned addresses.
abbrev pub kaddr : ℕ → Mem ℕ
kaddr pa = do m ← get; require (ltb (ppn pa) m.npage); pure (ppn pa)

abbrev pub page2kva : ℕ → Mem ℕ
page2kva pp = kaddr (page2pa pp)

abbrev pub pa2page : ℕ → Mem ℕ
pa2page pa = do m ← get; require (ltb (ppn pa) m.npage); pure (ppn pa)

abbrev pub write : (ℕ → ℕ → ℕ) → ℕ → ℕ → ℕ → ℕ → ℕ → ℕ
write w p i v q j = if (p == q) && (i == j) then v else w q j

abbrev pub store : Slot → ℕ → Machine → Machine
store s v m = record m { word = write m.word s.page s.index v }

-- `memset((void *)page2kva(pp), 0, BY2PG)`
abbrev pub clear_page : ℕ → Machine → Machine
clear_page p m = record m { word = λ q j. if p == q then 0 else m.word q j }

-- `pp_ref` is a `u_short`.
abbrev pub incref : ℕ → Machine → Machine
incref pp m = record m { pp_ref = update m.pp_ref pp ((m.pp_ref pp + 1) % 2 ^ 16) }

unfoldable pub alloc_first : List ℕ → Mem (Result ℕ)
alloc_first [] = pure (err no_mem)
alloc_first (pp ∷ rest) = do
  modify (λ m. record m { free = rest })
  kva ← page2kva pp
  modify (clear_page kva)
  pure (ok pp)

unfoldable pub page_alloc : Mem (Result ℕ)
unfolding alloc_first
page_alloc m = alloc_first m.free m

unfoldable pub page_free : ℕ → Mem (Unit {0})
page_free pp = do m ← get; require (m.pp_ref pp == 0); modify (λ m. record m { free = pp ∷ m.free })

-- `--pp->pp_ref` runs only at a positive count, so it does not wrap.
unfoldable pub page_decref : ℕ → Mem (Unit {0})
page_decref pp = do
  m ← get
  require (ltb 0 (m.pp_ref pp))
  modify (λ m. record m { pp_ref = update m.pp_ref pp (m.pp_ref pp - 1) })
  if m.pp_ref pp - 1 == 0 then page_free pp else pure tt

abbrev pub tlb_invalidate : ℕ → ℕ → Mem (Unit {0})
tlb_invalidate asid va =
    modify (λ m. record m { tlb_out = bit_or (pte_addr va) (asid * 64 % 2 ^ 32) ∷ m.tlb_out })

-- The end of `pgdir_walk`: the entry for `va` in the table that the directory entry `pde` names.
unfoldable pub table_entry : ℕ → ℕ → Mem (Result (Option Slot))
table_entry pde va = do kva ← kaddr (pte_addr pde); pure (ok (some (slot kva (ptx va))))

-- The new page table's directory entry, `page2pa(pp) | PTE_V | PTE_D`.
abbrev pub table_pde : ℕ → ℕ
table_pde pp = bit_or (bit_or (page2pa pp) pte_v) pte_d

unfoldable pub walk_create : ℕ → ℕ → Result ℕ → Mem (Result (Option Slot))
unfolding table_entry
walk_create pgdir va (err e) = pure (err no_mem)
walk_create pgdir va (ok pp) = do
  modify (store (slot pgdir (pdx va)) (table_pde pp))
  modify (incref pp)
  table_entry (table_pde pp) va

unfoldable pub pgdir_walk : ℕ → ℕ → Bool → Mem (Result (Option Slot))
unfolding walk_create table_entry
pgdir_walk pgdir va create = do
  m ← get
  if has_v (m.word pgdir (pdx va))
      then table_entry (m.word pgdir (pdx va)) va
      else if create
      then (do r ← page_alloc; walk_create pgdir va r)
      else pure (ok none)

-- What the callers find in `pte`. A walk that creates nothing reports no error.
abbrev pub found : Result (Option Slot) → Option Slot
found (ok s) = s
found (err e) = none

-- `pte && (*pte & PTE_V)`
abbrev pub valid_slot : Machine → Option Slot → Option Slot
valid_slot m none = none
valid_slot m (some s) = if has_v (m.word s.page s.index) then some s else none

unfoldable pub lookup_slot : Option Slot → Mem (Option (ℕ × Slot))
lookup_slot none = pure none
lookup_slot (some s) = do m ← get; pp ← pa2page (m.word s.page s.index); pure (some (pp, s))

unfoldable pub page_lookup : ℕ → ℕ → Mem (Option (ℕ × Slot))
unfolding lookup_slot
page_lookup pgdir va = do
  r ← pgdir_walk pgdir va false
  m ← get
  lookup_slot (valid_slot m (found r))

unfoldable pub remove_slot : ℕ → ℕ → Option (ℕ × Slot) → Mem (Unit {0})
remove_slot asid va none = pure tt
remove_slot asid va (some (pp, s)) = do page_decref pp; modify (store s 0); tlb_invalidate asid va

unfoldable pub page_remove : ℕ → ℕ → ℕ → Mem (Unit {0})
unfolding remove_slot
page_remove pgdir asid va = page_lookup pgdir va >>= remove_slot asid va

-- `page2pa(pp) | perm | PTE_V`
abbrev pub page_pte : ℕ → ℕ → ℕ
page_pte pp perm = bit_or (bit_or (page2pa pp) perm) pte_v

unfoldable pub set_entry : ℕ → ℕ → Result (Option Slot) → Mem (Result (Unit {0}))
set_entry pp perm (err e) = pure (err no_mem)
set_entry pp perm (ok none) = λ _. panic
set_entry pp perm (ok (some s)) = do
  modify (store s (page_pte pp perm))
  modify (incref pp)
  pure (ok tt)

-- `page_insert` from its second step on.
unfoldable pub insert_entry : ℕ → ℕ → ℕ → ℕ → ℕ → Mem (Result (Unit {0}))
unfolding set_entry
insert_entry pgdir asid pp va perm = do
  tlb_invalidate asid va
  r ← pgdir_walk pgdir va true
  set_entry pp perm r

unfoldable pub insert_over : ℕ → ℕ → ℕ → ℕ → ℕ → Option Slot → Mem (Result (Unit {0}))
unfolding insert_entry
insert_over pgdir asid pp va perm none = insert_entry pgdir asid pp va perm
insert_over pgdir asid pp va perm (some s) = do
  m ← get
  old ← pa2page (m.word s.page s.index)
  if old == pp
      then (do tlb_invalidate asid va; modify (store s (page_pte pp perm)); pure (ok tt))
      else (do page_remove pgdir asid va; insert_entry pgdir asid pp va perm)

unfoldable pub page_insert : ℕ → ℕ → ℕ → ℕ → ℕ → Mem (Result (Unit {0}))
unfolding insert_over
page_insert pgdir asid pp va perm = do
  r ← pgdir_walk pgdir va false
  m ← get
  insert_over pgdir asid pp va perm (valid_slot m (found r))

-- `~0` is `none`.
unfoldable pub va2pa_in : ℕ → Mem (Option ℕ)
va2pa_in pte = pure (if has_v pte then some (pte_addr pte) else none)

unfoldable pub va2pa : ℕ → ℕ → Mem (Option ℕ)
unfolding va2pa_in
va2pa pgdir va = do
  m ← get
  if has_v (m.word pgdir (pdx va))
      then (do p ← kaddr (pte_addr (m.word pgdir (pdx va))); va2pa_in (m.word p (ptx va)))
      else pure none
