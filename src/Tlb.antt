-- ===== src/Tlb.antt =====
-- TLB refill on a miss: kern/tlbex.c.
pub mod Refill
use os_lab5_challenge.Base.{
  ℕ, zero, suc, Bool, not, ◌&&◌, ◌||◌, Option, none, some, leb, ltb, M, panic, pure, ◌>>=◌, ◌>>◌,
  require, get, Result, ok, err,
}
use os_lab5_challenge.Pmap.{
  Mem, Slot, pte_addr, pte_d, utemp, utop, page_alloc, page_insert, page_lookup,
}

abbrev pub ustacktop : ℕ
ustacktop = 0x7f3fe000

abbrev pub upages : ℕ
upages = 0x7f800000

abbrev pub ulim : ℕ
ulim = 0x80000000

-- The addresses for which no page is allocated on a miss: below UTEMP, the page above the stack,
-- the two zones below UVPT, and the kernel's.
unfoldable pub is_refused : ℕ → Bool
is_refused va =
    ltb va utemp
    || ((leb ustacktop va && ltb va 0x7f3ff000)
        || ((leb utop va && ltb va upages)
            || ((leb upages va && ltb va 0x7fc00000) || leb ulim va)))

abbrev pub no_error : {A : Type 0} → Result A → Mem A
no_error (ok a) = pure a
no_error (err x) = λ _. panic

unfoldable pub passive_alloc : ℕ → ℕ → ℕ → Mem (Unit {0})
passive_alloc va pgdir asid = do
  require (not (is_refused va))
  p ← page_alloc >>= no_error
  page_insert pgdir asid p (pte_addr va) pte_d >>= no_error

abbrev pub refill_or : Mem (Option ℕ) → Option (ℕ × Slot) → Mem (Option ℕ)
refill_or again (some (p, s)) = do m ← get; pure (some (m.word s.page s.index))
refill_or again none = again

-- The loop of `_do_tlb_refill`, with a bound on its rounds; `none` is said when they run out.
unfoldable pub tlb_refill : ℕ → (va pgdir asid : ℕ) → Mem (Option ℕ)
tlb_refill zero va pgdir asid = pure none
tlb_refill (suc n) va pgdir asid =
    page_lookup pgdir va >>= refill_or (passive_alloc va pgdir asid >> tlb_refill n va pgdir asid)
