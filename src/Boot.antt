-- ===== src/Boot.antt =====
-- Physical memory at boot: `mips_detect_memory`, `alloc`, `mips_vm_init` and `page_init` of kern/pmap.c.
pub mod Pages
use os_lab5_challenge.Base.{
  ℕ, zero, suc, ◌+◌, ◌-◌, ◌*◌, ◌/◌, ◌%◌, ◌^◌, Bool, [], ◌∷◌, ltb, leb, not, ◌==◌, if◌then◌else◌,
  update, M, pure, ◌>>=◌, ◌>>◌, require, modify, get,
}
use os_lab5_challenge.Pmap.{Machine}

-- `freemem` and `memsize`, the machine, and the areas that `alloc` has cleared, last one first.
pub record Boot : Type 0 where
  pub freemem : ℕ
  pub memsize : ℕ
  pub machine : Machine
  pub cleared : ℕ → Bool

-- `ROUND(a, n)` for `n` a power of two.
abbrev pub round : ℕ → ℕ → ℕ
round a n = (a + n - 1) % 2 ^ 32 / n * n

-- The device register is an argument.
unfoldable pub mips_detect_memory : ℕ → M Boot (Unit {0})
mips_detect_memory size = do
  modify (λ b. record b { memsize = size })
  modify (λ b. record b { machine = record (b.machine) { npage = b.memsize / 4096 } })

-- `PADDR(kva)` panics below KSEG0.
abbrev pub paddr : ℕ → M Boot ℕ
paddr kva = do require (leb 0x80000000 kva); pure (kva - 0x80000000)

-- `end` is the address after the kernel's image.
unfoldable pub alloc : (end n align : ℕ) → Bool → M Boot ℕ
alloc end n align clear = do
  modify (λ b. if b.freemem == 0 then record b { freemem = end } else b)
  modify (λ b. record b { freemem = round b.freemem align })
  b ← get
  modify (λ b'. record b' { freemem = (b'.freemem + n) % 2 ^ 32 })
  b1 ← get
  pa ← paddr b1.freemem
  require (ltb pa b1.memsize)
  if clear
      then modify (λ b'. record b' {
        cleared = λ a.
            if leb b.freemem a
            then (if ltb a (b.freemem + n) then Bool.true else b'.cleared a)
            else b'.cleared a;
      })
      else pure tt
  pure b.freemem

-- A `struct Page` takes 12 bytes.
unfoldable pub mips_vm_init : ℕ → M Boot ℕ
unfolding alloc
mips_vm_init end = do b ← get; alloc end (b.machine.npage * 12) 4096 Bool.true

-- `page2kva(&pages[i])`, as an address.
abbrev pub page_kva : ℕ → ℕ
page_kva i = (i * 4096 % 2 ^ 32 + 0x80000000) % 2 ^ 32

-- The loop of `page_init` from page `i` on.
unfoldable pub init_pages : ℕ → ℕ → ℕ → Machine → Machine
init_pages zero i freemem m = m
init_pages (suc n) i freemem m = init_pages n (i + 1) freemem (
    if ltb (page_kva i) freemem
    then record m { pp_ref = update m.pp_ref i 1 }
    else record m { pp_ref = update m.pp_ref i 0; free = i ∷ m.free })

unfoldable pub page_init : M Boot (Unit {0})
unfolding init_pages
page_init = do
  modify (λ b. record b { machine = record (b.machine) { free = [] } })
  modify (λ b. record b { freemem = round b.freemem 4096 })
  modify (λ b. record b { machine = init_pages b.machine.npage 0 b.freemem b.machine })
