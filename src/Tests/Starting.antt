-- ===== src/Tests/Starting.antt =====
-- The boot allocator, the ELF loader and the dispatch at work.
use os_lab5_challenge.Base.{
  ℕ, ◌<◌, ◌≡◌, refl, arith, false, not, ◌&&◌, ltb, if◌then◌else◌, has, List, [], ◌∷◌, M, done,
  Result, ok,
}
use os_lab5_challenge.Pmap.{Machine}
use os_lab5_challenge.Pmap.Inv.{Inv}
use os_lab5_challenge.Kernel.{Kernel}
use os_lab5_challenge.Boot.{Boot, round, page_init}
use os_lab5_challenge.Boot.Pages.{boot_roles, used, page_init_lem}
use os_lab5_challenge.Elf.{Call, Phdr}
use os_lab5_challenge.Syscall.Spaces.{HasSpaces}
use os_lab5_challenge.Trap.{Outside}
use os_lab5_challenge.Trap.Dispatch.{Handled, map_call, do_syscall-MemoryCall}
use os_lab5_challenge.Tests.Machine.{machine, mapped_lem, va_a, va_b}
use os_lab5_challenge.Tests.World.{world, frame, world-HasSpaces, world_room}

-- 64 KiB of memory, of which the kernel takes two pages and a bit.
abbrev boot : Boot
boot = record { freemem = 0x80002010; memsize = 65536; machine = machine; cleared = λ _. false }

page_init_example :
    (m : Machine) × (page_init boot
      ≡ done tt (record boot { freemem = round 0x80002010 4096; machine = m }))
    × Inv (boot_roles (round 0x80002010 4096)) m
    × (m.npage ≡ 16)
    × ((p : ℕ) → has p m.free ≡ (ltb p m.npage && not (used (round 0x80002010 4096) p)))
    × ((p : ℕ) → p < m.npage → m.pp_ref p ≡ (if used (round 0x80002010 4096) p then 1 else 0))
page_init_example = page_init_lem boot (omega arith)

-- A callback that notes its calls.
abbrev note : Call → M (List Call) (Result (Unit {0}))
note c l = done (ok tt) (c ∷ l)

abbrev segment : Phdr
segment = record { p_vaddr = 0x400000; p_filesz = 5000; p_memsz = 9000; p_flags = 6 }

-- Env 0 shares its page at `va_a` with its child.
abbrev caller : Kernel
caller = record world {
  kstack_tf = record frame {
    regs = λ r. if ltb r 5 then 7 else if ltb r 6 then 0 else if ltb r 7 then va_a else 6146;
  };
}

abbrev outside : Outside
outside = record {
  word = λ a. if ltb a 6163 then va_b else 1024;
  bytes = λ _ _. [];
  frame = λ _. frame;
  key = 0;
  left_over = 0;
}

caller-HasSpaces : HasSpaces mapped_lem.0 caller
caller-HasSpaces = record {
  memory = world-HasSpaces.memory;
  spaces = world-HasSpaces.spaces;
  current_live = world-HasSpaces.current_live;
}

do_syscall_example : Handled mapped_lem.0 outside caller 0
do_syscall_example =
    do_syscall-MemoryCall mapped_lem.0 outside caller 0 caller-HasSpaces refl world_room
      (map_call refl (omega arith))
