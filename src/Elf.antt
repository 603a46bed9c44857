-- ===== src/Elf.antt =====
-- The ELF loader of lib/elfloader.c. The callback `map_page` is an argument; a segment's bytes are named
-- by their address in the binary.
pub mod Pages
use os_lab5_challenge.Base.{
  ℕ, zero, suc, ◌+◌, ◌-◌, ◌*◌, ◌/◌, ◌%◌, ◌^◌, Bool, ◌&&◌, Option, none, some, ltb, leb, ◌==◌,
  if◌then◌else◌, M, pure, ◌>>=◌, Result, ok, err, bit_or,
}

-- The fields of `Elf32_Ehdr` that `elf_from` reads.
pub record Ehdr : Type 0 where
  pub e_ident : ℕ → ℕ
  pub e_type : ℕ
  pub e_entry : ℕ

-- The header, if it is one: long enough, with the magic number of ELF, and executable.
unfoldable pub elf_from : Ehdr → ℕ → Option Ehdr
elf_from ehdr size =
    if leb 52 size
      && ((ehdr.e_ident 0 == 0x7f)
          && ((ehdr.e_ident 1 == 69)
              && ((ehdr.e_ident 2 == 76) && ((ehdr.e_ident 3 == 70) && (ehdr.e_type == 2)))))
    then some ehdr
    else none

-- The fields of `Elf32_Phdr` that `elf_load_seg` reads.
pub record Phdr : Type 0 where
  pub p_vaddr : ℕ
  pub p_filesz : ℕ
  pub p_memsz : ℕ
  pub p_flags : ℕ

-- The arguments of a call of `map_page`, but for `data`.
pub record Call : Type 0 where
  pub va : ℕ
  pub offset : ℕ
  pub perm : ℕ
  pub src : Option ℕ
  pub len : ℕ

abbrev pub min : ℕ → ℕ → ℕ
min a b = if leb a b then a else b

-- PTE_V, with PTE_D for a writable segment: PF_W is bit 1.
abbrev pub perm_of : Phdr → ℕ
perm_of ph = if ph.p_flags / 2 % 2 == 1 then bit_or 512 1024 else 512

-- `p + i` on addresses.
abbrev pub plus : ℕ → ℕ → ℕ
plus a i = (a + i) % 2 ^ 32

module _ {S : Type 0} (map_page : Call → M S (Result (Unit {0}))) (ph : Phdr) (bin : ℕ) where
  -- An error of the callback ends the load.
  abbrev pub and_ok : M S (Result (Unit {0})) → Result (Unit {0}) → M S (Result (Unit {0}))
  and_ok rest (ok _) = rest
  and_ok rest (err x) = pure (err x)

  abbrev pub file_call : ℕ → Call
  file_call i = record {
    va = plus ph.p_vaddr i;
    offset = 0;
    perm = perm_of ph;
    src = some (plus bin i);
    len = min (ph.p_filesz - i) 4096;
  }

  -- `bin_size - i` wraps around below 0.
  abbrev pub zero_call : ℕ → Call
  zero_call i = record {
    va = plus ph.p_vaddr i;
    offset = 0;
    perm = perm_of ph;
    src = none;
    len = min ((ph.p_filesz + 2 ^ 32 - i) % 2 ^ 32) 4096;
  }

  -- `while (i < sgsize)`
  unfoldable pub load_zero : ℕ → ℕ → M S (Result (Unit {0}))
  load_zero zero i = pure (ok tt)
  load_zero (suc n) i =
      let rest = map_page (zero_call i) >>= and_ok (load_zero n (i + 4096)) in
      if ltb i ph.p_memsz then rest else pure (ok tt)

  -- `for (; i < bin_size; i += BY2PG)`, and what follows it.
  unfoldable pub load_file : ℕ → ℕ → ℕ → M S (Result (Unit {0}))
  unfolding load_zero
  load_file z zero i = load_zero z i
  load_file z (suc n) i =
      let rest = map_page (file_call i) >>= and_ok (load_file z n (i + 4096)) in
      if ltb i ph.p_filesz then rest else load_zero z i

  unfoldable pub elf_load_seg : M S (Result (Unit {0}))
  unfolding load_file load_zero
  elf_load_seg =
      let offset = ph.p_vaddr % 4096 in
      let first = min ph.p_filesz (4096 - offset) in
      let rest = load_file ph.p_memsz ph.p_filesz (if offset == 0 then 0 else first) in
      if offset == 0
      then rest
      else (map_page (record {
        va = ph.p_vaddr;
        offset = offset;
        perm = perm_of ph;
        src = some bin;
        len = first;
      })
          >>= and_ok rest)
