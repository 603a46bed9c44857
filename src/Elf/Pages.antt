-- ===== src/Elf/Pages.antt =====
-- A segment that starts on a page is loaded page by page.
use os_lab5_challenge.Base.{
  ℕ, zero, suc, ◌+◌, ◌*◌, ◌/◌, ◌%◌, ◌-◌, ◌^◌, ◌==◌, some, none, Option, ltb, if◌then◌else◌, M, pure,
  ◌>>=◌, Result, ok, err,
}
use os_lab5_challenge.Elf.{Phdr, Call}

-- The number of pages of the segment.
abbrev pub pages_of : Phdr → ℕ
pages_of ph = (ph.p_memsz + 4095) / 4096

module _ {S : Type 0} (map_page : Call → M S (Result (Unit {0}))) (ph : Phdr) (bin : ℕ) where
  -- Page `k` of the segment: with the bytes of the file from `bin + k * 4096` on, at most 4096 of them and none
  -- past the file's end, if the file reaches into it, and new otherwise. Of a new page the callback does not use
  -- `len`: 0 where the file ends at the page and 4096 past that. PTE_V is 0x200; PF_W, bit 1 of the flags, gives PTE_D.
  unfoldable pub page_call : ℕ → Call
  page_call k = record {
    va = (ph.p_vaddr + k * 4096) % 2 ^ 32;
    offset = 0;
    perm = if ph.p_flags / 2 % 2 == 1 then 0x600 else 0x200;
    src = if ltb (k * 4096) ph.p_filesz then some ((bin + k * 4096) % 2 ^ 32) else none;
    len =
        if ltb (k * 4096) ph.p_filesz
        then (if ltb (ph.p_filesz - k * 4096) 4096 then ph.p_filesz - k * 4096 else 4096)
        else if k * 4096 == ph.p_filesz
        then 0
        else 4096;
  }

  -- The two calls of the loader, by what they do not have in common.
  abbrev with_source : ℕ → Option ℕ → ℕ → Call
  with_source k src len = record {
    va = (ph.p_vaddr + k * 4096) % 2 ^ 32;
    offset = 0;
    perm = if ph.p_flags / 2 % 2 == 1 then 0x600 else 0x200;
    src = src;
    len = len;
  }

  -- Pages `k`, `k + 1`, ..., `n` of them, up to the first error.
  unfoldable pub load_pages : ℕ → ℕ → M S (Result (Unit {0}))
  load_pages zero k = pure (ok tt)
  load_pages (suc n) k =
      map_page (page_call k) >>= λ r. elim r [ ok _ ↦ load_pages n (k + 1) | err x ↦ pure (err x) ]
