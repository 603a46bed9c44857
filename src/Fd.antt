-- ===== src/Fd.antt =====
-- user/lib/fd.c, on the page table of the env. A device is a record of its functions, as `struct Dev`, and
-- `dev` is what the devices keep, the memory of the program included. A file descriptor is a word of 32 bits, an int to the code.
pub mod Alloc
pub mod Copies
pub mod Dup
pub mod Reads
use os_lab5_challenge.Base.{
  ℕ, zero, suc, ◌+◌, ◌*◌, ◌-◌, ◌/◌, ◌%◌, ◌^◌, Bool, true, false, not, ltb, leb, ◌||◌, ◌&&◌, Option,
  none, some, List, [], ◌∷◌, ◌==◌, if◌then◌else◌, update, M, Run, done, panic, and_then, pure,
  ◌>>=◌, ◌>>◌, modify, get, Error, Result, ok, err,
}
use os_lab5_challenge.Fork.{Pte}
use os_lab5_challenge.Pmap.{utemp, utop}

-- `struct Fd`
pub record Fd : Type 0 where
  pub fd_dev_id : ℕ
  pub fd_offset : ℕ
  pub fd_omode : ℕ

-- `vpd` by the index of the directory and `vpt` by the page, with nothing outside of the tables; `fds` is the `struct Fd` in each frame.
pub record Fds (D : Type 0) : Type 0 where
  pub vpd : ℕ → Bool
  pub vpt : ℕ → Option Pte
  pub fds : ℕ → Fd
  pub dev : D

-- A function of a device takes the frame of the `struct Fd`, and a buffer, a length and an offset.
pub record Dev (D : Type 0) : Type 0 where
  pub dev_id : ℕ
  pub dev_read : ℕ → ℕ → ℕ → ℕ → M (Fds D) (Result ℕ)
  pub dev_write : ℕ → ℕ → ℕ → ℕ → M (Fds D) (Result ℕ)
  pub dev_close : ℕ → M (Fds D) (Result ℕ)

abbrev pub maxfd : ℕ
maxfd = 32

abbrev pub filebase : ℕ
filebase = 0x60000000

abbrev pub fdtable : ℕ
fdtable = 0x5fc00000

-- INDEX2FD and INDEX2DATA
abbrev pub index2fd : ℕ → ℕ
index2fd i = (fdtable + i * 4096) % 2 ^ 32

abbrev pub index2data : ℕ → ℕ
index2data i = (filebase + i * 0x400000) % 2 ^ 32

unfoldable pub fd2num : ℕ → ℕ
fd2num fd = (fd + 2 ^ 32 - fdtable) % 2 ^ 32 / 4096

unfoldable pub num2fd : ℕ → ℕ
num2fd fd = (fd * 4096 + fdtable) % 2 ^ 32

unfoldable pub fd2data : ℕ → ℕ
unfolding fd2num
fd2data fd = index2data (fd2num fd)

-- `if ((r = ...) < 0) return r`
abbrev pub or_return : {S A B : Type 0} → M S (Result A) → (A → M S (Result B)) → M S (Result B)
or_return m k s = and_then (m s) (λ r. elim r [ ok a ↦ k a | err e ↦ pure (err e) ])

-- `omode & O_ACCMODE`, of which the mask is 0x0903.
abbrev pub access : ℕ → ℕ
access omode = omode % 4 + omode / 0x100 % 2 * 0x100 + omode / 0x800 % 2 * 0x800

-- `pte & (PTE_D | PTE_LIBRARY)`
abbrev pub copied : Pte → Pte
copied p = record p { cow = false }

module _ {D : Type 0} where
  -- `vpt[va / BY2PG]`, which is read through the directory: where there is no table, the TLB refill of kern/tlbex.c
  -- makes an empty one, and panics if there is no page for it. `memory` is what `page_alloc` reports.
  abbrev pub vpt_at : (Fds D → Result (Unit {0})) → ℕ → M (Fds D) (Option Pte)
  vpt_at memory va s =
      if s.vpd (va / 0x400000) then done (s.vpt (va / 4096)) s else elim (memory s) [
        | ok _ ↦ done none (record s { vpd = update s.vpd (va / 0x400000) true })
        | err e ↦ panic
      ]

  -- `syscall_mem_unmap` on this env; a bad address is refused.
  abbrev pub unmap : ℕ → M (Fds D) (Unit {0})
  unmap va s =
      if ltb va utemp || leb utop va
      then done tt s
      else done tt (record s { vpt = update s.vpt (va / 4096) none })

  unfoldable pub fd_alloc_from : ℕ → ℕ → M (Fds D) (Result ℕ)
  fd_alloc_from zero fdno s = done (err Error.max_open) s
  fd_alloc_from (suc n) fdno s =
      let rest = fd_alloc_from n (fdno + 1) s in
      if not (s.vpd (index2fd fdno / 0x400000))
      then done (ok (index2fd fdno)) s
      else elim (s.vpt (index2fd fdno / 4096)) [
        | none ↦ done (ok (index2fd fdno)) s
        | some p ↦ rest
      ]

  unfoldable pub fd_alloc : M (Fds D) (Result ℕ)
  unfolding fd_alloc_from
  fd_alloc = fd_alloc_from 31 0

  unfoldable pub fd_close : ℕ → M (Fds D) (Unit {0})
  fd_close fd = unmap fd

  -- The test is on an int; what is found is the address and the frame.
  unfoldable pub fd_lookup : (Fds D → Result (Unit {0})) → ℕ → M (Fds D) (Result (ℕ × ℕ))
  fd_lookup memory fdnum s =
      if ltb fdnum (2 ^ 31) && leb maxfd fdnum
      then done (err Error.inval) s
      else and_then (vpt_at memory (index2fd fdnum) s) (λ r. elim r [
        | none ↦ pure (err Error.inval)
        | some p ↦ pure (ok (index2fd fdnum, p.frame))
      ])

  abbrev pub dev_lookup : List (Dev D) → ℕ → M (Fds D) (Result (Dev D))
  dev_lookup [] dev_id s = done (err Error.inval) s
  dev_lookup (d ∷ ds) dev_id s =
      if d.dev_id == dev_id then done (ok d) s else dev_lookup ds dev_id s

  abbrev pub add_offset : ℕ → Result ℕ → M (Fds D) (Result ℕ)
  add_offset frame (err e) = pure (err e)
  add_offset frame (ok r) = do
    modify (λ s. record s {
      fds =
          update s.fds frame
            (record (s.fds frame) { fd_offset = ((s.fds frame).fd_offset + r) % 2 ^ 32 });
    })
    pure (ok r)

  -- The rest of `read` and of `write`.
  abbrev pub read_with : ℕ → ℕ → ℕ → Dev D → M (Fds D) (Result ℕ)
  read_with frame buf n d s =
      if access ((s.fds frame).fd_omode) == 1
      then done (err Error.inval) s
      else (d.dev_read frame buf n ((s.fds frame).fd_offset) >>= add_offset frame) s

  abbrev pub write_with : ℕ → ℕ → ℕ → Dev D → M (Fds D) (Result ℕ)
  write_with frame buf n d s =
      if access ((s.fds frame).fd_omode) == 0
      then done (err Error.inval) s
      else (d.dev_write frame buf n ((s.fds frame).fd_offset) >>= add_offset frame) s

  -- The body of the loop of `readn` after its call of `read`.
  abbrev pub read_more :
      ℕ → (ℕ → M (Fds D) (Option (Result ℕ))) → Result ℕ → M (Fds D) (Option (Result ℕ))
  read_more tot rest (err e) = pure (some (err e))
  read_more tot rest (ok m) = if m == 0 then pure (some (ok tot)) else rest m

  -- `syscall_mem_map` between two pages of this env; `memory` is what it reports when it needs a page for a table.
  abbrev pub put_page : ℕ → Pte → Result (Unit {0}) → M (Fds D) (Result (Unit {0}))
  put_page dva p (err e) s = done (err e) s
  put_page dva p (ok _) s = done (ok tt) (record s {
    vpd = update s.vpd (dva / 0x400000) true;
    vpt = update s.vpt (dva / 4096) (some p);
  })

  module _ (memory : Fds D → Result (Unit {0})) where
    abbrev pub map_page : ℕ → ℕ → M (Fds D) (Result (Unit {0}))
    map_page va dva s =
        if ltb dva utemp || leb utop dva
        then done (err Error.inval) s
        else elim (s.vpt (va / 4096)) [
          | none ↦ done (err Error.inval) s
          | some p ↦ put_page dva (copied p) (if s.vpd (dva / 0x400000) then ok tt else memory s) s
        ]

    -- The loop of `dup` over the pages of the data, from page `i` on.
    unfoldable pub dup_data : ℕ → ℕ → ℕ → ℕ → M (Fds D) (Result (Unit {0}))
    dup_data ova nva zero i s = done (ok tt) s
    dup_data ova nva (suc n) i s = elim (s.vpt ((ova + i * 4096) / 4096)) [
      | none ↦ dup_data ova nva n (i + 1) s
      | some p ↦
          or_return (map_page (ova + i * 4096) (nva + i * 4096)) (λ _. dup_data ova nva n (i + 1)) s
    ]

  unfoldable pub unmap_data : ℕ → ℕ → ℕ → M (Fds D) (Unit {0})
  unmap_data nva zero i s = done tt s
  unmap_data nva (suc n) i s = (unmap (nva + i * 4096) >> unmap_data nva n (i + 1)) s

  abbrev pub undo_dup : ℕ → ℕ → Result ℕ → M (Fds D) (Result ℕ)
  undo_dup newfd nva (ok r) = pure (ok r)
  undo_dup newfd nva (err e) = unmap newfd >> unmap_data nva 1024 0 >> pure (err e)

  abbrev pub dup_pages : (Fds D → Result (Unit {0})) → ℕ → ℕ → ℕ → M (Fds D) (Result ℕ)
  dup_pages memory oldfd newfd newfdnum =
      or_return
        (λ s.
          if s.vpd (fd2data oldfd / 0x400000)
          then dup_data memory (fd2data oldfd) (fd2data newfd) 1024 0 s
          else done (ok tt) s)
        (λ _. or_return (map_page memory oldfd newfd) (λ _. pure (ok newfdnum)))

  module _ (memory : Fds D → Result (Unit {0})) (devtab : List (Dev D)) where
    -- `fd_lookup` and `dev_lookup`: the address and the frame, and the device.
    abbrev pub with_dev :
        {A : Type 0} → ℕ → (ℕ → ℕ → Dev D → M (Fds D) (Result A)) → M (Fds D) (Result A)
    with_dev fdnum k =
        or_return (fd_lookup memory fdnum)
          (λ f s. or_return (dev_lookup devtab ((s.fds f.1).fd_dev_id)) (k f.0 f.1) s)

    unfoldable pub close : ℕ → M (Fds D) (Result ℕ)
    unfolding fd_close
    close fdnum = with_dev fdnum (λ fd frame d. d.dev_close frame >>= λ r. fd_close fd >> pure r)

    unfoldable pub close_from : ℕ → ℕ → M (Fds D) (Unit {0})
    close_from zero i s = done tt s
    close_from (suc n) i s = (close i >> close_from n (i + 1)) s

    unfoldable pub close_all : M (Fds D) (Unit {0})
    close_all = close_from 32 0

    unfoldable pub read : ℕ → ℕ → ℕ → M (Fds D) (Result ℕ)
    read fdnum buf n = with_dev fdnum (λ fd frame. read_with frame buf n)

    unfoldable pub write : ℕ → ℕ → ℕ → M (Fds D) (Result ℕ)
    write fdnum buf n = with_dev fdnum (λ fd frame. write_with frame buf n)

    unfoldable pub seek : ℕ → ℕ → M (Fds D) (Result ℕ)
    seek fdnum offset = or_return (fd_lookup memory fdnum) (λ f. do
      modify (λ s. record s { fds = update s.fds f.1 (record (s.fds f.1) { fd_offset = offset }) })
      pure (ok 0))

    -- The loop of `readn` with `tot` bytes read; `none` when the fuel is spent.
    unfoldable pub readn_from : ℕ → ℕ → ℕ → ℕ → ℕ → M (Fds D) (Option (Result ℕ))
    readn_from zero fdnum buf n tot s = done (if ltb tot n then none else some (ok tot)) s
    readn_from (suc fuel) fdnum buf n tot s =
        if ltb tot n
        then and_then (read fdnum (buf + tot) (n - tot) s)
            (read_more tot (λ m. readn_from fuel fdnum buf n (tot + m)))
        else done (some (ok tot)) s

    unfoldable pub readn : ℕ → ℕ → ℕ → M (Fds D) (Option (Result ℕ))
    unfolding readn_from
    readn fdnum buf n = readn_from n fdnum buf n 0

    unfoldable pub dup : ℕ → ℕ → M (Fds D) (Result ℕ)
    unfolding close dup_data unmap_data
    dup oldfdnum newfdnum = or_return (fd_lookup memory oldfdnum) (λ f.
        close newfdnum
        >> (dup_pages memory f.0 (index2fd newfdnum) newfdnum
            >>= undo_dup (index2fd newfdnum) (fd2data (index2fd newfdnum))))
