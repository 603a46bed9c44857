-- ===== src/Fd/Dup.antt =====
-- `dup`: a second descriptor of the same file.
use os_lab5_challenge.Base.{
  ℕ, ◌+◌, ◌*◌, ◌/◌, ◌^◌, ◌≤◌, ◌<◌, ◌≡◌, ◌≢◌, ◌⊎◌, inl, inr, refl, ap, ap₂, ◌∙◌, sym, arith, Bool,
  true, false, ltb, leb, ◌&&◌, Option, none, some, List, if◌then◌else◌, update, M, done, panic,
  and_then, pure, ◌>>=◌, ◌>>◌, Error, Result, ok, err,
}
use os_lab5_challenge.Fork.{Pte}
use os_lab5_challenge.Fd.{
  Fds, Dev, or_return, index2fd, fd2num, fd2data, fd_lookup, maxfd, fd_close, dev_lookup, close,
  copied, map_page, dup_data, dup_pages, undo_dup, dup,
}
use os_lab5_challenge.Fd.Copies.{
  over, twin, IsCopied, dup_data_lem, map_page_lem, placed, at_place, elsewhere,
}

-- The page of a descriptor and the first page of its data.
abbrev pub fd_page : ℕ → ℕ
fd_page i = 0x5fc00 + i

abbrev pub data_page : ℕ → ℕ
data_page i = 0x60000 + i * 1024

index2fd_lem : (i : ℕ) → i < 32 → index2fd i ≡ fd_page i * 4096
index2fd_lem i lt = omega arith

fd2data_lem : (i : ℕ) → i < 32 → fd2data (index2fd i) ≡ data_page i * 4096
unfolding fd2data fd2num
fd2data_lem i lt = omega arith

module _ {D : Type 0} where
  -- `fd_lookup` with what its tests and its table give.
  lookup_with :
      (Fds D → Result (Unit {0})) → ℕ → Bool → Bool → Option Pte → M (Fds D) (Result (ℕ × ℕ))
  lookup_with memory va bad has_table o s =
      if bad
      then done (err Error.inval) s
      else and_then
          (if has_table then done o s else elim (memory s) [
            | ok _ ↦ done none (record s { vpd = update s.vpd (va / 0x400000) true })
            | err e ↦ panic
          ])
          (λ r. elim r [ none ↦ pure (err Error.inval) | some p ↦ pure (ok (va, p.frame)) ])

  fd_lookup_lem :
      (memory : Fds D → Result (Unit {0})) (fdnum : ℕ) (s : Fds D) (o : Option Pte)
      → fdnum < 32
      → s.vpd 383 ≡ true
      → s.vpt (fd_page fdnum) ≡ o
      → fd_lookup memory fdnum s ≡ lookup_with memory (index2fd fdnum) false true o s
  unfolding fd_lookup lookup_with
  fd_lookup_lem memory fdnum s o lt table e =
      ap
        (λ b.
          lookup_with memory (index2fd fdnum) b (s.vpd (index2fd fdnum / 0x400000))
            (s.vpt (index2fd fdnum / 4096)) s)
        is_number
      ∙ ap₂ (λ b o. lookup_with memory (index2fd fdnum) false b o s)
          (ap s.vpd (omega arith) ∙ table) (ap s.vpt (omega arith) ∙ e)
    where
      is_number : (ltb fdnum (2 ^ 31) && leb maxfd fdnum) ≡ false
      is_number = ground (arith, lt)

  close_unused :
      (memory : Fds D → Result (Unit {0})) (devtab : List (Dev D)) (fdnum : ℕ) (s : Fds D)
      → fdnum < 32
      → s.vpd 383 ≡ true
      → s.vpt (fd_page fdnum) ≡ none
      → close memory devtab fdnum s ≡ done (err Error.inval) s
  unfolding close lookup_with
  close_unused memory devtab fdnum s lt table e =
      ap
        (λ r. and_then r (λ r. elim r [
          | ok f ↦ (λ s.
              or_return (dev_lookup devtab ((s.fds f.1).fd_dev_id))
                (λ d. d.dev_close f.1 >>= λ r. fd_close f.0 >> pure r) s)
          | err e ↦ pure (err e)
        ]))
        (fd_lookup_lem memory fdnum s none lt table e)

-- `t` is `s` with `new` as a second descriptor of `old`: the old one's frames, at the same places of the data.
pub record IsDup {D : Type 0} (old new : ℕ) (p : Pte) (s t : Fds D) : Type 0 where
  pub same_fd : t.vpt (fd_page new) ≡ some (twin p)
  pub same_data :
      (j : ℕ)
      → j < 1024
      → t.vpt (data_page new + j) ≡ over (s.vpt (data_page old + j)) (s.vpt (data_page new + j))
  pub others :
      (v : ℕ)
      → v ≢ fd_page new
      → (v < data_page new) ⊎ (data_page new + 1024 ≤ v)
      → t.vpt v ≡ s.vpt v
  pub same_fds : t.fds ≡ s.fds
  pub same_dev : t.dev ≡ s.dev

module _ {D : Type 0} (memory : Fds D → Result (Unit {0}))
    (has_memory : (s : Fds D) → memory s ≡ ok tt) (devtab : List (Dev D)) (old new : ℕ)
    (old_lt : old < 32) (new_lt : new < 32) (apart : old ≢ new) (p : Pte) (s : Fds D)
    (is_open : s.vpt (fd_page old) ≡ some p) where
  sides : (data_page old + 1024 ≤ data_page new) ⊎ (data_page new + 1024 ≤ data_page old)
  sides = ground (arith, apart)

  data_copied :
      (t : Fds D) × (dup_data memory (fd2data (index2fd old)) (fd2data (index2fd new)) 1024 0 s
        ≡ done (ok tt) t)
      × IsCopied (data_page old) (data_page new) 0 1024 s t
  data_copied =
      dup_data_lem memory has_memory (data_page old) (data_page new) sides (omega arith)
        (omega arith) 1024 0 (fd2data (index2fd old)) (fd2data (index2fd new)) s (omega arith)
        (fd2data_lem old old_lt) (fd2data_lem new new_lt)

  pages_copied :
      ((v : ℕ) → s.vpd (v / 1024) ≡ false → s.vpt v ≡ none)
      → (t : Fds D) × ((if s.vpd (fd2data (index2fd old) / 0x400000)
            then dup_data memory (fd2data (index2fd old)) (fd2data (index2fd new)) 1024 0 s
            else done (ok tt) s)
          ≡ done (ok tt) t)
        × IsCopied (data_page old) (data_page new) 0 1024 s t
  pages_copied tables = by_table (s.vpd (fd2data (index2fd old) / 0x400000)) refl
    where
      no_page :
          (j : ℕ)
          → j < 1024
          → s.vpd (fd2data (index2fd old) / 0x400000) ≡ false
          → s.vpt (data_page old + j) ≡ none
      no_page j lt e = tables (data_page old + j) (
          ap s.vpd (omega arith)
          ∙ ap (λ va. s.vpd (va / 0x400000)) (sym (fd2data_lem old old_lt))
          ∙ e)

      by_table :
          (b : Bool)
          → s.vpd (fd2data (index2fd old) / 0x400000) ≡ b
          → (t : Fds D) × ((if b
                then dup_data memory (fd2data (index2fd old)) (fd2data (index2fd new)) 1024 0 s
                else done (ok tt) s)
              ≡ done (ok tt) t)
            × IsCopied (data_page old) (data_page new) 0 1024 s t
      by_table true e = data_copied
      by_table false e = (
        s,
        refl,
        record {
          inside = λ j le lt.
              ap (λ o. over o (s.vpt (data_page new + j))) (sym (no_page j (omega arith) e));
          outside = λ v out. refl;
          same_fds = refl;
          same_dev = refl;
        },
      )

  placed-IsDup :
      (t : Fds D)
      → IsCopied (data_page old) (data_page new) 0 1024 s t
      → IsDup old new p s (placed (index2fd new) p t)
  placed-IsDup t c = record {
    same_fd = at_place t.vpt (index2fd new / 4096) (fd_page new) (some (copied p)) (omega arith);
    same_data =
        λ j lt. off (data_page new + j) (omega arith) ∙ c.inside j (omega arith) (omega arith);
    others = λ v ne out. off v ne ∙ c.outside v (around v out);
    same_fds = c.same_fds;
    same_dev = c.same_dev;
  }
    where
      off :
          (v : ℕ)
          → v ≢ fd_page new
          → update t.vpt (index2fd new / 4096) (some (copied p)) v ≡ t.vpt v
      off v ne = elsewhere t.vpt (index2fd new / 4096) v (some (copied p)) (λ e. ne (omega arith))

      around :
          (v : ℕ)
          → (v < data_page new) ⊎ (data_page new + 1024 ≤ v)
          → (v < data_page new + 0) ⊎ (data_page new + 0 + 1024 ≤ v)
      around v (inl h) = inl (omega arith)
      around v (inr h) = inr (omega arith)

  -- With the table of descriptors mapped, memory for page tables, and no page mapped outside of a table: `dup` of an
  -- open descriptor below 32 to another one below 32 that is not in use succeeds and returns that number. The new number
  -- then has the frame of the old one's descriptor and those of its pages of data, each writable and shared as there but
  -- without PTE_COW; a page of the new data stays where the old data has none; and no other page, no descriptor's content
  -- and nothing of the devices changes.
  pub dup_lem :
      s.vpd 383 ≡ true
      → s.vpt (fd_page new) ≡ none
      → ((v : ℕ) → s.vpd (v / 1024) ≡ false → s.vpt v ≡ none)
      → (t : Fds D) × (dup memory devtab old new s ≡ done (ok new) t) × IsDup old new p s t
  unfolding dup lookup_with
  dup_lem table unused tables =
      let (t, run, c) = pages_copied tables in
      let at_old = c.outside (fd_page old) (inl (omega arith)) ∙ is_open in
      (
        placed (index2fd new) p t,
        ap (λ r. and_then r (λ r. elim r [ ok f ↦ after_lookup f | err e ↦ pure (err e) ]))
              (fd_lookup_lem memory old s (some p) old_lt table is_open)
            ∙ ap (λ r. and_then r (λ _. and_undo (index2fd old)))
                (close_unused memory devtab new s new_lt table unused)
            ∙ ap
                (λ r.
                  and_then (and_then r (λ r. elim r [ ok _ ↦ map_fd | err e ↦ pure (err e) ])) undo)
                run
            ∙ ap
                (λ r.
                  and_then
                    (and_then r (λ r. elim r [ ok _ ↦ pure (ok new) | err e ↦ pure (err e) ])) undo)
                (map_page_lem memory has_memory (index2fd old) (index2fd new) p t
                  (ap t.vpt (omega arith) ∙ at_old) (omega arith) (omega arith)),
        placed-IsDup t c,
      )
    where
      undo : Result ℕ → M (Fds D) (Result ℕ)
      undo = undo_dup (index2fd new) (fd2data (index2fd new))

      map_fd : M (Fds D) (Result ℕ)
      map_fd = or_return (map_page memory (index2fd old) (index2fd new)) (λ _. pure (ok new))

      and_undo : ℕ → M (Fds D) (Result ℕ)
      and_undo oldfd = dup_pages memory oldfd (index2fd new) new >>= undo

      after_lookup : ℕ × ℕ → M (Fds D) (Result ℕ)
      after_lookup f = close memory devtab new >> and_undo f.0
