-- ===== src/Syscall/Mapping.antt =====
-- `sys_mem_map` and `sys_mem_unmap` on every branch.
use os_lab5_challenge.Base.{
  ℕ, ◌<◌, ◌≡◌, refl, true, false, ◌||◌, Bool-cases, inl, inr, ◌⊎◌, [], done, ok, err, no_mem,
  Result, some, ◌>>=◌, subst, inval, bad_env, or-none,
}
use os_lab5_challenge.Pmap.{Machine}
use os_lab5_challenge.Kernel.{Kernel, on_mem}
use os_lab5_challenge.Pmap.{utop, page_lookup, has_v, ppn, pdx}
use os_lab5_challenge.Pmap.Inv.{Roles, dir}
use os_lab5_challenge.Pmap.Walk.{entry, page_lookup_lem}
use os_lab5_challenge.Pmap.Store.{IsInserted, logged, logged-Inv}
use os_lab5_challenge.Pmap.Insert.{entryhi, page_insert_lem}
use os_lab5_challenge.Pmap.Remove.{IsRemoved, page_remove_lem}
use os_lab5_challenge.Env.{envid2env}
use os_lab5_challenge.Env.Ids.{Answers, envid2env_lem}
use os_lab5_challenge.Syscall.{
  Outcome, success, fails, is_illegal_va, map_found, sys_mem_map, sys_mem_unmap,
}
use os_lab5_challenge.Syscall.Spaces.{
  HasSpaces, same_dirs-HasSpaces, Answers-live, Answers-bad_env, legal-bounds, with_mem, Ends,
  entry-IsMappable,
}

-- How `sys_mem_unmap` ends.
pub data Unmaps (ρ : Roles) (k : Kernel) (c envid va : ℕ) : Outcome → Kernel → Type 0 where
  illegal : is_illegal_va va ≡ true → Unmaps ρ k c envid va (fails inval) k
  refused :
      is_illegal_va va ≡ false
      → Answers k c envid true (err bad_env)
      → Unmaps ρ k c envid va (fails bad_env) k
  unmapped :
      (e : ℕ) (m : Machine)
      → Answers k c envid true (ok e)
      → IsRemoved ρ k.mem (k.envs e).env_pgdir va m
      → Unmaps ρ k c envid va success (with_mem k m)

-- How `sys_mem_map` ends.
pub data Maps (ρ : Roles) (k : Kernel) (c srcid srcva dstid dstva perm : ℕ)
    : Outcome → Kernel → Type 0 where
  illegal :
      is_illegal_va srcva || is_illegal_va dstva ≡ true
      → Maps ρ k c srcid srcva dstid dstva perm (fails inval) k
  refused :
      Answers k c srcid true (err bad_env) ⊎ Answers k c dstid true (err bad_env)
      → Maps ρ k c srcid srcva dstid dstva perm (fails bad_env) k
  no_source :
      (s : ℕ)
      → Answers k c srcid true (ok s)
      → has_v (entry k.mem (k.envs s).env_pgdir srcva) ≡ false
      → Maps ρ k c srcid srcva dstid dstva perm (fails inval) k
  no_table :
      (d : ℕ)
      → Answers k c dstid true (ok d)
      → k.mem.free ≡ []
      → has_v (k.mem.word (k.envs d).env_pgdir (pdx dstva)) ≡ false
      → Maps ρ k c srcid srcva dstid dstva perm
          (fails no_mem)
          (with_mem k (logged (entryhi (k.envs d).env_asid dstva) k.mem))
  shared :
      (s d : ℕ) (m : Machine) (ρ' : Roles)
      → Answers k c srcid true (ok s)
      → Answers k c dstid true (ok d)
      → has_v (entry k.mem (k.envs s).env_pgdir srcva) ≡ true
      → IsInserted ρ k.mem
          (k.envs d).env_pgdir
          dstva
          (ppn (entry k.mem (k.envs s).env_pgdir srcva))
          perm
          ρ'
          m
      → Maps ρ k c srcid srcva dstid dstva perm success (with_mem k m)

module _ (ρ : Roles) (k : Kernel) (h : HasSpaces ρ k) (c : ℕ) (cur : k.curenv ≡ some c) where
  pgdir-dir : {envid e : ℕ} → Answers k c envid true (ok e) → ρ (k.envs e).env_pgdir ≡ dir
  pgdir-dir ans = h.spaces _ (Answers-live ans (h.current_live c cur))

  module _ (envid va : ℕ) where
    -- With the envs' memory in order, `sys_mem_unmap` always returns, in one of the ways that `Unmaps`
    -- lists, and the memory is in order again.
    pub sys_mem_unmap_lem : Ends (sys_mem_unmap envid va) k (Unmaps ρ k c envid va)
    unfolding sys_mem_unmap
    sys_mem_unmap_lem = elim (Bool-cases (is_illegal_va va)) [
      | inl bad ↦ (fails inval, k, rw bad, illegal bad, (ρ, h))
      | inr legal ↦ answered legal (envid2env_lem k c cur envid true)
    ]
      where
        answered :
            is_illegal_va va ≡ false
            → ((r : Result ℕ) × (envid2env envid true k ≡ done r k) × Answers k c envid true r)
            → Ends (sys_mem_unmap envid va) k (Unmaps ρ k c envid va)
        answered legal (err x, run, ans) =
            let bad = Answers-bad_env ans in
            (
              fails bad_env,
              k,
              rw (legal, run, bad),
              refused legal (subst (λ y. Answers k c envid true (err y)) bad ans),
              (ρ, h),
            )
        answered legal (ok e, run, ans) =
            let v = k.envs e in
            let (m, ran, gone) =
              page_remove_lem v.env_asid h.memory (pgdir-dir ans) (legal-bounds va legal).1 in
            (
              success,
              with_mem k m,
              rw (legal, run, ran),
              unmapped e m ans gone,
              (ρ, same_dirs-HasSpaces h gone.inv (λ p r. r)),
            )

  module _ (room : (p : ℕ) → k.mem.pp_ref p < 65535) (srcid srcva dstid dstva perm : ℕ)
      (small : perm < 4096) where
    abbrev P : Outcome → Kernel → Type 0
    P = Maps ρ k c srcid srcva dstid dstva perm

    map_for :
        (s d : ℕ)
        → Answers k c srcid true (ok s)
        → Answers k c dstid true (ok d)
        → srcva < utop
        → dstva < utop
        → Ends (on_mem (page_lookup (k.envs s).env_pgdir srcva) >>= map_found d dstva perm) k P
    unfolding map_found
    map_for s d src dst lt lt' =
        elim (Bool-cases (has_v (entry k.mem (k.envs s).env_pgdir srcva))) [
          | inr out ↦ (
            fails inval,
            k,
            rw (page_lookup_lem h.memory (pgdir-dir src) lt, out),
            no_source s src out,
            (ρ, h),
          )
          | inl valid ↦
              elim (page_insert_lem (k.envs d).env_pgdir (k.envs d).env_asid _ dstva perm h.memory
                (pgdir-dir dst) lt' small
                (entry-IsMappable h.memory (pgdir-dir src) lt valid (room _))) [
                  | inl (run, missing, empty) ↦ (
                    fails no_mem,
                    with_mem k (logged (entryhi (k.envs d).env_asid dstva) k.mem),
                    rw (page_lookup_lem h.memory (pgdir-dir src) lt, valid, run),
                    no_table d dst empty missing,
                    (ρ, same_dirs-HasSpaces h (logged-Inv _ h.memory) (λ p r. r)),
                  )
                  | inr (ρ', m', run, ins) ↦ (
                    success,
                    with_mem k m',
                    rw (page_lookup_lem h.memory (pgdir-dir src) lt, valid, run),
                    shared s d m' ρ' src dst valid ins,
                    (ρ', same_dirs-HasSpaces h ins.inv ins.dirs),
                  )
                ]
        ]

    to_dst :
        (s : ℕ)
        → Answers k c srcid true (ok s)
        → is_illegal_va srcva ≡ false
        → is_illegal_va dstva ≡ false
        → ((r : Result ℕ) × (envid2env dstid true k ≡ done r k) × Answers k c dstid true r)
        → ((r : Result ℕ) × (envid2env srcid true k ≡ done r k) × (r ≡ ok s))
        → Ends (sys_mem_map srcid srcva dstid dstva perm) k P
    unfolding sys_mem_map
    to_dst s src legal legal' (err x, run, ans) (_, ran, same) =
        let bad = Answers-bad_env ans in
        (
          fails bad_env,
          k,
          rw (legal, legal', ran, same, run),
          refused (inr (subst (λ y. Answers k c dstid true (err y)) bad ans)),
          (ρ, h),
        )
    to_dst s src legal legal' (ok d, run, dst) (_, ran, same) =
        let (o, k', done_so, how, kept) =
          map_for s d src dst (legal-bounds srcva legal).1 (legal-bounds dstva legal').1 in
        (o, k', rw (legal, legal', ran, same, run) done_so, how, kept)

    -- With the envs' memory in order, room in the reference counts and flags below 4096, `sys_mem_map`
    -- always returns, in one of the ways that `Maps` lists, and the memory is in order again.
    pub sys_mem_map_lem : Ends (sys_mem_map srcid srcva dstid dstva perm) k P
    unfolding sys_mem_map
    sys_mem_map_lem = elim (Bool-cases (is_illegal_va srcva || is_illegal_va dstva)) [
      | inl bad ↦ (fails inval, k, rw bad, illegal bad, (ρ, h))
      | inr legal ↦ from_src legal (envid2env_lem k c cur srcid true)
    ]
      where
        from_src :
            is_illegal_va srcva || is_illegal_va dstva ≡ false
            → ((r : Result ℕ) × (envid2env srcid true k ≡ done r k) × Answers k c srcid true r)
            → Ends (sys_mem_map srcid srcva dstid dstva perm) k P
        from_src legal (err x, run, ans) =
            let bad = Answers-bad_env ans in
            (
              fails bad_env,
              k,
              rw (legal, run),
              refused (inl (subst (λ y. Answers k c srcid true (err y)) bad ans)),
              (ρ, h),
            )
        from_src legal (ok s, run, src) =
            let (l, l') = or-none (is_illegal_va srcva) (is_illegal_va dstva) legal in
            to_dst s src l l' (envid2env_lem k c cur dstid true) (ok s, run, refl)
