-- ===== src/Syscall/Memory.antt =====
-- `sys_mem_alloc` on every branch.
use os_lab5_challenge.Base.{
  ℕ, ◌<◌, ◌≡◌, ◌∙◌, true, false, arith, Bool-cases, inl, inr, ap, [], done, ok, err, no_mem, Result,
  some, ◌>>=◌, and_then, subst, inval, bad_env,
}
use os_lab5_challenge.Pmap.{Machine}
use os_lab5_challenge.Kernel.{Kernel, on_mem, in_kernel}
use os_lab5_challenge.Pmap.{page_alloc, has_v, pdx}
use os_lab5_challenge.Pmap.Inv.{Roles}
use os_lab5_challenge.Pmap.Alloc.{IsFresh, page_alloc_lem}
use os_lab5_challenge.Pmap.Store.{IsMappable, IsInserted, logged, logged-Inv}
use os_lab5_challenge.Pmap.Insert.{entryhi, page_insert_lem}
use os_lab5_challenge.Env.{envid2env}
use os_lab5_challenge.Env.Ids.{Answers, envid2env_lem}
use os_lab5_challenge.Syscall.{Outcome, success, fails, is_illegal_va, map_new, sys_mem_alloc}
use os_lab5_challenge.Syscall.Spaces.{
  HasSpaces, same_dirs-HasSpaces, Answers-live, Answers-bad_env, legal-bounds, with_mem, Ends,
}

-- How `sys_mem_alloc` ends. With no page left for the table, the new page is neither mapped nor
-- freed.
pub data Allocates (ρ : Roles) (k : Kernel) (c envid va perm : ℕ) : Outcome → Kernel → Type 0 where
  illegal : is_illegal_va va ≡ true → Allocates ρ k c envid va perm (fails inval) k
  refused :
      is_illegal_va va ≡ false
      → Answers k c envid true (err bad_env)
      → Allocates ρ k c envid va perm (fails bad_env) k
  no_page :
      (e : ℕ)
      → Answers k c envid true (ok e)
      → k.mem.free ≡ []
      → Allocates ρ k c envid va perm (fails no_mem) k
  no_table :
      (e pp : ℕ) (m : Machine)
      → Answers k c envid true (ok e)
      → IsFresh ρ k.mem pp m
      → m.free ≡ []
      → has_v (m.word (k.envs e).env_pgdir (pdx va)) ≡ false
      → Allocates ρ k c envid va perm
          (fails no_mem)
          (with_mem k (logged (entryhi (k.envs e).env_asid va) m))
  mapped :
      (e pp : ℕ) (m m' : Machine) (ρ' : Roles)
      → Answers k c envid true (ok e)
      → IsFresh ρ k.mem pp m
      → IsInserted ρ m (k.envs e).env_pgdir va pp perm ρ' m'
      → Allocates ρ k c envid va perm success (with_mem k m')

pub fresh-IsMappable :
    {ρ : Roles} {m m' : Machine} {pp : ℕ} → IsFresh ρ m pp m' → IsMappable ρ m' pp
fresh-IsMappable {pp = pp} f = record {
  in_range = rw f.same_npage f.in_range;
  role = f.role;
  not_free = f.not_free;
  room = rw f.unref (omega arith);
}

module _ (ρ : Roles) (k : Kernel) (h : HasSpaces ρ k) (c : ℕ) (cur : k.curenv ≡ some c)
    (envid va perm : ℕ) (small : perm < 4096) where
  insert_new :
      (e pp : ℕ) (m : Machine)
      → Answers k c envid true (ok e)
      → IsFresh ρ k.mem pp m
      → is_illegal_va va ≡ false
      → Ends (λ _. map_new e va perm (ok pp) (with_mem k m)) k (Allocates ρ k c envid va perm)
  unfolding map_new
  insert_new e pp m ans fresh legal =
      let v = k.envs e in
      let live = Answers-live ans (h.current_live c cur) in
      elim (page_insert_lem v.env_pgdir v.env_asid pp va perm fresh.inv (h.spaces e live)
        (legal-bounds va legal).1 small (fresh-IsMappable fresh)) [
          | inl (run, missing, empty) ↦ (
            fails no_mem,
            with_mem k (logged (entryhi v.env_asid va) m),
            rw run,
            no_table e pp m ans fresh empty missing,
            (ρ, same_dirs-HasSpaces h (logged-Inv _ fresh.inv) (λ p r. r)),
          )
          | inr (ρ', m', run, ins) ↦ (
            success,
            with_mem k m',
            rw run,
            mapped e pp m m' ρ' ans fresh ins,
            (ρ', same_dirs-HasSpaces h ins.inv ins.dirs),
          )
        ]

  alloc_for :
      (e : ℕ)
      → Answers k c envid true (ok e)
      → is_illegal_va va ≡ false
      → Ends (on_mem page_alloc >>= map_new e va perm) k (Allocates ρ k c envid va perm)
  unfolding map_new
  alloc_for e ans legal = elim (page_alloc_lem h.memory) [
    | inl (empty, run) ↦ (fails no_mem, k, rw run, no_page e ans empty, (ρ, h))
    | inr (pp, m, run, fresh) ↦
        let (o, k', ran, how, kept) = insert_new e pp m ans fresh legal in
        (o, k', ap (λ r. and_then (in_kernel k r) (map_new e va perm)) run ∙ ran, how, kept)
  ]

  -- With the envs' memory in order and flags below 4096, `sys_mem_alloc` always returns, in one of the
  -- ways that `Allocates` lists, and the memory is in order again.
  pub sys_mem_alloc_lem : Ends (sys_mem_alloc envid va perm) k (Allocates ρ k c envid va perm)
  unfolding sys_mem_alloc
  sys_mem_alloc_lem = elim (Bool-cases (is_illegal_va va)) [
    | inl bad ↦ (fails inval, k, rw bad, illegal bad, (ρ, h))
    | inr legal ↦ answered legal (envid2env_lem k c cur envid true)
  ]
    where
      answered :
          is_illegal_va va ≡ false
          → ((r : Result ℕ) × (envid2env envid true k ≡ done r k) × Answers k c envid true r)
          → Ends (sys_mem_alloc envid va perm) k (Allocates ρ k c envid va perm)
      answered legal (err x, run, ans) =
          let bad = Answers-bad_env ans in
          (
            fails bad_env,
            k,
            rw (legal, run, bad),
            refused legal (subst (λ y. Answers k c envid true (err y)) bad ans),
            (ρ, h),
          )
      answered legal (ok e, run, ans) =
          let (o, k', ran, how, kept) = alloc_for e ans legal in
          (o, k', rw (legal, run) ran, how, kept)
