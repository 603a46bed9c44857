-- ===== src/Syscall/Send.antt =====
-- `sys_ipc_try_send` on every branch.
use os_lab5_challenge.Base.{
  ℕ, ◌<◌, ◌≡◌, refl, ◌∙◌, ◌≢◌, true, false, ◌&&◌, ==_self, ==_ne, ==_iff, Bool-cases, inl, inr,
  ◌==◌, List, [], ◌∷◌, ◌++◌, done, ok, err, Result, some, ◌>>=◌, subst, not, inval, bad_env,
  ipc_not_recv, update, bit_or,
}
use native.Mathlib.Decide.{ℕ_discrete}
use os_lab5_challenge.Tailq
use os_lab5_challenge.Tailq.{Tailq, first_of, next_of}
use os_lab5_challenge.Pmap.{Machine}
use os_lab5_challenge.Kernel.{Env, Kernel, runnable, on_mem, is_free}
use os_lab5_challenge.Pmap.{utop, page_lookup, has_v, ppn}
use os_lab5_challenge.Pmap.Inv.{Roles}
use os_lab5_challenge.Pmap.Walk.{entry, page_lookup_lem}
use os_lab5_challenge.Pmap.Store.{IsInserted, logged, logged-Inv}
use os_lab5_challenge.Pmap.Insert.{entryhi, page_insert_lem}
use os_lab5_challenge.Env.{envid2env}
use os_lab5_challenge.Env.Ids.{Answers, envid2env_lem}
use os_lab5_challenge.Sched.Inv.{IsQueued, set_env-field}
use os_lab5_challenge.Syscall.{
  Outcome, success, fails, is_illegal_va, delivered, send_page, deliver, sys_ipc_try_send,
}
use os_lab5_challenge.Syscall.Spaces.{
  HasSpaces, same_dirs-HasSpaces, Answers-live, Answers-bad_env, legal-bounds, with_mem, Ends,
  entry-IsMappable, as_current_lem,
}
use os_lab5_challenge.Syscall.Waking.{enters-IsQueued}
use os_lab5_challenge.Syscall.Ipc.{HasReceivers}

-- The kernel once the value has been handed to env `e`: it has the value, the sender's id and the flags with
-- PTE_V, waits no more, and is runnable at the tail of the queue.
abbrev pub handed : Kernel → (c e value perm : ℕ) → Kernel
handed k c e value perm = record k {
  envs = update k.envs e (record (k.envs e) {
    env_ipc_value = value;
    env_ipc_from = (k.envs c).env_id;
    env_ipc_perm = bit_or 0x200 perm;
    env_ipc_recving = 0;
    env_status = runnable;
  });
  env_sched_list = Tailq.insert_tail k.env_sched_list e;
}

-- How `sys_ipc_try_send` ends, from a queue in order `l`. Once the value is handed over it is never
-- taken back: where the sender has no page at `srcva` the call reports an error all the same, and
-- where the page cannot be mapped it reports success.
pub data Sends (ρ : Roles) (k : Kernel) (l : List ℕ) (c envid value srcva perm : ℕ)
    : Outcome → Kernel → Type 0 where
  illegal :
      (not (srcva == 0) && is_illegal_va srcva) ≡ true
      → Sends ρ k l c envid value srcva perm (fails inval) k
  unknown :
      Answers k c envid false (err bad_env) → Sends ρ k l c envid value srcva perm (fails bad_env) k
  not_receiving :
      (e : ℕ)
      → Answers k c envid false (ok e)
      → (k.envs e).env_ipc_recving ≡ 0
      → Sends ρ k l c envid value srcva perm (fails ipc_not_recv) k
  value_only :
      (e : ℕ)
      → Answers k c envid false (ok e)
      → srcva ≡ 0
      → IsQueued (handed k c e value perm) (l ++ (e ∷ []))
      → Sends ρ k l c envid value srcva perm success (handed k c e value perm)
  no_source :
      (e : ℕ)
      → Answers k c envid false (ok e)
      → srcva ≢ 0
      → has_v (entry k.mem (k.envs c).env_pgdir srcva) ≡ false
      → IsQueued (handed k c e value perm) (l ++ (e ∷ []))
      → Sends ρ k l c envid value srcva perm (fails inval) (handed k c e value perm)
  page_lost :
      (e : ℕ) (k' : Kernel)
      → Answers k c envid false (ok e)
      → srcva ≢ 0
      → has_v (entry k.mem (k.envs c).env_pgdir srcva) ≡ true
      → k.mem.free ≡ []
      → k'
        ≡ with_mem
            (handed k c e value perm)
            (logged (entryhi (k.envs e).env_asid (k.envs e).env_ipc_dstva) k.mem)
      → IsQueued k' (l ++ (e ∷ []))
      → Sends ρ k l c envid value srcva perm success k'
  with_page :
      (e : ℕ) (m : Machine) (ρ' : Roles)
      → Answers k c envid false (ok e)
      → srcva ≢ 0
      → has_v (entry k.mem (k.envs c).env_pgdir srcva) ≡ true
      → IsInserted ρ k.mem
          (k.envs e).env_pgdir
          (k.envs e).env_ipc_dstva
          (ppn (entry k.mem (k.envs c).env_pgdir srcva))
          perm
          ρ'
          m
      → IsQueued (with_mem (handed k c e value perm) m) (l ++ (e ∷ []))
      → Sends ρ k l c envid value srcva perm success (with_mem (handed k c e value perm) m)

mem-IsQueued : {k : Kernel} {l : List ℕ} (m : Machine) → IsQueued k l → IsQueued (with_mem k m) l
mem-IsQueued m q = record { queue = q.queue; exact = q.exact }

module _ (ρ : Roles) (k : Kernel) (l : List ℕ) (h : HasSpaces ρ k) (q : IsQueued k l)
    (w : HasReceivers k l) (room : (p : ℕ) → k.mem.pp_ref p < 65535) (c : ℕ)
    (cur : k.curenv ≡ some c) (envid value srcva perm : ℕ) (small : perm < 4096) where
  c_live : is_free (k.envs c).env_status ≡ false
  c_live = h.current_live c cur

  abbrev P : Outcome → Kernel → Type 0
  P = Sends ρ k l c envid value srcva perm

  module _ (e : ℕ) (ans : Answers k c envid false (ok e))
      (recv : (k.envs e).env_ipc_recving ≢ 0) where
    abbrev k1 : Kernel
    k1 = handed k c e value perm

    queued : IsQueued k1 (l ++ (e ∷ []))
    queued =
        enters-IsQueued e (delivered value (k.envs c).env_id perm (k.envs e)) q (w.waits e recv)
          refl

    field1 :
        {A : Type 0} (f : Env → A) (x : ℕ)
        → f (delivered value (k.envs c).env_id perm (k.envs e)) ≡ f (k.envs e)
        → f (k1.envs x) ≡ f (k.envs x)
    field1 f x s = set_env-field f e (delivered value (k.envs c).env_id perm (k.envs e)) k x s

    handed-HasSpaces : HasSpaces ρ k1
    handed-HasSpaces = record {
      memory = h.memory;
      spaces = λ x live. field1 (λ v. ρ v.env_pgdir) x refl ∙ h.spaces x (was_live x live);
      current_live = λ x s. elim (ℕ_discrete e x) [
        | yes same ↦ rw ((==_iff e x).1 same)
        | no ne ↦ rw (==_ne e x ne) (h.current_live x s)
      ];
    }
      where
        was_live :
            (x : ℕ) → is_free (k1.envs x).env_status ≡ false → is_free (k.envs x).env_status ≡ false
        was_live x live = elim (ℕ_discrete e x) [
          | yes same ↦
              subst (λ y. is_free (k.envs y).env_status ≡ false) same (Answers-live ans c_live)
          | no ne ↦ rw (==_ne e x ne) at live
        ]

    -- The page part, with the directories and addresses as `send_page` reads them.
    page_part :
        srcva ≢ 0
        → srcva < utop
        → Ends (λ _. (on_mem (page_lookup (k1.envs c).env_pgdir srcva) >>= send_page e perm) k1) k P
    unfolding send_page
    page_part ne lt =
        let found = page_lookup_lem h.memory (h.spaces c c_live) lt in
        let v = k.envs e in
        elim (Bool-cases (has_v (entry k.mem (k.envs c).env_pgdir srcva))) [
          | inr out ↦ (
            fails inval,
            k1,
            rw (field1 (λ v. v.env_pgdir) c refl, found, out),
            no_source e ans ne out queued,
            (ρ, handed-HasSpaces),
          )
          | inl valid ↦
              elim (page_insert_lem v.env_pgdir v.env_asid _ v.env_ipc_dstva perm h.memory
                (h.spaces e (Answers-live ans c_live)) (w.place e recv) small
                (entry-IsMappable h.memory (h.spaces c c_live) lt valid (room _))) [
                  | inl (run, missing, empty) ↦ (
                    success,
                    with_mem k1 (logged (entryhi v.env_asid v.env_ipc_dstva) k.mem),
                    rw (field1 (λ v. v.env_pgdir) c refl, found, valid, ==_self e, run),
                    page_lost e _ ans ne valid empty refl (mem-IsQueued _ queued),
                    (ρ, same_dirs-HasSpaces handed-HasSpaces (logged-Inv _ h.memory) (λ p r. r)),
                  )
                  | inr (ρ', m', run, ins) ↦ (
                    success,
                    with_mem k1 m',
                    rw (field1 (λ v. v.env_pgdir) c refl, found, valid, ==_self e, run),
                    with_page e m' ρ' ans ne valid ins (mem-IsQueued _ queued),
                    (ρ', same_dirs-HasSpaces handed-HasSpaces ins.inv ins.dirs),
                  )
                ]
        ]

    deliver_lem :
        (not (srcva == 0) && is_illegal_va srcva) ≡ false → Ends (deliver value srcva perm e) k P
    unfolding deliver
    deliver_lem legal = elim (ℕ_discrete srcva 0) [
      | yes z ↦ (
        success,
        k1,
        as_current_lem _ cur ∙ rw ((==_iff srcva 0).1 z),
        value_only e ans z queued,
        (ρ, handed-HasSpaces),
      )
      | no ne ↦
          let (o, k', run, how, kept) =
            page_part ne (legal-bounds srcva (rw (==_ne srcva 0 ne) at legal)).1 in
          (o, k', as_current_lem _ cur ∙ rw (==_ne srcva 0 ne) run, how, kept)
    ]

  -- With the envs' memory and queue in order, receivers off the queue with an address below UTOP, room
  -- in the reference counts and flags below 4096, `sys_ipc_try_send` always returns, in one of the
  -- ways that `Sends` lists: a receiver gets the value, the sender's id and the flags, no longer waits
  -- and enters the queue at its tail; the memory is in order again.
  pub sys_ipc_try_send_lem : Ends (sys_ipc_try_send envid value srcva perm) k P
  unfolding sys_ipc_try_send
  sys_ipc_try_send_lem = elim (Bool-cases (not (srcva == 0) && is_illegal_va srcva)) [
    | inl bad ↦ (fails inval, k, rw bad, illegal bad, (ρ, h))
    | inr legal ↦ answered legal (envid2env_lem k c cur envid false)
  ]
    where
      answered :
          (not (srcva == 0) && is_illegal_va srcva) ≡ false
          → ((r : Result ℕ) × (envid2env envid false k ≡ done r k) × Answers k c envid false r)
          → Ends (sys_ipc_try_send envid value srcva perm) k P
      answered legal (err x, run, ans) =
          let bad = Answers-bad_env ans in
          (
            fails bad_env,
            k,
            rw (legal, run, bad),
            unknown (subst (λ y. Answers k c envid false (err y)) bad ans),
            (ρ, h),
          )
      answered legal (ok e, run, ans) = elim (ℕ_discrete (k.envs e).env_ipc_recving 0) [
        | yes z ↦ (
          fails ipc_not_recv,
          k,
          rw (legal, run, (==_iff (k.envs e).env_ipc_recving 0).1 z),
          not_receiving e ans z,
          (ρ, h),
        )
        | no recv ↦
            let (o, k', ran, how, kept) = deliver_lem e ans recv legal in
            (o, k', rw (legal, run, ==_ne (k.envs e).env_ipc_recving 0 recv) ran, how, kept)
      ]
