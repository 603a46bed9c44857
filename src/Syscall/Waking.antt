-- ===== src/Syscall/Waking.antt =====
-- Changes of an env's status: `sys_set_env_status` and `sys_ipc_recv`.
use os_lab5_challenge.Base.{
  ℕ, ◌≡◌, refl, sym, ◌∙◌, ◌≢◌, Bool, true, false, ◌||◌, arith, ==_ne, ==_iff, ap, has, List, [],
  ◌∷◌, ◌++◌, done, ok, err, update, Result, some, subst, erase, inval, bad_env, has-append,
  has-erase_ne, has-erase_self,
}
use native.Mathlib.Decide.{ℕ_discrete}
use os_lab5_challenge.Tailq
use os_lab5_challenge.Tailq.{Tailq, first_of, next_of}
use os_lab5_challenge.Tailq.Laws.{insert_tail-Holds}
use os_lab5_challenge.Tailq.Remove.{remove-Holds}
use os_lab5_challenge.Kernel.{
  Status, free, runnable, not_runnable, Env, Kernel, K, set_env, is_runnable, is_free,
}
use os_lab5_challenge.Env.{envid2env}
use os_lab5_challenge.Env.Ids.{Answers, envid2env_lem}
use os_lab5_challenge.Sched.Inv.{IsQueued}
use os_lab5_challenge.Syscall.{Outcome, success, fails, requeue, set_status, sys_set_env_status}
use os_lab5_challenge.Syscall.Spaces.{Answers-live, Answers-bad_env}

-- An env that becomes runnable enters the queue at its tail.
pub enters-IsQueued :
    {k : Kernel} {l : List ℕ} (e : ℕ) (v : Env)
    → IsQueued k l
    → has e l ≡ false
    → is_runnable v.env_status ≡ true
    → IsQueued
        (set_env e v (record k { env_sched_list = Tailq.insert_tail k.env_sched_list e }))
        (l ++ (e ∷ []))
enters-IsQueued {k} {l} e v q out run = record {
  queue = insert_tail-Holds k.env_sched_list e l q.queue out;
  exact = λ x. has-append x l (e ∷ []) ∙ elim (ℕ_discrete e x) [
    | yes s ↦ rw ((==_iff e x).1 s, run) (or_true (has x l))
    | no n ↦ rw (==_ne e x n) (or_false (has x l) ∙ q.exact x)
  ];
}
  where
    or_true : (a : Bool) → (a || true) ≡ true
    or_true a = ground arith

    or_false : (a : Bool) → (a || false) ≡ a
    or_false a = ground arith

-- An env that stops being runnable leaves it.
pub leaves-IsQueued :
    {k : Kernel} {l : List ℕ} (e : ℕ) (v : Env)
    → IsQueued k l
    → has e l ≡ true
    → is_runnable v.env_status ≡ false
    → IsQueued
        (set_env e v (record k { env_sched_list = Tailq.remove k.env_sched_list e }))
        (erase e l)
leaves-IsQueued {k} {l} e v q on stop = record {
  queue = remove-Holds k.env_sched_list e l q.queue on;
  exact = λ x. elim (ℕ_discrete e x) [
    | yes s ↦
        rw ((==_iff e x).1 s, stop)
          (subst (λ y. has y (erase e l) ≡ false) s (has-erase_self e l q.queue.distinct))
    | no n ↦ rw (==_ne e x n) (has-erase_ne e x l n ∙ q.exact x)
  ];
}

-- Any other change of an env leaves the queue as it is.
pub stays-IsQueued :
    {k : Kernel} {l : List ℕ} (e : ℕ) (v : Env)
    → IsQueued k l
    → is_runnable v.env_status ≡ is_runnable (k.envs e).env_status
    → IsQueued (set_env e v k) l
stays-IsQueued {k} {l} e v q same = record {
  queue = q.queue;
  exact = λ x. elim (ℕ_discrete e x) [
    | yes s ↦
        rw ((==_iff e x).1 s)
          (q.exact x ∙ ap (λ y. is_runnable (k.envs y).env_status) (sym s) ∙ sym same)
    | no n ↦ rw (==_ne e x n) (q.exact x)
  ];
}

-- The order of the queue once the status of env `e` has gone from one to another.
abbrev pub reordered : Status → Status → ℕ → List ℕ → List ℕ
reordered runnable not_runnable e l = erase e l
reordered not_runnable runnable e l = l ++ (e ∷ [])
reordered _ _ e l = l

requeue-IsQueued :
    {k : Kernel} {l : List ℕ} (e : ℕ) (old new : Status)
    → IsQueued k l
    → (k.envs e).env_status ≡ old
    → is_free old ≡ false
    → is_free new ≡ false
    → let k1 = requeue old new e k in
      IsQueued (set_env e (record (k1.envs e) { env_status = new }) k1) (reordered old new e l)
requeue-IsQueued e runnable not_runnable q s f g =
    leaves-IsQueued e _ q (q.exact e ∙ ap is_runnable s) refl
requeue-IsQueued e not_runnable runnable q s f g =
    enters-IsQueued e _ q (q.exact e ∙ ap is_runnable s) refl
requeue-IsQueued e runnable runnable q s f g = stays-IsQueued e _ q (sym (ap is_runnable s))
requeue-IsQueued e not_runnable not_runnable q s f g = stays-IsQueued e _ q (sym (ap is_runnable s))
requeue-IsQueued e free new q s f g = absurd (clash f)
  where
    clash : true ≡ false → ⊥
    clash h = cc
requeue-IsQueued e runnable free q s f g = absurd (clash g)
  where
    clash : true ≡ false → ⊥
    clash h = cc
requeue-IsQueued e not_runnable free q s f g = absurd (clash g)
  where
    clash : true ≡ false → ⊥
    clash h = cc

-- The codes of the two statuses that a call may ask for.
abbrev pub AsksFor : Status → ℕ → Type 0
AsksFor runnable n = n ≡ 1
AsksFor not_runnable n = n ≡ 2
AsksFor free n = ⊥

-- How `sys_set_env_status` ends, from a queue in order `l`.
pub data SetsStatus (k : Kernel) (l : List ℕ) (c envid status : ℕ) : Outcome → Kernel → Type 0 where
  unsupported : status ≢ 1 → status ≢ 2 → SetsStatus k l c envid status (fails inval) k
  refused : Answers k c envid true (err bad_env) → SetsStatus k l c envid status (fails bad_env) k
  changed :
      (e : ℕ) (new : Status) (k' : Kernel)
      → Answers k c envid true (ok e)
      → AsksFor new status
      → k'.envs ≡ update k.envs e (record (k.envs e) { env_status = new })
      → IsQueued k' (reordered (k.envs e).env_status new e l)
      → k'.mem ≡ k.mem
      → k'.curenv ≡ k.curenv
      → SetsStatus k l c envid status success k'

-- Only the queue changes in `requeue`.
requeue-same :
    {A : Type 0} (f : Kernel → A) (old new : Status) (e : ℕ) (k : Kernel)
    → ((q : Tailq) → f (record k { env_sched_list = q }) ≡ f k)
    → f (requeue old new e k) ≡ f k
requeue-same f runnable not_runnable e k h = h _
requeue-same f not_runnable runnable e k h = h _
requeue-same f runnable runnable e k h = refl
requeue-same f not_runnable not_runnable e k h = refl
requeue-same f free new e k h = refl
requeue-same f runnable free e k h = refl
requeue-same f not_runnable free e k h = refl

module _ (k : Kernel) (l : List ℕ) (q : IsQueued k l) (c : ℕ) (cur : k.curenv ≡ some c)
    (live : is_free (k.envs c).env_status ≡ false) (envid : ℕ) where
  abbrev StatusRun : ℕ → K Outcome → Type 0
  StatusRun status f =
      (o : Outcome) × (k' : Kernel) × (f k ≡ done o k') × SetsStatus k l c envid status o k'

  set_status_lem :
      (new : Status) (status : ℕ)
      → AsksFor new status
      → is_free new ≡ false
      → StatusRun status (set_status envid new)
  unfolding set_status
  set_status_lem new status asked ok_new = answered (envid2env_lem k c cur envid true)
    where
      answered :
          ((r : Result ℕ) × (envid2env envid true k ≡ done r k) × Answers k c envid true r)
          → StatusRun status (set_status envid new)
      answered (err x, run, ans) =
          let bad = Answers-bad_env ans in
          (
            fails bad_env,
            k,
            rw (run, bad),
            refused (subst (λ y. Answers k c envid true (err y)) bad ans),
          )
      answered (ok e, run, ans) =
          let old = (k.envs e).env_status in
          let k1 = requeue old new e k in
          let same = requeue-same (λ x. x.envs) old new e k (λ _. refl) in
          (
            success,
            set_env e (record (k1.envs e) { env_status = new }) k1,
            rw run,
            changed e new _ ans asked
                (ap (λ f. update f e (record (f e) { env_status = new })) same)
                (requeue-IsQueued e old new q refl (Answers-live ans live) ok_new)
                (requeue-same (λ x. x.mem) old new e k (λ _. refl))
                (requeue-same (λ x. x.curenv) old new e k (λ _. refl)),
          )

  -- With the queue in order and a live current env, `sys_set_env_status` always returns. It supports
  -- ENV_RUNNABLE and ENV_NOT_RUNNABLE only, for the caller and its children, and keeps `env_sched_list`
  -- the queue of the runnable envs: an env that stops being runnable leaves it, one that becomes
  -- runnable enters it at the tail.
  pub sys_set_env_status_lem : (status : ℕ) → StatusRun status (sys_set_env_status envid status)
  unfolding sys_set_env_status
  sys_set_env_status_lem status = elim (ℕ_discrete status 1) [
    | yes one ↦ rw ((==_iff status 1).1 one) (set_status_lem runnable status one refl)
    | no n1 ↦ elim (ℕ_discrete status 2) [
      | yes two ↦
          rw (==_ne status 1 n1, (==_iff status 2).1 two)
            (set_status_lem not_runnable status two refl)
      | no n2 ↦ (fails inval, k, rw (==_ne status 1 n1, ==_ne status 2 n2), unsupported n1 n2)
    ]
  ]
