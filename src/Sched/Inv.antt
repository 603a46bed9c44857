-- ===== src/Sched/Inv.antt =====
-- The invariant of `env_sched_list`, and what `env_run` leaves alone.
use os_lab5_challenge.Base.{
  ==_self, ℕ, ◌+◌, ◌%◌, ◌^◌, ◌≡◌, refl, sym, ◌∙◌, true, ==_ne, ==_iff, ap, has, List, done, Option,
  none, some, subst,
}
use native.Mathlib.Decide.{ℕ_discrete}
use os_lab5_challenge.Tailq.Chain.{Holds}
use os_lab5_challenge.Kernel.{Trapframe, Env, Kernel, set_env, is_runnable}
use os_lab5_challenge.Env.{env_run, save_context}

-- `env_sched_list` holds exactly the runnable envs, each once.
pub record IsQueued (k : Kernel) (l : List ℕ) : Type 0 where
  pub queue : Holds k.env_sched_list l
  pub exact : (e : ℕ) → has e l ≡ is_runnable (k.envs e).env_status

-- The kernel once `env_run` has left for env `e`.
abbrev pub entered : ℕ → Kernel → Kernel
entered e k =
    let k1 = record (save_context k.curenv k) { curenv = some e } in
    let k2 = set_env e (record (k1.envs e) { env_runs = ((k1.envs e).env_runs + 1) % 2 ^ 32 }) k1 in
    record k2 { cur_pgdir = (k2.envs e).env_pgdir }

pub env_run_lem :
    (e : ℕ) (k : Kernel)
    → is_runnable (k.envs e).env_status ≡ true
    → env_run e k ≡ done tt (entered e k)
unfolding env_run
env_run_lem e k h = rw h

-- A field that a new value of an env keeps is kept for every env.
pub set_env-field :
    {A : Type 0} (f : Env → A) (e : ℕ) (v : Env) (k : Kernel) (x : ℕ)
    → f v ≡ f (k.envs e)
    → f ((set_env e v k).envs x) ≡ f (k.envs x)
set_env-field f e v k x h = elim (ℕ_discrete e x) [
  | yes s ↦ rw ((==_iff e x).1 s) (h ∙ ap (λ y. f (k.envs y)) s)
  | no n ↦ rw (==_ne e x n)
]

-- A field that a context switch does not write.
abbrev pub IsSteady : {A : Type 0} → (Env → A) → Type 0
IsSteady f =
    ((v : Env) (t : Trapframe) → f (record v { env_tf = t }) ≡ f v)
    × ((v : Env) (n : ℕ) → f (record v { env_runs = n }) ≡ f v)

save_context-field :
    {A : Type 0} (f : Env → A) (c : Option ℕ) (k : Kernel) (x : ℕ)
    → IsSteady f
    → f ((save_context c k).envs x) ≡ f (k.envs x)
save_context-field f none k x h = refl
save_context-field f (some c) k x h = set_env-field f c _ k x (h.0 (k.envs c) k.kstack_tf)

pub entered-field :
    {A : Type 0} (f : Env → A) (e : ℕ) (k : Kernel) (x : ℕ)
    → IsSteady f
    → f ((entered e k).envs x) ≡ f (k.envs x)
entered-field f e k x h =
    let k1 = record (save_context k.curenv k) { curenv = some e } in
    set_env-field f e _ k1 x (h.1 (k1.envs e) _) ∙ save_context-field f k.curenv k x h

-- Switching contexts changes nobody's status, nor the queue.
pub entered-status :
    (e : ℕ) (k : Kernel) (x : ℕ) → ((entered e k).envs x).env_status ≡ (k.envs x).env_status
entered-status e k x = entered-field (λ v. v.env_status) e k x (λ v t. refl, λ v n. refl)

save_context-queue :
    (c : Option ℕ) (k : Kernel) → (save_context c k).env_sched_list ≡ k.env_sched_list
save_context-queue none k = refl
save_context-queue (some c) k = refl

pub save_context-slices : (c : Option ℕ) (k : Kernel) → (save_context c k).slices ≡ k.slices
save_context-slices none k = refl
save_context-slices (some c) k = refl

pub entered-IsQueued : (e : ℕ) {k : Kernel} {l : List ℕ} → IsQueued k l → IsQueued (entered e k) l
entered-IsQueued e {k} {l} q = record {
  queue = subst (λ t. Holds t l) (sym (save_context-queue k.curenv k)) q.queue;
  exact = λ x. q.exact x ∙ ap is_runnable (sym (entered-status e k x));
}

pub save_context-mem : (c : Option ℕ) (k : Kernel) → (save_context c k).mem ≡ k.mem
save_context-mem none k = refl
save_context-mem (some c) k = refl

-- The env that ran before has the frame that its trap left below KSTACKTOP.
pub entered-saved :
    (e : ℕ) (k : Kernel) (c : ℕ) → k.curenv ≡ some c → ((entered e k).envs c).env_tf ≡ k.kstack_tf
entered-saved e k c h =
    set_env-field (λ v. v.env_tf) e _ (record (save_context k.curenv k) { curenv = some e }) c refl
    ∙ ap (λ o. ((save_context o k).envs c).env_tf) h
    ∙ rw (==_self c)

-- What a call of `schedule` has done: env `e` runs, the queue is in order `l`, and the time slices
-- are `n`. The env that was current has its context saved, and nothing else of an env changes but
-- its count of runs, nor does the memory.
pub record Runs (e : ℕ) (l : List ℕ) (n : ℕ) (k k' : Kernel) : Type 0 where
  pub current : k'.curenv ≡ some e
  pub queued : IsQueued k' l
  pub slices : k'.slices ≡ n
  pub kept :
      (x : ℕ) (t : Trapframe) (runs : ℕ)
      → record (k'.envs x) { env_tf = t; env_runs = runs }
        ≡ record (k.envs x) { env_tf = t; env_runs = runs }
  pub saved : (c : ℕ) → k.curenv ≡ some c → (k'.envs c).env_tf ≡ k.kstack_tf
  pub same_mem : k'.mem ≡ k.mem

-- A field of an env that a switch does not write.
pub Runs-field :
    {A : Type 0} {e n : ℕ} {l : List ℕ} {k k' : Kernel} (f : Env → A)
    → Runs e l n k k'
    → ((v : Env) → f (record v { env_tf = k.kstack_tf; env_runs = 0 }) ≡ f v)
    → (x : ℕ) → f (k'.envs x) ≡ f (k.envs x)
Runs-field {k = k} {k' = k'} f r h x =
    sym (h (k'.envs x)) ∙ ap f (r.kept x k.kstack_tf 0) ∙ h (k.envs x)

-- What matters of the kernel that a call starts from.
pub same_envs-Runs :
    {e n : ℕ} {l : List ℕ} {k k1 k' : Kernel}
    → Runs e l n k1 k'
    → k1.envs ≡ k.envs
    → k1.curenv ≡ k.curenv
    → k1.kstack_tf ≡ k.kstack_tf
    → k1.mem ≡ k.mem
    → Runs e l n k k'
same_envs-Runs r same cur frame mem = record {
  current = r.current;
  queued = r.queued;
  slices = r.slices;
  kept = λ x t n. r.kept x t n ∙ ap (λ f. record (f x) { env_tf = t; env_runs = n }) same;
  saved = λ c h. r.saved c (cur ∙ h) ∙ frame;
  same_mem = r.same_mem ∙ mem;
}
