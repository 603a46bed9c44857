-- ===== src/Syscall/Ipc.antt =====
-- Interprocess communication: `sys_ipc_recv` and `sys_ipc_try_send`.
use os_lab5_challenge.Base.{
  ℕ, ◌<◌, ◌≡◌, refl, sym, ◌∙◌, ◌≢◌, true, false, ◌&&◌, ==_self, ap, ◌==◌, has, List, ◌∷◌, done,
  update, some, pure, and_then, subst, length, erase, not, has-erase_self,
}
use os_lab5_challenge.Tailq
use os_lab5_challenge.Tailq.{Tailq, first_of, next_of}
use os_lab5_challenge.Kernel.{Trapframe, not_runnable, Kernel, set_env}
use os_lab5_challenge.Pmap.{utop}
use os_lab5_challenge.Sched.Inv.{IsQueued, Runs-field}
use os_lab5_challenge.Sched.Pick.{Picks, stays, moves_on, starts, schedule_lem}
use os_lab5_challenge.Syscall.{switched, is_illegal_va, receiving, sys_ipc_recv}
use os_lab5_challenge.Syscall.Spaces.{as_current_lem}
use os_lab5_challenge.Syscall.Waking.{leaves-IsQueued}

-- An env that waits for a message is off the queue, and gave an address below UTOP.
pub record HasReceivers (k : Kernel) (l : List ℕ) : Type 0 where
  pub waits : (e : ℕ) → (k.envs e).env_ipc_recving ≢ 0 → has e l ≡ false
  pub place : (e : ℕ) → (k.envs e).env_ipc_recving ≢ 0 → (k.envs e).env_ipc_dstva < utop

clash_bool : true ≡ false → ⊥
clash_bool h = cc

some_inj : {a b : ℕ} → some a ≡ some b → a ≡ b
some_inj e = cc

-- What has become of the receiver `c` and of the kernel when another env runs.
pub record Blocks (k : Kernel) (l : List ℕ) (c dstva : ℕ) (k' : Kernel) : Type 0 where
  pub next : ℕ
  pub rest : List ℕ
  pub order : erase c l ≡ next ∷ rest
  pub current : k'.curenv ≡ some next
  pub queued : IsQueued k' (erase c l)
  pub recving : (k'.envs c).env_ipc_recving ≡ 1
  pub dst : (k'.envs c).env_ipc_dstva ≡ dstva
  pub status : (k'.envs c).env_status ≡ not_runnable
  pub result : (k'.envs c).env_tf.regs 2 ≡ 0
  pub same_mem : k'.mem ≡ k.mem

-- The kernel when `sys_ipc_recv` calls `schedule`.
abbrev waiting : Kernel → ℕ → ℕ → Kernel
waiting k c dstva =
    let k1 =
      set_env c (receiving dstva (k.envs c))
        (record k { env_sched_list = Tailq.remove k.env_sched_list c }) in
    record k1 { kstack_tf = record (k.kstack_tf) { regs = update k.kstack_tf.regs 2 0 } }

frame-IsQueued :
    {k : Kernel} {l : List ℕ} (t : Trapframe)
    → IsQueued k l
    → IsQueued (record k { kstack_tf = t }) l
frame-IsQueued t q = record { queue = q.queue; exact = q.exact }

-- `sys_ipc_recv` of an env in the queue, while another env is runnable, with the address 0 or a
-- legal one: the caller leaves the queue as a receiver, its call will return 0, and the head of the
-- rest of the queue runs.
pub sys_ipc_recv_lem :
    (k : Kernel) (l : List ℕ) (c dstva : ℕ)
    → IsQueued k l
    → k.curenv ≡ some c
    → has c l ≡ true
    → 0 < length (erase c l)
    → (not (dstva == 0) && is_illegal_va dstva) ≡ false
    → (k' : Kernel) × (sys_ipc_recv dstva k ≡ done switched k') × Blocks k l c dstva k'
unfolding sys_ipc_recv
sys_ipc_recv_lem k l c dstva q cur on others legal =
    let k1 = waiting k c dstva in
    let q1 =
      frame-IsQueued k1.kstack_tf (leaves-IsQueued c (receiving dstva (k.envs c)) q on refl) in
    let (k', e, l', n, run, r, picks) = schedule_lem k1 true (erase c l) q1 others in
    let (rest, same, order) = chosen e l' n picks in
    (
      k',
      rw legal (as_current_lem _ cur ∙ ap (λ x. and_then x λ _. pure switched) run),
      record {
        next = e;
        rest = rest;
        order = sym same ∙ order;
        current = r.current;
        queued = subst (IsQueued k') same r.queued;
        recving = Runs-field (λ v. v.env_ipc_recving) r (λ v. refl) c ∙ rw (==_self c);
        dst = Runs-field (λ v. v.env_ipc_dstva) r (λ v. refl) c ∙ rw (==_self c);
        status = Runs-field (λ v. v.env_status) r (λ v. refl) c ∙ rw (==_self c);
        result = ap (λ t. t.regs 2) (r.saved c cur);
        same_mem = r.same_mem;
      },
    )
  where
    off : has c (erase c l) ≡ false
    off = has-erase_self c l q.queue.distinct

    chosen :
        (e : ℕ) (l' : List ℕ) (n : ℕ)
        → Picks (waiting k c dstva) true (erase c l) e l' n
        → (rest : List ℕ) × (l' ≡ erase c l) × (l' ≡ e ∷ rest)
    chosen e l' n (stays h1 h2 h3 h4 h5) = absurd (clash_bool h3)
    chosen e l' n (moves_on d rest h1 h2 h3 h4 h5 h6) =
        absurd (clash_bool (sym h2 ∙ ap (λ x. has x (erase c l)) (some_inj (sym h1 ∙ cur)) ∙ off))
    chosen e l' n (starts rest h1 h2 h3 h4) = (rest, h2, h3)
