-- ===== src/Tests/World.antt =====
-- A kernel with two envs in the queue and a third that waits for a message.
use os_lab5_challenge.Base.{
  ℕ, zero, suc, ◌+◌, ◌*◌, ◌<◌, ◌≡◌, refl, ◌≢◌, Bool, true, false, ◌||◌, arith, ◌==◌, if◌then◌else◌,
  has, List, [], ◌∷◌, none, some, subst,
}
use os_lab5_challenge.Tailq.{Tailq, first_of}
use os_lab5_challenge.Tailq.Chain.{Holds}
use os_lab5_challenge.Tailq.Laws.{insert_tail-Holds}
use os_lab5_challenge.Kernel.{
  Trapframe, Status, free, runnable, not_runnable, Env, Kernel, is_runnable, is_free,
}
use os_lab5_challenge.Tailq.{init, insert_tail}
use os_lab5_challenge.Tailq.Laws.{init-Holds}
use os_lab5_challenge.Pmap.{
  page_insert, insert_over, insert_entry, pgdir_walk, walk_create, table_entry, page_alloc,
  alloc_first, set_entry,
}
use os_lab5_challenge.Pmap.Inv.{dir}
use os_lab5_challenge.Sched.Inv.{IsQueued}
use os_lab5_challenge.Syscall.Spaces.{HasSpaces}
use os_lab5_challenge.Syscall.Ipc.{HasReceivers}
use os_lab5_challenge.Tests.Machine.{roles, mapped, mapped_lem}

abbrev pub frame : Trapframe
frame = record {
  regs = λ _. 0;
  cp0_status = 0;
  hi = 0;
  lo = 0;
  cp0_badvaddr = 0;
  cp0_cause = 0;
  cp0_epc = 0;
}

-- Envs 0 and 1 are runnable, env 2 is a child of env 0 and waits, and the others are free.
abbrev pub status_of : ℕ → Status
status_of e = if (e == 0) || (e == 1) then runnable else (if e == 2 then not_runnable else free)

abbrev pub envs : ℕ → Env
envs e = record {
  env_tf = frame;
  env_id = (e + 1) * 2048 + e;
  env_asid = e;
  env_parent_id = if e == 2 then 2048 else 0;
  env_status = status_of e;
  env_pgdir = if e == 0 then 1 else 2;
  env_pri = e + 1;
  env_ipc_value = 0;
  env_ipc_from = 0;
  env_ipc_recving = if e == 2 then 1 else 0;
  env_ipc_dstva = 0x400000;
  env_ipc_perm = 0;
  env_user_tlb_mod_entry = 0;
  env_runs = 0;
}

abbrev pub empty_queue : Tailq
empty_queue =
    init (record { first = none; last = first_of; next = λ _. none; prev = λ _. first_of })

abbrev pub queue : Tailq
queue = insert_tail (insert_tail empty_queue 0) 1

abbrev pub world : Kernel
world = record {
  mem = mapped;
  envs = envs;
  env_free_list = 3 ∷ 4 ∷ [];
  env_sched_list = queue;
  curenv = some 0;
  cur_pgdir = 1;
  base_pgdir = 15;
  asid_bitmap = λ i. if i == 0 then 7 else 0;
  made_ids = 3;
  slices = 2;
  kstack_tf = frame;
  console = [];
  transfers = [];
}

abbrev pub order : List ℕ
order = 0 ∷ 1 ∷ []

pub queue-Holds : Holds queue order
queue-Holds =
    insert_tail-Holds (insert_tail empty_queue 0) 1 (0 ∷ [])
      (insert_tail-Holds empty_queue 0 [] (init-Holds _) refl) refl

pub world-IsQueued : IsQueued world order
world-IsQueued = record { queue = queue-Holds; exact = λ e. exact e }
  where
    exact : (e : ℕ) → has e order ≡ is_runnable (status_of e)
    exact zero = refl
    exact (suc zero) = refl
    exact (suc (suc zero)) = refl
    exact (suc (suc (suc n))) = ground arith

pub world-HasSpaces : HasSpaces mapped_lem.0 world
world-HasSpaces = record {
  memory = mapped_lem.1.inv;
  spaces = λ e live. mapped_lem.1.dirs (envs e).env_pgdir (dirs (e == 0));
  current_live = λ c h. subst (λ x. is_free (status_of x) ≡ false) (inj h) refl;
}
  where
    inj : {c : ℕ} → some 0 ≡ some c → 0 ≡ c
    inj h = cc

    dirs : (b : Bool) → roles (if b then 1 else 2) ≡ dir
    dirs true = refl
    dirs false = refl

pub world-HasReceivers : HasReceivers world order
world-HasReceivers = record { waits = λ e h. waits e h; place = λ e h. omega arith }
  where
    waits : (e : ℕ) → (envs e).env_ipc_recving ≢ 0 → has e order ≡ false
    waits e h = ground arith

pub world_room : (p : ℕ) → mapped.pp_ref p < 65535
unfolding page_insert insert_over insert_entry pgdir_walk walk_create table_entry page_alloc
    alloc_first set_entry
world_room p = ground arith
