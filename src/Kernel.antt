-- ===== src/Kernel.antt =====
-- The kernel's state as kern/env.c, kern/sched.c and kern/syscall_all.c keep it: `struct Env` of
-- include/env.h, `struct Trapframe` of include/trap.h, and the variables of these files.
use os_lab5_challenge.Base.{ℕ, Bool, true, false, Option, List, update, Run, done, panic, M}
use os_lab5_challenge.Pmap.{Machine, Mem}
use os_lab5_challenge.Tailq.{Tailq}

pub record Trapframe : Type 0 where
  pub regs : ℕ → ℕ
  pub cp0_status : ℕ
  pub hi : ℕ
  pub lo : ℕ
  pub cp0_badvaddr : ℕ
  pub cp0_cause : ℕ
  pub cp0_epc : ℕ

-- ENV_FREE, ENV_RUNNABLE and ENV_NOT_RUNNABLE.
pub data Status : Type 0 where
  free runnable not_runnable : Status

-- An env is named by its index in `envs`, a page directory by its page.
pub record Env : Type 0 where
  pub env_tf : Trapframe
  pub env_id : ℕ
  pub env_asid : ℕ
  pub env_parent_id : ℕ
  pub env_status : Status
  pub env_pgdir : ℕ
  pub env_pri : ℕ
  pub env_ipc_value : ℕ
  pub env_ipc_from : ℕ
  pub env_ipc_recving : ℕ
  pub env_ipc_dstva : ℕ
  pub env_ipc_perm : ℕ
  pub env_user_tlb_mod_entry : ℕ
  pub env_runs : ℕ

-- A copy between user memory and a device, as `sys_write_dev` and `sys_read_dev` request it.
pub data Transfer : Type 0 where
  to_device : (va kva len : ℕ) → Transfer
  from_device : (va kva len : ℕ) → Transfer

-- `slices` is the static `count` of `schedule` as a 32-bit pattern, `made_ids` the static `i` of
-- `mkenvid`, `kstack_tf` the frame below KSTACKTOP, `console` what has been printed, last first.
pub record Kernel : Type 0 where
  pub mem : Machine
  pub envs : ℕ → Env
  pub env_free_list : List ℕ
  pub env_sched_list : Tailq
  pub curenv : Option ℕ
  pub cur_pgdir : ℕ
  pub base_pgdir : ℕ
  pub asid_bitmap : ℕ → ℕ
  pub made_ids : ℕ
  pub slices : ℕ
  pub kstack_tf : Trapframe
  pub console : List ℕ
  pub transfers : List Transfer

abbrev pub K : Type 0 → Type 0
K A = M Kernel A

abbrev pub in_kernel : {A : Type 0} → Kernel → Run Machine A → Run Kernel A
in_kernel k (done a m) = done a (record k { mem = m })
in_kernel k panic = panic

-- A call into kern/pmap.c.
abbrev pub on_mem : {A : Type 0} → Mem A → K A
on_mem f k = in_kernel k (f k.mem)

abbrev pub set_env : ℕ → Env → Kernel → Kernel
set_env e v k = record k { envs = update k.envs e v }

abbrev pub is_runnable : Status → Bool
is_runnable runnable = true
is_runnable free = false
is_runnable not_runnable = false

abbrev pub is_free : Status → Bool
is_free free = true
is_free runnable = false
is_free not_runnable = false
