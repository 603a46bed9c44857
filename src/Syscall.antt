-- ===== src/Syscall.antt =====
-- The system calls of kern/syscall_all.c, each with its checks in the source's order.
pub mod Ipc
pub mod Mapping
pub mod Memory
pub mod Ranges
pub mod Send
pub mod Spaces
pub mod Waking
use os_lab5_challenge.Base.{
  ℕ, ◌+◌, ◌%◌, ◌^◌, Bool, true, false, not, ◌&&◌, ◌||◌, Option, none, some, List, [], ◌∷◌, bit_or,
  ltb, leb, ◌==◌, if◌then◌else◌, update, panic, pure, ◌>>=◌, ◌>>◌, modify, get, Error, Result, ok,
  err, bad_env, inval, ipc_not_recv,
}
use os_lab5_challenge.Tailq
use os_lab5_challenge.Pmap.{
  Slot, page_alloc, page_insert, page_lookup, page_remove, utemp, utop, pte_v,
}
use os_lab5_challenge.Kernel.{
  Trapframe, Env, Status, runnable, not_runnable, Kernel, K, on_mem, set_env, to_device,
  from_device,
}
use os_lab5_challenge.Env.{envid2env, env_alloc}
use os_lab5_challenge.Sched.{schedule, env_destroy}

-- How a call ends: with a value for $v0, with nothing (a `void` function), or in another env.
pub data Outcome : Type 0 where
  returns : Result ℕ → Outcome
  returns_void switched : Outcome

abbrev pub success : Outcome
success = returns (ok 0)

abbrev pub fails : Error → Outcome
fails e = returns (err e)

abbrev pub u32 : ℕ → ℕ
u32 n = n % 2 ^ 32

unfoldable pub is_illegal_va : ℕ → Bool
is_illegal_va va = ltb va utemp || leb utop va

unfoldable pub is_illegal_va_range : ℕ → ℕ → Bool
is_illegal_va_range va len =
    if len == 0
    then false
    else ltb (u32 (va + len)) va || (ltb va utemp || ltb utop (u32 (va + len)))

-- `curenv->...`: reading through NULL faults.
abbrev pub with_current : {A : Type 0} → Option ℕ → (ℕ → K A) → K A
with_current none f = λ _. panic
with_current (some c) f = f c

abbrev pub as_current : {A : Type 0} → (ℕ → K A) → K A
as_current f = do k ← get; with_current k.curenv f

-- `try(envid2env(envid, &e, checkperm))`, and the rest of the call with `e`.
abbrev pub on_env : Result ℕ → (ℕ → K Outcome) → K Outcome
on_env (err x) f = pure (fails x)
on_env (ok e) f = f e

unfoldable pub sys_putchar : ℕ → K Outcome
sys_putchar c = do modify (λ k. record k { console = (c % 256) ∷ k.console }); pure returns_void

unfoldable pub print_bytes : List ℕ → Kernel → Kernel
print_bytes [] k = k
print_bytes (b ∷ bs) k = print_bytes bs (record k { console = b ∷ k.console })

-- `bytes` are the `num` bytes of user memory from `s` on.
unfoldable pub sys_print_cons : ℕ → ℕ → List ℕ → K Outcome
unfolding print_bytes
sys_print_cons s num bytes =
    if ltb utop (u32 (s + num)) || (leb utop s || ltb (u32 (s + num)) s)
    then pure (fails inval)
    else (do modify (print_bytes bytes); pure success)

unfoldable pub sys_getenvid : K Outcome
sys_getenvid = as_current λ c. do k ← get; pure (returns (ok (k.envs c).env_id))

unfoldable pub sys_yield : K Outcome
sys_yield = do schedule true; pure switched

unfoldable pub sys_env_destroy : ℕ → K Outcome
sys_env_destroy envid = do
  r ← envid2env envid true
  on_env r λ e. do left ← env_destroy e; pure (if left then switched else success)

unfoldable pub sys_set_tlb_mod_entry : ℕ → ℕ → K Outcome
sys_set_tlb_mod_entry envid func = do
  r ← envid2env envid true
  on_env r λ e. do
    modify (λ k. set_env e (record (k.envs e) { env_user_tlb_mod_entry = func }) k)
    pure success

abbrev pub outcome_of : Result (Unit {0}) → Outcome
outcome_of (ok _) = success
outcome_of (err x) = fails x

-- The end of `sys_mem_alloc`.
unfoldable pub map_new : ℕ → ℕ → ℕ → Result ℕ → K Outcome
map_new e va perm (err x) = pure (fails x)
map_new e va perm (ok pp) = do
  k ← get
  r ← on_mem (page_insert (k.envs e).env_pgdir (k.envs e).env_asid pp va perm)
  pure (outcome_of r)

unfoldable pub sys_mem_alloc : ℕ → ℕ → ℕ → K Outcome
unfolding map_new
sys_mem_alloc envid va perm =
    if is_illegal_va va
    then pure (fails inval)
    else do r ← envid2env envid true; on_env r λ e. on_mem page_alloc >>= map_new e va perm

-- The end of `sys_mem_map`, with what `page_lookup` found.
unfoldable pub map_found : ℕ → ℕ → ℕ → Option (ℕ × Slot) → K Outcome
map_found e dstva perm none = pure (fails inval)
map_found e dstva perm (some (pp, _)) = do
  k ← get
  r ← on_mem (page_insert (k.envs e).env_pgdir (k.envs e).env_asid pp dstva perm)
  pure (outcome_of r)

-- Any failure of `envid2env` is reported as -E_BAD_ENV.
abbrev pub on_env_or_bad : Result ℕ → (ℕ → K Outcome) → K Outcome
on_env_or_bad (err x) f = pure (fails bad_env)
on_env_or_bad (ok e) f = f e

unfoldable pub sys_mem_map : (srcid srcva dstid dstva perm : ℕ) → K Outcome
unfolding map_found
sys_mem_map srcid srcva dstid dstva perm =
    if is_illegal_va srcva || is_illegal_va dstva then pure (fails inval) else do
      src ← envid2env srcid true
      on_env_or_bad src λ s. do
        dst ← envid2env dstid true
        on_env_or_bad dst λ d. do
          k ← get
          on_mem (page_lookup (k.envs s).env_pgdir srcva) >>= map_found d dstva perm

unfoldable pub sys_mem_unmap : ℕ → ℕ → K Outcome
sys_mem_unmap envid va = if is_illegal_va va then pure (fails inval) else do
  r ← envid2env envid true
  on_env r λ e. do
    k ← get
    on_mem (page_remove (k.envs e).env_pgdir (k.envs e).env_asid va)
    pure success

-- The child's frame: the caller's, with 0 in $v0.
abbrev pub child_of : Env → Env → Trapframe → Env
child_of v parent tf = record v {
  env_tf = record tf { regs = update tf.regs 2 0 };
  env_status = not_runnable;
  env_pri = parent.env_pri;
}

unfoldable pub sys_exofork : K Outcome
sys_exofork = as_current λ c. do
  k ← get
  r ← env_alloc (k.envs c).env_id
  on_env r λ e. do
    modify (λ k'. set_env e (child_of (k'.envs e) (k'.envs c) k'.kstack_tf) k')
    k'' ← get
    pure (returns (ok (k''.envs e).env_id))

-- The change of `env_sched_list` in `sys_set_env_status`, by the old and the new status.
abbrev pub requeue : Status → Status → ℕ → Kernel → Kernel
requeue runnable not_runnable e k = record k { env_sched_list = Tailq.remove k.env_sched_list e }
requeue not_runnable runnable e k = record k {
  env_sched_list = Tailq.insert_tail k.env_sched_list e;
}
requeue _ _ e k = k

unfoldable pub set_status : ℕ → Status → K Outcome
set_status envid status = do
  r ← envid2env envid true
  on_env r λ e. do
    modify (λ k. requeue (k.envs e).env_status status e k)
    modify (λ k. set_env e (record (k.envs e) { env_status = status }) k)
    pure success

unfoldable pub sys_set_env_status : ℕ → ℕ → K Outcome
unfolding set_status
sys_set_env_status envid status =
    if status == 1
    then set_status envid runnable
    else if status == 2
    then set_status envid not_runnable
    else pure (fails inval)

-- `tf` is the address, `frame` what user memory holds there.
unfoldable pub sys_set_trapframe : ℕ → ℕ → Trapframe → K Outcome
sys_set_trapframe envid tf frame = if is_illegal_va_range tf 152 then pure (fails inval) else do
  r ← envid2env envid true
  on_env r λ e. as_current λ c.
      if e == c
      then (do modify (λ k. record k { kstack_tf = frame }); pure (returns (ok (frame.regs 2))))
      else (do modify (λ k. set_env e (record (k.envs e) { env_tf = frame }) k); pure success)

abbrev pub receiving : ℕ → Env → Env
receiving dstva v = record v {
  env_ipc_recving = 1;
  env_ipc_dstva = dstva;
  env_status = not_runnable;
}

unfoldable pub sys_ipc_recv : ℕ → K Outcome
sys_ipc_recv dstva =
    if not (dstva == 0) && is_illegal_va dstva
    then pure (fails inval)
    else as_current λ c. do
      modify (λ k. set_env c (receiving dstva (k.envs c)) k)
      modify (λ k. record k { env_sched_list = Tailq.remove k.env_sched_list c })
      modify (λ k. record k {
        kstack_tf = record (k.kstack_tf) { regs = update k.kstack_tf.regs 2 0 };
      })
      schedule true
      pure switched

abbrev pub delivered : (value from perm : ℕ) → Env → Env
delivered value from perm v = record v {
  env_ipc_value = value;
  env_ipc_from = from;
  env_ipc_perm = bit_or pte_v perm;
  env_ipc_recving = 0;
  env_status = runnable;
}

-- Step 6 of `sys_ipc_try_send`: the result of `page_insert` is dropped.
unfoldable pub send_page : ℕ → ℕ → Option (ℕ × Slot) → K Outcome
send_page e perm none = pure (fails inval)
send_page e perm (some (pp, _)) = do
  k ← get
  on_mem (page_insert (k.envs e).env_pgdir (k.envs e).env_asid pp (k.envs e).env_ipc_dstva perm)
  pure success

unfoldable pub deliver : (value srcva perm e : ℕ) → K Outcome
unfolding send_page
deliver value srcva perm e = as_current λ c. do
  modify (λ k. set_env e (delivered value (k.envs c).env_id perm (k.envs e)) k)
  modify (λ k. record k { env_sched_list = Tailq.insert_tail k.env_sched_list e })
  if srcva == 0
      then pure success
      else do k ← get; on_mem (page_lookup (k.envs c).env_pgdir srcva) >>= send_page e perm

unfoldable pub sys_ipc_try_send : (envid value srcva perm : ℕ) → K Outcome
unfolding deliver
sys_ipc_try_send envid value srcva perm =
    if not (srcva == 0) && is_illegal_va srcva then pure (fails inval) else do
      r ← envid2env envid false
      on_env r λ e. do
        k ← get
        if (k.envs e).env_ipc_recving == 0
            then pure (fails ipc_not_recv)
            else deliver value srcva perm e

abbrev pub within_device : ℕ → ℕ → ℕ → ℕ → Bool
within_device pa len start end = leb start pa && leb (u32 (pa + len)) end

unfoldable pub is_device_range : ℕ → ℕ → Bool
is_device_range pa len =
    within_device pa len 0x10000000 0x10000020
    || (within_device pa len 0x13000000 0x13004200 || within_device pa len 0x15000000 0x15000200)

unfoldable pub sys_write_dev : ℕ → ℕ → ℕ → K Outcome
sys_write_dev va pa len =
    if is_illegal_va_range va len
    then pure (fails inval)
    else if not (is_device_range pa len)
    then pure (fails inval)
    else (do
      modify (λ k. record k { transfers = to_device va (u32 (pa + 0xa0000000)) len ∷ k.transfers })
      pure success)

unfoldable pub sys_read_dev : ℕ → ℕ → ℕ → K Outcome
sys_read_dev va pa len =
    if is_illegal_va_range va len
    then pure (fails inval)
    else if not (is_device_range pa len)
    then pure (fails inval)
    else (do
      modify
          (λ k. record k { transfers = from_device va (u32 (pa + 0xa0000000)) len ∷ k.transfers })
      pure success)
