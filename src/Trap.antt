-- ===== src/Trap.antt =====
-- The dispatch of system calls: `do_syscall` of kern/syscall_all.c.
pub mod Dispatch
use os_lab5_challenge.Base.{
  ℕ, ◌+◌, ◌-◌, ◌^◌, ◌%◌, ◌==◌, if◌then◌else◌, ltb, update, List, M, panic, pure, ◌>>=◌, ◌>>◌,
  modify, get, Error, no_mem, no_free_env, bad_env, inval, ipc_not_recv, no_sys, Result, ok, err,
}
use os_lab5_challenge.Kernel.{Trapframe, Kernel, K}
use os_lab5_challenge.Syscall.{
  Outcome, returns, returns_void, switched, sys_putchar, sys_print_cons, sys_getenvid, sys_yield,
  sys_env_destroy, sys_set_tlb_mod_entry, sys_mem_alloc, sys_mem_map, sys_mem_unmap, sys_exofork,
  sys_set_env_status, sys_set_trapframe, sys_ipc_try_send, sys_ipc_recv, sys_write_dev,
  sys_read_dev,
}

-- The codes of include/error.h.
abbrev pub code_of : Error → ℕ
code_of bad_env = 2
code_of inval = 3
code_of no_mem = 4
code_of no_sys = 5
code_of no_free_env = 6
code_of ipc_not_recv = 7
code_of Error.max_open = 9

-- What `$v0` holds: a negative code is its 32-bit pattern.
abbrev pub value_of : Result ℕ → ℕ
value_of (ok v) = v
value_of (err e) = 2 ^ 32 - code_of e

-- What a call reads outside the kernel's state: user memory, the key that the console waits for, and
-- the register that a `void` function leaves in `$v0`.
pub record Outside : Type 0 where
  pub word : ℕ → ℕ
  pub bytes : ℕ → ℕ → List ℕ
  pub frame : ℕ → Trapframe
  pub key : ℕ
  pub left_over : ℕ

-- `syscall_table`, in the order of the numbers of include/syscall.h. `sys_panic` stops the kernel.
unfoldable pub dispatch : Outside → (sysno a1 a2 a3 a4 a5 : ℕ) → K Outcome
dispatch out sysno a1 a2 a3 a4 a5 =
    if sysno == 0
    then sys_putchar a1
    else if sysno == 1
    then sys_print_cons a1 a2 (out.bytes a1 a2)
    else if sysno == 2
    then sys_getenvid
    else if sysno == 3
    then sys_yield
    else if sysno == 4
    then sys_env_destroy a1
    else if sysno == 5
    then sys_set_tlb_mod_entry a1 a2
    else if sysno == 6
    then sys_mem_alloc a1 a2 a3
    else if sysno == 7
    then sys_mem_map a1 a2 a3 a4 a5
    else if sysno == 8
    then sys_mem_unmap a1 a2
    else if sysno == 9
    then sys_exofork
    else if sysno == 10
    then sys_set_env_status a1 a2
    else if sysno == 11
    then sys_set_trapframe a1 a2 (out.frame a2)
    else if sysno == 12
    then (λ _. panic)
    else if sysno == 13
    then sys_ipc_try_send a1 a2 a3 a4
    else if sysno == 14
    then sys_ipc_recv a1
    else if sysno == 15
    then pure (returns (ok out.key))
    else if sysno == 16
    then sys_write_dev a1 a2 a3
    else sys_read_dev a1 a2 a3

abbrev pub set_v0 : ℕ → Kernel → Kernel
set_v0 v k = record k { kstack_tf = record (k.kstack_tf) { regs = update k.kstack_tf.regs 2 v } }

abbrev pub advanced : Kernel → Kernel
advanced k = record k {
  kstack_tf = record (k.kstack_tf) { cp0_epc = (k.kstack_tf.cp0_epc + 4) % 2 ^ 32 };
}

-- `tf->regs[2] = func(...)`, which a call that leaves for another env does not reach.
abbrev pub store_result : Outside → Outcome → K (Unit {0})
store_result out (returns r) = modify (set_v0 (value_of r))
store_result out returns_void = modify (set_v0 out.left_over)
store_result out switched = pure tt

-- `tf` is the frame below KSTACKTOP.
unfoldable pub do_syscall : Outside → K (Unit {0})
unfolding dispatch
do_syscall out = do
  k ← get
  let tf = k.kstack_tf
  if ltb (tf.regs 4) 18
      then (do
        modify advanced
        o ←
            dispatch out (tf.regs 4) (tf.regs 5) (tf.regs 6) (tf.regs 7)
              (out.word (tf.regs 29 + 16)) (out.word (tf.regs 29 + 20))
        store_result out o)
      else modify (set_v0 (value_of (err no_sys)))
