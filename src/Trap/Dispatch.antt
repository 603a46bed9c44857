-- ===== src/Trap/Dispatch.antt =====
-- The system calls on memory, from the registers of the caller to the result in `$v0`.
use os_lab5_challenge.Base.{
  ℕ, ◌+◌, ◌%◌, ◌^◌, ◌<◌, ◌≡◌, refl, ◌∙◌, ap, some, and_then, done, update, inval, bad_env, no_mem,
}
use os_lab5_challenge.Pmap.Inv.{Roles}
use os_lab5_challenge.Kernel.{Trapframe, Kernel, K}
use os_lab5_challenge.Syscall.{Outcome, success, fails, sys_mem_alloc, sys_mem_map, sys_mem_unmap}
use os_lab5_challenge.Syscall.Spaces.{HasSpaces, Ends}
use os_lab5_challenge.Syscall.Mapping.{Maps, Unmaps, sys_mem_map_lem, sys_mem_unmap_lem}
use os_lab5_challenge.Syscall.Memory.{Allocates, sys_mem_alloc_lem}
use os_lab5_challenge.Trap.{Outside, dispatch, do_syscall, store_result}

-- What the caller finds in `$v0`: 0, or a negative error code as a word.
pub data Reports : Outcome → ℕ → Type 0 where
  nothing : Reports success 0
  invalid : Reports (fails inval) 0xffff_fffd
  no_such_env : Reports (fails bad_env) 0xffff_fffe
  no_memory : Reports (fails no_mem) 0xffff_fffc

-- The kernel while a call runs: the caller is past its instruction.
abbrev pub entered : Kernel → Kernel
entered k = record k {
  kstack_tf = record (k.kstack_tf) { cp0_epc = (k.kstack_tf.cp0_epc + 4) % 2 ^ 32 };
}

-- The frame that the caller of `k` gets back: past its instruction, with `v` in `$v0`.
abbrev pub returned : Kernel → ℕ → Trapframe
returned k v = record (k.kstack_tf) {
  cp0_epc = (k.kstack_tf.cp0_epc + 4) % 2 ^ 32;
  regs = update k.kstack_tf.regs 2 v;
}

-- The three calls on memory, by number, with flags below 4096.
pub data IsMemoryCall (out : Outside) (tf : Trapframe) : Type 0 where
  alloc_call : tf.regs 4 ≡ 6 → tf.regs 7 < 4096 → IsMemoryCall out tf
  map_call : tf.regs 4 ≡ 7 → out.word (tf.regs 29 + 20) < 4096 → IsMemoryCall out tf
  unmap_call : tf.regs 4 ≡ 8 → IsMemoryCall out tf

-- How each ends: the arguments are in `$a1`, `$a2`, `$a3` and two words of the stack.
pub data MemoryCall (ρ : Roles) (out : Outside) (k : Kernel) (c : ℕ)
    : Outcome → Kernel → Type 0 where
  allocates :
      {o : Outcome} {k' : Kernel}
      → k.kstack_tf.regs 4 ≡ 6
      → Allocates ρ
          (entered k)
          c
          (k.kstack_tf.regs 5)
          (k.kstack_tf.regs 6)
          (k.kstack_tf.regs 7)
          o
          k'
      → MemoryCall ρ out k c o k'
  maps :
      {o : Outcome} {k' : Kernel}
      → k.kstack_tf.regs 4 ≡ 7
      → Maps ρ
          (entered k)
          c
          (k.kstack_tf.regs 5)
          (k.kstack_tf.regs 6)
          (k.kstack_tf.regs 7)
          (out.word (k.kstack_tf.regs 29 + 16))
          (out.word (k.kstack_tf.regs 29 + 20))
          o
          k'
      → MemoryCall ρ out k c o k'
  unmaps :
      {o : Outcome} {k' : Kernel}
      → k.kstack_tf.regs 4 ≡ 8
      → Unmaps ρ (entered k) c (k.kstack_tf.regs 5) (k.kstack_tf.regs 6) o k'
      → MemoryCall ρ out k c o k'

-- The result is stored in the frame of the caller, which the call has left alone.
abbrev Stores : Outside → Kernel → Outcome → Kernel → Type 0
Stores out k o k' =
    (v : ℕ) × Reports o v
    × (store_result out o k'
        ≡ done tt
            (record k' { kstack_tf = record (k.kstack_tf) { regs = update k.kstack_tf.regs 2 v } }))

module _ {ρ : Roles} (out : Outside) {k : Kernel} {c : ℕ} where
  Unmaps-Stores :
      {envid va : ℕ} {o : Outcome} {k' : Kernel} → Unmaps ρ k c envid va o k' → Stores out k o k'
  Unmaps-Stores (Unmaps.illegal _) = (_, invalid, refl)
  Unmaps-Stores (Unmaps.refused _ _) = (_, no_such_env, refl)
  Unmaps-Stores (Unmaps.unmapped _ _ _ _) = (_, nothing, refl)

  Maps-Stores :
      {srcid srcva dstid dstva perm : ℕ} {o : Outcome} {k' : Kernel}
      → Maps ρ k c srcid srcva dstid dstva perm o k'
      → Stores out k o k'
  Maps-Stores (Maps.illegal _) = (_, invalid, refl)
  Maps-Stores (Maps.refused _) = (_, no_such_env, refl)
  Maps-Stores (Maps.no_source _ _ _) = (_, invalid, refl)
  Maps-Stores (Maps.no_table _ _ _ _) = (_, no_memory, refl)
  Maps-Stores (Maps.shared _ _ _ _ _ _ _ _) = (_, nothing, refl)

  Allocates-Stores :
      {envid va perm : ℕ} {o : Outcome} {k' : Kernel}
      → Allocates ρ k c envid va perm o k'
      → Stores out k o k'
  Allocates-Stores (Allocates.illegal _) = (_, invalid, refl)
  Allocates-Stores (Allocates.refused _ _) = (_, no_such_env, refl)
  Allocates-Stores (Allocates.no_page _ _ _) = (_, no_memory, refl)
  Allocates-Stores (Allocates.no_table _ _ _ _ _ _ _) = (_, no_memory, refl)
  Allocates-Stores (Allocates.mapped _ _ _ _ _ _ _ _) = (_, nothing, refl)

entered-HasSpaces : {ρ : Roles} {k : Kernel} → HasSpaces ρ k → HasSpaces ρ (entered k)
entered-HasSpaces h = record { memory = h.memory; spaces = h.spaces; current_live = h.current_live }

module _ (ρ : Roles) (out : Outside) (k : Kernel) (c : ℕ) where
  -- The end of `do_syscall`.
  abbrev pub Handled : Type 0
  Handled =
      (o : Outcome) × (k' : Kernel) × (v : ℕ) × MemoryCall ρ out k c o k'
      × Reports o v
      × (do_syscall out k ≡ done tt (record k' { kstack_tf = returned k v }))
      × ((ρ' : Roles) × HasSpaces ρ' k')

  handle :
      (f : K Outcome) (P : Outcome → Kernel → Type 0)
      → do_syscall out k ≡ and_then (f (entered k)) (store_result out)
      → ((o : Outcome) (k' : Kernel) → P o k' → MemoryCall ρ out k c o k')
      → ((o : Outcome) (k' : Kernel) → P o k' → Stores out (entered k) o k')
      → Ends f (entered k) P
      → Handled
  handle f P start call stored (o, k', run, how, kept) =
      let (v, reports, put) = stored o k' how in
      (
        o,
        k',
        v,
        call o k' how,
        reports,
        start ∙ ap (λ r. and_then r (store_result out)) run ∙ put,
        kept,
      )

-- A system call on memory, from registers to registers: with 6, 7 or 8 in `$a0`, the envs' memory in order, room
-- in the reference counts and flags below 4096, `do_syscall` always returns. `sys_mem_alloc`, `sys_mem_map` or
-- `sys_mem_unmap` has ended in one of its ways, on the arguments in `$a1`, `$a2`, `$a3` and on the stack; the
-- caller is one instruction further, has 0 or the error in `$v0` and its other registers as before; and
-- the memory is in order again.
pub do_syscall-MemoryCall :
    (ρ : Roles) (out : Outside) (k : Kernel) (c : ℕ)
    → HasSpaces ρ k
    → k.curenv ≡ some c
    → ((p : ℕ) → k.mem.pp_ref p < 65535)
    → IsMemoryCall out k.kstack_tf
    → Handled ρ out k c
unfolding do_syscall dispatch
do_syscall-MemoryCall ρ out k c h cur room (alloc_call number small) =
    let tf = k.kstack_tf in
    handle ρ out k c (sys_mem_alloc (tf.regs 5) (tf.regs 6) (tf.regs 7))
      (Allocates ρ (entered k) c (tf.regs 5) (tf.regs 6) (tf.regs 7)) (rw number)
      (λ o k' how. allocates number how) (λ o k' how. Allocates-Stores out how)
      (sys_mem_alloc_lem ρ (entered k) (entered-HasSpaces h) c cur (tf.regs 5) (tf.regs 6)
        (tf.regs 7) small)
do_syscall-MemoryCall ρ out k c h cur room (map_call number small) =
    let tf = k.kstack_tf in
    let a4 = out.word (tf.regs 29 + 16) in
    let a5 = out.word (tf.regs 29 + 20) in
    handle ρ out k c (sys_mem_map (tf.regs 5) (tf.regs 6) (tf.regs 7) a4 a5)
      (Maps ρ (entered k) c (tf.regs 5) (tf.regs 6) (tf.regs 7) a4 a5) (rw number)
      (λ o k' how. maps number how) (λ o k' how. Maps-Stores out how)
      (sys_mem_map_lem ρ (entered k) (entered-HasSpaces h) c cur room (tf.regs 5) (tf.regs 6)
        (tf.regs 7) a4 a5 small)
do_syscall-MemoryCall ρ out k c h cur room (unmap_call number) =
    let tf = k.kstack_tf in
    handle ρ out k c (sys_mem_unmap (tf.regs 5) (tf.regs 6))
      (Unmaps ρ (entered k) c (tf.regs 5) (tf.regs 6)) (rw number) (λ o k' how. unmaps number how)
      (λ o k' how. Unmaps-Stores out how)
      (sys_mem_unmap_lem ρ (entered k) (entered-HasSpaces h) c cur (tf.regs 5) (tf.regs 6))
