-- ===== src/Env.antt =====
-- Environments: kern/env.c, but for the ELF loader's callbacks and the self tests.
pub mod Asid
pub mod Ids
use os_lab5_challenge.Base.{
  ℕ, zero, suc, ◌+◌, ◌-◌, ◌*◌, ◌/◌, ◌%◌, ◌^◌, Bool, true, false, ◌&&◌, ◌||◌, Option, none, some,
  List, [], ◌∷◌, bit_or, ltb, leb, ◌==◌, if◌then◌else◌, update, panic, done, pure, ◌>>=◌, ◌>>◌,
  require, modify, get, Result, ok, err, no_free_env, bad_env,
}
use os_lab5_challenge.Base.Bits.{halve, double}
use os_lab5_challenge.Tailq
use os_lab5_challenge.Pmap.{
  Machine, Mem, page_alloc, page_decref, page_remove, page2kva, page2pa, kaddr, pa2page, pte_addr,
  incref, store, slot, has_v, pte_v, tlb_invalidate,
}
use os_lab5_challenge.Kernel.{Trapframe, free, Kernel, K, on_mem, set_env, is_runnable, is_free}

abbrev pub nenv : ℕ
nenv = 1024

abbrev pub nasid : ℕ
nasid = 64

-- `asid_bitmap[i >> 5] & (1 << (i & 31))`, shifted down to 0 or 1.
abbrev pub asid_bit : (ℕ → ℕ) → ℕ → ℕ
asid_bit bitmap i = halve (i % 32) (bitmap (i / 32)) % 2

-- `asid_bitmap[index] |= 1 << inner`
abbrev pub asid_set : (ℕ → ℕ) → ℕ → ℕ → ℕ
asid_set bitmap i = update bitmap (i / 32) (bit_or (bitmap (i / 32)) (double (i % 32) 1))

-- `asid_bitmap[index] &= ~(1 << inner)`: the bit is taken away where it is set.
abbrev pub asid_clear : (ℕ → ℕ) → ℕ → ℕ → ℕ
asid_clear bitmap i =
    update bitmap (i / 32)
      (if asid_bit bitmap i == 1 then bitmap (i / 32) - double (i % 32) 1 else bitmap (i / 32))

-- The loop of `asid_alloc` from `i` on, with the rounds that are left.
unfoldable pub asid_from : ℕ → ℕ → K (Result ℕ)
asid_from zero i k = done (err no_free_env) k
asid_from (suc n) i k =
    let rest = asid_from n (i + 1) k in
    if asid_bit k.asid_bitmap i == 0
    then done (ok i) (record k { asid_bitmap = asid_set k.asid_bitmap i })
    else rest

unfoldable pub asid_alloc : K (Result ℕ)
unfolding asid_from
asid_alloc = asid_from nasid 0

unfoldable pub asid_free : ℕ → K (Unit {0})
asid_free i = modify (λ k. record k { asid_bitmap = asid_clear k.asid_bitmap i })

-- `(++i << (1 + LOG2NENV)) | (e - envs)`
unfoldable pub mkenvid : ℕ → K ℕ
mkenvid e k =
    let i = (k.made_ids + 1) % 2 ^ 32 in
    done (bit_or (i * 2048 % 2 ^ 32) e) (record k { made_ids = i })

abbrev pub envx : ℕ → ℕ
envx envid = envid % 1024

-- Whether `curenv` may act on env `e`: it is `e`, or its parent. Reading through a NULL `curenv`
-- faults.
unfoldable pub may_act : Option ℕ → ℕ → K Bool
may_act none e = λ _. panic
may_act (some c) e = do k ← get; pure (e == c || (k.envs e).env_parent_id == (k.envs c).env_id)

-- `*penv = curenv`. Every caller reads through it, and faults if it is NULL.
unfoldable pub current : Option ℕ → K (Result ℕ)
current none = λ _. panic
current (some c) = pure (ok c)

unfoldable pub envid2env : ℕ → Bool → K (Result ℕ)
unfolding may_act current
envid2env envid checkperm = do
  k ← get
  if envid == 0
      then current k.curenv
      else if is_free (k.envs (envx envid)).env_status
          || (if (k.envs (envx envid)).env_id == envid then false else true)
      then pure (err bad_env)
      else if checkperm
      then (do
        allowed ← may_act k.curenv (envx envid)
        pure (if allowed then ok (envx envid) else err bad_env))
      else pure (ok (envx envid))

-- The words of a new page directory: the template's from PDX(UTOP) up to PDX(UVPT), and itself.
abbrev pub template : ℕ → ℕ → Machine → Machine
template base p m = record m {
  word = λ q i.
      if (p == q) && (leb 509 i && ltb i 511)
      then m.word base i
      else if (p == q) && (i == 511)
      then bit_or (page2pa p) pte_v
      else m.word q i;
}

unfoldable pub setup_page : ℕ → Result ℕ → K (Result (Unit {0}))
setup_page e (err x) = pure (err x)
setup_page e (ok p) = do
  on_mem (modify (incref p))
  kva ← on_mem (page2kva p)
  modify (λ k. set_env e (record (k.envs e) { env_pgdir = kva }) k)
  k ← get
  on_mem (modify (template k.base_pgdir kva))
  pure (ok tt)

unfoldable pub env_setup_vm : ℕ → K (Result (Unit {0}))
unfolding setup_page
env_setup_vm e = on_mem page_alloc >>= setup_page e

-- STATUS_IM4 | STATUS_KUp | STATUS_IEp, and `USTACKTOP - sizeof(int) - sizeof(char **)`.
abbrev pub fresh_tf : Trapframe → Trapframe
fresh_tf tf = record tf { cp0_status = 0x100c; regs = update tf.regs 29 0x7f3fdff8 }

-- The end of `env_alloc`, from the call of `asid_alloc` on.
unfoldable pub give_asid : ℕ → ℕ → Result ℕ → K (Result ℕ)
give_asid e parent_id (err x) = pure (err x)
give_asid e parent_id (ok asid) = do
  modify (λ k.
      set_env e
        (record (k.envs e) {
          env_asid = asid;
          env_parent_id = parent_id;
          env_tf = fresh_tf (k.envs e).env_tf;
        })
        k)
  pure (ok e)

unfoldable pub name_env : ℕ → ℕ → Result (Unit {0}) → K (Result ℕ)
unfolding give_asid
name_env e parent_id (err x) = pure (err x)
name_env e parent_id (ok _) = do
  modify (λ k. set_env e (record (k.envs e) { env_user_tlb_mod_entry = 0; env_runs = 0 }) k)
  envid ← mkenvid e
  modify (λ k. set_env e (record (k.envs e) { env_id = envid }) k)
  asid ← asid_alloc
  give_asid e parent_id asid

-- LIST_REMOVE of the head, once all has succeeded.
unfoldable pub take_env : List ℕ → Result ℕ → K (Result ℕ)
take_env rest (err x) = pure (err x)
take_env rest (ok e) = do modify (λ k. record k { env_free_list = rest }); pure (ok e)

unfoldable pub alloc_env : ℕ → List ℕ → K (Result ℕ)
unfolding name_env take_env
alloc_env parent_id [] = pure (err no_free_env)
alloc_env parent_id (e ∷ rest) = do
  vm ← env_setup_vm e
  r ← name_env e parent_id vm
  take_env rest r

unfoldable pub env_alloc : ℕ → K (Result ℕ)
unfolding alloc_env
env_alloc parent_id k = alloc_env parent_id k.env_free_list k

-- The inner loop of `env_free` from entry `j` of the table in page `pt` on. The two shifted fields
-- of the address do not overlap, so `|` is `+`.
unfoldable pub free_ptes : ℕ → ℕ → (pgdir asid pdeno pt : ℕ) → Mem (Unit {0})
free_ptes zero j pgdir asid pdeno pt = pure tt
free_ptes (suc n) j pgdir asid pdeno pt = do
  m ← get
  if has_v (m.word pt j) then page_remove pgdir asid (pdeno * 2 ^ 22 + j * 2 ^ 12) else pure tt
  free_ptes n (j + 1) pgdir asid pdeno pt

abbrev pub uvpt : ℕ
uvpt = 0x7fc00000

-- The body of the outer loop of `env_free`.
unfoldable pub free_pde : (pgdir asid pdeno : ℕ) → Mem (Unit {0})
free_pde pgdir asid pdeno = do
  m ← get
  if has_v (m.word pgdir pdeno)
      then (do
        let pa = pte_addr (m.word pgdir pdeno)
        pt ← kaddr pa
        free_ptes 1024 0 pgdir asid pdeno pt
        modify (store (slot pgdir pdeno) 0)
        pp ← pa2page pa
        page_decref pp
        tlb_invalidate asid (uvpt + pdeno * 2 ^ 12))
      else pure tt

unfoldable pub free_pdes : ℕ → (pdeno pgdir asid : ℕ) → Mem (Unit {0})
free_pdes zero pdeno pgdir asid = pure tt
free_pdes (suc n) pdeno pgdir asid = free_pde pgdir asid pdeno >> free_pdes n (pdeno + 1) pgdir asid

unfoldable pub env_free : ℕ → K (Unit {0})
env_free e = do
  k ← get
  let v = k.envs e
  on_mem (free_pdes 509 0 v.env_pgdir v.env_asid)
  on_mem (pa2page (page2pa v.env_pgdir) >>= page_decref)
  asid_free v.env_asid
  on_mem (tlb_invalidate v.env_asid (uvpt + 511 * 2 ^ 12))
  modify (λ k'. set_env e (record (k'.envs e) { env_status = free }) k')
  modify (λ k'. record k' { env_free_list = e ∷ k'.env_free_list })
  modify (λ k'. record k' { env_sched_list = Tailq.remove k'.env_sched_list e })

-- `curenv->env_tf = *((struct Trapframe *)KSTACKTOP - 1)`, if there is a current env.
abbrev pub save_context : Option ℕ → Kernel → Kernel
save_context none k = k
save_context (some c) k = set_env c (record (k.envs c) { env_tf = k.kstack_tf }) k

-- `env_pop_tf` leaves for user mode: the call ends with `e` as `curenv`.
unfoldable pub env_run : ℕ → K (Unit {0})
env_run e = do
  k ← get
  require (is_runnable (k.envs e).env_status)
  modify (save_context k.curenv)
  modify (λ k'. record k' { curenv = some e })
  modify
      (λ k'. set_env e (record (k'.envs e) { env_runs = ((k'.envs e).env_runs + 1) % 2 ^ 32 }) k')
  modify (λ k'. record k' { cur_pgdir = (k'.envs e).env_pgdir })
