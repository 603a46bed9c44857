-- ===== src/Start.antt =====
-- The envs at boot: `env_init`, `map_segment`, `load_icode` and `env_create` of kern/env.c.
pub mod Lists
use os_lab5_challenge.Base.{
  ℕ, zero, suc, ◌+◌, ◌-◌, ◌*◌, ◌/◌, ◌%◌, ◌^◌, Bool, ◌&&◌, Option, none, some, List, [], ◌∷◌, ltb,
  leb, ◌==◌, if◌then◌else◌, M, panic, pure, ◌>>=◌, ◌>>◌, require, modify, get, Result, ok, err,
}
use os_lab5_challenge.Tailq
use os_lab5_challenge.Pmap.{Machine, Mem, page_alloc, page_insert, page2kva, pa2page, incref}
use os_lab5_challenge.Kernel.{free, runnable, Env, Kernel, K, on_mem, set_env}
use os_lab5_challenge.Env.{env_alloc}
use os_lab5_challenge.Elf.{Call, Phdr, Ehdr, elf_from, elf_load_seg}

-- The rounds that are left, and the bytes that are mapped. What `page_insert` reports is dropped.
unfoldable pub map_pages : ℕ → ℕ → (pgdir asid pa va perm : ℕ) → Mem (Unit {0})
map_pages zero i pgdir asid pa va perm = pure tt
map_pages (suc n) i pgdir asid pa va perm = do
  pp ← pa2page (pa + i)
  page_insert pgdir asid pp (va + i) perm
  map_pages n (i + 4096) pgdir asid pa va perm

unfoldable pub map_segment : (pgdir asid pa va size perm : ℕ) → Mem (Unit {0})
unfolding map_pages
map_segment pgdir asid pa va size perm = do
  require (pa % 4096 == 0)
  require (va % 4096 == 0)
  require (size % 4096 == 0)
  map_pages (size / 4096) 0 pgdir asid pa va perm

-- The loop of `env_init`, from env `n - 1` down to 0.
unfoldable pub free_envs : ℕ → Kernel → Kernel
free_envs zero k = k
free_envs (suc n) k =
    let k1 = set_env n (record (k.envs n) { env_status = free }) k in
    free_envs n (record k1 { env_free_list = n ∷ k1.env_free_list })

-- The first two steps of `env_init`.
unfoldable pub init_lists : Kernel → Kernel
unfolding free_envs
init_lists k =
    free_envs 1024 (record k { env_free_list = []; env_sched_list = Tailq.init k.env_sched_list })

abbrev pub or_panic : {A : Type 0} → Result A → K A
or_panic (ok a) = pure a
or_panic (err e) = λ _. panic

-- The physical addresses of `pages` and `envs` are arguments; a `struct Page` takes 12 bytes and a
-- `struct Env` 220. PTE_G is 256.
unfoldable pub env_init : (pages_pa envs_pa : ℕ) → K (Unit {0})
unfolding init_lists map_segment
env_init pages_pa envs_pa = do
  modify init_lists
  p ← on_mem page_alloc >>= or_panic
  on_mem (modify (incref p))
  kva ← on_mem (page2kva p)
  modify (λ k. record k { base_pgdir = kva })
  k ← get
  on_mem (map_segment kva 0 pages_pa 0x7f800000 ((k.mem.npage * 12 + 4095) / 4096 * 4096) 256)
  on_mem (map_segment kva 0 envs_pa 0x7f400000 (1024 * 220) 256)

-- Byte `x` of a page, and a page written byte by byte.
abbrev pub page_byte : (ℕ → ℕ) → ℕ → ℕ
page_byte w x = w (x / 4) / 256 ^ (x % 4) % 256

abbrev pub page_word : (ℕ → ℕ) → ℕ → ℕ
page_word f i = f (i * 4) + f (i * 4 + 1) * 256 + f (i * 4 + 2) * 65536 + f (i * 4 + 3) * 16777216

-- `memcpy((void *)(page2kva(p) + offset), src, len)`
abbrev pub copy_in : (ℕ → ℕ) → (p offset src len : ℕ) → Machine → Machine
copy_in binary p offset src len m = record m {
  word = λ q i.
      if p == q
      then page_word
          (λ x.
            if leb offset x && ltb x (offset + len)
            then binary (src + (x - offset))
            else page_byte (m.word q) x)
          i
      else m.word q i;
}

abbrev pub copy_source : (ℕ → ℕ) → (p offset len : ℕ) → Option ℕ → Mem (Unit {0})
copy_source binary p offset len none = pure tt
copy_source binary p offset len (some src) = do
  kva ← page2kva p
  modify (copy_in binary kva offset src len)

abbrev pub map_loaded : (ℕ → ℕ) → ℕ → Call → Result ℕ → K (Result (Unit {0}))
map_loaded binary e c (err x) = pure (err x)
map_loaded binary e c (ok p) = do
  on_mem (copy_source binary p c.offset c.len c.src)
  k ← get
  on_mem (page_insert (k.envs e).env_pgdir (k.envs e).env_asid p c.va c.perm)

-- `binary` maps addresses to bytes.
unfoldable pub load_icode_mapper : (ℕ → ℕ) → ℕ → Call → K (Result (Unit {0}))
load_icode_mapper binary e c = on_mem page_alloc >>= map_loaded binary e c

-- What `load_icode` reads of a program header besides the segment itself.
pub record Segment : Type 0 where
  pub p_type : ℕ
  pub p_offset : ℕ
  pub phdr : Phdr

unfoldable pub load_segments : (ℕ → ℕ) → (base e : ℕ) → List Segment → K (Unit {0})
load_segments binary base e [] = pure tt
load_segments binary base e (s ∷ ss) = do
  if s.p_type == 1
      then (elf_load_seg (load_icode_mapper binary e) s.phdr (base + s.p_offset) >>= or_panic)
      else pure tt
  load_segments binary base e ss

abbrev pub load_elf : (ℕ → ℕ) → (base e : ℕ) → List Segment → Option Ehdr → K (Unit {0})
load_elf binary base e ss none = λ _. panic
load_elf binary base e ss (some ehdr) = do
  load_segments binary base e ss
  modify (λ k.
      set_env e
        (record (k.envs e) { env_tf = record ((k.envs e).env_tf) { cp0_epc = ehdr.e_entry } }) k)

-- `ehdr` and `ss` are the headers that stand in the binary at `base`.
unfoldable pub load_icode : (ℕ → ℕ) → (base size e : ℕ) → Ehdr → List Segment → K (Unit {0})
load_icode binary base size e ehdr ss = load_elf binary base e ss (elf_from ehdr size)

-- The result of `env_alloc` is dropped; after a failure `e` is not set, and what follows is undefined.
unfoldable pub env_create : (ℕ → ℕ) → (base size priority : ℕ) → Ehdr → List Segment → K ℕ
env_create binary base size priority ehdr ss = do
  e ← env_alloc 0 >>= or_panic
  modify (λ k. set_env e (record (k.envs e) { env_pri = priority; env_status = runnable }) k)
  load_icode binary base size e ehdr ss
  modify (λ k. record k { env_sched_list = Tailq.insert_head k.env_sched_list e })
  pure e
