-- ===== src/Syscall/Spaces.antt =====
-- The memory that the kernel's envs share, and what the system calls need to know of the caller.
use os_lab5_challenge.Base.{
  true, ap, ℕ, ◌≤◌, ◌<◌, ◌≡◌, refl, Bool, false, arith, ok, err, some, Error, bad_env, done,
}
use os_lab5_challenge.Pmap.{Machine}
use os_lab5_challenge.Kernel.{Kernel, K, is_free}
use os_lab5_challenge.Pmap.{Machine}
use os_lab5_challenge.Pmap.{utemp, utop, has_v, ppn}
use os_lab5_challenge.Pmap.Walk.{entry, entry_target}
use os_lab5_challenge.Pmap.Store.{IsMappable}
use os_lab5_challenge.Pmap.Remove
use os_lab5_challenge.Pmap.Inv.{Roles, dir, Inv}
use os_lab5_challenge.Env.Ids.{Answers, itself, unknown, unchecked, permitted, refused}
use os_lab5_challenge.Syscall.{Outcome, is_illegal_va, as_current, with_current}

-- The page tables are in order, every live env has a page directory, and the current env is live.
pub record HasSpaces (ρ : Roles) (k : Kernel) : Type 0 where
  pub memory : Inv ρ k.mem
  pub spaces : (e : ℕ) → is_free (k.envs e).env_status ≡ false → ρ (k.envs e).env_pgdir ≡ dir
  pub current_live : (c : ℕ) → k.curenv ≡ some c → is_free (k.envs c).env_status ≡ false

-- The machine changes, and page directories stay what they are.
pub same_dirs-HasSpaces :
    {ρ ρ' : Roles} {k : Kernel} {m : Machine}
    → HasSpaces ρ k
    → Inv ρ' m
    → ((p : ℕ) → ρ p ≡ dir → ρ' p ≡ dir)
    → HasSpaces ρ' (record k { mem = m })
same_dirs-HasSpaces h v keep = record {
  memory = v;
  spaces = λ e live. keep _ (h.spaces e live);
  current_live = h.current_live;
}

pub Answers-live :
    {k : Kernel} {c envid e : ℕ} {checkperm : Bool}
    → Answers k c envid checkperm (ok e)
    → is_free (k.envs c).env_status ≡ false
    → is_free (k.envs e).env_status ≡ false
Answers-live (itself z) live = live
Answers-live (unchecked n p) live = n.live
Answers-live (permitted n p o) live = n.live

pub Answers-bad_env :
    {k : Kernel} {c envid : ℕ} {checkperm : Bool} {x : Error}
    → Answers k c envid checkperm (err x)
    → x ≡ bad_env
Answers-bad_env (unknown ne n) = refl
Answers-bad_env (refused n p o) = refl

pub legal-bounds : (va : ℕ) → is_illegal_va va ≡ false → (utemp ≤ va) × (va < utop)
unfolding is_illegal_va
legal-bounds va h = ground arith

abbrev pub with_mem : Kernel → Machine → Kernel
with_mem k m = record k { mem = m }

-- A call always ends, in one of the ways that `P` lists, and the envs' memory is in order again.
abbrev pub Ends : K Outcome → Kernel → (Outcome → Kernel → Type 0) → Type 0
Ends f k P =
    (o : Outcome) × (k' : Kernel) × (f k ≡ done o k') × P o k' × ((ρ' : Roles) × HasSpaces ρ' k')

pub as_current_lem :
    {A : Type 0} {k : Kernel} {c : ℕ} (f : ℕ → K A) → k.curenv ≡ some c → as_current f k ≡ f c k
as_current_lem {k = k} f h = ap (λ o. with_current o f k) h

-- A page that a user address maps may be mapped again.
pub entry-IsMappable :
    {ρ : Roles} {m : Machine} {d va : ℕ}
    → Inv ρ m
    → ρ d ≡ dir
    → va < utop
    → has_v (entry m d va) ≡ true
    → m.pp_ref (ppn (entry m d va)) < 65535
    → IsMappable ρ m (ppn (entry m d va))
entry-IsMappable v rd lt valid room =
    let (_, range, role) = entry_target v rd lt valid in
    record { in_range = range; role = role; not_free = Remove.not_free v rd lt valid; room = room }
