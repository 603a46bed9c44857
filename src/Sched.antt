-- ===== src/Sched.antt =====
-- The scheduler of kern/sched.c, and `env_destroy` of kern/env.c, which calls it.
pub mod Inv
pub mod Pick
pub mod Turns
use os_lab5_challenge.Base.{
  ℕ, ◌+◌, ◌-◌, ◌%◌, ◌^◌, Bool, true, false, ◌||◌, Option, none, some, leb, ◌==◌, if◌then◌else◌, M,
  panic, pure, ◌>>=◌, ◌>>◌, modify, get,
}
use os_lab5_challenge.Tailq
use os_lab5_challenge.Kernel.{Kernel, K, is_runnable}
use os_lab5_challenge.Env.{env_run, env_free}

-- `count <= 0`, for an `int` as its 32-bit pattern.
abbrev pub spent : ℕ → Bool
spent count = (count == 0) || leb (2 ^ 31) count

-- `count = e->env_pri; env_run(e)`. Reading through NULL faults before the test for NULL is reached.
unfoldable pub run_next : Option ℕ → K (Unit {0})
run_next none = λ _. panic
run_next (some e) = do modify (λ k. record k { slices = (k.envs e).env_pri }); env_run e

unfoldable pub run_first : K (Unit {0})
unfolding run_next
run_first = do k ← get; run_next k.env_sched_list.first

-- TAILQ_REMOVE and TAILQ_INSERT_TAIL.
abbrev pub to_tail : ℕ → Kernel → Kernel
to_tail e k = record k { env_sched_list = Tailq.insert_tail (Tailq.remove k.env_sched_list e) e }

-- The branches for a runnable previous env, and for none.
unfoldable pub schedule_from : Option ℕ → Bool → K (Unit {0})
unfolding run_first
schedule_from none yields = run_first
schedule_from (some e) yields = do
  k ← get
  if is_runnable (k.envs e).env_status
      then (if yields || spent k.slices then (do modify (to_tail e); run_first) else env_run e)
      else run_first

unfoldable pub schedule : Bool → K (Unit {0})
unfolding schedule_from
schedule yields = do
  modify (λ k. record k { slices = (k.slices + 2 ^ 32 - 1) % 2 ^ 32 })
  k ← get
  schedule_from k.curenv yields

-- `schedule` does not come back: `true` says that another env runs now.
unfoldable pub destroy_current : ℕ → Option ℕ → K Bool
destroy_current e none = pure false
destroy_current e (some c) =
    if c == e
    then (do modify (λ k. record k { curenv = none }); schedule true; pure true)
    else pure false

unfoldable pub env_destroy : ℕ → K Bool
unfolding destroy_current
env_destroy e = do env_free e; k ← get; destroy_current e k.curenv
