-- ===== src/Tests/Scheduling.antt =====
-- The scheduler, its queue and the env ids at work.
use os_lab5_challenge.Base.{ℕ, ◌≡◌, refl, true, false, [], ◌∷◌, done, Result, some, arith, erase}
use os_lab5_challenge.Tailq.{remove}
use os_lab5_challenge.Tailq.Chain.{Holds}
use os_lab5_challenge.Tailq.Remove.{remove-Holds}
use os_lab5_challenge.Kernel.{Kernel}
use os_lab5_challenge.Env.{envid2env}
use os_lab5_challenge.Env.Ids.{Answers, envid2env_lem}
use os_lab5_challenge.Sched.{schedule}
use os_lab5_challenge.Sched.Inv.{IsQueued}
use os_lab5_challenge.Sched.Pick.{Scheduled, schedule_lem}
use os_lab5_challenge.Sched.Turns.{schedule_times, turn_comes, slices_last}
use os_lab5_challenge.Tests.World.{world, queue, order, queue-Holds, world-IsQueued, envs}

remove_example : Holds (remove queue 0) (erase 0 order)
remove_example = remove-Holds queue 0 order queue-Holds refl

schedule_example : Scheduled world false order
schedule_example = schedule_lem world false order world-IsQueued (omega arith)

turn_example :
    (k : Kernel) × (schedule_times 1 true world ≡ done tt k)
    × IsQueued k (1 ∷ 0 ∷ [])
    × (k.curenv ≡ some 1)
turn_example = turn_comes world (0 ∷ []) 1 [] world-IsQueued refl

slices_example :
    (k1 k' : Kernel) × (schedule_times 1 false world ≡ done tt k1)
    × (k1.curenv ≡ some 0)
    × (schedule false k1 ≡ done tt k')
    × IsQueued k' (1 ∷ 0 ∷ [])
    × (k'.curenv ≡ some 1)
    × ((e : ℕ) → k'.curenv ≡ some e → k'.slices ≡ (envs e).env_pri)
slices_example = slices_last 1 world 0 (1 ∷ []) world-IsQueued refl refl (omega arith)

envid2env_example :
    (r : Result ℕ) × (envid2env 6146 true world ≡ done r world) × Answers world 0 6146 true r
envid2env_example = envid2env_lem world 0 refl 6146 true
