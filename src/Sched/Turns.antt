-- ===== src/Sched/Turns.antt =====
-- Fairness of `schedule`: turns and time slices.
use os_lab5_challenge.Base.{
  ℕ, zero, suc, ◌^◌, ◌<◌, ◌≡◌, refl, sym, ◌∙◌, Bool, true, false, arith, ==_self, ap, ◌==◌, has,
  List, [], ◌∷◌, ◌++◌, done, Option, none, some, pure, ◌>>◌, and_then, subst, length, erase,
}
use mathlib.Core.List.{append_assoc, append-nil}
use os_lab5_challenge.Kernel.{Kernel, K}
use os_lab5_challenge.Sched.{schedule}
use os_lab5_challenge.Sched.Inv.{IsQueued, Runs-field}
use os_lab5_challenge.Sched.Pick.{Picks, stays, moves_on, starts, schedule_lem, gives_way, ticked}

-- `schedule` called `n` times, by `sys_yield` or by the timer.
unfoldable pub schedule_times : ℕ → Bool → K (Unit {0})
schedule_times zero yields = pure tt
schedule_times (suc n) yields = schedule yields >> schedule_times n yields

abbrev pub head : List ℕ → Option ℕ
head [] = none
head (x ∷ xs) = some x

some_inj : {a b : ℕ} → some a ≡ some b → a ≡ b
some_inj e = cc

erase_head : (c : ℕ) (xs : List ℕ) → erase c (c ∷ xs) ≡ xs
unfolding erase
erase_head c xs = rw (==_self c)

-- The head of the queue gives way to the one behind it.
gives_turn :
    (k : Kernel) (c : ℕ) (xs : List ℕ) (yields : Bool)
    → IsQueued k (c ∷ xs)
    → k.curenv ≡ some c
    → gives_way k yields ≡ true
    → (k' : Kernel) × (schedule yields k ≡ done tt k')
      × IsQueued k' (xs ++ (c ∷ []))
      × (k'.curenv ≡ head (xs ++ (c ∷ [])))
      × ((e : ℕ) → k'.curenv ≡ some e → k'.slices ≡ (k.envs e).env_pri)
      × ((x : ℕ) → (k'.envs x).env_pri ≡ (k.envs x).env_pri)
gives_turn k c xs yields q cur way =
    let (k', e, l', n, run, r, picks) = schedule_lem k yields (c ∷ xs) q (omega arith) in
    let (order, front, pri) = chosen e l' n picks in
    (
      k',
      run,
      subst (IsQueued k') order r.queued,
      r.current ∙ front ∙ ap head order,
      λ x same. r.slices ∙ pri ∙ ap (λ y. (k.envs y).env_pri) (some_inj (sym r.current ∙ same)),
      Runs-field (λ v. v.env_pri) r (λ v. refl),
    )
  where
    chosen :
        (e : ℕ) (l' : List ℕ) (n : ℕ)
        → Picks k yields (c ∷ xs) e l' n
        → (l' ≡ xs ++ (c ∷ [])) × (some e ≡ head l') × (n ≡ (k.envs e).env_pri)
    chosen e l' n (stays h1 h2 h3 h4 h5) = absurd (clash (sym way ∙ h3))
      where
        clash : true ≡ false → ⊥
        clash h = cc
    chosen e l' n (moves_on d rest h1 h2 h3 h4 h5 h6) =
        let same : d ≡ c = some_inj (sym h1 ∙ cur) in
        (
          h4
              ∙ ap (λ z. erase z (c ∷ xs) ++ (z ∷ [])) same
              ∙ ap (λ t. t ++ (c ∷ [])) (erase_head c xs),
          sym (ap head h5),
          h6,
        )
    chosen e l' n (starts rest h1 h2 h3 h4) = absurd (clash (sym (h1 c cur)) (==_self c))
      where
        clash : false ≡ has c (c ∷ xs) → (c == c) ≡ true → ⊥
        clash h t = ground arith

-- A tick leaves the env running that has slices left.
keeps_turn :
    (k : Kernel) (c : ℕ) (xs : List ℕ) (n : ℕ)
    → IsQueued k (c ∷ xs)
    → k.curenv ≡ some c
    → k.slices ≡ suc (suc n)
    → suc (suc n) < 2 ^ 31
    → (k' : Kernel) × (schedule false k ≡ done tt k')
      × IsQueued k' (c ∷ xs)
      × (k'.curenv ≡ some c)
      × (k'.slices ≡ suc n)
      × ((x : ℕ) → (k'.envs x).env_pri ≡ (k.envs x).env_pri)
keeps_turn k c xs n q cur have small =
    let (k', e, l', m, run, r, picks) = schedule_lem k false (c ∷ xs) q (omega arith) in
    let (same, order, left) = chosen e l' m picks in
    (
      k',
      run,
      subst (IsQueued k') order r.queued,
      r.current ∙ ap some same,
      r.slices ∙ left,
      Runs-field (λ v. v.env_pri) r (λ v. refl),
    )
  where
    left : (ticked k).slices ≡ suc n
    left = omega (arith, have, small)

    keeps : gives_way k false ≡ false
    keeps = rw left (ground (arith, small))

    chosen :
        (e : ℕ) (l' : List ℕ) (m : ℕ)
        → Picks k false (c ∷ xs) e l' m
        → (e ≡ c) × (l' ≡ c ∷ xs) × (m ≡ suc n)
    chosen e l' m (stays h1 h2 h3 h4 h5) = (some_inj (sym h1 ∙ cur), h4, h5 ∙ left)
    chosen e l' m (moves_on d rest h1 h2 h3 h4 h5 h6) = absurd (clash (sym h3 ∙ keeps))
      where
        clash : true ≡ false → ⊥
        clash h = cc
    chosen e l' m (starts rest h1 h2 h3 h4) = absurd (clash (sym (h1 c cur)) (==_self c))
      where
        clash : false ≡ has c (c ∷ xs) → (c == c) ≡ true → ⊥
        clash h t = ground arith

-- Round robin: with the queue in order and its head running, the env that is behind the envs of
-- `before` in `env_sched_list` runs after as many yields as there are envs before it.
pub turn_comes :
    (k : Kernel) (before : List ℕ) (e : ℕ) (after : List ℕ)
    → IsQueued k (before ++ (e ∷ after))
    → k.curenv ≡ head (before ++ (e ∷ after))
    → (k' : Kernel) × (schedule_times (length before) true k ≡ done tt k')
      × IsQueued k' (e ∷ (after ++ before))
      × (k'.curenv ≡ some e)
unfolding schedule_times
turn_comes k [] e after q cur =
    (k, refl, subst (λ t. IsQueued k (e ∷ t)) (sym (append-nil after)) q, cur)
turn_comes k (c ∷ before) e after q cur =
    let (k1, run, queued, front, _, _) = gives_turn k c (before ++ (e ∷ after)) true q cur refl in
    let order : (before ++ (e ∷ after)) ++ (c ∷ []) ≡ before ++ (e ∷ (after ++ (c ∷ []))) =
      append_assoc before (e ∷ after) (c ∷ []) in
    let (k', runs, queued', turn) =
      turn_comes k1 before e (after ++ (c ∷ [])) (subst (IsQueued k1) order queued)
        (front ∙ ap head order) in
    (
      k',
      ap (λ r. and_then r λ _. schedule_times (length before) true) run ∙ runs,
      subst (λ t. IsQueued k' (e ∷ t)) (append_assoc after (c ∷ []) before) queued',
      turn,
    )

-- Time slices: an env at the head of the queue that has `n + 1` of them, less than 2^31, keeps
-- running for `n` ticks of the timer, and with the next tick it goes to the tail of the queue, and
-- the next env of the queue starts with as many slices as its priority says.
pub slices_last :
    (n : ℕ) (k : Kernel) (c : ℕ) (xs : List ℕ)
    → IsQueued k (c ∷ xs)
    → k.curenv ≡ some c
    → k.slices ≡ suc n
    → suc n < 2 ^ 31
    → (k1 k' : Kernel) × (schedule_times n false k ≡ done tt k1)
      × (k1.curenv ≡ some c)
      × (schedule false k1 ≡ done tt k')
      × IsQueued k' (xs ++ (c ∷ []))
      × (k'.curenv ≡ head (xs ++ (c ∷ [])))
      × ((e : ℕ) → k'.curenv ≡ some e → k'.slices ≡ (k.envs e).env_pri)
unfolding schedule_times
slices_last zero k c xs q cur have small =
    let (k', run, queued, front, pri, _) = gives_turn k c xs false q cur (rw have) in
    (k, k', refl, cur, run, queued, front, pri)
slices_last (suc n) k c xs q cur have small =
    let (k1, run, queued, cur1, less, steady) = keeps_turn k c xs n q cur have small in
    let (k2, k', runs, cur2, last, queued', front, pri) =
      slices_last n k1 c xs queued cur1 less (omega arith) in
    (
      k2,
      k',
      ap (λ r. and_then r λ _. schedule_times n false) run ∙ runs,
      cur2,
      last,
      queued',
      front,
      λ x s. pri x s ∙ steady x,
    )
