-- ===== src/Sched/Pick.antt =====
-- What `schedule` chooses, on every branch.
use os_lab5_challenge.Base.{
  ℕ, ◌+◌, ◌-◌, ◌%◌, ◌^◌, ◌<◌, ◌≡◌, refl, sym, ◌∙◌, Bool, true, false, ◌||◌, arith, ==_self, ==_ne,
  ==_iff, Bool-cases, inl, inr, ap, ◌==◌, has, List, [], ◌∷◌, ◌++◌, done, none, some, subst, length,
  Option-cases, erase, has-append, has-erase_ne, has-erase_self, length-append,
}
use native.Mathlib.Decide.{ℕ_discrete}
use os_lab5_challenge.Tailq
use os_lab5_challenge.Tailq.{Tailq, first_of, next_of}
use os_lab5_challenge.Tailq.Laws.{insert_tail-Holds}
use os_lab5_challenge.Tailq.Remove.{remove-Holds}
use os_lab5_challenge.Kernel.{Kernel}
use os_lab5_challenge.Env.{env_run}
use os_lab5_challenge.Sched.{run_next, run_first, schedule_from, schedule, spent, to_tail}
use os_lab5_challenge.Sched.Inv.{
  IsQueued, entered, env_run_lem, entered-field, entered-IsQueued, Runs, same_envs-Runs,
  entered-saved, save_context-mem, save_context-slices,
}

-- One tick less on the counter, which is a 32-bit `int`.
abbrev pub ticked : Kernel → Kernel
ticked k = record k { slices = (k.slices + 2 ^ 32 - 1) % 2 ^ 32 }

-- Whether the current env gives way: it yields, or has used its slices up.
abbrev pub gives_way : Kernel → Bool → Bool
gives_way k yields = yields || spent (ticked k).slices

-- What `schedule` is to choose: the env that runs, the order of the queue afterwards, and the time
-- slices.
pub data Picks (k : Kernel) (yields : Bool) (l : List ℕ) (e : ℕ) (l' : List ℕ) (n : ℕ)
    : Type 0 where
  stays :
      k.curenv ≡ some e
      → has e l ≡ true
      → gives_way k yields ≡ false
      → l' ≡ l
      → n ≡ (ticked k).slices
      → Picks k yields l e l' n
  moves_on :
      (c : ℕ) (rest : List ℕ)
      → k.curenv ≡ some c
      → has c l ≡ true
      → gives_way k yields ≡ true
      → l' ≡ erase c l ++ (c ∷ [])
      → l' ≡ e ∷ rest
      → n ≡ (k.envs e).env_pri
      → Picks k yields l e l' n
  starts :
      (rest : List ℕ)
      → ((c : ℕ) → k.curenv ≡ some c → has c l ≡ false)
      → l' ≡ l
      → l' ≡ e ∷ rest
      → n ≡ (k.envs e).env_pri
      → Picks k yields l e l' n

ticked-IsQueued :
    {k : Kernel} {l : List ℕ} (n : ℕ) → IsQueued k l → IsQueued (record k { slices = n }) l
ticked-IsQueued n q = record { queue = q.queue; exact = q.exact }

entered-Runs : (e : ℕ) {k : Kernel} {l : List ℕ} → IsQueued k l → Runs e l k.slices k (entered e k)
entered-Runs e {k} q = record {
  current = refl;
  queued = entered-IsQueued e q;
  slices = save_context-slices k.curenv k;
  kept = λ x t n.
      entered-field (λ v. record v { env_tf = t; env_runs = n }) e k x (λ v t'. refl, λ v n'. refl);
  saved = entered-saved e k;
  same_mem = save_context-mem k.curenv k;
}

-- The head of the queue is run with its priority as its slices.
run_first_lem :
    {k : Kernel} (e : ℕ) (rest : List ℕ)
    → IsQueued k (e ∷ rest)
    → (k' : Kernel) × (run_first k ≡ done tt k') × Runs e (e ∷ rest) (k.envs e).env_pri k k'
unfolding run_first run_next
run_first_lem {k} e rest q =
    let k1 = record k { slices = (k.envs e).env_pri } in
    let runs = entered-Runs e (ticked-IsQueued (k.envs e).env_pri q) in
    (
      entered e k1,
      ap (λ f. run_next f k) q.queue.chain.0 ∙ env_run_lem e k1 (sym (q.exact e) ∙ rw (==_self e)),
      same_envs-Runs runs refl refl refl refl,
    )

-- Moving an env of the queue to its tail.
to_tail-IsQueued :
    {k : Kernel} (c : ℕ) {l : List ℕ}
    → IsQueued k l
    → has c l ≡ true
    → IsQueued (to_tail c k) (erase c l ++ (c ∷ []))
to_tail-IsQueued {k} c {l} q h = record {
  queue =
      insert_tail-Holds (Tailq.remove k.env_sched_list c) c (erase c l)
        (remove-Holds k.env_sched_list c l q.queue h) (has-erase_self c l q.queue.distinct);
  exact = λ x. here x ∙ q.exact x;
}
  where
    here : (x : ℕ) → has x (erase c l ++ (c ∷ [])) ≡ has x l
    here x = elim (ℕ_discrete c x) [
      | yes e ↦
          has-append x (erase c l) (c ∷ [])
          ∙ at_end (has x (erase c l)) (c == x) ((==_iff c x).1 e)
          ∙ sym (subst (λ y. has y l ≡ true) e h)
      | no n ↦
          has-append x (erase c l) (c ∷ [])
          ∙ elsewhere (has x (erase c l)) (c == x) (==_ne c x n)
          ∙ has-erase_ne c x l n
    ]
      where
        at_end : (a b : Bool) → b ≡ true → (a || (b || false)) ≡ true
        at_end a b t = ground arith

        elsewhere : (a b : Bool) → b ≡ false → (a || (b || false)) ≡ a
        elsewhere a b t = ground arith

-- A run of `schedule`, as its caller sees it.
abbrev pub Scheduled : Kernel → Bool → List ℕ → Type 0
Scheduled k yields l =
    (k' : Kernel) × (e : ℕ) × (l' : List ℕ) × (n : ℕ) × (schedule yields k ≡ done tt k')
    × Runs e l' n k k'
    × Picks k yields l e l' n

-- The head of a queue that is not empty.
nonempty : (l : List ℕ) → 0 < length l → (e : ℕ) × (rest : List ℕ) × (l ≡ e ∷ rest)
nonempty [] h = absurd (omega (arith, h))
nonempty (e ∷ rest) h = (e, rest, refl)

module _ (k : Kernel) (yields : Bool) (l : List ℕ) (q : IsQueued k l) where
  -- From the head of `l`, when no env of the queue has run last.
  starts_first :
      schedule yields k ≡ run_first (ticked k)
      → ((c : ℕ) → k.curenv ≡ some c → has c l ≡ false)
      → 0 < length l
      → Scheduled k yields l
  starts_first same out h =
      let (e, rest, split) = nonempty l h in
      let (k', run, r) =
        run_first_lem e rest (subst (IsQueued (ticked k)) split (ticked-IsQueued _ q)) in
      (
        k',
        e,
        l,
        (k.envs e).env_pri,
        same ∙ run,
        subst (λ t. Runs e t (k.envs e).env_pri k k') (sym split)
            (same_envs-Runs r refl refl refl refl),
        starts rest out refl split refl,
      )

  module _ (c : ℕ) (cur : k.curenv ≡ some c) where
    move_on :
        schedule yields k ≡ run_first (to_tail c (ticked k))
        → has c l ≡ true
        → gives_way k yields ≡ true
        → Scheduled k yields l
    move_on same on way =
        let l' = erase c l ++ (c ∷ []) in
        let moved = to_tail-IsQueued c (ticked-IsQueued (ticked k).slices q) on in
        let (e, rest, split) =
          nonempty l' (rw (length-append (erase c l) (c ∷ [])) (omega arith)) in
        let (k', run, r) =
          run_first_lem e rest (subst (IsQueued (to_tail c (ticked k))) split moved) in
        (
          k',
          e,
          l',
          (k.envs e).env_pri,
          same ∙ run,
          subst (λ t. Runs e t (k.envs e).env_pri k k') (sym split)
              (same_envs-Runs r refl refl refl refl),
          moves_on c rest cur on way refl split refl,
        )

    stay :
        schedule yields k ≡ env_run c (ticked k)
        → has c l ≡ true
        → gives_way k yields ≡ false
        → Scheduled k yields l
    stay same on way =
        let r = entered-Runs c (ticked-IsQueued (ticked k).slices q) in
        (
          entered c (ticked k),
          c,
          l,
          (ticked k).slices,
          same ∙ env_run_lem c (ticked k) (sym (q.exact c) ∙ on),
          same_envs-Runs r refl refl refl refl,
          stays cur on way refl refl,
        )

    with_previous : 0 < length l → Scheduled k yields l
    unfolding schedule schedule_from
    with_previous h =
        let same : schedule yields k ≡ schedule_from (some c) yields (ticked k) =
          ap (λ o. schedule_from o yields (ticked k)) cur in
        elim (Bool-cases (has c l)) [
          | inr off ↦
              starts_first (same ∙ rw (sym (q.exact c) ∙ off))
                (λ d e. subst (λ x. has x l ≡ false) (some_inj (sym cur ∙ e)) off) h
          | inl on ↦ elim (Bool-cases (gives_way k yields)) [
            | inl way ↦ move_on (same ∙ rw (sym (q.exact c) ∙ on, way)) on way
            | inr way ↦ stay (same ∙ rw (sym (q.exact c) ∙ on, way)) on way
          ]
        ]
      where
        some_inj : {a b : ℕ} → some a ≡ some b → a ≡ b
        some_inj e = cc

  -- With `env_sched_list` in order and not empty, `schedule` always leaves for an env of it: the one
  -- that `Picks` names, with the queue and the time slices that `Runs` names, and the context of the
  -- env that ran before saved.
  pub schedule_lem : 0 < length l → Scheduled k yields l
  unfolding schedule schedule_from
  schedule_lem h = elim (Option-cases k.curenv) [
    | inl e ↦
        starts_first (ap (λ o. schedule_from o yields (ticked k)) e)
          (λ c s. absurd (clash c (sym e ∙ s))) h
    | inr (c, e) ↦ with_previous c e h
  ]
    where
      clash : (c : ℕ) → none ≡ some c → ⊥
      clash c s = cc
