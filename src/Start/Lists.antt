-- ===== src/Start/Lists.antt =====
-- The lists of envs after `env_init`.
use native.Mathlib.Decide.{ℕ_discrete}
use os_lab5_challenge.Base.{
  ℕ, zero, suc, ◌+◌, ◌≤◌, ◌<◌, ◌≡◌, refl, ◌∙◌, arith, List, [], ◌∷◌, ==_iff, ==_ne, ap,
}
use os_lab5_challenge.Tailq
use os_lab5_challenge.Tailq.Chain.{Holds}
use os_lab5_challenge.Tailq.Laws.{init-Holds}
use os_lab5_challenge.Kernel.{free, Kernel}
use os_lab5_challenge.Start.{free_envs, init_lists}

-- The numbers from `i` on, `n` of them.
abbrev pub range : ℕ → ℕ → List ℕ
range i zero = []
range i (suc n) = i ∷ range (i + 1) n

record HasFreed (n m : ℕ) (k : Kernel) : Type 0 where
  list : k.env_free_list ≡ range n m
  all_free : (e : ℕ) → n ≤ e → e < n + m → (k.envs e).env_status ≡ free
  queue : Holds k.env_sched_list []

free_envs_lem : (n m : ℕ) (k : Kernel) → HasFreed n m k → HasFreed 0 (n + m) (free_envs n k)
unfolding free_envs
free_envs_lem zero m k h = record {
  list = h.list ∙ ap (range 0) (omega arith);
  all_free = λ e p q. h.all_free e p (omega (arith, q));
  queue = h.queue;
}
free_envs_lem (suc n) m k h = onward (
    free_envs_lem n (suc m) _ (record {
      list = ap (λ l. n ∷ l) (h.list ∙ ap (λ i. range i m) (omega arith));
      all_free = λ e p q. elim (ℕ_discrete n e) [
        | yes s ↦ rw ((==_iff n e).1 s)
        | no ne ↦ rw (==_ne n e ne) (h.all_free e (omega (arith, p, ne)) (omega (arith, q)))
      ];
      queue = h.queue;
    }))
  where
    onward : {k' : Kernel} → HasFreed 0 (n + suc m) k' → HasFreed 0 (suc n + m) k'
    onward r = record {
      list = r.list ∙ ap (range 0) (omega arith);
      all_free = λ e p q. r.all_free e p (omega (arith, q));
      queue = r.queue;
    }

-- After the first two steps of `env_init` the free list holds the 1024 envs in the order of the array, all
-- of them are free, and `env_sched_list` is empty.
pub init_lists_lem :
    (k : Kernel)
    → ((init_lists k).env_free_list ≡ range 0 1024)
      × ((e : ℕ) → e < 1024 → ((init_lists k).envs e).env_status ≡ free)
      × Holds (init_lists k).env_sched_list []
unfolding init_lists
init_lists_lem k =
    let start = record k { env_free_list = []; env_sched_list = Tailq.init k.env_sched_list } in
    let h = free_envs_lem 1024 0 start (record {
      list = refl;
      all_free = λ e p q. absurd (omega (arith, p, q));
      queue = init-Holds k.env_sched_list;
    }) in
    (h.list, λ e lt. h.all_free e (omega arith) lt, h.queue)
