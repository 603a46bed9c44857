-- ===== src/Env/Ids.antt =====
-- Env ids: what `mkenvid` makes, and what `envid2env` accepts.
use os_lab5_challenge.Base.{
  ◌↔◌, ℕ, ◌+◌, ◌*◌, ◌/◌, ◌%◌, ◌^◌, ◌<◌, ◌≡◌, refl, sym, ◌∙◌, ◌≢◌, Bool, true, false, ◌||◌, arith,
  ==_ne, ==_iff, Bool-cases, inl, inr, ap, ◌==◌, if◌then◌else◌, ◌⊎◌, done, ok, err, Result, some,
  bit_or, bad_env, or-cases, or-none,
}
use native.Mathlib.Decide.{ℕ_discrete}
use os_lab5_challenge.Kernel.{Kernel, is_free}
use os_lab5_challenge.Base.Digits.{bit_or_eleven}
use os_lab5_challenge.Env.{nenv, mkenvid, envx, may_act, current, envid2env}

-- The id is the number of the call above the index.
mkenvid-value :
    (e : ℕ) (k : Kernel)
    → e < nenv
    → let i = (k.made_ids + 1) % 2 ^ 32 in
      mkenvid e k ≡ done (i % 2 ^ 21 * 2048 + e) (record k { made_ids = i })
unfolding mkenvid
mkenvid-value e k h =
    let i = (k.made_ids + 1) % 2 ^ 32 in
    let shift : i * 2048 % 2 ^ 32 ≡ i % 2 ^ 21 * 2048 = omega arith in
    ap (λ x. done x (record k { made_ids = i }))
      (ap (λ x. bit_or x e) shift ∙ bit_or_eleven (i % 2 ^ 21) e (omega (arith, h)))

-- For the index of an env and the first 2^21 - 1 calls, `mkenvid` makes a nonzero `u_int` that names the
-- index and the number of the call, so no two of these ids are equal.
pub mkenvid_lem :
    (e : ℕ) (k : Kernel)
    → e < nenv
    → k.made_ids + 1 < 2 ^ 21
    → (id : ℕ) × (mkenvid e k ≡ done id (record k { made_ids = k.made_ids + 1 }))
      × (envx id ≡ e)
      × (id / 2048 ≡ k.made_ids + 1)
      × (0 < id)
      × (id < 2 ^ 32)
mkenvid_lem e k h small =
    let i = k.made_ids + 1 in
    let same : (k.made_ids + 1) % 2 ^ 32 ≡ i = omega (arith, small) in
    let serial : i % 2 ^ 21 ≡ i = omega (arith, small) in
    (
      i * 2048 + e,
      mkenvid-value e k h
          ∙ ap (λ x. done (x % 2 ^ 21 * 2048 + e) (record k { made_ids = x })) same
          ∙ ap (λ x. done (x * 2048 + e) (record k { made_ids = i })) serial,
      omega (arith, h),
      omega (arith, h),
      omega arith,
      omega (arith, h, small),
    )

-- The env at this index is live and has this id.
pub record IsNamed (k : Kernel) (envid : ℕ) : Type 0 where
  pub nonzero : envid ≢ 0
  pub live : is_free (k.envs (envx envid)).env_status ≡ false
  pub same_id : (k.envs (envx envid)).env_id ≡ envid

-- `curenv` is the env, or its parent.
pub record IsOwn (k : Kernel) (c e : ℕ) : Type 0 where
  pub holds : (e ≡ c) ⊎ ((k.envs e).env_parent_id ≡ (k.envs c).env_id)

-- What `envid2env` answers while `c` is the current env.
pub data Answers (k : Kernel) (c envid : ℕ) (checkperm : Bool) : Result ℕ → Type 0 where
  itself : envid ≡ 0 → Answers k c envid checkperm (ok c)
  unknown : envid ≢ 0 → ¬ IsNamed k envid → Answers k c envid checkperm (err bad_env)
  unchecked : IsNamed k envid → checkperm ≡ false → Answers k c envid checkperm (ok (envx envid))
  permitted :
      IsNamed k envid
      → checkperm ≡ true
      → IsOwn k c (envx envid)
      → Answers k c envid checkperm (ok (envx envid))
  refused :
      IsNamed k envid
      → checkperm ≡ true
      → ¬ IsOwn k c (envx envid)
      → Answers k c envid checkperm (err bad_env)

module _ (k : Kernel) (c : ℕ) (cur : k.curenv ≡ some c) where
  may_act_lem :
      (e : ℕ) → (b : Bool) × (may_act k.curenv e k ≡ done b k) × ((b ≡ true) ↔ IsOwn k c e)
  unfolding may_act
  may_act_lem e =
      let same = e == c in
      let child = (k.envs e).env_parent_id == (k.envs c).env_id in
      (
        same || child,
        ap (λ o. may_act o e k) cur,
        (
          λ t. record {
            holds = elim (or-cases same child t) [
              | inl s ↦ inl ((==_iff e c).0 s)
              | inr s ↦ inr ((==_iff _ (k.envs c).env_id).0 s)
            ];
          },
          λ o. elim o.holds [
            | inl s ↦ rw ((==_iff e c).1 s)
            | inr s ↦ either same child ((==_iff _ (k.envs c).env_id).1 s)
          ],
        ),
      )
    where
      either : (x y : Bool) → y ≡ true → (x || y) ≡ true
      either x y t = ground arith

  module _ (envid : ℕ) (ne : envid ≢ 0) where
    same_id : Bool
    same_id = (k.envs (envx envid)).env_id == envid

    -- The test of `envid2env` that rejects an id.
    stale : Bool
    stale = is_free (k.envs (envx envid)).env_status || (if same_id then false else true)

    stale-not-IsNamed : stale ≡ true → ¬ IsNamed k envid
    unfolding stale same_id
    stale-not-IsNamed t n = clash (rw (n.live, (==_iff _ envid).1 n.same_id) at t)
      where
        clash : false ≡ true → ⊥
        clash h = cc

    fresh-IsNamed : stale ≡ false → IsNamed k envid
    unfolding stale same_id
    fresh-IsNamed f =
        let (live, same) = or-none (is_free _) (if same_id then false else true) f in
        record { nonzero = ne; live = live; same_id = (==_iff _ envid).0 (affirm same_id same) }
      where
        affirm : (b : Bool) → (if b then false else true) ≡ false → b ≡ true
        affirm b h = ground arith

    named_answer :
        (checkperm : Bool)
        → IsNamed k envid
        → stale ≡ false
        → (r : Result ℕ) × (envid2env envid checkperm k ≡ done r k) × Answers k c envid checkperm r
    unfolding envid2env stale same_id
    named_answer false n f = (ok (envx envid), rw (==_ne envid 0 ne, f), unchecked n refl)
    named_answer true n f =
        let (b, run, means) = may_act_lem (envx envid) in
        elim (Bool-cases b) [
          | inl t ↦
              (ok (envx envid), rw (==_ne envid 0 ne, f, run, t), permitted n refl (means.0 t))
          | inr t ↦ (
            err bad_env,
            rw (==_ne envid 0 ne, f, run, t),
            refused n refl λ o. clash (sym t ∙ means.1 o),
          )
        ]
      where
        clash : false ≡ true → ⊥
        clash h = cc

  -- While there is a current env, `envid2env` changes nothing and always answers. It accepts 0 for the
  -- current env, and otherwise exactly the ids of live envs, with `checkperm` only those of the current
  -- env and its children; it answers -E_BAD_ENV to every other id.
  pub envid2env_lem :
      (envid : ℕ) (checkperm : Bool)
      → (r : Result ℕ) × (envid2env envid checkperm k ≡ done r k) × Answers k c envid checkperm r
  unfolding envid2env current stale same_id
  envid2env_lem envid checkperm = elim (ℕ_discrete envid 0) [
    | yes z ↦ (ok c, rw ((==_iff envid 0).1 z) (ap (λ o. current o k) cur), itself z)
    | no ne ↦ elim (Bool-cases (stale envid ne)) [
      | inl t ↦ (err bad_env, rw (==_ne envid 0 ne, t), unknown ne (stale-not-IsNamed envid ne t))
      | inr f ↦ named_answer envid ne checkperm (fresh-IsNamed envid ne f) f
    ]
  ]
