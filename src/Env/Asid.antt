-- ===== src/Env/Asid.antt =====
-- The address space numbers that `asid_bitmap` of kern/env.c keeps.
use os_lab5_challenge.Base.{
  ℕ, zero, suc, ◌+◌, ◌/◌, ◌%◌, ◌<◌, ◌≡◌, refl, sym, ◌≢◌, false, arith, ==_self, ==_ne, ==_iff,
  Bool-cases, inl, inr, ◌==◌, done, ok, err, Result, subst, no_free_env,
}
use native.Mathlib.Decide.{ℕ_discrete}
use os_lab5_challenge.Kernel.{Kernel}
use os_lab5_challenge.Base.Digits.{
  digit, set-digit_self, set-digit_ne, clear-digit_self, clear-digit_ne,
}
use os_lab5_challenge.Env.{asid_bit, asid_set, asid_clear, asid_from, asid_alloc, asid_free, nasid}

module _ (b : ℕ → ℕ) (i : ℕ) where
  asid_set_self : asid_bit (asid_set b i) i ≡ 1
  asid_set_self = rw (==_self (i / 32)) (set-digit_self (i % 32) (b (i / 32)))

  asid_clear_self : asid_bit (asid_clear b i) i ≡ 0
  asid_clear_self = rw (==_self (i / 32)) (elim (Bool-cases (asid_bit b i == 1)) [
    | inl t ↦ rw t (clear-digit_self (i % 32) (b (i / 32)) ((==_iff (asid_bit b i) 1).0 t))
    | inr f ↦ rw f (ground (arith, f))
  ])

  module _ (j : ℕ) (h : i ≢ j) where
    asid_set-ne : asid_bit (asid_set b i) j ≡ asid_bit b j
    asid_set-ne = elim (ℕ_discrete (i / 32) (j / 32)) [
      | yes e ↦
          rw (e, ==_self (j / 32))
            (set-digit_ne (j % 32) (i % 32) (b (j / 32)) (λ s. h (omega (arith, e, s))))
      | no n ↦ rw (==_ne (i / 32) (j / 32) n)
    ]

    asid_clear-ne : asid_bit (asid_clear b i) j ≡ asid_bit b j
    asid_clear-ne = elim (ℕ_discrete (i / 32) (j / 32)) [
      | yes e ↦
          rw (e, ==_self (j / 32))
            (elim (Bool-cases (digit (i % 32) (b (j / 32)) == 1)) [
              | inl t ↦ rw t (
                  clear-digit_ne (j % 32) (i % 32) (b (j / 32)) (λ s. h (omega (arith, e, s)))
                    ((==_iff _ 1).0 t))
              | inr f ↦ rw f
            ])
      | no n ↦ rw (==_ne (i / 32) (j / 32) n)
    ]

-- What `asid_alloc` promises: the lowest number that is free becomes used, and no other changes; or
-- nothing changes, and all numbers are in use.
pub data Assigns (k : Kernel) : Result ℕ → Kernel → Type 0 where
  lowest :
      (i : ℕ) (b : ℕ → ℕ)
      → i < nasid
      → asid_bit k.asid_bitmap i ≡ 0
      → ((j : ℕ) → j < i → asid_bit k.asid_bitmap j ≡ 1)
      → asid_bit b i ≡ 1
      → ((j : ℕ) → i ≢ j → asid_bit b j ≡ asid_bit k.asid_bitmap j)
      → Assigns k (ok i) (record k { asid_bitmap = b })
  exhausted : ((j : ℕ) → j < nasid → asid_bit k.asid_bitmap j ≡ 1) → Assigns k (err no_free_env) k

asid_from_lem :
    (n i : ℕ) (k : Kernel)
    → i + n ≡ nasid
    → ((j : ℕ) → j < i → asid_bit k.asid_bitmap j ≡ 1)
    → (r : Result ℕ) × (k' : Kernel) × (asid_from n i k ≡ done r k') × Assigns k r k'
unfolding asid_from
asid_from_lem zero i k end below =
    (err no_free_env, k, refl, exhausted λ j lt. below j (omega (arith, end, lt)))
asid_from_lem (suc n) i k end below = elim (Bool-cases (asid_bit k.asid_bitmap i == 0)) [
  | inl t ↦ (
    ok i,
    record k { asid_bitmap = asid_set k.asid_bitmap i },
    rw t,
    lowest i _ (omega (arith, end)) ((==_iff _ 0).0 t) below (asid_set_self k.asid_bitmap i)
        (asid_set-ne k.asid_bitmap i),
  )
  | inr f ↦
      let used : asid_bit k.asid_bitmap i ≡ 1 =
        bit_one (asid_bit k.asid_bitmap i) (omega arith) f in
      let (r, k', run, a) = asid_from_lem n (i + 1) k (omega (arith, end)) (λ j lt.
        elim (ℕ_discrete j i) [
          | yes e ↦ subst (λ x. asid_bit k.asid_bitmap x ≡ 1) (sym e) used
          | no ne ↦ below j (omega (arith, lt, ne))
        ]) in
      (r, k', rw f run, a)
]
  where
    bit_one : (x : ℕ) → x < 2 → (x == 0) ≡ false → x ≡ 1
    bit_one x lt ne = ground arith

-- `asid_alloc` takes the lowest number that is free, and fails only if all 64 are in use; then it
-- changes nothing.
pub asid_alloc_lem :
    (k : Kernel) → (r : Result ℕ) × (k' : Kernel) × (asid_alloc k ≡ done r k') × Assigns k r k'
unfolding asid_alloc
asid_alloc_lem k = asid_from_lem nasid 0 k refl (λ j lt. absurd (omega (arith, lt)))

-- `asid_free` makes a number free again, and changes no other.
pub asid_free_lem :
    (i : ℕ) (k : Kernel)
    → (b : ℕ → ℕ) × (asid_free i k ≡ done tt (record k { asid_bitmap = b }))
      × (asid_bit b i ≡ 0)
      × ((j : ℕ) → i ≢ j → asid_bit b j ≡ asid_bit k.asid_bitmap j)
unfolding asid_free
asid_free_lem i k = (
  asid_clear k.asid_bitmap i,
  refl,
  asid_clear_self k.asid_bitmap i,
  asid_clear-ne k.asid_bitmap i,
)
