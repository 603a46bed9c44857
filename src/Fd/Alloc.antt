-- ===== src/Fd/Alloc.antt =====
-- `fd_alloc`: the first descriptor that is not in use.
use os_lab5_challenge.Base.{
  ℕ, zero, suc, ◌+◌, ◌/◌, ◌≤◌, ◌<◌, ◌≡◌, ◌⊎◌, inl, inr, refl, ap, ap₂, arith, Bool, true, false,
  not, ◌&&◌, Option, none, some, if◌then◌else◌, Run, done, Error, Result, ok, err,
}
use os_lab5_challenge.Fork.{Pte}
use os_lab5_challenge.Fd.{Fds, index2fd, fd_alloc_from, fd_alloc}
use os_lab5_challenge.Fd.Copies.{from_first}

abbrev is_mapped : Option Pte → Bool
is_mapped none = false
is_mapped (some p) = true

module _ {D : Type 0} (s : Fds D) where
  -- The page of descriptor `i` is mapped.
  abbrev pub is_used : ℕ → Bool
  is_used i = s.vpd (index2fd i / 0x400000) && is_mapped (s.vpt (index2fd i / 4096))

  -- The result of a search among the descriptors from `i` on, `n` of them.
  abbrev pub FirstFree : ℕ → ℕ → Run (Fds D) (Result ℕ) → Type 0
  FirstFree n i r =
      ((k : ℕ) × (i ≤ k)
        × (k < i + n)
        × (r ≡ done (ok (index2fd k)) s)
        × (is_used k ≡ false)
        × ((j : ℕ) → i ≤ j → j < k → is_used j ≡ true))
      ⊎ ((r ≡ done (err Error.max_open) s) × ((j : ℕ) → i ≤ j → j < i + n → is_used j ≡ true))

  found :
      (n i : ℕ) (r : Run (Fds D) (Result ℕ))
      → r ≡ done (ok (index2fd i)) s
      → is_used i ≡ false
      → FirstFree (suc n) i r
  found n i r e free = inl (i, omega arith, omega arith, e, free, λ j le lt. absurd (omega arith))

  passed :
      (n i : ℕ) (r : Run (Fds D) (Result ℕ))
      → is_used i ≡ true
      → FirstFree n (i + 1) r
      → FirstFree (suc n) i r
  passed n i r here (inr (e, all)) = inr (e, from_first (λ j. is_used j ≡ true) i n here all)
  passed n i r here (inl (k, le, lt, e, free, all)) = inl (
    k,
    omega arith,
    omega arith,
    e,
    free,
    λ j le' lt'.
        from_first (λ j. j < k → is_used j ≡ true) i n (λ _. here) (λ j le lt lt'. all j le lt') j
          le' (omega arith) lt',
  )

  search_step :
      (n i : ℕ) (rest : Run (Fds D) (Result ℕ)) (b : Bool) (o : Option Pte)
      → s.vpd (index2fd i / 0x400000) ≡ b
      → s.vpt (index2fd i / 4096) ≡ o
      → FirstFree n (i + 1) rest
      → FirstFree (suc n) i (
          if not b
          then done (ok (index2fd i)) s
          else elim o [ none ↦ done (ok (index2fd i)) s | some p ↦ rest ])
  search_step n i rest false o e e' h =
      found n i (done (ok (index2fd i)) s) refl
        (ap (λ b. b && is_mapped (s.vpt (index2fd i / 4096))) e)
  search_step n i rest true none e e' h =
      found n i (done (ok (index2fd i)) s) refl (ap₂ (λ b o. b && is_mapped o) e e')
  search_step n i rest true (some p) e e' h = passed n i rest (ap₂ (λ b o. b && is_mapped o) e e') h

  fd_alloc_from_lem : (n i : ℕ) → FirstFree n i (fd_alloc_from n i s)
  unfolding fd_alloc_from
  fd_alloc_from_lem zero i = inr (refl, λ j le lt. absurd (omega arith))
  fd_alloc_from_lem (suc n) i =
      search_step n i (fd_alloc_from n (i + 1) s) (s.vpd (index2fd i / 0x400000))
        (s.vpt (index2fd i / 4096)) refl refl (fd_alloc_from_lem n (i + 1))

  -- `fd_alloc` finds the smallest descriptor from 0 to 30 whose page is not mapped, or all of these are in use and it
  -- fails; it changes nothing.
  pub fd_alloc_lem : FirstFree 31 0 (fd_alloc s)
  unfolding fd_alloc
  fd_alloc_lem = fd_alloc_from_lem 31 0
