-- ===== src/Syscall/Ranges.antt =====
-- The test of address ranges in kern/syscall_all.c.
use os_lab5_challenge.Base.{
  ℕ, ◌+◌, ◌^◌, ◌≤◌, ◌<◌, ◌≡◌, ◌↔◌, arith, false, Bool, true, ◌||◌, ◌⊎◌, inl, inr, or-cases,
}
use os_lab5_challenge.Pmap.{utemp, utop}
use os_lab5_challenge.Syscall.{is_illegal_va_range, within_device, is_device_range}

-- For 32-bit arguments and a length other than 0, `is_illegal_va_range` accepts exactly the ranges that
-- lie in [UTEMP, UTOP), those that wrap around excluded.
pub is_illegal_va_range_lem :
    (va len : ℕ)
    → va < 2 ^ 32
    → len < 2 ^ 32
    → 0 < len
    → (is_illegal_va_range va len ≡ false) ↔ ((utemp ≤ va) × (va + len ≤ utop))
unfolding is_illegal_va_range
is_illegal_va_range_lem va len p q r = ground (arith, p, q, r)

-- A range in one of the three device windows: the console, the disk, the clock.
abbrev pub IsWithin : ℕ → ℕ → ℕ → ℕ → Type 0
IsWithin start length pa len = (start ≤ pa) × (pa + len ≤ start + length)

abbrev pub IsDevice : ℕ → ℕ → Type 0
IsDevice pa len =
    IsWithin 0x10000000 0x20 pa len
    ⊎ (IsWithin 0x13000000 0x4200 pa len ⊎ IsWithin 0x15000000 0x200 pa len)

within_device_lem :
    (start length pa len : ℕ)
    → pa + len < 2 ^ 32
    → (within_device pa len start (start + length) ≡ true) ↔ IsWithin start length pa len
within_device_lem start length pa len h = ground (arith, h)

-- For a physical range that does not wrap around, `is_device_range`, the test of `sys_write_dev` and
-- `sys_read_dev`, accepts exactly the ranges inside the three device windows.
pub is_device_range_lem :
    (pa len : ℕ) → pa + len < 2 ^ 32 → (is_device_range pa len ≡ true) ↔ IsDevice pa len
unfolding is_device_range
is_device_range_lem pa len h =
    let (c, c') = within_device_lem 0x10000000 0x20 pa len h in
    let (d, d') = within_device_lem 0x13000000 0x4200 pa len h in
    let (r, r') = within_device_lem 0x15000000 0x200 pa len h in
    (
      (λ t. elim (or-cases (within_device pa len 0x10000000 0x10000020) _ t) [
        | inl x ↦ inl (c x)
        | inr y ↦ elim (or-cases (within_device pa len 0x13000000 0x13004200) _ y) [
          | inl x ↦ inr (inl (d x))
          | inr x ↦ inr (inr (r x))
        ]
      ]),
      (λ w. elim w [
        | inl x ↦ rw (c' x)
        | inr y ↦ elim y [ inl x ↦ either_second _ _ _ (d' x) | inr x ↦ either_third _ _ _ (r' x) ]
      ]),
    )
  where
    either_second : (a b e : Bool) → b ≡ true → (a || (b || e)) ≡ true
    either_second a b e t = ground arith

    either_third : (a b e : Bool) → e ≡ true → (a || (b || e)) ≡ true
    either_third a b e t = ground arith
