-- ===== src/Base/Digits.antt =====
-- Single binary digits: a bit set by `| 1 << k` and taken away by `- (1 << k)`.
use Prim.Native.Nat.{ℕ, zero, suc, ◌+◌, ◌-◌, ◌*◌, ◌/◌, ◌%◌, ◌≤◌, ◌<◌, bit_or}
use mathlib.Core.Path.{◌≡◌, refl, sym, ◌∙◌, ap}
use mathlib.Core.Logic.{◌≢◌}
use native.Mathlib.Omega.{arith}
use os_lab5_challenge.Base.Bits.{
  bit_or_step, bit_or-zero, zero-bit_or, halve, double, double-bit_or,
}

abbrev pub digit : ℕ → ℕ → ℕ
digit k a = halve k a % 2

bit_or_even : (a d : ℕ) → bit_or a (d * 2) / 2 ≡ bit_or (a / 2) d
bit_or_even a d =
    let e : d * 2 / 2 ≡ d = omega arith in
    omega (arith, bit_or_step a (d * 2), ap (bit_or (a / 2)) e)

pub set-digit_self : (k a : ℕ) → digit k (bit_or a (double k 1)) ≡ 1
unfolding halve double
set-digit_self zero a = omega (arith, bit_or_step a 1)
set-digit_self (suc k) a =
    ap (λ x. halve k x % 2) (bit_or_even a (double k 1)) ∙ set-digit_self k (a / 2)

pub set-digit_ne : (j k a : ℕ) → j ≢ k → digit j (bit_or a (double k 1)) ≡ digit j a
unfolding halve double
set-digit_ne zero zero a h = absurd (h refl)
set-digit_ne zero (suc k) a h = omega (arith, bit_or_step a (double k 1 * 2))
set-digit_ne (suc j) zero a h =
    let e : bit_or a 1 / 2 ≡ a / 2 = omega (arith, bit_or_step a 1, bit_or-zero (a / 2)) in
    ap (λ x. halve j x % 2) e
set-digit_ne (suc j) (suc k) a h =
    ap (λ x. halve j x % 2) (bit_or_even a (double k 1))
    ∙ set-digit_ne j k (a / 2) (λ e. h (ap suc e))

digit-le : (k a : ℕ) → digit k a ≡ 1 → double k 1 ≤ a
unfolding halve double
digit-le zero a h = omega (arith, h)
digit-le (suc k) a h = omega (arith, digit-le k (a / 2) h)

pub clear-digit_self : (k a : ℕ) → digit k a ≡ 1 → digit k (a - double k 1) ≡ 0
unfolding halve double
clear-digit_self zero a h = omega (arith, h)
clear-digit_self (suc k) a h =
    let e : (a - double k 1 * 2) / 2 ≡ a / 2 - double k 1 = omega arith in
    ap (λ x. halve k x % 2) e ∙ clear-digit_self k (a / 2) h

pub clear-digit_ne : (j k a : ℕ) → j ≢ k → digit k a ≡ 1 → digit j (a - double k 1) ≡ digit j a
unfolding halve double
clear-digit_ne zero zero a h d = absurd (h refl)
clear-digit_ne zero (suc k) a h d = omega (arith, digit-le k (a / 2) d)
clear-digit_ne (suc j) zero a h d =
    let e : (a - 1) / 2 ≡ a / 2 = omega (arith, d) in ap (λ x. halve j x % 2) e
clear-digit_ne (suc j) (suc k) a h d =
    let e : (a - double k 1 * 2) / 2 ≡ a / 2 - double k 1 = omega arith in
    ap (λ x. halve j x % 2) e ∙ clear-digit_ne j k (a / 2) (λ s. h (ap suc s)) d

double_eleven : (a : ℕ) → double 11 a ≡ a * 2048
unfolding double
double_eleven a = omega arith

halve_eleven : (a : ℕ) → halve 11 a ≡ a / 2048
unfolding halve
halve_eleven a = omega arith

-- Fields that do not overlap: eleven bits for the second.
pub bit_or_eleven : (a b : ℕ) → b < 2048 → bit_or (a * 2048) b ≡ a * 2048 + b
bit_or_eleven a b h =
    let e : double 11 a + 0 ≡ a * 2048 = omega (arith, double_eleven a) in
    ap (λ x. bit_or x b) (sym e)
    ∙ double-bit_or 11 a 0 b (halve_eleven 0) (omega (arith, halve_eleven b))
    ∙ omega (arith, double_eleven a, zero-bit_or b)
