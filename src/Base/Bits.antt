-- ===== src/Base/Bits.antt =====
-- `bit_or` at variables, from its definition on binary digits.
use Prim.Native.Nat.{
  ℕ, zero, suc, ◌+◌, ◌*◌, ◌/◌, ◌%◌, ◌≤◌, ◌<◌, max, bit_or, digits, bit_or-bitwise,
}
use mathlib.Core.Path.{◌≡◌, refl, ap}
use native.Mathlib.Omega.{arith}

abbrev or_digits : ℕ → ℕ → ℕ → ℕ
or_digits n a b = digits (λ b. b) max n a b

or_digits_fuel : (n m a b : ℕ) → a ≤ n → a ≤ m → or_digits n a b ≡ or_digits m a b
or_digits_fuel zero zero a b p q = refl
or_digits_fuel zero (suc m) zero b p q = refl
or_digits_fuel zero (suc m) (suc a) b p q = absurd (omega arith)
or_digits_fuel (suc n) zero zero b p q = refl
or_digits_fuel (suc n) zero (suc a) b p q = absurd (omega arith)
or_digits_fuel (suc n) (suc m) zero b p q = refl
or_digits_fuel (suc n) (suc m) (suc a) b p q =
    omega (arith, or_digits_fuel n m (suc a / 2) (b / 2) (omega arith) (omega arith))

pub zero-bit_or : (b : ℕ) → bit_or 0 b ≡ b
zero-bit_or b = bit_or-bitwise 0 b

-- The law for the lowest digit.
pub bit_or_step : (a b : ℕ) → bit_or a b ≡ bit_or (a / 2) (b / 2) * 2 + max (a % 2) (b % 2)
bit_or_step zero b = omega (arith, zero-bit_or b, zero-bit_or (b / 2))
bit_or_step (suc a) b = omega (
  arith,
  bit_or-bitwise (suc a) b,
  bit_or-bitwise (suc a / 2) (b / 2),
  or_digits_fuel a (suc a / 2) (suc a / 2) (b / 2) (omega arith) (omega arith),
)

bit_or-zero_fuel : (n a : ℕ) → a ≤ n → bit_or a 0 ≡ a
bit_or-zero_fuel n zero h = refl
bit_or-zero_fuel zero (suc a) h = absurd (omega arith)
bit_or-zero_fuel (suc n) (suc a) h =
    omega (arith, bit_or_step (suc a) 0, bit_or-zero_fuel n (suc a / 2) (omega arith))

pub bit_or-zero : (a : ℕ) → bit_or a 0 ≡ a
bit_or-zero a = bit_or-zero_fuel a a (omega arith)

-- `a >> k` and `a << k`, one place at a time.
unfoldable pub halve : ℕ → ℕ → ℕ
halve zero a = a
halve (suc k) a = halve k (a / 2)

unfoldable pub double : ℕ → ℕ → ℕ
double zero a = a
double (suc k) a = double k a * 2

halve-bit_or : (k a b : ℕ) → halve k (bit_or a b) ≡ bit_or (halve k a) (halve k b)
unfolding halve
halve-bit_or zero a b = refl
halve-bit_or (suc k) a b =
    let e : bit_or a b / 2 ≡ bit_or (a / 2) (b / 2) = omega (arith, bit_or_step a b) in
    rw e (halve-bit_or k (a / 2) (b / 2))

pub double-bit_or :
    (k x y z : ℕ)
    → halve k y ≡ 0
    → halve k z ≡ 0
    → bit_or (double k x + y) z ≡ double k x + bit_or y z
unfolding halve double
double-bit_or zero x y z p q = rw (p, q) (omega (arith, bit_or-zero (x + 0), bit_or-zero 0))
double-bit_or (suc k) x y z p q =
    let e : (double k x * 2 + y) / 2 ≡ double k x + y / 2 = omega arith in
    omega (
      arith,
      bit_or_step (double k x * 2 + y) z,
      ap (λ t. bit_or t (z / 2)) e,
      double-bit_or k x (y / 2) (z / 2) p q,
      bit_or_step y z,
    )

halve_twelve : (a : ℕ) → halve 12 a ≡ a / 4096
unfolding halve
halve_twelve a = omega arith

double_twelve : (a : ℕ) → double 12 a ≡ a * 4096
unfolding double
double_twelve a = omega arith

-- Flags in the low twelve bits stay out of the page number.
pub bit_or_page :
    (p y z : ℕ) → y < 4096 → z < 4096 → bit_or (p * 4096 + y) z ≡ p * 4096 + bit_or y z
bit_or_page p y z hy hz =
    rw (← double_twelve p)
      (double-bit_or 12 p y z (omega (arith, halve_twelve y)) (omega (arith, halve_twelve z)))

pub bit_or-lt_page : (y z : ℕ) → y < 4096 → z < 4096 → bit_or y z < 4096
bit_or-lt_page y z hy hz =
    let hy' : halve 12 y ≡ 0 = omega (arith, halve_twelve y) in
    let hz' : halve 12 z ≡ 0 = omega (arith, halve_twelve z) in
    omega (arith, halve_twelve (bit_or y z), rw (hy', hz') at (halve-bit_or 12 y z))

halve_nine : (a : ℕ) → halve 9 a ≡ a / 512
unfolding halve
halve_nine a = omega arith

-- `x | PTE_V` has the bit of PTE_V set.
pub bit_or_valid : (x : ℕ) → bit_or x 512 / 512 % 2 ≡ 1
bit_or_valid x = omega (
  arith,
  halve_nine (bit_or x 512),
  halve-bit_or 9 x 512,
  ap (λ t. bit_or (halve 9 x) t) (halve_nine 512),
  bit_or_step (halve 9 x) 1,
)
