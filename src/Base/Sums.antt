-- ===== src/Base/Sums.antt =====
-- Sums of a function over the numbers below a bound.
use Prim.Native.Nat.{ℕ, zero, suc, ◌+◌, ◌≤◌, ◌<◌}
use mathlib.Core.Path.{◌≡◌, refl, ap₂}
use mathlib.Core.Logic.{◌≢◌}
use native.Mathlib.Decide.{ℕ_discrete}
use native.Mathlib.Omega.{arith}

pub total : ℕ → (ℕ → ℕ) → ℕ
total zero f = 0
total (suc n) f = total n f + f n

pub total-ext : (n : ℕ) (f g : ℕ → ℕ) → ((i : ℕ) → i < n → f i ≡ g i) → total n f ≡ total n g
unfolding total
total-ext zero f g h = refl
total-ext (suc n) f g h = ap₂ ◌+◌ (total-ext n f g (λ i p. h i (omega arith))) (h n (omega arith))

-- Two functions that differ at `k` only.
pub total-change :
    (n : ℕ) (f g : ℕ → ℕ) (k : ℕ)
    → k < n
    → ((i : ℕ) → i < n → i ≢ k → f i ≡ g i)
    → total n f + g k ≡ total n g + f k
unfolding total
total-change zero f g k h e = absurd (omega arith)
total-change (suc n) f g k h e = elim (ℕ_discrete k n) [
  | yes last ↦ omega (
    arith,
    total-ext n f g (λ i p. e i (omega arith) (omega arith)),
    ap₂ ◌+◌ (ap_at f last) (ap_at g last),
    ap_at f last,
  )
  | no below ↦ omega (
    arith,
    total-change n f g k (omega arith) (λ i p q. e i (omega arith) q),
    e n (omega arith) (λ q. below (omega arith)),
  )
]
  where
    ap_at : (u : ℕ → ℕ) → k ≡ n → u k ≡ u n
    ap_at u p = λ i. u (p i)

pub total-zero : (n : ℕ) (f : ℕ → ℕ) → ((i : ℕ) → i < n → f i ≡ 0) → total n f ≡ 0
unfolding total
total-zero zero f h = refl
total-zero (suc n) f h = omega (arith, total-zero n f (λ i p. h i (omega arith)), h n (omega arith))

pub total-le-at : (n : ℕ) (f : ℕ → ℕ) (k : ℕ) → k < n → f k ≤ total n f
unfolding total
total-le-at zero f k h = absurd (omega arith)
total-le-at (suc n) f k h = elim (ℕ_discrete k n) [
  | yes last ↦ omega (arith, ap_at last)
  | no below ↦ omega (arith, total-le-at n f k (omega arith))
]
  where
    ap_at : k ≡ n → f k ≡ f n
    ap_at p = λ i. f (p i)
