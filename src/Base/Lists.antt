-- ===== src/Base/Lists.antt =====
-- Lists measured by native numbers, and membership as a Boolean test.
use Prim.Native.Nat.{ℕ, suc, ◌+◌}
use mathlib.Core.Path.{◌≡◌, refl, sym, ap, ◌∙◌}
use mathlib.Core.Logic.{◌≢◌}
use mathlib.Core.Bool.{Bool, true, false, ◌||◌}
use mathlib.Core.List.{List, [], ◌∷◌, ◌++◌}
use native.Mathlib.Omega.{arith}
use os_lab5_challenge.Base.Tests.{◌==◌, if◌then◌else◌}

module _ {ℓ} {A : Type ℓ} where
  abbrev pub length : List A → ℕ
  length [] = 0
  length (x ∷ xs) = suc (length xs)

  pub length-append : (xs ys : List A) → length (xs ++ ys) ≡ length xs + length ys
  length-append [] ys = omega arith
  length-append (x ∷ xs) ys = omega (arith, length-append xs ys)

abbrev pub has : ℕ → List ℕ → Bool
has a [] = false
has a (x ∷ xs) = (x == a) || has a xs

-- No number occurs twice.
abbrev pub IsDistinct : List ℕ → Type 0
IsDistinct [] = Unit {0}
IsDistinct (x ∷ xs) = (has x xs ≡ false) × IsDistinct xs

-- Drops the first occurrence.
unfoldable pub erase : ℕ → List ℕ → List ℕ
erase a [] = []
erase a (x ∷ xs) = if x == a then xs else x ∷ erase a xs

pub has-append : (a : ℕ) (xs ys : List ℕ) → has a (xs ++ ys) ≡ (has a xs || has a ys)
has-append a [] ys = refl
has-append a (x ∷ xs) ys = ground (arith, has-append a xs ys)

pub has-erase_ne : (a b : ℕ) (xs : List ℕ) → a ≢ b → has b (erase a xs) ≡ has b xs
unfolding erase
has-erase_ne a b [] h = refl
has-erase_ne a b (x ∷ xs) h = ground (arith, has-erase_ne a b xs)

pub has-erase_self : (a : ℕ) (xs : List ℕ) → IsDistinct xs → has a (erase a xs) ≡ false
unfolding erase
has-erase_self a [] d = refl
has-erase_self a (x ∷ xs) d = ground (arith, has-erase_self a xs d.1)

has-erase_le : (a b : ℕ) (xs : List ℕ) → has b xs ≡ false → has b (erase a xs) ≡ false
unfolding erase
has-erase_le a b [] h = refl
has-erase_le a b (x ∷ xs) h = ground (arith, has-erase_le a b xs)

pub erase-IsDistinct : (a : ℕ) (xs : List ℕ) → IsDistinct xs → IsDistinct (erase a xs)
unfolding erase
erase-IsDistinct a [] d = tt
erase-IsDistinct a (x ∷ xs) d = ground (arith, erase-IsDistinct a xs d.1, has-erase_le a x xs d.0)

pub append-IsDistinct :
    (a : ℕ) (xs : List ℕ) → IsDistinct xs → has a xs ≡ false → IsDistinct (xs ++ (a ∷ []))
append-IsDistinct a [] d h = (refl, tt)
append-IsDistinct a (x ∷ xs) d h =
    ground (arith, append-IsDistinct a xs d.1, has-append x xs (a ∷ []))

pub length-erase : (a : ℕ) (xs : List ℕ) → has a xs ≡ true → suc (length (erase a xs)) ≡ length xs
unfolding erase
length-erase a [] h = absurd (ground arith)
length-erase a (x ∷ xs) h = ground (arith, length-erase a xs)

pub has-cons_false : (a x : ℕ) (xs : List ℕ) → has a (x ∷ xs) ≡ false → (x ≢ a) × (has a xs ≡ false)
has-cons_false a x xs h = ground arith

pub ne_of_has : (a b : ℕ) (xs : List ℕ) → has a xs ≡ false → has b xs ≡ true → a ≢ b
ne_of_has a b xs f t e = clash (sym (ap (λ x. has x xs) e ∙ t) ∙ f)
  where
    clash : true ≡ false → ⊥
    clash h = cc
