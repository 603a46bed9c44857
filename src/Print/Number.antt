-- ===== src/Print/Number.antt =====
-- The digits that `print_num` stores: those of the number, low ones first, and no more.
use mathlib.Core.List.{reverse, reverse-cons}
use native.Mathlib.Nat.{mul-div-le}
use os_lab5_challenge.Base.{
  ℕ, zero, suc, ◌+◌, ◌-◌, ◌*◌, ◌/◌, ◌%◌, ◌≤◌, ◌<◌, ◌≡◌, ◌≢◌, refl, sym, ap, ◌∙◌, Bool, true, false,
  arith, List, [], ◌∷◌, ◌++◌, leb, ◌==◌, if◌then◌else◌, Bool-cases, inl, inr, ==_ne, ==_self,
}
use os_lab5_challenge.Str.{Bytes}
use os_lab5_challenge.Print.{read_out, Stored, push, push_digits, digit_char}

abbrev pub value_of : ℕ → ℕ
value_of c = if leb c b'9' then c - b'0' else if leb c b'Z' then c - b'A' + 10 else c - b'a' + 10

-- A number is read from left to right.
abbrev pub number : ℕ → ℕ → List ℕ → ℕ
number base acc [] = acc
number base acc (c ∷ cs) = number base (acc * base + value_of c) cs

abbrev pub low_value : ℕ → List ℕ → ℕ
low_value base [] = 0
low_value base (c ∷ cs) = value_of c + base * low_value base cs

value_of-digit_char : (upcase : Bool) (d : ℕ) → d < 36 → value_of (digit_char upcase d) ≡ d
value_of-digit_char true d h = ground arith
value_of-digit_char false d h = ground arith

number_snoc :
    (base acc : ℕ) (xs : List ℕ) (c : ℕ)
    → number base acc (xs ++ (c ∷ [])) ≡ number base acc xs * base + value_of c
number_snoc base acc [] c = refl
number_snoc base acc (x ∷ xs) c = number_snoc base (acc * base + value_of x) xs c

pub number-reverse : (base : ℕ) (xs : List ℕ) → number base 0 (reverse xs) ≡ low_value base xs
number-reverse base [] = refl
number-reverse base (x ∷ xs) =
    ap (number base 0) (reverse-cons x xs)
    ∙ number_snoc base 0 (reverse xs) x
    ∙ ap (λ n. n * base + value_of x) (number-reverse base xs)
    ∙ grind arith

-- What `push_digits` adds to the buffer: `more + 1` digits of `u`, the last one not 0 but for 0 itself.
pub record Pushed (base u : ℕ) (f f' : Stored) : Type 0 where
  pub more : ℕ
  pub size_is : f'.size ≡ f.size + suc more
  pub kept : (k : ℕ) → k < f.size → f'.bytes k ≡ f.bytes k
  pub low : low_value base (read_out f'.bytes f.size (suc more)) ≡ u
  pub short : f'.bytes (f.size + more) ≡ b'0' → more ≡ 0

digit_small : (u base : ℕ) → 0 < base → base ≤ 36 → u % base < 36
digit_small u base h small = grind arith

last_digit :
    (u base : ℕ) (upcase : Bool) (f : Stored)
    → u < base
    → base ≤ 36
    → Pushed base u f (push (digit_char upcase (u % base)) f)
unfolding read_out
last_digit u base upcase f h small = record {
  more = 0;
  size_is = refl;
  kept = λ k lt. rw (==_ne f.size k (omega arith));
  low =
      rw
        (
          ==_self f.size,
          value_of-digit_char upcase (u % base) (digit_small u base (omega arith) small),
        )
        (grind arith);
  short = λ _. refl;
}

low_value_one :
    (base m a : ℕ) (buf : Bytes)
    → m ≡ 0
    → low_value base (read_out buf a (suc m)) ≡ value_of (buf a)
unfolding read_out
low_value_one base zero a buf e = grind arith
low_value_one base (suc m) a buf e = absurd (omega arith)

more_digits :
    (u base : ℕ) (upcase : Bool) (f f' : Stored)
    → 2 ≤ base
    → base ≤ 36
    → u / base ≢ 0
    → Pushed base (u / base) (push (digit_char upcase (u % base)) f) f'
    → Pushed base u f f'
unfolding read_out
more_digits u base upcase f f' big small ne p = record {
  more = suc p.more;
  size_is = omega (arith, p.size_is);
  kept = λ k lt. p.kept k (omega arith) ∙ rw (==_ne f.size k (omega arith));
  low =
      ap (λ (v : ℕ). v + base * low_value base (read_out f'.bytes (f.size + 1) (suc p.more))) first
      ∙ ap (λ (q : ℕ). u % base + base * q) p.low
      ∙ grind arith;
  short = λ zero_char. absurd (ne (none_above zero_char));
}
  where
    first : value_of (f'.bytes f.size) ≡ u % base
    first =
        ap value_of {y = digit_char upcase (u % base)}
          (p.kept f.size (omega arith) ∙ rw (==_self f.size))
        ∙ value_of-digit_char upcase (u % base) (digit_small u base (omega arith) small)

    none_above : f'.bytes (f.size + suc p.more) ≡ b'0' → u / base ≡ 0
    none_above z =
        let eq : f.size + suc p.more ≡ f.size + 1 + p.more = omega arith in
        let m : p.more ≡ 0 = p.short (ap f'.bytes (sym eq) ∙ z) in
        sym p.low
        ∙ low_value_one base p.more (f.size + 1) f'.bytes m
        ∙ ap (λ k. value_of (f'.bytes k)) {y = f.size + suc p.more} (omega arith)
        ∙ ap value_of z

twice-le : (base q : ℕ) → 2 ≤ base → 2 * q ≤ base * q
twice-le base q h = grind arith

pub push_digits_lem :
    (n u base : ℕ) (upcase : Bool) (f : Stored)
    → 2 ≤ base
    → base ≤ 36
    → u < n
    → Pushed base u f (push_digits n u base upcase f)
unfolding push_digits
push_digits_lem zero u base upcase f big small h = absurd (omega arith)
push_digits_lem (suc n) u base upcase f big small h = elim (Bool-cases (u / base == 0)) [
  | inl end ↦ rw end (last_digit u base upcase f (small_of end) small)
  | inr more ↦ rw more (
      more_digits u base upcase f _ big small (ground arith)
        (push_digits_lem n (u / base) base upcase _ big small (fewer more)))
]
  where
    small_of : (u / base == 0) ≡ true → u < base
    small_of e = grind arith

    fewer : (u / base == 0) ≡ false → u / base < n
    fewer e = ground (arith, twice-le base (u / base) big, mul-div-le u base)
