-- ===== src/Print/Case.antt =====
-- The characters that `print_num` stores: digits, and letters of the case that is asked for.
use mathlib.Core.List.{reverse, reverse-cons}
use os_lab5_challenge.Base.{
  ℕ, zero, suc, ◌+◌, ◌%◌, ◌/◌, ◌≤◌, ◌<◌, ◌≡◌, refl, sym, subst, Bool, true, false, ◌&&◌, ◌||◌, leb,
  ◌==◌, if◌then◌else◌, arith, List, [], ◌∷◌, ◌++◌,
}
use os_lab5_challenge.Str.{Bytes}
use os_lab5_challenge.Print.{read_out, Stored, push, push_digits, digit_char}

abbrev pub is_cased : Bool → ℕ → Bool
is_cased upcase c =
    (leb b'0' c && leb c b'9')
    || (if upcase then leb b'A' c && leb c b'Z' else leb b'a' c && leb c b'z')

unfoldable pub AreCased : Bool → List ℕ → Type 0
AreCased upcase [] = Unit {0}
AreCased upcase (c ∷ cs) = (is_cased upcase c ≡ true) × AreCased upcase cs

digit_char-cased : (upcase : Bool) (d : ℕ) → d < 36 → is_cased upcase (digit_char upcase d) ≡ true
digit_char-cased true d h = ground arith
digit_char-cased false d h = ground arith

-- All characters stored so far.
abbrev pub HoldsCased : Bool → Stored → Type 0
HoldsCased upcase f = (k : ℕ) → k < f.size → is_cased upcase (f.bytes k) ≡ true

push-HoldsCased :
    (upcase : Bool) (d : ℕ) (f : Stored)
    → d < 36
    → HoldsCased upcase f
    → HoldsCased upcase (push (digit_char upcase d) f)
push-HoldsCased upcase d f small h k lt = by_place (f.size == k) refl
  where
    by_place :
        (b : Bool)
        → (f.size == k) ≡ b
        → is_cased upcase (if b then digit_char upcase d else f.bytes k) ≡ true
    by_place true e = digit_char-cased upcase d small
    by_place false e = h k (ground (arith, e, lt))

pub push_digits-HoldsCased :
    (n u base : ℕ) (upcase : Bool) (f : Stored)
    → 2 ≤ base
    → base ≤ 36
    → HoldsCased upcase f
    → HoldsCased upcase (push_digits n u base upcase f)
unfolding push_digits
push_digits-HoldsCased zero u base upcase f big small h = h
push_digits-HoldsCased (suc n) u base upcase f big small h =
    let pushed = push-HoldsCased upcase (u % base) f (grind arith) h in
    by_end (push (digit_char upcase (u % base)) f)
      (push_digits n (u / base) base upcase (push (digit_char upcase (u % base)) f)) (u / base == 0)
      pushed
      (push_digits-HoldsCased n (u / base) base upcase (push (digit_char upcase (u % base)) f) big
        small pushed)
  where
    by_end :
        (f f' : Stored) (b : Bool)
        → HoldsCased upcase f
        → HoldsCased upcase f'
        → HoldsCased upcase (if b then f else f')
    by_end f f' true h h' = h
    by_end f f' false h h' = h'

append-AreCased :
    (upcase : Bool) (xs : List ℕ) (c : ℕ)
    → AreCased upcase xs
    → is_cased upcase c ≡ true
    → AreCased upcase (xs ++ (c ∷ []))
unfolding AreCased
append-AreCased upcase [] c h e = (e, tt)
append-AreCased upcase (x ∷ xs) c h e = (h.0, append-AreCased upcase xs c h.1 e)

reverse-AreCased : (upcase : Bool) (xs : List ℕ) → AreCased upcase xs → AreCased upcase (reverse xs)
unfolding AreCased
reverse-AreCased upcase [] h = tt
reverse-AreCased upcase (x ∷ xs) h =
    subst (AreCased upcase) (sym (reverse-cons x xs))
      (append-AreCased upcase (reverse xs) x (reverse-AreCased upcase xs h.1) h.0)

read_out-AreCased :
    (upcase : Bool) (buf : Bytes) (a n : ℕ)
    → ((k : ℕ) → a ≤ k → k < a + n → is_cased upcase (buf k) ≡ true)
    → AreCased upcase (read_out buf a n)
unfolding AreCased read_out
read_out-AreCased upcase buf a zero h = tt
read_out-AreCased upcase buf a (suc n) h = (
  h a (omega arith) (omega arith),
  read_out-AreCased upcase buf (a + 1) n (λ k le lt. h k (omega arith) (omega arith)),
)

pub stored-AreCased :
    (upcase : Bool) (f : Stored)
    → HoldsCased upcase f
    → AreCased upcase (reverse (read_out f.bytes 0 f.size))
stored-AreCased upcase f h =
    reverse-AreCased upcase (read_out f.bytes 0 f.size)
      (read_out-AreCased upcase f.bytes 0 f.size (λ k le lt. h k (omega arith)))
