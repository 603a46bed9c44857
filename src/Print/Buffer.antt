-- ===== src/Print/Buffer.antt =====
-- What `pad`, `push_digits` and `swap_ends` leave in the buffer of `print_num`, as lists.
use mathlib.Core.List.{reverse, reverse-append}
use os_lab5_challenge.Base.{
  ℕ, zero, suc, ◌+◌, ◌-◌, ◌≤◌, ◌<◌, ◌≡◌, refl, sym, ap, ap₂, ◌∙◌, arith, List, [], ◌∷◌, ◌++◌, ltb,
  ◌==◌, ltb→lt, Bool-cases, inl, inr, ==_ne, ==_self, ==_same,
}
use os_lab5_challenge.Str.{Bytes, put}
use os_lab5_challenge.Print.{read_out, pad, swap_ends}

pub read_out-append :
    (buf : Bytes) (a m n : ℕ) → read_out buf a (m + n) ≡ read_out buf a m ++ read_out buf (a + m) n
unfolding read_out
read_out-append buf a zero n =
    let p : zero + n ≡ n = omega arith in let q : a + zero ≡ a = omega arith in rw (p, q)
read_out-append buf a (suc m) n =
    let p : suc m + n ≡ suc (m + n) = omega arith in
    let q : a + suc m ≡ a + 1 + m = omega arith in
    rw (p, q) (ap (◌∷◌ (buf a)) (read_out-append buf (a + 1) m n))

pub read_out_snoc :
    (buf : Bytes) (a n : ℕ) → read_out buf a (suc n) ≡ read_out buf a n ++ (buf (a + n) ∷ [])
unfolding read_out
read_out_snoc buf a n =
    let p : suc n ≡ n + 1 = omega arith in ap (read_out buf a) p ∙ read_out-append buf a n 1

pub read_out_ext :
    (f g : Bytes) (a n : ℕ)
    → ((k : ℕ) → a ≤ k → k < a + n → f k ≡ g k)
    → read_out f a n ≡ read_out g a n
unfolding read_out
read_out_ext f g a zero h = refl
read_out_ext f g a (suc n) h = cc (
  h a (omega arith) (omega arith),
  read_out_ext f g (a + 1) n (λ k low high. h k (omega arith) (omega arith)),
)

-- Backwards from `b + n`.
pub read_out-reverse :
    (f g : Bytes) (a b n : ℕ)
    → ((k : ℕ) → k < n → f (a + k) ≡ g (b + n - 1 - k))
    → read_out f a n ≡ reverse (read_out g b n)
unfolding read_out
read_out-reverse f g a b zero h = refl
read_out-reverse f g a b (suc n) h =
    ap₂ ◌∷◌ (ap f (omega arith) ∙ h 0 (omega arith) ∙ ap g (omega arith)) (
      read_out-reverse f g (a + 1) b n
        (λ k lt. ap f (omega arith) ∙ h (k + 1) (omega arith) ∙ ap g (omega arith)))
    ∙ sym (reverse-append (read_out g b n) (g (b + n) ∷ []))
    ∙ ap reverse (sym (read_out_snoc g b n))

abbrev pub replicate : ℕ → ℕ → List ℕ
replicate zero c = []
replicate (suc n) c = c ∷ replicate n c

pub pad_out_of : (buf : Bytes) (a n c k : ℕ) → k < a → pad buf a n c k ≡ buf k
unfolding pad
pad_out_of buf a zero c k h = refl
pad_out_of buf a (suc n) c k h =
    pad_out_of (put buf a c) (a + 1) n c k (omega arith) ∙ rw (==_ne a k (omega arith))

pub pad_lem : (buf : Bytes) (a n c : ℕ) → read_out (pad buf a n c) a n ≡ replicate n c
unfolding pad read_out
pad_lem buf a zero c = refl
pad_lem buf a (suc n) c = ap₂ ◌∷◌ first (pad_lem (put buf a c) (a + 1) n c)
  where
    first : pad (put buf a c) (a + 1) n c a ≡ c
    first = pad_out_of (put buf a c) (a + 1) n c a (omega arith) ∙ rw (==_self a)

pub swap_ends_out :
    (n begin end : ℕ) (buf : Bytes) (k : ℕ) → end < k → swap_ends n begin end buf k ≡ buf k
unfolding swap_ends
swap_ends_out zero begin end buf k h = refl
swap_ends_out (suc n) begin end buf k h = elim (Bool-cases (ltb begin end)) [
  | inl t ↦ rw t (
      swap_ends_out n (begin + 1) (end - 1) _ k (ground arith)
      ∙ rw (==_ne end k (omega arith), ==_ne begin k (ground arith)))
  | inr f ↦ rw f
]

pub swap_ends_below :
    (n begin end : ℕ) (buf : Bytes) (k : ℕ) → k < begin → swap_ends n begin end buf k ≡ buf k
unfolding swap_ends
swap_ends_below zero begin end buf k h = refl
swap_ends_below (suc n) begin end buf k h = elim (Bool-cases (ltb begin end)) [
  | inl t ↦ rw t (
      swap_ends_below n (begin + 1) (end - 1) _ k (omega arith)
      ∙ rw (==_ne end k (ground arith), ==_ne begin k (omega arith)))
  | inr f ↦ rw f
]

abbrev swapped : Bytes → ℕ → ℕ → Bytes
swapped buf begin end = put (put buf begin (buf end)) end (buf begin)

-- One round, with what the rounds after it do between the two ends.
swap_round :
    (n begin end : ℕ) (buf : Bytes) (k : ℕ)
    → begin < end
    → begin ≤ k
    → k ≤ end
    → (begin + 1 ≤ k
        → k ≤ end - 1
        → swap_ends n (begin + 1) (end - 1) (swapped buf begin end) k
          ≡ swapped buf begin end (begin + 1 + (end - 1) - k))
    → swap_ends n (begin + 1) (end - 1) (swapped buf begin end) k ≡ buf (begin + end - k)
swap_round n begin end buf k lt low high inner = elim (Bool-cases (k == begin)) [
  | inl first ↦
      swap_ends_below n (begin + 1) (end - 1) _ k (ground arith)
      ∙ rw (==_ne end k (ground arith), ==_same begin k (ground arith)) (ap buf (ground arith))
  | inr k_ne ↦ elim (Bool-cases (k == end)) [
    | inl last ↦
        swap_ends_out n (begin + 1) (end - 1) _ k (ground arith)
        ∙ rw (==_same end k (ground arith)) (ap buf (ground arith))
    | inr ne ↦
        inner (ground arith) (ground arith)
        ∙ rw
            (
              ==_ne end (begin + 1 + (end - 1) - k) (ground arith),
              ==_ne begin (begin + 1 + (end - 1) - k) (ground arith),
            )
            (ap buf (omega arith))
  ]
]

-- The bytes from `begin` to `end` are reversed.
pub swap_ends_lem :
    (n begin end : ℕ) (buf : Bytes) (k : ℕ)
    → end ≤ begin + n
    → begin ≤ k
    → k ≤ end
    → swap_ends n begin end buf k ≡ buf (begin + end - k)
unfolding swap_ends
swap_ends_lem zero begin end buf k e low high = ap buf (omega arith)
swap_ends_lem (suc n) begin end buf k e low high = elim (Bool-cases (ltb begin end)) [
  | inr f ↦ rw f (ap buf (ground arith))
  | inl t ↦ rw t (
      swap_round n begin end buf k (ltb→lt begin end t) low high
        (swap_ends_lem n (begin + 1) (end - 1) _ k (omega (arith, ltb→lt begin end t))))
]
