-- ===== src/Str/Text.antt =====
-- The string functions on what a C string holds.
use mathlib.Core.Option
use os_lab5_challenge.Base.{
  ℕ, zero, suc, ◌+◌, ◌≤◌, ◌<◌, ◌≡◌, refl, sym, ◌∙◌, ◌≢◌, false, ◌⊎◌, arith, ltb, ◌==◌,
  if◌then◌else◌, Bool-cases, inl, inr, ap, ==_self, ==_ne, ==_iff, List, [], ◌∷◌, length, Option,
  some,
}
use os_lab5_challenge.Str.{
  Bytes, put, strcpy, extended, strlen, strchr, strcmp, Sign, below, equal, above, sign_of,
}

-- At `s` stand the bytes of the list, none of them 0, and then a 0.
abbrev pub IsText : Bytes → ℕ → List ℕ → Type 0
IsText m s [] = m s ≡ 0
IsText m s (b ∷ bs) = (m s ≡ b) × (b ≢ 0) × (b < 256) × IsText m (s + 1) bs

-- `strlen` counts the bytes before the terminator, given rounds for all of them.
pub strlen_lem :
    (n s : ℕ) (m : Bytes) (l : List ℕ)
    → IsText m s l
    → length l < n
    → strlen n s m ≡ some (length l)
unfolding strlen
strlen_lem zero s m l t lt = absurd (omega (arith, lt))
strlen_lem (suc n) s m [] t lt = rw ((==_iff (m s) 0).1 t)
strlen_lem (suc n) s m (b ∷ bs) (e, ne, small, t) lt =
    rw (e, ==_ne b 0 ne) (ap (Option.map suc) (strlen_lem n (s + 1) m bs t (omega (arith, lt))))

-- Strings in the order of their bytes, a prefix first.
abbrev pub lexical : List ℕ → List ℕ → Sign
lexical [] [] = equal
lexical [] (b ∷ bs) = below
lexical (a ∷ az) [] = above
lexical (a ∷ az) (b ∷ bs) = if a == b then lexical az bs else if ltb a b then below else above

sign_of-zero : (b : ℕ) → b ≢ 0 → b < 256 → (sign_of 0 b ≡ below) × (sign_of b 0 ≡ above)
sign_of-zero b ne small = (ground (arith, ne, small), ground (arith, ne, small))

sign_of-ne :
    (a b : ℕ) → a ≢ b → a < 256 → b < 256 → sign_of a b ≡ (if ltb a b then below else above)
sign_of-ne a b ne p q = ground (arith, ne, p, q)

-- `strcmp` compares two strings in the order of their bytes as unsigned numbers, given rounds for the
-- first of them.
pub strcmp_lem :
    (n p q : ℕ) (m : Bytes) (k l : List ℕ)
    → IsText m p k
    → IsText m q l
    → length k < n
    → strcmp n p q m ≡ some (lexical k l)
unfolding strcmp
strcmp_lem zero p q m k l t u lt = absurd (omega (arith, lt))
strcmp_lem (suc n) p q m [] [] t u lt = rw (t, u)
strcmp_lem (suc n) p q m [] (b ∷ bs) t (e, ne, small, u) lt =
    rw (t, e) (ap some (sign_of-zero b ne small).0)
strcmp_lem (suc n) p q m (a ∷ az) [] (e, ne, small, t) u lt =
    rw (e, u, ==_ne a 0 ne) (ap some (sign_of-zero a ne small).1)
strcmp_lem (suc n) p q m (a ∷ az) (b ∷ bs) (e, ne, small, t) (f, nf, small', u) lt =
    elim (Bool-cases (a == b)) [
      | inl s ↦
          rw (e, f, ==_ne a 0 ne, s) (strcmp_lem n (p + 1) (q + 1) m az bs t u (omega (arith, lt)))
      | inr d ↦
          rw (e, f, ==_ne a 0 ne, d)
            (ap some (sign_of-ne a b (λ s. absurd (differ d s)) small small'))
    ]
  where
    differ : (a == b) ≡ false → a ≡ b → ⊥
    differ d s = ground arith

-- The first place of a byte in a list, counted from `s`.
abbrev pub place_of : ℕ → List ℕ → ℕ → Option ℕ
place_of c [] s = some 0
place_of c (b ∷ bs) s = if extended b == c then some s else place_of c bs (s + 1)

-- `strchr` finds the first character that equals `c` once it is extended to an `int`, and answers NULL if
-- there is none, given rounds for the string.
pub strchr_lem :
    (n s c : ℕ) (m : Bytes) (l : List ℕ)
    → IsText m s l
    → length l < n
    → strchr n s c m ≡ place_of c l s
unfolding strchr
strchr_lem zero s c m l t lt = absurd (omega (arith, lt))
strchr_lem (suc n) s c m [] t lt = rw ((==_iff (m s) 0).1 t)
strchr_lem (suc n) s c m (b ∷ bs) (e, ne, small, t) lt =
    rw (e, ==_ne b 0 ne, strchr_lem n (s + 1) c m bs t (omega (arith, lt))) refl

-- A byte outside a string does not matter to it.
put-IsText :
    (m : Bytes) (a v s : ℕ) (l : List ℕ)
    → (a < s) ⊎ (s + length l < a)
    → IsText m s l
    → IsText (put m a v) s l
put-IsText m a v s [] out t = rw (==_ne a s (apart out)) t
  where
    apart : (a < s) ⊎ (s + 0 < a) → a ≢ s
    apart (inl p) e = absurd (omega (arith, p, e))
    apart (inr p) e = absurd (omega (arith, p, e))
put-IsText m a v s (b ∷ bs) out (e, ne, small, t) =
    (rw (==_ne a s (apart out)) e, ne, small, put-IsText m a v (s + 1) bs (beyond out) t)
  where
    apart : (a < s) ⊎ (s + suc (length bs) < a) → a ≢ s
    apart (inl p) e = absurd (omega (arith, p, e))
    apart (inr p) e = absurd (omega (arith, p, e))

    beyond : (a < s) ⊎ (s + suc (length bs) < a) → (a < s + 1) ⊎ (s + 1 + length bs < a)
    beyond (inl p) = inl (omega (arith, p))
    beyond (inr p) = inr (omega (arith, p))

-- Where the copy does not run into the string, or lies below it.
abbrev pub IsClear : ℕ → ℕ → List ℕ → Type 0
IsClear dst src l = (dst ≤ src) ⊎ (src + length l < dst)

-- `strcpy` puts the string and its terminator at `dst` and changes no other byte, if the target lies
-- below the string or beyond it, given rounds for the string.
pub strcpy_lem :
    (n dst src : ℕ) (m : Bytes) (l : List ℕ)
    → IsText m src l
    → IsClear dst src l
    → length l < n
    → (m' : Bytes) × (strcpy n dst src m ≡ some m')
      × IsText m' dst l
      × ((x : ℕ) → (x < dst) ⊎ (dst + length l < x) → m' x ≡ m x)
unfolding strcpy
strcpy_lem zero dst src m l t clear lt = absurd (omega (arith, lt))
strcpy_lem (suc n) dst src m [] t clear lt = (
  put m dst (m src),
  rw ((==_iff (m src) 0).1 t),
  rw (==_self dst) t,
  λ x out. rw (==_ne dst x (apart x out)),
)
  where
    apart : (x : ℕ) → (x < dst) ⊎ (dst + 0 < x) → dst ≢ x
    apart x (inl p) e = absurd (omega (arith, p, e))
    apart x (inr p) e = absurd (omega (arith, p, e))
strcpy_lem (suc n) dst src m (b ∷ bs) (e, ne, small, t) clear lt =
    let m1 = put m dst (m src) in
    let (m', run, text, others) =
      strcpy_lem n (dst + 1) (src + 1) m1 bs
        (put-IsText m dst (m src) (src + 1) bs (unread clear) t) (next clear) (omega (arith, lt)) in
    (
      m',
      rw ((==_ne (m src) 0 (λ z. ne (sym e ∙ z)))) run,
      (others dst (inl (omega arith)) ∙ rw (==_self dst) e, ne, small, text),
      λ x out. others x (after x out) ∙ rw (==_ne dst x (apart x out)),
    )
  where
    unread : IsClear dst src (b ∷ bs) → (dst < src + 1) ⊎ (src + 1 + length bs < dst)
    unread (inl p) = inl (omega (arith, p))
    unread (inr p) = inr (omega (arith, p))

    next : IsClear dst src (b ∷ bs) → IsClear (dst + 1) (src + 1) bs
    next (inl p) = inl (omega (arith, p))
    next (inr p) = inr (omega (arith, p))

    after :
        (x : ℕ)
        → (x < dst) ⊎ (dst + suc (length bs) < x)
        → (x < dst + 1) ⊎ (dst + 1 + length bs < x)
    after x (inl p) = inl (omega (arith, p))
    after x (inr p) = inr (omega (arith, p))

    apart : (x : ℕ) → (x < dst) ⊎ (dst + suc (length bs) < x) → dst ≢ x
    apart x (inl p) e' = absurd (omega (arith, p, e'))
    apart x (inr p) e' = absurd (omega (arith, p, e'))
