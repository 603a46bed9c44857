-- ===== src/Tailq/Chain.antt =====
-- What a well-formed tail queue looks like, and what lies on it.
use os_lab5_challenge.Base.{
  ℕ, ◌≡◌, ◌≢◌, sym, ◌∙◌, ap, inl, inr, true, false, ◌||◌, none, some, List, [], ◌∷◌, arith, has,
  IsDistinct, has-cons_false, ==_self, ==_iff, ◌==◌, Bool-cases,
}
use os_lab5_challenge.Tailq.{Link, first_of, next_of, Tailq, deref}

-- From the place `p` on the links lead through the elements of the list to the end.
abbrev pub Chain : Tailq → Link → List ℕ → Type 0
Chain q p [] = (deref q p ≡ none) × (q.last ≡ p)
Chain q p (x ∷ xs) = (deref q p ≡ some x) × (q.prev x ≡ p) × Chain q (next_of x) xs

-- The queue holds exactly these elements, in this order, none twice.
pub record Holds (q : Tailq) (l : List ℕ) : Type 0 where
  pub chain : Chain q first_of l
  pub distinct : IsDistinct l

-- The place `p` is in none of the elements.
abbrev pub IsOff : Link → List ℕ → Type 0
IsOff first_of l = Unit {0}
IsOff (next_of z) l = has z l ≡ false

-- The place `p` is `start`, or lies in an element of the list.
pub data IsOn (start : Link) (l : List ℕ) (p : Link) : Type 0 where
  at_start : p ≡ start → IsOn start l p
  inside : (z : ℕ) → p ≡ next_of z → has z l ≡ true → IsOn start l p

pub IsOn-later : {x : ℕ} {xs : List ℕ} {p s : Link} → IsOn (next_of x) xs p → IsOn s (x ∷ xs) p
IsOn-later {x} {xs} (at_start e) = inside x e (rw (==_self x))
IsOn-later {x} {xs} (inside z e h) = inside z e (ground arith)

-- A place outside a chain is none of the places on it.
pub off_ne :
    (p : Link) {r : Link} {x : ℕ} {xs : List ℕ} → IsOff p (x ∷ xs) → IsOn (next_of x) xs r → p ≢ r
off_ne first_of off (at_start e) same = absurd (head_ne (same ∙ e))
  where
    head_ne : {y : ℕ} → first_of ≡ next_of y → ⊥
    head_ne h = cc
off_ne first_of off (inside z e h) same = absurd (head_ne (same ∙ e))
  where
    head_ne : {y : ℕ} → first_of ≡ next_of y → ⊥
    head_ne h = cc
off_ne (next_of w) {x = x} off (at_start e) same = clash (next_inj (same ∙ e))
  where
    next_inj : {y : ℕ} → next_of w ≡ next_of y → w ≡ y
    next_inj h = cc

    clash : w ≡ x → ⊥
    clash h = ground arith
off_ne (next_of w) {x = x} {xs = xs} off (inside z e h) same =
    clash (sym (ap (λ t. (x == t) || has t xs) (next_inj (same ∙ e))) ∙ off) h
  where
    next_inj : {y : ℕ} → next_of w ≡ next_of y → w ≡ y
    next_inj h = cc

    clash : ((x == z) || has z xs) ≡ false → has z xs ≡ true → ⊥
    clash f t = ground arith

-- The last place of a chain.
pub last-IsOn : (q : Tailq) {p : Link} (l : List ℕ) → Chain q p l → IsOn p l q.last
last-IsOn q [] c = at_start c.1
last-IsOn q (x ∷ xs) c = IsOn-later (last-IsOn q xs c.2)

-- The place that `tqe_prev` of an element names.
pub prev-IsOn :
    (q : Tailq) {p : Link} (l : List ℕ) (e : ℕ) → Chain q p l → has e l ≡ true → IsOn p l (q.prev e)
prev-IsOn q [] e c h = absurd (ground arith)
prev-IsOn q (x ∷ xs) e c h = elim (Bool-cases (x == e)) [
  | inl s ↦ at_start (ap q.prev (sym ((==_iff x e).0 s)) ∙ c.1)
  | inr n ↦ IsOn-later (prev-IsOn q xs e c.2 (rw n at h))
]

-- The element after an element of the chain, if there is one, is on it too.
pub next-has :
    (q : Tailq) (p : Link) (l : List ℕ) (e y : ℕ)
    → Chain q p l
    → has e l ≡ true
    → q.next e ≡ some y
    → has y l ≡ true
next-has q p [] e y c h n = absurd (ground arith)
next-has q p (x ∷ []) e y c h n = absurd (clash (sym n ∙ ap q.next (sym (only h)) ∙ c.2.0))
  where
    only : ((x == e) || false) ≡ true → x ≡ e
    only s = ground arith

    clash : some y ≡ none → ⊥
    clash s = cc
next-has q p (x ∷ z ∷ xs) e y c h n = elim (Bool-cases (x == e)) [
  | inl s ↦ here (sym c.2.0 ∙ ap q.next ((==_iff x e).0 s) ∙ n)
  | inr o ↦ later (next-has q (next_of x) (z ∷ xs) e y c.2 (rw o at h) n)
]
  where
    here : some z ≡ some y → has y (x ∷ z ∷ xs) ≡ true
    here s = ground arith

    later : has y (z ∷ xs) ≡ true → has y (x ∷ z ∷ xs) ≡ true
    later s = ground arith

-- No element is its own successor.
pub next-ne :
    (q : Tailq) (p : Link) (l : List ℕ) (e y : ℕ)
    → Chain q p l
    → IsDistinct l
    → has e l ≡ true
    → q.next e ≡ some y
    → y ≢ e
next-ne q p [] e y c d h n = absurd (ground arith)
next-ne q p (x ∷ xs) e y c d h n = elim (Bool-cases (x == e)) [
  | inl s ↦ first xs c.2 d.0 ((==_iff x e).0 s)
  | inr o ↦ next-ne q (next_of x) xs e y c.2 d.1 (rw o at h) n
]
  where
    first : (zs : List ℕ) → Chain q (next_of x) zs → has x zs ≡ false → x ≡ e → y ≢ e
    first [] c' out s t = clash (sym n ∙ ap q.next (sym s) ∙ c'.0)
      where
        clash : some y ≡ none → ⊥
        clash h' = cc
    first (z ∷ zs) c' out s t =
        (has-cons_false x z zs out).0 (inj (sym c'.0 ∙ ap q.next s ∙ n) ∙ t ∙ sym s)
      where
        inj : some z ≡ some y → z ≡ y
        inj h' = cc
