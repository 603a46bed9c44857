-- ===== src/Tailq/Remove.antt =====
-- TAILQ_REMOVE takes exactly the given element off the queue.
use os_lab5_challenge.Base.{
  ℕ, ◌≡◌, refl, sym, ◌∙◌, ◌≢◌, true, arith, ==_self, ==_ne, ==_iff, Bool-cases, inl, inr, ap, ◌==◌,
  has, IsDistinct, List, [], ◌∷◌, update, none, some, subst, Option-cases, erase, has-cons_false,
  ne_of_has, erase-IsDistinct,
}
use os_lab5_challenge.Tailq.{Link, first_of, next_of, Tailq, deref, assign, remove}
use os_lab5_challenge.Tailq.Chain.{
  Chain, Holds, IsOff, inside, off_ne, prev-IsOn, next-has, next-ne,
}
use os_lab5_challenge.Tailq.Laws.{
  frame, assign_self, assign_ne, assign_prev, assign_last, deref-ext,
}

-- What TAILQ_REMOVE does to the fields, by whether the element is the last one.
module _ (q : Tailq) (e : ℕ) where
  abbrev cut_last : Tailq
  cut_last = assign (record q { last = q.prev e }) (q.prev e) none

  abbrev cut : ℕ → Tailq
  cut y = assign (record q { prev = update q.prev y (q.prev e) }) (q.prev e) (some y)

  remove_last : q.next e ≡ none → remove q e ≡ cut_last
  unfolding remove
  remove_last h = rw h (rw h)

  remove_inner : (y : ℕ) → q.next e ≡ some y → y ≢ e → remove q e ≡ cut y
  unfolding remove
  remove_inner y h ne = rw h (rw (==_ne y e ne) (rw h))

  remove-deref :
      (r : Link)
      → ((y : ℕ) → q.next e ≡ some y → y ≢ e)
      → q.prev e ≢ r
      → deref (remove q e) r ≡ deref q r
  remove-deref r loose ne = elim (Option-cases (q.next e)) [
    | inl h ↦
        ap (λ t. deref t r) (remove_last h)
        ∙ assign_ne (record q { last = q.prev e }) (q.prev e) r none ne
        ∙ deref-ext q (record q { last = q.prev e }) r refl (λ z s. refl)
    | inr (y, h) ↦
        ap (λ t. deref t r) (remove_inner y h (loose y h))
        ∙ assign_ne (record q { prev = update q.prev y (q.prev e) }) (q.prev e) r (some y) ne
        ∙ deref-ext q (record q { prev = update q.prev y (q.prev e) }) r refl (λ z s. refl)
  ]

  remove-prev :
      (x : ℕ) → ((y : ℕ) → q.next e ≡ some y → (y ≢ e) × (y ≢ x)) → (remove q e).prev x ≡ q.prev x
  remove-prev x loose = elim (Option-cases (q.next e)) [
    | inl h ↦
        ap (λ t. t.prev x) (remove_last h)
        ∙ assign_prev (record q { last = q.prev e }) (q.prev e) none x
    | inr (y, h) ↦
        ap (λ t. t.prev x) (remove_inner y h (loose y h).0)
        ∙ assign_prev (record q { prev = update q.prev y (q.prev e) }) (q.prev e) (some y) x
        ∙ rw (==_ne y x (loose y h).1)
  ]

  -- The removed element is the first one from `p` on.
  remove_head-Chain :
      (p : Link) (xs : List ℕ)
      → Chain q p (e ∷ xs)
      → IsOff p (e ∷ xs)
      → IsDistinct (e ∷ xs)
      → Chain (remove q e) p xs
  remove_head-Chain p [] c off d =
      subst (λ t. Chain t p []) (sym (remove_last c.2.0))
        (
          ap (deref cut_last) (sym c.1)
              ∙ assign_self (record q { last = q.prev e }) (q.prev e) none,
          assign_last (record q { last = q.prev e }) (q.prev e) none ∙ c.1,
        )
  remove_head-Chain p (y ∷ ys) c off d =
      let ne : y ≢ e = (has-cons_false e y ys d.0).0 in
      let q1 = record q { prev = update q.prev y (q.prev e) } in
      let spared : (z : ℕ) → has z (y ∷ ys) ≡ true → q.prev e ≢ next_of z =
        λ z i s. off_ne p off (inside z refl i) (sym c.1 ∙ s) in
      subst (λ t. Chain t p (y ∷ ys)) (sym (remove_inner y c.2.0 ne))
        (
          ap (deref (cut y)) (sym c.1) ∙ assign_self q1 (q.prev e) (some y),
          assign_prev q1 (q.prev e) (some y) y ∙ rw (==_self y) c.1,
          frame q (cut y) (next_of y) ys c.2.2
              (assign_ne q1 (q.prev e) (next_of y) (some y) (spared y (rw (==_self y))))
              (λ z i. assign_ne q1 (q.prev e) (next_of z) (some y) (spared z (later z i)))
              (λ z i.
                assign_prev q1 (q.prev e) (some y) z ∙ rw (==_ne y z (ne_of_has y z ys d.1.0 i)))
              (assign_last q1 (q.prev e) (some y)),
        )
    where
      later : (z : ℕ) → has z ys ≡ true → has z (y ∷ ys) ≡ true
      later z i = ground arith

  remove-Chain :
      (p : Link) (l : List ℕ)
      → Chain q p l
      → IsOff p l
      → IsDistinct l
      → has e l ≡ true
      → Chain (remove q e) p (erase e l)
  unfolding erase
  remove-Chain p [] c off d h = absurd (ground arith)
  remove-Chain p (x ∷ xs) c off d h = elim (Bool-cases (x == e)) [
    | inl s ↦
        let same = (==_iff x e).0 s in
        rw s (
          remove_head-Chain p xs (subst (λ t. Chain q p (t ∷ xs)) same c)
            (subst (λ t. IsOff p (t ∷ xs)) same off) (subst (λ t. IsDistinct (t ∷ xs)) same d))
    | inr n ↦
        let h' : has e xs ≡ true = rw n at h in
        let before = prev-IsOn q xs e c.2 h' in
        let on : (y : ℕ) → q.next e ≡ some y → has y xs ≡ true =
          λ y s. next-has q (next_of x) xs e y c.2 h' s in
        let loose : (y : ℕ) → q.next e ≡ some y → y ≢ e =
          λ y s. next-ne q (next_of x) xs e y c.2 d.1 h' s in
        rw n (
          remove-deref p loose (λ s. off_ne p off before (sym s)) ∙ c.0,
          remove-prev x (λ y s. (loose y s, λ t. ne_of_has x y xs d.0 (on y s) (sym t))) ∙ c.1,
          remove-Chain (next_of x) xs c.2 d.0 d.1 h',
        )
  ]

  -- On a well-formed queue TAILQ_REMOVE takes an element that is on it off, keeps the order of the
  -- others, and the queue is well formed again.
  pub remove-Holds : (l : List ℕ) → Holds q l → has e l ≡ true → Holds (remove q e) (erase e l)
  remove-Holds l h i = record {
    chain = remove-Chain first_of l h.chain tt h.distinct i;
    distinct = erase-IsDistinct e l h.distinct;
  }
