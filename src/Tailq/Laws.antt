-- ===== src/Tailq/Laws.antt =====
-- The macros of include/queue.h keep a tail queue well formed, and do to its elements what they say.
use os_lab5_challenge.Base.{
  ℕ, ◌≡◌, refl, sym, ◌∙◌, ◌≢◌, true, false, arith, ==_self, ==_ne, ap, has, IsDistinct, List, [],
  ◌∷◌, ◌++◌, update, Option, none, some, subst, has-cons_false, ne_of_has, append-IsDistinct,
}
use os_lab5_challenge.Tailq.{
  Link, first_of, next_of, Tailq, deref, assign, insert_head, insert_tail, init,
}
use os_lab5_challenge.Tailq.Chain.{Chain, Holds, IsOff, off_ne, last-IsOn}

-- A chain survives any change that spares its places.
pub frame :
    (q q' : Tailq) (p : Link) (l : List ℕ)
    → Chain q p l
    → deref q' p ≡ deref q p
    → ((e : ℕ) → has e l ≡ true → q'.next e ≡ q.next e)
    → ((e : ℕ) → has e l ≡ true → q'.prev e ≡ q.prev e)
    → q'.last ≡ q.last
    → Chain q' p l
frame q q' p [] c d n v e = (d ∙ c.0, e ∙ c.1)
frame q q' p (x ∷ xs) c d n v e = (
  d ∙ c.0,
  v x (rw (==_self x)) ∙ c.1,
  frame q q' (next_of x) xs c.2 (n x (rw (==_self x))) (λ y h. n y (ground arith))
      (λ y h. v y (ground arith)) e,
)

pub assign_self : (q : Tailq) (p : Link) (v : Option ℕ) → deref (assign q p v) p ≡ v
assign_self q first_of v = refl
assign_self q (next_of e) v = rw (==_self e)

pub assign_ne : (q : Tailq) (p r : Link) (v : Option ℕ) → p ≢ r → deref (assign q p v) r ≡ deref q r
assign_ne q first_of first_of v h = absurd (h refl)
assign_ne q first_of (next_of y) v h = refl
assign_ne q (next_of x) first_of v h = refl
assign_ne q (next_of x) (next_of y) v h = rw (==_ne x y (λ e. h (ap next_of e)))

-- An assignment leaves the other fields alone.
pub assign_prev : (q : Tailq) (p : Link) (v : Option ℕ) (e : ℕ) → (assign q p v).prev e ≡ q.prev e
assign_prev q first_of v e = refl
assign_prev q (next_of x) v e = refl

pub assign_last : (q : Tailq) (p : Link) (v : Option ℕ) → (assign q p v).last ≡ q.last
assign_last q first_of v = refl
assign_last q (next_of x) v = refl

pub deref-ext :
    (q q' : Tailq) (p : Link)
    → q'.first ≡ q.first
    → ((z : ℕ) → p ≡ next_of z → q'.next z ≡ q.next z)
    → deref q' p ≡ deref q p
deref-ext q q' first_of f n = f
deref-ext q q' (next_of z) f n = n z refl

pub link_ne : {x e : ℕ} → x ≢ e → next_of x ≢ next_of e
link_ne {x} {e} h s = h (inj s)
  where
    inj : next_of x ≡ next_of e → x ≡ e
    inj t = cc

module _ (q : Tailq) (e : ℕ) where
  -- TAILQ_INSERT_TAIL from the place `p` on.
  insert_tail-Chain :
      (p : Link) (l : List ℕ)
      → Chain q p l
      → IsOff p l
      → IsDistinct l
      → has e l ≡ false
      → p ≢ next_of e
      → Chain (insert_tail q e) p (l ++ (e ∷ []))
  unfolding insert_tail
  insert_tail-Chain p [] c off d out ne =
      let q1 = record q { next = update q.next e none; prev = update q.prev e q.last } in
      let a = assign q1 q.last (some e) in
      (
        deref-ext a (insert_tail q e) p refl (λ z h. refl)
            ∙ ap (deref a) (sym c.1)
            ∙ assign_self q1 q.last (some e),
        assign_prev q1 q.last (some e) e ∙ rw (==_self e) c.1,
        (assign_ne q1 q.last (next_of e) (some e) (λ h. ne (sym c.1 ∙ h)) ∙ rw (==_self e), refl),
      )
  insert_tail-Chain p (x ∷ xs) c off d out ne =
      let q1 = record q { next = update q.next e none; prev = update q.prev e q.last } in
      let a = assign q1 q.last (some e) in
      let (diff, out') = has-cons_false e x xs out in
      (
        deref-ext a (insert_tail q e) p refl (λ z h. refl)
            ∙ assign_ne q1 q.last p (some e) (λ h. off_ne p off (last-IsOn q xs c.2) (sym h))
            ∙ deref-ext q q1 p refl (λ z h. rw (==_ne e z (λ s. ne (h ∙ ap next_of (sym s)))))
            ∙ c.0,
        assign_prev q1 q.last (some e) x ∙ rw (==_ne e x (λ s. diff (sym s))) c.1,
        insert_tail-Chain (next_of x) xs c.2 d.0 d.1 out' (link_ne diff),
      )

  -- On a well-formed queue TAILQ_INSERT_TAIL appends an element that is not on it, and the queue is
  -- well formed again.
  pub insert_tail-Holds :
      (l : List ℕ) → Holds q l → has e l ≡ false → Holds (insert_tail q e) (l ++ (e ∷ []))
  insert_tail-Holds l h out = record {
    chain = insert_tail-Chain first_of l h.chain tt h.distinct out (λ s. head_ne s);
    distinct = append-IsDistinct e l h.distinct out;
  }
    where
      head_ne : first_of ≡ next_of e → ⊥
      head_ne t = cc

  abbrev headed : ℕ → Tailq
  headed x = record q {
    first = some e;
    next = update q.next e (some x);
    prev = update (update q.prev x (next_of e)) e first_of;
  }

  abbrev alone : Tailq
  alone = record {
    first = some e;
    last = next_of e;
    next = update q.next e none;
    prev = update q.prev e first_of;
  }

  insert_head_empty : q.first ≡ none → insert_head q e ≡ alone
  unfolding insert_head
  insert_head_empty h = rw h

  insert_head_more : (x : ℕ) → q.first ≡ some x → insert_head q e ≡ headed x
  unfolding insert_head
  insert_head_more x h = rw h

  -- On a well-formed queue TAILQ_INSERT_HEAD puts an element that is not on it in front, and the queue
  -- is well formed again.
  pub insert_head-Holds :
      (l : List ℕ) → Holds q l → has e l ≡ false → Holds (insert_head q e) (e ∷ l)
  insert_head-Holds [] h out =
      subst (λ t. Holds t (e ∷ [])) (sym (insert_head_empty h.chain.0))
        (record { chain = (refl, rw (==_self e), (rw (==_self e), refl)); distinct = (refl, tt) })
  insert_head-Holds (x ∷ xs) h out =
      let (diff, out') = has-cons_false e x xs out in
      let ne : e ≢ x = λ s. diff (sym s) in
      subst (λ t. Holds t (e ∷ x ∷ xs)) (sym (insert_head_more x h.chain.0))
        (record {
          chain = (
            refl,
            rw (==_self e),
            (
              rw (==_self e),
              rw (==_ne e x ne, ==_self x),
              frame q (headed x) (next_of x) xs h.chain.2 (rw (==_ne e x ne))
                  (λ y i. rw (==_ne e y (ne_of_has e y xs out' i)))
                  (λ y i. rw (
                    ==_ne e y (ne_of_has e y xs out' i),
                    ==_ne x y (ne_of_has x y xs h.distinct.0 i),
                  ))
                  refl,
            ),
          );
          distinct = (out, h.distinct);
        })

-- TAILQ_INIT makes the queue empty.
pub init-Holds : (q : Tailq) → Holds (init q) []
unfolding init
init-Holds q = record { chain = (refl, refl); distinct = tt }
