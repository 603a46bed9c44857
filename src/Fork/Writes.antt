-- ===== src/Fork/Writes.antt =====
-- After `fork` a store of one env is seen at its page and nowhere else.
use native.Mathlib.Decide.{ℕ_discrete}
use os_lab5_challenge.Base.{
  ℕ, ◌+◌, ◌≡◌, ◌≢◌, ◌⊎◌, refl, sym, ap, ap₂, ◌∙◌, subst, Bool, true, false, ◌||◌, Option, none,
  some, arith, if◌then◌else◌, ==_self, ==_ne, Bool-cases, inl, inr, update,
}
use os_lab5_challenge.Fork.{
  Who, parent, child, Pte, Pair, entry, map_page, cow_entry, put_byte, write_at, write,
}
use os_lab5_challenge.Fork.Isolation.{view, IsSane, IsIsolated}

-- Two places differ.
abbrev pub Differ : Who → ℕ → Who → ℕ → Type 0
Differ who vpn who' vpn' = (who ≢ who') ⊎ (vpn ≢ vpn')

entry-map_page_self :
    (who : Who) (vpn : ℕ) (p : Pte) (s : Pair) → entry who (map_page who vpn p s) vpn ≡ some p
unfolding map_page
entry-map_page_self parent vpn p s = rw (==_self vpn)
entry-map_page_self child vpn p s = rw (==_self vpn)

entry-map_page_ne :
    (who who' : Who) (vpn vpn' : ℕ) (p : Pte) (s : Pair)
    → Differ who vpn who' vpn'
    → entry who' (map_page who vpn p s) vpn' ≡ entry who' s vpn'
unfolding map_page
entry-map_page_ne parent parent vpn vpn' p s (inl ne) = absurd (ne refl)
entry-map_page_ne parent parent vpn vpn' p s (inr ne) = rw (==_ne vpn vpn' ne)
entry-map_page_ne parent child vpn vpn' p s d = refl
entry-map_page_ne child parent vpn vpn' p s d = refl
entry-map_page_ne child child vpn vpn' p s (inl ne) = absurd (ne refl)
entry-map_page_ne child child vpn vpn' p s (inr ne) = rw (==_ne vpn vpn' ne)

-- What `write` leads to: every other page is seen as before, at the page the byte is written, and the frames are
-- as separate as before.
pub record IsWritten (who : Who) (vpn off b : ℕ) (s s' : Pair) : Type 0 where
  pub others :
      (who' : Who) (vpn' : ℕ) → Differ who vpn who' vpn' → view who' s' vpn' ≡ view who' s vpn'
  pub here : (old : ℕ → ℕ) → view who s vpn ≡ some old → view who s' vpn ≡ some (update old off b)
  pub isolated : IsIsolated s'

same_or_Differ :
    (who who' : Who) (vpn vpn' : ℕ) → ((who ≡ who') × (vpn ≡ vpn')) ⊎ Differ who vpn who' vpn'
same_or_Differ parent child vpn vpn' = inr (inl (λ e. cc))
same_or_Differ child parent vpn vpn' = inr (inl (λ e. cc))
same_or_Differ parent parent vpn vpn' = elim (ℕ_discrete vpn vpn') [
  | yes e ↦ inl (refl, e)
  | no ne ↦ inr (inr ne)
]
same_or_Differ child child vpn vpn' = elim (ℕ_discrete vpn vpn') [
  | yes e ↦ inl (refl, e)
  | no ne ↦ inr (inr ne)
]

not_both :
    {who who' : Who} {vpn vpn' : ℕ} → Differ who vpn who' vpn' → (who ≡ who') × (vpn ≡ vpn') → ⊥
not_both (inl ne) e = ne e.0
not_both (inr ne) e = ne e.1

-- Equal bytes at the frame of an entry give equal views.
view_same :
    (byte byte' : ℕ → ℕ → ℕ) (o : Option Pte)
    → ((q : Pte) → o ≡ some q → byte' q.frame ≡ byte q.frame)
    → (elim o [ none ↦ none | some q ↦ some (byte' q.frame) ])
      ≡ (elim o [ none ↦ none | some q ↦ some (byte q.frame) ])
view_same byte byte' none h = refl
view_same byte byte' (some q) h = ap some (h q refl)

abbrev shown : (ℕ → ℕ → ℕ) → Option Pte → Option (ℕ → ℕ)
shown byte o = elim o [ none ↦ none | some q ↦ some (byte q.frame) ]

clash : false ≡ true → ⊥
clash e = cc

pte_inj : {p q : Pte} → some p ≡ some q → p ≡ q
pte_inj e = cc

some_inj : {f g : ℕ → ℕ} → some f ≡ some g → f ≡ g
some_inj e = cc

entry-put_byte :
    (who' : Who) (f off b vpn' : ℕ) (t : Pair)
    → entry who' (put_byte f off b t) vpn' ≡ entry who' t vpn'
entry-put_byte parent f off b vpn' t = refl
entry-put_byte child f off b vpn' t = refl

module _ (who : Who) (vpn : ℕ) (s : Pair) (p : Pte) (off b : ℕ) where
  written_here :
      (s' : Pair) (q : Pte) (old : ℕ → ℕ)
      → entry who s vpn ≡ some p
      → entry who s' vpn ≡ some q
      → s'.byte q.frame ≡ update (s.byte p.frame) off b
      → shown s.byte (entry who s vpn) ≡ some old
      → shown s'.byte (entry who s' vpn) ≡ some (update old off b)
  written_here s' q old at at' bytes seen =
      ap (shown s'.byte) at'
      ∙ ap some (bytes ∙ ap (λ c. update c off b) (some_inj (sym (ap (shown s.byte) at) ∙ seen)))

  -- In place.
  direct :
      IsIsolated s
      → entry who s vpn ≡ some p
      → p.d ≡ true
      → p.library ≡ false
      → IsWritten who vpn off b s (put_byte p.frame off b s)
  direct i at w l = record {
    others = λ who' vpn' differ.
        ap (shown (put_byte p.frame off b s).byte) (entry-put_byte who' p.frame off b vpn' s)
        ∙ view_same s.byte (put_byte p.frame off b s).byte (entry who' s vpn') (λ q at'. rw (
            ==_ne p.frame q.frame
              (λ e. not_both differ (i.alone who who' vpn vpn' p q at at' w l e))));
    here = λ old seen.
        (written_here (put_byte p.frame off b s) p old at
          (entry-put_byte who p.frame off b vpn s ∙ at) (rw (==_self p.frame)) seen);
    isolated = record {
      sane = λ who' vpn' q at'.
          let o = i.sane who' vpn' q (sym (entry-put_byte who' p.frame off b vpn' s) ∙ at') in
          record { known = o.known; waits = o.waits };
      alone = λ w1 w2 v1 v2 q1 q2 e1 e2.
          i.alone w1 w2 v1 v2 q1 q2 (sym (entry-put_byte w1 p.frame off b v1 s) ∙ e1)
            (sym (entry-put_byte w2 p.frame off b v2 s) ∙ e2);
    };
  }

  -- By a copy.
  abbrev copied : Pair
  copied = put_byte s.next off b (cow_entry who vpn p s)

  abbrev fresh : Pte
  fresh = record p { frame = s.next; cow = false; d = true }

  copied_here : entry who copied vpn ≡ some fresh
  unfolding cow_entry
  copied_here =
      entry-put_byte who s.next off b vpn (cow_entry who vpn p s)
      ∙ entry-map_page_self who vpn fresh _

  entry-with :
      (who' : Who) (vpn' : ℕ) (bytes : ℕ → ℕ → ℕ) (k : ℕ)
      → entry who' (record s { byte = bytes; next = k }) vpn' ≡ entry who' s vpn'
  entry-with parent vpn' bytes k = refl
  entry-with child vpn' bytes k = refl

  copied_else :
      (who' : Who) (vpn' : ℕ)
      → Differ who vpn who' vpn'
      → entry who' copied vpn' ≡ entry who' s vpn'
  unfolding cow_entry
  copied_else who' vpn' differ =
      entry-put_byte who' s.next off b vpn' (cow_entry who vpn p s)
      ∙ entry-map_page_ne who who' vpn vpn' fresh _ differ
      ∙ entry-with who' vpn' _ _

  next-copied : copied.next ≡ s.next + 1
  unfolding cow_entry map_page
  next-copied = by_who who
    where
      by_who : (w : Who) → (cow_entry w vpn p s).next ≡ s.next + 1
      by_who parent = refl
      by_who child = refl

  byte-copied :
      copied.byte
      ≡ update (update s.byte s.next (s.byte p.frame)) s.next (update (s.byte p.frame) off b)
  unfolding cow_entry map_page
  byte-copied = by_who who
    where
      by_who :
          (w : Who)
          → (put_byte s.next off b (cow_entry w vpn p s)).byte
            ≡ update (update s.byte s.next (s.byte p.frame)) s.next (update (s.byte p.frame) off b)
      by_who parent = rw (==_self s.next)
      by_who child = rw (==_self s.next)

  module _ (i : IsIsolated s) (at : entry who s vpn ≡ some p) where
    -- An entry of `copied` is the new one, or one from before.
    old_or_new :
        (w : Who) (v : ℕ) (q : Pte)
        → entry w copied v ≡ some q
        → ((who ≡ w) × (vpn ≡ v) × (q ≡ fresh)) ⊎ (Differ who vpn w v × (entry w s v ≡ some q))
    old_or_new w v q e = elim (same_or_Differ who w vpn v) [
      | inr differ ↦ inr (differ, sym (copied_else w v differ) ∙ e)
      | inl (same_who, same_vpn) ↦ inl (
        same_who,
        same_vpn,
        pte_inj (sym (ap₂ (λ x y. entry x copied y) same_who same_vpn ∙ e) ∙ copied_here),
      )
    ]

    copied-IsSane : (w : Who) (v : ℕ) (q : Pte) → entry w copied v ≡ some q → IsSane copied q
    copied-IsSane w v q e = elim (old_or_new w v q e) [
      | inl (_, _, new) ↦
          subst (IsSane copied) (sym new)
            (record { known = omega (arith, next-copied); waits = λ x. absurd (clash x) })
      | inr (_, old) ↦
          let o = i.sane w v q old in
          record { known = omega (arith, next-copied, o.known); waits = o.waits }
    ]

    copied-alone :
        (w1 w2 : Who) (v1 v2 : ℕ) (q1 q2 : Pte)
        → entry w1 copied v1 ≡ some q1
        → entry w2 copied v2 ≡ some q2
        → q1.d ≡ true
        → q1.library ≡ false
        → q1.frame ≡ q2.frame
        → (w1 ≡ w2) × (v1 ≡ v2)
    copied-alone w1 w2 v1 v2 q1 q2 e1 e2 d l same = elim (old_or_new w1 v1 q1 e1) [
      | inl (a, b', new) ↦ elim (old_or_new w2 v2 q2 e2) [
        | inl (a2, b2, new2) ↦ (sym a ∙ a2, sym b' ∙ b2)
        | inr (_, old2) ↦
            let o = i.sane w2 v2 q2 old2 in
            let eq : s.next ≡ q2.frame = sym (ap (λ x. x.frame) new) ∙ same in
            absurd (omega (arith, o.known))
      ]
      | inr (_, old1) ↦ elim (old_or_new w2 v2 q2 e2) [
        | inl (a2, b2, new2) ↦
            let o = i.sane w1 v1 q1 old1 in
            let eq : q1.frame ≡ s.next = same ∙ ap (λ x. x.frame) new2 in
            absurd (omega (arith, o.known))
        | inr (_, old2) ↦ i.alone w1 w2 v1 v2 q1 q2 old1 old2 d l same
      ]
    ]

    by_copy : IsWritten who vpn off b s copied
    by_copy = record {
      others = λ who' vpn' differ.
          ap (shown copied.byte) (copied_else who' vpn' differ)
          ∙ view_same s.byte copied.byte (entry who' s vpn') (λ q at'.
            let o = i.sane who' vpn' q at' in
            ap (λ f. f q.frame) byte-copied
            ∙ rw (==_ne s.next q.frame (λ e. absurd (omega (arith, o.known)))));
      here = λ old seen.
          written_here copied fresh old at copied_here
            (ap (λ f. f s.next) byte-copied ∙ rw (==_self s.next)) seen;
      isolated = record { sane = copied-IsSane; alone = copied-alone };
    }

-- A store to a page that is writable or waits for its copy, and is not shared, succeeds; the env reads
-- the byte there, and whatever else the two envs read stays, so neither sees the other's stores; and the
-- frames are as separate as before, so the same holds of the next store.
pub write_lem :
    (who : Who) (vpn : ℕ) (s : Pair) (p : Pte) (off b : ℕ)
    → IsIsolated s
    → entry who s vpn ≡ some p
    → p.library ≡ false
    → (p.d || p.cow) ≡ true
    → (s' : Pair) × (write who vpn off b s ≡ some s') × IsWritten who vpn off b s s'
unfolding write
write_lem who vpn s p off b i at l ready = elim (Bool-cases p.d) [
  | inl w ↦ (
    put_byte p.frame off b s,
    ap (λ o. write_at who vpn off b o s) at ∙ rw w,
    direct who vpn s p off b i at w l,
  )
  | inr n ↦ (
    copied who vpn s p off b,
    ap (λ o. write_at who vpn off b o s) at ∙ waiting n,
    by_copy who vpn s p off b i at,
  )
]
  where
    second : (x y : Bool) → x ≡ false → (x || y) ≡ true → y ≡ true
    second x y e f = ground arith

    waiting : p.d ≡ false → write_at who vpn off b (some p) s ≡ some (copied who vpn s p off b)
    waiting n =
        ap₂
          (λ x y.
            if x
            then some (put_byte p.frame off b s)
            else if y
            then some (copied who vpn s p off b)
            else none)
          n (second p.d p.cow n ready)
