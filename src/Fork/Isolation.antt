-- ===== src/Fork/Isolation.antt =====
-- What the entries of a page tell of its frame, and that `fork` keeps it.
use native.Mathlib.Decide.{dec_lt}
use os_lab5_challenge.Base.{
  ℕ, ◌≤◌, ◌<◌, ◌≡◌, refl, sym, ap, ◌∙◌, subst, Bool, true, false, not, ◌||◌, Option, none, some,
  arith, if◌then◌else◌, Bool-cases, inl, inr,
}
use os_lab5_challenge.Fork.{Who, parent, child, Pte, Pair, entry, shares, copy_on_write, fork}
use os_lab5_challenge.Fork.Rounds.{
  forked, forked_entry, IsForked, forked_copied, forked_shared, fork-IsForked,
}

-- What an env reads at a page.
abbrev pub view : Who → Pair → ℕ → Option (ℕ → ℕ)
view who s vpn = elim (entry who s vpn) [ none ↦ none | some p ↦ some (s.byte p.frame) ]

-- A frame below `next`; a page that waits for its copy is not writable.
pub record IsSane (s : Pair) (p : Pte) : Type 0 where
  pub known : p.frame < s.next
  pub waits : p.cow ≡ true → p.d ≡ false

-- A frame that is writable without being shared is mapped once.
pub record IsIsolated (s : Pair) : Type 0 where
  pub sane : (who : Who) (vpn : ℕ) (p : Pte) → entry who s vpn ≡ some p → IsSane s p
  pub alone :
      (who who' : Who) (vpn vpn' : ℕ) (p q : Pte)
      → entry who s vpn ≡ some p
      → entry who' s vpn' ≡ some q
      → p.d ≡ true
      → p.library ≡ false
      → p.frame ≡ q.frame
      → (who ≡ who') × (vpn ≡ vpn')

must_wait :
    (d library cow : Bool)
    → (not d || library || cow) ≡ true
    → d ≡ true
    → library ≡ false
    → cow ≡ true
must_wait d library cow e f g = ground arith

-- Where an entry comes from.
data Origin (n : ℕ) (s : Pair) (who : Who) (vpn : ℕ) (p : Pte) : Type 0 where
  duped : (q : Pte) → vpn < n → s.ours vpn ≡ some q → p ≡ forked q → Origin n s who vpn p
  left : n ≤ vpn → who ≡ parent → s.ours vpn ≡ some p → Origin n s who vpn p

forked_entry-some :
    (o : Option Pte) (p : Pte) → forked_entry o ≡ some p → (q : Pte) × (o ≡ some q) × (p ≡ forked q)
forked_entry-some none p e = absurd (ground (arith, e))
forked_entry-some (some q) p e = (q, refl, cc)

frame-forked : (q : Pte) → (forked q).frame ≡ q.frame
frame-forked q = by_shares (shares q)
  where
    by_shares : (x : Bool) → (if x then q else copy_on_write q).frame ≡ q.frame
    by_shares true = refl
    by_shares false = refl

module _ {n : ℕ} {s s' : Pair} (f : IsForked n s s') where
  origin_ours : (vpn : ℕ) (p : Pte) → s'.ours vpn ≡ some p → Origin n s parent vpn p
  origin_ours vpn p e = elim (dec_lt vpn n) [
    | yes lt ↦
        let (q, at, eq) = forked_entry-some (s.ours vpn) p (sym (f.done_ours vpn lt) ∙ e) in
        duped q lt at eq
    | no ge ↦ left (omega arith) refl (sym (f.rest_ours vpn (omega arith)) ∙ e)
  ]

  origin_theirs : (vpn : ℕ) (p : Pte) → s'.theirs vpn ≡ some p → Origin n s child vpn p
  origin_theirs vpn p e = elim (dec_lt vpn n) [
    | yes lt ↦
        let (q, at, eq) =
          forked_entry-some (s.ours vpn) p
            (sym (f.done_ours vpn lt) ∙ sym (f.done_theirs vpn lt) ∙ e) in
        duped q lt at eq
    | no ge ↦
        let no_page : some p ≡ none = sym e ∙ f.rest_theirs vpn (omega arith) in
        absurd (ground (arith, no_page))
  ]

  origin : (who : Who) (vpn : ℕ) (p : Pte) → entry who s' vpn ≡ some p → Origin n s who vpn p
  origin parent vpn p e = origin_ours vpn p e
  origin child vpn p e = origin_theirs vpn p e

  module _ (i : IsIsolated s) where
    forked-IsSane : (q : Pte) → IsSane s q → IsSane s' (forked q)
    forked-IsSane q sane = record {
      known =
          subst (λ k. (forked q).frame < k) (sym f.same_next)
            (subst (λ k. k < s.next) (sym (frame-forked q)) sane.known);
      waits = by_shares (shares q);
    }
      where
        by_shares :
            (x : Bool)
            → (if x then q else copy_on_write q).cow ≡ true
            → (if x then q else copy_on_write q).d ≡ false
        by_shares true e = sane.waits e
        by_shares false e = refl

    -- A page that is writable and not shared was not duplicated.
    not_duped : (q : Pte) → IsSane s q → (forked q).d ≡ true → (forked q).library ≡ false → ⊥
    not_duped q sane w l = elim (Bool-cases (shares q)) [
      | inr f ↦ clash (sym (ap (λ x. x.d) (forked_copied q f)) ∙ w)
      | inl t ↦
          let same = forked_shared q t in
          let d : q.d ≡ true = sym (ap (λ x. x.d) same) ∙ w in
          let cow = must_wait q.d q.library q.cow t d (sym (ap (λ x. x.library) same) ∙ l) in
          clash (sym (sane.waits cow) ∙ d)
    ]
      where
        clash : false ≡ true → ⊥
        clash e = cc

    origin-IsSane : {who : Who} (vpn : ℕ) (p : Pte) → Origin n s who vpn p → IsSane s' p
    origin-IsSane vpn p (duped q lt at eq) =
        subst (IsSane s') (sym eq) (forked-IsSane q (i.sane parent vpn q at))
    origin-IsSane vpn p (left le w at) =
        let o = i.sane parent vpn p at in
        record { known = subst (λ k. p.frame < k) (sym f.same_next) o.known; waits = o.waits }

    alone_of :
        (who who' : Who) (vpn vpn' : ℕ) (p q : Pte)
        → Origin n s who vpn p
        → Origin n s who' vpn' q
        → p.d ≡ true
        → p.library ≡ false
        → p.frame ≡ q.frame
        → (who ≡ who') × (vpn ≡ vpn')
    alone_of who who' vpn vpn' p q (duped p0 lt at eq) o w l same = absurd (
        not_duped p0 (i.sane parent vpn p0 at) (ap (λ x. x.d) (sym eq) ∙ w)
          (ap (λ x. x.library) (sym eq) ∙ l))
    alone_of who who' vpn vpn' p q (left le pa at) (left le' pa' at') w l same =
        (pa ∙ sym pa', (i.alone parent parent vpn vpn' p q at at' w l same).1)
    alone_of who who' vpn vpn' p q (left le pa at) (duped q0 lt at' eq) w l same =
        let e =
          (i.alone parent parent vpn vpn' p q0 at at' w l
            (same ∙ ap (λ x. x.frame) eq ∙ frame-forked q0)).1 in
        absurd (omega arith)

    forked-IsIsolated : IsIsolated s'
    forked-IsIsolated = record {
      sane = λ who vpn p e. origin-IsSane vpn p (origin who vpn p e);
      alone = λ who who' vpn vpn' p q e e'.
          alone_of who who' vpn vpn' p q (origin who vpn p e) (origin who' vpn' q e');
    }

view-forked :
    (byte : ℕ → ℕ → ℕ) (o : Option Pte)
    → (elim (forked_entry o) [ none ↦ none | some p ↦ some (byte p.frame) ])
      ≡ (elim o [ none ↦ none | some p ↦ some (byte p.frame) ])
view-forked byte none = refl
view-forked byte (some p) = ap (λ k. some (byte k)) (frame-forked p)

-- If the child has no page yet, `fork` over `n` pages gives it the bytes of every page of ours below `n`, and no
-- other page; what we read does not change; and if every page of ours that is writable and not shared has a frame of its own, and none with PTE_COW is writable,
-- then so it is for both afterwards.
pub fork_lem :
    (n : ℕ) (s : Pair)
    → IsIsolated s
    → ((vpn : ℕ) → s.theirs vpn ≡ none)
    → ((vpn : ℕ) → vpn < n → view child (fork n s) vpn ≡ view parent s vpn)
      × ((vpn : ℕ) → n ≤ vpn → view child (fork n s) vpn ≡ none)
      × ((vpn : ℕ) → view parent (fork n s) vpn ≡ view parent s vpn)
      × IsIsolated (fork n s)
fork_lem n s i no_child = (
  λ vpn lt. seen (f.done_theirs vpn lt ∙ f.done_ours vpn lt) ∙ view-forked s.byte (s.ours vpn),
  λ vpn le. seen (f.rest_theirs vpn le),
  λ vpn. elim (dec_lt vpn n) [
    | yes lt ↦ seen (f.done_ours vpn lt) ∙ view-forked s.byte (s.ours vpn)
    | no ge ↦ seen (f.rest_ours vpn (omega arith))
  ],
  forked-IsIsolated f i,
)
  where
    f : IsForked n s (fork n s)
    f = fork-IsForked s no_child n

    seen :
        {o o' : Option Pte}
        → o ≡ o'
        → (elim o [ none ↦ none | some p ↦ some ((fork n s).byte p.frame) ])
          ≡ (elim o' [ none ↦ none | some p ↦ some (s.byte p.frame) ])
    seen {o} {o'} e =
        ap (λ x. elim x [ none ↦ none | some p ↦ some ((fork n s).byte p.frame) ]) e
        ∙ ap (λ (b : ℕ → ℕ → ℕ). elim o' [ none ↦ none | some p ↦ some (b p.frame) ]) f.same_bytes
