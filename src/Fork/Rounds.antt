-- ===== src/Fork/Rounds.antt =====
-- What the rounds of `fork` do to the two address spaces.
use native.Mathlib.Decide.{ℕ_discrete}
use os_lab5_challenge.Base.{
  ℕ, zero, suc, ◌≤◌, ◌<◌, ◌≡◌, ◌≢◌, refl, sym, ap, ◌∙◌, subst, true, false, Option, none, some,
  arith, if◌then◌else◌, ==_self, ==_ne, Bool-cases, inl, inr,
}
use os_lab5_challenge.Fork.{
  parent, child, Pte, Pair, map_page, shares, copy_on_write, dup_entry, duppage, fork,
}

-- The entry that both have after `fork`.
abbrev pub forked : Pte → Pte
forked p = if shares p then p else copy_on_write p

abbrev pub forked_entry : Option Pte → Option Pte
forked_entry none = none
forked_entry (some p) = some (forked p)

-- After `n` rounds: the pages from `n` on are as they were, the others are in both.
pub record IsForked (n : ℕ) (s s' : Pair) : Type 0 where
  pub same_bytes : s'.byte ≡ s.byte
  pub same_next : s'.next ≡ s.next
  pub rest_ours : (vpn : ℕ) → n ≤ vpn → s'.ours vpn ≡ s.ours vpn
  pub rest_theirs : (vpn : ℕ) → n ≤ vpn → s'.theirs vpn ≡ none
  pub done_ours : (vpn : ℕ) → vpn < n → s'.ours vpn ≡ forked_entry (s.ours vpn)
  pub done_theirs : (vpn : ℕ) → vpn < n → s'.theirs vpn ≡ s'.ours vpn

-- One round: what it does at page `n`, and that it leaves the others.
record IsRound (n : ℕ) (t t' : Pair) : Type 0 where
  pub bytes : t'.byte ≡ t.byte
  pub next_frame : t'.next ≡ t.next
  pub ours_else : (vpn : ℕ) → n ≢ vpn → t'.ours vpn ≡ t.ours vpn
  pub theirs_else : (vpn : ℕ) → n ≢ vpn → t'.theirs vpn ≡ t.theirs vpn
  pub ours_here : t'.ours n ≡ forked_entry (t.ours n)
  pub theirs_here : t'.theirs n ≡ t'.ours n

pub forked_copied : (p : Pte) → shares p ≡ false → forked p ≡ copy_on_write p
forked_copied p e = rw e

pub forked_shared : (p : Pte) → shares p ≡ true → forked p ≡ p
forked_shared p e = rw e

module _ (n : ℕ) (t : Pair) where
  dup_shared : (p : Pte) → shares p ≡ true → dup_entry n (some p) t ≡ map_page child n p t
  dup_shared p e = rw e

  dup_copied :
      (p : Pte)
      → shares p ≡ false
      → dup_entry n (some p) t
        ≡ map_page parent n (copy_on_write p) (map_page child n (copy_on_write p) t)
  dup_copied p e = rw e

  shared-IsRound :
      (p : Pte) → t.ours n ≡ some p → shares p ≡ true → IsRound n t (map_page child n p t)
  unfolding map_page
  shared-IsRound p e f = record {
    bytes = refl;
    next_frame = refl;
    ours_else = λ vpn ne. refl;
    theirs_else = λ vpn ne. rw (==_ne n vpn ne);
    ours_here = e ∙ ap some (sym (forked_shared p f)) ∙ ap forked_entry (sym e);
    theirs_here = rw (==_self n) (sym e);
  }

  copied-IsRound :
      (p : Pte)
      → t.ours n ≡ some p
      → shares p ≡ false
      → IsRound n t (map_page parent n (copy_on_write p) (map_page child n (copy_on_write p) t))
  unfolding map_page
  copied-IsRound p e f = record {
    bytes = refl;
    next_frame = refl;
    ours_else = λ vpn ne. rw (==_ne n vpn ne);
    theirs_else = λ vpn ne. rw (==_ne n vpn ne);
    ours_here = rw (==_self n) (ap some (sym (forked_copied p f)) ∙ ap forked_entry (sym e));
    theirs_here = rw (==_self n);
  }

  by_entry : t.theirs n ≡ none → (o : Option Pte) → t.ours n ≡ o → IsRound n t (dup_entry n o t)
  by_entry no_page none e = record {
    bytes = refl;
    next_frame = refl;
    ours_else = λ vpn ne. refl;
    theirs_else = λ vpn ne. refl;
    ours_here = e ∙ ap forked_entry (sym e);
    theirs_here = no_page ∙ sym e;
  }
  by_entry no_page (some p) e = elim (Bool-cases (shares p)) [
    | inl yes_shared ↦
        subst (IsRound n t) (sym (dup_shared p yes_shared)) (shared-IsRound p e yes_shared)
    | inr unshared ↦ subst (IsRound n t) (sym (dup_copied p unshared)) (copied-IsRound p e unshared)
  ]

  duppage-IsRound : t.theirs n ≡ none → IsRound n t (duppage n t)
  unfolding duppage
  duppage-IsRound no_page = by_entry no_page (t.ours n) refl

-- One more round.
IsForked-suc : {n : ℕ} {s t t' : Pair} → IsForked n s t → IsRound n t t' → IsForked (suc n) s t'
IsForked-suc {n} {s} {t} {t'} f r = record {
  same_bytes = r.bytes ∙ f.same_bytes;
  same_next = r.next_frame ∙ f.same_next;
  rest_ours = λ vpn le. r.ours_else vpn (omega arith) ∙ f.rest_ours vpn (omega arith);
  rest_theirs = λ vpn le. r.theirs_else vpn (omega arith) ∙ f.rest_theirs vpn (omega arith);
  done_ours = λ vpn lt. elim (ℕ_discrete n vpn) [
    | yes e ↦
        subst (λ v. t'.ours v ≡ forked_entry (s.ours v)) e
          (r.ours_here ∙ ap forked_entry (f.rest_ours n (omega arith)))
    | no ne ↦ r.ours_else vpn ne ∙ f.done_ours vpn (omega arith)
  ];
  done_theirs = λ vpn lt. elim (ℕ_discrete n vpn) [
    | yes e ↦ subst (λ v. t'.theirs v ≡ t'.ours v) e r.theirs_here
    | no ne ↦ r.theirs_else vpn ne ∙ f.done_theirs vpn (omega arith) ∙ sym (r.ours_else vpn ne)
  ];
}

module _ (s : Pair) (no_child : (vpn : ℕ) → s.theirs vpn ≡ none) where
  pub fork-IsForked : (n : ℕ) → IsForked n s (fork n s)
  unfolding fork
  fork-IsForked zero = record {
    same_bytes = refl;
    same_next = refl;
    rest_ours = λ vpn le. refl;
    rest_theirs = λ vpn le. no_child vpn;
    done_ours = λ vpn lt. absurd (omega arith);
    done_theirs = λ vpn lt. absurd (omega arith);
  }
  fork-IsForked (suc n) =
      let f = fork-IsForked n in
      IsForked-suc f (duppage-IsRound n (fork n s) (f.rest_theirs n (omega arith)))
