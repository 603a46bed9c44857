-- ===== src/Fd/Copies.antt =====
-- The copy that `dup` makes of a descriptor's data.
use os_lab5_challenge.Base.{
  ℕ, zero, suc, ◌+◌, ◌*◌, ◌/◌, ◌≤◌, ◌<◌, ◌≡◌, ◌≢◌, ◌⊎◌, inl, inr, refl, ap, ap₂, subst, ◌∙◌, sym,
  arith, Bool, true, false, ltb, leb, ◌||◌, Option, none, some, ◌==◌, if◌then◌else◌, update,
  ==_same, ==_ne, done, and_then, pure, Error, Result, ok, err,
}
use os_lab5_challenge.Fork.{Pte}
use os_lab5_challenge.Pmap.{utemp, utop}
use os_lab5_challenge.Fd.{Fds, or_return, copied, put_page, map_page, dup_data}

-- A second entry for the frame of `p`: writable and shared as `p` is, without PTE_COW.
abbrev pub twin : Pte → Pte
twin p = record { frame = p.frame; d = p.d; cow = false; library = p.library }

-- What a page of the new data holds: a copy of the old one's, where there is one.
abbrev pub over : Option Pte → Option Pte → Option Pte
over none q = q
over (some p) q = some (twin p)

abbrev pub placed : {D : Type 0} → ℕ → Pte → Fds D → Fds D
placed dva p s = record s {
  vpd = update s.vpd (dva / 0x400000) true;
  vpt = update s.vpt (dva / 4096) (some (copied p));
}

pub at_place : (f : ℕ → Option Pte) (v w : ℕ) (p : Option Pte) → v ≡ w → update f v p w ≡ p
at_place f v w p e = ap (λ b. if b then p else f w) (==_same v w e)

pub elsewhere : (f : ℕ → Option Pte) (v w : ℕ) (p : Option Pte) → v ≢ w → update f v p w ≡ f w
elsewhere f v w p ne = ap (λ b. if b then p else f w) (==_ne v w ne)

shrink :
    (b i n v : ℕ) → (v < b + i) ⊎ (b + i + suc n ≤ v) → (v < b + (i + 1)) ⊎ (b + (i + 1) + n ≤ v)
shrink b i n v (inl h) = inl (omega arith)
shrink b i n v (inr h) = inr (omega arith)

-- A range with its first number apart.
pub from_first :
    (P : ℕ → Type 0) (i n : ℕ)
    → P i
    → ((j : ℕ) → i + 1 ≤ j → j < i + 1 + n → P j)
    → (j : ℕ) → i ≤ j
    → j < i + suc n
    → P j
from_first P i n first later j le lt = by_place (place (j == i) refl)
  where
    place : (x : Bool) → (j == i) ≡ x → (j ≡ i) ⊎ (i + 1 ≤ j)
    place true h = inl (ground (arith, h))
    place false h = inr (ground (arith, h, le))

    by_place : (j ≡ i) ⊎ (i + 1 ≤ j) → P j
    by_place (inl e) = subst P (sym e) first
    by_place (inr h) = later j h (omega arith)

-- `t` is `s` after the copy of the pages from `a + i` on to those from `b + i` on, `n` of them.
pub record IsCopied {D : Type 0} (a b i n : ℕ) (s t : Fds D) : Type 0 where
  pub inside : (j : ℕ) → i ≤ j → j < i + n → t.vpt (b + j) ≡ over (s.vpt (a + j)) (s.vpt (b + j))
  pub outside : (v : ℕ) → (v < b + i) ⊎ (b + i + n ≤ v) → t.vpt v ≡ s.vpt v
  pub same_fds : t.fds ≡ s.fds
  pub same_dev : t.dev ≡ s.dev

module _ {D : Type 0} (memory : Fds D → Result (Unit {0}))
    (has_memory : (s : Fds D) → memory s ≡ ok tt) where
  -- A page that is mapped is mapped a second time at a legal address.
  pub map_page_lem :
      (va dva : ℕ) (p : Pte) (s : Fds D)
      → s.vpt (va / 4096) ≡ some p
      → utemp ≤ dva
      → dva < utop
      → map_page memory va dva s ≡ done (ok tt) (placed dva p s)
  map_page_lem va dva p s e low high =
      by_address (ltb dva utemp || leb utop dva) (ground (arith, low, high))
    where
      by_memory :
          (b : Bool)
          → put_page dva (copied p) (if b then ok tt else memory s) s
            ≡ done (ok tt) (placed dva p s)
      by_memory true = refl
      by_memory false = ap (λ r. put_page dva (copied p) r s) (has_memory s)

      by_address :
          (b : Bool)
          → b ≡ false
          → (if b then done (err Error.inval) s else elim (s.vpt (va / 4096)) [
            | none ↦ done (err Error.inval) s
            | some p ↦
                put_page dva (copied p) (if s.vpd (dva / 0x400000) then ok tt else memory s) s
          ])
            ≡ done (ok tt) (placed dva p s)
      by_address true e' = absurd (ground (arith, e'))
      by_address false e' =
          ap
            (λ o. elim o [
              | none ↦ done (err Error.inval) s
              | some p ↦
                  put_page dva (copied p) (if s.vpd (dva / 0x400000) then ok tt else memory s) s
            ])
            e
          ∙ by_memory (s.vpd (dva / 0x400000))

  module _ (a b : ℕ) (apart : (a + 1024 ≤ b) ⊎ (b + 1024 ≤ a)) (low : utemp ≤ b * 4096)
      (high : (b + 1024) * 4096 ≤ utop) where
    unused :
        (i n : ℕ) (s t : Fds D)
        → s.vpt (a + i) ≡ none
        → IsCopied a b (i + 1) n s t
        → IsCopied a b i (suc n) s t
    unused i n s t e c = record {
      inside =
          from_first (λ j. t.vpt (b + j) ≡ over (s.vpt (a + j)) (s.vpt (b + j))) i n first c.inside;
      outside = λ v out. c.outside v (shrink b i n v out);
      same_fds = c.same_fds;
      same_dev = c.same_dev;
    }
      where
        first : t.vpt (b + i) ≡ over (s.vpt (a + i)) (s.vpt (b + i))
        first = c.outside (b + i) (inl (omega arith)) ∙ ap (λ o. over o (s.vpt (b + i))) (sym e)

    used :
        (i n dva : ℕ) (p : Pte) (s t : Fds D)
        → i + n < 1024
        → dva / 4096 ≡ b + i
        → s.vpt (a + i) ≡ some p
        → IsCopied a b (i + 1) n (placed dva p s) t
        → IsCopied a b i (suc n) s t
    used i n dva p s t small at e c = record {
      inside =
          from_first (λ j. t.vpt (b + j) ≡ over (s.vpt (a + j)) (s.vpt (b + j))) i n first later;
      outside = λ v out.
          c.outside v (shrink b i n v out)
          ∙ elsewhere s.vpt (dva / 4096) v (some (copied p)) (missed v out);
      same_fds = c.same_fds;
      same_dev = c.same_dev;
    }
      where
        missed : (v : ℕ) → (v < b + i) ⊎ (b + i + suc n ≤ v) → dva / 4096 ≢ v
        missed v (inl h) e' = absurd (omega arith)
        missed v (inr h) e' = absurd (omega arith)

        first : t.vpt (b + i) ≡ over (s.vpt (a + i)) (s.vpt (b + i))
        first =
            c.outside (b + i) (inl (omega arith))
            ∙ at_place s.vpt (dva / 4096) (b + i) (some (copied p)) at
            ∙ ap (λ o. over o (s.vpt (b + i))) (sym e)

        far : (j : ℕ) → j < 1024 → dva / 4096 ≢ a + j
        far j lt e' = by_side apart
          where
            by_side : (a + 1024 ≤ b) ⊎ (b + 1024 ≤ a) → ⊥
            by_side (inl h) = omega arith
            by_side (inr h) = omega arith

        later :
            (j : ℕ)
            → i + 1 ≤ j
            → j < i + 1 + n
            → t.vpt (b + j) ≡ over (s.vpt (a + j)) (s.vpt (b + j))
        later j le lt =
            c.inside j le lt
            ∙ ap₂ over
                (elsewhere s.vpt (dva / 4096) (a + j) (some (copied p)) (far j (omega arith)))
                (elsewhere s.vpt (dva / 4096) (b + j) (some (copied p))
                  (λ e'. absurd (omega arith)))

    -- The loop from page `i` on ends well.
    abbrev pub Copies : (ova nva n i : ℕ) (s : Fds D) → Type 0
    Copies ova nva n i s =
        (t : Fds D) × (dup_data memory ova nva n i s ≡ done (ok tt) t) × IsCopied a b i n s t

    copy_step :
        (n i ova nva : ℕ) (s : Fds D) (o : Option Pte)
        → i + n < 1024
        → ova ≡ a * 4096
        → nva ≡ b * 4096
        → s.vpt ((ova + i * 4096) / 4096) ≡ o
        → ((s' : Fds D) → Copies ova nva n (i + 1) s')
        → (t : Fds D) × (elim o [
          | none ↦ dup_data memory ova nva n (i + 1) s
          | some p ↦
              or_return
                (map_page memory (ova + i * 4096) (nva + i * 4096))
                (λ _. dup_data memory ova nva n (i + 1))
                s
        ]
            ≡ done (ok tt) t)
          × IsCopied a b i (suc n) s t
    copy_step n i ova nva s none small is_a is_b e later =
        let (t, run, c) = later s in (t, run, unused i n s t (ap s.vpt (omega arith) ∙ e) c)
    copy_step n i ova nva s (some p) small is_a is_b e later =
        let (t, run, c) = later (placed (nva + i * 4096) p s) in
        (
          t,
          ap
                (λ r.
                  and_then r (λ r. elim r [
                    | ok _ ↦ dup_data memory ova nva n (i + 1)
                    | err e ↦ pure (err e)
                  ]))
                (map_page_lem (ova + i * 4096) (nva + i * 4096) p s e (omega arith) (omega arith))
              ∙ run,
          used i n (nva + i * 4096) p s t small (omega arith) (ap s.vpt (omega arith) ∙ e) c,
        )

    pub dup_data_lem :
        (n i ova nva : ℕ) (s : Fds D)
        → i + n ≤ 1024
        → ova ≡ a * 4096
        → nva ≡ b * 4096
        → Copies ova nva n i s
    unfolding dup_data
    dup_data_lem zero i ova nva s le is_a is_b = (
      s,
      refl,
      record {
        inside = λ j le' lt. absurd (omega arith);
        outside = λ v out. refl;
        same_fds = refl;
        same_dev = refl;
      },
    )
    dup_data_lem (suc n) i ova nva s le is_a is_b =
        copy_step n i ova nva s (s.vpt ((ova + i * 4096) / 4096)) (omega arith) is_a is_b refl
          (λ s'. dup_data_lem n (i + 1) ova nva s' (omega arith) is_a is_b)
