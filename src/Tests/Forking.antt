-- ===== src/Tests/Forking.antt =====
-- An env with one page, which is writable.
use os_lab5_challenge.Base.{
  ℕ, zero, suc, ◌+◌, ◌≤◌, ◌<◌, ◌≡◌, refl, sym, ◌∙◌, subst, true, false, Option, none, some, arith,
}
use os_lab5_challenge.Fork.{Who, parent, child, Pte, Pair, entry, fork, write}
use os_lab5_challenge.Fork.Isolation.{view, IsSane, IsIsolated, fork_lem}
use os_lab5_challenge.Fork.Writes.{IsWritten, write_lem}

abbrev page : Pte
page = record { frame = 7; d = true; cow = false; library = false }

abbrev pages : ℕ → Option Pte
pages zero = some page
pages (suc n) = none

abbrev before : Pair
before = record { ours = pages; theirs = λ _. none; byte = λ f j. f + j; next = 10 }

only_page :
    (who : Who) (vpn : ℕ) (p : Pte)
    → entry who before vpn ≡ some p
    → (who ≡ parent) × (vpn ≡ 0) × (p ≡ page)
only_page child vpn p e = absurd (ground (arith, e))
only_page parent (suc n) p e = absurd (ground (arith, e))
only_page parent zero p e = (refl, refl, cc)

page-IsSane : IsSane before page
page-IsSane = record { known = omega arith; waits = λ e. absurd (ground (arith, e)) }

before-IsIsolated : IsIsolated before
before-IsIsolated = record {
  sane = λ who vpn p e. subst (IsSane before) (sym ((only_page who vpn p e).2)) page-IsSane;
  alone = λ who who' vpn vpn' p q e e' d l same. (
    (only_page who vpn p e).0 ∙ sym ((only_page who' vpn' q e').0),
    (only_page who vpn p e).1 ∙ sym ((only_page who' vpn' q e').1),
  );
}

fork_example :
    ((vpn : ℕ) → vpn < 4 → view child (fork 4 before) vpn ≡ view parent before vpn)
    × ((vpn : ℕ) → 4 ≤ vpn → view child (fork 4 before) vpn ≡ none)
    × ((vpn : ℕ) → view parent (fork 4 before) vpn ≡ view parent before vpn)
    × IsIsolated (fork 4 before)
fork_example = fork_lem 4 before before-IsIsolated (λ vpn. refl)

-- The child stores into the page that it has from its parent.
write_example :
    (s : Pair) × (write child 0 3 99 (fork 4 before) ≡ some s)
    × IsWritten child 0 3 99 (fork 4 before) s
unfolding fork
write_example =
    write_lem child 0 (fork 4 before) (record page { d = false; cow = true }) 3 99 (fork_example.3)
      refl refl refl
