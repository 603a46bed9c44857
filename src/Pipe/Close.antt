-- ===== src/Pipe/Close.antt =====
-- When `_pipe_is_closed` answers that a pipe is closed, against the order in which `pipe_close` and `dup`
-- change the page counts that it compares.
use os_lab5_challenge.Base.{
  ℕ, ◌+◌, ◌-◌, ◌<◌, ◌≡◌, refl, ◌⊎◌, inl, inr, ap, ◌∙◌, Bool, Bool-cases, ==_iff, ◌&&◌, Option, none,
  some, List, [], ◌∷◌, arith, ◌==◌, if◌then◌else◌,
}

pub data Side : Type 0 where
  reading writing : Side

-- `pageref` of the two `Fd` pages and of the pipe's page, which all envs share. `halfway` counts the
-- calls of `pipe_close` and `dup` that have done one of their two steps.
pub record Refs : Type 0 where
  pub fd0 : ℕ
  pub fd1 : ℕ
  pub page : ℕ
  pub halfway : ℕ

abbrev pub fd_ref : Side → Refs → ℕ
fd_ref reading s = s.fd0
fd_ref writing s = s.fd1

abbrev pub other : Side → Side
other reading = writing
other writing = reading

abbrev pub set_fd_ref : Side → ℕ → Refs → Refs
set_fd_ref reading n s = record s { fd0 = n }
set_fd_ref writing n s = record s { fd1 = n }

-- The first step of `pipe_close`: `syscall_mem_unmap(0, fd)`.
unfoldable pub unmap_fd : Side → Refs → Refs
unmap_fd side s = record (set_fd_ref side (fd_ref side s - 1) s) { halfway = s.halfway + 1 }

-- Its second step: `syscall_mem_unmap(0, fd2data(fd))`.
unfoldable pub unmap_page : Refs → Refs
unmap_page s = record s { page = s.page - 1; halfway = s.halfway - 1 }

-- `dup` maps the pipe's page first, and then the `Fd` page.
unfoldable pub map_page : Refs → Refs
map_page s = record s { page = s.page + 1; halfway = s.halfway + 1 }

unfoldable pub map_fd : Side → Refs → Refs
map_fd side s = record (set_fd_ref side (fd_ref side s + 1) s) { halfway = s.halfway - 1 }

pub data Step : Refs → Refs → Type 0 where
  closes : (side : Side) (s : Refs) → 0 < fd_ref side s → Step s (unmap_fd side s)
  closed : (s : Refs) → 0 < s.halfway → 0 < s.page → Step s (unmap_page s)
  dups : (s : Refs) → Step s (map_page s)
  duped : (side : Side) (s : Refs) → 0 < s.halfway → Step s (map_fd side s)

-- What `pipe` leaves: each end is open once, and the page is mapped for both.
abbrev pub created : Refs
created = record { fd0 = 1; fd1 = 1; page = 2; halfway = 0 }

pub data Reached : Refs → Type 0 where
  start : Reached created
  later : {s t : Refs} → Reached s → Step s t → Reached t

-- One round of the loop: `env_runs` before and after, and the states in which the counts are read.
pub record Look : Type 0 where
  pub runs : ℕ
  pub at_fd : Refs
  pub at_page : Refs
  pub runs_after : ℕ

-- `none` while the rounds go on.
unfoldable pub pipe_is_closed : Side → List Look → Option Bool
pipe_is_closed side [] = none
pipe_is_closed side (look ∷ looks) =
    if look.runs == look.runs_after
    then some (fd_ref side look.at_fd == look.at_page.page)
    else pipe_is_closed side looks

abbrev IsBalanced : Refs → Type 0
IsBalanced s = s.page ≡ s.fd0 + s.fd1 + s.halfway

Step-IsBalanced : {s t : Refs} → Step s t → IsBalanced s → IsBalanced t
unfolding unmap_fd unmap_page map_page map_fd
Step-IsBalanced (closes reading s h) b = omega arith
Step-IsBalanced (closes writing s h) b = omega arith
Step-IsBalanced (closed s h p) b = omega arith
Step-IsBalanced (dups s) b = omega arith
Step-IsBalanced (duped reading s h) b = omega arith
Step-IsBalanced (duped writing s h) b = omega arith

Reached-IsBalanced : {s : Refs} → Reached s → IsBalanced s
Reached-IsBalanced start = omega arith
Reached-IsBalanced (later r st) = Step-IsBalanced st (Reached-IsBalanced r)

-- The rounds read states that are reached, and `env_runs` is the same only if no other env has run.
unfoldable pub AreLooks : List Look → Type 0
AreLooks [] = Unit {0}
AreLooks (look ∷ looks) =
    Reached look.at_fd × (look.runs ≡ look.runs_after → look.at_page ≡ look.at_fd) × AreLooks looks

unfoldable pub IsSeen : Refs → List Look → Type 0
IsSeen s [] = ⊥
IsSeen s (look ∷ looks) = (look.at_fd ≡ s) ⊎ IsSeen s looks

abbrev pub is_shut : Side → Refs → Bool
is_shut side s = (fd_ref side s == 0) && (s.halfway == 0)

answer :
    (side : Side) (s : Refs) → IsBalanced s → (fd_ref side s == s.page) ≡ is_shut (other side) s
answer reading s b = ground arith
answer writing s b = ground arith

-- In every state that `pipe_close` and `dup` can lead to, between their steps too, `_pipe_is_closed` answers
-- by a state that it has read: yes exactly when the other end is open nowhere and no call is
-- halfway, if it reads states that are reached, and one state in a round that leaves `env_runs` alone.
pub pipe_is_closed_lem :
    (side : Side) (looks : List Look) {b : Bool}
    → AreLooks looks
    → pipe_is_closed side looks ≡ some b
    → (s : Refs) × IsSeen s looks × (b ≡ is_shut (other side) s)
unfolding pipe_is_closed AreLooks IsSeen
pipe_is_closed_lem side [] l e = cc
pipe_is_closed_lem side (look ∷ looks) {b} l e = elim (Bool-cases (look.runs == look.runs_after)) [
  | inl same ↦
      let one : look.at_page ≡ look.at_fd = l.1 ((==_iff _ _).0 same) in
      let shown : some (fd_ref side look.at_fd == look.at_page.page) ≡ some b = rw same at e in
      let eq : b ≡ (fd_ref side look.at_fd == look.at_page.page) = cc in
      (
        look.at_fd,
        inl refl,
        eq
            ∙ ap (λ (t : Refs). fd_ref side look.at_fd == t.page) one
            ∙ answer side look.at_fd (Reached-IsBalanced l.0),
      )
  | inr moved ↦
      let (s, seen, eq) = pipe_is_closed_lem side looks l.2 (rw moved at e) in (s, inr seen, eq)
]
