-- ===== src/Fork.antt =====
-- `fork` of user/lib/fork.c: the address spaces of an env and of the child that it makes, page by page, with the
-- copies that their writes lead to. A system call that fails is left out: fork does not look at its results.
pub mod Rounds
pub mod Isolation
pub mod Writes
use os_lab5_challenge.Base.{
  ℕ, zero, suc, ◌+◌, Bool, true, false, not, ◌||◌, Option, none, some, if◌then◌else◌, update,
}

pub data Who : Type 0 where
  parent child : Who

-- A valid entry: the frame, and PTE_D, PTE_COW and PTE_LIBRARY.
pub record Pte : Type 0 where
  pub frame : ℕ
  pub d : Bool
  pub cow : Bool
  pub library : Bool

-- `next` is the frame that the kernel gives next.
pub record Pair : Type 0 where
  pub ours : ℕ → Option Pte
  pub theirs : ℕ → Option Pte
  pub byte : ℕ → ℕ → ℕ
  pub next : ℕ

-- `vpt[vpn]` of an env.
abbrev pub entry : Who → Pair → ℕ → Option Pte
entry parent s = s.ours
entry child s = s.theirs

-- `syscall_mem_map` at `vpn`, of a page of ours.
unfoldable pub map_page : Who → ℕ → Pte → Pair → Pair
map_page parent vpn p s = record s { ours = update s.ours vpn (some p) }
map_page child vpn p s = record s { theirs = update s.theirs vpn (some p) }

abbrev pub shares : Pte → Bool
shares p = not p.d || p.library || p.cow

abbrev pub copy_on_write : Pte → Pte
copy_on_write p = record p { cow = true; d = false }

abbrev pub dup_entry : ℕ → Option Pte → Pair → Pair
dup_entry vpn none s = s
dup_entry vpn (some p) s =
    if shares p
    then map_page child vpn p s
    else map_page parent vpn (copy_on_write p) (map_page child vpn (copy_on_write p) s)

-- `duppage`, for a page that is mapped.
unfoldable pub duppage : ℕ → Pair → Pair
unfolding map_page
duppage vpn s = dup_entry vpn (s.ours vpn) s

-- The loop of `fork` over the pages below USTACKTOP, of which there are `n`.
unfoldable pub fork : ℕ → Pair → Pair
unfolding duppage
fork zero s = s
fork (suc n) s = duppage n (fork n s)

-- `cow_entry`: a private copy of the page, by way of UCOW.
unfoldable pub cow_entry : Who → ℕ → Pte → Pair → Pair
unfolding map_page
cow_entry who vpn p s =
    map_page who vpn (record p { frame = s.next; cow = false; d = true })
      (record s { byte = update s.byte s.next (s.byte p.frame); next = s.next + 1 })

abbrev pub put_byte : ℕ → ℕ → ℕ → Pair → Pair
put_byte frame off b s = record s { byte = update s.byte frame (update (s.byte frame) off b) }

-- A store of an env: at a page without PTE_D it faults, and is done again after `cow_entry`. `none` is the end of
-- the env: no page, or no PTE_COW.
abbrev pub write_at : Who → ℕ → ℕ → ℕ → Option Pte → Pair → Option Pair
write_at who vpn off b none s = none
write_at who vpn off b (some p) s =
    if p.d
    then some (put_byte p.frame off b s)
    else if p.cow
    then some (put_byte s.next off b (cow_entry who vpn p s))
    else none

unfoldable pub write : Who → ℕ → ℕ → ℕ → Pair → Option Pair
unfolding cow_entry
write who vpn off b s = write_at who vpn off b (entry who s vpn) s
