-- ===== src/Fs/Dirs/Path.antt =====
-- `walk_path` against its meaning: the names between the slashes are looked up one after the other.
use os_lab5_challenge.Base.{
  ℕ, ◌≡◌, Bool, true, false, Option, none, some, List, [], ◌∷◌, ◌++◌, ◌==◌, if◌then◌else◌, M, pure,
}
use os_lab5_challenge.Fs.{Fs}
use os_lab5_challenge.Fs.Cache.{given}
use os_lab5_challenge.Fs.Files.{Place, Memory}
use os_lab5_challenge.Fs.Dirs.{skip_slash, first_name, Walked, look_up}

-- The names of a path, read byte by byte; `cur` is the name that is being read.
abbrev finish : List ℕ → List (List ℕ) → List (List ℕ)
finish [] names = names
finish (c ∷ cs) names = (c ∷ cs) ∷ names

unfoldable pub split : List ℕ → List ℕ → List (List ℕ)
split cur [] = finish cur []
split cur (c ∷ cs) =
    let next = split [] cs in
    let longer = split (cur ++ (c ∷ [])) cs in if c == b'/' then finish cur next else longer

abbrev pub is_last : List (List ℕ) → Bool
is_last [] = true
is_last (name ∷ names) = false

-- Each name is looked up in the file that the names before it lead to.
unfoldable pub walk_names : Memory → List (List ℕ) → Option Place → Place → M Fs Walked
walk_names memory [] dir file = pure (record { reply = given file; pdir = dir; lastelem = none })
walk_names memory (name ∷ names) dir file =
    look_up memory (walk_names memory names (some file)) (is_last names) file name

StartsClean : List ℕ → Type 0
StartsClean [] = Unit {0}
StartsClean (c ∷ cs) = (c == b'/') ≡ false

-- The rest of a path after its first name.
abbrev after : List ℕ → List ℕ
after cs = skip_slash ((first_name cs).1)
