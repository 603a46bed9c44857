-- ===== src/Fd/Reads.antt =====
-- `readn`: reading until the buffer is full or the input ends.
use os_lab5_challenge.Base.{
  ℕ, ◌/◌, ◌^◌, leb, ◌&&◌, update, zero, suc, ◌+◌, ◌-◌, ◌≤◌, ◌<◌, ◌≡◌, ◌≢◌, ◌⊎◌, inl, inr, refl, ap,
  ◌∙◌, arith, Bool, true, false, ltb, Option, none, some, List, [], ◌∷◌, ◌==◌, if◌then◌else◌, M,
  Run, done, panic, and_then, pure, ◌>>=◌, Error, Result, ok, err,
}
use os_lab5_challenge.Fork.{Pte}
use os_lab5_challenge.Fd.{
  Fds, Dev, maxfd, index2fd, or_return, fd_lookup, dev_lookup, add_offset, access, read, read_with,
  read_more, readn_from, readn,
}

module _ {D : Type 0} where
  -- A call that returns, with an error or with at most `n`.
  abbrev pub AtMost : ℕ → Run (Fds D) (Result ℕ) → Type 0
  AtMost n panic = ⊥
  AtMost n (done (err e) s) = Unit {0}
  AtMost n (done (ok r) s) = r ≤ n

  -- Every device returns from a read, and reads no more than it is asked for.
  abbrev pub AreBounded : List (Dev D) → Type 0
  AreBounded [] = Unit {0}
  AreBounded (d ∷ ds) =
      ((frame buf n off : ℕ) (s : Fds D) → AtMost n (d.dev_read frame buf n off s)) × AreBounded ds

  abbrev Returns : {A : Type 0} → Run (Fds D) A → Type 0
  Returns panic = ⊥
  Returns (done a s) = Unit {0}

  bind_offset :
      (n frame : ℕ) (r : Run (Fds D) (Result ℕ))
      → AtMost n r
      → AtMost n (and_then r (add_offset frame))
  bind_offset n frame panic h = h
  bind_offset n frame (done (err e) s) h = tt
  bind_offset n frame (done (ok r) s) h = h

  if-AtMost :
      (n : ℕ) (b : Bool) (r r' : Run (Fds D) (Result ℕ))
      → AtMost n r
      → AtMost n r'
      → AtMost n (if b then r else r')
  if-AtMost n true r r' h h' = h
  if-AtMost n false r r' h h' = h'

  -- What follows `if ((r = ...) < 0) return r`.
  abbrev on_ok : {A : Type 0} → (A → M (Fds D) (Result ℕ)) → Result A → M (Fds D) (Result ℕ)
  on_ok k r = elim r [ ok a ↦ k a | err e ↦ pure (err e) ]

  bind-AtMost :
      {A : Type 0} (n : ℕ) (r : Run (Fds D) (Result A)) (k : A → M (Fds D) (Result ℕ))
      → Returns r
      → ((a : A) (s : Fds D) → AtMost n (k a s))
      → AtMost n (and_then r (on_ok k))
  bind-AtMost n panic k returns h = returns
  bind-AtMost n (done (err e) s) k returns h = tt
  bind-AtMost n (done (ok a) s) k returns h = h a s

  -- `fd_lookup` returns where there is memory for a table.
  fd_lookup-Returns :
      (memory : Fds D → Result (Unit {0})) (fdnum : ℕ) (s : Fds D)
      → memory s ≡ ok tt
      → Returns (fd_lookup memory fdnum s)
  unfolding fd_lookup
  fd_lookup-Returns memory fdnum s enough =
      by_tests (ltb fdnum (2 ^ 31) && leb maxfd fdnum) (s.vpd (index2fd fdnum / 0x400000))
        (s.vpt (index2fd fdnum / 4096)) (memory s) enough
    where
      by_tests :
          (bad has_table : Bool) (o : Option Pte) (r : Result (Unit {0}))
          → r ≡ ok tt
          → Returns {A = Result (ℕ × ℕ)} (
              if bad
              then done (err Error.inval) s
              else and_then
                  (if has_table then done o s else elim r [
                    | ok _ ↦
                        done none (record s { vpd = update s.vpd (index2fd fdnum / 0x400000) true })
                    | err e ↦ panic
                  ])
                  (λ r. elim r [
                    | none ↦ pure (err Error.inval)
                    | some p ↦ pure (ok (index2fd fdnum, p.frame))
                  ]))
      by_tests true has_table o r e = tt
      by_tests false true none r e = tt
      by_tests false true (some p) r e = tt
      by_tests false false o (ok _) e = tt
      by_tests false false o (err x) e = absurd (ground (arith, e))

  lookup-AtMost :
      (devtab : List (Dev D)) (id frame buf n : ℕ) (s : Fds D)
      → AreBounded devtab
      → AtMost n (or_return (dev_lookup devtab id) (read_with frame buf n) s)
  lookup-AtMost [] id frame buf n s h = tt
  lookup-AtMost (d ∷ ds) id frame buf n s (h, hs) =
      by_id (d.dev_id == id) (lookup-AtMost ds id frame buf n s hs)
    where
      by_id :
          (b : Bool)
          → AtMost n (and_then (dev_lookup ds id s) (on_ok (read_with frame buf n)))
          → AtMost n (
              and_then
                (if b then done (ok d) s else dev_lookup ds id s)
                (on_ok (read_with frame buf n)))
      by_id false later = later
      by_id true later =
          if-AtMost n (access ((s.fds frame).fd_omode) == 1) (done (err Error.inval) s)
            ((d.dev_read frame buf n ((s.fds frame).fd_offset) >>= add_offset frame) s) tt
            (bind_offset n frame (d.dev_read frame buf n ((s.fds frame).fd_offset) s)
              (h frame buf n ((s.fds frame).fd_offset) s))

  module _ (memory : Fds D → Result (Unit {0})) (devtab : List (Dev D)) where
    -- The end of `readn`: it returns, with an error or with a number of bytes up to `n`, and fewer than `n` only where the read at this
    -- place has given 0.
    abbrev pub Ended : ℕ → ℕ → ℕ → Run (Fds D) (Option (Result ℕ)) → Type 0
    Ended fdnum buf n panic = ⊥
    Ended fdnum buf n (done none s) = ⊥
    Ended fdnum buf n (done (some (err e)) s) = Unit {0}
    Ended fdnum buf n (done (some (ok t)) s) =
        (t ≤ n)
        × ((t ≡ n)
            ⊎ ((before : Fds D) × (read memory devtab fdnum (buf + t) (n - t) before
                  ≡ done (ok 0) s)))

  module _ (memory : Fds D → Result (Unit {0})) (has_memory : (s : Fds D) → memory s ≡ ok tt)
      (devtab : List (Dev D)) where
    read-AtMost :
        (fdnum buf n : ℕ) (s : Fds D)
        → AreBounded devtab
        → AtMost n (read memory devtab fdnum buf n s)
    unfolding read
    read-AtMost fdnum buf n s h =
        bind-AtMost n (fd_lookup memory fdnum s)
          (λ f s. or_return (dev_lookup devtab ((s.fds f.1).fd_dev_id)) (read_with f.1 buf n) s)
          (fd_lookup-Returns memory fdnum s (has_memory s))
          (λ f s. lookup-AtMost devtab ((s.fds f.1).fd_dev_id) f.1 buf n s h)

    module _ (fdnum buf n : ℕ) where
      readn_more :
          (tot m : ℕ) (before s : Fds D) (rest : ℕ → M (Fds D) (Option (Result ℕ))) (b : Bool)
          → (m == 0) ≡ b
          → tot < n
          → read memory devtab fdnum (buf + tot) (n - tot) before ≡ done (ok m) s
          → (m ≢ 0 → Ended memory devtab fdnum buf n (rest m s))
          → Ended memory devtab fdnum buf n ((if b then pure (some (ok tot)) else rest m) s)
      readn_more tot m before s rest true e lt is_read later =
          (omega arith, inr (before, is_read ∙ ap (λ k. done (ok k) s) (ground (arith, e))))
      readn_more tot m before s rest false e lt is_read later = later (ground (arith, e))

      readn_round :
          (tot : ℕ) (before : Fds D) (rest : ℕ → M (Fds D) (Option (Result ℕ)))
          (r : Run (Fds D) (Result ℕ))
          → tot < n
          → read memory devtab fdnum (buf + tot) (n - tot) before ≡ r
          → AtMost (n - tot) r
          → ((m : ℕ) (s : Fds D) → m ≢ 0 → tot + m ≤ n → Ended memory devtab fdnum buf n (rest m s))
          → Ended memory devtab fdnum buf n (and_then r (read_more tot rest))
      readn_round tot before rest panic lt e h later = h
      readn_round tot before rest (done (err x) s) lt e h later = tt
      readn_round tot before rest (done (ok m) s) lt e h later =
          readn_more tot m before s rest (m == 0) refl lt e (λ ne. later m s ne (omega arith))

      readn_test :
          (tot : ℕ) (s : Fds D) (r : Run (Fds D) (Option (Result ℕ))) (b : Bool)
          → ltb tot n ≡ b
          → tot ≤ n
          → (tot < n → Ended memory devtab fdnum buf n r)
          → Ended memory devtab fdnum buf n (if b then r else done (some (ok tot)) s)
      readn_test tot s r true e le round = round (ground (arith, e))
      readn_test tot s r false e le round = (le, inl (ground (arith, e, le)))

      readn_ends :
          (fuel tot : ℕ) (s : Fds D)
          → AreBounded devtab
          → tot ≤ n
          → n ≤ tot + fuel
          → Ended memory devtab fdnum buf n (readn_from memory devtab fuel fdnum buf n tot s)
      unfolding readn_from
      readn_ends zero tot s h le enough = all_read (ltb tot n) (ground (arith, enough))
        where
          all_read :
              (b : Bool)
              → b ≡ false
              → Ended memory devtab fdnum buf n (done (if b then none else some (ok tot)) s)
          all_read true e = absurd (ground (arith, e))
          all_read false e = (le, inl (omega arith))
      readn_ends (suc fuel) tot s h le enough =
          readn_test tot s
            (and_then (read memory devtab fdnum (buf + tot) (n - tot) s)
              (read_more tot (λ m. readn_from memory devtab fuel fdnum buf n (tot + m))))
            (ltb tot n) refl le
            (λ lt.
              readn_round tot s (λ m. readn_from memory devtab fuel fdnum buf n (tot + m))
                (read memory devtab fdnum (buf + tot) (n - tot) s) lt refl
                (read-AtMost fdnum (buf + tot) (n - tot) s h)
                (λ m s' ne le'. readn_ends fuel (tot + m) s' h le' (omega arith)))

    -- If every device returns from a read and reads no more than it is asked for, and there is memory for the table that
    -- a lookup may need, `readn` returns after at most `n` reads: with an error, or with
    -- at most `n` bytes, and with fewer than `n` only where the read for the rest has given 0.
    pub readn_lem :
        (fdnum buf n : ℕ) (s : Fds D)
        → AreBounded devtab
        → Ended memory devtab fdnum buf n (readn memory devtab fdnum buf n s)
    unfolding readn
    readn_lem fdnum buf n s h = readn_ends fdnum buf n n 0 s h (omega arith) (omega arith)
