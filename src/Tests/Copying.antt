-- ===== src/Tests/Copying.antt =====
-- A table with one open descriptor, number 0, and one page of data. Its device gives two bytes at a time, ten in all.
use os_lab5_challenge.Base.{
  ℕ, ◌≡◌, ◌/◌, refl, arith, Bool, true, false, leb, ◌==◌, ◌||◌, if◌then◌else◌, none, some, [], ◌∷◌,
  done, pure, Result, ok,
}
use os_lab5_challenge.Fork.{Pte}
use os_lab5_challenge.Fd.{Fds, Dev, readn, dup, fd_alloc}
use os_lab5_challenge.Fd.Reads.{Ended, AreBounded, readn_lem}
use os_lab5_challenge.Fd.Alloc.{FirstFree, fd_alloc_lem}
use os_lab5_challenge.Fd.Dup.{IsDup, dup_lem}

abbrev page : Pte
page = record { frame = 5; d = true; cow = false; library = true }

abbrev fds : Fds ℕ
fds = record {
  vpd = λ i. i == 383 || i == 384;
  vpt = λ v. if v == 0x5fc00 then some page else if v == 0x60000 then some page else none;
  fds = λ _. record { fd_dev_id = 1; fd_offset = 0; fd_omode = 0 };
  dev = 10;
}

abbrev device : Dev ℕ
device = record {
  dev_id = 1;
  dev_read = λ frame buf n off s. done (ok (if leb 10 off then 0 else if leb 2 n then 2 else n)) s;
  dev_write = λ frame buf n off. pure (ok n);
  dev_close = λ frame. pure (ok 0);
}

abbrev memory : Fds ℕ → Result (Unit {0})
memory = λ _. ok tt

device-AreBounded : AreBounded (device ∷ [])
device-AreBounded = ((λ frame buf n off s. ground arith), tt)

readn_example : Ended memory (device ∷ []) 0 0x1000 10 (readn memory (device ∷ []) 0 0x1000 10 fds)
readn_example = readn_lem memory (λ _. refl) (device ∷ []) 0 0x1000 10 fds device-AreBounded

no_page : (v : ℕ) → fds.vpd (v / 1024) ≡ false → fds.vpt v ≡ none
no_page v e = by_page (v == 0x5fc00) (v == 0x60000) (ground (arith, e)) (ground (arith, e))
  where
    by_page :
        (b b' : Bool)
        → b ≡ false
        → b' ≡ false
        → (if b then some page else if b' then some page else none) ≡ none
    by_page b b' h h' = rw (h, h')

dup_example :
    (t : Fds ℕ) × (dup memory (device ∷ []) 0 3 fds ≡ done (ok 3) t) × IsDup 0 3 page fds t
dup_example =
    dup_lem memory (λ _. refl) (device ∷ []) 0 3 (omega arith) (omega arith) (omega arith) page fds
      refl refl refl no_page

fd_alloc_example : FirstFree fds 31 0 (fd_alloc fds)
fd_alloc_example = fd_alloc_lem fds
