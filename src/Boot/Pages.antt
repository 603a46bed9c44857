-- ===== src/Boot/Pages.antt =====
-- `page_init` sets up the invariant of the page tables.
use os_lab5_challenge.Base.{
  leb, not, ℕ, zero, suc, ◌+◌, ◌-◌, ◌%◌, ◌^◌, ◌≤◌, ◌<◌, ◌≡◌, refl, sym, ◌∙◌, ◌≢◌, Bool, true, false,
  ◌&&◌, arith, ==_self, ==_ne, ==_iff, Bool-cases, inl, inr, ap, ◌==◌, if◌then◌else◌, has,
  IsDistinct, ◌⊎◌, [], ◌∷◌, done, panic, update, ltb, ltb→lt, subst, leb,
}
use native.Mathlib.Decide.{ℕ_discrete}
use native.Mathlib.Decide.{ℕ_discrete}
use os_lab5_challenge.Base.Sums.{total-zero}
use os_lab5_challenge.Pmap.{Machine}
use os_lab5_challenge.Pmap.Inv.{kernel, dir, plain, table, Roles, count, hits_in, Inv}
use os_lab5_challenge.Boot.{alloc, Boot, round, page_kva, init_pages, page_init}

-- The pages that the kernel's image and its tables take.
abbrev pub used : ℕ → ℕ → Bool
used freemem p = ltb (page_kva p) freemem

-- The state of the loop before page `i`.
record HasInit (freemem i : ℕ) (m0 m : Machine) : Type 0 where
  distinct : IsDistinct m.free
  listed : (p : ℕ) → has p m.free ≡ (ltb p i && not (used freemem p))
  counts : (p : ℕ) → p < i → m.pp_ref p ≡ (if used freemem p then 1 else 0)
  same_npage : m.npage ≡ m0.npage
  same_word : m.word ≡ m0.word

and_false : (a : Bool) → (a && false) ≡ false
and_false a = ground arith

ltb-next_ne : (p i : ℕ) → p ≢ i → ltb p (i + 1) ≡ ltb p i
ltb-next_ne p i ne = ground arith

ltb-next_self : (i : ℕ) → (ltb i (i + 1) ≡ true) × (ltb i i ≡ false)
ltb-next_self i = (ground arith, ground arith)

module _ (freemem i : ℕ) (m0 m : Machine) (h : HasInit freemem i m0 m) where
  counts_next :
      (c : ℕ)
      → c ≡ (if used freemem i then 1 else 0)
      → (p : ℕ) → p < i + 1
      → update m.pp_ref i c p ≡ (if used freemem p then 1 else 0)
  counts_next c now p lt = elim (ℕ_discrete i p) [
    | yes e ↦ rw ((==_iff i p).1 e) (now ∙ ap (λ x. if used freemem x then 1 else 0) e)
    | no ne ↦ rw (==_ne i p ne) (h.counts p (omega (arith, lt, ne)))
  ]

  init_used :
      used freemem i ≡ true → HasInit freemem (i + 1) m0 (record m { pp_ref = update m.pp_ref i 1 })
  init_used t = record {
    distinct = h.distinct;
    listed = λ p. h.listed p ∙ elim (ℕ_discrete p i) [
      | yes e ↦ rw (e, t) (and_false _ ∙ sym (and_false _))
      | no ne ↦ rw (ltb-next_ne p i ne)
    ];
    counts = counts_next 1 (rw t);
    same_npage = h.same_npage;
    same_word = h.same_word;
  }

  init_free :
      used freemem i ≡ false
      → HasInit freemem (i + 1) m0 (record m { pp_ref = update m.pp_ref i 0; free = i ∷ m.free })
  init_free f = record {
    distinct = (h.listed i ∙ rw ((ltb-next_self i).1) refl, h.distinct);
    listed = λ p. elim (ℕ_discrete p i) [
      | yes e ↦ rw (e, ==_self i, (ltb-next_self i).0, f)
      | no ne ↦ rw (==_ne i p (λ e. ne (sym e)), ltb-next_ne p i ne) (h.listed p)
    ];
    counts = counts_next 0 (rw f);
    same_npage = h.same_npage;
    same_word = h.same_word;
  }

init_pages_lem :
    (n i freemem : ℕ) (m0 m : Machine)
    → HasInit freemem i m0 m
    → HasInit freemem (i + n) m0 (init_pages n i freemem m)
unfolding init_pages
init_pages_lem zero i freemem m0 m h = subst (λ x. HasInit freemem x m0 m) (omega arith) h
init_pages_lem (suc n) i freemem m0 m h = elim (Bool-cases (used freemem i)) [
  | inl t ↦ rw t (onward (init_pages_lem n (i + 1) freemem m0 _ (init_used freemem i m0 m h t)))
  | inr f ↦ rw f (onward (init_pages_lem n (i + 1) freemem m0 _ (init_free freemem i m0 m h f)))
]
  where
    onward : {m' : Machine} → HasInit freemem (i + 1 + n) m0 m' → HasInit freemem (i + suc n) m0 m'
    onward {m'} r = subst (λ x. HasInit freemem x m0 m') (omega arith) r

-- The roles of the pages when no env exists.
abbrev pub boot_roles : ℕ → Roles
boot_roles freemem p = if used freemem p then kernel else plain

boot_count : (freemem n : ℕ) (w : ℕ → ℕ → ℕ) (p : ℕ) → count n (boot_roles freemem) w p ≡ 0
unfolding count
boot_count freemem n w p = total-zero n _ (λ q lt. none_in (used freemem q) (w q))
  where
    none_in : (b : Bool) (v : ℕ → ℕ) → hits_in (if b then kernel else plain) v p ≡ 0
    none_in true v = refl
    none_in false v = refl

no_table : (b : Bool) (d i : ℕ) → (if b then kernel else plain) ≢ table d i
no_table true d i e = cc
no_table false d i e = cc

no_dir : (b : Bool) → (if b then kernel else plain) ≢ dir
no_dir true e = cc
no_dir false e = cc

plain_unused : (b : Bool) → (if b then kernel else plain) ≡ plain → b ≡ false
plain_unused true e = cc
plain_unused false e = refl

and_parts : (a b : Bool) → (a && not b) ≡ true → (a ≡ true) × (b ≡ false)
and_parts a b h = ground arith

inited-Inv :
    (freemem : ℕ) (m0 m : Machine)
    → m0.npage ≤ 2 ^ 20
    → HasInit freemem m0.npage m0 m
    → Inv (boot_roles freemem) m
inited-Inv freemem m0 m le h = record {
  bound = rw h.same_npage le;
  distinct = h.distinct;
  unused = λ p on.
      let (below, out) = and_parts (ltb p m0.npage) (used freemem p) (sym (h.listed p) ∙ on) in
      let lt = ltb→lt p m0.npage below in (rw h.same_npage lt, rw out, h.counts p lt ∙ rw out);
  counted = λ p lt r.
      h.counts p (rw h.same_npage at lt)
      ∙ rw (plain_unused (used freemem p) r) (sym (boot_count freemem m.npage m.word p));
  owned = λ p d i r. absurd (no_table (used freemem p) d i r);
  held = λ p r. absurd (no_dir (used freemem p) r);
  tables = λ d i r. absurd (no_dir (used freemem d) r);
  targets = λ q d i j r. absurd (no_table (used freemem q) d i r);
}

-- `page_init` on a machine of at most 2^20 pages makes the pages from the rounded `freemem` on free,
-- each once and with no reference, gives the pages below one reference, and so sets up `Inv`.
pub page_init_lem :
    (b : Boot)
    → b.machine.npage ≤ 2 ^ 20
    → (m : Machine) × (page_init b
        ≡ done tt (record b { freemem = round b.freemem 4096; machine = m }))
      × Inv (boot_roles (round b.freemem 4096)) m
      × (m.npage ≡ b.machine.npage)
      × ((p : ℕ) → has p m.free ≡ (ltb p m.npage && not (used (round b.freemem 4096) p)))
      × ((p : ℕ) → p < m.npage → m.pp_ref p ≡ (if used (round b.freemem 4096) p then 1 else 0))
unfolding page_init
page_init_lem b le =
    let start = record (b.machine) { free = [] } in
    let freemem = round b.freemem 4096 in
    let m = init_pages b.machine.npage 0 freemem start in
    let h : HasInit freemem b.machine.npage start m =
      subst (λ x. HasInit freemem x start m) (omega arith)
        (init_pages_lem b.machine.npage 0 freemem start start (record {
          distinct = tt;
          listed = λ p. rw (no_less p) refl;
          counts = λ p lt. absurd (omega (arith, lt));
          same_npage = refl;
          same_word = refl;
        })) in
    (
      m,
      refl,
      inited-Inv freemem start m le h,
      h.same_npage,
      λ p. h.listed p ∙ ap (λ n. ltb p n && not (used freemem p)) (sym h.same_npage),
      λ p lt. h.counts p (rw h.same_npage at lt),
    )
  where
    no_less : (p : ℕ) → ltb p 0 ≡ false
    no_less p = ground arith

-- A first or later call of `alloc` for `n` bytes at the alignment of a page, near no wrap-around, either
-- panics, exactly if the new `freemem` is not below the end of memory, or returns an aligned address
-- that is not below the old `freemem`, moves `freemem` to the end of the area, and leaves the machine.
pub alloc_lem :
    (end n : ℕ) (clear : Bool) (b : Boot)
    → 0x80000000 ≤ b.freemem
    → b.freemem + 4096 + n < 2 ^ 32
    → let a = round b.freemem 4096 in
      ((alloc end n 4096 clear b ≡ panic) × (b.memsize ≤ a + n - 0x80000000))
      ⊎ ((b' : Boot) × (alloc end n 4096 clear b ≡ done a b')
          × (b'.freemem ≡ a + n)
          × (b.freemem ≤ a)
          × (a % 4096 ≡ 0)
          × (a + n - 0x80000000 < b.memsize)
          × (b'.machine ≡ b.machine))
unfolding alloc
alloc_lem end n clear b low high =
    let a = round b.freemem 4096 in
    let used_before : (b.freemem == 0) ≡ false =
      ==_ne b.freemem 0 (λ e. absurd (omega (arith, e, low))) in
    let same : (a + n) % 2 ^ 32 ≡ a + n = omega (arith, high) in
    let mapped : leb 0x80000000 (a + n) ≡ true = ground (arith, low, high) in
    elim (Bool-cases (ltb (a + n - 0x80000000) b.memsize)) [
      | inr full ↦ inl (rw (used_before, same, mapped, full), ground (arith, full))
      | inl fits ↦ inr (finish clear used_before same mapped fits)
    ]
  where
    finish :
        (clear : Bool)
        → (b.freemem == 0) ≡ false
        → (round b.freemem 4096 + n) % 2 ^ 32 ≡ round b.freemem 4096 + n
        → leb 0x80000000 (round b.freemem 4096 + n) ≡ true
        → ltb (round b.freemem 4096 + n - 0x80000000) b.memsize ≡ true
        → let a = round b.freemem 4096 in
          (b' : Boot) × (alloc end n 4096 clear b ≡ done a b')
          × (b'.freemem ≡ a + n)
          × (b.freemem ≤ a)
          × (a % 4096 ≡ 0)
          × (a + n - 0x80000000 < b.memsize)
          × (b'.machine ≡ b.machine)
    finish true u s m' f =
        let a = round b.freemem 4096 in
        (
          record b {
            freemem = a + n;
            cleared =
                λ x. if leb a x then (if ltb x (a + n) then true else b.cleared x) else b.cleared x;
          },
          rw (u, s, m', f) refl,
          refl,
          omega (arith, high),
          omega arith,
          ltb→lt _ _ f,
          refl,
        )
    finish false u s m' f =
        let a = round b.freemem 4096 in
        (
          record b { freemem = a + n },
          rw (u, s, m', f) refl,
          refl,
          omega (arith, high),
          omega arith,
          ltb→lt _ _ f,
          refl,
        )
