-- ===== src/Pmap/Entries.antt =====
-- The words that `pgdir_walk` and `page_insert` store.
use os_lab5_challenge.Base.{ℕ, ◌+◌, ◌*◌, ◌^◌, ◌<◌, ◌≡◌, ap, ◌∙◌, true, arith, ==_iff, bit_or}
use os_lab5_challenge.Base.Bits.{bit_or_page, bit_or-lt_page, bit_or_valid, zero-bit_or}
use os_lab5_challenge.Pmap.{has_v, ppn, page2pa, table_pde, page_pte}

-- The flags join the page number without touching it.
pub page_pte-eq :
    (pp perm : ℕ) → pp < 2 ^ 20 → perm < 4096 → page_pte pp perm ≡ pp * 4096 + bit_or perm 512
page_pte-eq pp perm h k =
    let e : page2pa pp ≡ pp * 4096 + 0 = omega arith in
    ap (λ t. bit_or (bit_or t perm) 512) e
    ∙ ap (λ t. bit_or t 512) (bit_or_page pp 0 perm (omega arith) k)
    ∙ ap (λ t. bit_or (pp * 4096 + t) 512) (zero-bit_or perm)
    ∙ bit_or_page pp perm 512 k (omega arith)

pub ppn-page_pte : (pp perm : ℕ) → pp < 2 ^ 20 → perm < 4096 → ppn (page_pte pp perm) ≡ pp
ppn-page_pte pp perm h k =
    omega (arith, page_pte-eq pp perm h k, bit_or-lt_page perm 512 k (omega arith))

pub has_v-page_pte : (pp perm : ℕ) → has_v (page_pte pp perm) ≡ true
has_v-page_pte pp perm = (==_iff _ 1).1 (bit_or_valid (bit_or (page2pa pp) perm))

table_pde-eq : (pp : ℕ) → pp < 2 ^ 20 → table_pde pp ≡ pp * 4096 + 1536
table_pde-eq pp h =
    let e : page2pa pp ≡ pp * 4096 + 0 = omega arith in
    ap (λ t. bit_or (bit_or t 512) 1024) e
    ∙ ap (λ t. bit_or t 1024) (bit_or_page pp 0 512 (omega arith) (omega arith))
    ∙ bit_or_page pp 512 1024 (omega arith) (omega arith)

pub ppn-table_pde : (pp : ℕ) → pp < 2 ^ 20 → ppn (table_pde pp) ≡ pp
ppn-table_pde pp h = omega (arith, table_pde-eq pp h)

pub has_v-table_pde : (pp : ℕ) → pp < 2 ^ 20 → has_v (table_pde pp) ≡ true
has_v-table_pde pp h = rw (table_pde-eq pp h) ((==_iff _ 1).1 (omega arith))
