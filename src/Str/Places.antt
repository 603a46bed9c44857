-- ===== src/Str/Places.antt =====
-- Memory with a part of an area copied, a byte or a word at a time.
use os_lab5_challenge.Base.{
  ℕ, zero, suc, ◌+◌, ◌-◌, ◌*◌, ◌/◌, ◌%◌, ◌≤◌, ◌<◌, ◌≡◌, sym, ◌∙◌, Bool, true, false, ◌&&◌, ◌⊎◌,
  arith, ltb, leb, ◌==◌, if◌then◌else◌, Bool-cases, inl, inr, ==_ne, ap, ltb→lt,
}
use os_lab5_challenge.Str.{Bytes, put, put_word, get_word, Copied, copied_at}

-- Going forward, a copy does not overwrite what it still has to read.
abbrev pub IsApart : ℕ → ℕ → ℕ → Type 0
IsApart dst src max = (dst ≤ src) ⊎ (src + max ≤ dst + dst)

abbrev pub AreBytes : Bytes → Type 0
AreBytes m = (a : ℕ) → m a < 256

abbrev pub copied_to : Bytes → ℕ → ℕ → ℕ → Bytes
copied_to m lo src hi = λ x. if leb lo x && ltb x hi then m (x - lo + src) else m x

pub record IsCopied (m : Bytes) (lo src max : ℕ) (f : Copied) : Type 0 where
  pub from : lo ≤ f.dst_at
  pub to : f.dst_at ≤ max
  pub in_step : f.src_at + lo ≡ src + f.dst_at
  pub bytes : AreBytes f.copied
  pub same : (x : ℕ) → f.copied x ≡ copied_to m lo src f.dst_at x

pub stops :
    (m : Bytes) (dst src max : ℕ)
    → AreBytes m
    → dst ≤ max
    → IsCopied m dst src max (copied_at dst src m)
stops m dst src max by le = record {
  from = omega arith;
  to = le;
  in_step = omega arith;
  bytes = by;
  same = λ x. ground arith;
}

pub IsApart-next : (k dst src max : ℕ) → IsApart dst src max → IsApart (dst + k) (src + k) max
IsApart-next k dst src max (inl h) = inl (omega (arith, h))
IsApart-next k dst src max (inr h) = inr (omega (arith, h))

-- The byte that `x` gets is read from a place that has not been written.
not_written :
    (k dst src max x hi : ℕ)
    → IsApart dst src max
    → dst + k ≤ x
    → x < hi
    → hi ≤ max
    → (dst + k ≤ x - dst + src) ⊎ (x - dst + src < dst)
not_written k dst src max x hi (inl h) a b c = inl (omega (arith, h, a))
not_written k dst src max x hi (inr h) a b c = inr (omega (arith, h, a, b, c))

lt_or_le : (a b : ℕ) → (a < b) ⊎ (b ≤ a)
lt_or_le a b = elim (Bool-cases (ltb a b)) [
  | inl t ↦ inl (ltb→lt a b t)
  | inr f ↦ inr (ground (arith, f))
]

module _ (m : Bytes) (lo src hi x : ℕ) where
  pub copied_to_in : lo ≤ x → x < hi → copied_to m lo src hi x ≡ m (x - lo + src)
  copied_to_in p q = ground (arith, p, q)

  pub copied_to_out : (x < lo) ⊎ (hi ≤ x) → copied_to m lo src hi x ≡ m x
  copied_to_out (inl p) = ground (arith, p)
  copied_to_out (inr p) = ground (arith, p)

-- Memory `w` is `m` with `k` bytes copied.
pub record HasCopied (w m : Bytes) (dst src k : ℕ) : Type 0 where
  pub inside : (i : ℕ) → i < k → w (dst + i) ≡ m (src + i)
  pub outside : (y : ℕ) → (y < dst) ⊎ (dst + k ≤ y) → w y ≡ m y

copied-step :
    (w m : Bytes) (dst src max k hi : ℕ)
    → HasCopied w m dst src k
    → IsApart dst src max
    → dst + k ≤ hi
    → hi ≤ max
    → (x : ℕ) → copied_to w (dst + k) (src + k) hi x ≡ copied_to m dst src hi x
copied-step w m dst src max k hi h apart le to x = elim (lt_or_le x dst) [
  | inl below ↦
      copied_to_out w (dst + k) (src + k) hi x (inl (omega (arith, below)))
      ∙ h.outside x (inl below)
      ∙ sym (copied_to_out m dst src hi x (inl below))
  | inr above ↦ elim (lt_or_le x (dst + k)) [
    | inl now ↦
        copied_to_out w (dst + k) (src + k) hi x (inl now)
        ∙ ap w (omega (arith, above))
        ∙ h.inside (x - dst) (omega (arith, above, now))
        ∙ ap m (omega arith)
        ∙ sym (copied_to_in m dst src hi x above (omega (arith, now, le)))
    | inr later ↦ elim (lt_or_le x hi) [
      | inl still ↦
          copied_to_in w (dst + k) (src + k) hi x later still
          ∙ h.outside _ (elim (not_written k dst src max x hi apart later still to) [
            | inl p ↦ inr (omega (arith, p, later))
            | inr p ↦ inl (omega (arith, p, later))
          ])
          ∙ ap m (omega (arith, later))
          ∙ sym (copied_to_in m dst src hi x above still)
      | inr past ↦
          copied_to_out w (dst + k) (src + k) hi x (inr past)
          ∙ h.outside x (inr later)
          ∙ sym (copied_to_out m dst src hi x (inr past))
    ]
  ]
]

pub more :
    (w m : Bytes) (dst src max k : ℕ) (f : Copied)
    → HasCopied w m dst src k
    → IsApart dst src max
    → IsCopied w (dst + k) (src + k) max f
    → IsCopied m dst src max f
more w m dst src max k f h apart r = record {
  from = omega (arith, r.from);
  to = r.to;
  in_step = omega (arith, r.in_step);
  bytes = r.bytes;
  same = λ x. r.same x ∙ copied-step w m dst src max k f.dst_at h apart r.from r.to x;
}

pub put-HasCopied : (m : Bytes) (dst src : ℕ) → HasCopied (put m dst (m src)) m dst src 1
put-HasCopied m dst src = record { inside = λ i lt. here i lt; outside = λ y h. there y h }
  where
    at_zero : (x : ℕ) → dst ≡ x → put m dst (m src) x ≡ m src
    at_zero x e = ground (arith, e)

    here : (i : ℕ) → i < 1 → put m dst (m src) (dst + i) ≡ m (src + i)
    here zero lt = at_zero (dst + 0) (omega arith) ∙ ap m (omega arith)
    here (suc i) lt = absurd (omega (arith, lt))

    there : (y : ℕ) → (y < dst) ⊎ (dst + 1 ≤ y) → put m dst (m src) y ≡ m y
    there y (inl p) = rw (==_ne dst y (λ e. absurd (omega (arith, e, p))))
    there y (inr p) = rw (==_ne dst y (λ e. absurd (omega (arith, e, p))))

get_word-bytes :
    (a b c d : ℕ)
    → a < 256
    → b < 256
    → c < 256
    → d < 256
    → let w = a + b * 256 + c * 65536 + d * 16777216 in
      (w % 256 ≡ a) × (w / 256 % 256 ≡ b) × (w / 65536 % 256 ≡ c) × (w / 16777216 % 256 ≡ d)
get_word-bytes a b c d p q r s = (
  omega (arith, p, q, r, s),
  omega (arith, p, q, r, s),
  omega (arith, p, q, r, s),
  omega (arith, p, q, r, s),
)

pub word-HasCopied :
    (m : Bytes) (dst src : ℕ) → AreBytes m → HasCopied (put_word m dst (get_word m src)) m dst src 4
word-HasCopied m dst src by =
    let (b0, b1, b2, b3) =
      get_word-bytes (m src) (m (src + 1)) (m (src + 2)) (m (src + 3)) (by _) (by _) (by _)
        (by _) in
    record {
      inside = λ i lt. rw (b0, b1, b2, b3) (here i lt);
      outside = λ y h. rw (b0, b1, b2, b3) (there y h);
    }
  where
    puts : Bytes
    puts =
        put (put (put (put m dst (m src)) (dst + 1) (m (src + 1))) (dst + 2) (m (src + 2)))
          (dst + 3) (m (src + 3))

    at_zero : (x : ℕ) → dst ≡ x → puts x ≡ m src
    at_zero x e = ground (arith, e)

    here : (i : ℕ) → i < 4 → puts (dst + i) ≡ m (src + i)
    here zero lt = at_zero (dst + 0) (omega arith) ∙ ap m (omega arith)
    here (suc zero) lt = ground arith
    here (suc (suc zero)) lt = ground arith
    here (suc (suc (suc zero))) lt = ground arith
    here (suc (suc (suc (suc i)))) lt = absurd (omega (arith, lt))

    there : (y : ℕ) → (y < dst) ⊎ (dst + 4 ≤ y) → puts y ≡ m y
    there y (inl p) = ground (arith, p)
    there y (inr p) = ground (arith, p)

pub put-AreBytes : (m : Bytes) (a b : ℕ) → AreBytes m → b < 256 → AreBytes (put m a b)
put-AreBytes m a b by h x = by_test (a == x)
  where
    by_test : (t : Bool) → (if t then b else m x) < 256
    by_test true = h
    by_test false = by x

pub put_word-AreBytes : (m : Bytes) (a w : ℕ) → AreBytes m → AreBytes (put_word m a w)
put_word-AreBytes m a w by =
    put-AreBytes _ _ _
      (put-AreBytes _ _ _
        (put-AreBytes _ _ _ (put-AreBytes m a (w % 256) by (omega arith)) (omega arith))
        (omega arith))
      (omega arith)
