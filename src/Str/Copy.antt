-- ===== src/Str/Copy.antt =====
-- `memcpy` copies its area, by bytes or by words.
use os_lab5_challenge.Base.{
  subst, ℕ, zero, suc, ◌+◌, ◌-◌, ◌%◌, ◌≤◌, ◌≡◌, ◌∙◌, not, ◌&&◌, arith, ltb, leb, ◌==◌,
  if◌then◌else◌, Bool-cases, inl, inr, ap, leb→le, subst,
}
use os_lab5_challenge.Str.{
  Bytes, put, put_word, get_word, Copied, copy_head, copy_words, copy_tail, memcpy,
}
use os_lab5_challenge.Str.Places.{
  IsApart, AreBytes, copied_to, IsCopied, stops, IsApart-next, copied_to_in, copied_to_out,
  HasCopied, more, put-HasCopied, word-HasCopied, put-AreBytes, put_word-AreBytes,
}

copy_head_lem :
    (n dst src max : ℕ) (m : Bytes)
    → AreBytes m
    → IsApart dst src max
    → dst ≤ max
    → IsCopied m dst src max (copy_head n dst src max m)
unfolding copy_head
copy_head_lem zero dst src max m by apart le = stops m dst src max by le
copy_head_lem (suc n) dst src max m by apart le =
    elim (Bool-cases (not (dst % 4 == 0) && ltb dst max)) [
      | inl t ↦ rw t (
          more _ m dst src max 1 _ (put-HasCopied m dst src) apart (
            copy_head_lem n (dst + 1) (src + 1) max (put m dst (m src))
              (put-AreBytes m dst (m src) by (by src)) (IsApart-next 1 dst src max apart)
              (ground (arith, t))))
      | inr f ↦ rw f (stops m dst src max by le)
    ]

copy_words_lem :
    (n dst src max : ℕ) (m : Bytes)
    → AreBytes m
    → IsApart dst src max
    → dst ≤ max
    → IsCopied m dst src max (copy_words n dst src max m)
unfolding copy_words
copy_words_lem zero dst src max m by apart le = stops m dst src max by le
copy_words_lem (suc n) dst src max m by apart le = elim (Bool-cases (leb (dst + 4) max)) [
  | inl t ↦ rw t (
      more _ m dst src max 4 _ (word-HasCopied m dst src by) apart (
        copy_words_lem n (dst + 4) (src + 4) max (put_word m dst (get_word m src))
          (put_word-AreBytes m dst (get_word m src) by) (IsApart-next 4 dst src max apart)
          (leb→le _ _ t)))
  | inr f ↦ rw f (stops m dst src max by le)
]

copy_tail_lem :
    (n dst src max : ℕ) (m : Bytes)
    → AreBytes m
    → IsApart dst src max
    → dst ≤ max
    → max ≤ dst + n
    → IsCopied m dst src max (copy_tail n dst src max m)
      × ((copy_tail n dst src max m).dst_at ≡ max)
unfolding copy_tail
copy_tail_lem zero dst src max m by apart le enough =
    (stops m dst src max by le, omega (arith, le, enough))
copy_tail_lem (suc n) dst src max m by apart le enough = elim (Bool-cases (ltb dst max)) [
  | inl t ↦
      let (a, b) =
        copy_tail_lem n (dst + 1) (src + 1) max (put m dst (m src))
          (put-AreBytes m dst (m src) by (by src)) (IsApart-next 1 dst src max apart)
          (ground (arith, t)) (omega (arith, enough)) in
      rw t (more _ m dst src max 1 _ (put-HasCopied m dst src) apart a, b)
  | inr f ↦ rw f (stops m dst src max by le, ground (arith, le, f))
]

-- One loop after another.
then_copied :
    (m : Bytes) (lo src max : ℕ) (f g : Copied)
    → IsApart lo src max
    → IsCopied m lo src max f
    → IsCopied f.copied f.dst_at f.src_at max g
    → IsCopied m lo src max g
then_copied m lo src max f g apart a b = more f.copied m lo src max k g so_far apart (
    subst (λ s. IsCopied f.copied (lo + k) s max g) same_src
      (subst (λ d. IsCopied f.copied d f.src_at max g) same_dst b))
  where
    k : ℕ
    k = f.dst_at - lo

    same_dst : f.dst_at ≡ lo + k
    same_dst = omega (arith, a.from)

    same_src : f.src_at ≡ src + k
    same_src = omega (arith, a.in_step, a.from)

    so_far : HasCopied f.copied m lo src k
    so_far = record {
      inside = λ i lt.
          a.same (lo + i)
          ∙ copied_to_in m lo src f.dst_at (lo + i) (omega arith) (omega (arith, lt))
          ∙ ap m (omega arith);
      outside = λ y h.
          a.same y
          ∙ copied_to_out m lo src f.dst_at y
              (elim h [ inl p ↦ inl p | inr p ↦ inr (omega (arith, p, same_dst)) ]);
    }

-- `memcpy` gives the `n` bytes from `dst` on the values that the `n` bytes from `src` on had, whatever
-- the alignment of the areas, and changes no other byte, provided that the areas do not overlap or
-- the target is the lower one.
pub memcpy_lem :
    (dst src n : ℕ) (m : Bytes)
    → AreBytes m
    → IsApart dst src (dst + n)
    → (x : ℕ)
    → memcpy dst src n m x ≡ (if leb dst x && ltb x (dst + n) then m (x - dst + src) else m x)
unfolding memcpy copy_head copy_words copy_tail
memcpy_lem dst src n m by apart x = elim (Bool-cases (src % 4 == dst % 4)) [
  | inr f ↦
      let (all, end) = copy_tail_lem n dst src (dst + n) m by apart (omega arith) (omega arith) in
      rw f (all.same x ∙ ap (λ hi. copied_to m dst src hi x) end)
  | inl t ↦
      let max = dst + n in
      let a = copy_head n dst src max m in
      let b = copy_words n a.dst_at a.src_at max a.copied in
      let fa = copy_head_lem n dst src max m by apart (omega arith) in
      let apart_a = later_apart dst src max a apart fa in
      let fb = copy_words_lem n a.dst_at a.src_at max a.copied fa.bytes apart_a fa.to in
      let (fc, end) =
        copy_tail_lem n b.dst_at b.src_at max b.copied fb.bytes
          (later_apart a.dst_at a.src_at max b apart_a fb) fb.to
          (omega (arith, fa.from, fb.from)) in
      let all =
        then_copied m dst src max a _ apart fa
          (then_copied a.copied a.dst_at a.src_at max b _ apart_a fb fc) in
      rw t (all.same x ∙ ap (λ hi. copied_to m dst src hi x) end)
]
  where
    later_apart :
        {w : Bytes} (lo s max : ℕ) (f : Copied)
        → IsApart lo s max
        → IsCopied w lo s max f
        → IsApart f.dst_at f.src_at max
    later_apart lo s max f (inl h) r = inl (omega (arith, h, r.in_step))
    later_apart lo s max f (inr h) r = inr (omega (arith, h, r.in_step, r.from))
