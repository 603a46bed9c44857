-- ===== src/Str/Fill.antt =====
-- `memset` fills exactly its area.
use os_lab5_challenge.Base.{
  ℕ, zero, suc, ◌+◌, ◌/◌, ◌%◌, ◌≤◌, ◌<◌, ◌≡◌, ◌∙◌, not, ◌&&◌, arith, ltb, leb, ◌==◌, if◌then◌else◌,
  Bool-cases, inl, inr, ap, leb→le,
}
use os_lab5_challenge.Str.{
  Bytes, put, put_word, Filled, fill_head, fill_words, fill_tail, word_of, memset,
}

abbrev pub filled_to : Bytes → ℕ → ℕ → ℕ → Bytes
filled_to m lo hi byte = λ x. if leb lo x && ltb x hi then byte else m x

-- A loop that has come from `lo` has filled the bytes up to where it stopped.
pub record IsFilled (m : Bytes) (lo max byte : ℕ) (f : Filled) : Type 0 where
  pub from : lo ≤ f.at
  pub to : f.at ≤ max
  pub same : (x : ℕ) → f.bytes x ≡ filled_to m lo f.at byte x

stops :
    (m : Bytes) (dst max byte : ℕ)
    → dst ≤ max
    → IsFilled m dst max byte (record { at = dst; bytes = m })
stops m dst max byte le = record { from = omega arith; to = le; same = λ x. ground arith }

-- One more byte in front.
one_more :
    (m : Bytes) (dst max byte : ℕ) (f : Filled)
    → IsFilled (put m dst byte) (dst + 1) max byte f
    → IsFilled m dst max byte f
one_more m dst max byte f r = record {
  from = omega (arith, r.from);
  to = r.to;
  same = λ x. r.same x ∙ step x r.from;
}
  where
    step :
        (x : ℕ)
        → dst + 1 ≤ f.at
        → filled_to (put m dst byte) (dst + 1) f.at byte x ≡ filled_to m dst f.at byte x
    step x le = ground arith

fill_head_lem :
    (n dst max byte : ℕ) (m : Bytes)
    → dst ≤ max
    → IsFilled m dst max byte (fill_head n dst max byte m)
unfolding fill_head
fill_head_lem zero dst max byte m le = stops m dst max byte le
fill_head_lem (suc n) dst max byte m le = elim (Bool-cases (not (dst % 4 == 0) && ltb dst max)) [
  | inl t ↦ rw t (
      one_more m dst max byte _
        (fill_head_lem n (dst + 1) max byte (put m dst byte) (ground arith)))
  | inr f ↦ rw f (stops m dst max byte le)
]

fill_tail_lem :
    (n dst max byte : ℕ) (m : Bytes)
    → dst ≤ max
    → max ≤ dst + n
    → IsFilled m dst max byte (fill_tail n dst max byte m) × ((fill_tail n dst max byte m).at ≡ max)
unfolding fill_tail
fill_tail_lem zero dst max byte m le enough = (stops m dst max byte le, omega (arith, le, enough))
fill_tail_lem (suc n) dst max byte m le enough = elim (Bool-cases (ltb dst max)) [
  | inl t ↦
      let (a, b) =
        fill_tail_lem n (dst + 1) max byte (put m dst byte) (ground arith)
          (omega (arith, enough)) in
      rw t (one_more m dst max byte _ a, b)
  | inr f ↦ rw f (stops m dst max byte le, ground (arith, le))
]

word-bytes :
    (byte : ℕ)
    → byte < 256
    → (word_of byte % 256 ≡ byte)
      × (word_of byte / 256 % 256 ≡ byte)
      × (word_of byte / 65536 % 256 ≡ byte)
      × (word_of byte / 16777216 % 256 ≡ byte)
word-bytes byte h = (omega (arith, h), omega (arith, h), omega (arith, h), omega (arith, h))

-- A word is four bytes.
put_word-puts :
    (m : Bytes) (a byte : ℕ)
    → byte < 256
    → (x : ℕ)
    → put_word m a (word_of byte) x
      ≡ put (put (put (put m a byte) (a + 1) byte) (a + 2) byte) (a + 3) byte x
put_word-puts m a byte h x = let (b0, b1, b2, b3) = word-bytes byte h in rw (b0, b1, b2, b3)

words_more :
    (m : Bytes) (dst max byte : ℕ) (f : Filled)
    → byte < 256
    → IsFilled (put_word m dst (word_of byte)) (dst + 4) max byte f
    → IsFilled m dst max byte f
words_more m dst max byte f h r = record {
  from = omega (arith, r.from);
  to = r.to;
  same = λ x.
      r.same x
      ∙ ap (λ y. if leb (dst + 4) x && ltb x f.at then byte else y) (put_word-puts m dst byte h x)
      ∙ step x r.from;
}
  where
    step :
        (x : ℕ)
        → dst + 4 ≤ f.at
        → filled_to
            (put (put (put (put m dst byte) (dst + 1) byte) (dst + 2) byte) (dst + 3) byte)
            (dst + 4)
            f.at
            byte
            x
          ≡ filled_to m dst f.at byte x
    step x le = ground arith

fill_words_lem :
    (n dst max byte : ℕ) (m : Bytes)
    → byte < 256
    → dst ≤ max
    → IsFilled m dst max byte (fill_words n dst max (word_of byte) m)
unfolding fill_words
fill_words_lem zero dst max byte m h le = stops m dst max byte le
fill_words_lem (suc n) dst max byte m h le = elim (Bool-cases (leb (dst + 4) max)) [
  | inl t ↦ rw t (
      words_more m dst max byte _ h (
        fill_words_lem n (dst + 4) max byte (put_word m dst (word_of byte)) h
          (leb→le (dst + 4) max t)))
  | inr f ↦ rw f (stops m dst max byte le)
]

-- One loop after another.
then_filled :
    (m : Bytes) (lo max byte : ℕ) (f g : Filled)
    → IsFilled m lo max byte f
    → IsFilled f.bytes f.at max byte g
    → IsFilled m lo max byte g
then_filled m lo max byte f g a b = record {
  from = omega (arith, a.from, b.from);
  to = b.to;
  same = λ x.
      b.same x
      ∙ ap (λ y. if leb f.at x && ltb x g.at then byte else y) (a.same x)
      ∙ join x a.from b.from;
}
  where
    join :
        (x : ℕ)
        → lo ≤ f.at
        → f.at ≤ g.at
        → (if leb f.at x && ltb x g.at then byte else filled_to m lo f.at byte x)
          ≡ filled_to m lo g.at byte x
    join x p q = ground arith

-- `memset` gives the `n` bytes from `dst` on the value `c & 0xff`, whatever the alignment of the area,
-- and changes no other byte.
pub memset_lem :
    (dst c n : ℕ) (m : Bytes) (x : ℕ)
    → memset dst c n m x ≡ (if leb dst x && ltb x (dst + n) then c % 256 else m x)
unfolding memset fill_head fill_words fill_tail
memset_lem dst c n m x =
    let byte = c % 256 in
    let max = dst + n in
    let a = fill_head n dst max byte m in
    let b = fill_words n a.at max (word_of byte) a.bytes in
    let fa = fill_head_lem n dst max byte m (omega arith) in
    let fb = fill_words_lem n a.at max byte a.bytes (omega arith) fa.to in
    let (fc, end) = fill_tail_lem n b.at max byte b.bytes fb.to (omega (arith, fa.from, fb.from)) in
    let all = then_filled m dst max byte a _ fa (then_filled a.bytes a.at max byte b _ fb fc) in
    all.same x ∙ ap (λ hi. filled_to m dst hi byte x) end
