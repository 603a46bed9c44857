-- ===== src/Print/Fields.antt =====
-- What `print_num` prints: sign, padding and digits, in every case of its layout.
use mathlib.Core.List.{reverse, reverse-append, reverse-cons}
use os_lab5_challenge.Base.{
  ℕ, suc, ◌+◌, ◌-◌, ◌≤◌, ◌<◌, ◌≡◌, refl, sym, ap, subst, length-append, ◌∙◌, Bool, true, false,
  arith, List, [], ◌∷◌, ◌++◌, length, ◌==◌, ==_iff, if◌then◌else◌, Bool-cases, inl, inr,
}
use os_lab5_challenge.Str.{Bytes}
use os_lab5_challenge.Print.{read_out, Stored, push_digits, sign_digits, max, print_num}
use os_lab5_challenge.Print.Buffer.{read_out_snoc, replicate}
use os_lab5_challenge.Print.Number.{number, low_value, Pushed, push_digits_lem, number-reverse}
use os_lab5_challenge.Print.Case.{AreCased, push_digits-HoldsCased, stored-AreCased}
use os_lab5_challenge.Print.Padding.{
  sign_of, length-read_out, finished, left_padding, right_padding, zeros_inside,
}

-- The text of a number: no digit too many.
unfoldable pub HasNoSpareZero : List ℕ → Type 0
HasNoSpareZero [] = ⊥
HasNoSpareZero (c ∷ cs) = c ≡ b'0' → cs ≡ []

-- Sign, padding and digits in a field of `width` bytes or more.
abbrev pub laid_out : Bool → ℕ → Bool → ℕ → List ℕ → List ℕ
laid_out neg_flag width ladjust padc ds =
    let s = sign_of neg_flag in
    let fill = width - (length s + length ds) in
    if ladjust
    then (s ++ ds) ++ replicate fill b' '
    else if padc == b'0'
    then s ++ (replicate fill b'0' ++ ds)
    else replicate fill padc ++ (s ++ ds)

length-reverse : (xs : List ℕ) → length (reverse xs) ≡ length xs
length-reverse [] = refl
length-reverse (x ∷ xs) =
    ap length (reverse-cons x xs)
    ∙ length-append (reverse xs) (x ∷ [])
    ∙ omega (arith, length-reverse xs)

fill_is :
    (neg_flag : Bool) (len : ℕ) (f : Stored)
    → let g = sign_digits neg_flag f in
      max len g.size - g.size
      ≡ len - (length (sign_of neg_flag) + length (reverse (read_out f.bytes 0 f.size)))
fill_is true len f =
    ground (arith, length-reverse (read_out f.bytes 0 f.size), length-read_out f.bytes 0 f.size)
fill_is false len f =
    ground (arith, length-reverse (read_out f.bytes 0 f.size), length-read_out f.bytes 0 f.size)

finished_lem :
    (neg_flag : Bool) (len : ℕ) (ladjust : Bool) (padc : ℕ) (f : Stored)
    → 0 < f.size
    → finished neg_flag len ladjust (if ladjust then b' ' else padc) (sign_digits neg_flag f)
      ≡ laid_out neg_flag len ladjust padc (reverse (read_out f.bytes 0 f.size))
finished_lem neg_flag len true padc f pos =
    right_padding neg_flag len b' ' f pos
    ∙ ap (λ n. (sign_of neg_flag ++ reverse (read_out f.bytes 0 f.size)) ++ replicate n b' ')
        (fill_is neg_flag len f)
finished_lem true len false padc f pos = elim (Bool-cases (padc == b'0')) [
  | inl zero_pad ↦ rw ((==_iff padc b'0').0 zero_pad) (
      zeros_inside len f pos
      ∙ ap (λ n. b'-' ∷ (replicate n b'0' ++ reverse (read_out f.bytes 0 f.size)))
          (fill_is true len f))
  | inr other ↦
      left_padding true len padc f pos other
      ∙ rw other (
          ap (λ n. replicate n padc ++ (b'-' ∷ reverse (read_out f.bytes 0 f.size)))
            (fill_is true len f))
]
finished_lem false len false padc f pos = elim (Bool-cases (padc == b'0')) [
  | inl zero_pad ↦
      left_padding false len padc f pos refl
      ∙ rw ((==_iff padc b'0').0 zero_pad)
          (ap (λ n. replicate n b'0' ++ reverse (read_out f.bytes 0 f.size)) (fill_is false len f))
  | inr other ↦
      left_padding false len padc f pos refl
      ∙ rw other
          (ap (λ n. replicate n padc ++ reverse (read_out f.bytes 0 f.size)) (fill_is false len f))
]

spare_zero :
    (buf : Bytes) (more : ℕ)
    → (buf (0 + more) ≡ b'0' → more ≡ 0)
    → HasNoSpareZero (reverse (read_out buf 0 (suc more)))
unfolding HasNoSpareZero read_out
spare_zero buf more short =
    subst HasNoSpareZero
      (sym (
        ap reverse (read_out_snoc buf 0 more)
        ∙ reverse-append (read_out buf 0 more) (buf (0 + more) ∷ [])))
      (λ z. ap (λ n. reverse (read_out buf 0 n)) (short z))

-- Whatever the buffer holds before, in a base from 2 to 36 `print_num` prints the sign, the padding and
-- the digits as its arguments say (with `ladjust`, sign and digits and then spaces; with `0` as padding,
-- the sign, zeros and the digits; else the padding, the sign and the digits). The digits, read as a number, give `u`
-- again, do not begin with a 0 unless `u` is printed as 0 alone, and are digits and letters of the case of `upcase`.
pub print_num_lem :
    (buf : Bytes) (u base : ℕ) (neg_flag : Bool) (width : ℕ) (ladjust : Bool) (padc : ℕ)
    (upcase : Bool)
    → 2 ≤ base
    → base ≤ 36
    → (ds : List ℕ) × (print_num buf u base neg_flag width ladjust padc upcase
        ≡ laid_out neg_flag width ladjust padc ds)
      × (number base 0 ds ≡ u)
      × HasNoSpareZero ds
      × AreCased upcase ds
unfolding print_num
print_num_lem buf u base neg_flag width ladjust padc upcase big small =
    let f : Stored = push_digits (u + 1) u base upcase (record { bytes = buf; size = 0 }) in
    let p : Pushed base u (record { bytes = buf; size = 0 }) f =
      push_digits_lem (u + 1) u base upcase _ big small (omega arith) in
    let size : f.size ≡ suc p.more = omega (arith, p.size_is) in
    (
      reverse (read_out f.bytes 0 f.size),
      finished_lem neg_flag width ladjust padc f (omega (arith, size)),
      number-reverse base (read_out f.bytes 0 f.size)
          ∙ ap (λ n. low_value base (read_out f.bytes 0 n)) size
          ∙ p.low,
      subst (λ n. HasNoSpareZero (reverse (read_out f.bytes 0 n))) (sym size)
          (spare_zero f.bytes p.more p.short),
      stored-AreCased upcase f (
          push_digits-HoldsCased (u + 1) u base upcase (record { bytes = buf; size = 0 }) big small
            (λ k lt. absurd (omega arith))),
    )
