-- ===== src/Print/Padding.antt =====
-- The buffer of `print_num` after the padding and the reversal, by the cases of its layout.
use mathlib.Core.List.{reverse, reverse-append, reverse-cons, append-nil}
use os_lab5_challenge.Base.{
  ℕ, zero, suc, ◌+◌, ◌-◌, ◌≤◌, ◌<◌, ◌≡◌, refl, sym, ap, ap₂, ◌∙◌, Bool, true, false, ◌&&◌, arith,
  List, [], ◌∷◌, ◌++◌, length, ◌==◌, if◌then◌else◌, ==_ne, ==_self,
}
use os_lab5_challenge.Str.{Bytes, put}
use os_lab5_challenge.Print.{read_out, pad, swap_ends, Stored, push, sign_digits, pad_out, max}
use os_lab5_challenge.Print.Buffer.{
  read_out-append, read_out_ext, read_out_snoc, read_out-reverse, replicate, pad_out_of, pad_lem,
  swap_ends_lem, swap_ends_out,
}

abbrev pub sign_of : Bool → List ℕ
sign_of neg_flag = if neg_flag then b'-' ∷ [] else []

pub length-read_out : (buf : Bytes) (a n : ℕ) → length (read_out buf a n) ≡ n
unfolding read_out
length-read_out buf a zero = refl
length-read_out buf a (suc n) = ap suc (length-read_out buf (a + 1) n)

-- Reversing the first bytes, and reading on to `width`.
swapped_out :
    (buf : Bytes) (size width : ℕ)
    → 0 < size
    → size ≤ width
    → read_out (swap_ends width 0 (size - 1) buf) 0 width
      ≡ reverse (read_out buf 0 size) ++ read_out buf size (width - size)
swapped_out buf size width pos le =
    ap (read_out swapped 0) {y = size + (width - size)} (omega arith)
    ∙ read_out-append swapped 0 size (width - size)
    ∙ ap₂ ◌++◌
        (read_out-reverse swapped buf 0 0 size (λ k lt.
          swap_ends_lem width 0 (size - 1) buf (0 + k) (omega arith) (omega arith) (omega arith)
          ∙ ap buf (omega arith)))
        (ap (λ a. read_out swapped a (width - size)) {y = size} (omega arith)
          ∙ read_out_ext swapped buf size (width - size)
              (λ k low high. swap_ends_out width 0 (size - 1) buf k (omega arith)))
  where
    swapped : Bytes
    swapped = swap_ends width 0 (size - 1) buf

append-right : (xs ys zs : List ℕ) → ys ≡ zs → xs ++ ys ≡ xs ++ zs
append-right xs ys zs e = ap (λ t. xs ++ t) e

snoc-replicate : (n c : ℕ) → replicate n c ++ (c ∷ []) ≡ c ∷ replicate n c
snoc-replicate zero c = refl
snoc-replicate (suc n) c = ap (◌∷◌ c) (snoc-replicate n c)

reverse-replicate : (n c : ℕ) → reverse (replicate n c) ≡ replicate n c
reverse-replicate zero c = refl
reverse-replicate (suc n) c =
    reverse-cons c (replicate n c)
    ∙ ap (λ t. t ++ (c ∷ [])) (reverse-replicate n c)
    ∙ snoc-replicate n c

-- The whole buffer reversed.
all_swapped :
    (buf : Bytes) (width : ℕ)
    → 0 < width
    → read_out (swap_ends width 0 (width - 1) buf) 0 width ≡ reverse (read_out buf 0 width)
all_swapped buf width pos = read_out-reverse _ buf 0 0 width (λ k lt.
    swap_ends_lem width 0 (width - 1) buf (0 + k) (omega arith) (omega arith) (omega arith)
    ∙ ap buf (omega arith))

-- Padding leaves what stands before it, and fills the rest.
padded_out :
    (buf : Bytes) (size width c : ℕ)
    → size ≤ width
    → read_out (pad buf size (width - size) c) 0 width
      ≡ read_out buf 0 size ++ replicate (width - size) c
padded_out buf size width c le =
    ap (read_out padded 0) {y = size + (width - size)} (omega arith)
    ∙ read_out-append padded 0 size (width - size)
    ∙ ap₂ ◌++◌
        (read_out_ext padded buf 0 size
          (λ k low high. pad_out_of buf size (width - size) c k (omega arith)))
        (ap (λ a. read_out padded a (width - size)) {y = size} (omega arith)
          ∙ pad_lem buf size (width - size) c)
  where
    padded : Bytes
    padded = pad buf size (width - size) c

-- The digits with the sign behind them.
signed_out :
    (neg_flag : Bool) (f : Stored)
    → let g = sign_digits neg_flag f in
      read_out g.bytes 0 g.size ≡ read_out f.bytes 0 f.size ++ sign_of neg_flag
signed_out false f = sym (append-nil _)
signed_out true f =
    ap (read_out signed 0) {y = suc f.size} (omega arith)
    ∙ read_out_snoc signed 0 f.size
    ∙ ap₂ (λ xs c. xs ++ (c ∷ []))
        (read_out_ext signed f.bytes 0 f.size (λ k low high. rw (==_ne f.size k (omega arith))))
        (ap signed {y = f.size} (omega arith) ∙ rw (==_self f.size))
  where
    signed : Bytes
    signed = put f.bytes f.size b'-'

reverse-sign :
    (neg_flag : Bool) (xs : List ℕ)
    → reverse (xs ++ sign_of neg_flag) ≡ sign_of neg_flag ++ reverse xs
reverse-sign true xs = reverse-append xs (b'-' ∷ [])
reverse-sign false xs = ap reverse (append-nil xs)

-- The buffer from the padding on.
abbrev pub finished : Bool → ℕ → Bool → ℕ → Stored → List ℕ
finished neg_flag length ladjust padc f =
    let width = max length f.size in
    let bytes = pad_out f neg_flag width ladjust padc in
    let end = (if ladjust then f.size else width) - 1 in
    read_out (swap_ends width 0 end bytes) 0 width

size_pos : (neg_flag : Bool) (f : Stored) → 0 < f.size → 0 < (sign_digits neg_flag f).size
size_pos true f h = omega arith
size_pos false f h = h

right_adjusted :
    (neg_flag : Bool) (len c : ℕ) (f : Stored)
    → 0 < f.size
    → let g = sign_digits neg_flag f in
      let width = max len g.size in
      read_out (swap_ends width 0 (width - 1) (pad g.bytes g.size (width - g.size) c)) 0 width
      ≡ replicate (width - g.size) c ++ (sign_of neg_flag ++ reverse (read_out f.bytes 0 f.size))
right_adjusted neg_flag len c f pos =
    let g = sign_digits neg_flag f in
    let width = max len g.size in
    all_swapped (pad g.bytes g.size (width - g.size) c) width
      (ground (arith, size_pos neg_flag f pos))
    ∙ ap reverse (
        padded_out g.bytes g.size width c (ground arith)
        ∙ ap (λ t. t ++ replicate (width - g.size) c) (signed_out neg_flag f))
    ∙ reverse-append (read_out f.bytes 0 f.size ++ sign_of neg_flag) (replicate (width - g.size) c)
    ∙ ap₂ ◌++◌ (reverse-replicate (width - g.size) c)
        (reverse-sign neg_flag (read_out f.bytes 0 f.size))

pub left_padding :
    (neg_flag : Bool) (len c : ℕ) (f : Stored)
    → 0 < f.size
    → (neg_flag && (c == b'0')) ≡ false
    → let g = sign_digits neg_flag f in
      finished neg_flag len false c g
      ≡ replicate (max len g.size - g.size) c
        ++ (sign_of neg_flag ++ reverse (read_out f.bytes 0 f.size))
left_padding false len c f pos none = right_adjusted false len c f pos
left_padding true len c f pos none = rw none (right_adjusted true len c f pos)

-- Only the digits and the sign are reversed.
left_adjusted :
    (g : Stored) (width c : ℕ)
    → 0 < g.size
    → g.size ≤ width
    → read_out (swap_ends width 0 (g.size - 1) (pad g.bytes g.size (width - g.size) c)) 0 width
      ≡ reverse (read_out g.bytes 0 g.size) ++ replicate (width - g.size) c
left_adjusted g width c pos le =
    swapped_out (pad g.bytes g.size (width - g.size) c) g.size width pos le
    ∙ ap₂ ◌++◌
        (ap reverse (
          read_out_ext _ g.bytes 0 g.size
            (λ k low high. pad_out_of g.bytes g.size (width - g.size) c k (omega arith))))
        (pad_lem g.bytes g.size (width - g.size) c)

pub right_padding :
    (neg_flag : Bool) (len c : ℕ) (f : Stored)
    → 0 < f.size
    → let g = sign_digits neg_flag f in
      finished neg_flag len true c g
      ≡ (sign_of neg_flag ++ reverse (read_out f.bytes 0 f.size))
        ++ replicate (max len g.size - g.size) c
right_padding true len c f pos =
    let g = sign_digits true f in
    left_adjusted g (max len g.size) c (size_pos true f pos) (ground arith)
    ∙ ap (λ t. t ++ replicate (max len g.size - g.size) c)
        (ap reverse (signed_out true f) ∙ reverse-sign true (read_out f.bytes 0 f.size))
right_padding false len c f pos = left_adjusted f (max len f.size) c pos (ground arith)

pub zeros_inside :
    (len : ℕ) (f : Stored)
    → 0 < f.size
    → let g = sign_digits true f in
      finished true len false b'0' g
      ≡ b'-' ∷ (replicate (max len g.size - g.size) b'0' ++ reverse (read_out f.bytes 0 f.size))
zeros_inside len f pos =
    all_swapped last width (ground arith)
    ∙ ap reverse (
        ap (read_out last 0) {y = suc (width - 1)} (ground arith)
        ∙ read_out_snoc last 0 (width - 1)
        ∙ ap₂ (λ xs c. xs ++ (c ∷ [])) {y = ds ++ fill} {v = b'-'} before
            (ap last {y = width - 1} (omega arith) ∙ rw (==_self (width - 1))))
    ∙ reverse-append (ds ++ fill) (b'-' ∷ [])
    ∙ ap (◌∷◌ b'-') (
        reverse-append ds fill
        ∙ ap (λ t. t ++ reverse ds) (reverse-replicate (width - (f.size + 1)) b'0'))
  where
    width : ℕ
    width = max len (f.size + 1)

    ds : List ℕ
    ds = read_out f.bytes 0 f.size

    fill : List ℕ
    fill = replicate (width - (f.size + 1)) b'0'

    signed : Bytes
    signed = (push b'-' f).bytes

    zeros : Bytes
    zeros = pad signed (f.size + 1 - 1) (width - 1 - (f.size + 1 - 1)) b'0'

    last : Bytes
    last = put zeros (width - 1) b'-'

    start : f.size + 1 - 1 ≡ f.size
    start = omega arith

    before : read_out last 0 (width - 1) ≡ ds ++ fill
    before =
        read_out_ext last zeros 0 (width - 1) (λ k low high. rw (==_ne (width - 1) k (omega arith)))
        ∙ rw start (
            padded_out signed f.size (width - 1) b'0' (ground arith)
            ∙ ap₂ ◌++◌
                (read_out_ext signed f.bytes 0 f.size
                  (λ k low high. rw (==_ne f.size k (omega arith))))
                (ap (λ n. replicate n b'0') (omega arith)))
