-- ===== src/Print/Conversion.antt =====
-- What a directive prints, for every conversion of `vprintfmt` that takes an argument.
use os_lab5_challenge.Base.{
  ℕ, zero, suc, ◌-◌, ◌%◌, ◌^◌, ◌≡◌, ◌≢◌, ◌≤◌, ◌<◌, refl, ap, ◌∙◌, Bool, true, false, arith, List,
  [], ◌∷◌, ◌++◌, leb, ◌&&◌, length, if◌then◌else◌, some,
}
use os_lab5_challenge.Str.{Bytes}
use os_lab5_challenge.Print.{
  Arg, Printed, printed, no_arg, unfinished, word, string, emit, emit_converted, is_digit, convert,
  print_num, print_char, print_str, spaces, max, vprintfmt,
}
use os_lab5_challenge.Print.Case.{AreCased}
use os_lab5_challenge.Print.Number.{number}
use os_lab5_challenge.Print.Fields.{laid_out, HasNoSpareZero, print_num_lem}
use os_lab5_challenge.Print.Directive.{
  Flag, is_left, pad_char, laid, singles, AreDigits, HasNoPercent, StartsWidth, written,
  vprintfmt-round,
}

-- The conversions of numbers: letter, base, whether the word is signed, and whether letters are upper case.
pub data IsRadix : ℕ → ℕ → Bool → Bool → Type 0 where
  binary : IsRadix b'b' 2 false false
  decimal : IsRadix b'd' 10 true false
  long_decimal : IsRadix b'D' 10 true false
  octal : IsRadix b'o' 8 false false
  long_octal : IsRadix b'O' 8 false false
  unsigned : IsRadix b'u' 10 false false
  long_unsigned : IsRadix b'U' 10 false false
  hex : IsRadix b'x' 16 false false
  upper_hex : IsRadix b'X' 16 false true

-- A conversion with an argument of its kind.
pub data Takes : ℕ → Arg → Type 0 where
  number_of :
      {c base : ℕ} {is_signed upcase : Bool}
      → IsRadix c base is_signed upcase
      → (w : ℕ) → Takes c (word w)
  char_of : (w : ℕ) → Takes b'c' (word w)
  text_of : (s : List ℕ) → Takes b's' (string s)

-- The sign and the size of a word.
abbrev pub is_negative : Bool → ℕ → Bool
is_negative is_signed w = is_signed && leb (2 ^ 31) w

abbrev pub magnitude : Bool → ℕ → ℕ
magnitude is_signed w = if is_negative is_signed w then 2 ^ 32 - w else w

abbrev pub gap : ℕ → List (List ℕ)
gap zero = []
gap (suc n) = (b' ' ∷ []) ∷ gap n

-- What goes out: a number as `laid_out` says, with digits that read back as its size, or a character or a text with
-- spaces on the side that is not aligned.
pub data Prints (left : Bool) (width padc : ℕ) : ℕ → Arg → List (List ℕ) → Type 0 where
  digits :
      {c base : ℕ} {is_signed upcase : Bool} (w : ℕ) (ds : List ℕ)
      → IsRadix c base is_signed upcase
      → number base 0 ds ≡ magnitude is_signed w
      → HasNoSpareZero ds
      → AreCased upcase ds
      → Prints left width padc c
          (word w)
          (laid_out (is_negative is_signed w) width left padc ds ∷ [])
  shown_char :
      (w : ℕ)
      → Prints left width padc b'c' (word w) (
          if left
          then (w % 256 ∷ []) ∷ gap (width - 1)
          else gap (width - 1) ++ ((w % 256 ∷ []) ∷ []))
  shown_text :
      (s : List ℕ)
      → Prints left width padc b's'
          (string s)
          (if left then s ∷ gap (width - length s) else gap (width - length s) ++ (s ∷ []))

spaces-gap : (n : ℕ) → spaces n ≡ gap n
unfolding spaces
spaces-gap zero = refl
spaces-gap (suc n) = ap (λ r. (b' ' ∷ []) ∷ r) (spaces-gap n)

filled : (width len : ℕ) → spaces (max width len - len) ≡ gap (width - len)
filled width len = ap spaces (ground arith) ∙ spaces-gap (width - len)

module _ (stack : Bytes) (flag : Flag) (width : ℕ) where
  abbrev Converted : ℕ → Arg → Type 0
  Converted c a =
      (o : List (List ℕ)) × Prints (is_left flag) width (pad_char flag) c a o
      × ((args : List Arg) → convert stack (laid flag width) c (a ∷ args) ≡ some (o, args))

  by_print_num :
      {c base : ℕ} {is_signed upcase : Bool} (w : ℕ)
      → IsRadix c base is_signed upcase
      → 2 ≤ base
      → base ≤ 36
      → ((args : List Arg)
          → convert stack (laid flag width) c (word w ∷ args)
            ≡ some (
              print_num stack
                    (magnitude is_signed w)
                    base
                    (is_negative is_signed w)
                    width
                    (is_left flag)
                    (pad_char flag)
                    upcase
                  ∷ [],
              args,
            ))
      → Converted c (word w)
  by_print_num {c} {base} {is_signed} {upcase} w r big small run =
      let (ds, shown, value, short, cased) =
        print_num_lem stack (magnitude is_signed w) base (is_negative is_signed w) width
          (is_left flag) (pad_char flag) upcase big small in
      (
        laid_out (is_negative is_signed w) width (is_left flag) (pad_char flag) ds ∷ [],
        digits w ds r value short cased,
        λ args. run args ∙ ap (λ o. some (o ∷ [], args)) shown,
      )

  radix-Converted :
      {c base : ℕ} {is_signed upcase : Bool}
      → (w : ℕ) → IsRadix c base is_signed upcase
      → Converted c (word w)
  unfolding convert
  radix-Converted w binary = by_print_num w binary (omega arith) (omega arith) (λ args. refl)
  radix-Converted w decimal = by_print_num w decimal (omega arith) (omega arith) (λ args. refl)
  radix-Converted w long_decimal =
      by_print_num w long_decimal (omega arith) (omega arith) (λ args. refl)
  radix-Converted w octal = by_print_num w octal (omega arith) (omega arith) (λ args. refl)
  radix-Converted w long_octal =
      by_print_num w long_octal (omega arith) (omega arith) (λ args. refl)
  radix-Converted w unsigned = by_print_num w unsigned (omega arith) (omega arith) (λ args. refl)
  radix-Converted w long_unsigned =
      by_print_num w long_unsigned (omega arith) (omega arith) (λ args. refl)
  radix-Converted w hex = by_print_num w hex (omega arith) (omega arith) (λ args. refl)
  radix-Converted w upper_hex = by_print_num w upper_hex (omega arith) (omega arith) (λ args. refl)

  char-Converted : (w : ℕ) → Converted b'c' (word w)
  unfolding convert print_char
  char-Converted w = (
    _,
    shown_char w,
    λ args.
        ap
          (λ o.
            some ((if is_left flag then (w % 256 ∷ []) ∷ o else o ++ ((w % 256 ∷ []) ∷ [])), args))
          (filled width 1),
  )

  text-Converted : (s : List ℕ) → Converted b's' (string s)
  unfolding convert print_str
  text-Converted s = (
    _,
    shown_text s,
    λ args.
        ap (λ o. some ((if is_left flag then s ∷ o else o ++ (s ∷ [])), args))
          (filled width (length s)),
  )

  Takes-Converted : {c : ℕ} {a : Arg} → Takes c a → Converted c a
  Takes-Converted (number_of r w) = radix-Converted w r
  Takes-Converted (char_of w) = char-Converted w
  Takes-Converted (text_of s) = text-Converted s

-- No letter of a conversion is read as something else.
abbrev IsLetter : ℕ → Type 0
IsLetter c = (is_digit c ≡ false) × (c ≢ b'-') × (c ≢ b'l')

radix-IsLetter :
    {c base : ℕ} {is_signed upcase : Bool} → IsRadix c base is_signed upcase → IsLetter c
radix-IsLetter binary = (refl, omega arith, omega arith)
radix-IsLetter decimal = (refl, omega arith, omega arith)
radix-IsLetter long_decimal = (refl, omega arith, omega arith)
radix-IsLetter octal = (refl, omega arith, omega arith)
radix-IsLetter long_octal = (refl, omega arith, omega arith)
radix-IsLetter unsigned = (refl, omega arith, omega arith)
radix-IsLetter long_unsigned = (refl, omega arith, omega arith)
radix-IsLetter hex = (refl, omega arith, omega arith)
radix-IsLetter upper_hex = (refl, omega arith, omega arith)

Takes-IsLetter : {c : ℕ} {a : Arg} → Takes c a → IsLetter c
Takes-IsLetter (number_of r w) = radix-IsLetter r
Takes-IsLetter (char_of w) = (refl, omega arith, omega arith)
Takes-IsLetter (text_of s) = (refl, omega arith, omega arith)

-- What is printed after `o`; the end without an argument, or without rounds, stays.
abbrev pub followed : List (List ℕ) → Printed → Printed
followed o (printed os) = printed (o ++ os)
followed o no_arg = no_arg
followed o unfinished = unfinished

-- `vprintfmt` on a text with no `%` and a directive, with an argument of its kind: the text goes out byte by byte,
-- then what `Prints` says (sign, padding and digits of the number in the base and the case of the letter, the character, or
-- the string, in a field of the written width, on the side and with the padding of the written flag), then what
-- the rest of the format prints from the arguments that are left. The width is written in decimal digits, is below
-- 2^31, and with no flag does not begin with 0.
pub vprintfmt-written :
    (n : ℕ) (stack : Bytes) (plain_text : List ℕ) (flag : Flag) (ds : List ℕ) (is_long : Bool)
    (c : ℕ) (a : Arg) (fmt : List ℕ) (args : List Arg)
    → HasNoPercent plain_text
    → AreDigits ds
    → StartsWidth flag ds
    → number 10 0 ds < 2 ^ 31
    → Takes c a
    → (o : List (List ℕ)) × Prints (is_left flag) (number 10 0 ds) (pad_char flag) c a o
      × (vprintfmt (suc n) stack (plain_text ++ written flag ds is_long c fmt) (a ∷ args)
          ≡ followed (singles plain_text) (followed o (vprintfmt n stack fmt args)))
vprintfmt-written n stack plain_text flag ds is_long c a fmt args p are w small t =
    let (o, prints, run) = Takes-Converted stack flag (number 10 0 ds) t in
    let (no_digit, no_minus, no_l) = Takes-IsLetter t in
    (
      o,
      prints,
      vprintfmt-round n stack plain_text flag ds is_long c fmt (a ∷ args) p are w small no_digit
            no_minus (λ _. no_l)
          ∙ ap (λ r. emit (singles plain_text) (emit_converted r (vprintfmt n stack fmt)))
              (run args),
    )
