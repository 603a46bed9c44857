-- ===== src/Print/Directive.antt =====
-- A directive as it is written in a format, and how `vprintfmt` reads it back.
use os_lab5_challenge.Base.{
  ℕ, ◌≤◌, ◌<◌, ◌%◌, ◌^◌, lt→ltb, suc, ◌+◌, ◌*◌, ◌-◌, ◌≡◌, ◌≢◌, refl, ap, Bool, true, false, arith,
  List, [], ◌∷◌, ◌++◌, if◌then◌else◌, ==_ne,
}
use os_lab5_challenge.Str.{Bytes}
use os_lab5_challenge.Print.{
  Arg, emit, scan_plain, Layout, scan_flag, is_digit, scan_width, scan_long, scan_layout, convert,
  emit_converted, after_layout, vprintfmt,
}
use os_lab5_challenge.Print.Number.{number, value_of}

pub data Flag : Type 0 where
  no_flag minus zeros : Flag

abbrev pub written_flag : Flag → List ℕ
written_flag no_flag = []
written_flag minus = b'-' ∷ []
written_flag zeros = b'0' ∷ []

abbrev pub is_left : Flag → Bool
is_left minus = true
is_left _ = false

abbrev pub pad_char : Flag → ℕ
pad_char zeros = b'0'
pad_char _ = b' '

abbrev pub laid : Flag → ℕ → Layout
laid flag width = record { ladjust = is_left flag; padc = pad_char flag; width = width }

abbrev pub written_long : Bool → List ℕ
written_long is_long = if is_long then b'l' ∷ [] else []

unfoldable pub AreDigits : List ℕ → Type 0
AreDigits [] = Unit {0}
AreDigits (c ∷ cs) = (is_digit c ≡ true) × AreDigits cs

-- The first digit of a width is no flag.
abbrev pub StartsWidth : Flag → List ℕ → Type 0
StartsWidth no_flag (c ∷ cs) = c ≢ b'0'
StartsWidth _ _ = Unit {0}

unfoldable pub HasNoPercent : List ℕ → Type 0
HasNoPercent [] = Unit {0}
HasNoPercent (c ∷ cs) = (c ≢ b'%') × HasNoPercent cs

abbrev pub singles : List ℕ → List (List ℕ)
singles [] = []
singles (c ∷ cs) = (c ∷ []) ∷ singles cs

scan_plain-text :
    (text fmt : List ℕ)
    → HasNoPercent text
    → scan_plain (text ++ (b'%' ∷ fmt)) ≡ (singles text, b'%' ∷ fmt)
unfolding scan_plain HasNoPercent
scan_plain-text [] fmt h = refl
scan_plain-text (c ∷ cs) fmt h = ground (arith, scan_plain-text cs fmt h.1)

number-ge : (w : ℕ) (ds : List ℕ) → w ≤ number 10 w ds
number-ge w [] = omega arith
number-ge w (d ∷ ds) = omega (arith, number-ge (w * 10 + value_of d) ds)

-- A width that fits an int is read as it is written.
scan_width-digits :
    (w : ℕ) (ds fmt : List ℕ) (c : ℕ)
    → AreDigits ds
    → number 10 w ds < 2 ^ 31
    → is_digit c ≡ false
    → scan_width w (ds ++ (c ∷ fmt)) ≡ (number 10 w ds, c ∷ fmt)
unfolding scan_width AreDigits
scan_width-digits w [] fmt c a small e = rw e
scan_width-digits w (d ∷ ds) fmt c a small e =
    rw (a.0) (rw next (scan_width-digits (w * 10 + value_of d) ds fmt c a.1 small e))
  where
    next : (w * 10 + d - b'0') % 2 ^ 32 ≡ w * 10 + value_of d
    next = ground (arith, a.0, number-ge (w * 10 + value_of d) ds, small)

-- What follows the flag.
after_flag : List ℕ → Bool → ℕ → List ℕ → List ℕ
after_flag ds is_long c fmt = ds ++ (written_long is_long ++ (c ∷ fmt))

scan_flag-written :
    (flag : Flag) (ds : List ℕ) (is_long : Bool) (c : ℕ) (fmt : List ℕ)
    → AreDigits ds
    → StartsWidth flag ds
    → is_digit c ≡ false
    → c ≢ b'-'
    → scan_flag (written_flag flag ++ after_flag ds is_long c fmt)
      ≡ (laid flag 0, after_flag ds is_long c fmt)
unfolding scan_flag after_flag AreDigits
scan_flag-written minus ds is_long c fmt a w e m = refl
scan_flag-written zeros ds is_long c fmt a w e m = refl
scan_flag-written no_flag [] true c fmt a w e m = refl
scan_flag-written no_flag [] false c fmt a w e m = ground (arith, e)
scan_flag-written no_flag (d ∷ ds) is_long c fmt a w e m = ground (arith, a.0)

scan_width-written :
    (ds : List ℕ) (is_long : Bool) (c : ℕ) (fmt : List ℕ)
    → AreDigits ds
    → number 10 0 ds < 2 ^ 31
    → is_digit c ≡ false
    → scan_width 0 (after_flag ds is_long c fmt)
      ≡ (number 10 0 ds, written_long is_long ++ (c ∷ fmt))
unfolding after_flag
scan_width-written ds true c fmt a small e = scan_width-digits 0 ds (c ∷ fmt) b'l' a small refl
scan_width-written ds false c fmt a small e = scan_width-digits 0 ds fmt c a small e

scan_long-written :
    (is_long : Bool) (c : ℕ) (fmt : List ℕ)
    → (is_long ≡ false → c ≢ b'l')
    → scan_long (written_long is_long ++ (c ∷ fmt)) ≡ c ∷ fmt
unfolding scan_long
scan_long-written true c fmt l = refl
scan_long-written false c fmt l = rw (==_ne c b'l' (l refl))

-- A directive in a format.
unfoldable pub written : Flag → List ℕ → Bool → ℕ → List ℕ → List ℕ
unfolding after_flag
written flag ds is_long c fmt = b'%' ∷ (written_flag flag ++ after_flag ds is_long c fmt)

scan_layout-written :
    (flag : Flag) (ds : List ℕ) (is_long : Bool) (c : ℕ) (fmt : List ℕ)
    → AreDigits ds
    → StartsWidth flag ds
    → number 10 0 ds < 2 ^ 31
    → is_digit c ≡ false
    → c ≢ b'-'
    → (is_long ≡ false → c ≢ b'l')
    → scan_layout (written_flag flag ++ after_flag ds is_long c fmt)
      ≡ (laid flag (number 10 0 ds), c ∷ fmt)
unfolding scan_layout
scan_layout-written flag ds is_long c fmt a w small e m l = rw (
  scan_flag-written flag ds is_long c fmt a w e m,
  scan_width-written ds is_long c fmt a small e,
  scan_long-written is_long c fmt l,
  lt→ltb (number 10 0 ds) (2 ^ 31) small,
)

-- One round of `vprintfmt` on a text and a directive.
pub vprintfmt-round :
    (n : ℕ) (stack : Bytes) (text : List ℕ) (flag : Flag) (ds : List ℕ) (is_long : Bool) (c : ℕ)
    (fmt : List ℕ) (args : List Arg)
    → HasNoPercent text
    → AreDigits ds
    → StartsWidth flag ds
    → number 10 0 ds < 2 ^ 31
    → is_digit c ≡ false
    → c ≢ b'-'
    → (is_long ≡ false → c ≢ b'l')
    → vprintfmt (suc n) stack (text ++ written flag ds is_long c fmt) args
      ≡ emit (singles text) (
          emit_converted
            (convert stack (laid flag (number 10 0 ds)) c args)
            (vprintfmt n stack fmt))
unfolding vprintfmt written
vprintfmt-round n stack text flag ds is_long c fmt args p a w small e m l =
    rw (scan_plain-text text (written_flag flag ++ after_flag ds is_long c fmt) p) (
      ap
        (λ (r : Layout × List ℕ).
          emit (singles text) (after_layout (vprintfmt n stack) stack r.0 r.1 args))
        (scan_layout-written flag ds is_long c fmt a w small e m l))
