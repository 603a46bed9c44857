-- ===== src/Print/Format.antt =====
-- The loop of `vprintfmt`: it ends, and it takes a format apart from the left.
use os_lab5_challenge.Base.{
  ℕ, ◌%◌, ◌^◌, zero, suc, ◌+◌, ◌*◌, ◌-◌, ◌≤◌, ◌<◌, ◌≢◌, arith, List, [], ◌∷◌, length, Option, none,
  some,
}
use os_lab5_challenge.Str.{Bytes}
use os_lab5_challenge.Print.{
  Arg, Printed, printed, no_arg, unfinished, emit, scan_plain, Layout, scan_flag, scan_width,
  scan_long, scan_layout, convert, emit_converted, after_layout, after_plain, vprintfmt,
}

scan_plain-le : (fmt : List ℕ) → length ((scan_plain fmt).1) ≤ length fmt
unfolding scan_plain
scan_plain-le [] = omega arith
scan_plain-le (c ∷ cs) = ground (arith, scan_plain-le cs)

scan_flag-le : (fmt : List ℕ) → length ((scan_flag fmt).1) ≤ length fmt
unfolding scan_flag
scan_flag-le [] = omega arith
scan_flag-le (c ∷ cs) = ground arith

scan_width-le : (width : ℕ) (fmt : List ℕ) → length ((scan_width width fmt).1) ≤ length fmt
unfolding scan_width
scan_width-le width [] = omega arith
scan_width-le width (c ∷ cs) = ground (arith, scan_width-le ((width * 10 + c - b'0') % 2 ^ 32) cs)

scan_long-le : (fmt : List ℕ) → length (scan_long fmt) ≤ length fmt
unfolding scan_long
scan_long-le [] = omega arith
scan_long-le (c ∷ cs) = ground arith

scan_layout-le : (fmt : List ℕ) → length ((scan_layout fmt).1) ≤ length fmt
unfolding scan_layout
scan_layout-le fmt = omega (
  arith,
  scan_flag-le fmt,
  scan_width-le 0 ((scan_flag fmt).1),
  scan_long-le ((scan_width 0 ((scan_flag fmt).1)).1),
)

emit-ne : (o : List (List ℕ)) (p : Printed) → p ≢ unfinished → emit o p ≢ unfinished
emit-ne o (printed os) h = λ e. cc
emit-ne o no_arg h = λ e. cc
emit-ne o unfinished h = h

-- `again` ends on every format of fewer than `n` bytes.
abbrev EndsBelow : ℕ → (List ℕ → List Arg → Printed) → Type 0
EndsBelow n again = (fmt : List ℕ) (args : List Arg) → length fmt < n → again fmt args ≢ unfinished

emit_converted-ne :
    (r : Option (List (List ℕ) × List Arg)) (next : List Arg → Printed)
    → ((args : List Arg) → next args ≢ unfinished)
    → emit_converted r next ≢ unfinished
emit_converted-ne none next h = λ e. cc
emit_converted-ne (some (o, args)) next h = emit-ne o (next args) (h args)

after_layout-ne :
    (n : ℕ) (again : List ℕ → List Arg → Printed) (stack : Bytes) (l : Layout) (fmt : List ℕ)
    (args : List Arg)
    → EndsBelow n again
    → length fmt < n
    → after_layout again stack l fmt args ≢ unfinished
after_layout-ne n again stack l [] args h le = h [] args (omega arith)
after_layout-ne n again stack l (c ∷ fmt) args h le =
    emit_converted-ne (convert stack l c args) (again fmt) (λ rest. h fmt rest (omega arith))

after_plain-ne :
    (n : ℕ) (again : List ℕ → List Arg → Printed) (stack : Bytes) (fmt : List ℕ) (args : List Arg)
    → EndsBelow n again
    → length fmt < suc n
    → after_plain again stack fmt args ≢ unfinished
after_plain-ne n again stack [] args h le = λ e. cc
after_plain-ne n again stack (c ∷ fmt) args h le =
    after_layout-ne n again stack ((scan_layout fmt).0) ((scan_layout fmt).1) args h
      (omega (arith, scan_layout-le fmt))

-- With more rounds than the format has bytes the loop of `vprintfmt` ends, for every format and all
-- arguments: it has printed, or an argument is missing or of the wrong kind.
pub vprintfmt_ends :
    (n : ℕ) (stack : Bytes) (fmt : List ℕ) (args : List Arg)
    → length fmt < n
    → vprintfmt n stack fmt args ≢ unfinished
unfolding vprintfmt
vprintfmt_ends zero stack fmt args h = absurd (omega arith)
vprintfmt_ends (suc n) stack fmt args h = emit-ne ((scan_plain fmt).0) _ (
    after_plain-ne n (vprintfmt n stack) stack ((scan_plain fmt).1) args
      (λ rest more le. vprintfmt_ends n stack rest more le) (omega (arith, scan_plain-le fmt)))
