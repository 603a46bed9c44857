-- ===== src/Print.antt =====
-- The formatted output of lib/print.c. A call of `out` is the list of the bytes that it is given; a string
-- is the list of its bytes before the end, and the buffer of `print_num` is a memory of bytes. `int` and
-- `long` are 32-bit words, which the arguments hold as bit patterns.
pub mod Case
pub mod Buffer
pub mod Number
pub mod Padding
pub mod Fields
pub mod Format
pub mod Directive
pub mod Conversion
use os_lab5_challenge.Base.{
  ℕ, zero, suc, ◌+◌, ◌-◌, ◌*◌, ◌/◌, ◌%◌, ◌^◌, Bool, true, false, not, ◌&&◌, ◌||◌, List, [], ◌∷◌,
  ◌++◌, Option, none, some, length, ltb, leb, ◌==◌, if◌then◌else◌,
}
use os_lab5_challenge.Str.{Bytes, put}

-- The bytes of a buffer from `a` on.
unfoldable pub read_out : Bytes → ℕ → ℕ → List ℕ
read_out buf a zero = []
read_out buf a (suc n) = buf a ∷ read_out buf (a + 1) n

-- `for (i = a; i < a + n; i++) buf[i] = c;`
unfoldable pub pad : Bytes → ℕ → ℕ → ℕ → Bytes
pad buf a zero c = buf
pad buf a (suc n) c = pad (put buf a c) (a + 1) n c

abbrev pub digit_char : Bool → ℕ → ℕ
digit_char upcase tmp =
    if leb tmp 9 then b'0' + tmp else if upcase then b'A' + tmp - 10 else b'a' + tmp - 10

-- A buffer with `p - buf`.
pub record Stored : Type 0 where
  pub bytes : Bytes
  pub size : ℕ

abbrev pub push : ℕ → Stored → Stored
push c f = record { bytes = put f.bytes f.size c; size = f.size + 1 }

-- `do { ... } while (u != 0)`; a round makes `u` smaller, so `u + 1` rounds are enough.
unfoldable pub push_digits : ℕ → ℕ → ℕ → Bool → Stored → Stored
push_digits zero u base upcase f = f
push_digits (suc n) u base upcase f =
    let f' = push (digit_char upcase (u % base)) f in
    let rest = push_digits n (u / base) base upcase f' in if u / base == 0 then f' else rest

-- `while (end > begin)`; half of the buffer's length is enough rounds.
unfoldable pub swap_ends : ℕ → ℕ → ℕ → Bytes → Bytes
swap_ends zero begin end buf = buf
swap_ends (suc n) begin end buf =
    let rest = swap_ends n (begin + 1) (end - 1) (put (put buf begin (buf end)) end (buf begin)) in
    if ltb begin end then rest else buf

abbrev pub max : ℕ → ℕ → ℕ
max a b = if ltb a b then b else a

-- Padding up to `length`, by the case of the sign.
abbrev pub pad_out : Stored → Bool → ℕ → Bool → ℕ → Bytes
pad_out f neg_flag length ladjust padc =
    if neg_flag && not ladjust && (padc == b'0')
    then put (pad f.bytes (f.size - 1) (length - 1 - (f.size - 1)) padc) (length - 1) b'-'
    else pad f.bytes f.size (length - f.size) padc

abbrev pub sign_digits : Bool → Stored → Stored
sign_digits neg_flag f = if neg_flag then push b'-' f else f

-- What `out` is given, with `buf` as it is on entry.
unfoldable pub print_num : Bytes → ℕ → ℕ → Bool → ℕ → Bool → ℕ → Bool → List ℕ
unfolding read_out pad push_digits swap_ends
print_num buf u base neg_flag length ladjust padc upcase =
    let f =
      sign_digits neg_flag (push_digits (u + 1) u base upcase (record { bytes = buf; size = 0 })) in
    let width = max length f.size in
    let bytes = pad_out f neg_flag width ladjust (if ladjust then b' ' else padc) in
    let end = (if ladjust then f.size else width) - 1 in
    read_out (swap_ends width 0 end bytes) 0 width

unfoldable pub spaces : ℕ → List (List ℕ)
spaces zero = []
spaces (suc n) = (b' ' ∷ []) ∷ spaces n

unfoldable pub print_char : ℕ → ℕ → Bool → List (List ℕ)
unfolding spaces
print_char c length ladjust =
    if ladjust
    then (c ∷ []) ∷ spaces (max length 1 - 1)
    else spaces (max length 1 - 1) ++ ((c ∷ []) ∷ [])

unfoldable pub print_str : List ℕ → ℕ → Bool → List (List ℕ)
unfolding spaces
print_str s width ladjust =
    if ladjust
    then s ∷ spaces (max width (length s) - length s)
    else spaces (max width (length s) - length s) ++ (s ∷ [])

-- What `va_arg` reads: a word for `int` and `long`, a string for `char *`.
pub data Arg : Type 0 where
  word : ℕ → Arg
  string : List ℕ → Arg

-- The calls of `out`; an argument that is missing or of the other kind; no rounds left.
pub data Printed : Type 0 where
  printed : List (List ℕ) → Printed
  no_arg unfinished : Printed

abbrev pub emit : List (List ℕ) → Printed → Printed
emit o (printed os) = printed (o ++ os)
emit o no_arg = no_arg
emit o unfinished = unfinished

-- `while ((*fmt) && (*fmt != '%'))`
unfoldable pub scan_plain : List ℕ → List (List ℕ) × List ℕ
scan_plain [] = ([], [])
scan_plain (c ∷ cs) =
    let (o, r) = scan_plain cs in if c == b'%' then ([], c ∷ cs) else ((c ∷ []) ∷ o, r)

pub record Layout : Type 0 where
  pub ladjust : Bool
  pub padc : ℕ
  pub width : ℕ

abbrev pub plain : Layout
plain = record { ladjust = false; padc = b' '; width = 0 }

unfoldable pub scan_flag : List ℕ → Layout × List ℕ
scan_flag [] = (plain, [])
scan_flag (c ∷ cs) =
    if c == b'-'
    then (record plain { ladjust = true }, cs)
    else if c == b'0'
    then (record plain { padc = b'0' }, cs)
    else (plain, c ∷ cs)

abbrev pub is_digit : ℕ → Bool
is_digit c = leb b'0' c && leb c b'9'

-- `width = width * 10 + *fmt - '0'` on a word.
unfoldable pub scan_width : ℕ → List ℕ → ℕ × List ℕ
scan_width width [] = (width, [])
scan_width width (c ∷ cs) =
    let rest = scan_width ((width * 10 + c - b'0') % 2 ^ 32) cs in
    if is_digit c then rest else (width, c ∷ cs)

-- `long_flag` chooses between two types of one size.
unfoldable pub scan_long : List ℕ → List ℕ
scan_long [] = []
scan_long (c ∷ cs) = if c == b'l' then cs else c ∷ cs

-- `width` as the printers take it: each raises it at least to the length of what it prints, so a negative one counts
-- as 0.
abbrev pub as_length : ℕ → ℕ
as_length width = if ltb width (2 ^ 31) then width else 0

unfoldable pub scan_layout : List ℕ → Layout × List ℕ
unfolding scan_flag scan_width scan_long
scan_layout fmt =
    let (l, r) = scan_flag fmt in
    let (width, r') = scan_width 0 r in (record l { width = as_length width }, scan_long r')

-- `print_num` at the next argument; `num < 0` is said of its pattern for `%d` only.
abbrev pub number : Bytes → Layout → ℕ → Bool → Bool → List Arg → Option (List (List ℕ) × List Arg)
number stack l base is_signed upcase (word w ∷ args) =
    let neg_flag = is_signed && leb (2 ^ 31) w in
    let num = if neg_flag then 2 ^ 32 - w else w in
    some (print_num stack num base neg_flag l.width l.ladjust l.padc upcase ∷ [], args)
number stack l base is_signed upcase _ = none

abbrev pub character : Layout → List Arg → Option (List (List ℕ) × List Arg)
character l (word w ∷ args) = some (print_char (w % 256) l.width l.ladjust, args)
character l _ = none

abbrev pub text : Layout → List Arg → Option (List (List ℕ) × List Arg)
text l (string s ∷ args) = some (print_str s l.width l.ladjust, args)
text l _ = none

-- The `switch`, but for the end of the string.
unfoldable pub convert : Bytes → Layout → ℕ → List Arg → Option (List (List ℕ) × List Arg)
convert stack l c args =
    if c == b'b'
    then number stack l 2 false false args
    else if (c == b'd') || (c == b'D')
    then number stack l 10 true false args
    else if (c == b'o') || (c == b'O')
    then number stack l 8 false false args
    else if (c == b'u') || (c == b'U')
    then number stack l 10 false false args
    else if c == b'x'
    then number stack l 16 false false args
    else if c == b'X'
    then number stack l 16 false true args
    else if c == b'c'
    then character l args
    else if c == b's'
    then text l args
    else some ((c ∷ []) ∷ [], args)

abbrev pub emit_converted : Option (List (List ℕ) × List Arg) → (List Arg → Printed) → Printed
emit_converted none next = no_arg
emit_converted (some (o, args)) next = emit o (next args)

-- `case '\0'` steps back, so that the next round ends.
abbrev pub after_layout :
    (List ℕ → List Arg → Printed) → Bytes → Layout → List ℕ → List Arg → Printed
after_layout again stack l [] args = again [] args
after_layout again stack l (c ∷ fmt) args = emit_converted (convert stack l c args) (again fmt)

abbrev pub after_plain : (List ℕ → List Arg → Printed) → Bytes → List ℕ → List Arg → Printed
after_plain again stack [] args = printed []
after_plain again stack (_ ∷ fmt) args =
    let (l, fmt') = scan_layout fmt in after_layout again stack l fmt' args

-- The loop, with a bound on its rounds; `stack` is what `print_num` finds in its buffer.
unfoldable pub vprintfmt : ℕ → Bytes → List ℕ → List Arg → Printed
unfolding scan_plain scan_layout convert
vprintfmt zero stack fmt args = unfinished
vprintfmt (suc n) stack fmt args =
    let (o, fmt') = scan_plain fmt in emit o (after_plain (vprintfmt n stack) stack fmt' args)
