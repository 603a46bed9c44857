-- ===== src/Str.antt =====
-- The byte routines of lib/string.c. Memory maps addresses to bytes; an area never wraps around the
-- end of the address space, so `dst + n` is a plain sum. The loops run on the number of bytes.
pub mod Places
pub mod Copy
pub mod Fill
pub mod Text
use mathlib.Core.Option
use os_lab5_challenge.Base.{
  ℕ, zero, suc, ◌+◌, ◌-◌, ◌*◌, ◌/◌, ◌%◌, Bool, true, false, not, ◌&&◌, Option, none, some, ltb, leb,
  ◌==◌, if◌then◌else◌,
}

abbrev pub Bytes : Type 0
Bytes = ℕ → ℕ

abbrev pub put : Bytes → ℕ → ℕ → Bytes
put m a b = λ x. if a == x then b else m x

-- A word at an aligned address, lowest byte first.
abbrev pub put_word : Bytes → ℕ → ℕ → Bytes
put_word m a w =
    put (put (put (put m a (w % 256)) (a + 1) (w / 256 % 256)) (a + 2) (w / 65536 % 256)) (a + 3)
      (w / 16777216 % 256)

abbrev pub get_word : Bytes → ℕ → ℕ
get_word m a = m a + m (a + 1) * 256 + m (a + 2) * 65536 + m (a + 3) * 16777216

-- What the first loop of `memset` leaves: where it has come, and the memory.
pub record Filled : Type 0 where
  pub at : ℕ
  pub bytes : Bytes

-- `while ((dst & 3) && dst < max)`
unfoldable pub fill_head : ℕ → ℕ → ℕ → ℕ → Bytes → Filled
fill_head zero dst max byte m = record { at = dst; bytes = m }
fill_head (suc n) dst max byte m =
    let rest = fill_head n (dst + 1) max byte (put m dst byte) in
    if not (dst % 4 == 0) && ltb dst max then rest else record { at = dst; bytes = m }

-- `while (dst + 4 <= max)`
unfoldable pub fill_words : ℕ → ℕ → ℕ → ℕ → Bytes → Filled
fill_words zero dst max word m = record { at = dst; bytes = m }
fill_words (suc n) dst max word m =
    let rest = fill_words n (dst + 4) max word (put_word m dst word) in
    if leb (dst + 4) max then rest else record { at = dst; bytes = m }

-- `while (dst < max)`
unfoldable pub fill_tail : ℕ → ℕ → ℕ → ℕ → Bytes → Filled
fill_tail zero dst max byte m = record { at = dst; bytes = m }
fill_tail (suc n) dst max byte m =
    let rest = fill_tail n (dst + 1) max byte (put m dst byte) in
    if ltb dst max then rest else record { at = dst; bytes = m }

-- The bytes of the word do not overlap, so `|` is `+`.
abbrev pub word_of : ℕ → ℕ
word_of byte = byte + byte * 256 + byte * 65536 + byte * 16777216

unfoldable pub memset : ℕ → ℕ → ℕ → Bytes → Bytes
unfolding fill_head fill_words fill_tail
memset dst c n m =
    let byte = c % 256 in
    let a = fill_head n dst (dst + n) byte m in
    let b = fill_words n a.at (dst + n) (word_of byte) a.bytes in
    (fill_tail n b.at (dst + n) byte b.bytes).bytes

pub record Copied : Type 0 where
  pub dst_at : ℕ
  pub src_at : ℕ
  pub copied : Bytes

abbrev pub copied_at : ℕ → ℕ → Bytes → Copied
copied_at dst src m = record { dst_at = dst; src_at = src; copied = m }

unfoldable pub copy_head : ℕ → (dst src max : ℕ) → Bytes → Copied
copy_head zero dst src max m = copied_at dst src m
copy_head (suc n) dst src max m =
    let rest = copy_head n (dst + 1) (src + 1) max (put m dst (m src)) in
    if not (dst % 4 == 0) && ltb dst max then rest else copied_at dst src m

unfoldable pub copy_words : ℕ → (dst src max : ℕ) → Bytes → Copied
copy_words zero dst src max m = copied_at dst src m
copy_words (suc n) dst src max m =
    let rest = copy_words n (dst + 4) (src + 4) max (put_word m dst (get_word m src)) in
    if leb (dst + 4) max then rest else copied_at dst src m

unfoldable pub copy_tail : ℕ → (dst src max : ℕ) → Bytes → Copied
copy_tail zero dst src max m = copied_at dst src m
copy_tail (suc n) dst src max m =
    let rest = copy_tail n (dst + 1) (src + 1) max (put m dst (m src)) in
    if ltb dst max then rest else copied_at dst src m

unfoldable pub memcpy : ℕ → ℕ → ℕ → Bytes → Bytes
unfolding copy_head copy_words copy_tail
memcpy dst src n m =
    let max = dst + n in
    let a = copy_head n dst src max m in
    let b = copy_words n a.dst_at a.src_at max a.copied in
    if src % 4 == dst % 4
    then (copy_tail n b.dst_at b.src_at max b.copied).copied
    else (copy_tail n dst src max m).copied

-- Strings are read with a bound on their length; `none` is said when it runs out.
unfoldable pub strlen : ℕ → ℕ → Bytes → Option ℕ
strlen zero s m = none
strlen (suc n) s m =
    let rest = strlen n (s + 1) m in if m s == 0 then some 0 else Option.map suc rest

-- `*s == c` compares a `char`, which is signed, with an `int`; `c` is its 32-bit pattern. The cast to
-- `u_int` extends the sign too.
abbrev pub extended : ℕ → ℕ
extended b = if ltb b 128 then b else 4294967040 + b

-- The address of the character, or NULL.
unfoldable pub strchr : ℕ → ℕ → ℕ → Bytes → Option ℕ
strchr zero s c m = none
strchr (suc n) s c m =
    let rest = strchr n (s + 1) c m in
    if m s == 0 then some 0 else if extended (m s) == c then some s else rest

-- The results -1, 0 and 1.
pub data Sign : Type 0 where
  below equal above : Sign

abbrev pub sign_of : ℕ → ℕ → Sign
sign_of a b =
    if ltb (extended a) (extended b)
    then below
    else if ltb (extended b) (extended a)
    then above
    else equal

unfoldable pub strcmp : ℕ → ℕ → ℕ → Bytes → Option Sign
strcmp zero p q m = none
strcmp (suc n) p q m =
    let rest = strcmp n (p + 1) (q + 1) m in
    if not (m p == 0) && (m p == m q) then rest else some (sign_of (m p) (m q))

-- `while ((*dst++ = *src++) != 0)`
unfoldable pub strcpy : ℕ → ℕ → ℕ → Bytes → Option Bytes
strcpy zero dst src m = none
strcpy (suc n) dst src m =
    let m1 = put m dst (m src) in
    let rest = strcpy n (dst + 1) (src + 1) m1 in if m src == 0 then some m1 else rest
