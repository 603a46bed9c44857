-- ===== src/Tests/Strings.antt =====
-- The string functions on two small texts.
use os_lab5_challenge.Base.{◌≡◌, refl, inr, arith, ◌==◌, if◌then◌else◌, [], ◌∷◌}
use os_lab5_challenge.Str.{Bytes, memset, memcpy}
use os_lab5_challenge.Str.Fill.{memset_lem}
use os_lab5_challenge.Str.Places.{AreBytes}
use os_lab5_challenge.Str.Copy.{memcpy_lem}
use os_lab5_challenge.Str.Text.{IsText}

-- "ab" at 101 and "aé" in Latin-1 at 200.
abbrev store : Bytes
store x =
    if x == 101
    then 97
    else if x == 102
    then 98
    else if x == 200
    then 97
    else if x == 201
    then 233
    else 0

store-AreBytes : AreBytes store
store-AreBytes x = ground arith

first-IsText : IsText store 101 (97 ∷ 98 ∷ [])
first-IsText =
    (refl, (λ h. omega (arith, h)), omega arith, (refl, (λ h. omega (arith, h)), omega arith, refl))

second-IsText : IsText store 200 (97 ∷ 233 ∷ [])
second-IsText =
    (refl, (λ h. omega (arith, h)), omega arith, (refl, (λ h. omega (arith, h)), omega arith, refl))

memset_example : memset 101 511 7 store 105 ≡ 255
memset_example = memset_lem 101 511 7 store 105

memcpy_example : memcpy 301 101 6 store 302 ≡ 98
memcpy_example = memcpy_lem 301 101 6 store store-AreBytes (inr (omega arith)) 302
