-- ===== src/Tests/Printing.antt =====
-- Numbers and formats, printed.
use os_lab5_challenge.Base.{ℕ, ◌≡◌, refl, true, false, arith, List, [], ◌∷◌, ◌++◌}
use os_lab5_challenge.Str.{Bytes}
use os_lab5_challenge.Print.{
  print_num, Arg, word, string, Printed, printed, unfinished, emit, emit_converted, convert,
  vprintfmt,
}
use os_lab5_challenge.Print.Fields.{laid_out, HasNoSpareZero, print_num_lem}
use os_lab5_challenge.Print.Number.{number}
use os_lab5_challenge.Print.Case.{AreCased}
use os_lab5_challenge.Print.Directive.{minus, written}
use os_lab5_challenge.Print.Conversion.{followed, Prints, number_of, decimal, vprintfmt-written}

abbrev stack : Bytes
stack = λ _. 7

minus_ff :
    print_num stack 255 16 true 6 false b'0' true ≡ b'-' ∷ b'0' ∷ b'0' ∷ b'0' ∷ b'F' ∷ b'F' ∷ []
unfolding print_num
minus_ff = refl

print_num_example :
    (ds : List ℕ) × (print_num stack 255 16 true 6 false b'0' true ≡ laid_out true 6 false b'0' ds)
    × (number 16 0 ds ≡ 255)
    × HasNoSpareZero ds
    × AreCased true ds
print_num_example = print_num_lem stack 255 16 true 6 false b'0' true (omega arith) (omega arith)

abbrev greeting : List ℕ
greeting = b'%' ∷ b'd' ∷ b'!' ∷ b'%' ∷ []

greeting_printed :
    vprintfmt 5 stack greeting (word 0xffff_fffe ∷ [])
    ≡ printed ((b'-' ∷ b'2' ∷ []) ∷ (b'!' ∷ []) ∷ [])
unfolding vprintfmt print_num
greeting_printed = refl

-- `p%-12ld` before `!`
written_example :
    (o : List (List ℕ)) × Prints true 12 b' ' b'd' (word 0xffff_fffe) o
    × (vprintfmt 9 stack
          ((b'p' ∷ []) ++ written minus (b'1' ∷ b'2' ∷ []) true b'd' (b'!' ∷ []))
          (word 0xffff_fffe ∷ [])
        ≡ followed ((b'p' ∷ []) ∷ []) (followed o (vprintfmt 8 stack (b'!' ∷ []) [])))
unfolding os_lab5_challenge.Print.Directive.AreDigits os_lab5_challenge.Print.Directive.HasNoPercent
written_example =
    vprintfmt-written 8 stack (b'p' ∷ []) minus (b'1' ∷ b'2' ∷ []) true b'd' (word 0xffff_fffe)
      (b'!' ∷ []) [] (omega arith, tt) (refl, (refl, tt)) tt (omega arith)
      (number_of decimal 0xffff_fffe)
