-- ===== src/Screen/Tests.antt =====
-- Runs of `print` of print.cpp, and the theorems at a concrete screen.
use blue_os.Base.{ℕ, ◌≤◌, ◌≡◌, refl, some, List, [], ◌∷◌, arith, length}
use blue_os.Screen.{Screen, hex32, print_char, print, print_dec, print_each, write_cell}
use blue_os.Screen.Cursor.{IsOnScreen, print-inside}
use blue_os.Screen.Line.{AllPlain, Shows, print-Shows}
use blue_os.Screen.Numbers.{read_dec, AllDigits, print_dec-digits}

-- grey on black, the cursor in column 70 of row 3
abbrev screen : Screen
screen = record { cells = λ _. 0x0720; x = 70; y = 3 }

abbrev bottom : Screen
bottom = record { cells = λ _. 0x0720; x = 79; y = 24 }

abbrev ok_text : List ℕ
ok_text = b'O' ∷ b'K' ∷ []

screen-IsOnScreen : IsOnScreen screen
screen-IsOnScreen = omega arith

ok_text-AllPlain : AllPlain ok_text
ok_text-AllPlain = ground arith

prints_ok : (print ok_text screen).cells 311 ≡ 0x074b
unfolding print print_char write_cell
prints_ok = refl

hex_of_word : hex32 0x2BADB002 ≡ b'2' ∷ b'B' ∷ b'A' ∷ b'D' ∷ b'B' ∷ b'0' ∷ b'0' ∷ b'2' ∷ []
unfolding hex32
hex_of_word = refl

-- A byte above 127 is a negative `char`, and sets the whole attribute.
high_byte_sets_attribute : (print_char 0xE9 screen).cells 310 ≡ 0xffe9
unfolding print_char write_cell
high_byte_sets_attribute = refl

print-inside_example : (print ok_text screen).cells 2000 ≡ 0x0720
print-inside_example = print-inside ok_text screen 2000 screen-IsOnScreen (omega arith)

print-Shows_example : Shows ok_text screen (print ok_text screen)
print-Shows_example = print-Shows ok_text screen ok_text-AllPlain (omega arith) (omega arith)

print_dec-digits_example :
    (ds : List ℕ) × (print_dec 10240 screen ≡ some (print_each ds screen))
    × (read_dec 0 ds ≡ 10240)
    × (length ds ≤ 10)
    × AllDigits ds
print_dec-digits_example = print_dec-digits 10240 screen (omega arith) (omega arith)
