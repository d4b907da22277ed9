-- ===== src/Screen/Numbers.antt =====
-- The numbers that `print_hex`, `print_hex32` and `print_dec` of print.cpp write out.
use native.Mathlib.Nat.{pow-suc}
use blue_os.Base.{
  ℕ, zero, suc, ◌+◌, ◌-◌, ◌*◌, ◌/◌, ◌%◌, ◌^◌, ◌<◌, ◌≤◌, ◌≡◌, ◌≢◌, refl, Bool, true, some, List, [],
  ◌∷◌, bit_and, arith, leb, ◌==◌, ==_iff, ==_ne, all_below, all_below-at, if◌then◌else◌, length,
  Bool-cases, inl, inr, ap, ◌∙◌,
}
use blue_os.Base.Words.{◌>>>◌, and_0x0f}
use blue_os.Screen.{
  Screen, hex_digit, hex8, hex32, dec_loop, print_each, print_dec, print, print_char,
}

-- the value of a hexadecimal digit, upper case
abbrev pub hex_value : ℕ → ℕ
hex_value c = if leb b'A' c then c - 55 else c - 48

-- the number that a text of hexadecimal digits stands for, after `n`
abbrev pub read_hex : ℕ → List ℕ → ℕ
read_hex n [] = n
read_hex n (c ∷ cs) = read_hex (16 * n + hex_value c) cs

hex_table : all_below 16 (λ d. hex_value (hex_digit d) == d) ≡ true
unfolding all_below hex_digit
hex_table = refl

hex_value-hex_digit : (d : ℕ) → d < 16 → hex_value (hex_digit d) ≡ d
hex_value-hex_digit d h =
    (==_iff (hex_value (hex_digit d)) d).0
      (all_below-at 16 (λ d. hex_value (hex_digit d) == d) d hex_table h)

hex_value-nibble : (k : ℕ) → hex_value (hex_digit (bit_and k 0x0f)) ≡ k % 16
hex_value-nibble k = rw (and_0x0f k) (hex_value-hex_digit (k % 16) (omega arith))

-- `print_hex` writes the two digits of a byte.
pub read_hex-hex8 : (key : ℕ) → key < 2 ^ 8 → read_hex 0 (hex8 key) ≡ key
unfolding hex8
read_hex-hex8 key h = rw (hex_value-nibble (key >>> 4), hex_value-nibble key) (omega arith)

-- print_hex32 writes digits that stand for the 32-bit number it is given.
read_hex-hex32 : (key : ℕ) → key < 2 ^ 32 → read_hex 0 (hex32 key) ≡ key
unfolding hex32
read_hex-hex32 key h = simp hex_value-nibble (omega arith)

-- the number that a text of decimal digits stands for, after `n`
abbrev pub read_dec : ℕ → List ℕ → ℕ
read_dec n [] = n
read_dec n (c ∷ cs) = read_dec (10 * n + (c - b'0')) cs

abbrev pub AllDigits : List ℕ → Type 0
AllDigits [] = Unit {0}
AllDigits (c ∷ cs) = (b'0' ≤ c) × (c ≤ b'9') × AllDigits cs

-- A number below 10 ^ fuel is written out in as many digits at most, before those in the buffer.
dec_loop-digits :
    (fuel num : ℕ) (buf : List ℕ)
    → num < 10 ^ fuel
    → AllDigits buf
    → (ds : List ℕ) × (dec_loop (suc fuel) num buf ≡ some ds)
      × (read_dec 0 ds ≡ read_dec num buf)
      × (length ds ≤ fuel + length buf)
      × AllDigits ds
unfolding dec_loop
dec_loop-digits zero num buf h d =
    let z : num ≡ 0 = omega arith in rw z (buf, refl, refl, omega arith, d)
dec_loop-digits (suc fuel) num buf h d = elim (Bool-cases (num == 0)) [
  | inl e ↦ (let z : num ≡ 0 = (==_iff num 0).0 e in rw z (buf, refl, refl, omega arith, d))
  | inr e ↦
      (let (ds, out, value, few, digits) =
          dec_loop-digits fuel (num / 10) ((b'0' + num % 10) ∷ buf) (omega (arith, pow-suc 10 fuel))
            (omega arith, omega arith, d) in
        (
          ds,
          ap
                (λ (b : Bool).
                  if b then some buf else dec_loop (suc fuel) (num / 10) ((b'0' + num % 10) ∷ buf))
                e
              ∙ out,
          value ∙ ap (λ (n : ℕ). read_dec n buf) (omega arith),
          omega (arith, few),
          digits,
        ))
]

-- Every 32-bit number other than 0 is written out: the fuel is enough, the text has at most ten
-- characters, they are digits, and they stand for the number.
pub print_dec-digits :
    (num : ℕ) (s : Screen)
    → num < 2 ^ 32
    → num ≢ 0
    → (ds : List ℕ) × (print_dec num s ≡ some (print_each ds s))
      × (read_dec 0 ds ≡ num)
      × (length ds ≤ 10)
      × AllDigits ds
unfolding print_dec
print_dec-digits num s h ne =
    let (ds, out, value, few, digits) = dec_loop-digits 10 num [] (omega arith) tt in
    (ds, rw (==_ne num 0 ne, out), value, few, digits)

-- One character at a time or all at once, the digits appear the same.
pub print_each-print : (ds : List ℕ) (s : Screen) → AllDigits ds → print_each ds s ≡ print ds s
unfolding print_each print
print_each-print [] s d = refl
print_each-print (c ∷ cs) s d =
    rw (==_ne c 0 (omega arith)) (print_each-print cs (print_char c s) d.2)
