-- ===== src/Screen.antt =====
-- blue_Os/src/common/print.cpp: text on the 80 by 25 VGA text screen, and numbers as text.
-- A cell is a `uint16_t`, the character below the attribute; the cell of column `x` and row `y` is
-- number `80 * y + x` of the memory at 0xb8000. Characters are bytes; `char` is signed.
pub mod Cells
pub mod Cursor
pub mod Line
pub mod Numbers
pub mod Strings
mod Tests
use blue_os.Base.{
  ℕ, zero, suc, ◌+◌, ◌*◌, ◌/◌, ◌%◌, ◌^◌, ◌-◌, Bool, true, false, Option, none, some, List, [], ◌∷◌,
  bit_and, bit_or, ltb, leb, ◌==◌, if◌then◌else◌, update, get_or,
}
use blue_os.Base.Words.{u8, u16, ◌<<<◌, ◌>>>◌}

abbrev pub Cells : Type 0
Cells = ℕ → ℕ

-- The screen with the static cursor of `print`, two `uint8_t`.
pub record Screen : Type 0 where
  pub cells : Cells
  pub x : ℕ
  pub y : ℕ

-- A `char` as it is widened to `int`, in its 16 lower bits.
abbrev pub widen : ℕ → ℕ
widen c = if ltb c 128 then c else 0xff00 + c

-- `VideoMemory[i] = (VideoMemory[i] & 0xFF00) | c;`
unfoldable pub write_cell : ℕ → ℕ → Cells → Cells
write_cell i c f = update f i (u16 (bit_or (bit_and (f i) 0xff00) (widen c)))

-- The loops that clear the screen: `k` columns of row `y` from `x` on, and `k` rows from `y` on.
unfoldable pub clear_row : (k x y : ℕ) → Cells → Cells
clear_row zero x y f = f
clear_row (suc k) x y f = clear_row k (x + 1) y (write_cell (80 * y + x) b' ' f)

unfoldable pub clear_rows : (k y : ℕ) → Cells → Cells
unfolding clear_row
clear_rows zero y f = f
clear_rows (suc k) y f = clear_rows k (y + 1) (clear_row 80 0 y f)

-- The `switch` of `print` on one character.
unfoldable pub put : ℕ → Screen → Screen
put c s =
    if c == b'\n'
    then record s { x = 0; y = u8 (s.y + 1) }
    else record s { cells = write_cell (80 * s.y + s.x) c s.cells; x = u8 (s.x + 1) }

unfoldable pub wrap : Screen → Screen
wrap s = if leb 80 s.x then record s { x = 0; y = u8 (s.y + 1) } else s

unfoldable pub clear_screen : Cells → Cells
unfolding clear_rows
clear_screen f = clear_rows 25 0 f

unfoldable pub scroll : Screen → Screen
scroll s = if leb 25 s.y then record { cells = clear_screen s.cells; x = 0; y = 0 } else s

unfoldable pub print_char : ℕ → Screen → Screen
unfolding put wrap scroll
print_char c s = scroll (wrap (put c s))

-- The string ends at its first zero, or where the list does.
unfoldable pub print : List ℕ → Screen → Screen
print [] s = s
print (c ∷ cs) s = if c == 0 then s else print cs (print_char c s)

-- An `int8_t` as the number of a cell behind 0xb8000, modulo the 2^31 cells that there are.
abbrev cells_of : ℕ → ℕ
cells_of byte = if ltb byte 128 then byte else 2 ^ 31 - 256 + byte

-- The coordinates and the colour are bytes; the attribute and the character are put together with
-- their signs.
unfoldable pub put_char_at : (x y c color : ℕ) → Cells → Cells
put_char_at x y c color f =
    update f ((80 * cells_of y + cells_of x) % 2 ^ 31) (u16 (bit_or (color <<< 8) (widen c)))

-- "0123456789ABCDEF"[d]
unfoldable pub hex_digit : ℕ → ℕ
hex_digit d =
    get_or
      (b'0' ∷ b'1' ∷ b'2' ∷ b'3' ∷ b'4' ∷ b'5' ∷ b'6' ∷ b'7' ∷ b'8' ∷ b'9' ∷ b'A' ∷ b'B' ∷ b'C'
        ∷ b'D' ∷ b'E' ∷ b'F' ∷ [])
      d 0

-- the texts that `print_hex` and `print_hex32` fill in
unfoldable pub hex8 : ℕ → List ℕ
unfolding hex_digit
hex8 key = hex_digit (bit_and (key >>> 4) 0x0f) ∷ hex_digit (bit_and key 0x0f) ∷ []

unfoldable pub hex32 : ℕ → List ℕ
unfolding hex_digit
hex32 key =
    hex_digit (bit_and (key >>> 28) 0x0f)
    ∷ hex_digit (bit_and (key >>> 24) 0x0f)
    ∷ hex_digit (bit_and (key >>> 20) 0x0f)
    ∷ hex_digit (bit_and (key >>> 16) 0x0f)
    ∷ hex_digit (bit_and (key >>> 12) 0x0f)
    ∷ hex_digit (bit_and (key >>> 8) 0x0f)
    ∷ hex_digit (bit_and (key >>> 4) 0x0f)
    ∷ hex_digit (bit_and key 0x0f)
    ∷ []

unfoldable pub print_hex : ℕ → Screen → Screen
unfolding hex8 print
print_hex key s = print (hex8 key) s

unfoldable pub print_hex32 : ℕ → Screen → Screen
unfolding hex32 print
print_hex32 key s = print (hex32 key) s

-- The loop of `print_dec` that fills its buffer; `none` means that the fuel ran out. The buffer's
-- last character stands first, as the second loop prints it.
unfoldable pub dec_loop : (fuel num : ℕ) → List ℕ → Option (List ℕ)
dec_loop zero num buf = none
dec_loop (suc fuel) num buf =
    let rest = dec_loop fuel (num / 10) ((b'0' + num % 10) ∷ buf) in
    if num == 0 then some buf else rest

-- The second loop prints a string of one character at a time.
unfoldable pub print_each : List ℕ → Screen → Screen
unfolding print
print_each [] s = s
print_each (c ∷ cs) s = print_each cs (print (c ∷ []) s)

-- A `uint32_t` has at most ten digits, so eleven rounds are enough.
unfoldable pub print_dec : ℕ → Screen → Option Screen
print_dec num s =
    if num == 0
    then some (print (b'0' ∷ []) s)
    else elim (dec_loop 11 num []) [ none ↦ none | some buf ↦ some (print_each buf s) ]
