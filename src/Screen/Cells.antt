-- ===== src/Screen/Cells.antt =====
-- What `print` of print.cpp writes into a cell, and what its loops make of the whole screen.
use blue_os.Base.{
  ℕ, zero, suc, ◌+◌, ◌*◌, ◌/◌, ◌%◌, ◌^◌, ◌-◌, refl, ◌<◌, ◌≡◌, ◌≢◌, ◌&&◌, bit_and, bit_or, arith,
  ltb, leb, lt→ltb, if◌then◌else◌, update, ap,
}
use blue_os.Base.Bits.{bit_or-fields}
use blue_os.Base.Words.{u16, and_0xff00}
use blue_os.Screen.{Cells, widen, write_cell, put_char_at, clear_row, clear_rows, clear_screen}

-- a cell with its attribute kept and its character replaced
abbrev pub with_char : ℕ → ℕ → ℕ
with_char cell c = cell / 256 % 256 * 256 + c

pub write_cell-ascii :
    (i c : ℕ) (f : Cells) → c < 128 → write_cell i c f ≡ update f i (with_char (f i) c)
unfolding write_cell
write_cell-ascii i c f h =
    let masked = and_0xff00 (f i) in
    let joined = bit_or-fields 8 (f i / 256 % 256) c (omega arith) in
    let value : u16 (bit_or (bit_and (f i) 0xff00) (widen c)) ≡ with_char (f i) c =
      rw (lt→ltb c 128 h, masked, joined) (omega arith) in
    ap (update f i) value

-- On the screen and with an ASCII character, `putCharAt` writes that one cell: the colour above the
-- character.
put_char_at-ascii :
    (x y c color : ℕ) (f : Cells)
    → x < 80
    → y < 25
    → c < 128
    → color < 256
    → put_char_at x y c color f ≡ update f (80 * y + x) (color * 256 + c)
unfolding put_char_at
put_char_at-ascii x y c color f a b h k =
    let joined = bit_or-fields 8 color c (omega arith) in
    let value : u16 (bit_or (color * 2 ^ 8) (widen c)) ≡ color * 256 + c =
      rw (lt→ltb c 128 h, joined) (omega arith) in
    let left : (if ltb x 128 then x else 2 ^ 31 - 256 + x) ≡ x =
      rw (lt→ltb x 128 (omega arith)) refl in
    let down : (if ltb y 128 then y else 2 ^ 31 - 256 + y) ≡ y =
      rw (lt→ltb y 128 (omega arith)) refl in
    let place : (80 * y + x) % 2 ^ 31 ≡ 80 * y + x = omega arith in
    rw (left, down, place, value) refl

pub write_cell-other : (i c j : ℕ) (f : Cells) → j ≢ i → write_cell i c f j ≡ f j
unfolding write_cell
write_cell-other i c j f h = ground arith

pub clear_row_lem :
    (k x y : ℕ) (f : Cells) (i : ℕ)
    → clear_row k x y f i
      ≡ (if leb (80 * y + x) i && ltb i (80 * y + x + k) then with_char (f i) b' ' else f i)
unfolding clear_row
clear_row_lem zero x y f i = ground arith
clear_row_lem (suc k) x y f i =
    let first = write_cell-ascii (80 * y + x) b' ' f (omega arith) in
    rw (clear_row_lem k (x + 1) y (write_cell (80 * y + x) b' ' f) i, first) (ground arith)

pub clear_rows_lem :
    (k y : ℕ) (f : Cells) (i : ℕ)
    → clear_rows k y f i
      ≡ (if leb (80 * y) i && ltb i (80 * y + 80 * k) then with_char (f i) b' ' else f i)
unfolding clear_rows
clear_rows_lem zero y f i = ground arith
clear_rows_lem (suc k) y f i =
    rw (clear_rows_lem k (y + 1) (clear_row 80 0 y f) i, clear_row_lem 80 0 y f i) (ground arith)

-- Every cell of the screen becomes blank and keeps its attribute; no other cell changes.
pub clear_screen_lem :
    (f : Cells) (i : ℕ) → clear_screen f i ≡ (if ltb i 2000 then with_char (f i) b' ' else f i)
unfolding clear_screen
clear_screen_lem f i = rw (clear_rows_lem 25 0 f i) (ground arith)
