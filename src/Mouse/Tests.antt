-- ===== src/Mouse/Tests.antt =====
-- Runs of mouse.cpp, and the theorems at a concrete mouse.
use blue_os.Base.{◌≡◌, refl, [], arith, ◌==◌, if◌then◌else◌}
use blue_os.Screen.{Cells}
use blue_os.Ports.{Device, Io}
use blue_os.Mouse.{Mouse, cursor_cell, move, packet}
use blue_os.Mouse.Moves.{IsValid}
use blue_os.Mouse.Cursor.{IsOver, packet-IsOver}

abbrev grey : Cells
grey _ = 0x0741

abbrev shown : Cells
shown i = if i == 1000 then 0x7004 else 0x0741

-- at column 40 and row 12, before the last byte of a packet
abbrev mouse : Mouse
mouse = record {
  buffer = λ i. if i == 1 then 100 else 0;
  offset = 2;
  button = 0;
  x = 40;
  y = 12;
  under = 0x0741;
}

abbrev start : Io
start = record { trace = []; screen = record { cells = shown; x = 0; y = 0 } }

-- an auxiliary byte is always there, and it is 3
abbrev device : Device
device trace port = if port == 0x64 then 0x21 else 3

mouse-IsValid : IsValid mouse
mouse-IsValid = record { column = omega arith; row = omega arith; part = omega arith }

-- The character `A` below the cursor is shown as another one.
cursor_changes_character : cursor_cell 0x0741 ≡ 0x7004
unfolding cursor_cell
cursor_changes_character = refl

-- 100 columns to the right of column 40 is column 0.
far_right_is_left : (move mouse).x ≡ 0
unfolding move
far_right_is_left = refl

-- three columns to the left
abbrev leftward : Mouse
leftward = record mouse { buffer = λ i. if i == 1 then 253 else 0 }

mouse-IsOver : IsOver grey mouse shown
unfolding cursor_cell
mouse-IsOver = record { below = refl; cells = λ i. refl }

packet-IsOver_example : let (m', f') = packet mouse shown in IsOver grey m' f'
packet-IsOver_example = packet-IsOver grey mouse shown (λ i. omega arith) mouse-IsOver
