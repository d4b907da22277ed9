-- ===== src/Mouse.antt =====
-- blue_Os/src/drivers/mouse.cpp: the PS/2 mouse. The position is two `int8_t` that the code keeps
-- from 0 on, so they are natural numbers; the sum or difference before the clamp is an `int8_t` by
-- its byte, negative from 128 on. Cells are those of the text screen.
pub mod Moves
pub mod Cursor
mod Tests
use blue_os.Base.{
  ℕ, zero, suc, ◌+◌, ◌-◌, ◌*◌, ◌%◌, ◌^◌, Bool, true, false, ◌&&◌, bit_and, bit_or, ltb, leb, ◌==◌,
  if◌then◌else◌, update,
}
use blue_os.Base.Words.{u8, u16, ◌<<<◌, ◌>>>◌}
use blue_os.Screen.{Cells}
use blue_os.Ports.{Device, Io, write8, read8}

abbrev pub data_port : ℕ
data_port = 0x60

abbrev pub command_port : ℕ
command_port = 0x64

-- The driver's members, and the static position and cell value of the file.
pub record Mouse : Type 0 where
  pub buffer : ℕ → ℕ
  pub offset : ℕ
  pub button : ℕ
  pub x : ℕ
  pub y : ℕ
  pub under : ℕ

-- the value of a cell below the cursor: the colours swapped
unfoldable pub cursor_cell : ℕ → ℕ
cursor_cell cell = u16 (
    bit_or (bit_or (bit_and cell 0xF000 >>> 4) (bit_and cell 0x0F00 <<< 4))
      (bit_and cell 0x00FF >>> 4))

-- `drawMouseCursor`, which keeps the cell in `data`
unfoldable pub draw_mouse_cursor : Mouse → Cells → Mouse × Cells
unfolding cursor_cell
draw_mouse_cursor m f =
    let cell : ℕ = f (80 * m.y + m.x) in
    (record m { under = cell }, update f (80 * m.y + m.x) (cursor_cell cell))

unfoldable pub clear_mouse_cursor : Mouse → Cells → Cells
clear_mouse_cursor m f = update f (80 * m.y + m.x) (u16 m.under)

-- the two tests of a coordinate below a bound, on an `int8_t` given by its byte
unfoldable pub clamp : (bound value : ℕ) → ℕ
clamp bound value =
    let top : ℕ = if leb bound value && ltb value 128 then bound - 1 else value in
    if leb 128 top then 0 else top

-- `mouseX + buffer[1]` and `mouseY - buffer[2]`
unfoldable pub move : Mouse → Mouse
unfolding clamp
move m = record m {
  x = clamp 80 (u8 (m.x + m.buffer 1));
  y = clamp 25 (u8 (m.y + 256 - m.buffer 2));
}

-- What the third byte of a packet sets off.
unfoldable pub packet : Mouse → Cells → Mouse × Cells
unfolding draw_mouse_cursor clear_mouse_cursor move
packet m f =
    let (m', f') = draw_mouse_cursor (move m) (clear_mouse_cursor m f) in
    (record m' { button = m.buffer 0 }, f')

unfoldable pub take_byte : ℕ → Mouse → Mouse
take_byte byte m = record m {
  buffer = update m.buffer m.offset byte;
  offset = u8 ((m.offset + 1) % 3);
}

unfoldable pub handle_interrupt : Device → (esp : ℕ) → Mouse → Io → ℕ × (Mouse × Io)
unfolding take_byte packet
handle_interrupt dev esp m io =
    let (status, io1) = read8 dev command_port io in
    let (byte, io2) = read8 dev data_port io1 in
    let m2 = take_byte byte m in
    let (m3, cells) = packet m2 io2.screen.cells in
    if bit_and status 0x20 == 0
    then (esp, (m, io1))
    else if m2.offset == 0
    then (esp, (m3, record io2 { screen = record io2.screen { cells = cells } }))
    else (esp, (m2, io2))

unfoldable pub activate : Device → Mouse → Io → Mouse × Io
activate dev m io =
    let (value, io1) =
      read8 dev data_port (write8 command_port 0x20 (write8 command_port 0xA8 io)) in
    let io2 = write8 data_port (bit_or value 2) (write8 command_port 0x60 io1) in
    let io3 = write8 data_port 0xF4 (write8 command_port 0xD4 io2) in
    (record m { offset = 0; button = 0; x = 40; y = 12 }, (read8 dev data_port io3).1)
