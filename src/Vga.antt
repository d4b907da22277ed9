-- ===== src/Vga.antt =====
-- blue_Os/src/drivers/vga.cpp: the VGA card, mode 320 by 200 with 256 colours. The frame buffer is
-- memory by byte addresses. The loops of `fillRectangle` compare as unsigned numbers, so the
-- number of rounds is the difference of the bound, which wraps, and the start.
pub mod Segment
pub mod Card
pub mod Mode
pub mod Fill
pub mod Shown
mod Tests
use blue_os.Base.{
  ℕ, zero, suc, ◌+◌, ◌-◌, ◌*◌, Bool, true, false, ◌&&◌, ◌||◌, List, [], ◌∷◌, bit_and, bit_or, ltb,
  leb, ◌==◌, if◌then◌else◌, update, get_or,
}
use blue_os.Base.Words.{u32}
use blue_os.Ports.{Device, Io, write8, read8}

-- the port numbers of the constructor
abbrev pub misc_port : ℕ
misc_port = 0x3c2

abbrev pub crtc_index_port : ℕ
crtc_index_port = 0x3d4

abbrev pub crtc_data_port : ℕ
crtc_data_port = 0x3d5

abbrev pub sequencer_index_port : ℕ
sequencer_index_port = 0x3c4

abbrev pub sequencer_data_port : ℕ
sequencer_data_port = 0x3c5

abbrev pub graphics_controller_index_port : ℕ
graphics_controller_index_port = 0x3ce

abbrev pub graphics_controller_data_port : ℕ
graphics_controller_data_port = 0x3cf

abbrev pub attribute_controller_index_port : ℕ
attribute_controller_index_port = 0x3c0

abbrev pub attribute_controller_write_port : ℕ
attribute_controller_write_port = 0x3c0

abbrev pub attribute_controller_reset_port : ℕ
attribute_controller_reset_port = 0x3da

-- `k` registers from `i` on behind an index and a data port, from the table at `from` on
unfoldable pub write_indexed :
    (index_port data_port : ℕ) → (registers : ℕ → ℕ) → (from i k : ℕ) → Io → Io
write_indexed index_port data_port registers from i zero io = io
write_indexed index_port data_port registers from i (suc k) io =
    write_indexed index_port data_port registers (from + 1) (i + 1) k
      (write8 data_port (registers from) (write8 index_port i io))

-- The attribute controller's ports share a flip-flop, which a read resets.
unfoldable pub write_attributes : Device → (registers : ℕ → ℕ) → (from i k : ℕ) → Io → Io
write_attributes dev registers from i zero io = io
write_attributes dev registers from i (suc k) io =
    write_attributes dev registers (from + 1) (i + 1) k (
      write8 attribute_controller_write_port (registers from) (
        write8 attribute_controller_index_port i
          ((read8 dev attribute_controller_reset_port io).1)))

-- `| 0x80` on register 3 and `& ~0x80` on register 0x11 of the card
unfoldable pub unlock_crtc : Device → Io → Io
unlock_crtc dev io =
    let (v, io1) = read8 dev crtc_data_port (write8 crtc_index_port 0x03 io) in
    let io2 = write8 crtc_index_port 0x11 (write8 crtc_data_port (bit_or v 0x80) io1) in
    let (w, io3) = read8 dev crtc_data_port io2 in write8 crtc_data_port (bit_and w 0x7F) io3

-- The same on the table, whose CRTC part begins at 6.
unfoldable pub unlock_table : (ℕ → ℕ) → ℕ → ℕ
unlock_table registers =
    let set : ℕ → ℕ = update registers (6 + 0x03) (bit_or (registers (6 + 0x03)) 0x80) in
    update set (6 + 0x11) (bit_and (set (6 + 0x11)) 0x7F)

unfoldable pub write_registers : Device → (ℕ → ℕ) → Io → Io
unfolding write_indexed write_attributes unlock_crtc unlock_table
write_registers dev registers io =
    let io1 = write8 misc_port (registers 0) io in
    let io2 = write_indexed sequencer_index_port sequencer_data_port registers 1 0 5 io1 in
    let io3 = unlock_crtc dev io2 in
    let table = unlock_table registers in
    let io4 = write_indexed crtc_index_port crtc_data_port table 6 0 25 io3 in
    let io5 =
      write_indexed graphics_controller_index_port graphics_controller_data_port table 31 0 9 io4 in
    let io6 = write_attributes dev table 40 0 21 io5 in
    write8 attribute_controller_index_port 0x20 ((read8 dev attribute_controller_reset_port io6).1)

unfoldable pub supports_mode : (width height colordepth : ℕ) → Bool
supports_mode width height colordepth = width == 320 && height == 200 && colordepth == 8

-- g_320x200x256
abbrev pub mode_table : List ℕ
mode_table =
    0x63 ∷ 0x03 ∷ 0x01 ∷ 0x0F ∷ 0x00 ∷ 0x0E ∷ 0x5F ∷ 0x4F ∷ 0x50 ∷ 0x82 ∷ 0x54 ∷ 0x80 ∷ 0xBF ∷ 0x1F
    ∷ 0x00 ∷ 0x41 ∷ 0x00 ∷ 0x00 ∷ 0x00 ∷ 0x00 ∷ 0x00 ∷ 0x00 ∷ 0x9C ∷ 0x0E ∷ 0x8F ∷ 0x28 ∷ 0x40
    ∷ 0x96 ∷ 0xB9 ∷ 0xA3 ∷ 0xFF ∷ 0x00 ∷ 0x00 ∷ 0x00 ∷ 0x00 ∷ 0x00 ∷ 0x40 ∷ 0x05 ∷ 0x0F ∷ 0xFF
    ∷ 0x00 ∷ 0x01 ∷ 0x02 ∷ 0x03 ∷ 0x04 ∷ 0x05 ∷ 0x06 ∷ 0x07 ∷ 0x08 ∷ 0x09 ∷ 0x0A ∷ 0x0B ∷ 0x0C
    ∷ 0x0D ∷ 0x0E ∷ 0x0F ∷ 0x41 ∷ 0x00 ∷ 0x0F ∷ 0x00 ∷ 0x00 ∷ []

unfoldable pub set_mode : Device → (width height colordepth : ℕ) → Io → Bool × Io
unfolding supports_mode write_registers
set_mode dev width height colordepth io =
    if supports_mode width height colordepth
    then (true, write_registers dev (λ i. get_or mode_table i 0) io)
    else (false, io)

-- the `switch` over the two bits that select the segment
unfoldable pub segment_of : ℕ → ℕ
segment_of value =
    let segment_number : ℕ = bit_and value 12 in
    if segment_number == 4
    then 0xA0000
    else if segment_number == 8
    then 0xB0000
    else if segment_number == 12
    then 0xB8000
    else 0x00000

unfoldable pub get_frame_buffer_segment : Device → Io → ℕ × Io
unfolding segment_of
get_frame_buffer_segment dev io =
    let (value, io1) =
      read8 dev graphics_controller_data_port (write8 graphics_controller_index_port 0x06 io) in
    (segment_of value, io1)

-- The ports, and the memory that the frame buffer is a part of.
pub record Display : Type 0 where
  pub io : Io
  pub memory : ℕ → ℕ

unfoldable pub put_pixel : Device → (x y color_index : ℕ) → Display → Display
put_pixel dev x y color_index d =
    let (segment, io1) = get_frame_buffer_segment dev d.io in
    if leb 320 x || leb 200 y
    then d
    else record { io = io1; memory = update d.memory (segment + 320 * y + x) color_index }

unfoldable pub get_color_index : (r g b : ℕ) → ℕ
get_color_index r g b =
    if r == 0x00 && g == 0x00 && b == 0x00
    then 0x00
    else if r == 0x00 && g == 0x00 && b == 0xA8
    then 0x01
    else if r == 0x00 && g == 0xA8 && b == 0x00
    then 0x02
    else if r == 0xA8 && g == 0x00 && b == 0x00
    then 0x04
    else if r == 0xFF && g == 0xFF && b == 0xFF
    then 0x3F
    else 0x00

unfoldable pub put_pixel_rgb : Device → (x y r g b : ℕ) → Display → Display
unfolding put_pixel get_color_index
put_pixel_rgb dev x y r g b d = put_pixel dev x y (get_color_index r g b) d

-- `k` rounds of the inner loop, from column `x` on, and of the outer one, from row `y` on
unfoldable pub fill_row : Device → (k x y r g b : ℕ) → Display → Display
fill_row dev zero x y r g b d = d
fill_row dev (suc k) x y r g b d = fill_row dev k (x + 1) y r g b (put_pixel_rgb dev x y r g b d)

unfoldable pub fill_rows : Device → (k x y w r g b : ℕ) → Display → Display
unfolding fill_row
fill_rows dev zero x y w r g b d = d
fill_rows dev (suc k) x y w r g b d =
    fill_rows dev k x (y + 1) w r g b (fill_row dev (u32 (x + w) - x) x y r g b d)

unfoldable pub fill_rectangle : Device → (x y w h r g b : ℕ) → Display → Display
unfolding fill_rows
fill_rectangle dev x y w h r g b d = fill_rows dev (u32 (y + h) - y) x y w r g b d
