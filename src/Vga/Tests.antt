-- ===== src/Vga/Tests.antt =====
-- Runs of vga.cpp, and the theorems at a concrete card.
use blue_os.Base.{
  ◌⊎◌, ◌≢◌, false, ℕ, ◌+◌, ◌≡◌, refl, true, none, some, [], arith, ltb, leb, ◌&&◌, if◌then◌else◌,
}
use blue_os.Ports.{Device}
use blue_os.Vga.{
  Display, get_color_index, set_mode, fill_rectangle, graphics_controller_index_port,
  graphics_controller_data_port,
}
use blue_os.Vga.Mode.{indexed, Holds, set_mode-registers}
use blue_os.Vga.Card.{Bank}
use blue_os.Vga.Fill.{pixel}
use blue_os.Vga.Shown.{ReadsBack, set_mode-fill_rectangle}

-- a card that always answers 5, as in the mode of 320 by 200
abbrev card : Device
card _ _ = 0x05

abbrev dark : Display
dark = record {
  io = record { trace = []; screen = record { cells = λ _. 0x0720; x = 0; y = 0 } };
  memory = λ _. 0;
}

-- registers that are all 0xFF, so that those of the CRT controller are protected
abbrev full : Bank
full = record { index = 0; register = λ _. 0xFF }

abbrev width : ℕ
width = 320

abbrev height : ℕ
height = 200

abbrev depth : ℕ
depth = 8

set_mode-registers_example :
    let (ok, out) = set_mode card width height depth dark.io in
    ((width ≡ 320) × (height ≡ 200) × (depth ≡ 8) × (ok ≡ true) × Holds full out.trace)
    ⊎ (((width ≢ 320) ⊎ ((height ≢ 200) ⊎ (depth ≢ 8))) × (ok ≡ false) × (out ≡ dark.io))
set_mode-registers_example = set_mode-registers card width height depth dark.io full

-- a card that answers with its graphics register 6
abbrev reading : Device
reading es port = elim (indexed graphics_controller_index_port graphics_controller_data_port 6 es) [
  | none ↦ 0
  | some v ↦ v
]

reading-ReadsBack : ReadsBack reading
unfolding indexed
reading-ReadsBack es v e = rw e refl

set_mode-fill_rectangle_example :
    let (ok, io) = set_mode reading 320 200 8 dark.io in
    let d' = fill_rectangle reading 10 20 30 40 0x00 0x00 0xA8 (record dark { io = io }) in
    (ok ≡ true)
    × (pixel 0xA0000 11 21 d' ≡ (
        if (leb 10 11 && ltb 11 (10 + 30)) && (leb 20 21 && ltb 21 (20 + 40))
        then get_color_index 0x00 0x00 0xA8
        else pixel 0xA0000 11 21 dark))
set_mode-fill_rectangle_example =
    set_mode-fill_rectangle reading 10 20 30 40 0x00 0x00 0xA8 11 21 dark reading-ReadsBack
      (omega arith) (omega arith) (omega arith) (omega arith)
