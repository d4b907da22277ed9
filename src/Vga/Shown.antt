-- ===== src/Vga/Shown.antt =====
-- What `fillRectangle` of vga.cpp paints on a card on which `SetMode` has set the mode.
use blue_os.Base.{
  ℕ, zero, suc, ◌+◌, ◌^◌, ◌<◌, ◌≡◌, true, refl, ap, ◌∙◌, ◌&&◌, some, List, ◌∷◌, leb, ltb,
  if◌then◌else◌,
}
use blue_os.Base.Words.{u8}
use blue_os.Ports.{PortEvent, written, Device, Io, last_written}
use blue_os.Vga.{
  Display, set_mode, segment_of, get_color_index, fill_rectangle, graphics_controller_index_port,
  graphics_controller_data_port,
}
use blue_os.Vga.Mode.{indexed}
use blue_os.Vga.Segment.{probes, KeepsSegment}
use blue_os.Vga.Fill.{pixel, fill_rectangle-pixel}

-- A card gives back its graphics register 6: the byte that was written to it last.
abbrev pub ReadsBack : Device → Type 0
ReadsBack dev =
    (es : List PortEvent) (v : ℕ)
    → indexed graphics_controller_index_port graphics_controller_data_port 6 es ≡ some v
    → u8 (dev (written 8 0x3CE 0x06 ∷ es) 0x3CF) ≡ u8 v

probes-indexed :
    (k : ℕ) (es : List PortEvent)
    → indexed graphics_controller_index_port graphics_controller_data_port 6 (probes k es)
      ≡ indexed graphics_controller_index_port graphics_controller_data_port 6 es
unfolding probes indexed
probes-indexed zero es = refl
probes-indexed (suc k) es = probes-indexed k _

set_mode-indexed :
    (dev : Device) (io : Io)
    → indexed graphics_controller_index_port graphics_controller_data_port 6
        (set_mode dev 320 200 8 io).1.trace
      ≡ some 0x05
unfolding set_mode indexed last_written
set_mode-indexed dev io = refl

-- With the mode set, the card keeps the segment of the graphics memory.
pub set_mode-KeepsSegment :
    (dev : Device) (io : Io)
    → ReadsBack dev
    → KeepsSegment dev 0xA0000 (set_mode dev 320 200 8 io).1
unfolding KeepsSegment segment_of
set_mode-KeepsSegment dev io back k =
    let es = (set_mode dev 320 200 8 io).1.trace in
    ap segment_of (back (probes k es) 0x05 (probes-indexed k es ∙ set_mode-indexed dev io))

-- On any card that gives back its graphics register 6, in any state, once the one mode that is
-- supported is set, which succeeds, `fillRectangle`, for a rectangle whose ends fit in 32 bits, gives its colour to
-- the pixels of the screen within the rectangle, in the memory at 0xA0000, and to no other.
pub set_mode-fill_rectangle :
    (dev : Device) (x y w h r g b u v : ℕ) (d : Display)
    → ReadsBack dev
    → x + w < 2 ^ 32
    → y + h < 2 ^ 32
    → u < 320
    → v < 200
    → let (ok, io) = set_mode dev 320 200 8 d.io in
      let d' = fill_rectangle dev x y w h r g b (record d { io = io }) in
      (ok ≡ true)
      × (pixel 0xA0000 u v d' ≡ (
          if (leb x u && ltb u (x + w)) && (leb y v && ltb v (y + h))
          then get_color_index r g b
          else pixel 0xA0000 u v d))
set_mode-fill_rectangle dev x y w h r g b u v d back right bottom a e =
    let io = (set_mode dev 320 200 8 d.io).1 in
    (
      unfold set_mode in refl,
      fill_rectangle-pixel dev 0xA0000 x y w h r g b u v (record d { io = io })
          (set_mode-KeepsSegment dev d.io back) right bottom a e,
    )
