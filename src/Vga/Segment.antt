-- ===== src/Vga/Segment.antt =====
-- The segment of the frame buffer, for which vga.cpp asks the card at each pixel.
use blue_os.Base.{ℕ, zero, suc, ◌+◌, ◌-◌, ◌≡◌, ◌||◌, List, ◌∷◌, leb, Bool-cases, inl, inr}
use blue_os.Base.Words.{u8, u32}
use blue_os.Ports.{PortEvent, written, was_read, Device, Io}
use blue_os.Vga.{
  Display, segment_of, get_frame_buffer_segment, put_pixel, get_color_index, put_pixel_rgb,
  fill_row, fill_rows, fill_rectangle,
}

-- The trace when the segment has been asked for `k` times more.
unfoldable pub probes : (k : ℕ) → List PortEvent → List PortEvent
probes zero es = es
probes (suc k) es = probes k (was_read 8 0x3CF ∷ written 8 0x3CE 0x06 ∷ es)

-- From some state on, the card keeps its segment: it answers with the same two bits however often
-- it is asked.
unfoldable pub KeepsSegment : Device → ℕ → Io → Type 0
KeepsSegment dev seg io =
    (k : ℕ) → segment_of (u8 (dev (written 8 0x3CE 0x06 ∷ probes k io.trace) 0x3CF)) ≡ seg

pub segment-seg :
    (dev : Device) (seg : ℕ) (io : Io)
    → KeepsSegment dev seg io
    → (get_frame_buffer_segment dev io).0 ≡ seg
unfolding KeepsSegment get_frame_buffer_segment probes
segment-seg dev seg io keeps = keeps 0

pub put_pixel-KeepsSegment :
    (dev : Device) (seg x y c : ℕ) (d : Display)
    → KeepsSegment dev seg d.io
    → KeepsSegment dev seg (put_pixel dev x y c d).io
unfolding put_pixel KeepsSegment get_frame_buffer_segment probes
put_pixel-KeepsSegment dev seg x y c d keeps = elim (Bool-cases (leb 320 x || leb 200 y)) [
  | inl out ↦ rw out keeps
  | inr on ↦ rw on (λ k. keeps (suc k))
]

pub put_pixel_rgb-KeepsSegment :
    (dev : Device) (seg x y r g b : ℕ) (d : Display)
    → KeepsSegment dev seg d.io
    → KeepsSegment dev seg (put_pixel_rgb dev x y r g b d).io
unfolding put_pixel_rgb
put_pixel_rgb-KeepsSegment dev seg x y r g b d keeps =
    put_pixel-KeepsSegment dev seg x y (get_color_index r g b) d keeps

pub fill_row-KeepsSegment :
    (dev : Device) (seg k x y r g b : ℕ) (d : Display)
    → KeepsSegment dev seg d.io
    → KeepsSegment dev seg (fill_row dev k x y r g b d).io
unfolding fill_row
fill_row-KeepsSegment dev seg zero x y r g b d keeps = keeps
fill_row-KeepsSegment dev seg (suc k) x y r g b d keeps =
    fill_row-KeepsSegment dev seg k (x + 1) y r g b (put_pixel_rgb dev x y r g b d)
      (put_pixel_rgb-KeepsSegment dev seg x y r g b d keeps)

fill_rows-KeepsSegment :
    (dev : Device) (seg k x y w r g b : ℕ) (d : Display)
    → KeepsSegment dev seg d.io
    → KeepsSegment dev seg (fill_rows dev k x y w r g b d).io
unfolding fill_rows
fill_rows-KeepsSegment dev seg zero x y w r g b d keeps = keeps
fill_rows-KeepsSegment dev seg (suc k) x y w r g b d keeps =
    fill_rows-KeepsSegment dev seg k x (y + 1) w r g b (fill_row dev (u32 (x + w) - x) x y r g b d)
      (fill_row-KeepsSegment dev seg (u32 (x + w) - x) x y r g b d keeps)

pub fill_rectangle-KeepsSegment :
    (dev : Device) (seg x y w h r g b : ℕ) (d : Display)
    → KeepsSegment dev seg d.io
    → KeepsSegment dev seg (fill_rectangle dev x y w h r g b d).io
unfolding fill_rectangle
fill_rectangle-KeepsSegment dev seg x y w h r g b d keeps =
    fill_rows-KeepsSegment dev seg (u32 (y + h) - y) x y w r g b d keeps
