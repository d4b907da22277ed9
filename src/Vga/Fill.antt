-- ===== src/Vga/Fill.antt =====
-- The pixels that `PutPixel` and `fillRectangle` of vga.cpp change.
use blue_os.Base.{
  ℕ, zero, suc, ◌+◌, ◌-◌, ◌*◌, ◌^◌, ◌<◌, ◌≤◌, ◌≡◌, ◌⊎◌, refl, ◌∙◌, ◌&&◌, arith, ltb, leb, ◌==◌,
  if◌then◌else◌,
}
use blue_os.Base.Words.{u32}
use blue_os.Ports.{Device}
use blue_os.Vga.Segment.{
  KeepsSegment, segment-seg, put_pixel_rgb-KeepsSegment, fill_row-KeepsSegment,
}
use blue_os.Vga.{
  Display, put_pixel, get_color_index, put_pixel_rgb, fill_row, fill_rows, fill_rectangle,
}

-- the pixel of column `u` and row `v`
abbrev pub pixel : (seg u v : ℕ) → Display → ℕ
pixel seg u v d = d.memory (seg + 320 * v + u)

-- One pixel changes, or none if the place is not on the screen.
pub put_pixel-pixel :
    (dev : Device) (seg x y c u v : ℕ) (d : Display)
    → KeepsSegment dev seg d.io
    → u < 320
    → v < 200
    → pixel seg u v (put_pixel dev x y c d) ≡ (if x == u && y == v then c else pixel seg u v d)
unfolding put_pixel
put_pixel-pixel dev seg x y c u v d keeps a b = rw (segment-seg dev seg d.io keeps) (ground arith)

put_pixel-outside :
    (dev : Device) (seg x y c p : ℕ) (d : Display)
    → KeepsSegment dev seg d.io
    → (p < seg) ⊎ (seg + 64000 ≤ p)
    → (put_pixel dev x y c d).memory p ≡ d.memory p
unfolding put_pixel
put_pixel-outside dev seg x y c p d keeps o = rw (segment-seg dev seg d.io keeps) (ground arith)

fill_row-pixel :
    (dev : Device) (seg k x y r g b u v : ℕ) (d : Display)
    → KeepsSegment dev seg d.io
    → u < 320
    → v < 200
    → pixel seg u v (fill_row dev k x y r g b d)
      ≡ (if (leb x u && ltb u (x + k)) && y == v then get_color_index r g b else pixel seg u v d)
unfolding fill_row put_pixel_rgb
fill_row-pixel dev seg zero x y r g b u v d keeps a e = ground arith
fill_row-pixel dev seg (suc k) x y r g b u v d keeps a e =
    let c : ℕ = get_color_index r g b in
    rw
      (
        fill_row-pixel dev seg k (x + 1) y r g b u v (put_pixel_rgb dev x y r g b d)
            (put_pixel_rgb-KeepsSegment dev seg x y r g b d keeps) a e,
        put_pixel-pixel dev seg x y c u v d keeps a e,
      )
      (ground arith)

fill_rows-pixel :
    (dev : Device) (seg k x y w r g b u v : ℕ) (d : Display)
    → KeepsSegment dev seg d.io
    → u < 320
    → v < 200
    → x + w < 2 ^ 32
    → pixel seg u v (fill_rows dev k x y w r g b d) ≡ (
        if (leb x u && ltb u (x + w)) && (leb y v && ltb v (y + k))
        then get_color_index r g b
        else pixel seg u v d)
unfolding fill_rows
fill_rows-pixel dev seg zero x y w r g b u v d keeps a e s = ground arith
fill_rows-pixel dev seg (suc k) x y w r g b u v d keeps a e s =
    let width : u32 (x + w) - x ≡ w = omega arith in
    rw
      (
        fill_rows-pixel dev seg k x (y + 1) w r g b u v (fill_row dev (u32 (x + w) - x) x y r g b d)
            (fill_row-KeepsSegment dev seg (u32 (x + w) - x) x y r g b d keeps) a e s,
        width,
        fill_row-pixel dev seg w x y r g b u v d keeps a e,
      )
      (ground arith)

fill_row-outside :
    (dev : Device) (seg k x y r g b p : ℕ) (d : Display)
    → KeepsSegment dev seg d.io
    → (p < seg) ⊎ (seg + 64000 ≤ p)
    → (fill_row dev k x y r g b d).memory p ≡ d.memory p
unfolding fill_row put_pixel_rgb
fill_row-outside dev seg zero x y r g b p d keeps o = refl
fill_row-outside dev seg (suc k) x y r g b p d keeps o =
    fill_row-outside dev seg k (x + 1) y r g b p (put_pixel_rgb dev x y r g b d)
      (put_pixel_rgb-KeepsSegment dev seg x y r g b d keeps) o
    ∙ put_pixel-outside dev seg x y (get_color_index r g b) p d keeps o

fill_rows-outside :
    (dev : Device) (seg k x y w r g b p : ℕ) (d : Display)
    → KeepsSegment dev seg d.io
    → (p < seg) ⊎ (seg + 64000 ≤ p)
    → (fill_rows dev k x y w r g b d).memory p ≡ d.memory p
unfolding fill_rows
fill_rows-outside dev seg zero x y w r g b p d keeps o = refl
fill_rows-outside dev seg (suc k) x y w r g b p d keeps o =
    fill_rows-outside dev seg k x (y + 1) w r g b p (fill_row dev (u32 (x + w) - x) x y r g b d)
      (fill_row-KeepsSegment dev seg (u32 (x + w) - x) x y r g b d keeps) o
    ∙ fill_row-outside dev seg (u32 (x + w) - x) x y r g b p d keeps o

-- On a card that keeps its segment, `fillRectangle`, for a rectangle whose ends fit in 32 bits,
-- gives its colour to the pixels of the screen within the rectangle and to no other.
pub fill_rectangle-pixel :
    (dev : Device) (seg x y w h r g b u v : ℕ) (d : Display)
    → KeepsSegment dev seg d.io
    → x + w < 2 ^ 32
    → y + h < 2 ^ 32
    → u < 320
    → v < 200
    → pixel seg u v (fill_rectangle dev x y w h r g b d) ≡ (
        if (leb x u && ltb u (x + w)) && (leb y v && ltb v (y + h))
        then get_color_index r g b
        else pixel seg u v d)
unfolding fill_rectangle
fill_rectangle-pixel dev seg x y w h r g b u v d keeps s t a e =
    let height : u32 (y + h) - y ≡ h = omega arith in
    rw height (fill_rows-pixel dev seg h x y w r g b u v d keeps a e s)

-- On a card that keeps its segment, whatever rectangle is filled, no byte outside the 64000 of the
-- frame buffer changes.
fill_rectangle-outside :
    (dev : Device) (seg x y w h r g b p : ℕ) (d : Display)
    → KeepsSegment dev seg d.io
    → (p < seg) ⊎ (seg + 64000 ≤ p)
    → (fill_rectangle dev x y w h r g b d).memory p ≡ d.memory p
unfolding fill_rectangle
fill_rectangle-outside dev seg x y w h r g b p d keeps o =
    fill_rows-outside dev seg (u32 (y + h) - y) x y w r g b p d keeps o

fill_rows-empty :
    (dev : Device) (k x y w r g b : ℕ) (d : Display)
    → u32 (x + w) - x ≡ 0
    → fill_rows dev k x y w r g b d ≡ d
unfolding fill_rows fill_row
fill_rows-empty dev zero x y w r g b d e = refl
fill_rows-empty dev (suc k) x y w r g b d e = rw e (fill_rows-empty dev k x (y + 1) w r g b d e)

-- A rectangle of 32-bit numbers whose right end reaches 2^32, as one that begins to the left of
-- the screen and ends on it does, is not drawn at all: nothing changes.
fill_rectangle-wrapped :
    (dev : Device) (x y w h r g b : ℕ) (d : Display)
    → x < 2 ^ 32
    → w < 2 ^ 32
    → 2 ^ 32 ≤ x + w
    → fill_rectangle dev x y w h r g b d ≡ d
unfolding fill_rectangle
fill_rectangle-wrapped dev x y w h r g b d p q s =
    fill_rows-empty dev (u32 (y + h) - y) x y w r g b d (omega arith)
