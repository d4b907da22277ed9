-- ===== src/Desktop/Paint.antt =====
-- What desktop.cpp draws: its widgets, and the pointer of the mouse over them.
use blue_os.Base.{
  ℕ, zero, suc, ◌+◌, ◌<◌, ◌≡◌, refl, ap, ◌∙◌, Bool, ◌&&◌, ◌||◌, some, arith, leb, ltb, ◌==◌,
  if◌then◌else◌,
}
use blue_os.Base.Words.{sub32, add32}
use blue_os.Ports.{Device}
use blue_os.Vga.{Display, put_pixel_rgb}
use blue_os.Vga.Segment.{KeepsSegment, put_pixel_rgb-KeepsSegment}
use blue_os.Vga.Fill.{pixel, put_pixel-pixel}
use blue_os.Gui.{Gui}
use blue_os.Gui.Paint.{fill_all-KeepsSegment, IsTree, rectangles, fill_all, painted, AreInRange}
use blue_os.Gui.Paint as Painting
use blue_os.Desktop.{Desktop, draw_pointer, draw}

-- Two coordinates are at least `i` and less than `i + k` apart.
abbrev pub apart : (k i m p : ℕ) → Bool
apart k i m p = (leb (m + i) p && ltb p (m + i + k)) || (leb (p + i) m && ltb m (p + i + k))

-- A point is on an arm of the cross about the mouse, that far from its middle.
abbrev pub on_cross : (k i mouse_x mouse_y u v : ℕ) → Bool
on_cross k i mouse_x mouse_y u v =
    (v == mouse_y && apart k i mouse_x u) || (u == mouse_x && apart k i mouse_y v)

put_white :
    (dev : Device) (seg x y u v : ℕ) (d : Display)
    → KeepsSegment dev seg d.io
    → u < 320
    → v < 200
    → pixel seg u v (put_pixel_rgb dev x y 0xFF 0xFF 0xFF d)
      ≡ (if x == u && y == v then 0x3F else pixel seg u v d)
unfolding put_pixel_rgb
put_white dev seg x y u v d keeps a b = put_pixel-pixel dev seg x y 0x3F u v d keeps a b

before : (m i p : ℕ) → m < 320 → i < 320 → p < 320 → (sub32 m i == p) ≡ (p + i == m)
before m i p a b c = ground arith

behind : (m i p : ℕ) → m < 320 → i < 320 → p < 320 → (add32 m i == p) ≡ (p == m + i)
behind m i p a b c = ground arith

turned : (m p : ℕ) → (m == p) ≡ (p == m)
turned m p = ground arith

-- One round more of the loop draws the four points at distance `i`.
apart-suc :
    (k i m p : ℕ) → apart (suc k) i m p ≡ ((p == m + i || p + i == m) || apart k (i + 1) m p)
apart-suc k i m p = ground arith

-- Of five pixels that are drawn one over the other, all of one colour, the order does not count.
any_of :
    (row column left right above below inner outer : Bool) (colour under : ℕ)
    → (if (row && inner) || (column && outer)
        then colour
        else if column && below
        then colour
        else if column && above
        then colour
        else if right && row
        then colour
        else if left && row
        then colour
        else under)
      ≡ (if (row && ((right || left) || inner)) || (column && ((below || above) || outer))
          then colour
          else under)
any_of row column left right above below inner outer colour under = ground arith

-- the four points at distance `i`, drawn one after the other
abbrev four : Device → Desktop → (i : ℕ) → Display → Display
four dev t i d =
    let d1 = put_pixel_rgb dev (sub32 t.mouse_x i) t.mouse_y 0xFF 0xFF 0xFF d in
    let d2 = put_pixel_rgb dev (add32 t.mouse_x i) t.mouse_y 0xFF 0xFF 0xFF d1 in
    let d3 = put_pixel_rgb dev t.mouse_x (sub32 t.mouse_y i) 0xFF 0xFF 0xFF d2 in
    put_pixel_rgb dev t.mouse_x (add32 t.mouse_y i) 0xFF 0xFF 0xFF d3

abbrev over_four : (i mouse_x mouse_y u v under : ℕ) → ℕ
over_four i mouse_x mouse_y u v under =
    if u == mouse_x && v == mouse_y + i
    then 0x3F
    else if u == mouse_x && v + i == mouse_y
    then 0x3F
    else if u == mouse_x + i && v == mouse_y
    then 0x3F
    else if u + i == mouse_x && v == mouse_y
    then 0x3F
    else under

four-KeepsSegment :
    (dev : Device) (t : Desktop) (seg i : ℕ) (d : Display)
    → KeepsSegment dev seg d.io
    → KeepsSegment dev seg (four dev t i d).io
four-KeepsSegment dev t seg i d keeps =
    let white = λ (x y : ℕ) (e : Display) (h : KeepsSegment dev seg e.io).
      put_pixel_rgb-KeepsSegment dev seg x y 0xFF 0xFF 0xFF e h in
    let d1 = put_pixel_rgb dev (sub32 t.mouse_x i) t.mouse_y 0xFF 0xFF 0xFF d in
    let d2 = put_pixel_rgb dev (add32 t.mouse_x i) t.mouse_y 0xFF 0xFF 0xFF d1 in
    let d3 = put_pixel_rgb dev t.mouse_x (sub32 t.mouse_y i) 0xFF 0xFF 0xFF d2 in
    white t.mouse_x (add32 t.mouse_y i) d3 (
      white t.mouse_x (sub32 t.mouse_y i) d2
        (white (add32 t.mouse_x i) t.mouse_y d1 (white (sub32 t.mouse_x i) t.mouse_y d keeps)))

four-over_four :
    (dev : Device) (t : Desktop) (seg i u v : ℕ) (d : Display)
    → KeepsSegment dev seg d.io
    → t.mouse_x < 320
    → t.mouse_y < 200
    → i < 320
    → u < 320
    → v < 200
    → pixel seg u v (four dev t i d) ≡ over_four i t.mouse_x t.mouse_y u v (pixel seg u v d)
four-over_four dev t seg i u v d keeps mx my s a b =
    let d1 = put_pixel_rgb dev (sub32 t.mouse_x i) t.mouse_y 0xFF 0xFF 0xFF d in
    let d2 = put_pixel_rgb dev (add32 t.mouse_x i) t.mouse_y 0xFF 0xFF 0xFF d1 in
    let d3 = put_pixel_rgb dev t.mouse_x (sub32 t.mouse_y i) 0xFF 0xFF 0xFF d2 in
    let white = λ (x y : ℕ) (e : Display) (h : KeepsSegment dev seg e.io).
      put_pixel_rgb-KeepsSegment dev seg x y 0xFF 0xFF 0xFF e h in
    let keeps1 = white (sub32 t.mouse_x i) t.mouse_y d keeps in
    let keeps2 = white (add32 t.mouse_x i) t.mouse_y d1 keeps1 in
    let keeps3 = white t.mouse_x (sub32 t.mouse_y i) d2 keeps2 in
    rw
      (
        put_white dev seg t.mouse_x (add32 t.mouse_y i) u v d3 keeps3 a b,
        put_white dev seg t.mouse_x (sub32 t.mouse_y i) u v d2 keeps2 a b,
        put_white dev seg (add32 t.mouse_x i) t.mouse_y u v d1 keeps1 a b,
        put_white dev seg (sub32 t.mouse_x i) t.mouse_y u v d keeps a b,
        before t.mouse_x i u mx s a,
        behind t.mouse_x i u mx s a,
        before t.mouse_y i v (omega arith) s (omega arith),
        behind t.mouse_y i v (omega arith) s (omega arith),
        turned t.mouse_x u,
        turned t.mouse_y v,
      )
      refl

on_cross-suc :
    (k i mouse_x mouse_y u v under : ℕ)
    → (if on_cross k (i + 1) mouse_x mouse_y u v
        then 0x3F
        else over_four i mouse_x mouse_y u v under)
      ≡ (if on_cross (suc k) i mouse_x mouse_y u v then 0x3F else under)
on_cross-suc k i mouse_x mouse_y u v under =
    rw (apart-suc k i mouse_x u, apart-suc k i mouse_y v)
      (any_of (v == mouse_y) (u == mouse_x) (u + i == mouse_x) (u == mouse_x + i) (v + i == mouse_y)
        (v == mouse_y + i) (apart k (i + 1) mouse_x u) (apart k (i + 1) mouse_y v) 0x3F under)

draw_pointer-suc :
    (dev : Device) (t : Desktop) (k i : ℕ) (d : Display)
    → draw_pointer dev t (suc k) i d ≡ draw_pointer dev t k (i + 1) (four dev t i d)
unfolding draw_pointer
draw_pointer-suc dev t k i d = refl

draw_pointer-cross :
    (dev : Device) (t : Desktop) (seg k i u v : ℕ) (d : Display)
    → KeepsSegment dev seg d.io
    → t.mouse_x < 320
    → t.mouse_y < 200
    → i + k < 320
    → u < 320
    → v < 200
    → pixel seg u v (draw_pointer dev t k i d)
      ≡ (if on_cross k i t.mouse_x t.mouse_y u v then 0x3F else pixel seg u v d)
draw_pointer-cross dev t seg zero i u v d keeps mx my s a b = unfold draw_pointer in ground arith
draw_pointer-cross dev t seg (suc k) i u v d keeps mx my s a b =
    ap (λ (e : Display). pixel seg u v e) (draw_pointer-suc dev t k i d)
    ∙ draw_pointer-cross dev t seg k (i + 1) u v (four dev t i d)
        (four-KeepsSegment dev t seg i d keeps) mx my (omega arith) a b
    ∙ ap (λ (c : ℕ). if on_cross k (i + 1) t.mouse_x t.mouse_y u v then 0x3F else c)
        (four-over_four dev t seg i u v d keeps mx my (omega arith) a b)
    ∙ on_cross-suc k i t.mouse_x t.mouse_y u v (pixel seg u v d)

-- On a card that keeps its segment, the desktop, with its pointer on the screen, draws the tree of
-- its widgets and over it a white cross: the pixels in the pointer's row or column and fewer than
-- four from it are white, and each other one has the colour of the last rectangle in which it lies,
-- or is as it was. The fuel is `n`, and the tree is one of fewer than `n` levels whose root has no
-- parent, with the right parents and with rectangles that end below 2^32.
pub draw-cross :
    (n : ℕ) (gui : Gui) (dev : Device) (seg : ℕ) (t : Desktop) (d : Display)
    → IsTree gui n t.self
    → (gui t.self).parent ≡ 0
    → KeepsSegment dev seg d.io
    → AreInRange (rectangles n gui t.self 0 0)
    → t.mouse_x < 320
    → t.mouse_y < 200
    → (d' : Display) × (draw n n gui dev t d ≡ some d')
      × ((u v : ℕ)
          → u < 320
          → v < 200
          → pixel seg u v d' ≡ (
              if on_cross 4 0 t.mouse_x t.mouse_y u v
              then 0x3F
              else painted (rectangles n gui t.self 0 0) u v (pixel seg u v d)))
unfolding draw
draw-cross n gui dev seg t d tree top keeps range mx my =
    let (drawn, colours) = Painting.draw-painted n gui dev seg t.self d tree top keeps range in
    let under = fill_all dev (rectangles n gui t.self 0 0) d in
    (
      draw_pointer dev t 4 0 under,
      rw drawn refl,
      λ u v a b.
          draw_pointer-cross dev t seg 4 0 u v under
            (fill_all-KeepsSegment dev seg (rectangles n gui t.self 0 0) d keeps) mx my
            (omega arith) a b
          ∙ ap (λ (c : ℕ). if on_cross 4 0 t.mouse_x t.mouse_y u v then 0x3F else c)
              (colours u v a b),
    )
