-- ===== src/Desktop.antt =====
-- blue_Os/src/gui/desktop.cpp: the desktop, a composite widget that draws the pointer of the mouse
-- and turns the mouse's moves into places. The pointer is two `uint32_t`; an `int32_t` is its bit
-- pattern, and sums wrap. The functions of widgets run on fuel: `none` means that it ran out.
pub mod Pointer
pub mod Typing
pub mod Paint
mod Tests
use blue_os.Base.{
  ℕ, zero, suc, ◌+◌, ◌-◌, ◌^◌, Bool, true, false, not, Option, none, some, List, if◌then◌else◌,
}
use blue_os.Base.Options.{◌>>=◌}
use blue_os.Base.Words.{sub32, add32, lts32, divs32}
use blue_os.Ports.{Device}
use blue_os.Vga.{Display, put_pixel_rgb}
use blue_os.Gui.{Gui, init_composite}
use blue_os.Gui as Widgets

-- The composite stands at `self`, among the widgets.
pub record Desktop : Type 0 where
  pub self : ℕ
  pub mouse_x : ℕ
  pub mouse_y : ℕ

unfoldable pub init : (self w h r g b : ℕ) → Gui → Desktop × Gui
unfolding init_composite
init self w h r g b gui = (
  record { self = self; mouse_x = divs32 w 2; mouse_y = divs32 h 2 },
  init_composite self 0 0 0 w h r g b gui,
)

-- the loop that draws the pointer, `k` rounds from `i` on
unfoldable pub draw_pointer : Device → Desktop → (k i : ℕ) → Display → Display
draw_pointer dev t zero i d = d
draw_pointer dev t (suc k) i d =
    let d1 = put_pixel_rgb dev (sub32 t.mouse_x i) t.mouse_y 0xFF 0xFF 0xFF d in
    let d2 = put_pixel_rgb dev (add32 t.mouse_x i) t.mouse_y 0xFF 0xFF 0xFF d1 in
    let d3 = put_pixel_rgb dev t.mouse_x (sub32 t.mouse_y i) 0xFF 0xFF 0xFF d2 in
    let d4 = put_pixel_rgb dev t.mouse_x (add32 t.mouse_y i) 0xFF 0xFF 0xFF d3 in
    draw_pointer dev t k (i + 1) d4

unfoldable pub draw : (fuel up : ℕ) → Gui → Device → Desktop → Display → Option Display
unfolding draw_pointer
draw fuel up gui dev t d =
    Widgets.draw fuel up gui dev t.self d >>= λ d'. some (draw_pointer dev t 4 0 d')

unfoldable pub on_mouse_down : (fuel up : ℕ) → Gui → Desktop → Option Gui
on_mouse_down fuel up gui t = Widgets.on_mouse_down fuel up gui t.self t.mouse_x t.mouse_y

unfoldable pub on_mouse_up : (fuel : ℕ) → Gui → Desktop → Option (List ℕ)
on_mouse_up fuel gui t = Widgets.on_mouse_up fuel gui t.self t.mouse_x t.mouse_y

-- one coordinate of the new place of the pointer, on a desktop of that size
unfoldable pub new_mouse : (size mouse move : ℕ) → ℕ
new_mouse size mouse move =
    let moved : ℕ = add32 mouse (divs32 move 4) in
    let low : ℕ = if lts32 moved 0 then 0 else moved in
    if not (lts32 low size) then sub32 size 1 else low

unfoldable pub on_mouse_move : (fuel : ℕ) → Gui → (x y : ℕ) → Desktop → Option (List ℕ × Desktop)
unfolding new_mouse
on_mouse_move fuel gui x y t =
    let new_x : ℕ = new_mouse (gui t.self).w t.mouse_x x in
    let new_y : ℕ = new_mouse (gui t.self).h t.mouse_y y in
    Widgets.on_mouse_move fuel gui t.self t.mouse_x t.mouse_y new_x new_y >>= λ calls.
    some (calls, record t { mouse_x = new_x; mouse_y = new_y })
