-- ===== src/Desktop/Pointer.antt =====
-- Where the pointer of desktop.cpp goes.
use blue_os.Base.{ℕ, ◌+◌, ◌-◌, ◌/◌, ◌^◌, ◌≤◌, ◌<◌, ◌≡◌, refl, some, List, arith, ltb, if◌then◌else◌}
use blue_os.Gui.{Gui}
use blue_os.Gui.Height.{IsOfHeight, on_mouse_move-IsOfHeight}
use blue_os.Desktop.{Desktop, new_mouse, on_mouse_move}

-- A coordinate that moves by a quarter of a step of at most 2^31 - 1 to the right, or at most 2^31
-- to the left, stopped at the edges.
abbrev pub travelled : (size mouse move : ℕ) → ℕ
travelled size mouse move =
    if ltb move (2 ^ 31)
    then (if ltb (mouse + move / 4) size then mouse + move / 4 else size - 1)
    else mouse - (2 ^ 32 - move) / 4

new_mouse-travelled :
    (size mouse move : ℕ)
    → mouse < size
    → size ≤ 2 ^ 30
    → move < 2 ^ 32
    → new_mouse size mouse move ≡ travelled size mouse move
unfolding new_mouse
new_mouse-travelled size mouse move m s v = ground arith

travelled-bound :
    (size mouse move : ℕ) → mouse < size → move < 2 ^ 32 → travelled size mouse move < size
travelled-bound size mouse move m v = ground arith

-- On a desktop of at most 2^30 columns and rows, whose tree of widgets is no higher than the fuel,
-- with the pointer on it, a move of the mouse by two 32-bit words returns, and the pointer goes by
-- a quarter of the move, rounded towards 0, and stops at the edges, so it is on the desktop again.
pub on_mouse_move-travelled :
    (fuel : ℕ) (gui : Gui) (x y : ℕ) (t : Desktop)
    → IsOfHeight gui fuel t.self
    → (gui t.self).w ≤ 2 ^ 30
    → (gui t.self).h ≤ 2 ^ 30
    → t.mouse_x < (gui t.self).w
    → t.mouse_y < (gui t.self).h
    → x < 2 ^ 32
    → y < 2 ^ 32
    → (calls : List ℕ) × (t' : Desktop) × (on_mouse_move fuel gui x y t ≡ some (calls, t'))
      × (t'.self ≡ t.self)
      × (t'.mouse_x ≡ travelled (gui t.self).w t.mouse_x x)
      × (t'.mouse_y ≡ travelled (gui t.self).h t.mouse_y y)
      × (t'.mouse_x < (gui t.self).w)
      × (t'.mouse_y < (gui t.self).h)
unfolding on_mouse_move
on_mouse_move-travelled fuel gui x y t tree w h mx my xw yw =
    let new_x = new_mouse-travelled (gui t.self).w t.mouse_x x mx w xw in
    let new_y = new_mouse-travelled (gui t.self).h t.mouse_y y my h yw in
    let (calls, e) =
      on_mouse_move-IsOfHeight fuel gui t.self t.mouse_x t.mouse_y
        (new_mouse (gui t.self).w t.mouse_x x) (new_mouse (gui t.self).h t.mouse_y y) tree in
    (
      calls,
      record t {
        mouse_x = new_mouse (gui t.self).w t.mouse_x x;
        mouse_y = new_mouse (gui t.self).h t.mouse_y y;
      },
      rw e refl,
      refl,
      new_x,
      new_y,
      rw new_x (travelled-bound (gui t.self).w t.mouse_x x mx xw),
      rw new_y (travelled-bound (gui t.self).h t.mouse_y y my yw),
    )
