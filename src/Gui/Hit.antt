-- ===== src/Gui/Hit.antt =====
-- The place where widget.cpp draws a widget, and the clicks that reach it.
use blue_os.Base.{ℕ, zero, suc, ◌+◌, ◌^◌, ◌<◌, ◌≡◌, refl, true, some, List, [], ◌∷◌, arith, length}
use blue_os.Base.Words.{sub32, add32}
use blue_os.Ports.{Device}
use blue_os.Vga.{Display, fill_rectangle}
use blue_os.Gui.{Gui, contains_coordinate, draw_widget, on_mouse_up}
use blue_os.Gui.Place.{
  AreWords, IsRoomy, sum_above, corner, model_to_screen-corner, inside_by, moved, sum_above-word,
  contains_coordinate-parts, child_at-contains,
}
use blue_os.Gui.Chain.{Ancestors}
use blue_os.Gui.Focus.{Hits, target}

-- What is claimed of a click at `x`, `y` of the screen on a widget.
pub record IsOnDrawing (gui : Gui) (up self x y : ℕ) : Type 0 where
  pub left : ℕ
  pub top : ℕ
  pub drawn :
      (dev : Device) (d : Display)
      → draw_widget up gui dev self d
        ≡ some (
            fill_rectangle dev left top
              (gui self).w
              (gui self).h
              (gui self).r
              (gui self).g
              (gui self).b
              d)
  pub column : sub32 x left < (gui self).w
  pub row : sub32 y top < (gui self).h

-- The last widget of the path contains the point, where it is the first one too.
abbrev IsTested : Gui → (self : ℕ) → List ℕ → (x y : ℕ) → Type 0
IsTested gui self [] x y = contains_coordinate gui self x y ≡ true
IsTested gui self (c ∷ path) x y = Unit {0}

contains-IsTested :
    (gui : Gui) (self : ℕ) (path : List ℕ) (x y : ℕ)
    → contains_coordinate gui self x y ≡ true
    → IsTested gui self path x y
contains-IsTested gui self [] x y h = h
contains-IsTested gui self (c ∷ path) x y h = tt

module _ (gui : Gui) (words : AreWords gui) (up screen_x screen_y : ℕ)
    (screen_x_word : screen_x < 2 ^ 32) (screen_y_word : screen_y < 2 ^ 32) where
  leaf-IsOnDrawing :
      (self : ℕ) (above : List ℕ) (x y : ℕ)
      → length above < up
      → Ancestors gui self above
      → x < 2 ^ 32
      → y < 2 ^ 32
      → add32 x (sum_above (λ q. (gui q).x) above) ≡ screen_x
      → add32 y (sum_above (λ q. (gui q).y) above) ≡ screen_y
      → IsRoomy (gui self)
      → contains_coordinate gui self x y ≡ true
      → IsOnDrawing gui up self screen_x screen_y
  leaf-IsOnDrawing self above x y l a xw yw ex ey room inside =
      let (p, q, r, s) = contains_coordinate-parts gui self x y inside in
      record {
        left = corner (λ q. (gui q).x) self above;
        top = corner (λ q. (gui q).y) self above;
        drawn =
            λ dev d. unfold draw_widget in rw (model_to_screen-corner up gui self above l a) refl;
        column =
            inside_by x (gui self).x (gui self).w (sum_above (λ q. (gui q).x) above) screen_x xw
              (words.x self) (sum_above-word (λ q. (gui q).x) above) screen_x_word room.right ex p
              q;
        row =
            inside_by y (gui self).y (gui self).h (sum_above (λ q. (gui q).y) above) screen_y yw
              (words.y self) (sum_above-word (λ q. (gui q).y) above) screen_y_word room.bottom ey r
              s;
      }

  below-IsOnDrawing :
      (self : ℕ) (path above : List ℕ) (x y : ℕ)
      → length path + length above < up
      → Ancestors gui self above
      → x < 2 ^ 32
      → y < 2 ^ 32
      → add32 x (sum_above (λ q. (gui q).x) above) ≡ screen_x
      → add32 y (sum_above (λ q. (gui q).y) above) ≡ screen_y
      → IsRoomy (gui (target self path))
      → IsTested gui self path x y
      → Hits gui self path x y
      → IsOnDrawing gui up (target self path) screen_x screen_y
  below-IsOnDrawing self [] above x y l a xw yw ex ey room inside h =
      leaf-IsOnDrawing self above x y (omega arith) a xw yw ex ey room inside
  below-IsOnDrawing self (c ∷ path) above x y l a xw yw ex ey room inside
        (ne, k, parent, (i, e, child), h) =
      below-IsOnDrawing c path (self ∷ above) (sub32 x (gui self).x) (sub32 y (gui self).y)
        (omega arith) (parent, ne, k, a) (omega arith) (omega arith)
        (unfold sum_above in
          moved x (gui self).x (sum_above (λ q. (gui q).x) above) screen_x xw (words.x self)
            (sum_above-word (λ q. (gui q).x) above) ex)
        (unfold sum_above in
          moved y (gui self).y (sum_above (λ q. (gui q).y) above) screen_y yw (words.y self)
            (sum_above-word (λ q. (gui q).y) above) ey)
        room
        (contains-IsTested gui c path (sub32 x (gui self).x) (sub32 y (gui self).y)
          (child_at-contains gui self x y i c e child))
        h

on_mouse_up-Hits :
    (fuel : ℕ) (gui : Gui) (self : ℕ) (path : List ℕ) (x y : ℕ)
    → length path < fuel
    → Hits gui self path x y
    → on_mouse_up fuel gui self x y ≡ some (target self path ∷ [])
unfolding on_mouse_up
on_mouse_up-Hits zero gui self path x y l h = absurd (omega arith)
on_mouse_up-Hits (suc fuel) gui self [] x y l (ne, c, f) = rw (c, on_mouse_up) refl
on_mouse_up-Hits (suc fuel) gui self (c ∷ path) x y l (ne, k, parent, (i, e, child), h) =
    rw (k, on_mouse_up, e, child)
      (on_mouse_up-Hits fuel gui c path (sub32 x (gui self).x) (sub32 y (gui self).y) (omega arith)
        h)

-- Let a point of the screen lead from the root of a tree of widgets at 32-bit places, through at
-- least one child, down to a plain widget that takes the focus and whose rectangle ends before the
-- greatest coordinate. With more fuel than there are steps on the way, letting go of the mouse
-- button there calls this widget and no other, and the point lies on the rectangle that the widget
-- draws. The root's own rectangle is not asked for, and the root may stand anywhere.
pub on_mouse_up-IsOnDrawing :
    (fuel up : ℕ) (gui : Gui) (root c : ℕ) (path : List ℕ) (x y : ℕ)
    → AreWords gui
    → x < 2 ^ 32
    → y < 2 ^ 32
    → length path + 1 < fuel
    → length path + 1 < up
    → (gui root).parent ≡ 0
    → IsRoomy (gui (target root (c ∷ path)))
    → Hits gui root (c ∷ path) x y
    → (on_mouse_up fuel gui root x y ≡ some (target root (c ∷ path) ∷ []))
      × IsOnDrawing gui up (target root (c ∷ path)) x y
on_mouse_up-IsOnDrawing fuel up gui root c path x y words xw yw l m top room h = (
  on_mouse_up-Hits fuel gui root (c ∷ path) x y (omega arith) h,
  below-IsOnDrawing gui words up x y xw yw root (c ∷ path) [] x y (omega arith) top xw yw
      (unfold sum_above in omega arith) (unfold sum_above in omega arith) room tt h,
)
