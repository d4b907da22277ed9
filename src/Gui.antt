-- ===== src/Gui.antt =====
-- blue_Os/src/gui/widget.cpp: widgets, their tree, and the dispatch of mouse and keyboard events.
-- Widgets are objects at addresses, 0 for none, and of
-- two classes. An `int32_t` is its bit pattern; sums wrap. A call goes from a widget to its parent
-- or to a child, so the functions run on fuel, as the pointers may lead in a circle; `none` means
-- that the fuel ran out. Where a call ends in an empty handler, the result is the list of the
-- plain widgets that are called.
pub mod Chain
pub mod Focus
pub mod Hit
pub mod Height
pub mod Children
pub mod Place
pub mod Paint
mod Tests
use blue_os.Base.{
  ℕ, zero, suc, ◌+◌, ◌-◌, ◌/◌, ◌^◌, Bool, true, false, not, ◌&&◌, Option, none, some, List, [], ◌∷◌,
  ◌++◌, ltb, leb, ◌==◌, if◌then◌else◌, update,
}
use blue_os.Base.Options.{◌>>=◌}
use blue_os.Base.Words.{u32, sub32, add32, lts32}
use blue_os.Ports.{Device}
use blue_os.Vga.{Display, fill_rectangle}

pub data Class : Type 0 where
  plain composite : Class

pub record Widget : Type 0 where
  pub class : Class
  pub parent : ℕ
  pub x : ℕ
  pub y : ℕ
  pub w : ℕ
  pub h : ℕ
  pub r : ℕ
  pub g : ℕ
  pub b : ℕ
  pub focusable : Bool
  pub children : ℕ → ℕ
  pub num_children : ℕ
  pub focussed_child : ℕ

abbrev pub Gui : Type 0
Gui = ℕ → Widget

-- The constructors; the array of children is left as it was.
unfoldable pub init_widget : (self parent x y w h r g b : ℕ) → Gui → Gui
init_widget self parent x y w h r g b gui = update gui self (record (gui self) {
  class = plain;
  parent = parent;
  x = x;
  y = y;
  w = w;
  h = h;
  r = r;
  g = g;
  b = b;
  focusable = true;
})

unfoldable pub init_composite : (self parent x y w h r g b : ℕ) → Gui → Gui
unfolding init_widget
init_composite self parent x y w h r g b gui =
    let made = init_widget self parent x y w h r g b gui in
    update made self
      (record (made self) { class = composite; num_children = 0; focussed_child = 0 })

unfoldable pub add_child : (self child : ℕ) → Gui → Bool × Gui
add_child self child gui = if leb 100 (gui self).num_children then (false, gui) else (
  true,
  update gui self (record (gui self) {
    children = update (gui self).children (gui self).num_children child;
    num_children = (gui self).num_children + 1;
  }),
)

-- `focussedChild = widget;`
unfoldable pub set_focus : (self widget : ℕ) → Gui → Gui
set_focus self widget gui = update gui self (record (gui self) { focussed_child = widget })

-- What a class does before the call goes on to the parent: the widget that is passed on, and the
-- new state.
unfoldable pub take_focus : Class → (self widget : ℕ) → Gui → ℕ × Gui
take_focus plain self widget gui = (widget, gui)
take_focus composite self widget gui = (self, set_focus self widget gui)

unfoldable pub get_focus : (fuel self widget : ℕ) → Gui → Option Gui
unfolding take_focus
get_focus zero self widget gui = none
get_focus (suc fuel) self widget gui =
    let (passed, gui') = take_focus (gui self).class self widget gui in
    let rest = get_focus fuel (gui self).parent passed gui' in
    if not ((gui self).parent == 0) then rest else some gui'

-- The parent moves the point before the widget does.
unfoldable pub model_to_screen : (fuel : ℕ) → Gui → (self x y : ℕ) → Option (ℕ × ℕ)
model_to_screen zero gui self x y = none
model_to_screen (suc fuel) gui self x y =
    let rest = model_to_screen fuel gui (gui self).parent x y in
    elim (if not ((gui self).parent == 0) then rest else some (x, y)) [
      | none ↦ none
      | some (px, py) ↦ some (add32 px (gui self).x, add32 py (gui self).y)
    ]

unfoldable pub contains_coordinate : Gui → (self x y : ℕ) → Bool
contains_coordinate gui self x y =
    not (lts32 x (gui self).x)
    && lts32 x (add32 (gui self).x (gui self).w)
    && not (lts32 y (gui self).y)
    && lts32 y (add32 (gui self).y (gui self).h)

-- The loops that look for a child: the index of the first one that contains a point, `k` rounds
-- from `i` on.
unfoldable pub child_from : Gui → (k i self x y : ℕ) → Option ℕ
unfolding contains_coordinate
child_from gui zero i self x y = none
child_from gui (suc k) i self x y =
    let rest = child_from gui k (i + 1) self x y in
    if contains_coordinate gui ((gui self).children i) x y then some i else rest

-- The loop in a composite, where the point is moved by the composite's own place.
unfoldable pub child_at : Gui → (self x y : ℕ) → Option ℕ
unfolding child_from
child_at gui self x y =
    child_from gui (gui self).num_children 0 self (sub32 x (gui self).x) (sub32 y (gui self).y)

-- A loop over the children, each after the other, `k` rounds from `i` on.
unfoldable pub each_child : {S : Type 0} → (ℕ → S → Option S) → Widget → (k i : ℕ) → S → Option S
each_child call widget zero i s = some s
each_child call widget (suc k) i s =
    call (widget.children i) s >>= λ s'. each_child call widget k (i + 1) s'

-- `Widget::draw`
unfoldable pub draw_widget : (fuel : ℕ) → Gui → Device → (self : ℕ) → Display → Option Display
unfolding model_to_screen
draw_widget fuel gui dev self d = model_to_screen fuel gui self 0 0 >>= λ p.
    some (
      fill_rectangle dev p.0 p.1 (gui self).w (gui self).h (gui self).r (gui self).g (gui self).b d)

-- `fuel` bounds the height of the tree, and `up` the way from a widget to the root.
unfoldable pub draw : (fuel up : ℕ) → Gui → Device → (self : ℕ) → Display → Option Display
unfolding draw_widget each_child
draw zero up gui dev self d = none
draw (suc fuel) up gui dev self d =
    let rest =
      λ (d' : Display). each_child (draw fuel up gui dev) (gui self) (gui self).num_children 0 d' in
    draw_widget up gui dev self d >>= λ d'. elim (gui self).class [
      | plain ↦ some d'
      | composite ↦ rest d'
    ]

-- `Widget::onMouseDown`
unfoldable pub click_plain : (up : ℕ) → Gui → (self : ℕ) → Option Gui
unfolding get_focus
click_plain up gui self = if (gui self).focusable then get_focus up self self gui else some gui

unfoldable pub on_mouse_down : (fuel up : ℕ) → Gui → (self x y : ℕ) → Option Gui
unfolding click_plain child_at
on_mouse_down zero up gui self x y = none
on_mouse_down (suc fuel) up gui self x y =
    let inside = λ (i : ℕ).
      on_mouse_down fuel up gui ((gui self).children i) (sub32 x (gui self).x)
        (sub32 y (gui self).y) in
    elim (gui self).class [
      | plain ↦ click_plain up gui self
      | composite ↦ elim (child_at gui self x y) [ none ↦ some gui | some i ↦ inside i ]
    ]

unfoldable pub on_mouse_up : (fuel : ℕ) → Gui → (self x y : ℕ) → Option (List ℕ)
unfolding child_at
on_mouse_up zero gui self x y = none
on_mouse_up (suc fuel) gui self x y =
    let inside = λ (i : ℕ).
      on_mouse_up fuel gui ((gui self).children i) (sub32 x (gui self).x) (sub32 y (gui self).y) in
    elim (gui self).class [
      | plain ↦ some (self ∷ [])
      | composite ↦ elim (child_at gui self x y) [ none ↦ some [] | some i ↦ inside i ]
    ]

-- whether the second loop of `onMouseMove` calls child `i`, after the first one called `leaving`
unfoldable pub enters : Option ℕ → ℕ → Bool
enters none i = true
enters (some leaving) i = not (leaving == i)

unfoldable pub on_mouse_move : (fuel : ℕ) → Gui → (self oldx oldy newx newy : ℕ) → Option (List ℕ)
unfolding child_at enters
on_mouse_move zero gui self oldx oldy newx newy = none
on_mouse_move (suc fuel) gui self oldx oldy newx newy =
    let inside = λ (i : ℕ).
      on_mouse_move fuel gui ((gui self).children i) (sub32 oldx (gui self).x)
        (sub32 oldy (gui self).y) (sub32 newx (gui self).x) (sub32 newy (gui self).y) in
    let leaving = child_at gui self oldx oldy in
    let left : Option (List ℕ) = elim leaving [ none ↦ some [] | some i ↦ inside i ] in
    let entered : Option (List ℕ) = elim (child_at gui self newx newy) [
      | none ↦ some []
      | some i ↦ if enters leaving i then inside i else some []
    ] in
    elim (gui self).class [
      | plain ↦ some (self ∷ [])
      | composite ↦ (left >>= λ ls. entered >>= λ es. some (ls ++ es))
    ]

-- `onKeyLeft`, `onKeyRight` and `onKeyPress` pass the key on in the same way.
unfoldable pub on_key : (fuel : ℕ) → Gui → (self : ℕ) → Option (List ℕ)
on_key zero gui self = none
on_key (suc fuel) gui self =
    let rest = on_key fuel gui (gui self).focussed_child in
    elim (gui self).class [
      | plain ↦ some (self ∷ [])
      | composite ↦ if not ((gui self).focussed_child == 0) then rest else some []
    ]
