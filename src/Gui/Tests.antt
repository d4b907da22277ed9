-- ===== src/Gui/Tests.antt =====
-- Runs of widget.cpp, and the theorems at concrete widgets.
use blue_os.Base.{ℕ, ◌≡◌, refl, true, false, some, List, [], ◌∷◌, ◌++◌, arith, replicate, length}
use blue_os.Gui.{
  Gui, plain, init_widget, init_composite, add_child, contains_coordinate, child_from, child_at,
  on_mouse_down, on_mouse_up, on_key,
}
use blue_os.Gui.Focus.{Hits, on_key-on_mouse_down}
use blue_os.Gui.Place.{AreWords, IsRoomy}
use blue_os.Gui.Hit.{IsOnDrawing, on_mouse_up-IsOnDrawing}
use blue_os.Gui.Children.{IsGrown, add_children, add_children-IsGrown}

abbrev blank : Gui
blank = λ _. record {
  class = plain;
  parent = 0;
  x = 0;
  y = 0;
  w = 0;
  h = 0;
  r = 0;
  g = 0;
  b = 0;
  focusable = false;
  children = λ _. 0;
  num_children = 0;
  focussed_child = 0;
}

-- In a root at 1, a window at 2 and a button in it at 3, which begins 5 columns left of
-- the window.
abbrev widgets : Gui
widgets =
    init_widget 3 2 4294967291 5 20 20 0xA8 0 0
      (init_composite 2 1 10 10 100 100 0 0xA8 0 (init_composite 1 0 0 0 320 200 0 0 0xA8 blank))

abbrev tree : Gui
tree = (add_child 2 3 ((add_child 1 2 widgets).1)).1

test_tree : (tree 1).num_children ≡ 1
unfolding init_widget init_composite add_child
test_tree = refl

found_window : child_at tree 1 12 20 ≡ some 0
unfolding init_widget init_composite add_child child_at child_from contains_coordinate
found_window = refl

hits : Hits tree 1 (2 ∷ 3 ∷ []) 12 20
unfolding init_widget init_composite add_child child_at child_from contains_coordinate
hits = (
  omega arith,
  refl,
  refl,
  (0, refl, refl),
  (omega arith, refl, refl, (0, refl, refl), (omega arith, refl, refl)),
)

root_parent : (tree 1).parent ≡ 0
unfolding init_widget init_composite add_child
root_parent = refl

button_room : IsRoomy (tree 3)
unfolding init_widget init_composite add_child
button_room = record { right = omega arith; bottom = omega arith }

words : AreWords tree
unfolding init_widget init_composite add_child
words = record { x = λ q. ground arith; y = λ q. ground arith }

on_key-on_mouse_down_example :
    (gui' : Gui) × (on_mouse_down 3 3 tree 1 12 20 ≡ some gui') × (on_key 3 gui' 1 ≡ some (3 ∷ []))
on_key-on_mouse_down_example =
    on_key-on_mouse_down 3 3 tree 1 (2 ∷ 3 ∷ []) 12 20 (omega arith) (omega arith) root_parent hits

on_mouse_up-IsOnDrawing_example :
    (on_mouse_up 3 tree 1 12 20 ≡ some (3 ∷ [])) × IsOnDrawing tree 3 3 12 20
on_mouse_up-IsOnDrawing_example =
    on_mouse_up-IsOnDrawing 3 3 tree 1 2 (3 ∷ []) 12 20 words (omega arith) (omega arith)
      (omega arith) (omega arith) root_parent button_room hits

empty_root : (widgets 1).num_children ≡ 0
unfolding init_widget init_composite
empty_root = refl

-- The hundred and first child is refused.
abbrev many : List ℕ
many = replicate 100 7

add_children-IsGrown_example :
    (gui' : Gui) × (add_children 1 (many ++ 8 ∷ []) widgets
      ≡ (replicate (length many) true ++ false ∷ [], gui'))
    × IsGrown 1 many widgets gui'
add_children-IsGrown_example =
    add_children-IsGrown 1 many (8 ∷ []) widgets (omega (arith, empty_root))
      (λ l. omega (arith, empty_root))
