-- ===== src/Desktop/Tests.antt =====
-- Runs of desktop.cpp, and the theorem at a concrete desktop.
use blue_os.Base.{
  none, if◌then◌else◌, ℕ, ◌<◌, ◌≡◌, refl, inl, inr, false, some, List, [], ◌∷◌, arith, get_or,
  length,
}
use blue_os.Gui.{
  Gui, plain, init_widget, init_composite, add_child, child_at, child_from, contains_coordinate,
}
use blue_os.Ports.{Device, Io}
use blue_os.Keyboard.{set_event_handler, scancode_to_ascii}
use blue_os.Keyboard.Keys.{run}
use blue_os.Gui.Focus.{Hits}
use blue_os.Desktop.Typing.{widget_keys, typed, run-on_mouse_down}
use blue_os.Gui.Height.{IsOfHeight}
use blue_os.Vga.{
  Display, set_mode, get_color_index, graphics_controller_index_port, graphics_controller_data_port,
}
use blue_os.Vga.Mode.{indexed}
use blue_os.Vga.Segment.{KeepsSegment}
use blue_os.Vga.Shown.{ReadsBack, set_mode-KeepsSegment}
use blue_os.Vga.Fill.{pixel}
use blue_os.Gui.Paint.{IsTree, AreInRange, rectangles, painted}
use blue_os.Desktop.Paint.{on_cross, draw-cross}
use blue_os.Desktop.{Desktop, init, draw, on_mouse_down, on_mouse_move}
use blue_os.Desktop.Pointer.{travelled, on_mouse_move-travelled}

abbrev blank : Gui
blank = λ _. record {
  class = plain;
  parent = 0;
  x = 0;
  y = 0;
  w = 0;
  h = 0;
  r = 0;
  g = 0;
  b = 0;
  focusable = false;
  children = λ _. 0;
  num_children = 0;
  focussed_child = 0;
}

-- A desktop at 1 with a button at 2.
abbrev made : Desktop × Gui
made = init 1 320 200 0 0 0xA8 blank

abbrev desktop : Desktop
desktop = record { self = 1; mouse_x = 160; mouse_y = 100 }

abbrev widgets : Gui
widgets = (add_child 1 2 (init_widget 2 1 10 10 20 20 0xA8 0 0 made.1)).1

starts_in_the_middle : made.0 ≡ desktop
unfolding init
starts_in_the_middle = refl

tree_ends : IsOfHeight widgets 2 1
unfolding init init_composite init_widget add_child
tree_ends = inr (refl, λ i l. inl (ground arith))

sizes : ((widgets 1).w ≡ 320) × ((widgets 1).h ≡ 200)
unfolding init init_composite init_widget add_child
sizes = (refl, refl)

-- 700 to the right, which is stopped at the edge, and 7 up
on_mouse_move-travelled_example :
    (calls : List ℕ) × (t' : Desktop) × (on_mouse_move 2 widgets 700 4294967289 desktop
      ≡ some (calls, t'))
    × (t'.self ≡ 1)
    × (t'.mouse_x ≡ travelled (widgets 1).w 160 700)
    × (t'.mouse_y ≡ travelled (widgets 1).h 100 4294967289)
    × (t'.mouse_x < (widgets 1).w)
    × (t'.mouse_y < (widgets 1).h)
on_mouse_move-travelled_example =
    on_mouse_move-travelled 2 widgets 700 4294967289 desktop tree_ends (omega (arith, sizes.0))
      (omega (arith, sizes.1)) (omega (arith, sizes.0)) (omega (arith, sizes.1)) (omega arith)
      (omega arith)

test_travelled : (travelled 320 160 700 ≡ 319) × (travelled 200 100 4294967289 ≡ 99)
test_travelled = (refl, refl)

-- the pointer on the button
abbrev over : Desktop
over = record { self = 1; mouse_x = 15; mouse_y = 15 }

hits : Hits widgets 1 (2 ∷ []) 15 15
unfolding init init_composite init_widget add_child child_at child_from contains_coordinate
hits = (omega arith, refl, refl, (0, refl, refl), (omega arith, refl, refl))

root_parent : (widgets 1).parent ≡ 0
unfolding init init_composite init_widget add_child
root_parent = refl

-- `h` pressed and released, and `i` pressed
abbrev scan_codes : List ℕ
scan_codes = 0x23 ∷ 0xA3 ∷ 0x17 ∷ []

-- the data port gives one code after the other
abbrev typing : Device
typing trace port = get_or scan_codes (length trace) 0

run-on_mouse_down_example :
    (gui' : Gui) × (on_mouse_down 2 2 widgets over ≡ some gui')
    × ((run typing
          (widget_keys 2 gui')
          (set_event_handler 1 blue_os.Keyboard.init)
          scan_codes
          []
          (record { trace = []; screen = record { cells = λ _. 0x0720; x = 0; y = 0 } })).0
        ≡ typed 2 scan_codes)
run-on_mouse_down_example =
    run-on_mouse_down typing 2 2 widgets over (2 ∷ []) scan_codes
      (record { trace = []; screen = record { cells = λ _. 0x0720; x = 0; y = 0 } }) (omega arith)
      (omega arith) root_parent hits (refl, (refl, (refl, tt)))

test_typed : typed 2 scan_codes ≡ (2, b'h') ∷ (2, b'i') ∷ []
unfolding scancode_to_ascii
test_typed = refl

-- a card that answers with its graphics register 6, on which the mode is set
abbrev card : Device
card es port = elim (indexed graphics_controller_index_port graphics_controller_data_port 6 es) [
  | none ↦ 0
  | some v ↦ v
]

card-ReadsBack : ReadsBack card
unfolding indexed
card-ReadsBack es v e = rw e refl

abbrev off : Io
off = record { trace = []; screen = record { cells = λ _. 0x0720; x = 0; y = 0 } }

abbrev dark : Display
dark = record { io = (set_mode card 320 200 8 off).1; memory = λ p. 0 }

card-KeepsSegment : KeepsSegment card 0xA0000 dark.io
card-KeepsSegment = set_mode-KeepsSegment card off card-ReadsBack

widgets-IsTree : IsTree widgets 2 1
unfolding init init_composite init_widget add_child
widgets-IsTree = inr (refl, omega arith, λ i l. (ground arith, inl (ground arith)))

rectangles-AreInRange : AreInRange (rectangles 2 widgets 1 0 0)
unfolding init init_composite init_widget add_child
rectangles-AreInRange = (omega arith, omega arith, (omega arith, omega arith, tt))

draw-cross_example :
    (d' : Display) × (draw 2 2 widgets card over dark ≡ some d')
    × ((u v : ℕ)
        → u < 320
        → v < 200
        → pixel 0xA0000 u v d' ≡ (
            if on_cross 4 0 15 15 u v
            then 0x3F
            else painted (rectangles 2 widgets 1 0 0) u v (pixel 0xA0000 u v dark)))
draw-cross_example =
    draw-cross 2 widgets card 0xA0000 over dark widgets-IsTree root_parent card-KeepsSegment
      rectangles-AreInRange (omega arith) (omega arith)

-- the button over the desktop's blue
button_is_red : painted (rectangles 2 widgets 1 0 0) 20 20 0 ≡ 0x04
unfolding init init_composite init_widget add_child get_color_index
button_is_red = refl
