-- ===== src/Desktop/Typing.antt =====
-- Keyboard, desktop and widgets together: keyboard.cpp with the desktop as its event handler.
use blue_os.Base.{
  ℕ, suc, ◌<◌, ◌≡◌, ◌≢◌, refl, sym, ◌∙◌, Bool, not, ◌&&◌, none, some, List, [], ◌∷◌, ◌++◌, bit_and,
  ◌==◌, ==_ne, Bool-cases, inl, inr, length, append_assoc, append-nil, if◌then◌else◌,
}
use blue_os.Ports.{Device, Io}
use blue_os.Keyboard.{Keyboard, KeyHandlers, scancode_to_ascii, set_event_handler, init}
use blue_os.Keyboard.Keys.{Types, deliver, run, run-text}
use blue_os.Gui.{Gui, on_key}
use blue_os.Gui.Focus.{Hits, target, on_key-on_mouse_down}
use blue_os.Desktop.{Desktop, on_mouse_down}

-- the plain widgets that are given a character, with it
each_gets : (char : ℕ) → List ℕ → List (ℕ × ℕ)
each_gets char [] = []
each_gets char (w ∷ ws) = (w, char) ∷ each_gets char ws

-- A widget as the event handler, whose `onKeyPress` goes on to the widgets that have the focus. The
-- state is the list of what plain widgets were given.
unfoldable pub widget_keys : (fuel : ℕ) → Gui → KeyHandlers (List (ℕ × ℕ))
unfolding each_gets
widget_keys fuel gui handler char given = elim (on_key fuel gui handler) [
  | none ↦ given
  | some ws ↦ given ++ each_gets char ws
]

-- whether a code is that of a known key that is pressed
abbrev pub is_typed : ℕ → Bool
is_typed sc = bit_and sc 0x80 == 0 && not (scancode_to_ascii sc == 0)

-- the characters of the known keys that are pressed, each given to one widget
abbrev pub typed : (widget : ℕ) → List ℕ → List (ℕ × ℕ)
typed widget [] = []
typed widget (sc ∷ scs) =
    if is_typed sc then (widget, scancode_to_ascii sc) ∷ typed widget scs else typed widget scs

widget_keys-leaf :
    (fuel : ℕ) (gui : Gui) (handler char leaf : ℕ) (given : List (ℕ × ℕ))
    → on_key fuel gui handler ≡ some (leaf ∷ [])
    → widget_keys fuel gui handler char given ≡ given ++ (leaf, char) ∷ []
unfolding widget_keys
widget_keys-leaf fuel gui handler char leaf given e = rw (e, widget_keys) refl

deliver-typed :
    (fuel : ℕ) (gui : Gui) (k : Keyboard) (leaf : ℕ) (scs : List ℕ) (given : List (ℕ × ℕ))
    → k.handler ≢ 0
    → on_key fuel gui k.handler ≡ some (leaf ∷ [])
    → deliver (widget_keys fuel gui) k scs given ≡ given ++ typed leaf scs
unfolding deliver
deliver-typed fuel gui k leaf [] given ne e = sym (append-nil given)
deliver-typed fuel gui k leaf (sc ∷ scs) given ne e = elim (Bool-cases (is_typed sc)) [
  | inl t ↦
      (let char : ℕ = scancode_to_ascii sc in
        rw (t, ==_ne k.handler 0 ne, widget_keys-leaf fuel gui k.handler char leaf given e)
          (deliver-typed fuel gui k leaf scs (given ++ (leaf, char) ∷ []) ne e
            ∙ append_assoc given ((leaf, char) ∷ []) (typed leaf scs)))
  | inr t ↦ rw t (deliver-typed fuel gui k leaf scs given ne e)
]

Hits-not_null : (gui : Gui) (self : ℕ) (path : List ℕ) (x y : ℕ) → Hits gui self path x y → self ≢ 0
Hits-not_null gui self [] x y (ne, c, f) = ne
Hits-not_null gui self (c ∷ path) x y (ne, k, parent, found, h) = ne

-- Let the desktop be the keyboard's event handler, and let the pointer be where the way leads from
-- the desktop down to a plain widget that takes the focus. With more fuel than there are steps on
-- the way, a press of the mouse button returns, and from then on the characters of all known keys
-- that are pressed are given to that widget, in their order, and nothing else is given to any.
pub run-on_mouse_down :
    (dev : Device) (fuel up : ℕ) (gui : Gui) (t : Desktop) (path scs : List ℕ) (io : Io)
    → length path < fuel
    → length path < up
    → (gui t.self).parent ≡ 0
    → Hits gui t.self path t.mouse_x t.mouse_y
    → Types dev scs io.trace
    → (gui' : Gui) × (on_mouse_down fuel up gui t ≡ some gui')
      × ((run dev
            (widget_keys (suc (length path)) gui')
            (set_event_handler t.self init)
            scs
            []
            io).0
          ≡ typed (target t.self path) scs)
unfolding on_mouse_down set_event_handler
run-on_mouse_down dev fuel up gui t path scs io l m top hits types =
    let (gui', clicked, reached) =
      on_key-on_mouse_down fuel up gui t.self path t.mouse_x t.mouse_y l m top hits in
    let k : Keyboard = record { handler = t.self } in
    let (screen, given) = run-text dev (widget_keys (suc (length path)) gui') k scs [] io types in
    (
      gui',
      clicked,
      given
          ∙ deliver-typed (suc (length path)) gui' k (target t.self path) scs []
              (Hits-not_null gui t.self path t.mouse_x t.mouse_y hits) reached,
    )
