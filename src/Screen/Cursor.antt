-- ===== src/Screen/Cursor.antt =====
-- Where `print` of print.cpp moves its cursor, and which cells it writes.
use blue_os.Base.{
  ℕ, ◌+◌, ◌*◌, ◌<◌, ◌≤◌, ◌≡◌, refl, List, [], ◌∷◌, arith, ◌==◌, Bool-cases, inl, inr, ◌∙◌,
}
use blue_os.Screen.{Screen, put, wrap, scroll, print_char, print}
use blue_os.Screen.Cells.{write_cell-other, clear_screen_lem}

pub record IsOnScreen (s : Screen) : Type 0 where
  pub column : s.x < 80
  pub row : s.y < 25

-- after the `switch`, before the cursor is brought back: at most one past the end
put-near :
    (c : ℕ) (s : Screen)
    → IsOnScreen s
    → ((put c s).x ≤ 80) × (80 * (put c s).y + (put c s).x ≤ 2000)
unfolding put
put-near c s v = ground arith

wrap-near : (s : Screen) → s.x ≤ 80 → 80 * s.y + s.x ≤ 2000 → ((wrap s).x < 80) × ((wrap s).y ≤ 25)
unfolding wrap
wrap-near s h k = ground arith

scroll-IsOnScreen : (s : Screen) → s.x < 80 → IsOnScreen (scroll s)
unfolding scroll
scroll-IsOnScreen s h = ground arith

pub print_char-IsOnScreen : (c : ℕ) (s : Screen) → IsOnScreen s → IsOnScreen (print_char c s)
unfolding print_char
print_char-IsOnScreen c s v =
    let (column, offset) = put-near c s v in
    scroll-IsOnScreen (wrap (put c s)) (wrap-near (put c s) column offset).0

-- Whatever text is printed, a cursor within the 80 columns and 25 rows stays there.
pub print-IsOnScreen : (cs : List ℕ) (s : Screen) → IsOnScreen s → IsOnScreen (print cs s)
unfolding print
print-IsOnScreen [] s v = v
print-IsOnScreen (c ∷ cs) s v =
    ground (arith, print-IsOnScreen cs (print_char c s) (print_char-IsOnScreen c s v))

put-inside : (c : ℕ) (s : Screen) (i : ℕ) → IsOnScreen s → 2000 ≤ i → (put c s).cells i ≡ s.cells i
unfolding put
put-inside c s i v h =
    ground (arith, write_cell-other (80 * s.y + s.x) c i s.cells (omega (arith, v.column, v.row)))

wrap-inside : (s : Screen) (i : ℕ) → (wrap s).cells i ≡ s.cells i
unfolding wrap
wrap-inside s i = ground arith

scroll-inside : (s : Screen) (i : ℕ) → 2000 ≤ i → (scroll s).cells i ≡ s.cells i
unfolding scroll
scroll-inside s i h = ground (arith, clear_screen_lem s.cells i)

print_char-inside :
    (c : ℕ) (s : Screen) (i : ℕ) → IsOnScreen s → 2000 ≤ i → (print_char c s).cells i ≡ s.cells i
unfolding print_char
print_char-inside c s i v h =
    scroll-inside (wrap (put c s)) i h ∙ wrap-inside (put c s) i ∙ put-inside c s i v h

-- With the cursor on the screen, whatever text is printed, no cell from number 2000 on changes.
pub print-inside :
    (cs : List ℕ) (s : Screen) (i : ℕ) → IsOnScreen s → 2000 ≤ i → (print cs s).cells i ≡ s.cells i
unfolding print
print-inside [] s i v h = refl
print-inside (c ∷ cs) s i v h = elim (Bool-cases (c == 0)) [
  | inl e ↦ rw e
  | inr e ↦ rw e (
      print-inside cs (print_char c s) i (print_char-IsOnScreen c s v) h
      ∙ print_char-inside c s i v h)
]
