-- ===== src/Screen/Line.antt =====
-- What `print` of print.cpp leaves on the screen: a text that fits its line, and the step that
-- leaves the last row.
use mathlib.Core.Path.{subst}
use blue_os.Base.{
  ℕ, zero, suc, ◌+◌, ◌*◌, ◌<◌, ◌≤◌, ◌≡◌, ◌≢◌, ◌⊎◌, inl, inr, refl, List, [], ◌∷◌, arith, ==_ne,
  lt→ltb, update, update_self, update_ne, length, get_or, ap, ◌∙◌,
}
use blue_os.Screen.{Cells, Screen, put, wrap, clear_screen, scroll, print_char, print}
use blue_os.Screen.Cells.{with_char, write_cell-ascii, clear_screen_lem}

-- an ASCII character other than the zero and the newline
pub record IsPlain (c : ℕ) : Type 0 where
  pub not_zero : c ≢ 0
  pub not_newline : c ≢ 10
  pub ascii : c < 128

abbrev pub AllPlain : List ℕ → Type 0
AllPlain [] = Unit {0}
AllPlain (c ∷ cs) = IsPlain c × AllPlain cs

-- the screen after a plain character that does not end the line
abbrev typed : ℕ → Screen → Screen
typed c s = record s {
  cells = update s.cells (80 * s.y + s.x) (with_char (s.cells (80 * s.y + s.x)) c);
  x = s.x + 1;
}

put-plain : (c : ℕ) (s : Screen) → IsPlain c → s.x < 80 → put c s ≡ typed c s
unfolding put
put-plain c s p h =
    rw (==_ne c 10 p.not_newline, write_cell-ascii (80 * s.y + s.x) c s.cells p.ascii)
      (ap
        (λ (k : ℕ). record s {
          cells = update s.cells (80 * s.y + s.x) (with_char (s.cells (80 * s.y + s.x)) c);
          x = k;
        })
        (omega arith))

wrap_self : (s : Screen) → s.x < 80 → wrap s ≡ s
unfolding wrap
wrap_self s h = ground arith

scroll_self : (s : Screen) → s.y < 25 → scroll s ≡ s
unfolding scroll
scroll_self s h = ground arith

print_char-plain :
    (c : ℕ) (s : Screen) → IsPlain c → s.x + 1 < 80 → s.y < 25 → print_char c s ≡ typed c s
unfolding print_char
print_char-plain c s p h k =
    ap (λ (t : Screen). scroll (wrap t)) (put-plain c s p (omega arith))
    ∙ ap scroll (wrap_self (typed c s) h)
    ∙ scroll_self (typed c s) k

-- The screen `t` is `s` with a text from its cursor on, and the cursor behind the text.
pub record Shows (cs : List ℕ) (s t : Screen) : Type 0 where
  pub column : t.x ≡ s.x + length cs
  pub row : t.y ≡ s.y
  pub text :
      (j : ℕ)
      → j < length cs
      → t.cells (80 * s.y + s.x + j) ≡ with_char (s.cells (80 * s.y + s.x + j)) (get_or cs j 0)
  pub before : (i : ℕ) → i < 80 * s.y + s.x → t.cells i ≡ s.cells i
  pub behind : (i : ℕ) → 80 * s.y + s.x + length cs ≤ i → t.cells i ≡ s.cells i

Shows-cons :
    (c : ℕ) (cs : List ℕ) (s t u : Screen) → u ≡ typed c s → Shows cs u t → Shows (c ∷ cs) s t
Shows-cons c cs s t u e v =
    let w = subst (λ (r : Screen). Shows cs r t) e v in
    record {
      column = omega (arith, w.column);
      row = w.row;
      text = λ j l. text_at w j l;
      before = λ i h. w.before i (omega arith) ∙ update_ne s.cells _ i _ (omega arith);
      behind = λ i h. w.behind i (omega arith) ∙ update_ne s.cells _ i _ (omega arith);
    }
  where
    text_at :
        Shows cs (typed c s) t
        → (j : ℕ) → j < length (c ∷ cs)
        → t.cells (80 * s.y + s.x + j)
          ≡ with_char (s.cells (80 * s.y + s.x + j)) (get_or (c ∷ cs) j 0)
    text_at w zero l =
        let here : 80 * s.y + s.x + 0 ≡ 80 * s.y + s.x = omega arith in
        rw here (w.before (80 * s.y + s.x) (omega arith) ∙ update_self s.cells _ _)
    text_at w (suc j) l =
        let next : 80 * s.y + s.x + suc j ≡ 80 * s.y + (s.x + 1) + j = omega arith in
        rw next (
          w.text j (omega arith)
          ∙ ap (λ (v : ℕ). with_char v (get_or cs j 0))
              (update_ne s.cells (80 * s.y + s.x) (80 * s.y + (s.x + 1) + j) _ (omega arith)))

-- A text of ASCII characters, with no zero and no newline, that ends before the last column of
-- its row appears on the screen from the cursor on, with the attributes of the cells as they
-- were; no other cell changes, and the cursor stands behind the text.
pub print-Shows :
    (cs : List ℕ) (s : Screen)
    → AllPlain cs
    → s.x + length cs < 80
    → s.y < 25
    → Shows cs s (print cs s)
unfolding print
print-Shows [] s p h k = record {
  column = omega arith;
  row = refl;
  text = λ j l. elim l [ ];
  before = λ i l. refl;
  behind = λ i l. refl;
}
print-Shows (c ∷ cs) s p h k =
    let e = print_char-plain c s p.0 (omega arith) k in
    rw (==_ne c 0 p.0.not_zero) (
      Shows-cons c cs s (print cs (print_char c s)) (print_char c s) e (
        print-Shows cs (print_char c s) p.1 (omega (arith, ap (λ (t : Screen). t.x) e))
          (omega (arith, ap (λ (t : Screen). t.y) e))))

cleared :
    (c : ℕ) (s : Screen) (f : Cells)
    → print_char c s ≡ record { cells = clear_screen f; x = 0; y = 0 }
    → ((i : ℕ) → i < 2000 → with_char (f i) b' ' ≡ with_char (s.cells i) b' ')
    → ((print_char c s).x ≡ 0)
      × ((print_char c s).y ≡ 0)
      × ((i : ℕ) → i < 2000 → (print_char c s).cells i ≡ with_char (s.cells i) b' ')
cleared c s f e same = (
  ap (λ (t : Screen). t.x) e,
  ap (λ (t : Screen). t.y) e,
  λ i h. ap (λ (t : Screen). t.cells i) e ∙ clear_screen_lem f i ∙ rw (lt→ltb i 2000 h) (same i h),
)

-- The character that was in a blanked cell does not matter.
with_char-with_char : (v c : ℕ) → c < 128 → with_char (with_char v c) b' ' ≡ with_char v b' '
with_char-with_char v c h = omega arith

-- A newline in the last row, or a plain character in the last cell, clears the screen: every cell
-- is blank, with its attribute as it was, and the cursor is at the top left.
print_char-last :
    (c : ℕ) (s : Screen)
    → s.y ≡ 24
    → (c ≡ 10) ⊎ (IsPlain c × (s.x ≡ 79))
    → ((print_char c s).x ≡ 0)
      × ((print_char c s).y ≡ 0)
      × ((i : ℕ) → i < 2000 → (print_char c s).cells i ≡ with_char (s.cells i) b' ')
unfolding print_char
print_char-last c s row (inl e) =
    let at : put c s ≡ record s { x = 0; y = 25 } =
      unfold put in rw e (ap (λ (k : ℕ). record s { x = 0; y = k }) (omega arith)) in
    cleared c s s.cells (ap (λ (t : Screen). scroll (wrap t)) at) (λ i h. refl)
print_char-last c s row (inr (p, column)) =
    let cell : ℕ = 80 * s.y + s.x in
    let f : Cells = update s.cells cell (with_char (s.cells cell) c) in
    let at : put c s ≡ record { cells = f; x = 80; y = 24 } =
      put-plain c s p (omega arith)
      ∙ ap (λ (k : ℕ). record { cells = f; x = k; y = s.y }) (omega arith)
      ∙ ap (λ (k : ℕ). record { cells = f; x = 80; y = k }) row in
    cleared c s f (ap (λ (t : Screen). scroll (wrap t)) at)
      (λ i h. ground (arith, with_char-with_char (s.cells i) c p.ascii))
