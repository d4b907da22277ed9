-- ===== src/Mouse/Cursor.antt =====
-- The cells that mouse.cpp changes.
use blue_os.Base.{
  ℕ, ◌+◌, ◌*◌, ◌^◌, ◌<◌, ◌≡◌, refl, ap, ◌∙◌, arith, ◌==◌, Bool-cases, inl, inr, ==_iff,
  if◌then◌else◌,
}
use blue_os.Base.Words.{u16}
use blue_os.Screen.{Cells}
use blue_os.Mouse.{Mouse, cursor_cell, draw_mouse_cursor, clear_mouse_cursor, move, packet}

-- The screen is a given one with the cursor over it, and the driver holds the cell below.
pub record IsOver (base : Cells) (m : Mouse) (f : Cells) : Type 0 where
  pub below : m.under ≡ base (80 * m.y + m.x)
  pub cells : (i : ℕ) → f i ≡ (if i == 80 * m.y + m.x then cursor_cell (base i) else base i)

cleared :
    (base : Cells) (m : Mouse) (f : Cells)
    → ((i : ℕ) → base i < 2 ^ 16)
    → IsOver base m f
    → (i : ℕ) → clear_mouse_cursor m f i ≡ base i
unfolding clear_mouse_cursor
cleared base m f words v i = elim (Bool-cases (i == 80 * m.y + m.x)) [
  | inl e ↦
      (let same : i ≡ 80 * m.y + m.x = (==_iff i (80 * m.y + m.x)).0 e in
        let small = words (80 * m.y + m.x) in
        let value : u16 m.under ≡ base (80 * m.y + m.x) = omega (arith, v.below) in
        rw (e, value) (ap base (let back : 80 * m.y + m.x ≡ i = omega arith in back)))
  | inr e ↦ rw e (v.cells i ∙ rw e refl)
]

-- While nothing else writes on a screen of 16-bit cells, a packet moves the cursor over it and
-- changes nothing else: the cell that it leaves is as it was before the cursor came, and the
-- driver holds the cell that it comes to.
pub packet-IsOver :
    (base : Cells) (m : Mouse) (f : Cells)
    → ((i : ℕ) → base i < 2 ^ 16)
    → IsOver base m f
    → let (m', f') = packet m f in IsOver base m' f'
unfolding packet draw_mouse_cursor
packet-IsOver base m f words v =
    let back = cleared base m f words v in
    record {
      below = back (80 * (move m).y + (move m).x);
      cells = λ i. elim (Bool-cases (i == 80 * (move m).y + (move m).x)) [
        | inl e ↦
            (let same : i ≡ 80 * (move m).y + (move m).x =
                (==_iff i (80 * (move m).y + (move m).x)).0 e in
              rw e (
                ap cursor_cell (
                  back (80 * (move m).y + (move m).x)
                  ∙ ap base (let t : 80 * (move m).y + (move m).x ≡ i = omega arith in t))))
        | inr e ↦ rw e (back i)
      ];
    }
