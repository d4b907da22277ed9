-- ===== src/Gui/Place.antt =====
-- The place of a widget of widget.cpp on the screen, and the test whether it contains a point.
use mathlib.Core.Path.{subst}
use blue_os.Base.{
  ℕ, zero, suc, ◌+◌, ◌%◌, ◌^◌, ◌<◌, ◌≡◌, refl, Bool, true, false, not, ◌&&◌, some, List, [], ◌∷◌,
  arith, ltb→lt, ltb→le, ==_ne, length, Bool-cases, inl, inr,
}
use blue_os.Base.Words.{sub32, add32, lts32}
use blue_os.Gui.{Gui, Widget, model_to_screen, contains_coordinate, child_from, child_at}
use blue_os.Gui.Chain.{Ancestors}

-- Places and sizes are 32-bit words.
pub record AreWords (gui : Gui) : Type 0 where
  pub x : (q : ℕ) → (gui q).x < 2 ^ 32
  pub y : (q : ℕ) → (gui q).y < 2 ^ 32

-- A rectangle of a size that is not negative ends before the greatest `int32_t`.
pub record IsRoomy (widget : Widget) : Type 0 where
  pub right : (widget.x + 2 ^ 31) % 2 ^ 32 + widget.w < 2 ^ 32
  pub bottom : (widget.y + 2 ^ 31) % 2 ^ 32 + widget.h < 2 ^ 32

-- one coordinate of the place of a widget's parent on the screen, from the coordinates of all above
unfoldable pub sum_above : (ℕ → ℕ) → List ℕ → ℕ
sum_above at [] = 0
sum_above at (p ∷ ps) = add32 (sum_above at ps) (at p)

abbrev pub corner : (ℕ → ℕ) → (self : ℕ) → List ℕ → ℕ
corner at self above = add32 (sum_above at above) (at self)

pub model_to_screen-corner :
    (fuel : ℕ) (gui : Gui) (self : ℕ) (above : List ℕ)
    → length above < fuel
    → Ancestors gui self above
    → model_to_screen fuel gui self 0 0
      ≡ some (corner (λ q. (gui q).x) self above, corner (λ q. (gui q).y) self above)
unfolding model_to_screen sum_above
model_to_screen-corner zero gui self above l up = absurd (omega arith)
model_to_screen-corner (suc fuel) gui self [] l up = rw (up, model_to_screen) refl
model_to_screen-corner (suc fuel) gui self (p ∷ ps) l (h, ne, c, up) =
    rw (h, model_to_screen, ==_ne p 0 ne, model_to_screen-corner fuel gui p ps (omega arith) up)
      refl

pub child_from-contains :
    (gui : Gui) (k i self x y j : ℕ)
    → child_from gui k i self x y ≡ some j
    → contains_coordinate gui ((gui self).children j) x y ≡ true
unfolding child_from
child_from-contains gui zero i self x y j e = cc
child_from-contains gui (suc k) i self x y j e =
    elim (Bool-cases (contains_coordinate gui ((gui self).children i) x y)) [
      | inl t ↦ (let same : i ≡ j = ground arith in rw (← same) t)
      | inr t ↦ child_from-contains gui k (i + 1) self x y j (rw t at e)
    ]

-- one coordinate of the test, where the rectangle ends before the greatest `int32_t`
pub inside_by :
    (x from size above click : ℕ)
    → x < 2 ^ 32
    → from < 2 ^ 32
    → above < 2 ^ 32
    → click < 2 ^ 32
    → (from + 2 ^ 31) % 2 ^ 32 + size < 2 ^ 32
    → add32 x above ≡ click
    → lts32 x from ≡ false
    → lts32 x (add32 from size) ≡ true
    → sub32 click (add32 above from) < size
inside_by x from size above click a b c d room e p q =
    let low = ltb→le ((x + 2 ^ 31) % 2 ^ 32) ((from + 2 ^ 31) % 2 ^ 32) p in
    let high = ltb→lt ((x + 2 ^ 31) % 2 ^ 32) ((add32 from size + 2 ^ 31) % 2 ^ 32) q in omega arith

pub moved :
    (x from above click : ℕ)
    → x < 2 ^ 32
    → from < 2 ^ 32
    → above < 2 ^ 32
    → add32 x above ≡ click
    → add32 (sub32 x from) (add32 above from) ≡ click
moved x from above click a b c e = omega arith

pub sum_above-word : (at : ℕ → ℕ) (above : List ℕ) → sum_above at above < 2 ^ 32
unfolding sum_above
sum_above-word at [] = omega arith
sum_above-word at (p ∷ ps) = omega arith

pub contains_coordinate-parts :
    (gui : Gui) (self x y : ℕ)
    → contains_coordinate gui self x y ≡ true
    → (lts32 x (gui self).x ≡ false)
      × (lts32 x (add32 (gui self).x (gui self).w) ≡ true)
      × (lts32 y (gui self).y ≡ false)
      × (lts32 y (add32 (gui self).y (gui self).h) ≡ true)
unfolding contains_coordinate
contains_coordinate-parts gui self x y h =
    let split : (a b : Bool) → (a && b) ≡ true → (a ≡ true) × (b ≡ true) = and_parts in
    let (ab, d) =
      split
        (not (lts32 x (gui self).x)
          && lts32 x (add32 (gui self).x (gui self).w)
          && not (lts32 y (gui self).y))
        _ h in
    let (ab', c) =
      split (not (lts32 x (gui self).x) && lts32 x (add32 (gui self).x (gui self).w)) _ ab in
    let (a, b) = split (not (lts32 x (gui self).x)) _ ab' in (not_true _ a, b, not_true _ c, d)
  where
    and_parts : (a b : Bool) → (a && b) ≡ true → (a ≡ true) × (b ≡ true)
    and_parts true b h = (refl, h)
    and_parts false b h = cc

    not_true : (a : Bool) → not a ≡ true → a ≡ false
    not_true true h = cc
    not_true false h = refl

pub child_at-contains :
    (gui : Gui) (self x y i c : ℕ)
    → child_at gui self x y ≡ some i
    → (gui self).children i ≡ c
    → contains_coordinate gui c (sub32 x (gui self).x) (sub32 y (gui self).y) ≡ true
unfolding child_at
child_at-contains gui self x y i c e child =
    subst
      (λ (q : ℕ). contains_coordinate gui q (sub32 x (gui self).x) (sub32 y (gui self).y) ≡ true)
      child
      (child_from-contains gui (gui self).num_children 0 self (sub32 x (gui self).x)
        (sub32 y (gui self).y) i e)
