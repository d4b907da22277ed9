-- ===== src/Gui/Paint.antt =====
-- What widget.cpp draws, against the rectangles that are read off the tree of widgets.
use blue_os.Base.{
  ℕ, zero, suc, ◌+◌, ◌^◌, ◌<◌, ◌≤◌, ◌≡◌, ◌≢◌, ◌⊎◌, inl, inr, refl, sym, ap, ◌∙◌, Bool, ◌&&◌, Option,
  some, List, [], ◌∷◌, ◌++◌, arith, length, leb, ltb, if◌then◌else◌, joined,
}
use blue_os.Base.Options.{>>=-some}
use blue_os.Base.Words.{add32}
use blue_os.Ports.{Device}
use blue_os.Vga.{Display, fill_rectangle, get_color_index}
use blue_os.Vga.Segment.{KeepsSegment, fill_rectangle-KeepsSegment}
use blue_os.Vga.Fill.{pixel, fill_rectangle-pixel}
use blue_os.Gui.{Gui, Widget, plain, composite, draw_widget, each_child, draw}
use blue_os.Gui.Chain.{Ancestors}
use blue_os.Gui.Place.{sum_above, corner, model_to_screen-corner}

-- A tree of fewer than `n` levels, in which each child's parent is the composite it stands in.
abbrev pub IsTree : Gui → (n self : ℕ) → Type 0
IsTree gui zero self = ⊥
IsTree gui (suc n) self =
    ((gui self).class ≡ plain)
    ⊎ (((gui self).class ≡ composite)
        × (self ≢ 0)
        × ((i : ℕ)
            → i < (gui self).num_children
            → ((gui ((gui self).children i)).parent ≡ self) × IsTree gui n ((gui self).children i)))

pub record Rectangle : Type 0 where
  pub x : ℕ
  pub y : ℕ
  pub w : ℕ
  pub h : ℕ
  pub r : ℕ
  pub g : ℕ
  pub b : ℕ

-- the rectangle of a widget whose parent stands at that place of the screen
abbrev pub rectangle : (x y : ℕ) → Widget → Rectangle
rectangle x y widget = record {
  x = add32 x widget.x;
  y = add32 y widget.y;
  w = widget.w;
  h = widget.h;
  r = widget.r;
  g = widget.g;
  b = widget.b;
}

-- The rectangles of a tree, a widget's before those of its children, in their order.
abbrev pub rectangles : (n : ℕ) → Gui → (self x y : ℕ) → List Rectangle
rectangles zero gui self x y = []
rectangles (suc n) gui self x y =
    let own = rectangle x y (gui self) in
    let inside : List Rectangle =
      joined (gui self).num_children 0
        (λ i. rectangles n gui ((gui self).children i) own.x own.y) in
    own ∷ (elim (gui self).class [ plain ↦ [] | composite ↦ inside ])

-- They are filled one after the other.
abbrev pub fill_all : Device → List Rectangle → Display → Display
fill_all dev [] d = d
fill_all dev (a ∷ us) d = fill_all dev us (fill_rectangle dev a.x a.y a.w a.h a.r a.g a.b d)

fill_all-append :
    (dev : Device) (us bs : List Rectangle) (d : Display)
    → fill_all dev (us ++ bs) d ≡ fill_all dev bs (fill_all dev us d)
fill_all-append dev [] bs d = refl
fill_all-append dev (a ∷ us) bs d =
    fill_all-append dev us bs (fill_rectangle dev a.x a.y a.w a.h a.r a.g a.b d)

draw_widget-rectangle :
    (up : ℕ) (gui : Gui) (dev : Device) (self : ℕ) (above : List ℕ) (d : Display)
    → length above < up
    → Ancestors gui self above
    → let x : ℕ = sum_above (λ q. (gui q).x) above in
      let y : ℕ = sum_above (λ q. (gui q).y) above in
      draw_widget up gui dev self d ≡ some (fill_all dev (rectangle x y (gui self) ∷ []) d)
unfolding draw_widget
draw_widget-rectangle up gui dev self above d l a =
    rw (model_to_screen-corner up gui self above l a) refl

-- A loop over children that each fill their rectangles fills all of them.
each_child-joined :
    (dev : Device) (call : ℕ → Display → Option Display) (widget : Widget) (f : ℕ → List Rectangle)
    (k i : ℕ) (d : Display)
    → ((j : ℕ) (e : Display)
        → i ≤ j
        → j < i + k
        → call (widget.children j) e ≡ some (fill_all dev (f j) e))
    → each_child call widget k i d ≡ some (fill_all dev (joined k i f) d)
unfolding each_child
each_child-joined dev call widget f zero i d each = refl
each_child-joined dev call widget f (suc k) i d each =
    let first = each i d (omega arith) (omega arith) in
    let rest =
      each_child-joined dev call widget f k (i + 1) (fill_all dev (f i) d)
        (λ j e l m. each j e (omega (arith, l)) (omega (arith, m))) in
    >>=-some (call (widget.children i) d) (λ e. each_child call widget k (i + 1) e) first rest
    ∙ ap some (sym (fill_all-append dev (f i) (joined k (i + 1) f) d))

draw-below :
    (n up : ℕ) (gui : Gui) (dev : Device) (self : ℕ) (above : List ℕ) (d : Display)
    → IsTree gui n self
    → length above + n ≤ up
    → Ancestors gui self above
    → let x : ℕ = sum_above (λ q. (gui q).x) above in
      let y : ℕ = sum_above (λ q. (gui q).y) above in
      draw n up gui dev self d ≡ some (fill_all dev (rectangles n gui self x y) d)
unfolding draw sum_above
draw-below zero up gui dev self above d tree l a = absurd tree
draw-below (suc n) up gui dev self above d tree l a =
    let own = draw_widget-rectangle up gui dev self above d (omega (arith, l)) a in
    elim tree [
      | inl leaf ↦ rw (own, leaf) refl
      | inr (k, ne, below) ↦
          rw (own, k)
            (each_child-joined dev (draw n up gui dev) (gui self)
              (λ i.
                rectangles n gui ((gui self).children i) (corner (λ q. (gui q).x) self above)
                  (corner (λ q. (gui q).y) self above))
              (gui self).num_children 0 _
              (λ j e from to.
                let (parent, tree_below) = below j (omega (arith, to)) in
                draw-below n up gui dev ((gui self).children j) (self ∷ above) e tree_below
                  (omega (arith, l)) (parent, ne, k, a)))
    ]

-- A point lies in a rectangle.
abbrev pub contains : Rectangle → (u v : ℕ) → Bool
contains a u v = (leb a.x u && ltb u (a.x + a.w)) && (leb a.y v && ltb v (a.y + a.h))

-- the colour of the last rectangle in which a point lies, over the one that was there
abbrev pub painted : List Rectangle → (u v under : ℕ) → ℕ
painted [] u v under = under
painted (a ∷ us) u v under =
    painted us u v (if contains a u v then get_color_index a.r a.g a.b else under)

-- The ends of the rectangles fit in 32 bits.
abbrev pub AreInRange : List Rectangle → Type 0
AreInRange [] = Unit {0}
AreInRange (a ∷ us) = (a.x + a.w < 2 ^ 32) × (a.y + a.h < 2 ^ 32) × AreInRange us

fill_all-painted :
    (dev : Device) (seg : ℕ) (us : List Rectangle) (u v : ℕ) (d : Display)
    → KeepsSegment dev seg d.io
    → AreInRange us
    → u < 320
    → v < 200
    → pixel seg u v (fill_all dev us d) ≡ painted us u v (pixel seg u v d)
fill_all-painted dev seg [] u v d keeps range a b = refl
fill_all-painted dev seg (e ∷ us) u v d keeps (right, bottom, range) a b =
    fill_all-painted dev seg us u v (fill_rectangle dev e.x e.y e.w e.h e.r e.g e.b d)
      (fill_rectangle-KeepsSegment dev seg e.x e.y e.w e.h e.r e.g e.b d keeps) range a b
    ∙ ap (painted us u v)
        (fill_rectangle-pixel dev seg e.x e.y e.w e.h e.r e.g e.b u v d keeps right bottom a b)

pub fill_all-KeepsSegment :
    (dev : Device) (seg : ℕ) (us : List Rectangle) (d : Display)
    → KeepsSegment dev seg d.io
    → KeepsSegment dev seg (fill_all dev us d).io
fill_all-KeepsSegment dev seg [] d keeps = keeps
fill_all-KeepsSegment dev seg (e ∷ us) d keeps =
    fill_all-KeepsSegment dev seg us (fill_rectangle dev e.x e.y e.w e.h e.r e.g e.b d)
      (fill_rectangle-KeepsSegment dev seg e.x e.y e.w e.h e.r e.g e.b d keeps)

-- Let a tree of widgets, with a root that has no parent, have fewer than `n` levels, each child's
-- parent being the composite it stands in. With `n` rounds of fuel, for the way down and for the
-- ways up, drawing the root fills the rectangles of the tree, each at the sum of the places down to
-- it and before those of the widget's children. On a card that keeps its segment, and where the
-- rectangles end below 2^32, each pixel of the screen then has the colour of the last rectangle in
-- which it lies, or is as it was.
pub draw-painted :
    (n : ℕ) (gui : Gui) (dev : Device) (seg root : ℕ) (d : Display)
    → IsTree gui n root
    → (gui root).parent ≡ 0
    → KeepsSegment dev seg d.io
    → AreInRange (rectangles n gui root 0 0)
    → let us = rectangles n gui root 0 0 in
      (draw n n gui dev root d ≡ some (fill_all dev us d))
      × ((u v : ℕ)
          → u < 320
          → v < 200
          → pixel seg u v (fill_all dev us d) ≡ painted us u v (pixel seg u v d))
draw-painted n gui dev seg root d tree top keeps range = (
  unfold sum_above in draw-below n n gui dev root [] d tree (omega arith) top,
  λ u v a b. fill_all-painted dev seg (rectangles n gui root 0 0) u v d keeps range a b,
)
