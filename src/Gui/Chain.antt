-- ===== src/Gui/Chain.antt =====
-- The composites above a widget of widget.cpp: `getFocus` sets their focus on the way up, and a key
-- follows it on the way down.
use blue_os.Base.{
  ℕ, zero, suc, ◌+◌, ◌<◌, ◌≤◌, ◌≡◌, ◌≢◌, refl, sym, ap, ◌∙◌, some, List, [], ◌∷◌, arith, ==_ne,
  length,
}
use blue_os.Gui.{Gui, plain, composite, set_focus, get_focus, on_key}

-- Composites from a widget's parent up to the root: each is the parent of the one before it.
abbrev pub Ancestors : Gui → (self : ℕ) → List ℕ → Type 0
Ancestors gui self [] = (gui self).parent ≡ 0
Ancestors gui self (p ∷ ps) =
    ((gui self).parent ≡ p) × (p ≢ 0) × ((gui p).class ≡ composite) × Ancestors gui p ps

-- A widget is none of these, and these differ from one another.
abbrev pub NotIn : ℕ → List ℕ → Type 0
NotIn a [] = Unit {0}
NotIn a (p ∷ ps) = (a ≢ p) × NotIn a ps

abbrev pub AllDifferent : List ℕ → Type 0
AllDifferent [] = Unit {0}
AllDifferent (p ∷ ps) = NotIn p ps × AllDifferent ps

-- The focus is set on the way up.
unfoldable pub set_chain : (child : ℕ) → List ℕ → Gui → Gui
set_chain child [] gui = gui
set_chain child (p ∷ ps) gui = set_chain p ps (set_focus p child gui)

set_focus-parent :
    (self child q : ℕ) (gui : Gui) → (set_focus self child gui q).parent ≡ (gui q).parent
unfolding set_focus
set_focus-parent self child q gui = ground arith

set_focus-class :
    (self child q : ℕ) (gui : Gui) → (set_focus self child gui q).class ≡ (gui q).class
unfolding set_focus
set_focus-class self child q gui = ground arith

Ancestors-set_focus :
    (self child a : ℕ) (ps : List ℕ) (gui : Gui)
    → Ancestors gui a ps
    → Ancestors (set_focus self child gui) a ps
Ancestors-set_focus self child a [] gui h = set_focus-parent self child a gui ∙ h
Ancestors-set_focus self child a (p ∷ ps) gui (h, ne, c, up) = (
  set_focus-parent self child a gui ∙ h,
  ne,
  set_focus-class self child p gui ∙ c,
  Ancestors-set_focus self child p ps gui up,
)

-- A composite that is passed a widget sets the focus in itself and in all above it.
get_focus-composite :
    (fuel p child : ℕ) (ps : List ℕ) (gui : Gui)
    → length ps < fuel
    → (gui p).class ≡ composite
    → Ancestors gui p ps
    → get_focus fuel p child gui ≡ some (set_chain child (p ∷ ps) gui)
unfolding get_focus set_chain
get_focus-composite zero p child ps gui l c up = absurd (omega arith)
get_focus-composite (suc fuel) p child [] gui l c up = rw (c, up) refl
get_focus-composite (suc fuel) p child (q ∷ ps) gui l c (h, ne, c', up) =
    rw (c, h, ==_ne q 0 ne)
      (get_focus-composite fuel q p ps (set_focus p child gui) (omega arith)
        (set_focus-class p child q gui ∙ c') (Ancestors-set_focus p child q ps gui up))

pub get_focus-plain :
    (fuel self : ℕ) (ps : List ℕ) (gui : Gui)
    → length ps < fuel
    → (gui self).class ≡ plain
    → Ancestors gui self ps
    → get_focus fuel self self gui ≡ some (set_chain self ps gui)
unfolding get_focus set_chain
get_focus-plain zero self ps gui l c up = absurd (omega arith)
get_focus-plain (suc fuel) self [] gui l c up = rw (c, up) refl
get_focus-plain (suc fuel) self (q ∷ ps) gui l c (h, ne, c', up) =
    rw (c, h, ==_ne q 0 ne) (get_focus-composite fuel q self ps gui (omega arith) c' up)

-- A widget has one list of ancestors, so none of them stands in it twice.
Ancestors-length :
    (gui : Gui) (a b : ℕ) (ps qs : List ℕ)
    → a ≡ b
    → Ancestors gui a ps
    → Ancestors gui b qs
    → length ps ≡ length qs
Ancestors-length gui a b [] [] e h k = refl
Ancestors-length gui a b [] (q ∷ qs) e h (k, ne, c, up) =
    absurd (ne (sym k ∙ ap (λ (v : ℕ). (gui v).parent) (sym e) ∙ h))
Ancestors-length gui a b (p ∷ ps) [] e (h, ne, c, up) k =
    absurd (ne (sym h ∙ ap (λ (v : ℕ). (gui v).parent) e ∙ k))
Ancestors-length gui a b (p ∷ ps) (q ∷ qs) e (h, ne, c, up) (k, ne', c', up') =
    ap suc (Ancestors-length gui p q ps qs (sym h ∙ ap (λ (v : ℕ). (gui v).parent) e ∙ k) up up')

NotIn-Ancestors :
    (gui : Gui) (a b : ℕ) (ps qs : List ℕ)
    → Ancestors gui a ps
    → Ancestors gui b qs
    → length qs ≤ length ps
    → NotIn a qs
NotIn-Ancestors gui a b ps [] h k l = tt
NotIn-Ancestors gui a b ps (q ∷ qs) h (k, ne, c, up) l = (
  λ e. absurd (let same = Ancestors-length gui a q ps qs e h up in omega (arith, same)),
  NotIn-Ancestors gui a q ps qs h up (omega arith),
)

pub AllDifferent-Ancestors :
    (gui : Gui) (a : ℕ) (ps : List ℕ) → Ancestors gui a ps → AllDifferent ps
AllDifferent-Ancestors gui a [] h = tt
AllDifferent-Ancestors gui a (p ∷ ps) (h, ne, c, up) =
    (NotIn-Ancestors gui p p ps ps up up (omega arith), AllDifferent-Ancestors gui p ps up)

set_focus-other :
    (self child q : ℕ) (gui : Gui)
    → q ≢ self
    → (set_focus self child gui q).focussed_child ≡ (gui q).focussed_child
unfolding set_focus
set_focus-other self child q gui ne = ground arith

set_focus_self :
    (self child : ℕ) (gui : Gui) → (set_focus self child gui self).focussed_child ≡ child
unfolding set_focus
set_focus_self self child gui = ground arith

set_chain-other :
    (child q : ℕ) (ps : List ℕ) (gui : Gui)
    → NotIn q ps
    → (set_chain child ps gui q).focussed_child ≡ (gui q).focussed_child
unfolding set_chain
set_chain-other child q [] gui h = refl
set_chain-other child q (p ∷ ps) gui (ne, h) =
    set_chain-other p q ps (set_focus p child gui) h ∙ set_focus-other p child q gui ne

pub set_chain-class :
    (child q : ℕ) (ps : List ℕ) (gui : Gui) → (set_chain child ps gui q).class ≡ (gui q).class
unfolding set_chain
set_chain-class child q [] gui = refl
set_chain-class child q (p ∷ ps) gui =
    set_chain-class p q ps (set_focus p child gui) ∙ set_focus-class p child q gui

-- From the root down to a widget, each composite's focus is the next one.
unfoldable pub Points : Gui → (child : ℕ) → List ℕ → Type 0
Points gui child [] = Unit {0}
Points gui child (p ∷ ps) =
    ((gui p).focussed_child ≡ child) × ((gui p).class ≡ composite) × (child ≢ 0) × Points gui p ps

pub Points-set_chain :
    (child : ℕ) (ps : List ℕ) (gui : Gui)
    → child ≢ 0
    → Ancestors gui child ps
    → AllDifferent ps
    → Points (set_chain child ps gui) child ps
unfolding Points set_chain
Points-set_chain child [] gui ne h d = tt
Points-set_chain child (p ∷ ps) gui ne (h, ne', c, up) (d, ds) = (
  set_chain-other p p ps (set_focus p child gui) d ∙ set_focus_self p child gui,
  set_chain-class p p ps (set_focus p child gui) ∙ set_focus-class p child p gui ∙ c,
  ne,
  Points-set_chain p ps (set_focus p child gui) ne' (Ancestors-set_focus p child p ps gui up) ds,
)

-- the last of a widget and its ancestors
unfoldable pub root_of : (self : ℕ) → List ℕ → ℕ
root_of self [] = self
root_of self (p ∷ ps) = root_of p ps

on_key-composite :
    (fuel : ℕ) (gui : Gui) (p child : ℕ)
    → (gui p).class ≡ composite
    → (gui p).focussed_child ≡ child
    → child ≢ 0
    → on_key (suc fuel) gui p ≡ on_key fuel gui child
unfolding on_key
on_key-composite fuel gui p child c h ne = rw (c, on_key, h, ==_ne child 0 ne) refl

pub on_key-Points :
    (fuel : ℕ) (gui : Gui) (child : ℕ) (ps reached : List ℕ)
    → Points gui child ps
    → on_key fuel gui child ≡ some reached
    → on_key (fuel + length ps) gui (root_of child ps) ≡ some reached
unfolding Points root_of
on_key-Points fuel gui child [] reached h e = let same : fuel + 0 ≡ fuel = omega arith in rw same e
on_key-Points fuel gui child (p ∷ ps) reached (h, c, ne, hs) e =
    let next = on_key-composite fuel gui p child c h ne ∙ e in
    let count : fuel + suc (length ps) ≡ suc fuel + length ps = omega arith in
    rw count (on_key-Points (suc fuel) gui p ps reached hs next)
