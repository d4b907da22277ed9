-- ===== src/Gui/Focus.antt =====
-- Where the focus goes on a click of widget.cpp, and where a key goes then.
use blue_os.Base.{
  ℕ, zero, suc, ◌+◌, ◌<◌, ◌≡◌, ◌≢◌, refl, sym, ap, ◌∙◌, true, some, List, [], ◌∷◌, arith, length,
}
use blue_os.Base.Words.{sub32}
use blue_os.Gui.{Gui, plain, composite, child_at, on_mouse_down, on_key}
use blue_os.Gui.Chain.{
  Ancestors, set_chain, set_chain-class, get_focus-plain, AllDifferent-Ancestors, Points-set_chain,
  root_of, on_key-Points,
}

-- The point leads from a composite to the first of its children that contains it, whose parent it
-- is, and so on down the path to a plain widget that takes the focus.
abbrev pub Hits : Gui → (self : ℕ) → List ℕ → (x y : ℕ) → Type 0
Hits gui self [] x y = (self ≢ 0) × ((gui self).class ≡ plain) × ((gui self).focusable ≡ true)
Hits gui self (c ∷ path) x y =
    (self ≢ 0)
    × ((gui self).class ≡ composite)
    × ((gui c).parent ≡ self)
    × ((i : ℕ) × (child_at gui self x y ≡ some i) × ((gui self).children i ≡ c))
    × Hits gui c path (sub32 x (gui self).x) (sub32 y (gui self).y)

-- the plain widget at the end of the path, and the composites above it
abbrev pub target : (self : ℕ) → List ℕ → ℕ
target self [] = self
target self (c ∷ path) = target c path

ascend : (self : ℕ) → (path above : List ℕ) → List ℕ
ascend self [] above = above
ascend self (c ∷ path) above = ascend c path (self ∷ above)

length-ascend :
    (self : ℕ) (path above : List ℕ) → length (ascend self path above) ≡ length path + length above
unfolding ascend
length-ascend self [] above = omega arith
length-ascend self (c ∷ path) above = omega (arith, length-ascend c path (self ∷ above))

root_of-ascend :
    (self : ℕ) (path above : List ℕ)
    → root_of (target self path) (ascend self path above) ≡ root_of self above
unfolding ascend root_of
root_of-ascend self [] above = refl
root_of-ascend self (c ∷ path) above = root_of-ascend c path (self ∷ above)

Ancestors-ascend :
    (gui : Gui) (self : ℕ) (path above : List ℕ) (x y : ℕ)
    → Hits gui self path x y
    → Ancestors gui self above
    → Ancestors gui (target self path) (ascend self path above)
unfolding ascend
Ancestors-ascend gui self [] above x y h up = up
Ancestors-ascend gui self (c ∷ path) above x y (ne, k, parent, found, h) up =
    Ancestors-ascend gui c path (self ∷ above) _ _ h (parent, ne, k, up)

target-Hits :
    (gui : Gui) (self : ℕ) (path : List ℕ) (x y : ℕ)
    → Hits gui self path x y
    → (target self path ≢ 0) × ((gui (target self path)).class ≡ plain)
target-Hits gui self [] x y (ne, c, f) = (ne, c)
target-Hits gui self (c ∷ path) x y (ne, k, parent, found, h) = target-Hits gui c path _ _ h

on_mouse_down-set_chain :
    (fuel up : ℕ) (gui : Gui) (self : ℕ) (path above : List ℕ) (x y : ℕ)
    → length path < fuel
    → length path + length above < up
    → Hits gui self path x y
    → Ancestors gui self above
    → on_mouse_down fuel up gui self x y
      ≡ some (set_chain (target self path) (ascend self path above) gui)
unfolding on_mouse_down ascend
on_mouse_down-set_chain zero up gui self path above x y l m h a = absurd (omega arith)
on_mouse_down-set_chain (suc fuel) up gui self [] above x y l m (ne, c, f) a =
    rw (c, on_mouse_down, f) (get_focus-plain up self above gui (omega arith) c a)
on_mouse_down-set_chain (suc fuel) up gui self (c ∷ path) above x y l m
      (ne, k, parent, (i, e, child), h) a =
    rw (k, on_mouse_down, e, child)
      (on_mouse_down-set_chain fuel up gui c path (self ∷ above) (sub32 x (gui self).x)
        (sub32 y (gui self).y) (omega arith) (omega arith) h (parent, ne, k, a))

on_key-plain :
    (fuel self : ℕ) (gui : Gui)
    → (gui self).class ≡ plain
    → on_key (suc fuel) gui self ≡ some (self ∷ [])
unfolding on_key
on_key-plain fuel self gui c = rw (c, on_key) refl

-- A click at a point that leads from the root of a tree to a plain widget that takes the focus
-- returns, with more fuel than there are steps on the way. From then on a key that is given to the
-- root is passed on to that widget, and to no other.
pub on_key-on_mouse_down :
    (fuel up : ℕ) (gui : Gui) (root : ℕ) (path : List ℕ) (x y : ℕ)
    → length path < fuel
    → length path < up
    → (gui root).parent ≡ 0
    → Hits gui root path x y
    → (gui' : Gui) × (on_mouse_down fuel up gui root x y ≡ some gui')
      × (on_key (suc (length path)) gui' root ≡ some (target root path ∷ []))
on_key-on_mouse_down fuel up gui root path x y l m top h =
    let leaf : ℕ = target root path in
    let above : List ℕ = ascend root path [] in
    let gui' : Gui = set_chain leaf above gui in
    let (ne, class) = target-Hits gui root path x y h in
    let chain = Ancestors-ascend gui root path [] x y h top in
    let count : length above ≡ length path + 0 = length-ascend root path [] in
    let points =
      Points-set_chain leaf above gui ne chain (AllDifferent-Ancestors gui leaf above chain) in
    let reached =
      on_key-Points 1 gui' leaf above (leaf ∷ []) points
        (on_key-plain 0 leaf gui' (set_chain-class leaf leaf above gui ∙ class)) in
    let fuel_is : suc (length path) ≡ 1 + length above = omega arith in
    let root_is : root ≡ root_of leaf above =
      sym (root_of-ascend root path [] ∙ (unfold root_of in refl)) in
    (
      gui',
      on_mouse_down-set_chain fuel up gui root path [] x y l (omega arith) h top,
      ap (λ (n : ℕ). on_key n gui' root) fuel_is
          ∙ ap (λ (a : ℕ). on_key (1 + length above) gui' a) root_is
          ∙ reached,
    )
