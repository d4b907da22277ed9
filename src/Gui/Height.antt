-- ===== src/Gui/Height.antt =====
-- Widgets of widget.cpp whose tree ends: the dispatch of a mouse move to them returns.
use blue_os.Base.{
  ℕ, zero, suc, ◌+◌, ◌<◌, ◌≡◌, refl, ◌⊎◌, inl, inr, Bool, true, false, Option, none, some, List, [],
  ◌∷◌, ◌++◌, arith, Bool-cases, if◌then◌else◌,
}
use blue_os.Base.Words.{sub32}
use blue_os.Gui.{
  Gui, plain, composite, contains_coordinate, child_from, child_at, enters, on_mouse_move,
}

-- From a widget down there are fewer than `n` steps, whatever its children.
abbrev pub IsOfHeight : Gui → (n self : ℕ) → Type 0
IsOfHeight gui zero self = ⊥
IsOfHeight gui (suc n) self =
    ((gui self).class ≡ plain)
    ⊎ (((gui self).class ≡ composite)
        × ((i : ℕ) → i < (gui self).num_children → IsOfHeight gui n ((gui self).children i)))

child_from-bound :
    (gui : Gui) (k i self x y j : ℕ) → child_from gui k i self x y ≡ some j → j < i + k
unfolding child_from
child_from-bound gui zero i self x y j e = cc
child_from-bound gui (suc k) i self x y j e =
    elim (Bool-cases (contains_coordinate gui ((gui self).children i) x y)) [
      | inl t ↦ ground arith
      | inr t ↦
          (let later = child_from-bound gui k (i + 1) self x y j (rw t at e) in
            omega (arith, later))
    ]

child_at-bound :
    (gui : Gui) (self x y i : ℕ) → child_at gui self x y ≡ some i → i < (gui self).num_children
unfolding child_at
child_at-bound gui self x y i e =
    let below = child_from-bound gui (gui self).num_children 0 self _ _ i e in omega (arith, below)

-- a call of the child that was found, if there is one
call_found :
    (found : Option ℕ) (call : ℕ → Option (List ℕ))
    → ((i : ℕ) → found ≡ some i → (calls : List ℕ) × (call i ≡ some calls))
    → (calls : List ℕ) × ((elim found [ none ↦ some [] | some i ↦ call i ]) ≡ some calls)
call_found none call h = ([], refl)
call_found (some i) call h = h i refl

guarded :
    (test : Bool) (o : Option (List ℕ))
    → (calls : List ℕ) × (o ≡ some calls)
    → (calls : List ℕ) × ((if test then o else some []) ≡ some calls)
guarded true o h = h
guarded false o h = ([], refl)

-- A move of the mouse over a widget returns, where the fuel is more than the height of its tree.
pub on_mouse_move-IsOfHeight :
    (fuel : ℕ) (gui : Gui) (self oldx oldy newx newy : ℕ)
    → IsOfHeight gui fuel self
    → (calls : List ℕ) × (on_mouse_move fuel gui self oldx oldy newx newy ≡ some calls)
unfolding on_mouse_move
on_mouse_move-IsOfHeight zero gui self oldx oldy newx newy h = absurd h
on_mouse_move-IsOfHeight (suc fuel) gui self oldx oldy newx newy (inl c) =
    (self ∷ [], rw (c, on_mouse_move) refl)
on_mouse_move-IsOfHeight (suc fuel) gui self oldx oldy newx newy (inr (c, below)) =
    let inside : ℕ → Option (List ℕ) = λ i.
      on_mouse_move fuel gui ((gui self).children i) (sub32 oldx (gui self).x)
        (sub32 oldy (gui self).y) (sub32 newx (gui self).x) (sub32 newy (gui self).y) in
    let calls : (i : ℕ) → i < (gui self).num_children → (ls : List ℕ) × (inside i ≡ some ls) =
      λ i l. on_mouse_move-IsOfHeight fuel gui ((gui self).children i) _ _ _ _ (below i l) in
    let (ls, left) =
      call_found (child_at gui self oldx oldy) inside
        (λ i e. calls i (child_at-bound gui self oldx oldy i e)) in
    let (es, entered) =
      call_found (child_at gui self newx newy)
        (λ i. if enters (child_at gui self oldx oldy) i then inside i else some [])
        (λ i e. guarded _ (inside i) (calls i (child_at-bound gui self newx newy i e))) in
    (ls ++ es, rw (c, on_mouse_move, left, entered) refl)
