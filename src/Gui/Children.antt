-- ===== src/Gui/Children.antt =====
-- The children of a composite of widget.cpp: the array holds those that were accepted.
use blue_os.Base.{
  ℕ, zero, suc, ◌+◌, ◌<◌, ◌≤◌, ◌≡◌, ◌≢◌, refl, ap, ◌∙◌, Bool, true, false, List, [], ◌∷◌, ◌++◌,
  arith, length, leb, get_or, replicate, update, update_self, update_ne,
}
use blue_os.Gui.{Gui, Widget, add_child}

-- Children are added one after the other: the answers, and the state.
unfoldable pub add_children : (self : ℕ) → List ℕ → Gui → List Bool × Gui
add_children self [] gui = ([], gui)
add_children self (c ∷ cs) gui =
    let (answer, gui') = add_child self c gui in
    let (answers, gui'') = add_children self cs gui' in (answer ∷ answers, gui'')

-- The accepted children stand in the array behind those that were there, and nothing else changes.
pub record IsGrown (self : ℕ) (cs : List ℕ) (gui gui' : Gui) : Type 0 where
  pub count : (gui' self).num_children ≡ (gui self).num_children + length cs
  pub new :
      (i : ℕ) → i < length cs → (gui' self).children ((gui self).num_children + i) ≡ get_or cs i 0
  pub old : (i : ℕ) → i < (gui self).num_children → (gui' self).children i ≡ (gui self).children i
  pub others : (q : ℕ) → q ≢ self → gui' q ≡ gui q

-- the state after a child is accepted
abbrev with_child : (self child : ℕ) → Gui → Gui
with_child self child gui = update gui self (record (gui self) {
  children = update (gui self).children (gui self).num_children child;
  num_children = (gui self).num_children + 1;
})

with_child_self :
    (self child : ℕ) (gui : Gui)
    → with_child self child gui self ≡ record (gui self) {
      children = update (gui self).children (gui self).num_children child;
      num_children = (gui self).num_children + 1;
    }
with_child_self self child gui = update_self gui self _

add_child-accepted :
    (self child : ℕ) (gui : Gui)
    → (gui self).num_children < 100
    → add_child self child gui ≡ (true, with_child self child gui)
unfolding add_child
add_child-accepted self child gui l =
    let few : leb 100 (gui self).num_children ≡ false = ground arith in rw few refl

add_child-refused :
    (self child : ℕ) (gui : Gui)
    → 100 ≤ (gui self).num_children
    → add_child self child gui ≡ (false, gui)
unfolding add_child
add_child-refused self child gui l =
    let full : leb 100 (gui self).num_children ≡ true = ground arith in rw full refl

add_children-refused :
    (self : ℕ) (cs : List ℕ) (gui : Gui)
    → 100 ≤ (gui self).num_children
    → add_children self cs gui ≡ (replicate (length cs) false, gui)
unfolding add_children
add_children-refused self [] gui full = refl
add_children-refused self (c ∷ cs) gui full =
    rw (add_child-refused self c gui full, add_children-refused self cs gui full) refl

with_child-count :
    (self c : ℕ) (gui : Gui)
    → (with_child self c gui self).num_children ≡ (gui self).num_children + 1
with_child-count self c gui = ap (λ (w : Widget). w.num_children) (with_child_self self c gui)

with_child-array :
    (self c : ℕ) (gui : Gui) (i : ℕ)
    → (with_child self c gui self).children i
      ≡ update (gui self).children (gui self).num_children c i
with_child-array self c gui i = ap (λ (w : Widget). w.children i) (with_child_self self c gui)

new-step :
    (self c : ℕ) (cs : List ℕ) (gui gui' : Gui)
    → IsGrown self cs (with_child self c gui) gui'
    → (i : ℕ) → i < length (c ∷ cs)
    → (gui' self).children ((gui self).num_children + i) ≡ get_or (c ∷ cs) i 0
new-step self c cs gui gui' g zero l =
    let here : (gui self).num_children + 0 ≡ (gui self).num_children = omega arith in
    rw here (
      g.old (gui self).num_children (omega (arith, with_child-count self c gui))
      ∙ with_child-array self c gui (gui self).num_children
      ∙ update_self (gui self).children (gui self).num_children c)
new-step self c cs gui gui' g (suc i) l =
    let next : (gui self).num_children + suc i ≡ (with_child self c gui self).num_children + i =
      omega (arith, with_child-count self c gui) in
    ap (gui' self).children next ∙ g.new i (omega arith)

IsGrown-step :
    (self c : ℕ) (cs : List ℕ) (gui gui' : Gui)
    → IsGrown self cs (with_child self c gui) gui'
    → IsGrown self (c ∷ cs) gui gui'
IsGrown-step self c cs gui gui' g = record {
  count = omega (arith, g.count, with_child-count self c gui);
  new = new-step self c cs gui gui' g;
  old = λ i l.
      g.old i (omega (arith, with_child-count self c gui))
      ∙ with_child-array self c gui i
      ∙ update_ne (gui self).children (gui self).num_children i c (omega arith);
  others = λ q ne. g.others q ne ∙ update_ne gui self q _ ne;
}

IsGrown-none : (self : ℕ) (gui : Gui) → IsGrown self [] gui gui
IsGrown-none self gui = record {
  count = omega arith;
  new = λ i l. absurd (omega arith);
  old = λ i l. refl;
  others = λ q ne. refl;
}

-- Children are added to a composite one after the other, where the first of them bring their number
-- to at most 100, and to 100 if there are more. The first are accepted: the array holds them in
-- their order behind those that were there. The rest are refused and change nothing, and no other
-- widget changes.
pub add_children-IsGrown :
    (self : ℕ) (cs ds : List ℕ) (gui : Gui)
    → (gui self).num_children + length cs ≤ 100
    → (0 < length ds → (gui self).num_children + length cs ≡ 100)
    → (gui' : Gui) × (add_children self (cs ++ ds) gui
        ≡ (replicate (length cs) true ++ replicate (length ds) false, gui'))
      × IsGrown self cs gui gui'
unfolding add_children
add_children-IsGrown self [] [] gui room full = (gui, refl, IsGrown-none self gui)
add_children-IsGrown self [] (d ∷ ds) gui room full =
    let count = full (omega arith) in
    (gui, add_children-refused self (d ∷ ds) gui (omega arith), IsGrown-none self gui)
add_children-IsGrown self (c ∷ cs) ds gui room full =
    let more = with_child-count self c gui in
    let (gui', e, g) =
      add_children-IsGrown self cs ds (with_child self c gui) (omega (arith, more))
        (λ l. let all = full l in omega (arith, more, all)) in
    (
      gui',
      rw (add_child-accepted self c gui (omega arith), e) refl,
      IsGrown-step self c cs gui gui' g,
    )
