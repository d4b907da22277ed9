-- ===== src/Drivers/Order.antt =====
-- The order in which driver.cpp activates the drivers that were added.
use blue_os.Base.{
  ℕ, ◌+◌, ◌≤◌, ◌≡◌, refl, ap, ◌∙◌, Option, none, some, List, [], ◌∷◌, ◌++◌, arith, length,
  length-append, update, update_self, update_ne, append_assoc, append-nil,
}
use blue_os.Drivers.{DriverManager, Activate, init, add_driver, activate_from, activate_all}

-- drivers added one after the other
unfoldable pub add_each : List ℕ → DriverManager → DriverManager
add_each [] m = m
add_each (d ∷ ds) m = add_each ds (add_driver d m)

-- drivers activated one after the other, up to one that goes on for ever
unfoldable pub activate_each : {S : Type 0} → Activate S → List ℕ → S → Option S
activate_each activate [] s = some s
activate_each activate (d ∷ ds) s = elim (activate d s) [
  | none ↦ none
  | some s' ↦ activate_each activate ds s'
]

-- The array holds a list of drivers from place `i` on.
abbrev Holds : DriverManager → ℕ → List ℕ → Type 0
Holds m i [] = Unit {0}
Holds m i (d ∷ ds) = (m.drivers i ≡ d) × Holds m (i + 1) ds

bind-equal :
    {S : Type 0} (o : Option S) (f g : S → Option S)
    → ((s : S) → f s ≡ g s)
    → (elim o [ none ↦ none | some s ↦ f s ]) ≡ (elim o [ none ↦ none | some s ↦ g s ])
bind-equal none f g h = refl
bind-equal (some s) f g h = h s

activate_from-Holds :
    {S : Type 0} (activate : Activate S) (m : DriverManager) (i : ℕ) (ds : List ℕ) (s : S)
    → Holds m i ds
    → activate_from activate m (length ds) i s ≡ activate_each activate ds s
unfolding activate_from activate_each
activate_from-Holds activate m i [] s h = refl
activate_from-Holds activate m i (d ∷ ds) s (e, h) =
    ap
      (λ (p : ℕ). elim (activate p s) [
        | none ↦ none
        | some s' ↦ activate_from activate m (length ds) (i + 1) s'
      ])
      e
    ∙ bind-equal (activate d s) (activate_from activate m (length ds) (i + 1))
        (activate_each activate ds) (λ s'. activate_from-Holds activate m (i + 1) ds s' h)

Holds-add_driver :
    (d : ℕ) (m : DriverManager) (i : ℕ) (ds : List ℕ)
    → i + length ds ≡ m.num_of_driver
    → Holds m i ds
    → Holds (add_driver d m) i (ds ++ d ∷ [])
unfolding add_driver
Holds-add_driver d m i [] e h =
    let at : i ≡ m.num_of_driver = omega arith in
    (ap (update m.drivers m.num_of_driver d) at ∙ update_self m.drivers m.num_of_driver d, tt)
Holds-add_driver d m i (d' ∷ ds) e (h, hs) = (
  update_ne m.drivers m.num_of_driver i d (omega arith) ∙ h,
  Holds-add_driver d m (i + 1) ds (omega arith) hs,
)

add_each-Holds :
    (ds added : List ℕ) (m : DriverManager)
    → length added ≡ m.num_of_driver
    → Holds m 0 added
    → ((add_each ds m).num_of_driver ≡ length (added ++ ds)) × Holds (add_each ds m) 0 (added ++ ds)
unfolding add_each
add_each-Holds [] added m e h = rw (append-nil added) (omega arith, h)
add_each-Holds (d ∷ ds) added m e h =
    let more = Holds-add_driver d m 0 added (omega arith) h in
    let count : length (added ++ d ∷ []) ≡ (add_driver d m).num_of_driver =
      unfold add_driver in omega (arith, length-append added (d ∷ [])) in
    let rest = add_each-Holds ds (added ++ d ∷ []) (add_driver d m) count more in
    rw (← append_assoc added (d ∷ []) ds) rest

-- From a new manager, whatever its array held, drivers that are added, at most 256 of them, are
-- activated in that order, each in the state that the one before left; none that was not added is
-- activated, and the rest are not if one of them goes on for ever.
pub activate_all-add_each :
    {S : Type 0} (activate : Activate S) (ds : List ℕ) (m : DriverManager) (s : S)
    → length ds ≤ 256
    → activate_all activate (add_each ds (init m)) s ≡ activate_each activate ds s
unfolding activate_all
activate_all-add_each activate ds m s few =
    let none_yet : length {A = ℕ} [] ≡ (init m).num_of_driver = unfold init in refl in
    let (count, holds) = add_each-Holds ds [] (init m) none_yet tt in
    ap (λ (k : ℕ). activate_from activate (add_each ds (init m)) k 0 s) count
    ∙ activate_from-Holds activate (add_each ds (init m)) 0 ds s holds
