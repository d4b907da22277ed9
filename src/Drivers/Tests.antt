-- ===== src/Drivers/Tests.antt =====
-- A run of driver.cpp, and the theorem at concrete drivers.
use blue_os.Base.{ℕ, ◌+◌, ◌≡◌, refl, none, some, List, [], ◌∷◌, ◌==◌, if◌then◌else◌}
use blue_os.Drivers.{DriverManager, Activate}
use blue_os.Drivers.Order.{activate_each}

-- the order of the calls, the last one first; a driver at 7 goes on for ever
abbrev record_call : Activate (List ℕ)
record_call d calls = if d == 7 then none else some (d ∷ calls)

abbrev empty : DriverManager
empty = record { drivers = λ i. 900 + i; num_of_driver = 40 }

activates_in_order : activate_each record_call (3 ∷ 5 ∷ []) [] ≡ some (5 ∷ 3 ∷ [])
unfolding activate_each
activates_in_order = refl
