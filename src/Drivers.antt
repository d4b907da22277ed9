-- ===== src/Drivers.antt =====
-- blue_Os/src/drivers/driver.cpp: the driver manager. Drivers are objects at addresses. `addDriver`
-- does not check the array's 256 places: the model keeps an entry behind them too.
pub mod Order
mod Tests
use blue_os.Base.{ℕ, zero, suc, ◌+◌, Option, none, some, update}

pub record DriverManager : Type 0 where
  pub drivers : ℕ → ℕ
  pub num_of_driver : ℕ

-- The constructor leaves the array as it was.
unfoldable pub init : DriverManager → DriverManager
init m = record m { num_of_driver = 0 }

unfoldable pub add_driver : ℕ → DriverManager → DriverManager
add_driver drv m = record m {
  drivers = update m.drivers m.num_of_driver drv;
  num_of_driver = m.num_of_driver + 1;
}

-- What the virtual `activate` of the driver at an address does; `none` is a driver that goes on
-- for ever.
abbrev pub Activate : Type 0 → Type 0
Activate S = (driver : ℕ) → S → Option S

-- The loop of `activateAll` from `i` on, with `k` rounds left.
unfoldable pub activate_from : {S : Type 0} → Activate S → DriverManager → (k i : ℕ) → S → Option S
activate_from activate m zero i s = some s
activate_from activate m (suc k) i s = elim (activate (m.drivers i) s) [
  | none ↦ none
  | some s' ↦ activate_from activate m k (i + 1) s'
]

unfoldable pub activate_all : {S : Type 0} → Activate S → DriverManager → S → Option S
unfolding activate_from
activate_all activate m s = activate_from activate m m.num_of_driver 0 s
