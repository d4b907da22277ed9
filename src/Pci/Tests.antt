-- ===== src/Pci/Tests.antt =====
-- Runs of pci.cpp, and the theorems at a concrete controller.
use blue_os.Base.{ℕ, ◌%◌, ◌≡◌, refl, false, [], ◌∷◌, arith, ◌==◌, if◌then◌else◌}
use blue_os.Ports.{written, was_read, Device, Io}
use blue_os.Pci.{memory_mapping, LeftOver, config_id, select_drivers}
use blue_os.Screen.{print}
use blue_os.Pci.Scan.{listing, select_drivers-listing}
use blue_os.Pci.Descriptor.{AreWords}

-- a controller that serves a configuration space
abbrev serving : (ℕ → ℕ) → Device
serving space [] port = 0
serving space (written w p v ∷ es) port = if p == 0xCF8 then space v else 0
serving space (was_read w p ∷ es) port = 0

-- an ethernet card everywhere, and nothing anywhere
abbrev cards : ℕ → ℕ
cards id = if id % 256 == 0 then 0x100E8086 else if id % 256 == 8 then 0x02000002 else 0x10B

abbrev nothing : ℕ → ℕ
nothing id = 0xFFFFFFFF

cards-AreWords : AreWords cards
cards-AreWords id = ground arith

abbrev left_over : LeftOver
left_over = record {
  register = record { prefetchable = false; address = 0; size = 0; type_ = memory_mapping };
  port_base = 0;
}

abbrev start : Io
start = record { trace = []; screen = record { cells = λ _. 0x0720; x = 0; y = 0 } }

config_id_of_bar : config_id 0 3 0 0x10 ≡ 0x80001810
unfolding config_id
config_id_of_bar = refl

-- A function above 7 overlaps the device's lowest bit.
config_id_overlaps : config_id 0 1 8 0 ≡ config_id 0 1 0 0
unfolding config_id
config_id_overlaps = refl

select_drivers-listing_example :
    (select_drivers (serving cards) left_over start).screen ≡ print (listing cards) start.screen
select_drivers-listing_example =
    select_drivers-listing (serving cards) left_over cards start (λ id es. refl) cards-AreWords
