-- ===== src/Pci/Descriptor.antt =====
-- What pci.cpp reads from a configuration space.
use blue_os.Base.{ℕ, ◌+◌, ◌*◌, ◌/◌, ◌%◌, ◌^◌, ◌<◌, ◌≡◌, refl, ap, List, ◌∷◌, arith}
use blue_os.Base.Words.{u32}
use blue_os.Ports.{PortEvent, written, Device, Io}
use blue_os.Pci.{LeftOver, config_id, read, get_device_descriptor}
use blue_os.Pci.Address.{config_id-aligned, config_id-bound}

-- A bus controller answers at the data port with the double word of the configuration space whose
-- address was written last to the command port.
abbrev pub Serves : Device → (ℕ → ℕ) → Type 0
Serves dev space = (id : ℕ) (es : List PortEvent) → dev (written 32 0xCF8 id ∷ es) 0xCFC ≡ space id

abbrev pub AreWords : (ℕ → ℕ) → Type 0
AreWords space = (id : ℕ) → space id < 2 ^ 32

pub read-Serves :
    (dev : Device) (space : ℕ → ℕ) (bus device function offset : ℕ) (io : Io)
    → Serves dev space
    → AreWords space
    → function < 8
    → (read dev bus device function offset io).0
      ≡ space (config_id bus device function (offset / 4 * 4)) / 2 ^ (8 * (offset % 4))
unfolding read
read-Serves dev space bus device function offset io serves words h =
    let id = config_id-bound bus device function offset h in
    let value = serves (config_id bus device function offset) io.trace in
    let small = words (config_id bus device function offset) in
    let whole : u32 (space (config_id bus device function offset))
        ≡ space (config_id bus device function offset) =
      omega arith in
    rw (id, value, whole)
      (ap (λ (a : ℕ). space a / 2 ^ (8 * (offset % 4)))
        (config_id-aligned bus device function offset h))

-- For a function below 8 of a controller that serves a configuration space of 32-bit words, the
-- descriptor has the parts of the words at 0x00 and 0x08 and all of the word at 0x3C: vendor and
-- device, revision, interface, subclass and class, and the interrupt.
pub get_device_descriptor-Serves :
    (dev : Device) (left_over : LeftOver) (space : ℕ → ℕ) (bus device function : ℕ) (io : Io)
    → Serves dev space
    → AreWords space
    → function < 8
    → let d = (get_device_descriptor dev left_over bus device function io).0 in
      let word : ℕ → ℕ = λ o. space (config_id bus device function o) in
      (d.vendor_id + d.device_id * 2 ^ 16 ≡ word 0x00)
      × (d.revision + d.interface_id * 2 ^ 8 + d.subclass_id * 2 ^ 16 + d.class_id * 2 ^ 24
          ≡ word 0x08)
      × (d.interrupt ≡ word 0x3C)
      × (d.vendor_id ≡ word 0x00 % 2 ^ 16)
unfolding get_device_descriptor
get_device_descriptor-Serves dev left_over space bus device function io serves words h =
    let at : (o : ℕ) (t : Io)
        → (read dev bus device function o t).0
          ≡ space (config_id bus device function (o / 4 * 4)) / 2 ^ (8 * (o % 4)) =
      λ o t. read-Serves dev space bus device function o t serves words h in
    let small0 = words (config_id bus device function 0) in
    let small8 = words (config_id bus device function 8) in
    (
      rw (at 0x00 _, at 0x02 _) (omega arith),
      rw (at 0x08 _, at 0x09 _, at 0x0A _, at 0x0B _) (omega arith),
      rw (at 0x3C _) (omega arith),
      rw (at 0x00 _) (omega arith),
    )

pub descriptor-screen :
    (dev : Device) (left_over : LeftOver) (bus device function : ℕ) (io : Io)
    → (get_device_descriptor dev left_over bus device function io).1.screen ≡ io.screen
unfolding get_device_descriptor read
descriptor-screen dev left_over bus device function io = refl
