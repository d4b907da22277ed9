-- ===== src/Keyboard/Drain.antt =====
-- `activate` of keyboard.cpp: the loop that empties the buffer, and the command byte.
use blue_os.Base.{
  ℕ, zero, suc, ◌+◌, ◌*◌, ◌/◌, ◌%◌, ◌<◌, ◌≤◌, ◌≡◌, refl, Bool, true, some, List, ◌∷◌, arith,
  bit_and, ◌==◌, ==_iff, Bool-cases, inl, inr, all_below, all_below-at,
}
use blue_os.Base.Words.{u8}
use blue_os.Ports.{PortEvent, written, was_read, Device, Io, read8}
use blue_os.Keyboard.{clear_buffer, command_byte, enable, activate}

-- the ports after `n` rounds of the loop
unfoldable pub drained : Device → ℕ → Io → Io
drained dev zero io = io
drained dev (suc n) io = drained dev n (read8 dev 0x60 (read8 dev 0x64 io).1).1

-- whether the controller says that its buffer is empty
abbrev pub is_empty : Device → Io → Bool
is_empty dev io = bit_and ((read8 dev 0x64 io).0) 0x1 == 0

clear_buffer-drained :
    (dev : Device) (n fuel : ℕ) (io : Io)
    → n < fuel
    → is_empty dev (drained dev n io) ≡ true
    → (k : ℕ) × (k ≤ n)
      × (clear_buffer dev fuel io ≡ some (read8 dev 0x64 (drained dev k io)).1)
      × (is_empty dev (drained dev k io) ≡ true)
unfolding clear_buffer drained
clear_buffer-drained dev n zero io l h = absurd (omega arith)
clear_buffer-drained dev zero (suc fuel) io l h = (0, omega arith, rw h refl, h)
clear_buffer-drained dev (suc n) (suc fuel) io l h = elim (Bool-cases (is_empty dev io)) [
  | inl e ↦ (0, omega arith, rw e refl, e)
  | inr e ↦
      (let (k, b, c, t) =
          clear_buffer-drained dev n fuel (read8 dev 0x60 (read8 dev 0x64 io).1).1 (omega arith)
            h in
        (suc k, omega arith, rw e c, t))
]

-- bit 0 set, bit 4 clear, the other bits as they were
abbrev enabled_byte : ℕ → ℕ
enabled_byte s = s / 32 * 32 + s % 16 / 2 * 2 + 1

command_byte_table : all_below 256 (λ s. command_byte s == enabled_byte s) ≡ true
unfolding all_below command_byte
command_byte_table = refl

command_byte_lem : (s : ℕ) → s < 256 → command_byte s ≡ enabled_byte s
command_byte_lem s h =
    (==_iff (command_byte s) (enabled_byte s)).0
      (all_below-at 256 (λ s. command_byte s == enabled_byte s) s command_byte_table h)

-- the commands of `activate`, the last one first, with the command byte that was read
abbrev pub enabling : ℕ → List PortEvent → List PortEvent
enabling s es =
    written 8 0x60 0xF4
    ∷ written 8 0x60 (s / 32 * 32 + s % 16 / 2 * 2 + 1)
    ∷ written 8 0x64 0x60
    ∷ was_read 8 0x60
    ∷ written 8 0x64 0x20
    ∷ written 8 0x64 0xAE
    ∷ es

abbrev pub asked : List PortEvent → List PortEvent
asked es = written 8 0x64 0x20 ∷ written 8 0x64 0xAE ∷ es

enable-enabling :
    (dev : Device) (io : Io)
    → (enable dev io).trace ≡ enabling (u8 (dev (asked io.trace) 0x60)) io.trace
unfolding enable
enable-enabling dev io =
    let s : ℕ = u8 (dev (asked io.trace) 0x60) in
    let value : u8 (command_byte s) ≡ s / 32 * 32 + s % 16 / 2 * 2 + 1 =
      omega (arith, command_byte_lem s (omega arith)) in
    rw value refl

-- If the controller's buffer is empty after `n` bytes, then `activate` returns, with a fuel above
-- `n`: it reads at most `n` bytes, until the buffer is empty, and then enables the keyboard, asks
-- for the command byte, and writes the byte that the device gives for it, whatever that is, with
-- bit 0 set, bit 4 clear and the others the same.
pub activate-enabling :
    (dev : Device) (n fuel : ℕ) (io : Io)
    → n < fuel
    → is_empty dev (drained dev n io) ≡ true
    → (k : ℕ) × (k ≤ n)
      × (is_empty dev (drained dev k io) ≡ true)
      × ((out : Io) × (activate dev fuel io ≡ some out)
          × (let ready : List PortEvent = was_read 8 0x64 ∷ (drained dev k io).trace in
              out.trace ≡ enabling (u8 (dev (asked ready) 0x60)) ready))
unfolding activate
activate-enabling dev n fuel io l h =
    let (k, b, c, t) = clear_buffer-drained dev n fuel io l h in
    let ready : Io = (read8 dev 0x64 (drained dev k io)).1 in
    (k, b, t, (enable dev ready, rw (c, activate) refl, enable-enabling dev ready))
