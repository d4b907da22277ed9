-- ===== src/Ata/Identify.antt =====
-- What `identify` of ata.cpp takes from the device, on each of its ways out.
use blue_os.Base.{
  ℕ, zero, suc, ◌<◌, ◌≤◌, ◌≡◌, refl, ap, ◌∙◌, Bool, true, false, some, List, ◌∷◌, ◌==◌,
  if◌then◌else◌, Bool-cases, inl, inr,
}
use blue_os.Base.Words.{u8}
use blue_os.Ports.{PortEvent, written, was_read, Device, Io, read8, write8, say, drained}
use blue_os.Ata.{Ata, has_error, identify_words, identify_command, identify_data, identify}
use blue_os.Ata.Wait.{poll, error_bit, has_error_lem, settled, wait-settled, say-trace}

identify_words-drained :
    (dev : Device) (ata : Ata) (k : ℕ) (io : Io)
    → (identify_words dev ata k io).trace ≡ drained ata.data_port k io.trace
unfolding identify_words drained say
identify_words-drained dev ata zero io = refl
identify_words-drained dev ata (suc k) io = identify_words-drained dev ata k _

identify_data-drained :
    (dev : Device) (ata : Ata) (status : ℕ) (io : Io)
    → (identify_data dev ata status io).trace
      ≡ (if has_error status then io.trace else drained ata.data_port 256 io.trace)
unfolding identify_data
identify_data-drained dev ata status io = elim (Bool-cases (has_error status)) [
  | inl e ↦ rw e (say-trace _ io)
  | inr e ↦ rw e (say-trace _ _ ∙ identify_words-drained dev ata 256 io)
]

-- the state in which the drive's status is read for the first time
abbrev pub selected : Ata → Io → Io
selected ata io =
    write8 ata.control_port 0 (write8 ata.device_port (if ata.master then 0xA0 else 0xB0) io)

-- the commands of `identify` up to its first read of the status, the last one first
abbrev pub selecting : Ata → List PortEvent → List PortEvent
selecting ata es =
    was_read 8 ata.command_port
    ∷ written 8 ata.control_port 0
    ∷ written 8 ata.device_port (if ata.master then 0xA0 else 0xB0)
    ∷ es

-- the IDENTIFY command, and the read of the status behind it, the last one first
abbrev pub commanding : Ata → List PortEvent → List PortEvent
commanding ata es =
    was_read 8 ata.command_port
    ∷ written 8 ata.command_port 0xEC
    ∷ written 8 ata.lba_high_port 0
    ∷ written 8 ata.lba_mid_port 0
    ∷ written 8 ata.lba_low_port 0
    ∷ written 8 ata.sector_count_port 0
    ∷ es

byte_small : (b : Bool) → u8 (if b then 0xA0 else 0xB0) ≡ (if b then 0xA0 else 0xB0)
byte_small true = refl
byte_small false = refl

-- If the device, `n` further reads of the status after the IDENTIFY command, is not busy or has an
-- error, `identify` returns, with a fuel above `n`. It selects the drive and reads the status; if that
-- is 0xFF, the floating bus, it does no more. Else it sends zeroes and the byte 0xEC and reads the
-- status; if that is 0, it does no more. Else it polls, at most `n` times, up to the first status
-- that is not busy or has an error and no further, and takes all 256 words, or none on an error.
pub identify-words :
    (dev : Device) (ata : Ata) (n fuel : ℕ) (io : Io)
    → n < fuel
    → let (floating, io1) = read8 dev ata.command_port (selected ata io) in
      let (status, io2) = read8 dev ata.command_port (identify_command ata io1) in
      settled ((poll dev ata n status io2).0) ≡ true
      → (k : ℕ) × (k ≤ n)
        × (settled ((poll dev ata k status io2).0) ≡ true)
        × ((j : ℕ) → j < k → settled ((poll dev ata j status io2).0) ≡ false)
        × (io2.trace ≡ commanding ata (selecting ata io.trace))
        × ((out : Io) × (identify dev ata fuel io ≡ some out)
            × (let (ready, io3) = poll dev ata k status io2 in
                out.trace ≡ (
                  if floating == 0xFF
                  then selecting ata io.trace
                  else if status == 0x00
                  then commanding ata (selecting ata io.trace)
                  else if error_bit ready
                  then io3.trace
                  else drained ata.data_port 256 io3.trace)))
unfolding identify identify_command
identify-words dev ata n fuel io l h =
    let (floating, io1) = read8 dev ata.command_port (selected ata io) in
    let (status, io2) = read8 dev ata.command_port (identify_command ata io1) in
    let (k, b, e, t, early) = wait-settled dev ata n fuel status io2 l h in
    let drive : io1.trace ≡ selecting ata io.trace =
      ap
        (λ (v : ℕ).
          was_read 8 ata.command_port
          ∷ written 8 ata.control_port 0
          ∷ written 8 ata.device_port v
          ∷ io.trace)
        (byte_small ata.master) in
    let sent : io2.trace ≡ commanding ata (selecting ata io.trace) = ap (commanding ata) drive in
    let done = poll dev ata k status io2 in
    elim (Bool-cases (floating == 0xFF)) [
      | inl f ↦ (k, b, t, early, sent, (io1, rw f refl, rw f drive))
      | inr f ↦ elim (Bool-cases (status == 0x00)) [
        | inl z ↦ (k, b, t, early, sent, (io2, rw (f, z) refl, rw (f, z) sent))
        | inr z ↦ (
          k,
          b,
          t,
          early,
          sent,
          (
            identify_data dev ata done.0 done.1,
            rw (f, z, e) refl,
            rw (f, z, ← has_error_lem done.0) (identify_data-drained dev ata done.0 done.1),
          ),
        )
      ]
    ]
