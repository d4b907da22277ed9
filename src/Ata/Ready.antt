-- ===== src/Ata/Ready.antt =====
-- The operations of ata.cpp on a disk that is never busy: they return, and keep the screen's cursor
-- within the screen.
use blue_os.Base.{
  ℕ, zero, suc, ◌+◌, ◌-◌, ◌%◌, ◌≡◌, refl, false, Option, some, List, ltb, ◌==◌, Bool-cases, inl,
  inr, if◌then◌else◌,
}
use blue_os.Base.Words.{u8}
use blue_os.Screen.Cursor.{IsOnScreen, print-IsOnScreen}
use blue_os.Ports.{PortEvent, Device, Io, read8, read16, write8, write16, say}
use blue_os.Ata.{
  Ata, is_busy, has_error, wait, wait_idle, identify_words, identify_command, identify_data,
  identify, command28, read_bytes, drain, read_data, read28, write_bytes, fill, write28, flush,
}

-- The status that the disk gives is never a busy one.
abbrev pub IsReady : Device → Ata → Type 0
IsReady dev ata = (trace : List PortEvent) → is_busy (u8 (dev trace ata.command_port)) ≡ false

-- An operation returns, with the cursor on the screen.
abbrev pub Returns : Option Io → Type 0
Returns o = (io : Io) × (o ≡ some io) × IsOnScreen io.screen

pub say-IsOnScreen : (cs : List ℕ) (io : Io) → IsOnScreen io.screen → IsOnScreen (say cs io).screen
unfolding say
say-IsOnScreen cs io v = print-IsOnScreen cs io.screen v

identify_words-IsOnScreen :
    (dev : Device) (ata : Ata) (k : ℕ) (io : Io)
    → IsOnScreen io.screen
    → IsOnScreen (identify_words dev ata k io).screen
unfolding identify_words
identify_words-IsOnScreen dev ata zero io v = v
identify_words-IsOnScreen dev ata (suc k) io v =
    identify_words-IsOnScreen dev ata k _ (say-IsOnScreen _ ((read16 dev ata.data_port io).1) v)

identify_data-IsOnScreen :
    (dev : Device) (ata : Ata) (status : ℕ) (io : Io)
    → IsOnScreen io.screen
    → IsOnScreen (identify_data dev ata status io).screen
unfolding identify_data
identify_data-IsOnScreen dev ata status io v = elim (Bool-cases (has_error status)) [
  | inl e ↦ rw e (say-IsOnScreen _ io v)
  | inr e ↦ rw e (say-IsOnScreen _ _ (identify_words-IsOnScreen dev ata 256 io v))
]

read_bytes-IsOnScreen :
    (dev : Device) (ata : Ata) (left : ℕ) (io : Io)
    → IsOnScreen io.screen
    → IsOnScreen (read_bytes dev ata left io).screen
unfolding read_bytes
read_bytes-IsOnScreen dev ata zero io v = v
read_bytes-IsOnScreen dev ata (suc zero) io v = say-IsOnScreen _ ((read16 dev ata.data_port io).1) v
read_bytes-IsOnScreen dev ata (suc (suc left)) io v =
    read_bytes-IsOnScreen dev ata left _ (say-IsOnScreen _ ((read16 dev ata.data_port io).1) v)

drain-IsOnScreen :
    (dev : Device) (ata : Ata) (left : ℕ) (io : Io)
    → IsOnScreen io.screen
    → IsOnScreen (drain dev ata left io).screen
unfolding drain
drain-IsOnScreen dev ata zero io v = v
drain-IsOnScreen dev ata (suc zero) io v = v
drain-IsOnScreen dev ata (suc (suc left)) io v =
    drain-IsOnScreen dev ata left ((read16 dev ata.data_port io).1) v

read_data-IsOnScreen :
    (dev : Device) (ata : Ata) (count status : ℕ) (io : Io)
    → IsOnScreen io.screen
    → IsOnScreen (read_data dev ata count status io).screen
unfolding read_data
read_data-IsOnScreen dev ata count status io v = elim (Bool-cases (has_error status)) [
  | inl e ↦ rw e (say-IsOnScreen _ io v)
  | inr e ↦ rw e (
      drain-IsOnScreen dev ata (512 - (count + count % 2)) _
        (read_bytes-IsOnScreen dev ata count _ (say-IsOnScreen _ io v)))
]

write_bytes-IsOnScreen :
    (ata : Ata) (bytes : ℕ → ℕ) (i left : ℕ) (io : Io)
    → IsOnScreen io.screen
    → IsOnScreen (write_bytes ata bytes i left io).screen
unfolding write_bytes
write_bytes-IsOnScreen ata bytes i zero io v = v
write_bytes-IsOnScreen ata bytes i (suc zero) io v = say-IsOnScreen _ (write16 ata.data_port _ io) v
write_bytes-IsOnScreen ata bytes i (suc (suc left)) io v =
    write_bytes-IsOnScreen ata bytes (i + 2) left _
      (say-IsOnScreen _ (write16 ata.data_port _ io) v)

fill-IsOnScreen :
    (ata : Ata) (left : ℕ) (io : Io) → IsOnScreen io.screen → IsOnScreen (fill ata left io).screen
unfolding fill
fill-IsOnScreen ata zero io v = v
fill-IsOnScreen ata (suc zero) io v = v
fill-IsOnScreen ata (suc (suc left)) io v =
    fill-IsOnScreen ata left (write16 ata.data_port 0x0000 io) v

pub write28-IsOnScreen :
    (ata : Ata) (sector : ℕ) (bytes : ℕ → ℕ) (count : ℕ) (io : Io)
    → IsOnScreen io.screen
    → IsOnScreen (write28 ata sector bytes count io).screen
unfolding write28 command28
write28-IsOnScreen ata sector bytes count io v = elim (Bool-cases (ltb 0x0FFFFFFF sector)) [
  | inl e ↦ rw e v
  | inr e ↦ rw e (elim (Bool-cases (ltb 512 count)) [
    | inl f ↦ rw f v
    | inr f ↦ rw f (
        fill-IsOnScreen ata (512 - (count + count % 2)) _ (
          write_bytes-IsOnScreen ata bytes 0 count _
            (say-IsOnScreen _ (command28 ata 0x30 sector io) v)))
  ])
]

wait-ready :
    (dev : Device) (ata : Ata) (fuel status : ℕ) (io : Io)
    → is_busy status ≡ false
    → wait dev ata (suc fuel) status io ≡ some (status, io)
unfolding wait
wait-ready dev ata fuel status io h = rw h refl

wait_idle-ready :
    (dev : Device) (ata : Ata) (fuel status : ℕ) (io : Io)
    → is_busy status ≡ false
    → wait_idle dev ata (suc fuel) status io ≡ some (status, io)
unfolding wait_idle
wait_idle-ready dev ata fuel status io h = rw h refl

pub identify-Returns :
    (dev : Device) (ata : Ata) (fuel : ℕ) (io : Io)
    → IsReady dev ata
    → IsOnScreen io.screen
    → Returns (identify dev ata (suc fuel) io)
unfolding identify identify_command
identify-Returns dev ata fuel io ready v =
    let selected =
      write8 ata.control_port 0 (write8 ata.device_port (if ata.master then 0xA0 else 0xB0) io) in
    let first = read8 dev ata.command_port selected in
    let start = read8 dev ata.command_port (identify_command ata first.1) in
    elim (Bool-cases (first.0 == 0xFF)) [
      | inl e ↦ rw e (first.1, refl, v)
      | inr e ↦ rw e (elim (Bool-cases (start.0 == 0x00)) [
        | inl f ↦ rw f (start.1, refl, v)
        | inr f ↦
            rw (f, wait-ready dev ata fuel start.0 start.1 (ready _))
              (
                identify_data dev ata start.0 start.1,
                refl,
                identify_data-IsOnScreen dev ata start.0 start.1 v,
              )
      ])
    ]

pub read28-Returns :
    (dev : Device) (ata : Ata) (fuel sector count : ℕ) (io : Io)
    → IsReady dev ata
    → IsOnScreen io.screen
    → Returns (read28 dev ata (suc fuel) sector count io)
unfolding read28 command28
read28-Returns dev ata fuel sector count io ready v =
    let start = read8 dev ata.command_port (command28 ata 0x20 sector io) in
    elim (Bool-cases (ltb 0x0FFFFFFF sector)) [
      | inl e ↦ rw e (io, refl, v)
      | inr e ↦
          rw (e, wait-ready dev ata fuel start.0 start.1 (ready _))
            (
              read_data dev ata count start.0 start.1,
              refl,
              read_data-IsOnScreen dev ata count start.0 start.1 v,
            )
    ]

pub flush-Returns :
    (dev : Device) (ata : Ata) (fuel : ℕ) (io : Io)
    → IsReady dev ata
    → IsOnScreen io.screen
    → Returns (flush dev ata (suc fuel) io)
unfolding flush
flush-Returns dev ata fuel io ready v =
    let selected = write8 ata.device_port (if ata.master then 0xE0 else 0xF0) io in
    let start = read8 dev ata.command_port (write8 ata.command_port 0xE7 selected) in
    rw (wait_idle-ready dev ata fuel start.0 start.1 (ready _), flush)
      (_, refl, say-IsOnScreen _ start.1 v)
