-- ===== src/Ata.antt =====
-- blue_Os/src/drivers/ata.cpp: the ATA disk driver, LBA28 by programmed I/O. A driver's loop that
-- polls the status register runs on fuel, as the device may be busy for ever; `none` means that
-- the fuel ran out. A transfer loop counts the bytes that are left down to 0, two at a time. The
-- `int count` of `read28` is taken not to be negative.
pub mod Wait
pub mod Identify
pub mod Command
pub mod Ready
pub mod Transfer
mod Tests
use blue_os.Base.{
  ℕ, zero, suc, ◌+◌, ◌-◌, ◌*◌, ◌%◌, Bool, true, false, not, ◌&&◌, ◌||◌, Option, none, some, List,
  [], ◌∷◌, bit_and, bit_or, ltb, ◌==◌, if◌then◌else◌,
}
use blue_os.Base.Words.{u8, u16, ◌<<<◌, ◌>>>◌}
use blue_os.Ports.{Device, Io, write8, write16, read8, read16, say}

pub record Ata : Type 0 where
  pub master : Bool
  pub data_port : ℕ
  pub error_port : ℕ
  pub sector_count_port : ℕ
  pub lba_low_port : ℕ
  pub lba_mid_port : ℕ
  pub lba_high_port : ℕ
  pub device_port : ℕ
  pub command_port : ℕ
  pub control_port : ℕ

abbrev pub init : (master : Bool) (port_base : ℕ) → Ata
init master port_base = record {
  master = master;
  data_port = u16 port_base;
  error_port = u16 (port_base + 1);
  sector_count_port = u16 (port_base + 2);
  lba_low_port = u16 (port_base + 3);
  lba_mid_port = u16 (port_base + 4);
  lba_high_port = u16 (port_base + 5);
  device_port = u16 (port_base + 6);
  command_port = u16 (port_base + 7);
  control_port = u16 (port_base + 0x206);
}

-- the two tests of the status register
unfoldable pub is_busy : ℕ → Bool
is_busy status = bit_and status 0x80 == 0x80

unfoldable pub has_error : ℕ → Bool
has_error status = bit_and status 0x01 == 0x01

-- `while (BSY && !ERR) status = commandPort.read();`
unfoldable pub wait : Device → Ata → (fuel status : ℕ) → Io → Option (ℕ × Io)
wait dev ata zero status io = none
wait dev ata (suc fuel) status io =
    let (next, io') = read8 dev ata.command_port io in
    let rest = wait dev ata fuel next io' in
    if is_busy status && not (has_error status) then rest else some (status, io)

-- `while (BSY) status = commandPort.read();`
unfoldable pub wait_idle : Device → Ata → (fuel status : ℕ) → Io → Option (ℕ × Io)
wait_idle dev ata zero status io = none
wait_idle dev ata (suc fuel) status io =
    let (next, io') = read8 dev ata.command_port io in
    let rest = wait_idle dev ata fuel next io' in if is_busy status then rest else some (status, io)

-- "ERROR"
abbrev pub error_text : List ℕ
error_text = b'E' ∷ b'R' ∷ b'R' ∷ b'O' ∷ b'R' ∷ []

-- the loop over the words of IDENTIFY, `k` of them
unfoldable pub identify_words : Device → Ata → ℕ → Io → Io
identify_words dev ata zero io = io
identify_words dev ata (suc k) io =
    let (word, io') = read16 dev ata.data_port io in
    identify_words dev ata k (say (bit_and (word >>> 8) 0xFF ∷ bit_and word 0xFF ∷ []) io')

-- the IDENTIFY command, from the first status on that says that there is a device
unfoldable pub identify_command : Ata → Io → Io
identify_command ata io = write8 ata.command_port 0xEC (
    write8 ata.lba_high_port 0
      (write8 ata.lba_mid_port 0 (write8 ata.lba_low_port 0 (write8 ata.sector_count_port 0 io))))

unfoldable pub identify_data : Device → Ata → ℕ → Io → Io
identify_data dev ata status io =
    if has_error status then say error_text io else say (10 ∷ []) (identify_words dev ata 256 io)

unfoldable pub identify : Device → Ata → (fuel : ℕ) → Io → Option Io
unfolding identify_command identify_data
identify dev ata fuel io =
    let selected =
      write8 ata.control_port 0 (write8 ata.device_port (if ata.master then 0xA0 else 0xB0) io) in
    let (floating, io1) = read8 dev ata.command_port selected in
    let (status, io2) = read8 dev ata.command_port (identify_command ata io1) in
    if floating == 0xFF
    then some io1
    else if status == 0x00
    then some io2
    else elim (wait dev ata fuel status io2) [
      | none ↦ none
      | some (ready, io3) ↦ some (identify_data dev ata ready io3)
    ]

-- `(master ? 0xE0 : 0xF0) | ((sectorNum & 0x0F000000) >> 24)`
unfoldable pub device_byte : Bool → ℕ → ℕ
device_byte master sector =
    bit_or (if master then 0xE0 else 0xF0) (bit_and sector 0x0F000000 >>> 24)

-- the writes that address one sector and issue a command
unfoldable pub command28 : Ata → (command sector : ℕ) → Io → Io
unfolding device_byte
command28 ata command sector io = write8 ata.command_port command (
    write8 ata.lba_high_port (bit_and (sector >>> 16) 0xFF) (
      write8 ata.lba_mid_port (bit_and (sector >>> 8) 0xFF) (
        write8 ata.lba_low_port (bit_and sector 0xFF) (
          write8 ata.sector_count_port 1 (
            write8 ata.error_port 0 (write8 ata.device_port (device_byte ata.master sector) io))))))

-- The loop of `read28` over the bytes that are asked for.
unfoldable pub read_bytes : Device → Ata → (left : ℕ) → Io → Io
read_bytes dev ata zero io = io
read_bytes dev ata (suc zero) io =
    let (wdata, io') = read16 dev ata.data_port io in say (bit_and wdata 0xFF ∷ 0 ∷ []) io'
read_bytes dev ata (suc (suc left)) io =
    let (wdata, io') = read16 dev ata.data_port io in
    read_bytes dev ata left (say (bit_and wdata 0xFF ∷ bit_and (wdata >>> 8) 0xFF ∷ []) io')

-- The loop that drains the rest of the sector.
unfoldable pub drain : Device → Ata → (left : ℕ) → Io → Io
drain dev ata zero io = io
drain dev ata (suc zero) io = (read16 dev ata.data_port io).1
drain dev ata (suc (suc left)) io = drain dev ata left (read16 dev ata.data_port io).1

-- "Reading ATA Drive: "
abbrev pub reading_text : List ℕ
reading_text =
    b'R' ∷ b'e' ∷ b'a' ∷ b'd' ∷ b'i' ∷ b'n' ∷ b'g' ∷ b' ' ∷ b'A' ∷ b'T' ∷ b'A' ∷ b' ' ∷ b'D' ∷ b'r'
    ∷ b'i' ∷ b'v' ∷ b'e' ∷ b':' ∷ b' ' ∷ []

unfoldable pub read_data : Device → Ata → (count status : ℕ) → Io → Io
read_data dev ata count status io =
    if has_error status
    then say error_text io
    else drain dev ata (512 - (count + count % 2)) (read_bytes dev ata count (say reading_text io))

unfoldable pub read28 : Device → Ata → (fuel sector count : ℕ) → Io → Option Io
read28 dev ata fuel sector count io =
    let (status, io1) = read8 dev ata.command_port (command28 ata 0x20 sector io) in
    if ltb 0x0FFFFFFF sector then some io else elim (wait dev ata fuel status io1) [
      | none ↦ none
      | some (ready, io2) ↦ some (read_data dev ata count ready io2)
    ]

-- the word of two bytes, and the text printed for it
unfoldable pub pair_word : (low high : ℕ) → ℕ
pair_word low high = bit_or low (high <<< 8)

abbrev pub send_word : Ata → ℕ → Io → Io
send_word ata wdata io =
    say (bit_and (wdata >>> 8) 0xFF ∷ bit_and wdata 0xFF ∷ []) (write16 ata.data_port wdata io)

-- The loop of `write28` over the bytes of the buffer, from byte `i` on.
unfoldable pub write_bytes : Ata → (ℕ → ℕ) → (i left : ℕ) → Io → Io
write_bytes ata bytes i zero io = io
write_bytes ata bytes i (suc zero) io = send_word ata (bytes i) io
write_bytes ata bytes i (suc (suc left)) io =
    write_bytes ata bytes (i + 2) left (send_word ata (pair_word (bytes i) (bytes (i + 1))) io)

-- The loop that fills the rest of the sector with zeros.
unfoldable pub fill : Ata → (left : ℕ) → Io → Io
fill ata zero io = io
fill ata (suc zero) io = write16 ata.data_port 0x0000 io
fill ata (suc (suc left)) io = fill ata left (write16 ata.data_port 0x0000 io)

-- "Writing to ATA Drive: "
abbrev pub writing_text : List ℕ
writing_text =
    b'W' ∷ b'r' ∷ b'i' ∷ b't' ∷ b'i' ∷ b'n' ∷ b'g' ∷ b' ' ∷ b't' ∷ b'o' ∷ b' ' ∷ b'A' ∷ b'T' ∷ b'A'
    ∷ b' ' ∷ b'D' ∷ b'r' ∷ b'i' ∷ b'v' ∷ b'e' ∷ b':' ∷ b' ' ∷ []

unfoldable pub write28 : Ata → (sector : ℕ) → (bytes : ℕ → ℕ) → (count : ℕ) → Io → Io
write28 ata sector bytes count io =
    if ltb 0x0FFFFFFF sector
    then io
    else if ltb 512 count
    then io
    else fill ata (512 - (count + count % 2))
        (write_bytes ata bytes 0 count (say writing_text (command28 ata 0x30 sector io)))

-- "ATA FLUSH ERROR\n" and "ATA FLUSH Completed\n"
abbrev pub flush_error_text : List ℕ
flush_error_text =
    b'A' ∷ b'T' ∷ b'A' ∷ b' ' ∷ b'F' ∷ b'L' ∷ b'U' ∷ b'S' ∷ b'H' ∷ b' ' ∷ b'E' ∷ b'R' ∷ b'R' ∷ b'O'
    ∷ b'R' ∷ b'\n' ∷ []

abbrev pub flush_done_text : List ℕ
flush_done_text =
    b'A' ∷ b'T' ∷ b'A' ∷ b' ' ∷ b'F' ∷ b'L' ∷ b'U' ∷ b'S' ∷ b'H' ∷ b' ' ∷ b'C' ∷ b'o' ∷ b'm' ∷ b'p'
    ∷ b'l' ∷ b'e' ∷ b't' ∷ b'e' ∷ b'd' ∷ b'\n' ∷ []

unfoldable pub flush : Device → Ata → (fuel : ℕ) → Io → Option Io
flush dev ata fuel io =
    let selected = write8 ata.device_port (if ata.master then 0xE0 else 0xF0) io in
    let (status, io1) = read8 dev ata.command_port (write8 ata.command_port 0xE7 selected) in
    elim (wait_idle dev ata fuel status io1) [
      | none ↦ none
      | some (ready, io2) ↦
          some (say (if has_error ready then flush_error_text else flush_done_text) io2)
    ]
