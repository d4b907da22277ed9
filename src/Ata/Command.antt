-- ===== src/Ata/Command.antt =====
-- What the registers of the drive hold after the writes of `command28` of ata.cpp.
use blue_os.Base.{
  ℕ, ◌+◌, ◌*◌, ◌/◌, ◌%◌, ◌^◌, ◌<◌, ◌≤◌, ◌≡◌, Bool, true, false, some, bit_and, bit_or, arith, ap,
  ◌∙◌, if◌then◌else◌,
}
use blue_os.Base.Bits.{bit_and-field, bit_or-fields}
use blue_os.Base.Words.{u8, and_0xff, ◌>>>◌}
use blue_os.Ports.{Io, last_written}
use blue_os.Ata.{Ata, init, device_byte, command28}

pub device_byte_lem :
    (master : Bool) (sector : ℕ)
    → device_byte master sector ≡ (if master then 14 else 15) * 16 + sector / 2 ^ 24 % 16
unfolding device_byte
device_byte_lem true sector =
    rw (bit_and-field 24 4 sector)
      (ap (bit_or 0xE0) (omega arith) ∙ bit_or-fields 4 14 (sector / 2 ^ 24 % 16) (omega arith))
device_byte_lem false sector =
    rw (bit_and-field 24 4 sector)
      (ap (bit_or 0xF0) (omega arith) ∙ bit_or-fields 4 15 (sector / 2 ^ 24 % 16) (omega arith))

-- The last values written to the drive's registers select the drive, and are the four parts of a
-- sector number, a count of one sector, and a command.
pub record Addresses (ata : Ata) (command sector : ℕ) (io : Io) : Type 0 where
  pub device : ℕ
  pub low : ℕ
  pub mid : ℕ
  pub high : ℕ
  pub to_device : last_written ata.device_port io.trace ≡ some device
  pub to_low : last_written ata.lba_low_port io.trace ≡ some low
  pub to_mid : last_written ata.lba_mid_port io.trace ≡ some mid
  pub to_high : last_written ata.lba_high_port io.trace ≡ some high
  pub to_count : last_written ata.sector_count_port io.trace ≡ some 1
  pub to_command : last_written ata.command_port io.trace ≡ some command
  pub drive : device / 16 ≡ (if ata.master then 14 else 15)
  pub whole : device % 16 * 2 ^ 24 + high * 2 ^ 16 + mid * 2 ^ 8 + low ≡ sector

drive_bits :
    (master : Bool) (sector : ℕ) → u8 (device_byte master sector) / 16 ≡ (if master then 14 else 15)
drive_bits true sector = rw (device_byte_lem true sector) (omega arith)
drive_bits false sector = rw (device_byte_lem false sector) (omega arith)

sector_bits :
    (master : Bool) (sector : ℕ) → u8 (device_byte master sector) % 16 ≡ sector / 2 ^ 24 % 16
sector_bits true sector = rw (device_byte_lem true sector) (omega arith)
sector_bits false sector = rw (device_byte_lem false sector) (omega arith)

sector_whole :
    (master : Bool) (sector : ℕ)
    → sector ≤ 0x0FFFFFFF
    → u8 (device_byte master sector) % 16 * 2 ^ 24
        + u8 (bit_and (sector >>> 16) 0xFF) * 2 ^ 16
        + u8 (bit_and (sector >>> 8) 0xFF) * 2 ^ 8
        + u8 (bit_and sector 0xFF)
      ≡ sector
sector_whole master sector h =
    rw
      (
        sector_bits master sector,
        and_0xff (sector >>> 16),
        and_0xff (sector >>> 8),
        and_0xff sector,
      )
      (omega arith)

pub command28-Addresses :
    (master : Bool) (base command sector : ℕ) (io : Io)
    → base + 0x206 < 2 ^ 16
    → command < 256
    → sector ≤ 0x0FFFFFFF
    → Addresses (init master base) command sector (command28 (init master base) command sector io)
unfolding command28 last_written
command28-Addresses master base command sector io apart small h = record {
  device = u8 (device_byte master sector);
  low = u8 (bit_and sector 0xFF);
  mid = u8 (bit_and (sector >>> 8) 0xFF);
  high = u8 (bit_and (sector >>> 16) 0xFF);
  to_device = ground arith;
  to_low = ground arith;
  to_mid = ground arith;
  to_high = ground arith;
  to_count = ground arith;
  to_command = ground arith;
  drive = drive_bits master sector;
  whole = sector_whole master sector h;
}
