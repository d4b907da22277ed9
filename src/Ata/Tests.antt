-- ===== src/Ata/Tests.antt =====
-- Runs of ata.cpp, and the theorems at a concrete drive.
use blue_os.Base.{
  ℕ, ◌<◌, ◌≤◌, ◌≡◌, refl, true, false, some, List, [], ◌++◌, arith, ltb, ◌==◌, if◌then◌else◌,
  length,
}
use blue_os.Ports.{Device, Io, read8, sent, drained}
use blue_os.Ata.{
  Ata, init, is_busy, has_error, command28, write28, read28, identify, identify_command,
}
use blue_os.Ata.Command.{Addresses}
use blue_os.Ata.Transfer.{unpack, taken, zeros, write28-sector}
use blue_os.Ata.Identify.{selected, selecting, commanding, identify-words}
use blue_os.Ata.Wait.{poll, error_bit, settled, read28-sector}

abbrev primary : Ata
primary = init true 0x1F0

abbrev start : Io
start = record { trace = []; screen = record { cells = λ _. 0x0720; x = 0; y = 0 } }

-- a drive that is busy while the trace has fewer than nine events
abbrev slow_drive : Device
slow_drive trace port = if ltb (length trace) 9 then 0x80 else 0x58

abbrev hello : ℕ → ℕ
hello i = if ltb i 1 then b'H' else b'i'

hello-small : (i : ℕ) → hello i < 256
hello-small i = ground arith

sends_nothing_beyond : write28 primary 0x10000000 hello 2 start ≡ start
unfolding write28
sends_nothing_beyond = refl

write28-sector_example :
    let out = write28 primary 0x0123456 hello 3 start in
    Addresses primary 0x30 0x0123456 out
    × ((ws : List ℕ) × (out.trace ≡ sent 0x1F0 ws (command28 primary 0x30 0x0123456 start).trace)
        × (unpack ws ≡ taken hello 0 3 ++ zeros 509))
write28-sector_example =
    write28-sector true 0x1F0 0x0123456 hello 3 start (omega arith) (omega arith) (omega arith)
      hello-small

ready_then :
    let (status, io) = read8 slow_drive primary.command_port (command28 primary 0x20 5 start) in
    settled ((poll slow_drive primary 2 status io).0) ≡ true
unfolding poll command28 is_busy has_error
ready_then = refl

read28-sector_example :
    let (status, io) = read8 slow_drive primary.command_port (command28 primary 0x20 5 start) in
    (k : ℕ) × (k ≤ 2)
    × (settled ((poll slow_drive primary k status io).0) ≡ true)
    × ((j : ℕ) → j < k → settled ((poll slow_drive primary j status io).0) ≡ false)
    × ((out : Io) × (read28 slow_drive primary 3 5 100 start ≡ some out)
        × (let (ready, io2) = poll slow_drive primary k status io in
            out.trace ≡ (if error_bit ready then io2.trace else drained 0x1F0 256 io2.trace)))
read28-sector_example =
    read28-sector slow_drive primary 2 3 5 100 start (omega arith) (omega arith) (omega arith)
      ready_then

identifies_then :
    let (floating, io1) = read8 slow_drive primary.command_port (selected primary start) in
    let (status, io2) = read8 slow_drive primary.command_port (identify_command primary io1) in
    settled ((poll slow_drive primary 1 status io2).0) ≡ true
unfolding poll identify_command is_busy has_error
identifies_then = refl

identify-words_example :
    let (floating, io1) = read8 slow_drive primary.command_port (selected primary start) in
    let (status, io2) = read8 slow_drive primary.command_port (identify_command primary io1) in
    (k : ℕ) × (k ≤ 1)
    × (settled ((poll slow_drive primary k status io2).0) ≡ true)
    × ((j : ℕ) → j < k → settled ((poll slow_drive primary j status io2).0) ≡ false)
    × (io2.trace ≡ commanding primary (selecting primary []))
    × ((out : Io) × (identify slow_drive primary 2 start ≡ some out)
        × (let (ready, io3) = poll slow_drive primary k status io2 in
            out.trace ≡ (
              if floating == 0xFF
              then selecting primary []
              else if status == 0x00
              then commanding primary (selecting primary [])
              else if error_bit ready
              then io3.trace
              else drained 0x1F0 256 io3.trace)))
identify-words_example = identify-words slow_drive primary 1 2 start (omega arith) identifies_then
