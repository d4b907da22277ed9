-- ===== src/Keyboard.antt =====
-- blue_Os/src/drivers/keyboard.cpp: the PS/2 keyboard. A scan code is a byte; the driver prints the
-- character of a key, or the code of a key that it does not know, and hands characters to its event
-- handler, whose virtual `onKeyPress` is a parameter. The loop that empties the controller's buffer
-- runs on fuel, as the device may hold bytes for ever; `none` means that the fuel ran out.
pub mod Keys
pub mod Drain
mod Tests
use blue_os.Base.{
  ℕ, zero, suc, Bool, true, false, not, Option, none, some, List, [], ◌∷◌, bit_and, bit_or, ◌==◌,
  if◌then◌else◌,
}
use blue_os.Base.Words.{◌>>>◌}
use blue_os.Screen.{hex_digit}
use blue_os.Ports.{Device, Io, write8, read8, say}

abbrev pub command_port : ℕ
command_port = 0x64

abbrev pub data_port : ℕ
data_port = 0x60

-- The member `handler`, the address of an event handler or 0.
pub record Keyboard : Type 0 where
  pub handler : ℕ

abbrev pub init : Keyboard
init = record { handler = 0 }

unfoldable pub set_event_handler : ℕ → Keyboard → Keyboard
set_event_handler h k = record k { handler = h }

-- `while(commandPort.read() & 0x1) dataPort.read();`
unfoldable pub clear_buffer : Device → (fuel : ℕ) → Io → Option Io
clear_buffer dev zero io = none
clear_buffer dev (suc fuel) io =
    let (status, io1) = read8 dev command_port io in
    let rest = clear_buffer dev fuel (read8 dev data_port io1).1 in
    if not (bit_and status 0x1 == 0) then rest else some io1

-- `status |= 1; status &= ~0x10;` on a byte
unfoldable pub command_byte : ℕ → ℕ
command_byte status = bit_and (bit_or status 1) 0xEF

unfoldable pub enable : Device → Io → Io
unfolding command_byte
enable dev io =
    let (status, io1) =
      read8 dev data_port (write8 command_port 0x20 (write8 command_port 0xAE io)) in
    write8 data_port 0xF4 (write8 data_port (command_byte status) (write8 command_port 0x60 io1))

unfoldable pub activate : Device → (fuel : ℕ) → Io → Option Io
unfolding clear_buffer enable
activate dev fuel io = elim (clear_buffer dev fuel io) [
  | none ↦ none
  | some io' ↦ some (enable dev io')
]

-- the keys of codes `from`, `from + 1` and so on
abbrev pub key_row : (from : ℕ) → List ℕ → ℕ → ℕ → ℕ
key_row from [] sc d = d
key_row from (c ∷ cs) sc d = if sc == from then c else key_row (suc from) cs sc d

-- "1234567890-=\b\tqwertyuiop", "asdfghjkl", "zxcvbnm" and the two single keys of the `switch`
unfoldable pub scancode_to_ascii : ℕ → ℕ
scancode_to_ascii sc =
    key_row 0x02
      (b'1' ∷ b'2' ∷ b'3' ∷ b'4' ∷ b'5' ∷ b'6' ∷ b'7' ∷ b'8' ∷ b'9' ∷ b'0' ∷ b'-' ∷ b'=' ∷ 8 ∷ 9
        ∷ b'q' ∷ b'w' ∷ b'e' ∷ b'r' ∷ b't' ∷ b'y' ∷ b'u' ∷ b'i' ∷ b'o' ∷ b'p' ∷ [])
      sc
      (key_row 0x1E (b'a' ∷ b's' ∷ b'd' ∷ b'f' ∷ b'g' ∷ b'h' ∷ b'j' ∷ b'k' ∷ b'l' ∷ []) sc (
        key_row 0x2C (b'z' ∷ b'x' ∷ b'c' ∷ b'v' ∷ b'b' ∷ b'n' ∷ b'm' ∷ []) sc
          (if sc == 0x1C then 10 else if sc == 0x39 then b' ' else 0)))

-- "KEY 0x00\n" with its two digits filled in
unfoldable pub unknown_text : ℕ → List ℕ
unknown_text scancode =
    b'K'
    ∷ b'E'
    ∷ b'Y'
    ∷ b' '
    ∷ b'0'
    ∷ b'x'
    ∷ hex_digit (bit_and (scancode >>> 4) 0xF)
    ∷ hex_digit (bit_and scancode 0xF)
    ∷ 10
    ∷ []

-- What the virtual `onKeyPress` of the handler at an address does with a character, on whatever
-- state `S` the handlers have.
abbrev pub KeyHandlers : Type 0 → Type 0
KeyHandlers S = (handler char : ℕ) → S → S

-- The state of the event handlers stands beside the ports and the screen.
unfoldable pub press : {S : Type 0} → KeyHandlers S → Keyboard → ℕ → S → Io → S × Io
press handlers k scancode s io =
    if not (scancode_to_ascii scancode == 0)
    then (
      if not (k.handler == 0) then handlers k.handler (scancode_to_ascii scancode) s else s,
      say (scancode_to_ascii scancode ∷ 0 ∷ []) io,
    )
    else (s, say (unknown_text scancode) io)

unfoldable pub handle_interrupt :
    {S : Type 0} → Device → KeyHandlers S → (esp : ℕ) → Keyboard → S → Io → ℕ × (S × Io)
unfolding press
handle_interrupt dev handlers esp k s io =
    let (scancode, io1) = read8 dev data_port io in
    if not (bit_and scancode 0x80 == 0)
    then (esp, (s, io1))
    else (esp, press handlers k scancode s io1)
