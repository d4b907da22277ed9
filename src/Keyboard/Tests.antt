-- ===== src/Keyboard/Tests.antt =====
-- Runs of keyboard.cpp, and the theorems at a concrete keyboard.
use blue_os.Base.{
  ℕ, ◌≤◌, ◌≡◌, refl, true, some, List, [], ◌∷◌, ◌++◌, arith, ltb, if◌then◌else◌, length, get_or,
}
use blue_os.Screen.{print}
use blue_os.Base.Words.{u8}
use blue_os.Ports.{PortEvent, was_read, Device, Io}
use blue_os.Keyboard.{Keyboard, KeyHandlers, scancode_to_ascii, activate}
use blue_os.Keyboard.Drain.{drained, is_empty, asked, enabling, activate-enabling}
use blue_os.Keyboard.Keys.{text}

abbrev start : Io
start = record { trace = []; screen = record { cells = λ _. 0x0720; x = 0; y = 0 } }

-- `h` and `i` pressed and released, and the key of code 0x3B, which is not in the table
abbrev codes : List ℕ
codes = 0x23 ∷ 0xA3 ∷ 0x17 ∷ 0x97 ∷ 0x3B ∷ []

-- the data port gives one code after the other
abbrev typing : Device
typing trace port = get_or codes (length trace) 0

-- a handler that keeps the characters
abbrev keeping : KeyHandlers (List ℕ)
keeping handler char given = given ++ char ∷ []

abbrev keyboard : Keyboard
keyboard = record { handler = 77 }

typed_text :
    text codes ≡ b'h' ∷ b'i' ∷ b'K' ∷ b'E' ∷ b'Y' ∷ b' ' ∷ b'0' ∷ b'x' ∷ b'3' ∷ b'B' ∷ 10 ∷ []
unfolding scancode_to_ascii blue_os.Keyboard.unknown_text blue_os.Screen.hex_digit
typed_text = refl

-- a controller with two bytes in its buffer
abbrev full : Device
full trace port = if ltb (length trace) 4 then 0x1D else 0x1C

empty_after_two : is_empty full (drained full 2 start) ≡ true
unfolding drained
empty_after_two = refl

activate-enabling_example :
    (k : ℕ) × (k ≤ 2)
    × (is_empty full (drained full k start) ≡ true)
    × ((out : Io) × (activate full 3 start ≡ some out)
        × (let ready : List PortEvent = was_read 8 0x64 ∷ (drained full k start).trace in
            out.trace ≡ enabling (u8 (full (asked ready) 0x60)) ready))
activate-enabling_example = activate-enabling full 2 3 start (omega arith) empty_after_two
