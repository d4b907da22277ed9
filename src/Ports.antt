-- ===== src/Ports.antt =====
-- blue_Os/src/hardwarecommunication/port.cpp: I/O ports. The device behind the ports is not code of
-- the kernel: it is a function of everything that was written and read before, newest first.
use blue_os.Base.{
  ◌≡◌, refl, ◌∙◌, ℕ, zero, suc, Option, none, some, List, [], ◌∷◌, ◌==◌, false, if◌then◌else◌,
}
use blue_os.Base.Words.{u8, u16, u32}
use blue_os.Screen.{Screen, print}

-- an instruction `out` or `in` of a width in bits
pub data PortEvent : Type 0 where
  written : (width port value : ℕ) → PortEvent
  was_read : (width port : ℕ) → PortEvent

abbrev pub Device : Type 0
Device = List PortEvent → ℕ → ℕ

-- What a driver can change: the ports, and the text on the screen.
pub record Io : Type 0 where
  pub trace : List PortEvent
  pub screen : Screen

abbrev pub write8 : (port value : ℕ) → Io → Io
write8 port value io = record io { trace = written 8 port (u8 value) ∷ io.trace }

-- `Port8BitSlow::write`, which jumps twice after the instruction
abbrev write8_slow : (port value : ℕ) → Io → Io
write8_slow port value io = write8 port value io

abbrev pub write16 : (port value : ℕ) → Io → Io
write16 port value io = record io { trace = written 16 port (u16 value) ∷ io.trace }

abbrev pub write32 : (port value : ℕ) → Io → Io
write32 port value io = record io { trace = written 32 port (u32 value) ∷ io.trace }

abbrev pub read8 : Device → ℕ → Io → ℕ × Io
read8 dev port io = (u8 (dev io.trace port), record io { trace = was_read 8 port ∷ io.trace })

abbrev pub read16 : Device → ℕ → Io → ℕ × Io
read16 dev port io = (u16 (dev io.trace port), record io { trace = was_read 16 port ∷ io.trace })

abbrev pub read32 : Device → ℕ → Io → ℕ × Io
read32 dev port io = (u32 (dev io.trace port), record io { trace = was_read 32 port ∷ io.trace })

-- `print` of print.cpp
unfoldable pub say : List ℕ → Io → Io
say cs io = record io { screen = print cs io.screen }

-- the value that was last written to a port
unfoldable pub last_written : ℕ → List PortEvent → Option ℕ
last_written p [] = none
last_written p (written w q v ∷ es) = if q == p then some v else last_written p es
last_written p (was_read w q ∷ es) = last_written p es

-- words that were sent to a 16-bit port, or read from it, one after the other
unfoldable pub sent : ℕ → List ℕ → List PortEvent → List PortEvent
sent p [] es = es
sent p (w ∷ ws) es = sent p ws (written 16 p w ∷ es)

unfoldable pub drained : ℕ → ℕ → List PortEvent → List PortEvent
drained p zero es = es
drained p (suc n) es = drained p n (was_read 16 p ∷ es)

pub last_written-sent :
    (p q : ℕ) (ws : List ℕ) (es : List PortEvent)
    → (q == p) ≡ false
    → last_written p (sent q ws es) ≡ last_written p es
unfolding last_written sent
last_written-sent p q [] es h = refl
last_written-sent p q (w ∷ ws) es h = last_written-sent p q ws (written 16 q w ∷ es) h ∙ rw h refl
