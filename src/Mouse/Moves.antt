-- ===== src/Mouse/Moves.antt =====
-- The position that mouse.cpp keeps.
use blue_os.Base.{
  ℕ, ◌+◌, ◌-◌, ◌<◌, ◌≤◌, ◌≡◌, arith, ltb, ◌==◌, Bool-cases, inl, inr, if◌then◌else◌, bit_and,
}
use blue_os.Base.Words.{u8}
use blue_os.Screen.{Cells}
use blue_os.Ports.{Device, Io, read8}
use blue_os.Mouse.{Mouse, clamp, move, draw_mouse_cursor, packet, take_byte, handle_interrupt}

clamp_bound : (bound value : ℕ) → 0 < bound → bound ≤ 128 → clamp bound value < bound
unfolding clamp
clamp_bound bound value p h = ground arith

-- The position is on the screen, and the bytes that are kept are of one packet.
pub record IsValid (m : Mouse) : Type 0 where
  pub column : m.x < 80
  pub row : m.y < 25
  pub part : m.offset < 3

packet-IsValid : (m : Mouse) (f : Cells) → m.offset < 3 → IsValid ((packet m f).0)
unfolding packet draw_mouse_cursor move
packet-IsValid m f h = record {
  column = clamp_bound 80 (u8 (m.x + m.buffer 1)) (omega arith) (omega arith);
  row = clamp_bound 25 (u8 (m.y + 256 - m.buffer 2)) (omega arith) (omega arith);
  part = h;
}

take_byte-IsValid : (byte : ℕ) (m : Mouse) → IsValid m → IsValid (take_byte byte m)
unfolding take_byte
take_byte-IsValid byte m v = record { column = v.column; row = v.row; part = omega arith }

-- From a state whose position is on the screen, with an offset below 3, an interrupt leads to such
-- a state, whatever the mouse sends.
pub handle_interrupt-IsValid :
    (dev : Device) (esp : ℕ) (m : Mouse) (io : Io)
    → IsValid m
    → IsValid ((handle_interrupt dev esp m io).1.0)
unfolding handle_interrupt
handle_interrupt-IsValid dev esp m io v =
    let (status, io1) = read8 dev 0x64 io in
    let (byte, io2) = read8 dev 0x60 io1 in
    let w = take_byte-IsValid byte m v in
    elim (Bool-cases (bit_and status 0x20 == 0)) [
      | inl e ↦ rw e v
      | inr e ↦ rw e (elim (Bool-cases ((take_byte byte m).offset == 0)) [
        | inl z ↦ rw z (packet-IsValid (take_byte byte m) io2.screen.cells w.part)
        | inr z ↦ rw z w
      ])
    ]

-- A packet to the right by less than 128 moves the column by its count, up to 79, if the sum is
-- below 128; if it is not, the column becomes 0.
move-right :
    (m : Mouse) (d : ℕ)
    → m.x < 80
    → m.buffer 1 ≡ d
    → d < 128
    → (move m).x ≡ (if ltb (m.x + d) 80 then m.x + d else if ltb (m.x + d) 128 then 79 else 0)
unfolding move clamp
move-right m d h e s = rw e (ground arith)

-- A packet to the left by at most 128 moves the column by its count, down to 0 at the least.
move-left :
    (m : Mouse) (d : ℕ) → m.x < 80 → m.buffer 1 ≡ 256 - d → 0 < d → d ≤ 128 → (move m).x ≡ m.x - d
unfolding move clamp
move-left m d h e p q = rw e (ground arith)
