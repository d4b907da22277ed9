-- ===== src/Vga/Mode.antt =====
-- The registers of the card after `SetMode` of vga.cpp.
use blue_os.Base.{
  ℕ, zero, suc, ◌+◌, ◌<◌, ◌≡◌, ◌≢◌, ◌⊎◌, inl, inr, refl, ap, ◌∙◌, Bool, true, false, ◌&&◌, Option,
  none, some, List, [], ◌∷◌, ◌++◌, map, get_or, ◌==◌, if◌then◌else◌, arith, sym, ==_iff, Bool-cases,
}
use mathlib.Core.Bool.{true≢false}
use blue_os.Base.Words.{u8}
use blue_os.Ports.{write8, PortEvent, written, was_read, Device, Io, last_written}
use blue_os.Vga.{set_mode, supports_mode, mode_table, write_indexed, unlock_table}
use blue_os.Vga.Card.{Bank, bank, takes_all, takes_crtc, write_indexed-unlocked}

-- Register `r` behind an index and a data port: what was last written to the data port while the
-- index port held `r`.
unfoldable pub indexed : (index_port data_port r : ℕ) → List PortEvent → Option ℕ
indexed p q r [] = none
indexed p q r (was_read w a ∷ es) = indexed p q r es
indexed p q r (written w a v ∷ es) =
    let rest = indexed p q r es in
    if a == q && (elim (last_written p es) [ none ↦ false | some i ↦ i == r ]) then some v else rest

-- Register `r` of the attribute controller: a reset, the index, the value.
unfoldable pub attribute : (r : ℕ) → List PortEvent → Option ℕ
attribute r (written w a v ∷ written w' a' i ∷ was_read w'' b ∷ es) =
    let rest = attribute r es in
    if a == 0x3c0 && a' == 0x3c0 && b == 0x3da && i == r then some v else rest
attribute r (_ ∷ es) = attribute r es
attribute r [] = none

abbrev pub range : (from n : ℕ) → List ℕ
range from zero = []
range from (suc n) = from ∷ range (from + 1) n

-- The registers of the mode of 320 by 200 with 256 colours. Those of the CRT controller have bit 7
-- set in register 3, and clear in register 0x11, which leaves the controller unlocked.
abbrev pub sequencer_values : List ℕ
sequencer_values = 0x03 ∷ 0x01 ∷ 0x0F ∷ 0x00 ∷ 0x0E ∷ []

abbrev pub crtc_values : List ℕ
crtc_values =
    0x5F ∷ 0x4F ∷ 0x50 ∷ 0x82 ∷ 0x54 ∷ 0x80 ∷ 0xBF ∷ 0x1F ∷ 0x00 ∷ 0x41 ∷ 0x00 ∷ 0x00 ∷ 0x00 ∷ 0x00
    ∷ 0x00 ∷ 0x00 ∷ 0x9C ∷ 0x0E ∷ 0x8F ∷ 0x28 ∷ 0x40 ∷ 0x96 ∷ 0xB9 ∷ 0xA3 ∷ 0xFF ∷ []

abbrev pub graphics_values : List ℕ
graphics_values = 0x00 ∷ 0x00 ∷ 0x00 ∷ 0x00 ∷ 0x00 ∷ 0x40 ∷ 0x05 ∷ 0x0F ∷ 0xFF ∷ []

-- sixteen colours, and five registers more
abbrev pub attribute_values : List ℕ
attribute_values = range 0 16 ++ 0x41 ∷ 0x00 ∷ 0x0F ∷ 0x00 ∷ 0x00 ∷ []

-- the first `n` registers behind two ports, on a card that begins with `b`
abbrev pub registers :
    (takes : (ℕ → ℕ) → ℕ → Bool) (index_port data_port : ℕ)
    → Bank
    → (n : ℕ) → List PortEvent
    → List ℕ
registers takes index_port data_port b n es =
    map (bank takes index_port data_port b es).register (range 0 n)

-- What the card holds in the mode, if it began with `b` behind each pair of ports.
abbrev pub Holds : Bank → List PortEvent → Type 0
Holds b es =
    (last_written 0x3c2 es ≡ some 0x63)
    × (registers takes_all 0x3c4 0x3c5 b 5 es ≡ sequencer_values)
    × (registers takes_crtc 0x3d4 0x3d5 b 25 es ≡ crtc_values)
    × (registers takes_all 0x3ce 0x3cf b 9 es ≡ graphics_values)
    × (map (λ (r : ℕ). attribute r es) (range 0 21) ≡ map some attribute_values)
    × (last_written 0x3c0 es ≡ some 0x20)

map-range :
    (f g : ℕ → ℕ) (from n : ℕ)
    → ((r : ℕ) → r < from + n → f r ≡ g r)
    → map f (range from n) ≡ map g (range from n)
map-range f g from zero same = refl
map-range f g from (suc n) same =
    ap (λ (v : ℕ). v ∷ map f (range (from + 1) n)) (same from (omega arith))
    ∙ ap (◌∷◌ (g from)) (map-range f g (from + 1) n (λ r l. same r (omega (arith, l))))

set_mode-crtc :
    (dev : Device) (io : Io) (b : Bank)
    → registers takes_crtc 0x3d4 0x3d5 b 25 (set_mode dev 320 200 8 io).1.trace ≡ crtc_values
unfolding set_mode bank write_indexed unlock_table
set_mode-crtc dev io b =
    let table = λ (i : ℕ). get_or mode_table i 0 in
    let before = write_indexed 0x3c4 0x3c5 table 1 0 5 (write8 0x3c2 (table 0) io) in
    map-range _ (λ r. u8 (unlock_table table (6 + r))) 0 25
      (λ r l. write_indexed-unlocked dev b table before r l)

set_mode-Holds : (dev : Device) (io : Io) (b : Bank) → Holds b (set_mode dev 320 200 8 io).1.trace
unfolding set_mode bank last_written attribute
set_mode-Holds dev io b = (refl, refl, set_mode-crtc dev io b, refl, refl, refl)

==_false : (a b : ℕ) → (a == b) ≡ false → a ≢ b
==_false a b h e = true≢false (sym ((==_iff a b).1 e) ∙ h)

-- With 320, 200 and 8, `SetMode` succeeds, and whatever the card's registers held before and
-- whatever it answers, they hold the bytes of the mode: of the miscellaneous output, the sequencer,
-- the CRT controller, whose first eight take no byte while its register 0x11 protects them, the
-- graphics controller and the attribute controller, and the display is on. With any other
-- arguments it fails and touches no port.
pub set_mode-registers :
    (dev : Device) (width height depth : ℕ) (io : Io) (b : Bank)
    → let (ok, out) = set_mode dev width height depth io in
      ((width ≡ 320) × (height ≡ 200) × (depth ≡ 8) × (ok ≡ true) × Holds b out.trace)
      ⊎ (((width ≢ 320) ⊎ ((height ≢ 200) ⊎ (depth ≢ 8))) × (ok ≡ false) × (out ≡ io))
unfolding set_mode supports_mode
set_mode-registers dev width height depth io b = elim (Bool-cases (width == 320)) [
  | inr e ↦ inr (inl (==_false width 320 e), rw e refl, rw e refl)
  | inl w ↦ elim (Bool-cases (height == 200)) [
    | inr e ↦ inr (inr (inl (==_false height 200 e)), rw (w, e) refl, rw (w, e) refl)
    | inl h ↦ elim (Bool-cases (depth == 8)) [
      | inr e ↦ inr (inr (inr (==_false depth 8 e)), rw (w, h, e) refl, rw (w, h, e) refl)
      | inl d ↦
          rw ((==_iff width 320).0 w, (==_iff height 200).0 h, (==_iff depth 8).0 d)
            (inl (refl, refl, refl, refl, set_mode-Holds dev io b))
    ]
  ]
]
