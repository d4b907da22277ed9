-- ===== src/Vga/Card.antt =====
-- The registers that a VGA card keeps behind an index and a data port, among them those of the CRT
-- controller, of which the first eight are protected from writes until vga.cpp unlocks them.
use blue_os.Base.{
  ℕ, zero, suc, ◌+◌, ◌/◌, ◌%◌, ◌<◌, ◌≤◌, ◌≡◌, refl, sym, ap, ◌∙◌, Bool, true, false, not, ◌&&◌,
  List, [], ◌∷◌, arith, bit_and, ◌==◌, ltb, if◌then◌else◌, update, update_self, update_ne, ==_refl,
  Bool-cases, ==_iff, bit_or, inl, inr,
}
use mathlib.Core.Path.{subst}
use native.Mathlib.Decide.{dec_lt}
use blue_os.Base.Bits.{bit_and-low}
use blue_os.Base.Words.{u8}
use blue_os.Ports.{PortEvent, written, was_read, Device, Io, read8, write8}
use blue_os.Vga.{write_indexed, unlock_crtc, unlock_table}

-- The index that was written last, and the registers.
pub record Bank : Type 0 where
  pub index : ℕ
  pub register : ℕ → ℕ

-- What the card does with the bytes written to the two ports, the last one first. Register `i` takes
-- a byte if `takes register i` says so.
module _ (takes : (ℕ → ℕ) → ℕ → Bool) (index_port data_port : ℕ) where
  unfoldable pub bank : Bank → List PortEvent → Bank
  bank b [] = b
  bank b (was_read w p ∷ es) = bank b es
  bank b (written w p v ∷ es) =
      let before = bank b es in
      if p == index_port
      then record before { index = v }
      else if p == data_port && takes before.register before.index
      then record before { register = update before.register before.index v }
      else before

-- Bit 7 of register 0x11 protects the registers 0 to 7 of the CRT controller. The card lets one bit
-- of register 7 through all the same, which is left out.
abbrev pub is_locked : (ℕ → ℕ) → Bool
is_locked register = register 0x11 / 128 % 2 == 1

abbrev pub takes_crtc : (ℕ → ℕ) → ℕ → Bool
takes_crtc register i = not (is_locked register && ltb i 8)

abbrev pub takes_all : (ℕ → ℕ) → ℕ → Bool
takes_all register i = true

-- A loop over the registers from `i` on, of a table whose bytes for this bank begin at `base`: while
-- `Keeps` holds of the registers, they take every byte.
module _ (takes : (ℕ → ℕ) → ℕ → Bool) (index_port data_port : ℕ)
    (differ : (data_port == index_port) ≡ false) (Keeps : (ℕ → ℕ) → Type 0)
    (opens : (f : ℕ → ℕ) (i : ℕ) → Keeps f → takes f i ≡ true) (base : ℕ) (registers : ℕ → ℕ)
    (stays : (f : ℕ → ℕ) (r : ℕ) → Keeps f → Keeps (update f r (u8 (registers (base + r))))) where
  bank-step :
      (b : Bank) (i v : ℕ) (es : List PortEvent)
      → i < 256
      → Keeps (bank takes index_port data_port b es).register
      → bank takes index_port data_port b (written 8 data_port v ∷ written 8 index_port (u8 i) ∷ es)
        ≡ record {
          index = i;
          register = update (bank takes index_port data_port b es).register i v;
        }
  unfolding bank
  bank-step b i v es small keeps =
      let e : u8 i ≡ i = omega arith in
      rw
        (
          differ,
          ==_refl index_port,
          ==_refl data_port,
          e,
          opens (bank takes index_port data_port b es).register i keeps,
        )
        refl

  pub write_indexed-bank :
      (b : Bank) (from i k : ℕ) (io : Io)
      → from ≡ base + i
      → i + k ≤ 256
      → Keeps (bank takes index_port data_port b io.trace).register
      → let d =
          bank takes index_port data_port b
            (write_indexed index_port data_port registers from i k io).trace in
        ((r : ℕ) → i ≤ r → r < i + k → d.register r ≡ u8 (registers (base + r)))
        × ((r : ℕ) → r < i → d.register r ≡ (bank takes index_port data_port b io.trace).register r)
  unfolding write_indexed
  write_indexed-bank b from i zero io place few keeps =
      (λ r l h. absurd (omega (arith, l, h)), λ r l. refl)
  write_indexed-bank b from i (suc k) io place few keeps =
      let f : ℕ → ℕ = (bank takes index_port data_port b io.trace).register in
      let v : ℕ = u8 (registers from) in
      let es = written 8 data_port v ∷ written 8 index_port (u8 i) ∷ io.trace in
      let now : (bank takes index_port data_port b es).register ≡ update f i v =
        ap (λ (d : Bank). d.register) (bank-step b i v io.trace (omega arith) keeps) in
      let value : v ≡ u8 (registers (base + i)) = ap (λ (t : ℕ). u8 (registers t)) place in
      let still : Keeps (bank takes index_port data_port b es).register =
        subst Keeps (sym (now ∙ ap (update f i) value)) (stays f i keeps) in
      let (all, rest) =
        write_indexed-bank b (from + 1) (i + 1) k (record io { trace = es }) (omega (arith, place))
          (omega (arith, few)) still in
      (
        λ r l h. elim (dec_lt i r) [
          | yes above ↦ all r (omega (arith, above)) (omega (arith, h))
          | no here ↦
              (let e : r ≡ i = omega (arith, here, l) in
                rest r (omega (arith, e))
                ∙ ap (λ (g : ℕ → ℕ). g r) now
                ∙ ap (update f i v) e
                ∙ update_self f i v
                ∙ value
                ∙ ap (λ (t : ℕ). u8 (registers (base + t))) (sym e))
        ],
        λ r l.
            rest r (omega (arith, l))
            ∙ ap (λ (g : ℕ → ℕ). g r) now
            ∙ update_ne f i r v (omega (arith, l)),
      )

and_false : (b : Bool) → not (b && false) ≡ true
and_false true = refl
and_false false = refl

cleared : (v : ℕ) → (u8 (bit_and v 0x7F) / 128 % 2 == 1) ≡ false
cleared v = let z : u8 (bit_and v 0x7F) / 128 % 2 ≡ 0 = omega (arith, bit_and-low 7 v) in rw z refl

-- Whatever the registers hold and the card answers, `unlock_crtc` unlocks them.
pub unlock_crtc-is_locked :
    (dev : Device) (b : Bank) (io : Io)
    → is_locked (bank takes_crtc 0x3d4 0x3d5 b (unlock_crtc dev io).trace).register ≡ false
unfolding unlock_crtc bank
unlock_crtc-is_locked dev b io =
    let (v, io1) = read8 dev 0x3d5 (write8 0x3d4 0x03 io) in
    let before = bank takes_crtc 0x3d4 0x3d5 b (write8 0x3d5 (bit_or v 0x80) io1).trace in
    let io2 = write8 0x3d4 0x11 (write8 0x3d5 (bit_or v 0x80) io1) in
    rw (and_false (is_locked before.register), cleared (read8 dev 0x3d5 io2).0) refl

==_sym_false : (a b : ℕ) → (a == b) ≡ false → (b == a) ≡ false
==_sym_false a b h = ground (arith, h)

-- The table keeps them unlocked, since the code clears its bit as well.
unlock_table-is_locked :
    (registers f : ℕ → ℕ) (r : ℕ)
    → is_locked f ≡ false
    → is_locked (update f r (u8 (unlock_table registers (6 + r)))) ≡ false
unfolding unlock_table
unlock_table-is_locked registers f r free = elim (Bool-cases (r == 0x11)) [
  | inl e ↦ rw ((==_iff r 0x11).0 e) (cleared _)
  | inr e ↦ rw (==_sym_false r 0x11 e) free
]

takes_crtc-open : (f : ℕ → ℕ) (i : ℕ) → is_locked f ≡ false → takes_crtc f i ≡ true
takes_crtc-open f i free = rw free refl

-- The loop over the CRT controller behind `unlock_crtc`: all its registers take their bytes.
pub write_indexed-unlocked :
    (dev : Device) (b : Bank) (registers : ℕ → ℕ) (io : Io) (r : ℕ)
    → r < 25
    → let io' = write_indexed 0x3d4 0x3d5 (unlock_table registers) 6 0 25 (unlock_crtc dev io) in
      (bank takes_crtc 0x3d4 0x3d5 b io'.trace).register r ≡ u8 (unlock_table registers (6 + r))
write_indexed-unlocked dev b registers io r h =
    (write_indexed-bank takes_crtc 0x3d4 0x3d5 refl (λ f. is_locked f ≡ false) takes_crtc-open 6
        (unlock_table registers) (unlock_table-is_locked registers) b 6 0 25 (unlock_crtc dev io)
        refl (omega arith) (unlock_crtc-is_locked dev b io)).0
      r (omega arith) (omega (arith, h))
