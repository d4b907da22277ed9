-- ===== src/Keyboard/Keys.antt =====
-- The keys that keyboard.cpp knows, and what it makes of a series of scan codes.
use blue_os.Base.{
  ℕ, zero, suc, ◌<◌, ◌≡◌, ◌≢◌, refl, sym, ap, ◌∙◌, true, not, ◌&&◌, ◌||◌, List, [], ◌∷◌, ◌++◌,
  arith, bit_and, ◌==◌, ==_iff, ==_ne, Bool-cases, inl, inr, all_below, all_below-at, if◌then◌else◌,
}
use blue_os.Base.Words.{u8, ◌>>>◌}
use blue_os.Screen.{Screen, print}
use blue_os.Screen.Strings.{AllNonzero, print-append, hex_digit-nonzero}
use blue_os.Ports.{PortEvent, was_read, Device, Io, say}
use blue_os.Keyboard.{Keyboard, KeyHandlers, scancode_to_ascii, unknown_text, handle_interrupt}

-- the greatest code below `n` of a character, or 0
unfoldable code_of : (n char : ℕ) → ℕ
code_of zero char = 0
code_of (suc n) char = let rest = code_of n char in if scancode_to_ascii n == char then n else rest

code_table :
    all_below 128 (λ sc. scancode_to_ascii sc == 0 || code_of 0x3A (scancode_to_ascii sc) == sc)
    ≡ true
unfolding all_below code_of scancode_to_ascii
code_table = refl

-- No two make codes stand for one character: each known one is found from its character.
code_of-scancode_to_ascii :
    (sc : ℕ) → sc < 128 → scancode_to_ascii sc ≢ 0 → code_of 0x3A (scancode_to_ascii sc) ≡ sc
code_of-scancode_to_ascii sc h known =
    let row =
      all_below-at 128
        (λ sc. scancode_to_ascii sc == 0 || code_of 0x3A (scancode_to_ascii sc) == sc) sc code_table
        h in
    let other = ==_ne (scancode_to_ascii sc) 0 known in
    (==_iff (code_of 0x3A (scancode_to_ascii sc)) sc).0 (rw other at row)

-- What one code writes: nothing for a release, a known key's character, or the code itself.
abbrev pub text_of : ℕ → List ℕ
text_of sc =
    if not (bit_and sc 0x80 == 0)
    then []
    else if not (scancode_to_ascii sc == 0)
    then scancode_to_ascii sc ∷ []
    else unknown_text sc

abbrev pub text : List ℕ → List ℕ
text [] = []
text (sc ∷ scs) = text_of sc ++ text scs

-- The characters among the codes, handed to a handler in order.
unfoldable pub deliver : {S : Type 0} → KeyHandlers S → Keyboard → List ℕ → S → S
deliver handlers k [] s = s
deliver handlers k (sc ∷ scs) s = deliver handlers k scs (
    if bit_and sc 0x80 == 0 && not (scancode_to_ascii sc == 0) && not (k.handler == 0)
    then handlers k.handler (scancode_to_ascii sc) s
    else s)

-- The keyboard's data port gives these codes, one to each interrupt.
abbrev pub Types : Device → List ℕ → List PortEvent → Type 0
Types dev [] es = Unit {0}
Types dev (sc ∷ scs) es = (u8 (dev es 0x60) ≡ sc) × Types dev scs (was_read 8 0x60 ∷ es)

-- interrupts of the keyboard one after the other, as many as there are codes
unfoldable pub run : {S : Type 0} → Device → KeyHandlers S → Keyboard → List ℕ → S → Io → S × Io
run dev handlers k [] s io = (s, io)
run dev handlers k (sc ∷ scs) s io =
    let (s', io') = (handle_interrupt dev handlers 0 k s io).1 in run dev handlers k scs s' io'

unknown_text-AllNonzero : (sc : ℕ) → AllNonzero (unknown_text sc)
unfolding unknown_text
unknown_text-AllNonzero sc =
    let high = hex_digit-nonzero (sc >>> 4) in
    let low = hex_digit-nonzero sc in
    (
      omega arith,
      (
        omega arith,
        (
          omega arith,
          (omega arith, (omega arith, (omega arith, (high, (low, (omega arith, tt)))))),
        ),
      ),
    )

pub text_of-AllNonzero : (sc : ℕ) → AllNonzero (text_of sc)
text_of-AllNonzero sc = elim (Bool-cases (bit_and sc 0x80 == 0)) [
  | inr e ↦ rw e tt
  | inl e ↦ rw e (elim (Bool-cases (scancode_to_ascii sc == 0)) [
    | inr f ↦ rw f (let ne : scancode_to_ascii sc ≢ 0 = ground arith in (ne, tt))
    | inl f ↦ rw f (unknown_text-AllNonzero sc)
  ])
]

print-terminated : (c : ℕ) (s : Screen) → c ≢ 0 → print (c ∷ 0 ∷ []) s ≡ print (c ∷ []) s
unfolding print
print-terminated c s h = rw (==_ne c 0 h) refl

-- one interrupt
unfoldable pub step : {S : Type 0} → Device → KeyHandlers S → Keyboard → ℕ → S → Io → S × Io
step dev handlers k sc s io = (
  deliver handlers k (sc ∷ []) s,
  record { trace = was_read 8 0x60 ∷ io.trace; screen = print (text_of sc) io.screen },
)

pub handle_interrupt-step :
    {S : Type 0} (dev : Device) (handlers : KeyHandlers S) (k : Keyboard) (esp sc : ℕ) (s : S)
    (io : Io)
    → u8 (dev io.trace 0x60) ≡ sc
    → handle_interrupt dev handlers esp k s io ≡ (esp, step dev handlers k sc s io)
unfolding step handle_interrupt deliver say
handle_interrupt-step dev handlers k esp sc s io code = elim (Bool-cases (bit_and sc 0x80 == 0)) [
  | inr e ↦ rw (code, e) (unfold print in refl)
  | inl e ↦
      rw (code, e)
        (elim (Bool-cases (scancode_to_ascii sc == 0)) [
          | inl f ↦ rw f refl
          | inr f ↦
              (let ne : scancode_to_ascii sc ≢ 0 = ground arith in
                rw (f, print-terminated (scancode_to_ascii sc) io.screen ne)
                  (elim (Bool-cases (k.handler == 0)) [ inl g ↦ rw g refl | inr g ↦ rw g refl ]))
        ])
]

-- A series of keyboard interrupts prints, in order, the characters of the known keys that are
-- pressed and the codes of the unknown ones, and nothing for the keys that are released; the event
-- handler, if there is one, is given the same characters in that order, and no code.
pub run-text :
    {S : Type 0} (dev : Device) (handlers : KeyHandlers S) (k : Keyboard) (scs : List ℕ) (s : S)
    (io : Io)
    → Types dev scs io.trace
    → let (s', io') = run dev handlers k scs s io in
      (io'.screen ≡ print (text scs) io.screen) × (s' ≡ deliver handlers k scs s)
unfolding run deliver step
run-text {S} dev handlers k [] s io h = unfold print in (refl, refl)
run-text {S} dev handlers k (sc ∷ scs) s io (code, h) =
    let s' = deliver handlers k (sc ∷ []) s in
    let io' : Io = record {
      trace = was_read 8 0x60 ∷ io.trace;
      screen = print (text_of sc) io.screen;
    } in
    let first : run dev handlers k (sc ∷ scs) s io ≡ run dev handlers k scs s' io' =
      ap (λ (p : S × Io). run dev handlers k scs p.0 p.1)
        (ap (λ (p : ℕ × (S × Io)). p.1) (handle_interrupt-step dev handlers k 0 sc s io code)) in
    let (screen, given) = run-text dev handlers k scs s' io' h in
    (
      ap (λ (p : S × Io). p.1.screen) first
          ∙ screen
          ∙ sym (print-append (text_of sc) (text scs) io.screen (text_of-AllNonzero sc)),
      ap (λ (p : S × Io). p.0) first ∙ given,
    )
