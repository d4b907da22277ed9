-- ===== src/Machine/Typing.antt =====
-- Keys that are typed while a program runs: from the stub of interruptstubs.s through the dispatch of
-- interrupts.cpp and the driver of keyboard.cpp to the screen.
use blue_os.Base.{
  ◌≤◌, ℕ, ◌≡◌, ◌≢◌, refl, sym, ap, ◌∙◌, Option, none, some, List, [], ◌∷◌, arith, ==_ne, ==_refl,
}
use blue_os.Base.Words.{u8}
use blue_os.Screen.{print}
use blue_os.Screen.Strings.{print-append}
use blue_os.Ports.{PortEvent, written, was_read, Device}
use blue_os.Interrupts.{
  Kernel, acknowledge, call_handler, switch_task, do_handle_interrupt, handle_interrupt,
}
use blue_os.Keyboard.{KeyHandlers}
use blue_os.Keyboard.Keys as KeyText
use blue_os.Keyboard.Keys.{text_of, text, deliver, handle_interrupt-step, text_of-AllNonzero}
use blue_os.Kernel.{Layout, Devices, handle}
use blue_os.Kernel.Sound.{IsSound}
use blue_os.Machine.{Machine, request_0x01, Stub, word, interrupt}
use blue_os.Machine.Frame.{call_size, LeavesOwn}
use blue_os.Machine.Transparent.{Event, step, comes, Agree, HasRoomAt, run, alone, run-Agree}

-- A keyboard interrupt is dispatched to the keyboard's driver.
abbrev pub Reaches : {S : Type 0} → Layout → Kernel (Devices S) → Type 0
Reaches at k =
    (k.interrupts.active ≡ at.interrupts) × (k.interrupts.handler at.interrupts 0x21 ≡ at.keyboard)

-- the state after the interrupt with which scan code `sc` comes
abbrev after : {S : Type 0} → KeyHandlers S → (sc : ℕ) → Kernel (Devices S) → Kernel (Devices S)
after keys sc k = record k {
  io = record {
    trace = written 8 0x20 0x20 ∷ was_read 8 0x60 ∷ k.io.trace;
    screen = print (text_of sc) k.io.screen;
  };
  devices = record k.devices {
    events = deliver keys k.devices.keyboard (sc ∷ []) k.devices.events;
  };
}

handle_interrupt-after :
    {S : Type 0} (dev : Device) (keys : KeyHandlers S) (at : Layout) (sc esp : ℕ)
    (k : Kernel (Devices S))
    → at.interrupts ≢ 0
    → at.keyboard ≢ 0
    → Reaches at k
    → u8 (dev k.io.trace 0x60) ≡ sc
    → handle_interrupt (handle dev keys at) 0x21 esp k ≡ (esp, after keys sc k)
unfolding handle_interrupt do_handle_interrupt call_handler switch_task acknowledge handle
    KeyText.step
handle_interrupt-after dev keys at sc esp k manager driver (active, registered) code =
    rw
      (
        active,
        ==_ne at.interrupts 0 manager,
        registered,
        ==_ne at.keyboard 0 driver,
        ==_refl at.keyboard,
        handle_interrupt-step dev keys k.devices.keyboard esp sc k.devices.events k.io code,
      )
      refl

-- A step of the program, or a keyboard interrupt with the scan code that it brings.
abbrev pub Key : Type 0
Key = Option ℕ

abbrev pub events : Stub → List Key → List Event
events stub [] = []
events stub (none ∷ ks) = step ∷ events stub ks
events stub (some sc ∷ ks) = comes stub ∷ events stub ks

abbrev pub codes : List Key → List ℕ
codes [] = []
codes (none ∷ ks) = codes ks
codes (some sc ∷ ks) = sc ∷ codes ks

-- The keyboard's data port gives these codes, one to each interrupt.
abbrev pub Sends : Device → List ℕ → List PortEvent → Type 0
Sends dev [] es = Unit {0}
Sends dev (sc ∷ scs) es =
    (u8 (dev es 0x60) ≡ sc) × Sends dev scs (written 8 0x20 0x20 ∷ was_read 8 0x60 ∷ es)

-- the stub of the keyboard, with zeroes behind the number
abbrev pub IsKeyboard : Stub → Type 0
IsKeyboard stub = (stub.request ≡ request_0x01) × (stub.behind ≡ 0)

keyboard-word : (stub : Stub) → IsKeyboard stub → word stub ≡ 0x21
keyboard-word stub (e, zeroes) = rw (e, zeroes) refl

module _ {S : Type 0} (dev : Device) (keys : KeyHandlers S) (at : Layout)
    (leaves : (number esp : ℕ) → Kernel (Devices S) → (ℕ → ℕ) → ℕ → ℕ) (program : Machine → Machine)
    (stub : Stub) (is_keyboard : IsKeyboard stub) (manager : at.interrupts ≢ 0)
    (driver : at.keyboard ≢ 0) where
  interrupt-after :
      (sc : ℕ) (m : Machine) (k : Kernel (Devices S))
      → Reaches at k
      → u8 (dev k.io.trace 0x60) ≡ sc
      → (interrupt (handle_interrupt (handle dev keys at)) leaves stub m k).1 ≡ after keys sc k
  unfolding interrupt
  interrupt-after sc m k reaches code = rw (keyboard-word stub is_keyboard) (
      ap (λ (o : ℕ × Kernel (Devices S)). o.1)
        (handle_interrupt-after dev keys at sc _ k manager driver reaches code))

  run-typed :
      (ks : List Key) (m : Machine) (k : Kernel (Devices S))
      → Reaches at k
      → Sends dev (codes ks) k.io.trace
      → let k' =
          (run program (handle_interrupt (handle dev keys at)) leaves (events stub ks) m k).1 in
        (k'.io.screen ≡ print (text (codes ks)) k.io.screen)
        × (k'.devices.events ≡ deliver keys k.devices.keyboard (codes ks) k.devices.events)
  unfolding deliver
  run-typed [] m k reaches sends = (unfold print in refl, refl)
  run-typed (none ∷ ks) m k reaches sends = run-typed ks (program m) k reaches sends
  run-typed (some sc ∷ ks) m k reaches (code, sends) =
      let out = interrupt (handle_interrupt (handle dev keys at)) leaves stub m k in
      let (screen, given) = run-typed ks out.0 (after keys sc k) reaches sends in
      let now = interrupt-after sc m k reaches code in
      let last = λ (k1 : Kernel (Devices S)).
        (run program (handle_interrupt (handle dev keys at)) leaves (events stub ks) out.0 k1).1 in
      (
        ap (λ (k1 : Kernel (Devices S)). (last k1).io.screen) now
            ∙ screen
            ∙ sym (print-append (text_of sc) (text (codes ks)) k.io.screen (text_of-AllNonzero sc)),
        ap (λ (k1 : Kernel (Devices S)). (last k1).devices.events) now ∙ given,
      )

-- A kernel of kernel.cpp takes interrupts, with its manager and the keyboard's driver at addresses
-- that are not 0, and what a program does depends on its registers and on the words of its own
-- alone, without the free part of its stack, which is of aligned words. The kernel's C++ code changes
-- no word of the program's own but in the `depth` bytes below the stack pointer that it is given, and
-- `interruptnumber` is not the program's. While keys are typed between the steps of the program, at
-- which its stack has room, the program gets to the registers and, in the words of its own but for
-- the free part of the stack, to the memory to which it gets alone; the screen, which is not among
-- those words, shows, in order, the characters of the known keys that are pressed and the codes of
-- the unknown ones; the event handler, if there is one, is given the same characters; and the
-- kernel stays sound.
pub run-types :
    {S : Type 0} (dev : Device) (keys : KeyHandlers S) (at : Layout)
    (leaves : (number esp : ℕ) → Kernel (Devices S) → (ℕ → ℕ) → ℕ → ℕ) (program : Machine → Machine)
    (own : ℕ → Type 0) (depth : ℕ) (stub : Stub) (bottom : ℕ) (ks : List Key) (m : Machine)
    (k : Kernel (Devices S))
    → IsKeyboard stub
    → at.interrupts ≢ 0
    → at.keyboard ≢ 0
    → call_size ≤ depth
    → LeavesOwn own depth leaves
    → ((a b : Machine) → Agree own bottom a b → Agree own bottom (program a) (program b))
    → HasRoomAt program own depth bottom (events stub ks) m
    → Agree own bottom m m
    → IsSound at k
    → Sends dev (codes ks) k.io.trace
    → let (m', k') =
        run program (handle_interrupt (handle dev keys at)) leaves (events stub ks) m k in
      Agree own bottom m' (alone program (events stub ks) m)
      × (k'.io.screen ≡ print (text (codes ks)) k.io.screen)
      × (k'.devices.events ≡ deliver keys k.devices.keyboard (codes ks) k.devices.events)
      × IsSound at k'
run-types dev keys at leaves program own depth stub bottom ks m k is_keyboard manager driver deep
      spares respects room agree sound sends =
    let (same, still) =
      run-Agree dev keys at leaves program own depth bottom (events stub ks) m m k deep spares
        respects room agree sound in
    let (screen, given) =
      run-typed dev keys at leaves program stub is_keyboard manager driver ks m k
        (sound.active, sound.made.handlers 0x21 (omega arith)) sends in
    (same, screen, given, still)
