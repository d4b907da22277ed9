-- ===== src/Machine/Tests.antt =====
-- Interrupts at concrete machines.
use blue_os.Base.{
  ◌-◌, ◌≤◌, ◌<◌, update, update_ne, length, get_or, none, some, ◌/◌, ℕ, ◌+◌, ◌≡◌, inl, inr, refl,
  ap, ◌∙◌, List, [], ◌∷◌, arith, ◌==◌, Bool-cases, ==_iff, sym, ◌≢◌,
}
use mathlib.Core.Bool.{true≢false}
use blue_os.Base.Words.{sub32}
use blue_os.Ports.{Device}
use blue_os.Interrupts.{handle_interrupt}
use blue_os.Keyboard.{KeyHandlers}
use blue_os.Kernel.{handle}
use blue_os.Kernel.Sample.{at, kernel, kernel-IsSound}
use blue_os.Kernel.Sound.{IsSound}
use blue_os.Machine.{Cpu, Machine, request_0x00, request_0x01, Stub, push}
use blue_os.Machine.Frame.{LeavesOwn}
use blue_os.Interrupts.{Kernel}
use blue_os.Kernel.{Devices}
use blue_os.Screen.{print}
use blue_os.Keyboard.{scancode_to_ascii}
use blue_os.Keyboard.Keys.{text, deliver}
use blue_os.Machine.Typing as Typing
use blue_os.Machine.Typing.{Key, run-types}
use blue_os.Machine.Transparent.{Event, step, comes, Agree, run, alone, run-Agree}

-- Every port reads as a scan code.
abbrev scans : Device
scans trace port = 0x1E

abbrev keys : KeyHandlers (List ℕ)
keys handler char events = char ∷ events

-- a program that pushes its counter again and again
abbrev counts : Machine → Machine
counts m = let m1 = push m.cpu.eax m in record m1 { cpu = record m1.cpu { eax = m.cpu.eax + 1 } }

counts-Agree :
    (own : ℕ → Type 0) (bottom : ℕ) (a b : Machine)
    → Agree own bottom a b
    → Agree own bottom (counts a) (counts b)
unfolding push
counts-Agree own bottom a b (registers, aligned, small, memory) = (
  ap (λ (c : Cpu). record c { esp = sub32 c.esp 4; eax = c.eax + 1 }) registers,
  omega (arith, aligned, small),
  omega (arith, small),
  λ q mine aligned_word outside.
      let e : a.cpu.esp ≡ b.cpu.esp = ap (λ (c : Cpu). c.esp) registers in
      let v : a.cpu.eax ≡ b.cpu.eax = ap (λ (c : Cpu). c.eax) registers in
      elim (Bool-cases (q == sub32 b.cpu.esp 4)) [
        | inl here ↦ ground (arith, e, v, here)
        | inr other ↦
            rw (e, other)
              (memory q mine aligned_word (elim outside [
                | inl l ↦ inl l
                | inr g ↦
                    (let ne : q ≢ sub32 b.cpu.esp 4 =
                        λ i. true≢false (sym ((==_iff q (sub32 b.cpu.esp 4)).1 i) ∙ other) in
                      inr (omega (arith, g, ne, aligned_word, aligned, small)))
              ]))
      ],
)

abbrev machine : Machine
machine = record {
  cpu = record {
    eax = 1;
    ebx = 2;
    ecx = 3;
    edx = 4;
    esi = 5;
    edi = 6;
    ebp = 7;
    esp = 0x8000;
    eip = 0x100000;
    cs = 8;
    eflags = 0x202;
  };
  memory = λ q. 0;
}

abbrev timer : Stub
timer = record {
  request = request_0x00;
  address = 0x100200;
  selector = 8;
  variable = 0x300000;
  behind = 0;
  back = 0x100300;
}

abbrev keyboard : Stub
keyboard = record {
  request = request_0x01;
  address = 0x100300;
  selector = 8;
  variable = 0x300000;
  behind = 0;
  back = 0x100300;
}

-- the program's words: a stack from 0x4000 to 0x8000
abbrev Own : ℕ → Type 0
Own q = (0x4000 ≤ q) × (q < 0x8000)

Own-IsApart : (q : ℕ) → Own q → q ≢ 0x300000
Own-IsApart q (from, to) = omega (arith, to)

-- the room for an interrupt, at a stack pointer in the program's stack
room_at :
    (esp : ℕ)
    → 0x4000 + 44 + 64 ≤ esp
    → esp ≤ 0x8000
    → (0x4000 + 44 + 64 ≤ esp) × ((q : ℕ) → 0x4000 ≤ q → q < esp → Own q)
room_at esp low high = (low, λ q from to. (from, omega (arith, to, high)))

-- C++ code that overwrites one of its arguments and counts its calls
abbrev writes : (number esp : ℕ) → Kernel (Devices (List ℕ)) → (ℕ → ℕ) → ℕ → ℕ
writes number esp k f = update (update f (esp - 8) 0) 0x300010 (f 0x300010 + 1)

writes-LeavesOwn : LeavesOwn Own 64 writes
writes-LeavesOwn number esp k f q (from, to) outside =
    update_ne (update f (esp - 8) 0) 0x300010 q (f 0x300010 + 1) (omega (arith, to))
    ∙ update_ne f (esp - 8) q 0
        (elim outside [ inl g ↦ omega (arith, g, from) | inr l ↦ omega (arith, l) ])

abbrev events : List Event
events = comes keyboard ∷ step ∷ comes timer ∷ comes timer ∷ step ∷ step ∷ []

run-Agree_example :
    let out = run counts (handle_interrupt (handle scans keys at)) writes events machine kernel in
    Agree Own 0x4000 out.0 (alone counts events machine) × IsSound at out.1
unfolding push
run-Agree_example =
    run-Agree scans keys at writes counts Own 64 0x4000 events machine machine kernel (omega arith)
      writes-LeavesOwn (counts-Agree Own 0x4000)
      (
        Own-IsApart,
        room_at _ (omega arith) (omega arith),
        (
          Own-IsApart,
          room_at _ (omega arith) (omega arith),
          (Own-IsApart, room_at _ (omega arith) (omega arith), tt),
        ),
      )
      (refl, omega arith, omega arith, λ q mine aligned_word outside. refl) kernel-IsSound

-- `h` pressed and released, and `i` pressed
abbrev typed : List ℕ
typed = 0x23 ∷ 0xA3 ∷ 0x17 ∷ []

-- the data port gives one code after the other
abbrev typing : Device
typing trace port = get_or typed (length trace / 2) 0

abbrev typed_keys : List Key
typed_keys = some 0x23 ∷ none ∷ some 0xA3 ∷ some 0x17 ∷ none ∷ []

run-types_example :
    let (m', k') =
      run counts
        (handle_interrupt (handle typing keys at))
        writes
        (Typing.events keyboard typed_keys)
        machine
        kernel in
    Agree Own 0x4000 m' (alone counts (Typing.events keyboard typed_keys) machine)
    × (k'.io.screen ≡ print (text typed) kernel.io.screen)
    × (k'.devices.events ≡ deliver keys kernel.devices.keyboard typed [])
    × IsSound at k'
unfolding push
run-types_example =
    run-types typing keys at writes counts Own 64 keyboard 0x4000 typed_keys machine kernel
      (refl, refl) (omega arith) (omega arith) (omega arith) writes-LeavesOwn
      (counts-Agree Own 0x4000)
      (
        Own-IsApart,
        room_at _ (omega arith) (omega arith),
        (
          Own-IsApart,
          room_at _ (omega arith) (omega arith),
          (Own-IsApart, room_at _ (omega arith) (omega arith), tt),
        ),
      )
      (refl, omega arith, omega arith, λ q mine aligned_word outside. refl) kernel-IsSound
      (refl, (refl, (refl, tt)))

text_is_shown : text typed ≡ b'h' ∷ b'i' ∷ []
unfolding scancode_to_ascii
text_is_shown = refl
