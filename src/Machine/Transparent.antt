-- ===== src/Machine/Transparent.antt =====
-- Interrupts that are taken between the steps of a program, on the machine of
-- blue_Os/src/hardwarecommunication/interruptstubs.s and the kernel of blue_Os/src/kernel.cpp.
use blue_os.Base.{ℕ, ◌+◌, ◌%◌, ◌^◌, ◌<◌, ◌≤◌, ◌≡◌, ◌⊎◌, inl, inr, ap, ◌∙◌, List, [], ◌∷◌, arith}
use blue_os.Ports.{Device}
use blue_os.Interrupts.{Kernel, handle_interrupt}
use blue_os.Keyboard.{KeyHandlers}
use blue_os.Kernel.{Layout, Devices, handle}
use blue_os.Kernel.Sound.{IsSound, handle_interrupt-IsSound}
use blue_os.Machine.{Cpu, Machine, Stub, interrupt}
use blue_os.Machine.Frame.{frame_size, call_size, LeavesOwn, IsApart}
use blue_os.Machine.Kept.{interrupt-same}

-- What happens next: the program makes a step, or an interrupt comes by a stub.
pub data Event : Type 0 where
  step : Event
  comes : Stub → Event

-- The two machines are the same for a program whose stack, of aligned words, reaches down to
-- `bottom`: they have the same registers, and the same words of the program's `own` but for the free
-- part of the stack.
abbrev pub Agree : (own : ℕ → Type 0) → (bottom : ℕ) → Machine → Machine → Type 0
Agree own bottom m n =
    (m.cpu ≡ n.cpu)
    × (n.cpu.esp % 4 ≡ 0)
    × (n.cpu.esp < 2 ^ 32)
    × ((q : ℕ) → own q → q % 4 ≡ 0 → (q < bottom) ⊎ (n.cpu.esp ≤ q) → m.memory q ≡ n.memory q)

-- The free part of the stack, which is the program's own, holds the context and the `depth` bytes of
-- the call.
abbrev pub HasRoom : (own : ℕ → Type 0) → (depth bottom : ℕ) → Machine → Type 0
HasRoom own depth bottom m =
    (bottom + frame_size + depth ≤ m.cpu.esp) × ((q : ℕ) → bottom ≤ q → q < m.cpu.esp → own q)

module _ {K : Type 0} (program : Machine → Machine) (handle : (number esp : ℕ) → K → ℕ × K)
    (leaves : (number esp : ℕ) → K → (ℕ → ℕ) → ℕ → ℕ) where
  -- the program with its interrupts, and without them
  abbrev pub run : List Event → Machine → K → Machine × K
  run [] m k = (m, k)
  run (step ∷ events) m k = run events (program m) k
  run (comes stub ∷ events) m k =
      let (m', k') = interrupt handle leaves stub m k in run events m' k'

module _ (program : Machine → Machine) where
  abbrev pub alone : List Event → Machine → Machine
  alone [] m = m
  alone (step ∷ events) m = alone events (program m)
  alone (comes _ ∷ events) m = alone events m

  -- Whenever an interrupt comes, the program that runs alone has the room for it, and the variable of
  -- the stub is not its own.
  abbrev pub HasRoomAt : (own : ℕ → Type 0) → (depth bottom : ℕ) → List Event → Machine → Type 0
  HasRoomAt own depth bottom [] m = Unit {0}
  HasRoomAt own depth bottom (step ∷ events) m = HasRoomAt own depth bottom events (program m)
  HasRoomAt own depth bottom (comes stub ∷ events) m =
      IsApart own stub × HasRoom own depth bottom m × HasRoomAt own depth bottom events m

-- An interrupt for which the handler returns the stack pointer it was given cannot be seen.
interrupt-Agree :
    {K : Type 0} (handle : (number esp : ℕ) → K → ℕ × K)
    (leaves : (number esp : ℕ) → K → (ℕ → ℕ) → ℕ → ℕ) (own : ℕ → Type 0) (depth : ℕ) (stub : Stub)
    (bottom : ℕ) (m n : Machine) (k : K)
    → call_size ≤ depth
    → LeavesOwn own depth leaves
    → IsApart own stub
    → ((number esp : ℕ) → (handle number esp k).0 ≡ esp)
    → HasRoom own depth bottom n
    → Agree own bottom m n
    → Agree own bottom (interrupt handle leaves stub m k).0 n
interrupt-Agree handle leaves own depth stub bottom m n k deep spares free same (room, mine)
      (registers, aligned, small, memory) =
    let e : m.cpu.esp ≡ n.cpu.esp = ap (λ (c : Cpu). c.esp) registers in
    let (kept, others, _) =
      interrupt-same leaves stub own depth deep spares free handle m k (omega (arith, e, room))
        (omega (arith, e))
        (λ q from to. mine q (omega (arith, e, room, from)) (omega (arith, e, to))) (same _ _) in
    (
      kept ∙ registers,
      aligned,
      small,
      λ q mine_too word outside.
          others q mine_too (elim outside [
            | inl l ↦ inl (omega (arith, e, l, room))
            | inr g ↦ inr (omega (arith, e, g))
          ])
          ∙ memory q mine_too word outside,
    )

-- A kernel of kernel.cpp takes interrupts, and what a program does depends on its registers and on
-- the words of its own alone, without the free part of its stack, which is of aligned words. The
-- kernel's C++ code changes no word of the program's own but in the `depth` bytes below the stack
-- pointer that it is given, and `interruptnumber` is not the program's. With interrupts by the three
-- stubs of the assembly, in any order, between the steps of the program, at which its stack has
-- room, the program gets to the registers and, in the words of its own but for the free part of the
-- stack, to the memory to which it gets alone, and the kernel stays sound. Of other memory, as of
-- the screen and of the kernel's, nothing is said, nor of vectors that have no stub.
pub run-Agree :
    {S : Type 0} (dev : Device) (keys : KeyHandlers S) (at : Layout)
    (leaves : (number esp : ℕ) → Kernel (Devices S) → (ℕ → ℕ) → ℕ → ℕ) (program : Machine → Machine)
    (own : ℕ → Type 0) (depth bottom : ℕ) (events : List Event) (m n : Machine)
    (k : Kernel (Devices S))
    → call_size ≤ depth
    → LeavesOwn own depth leaves
    → ((a b : Machine) → Agree own bottom a b → Agree own bottom (program a) (program b))
    → HasRoomAt program own depth bottom events n
    → Agree own bottom m n
    → IsSound at k
    → let out = run program (handle_interrupt (handle dev keys at)) leaves events m k in
      Agree own bottom out.0 (alone program events n) × IsSound at out.1
run-Agree dev keys at leaves program own depth bottom [] m n k deep spares respects room agree
      sound =
    (agree, sound)
run-Agree dev keys at leaves program own depth bottom (step ∷ events) m n k deep spares respects
      room agree sound =
    run-Agree dev keys at leaves program own depth bottom events (program m) (program n) k deep
      spares respects room (respects m n agree) sound
run-Agree dev keys at leaves program own depth bottom (comes stub ∷ events) m n k deep spares
      respects (free, now, room) agree sound =
    let dispatch = handle_interrupt (handle dev keys at) in
    let out = interrupt dispatch leaves stub m k in
    let same = λ (number esp : ℕ). (handle_interrupt-IsSound dev keys at number esp k sound).0 in
    run-Agree dev keys at leaves program own depth bottom events out.0 n out.1 deep spares respects
      room
      (interrupt-Agree dispatch leaves own depth stub bottom m n k deep spares free same now agree)
      (unfold interrupt in (handle_interrupt-IsSound dev keys at _ _ k sound).1)
