-- ===== src/Machine/Tick.antt =====
-- One timer interrupt on the machine of blue_Os/src/hardwarecommunication/interruptstubs.s, with
-- the scheduler of blue_Os/src/multitasking.cpp.
use blue_os.Base.{ℕ, ◌+◌, ◌-◌, ◌^◌, ◌<◌, ◌≤◌, ◌≡◌, ◌≢◌, ◌⊎◌, inl, inr, refl, ap, ◌∙◌, arith}
use blue_os.Interrupts.{Kernel, Handlers, handle_interrupt}
use blue_os.Interrupts.Dispatch.{handle_interrupt-timer}
use blue_os.Tasks.{schedule}
use blue_os.Machine.{Machine, request_0x00, Stub, word, interrupt, iret, restore_registers}
use blue_os.Machine.Frame.{
  frame_size, call_size, context, called, left, resume, resume_lem, interrupt_lem, LeavesOwn,
  IsApart,
}
use blue_os.Machine.Kept.{left-other}

-- Interrupts reach a manager, which has no handler for the timer's.
abbrev pub Ticks : {S : Type 0} → Kernel S → Type 0
Ticks k = (k.interrupts.active ≢ 0) × (k.interrupts.handler k.interrupts.active 0x20 ≡ 0)

-- the stub of the timer, with zeroes behind the number
abbrev pub IsTimer : Stub → Type 0
IsTimer stub = (stub.request ≡ request_0x00) × (stub.behind ≡ 0)

timer-word : (stub : Stub) → IsTimer stub → word stub ≡ 0x20
timer-word stub (e, zeroes) = rw (e, zeroes) refl

-- the words from `p` to `limit`
abbrev pub IsBetween : (p limit q : ℕ) → Type 0
IsBetween p limit q = (p ≤ q) × (q < limit)

-- The stack in use is one with room for an interrupt and `depth` bytes for the call, outside the
-- words from `p` to `limit`.
abbrev pub IsElsewhere : (depth p limit : ℕ) → Machine → Type 0
IsElsewhere depth p limit m =
    (frame_size + depth ≤ m.cpu.esp)
    × (m.cpu.esp < 2 ^ 32)
    × ((m.cpu.esp ≤ p) ⊎ (limit + (frame_size + depth) ≤ m.cpu.esp))

module _ {S : Type 0} (handlers : Handlers S)
    (leaves : (number esp : ℕ) → Kernel S → (ℕ → ℕ) → ℕ → ℕ) (stub : Stub) where
  -- A timer interrupt resumes the context that `schedule` chooses.
  pub tick :
      (m : Machine) (k : Kernel S)
      → IsTimer stub
      → Ticks k
      → frame_size ≤ m.cpu.esp
      → m.cpu.esp < 2 ^ 32
      → let (m', k') = interrupt (handle_interrupt handlers) leaves stub m k in
        let (next, tasks) = schedule (m.cpu.esp - frame_size) k.tasks in
        (m' ≡ resume next (record (called stub m) { memory = left leaves stub m k }))
        × (k'.tasks ≡ tasks)
        × (k'.interrupts ≡ k.interrupts)
  tick m k timer (active, free) room small =
      rw
        (
          interrupt_lem (handle_interrupt handlers) leaves stub m k room small,
          timer-word stub timer,
          handle_interrupt-timer handlers (m.cpu.esp - frame_size) k active free,
        )
        (refl, refl, refl)

  resume-memory : (p : ℕ) (m : Machine) → (resume p m).memory ≡ m.memory
  unfolding iret restore_registers
  resume-memory p m = refl

  pub tick-memory :
      (m : Machine) (k : Kernel S)
      → IsTimer stub
      → Ticks k
      → frame_size ≤ m.cpu.esp
      → m.cpu.esp < 2 ^ 32
      → (interrupt (handle_interrupt handlers) leaves stub m k).0.memory ≡ left leaves stub m k
  tick-memory m k timer ticks room small =
      ap (λ (n : Machine). n.memory) (tick m k timer ticks room small).0
      ∙ resume-memory (schedule (m.cpu.esp - frame_size) k.tasks).0
          (record (called stub m) { memory = left leaves stub m k })

  -- A timer interrupt for which the scheduler chooses the context at `p` goes on with it.
  pub tick-context :
      (p : ℕ) (m : Machine) (k : Kernel S)
      → IsTimer stub
      → Ticks k
      → frame_size ≤ m.cpu.esp
      → m.cpu.esp < 2 ^ 32
      → p + frame_size < 2 ^ 32
      → (schedule (m.cpu.esp - frame_size) k.tasks).0 ≡ p
      → (interrupt (handle_interrupt handlers) leaves stub m k).0.cpu
        ≡ context (left leaves stub m k) p
  tick-context p m k timer ticks room small low back =
      let after = record (called stub m) { memory = left leaves stub m k } in
      ap (λ (n : Machine). n.cpu) (tick m k timer ticks room small).0
      ∙ ap (λ (at : ℕ). (resume at after).cpu) back
      ∙ ap (λ (n : Machine). n.cpu) (resume_lem p after low)

-- An interrupt on a stack elsewhere keeps the words from `p` to `limit`.
pub left-spares :
    {K : Type 0} (leaves : (number esp : ℕ) → K → (ℕ → ℕ) → ℕ → ℕ) (stub : Stub)
    (depth p limit q : ℕ) (m : Machine) (k : K)
    → call_size ≤ depth
    → LeavesOwn (IsBetween p limit) depth leaves
    → IsApart (IsBetween p limit) stub
    → IsElsewhere depth p limit m
    → p ≤ q
    → q < limit
    → left leaves stub m k q ≡ m.memory q
left-spares leaves stub depth p limit q m k deep spares apart (room, small, stack) from to =
    left-other leaves stub (IsBetween p limit) depth deep spares apart m k q room small (from, to)
      (elim stack [
        | inl above ↦ inr (omega (arith, above))
        | inr below ↦ inl (omega (arith, below))
      ])
