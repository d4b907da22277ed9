-- ===== src/Machine/Start.antt =====
-- The first run of a task of blue_Os/src/multitasking.cpp, and an interrupt that is ignored, on the
-- machine of blue_Os/src/hardwarecommunication/interruptstubs.s.
use blue_os.Base.{ℕ, ◌+◌, ◌-◌, ◌^◌, ◌<◌, ◌≤◌, ◌≡◌, refl, sym, ap, ◌∙◌, arith, bit_and, ==_refl}
use blue_os.Base.Words.{sub32, add32, u32}
use blue_os.Interrupts.{Kernel, Handlers, handle_interrupt}
use blue_os.Tasks.{CpuState, Task, init_task, cpu_state_size, schedule}
use blue_os.Machine.{Cpu, Machine, Stub, interrupt, push, push_all, enter, ret, ignore}
use blue_os.Machine.Frame.{frame_size, call_size, context, context-same, left, LeavesOwn, IsApart}
use blue_os.Machine.Tick.{Ticks, IsTimer, IsBetween, IsElsewhere, tick-context, left-spares}

-- The registers that a `CPUState` at `p` stands for, with the stack above it.
abbrev pub registers : (p : ℕ) → CpuState → Cpu
registers p f = record {
  eax = f.eax;
  ebx = f.ebx;
  ecx = f.ecx;
  edx = f.edx;
  esi = f.esi;
  edi = f.edi;
  ebp = f.ebp;
  eip = f.eip;
  cs = f.cs;
  eflags = f.eflags;
  esp = p + frame_size;
}

-- A new task starts when a timer interrupt, with no handler for the timer, comes on a stack
-- elsewhere and the scheduler chooses its context, of which memory still holds the words that the
-- constructor wrote: at its entry point, in segment 8, with interrupts on, zeroes in the other
-- registers, and 8 bytes of its stack taken. The object ends below 2^32. The kernel's C++ code
-- changes nothing of that context but, at most, words in the `depth` bytes below the stack pointer
-- that it is given, for which the other stack has room, and `interruptnumber` does not stand there.
pub tick-starts :
    {S : Type 0} (handlers : Handlers S) (leaves : (number esp : ℕ) → Kernel S → (ℕ → ℕ) → ℕ → ℕ)
    (stub : Stub) (depth : ℕ) (m : Machine) (k : Kernel S) (self entrypoint burst prio : ℕ)
    (before frame : CpuState) (task : Task)
    → init_task self entrypoint burst prio before ≡ (task, frame)
    → IsTimer stub
    → Ticks k
    → call_size ≤ depth
    → LeavesOwn (IsBetween task.cpustate (task.cpustate + frame_size)) depth leaves
    → IsApart (IsBetween task.cpustate (task.cpustate + frame_size)) stub
    → self + 4096 < 2 ^ 32
    → IsElsewhere depth task.cpustate (task.cpustate + frame_size) m
    → context m.memory task.cpustate ≡ registers task.cpustate frame
    → (schedule (m.cpu.esp - frame_size) k.tasks).0 ≡ task.cpustate
    → (interrupt (handle_interrupt handlers) leaves stub m k).0.cpu ≡ record {
      eax = 0;
      ebx = 0;
      ecx = 0;
      edx = 0;
      esi = 0;
      edi = 0;
      ebp = 0;
      eip = entrypoint;
      cs = 8;
      eflags = 0x202;
      esp = self + 4096 - 8;
    }
unfolding init_task
tick-starts handlers leaves stub depth m k self entrypoint burst prio before frame task made timer
      ticks deep own free low elsewhere holds chosen =
    let p : ℕ = task.cpustate in
    let (room, small, _) = elsewhere in
    let place : sub32 (u32 (self + 4096)) cpu_state_size ≡ p =
      ap (λ (t : Task × CpuState). t.0.cpustate) made in
    let at_top : p + frame_size ≡ self + 4096 - 8 = omega (arith, low, place) in
    tick-context handlers leaves stub p m k timer ticks (omega (arith, room)) small
      (omega (arith, at_top, low)) chosen
    ∙ context-same (left leaves stub m k) m.memory p (λ q from to.
      left-spares leaves stub depth p (p + frame_size) q m k deep own free elsewhere from to)
    ∙ holds
    ∙ ap (λ (esp : ℕ). record (registers p frame) { esp = esp }) at_top
    ∙ ap (λ (t : Task × CpuState). record (registers p t.1) { esp = self + 4096 - 8 }) (sym made)

-- With 12 bytes of room on the stack, an interrupt whose gate is left at `ignoreInterruptRequest`
-- goes on where it came from, but in the segment of the gate, with 8 bytes more on the stack and
-- with its flags stripped of the trap flag and of the one that lets interrupts in.
pub ignore_lem :
    (address selector : ℕ) (m : Machine)
    → 12 ≤ m.cpu.esp
    → m.cpu.esp < 2 ^ 32
    → (ignore address selector m).cpu ≡ record m.cpu {
      cs = selector;
      eflags = bit_and m.cpu.eflags 0xFFFFFCFF;
      esp = m.cpu.esp - 8;
    }
unfolding ignore enter ret push_all push
ignore_lem address selector m room small =
    let low : sub32 (sub32 (sub32 m.cpu.esp 4) 4) 4 ≡ m.cpu.esp - 12 = omega arith in
    let here : add32 (m.cpu.esp - 12) 0 ≡ m.cpu.esp - 12 = omega arith in
    let above : add32 (m.cpu.esp - 12) 4 ≡ m.cpu.esp - 8 = omega arith in
    rw (low, here, above, ==_refl (m.cpu.esp - 12)) refl
