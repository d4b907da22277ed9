-- ===== src/Machine/Switch.antt =====
-- Task switches on the machine of blue_Os/src/hardwarecommunication/interruptstubs.s: timer
-- interrupts with the round robin of blue_Os/src/multitasking.cpp.
use mathlib.Core.Path.{subst}
use blue_os.Base.{
  ℕ, suc, ◌+◌, ◌-◌, ◌^◌, ◌<◌, ◌≤◌, ◌≡◌, ◌≢◌, inr, refl, sym, ap, ◌∙◌, some, List, [], ◌∷◌, arith,
  length,
}
use blue_os.Interrupts.{Interrupts, Kernel, Handlers, handle_interrupt}
use blue_os.Tasks.{TaskManager}
use blue_os.Tasks.RoundRobin as Robin
use blue_os.Tasks.RoundRobin.{Distinct, run-resumes}
use blue_os.Machine.{Machine, Stub, interrupt}
use blue_os.Machine.Frame.{frame_size, call_size, context, context-same, left, LeavesOwn, IsApart}
use blue_os.Machine.Kept.{left-context, left-other}
use blue_os.Machine.Tick.{
  Ticks, IsTimer, IsBetween, IsElsewhere, tick, left-spares, tick-memory, tick-context,
}

module _ {S : Type 0} (handlers : Handlers S)
    (leaves : (number esp : ℕ) → Kernel S → (ℕ → ℕ) → ℕ → ℕ) (stub : Stub) where
  -- A timer interrupt, and then, for every slice, what the task that goes on does until the next.
  abbrev pub run : List (Machine → Machine) → Machine → Kernel S → Machine × Kernel S
  run [] m k = interrupt (handle_interrupt handlers) leaves stub m k
  run (slice ∷ slices) m k =
      let (m', k') = interrupt (handle_interrupt handlers) leaves stub m k in
      run slices (slice m') k'

  -- the contexts that the interrupts after the first save
  abbrev saves : List (Machine → Machine) → Machine → Kernel S → List ℕ
  saves [] m k = []
  saves (slice ∷ slices) m k =
      let (m', k') = interrupt (handle_interrupt handlers) leaves stub m k in
      ((slice m').cpu.esp - frame_size) ∷ saves slices (slice m') k'

  length-saves :
      (slices : List (Machine → Machine)) (m : Machine) (k : Kernel S)
      → length (saves slices m k) ≡ length slices
  length-saves [] m k = refl
  length-saves (slice ∷ slices) m k =
      let (m', k') = interrupt (handle_interrupt handlers) leaves stub m k in
      ap suc (length-saves slices (slice m') k')

  Ticks-same : (k k' : Kernel S) → k'.interrupts ≡ k.interrupts → Ticks k → Ticks k'
  Ticks-same k k' same ticks =
      subst (λ (i : Interrupts). (i.active ≢ 0) × (i.handler i.active 0x20 ≡ 0)) (sym same) ticks

module _ {S : Type 0} (handlers : Handlers S)
    (leaves : (number esp : ℕ) → Kernel S → (ℕ → ℕ) → ℕ → ℕ) (stub : Stub) (depth : ℕ) where
  -- The slices leave the words from `p` to `limit` alone, and stand on stacks elsewhere.
  abbrev pub Spares : (p limit : ℕ) → List (Machine → Machine) → Machine → Kernel S → Type 0
  Spares p limit [] m k = Unit {0}
  Spares p limit (slice ∷ slices) m k =
      let (m', k') = interrupt (handle_interrupt handlers) leaves stub m k in
      ((q : ℕ) → p ≤ q → q < limit → (slice m').memory q ≡ m'.memory q)
      × IsElsewhere depth p limit (slice m')
      × Spares p limit slices (slice m') k'

  -- A context that waits at `p` is resumed when the scheduler comes to it, with the words above it.
  waits :
      (p limit : ℕ) (slices : List (Machine → Machine)) (m : Machine) (k : Kernel S)
      → IsTimer stub
      → Ticks k
      → call_size ≤ depth
      → LeavesOwn (IsBetween p limit) depth leaves
      → IsApart (IsBetween p limit) stub
      → p + frame_size ≤ limit
      → p + frame_size < 2 ^ 32
      → IsElsewhere depth p limit m
      → Spares p limit slices m k
      → (Robin.run (m.cpu.esp - frame_size) (saves handlers leaves stub slices m k) k.tasks).0 ≡ p
      → let m' = (run handlers leaves stub slices m k).0 in
        (m'.cpu ≡ context m.memory p) × ((q : ℕ) → p ≤ q → q < limit → m'.memory q ≡ m.memory q)
  waits p limit [] m k timer ticks deep own free fits low elsewhere spares back =
      let (room, small, _) = elsewhere in
      let pushes = λ (q : ℕ) (from : p ≤ q) (to : q < limit).
        left-spares leaves stub depth p limit q m k deep own free elsewhere from to in
      (
        tick-context handlers leaves stub p m k timer ticks (omega (arith, room)) small low back
            ∙ context-same (left leaves stub m k) m.memory p
                (λ q from to. pushes q from (omega (arith, to, fits))),
        λ q from to.
            ap (λ (f : ℕ → ℕ). f q)
              (tick-memory handlers leaves stub m k timer ticks (omega (arith, room)) small)
            ∙ pushes q from to,
      )
  waits p limit (slice ∷ slices) m k timer ticks deep own free fits low elsewhere
        (spared, next, later) back =
      let (room, small, _) = elsewhere in
      let (_, tasks, interrupts) =
        tick handlers leaves stub m k timer ticks (omega (arith, room)) small in
      let (m', k') = interrupt (handle_interrupt handlers) leaves stub m k in
      let n = slice m' in
      let at = λ (t : TaskManager).
        (Robin.run (n.cpu.esp - frame_size) (saves handlers leaves stub slices n k') t).0 in
      let keeps = λ (q : ℕ) (from : p ≤ q) (to : q < limit).
        spared q from to
        ∙ ap (λ (f : ℕ → ℕ). f q)
            (tick-memory handlers leaves stub m k timer ticks (omega (arith, room)) small)
        ∙ left-spares leaves stub depth p limit q m k deep own free elsewhere from to in
      let (registers, memory) =
        waits p limit slices n k' timer (Ticks-same handlers leaves stub k k' interrupts ticks) deep
          own free fits low next later (ap at tasks ∙ back) in
      (
        registers
            ∙ context-same n.memory m.memory p
                (λ q from to. keeps q from (omega (arith, to, fits))),
        λ q from to. memory q from to ∙ keeps q from to,
      )

  -- Let timer interrupts reach a manager that has no handler for the timer, in a round robin over
  -- different tasks. From an interrupt of task `c` on, with room on its stack, after as many of them
  -- as there are tasks, the processor goes on with task `c`: with the registers that it had, and
  -- with its stack, up to `limit`, as it was. Between the interrupts the other tasks do anything
  -- that leaves that stack and the context saved on it alone, and at each interrupt they stand on a
  -- stack elsewhere with room: for the context, and for the `depth` bytes of the call. The kernel's
  -- C++ code, whose effect on memory is `leaves`, changes nothing of that stack and context but, at
  -- most, words in the `depth` bytes below the stack pointer that it is given, and `interruptnumber`
  -- does not stand there.
  pub run-goes_on :
      (c limit : ℕ) (slices : List (Machine → Machine)) (m : Machine) (k : Kernel S)
      → IsTimer stub
      → Ticks k
      → call_size ≤ depth
      → LeavesOwn (IsBetween (m.cpu.esp - frame_size) limit) depth leaves
      → IsApart (IsBetween (m.cpu.esp - frame_size) limit) stub
      → k.tasks.current_task ≡ some c
      → c < k.tasks.num_tasks
      → Distinct k.tasks
      → suc (length slices) ≡ k.tasks.num_tasks
      → frame_size + depth ≤ m.cpu.esp
      → m.cpu.esp < 2 ^ 32
      → m.cpu.esp ≤ limit
      → Spares (m.cpu.esp - frame_size) limit slices m k
      → let m' = (run handlers leaves stub slices m k).0 in
        (m'.cpu ≡ m.cpu) × ((q : ℕ) → m.cpu.esp ≤ q → q < limit → m'.memory q ≡ m.memory q)
  run-goes_on c limit [] m k timer ticks deep own free current some_task apart all room small top
        spares =
      let p : ℕ = m.cpu.esp - frame_size in
      let back = run-resumes p c [] k.tasks current some_task apart all in
      (
        tick-context handlers leaves stub p m k timer ticks (omega (arith, room)) small
              (omega arith) back
            ∙ left-context leaves stub (IsBetween p limit) depth deep own free m k room small
                (λ q from to. (from, omega (arith, to, top))),
        λ q from to.
            ap (λ (f : ℕ → ℕ). f q)
              (tick-memory handlers leaves stub m k timer ticks (omega (arith, room)) small)
            ∙ left-other leaves stub (IsBetween p limit) depth deep own free m k q room small
                (omega (arith, from), to) (inr from),
      )
  run-goes_on c limit (slice ∷ slices) m k timer ticks deep own free current some_task apart all
        room small top (spared, next, later) =
      let p : ℕ = m.cpu.esp - frame_size in
      let (_, tasks, interrupts) =
        tick handlers leaves stub m k timer ticks (omega (arith, room)) small in
      let (m', k') = interrupt (handle_interrupt handlers) leaves stub m k in
      let n = slice m' in
      let xs = saves handlers leaves stub slices n k' in
      let count : suc (suc (length xs)) ≡ k.tasks.num_tasks =
        ap (λ (i : ℕ). suc (suc i)) (length-saves handlers leaves stub slices n k') ∙ all in
      let back =
        run-resumes p c ((n.cpu.esp - frame_size) ∷ xs) k.tasks current some_task apart count in
      let at = λ (t : TaskManager). (Robin.run (n.cpu.esp - frame_size) xs t).0 in
      let keeps = λ (q : ℕ) (from : p ≤ q) (to : q < limit).
        spared q from to
        ∙ ap (λ (f : ℕ → ℕ). f q)
            (tick-memory handlers leaves stub m k timer ticks (omega (arith, room)) small) in
      let (registers, memory) =
        waits p limit slices n k' timer (Ticks-same handlers leaves stub k k' interrupts ticks) deep
          own free (omega arith) (omega arith) next later (ap at tasks ∙ back) in
      (
        registers
            ∙ context-same n.memory (left leaves stub m k) p
                (λ q from to. keeps q from (omega (arith, to, top, room)))
            ∙ left-context leaves stub (IsBetween p limit) depth deep own free m k room small
                (λ q from to. (from, omega (arith, to, top))),
        λ q from to.
            memory q (omega (arith, from)) to
            ∙ keeps q (omega (arith, from)) to
            ∙ left-other leaves stub (IsBetween p limit) depth deep own free m k q room small
                (omega (arith, from), to) (inr from),
      )
