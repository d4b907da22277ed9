-- ===== src/Machine/TaskTests.antt =====
-- Task switches at a concrete machine with three tasks.
use blue_os.Base.{
  ℕ, ◌+◌, ◌*◌, ◌-◌, ◌≡◌, ◌≤◌, ◌<◌, inl, inr, refl, some, List, [], ◌∷◌, arith, update, update_ne,
  bit_and,
}
use blue_os.Interrupts.{Kernel, Handlers, handle_interrupt}
use blue_os.Tasks.{CpuState, TaskManager, init_task, schedule}
use blue_os.Kernel.Sample as Sample
use blue_os.Machine.Frame.{LeavesOwn}
use blue_os.Machine.Tick.{IsBetween}
use blue_os.Machine.{Machine, request_0x00, Stub, push, interrupt, ignore}
use blue_os.Machine.Switch.{run, run-goes_on}
use blue_os.Machine.Start.{tick-starts, ignore_lem}

-- tasks at 0x10000, 0x20000 and 0x30000, the second running, the others new
abbrev tasks : TaskManager
tasks = record {
  tasks = λ i. 0x10000 * (i + 1);
  num_tasks = 3;
  current_task = some 1;
  task = λ p. record { cpustate = p + 4096 - 52; burst_time = 5; remaining_time = 5; priority = 1 };
}

abbrev kernel : Kernel (List ℕ)
kernel = record {
  interrupts = Sample.kernel.interrupts;
  io = Sample.kernel.io;
  tasks = tasks;
  devices = [];
}

abbrev handlers : Handlers (List ℕ)
handlers handler esp k = (esp, k)

abbrev timer : Stub
timer = record {
  request = request_0x00;
  address = 0x100200;
  selector = 8;
  variable = 0x200000;
  behind = 0;
  back = 0x100300;
}

-- C++ code that overwrites one of its arguments
abbrev writes : (number esp : ℕ) → Kernel (List ℕ) → (ℕ → ℕ) → ℕ → ℕ
writes number esp k f = update f (esp - 8) 0

-- With a frame of 64 bytes it spares all words but one, where the stack has room for it.
writes-LeavesOwn : (p limit : ℕ) → 8 ≤ p → LeavesOwn (IsBetween p limit) 64 writes
writes-LeavesOwn p limit low number esp k f q (from, to) outside =
    update_ne f (esp - 8) q 0
      (elim outside [ inl g ↦ omega (arith, g, from, low) | inr l ↦ omega (arith, l) ])

abbrev before : CpuState
before = Sample.system.frames 0

-- the running task's registers, and the words that the third task's constructor wrote
abbrev machine : Machine
machine = record {
  cpu = record {
    eax = 1;
    ebx = 2;
    ecx = 3;
    edx = 4;
    esi = 5;
    edi = 6;
    ebp = 7;
    esp = 0x20F00;
    eip = 0x100000;
    cs = 8;
    eflags = 0x202;
  };
  memory = update (update (update (λ q. 0) 0x30FEC 0x101200) 0x30FF0 8) 0x30FF4 0x202;
}

-- what the third and the first task do in their turns
abbrev slices : List (Machine → Machine)
slices =
    (λ m. push 99 (record m { cpu = record m.cpu { esp = 0x30F04 } }))
    ∷ (λ m. record m { cpu = record m.cpu { esp = 0x10F00 } })
    ∷ []

run-goes_on_example :
    let m' = (run handlers writes timer slices machine kernel).0 in
    (m'.cpu ≡ machine.cpu) × ((q : ℕ) → 0x20F00 ≤ q → q < 0x21000 → m'.memory q ≡ machine.memory q)
unfolding push
run-goes_on_example =
    run-goes_on handlers writes timer 64 1 0x21000 slices machine kernel (refl, refl)
      (omega arith, refl) (omega arith) (writes-LeavesOwn _ 0x21000 (omega arith))
      (λ q (from, to). omega (arith, to)) refl (omega arith) (λ i j hi hj e. omega (arith, e)) refl
      (omega arith) (omega arith) (omega arith)
      (
        λ q from to.
            update_ne (interrupt (handle_interrupt handlers) writes timer machine kernel).0.memory
              0x30F00 q 99 (omega (arith, to)),
        (omega arith, omega arith, inr (omega arith)),
        (λ q from to. refl, (omega arith, omega arith, inl (omega arith)), tt),
      )

tick-starts_example :
    (interrupt (handle_interrupt handlers) writes timer machine kernel).0.cpu ≡ record {
      eax = 0;
      ebx = 0;
      ecx = 0;
      edx = 0;
      esi = 0;
      edi = 0;
      ebp = 0;
      eip = 0x101200;
      cs = 8;
      eflags = 0x202;
      esp = 0x30000 + 4096 - 8;
    }
unfolding init_task
tick-starts_example =
    tick-starts handlers writes timer 64 machine kernel 0x30000 0x101200 5 1 before
      (init_task 0x30000 0x101200 5 1 before).1 (init_task 0x30000 0x101200 5 1 before).0 refl
      (refl, refl) (omega arith, refl) (omega arith) (writes-LeavesOwn _ _ (omega arith))
      (λ q (from, to). omega (arith, to)) (omega arith)
      (omega arith, omega arith, inl (omega arith)) refl (unfold schedule in refl)

ignore_lem_example :
    (ignore 0x100100 8 machine).cpu
    ≡ record machine.cpu { cs = 8; eflags = bit_and 0x202 0xFFFFFCFF; esp = 0x20F00 - 8 }
ignore_lem_example = ignore_lem 0x100100 8 machine (omega arith) (omega arith)
