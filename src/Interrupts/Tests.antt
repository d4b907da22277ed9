-- ===== src/Interrupts/Tests.antt =====
-- Runs of interrupts.cpp, and the theorems at a concrete manager.
use blue_os.Base.{
  ℕ, ◌+◌, ◌*◌, ◌<◌, ◌≡◌, ◌≢◌, refl, true, none, some, [], ◌++◌, arith, ◌==◌, if◌then◌else◌,
}
use blue_os.Tasks.{schedule}
use blue_os.Interrupts.{
  GateDescriptor, Stubs, Kernel, Handlers, init, acknowledge, handle_interrupt,
}
use blue_os.Interrupts.Gates.{gate_at, kernel_gate, stub_of, AreAddresses, init-gates}
use blue_os.Interrupts.Dispatch.{end_of_interrupt, handle_interrupt-line}

abbrev stubs : Stubs
stubs = record {
  ignore = 0x1000;
  request_0x00 = 0x1100;
  request_0x01 = 0x1200;
  request_0x0c = 0x1300;
}

stubs-AreAddresses : AreAddresses stubs
stubs-AreAddresses = record {
  ignore = omega arith;
  request_0x00 = omega arith;
  request_0x01 = omega arith;
  request_0x0c = omega arith;
}

abbrev no_gate : GateDescriptor
no_gate = record {
  handler_address_lower_bits = 0;
  gdt_code_segment_selector = 0;
  reserved = 0;
  access = 0;
  handler_address_high_bits = 0;
}

-- The manager at 500 is active, with a handler at 700 for the mouse; two tasks.
abbrev kernel : Kernel (Unit {0})
kernel = record {
  interrupts = record {
    active = 500;
    handler = λ m n. if n == 0x2C then 700 else 0;
    table = λ _. no_gate;
    loaded = none;
    enabled = true;
  };
  io = record { trace = []; screen = record { cells = λ _. 0x0720; x = 0; y = 0 } };
  tasks = record {
    tasks = λ i. 1000 * (i + 1);
    num_tasks = 2;
    current_task = some 0;
    task = λ p. record { cpustate = p + 11; burst_time = 1; remaining_time = 1; priority = 1 };
  };
  devices = tt;
}

-- handlers that return a stack pointer of their own
abbrev handlers : Handlers (Unit {0})
handlers handler esp k = (esp + handler, k)

-- The number 0x30, behind the last line of the slave, is acknowledged like it.
acknowledges_0x30 : (acknowledge 0x30 kernel.io).trace ≡ (acknowledge 0x2F kernel.io).trace
unfolding acknowledge
acknowledges_0x30 = refl

init-gates_example :
    let out = (init stubs 900 0x105000 kernel).interrupts in
    ((i : ℕ) → i < 256 → gate_at i out.table ≡ kernel_gate (stub_of stubs i))
    × ((i : ℕ) → i < 256 → out.handler 900 i ≡ 0)
    × ((other i : ℕ) → other ≢ 900 → out.handler other i ≡ kernel.interrupts.handler other i)
init-gates_example = init-gates stubs 900 0x105000 kernel stubs-AreAddresses

handle_interrupt-line_example :
    let after = handlers 700 40 kernel in
    let out = handle_interrupt handlers (0x20 + 12) 40 kernel in
    (out.0 ≡ (if 12 == 0 then (schedule after.0 after.1.tasks).0 else after.0))
    × (out.1.tasks ≡ (if 12 == 0 then (schedule after.0 after.1.tasks).1 else after.1.tasks))
    × (out.1.interrupts ≡ after.1.interrupts)
    × (out.1.io.trace ≡ end_of_interrupt 12 ++ after.1.io.trace)
handle_interrupt-line_example =
    handle_interrupt-line handlers 700 12 40 kernel (omega arith) (omega arith) refl (omega arith)
