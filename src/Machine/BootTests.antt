-- ===== src/Machine/BootTests.antt =====
-- The boot of a concrete machine.
use blue_os.Base.{true, ℕ, ◌*◌, ◌-◌, ◌≡◌, ◌<◌, some, arith}
use blue_os.Gdt.{init_gdt, gdt_entry_size}
use blue_os.Gdt.Fields.{flat}
use blue_os.Interrupts.{init}
use blue_os.Interrupts.Gates.{gate_at}
use blue_os.Tasks.{CpuState, init_task}
use blue_os.Kernel.{kernel_main}
use blue_os.Kernel.Sample.{at, system, ready, ready-IsQuiet}
use blue_os.Machine.{Machine, top, loader, gdt_flush}
use blue_os.Machine.Load.{selected, is_idle, loader-kernel_main, init_gdt-selected}

abbrev machine : Machine
machine = record {
  cpu = record {
    eax = 0x2BADB002;
    ebx = 0x9500;
    ecx = 3;
    edx = 4;
    esi = 5;
    edi = 6;
    ebp = 7;
    esp = 0x7FF0;
    eip = 0x100000;
    cs = 0x10;
    eflags = 2;
  };
  memory = λ q. 0;
}

loader-kernel_main_example :
    let boot = loader 0x300000 machine in
    (is_idle (kernel_main ready 1 at (top 0 boot) system) ≡ some true)
    × (top 4 boot ≡ machine.cpu.ebx)
loader-kernel_main_example =
    loader-kernel_main ready 0 at system 0x300000 machine ready-IsQuiet (omega arith)
      (record { column = omega arith; row = omega arith }) (omega arith) (omega arith)

abbrev before : CpuState
before = system.frames 0

init_gdt-selected_example :
    let t = init_gdt 0x110000 system.gdt in
    let gates = (init at.stubs 0x200000 0x111000 system.kernel).interrupts.table in
    (selected t gdt_flush.cs ≡ flat 0x9A)
    × (selected t gdt_flush.ds ≡ flat 0x92)
    × (gdt_flush.es ≡ gdt_flush.ds)
    × (gdt_flush.fs ≡ gdt_flush.ds)
    × (gdt_flush.gs ≡ gdt_flush.ds)
    × (gdt_flush.ss ≡ gdt_flush.ds)
    × ((i : ℕ) → i < 256 → selected t (gate_at i gates).selector ≡ flat 0x9A)
    × (selected t (init_task 0x201000 0x101000 3 1 before).1.cs ≡ flat 0x9A)
    × (t.loaded ≡ some (record { limit = 5 * gdt_entry_size - 1; base = 0x110000 }))
init_gdt-selected_example =
    init_gdt-selected 0x110000 system.gdt at.stubs 0x200000 0x111000 system.kernel 0x201000 0x101000
      3 1 before (omega arith)
      (record {
        ignore = omega arith;
        request_0x00 = omega arith;
        request_0x01 = omega arith;
        request_0x0c = omega arith;
      })
