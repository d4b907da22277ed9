-- ===== src/Machine.antt =====
-- blue_Os/src/hardwarecommunication/interruptstubs.s, blue_Os/src/gdt_flush.s and
-- blue_Os/src/loader.s: the assembly, on the registers of the processor and on memory as words at
-- addresses. Words are taken not to overlap but where their addresses are equal, as on a stack that
-- is aligned. The C++ function that a stub calls is a parameter, and so is what it leaves in memory:
-- its frames on the stack, which may run over its arguments, the objects of the kernel, the screen.
pub mod Stack
pub mod Frame
pub mod Called
pub mod Kept
pub mod Transparent
pub mod Typing
pub mod Tick
pub mod Switch
pub mod Start
pub mod Load
mod Tests
mod TaskTests
mod BootTests
use blue_os.Base.{ℕ, ◌+◌, ◌*◌, ◌^◌, ◌-◌, ◌%◌, List, [], ◌∷◌, bit_and, update}
use blue_os.Base.Words.{sub32, add32}

pub record Cpu : Type 0 where
  pub eax : ℕ
  pub ebx : ℕ
  pub ecx : ℕ
  pub edx : ℕ
  pub esi : ℕ
  pub edi : ℕ
  pub ebp : ℕ
  pub esp : ℕ
  pub eip : ℕ
  pub cs : ℕ
  pub eflags : ℕ

pub record Machine : Type 0 where
  pub cpu : Cpu
  pub memory : ℕ → ℕ

-- `push`, and the values of several in the order of the instructions
unfoldable pub push : ℕ → Machine → Machine
push v m =
    let esp : ℕ = sub32 m.cpu.esp 4 in
    record { cpu = record m.cpu { esp = esp }; memory = update m.memory esp v }

unfoldable pub push_all : List ℕ → Machine → Machine
unfolding push
push_all [] m = m
push_all (v ∷ vs) m = push_all vs (push v m)

-- the word at the stack pointer plus an offset, which `pop` takes at 0
abbrev pub top : (offset : ℕ) → Machine → ℕ
top offset m = m.memory (add32 m.cpu.esp offset)

-- The processor enters an interrupt gate of its own privilege level: the return address and the
-- flags are pushed, and interrupts are off.
unfoldable pub enter : (handler selector : ℕ) → Machine → Machine
unfolding push_all
enter handler selector m =
    let m1 = push_all (m.cpu.eflags ∷ m.cpu.cs ∷ m.cpu.eip ∷ []) m in
    record m1 {
      cpu = record m1.cpu {
        eip = handler;
        cs = selector;
        eflags = bit_and m.cpu.eflags 0xFFFFFCFF;
      };
    }

-- `iret`
unfoldable pub iret : Machine → Machine
iret m = record m {
  cpu = record m.cpu { eip = top 0 m; cs = top 4 m; eflags = top 8 m; esp = add32 m.cpu.esp 12 };
}

-- `ret`
unfoldable pub ret : Machine → Machine
ret m = record m { cpu = record m.cpu { eip = top 0 m; esp = add32 m.cpu.esp 4 } }

-- `pushl $0`, and `int_bottom` up to the call
unfoldable pub save_registers : Machine → Machine
unfolding push_all
save_registers m =
    push_all
      (0 ∷ m.cpu.ebp ∷ m.cpu.edi ∷ m.cpu.esi ∷ m.cpu.edx ∷ m.cpu.ecx ∷ m.cpu.ebx ∷ m.cpu.eax ∷ []) m

-- `int_bottom` from the call on, down to `add $4, %esp`
unfoldable pub restore_registers : Machine → Machine
restore_registers m = record m {
  cpu = record m.cpu {
    eax = top 0 m;
    ebx = top 4 m;
    ecx = top 8 m;
    edx = top 12 m;
    esi = top 16 m;
    edi = top 20 m;
    ebp = top 24 m;
    esp = add32 m.cpu.esp 32;
  };
}

-- the three uses of the macro `handleInterruptRequest`
pub data Request : Type 0 where
  request_0x00 : Request
  request_0x01 : Request
  request_0x0c : Request

-- `$\number + IRQ_BASE`
abbrev pub number_of : Request → ℕ
number_of request_0x00 = 0x00 + 0x20
number_of request_0x01 = 0x01 + 0x20
number_of request_0x0c = 0x0C + 0x20

-- One of the three stubs, with what the build fixes: its address, the code segment of its gate, the
-- address of `interruptnumber`, the three bytes that stand behind that one, which nothing changes,
-- and the address behind the call.
pub record Stub : Type 0 where
  pub request : Request
  pub address : ℕ
  pub selector : ℕ
  pub variable : ℕ
  pub behind : ℕ
  pub back : ℕ

-- the word at `interruptnumber` once the stub has stored its byte
abbrev pub word : Stub → ℕ
word stub = number_of stub.request + 2 ^ 8 * stub.behind

-- `movb $\number + IRQ_BASE, interruptnumber`
unfoldable pub store_number : Stub → Machine → Machine
store_number stub m = record m { memory = update m.memory stub.variable (word stub) }

-- An interrupt by a stub, from the program that is interrupted to the one that goes on. `handle` is
-- `InterruptManager::handleInterrupt`, and `leaves` the memory when it returns. The stack does not
-- reach `interruptnumber`, so the word that the stub pushes is the one that it has stored.
unfoldable pub interrupt :
    {K : Type 0}
    → (handle : (number esp : ℕ) → K → ℕ × K) → (leaves : (number esp : ℕ) → K → (ℕ → ℕ) → ℕ → ℕ)
    → Stub
    → Machine
    → K
    → Machine × K
unfolding enter store_number save_registers push_all restore_registers iret
interrupt handle leaves stub m k =
    let saved = save_registers (store_number stub (enter stub.address stub.selector m)) in
    let number : ℕ = word stub in
    let (esp, k') = handle number saved.cpu.esp k in
    let called = push_all (saved.cpu.esp ∷ number ∷ stub.back ∷ []) saved in
    let done = record called {
      cpu = record called.cpu { esp = esp };
      memory = leaves number saved.cpu.esp k called.memory;
    } in
    (iret (restore_registers done), k')

-- An interrupt whose gate leads to the C++ function `ignoreInterruptRequest`, which is empty and
-- ends in `ret`. The stub of that name in the assembly is local to it.
unfoldable pub ignore : (address selector : ℕ) → Machine → Machine
unfolding enter ret
ignore address selector m = ret (enter address selector m)

-- The segment registers.
pub record Segments : Type 0 where
  pub cs : ℕ
  pub ds : ℕ
  pub es : ℕ
  pub fs : ℕ
  pub gs : ℕ
  pub ss : ℕ

-- `gdt_flush`, behind the load of the table
abbrev pub gdt_flush : Segments
gdt_flush = record { cs = 0x08; ds = 0x10; es = 0x10; fs = 0x10; gs = 0x10; ss = 0x10 }

-- `loader`, up to its call of `kernelMain`
unfoldable pub loader : (kernel_stack : ℕ) → Machine → Machine
unfolding push_all
loader kernel_stack m =
    push_all (m.cpu.ebx ∷ m.cpu.eax ∷ []) (record m { cpu = record m.cpu { esp = kernel_stack } })
