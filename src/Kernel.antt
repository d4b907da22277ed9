-- ===== src/Kernel.antt =====
-- blue_Os/src/kernel.cpp: the kernel's entry, which sets up the other parts. Objects
-- stand at addresses; an object with several bases has one address here, whichever base a pointer
-- is to. No interrupt comes during `kernelMain` itself: it is the state in which it enters its last
-- loop. The disks and the keyboard are polled on fuel; `none` means that it ran out.
pub mod Setup
pub mod Heap
pub mod Probes
pub mod Made
pub mod Boot
pub mod Sound
pub mod Hang
pub mod Sample
mod Tests
use blue_os.Base.{
  ℕ, ◌+◌, Bool, true, false, not, Option, none, some, List, ◌==◌, if◌then◌else◌, update, get_or,
}
use blue_os.Base.Options.{◌>>=◌}
use blue_os.Base.Texts.{codes}
use blue_os.Base.Words.{u32, sub32}
use blue_os.Ports.{Device, Io, say}
use blue_os.Tasks.{CpuState, cpu_state_size, init_task}
use blue_os.Tasks as Scheduling
use blue_os.Gdt.{Gdt, init_gdt}
use blue_os.Interrupts.{Stubs, Kernel, Handlers, register}
use blue_os.Interrupts as Managers
use blue_os.Keyboard.{Keyboard, KeyHandlers}
use blue_os.Keyboard as Keys
use blue_os.Mouse.{Mouse}
use blue_os.Mouse as Mice
use blue_os.Drivers.{DriverManager, Activate, add_driver, activate_all}
use blue_os.Drivers as Managed
use blue_os.Ata.{Ata, identify, flush, read28, write28}
use blue_os.Ata as Disks

-- What the build fixes: the stubs of the assembly, the entry points of the tasks, and the addresses
-- of the tables and of the objects of `kernelMain`.
pub record Layout : Type 0 where
  pub stubs : Stubs
  pub fast_task : ℕ
  pub medium_task : ℕ
  pub slow_task : ℕ
  pub gdt : ℕ
  pub table : ℕ
  pub interrupts : ℕ
  pub keyboard : ℕ
  pub mouse : ℕ
  pub t1 : ℕ
  pub t2 : ℕ
  pub t3 : ℕ

-- The objects that interrupt handlers work on; `events` is the state of key handlers.
pub record Devices (S : Type 0) : Type 0 where
  pub keyboard : Keyboard
  pub mouse : Mouse
  pub events : S

-- `frames` are the contexts in memory, by their addresses.
pub record System (S : Type 0) : Type 0 where
  pub kernel : Kernel (Devices S)
  pub gdt : Gdt
  pub frames : ℕ → CpuState
  pub drivers : DriverManager

-- The virtual `handleInterrupt` of the objects that `kernelMain` registers; that of the base class
-- returns the stack pointer.
unfoldable pub handle : {S : Type 0} → Device → KeyHandlers S → Layout → Handlers (Devices S)
handle dev keys at handler esp k =
    let (key_esp, (events, key_io)) =
      Keys.handle_interrupt dev keys esp k.devices.keyboard k.devices.events k.io in
    let (mouse_esp, (mouse, mouse_io)) = Mice.handle_interrupt dev esp k.devices.mouse k.io in
    if handler == at.keyboard
    then (key_esp, record k { io = key_io; devices = record k.devices { events = events } })
    else if handler == at.mouse
    then (mouse_esp, record k { io = mouse_io; devices = record k.devices { mouse = mouse } })
    else (esp, k)

-- The virtual `activate` of these objects; that of the base class does nothing.
unfoldable pub activate_driver :
    {S : Type 0} → Device → (fuel : ℕ) → Layout → Activate (Kernel (Devices S))
activate_driver dev fuel at driver k =
    let (mouse, mouse_io) = Mice.activate dev k.devices.mouse k.io in
    let with_keyboard = λ (io : Io). record k { io = io } in
    if driver == at.keyboard
    then (Keys.activate dev fuel k.io >>= λ io. some (with_keyboard io))
    else if driver == at.mouse
    then some (record k { io = mouse_io; devices = record k.devices { mouse = mouse } })
    else some k

-- `Task t(&entrypoint, burst);`, with the default priority
unfoldable pub make_task : {S : Type 0} → (self entrypoint burst : ℕ) → System S → System S
make_task self entrypoint burst s =
    let tasks = s.kernel.tasks in
    let top : ℕ = sub32 (u32 (self + 4096)) cpu_state_size in
    let (task, frame) = init_task self entrypoint burst 1 (s.frames top) in
    record s {
      kernel = record s.kernel { tasks = record tasks { task = update tasks.task self task } };
      frames = update s.frames top frame;
    }

-- `TaskManager taskManager;`
unfoldable pub make_task_manager : {S : Type 0} → System S → System S
make_task_manager s = record s {
  kernel = record s.kernel { tasks = Scheduling.init s.kernel.tasks };
}

-- `init_gdt();`, the task manager and the three tasks, which are not added to it
unfoldable pub make_tasks : {S : Type 0} → Layout → System S → System S
unfolding make_task make_task_manager
make_tasks at s =
    let s1 = make_task_manager (record s { gdt = init_gdt at.gdt s.gdt }) in
    make_task at.t3 at.slow_task 10
      (make_task at.t2 at.medium_task 6 (make_task at.t1 at.fast_task 3 s1))

-- The objects of `kernelMain` up to the drivers, which are added.
unfoldable pub set_up : {S : Type 0} → Layout → System S → System S
unfolding make_tasks
set_up at s =
    let s1 = make_tasks at s in
    let k = Managers.init at.stubs at.interrupts at.table s1.kernel in
    record s1 {
      kernel = record k {
        interrupts =
            register at.mouse 0x2C at.interrupts
              (register at.keyboard 0x21 at.interrupts k.interrupts);
        devices = record k.devices { keyboard = Keys.init };
      };
      drivers = add_driver at.mouse (add_driver at.keyboard (Managed.init s.drivers));
    }

-- An object for a disk is made, and the disk identified.
unfoldable pub probe : Device → (fuel : ℕ) → Ata → List ℕ → Io → Option Io
probe dev fuel ata text io = identify dev ata fuel (say text io)

abbrev pub primary_slave : Ata
primary_slave = Disks.init false 0x1F0

-- The slave is written to, flushed and read from, whatever was identified.
unfoldable pub try_slave : Device → (fuel : ℕ) → Io → Option Io
try_slave dev fuel io =
    flush dev primary_slave fuel
      (write28 primary_slave 0 (λ i. get_or (codes "http://www.AlgorithMan.de") i 0) 25 io)
    >>= λ io'. read28 dev primary_slave fuel 0 25 io'

unfoldable pub try_disks : Device → (fuel : ℕ) → Io → Option Io
unfolding probe try_slave
try_disks dev fuel io =
    probe dev fuel (Disks.init true 0x1F0) (codes "\nS-ATA primary master: ") io >>= λ io1.
    probe dev fuel primary_slave (codes "\nS-ATA primary slave: ") io1 >>= λ io2.
    try_slave dev fuel io2 >>= λ io3.
    probe dev fuel (Disks.init true 0x170) (codes "\nS-ATA secondary master: ") io3 >>= λ io4.
    probe dev fuel (Disks.init false 0x170) (codes "\nS-ATA secondary slave: ") io4

-- The two endless loops, and the state in which each is entered.
pub data Outcome (S : Type 0) : Type 0 where
  refused idle : System S → Outcome S

-- `interrupts.activate();`
unfoldable pub take_interrupts : {S : Type 0} → Layout → Kernel (Devices S) → Kernel (Devices S)
take_interrupts at k = record k { interrupts = Managers.activate at.interrupts k.interrupts }

-- the rest of `kernelMain`, when the objects are made and the drivers are active
unfoldable pub start_up :
    {S : Type 0} → Device → (fuel : ℕ) → Layout → Kernel (Devices S) → Option (Kernel (Devices S))
unfolding try_disks take_interrupts
start_up dev fuel at k =
    let on = take_interrupts at k in
    try_disks dev fuel (say (codes "Hardware Initialization Stage 3\n") on.io) >>= λ io.
    some (take_interrupts at (record on { io = io }))

-- the part of `kernelMain` behind the objects
unfoldable pub run_main :
    {S : Type 0} → Device → (fuel : ℕ) → Layout → System S → Option (Outcome S)
unfolding activate_driver start_up
run_main dev fuel at made =
    activate_all (activate_driver dev fuel at) made.drivers made.kernel >>= λ k.
    start_up dev fuel at k >>= λ k'. some (idle (record made { kernel = k' }))

unfoldable pub kernel_main :
    {S : Type 0} → Device → (fuel : ℕ) → Layout → (magic : ℕ) → System S → Option (Outcome S)
unfolding set_up run_main
kernel_main dev fuel at magic s =
    let message = codes "Invalid multiboot magic!\n" in
    if not (magic == 0x2BADB002)
    then some (refused (record s { kernel = record s.kernel { io = say message s.kernel.io } }))
    else run_main dev fuel at (set_up at s)
