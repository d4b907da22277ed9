-- ===== src/Lib.antt =====
-- blue_Os: a model of the kernel in blue_Os/ and theorems about it.
--
-- The kernel boots on a 32-bit PC: the loader calls kernelMain, which sets up the descriptor table,
-- the interrupt manager and the drivers of keyboard and mouse, tries the disks, and then waits for
-- interrupts. A stub in assembly saves the registers of the program that is interrupted and resumes
-- the context that the interrupt manager gives back. The timer's interrupt reaches the task manager,
-- which chooses that context; other interrupts reach their drivers. Every part prints on the text
-- screen, and the drivers work the hardware through I/O ports.
--
-- Which file models which part (sources below blue_Os/src, headers below blue_Os/include):
--   Memory      memory/memorymanagment.cpp: the heap as chunks at addresses; kmalloc is search and
--               carve, kfree is join_next and join_prev, and operator new and delete stand over them
--   Tasks       multitasking.cpp: tasks, and the five schedulers by the names of their functions
--   Screen      common/print.cpp: print, its numbers and put_char_at on cells and a cursor
--   Ports       hardwarecommunication/port.cpp: reads and writes as events of a trace
--   Ata         drivers/ata.cpp: identify, read28, write28 and flush, over Ports and Screen
--   Vga         drivers/vga.cpp: set_mode, put_pixel and fill_rectangle, over Ports
--   Gdt         gdt.cpp: set_gdt_entry, init_gdt and printd
--   Interrupts  hardwarecommunication/interrupts.cpp: the gates, the registration of handlers, and
--               the dispatch of an interrupt, over Ports, Screen and the scheduler of Tasks
--   Pci         hardwarecommunication/pci.cpp: the configuration space and its scan, over Ports
--   Mouse       drivers/mouse.cpp: the packets, the position and the cursor, over Ports
--   Keyboard    drivers/keyboard.cpp: scan codes and the controller, over Ports and Screen
--   Drivers     drivers/driver.cpp: the manager that activates the drivers
--   Gui         gui/widget.cpp: widgets and composites, over Vga
--   Desktop     gui/desktop.cpp: the root widget with the pointer of the mouse, over Gui
--   Multiboot   memory/multiboot.cpp: the walk over the memory map and its report, over Screen
--   Runtime     common/cpp_support.cpp: what the compiler calls
--   Kernel      kernel.cpp: kernelMain over Gdt, Tasks, Interrupts, Drivers, Keyboard, Mouse and Ata,
--               the parts that it calls; Setup has setup_memory, the loop over the constructors and
--               the tasks, and Sound the state while interrupts come
--   Machine     hardwarecommunication/interruptstubs.s, gdt_flush.s and loader.s, on the registers of
--               the processor and on memory, over Kernel, Interrupts, Tasks and Gdt: save_registers
--               and restore_registers are the two halves of int_bottom, interrupt the way from the
--               program that is interrupted to the one that goes on
--   Base        numbers, words, masks and lists that these share
-- A function keeps its name in the spelling of this library; where a function of the source is one
-- loop after another, each loop is a definition of its own, which its comment names. Child modules
-- carry the lemmas and theorems, and Tests the runs at concrete values.
--
-- State is passed on explicitly, in a record per class with the fields of the class. An object that
-- the code reaches through a pointer stands at its address in a function of addresses, and 0 is the
-- null pointer. Words of w bits are natural numbers, with the remainder by 2 ^ w written wherever
-- the source can wrap. What stands behind the ports is not code of the kernel: a Device is any
-- function of what was written and read before, so the theorems hold for every device, or say what
-- they ask of it.
--
-- Loops over a count are recursions on the rounds that are left. Loops that depend on data or on a
-- device run on fuel: print_dec on 11 rounds, enough for the ten digits of a 32-bit number;
-- kmalloc on fuel that one round suffices for, since its loop never runs; the polls of the disk's
-- status and the drain of the keyboard's buffer on as many rounds as the device takes, and one;
-- the walk over the memory map on a round for each entry, and one; the calls up and down a tree of
-- widgets on more than the steps of the way, or than the tree's height; and kernelMain on 1 where
-- the devices are ready at once.
--
-- A call of handleInterrupt is a function of the kernel's state, with the drivers' handlers in it; a
-- series of calls is the relation Interrupted of Kernel.Boot, so they come in any order.
--
-- A series of interrupts between the steps of a program is a list of events in Machine.Transparent,
-- and a series of timer interrupts with what the tasks do between them one of slices in
-- Machine.Switch. The stack of the machine is of aligned words. Interrupts come by the three stubs
-- of the assembly; a vector without a stub is ignore. A stub stores its number in interruptnumber;
-- what the C++ code that it calls leaves in memory is a parameter, and the theorems ask of it that it
-- changes no word of the program's own but in the bytes below the stack pointer that it is given, as
-- many as depth, where its arguments and frames are. The objects of the kernel and the screen stand in
-- the kernel's state, not in that memory. The function that ignores an interrupt is taken to end in
-- ret, as the compiler makes it.
--
-- Not modelled: the processor's segment checks and privilege levels; window.cpp, which is
-- empty; timing, and interrupts that arrive inside the code above.
pub mod Base
pub mod Desktop
pub mod Drivers
pub mod Gdt
pub mod Gui
pub mod Interrupts
pub mod Kernel
pub mod Keyboard
pub mod Machine
pub mod Memory
pub mod Multiboot
pub mod Ata
pub mod Mouse
pub mod Pci
pub mod Ports
pub mod Runtime
pub mod Screen
pub mod Tasks
pub mod Vga
