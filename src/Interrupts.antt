-- ===== src/Interrupts.antt =====
-- blue_Os/src/hardwarecommunication/interrupts.cpp: the interrupt descriptor table, the interrupt
-- controllers, and the dispatch of an interrupt to its handler and to the scheduler. Handlers and
-- managers are objects at addresses, 0 for none. The addresses of the assembly stubs and of the
-- table are parameters, and so is what a handler's virtual `handleInterrupt` does.
pub mod Gates
pub mod Dispatch
mod Tests
use blue_os.Base.{
  ℕ, zero, suc, ◌+◌, ◌-◌, ◌*◌, Bool, true, false, not, ◌&&◌, Option, none, some, List, [], ◌∷◌,
  bit_and, bit_or, leb, ◌==◌, if◌then◌else◌, update,
}
use blue_os.Base.Words.{u8, u16, u32, ◌<<<◌, ◌>>>◌}
use blue_os.Screen.{hex_digit}
use blue_os.Ports.{Io, write8, say}
use blue_os.Tasks.{TaskManager, schedule}

pub record GateDescriptor : Type 0 where
  pub handler_address_lower_bits : ℕ
  pub gdt_code_segment_selector : ℕ
  pub reserved : ℕ
  pub access : ℕ
  pub handler_address_high_bits : ℕ

pub record InterruptDescriptorTablePointer : Type 0 where
  pub size : ℕ
  pub base : ℕ

-- sizeof(interruptDescriptorTable): 256 packed gates of 8 bytes
abbrev pub table_size : ℕ
table_size = 2048

-- The static members, the handlers of each manager, the pointer that `lidt` has loaded, and
-- whether the processor takes interrupts.
pub record Interrupts : Type 0 where
  pub active : ℕ
  pub handler : ℕ → ℕ → ℕ
  pub table : ℕ → GateDescriptor
  pub loaded : Option InterruptDescriptorTablePointer
  pub enabled : Bool

-- All that an interrupt can change: the ports and the screen, the manager's tasks, and the objects
-- `S` that the handlers work on.
pub record Kernel (S : Type 0) : Type 0 where
  pub interrupts : Interrupts
  pub io : Io
  pub tasks : TaskManager
  pub devices : S

abbrev pub Table : Type 0
Table = ℕ → GateDescriptor

unfoldable pub set_entry : (number selector handler privilege type_ : ℕ) → Table → Table
set_entry number selector handler privilege type_ t = update t number (record {
  handler_address_lower_bits = u16 (bit_and handler 0xFFFF);
  gdt_code_segment_selector = selector;
  reserved = 0;
  access = u8 (bit_or (bit_or 0x80 (bit_and privilege 0x3 <<< 5)) (bit_and type_ 0x1F));
  handler_address_high_bits = u16 (bit_and (handler >>> 16) 0xFFFF);
})

-- the addresses of `ignoreInterruptRequest` and of the three stubs
pub record Stubs : Type 0 where
  pub ignore : ℕ
  pub request_0x00 : ℕ
  pub request_0x01 : ℕ
  pub request_0x0c : ℕ

-- The loop of the constructor over the table, `k` rounds from `i` on.
unfoldable pub ignore_all : Stubs → (k i : ℕ) → Table → Table
ignore_all stubs zero i t = t
ignore_all stubs (suc k) i t = ignore_all stubs k (i + 1) (set_entry i 0x08 stubs.ignore 0 0xE t)

-- The same loop over the handlers of the manager.
unfoldable pub clear_handlers : (k i : ℕ) → (ℕ → ℕ) → ℕ → ℕ
clear_handlers zero i h = h
clear_handlers (suc k) i h = clear_handlers k (i + 1) (update h i 0)

unfoldable pub fill_table : Stubs → Table → Table
fill_table stubs t = set_entry 0x2C 0x08 stubs.request_0x0c 0 0xE (
    set_entry 0x21 0x08 stubs.request_0x01 0 0xE
      (set_entry 0x20 0x08 stubs.request_0x00 0 0xE (ignore_all stubs 256 0 t)))

abbrev pub pic_master_command : ℕ
pic_master_command = 0x20

abbrev pub pic_master_data : ℕ
pic_master_data = 0x21

abbrev pub pic_slave_command : ℕ
pic_slave_command = 0xA0

abbrev pub pic_slave_data : ℕ
pic_slave_data = 0xA1

unfoldable pub remap_pic : Io → Io
remap_pic io =
    let io1 = write8 pic_slave_command 0x11 (write8 pic_master_command 0x11 io) in
    let io2 = write8 pic_slave_data 0x28 (write8 pic_master_data 0x20 io1) in
    let io3 = write8 pic_slave_data 0x02 (write8 pic_master_data 0x04 io2) in
    let io4 = write8 pic_slave_data 0x01 (write8 pic_master_data 0x01 io3) in
    write8 pic_slave_data 0x00 (write8 pic_master_data 0x00 io4)

-- The constructor of the manager at `self`.
unfoldable pub init : {S : Type 0} → Stubs → (self table_address : ℕ) → Kernel S → Kernel S
init stubs self table_address k = record k {
  interrupts = record k.interrupts {
    handler = update k.interrupts.handler self (clear_handlers 256 0 (k.interrupts.handler self));
    table = fill_table stubs k.interrupts.table;
    loaded = some (record { size = u16 (table_size - 1); base = u32 table_address });
  };
  io = remap_pic k.io;
}

-- The constructor and the destructor of the handler at `self`.
unfoldable pub register : (self number manager : ℕ) → Interrupts → Interrupts
register self number manager s = record s {
  handler = update s.handler manager (update (s.handler manager) number self);
}

unfoldable pub unregister : (self number manager : ℕ) → Interrupts → Interrupts
unregister self number manager s =
    if s.handler manager number == self
    then record s { handler = update s.handler manager (update (s.handler manager) number 0) }
    else s

unfoldable pub deactivate : (self : ℕ) → Interrupts → Interrupts
deactivate self s = if s.active == self then record s { active = 0; enabled = false } else s

unfoldable pub activate : (self : ℕ) → Interrupts → Interrupts
unfolding deactivate
activate self s =
    let s' = if not (s.active == 0) then deactivate s.active s else s in
    record s' { active = self; enabled = true }

-- "UNHANDLED INTERRUPT 0x00\n\n" with its two digits filled in
unfoldable pub unhandled_text : ℕ → List ℕ
unhandled_text number =
    b'U'
    ∷ b'N'
    ∷ b'H'
    ∷ b'A'
    ∷ b'N'
    ∷ b'D'
    ∷ b'L'
    ∷ b'E'
    ∷ b'D'
    ∷ b' '
    ∷ b'I'
    ∷ b'N'
    ∷ b'T'
    ∷ b'E'
    ∷ b'R'
    ∷ b'R'
    ∷ b'U'
    ∷ b'P'
    ∷ b'T'
    ∷ b' '
    ∷ b'0'
    ∷ b'x'
    ∷ hex_digit (bit_and (number >>> 4) 0x0F)
    ∷ hex_digit (bit_and number 0x0F)
    ∷ 10
    ∷ 10
    ∷ []

-- What the virtual `handleInterrupt` of the handler at an address does with a stack pointer.
abbrev pub Handlers : Type 0 → Type 0
Handlers S = (handler esp : ℕ) → Kernel S → ℕ × Kernel S

unfoldable pub acknowledge : ℕ → Io → Io
acknowledge number io =
    if leb 0x20 number && leb number 0x30
    then (if leb 0x28 number
        then write8 pic_slave_command 0x20 (write8 pic_master_command 0x20 io)
        else write8 pic_master_command 0x20 io)
    else io

unfoldable pub call_handler :
    {S : Type 0} → Handlers S → (self number esp : ℕ) → Kernel S → ℕ × Kernel S
call_handler handlers self number esp k =
    if not (k.interrupts.handler self number == 0)
    then handlers (k.interrupts.handler self number) esp k
    else if not (number == 0x20)
    then (esp, record k { io = say (unhandled_text number) k.io })
    else (esp, k)

unfoldable pub switch_task : {S : Type 0} → (number esp : ℕ) → Kernel S → ℕ × Kernel S
switch_task number esp k =
    let (next, m) = schedule esp k.tasks in
    if number == 0x20 then (next, record k { tasks = m }) else (esp, k)

unfoldable pub do_handle_interrupt :
    {S : Type 0} → Handlers S → (self number esp : ℕ) → Kernel S → ℕ × Kernel S
unfolding call_handler switch_task
do_handle_interrupt handlers self number esp k =
    let (esp1, k1) = call_handler handlers self number esp k in
    let (esp2, k2) = switch_task number esp1 k1 in
    (esp2, record k2 { io = acknowledge number k2.io })

unfoldable pub handle_interrupt :
    {S : Type 0} → Handlers S → (number esp : ℕ) → Kernel S → ℕ × Kernel S
handle_interrupt handlers number esp k =
    if not (k.interrupts.active == 0)
    then do_handle_interrupt handlers k.interrupts.active number esp k
    else (esp, k)
