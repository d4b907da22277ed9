-- ===== src/Pci.antt =====
-- blue_Os/src/hardwarecommunication/pci.cpp: the PCI configuration space, and the scan that prints
-- the devices. A local that the code leaves uninitialised holds whatever was there: it is a
-- parameter, `left_over`.
pub mod Address
pub mod Descriptor
pub mod Line
pub mod Scan
mod Tests
use blue_os.Base.{
  ℕ, zero, suc, ◌+◌, ◌*◌, ◌%◌, Bool, true, false, not, ◌&&◌, ◌||◌, List, [], ◌∷◌, bit_and, bit_or,
  leb, ◌==◌, if◌then◌else◌,
}
use blue_os.Base.Words.{u8, u16, u32, ◌<<<◌, ◌>>>◌}
use blue_os.Screen.{hex8}
use blue_os.Ports.{Device, Io, write32, read32, say}

pub data BaseAddressRegisterType : Type 0 where
  memory_mapping input_output : BaseAddressRegisterType

pub record BaseAddressRegister : Type 0 where
  pub prefetchable : Bool
  pub address : ℕ
  pub size : ℕ
  pub type_ : BaseAddressRegisterType

pub record DeviceDescriptor : Type 0 where
  pub port_base : ℕ
  pub interrupt : ℕ
  pub bus : ℕ
  pub device : ℕ
  pub function : ℕ
  pub vendor_id : ℕ
  pub device_id : ℕ
  pub class_id : ℕ
  pub subclass_id : ℕ
  pub interface_id : ℕ
  pub revision : ℕ

-- What the two kinds of locals hold before they are set.
pub record LeftOver : Type 0 where
  pub register : BaseAddressRegister
  pub port_base : ℕ

abbrev pub data_port : ℕ
data_port = 0xCFC

abbrev pub command_port : ℕ
command_port = 0xCF8

unfoldable pub config_id : (bus device function offset : ℕ) → ℕ
config_id bus device function offset =
    bit_or
      (bit_or (bit_or (bit_or 0x80000000 (bit_and bus 0xFF <<< 16)) (bit_and device 0x1F <<< 11))
        (bit_and function 0x0F <<< 8))
      (bit_and offset 0xFC)

unfoldable pub read : Device → (bus device function offset : ℕ) → Io → ℕ × Io
read dev bus device function offset io =
    let (result, io1) =
      read32 dev data_port (write32 command_port (config_id bus device function offset) io) in
    (result >>> (8 * (offset % 4)), io1)

-- `readByte` has the same body as `read`.
unfoldable pub read_byte : Device → (bus device function offset : ℕ) → Io → ℕ × Io
read_byte dev bus device function offset io =
    let (result, io1) =
      read32 dev data_port (write32 command_port (config_id bus device function offset) io) in
    (result >>> (8 * (offset % 4)), io1)

unfoldable pub write : (bus device function offset value : ℕ) → Io → Io
write bus device function offset value io =
    write32 data_port value (write32 command_port (config_id bus device function offset) io)

unfoldable pub has_functions : Device → (bus device : ℕ) → Io → Bool × Io
has_functions dev bus device io =
    let (value, io1) = read dev bus device 0 0x0E io in (not (bit_and value 0x80 == 0), io1)

unfoldable pub get_device_descriptor :
    Device → LeftOver → (bus device function : ℕ) → Io → DeviceDescriptor × Io
get_device_descriptor dev left_over bus device function io =
    let (vendor, io1) = read dev bus device function 0x00 io in
    let (id, io2) = read dev bus device function 0x02 io1 in
    let (class, io3) = read dev bus device function 0x0B io2 in
    let (subclass, io4) = read dev bus device function 0x0A io3 in
    let (interface, io5) = read dev bus device function 0x09 io4 in
    let (revision_, io6) = read dev bus device function 0x08 io5 in
    let (interrupt_, io7) = read dev bus device function 0x3C io6 in
    (
      record {
        port_base = left_over.port_base;
        interrupt = interrupt_;
        bus = bus;
        device = device;
        function = function;
        vendor_id = u16 vendor;
        device_id = u16 id;
        class_id = u8 class;
        subclass_id = u8 subclass;
        interface_id = u8 interface;
        revision = u8 revision_;
      },
      io7,
    )

-- The test `barNum >= 6 - 4 * headertype`, on integers.
unfoldable pub get_base_address_register :
    Device → LeftOver → (bus device function bar_num : ℕ) → Io → BaseAddressRegister × Io
get_base_address_register dev left_over bus device function bar_num io =
    let (header, io1) = read dev bus device function 0x0E io in
    let (bar_value, io2) = read dev bus device function (0x10 + 4 * bar_num) io1 in
    if leb 6 (bar_num + 4 * bit_and header 0x7F)
    then (left_over.register, io1)
    else if bit_and bar_value 0x1 == 0
    then (record left_over.register { type_ = memory_mapping }, io2)
    else (
      record left_over.register {
        type_ = input_output;
        address = bit_and bar_value 0xFFFFFFFC;
        prefetchable = false;
      },
      io2,
    )

abbrev pub is_input_output : BaseAddressRegisterType → Bool
is_input_output memory_mapping = false
is_input_output input_output = true

-- The loop over the registers, `k` rounds from `bar_num` on.
unfoldable pub scan_bars :
    Device
    → LeftOver
    → (k bar_num bus device function : ℕ) → DeviceDescriptor × Io
    → DeviceDescriptor × Io
scan_bars dev left_over zero bar_num bus device function (d, io) = (d, io)
scan_bars dev left_over (suc k) bar_num bus device function (d, io) =
    let (bar, io1) = get_base_address_register dev left_over bus device function bar_num io in
    let d1 =
      if not (bar.address == 0) && is_input_output bar.type_
      then record d { port_base = bar.address }
      else d in
    scan_bars dev left_over k (bar_num + 1) bus device function (d1, io1)

-- "PCI BUS ", ", DEVICE ", ", FUNCTION ", " = VENDOR "
abbrev pub bus_text : List ℕ
bus_text = b'P' ∷ b'C' ∷ b'I' ∷ b' ' ∷ b'B' ∷ b'U' ∷ b'S' ∷ b' ' ∷ []

abbrev pub device_text : List ℕ
device_text = b',' ∷ b' ' ∷ b'D' ∷ b'E' ∷ b'V' ∷ b'I' ∷ b'C' ∷ b'E' ∷ b' ' ∷ []

abbrev pub function_text : List ℕ
function_text = b',' ∷ b' ' ∷ b'F' ∷ b'U' ∷ b'N' ∷ b'C' ∷ b'T' ∷ b'I' ∷ b'O' ∷ b'N' ∷ b' ' ∷ []

abbrev pub vendor_text : List ℕ
vendor_text = b' ' ∷ b'=' ∷ b' ' ∷ b'V' ∷ b'E' ∷ b'N' ∷ b'D' ∷ b'O' ∷ b'R' ∷ b' ' ∷ []

abbrev say_hex : ℕ → Io → Io
say_hex key io = say (hex8 key) io

unfoldable pub report : (bus device function : ℕ) → DeviceDescriptor → Io → Io
report bus device function d io =
    let io1 = say_hex (bit_and bus 0xFF) (say bus_text io) in
    let io2 = say_hex (bit_and device 0xFF) (say device_text io1) in
    let io3 = say_hex (bit_and function 0xFF) (say function_text io2) in
    let io4 = say_hex (bit_and d.vendor_id 0xFF00 >>> 8) (say vendor_text io3) in
    let io5 = say_hex (bit_and d.vendor_id 0xFF) io4 in
    let io6 = say_hex (bit_and d.device_id 0xFF00 >>> 8) (say device_text io5) in
    say (10 ∷ []) (say_hex (bit_and d.device_id 0xFF) io6)

-- One round of the loop over the functions.
unfoldable pub scan_function : Device → LeftOver → (bus device function : ℕ) → Io → Io
scan_function dev left_over bus device function io =
    let (d, io1) = get_device_descriptor dev left_over bus device function io in
    let (d2, io2) = scan_bars dev left_over 6 0 bus device function (d, io1) in
    if d.vendor_id == 0x0000 || d.vendor_id == 0xFFFF
    then io1
    else report bus device function d2 io2

unfoldable pub scan_functions : Device → LeftOver → (k function bus device : ℕ) → Io → Io
scan_functions dev left_over zero function bus device io = io
scan_functions dev left_over (suc k) function bus device io =
    scan_functions dev left_over k (function + 1) bus device
      (scan_function dev left_over bus device function io)

unfoldable pub scan_devices : Device → LeftOver → (k device bus : ℕ) → Io → Io
scan_devices dev left_over zero device bus io = io
scan_devices dev left_over (suc k) device bus io =
    let (many, io1) = has_functions dev bus device io in
    scan_devices dev left_over k (device + 1) bus
      (scan_functions dev left_over (if many then 8 else 1) 0 bus device io1)

unfoldable pub scan_buses : Device → LeftOver → (k bus : ℕ) → Io → Io
scan_buses dev left_over zero bus io = io
scan_buses dev left_over (suc k) bus io =
    scan_buses dev left_over k (bus + 1) (scan_devices dev left_over 32 0 bus io)

unfoldable pub select_drivers : Device → LeftOver → Io → Io
select_drivers dev left_over io = scan_buses dev left_over 8 0 io

-- `getDriver`, which nothing calls
abbrev get_driver : DeviceDescriptor → (interrupt_manager : ℕ) → ℕ
get_driver descriptor interrupt_manager = 0
