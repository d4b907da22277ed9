-- ===== src/Multiboot.antt =====
-- blue_Os/src/memory/multiboot.cpp and blue_Os/include/memory/multiboot.h: the boot loader's memory
-- map, and the table that `meminfo` prints. An entry is what the 24 bytes at an address read as,
-- for each address. The addresses of the link script's two symbols are parameters; the end is taken
-- to stand behind the start, less than 2^31 bytes away. The walk over the map runs on fuel, as an
-- entry's size can lead back; `none` means that the fuel ran out.
pub mod Walk
pub mod Report
mod Tests
use blue_os.Base.{
  ℕ, zero, suc, ◌+◌, ◌-◌, ◌/◌, Option, none, some, List, ltb, leb, ◌==◌, if◌then◌else◌,
}
use blue_os.Base.Options.{◌>>=◌}
use blue_os.Base.Texts.{codes}
use blue_os.Base.Words.{u32, u64}
use blue_os.Screen.{Screen, print, print_hex32, print_dec}

pub record MmapEntry : Type 0 where
  pub size : ℕ
  pub base_addr : ℕ
  pub length : ℕ
  pub type_ : ℕ

pub record MultibootInfo : Type 0 where
  pub flags : ℕ
  pub mem_lower : ℕ
  pub mem_upper : ℕ
  pub boot_device : ℕ
  pub cmdline : ℕ
  pub mods_count : ℕ
  pub mods_addr : ℕ
  pub syms : ℕ → ℕ
  pub mmap_length : ℕ
  pub mmap_addr : ℕ

abbrev pub Entries : Type 0
Entries = ℕ → MmapEntry

-- The two sums of the walk, `uint64_t`.
pub record Totals : Type 0 where
  pub free : ℕ
  pub used : ℕ

-- The `switch` over the type: the text, and the sums.
unfoldable pub type_text : ℕ → List ℕ
type_text t =
    if t == 1
    then codes "Free\n"
    else if t == 2
    then codes "Reserved\n"
    else if t == 3
    then codes "ACPI reclaim\n"
    else if t == 4
    then codes "ACPI NVS\n"
    else codes "Other\n"

unfoldable pub count : MmapEntry → Totals → Totals
count e t =
    if e.type_ == 1
    then record t { free = u64 (t.free + e.length) }
    else if e.type_ == 2
    then record t { used = u64 (t.used + e.length) }
    else if e.type_ == 3
    then record t { used = u64 (t.used + e.length) }
    else if e.type_ == 4
    then record t { used = u64 (t.used + e.length) }
    else t

unfoldable pub start_of : MmapEntry → ℕ
start_of e = u32 e.base_addr

unfoldable pub end_of : MmapEntry → ℕ
unfolding start_of
end_of e = u32 (start_of e + u32 e.length)

unfoldable pub print_entry : MmapEntry → Screen → Screen
print_entry e s =
    let s1 = print_hex32 (start_of e) (print (codes "Memory Region        | ") s) in
    let s2 = print (codes " | ") (print_hex32 (end_of e) (print (codes " | ") s1)) in
    print (type_text e.type_) s2

-- The `while` loop over the map.
unfoldable pub walk :
    (fuel : ℕ) → Entries → MultibootInfo → (mmap : ℕ) → Totals → Screen → Option (Totals × Screen)
unfolding count print_entry
walk zero entries info mmap t s = none
walk (suc fuel) entries info mmap t s =
    let e : MmapEntry = entries mmap in
    let rest = walk fuel entries info (u32 (mmap + e.size + 4)) (count e t) (print_entry e s) in
    if ltb mmap (u32 (info.mmap_addr + info.mmap_length)) then rest else some (t, s)

unfoldable pub print_known : (kernel_start kernel_end : ℕ) → Screen → Screen
print_known kernel_start kernel_end s =
    let s1 = print (codes "\n================= MEMORY INFO =================\n") s in
    let s2 = print (codes "Region Name         | Start Addr | End Addr   | Status\n") s1 in
    let s3 = print (codes "--------------------------------------------------------\n") s2 in
    let s4 = print (codes "BIOS Area           | 0x00000000 | 0x0009FFFF | Used (BIOS)\n") s3 in
    let s5 = print (codes "Video/ROM           | 0x000A0000 | 0x000FFFFF | Used (ROM/VGA)\n") s4 in
    let s6 = print_hex32 kernel_start (print (codes "Kernel              | ") s5) in
    let s7 = print_hex32 kernel_end (print (codes " | ") s6) in
    print (codes " | Used (kernel)\n") s7

-- The difference of two pointers to `uint32_t` counts words.
unfoldable pub kernel_size : (kernel_start kernel_end : ℕ) → ℕ
kernel_size kernel_start kernel_end = (kernel_end - kernel_start) / 4 / 1024

-- The arguments of `print_dec` are converted to `uint32_t`.
unfoldable pub print_summary : (kernel_start kernel_end : ℕ) → Totals → Screen → Option Screen
unfolding kernel_size
print_summary kernel_start kernel_end t s = do
  let s1 = print (codes "--------------------------------------------------------\n") s
  s2 ← print_dec (u32 (kernel_size kernel_start kernel_end)) (print (codes "Kernel Size: ") s1)
  s3 ← print_dec (u32 (t.free / 1024)) (print (codes "Free Memory: ") (print (codes " KB\n") s2))
  s4 ← print_dec (u32 (t.used / 1024)) (print (codes "Used/Reserved: ") (print (codes " KB\n") s3))
  some (
      print (codes "========================================================\n")
        (print (codes " KB\n") s4))

unfoldable pub meminfo :
    (fuel : ℕ) → Entries → (kernel_start kernel_end : ℕ) → MultibootInfo → Screen → Option Screen
unfolding print_known walk print_summary
meminfo fuel entries kernel_start kernel_end info s = do
  (t, s') ←
      walk fuel entries info info.mmap_addr (record { free = 0; used = 0 })
        (print_known kernel_start kernel_end s)
  print_summary kernel_start kernel_end t s'
