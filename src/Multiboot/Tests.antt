-- ===== src/Multiboot/Tests.antt =====
-- Runs of multiboot.cpp, and the theorems at a concrete memory map.
use blue_os.Base.{ℕ, ◌-◌, ◌/◌, ◌≡◌, refl, some, List, [], ◌∷◌, arith, ◌==◌, if◌then◌else◌}
use blue_os.Base.Words.{u32, u64}
use blue_os.Screen.{Screen}
use blue_os.Multiboot.{MmapEntry, MultibootInfo, Entries, walk, kernel_size, print_known, meminfo}
use blue_os.Multiboot.Walk.{Laid, sum_of, is_free, is_used, print_entries, walk-sum_of}
use blue_os.Multiboot.Report.{IsDecimal, summary, meminfo-summary}

abbrev low : MmapEntry
low = record { size = 20; base_addr = 0; length = 0x9FC00; type_ = 1 }

abbrev reserved : MmapEntry
reserved = record { size = 20; base_addr = 0x9FC00; length = 0x400; type_ = 2 }

-- bad memory, which is in neither sum
abbrev bad : MmapEntry
bad = record { size = 20; base_addr = 0x100000; length = 0x1000; type_ = 5 }

-- three entries from 0x500 on
abbrev memory_map : Entries
memory_map p = if p == 0x500 then low else if p == 0x518 then reserved else bad

abbrev info : MultibootInfo
info = record {
  flags = 0x40;
  mem_lower = 639;
  mem_upper = 0;
  boot_device = 0;
  cmdline = 0;
  mods_count = 0;
  mods_addr = 0;
  syms = λ _. 0;
  mmap_length = 72;
  mmap_addr = 0x500;
}

abbrev screen : Screen
screen = record { cells = λ _. 0x0720; x = 0; y = 0 }

abbrev regions : List MmapEntry
regions = low ∷ reserved ∷ bad ∷ []

memory_map-Laid : Laid memory_map 0x500 0x548 regions
memory_map-Laid = (refl, (omega arith), (refl, (omega arith), (refl, (omega arith), refl)))

-- A kernel of 1 MB is said to have 256 KB.
kernel_size_of_megabyte : kernel_size 0x100000 0x200000 ≡ 256
unfolding kernel_size
kernel_size_of_megabyte = refl

walk-sum_of_example :
    walk 4 memory_map info 0x500 (record { free = 0; used = 0 }) screen
    ≡ some (
      record { free = u64 (sum_of is_free regions); used = u64 (sum_of is_used regions) },
      print_entries regions screen,
    )
walk-sum_of_example =
    walk-sum_of memory_map info 4 regions screen (omega arith) (omega arith) memory_map-Laid

meminfo-summary_example :
    (kernel : List ℕ) × ((free : List ℕ) × ((used : List ℕ) × (meminfo 4 memory_map 0x100000
            0x200000 info screen
          ≡ some (
              summary kernel free used
                (print_entries regions (print_known 0x100000 0x200000 screen))))
        × IsDecimal ((0x200000 - 0x100000) / 4096) kernel
        × IsDecimal (u32 (u64 (sum_of is_free regions) / 1024)) free
        × IsDecimal (u32 (u64 (sum_of is_used regions) / 1024)) used))
meminfo-summary_example =
    meminfo-summary 4 memory_map 0x100000 0x200000 info regions screen (omega arith) (omega arith)
      memory_map-Laid (omega arith)
