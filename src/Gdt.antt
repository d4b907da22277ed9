-- ===== src/Gdt.antt =====
-- blue_Os/src/gdt.cpp and blue_Os/include/gdt.h: the global descriptor table, and the screen
-- output of that file. The address of the table is a parameter. An entry number above 4 is not
-- checked by the code, which then writes behind the array: the model keeps such entries too.
pub mod Fields
pub mod Text
mod Tests
use blue_os.Base.{
  ℕ, zero, suc, ◌+◌, ◌-◌, ◌*◌, Option, none, some, List, [], ◌∷◌, bit_and, bit_or, ltb, ◌==◌,
  if◌then◌else◌, update,
}
use blue_os.Base.Words.{u8, u16, u32, ◌<<<◌, ◌>>>◌}
use blue_os.Screen.{Cells, widen}

pub record GdtEntry : Type 0 where
  pub limit_low : ℕ
  pub base_low : ℕ
  pub base_middle : ℕ
  pub access : ℕ
  pub granularity : ℕ
  pub base_high : ℕ

pub record GdtPtr : Type 0 where
  pub limit : ℕ
  pub base : ℕ

-- sizeof(GDTEntry): the struct is packed
abbrev pub gdt_entry_size : ℕ
gdt_entry_size = 8

-- The table, its descriptor, and the descriptor that `gdt_flush` has loaded last.
pub record Gdt : Type 0 where
  pub gdt : ℕ → GdtEntry
  pub gdt_ptr : GdtPtr
  pub loaded : Option GdtPtr

unfoldable pub set_gdt_entry : (num base limit access granularity : ℕ) → Gdt → Gdt
set_gdt_entry num base limit access granularity s = record s {
  gdt = update s.gdt num (record {
    limit_low = u16 (bit_and limit 0xFFFF);
    base_low = u16 (bit_and base 0xFFFF);
    base_middle = u8 (bit_and (base >>> 16) 0xFF);
    access = access;
    granularity = u8 (bit_or (u8 (bit_and (limit >>> 16) 0x0F)) (bit_and granularity 0xF0));
    base_high = u8 (bit_and (base >>> 24) 0xFF);
  });
}

unfoldable pub init_gdt : (address : ℕ) → Gdt → Gdt
unfolding set_gdt_entry
init_gdt address s =
    let ptr : GdtPtr = record { limit = u16 (gdt_entry_size * 5 - 1); base = u32 address } in
    let filled : Gdt = set_gdt_entry 4 0 0xFFFFFFFF 0xF2 0xCF (
      set_gdt_entry 3 0 0xFFFFFFFF 0xFA 0xCF (
        set_gdt_entry 2 0 0xFFFFFFFF 0x92 0xCF (
          set_gdt_entry 1 0 0xFFFFFFFF 0x9A 0xCF
            (set_gdt_entry 0 0 0 0 0 (record s { gdt_ptr = ptr }))))) in
    record filled { loaded = some ptr }

-- The static state of `printd`: the cells at 0xb8000, and a row and a column that are not bounded.
pub record Printd : Type 0 where
  pub video : Cells
  pub row : ℕ
  pub col : ℕ

unfoldable pub printd_char : ℕ → Printd → Printd
printd_char c s = if c == b'\n' then record s { row = s.row + 1; col = 0 } else record s {
  video = update s.video (s.row * 80 + s.col) (u16 (bit_or (0x07 <<< 8) (widen c)));
  col = s.col + 1;
}

-- The string ends at its first zero, or where the list does.
unfoldable pub printd : List ℕ → Printd → Printd
unfolding printd_char
printd [] s = s
printd (c ∷ cs) s = if c == 0 then s else printd cs (printd_char c s)
