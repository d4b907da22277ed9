-- ===== src/Gdt/Tests.antt =====
-- Runs of gdt.cpp, and the theorems at a concrete table.
use blue_os.Base.{ℕ, none, List, [], ◌∷◌, arith}
use blue_os.Gdt.{GdtEntry, Gdt, Printd, printd}
use blue_os.Gdt.Text.{Appears, printd-Appears}
use blue_os.Screen.Line.{AllPlain}

abbrev empty_entry : GdtEntry
empty_entry = record {
  limit_low = 0;
  base_low = 0;
  base_middle = 0;
  access = 0;
  granularity = 0;
  base_high = 0;
}

abbrev empty_table : Gdt
empty_table = record {
  gdt = λ _. empty_entry;
  gdt_ptr = record { limit = 0; base = 0 };
  loaded = none;
}

abbrev corner : Printd
corner = record { video = λ _. 0; row = 2; col = 79 }

abbrev ok_text : List ℕ
ok_text = b'O' ∷ b'K' ∷ []

ok_text-AllPlain : AllPlain ok_text
ok_text-AllPlain = ground arith

printd-Appears_example : Appears ok_text corner (printd ok_text corner)
printd-Appears_example = printd-Appears ok_text corner ok_text-AllPlain
