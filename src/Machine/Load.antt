-- ===== src/Machine/Load.antt =====
-- blue_Os/src/loader.s and blue_Os/src/gdt_flush.s with what they lead to: `kernelMain`, and the
-- segments of the table that `init_gdt` fills.
use blue_os.Base.{
  sym, none, Option, Bool, true, false, ==_iff, Bool-cases, inl, inr, ◌==◌, ℕ, suc, ◌+◌, ◌-◌, ◌*◌,
  ◌/◌, ◌^◌, ◌<◌, ◌≤◌, ◌≡◌, ◌≢◌, refl, ap, ◌∙◌, some, [], ◌∷◌, arith,
}
use blue_os.Base.Words.{add32}
use blue_os.Screen.Cursor.{IsOnScreen}
use blue_os.Ports.{Device}
use blue_os.Gdt.{Gdt, init_gdt, gdt_entry_size}
use blue_os.Gdt.Fields.{Segment, segment_at, flat, init_gdt-segments}
use blue_os.Interrupts.{Kernel, Stubs, init}
use blue_os.Interrupts.Gates.{AreAddresses, gate_at, init-gates}
use blue_os.Tasks.{CpuState, init_task}
use blue_os.Kernel.{Outcome, Layout, System, idle, refused, kernel_main}
use blue_os.Kernel.Probes.{IsQuiet}
use blue_os.Kernel.Boot.{kernel_main-IsSound}
use blue_os.Machine.{Machine, top, push_all, loader, gdt_flush}
use blue_os.Machine.Stack.{push_all-esp, push_all-at}

-- `loader` leaves the two registers of the boot protocol as the arguments of `kernelMain`.
loader_lem :
    (kernel_stack : ℕ) (m : Machine)
    → 8 ≤ kernel_stack
    → kernel_stack < 2 ^ 32
    → (top 0 (loader kernel_stack m) ≡ m.cpu.eax) × (top 4 (loader kernel_stack m) ≡ m.cpu.ebx)
unfolding loader
loader_lem kernel_stack m room small =
    let on = record m { cpu = record m.cpu { esp = kernel_stack } } in
    let args = m.cpu.ebx ∷ m.cpu.eax ∷ [] in
    let place = push_all-esp args on room small in
    let at =
      λ (o i : ℕ) (q : add32 (push_all args on).cpu.esp o ≡ kernel_stack - 4 * (i + 1)) (l : i < 2).
        ap (push_all args on).memory q ∙ push_all-at args on i room small l in
    (at 0 1 (omega (arith, place)) (omega arith), at 4 0 (omega (arith, place)) (omega arith))

-- whether `kernelMain` is in its last loop, if it has come to one of its two
abbrev pub is_idle : {S : Type 0} → Option (Outcome S) → Option Bool
is_idle none = none
is_idle (some (refused s)) = some false
is_idle (some (idle s)) = some true

-- When the keyboard's buffer is empty, no disk is ever busy, the mouse's driver is at another
-- address than the keyboard's and the cursor is on the screen, `kernelMain`, with the arguments
-- that `loader` pushes, comes to its last loop if `eax` holds the multiboot magic, and to its first
-- one otherwise; the structure that it is given is the one in `ebx`.
pub loader-kernel_main :
    {S : Type 0} (dev : Device) (fuel : ℕ) (at : Layout) (s : System S) (kernel_stack : ℕ)
    (m : Machine)
    → IsQuiet dev
    → at.mouse ≢ at.keyboard
    → IsOnScreen s.kernel.io.screen
    → 8 ≤ kernel_stack
    → kernel_stack < 2 ^ 32
    → let boot = loader kernel_stack m in
      (is_idle (kernel_main dev (suc fuel) at (top 0 boot) s) ≡ some (m.cpu.eax == 0x2BADB002))
      × (top 4 boot ≡ m.cpu.ebx)
loader-kernel_main dev fuel at s kernel_stack m quiet apart screen room small =
    let (magic, structure) = loader_lem kernel_stack m room small in
    let run = λ (n : ℕ). is_idle (kernel_main dev (suc fuel) at n s) in
    let comes : run m.cpu.eax ≡ some (m.cpu.eax == 0x2BADB002) =
      elim (Bool-cases (m.cpu.eax == 0x2BADB002)) [
        | inl e ↦
            (let (s', idles, _) = kernel_main-IsSound dev fuel at s quiet apart screen in
              let same : m.cpu.eax ≡ 0x2BADB002 = (==_iff m.cpu.eax 0x2BADB002).0 e in
              ap run same ∙ ap is_idle idles ∙ sym (ap some e))
        | inr ne ↦ unfold kernel_main in rw ne refl
      ] in
    (ap run magic ∙ comes, structure)

-- The index of a selector, without the two bits of its privilege and the one of its table.
abbrev pub selected : Gdt → (selector : ℕ) → Segment
selected t selector = segment_at (selector / 8) t

-- After `init_gdt`, for a table and stubs at 32-bit addresses, the selector that `gdt_flush` loads into `cs` selects the flat code segment of
-- the kernel, as do the gates of a new interrupt manager and the context of a new task; the
-- selector in the other five segment registers selects the flat data segment. The table that is
-- loaded stands at the address given, with five entries.
pub init_gdt-selected :
    {S : Type 0} (address : ℕ) (s : Gdt) (stubs : Stubs) (self table : ℕ) (k : Kernel S)
    (task entrypoint burst prio : ℕ) (before : CpuState)
    → address < 2 ^ 32
    → AreAddresses stubs
    → let t = init_gdt address s in
      let gates = (init stubs self table k).interrupts.table in
      (selected t gdt_flush.cs ≡ flat 0x9A)
      × (selected t gdt_flush.ds ≡ flat 0x92)
      × (gdt_flush.es ≡ gdt_flush.ds)
      × (gdt_flush.fs ≡ gdt_flush.ds)
      × (gdt_flush.gs ≡ gdt_flush.ds)
      × (gdt_flush.ss ≡ gdt_flush.ds)
      × ((i : ℕ) → i < 256 → selected t (gate_at i gates).selector ≡ flat 0x9A)
      × (selected t (init_task task entrypoint burst prio before).1.cs ≡ flat 0x9A)
      × (t.loaded ≡ some (record { limit = 5 * gdt_entry_size - 1; base = address }))
unfolding init_task
init_gdt-selected address s stubs self table k task entrypoint burst prio before small addresses =
    let (loads, _, code, flat_data, _, _, _) = init_gdt-segments address s small in
    let (gates, _, _) = init-gates stubs self table k addresses in
    (code, flat_data, refl, refl, refl, refl, λ i l. rw (gates i l) code, code, loads)
