-- ===== src/Kernel/Setup.antt =====
-- The functions of kernel.cpp beside `kernelMain`: the tasks, the loop over the constructors, and
-- the heap.
use blue_os.Base.{
  ℕ, zero, suc, ◌+◌, ◌*◌, not, Option, none, some, List, bit_and, ◌==◌, if◌then◌else◌,
}
use blue_os.Base.Options.{◌>>=◌}
use blue_os.Base.Texts.{codes}
use blue_os.Base.Words.{u32}
use blue_os.Screen.{Screen, print, print_hex32}
use blue_os.Memory.{Memory, kmalloc, kfree}
use blue_os.Memory as Heaps

-- One round of the loop of a task, which only counts in its delay.
unfoldable pub task_round : List ℕ → (counter : ℕ) → Screen → ℕ × Screen
task_round text counter s =
    (u32 (counter + 1), print (codes "\n") (print_hex32 counter (print text s)))

unfoldable pub fast_round : (counter : ℕ) → Screen → ℕ × Screen
unfolding task_round
fast_round counter s = task_round (codes "FAST: ") counter s

unfoldable pub slow_round : (counter : ℕ) → Screen → ℕ × Screen
unfolding task_round
slow_round counter s = task_round (codes "SLOW: ") counter s

unfoldable pub medium_round : (counter : ℕ) → Screen → ℕ × Screen
unfolding task_round
medium_round counter s = task_round (codes "MEDIUM: ") counter s

-- The loop over a table of constructors, one every 4 bytes, from `i` on.
unfoldable pub call_constructors :
    {S : Type 0} → (call : ℕ → S → S) → (fuel i end_ctors : ℕ) → S → Option S
call_constructors call zero i end_ctors s = none
call_constructors call (suc fuel) i end_ctors s =
    let rest = call_constructors call fuel (u32 (i + 4)) end_ctors (call i s) in
    if not (i == end_ctors) then rest else some s

unfoldable pub heap_start : (kernel_end : ℕ) → ℕ
heap_start kernel_end = bit_and (u32 (kernel_end + 0xFFF)) 0xFFFFF000

abbrev pub heap_size : ℕ
heap_size = 10 * 1024 * 1024

-- The manager at `self`, which is the object that is returned.
unfoldable pub setup_memory : (fuel self kernel_end : ℕ) → Memory → Option Memory
unfolding heap_start
setup_memory fuel self kernel_end m =
    kmalloc fuel self 256 (Heaps.init self (heap_start kernel_end) heap_size m) >>= λ first.
    kmalloc fuel self 512 first.1 >>= λ second. some (kfree first.0 second.1)
