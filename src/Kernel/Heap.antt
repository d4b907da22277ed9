-- ===== src/Kernel/Heap.antt =====
-- The heap that `setup_memory` of kernel.cpp makes, and the loop over the constructors.
use blue_os.Base.{
  ℕ, zero, suc, ◌+◌, ◌-◌, ◌*◌, ◌/◌, ◌%◌, ◌^◌, ◌≤◌, ◌<◌, ◌≡◌, refl, ◌∙◌, false, some, [], ◌∷◌, arith,
  ==_refl, ==_ne,
}
use blue_os.Base.Bits.{bit_and-field}
use blue_os.Base.Words.{u32}
use blue_os.Memory.{Memory, chunk_size, init, kfree}
use blue_os.Memory.Chain.{IsHeap}
use blue_os.Memory.Alloc.{init-IsHeap, kmalloc-null}
use blue_os.Kernel.Setup.{heap_start, heap_size, setup_memory, call_constructors}

heap_start_lem :
    (kernel_end : ℕ)
    → kernel_end + 0xFFF < 2 ^ 32
    → heap_start kernel_end ≡ (kernel_end + 0xFFF) / 4096 * 4096
unfolding heap_start
heap_start_lem kernel_end l = bit_and-field 12 20 (u32 (kernel_end + 0xFFF)) ∙ omega arith

setup_memory_lem :
    (fuel self kernel_end : ℕ) (m : Memory)
    → setup_memory (suc fuel) self kernel_end m
      ≡ some (init self (heap_start kernel_end) heap_size m)
unfolding setup_memory kfree
setup_memory_lem fuel self kernel_end m =
    rw
      (
        kmalloc-null fuel self 256 (init self (heap_start kernel_end) heap_size m),
        kmalloc-null fuel self 512 (init self (heap_start kernel_end) heap_size m),
      )
      refl

-- With the kernel's end above 0 and room for the heap below 2^32, `setup_memory` returns, with any
-- fuel above 0. The heap begins at the first address from the kernel's end on that is a multiple of
-- 4096, has 10 MiB, and is the active manager's. It is still one free block.
pub setup_memory-IsHeap :
    (fuel self kernel_end : ℕ) (m : Memory)
    → 0 < kernel_end
    → kernel_end + 0xFFF + 10485760 < 2 ^ 32
    → (m' : Memory) × (start : ℕ) × (setup_memory (suc fuel) self kernel_end m ≡ some m')
      × (start % 4096 ≡ 0)
      × (kernel_end ≤ start)
      × (start < kernel_end + 4096)
      × IsHeap m' self start (start + 10485760) ((10485760 - chunk_size, false) ∷ [])
      × (m'.active ≡ self)
setup_memory-IsHeap fuel self kernel_end m above room =
    let start : ℕ = heap_start kernel_end in
    let e : start ≡ (kernel_end + 0xFFF) / 4096 * 4096 = heap_start_lem kernel_end (omega arith) in
    let (heap, active) =
      init-IsHeap self start heap_size m (omega arith) (omega arith) (omega arith) in
    (
      init self start heap_size m,
      start,
      setup_memory_lem fuel self kernel_end m,
      omega arith,
      omega arith,
      omega arith,
      heap,
      active,
    )

-- `n` entries from `i` on, each called in the state that the one before left
unfoldable pub call_each : {S : Type 0} → (call : ℕ → S → S) → (n i : ℕ) → S → S
call_each call zero i s = s
call_each call (suc n) i s = call_each call n (i + 4) (call i s)

-- The loop over a table of `n` constructors ends, with a fuel above `n`, and calls each of them
-- once, in the order of the table.
call_constructors-call_each :
    {S : Type 0} (call : ℕ → S → S) (n fuel start : ℕ) (s : S)
    → n < fuel
    → start + 4 * n < 2 ^ 32
    → call_constructors call fuel start (start + 4 * n) s ≡ some (call_each call n start s)
unfolding call_constructors call_each
call_constructors-call_each call n zero start s l room = absurd (omega arith)
call_constructors-call_each call zero (suc fuel) start s l room =
    let here : start + 4 * 0 ≡ start = omega arith in rw (here, ==_refl start) refl
call_constructors-call_each call (suc n) (suc fuel) start s l room =
    let next : u32 (start + 4) ≡ start + 4 = omega arith in
    let same_end : start + 4 * suc n ≡ start + 4 + 4 * n = omega arith in
    rw (==_ne start (start + 4 * suc n) (omega arith), next, same_end)
      (call_constructors-call_each call n fuel (start + 4) (call start s) (omega arith)
        (omega arith))
