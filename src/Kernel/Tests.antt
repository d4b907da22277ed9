-- ===== src/Kernel/Tests.antt =====
-- Runs of kernel.cpp, and the theorems at a concrete machine.
use blue_os.Base.{
  ℕ, ◌+◌, ◌-◌, ◌%◌, ◌≤◌, ◌<◌, ◌≡◌, refl, true, false, none, some, List, [], ◌∷◌, ◌++◌, arith,
}
use blue_os.Memory.{Memory, chunk_size}
use blue_os.Memory.Chain.{IsHeap}
use blue_os.Interrupts.{Kernel}
use blue_os.Kernel.{kernel_main}
use blue_os.Kernel.Sample.{at, system, floating}
use blue_os.Kernel.Setup.{setup_memory, fast_round}
use blue_os.Kernel.Heap.{setup_memory-IsHeap, call_each}
use blue_os.Kernel.Hang.{kernel_main-floating}

kernel_main-floating_example : kernel_main floating 1000 at 0x2BADB002 system ≡ none
kernel_main-floating_example = kernel_main-floating floating 1000 at system (λ t. refl)

abbrev memory : Memory
memory = record {
  active = 0;
  head = λ _. 0;
  chunk = λ _. record { next = 3; prev = 3; allocated = true; size = 3 };
}

setup_memory-IsHeap_example :
    (m' : Memory) × (start : ℕ) × (setup_memory 1 0x300000 0x234567 memory ≡ some m')
    × (start % 4096 ≡ 0)
    × (0x234567 ≤ start)
    × (start < 0x234567 + 4096)
    × IsHeap m' 0x300000 start (start + 10485760) ((10485760 - chunk_size, false) ∷ [])
    × (m'.active ≡ 0x300000)
setup_memory-IsHeap_example =
    setup_memory-IsHeap 0 0x300000 0x234567 memory (omega arith) (omega arith)

-- constructors that note their place
abbrev noting : ℕ → List ℕ → List ℕ
noting i s = s ++ i ∷ []

test_constructors : call_each noting 3 4096 [] ≡ 4096 ∷ 4100 ∷ 4104 ∷ []
unfolding call_each
test_constructors = refl

counter_wraps : (fast_round 0xFFFFFFFF system.kernel.io.screen).0 ≡ 0
unfolding fast_round
counter_wraps = refl
