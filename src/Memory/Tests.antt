-- ===== src/Memory/Tests.antt =====
-- Runs of the heap of memorymanagment.cpp, and the theorems at concrete heaps.
use blue_os.Base.{◌+◌, ◌≡◌, refl, true, false, some, [], ◌∷◌, arith, update}
use blue_os.Memory.{Memory, carve, kmalloc, kfree, operator_new}
use blue_os.Memory.Chain.{chunk_of, IsHeap}
use blue_os.Memory.Alloc.{kmalloc-null, carve-IsHeap}
use blue_os.Memory.Release.{kfree-IsHeap}
use blue_os.Memory.Lost.{kfree-not_IsHeap}
use blue_os.Memory.Cycle.{kfree-carve, operator_new-null}

-- a heap of 200 bytes at 4096, managed by the object at 16: two used blocks, a free one
abbrev heap : Memory
heap = record {
  active = 16;
  head = λ _. 4096;
  chunk =
      update
        (update (update (λ _. chunk_of 0 0 (0, false)) 4096 (chunk_of 4119 0 (10, true))) 4119
          (chunk_of 4152 4096 (20, true)))
        4152 (chunk_of 0 4119 (131, false));
}

heap-IsHeap : IsHeap heap 16 4096 4296 ((10, true) ∷ (20, true) ∷ (131, false) ∷ [])
heap-IsHeap = record {
  starts = refl;
  not_null = omega arith;
  in_memory = omega arith;
  chain = (refl, (refl, (refl, refl)));
}

-- the same after the second block is freed by hand, so that a free block stands before a used one
abbrev gap : Memory
gap = record {
  active = 16;
  head = λ _. 4096;
  chunk =
      update (update (λ _. chunk_of 0 0 (0, false)) 4096 (chunk_of 4119 0 (10, false))) 4119
        (chunk_of 0 4096 (164, true));
}

gap-IsHeap : IsHeap gap 16 4096 4296 ((10, false) ∷ (164, true) ∷ [])
gap-IsHeap = record {
  starts = refl;
  not_null = omega arith;
  in_memory = omega arith;
  chain = (refl, (refl, refl));
}

-- The joined chunk ought to hold 187 bytes.
short_by_ten : (((kfree (4096 + 23 + 13) gap).chunk 4096).size ≡ 177)
unfolding kfree
short_by_ten = refl

setup_finds_nothing : kmalloc 5 16 256 heap ≡ some (0, heap)
setup_finds_nothing = kmalloc-null 4 16 256 heap

carve-IsHeap_example :
    IsHeap
      (record heap { chunk = carve 4152 50 heap.chunk })
      16
      4096
      4296
      ((10, true) ∷ (20, true) ∷ (50, true) ∷ (68, false) ∷ [])
carve-IsHeap_example =
    carve-IsHeap heap 16 4096 4296 50 131 ((10, true) ∷ (20, true) ∷ []) [] (omega arith)
      heap-IsHeap

kfree-IsHeap_example : IsHeap (kfree 4132 heap) 16 4096 4296 ((10, true) ∷ (164, false) ∷ [])
kfree-IsHeap_example =
    kfree-IsHeap heap 16 4096 4296 20 true ((10, true) ∷ []) ((131, false) ∷ []) refl heap-IsHeap

kfree-not_IsHeap_example : ¬ (IsHeap (kfree 4132 gap) 16 4096 4296 ((187, false) ∷ []))
kfree-not_IsHeap_example =
    kfree-not_IsHeap gap 16 4096 4296 164 10 true [] [] ((187, false) ∷ []) (omega arith) gap-IsHeap

kfree-carve_example :
    IsHeap
      (kfree 4165 (record heap { chunk = carve 4152 50 heap.chunk }))
      16
      4096
      4296
      ((10, true) ∷ (20, true) ∷ (131, false) ∷ [])
kfree-carve_example =
    kfree-carve heap 16 4096 4296 50 131 ((10, true) ∷ (20, true) ∷ []) [] (omega arith) refl
      heap-IsHeap

operator_new-null_example : operator_new 9 512 heap ≡ some (0, heap)
operator_new-null_example = operator_new-null 8 512 heap
