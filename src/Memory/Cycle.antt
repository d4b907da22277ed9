-- ===== src/Memory/Cycle.antt =====
-- `kfree` of memorymanagment.cpp against the part of `kmalloc` that takes a chunk, and the
-- operators `new` and `delete`.
use blue_os.Base.{
  ℕ, suc, ◌+◌, ◌-◌, ◌<◌, ◌≡◌, refl, true, false, some, List, ◌∷◌, ◌++◌, arith, lt→ltb,
  if◌then◌else◌, ◌==◌,
}
use blue_os.Memory.{
  Memory, chunk_size, carve, kfree, operator_new, operator_delete, operator_delete_sized,
}
use blue_os.Memory.Chain.{Block, bytes, IsHeap}
use blue_os.Memory.Alloc.{kmalloc-null, carve-IsHeap}
use blue_os.Memory.Release.{last_used, kfree-IsHeap}

-- Taking `size` bytes of a free block that has room for a further header, and freeing them again,
-- gives the heap's blocks back as they were, if the block before is in use.
pub kfree-carve :
    (m : Memory) (self first limit size n : ℕ) (xs ys : List Block)
    → size + chunk_size < n
    → last_used true xs ≡ true
    → IsHeap m self first limit (xs ++ (n, false) ∷ ys)
    → IsHeap
        (kfree
          (first + bytes xs + chunk_size)
          (record m { chunk = carve (first + bytes xs) size m.chunk }))
        self
        first
        limit
        (xs ++ (n, false) ∷ ys)
kfree-carve m self first limit size n xs ys room last v =
    let taken = carve-IsHeap m self first limit size n xs ys (omega arith) v in
    let taken' : IsHeap (record m { chunk = carve (first + bytes xs) size m.chunk }) self first
        limit (xs ++ (size, true) ∷ (n - size - chunk_size, false) ∷ ys) =
      rw (lt→ltb _ _ room) at taken in
    let whole : size + chunk_size + (n - size - chunk_size) ≡ n = omega arith in
    rw whole at (
      kfree-IsHeap _ self first limit size true xs ((n - size - chunk_size, false) ∷ ys) last
        taken')

-- `operator new` gives the null pointer and leaves memory alone, whether or not there is an active
-- manager, and whatever the heap holds.
pub operator_new-null : (fuel size : ℕ) (m : Memory) → operator_new (suc fuel) size m ≡ some (0, m)
unfolding operator_new
operator_new-null fuel size m = ground (arith, kmalloc-null fuel m.active size m)

-- `operator delete`, sized or not, leaves memory alone at the null pointer and where no manager is
-- active; otherwise it is `kfree`.
pub operator_delete_lem :
    (ptr size : ℕ) (m : Memory)
    → (operator_delete_sized ptr size m ≡ (if m.active == 0 then m else kfree ptr m))
      × (operator_delete 0 m ≡ m)
unfolding operator_delete_sized kfree
operator_delete_lem ptr size m = (refl, ground arith)
