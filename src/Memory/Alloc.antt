-- ===== src/Memory/Alloc.antt =====
-- The constructor and `kmalloc` of memorymanagment.cpp.
use mathlib.Core.Path.{sym}
use blue_os.Base.{
  ℕ, suc, ◌+◌, ◌-◌, ◌≤◌, ◌<◌, ◌^◌, ◌≡◌, refl, false, some, List, [], ◌∷◌, ◌++◌, arith,
  if◌then◌else◌, ltb, ap, ◌∙◌,
}
use blue_os.Memory.{Memory, Store, chunk_size, init, search, carve, kmalloc}
use blue_os.Memory.Chain.{Block, chunk_of, next_of, bytes, Chain, IsHeap}
use blue_os.Memory.Carve.{carved, carve-Chain_head, carve-below}

-- what `init` leaves: one free block, or none at all
abbrev pub initial_blocks : ℕ → List Block
initial_blocks size = if ltb size chunk_size then [] else (size - chunk_size, false) ∷ []

-- A manager over at least a header's bytes, that begin above 0 and end below 2 ^ 32, starts as
-- a heap of one free block that takes up all of them, and is the active manager.
pub init-IsHeap :
    (self first size : ℕ) (m : Memory)
    → 0 < first
    → chunk_size ≤ size
    → first + size < 2 ^ 32
    → IsHeap (init self first size m) self first (first + size) (initial_blocks size)
      × ((init self first size m).active ≡ self)
unfolding init
init-IsHeap self first size m h k l = ground arith

-- `kmalloc` finds no chunk.
search-none : (fuel : ℕ) (s : Store) (size chunk : ℕ) → search (suc fuel) s size chunk 0 ≡ some 0
unfolding search
search-none fuel s size chunk = ground arith

pub kmalloc-null : (fuel self size : ℕ) (m : Memory) → kmalloc (suc fuel) self size m ≡ some (0, m)
unfolding kmalloc
kmalloc-null fuel self size m = rw (search-none fuel m.chunk size (m.head self), kmalloc)

next_of-carved : (p n size : ℕ) (ys : List Block) → next_of p (carved n size ys) ≡ p
next_of-carved p n size ys = ground arith

next_of-append_carved :
    (p n size : ℕ) (xs ys : List Block)
    → next_of p (xs ++ carved n size ys) ≡ next_of p (xs ++ (n, false) ∷ ys)
next_of-append_carved p n size [] ys = next_of-carved p n size ys
next_of-append_carved p n size (x ∷ xs) ys = refl

module _ (s : Store) (limit : ℕ) (l : limit < 2 ^ 32) (size n : ℕ) (h : size ≤ n)
    (ys : List Block) where
  carve-Chain_at :
      (xs : List Block) (q p r : ℕ)
      → r ≡ p + bytes xs
      → 0 < p
      → Chain s limit q p (xs ++ (n, false) ∷ ys)
      → Chain (carve r size s) limit q p (xs ++ carved n size ys)
        × ((a : ℕ) → a < r → carve r size s a ≡ s a)
  carve-Chain_at [] q p r e pos c =
      let e' : r ≡ p = omega arith in
      rw e' (
        carve-Chain_head p size s limit q n ys c pos l h,
        carve-below p size s limit q n ys c pos l h,
      )
  carve-Chain_at ((k, b) ∷ xs) q p r e pos c =
      let (rest, same) =
        carve-Chain_at xs p (p + chunk_size + k) r (omega arith) (omega arith) c.1 in
      (
        (
          same p (omega arith)
              ∙ c.0
              ∙ ap (λ (t : ℕ). chunk_of t q (k, b))
                  (sym (next_of-append_carved (p + chunk_size + k) n size xs ys)),
          rest,
        ),
        same,
      )

-- Taking a free block of the heap that is large enough leaves a heap over the same bytes, in which
-- that block is used and what it has beyond the request is a free block, if a header fits there.
pub carve-IsHeap :
    (m : Memory) (self first limit size n : ℕ) (xs ys : List Block)
    → size ≤ n
    → IsHeap m self first limit (xs ++ (n, false) ∷ ys)
    → IsHeap
        (record m { chunk = carve (first + bytes xs) size m.chunk })
        self
        first
        limit
        (xs ++ carved n size ys)
carve-IsHeap m self first limit size n xs ys h v = record {
  starts = v.starts ∙ sym (next_of-append_carved first n size xs ys);
  not_null = v.not_null;
  in_memory = v.in_memory;
  chain =
      (carve-Chain_at m.chunk limit v.in_memory size n h ys xs 0 first _ refl v.not_null v.chain).0;
}
