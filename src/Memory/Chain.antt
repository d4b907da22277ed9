-- ===== src/Memory/Chain.antt =====
-- The chunks of the heap of memorymanagment.cpp as a list of blocks that tile an address range.
use blue_os.Base.{
  ℕ, ◌+◌, ◌≤◌, ◌<◌, ◌^◌, ◌≡◌, refl, ◌≢◌, ◌⊎◌, inl, inr, Bool, List, [], ◌∷◌, ◌++◌, arith, ◌∙◌,
}
use blue_os.Memory.{MemoryChunk, Memory, Store, chunk_size}

-- the size of a block, without its header, and whether it is allocated
abbrev pub Block : Type 0
Block = ℕ × Bool

abbrev pub chunk_of : (next prev : ℕ) → Block → MemoryChunk
chunk_of next prev (n, b) = record { next = next; prev = prev; allocated = b; size = n }

-- where a block's `next` points: at the address behind it, or nowhere if it is the last
abbrev pub next_of : ℕ → List Block → ℕ
next_of r [] = 0
next_of r (_ ∷ _) = r

abbrev pub bytes : List Block → ℕ
bytes [] = 0
bytes ((n, _) ∷ xs) = chunk_size + n + bytes xs

-- From address `p` on, with `q` before it, the chunks are the blocks and end at `limit`.
abbrev pub Chain : Store → ℕ → ℕ → ℕ → List Block → Type 0
Chain s limit q p [] = p ≡ limit
Chain s limit q p ((n, b) ∷ xs) =
    (s p ≡ chunk_of (next_of (p + chunk_size + n) xs) q (n, b))
    × Chain s limit p (p + chunk_size + n) xs

-- The heap of a manager: blocks from `first` up to `limit`, in 32-bit memory.
pub record IsHeap (m : Memory) (self first limit : ℕ) (xs : List Block) : Type 0 where
  pub starts : m.head self ≡ next_of first xs
  pub not_null : 0 < first
  pub in_memory : limit < 2 ^ 32
  pub chain : Chain m.chunk limit 0 first xs

pub bytes-append : (xs ys : List Block) → bytes (xs ++ ys) ≡ bytes xs + bytes ys
bytes-append [] ys = omega arith
bytes-append ((n, b) ∷ xs) ys = omega (arith, bytes-append xs ys)

pub bytes_of_links :
    (s : Store) (limit q p : ℕ) (xs : List Block) → Chain s limit q p xs → p + bytes xs ≡ limit
bytes_of_links s limit q p [] c = omega arith
bytes_of_links s limit q p ((n, b) ∷ xs) c =
    omega (arith, bytes_of_links s limit p (p + chunk_size + n) xs c.1)

pub Chain-frame :
    (s t : Store) (limit q p : ℕ) (xs : List Block)
    → ((a : ℕ) → p ≤ a → t a ≡ s a)
    → Chain s limit q p xs
    → Chain t limit q p xs
Chain-frame s t limit q p [] same c = c
Chain-frame s t limit q p ((n, b) ∷ xs) same c = (
  same p (omega arith) ∙ c.0,
  Chain-frame s t limit p (p + chunk_size + n) xs (λ a h. same a (omega arith)) c.1,
)

-- A chain is given another block before it by a change to its first chunk alone.
pub Chain-behind :
    (s t : Store) (limit q p q' : ℕ) (xs : List Block)
    → (next_of p xs ≢ 0 → t p ≡ record (s p) { prev = q' })
    → ((a : ℕ) → p < a → t a ≡ s a)
    → 0 < p
    → Chain s limit q p xs
    → Chain t limit q' p xs
Chain-behind s t limit q p q' [] first same pos c = c
Chain-behind s t limit q p q' ((n, b) ∷ xs) first same pos c = (
  ground (arith, c.0, first (omega arith)),
  Chain-frame s t limit p (p + chunk_size + n) xs (λ a h. same a (omega arith)) c.1,
)

-- A chain's `next` is null, or the address behind the block.
pub next_of-ne : (r a : ℕ) (xs : List Block) → 0 < a → a < r → next_of r xs ≢ a
next_of-ne r a [] p l = omega arith
next_of-ne r a (x ∷ xs) p l = omega arith

pub next_of-null_or_ne :
    (r a : ℕ) (xs : List Block) → a ≢ r → (next_of r xs ≡ 0) ⊎ (a ≢ next_of r xs)
next_of-null_or_ne r a [] h = inl refl
next_of-null_or_ne r a (x ∷ xs) h = inr h

pub next_of-eq : (r : ℕ) (xs : List Block) → next_of r xs ≢ 0 → next_of r xs ≡ r
next_of-eq r [] h = absurd (h refl)
next_of-eq r (x ∷ xs) h = refl
