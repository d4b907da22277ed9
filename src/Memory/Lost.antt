-- ===== src/Memory/Lost.antt =====
-- The second half of `kfree` of memorymanagment.cpp, with a free chunk before the freed one.
use blue_os.Base.{
  ℕ, ◌+◌, ◌≤◌, ◌<◌, ◌^◌, ◌≡◌, ◌≢◌, ◌⊎◌, refl, Bool, true, false, List, [], ◌∷◌, ◌++◌, arith, ap,
  ◌∙◌, sym,
}
use blue_os.Base.Words.{u32}
use blue_os.Memory.{
  MemoryChunk, Memory, Store, chunk_size, set_allocated, link_back, join_next, join_prev, kfree,
}
use blue_os.Memory.Chain.{
  Block, chunk_of, next_of, bytes, bytes-append, Chain, IsHeap, bytes_of_links, next_of-ne,
  next_of-null_or_ne,
}
use blue_os.Memory.Join.{freed, joined}
use blue_os.Memory.Release.{released, kfree_at}

module _ (t : Store) (r p q m k nx nr : ℕ) (f : Bool) (here : t r ≡ chunk_of nx p (k, f))
    (before : t p ≡ chunk_of nr q (m, false)) (real : p ≢ 0) (apart : p ≢ r) (nx-ne : nx ≢ p) where
  join_prev-at_prev : join_prev r t p ≡ chunk_of nx q (u32 (chunk_size + k), false)
  unfolding join_prev link_back
  join_prev-at_prev = ground (arith, here, before)

  join_prev-at_other : (a : ℕ) → a ≢ p → (nx ≡ 0) ⊎ (a ≢ nx) → join_prev r t a ≡ t a
  unfolding join_prev link_back
  join_prev-at_other a h l = ground (arith, here, before)

-- the first block of `freed`, and the blocks behind it
abbrev freed_size : ℕ → List Block → ℕ
freed_size n [] = n
freed_size n ((m, true) ∷ ys) = n
freed_size n ((m, false) ∷ ys) = n + chunk_size + m

abbrev freed_rest : List Block → List Block
freed_rest [] = []
freed_rest ((m, true) ∷ ys) = (m, true) ∷ ys
freed_rest ((m, false) ∷ ys) = ys

freed-eq : (n : ℕ) (ys : List Block) → freed n ys ≡ (freed_size n ys, false) ∷ freed_rest ys
freed-eq n [] = refl
freed-eq n ((m, true) ∷ ys) = refl
freed-eq n ((m, false) ∷ ys) = refl

-- What `kfree` writes into the free chunk at `p` that stands before the freed one.
module _ (s : Store) (limit : ℕ) (l : limit < 2 ^ 32) (n m : ℕ) (b : Bool) (ys : List Block)
    (q p r : ℕ) (pos : 0 < p) (at : r ≡ p + chunk_size + m)
    (c : Chain s limit q p ((m, false) ∷ (n, b) ∷ ys)) where
  abbrev k : ℕ
  k = freed_size n ys

  split_at :
      Chain (join_next r (set_allocated r false s)) limit p r ((k, false) ∷ freed_rest ys)
      × ((a : ℕ) → a < r → join_next r (set_allocated r false s) a ≡ s a)
  split_at =
      let c' : Chain s limit p r ((n, b) ∷ ys) = rw at c.1 in
      let j = joined s limit p r n b (omega arith) l ys c' in (rw (freed-eq n ys) at j.0, j.1)

  small : r + chunk_size + k ≤ limit
  small = omega (
    arith,
    bytes_of_links (join_next r (set_allocated r false s)) limit p r ((k, false) ∷ freed_rest ys)
        split_at.0,
  )

  released-at_prev :
      released r s p
      ≡ chunk_of (next_of (r + chunk_size + k) (freed_rest ys)) q (chunk_size + k, false)
  released-at_prev =
      join_prev-at_prev _ r p q m k _ _ false split_at.0.0 (split_at.1 p (omega arith) ∙ c.0)
        (omega arith) (omega arith) (next_of-ne _ p (freed_rest ys) pos (omega arith))
      ∙ ap (λ (x : ℕ). chunk_of (next_of (r + chunk_size + k) (freed_rest ys)) q (x, false))
          (omega (arith, small))

  released-below : (a : ℕ) → a < p → released r s a ≡ s a
  released-below a h =
      join_prev-at_other _ r p q m k _ _ false split_at.0.0 (split_at.1 p (omega arith) ∙ c.0)
        (omega arith) (omega arith) (next_of-ne _ p (freed_rest ys) pos (omega arith)) a
        (omega arith) (next_of-null_or_ne _ a (freed_rest ys) (omega arith))
      ∙ split_at.1 a (omega arith)

  -- The chunk at `p` is short by what it held before, so no list of blocks describes the memory.
  released-no_Chain :
      0 < m → (zs : List Block) → next_of p zs ≢ 0 → ¬ (Chain (released r s) limit q p zs)
  released-no_Chain h [] real d = real refl
  released-no_Chain h ((x, y) ∷ zs) real d =
      let e = sym released-at_prev ∙ d.0 in
      let size : chunk_size + k ≡ x = ap (λ (u : MemoryChunk). u.size) e in
      let next : next_of (r + chunk_size + k) (freed_rest ys) ≡ next_of (p + chunk_size + x) zs =
        ap (λ (u : MemoryChunk). u.next) e in
      no_room zs (freed_rest ys) size next
        (bytes_of_links (released r s) limit p (p + chunk_size + x) zs d.1)
        (bytes_of_links (join_next r (set_allocated r false s)) limit r (r + chunk_size + k)
          (freed_rest ys) split_at.0.1)
    where
      no_room :
          (zs ws : List Block)
          → chunk_size + k ≡ x
          → next_of (r + chunk_size + k) ws ≡ next_of (p + chunk_size + x) zs
          → p + chunk_size + x + bytes zs ≡ limit
          → r + chunk_size + k + bytes ws ≡ limit
          → ⊥
      no_room [] ws size next e1 e2 = omega arith
      no_room (z ∷ zs) [] size next e1 e2 = omega arith
      no_room (z ∷ zs) (w ∷ ws) size next e1 e2 = omega arith

next_of-append_ne :
    (p : ℕ) (xs : List Block) (y : Block) (ys : List Block) → 0 < p → next_of p (xs ++ y ∷ ys) ≢ 0
next_of-append_ne p [] y ys h = omega arith
next_of-append_ne p (x ∷ xs) y ys h = omega arith

-- The same from any earlier block on, since the chunks before are left alone.
module _ (s : Store) (limit : ℕ) (l : limit < 2 ^ 32) (n m : ℕ) (b : Bool) (ys : List Block) (r : ℕ)
    (h : 0 < m) where
  lost :
      (xs : List Block) (q p : ℕ)
      → 0 < p
      → r ≡ p + bytes xs + chunk_size + m
      → Chain s limit q p (xs ++ (m, false) ∷ (n, b) ∷ ys)
      → ((a : ℕ) → a < p + bytes xs → released r s a ≡ s a)
        × ((zs : List Block) → next_of p zs ≢ 0 → ¬ (Chain (released r s) limit q p zs))
  lost [] q p pos e c = (
    λ a below. released-below s limit l n m b ys q p r pos (omega arith) c a (omega arith),
    λ zs. released-no_Chain s limit l n m b ys q p r pos (omega arith) c h zs,
  )
  lost ((w, u) ∷ xs) q p pos e c =
      let (same, no_chain) = lost xs p (p + chunk_size + w) (omega arith) (omega arith) c.1 in
      (λ a below. same a (omega arith), λ zs. no_rest same no_chain zs)
    where
      no_rest :
          ((a : ℕ) → a < p + chunk_size + w + bytes xs → released r s a ≡ s a)
          → ((zs : List Block)
              → next_of (p + chunk_size + w) zs ≢ 0
              → ¬ (Chain (released r s) limit p (p + chunk_size + w) zs))
          → (zs : List Block) → next_of p zs ≢ 0
          → ¬ (Chain (released r s) limit q p zs)
      no_rest same no_chain [] real d = real refl
      no_rest same no_chain ((z, v) ∷ zs) real d =
          let e = sym c.0 ∙ sym (same p (omega arith)) ∙ d.0 in
          let size : w ≡ z = ap (λ (t : MemoryChunk). t.size) e in
          let next : next_of (p + chunk_size + w) (xs ++ (m, false) ∷ (n, b) ∷ ys)
              ≡ next_of (p + chunk_size + z) zs =
            ap (λ (t : MemoryChunk). t.next) e in
          no_chain zs
            (λ z0.
              next_of-append_ne (p + chunk_size + w) xs (m, false) ((n, b) ∷ ys) (omega arith)
                (next ∙ (rw (← size) z0)))
            (rw size d.1)

-- Freeing a block with a free block before it, one that is not empty, leaves memory that no list of
-- blocks describes: the heap invariant is lost.
pub kfree-not_IsHeap :
    (m : Memory) (self first limit n k : ℕ) (b : Bool) (xs ys zs : List Block)
    → 0 < k
    → IsHeap m self first limit (xs ++ (k, false) ∷ (n, b) ∷ ys)
    → ¬ (IsHeap (kfree (first + bytes xs + chunk_size + k + chunk_size) m) self first limit zs)
kfree-not_IsHeap m self first limit n k b xs ys zs h v w =
    let r = first + bytes xs + chunk_size + k in
    let inside : r + chunk_size < 2 ^ 32 = omega (
      arith,
      bytes_of_links m.chunk limit 0 first _ v.chain,
      v.in_memory,
      bytes-append xs ((k, false) ∷ (n, b) ∷ ys),
    ) in
    let w' : IsHeap (record m { chunk = released r m.chunk }) self first limit zs =
      rw (kfree_at r m inside) at w in
    (lost m.chunk limit v.in_memory n k b ys r h xs 0 first v.not_null refl v.chain).1 zs
      (λ z.
        next_of-append_ne first xs (k, false) ((n, b) ∷ ys) v.not_null
          (sym v.starts ∙ w'.starts ∙ z))
      w'.chain
