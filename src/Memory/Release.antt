-- ===== src/Memory/Release.antt =====
-- `kfree` of memorymanagment.cpp at a block of the heap, with a used block before it or with a
-- free one.
use mathlib.Core.Path.{sym}
use blue_os.Base.{
  ℕ, ◌+◌, ◌<◌, ◌^◌, ◌≡◌, ◌⊎◌, refl, Bool, true, false, List, [], ◌∷◌, ◌++◌, arith, ==_ne, ap, ◌∙◌,
  inl, inr,
}
use blue_os.Base.Words.{sub32}
use blue_os.Memory.{
  MemoryChunk, Memory, Store, chunk_size, set_allocated, join_next, join_prev, kfree,
}
use blue_os.Memory.Chain.{
  Block, chunk_of, next_of, bytes, Chain, IsHeap, bytes-append, bytes_of_links,
}
use blue_os.Memory.Join.{freed, joined}

join_prev-none :
    (s : Store) (r : ℕ) → ((s r).prev ≡ 0) ⊎ ((s (s r).prev).allocated ≡ true) → join_prev r s ≡ s
unfolding join_prev
join_prev-none s r (inl e) = rw e
join_prev-none s r (inr e) = ground (arith, e)

-- The chunks that `kfree` leaves, for a chunk at `r`.
abbrev pub released : ℕ → Store → Store
released r s = join_prev r (join_next r (set_allocated r false s))

-- A freed block stands first among the blocks it makes, with `q` before it.
freed-prev :
    (t : Store) (limit q r n : ℕ) (ys : List Block)
    → Chain t limit q r (freed n ys)
    → (t r).prev ≡ q
freed-prev t limit q r n [] c = ap (λ (d : MemoryChunk). d.prev) c.0
freed-prev t limit q r n ((m, true) ∷ ys) c = ap (λ (d : MemoryChunk). d.prev) c.0
freed-prev t limit q r n ((m, false) ∷ ys) c = ap (λ (d : MemoryChunk). d.prev) c.0

-- whether the block before the last position of a list is in use, with `b` for the empty list
abbrev pub last_used : Bool → List Block → Bool
last_used b [] = b
last_used b ((_, c) ∷ xs) = last_used c xs

next_of-freed : (n : ℕ) (ys : List Block) (p : ℕ) → next_of p (freed n ys) ≡ p
next_of-freed n [] p = refl
next_of-freed n ((m, true) ∷ ys) p = refl
next_of-freed n ((m, false) ∷ ys) p = refl

module _ (s : Store) (limit : ℕ) (l : limit < 2 ^ 32) (n : ℕ) (b : Bool) (ys : List Block) where
  not_joined :
      {q r : ℕ} (t : Store)
      → (t r).prev ≡ q
      → ((a : ℕ) → a < r → t a ≡ s a)
      → (q ≡ 0) ⊎ (((s q).allocated ≡ true) × (q < r))
      → ((t r).prev ≡ 0) ⊎ ((t (t r).prev).allocated ≡ true)
  not_joined t e same (inl z) = inl (e ∙ z)
  not_joined t e same (inr (u, below)) =
      inr (
        ap (λ (a : ℕ). (t a).allocated) e
        ∙ ap (λ (d : MemoryChunk). d.allocated) (same _ below)
        ∙ u)

  released_head :
      (q r : ℕ)
      → 0 < r
      → (q ≡ 0) ⊎ (((s q).allocated ≡ true) × (q < r))
      → Chain s limit q r ((n, b) ∷ ys)
      → Chain (released r s) limit q r (freed n ys) × ((a : ℕ) → a < r → released r s a ≡ s a)
  released_head q r pos used c =
      let (chain, same) = joined s limit q r n b pos l ys c in
      let at_prev = freed-prev _ limit q r n ys chain in
      let e : released r s ≡ join_next r (set_allocated r false s) =
        join_prev-none _ r (not_joined (join_next r (set_allocated r false s)) at_prev same used) in
      rw e (chain, same)

  next_of-append_freed :
      (xs : List Block) (p : ℕ) → next_of p (xs ++ freed n ys) ≡ next_of p (xs ++ (n, b) ∷ ys)
  next_of-append_freed [] p = next_of-freed n ys p
  next_of-append_freed (x ∷ xs) p = refl

  released_at :
      (xs : List Block) (c : Bool) (q p r : ℕ)
      → r ≡ p + bytes xs
      → 0 < p
      → last_used c xs ≡ true
      → (c ≡ true → (q ≡ 0) ⊎ (((s q).allocated ≡ true) × (q < p)))
      → Chain s limit q p (xs ++ (n, b) ∷ ys)
      → Chain (released r s) limit q p (xs ++ freed n ys) × ((a : ℕ) → a < r → released r s a ≡ s a)
  released_at [] c q p r e pos last used ch =
      let e' : r ≡ p = omega arith in rw e' (released_head q p pos (used last) ch)
  released_at ((k, d) ∷ xs) c q p r e pos last used ch =
      let (rest, same) =
        released_at xs d p (p + chunk_size + k) r (omega arith) (omega arith) last
          (λ h. inr (ap (λ (u : MemoryChunk). u.allocated) ch.0 ∙ h, omega arith)) ch.1 in
      (
        (
          same p (omega arith)
              ∙ ch.0
              ∙ ap (λ (t : ℕ). chunk_of t q (k, d))
                  (sym (next_of-append_freed xs (p + chunk_size + k))),
          rest,
        ),
        same,
      )

-- `kfree` of the bytes behind the header at `r` releases that chunk and touches nothing else.
pub kfree_at :
    (r : ℕ) (m : Memory)
    → r + chunk_size < 2 ^ 32
    → kfree (r + chunk_size) m ≡ record m { chunk = released r m.chunk }
unfolding kfree
kfree_at r m h =
    let at : sub32 (r + chunk_size) chunk_size ≡ r = omega arith in
    rw (==_ne (r + chunk_size) 0 (omega arith), at)

-- Freeing the block behind `xs`, when `xs` is empty or ends in a used block, leaves a heap over the
-- same bytes: the block is free, and joined with the block behind it if that is free.
pub kfree-IsHeap :
    (m : Memory) (self first limit n : ℕ) (b : Bool) (xs ys : List Block)
    → last_used true xs ≡ true
    → IsHeap m self first limit (xs ++ (n, b) ∷ ys)
    → IsHeap (kfree (first + bytes xs + chunk_size) m) self first limit (xs ++ freed n ys)
kfree-IsHeap m self first limit n b xs ys last v =
    let r = first + bytes xs in
    let inside : r + chunk_size < 2 ^ 32 = omega (
      arith,
      bytes_of_links m.chunk limit 0 first _ v.chain,
      v.in_memory,
      bytes-append xs ((n, b) ∷ ys),
    ) in
    rw (kfree_at r m inside) (record {
      starts = v.starts ∙ sym (next_of-append_freed m.chunk limit v.in_memory n b ys xs first);
      not_null = v.not_null;
      in_memory = v.in_memory;
      chain =
          (released_at m.chunk limit v.in_memory n b ys xs true 0 first r refl v.not_null last
            (λ _. inl refl) v.chain).0;
    })
