-- ===== src/Memory/Join.antt =====
-- The first half of `kfree` of memorymanagment.cpp: a freed chunk is joined with a free one behind it.
use mathlib.Core.Path.{sym, subst}
use blue_os.Base.{
  ℕ, ◌+◌, ◌≤◌, ◌<◌, ◌^◌, ◌≡◌, ◌≢◌, ◌⊎◌, Bool, true, false, List, [], ◌∷◌, arith, ==_ne, ap, ◌∙◌,
}
use blue_os.Memory.{MemoryChunk, Store, chunk_size, set_allocated, link_back, join_next}
use blue_os.Memory.Chain.{
  Block, chunk_of, next_of, Chain, bytes_of_links, Chain-frame, Chain-behind, next_of-ne,
  next_of-eq, next_of-null_or_ne,
}

-- the blocks that a freed block of `n` bytes makes with those behind it
abbrev pub freed : ℕ → List Block → List Block
freed n [] = (n, false) ∷ []
freed n ((m, true) ∷ ys) = (n, false) ∷ (m, true) ∷ ys
freed n ((m, false) ∷ ys) = (n + chunk_size + m, false) ∷ ys

-- Joining with a free chunk behind: the chunk itself, the one behind both, and the rest.
module _ (s : Store) (r nr q n m nx : ℕ) (f : Bool) (here : s r ≡ chunk_of nr q (n, f))
    (behind : s nr ≡ chunk_of nx r (m, false)) (apart : nr ≢ r) (real : nr ≢ 0) (nx-ne : nx ≢ r)
    (small : n + chunk_size + m < 2 ^ 32) where
  join_next-at_self : join_next r s r ≡ chunk_of nx q (n + chunk_size + m, f)
  unfolding join_next link_back
  join_next-at_self = ground (arith, here, behind)

  join_next-at_next : nx ≢ 0 → join_next r s nx ≡ record (s nx) { prev = r }
  unfolding join_next link_back
  join_next-at_next h = ground (arith, here, behind)

  join_next-at_other : (a : ℕ) → a ≢ r → (nx ≡ 0) ⊎ (a ≢ nx) → join_next r s a ≡ s a
  unfolding join_next link_back
  join_next-at_other a h k = ground (arith, here, behind)

-- A chunk with nothing free behind it is not joined.
join_next-last : (s : Store) (r : ℕ) → (s r).next ≡ 0 → join_next r s ≡ s
unfolding join_next
join_next-last s r h = rw h

join_next-used : (s : Store) (r : ℕ) → (s (s r).next).allocated ≡ true → join_next r s ≡ s
unfolding join_next
join_next-used s r h = ground (arith, h)

-- The first half of `kfree` at the first chunk of a chain.
module _ (s : Store) (limit q r n : ℕ) (b : Bool) (pos : 0 < r) (l : limit < 2 ^ 32) where
  abbrev pub Joined : List Block → Type 0
  Joined ys =
      let t : Store = join_next r (set_allocated r false s) in
      Chain t limit q r (freed n ys) × ((a : ℕ) → a < r → t a ≡ s a)

  unjoined :
      (ys : List Block)
      → Chain s limit q r ((n, b) ∷ ys)
      → join_next r (set_allocated r false s) ≡ set_allocated r false s
      → Chain (join_next r (set_allocated r false s)) limit q r ((n, false) ∷ ys)
        × ((a : ℕ) → a < r → join_next r (set_allocated r false s) a ≡ s a)
  unjoined ys c e =
      subst (λ (u : Store). Chain u limit q r ((n, false) ∷ ys) × ((a : ℕ) → a < r → u a ≡ s a))
        (sym e)
        (
          (
            ground (arith, c.0),
            Chain-frame s _ limit r (r + chunk_size + n) ys (λ a h. ground arith) c.1,
          ),
          λ a h. ground arith,
        )

  cleared-at :
      (nr : ℕ) → s r ≡ chunk_of nr q (n, b) → set_allocated r false s r ≡ chunk_of nr q (n, false)
  cleared-at nr c = ground (arith, c)

  cleared-off : (a : ℕ) → a ≢ r → set_allocated r false s a ≡ s a
  cleared-off a h = rw (==_ne a r h)

  module _ (m : ℕ) (ys : List Block) (c : Chain s limit q r ((n, b) ∷ (m, false) ∷ ys)) where
    abbrev mid : ℕ
    mid = r + chunk_size + n

    abbrev end : ℕ
    end = mid + chunk_size + m

    fits : end ≤ limit
    fits = omega (arith, bytes_of_links s limit q r ((n, b) ∷ (m, false) ∷ ys) c)

    behind : set_allocated r false s mid ≡ chunk_of (next_of end ys) r (m, false)
    behind = cleared-off mid (omega arith) ∙ c.1.0

    joined_self :
        join_next r (set_allocated r false s) r
        ≡ chunk_of (next_of end ys) q (n + chunk_size + m, false)
    joined_self =
        join_next-at_self _ r mid q n m (next_of end ys) false (cleared-at mid c.0) behind
          (omega arith) (omega arith) (next_of-ne end r ys pos (omega arith)) (omega (arith, fits))

    joined_next :
        next_of end ys ≢ 0 → join_next r (set_allocated r false s) end ≡ record (s end) { prev = r }
    joined_next h =
        let e : join_next r (set_allocated r false s) (next_of end ys)
            ≡ record (set_allocated r false s (next_of end ys)) { prev = r } =
          join_next-at_next _ r mid q n m (next_of end ys) false (cleared-at mid c.0) behind
            (omega arith) (omega arith) (next_of-ne end r ys pos (omega arith))
            (omega (arith, fits)) h in
        (rw (next_of-eq end ys h) at e)
        ∙ ap (λ (d : MemoryChunk). record d { prev = r }) (cleared-off end (omega arith))

    joined_other : (a : ℕ) → a ≢ r → a ≢ end → join_next r (set_allocated r false s) a ≡ s a
    joined_other a h k =
        join_next-at_other _ r mid q n m (next_of end ys) false (cleared-at mid c.0) behind
          (omega arith) (omega arith) (next_of-ne end r ys pos (omega arith)) (omega (arith, fits))
          a h (next_of-null_or_ne end a ys k)
        ∙ cleared-off a h

    joined_end : r + chunk_size + (n + chunk_size + m) ≡ r + chunk_size + n + chunk_size + m
    joined_end = omega arith

    merge_free : Joined ((m, false) ∷ ys)
    merge_free = (
      (
        rw joined_end joined_self,
        rw joined_end (
            Chain-behind s _ limit mid end r ys joined_next
              (λ a h. joined_other a (omega arith) (omega arith)) (omega arith) c.1.1),
      ),
      λ a h. joined_other a (omega arith) (omega arith),
    )

  pub joined : (ys : List Block) → Chain s limit q r ((n, b) ∷ ys) → Joined ys
  joined [] c =
      unjoined [] c (join_next-last _ r (ap (λ (d : MemoryChunk). d.next) (cleared-at 0 c.0)))
  joined ((m, true) ∷ ys) c =
      let nr : ℕ = r + chunk_size + n in
      unjoined ((m, true) ∷ ys) c (
        join_next-used _ r (
          ap (λ (d : MemoryChunk). (set_allocated r false s d.next).allocated) (cleared-at nr c.0)
          ∙ ap (λ (d : MemoryChunk). d.allocated) (cleared-off nr (omega arith) ∙ c.1.0)))
  joined ((m, false) ∷ ys) c = merge_free m ys c
