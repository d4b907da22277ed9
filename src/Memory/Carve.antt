-- ===== src/Memory/Carve.antt =====
-- The part of `kmalloc` of memorymanagment.cpp that takes a chunk and splits off what is left.
use blue_os.Base.{
  ℕ, ◌+◌, ◌-◌, ◌≤◌, ◌<◌, ◌^◌, ◌≡◌, ◌≢◌, Bool, true, false, List, ◌∷◌, arith, if◌then◌else◌, ltb,
  ltb→lt, ltb→le, lt→ltb, le→ltb, ==_ne, Bool-cases, ◌⊎◌, inl, inr,
}
use native.Mathlib.Decide.{dec_lt}
use mathlib.Core.Path.{sym, subst}
use blue_os.Base.Words.{u32}
use blue_os.Memory.{Store, chunk_size, set_allocated, place, shrink, link_back, split, carve}
use blue_os.Memory.Chain.{
  Block, chunk_of, next_of, Chain, bytes_of_links, Chain-frame, Chain-behind, next_of-ne,
  next_of-eq, next_of-null_or_ne,
}

-- the blocks that `carve` makes of a free one of `n` bytes
abbrev pub carved : (n size : ℕ) → List Block → List Block
carved n size ys =
    if ltb (size + chunk_size) n
    then (size, true) ∷ (n - size - chunk_size, false) ∷ ys
    else (n, true) ∷ ys

-- The new chunk after all its fields are written, and the rest of memory as it was.
module _ (new r size : ℕ) (s : Store) (n nx q : ℕ) (f : Bool) (found : s r ≡ chunk_of nx q (n, f))
    (apart : new ≢ r) (room : size + chunk_size ≤ n) (small : n < 2 ^ 32) where
  place-at_new : place new r size s new ≡ chunk_of nx r (n - size - chunk_size, false)
  unfolding place
  place-at_new = ground (arith, found)

  place-at_other : (a : ℕ) → a ≢ new → place new r size s a ≡ s a
  unfolding place
  place-at_other a h = ground arith

  -- What `split` leaves at the found chunk, at the new one, at the one behind, and elsewhere.
  module _ (end : u32 (r + size + chunk_size) ≡ new) (nx-ne-r : nx ≢ r) (nx-ne-new : nx ≢ new) where
    split-at_found : split r size s r ≡ chunk_of new q (size, f)
    unfolding split shrink link_back
    split-at_found = rw end (ground (arith, place-at_new, place-at_other r (ground arith)))

    split-at_new : split r size s new ≡ chunk_of nx r (n - size - chunk_size, false)
    unfolding split shrink link_back
    split-at_new = rw end (ground (arith, place-at_new, place-at_other r (ground arith)))

    split-at_next : nx ≢ 0 → split r size s nx ≡ record (s nx) { prev = new }
    unfolding split shrink link_back
    split-at_next h =
        rw end (ground (arith, place-at_new, place-at_other r (ground arith), place-at_other nx))

    split-at_other : (a : ℕ) → a ≢ new → a ≢ r → (nx ≡ 0) ⊎ (a ≢ nx) → split r size s a ≡ s a
    unfolding split shrink link_back
    split-at_other a h k l = rw end (ground (arith, place-at_new, place-at_other a))

-- `carve` at the first chunk of a chain.
module _ (r size : ℕ) (s : Store) (limit q n : ℕ) (ys : List Block)
    (c : Chain s limit q r ((n, false) ∷ ys)) (pos : 0 < r) (l : limit < 2 ^ 32)
    (h : size ≤ n) where
  carve_tight : n ≤ size + chunk_size → carve r size s ≡ set_allocated r true s
  unfolding carve
  carve_tight t =
      let e : ltb (u32 (size + chunk_size)) (s r).size ≡ false =
        rw c.0 (le→ltb _ _ (omega (arith, bytes_of_links s limit q r ((n, false) ∷ ys) c))) in
      rw e

  carve_room : size + chunk_size < n → carve r size s ≡ set_allocated r true (split r size s)
  unfolding carve
  carve_room t =
      let e : ltb (u32 (size + chunk_size)) (s r).size ≡ true =
        rw c.0 (lt→ltb _ _ (omega (arith, bytes_of_links s limit q r ((n, false) ∷ ys) c))) in
      rw e

  carve_end : u32 (r + size + chunk_size) ≡ r + chunk_size + size
  carve_end = omega (arith, bytes_of_links s limit q r ((n, false) ∷ ys) c)

  module _ (t : size + chunk_size < n) where
    fits : r + chunk_size + n ≤ limit
    fits = omega (arith, bytes_of_links s limit q r ((n, false) ∷ ys) c)

    nx-ne-r : next_of (r + chunk_size + n) ys ≢ r
    nx-ne-r = next_of-ne _ _ ys pos (omega arith)

    nx-ne-new : next_of (r + chunk_size + n) ys ≢ r + chunk_size + size
    nx-ne-new = next_of-ne _ _ ys (omega arith) (omega arith)

    room_other :
        (a : ℕ)
        → a ≢ r + chunk_size + size
        → a ≢ r
        → a ≢ r + chunk_size + n
        → carve r size s a ≡ s a
    room_other a h1 h2 h3 =
        let e : split r size s a ≡ s a =
          split-at_other _ r size s n _ q false c.0 (omega arith) (omega arith)
            (omega (arith, fits)) carve_end nx-ne-r nx-ne-new a h1 h2
            (next_of-null_or_ne _ a ys h3) in
        rw (carve_room t) (ground (arith, e))

    room_found : carve r size s r ≡ chunk_of (r + chunk_size + size) q (size, true)
    room_found =
        let e : split r size s r ≡ chunk_of (r + chunk_size + size) q (size, false) =
          split-at_found _ r size s n _ q false c.0 (omega arith) (omega arith)
            (omega (arith, fits)) carve_end nx-ne-r nx-ne-new in
        rw (carve_room t) (ground (arith, e))

    room_new :
        carve r size s (r + chunk_size + size)
        ≡ chunk_of (next_of (r + chunk_size + n) ys) r (n - size - chunk_size, false)
    room_new =
        let e : split r size s (r + chunk_size + size)
            ≡ chunk_of (next_of (r + chunk_size + n) ys) r (n - size - chunk_size, false) =
          split-at_new _ r size s n _ q false c.0 (omega arith) (omega arith) (omega (arith, fits))
            carve_end nx-ne-r nx-ne-new in
        rw (carve_room t) (ground (arith, e))

    room_next :
        next_of (r + chunk_size + n) ys ≢ 0
        → carve r size s (r + chunk_size + n)
          ≡ record (s (r + chunk_size + n)) { prev = r + chunk_size + size }
    room_next h =
        let e : split r size s (next_of (r + chunk_size + n) ys)
            ≡ record (s (next_of (r + chunk_size + n) ys)) { prev = r + chunk_size + size } =
          split-at_next _ r size s n _ q false c.0 (omega arith) (omega arith) (omega (arith, fits))
            carve_end nx-ne-r nx-ne-new h in
        rw (carve_room t, ==_ne (r + chunk_size + n) r (omega arith))
          (rw (next_of-eq (r + chunk_size + n) ys h) at e)

    room_end : r + chunk_size + size + chunk_size + (n - size - chunk_size) ≡ r + chunk_size + n
    room_end = omega arith

    room_Chain :
        Chain (carve r size s) limit q r ((size, true) ∷ (n - size - chunk_size, false) ∷ ys)
    room_Chain = (
      room_found,
      (
        rw room_end room_new,
        rw room_end (
            Chain-behind s _ limit r _ _ ys room_next
              (λ a h. room_other a (omega arith) (omega arith) (omega arith)) (omega arith) c.1),
      ),
    )

  tight_Chain : n ≤ size + chunk_size → Chain (carve r size s) limit q r ((n, true) ∷ ys)
  tight_Chain t =
      subst (λ u. Chain u limit q r ((n, true) ∷ ys)) (sym (carve_tight t))
        (ground (arith, c.0), Chain-frame s _ limit r _ ys (λ a h. ground arith) c.1)

  pub carve-Chain_head : Chain (carve r size s) limit q r (carved n size ys)
  carve-Chain_head = elim (Bool-cases (ltb (size + chunk_size) n)) [
    | inl t ↦ rw t (room_Chain (ltb→lt _ _ t))
    | inr t ↦ rw t (tight_Chain (ltb→le _ _ t))
  ]

  pub carve-below : (a : ℕ) → a < r → carve r size s a ≡ s a
  carve-below a b = elim (dec_lt (size + chunk_size) n) [
    | yes t ↦ room_other t a (omega arith) (omega arith) (omega arith)
    | no t ↦ rw (carve_tight (omega arith)) (ground arith)
  ]
