-- ===== src/Memory.antt =====
-- blue_Os/src/memory/memorymanagment.cpp and its header: the kernel heap, a list of chunks that
-- are laid out in memory, and the operators `new` and `delete` over it.
-- A `MemoryChunk` is what the 13 bytes at an address read as; memory gives one for each address,
-- so chunk headers are taken not to overlap one another except where their addresses are equal.
-- `size_t` and pointers are 32 bits wide, and sums and differences of them wrap.
pub mod Chain
pub mod Carve
pub mod Alloc
pub mod Join
pub mod Release
pub mod Lost
pub mod Cycle
mod Tests
use blue_os.Base.{
  ℕ, zero, suc, ◌+◌, Bool, true, false, not, ◌&&◌, Option, none, some, ltb, ◌==◌, if◌then◌else◌,
  update,
}
use blue_os.Base.Words.{u32, sub32}

pub record MemoryChunk : Type 0 where
  pub next : ℕ
  pub prev : ℕ
  pub allocated : Bool
  pub size : ℕ

-- sizeof(MemoryChunk): the struct is packed, two pointers, a bool and a size
abbrev pub chunk_size : ℕ
chunk_size = 13

-- The static pointer to the active manager, the `head` of each manager object by the object's
-- address, and the chunks in memory. The null pointer is 0.
pub record Memory : Type 0 where
  pub active : ℕ
  pub head : ℕ → ℕ
  pub chunk : ℕ → MemoryChunk

abbrev pub Store : Type 0
Store = ℕ → MemoryChunk

-- `p->next = q`, and so for the other fields
abbrev pub set_next : ℕ → ℕ → Store → Store
set_next p q s = update s p (record (s p) { next = q })

abbrev pub set_prev : ℕ → ℕ → Store → Store
set_prev p q s = update s p (record (s p) { prev = q })

abbrev pub set_allocated : ℕ → Bool → Store → Store
set_allocated p b s = update s p (record (s p) { allocated = b })

abbrev pub set_size : ℕ → ℕ → Store → Store
set_size p n s = update s p (record (s p) { size = n })

unfoldable pub init : (self first size : ℕ) → Memory → Memory
init self first size m =
    if ltb size chunk_size
    then record m { active = self; head = update m.head self 0 }
    else record m {
      active = self;
      head = update m.head self first;
      chunk =
          update m.chunk first
            (record { next = 0; prev = 0; allocated = false; size = sub32 size chunk_size });
    }

unfoldable pub destroy : Memory → Memory
destroy m = record m { active = 0 }

-- The loop of `kmalloc`, with its test as it is written; `none` means that the fuel ran out.
unfoldable pub search : (fuel : ℕ) → Store → (size chunk result : ℕ) → Option ℕ
search zero s size chunk result = none
search (suc fuel) s size chunk result =
    let fits = not (s chunk).allocated && ltb size (s chunk).size in
    let rest = search fuel s size (s chunk).next (if fits then chunk else result) in
    if not (chunk == 0) && not (result == 0) then rest else some result

-- The new chunk is filled in, field by field.
place : (new result size : ℕ) → Store → Store
place new result size s =
    let s1 = set_allocated new false s in
    let s2 = set_next new (s1 result).next s1 in
    let s3 = set_prev new result s2 in
    set_size new (sub32 (sub32 (s3 result).size size) chunk_size) s3

-- The found chunk ends where the new one begins.
shrink : (new result size : ℕ) → Store → Store
shrink new result size s = set_size result size (set_next result new s)

-- `if (chunk->next != 0) chunk->next->prev = p;`
link_back : (chunk p : ℕ) → Store → Store
link_back chunk p s = if (s chunk).next == 0 then s else set_prev (s chunk).next p s

-- The chunk behind the first `size` bytes of `result`, as `kmalloc` writes it.
split : (result size : ℕ) → Store → Store
split result size s =
    let new = u32 (result + size + chunk_size) in
    link_back new new (shrink new result size (place new result size s))

-- What `kmalloc` does with the chunk that its loop found.
unfoldable pub carve : (result size : ℕ) → Store → Store
unfolding split place shrink link_back
carve result size s =
    set_allocated result true
      (if ltb (u32 (size + chunk_size)) (s result).size then split result size s else s)

unfoldable pub kmalloc : (fuel self size : ℕ) → Memory → Option (ℕ × Memory)
unfolding search carve
kmalloc fuel self size m = elim (search fuel m.chunk size (m.head self) 0) [
  | none ↦ none
  | some result ↦
      if result == 0
      then some (0, m)
      else some (u32 (chunk_size + result), record m { chunk = carve result size m.chunk })
]

-- The first half of `kfree`: the next chunk, if free, is joined to this one.
unfoldable pub join_next : ℕ → Store → Store
unfolding link_back
join_next chunk s =
    if not ((s chunk).next == 0) && not (s (s chunk).next).allocated
    then (let s1 =
          set_size chunk (u32 ((s chunk).size + (chunk_size + (s (s chunk).next).size))) s in
        let s2 = set_next chunk (s1 (s1 chunk).next).next s1 in link_back chunk chunk s2)
    else s

-- The second half: this chunk is joined to the previous one, if that is free. The size of the
-- previous chunk is assigned, not added to.
unfoldable pub join_prev : ℕ → Store → Store
unfolding link_back
join_prev chunk s =
    if not ((s chunk).prev == 0) && not (s (s chunk).prev).allocated
    then (let s1 = set_size (s chunk).prev (u32 (chunk_size + (s chunk).size)) s in
        let s2 = set_next (s1 chunk).prev (s1 chunk).next s1 in link_back chunk (s2 chunk).prev s2)
    else s

unfoldable pub kfree : ℕ → Memory → Memory
unfolding join_next join_prev
kfree ptr m =
    if ptr == 0
    then m
    else (let chunk = sub32 ptr chunk_size in
        record m { chunk = join_prev chunk (join_next chunk (set_allocated chunk false m.chunk)) })

-- operator new and operator new[]
unfoldable pub operator_new : (fuel size : ℕ) → Memory → Option (ℕ × Memory)
unfolding kmalloc
operator_new fuel size m = if m.active == 0 then some (0, m) else kmalloc fuel m.active size m

-- placement new, which leaves memory alone
unfoldable pub operator_new_at : (size ptr : ℕ) → ℕ
operator_new_at size ptr = ptr

-- operator delete and operator delete[]
unfoldable pub operator_delete : ℕ → Memory → Memory
unfolding kfree
operator_delete ptr m = if m.active == 0 then m else kfree ptr m

-- the sized overloads
unfoldable pub operator_delete_sized : (ptr size : ℕ) → Memory → Memory
unfolding operator_delete
operator_delete_sized ptr size m = operator_delete ptr m
