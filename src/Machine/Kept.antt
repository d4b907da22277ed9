-- ===== src/Machine/Kept.antt =====
-- What the program finds after an interrupt by a stub of interruptstubs.s, whatever the C++ function
-- leaves in the rest of memory.
use blue_os.Base.{ℕ, ◌+◌, ◌-◌, ◌^◌, ◌<◌, ◌≤◌, ◌≡◌, ◌⊎◌, inl, inr, refl, ◌∙◌, arith}
use blue_os.Machine.{Machine, Stub, word, interrupt}
use blue_os.Machine.Called.{called-context, called-other}
use blue_os.Machine.Frame.{
  frame_size, call_size, context, context-same, called, left, resume_lem, interrupt_lem, LeavesOwn,
  IsApart,
}

module _ {K : Type 0} (leaves : (number esp : ℕ) → K → (ℕ → ℕ) → ℕ → ℕ) (stub : Stub)
    (own : ℕ → Type 0) (depth : ℕ) (deep : call_size ≤ depth) (spares : LeavesOwn own depth leaves)
    (apart : IsApart own stub) where
  -- The context that is saved outlasts the call, where it stands in words of the program's own.
  pub left-context :
      (m : Machine) (k : K)
      → frame_size + depth ≤ m.cpu.esp
      → m.cpu.esp < 2 ^ 32
      → ((q : ℕ) → m.cpu.esp - frame_size ≤ q → q < m.cpu.esp → own q)
      → context (left leaves stub m k) (m.cpu.esp - frame_size) ≡ m.cpu
  left-context m k room small mine =
      let p : ℕ = m.cpu.esp - frame_size in
      context-same (left leaves stub m k) (called stub m).memory p (λ q from to.
        spares _ _ k (called stub m).memory q (mine q from (omega (arith, to, room))) (inl from))
      ∙ called-context stub m (omega (arith, room, deep)) small
          (λ q from to. apart q (mine q from to))

  -- The program's own words outside the free stack in use are as they were.
  pub left-other :
      (m : Machine) (k : K) (q : ℕ)
      → frame_size + depth ≤ m.cpu.esp
      → m.cpu.esp < 2 ^ 32
      → own q
      → (q + frame_size + depth < m.cpu.esp) ⊎ (m.cpu.esp ≤ q)
      → left leaves stub m k q ≡ m.memory q
  left-other m k q room small mine out =
      spares _ _ k (called stub m).memory q mine
        (elim out [ inl l ↦ inr (omega (arith, l)) | inr g ↦ inl (omega (arith, g)) ])
      ∙ called-other stub m q (omega (arith, room, deep)) small (apart q mine)
          (elim out [ inl l ↦ inl (omega (arith, l, deep)) | inr g ↦ inr g ])

  -- An interrupt for which the handler returns the stack pointer it was given leaves every register
  -- of the program as it was, and its own words outside the free stack.
  pub interrupt-same :
      (handle : (number esp : ℕ) → K → ℕ × K) (m : Machine) (k : K)
      → frame_size + depth ≤ m.cpu.esp
      → m.cpu.esp < 2 ^ 32
      → ((q : ℕ) → m.cpu.esp - frame_size ≤ q → q < m.cpu.esp → own q)
      → (handle (word stub) (m.cpu.esp - frame_size) k).0 ≡ m.cpu.esp - frame_size
      → let (m', k') = interrupt handle leaves stub m k in
        (m'.cpu ≡ m.cpu)
        × ((q : ℕ)
            → own q
            → (q + frame_size + depth < m.cpu.esp) ⊎ (m.cpu.esp ≤ q)
            → m'.memory q ≡ m.memory q)
        × (k' ≡ (handle (word stub) (m.cpu.esp - frame_size) k).1)
  interrupt-same handle m k room small mine same =
      let p : ℕ = m.cpu.esp - frame_size in
      let after = record (called stub m) { memory = left leaves stub m k } in
      rw
        (
          interrupt_lem handle leaves stub m k (omega arith) small,
          same,
          resume_lem p after (omega arith),
        )
        (left-context m k room small mine, λ q own out. left-other m k q room small own out, refl)
