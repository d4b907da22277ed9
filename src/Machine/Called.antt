-- ===== src/Machine/Called.antt =====
-- The memory when a stub of interruptstubs.s has called: what stands there of the program's context,
-- and what is as it was.
use blue_os.Base.{
  ℕ, ◌+◌, ◌-◌, ◌*◌, ◌^◌, ◌<◌, ◌≤◌, ◌≡◌, ◌≢◌, ◌⊎◌, inl, inr, refl, ap, ◌∙◌, arith, get_or, update_ne,
}
use blue_os.Machine.{Machine, push_all, store_number, word, Stub}
use blue_os.Machine.Frame.{frame_size, call_size, context, entry, pushed, stored, called}
use blue_os.Machine.Stack.{push_all-esp, push_all-other, push_all-at}

stored-esp :
    (stub : Stub) (m : Machine)
    → frame_size ≤ m.cpu.esp
    → m.cpu.esp < 2 ^ 32
    → (stored stub m).cpu.esp ≡ m.cpu.esp - 12
unfolding stored store_number
stored-esp stub m room small = push_all-esp (entry m.cpu) m (omega arith) small

-- The word that the processor pushed as number `i` stands at `q`.
called-entry :
    (stub : Stub) (m : Machine) (i q : ℕ)
    → frame_size + call_size ≤ m.cpu.esp
    → m.cpu.esp < 2 ^ 32
    → i < 3
    → q + 4 * (i + 1) ≡ m.cpu.esp
    → q ≢ stub.variable
    → (called stub m).memory q ≡ get_or (entry m.cpu) i 0
unfolding called stored store_number
called-entry stub m i q room small l place apart =
    let depth = stored-esp stub m (omega (arith, room)) small in
    let e : q ≡ m.cpu.esp - 4 * (i + 1) = omega (arith, place) in
    push_all-other (pushed stub (m.cpu.esp - frame_size) m.cpu) (stored stub m) q
      (omega (arith, depth)) (omega (arith, depth)) (inr (omega (arith, depth, place, l)))
    ∙ update_ne (push_all (entry m.cpu) m).memory stub.variable q (word stub) apart
    ∙ ap (push_all (entry m.cpu) m).memory e
    ∙ push_all-at (entry m.cpu) m i (omega (arith, room)) small l

-- The word that the stub pushed as number `i` stands at `q`.
called-pushed :
    (stub : Stub) (m : Machine) (i q : ℕ)
    → frame_size + call_size ≤ m.cpu.esp
    → m.cpu.esp < 2 ^ 32
    → i < 11
    → q + 4 * (i + 4) ≡ m.cpu.esp
    → (called stub m).memory q ≡ get_or (pushed stub (m.cpu.esp - frame_size) m.cpu) i 0
unfolding called
called-pushed stub m i q room small l place =
    let depth = stored-esp stub m (omega (arith, room)) small in
    let e : q ≡ (stored stub m).cpu.esp - 4 * (i + 1) = omega (arith, place, depth) in
    ap (called stub m).memory e
    ∙ push_all-at (pushed stub (m.cpu.esp - frame_size) m.cpu) (stored stub m) i
        (omega (arith, depth)) (omega (arith, depth)) l

-- The context that an interrupt saves is that of the program that is interrupted, if
-- `interruptnumber` does not stand in it.
pub called-context :
    (stub : Stub) (m : Machine)
    → frame_size + call_size ≤ m.cpu.esp
    → m.cpu.esp < 2 ^ 32
    → ((q : ℕ) → m.cpu.esp - frame_size ≤ q → q < m.cpu.esp → q ≢ stub.variable)
    → context (called stub m).memory (m.cpu.esp - frame_size) ≡ m.cpu
called-context stub m room small apart =
    let p : ℕ = m.cpu.esp - frame_size in
    let at = λ (i q : ℕ). called-pushed stub m i q room small in
    let top = λ (i q : ℕ) (l : i < 3) (place : q + 4 * (i + 1) ≡ m.cpu.esp).
      called-entry stub m i q room small l place
        (apart q (omega (arith, place, l)) (omega (arith, place))) in
    let back : p + frame_size ≡ m.cpu.esp = omega arith in
    rw
      (
        at 7 p (omega arith) (omega arith),
        at 6 (p + 4) (omega arith) (omega arith),
        at 5 (p + 8) (omega arith) (omega arith),
        at 4 (p + 12) (omega arith) (omega arith),
        at 3 (p + 16) (omega arith) (omega arith),
        at 2 (p + 20) (omega arith) (omega arith),
        at 1 (p + 24) (omega arith) (omega arith),
        top 2 (p + 32) (omega arith) (omega arith),
        top 1 (p + 36) (omega arith) (omega arith),
        top 0 (p + 40) (omega arith) (omega arith),
        back,
      )
      refl

-- Outside the words that are pushed, and `interruptnumber`, memory is as it was.
pub called-other :
    (stub : Stub) (m : Machine) (q : ℕ)
    → frame_size + call_size ≤ m.cpu.esp
    → m.cpu.esp < 2 ^ 32
    → q ≢ stub.variable
    → (q + frame_size + call_size < m.cpu.esp) ⊎ (m.cpu.esp ≤ q)
    → (called stub m).memory q ≡ m.memory q
unfolding called stored store_number
called-other stub m q room small apart out =
    let depth = stored-esp stub m (omega (arith, room)) small in
    push_all-other (pushed stub (m.cpu.esp - frame_size) m.cpu) (stored stub m) q
      (omega (arith, depth)) (omega (arith, depth))
      (elim out [ inl l ↦ inl (omega (arith, depth, l)) | inr g ↦ inr (omega (arith, depth, g)) ])
    ∙ update_ne (push_all (entry m.cpu) m).memory stub.variable q (word stub) apart
    ∙ push_all-other (entry m.cpu) m q (omega (arith, room)) small
        (elim out [ inl l ↦ inl (omega (arith, l)) | inr g ↦ inr g ])
