-- ===== src/Machine/Frame.antt =====
-- What an interrupt by a stub of interruptstubs.s saves, and what it resumes.
use blue_os.Base.{ℕ, ◌+◌, ◌-◌, ◌^◌, ◌<◌, ◌≤◌, ◌≡◌, ◌≢◌, ◌⊎◌, refl, List, [], ◌∷◌, arith}
use blue_os.Base.Words.{add32}
use blue_os.Machine.{
  Cpu, Machine, push, push_all, enter, iret, save_registers, restore_registers, Stub, word,
  store_number, interrupt,
}

-- the bytes of a saved context without the `esp` and `ss` of `CPUState`, which an interrupt of the
-- same privilege level does not push
abbrev pub frame_size : ℕ
frame_size = 44

-- the bytes of the two arguments of the call and of the address behind it
abbrev pub call_size : ℕ
call_size = 12

-- the context that stands at `p`, as `CPUState` lays it out, with the stack that is left
abbrev pub context : (memory : ℕ → ℕ) → (p : ℕ) → Cpu
context memory p = record {
  eax = memory p;
  ebx = memory (p + 4);
  ecx = memory (p + 8);
  edx = memory (p + 12);
  esi = memory (p + 16);
  edi = memory (p + 20);
  ebp = memory (p + 24);
  eip = memory (p + 32);
  cs = memory (p + 36);
  eflags = memory (p + 40);
  esp = p + 44;
}

-- the words that the processor pushes, and those of the stub, down to the arguments of the call
abbrev pub entry : Cpu → List ℕ
entry c = c.eflags ∷ c.cs ∷ c.eip ∷ []

abbrev pub pushed : Stub → (sp : ℕ) → Cpu → List ℕ
pushed stub sp c =
    0 ∷ c.ebp ∷ c.edi ∷ c.esi ∷ c.edx ∷ c.ecx ∷ c.ebx ∷ c.eax ∷ sp ∷ word stub ∷ stub.back ∷ []

-- the processor goes on from the context at `p`
abbrev pub resume : (p : ℕ) → Machine → Machine
resume p m = iret (restore_registers (record m { cpu = record m.cpu { esp = p } }))

fits : (p k q : ℕ) → p + k ≡ q → q < 2 ^ 32 → add32 p k ≡ q
fits p k q e h = omega arith

-- The processor goes on with exactly the context that stands there.
pub resume_lem :
    (p : ℕ) (m : Machine)
    → p + frame_size < 2 ^ 32
    → resume p m ≡ record { cpu = context m.memory p; memory = m.memory }
unfolding iret restore_registers
resume_lem p m h =
    rw
      (
        fits p 0 p (omega arith) (omega arith),
        fits p 4 (p + 4) (omega arith) (omega arith),
        fits p 8 (p + 8) (omega arith) (omega arith),
        fits p 12 (p + 12) (omega arith) (omega arith),
        fits p 16 (p + 16) (omega arith) (omega arith),
        fits p 20 (p + 20) (omega arith) (omega arith),
        fits p 24 (p + 24) (omega arith) (omega arith),
        fits p 32 (p + 32) (omega arith) (omega arith),
        fits (p + 32) 0 (p + 32) (omega arith) (omega arith),
        fits (p + 32) 4 (p + 36) (omega arith) (omega arith),
        fits (p + 32) 8 (p + 40) (omega arith) (omega arith),
        fits (p + 32) 12 (p + 44) (omega arith) (omega arith),
      )
      refl

-- The same words make the same context.
pub context-same :
    (f g : ℕ → ℕ) (p : ℕ)
    → ((q : ℕ) → p ≤ q → q < p + frame_size → f q ≡ g q)
    → context f p ≡ context g p
context-same f g p same =
    let at = λ (k : ℕ) (l : k < frame_size). same (p + k) (omega arith) (omega (arith, l)) in
    rw
      (
        same p (omega arith) (omega arith),
        at 4 (omega arith),
        at 8 (omega arith),
        at 12 (omega arith),
        at 16 (omega arith),
        at 20 (omega arith),
        at 24 (omega arith),
        at 32 (omega arith),
        at 36 (omega arith),
        at 40 (omega arith),
      )
      refl

-- The machine when the stub has stored its number, and when it has called.
unfoldable pub stored : Stub → Machine → Machine
stored stub m = store_number stub (push_all (entry m.cpu) m)

unfoldable pub called : Stub → Machine → Machine
called stub m = push_all (pushed stub (m.cpu.esp - frame_size) m.cpu) (stored stub m)

-- What is used of the memory that the C++ function leaves: of the words that are the program's
-- `own`, it changes none but those in the `depth` bytes below the stack pointer that it is given,
-- where its arguments and its frames are.
abbrev pub LeavesOwn :
    {K : Type 0}
    → (own : ℕ → Type 0) → (depth : ℕ) → (leaves : (number esp : ℕ) → K → (ℕ → ℕ) → ℕ → ℕ) → Type 0
LeavesOwn own depth leaves =
    (number esp : ℕ) (k : _) (f : ℕ → ℕ) (q : ℕ)
    → own q
    → (esp ≤ q) ⊎ (q + depth < esp)
    → leaves number esp k f q ≡ f q

-- The variable `interruptnumber` is none of the program's own words.
abbrev pub IsApart : (own : ℕ → Type 0) → Stub → Type 0
IsApart own stub = (q : ℕ) → own q → q ≢ stub.variable

-- the memory when the C++ function has returned
abbrev pub left :
    {K : Type 0} → (leaves : (number esp : ℕ) → K → (ℕ → ℕ) → ℕ → ℕ) → Stub → Machine → K → ℕ → ℕ
left leaves stub m k = leaves (word stub) (m.cpu.esp - frame_size) k (called stub m).memory

pub interrupt_lem :
    {K : Type 0} (handle : (number esp : ℕ) → K → ℕ × K)
    (leaves : (number esp : ℕ) → K → (ℕ → ℕ) → ℕ → ℕ) (stub : Stub) (m : Machine) (k : K)
    → frame_size ≤ m.cpu.esp
    → m.cpu.esp < 2 ^ 32
    → let out = handle (word stub) (m.cpu.esp - frame_size) k in
      interrupt handle leaves stub m k
      ≡ (resume out.0 (record (called stub m) { memory = left leaves stub m k }), out.1)
unfolding interrupt enter save_registers push_all store_number stored called iret restore_registers
interrupt_lem handle leaves stub m k room small =
    let saved = save_registers (store_number stub (enter stub.address stub.selector m)) in
    let depth : saved.cpu.esp ≡ m.cpu.esp - frame_size =
      unfold push push_all store_number in omega arith in
    rw (depth, save_registers) refl
