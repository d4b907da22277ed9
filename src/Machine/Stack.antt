-- ===== src/Machine/Stack.antt =====
-- What pushes leave on the stack.
use blue_os.Base.{
  ℕ, zero, suc, ◌+◌, ◌-◌, ◌*◌, ◌^◌, ◌<◌, ◌≤◌, ◌≡◌, ◌⊎◌, inl, inr, refl, ap, ◌∙◌, List, [], ◌∷◌,
  arith, length, get_or, update_self, update_ne, sym,
}
use blue_os.Base.Words.{sub32}
use blue_os.Machine.{Machine, push, push_all}

-- the stack pointer after `n` pushes, with room for them
pub push_all-esp :
    (vs : List ℕ) (m : Machine)
    → 4 * length vs ≤ m.cpu.esp
    → m.cpu.esp < 2 ^ 32
    → (push_all vs m).cpu.esp ≡ m.cpu.esp - 4 * length vs
unfolding push_all
push_all-esp [] m room small = omega arith
push_all-esp (v ∷ vs) m room small =
    let first : (push v m).cpu.esp ≡ m.cpu.esp - 4 = unfold push in omega arith in
    let rest = push_all-esp vs (push v m) (omega (arith, first)) (omega (arith, first)) in
    omega (arith, rest, first)

-- Nothing else changes than the words below the stack pointer.
pub push_all-other :
    (vs : List ℕ) (m : Machine) (p : ℕ)
    → 4 * length vs ≤ m.cpu.esp
    → m.cpu.esp < 2 ^ 32
    → (p < m.cpu.esp - 4 * length vs) ⊎ (m.cpu.esp ≤ p)
    → (push_all vs m).memory p ≡ m.memory p
unfolding push_all
push_all-other [] m p room small out = refl
push_all-other (v ∷ vs) m p room small out =
    let first : (push v m).cpu.esp ≡ m.cpu.esp - 4 = unfold push in omega arith in
    let below : (p < (push v m).cpu.esp - 4 * length vs) ⊎ ((push v m).cpu.esp ≤ p) = elim out [
      | inl l ↦ inl (omega (arith, first, l))
      | inr g ↦ inr (omega (arith, first, g))
    ] in
    push_all-other vs (push v m) p (omega (arith, first)) (omega (arith, first)) below
    ∙ (unfold push in
        update_ne m.memory (sub32 m.cpu.esp 4) p v
          (λ e. elim out [ inl l ↦ omega (arith, l, e) | inr g ↦ omega (arith, g, e) ]))

-- The value that was pushed as number `i` stands where it was pushed.
pub push_all-at :
    (vs : List ℕ) (m : Machine) (i : ℕ)
    → 4 * length vs ≤ m.cpu.esp
    → m.cpu.esp < 2 ^ 32
    → i < length vs
    → (push_all vs m).memory (m.cpu.esp - 4 * (i + 1)) ≡ get_or vs i 0
unfolding push_all
push_all-at [] m i room small l = absurd (omega arith)
push_all-at (v ∷ vs) m zero room small l =
    let first : (push v m).cpu.esp ≡ m.cpu.esp - 4 = unfold push in omega arith in
    let written : (push v m).memory (m.cpu.esp - 4) ≡ v =
      let e : m.cpu.esp - 4 ≡ sub32 m.cpu.esp 4 = omega arith in
      unfold push in ap (push v m).memory e ∙ update_self m.memory (sub32 m.cpu.esp 4) v in
    push_all-other vs (push v m) (m.cpu.esp - 4) (omega (arith, first)) (omega (arith, first))
      (inr (omega (arith, first)))
    ∙ written
push_all-at (v ∷ vs) m (suc i) room small l =
    let first : (push v m).cpu.esp ≡ m.cpu.esp - 4 = unfold push in omega arith in
    let place : (push v m).cpu.esp - 4 * (i + 1) ≡ m.cpu.esp - 4 * (suc i + 1) =
      omega (arith, first) in
    ap (push_all vs (push v m)).memory (sym place)
    ∙ push_all-at vs (push v m) i (omega (arith, first)) (omega (arith, first)) (omega arith)
