-- ===== src/Interrupts/Gates.antt =====
-- The gates that interrupts.cpp installs, as the processor reads them.
use blue_os.Base.{
  ℕ, zero, suc, ◌+◌, ◌*◌, ◌/◌, ◌%◌, ◌^◌, ◌<◌, ◌≡◌, ◌≢◌, refl, ap, ◌∙◌, ◌&&◌, bit_and, bit_or, arith,
  ltb, leb, ◌==◌, ==_ne, ==_refl, ==_iff, Bool-cases, inl, inr, if◌then◌else◌, update,
}
use blue_os.Base.Bits.{bit_or-fields, bit_and-low}
use blue_os.Base.Words.{u8, and_0xffff, ◌<<<◌, ◌>>>◌}
use blue_os.Interrupts.{
  Table, Stubs, Kernel, set_entry, ignore_all, clear_handlers, fill_table, init,
}

-- A gate: the handler's address, the code segment, whether it is present, the privilege level
-- that may call it, and its type.
pub record Gate : Type 0 where
  pub handler : ℕ
  pub selector : ℕ
  pub present : ℕ
  pub privilege : ℕ
  pub kind : ℕ

abbrev gate : (handler selector present privilege kind : ℕ) → Gate
gate h s p l k = record { handler = h; selector = s; present = p; privilege = l; kind = k }

-- the descriptor's fields put together, as the processor does it
unfoldable pub gate_at : ℕ → Table → Gate
gate_at i t = record {
  handler = (t i).handler_address_high_bits * 2 ^ 16 + (t i).handler_address_lower_bits;
  selector = (t i).gdt_code_segment_selector;
  present = (t i).access / 2 ^ 7;
  privilege = (t i).access / 2 ^ 5 % 4;
  kind = (t i).access % 2 ^ 5;
}

Gate-equal :
    {h h' s p p' l l' k k' : ℕ}
    → h ≡ h'
    → p ≡ p'
    → l ≡ l'
    → k ≡ k'
    → gate h s p l k ≡ gate h' s p' l' k'
Gate-equal {h} {h'} {s} {p} {p'} {l} {l'} {k} {k'} a b c d =
    ap (λ (v : ℕ). gate v s p l k) a
    ∙ ap (λ (v : ℕ). gate h' s v l k) b
    ∙ ap (λ (v : ℕ). gate h' s p' v k) c
    ∙ ap (λ (v : ℕ). gate h' s p' l' v) d

access_lem :
    (privilege type_ : ℕ)
    → u8 (bit_or (bit_or 0x80 (bit_and privilege 0x3 <<< 5)) (bit_and type_ 0x1F))
      ≡ 128 + privilege % 4 * 32 + type_ % 32
access_lem privilege type_ =
    let l : ℕ = privilege % 4 in
    let high : 128 + l * 2 ^ 5 ≡ (4 + l) * 2 ^ 5 = omega arith in
    rw
      (
        bit_and-low 2 privilege,
        bit_and-low 5 type_,
        bit_or-fields 7 1 (l * 2 ^ 5) (omega arith),
        high,
        bit_or-fields 5 (4 + l) (type_ % 32) (omega arith),
      )
      (omega arith)

-- A gate that is set reads as the handler's address and segment, present, with the privilege level
-- of two bits and the type of five; the other gates stay.
set_entry-gate_at :
    (number selector handler privilege type_ : ℕ) (t : Table)
    → handler < 2 ^ 32
    → let t' = set_entry number selector handler privilege type_ t in
      (gate_at number t' ≡ record {
        handler = handler;
        selector = selector;
        present = 1;
        privilege = privilege % 4;
        kind = type_ % 32;
      })
      × ((i : ℕ) → i ≢ number → gate_at i t' ≡ gate_at i t)
unfolding set_entry gate_at
set_entry-gate_at number selector handler privilege type_ t h = (
  rw (==_refl number, access_lem privilege type_, and_0xffff handler, and_0xffff (handler >>> 16))
      (Gate-equal (omega arith) (omega arith) (omega arith) (omega arith)),
  λ i ne. rw (==_ne i number ne) refl,
)

abbrev pub kernel_gate : ℕ → Gate
kernel_gate handler = record {
  handler = handler;
  selector = 0x08;
  present = 1;
  privilege = 0;
  kind = 0xE;
}

set_entry-kernel :
    (number handler : ℕ) (t : Table) (i : ℕ)
    → handler < 2 ^ 32
    → gate_at i (set_entry number 0x08 handler 0 0xE t)
      ≡ (if i == number then kernel_gate handler else gate_at i t)
set_entry-kernel number handler t i h =
    let both = set_entry-gate_at number 0x08 handler 0 0xE t h in
    elim (Bool-cases (i == number)) [
      | inl e ↦ (let same : i ≡ number = (==_iff i number).0 e in rw (same, ==_refl number) both.0)
      | inr e ↦ (let ne : i ≢ number = ground arith in rw e (both.1 i ne))
    ]

ignore_all_lem :
    (stubs : Stubs) (k j : ℕ) (t : Table) (i : ℕ)
    → stubs.ignore < 2 ^ 32
    → gate_at i (ignore_all stubs k j t)
      ≡ (if leb j i && ltb i (j + k) then kernel_gate stubs.ignore else gate_at i t)
unfolding ignore_all
ignore_all_lem stubs zero j t i h = ground arith
ignore_all_lem stubs (suc k) j t i h =
    rw
      (
        ignore_all_lem stubs k (j + 1) (set_entry j 0x08 stubs.ignore 0 0xE t) i h,
        set_entry-kernel j stubs.ignore t i h,
      )
      (ground arith)

clear_handlers_lem :
    (k j : ℕ) (h : ℕ → ℕ) (i : ℕ)
    → clear_handlers k j h i ≡ (if leb j i && ltb i (j + k) then 0 else h i)
unfolding clear_handlers
clear_handlers_lem zero j h i = ground arith
clear_handlers_lem (suc k) j h i = rw (clear_handlers_lem k (j + 1) (update h j 0) i) (ground arith)

pub record AreAddresses (stubs : Stubs) : Type 0 where
  pub ignore : stubs.ignore < 2 ^ 32
  pub request_0x00 : stubs.request_0x00 < 2 ^ 32
  pub request_0x01 : stubs.request_0x01 < 2 ^ 32
  pub request_0x0c : stubs.request_0x0c < 2 ^ 32

-- the stub of each interrupt
abbrev pub stub_of : Stubs → ℕ → ℕ
stub_of stubs i =
    if i == 0x2C
    then stubs.request_0x0c
    else if i == 0x21
    then stubs.request_0x01
    else if i == 0x20
    then stubs.request_0x00
    else stubs.ignore

-- A new manager has no handlers.
pub init-handlers :
    {S : Type 0} (stubs : Stubs) (self address i : ℕ) (k : Kernel S)
    → i < 256
    → (init stubs self address k).interrupts.handler self i ≡ 0
unfolding init
init-handlers stubs self address i k h =
    rw (==_refl self, clear_handlers_lem 256 0 (k.interrupts.handler self) i) (ground arith)

-- With stubs at 32-bit addresses, a new manager has a present gate of the kernel's code segment
-- and privilege for each of the 256 interrupts, which leads to the timer's, keyboard's or mouse's
-- stub or else to the one that ignores it; it has no handlers, and those of other managers stay.
pub init-gates :
    {S : Type 0} (stubs : Stubs) (self address : ℕ) (k : Kernel S)
    → AreAddresses stubs
    → let out = (init stubs self address k).interrupts in
      ((i : ℕ) → i < 256 → gate_at i out.table ≡ kernel_gate (stub_of stubs i))
      × ((i : ℕ) → i < 256 → out.handler self i ≡ 0)
      × ((other i : ℕ) → other ≢ self → out.handler other i ≡ k.interrupts.handler other i)
unfolding init fill_table
init-gates stubs self address k a = (
  λ i h.
      rw
        (
          set_entry-kernel 0x2C stubs.request_0x0c _ i a.request_0x0c,
          set_entry-kernel 0x21 stubs.request_0x01 _ i a.request_0x01,
          set_entry-kernel 0x20 stubs.request_0x00 _ i a.request_0x00,
          ignore_all_lem stubs 256 0 k.interrupts.table i a.ignore,
        )
        (ground arith),
  λ i h. init-handlers stubs self address i k h,
  λ other i ne. rw (==_ne other self ne) refl,
)
