-- ===== src/Gdt/Fields.antt =====
-- What the processor reads from an entry of the descriptor table of gdt.cpp.
use blue_os.Base.{
  ℕ, ◌+◌, ◌-◌, ◌*◌, ◌/◌, ◌%◌, ◌^◌, ◌<◌, ◌≤◌, ◌≡◌, ◌≢◌, refl, some, bit_and, bit_or, arith, ==_refl,
  ==_ne, ap, ◌∙◌,
}
use blue_os.Base.Bits.{bit_or_comm, bit_or-fields}
use blue_os.Base.Words.{u8, u16, u32, and_0xff, and_0xffff, and_0x0f, and_0xf0, ◌>>>◌}
use blue_os.Gdt.{gdt_entry_size, Gdt, set_gdt_entry, init_gdt}

-- A segment descriptor: the base, the limit of 20 bits, the access byte and the four flags.
pub record Segment : Type 0 where
  pub base : ℕ
  pub limit : ℕ
  pub access : ℕ
  pub flags : ℕ

abbrev segment : (base limit access flags : ℕ) → Segment
segment base limit access flags = record {
  base = base;
  limit = limit;
  access = access;
  flags = flags;
}

Segment-equal :
    {b b' l l' a f f' : ℕ} → b ≡ b' → l ≡ l' → f ≡ f' → segment b l a f ≡ segment b' l' a f'
Segment-equal {b} {b'} {l} {l'} {a} {f} {f'} p q r =
    ap (λ (v : ℕ). segment v l a f) p
    ∙ ap (λ (v : ℕ). segment b' v a f) q
    ∙ ap (λ (v : ℕ). segment b' l' a v) r

-- the descriptor's fields put together, as the processor does it
unfoldable pub segment_at : ℕ → Gdt → Segment
segment_at i s = record {
  base = (s.gdt i).base_high * 2 ^ 24 + (s.gdt i).base_middle * 2 ^ 16 + (s.gdt i).base_low;
  limit = (s.gdt i).granularity % 16 * 2 ^ 16 + (s.gdt i).limit_low;
  access = (s.gdt i).access;
  flags = (s.gdt i).granularity / 16;
}

base_lem :
    (base : ℕ)
    → u8 (bit_and (base >>> 24) 0xFF) * 2 ^ 24
        + u8 (bit_and (base >>> 16) 0xFF) * 2 ^ 16
        + u16 (bit_and base 0xFFFF)
      ≡ u32 base
base_lem base = rw (and_0xff (base >>> 24), and_0xff (base >>> 16), and_0xffff base) (omega arith)

granularity_lem :
    (limit granularity : ℕ)
    → u8 (bit_or (u8 (bit_and (limit >>> 16) 0x0F)) (bit_and granularity 0xF0))
      ≡ granularity / 16 % 16 * 16 + limit / 2 ^ 16 % 16
granularity_lem limit granularity =
    let high : ℕ = granularity / 16 % 16 in
    let low : ℕ = limit / 2 ^ 16 % 16 in
    let small : u8 low ≡ low = omega arith in
    rw
      (
        and_0x0f (limit >>> 16),
        and_0xf0 granularity,
        small,
        bit_or_comm low (high * 2 ^ 4),
        bit_or-fields 4 high low (omega arith),
      )
      (omega arith)

-- An entry that is set reads as the base, the lower 20 bits of the limit, the access byte and the
-- upper four bits of the granularity; the other entries stay.
set_gdt_entry-segment_at :
    (num base limit access granularity : ℕ) (s : Gdt)
    → base < 2 ^ 32
    → let t = set_gdt_entry num base limit access granularity s in
      (segment_at num t ≡ record {
        base = base;
        limit = limit % 2 ^ 20;
        access = access;
        flags = granularity / 16 % 16;
      })
      × ((i : ℕ) → i ≢ num → segment_at i t ≡ segment_at i s)
unfolding set_gdt_entry segment_at
set_gdt_entry-segment_at num base limit access granularity s h =
    let g = granularity_lem limit granularity in
    (
      rw (==_refl num, g, base_lem base, and_0xffff limit)
          (Segment-equal (omega arith) (omega arith) (omega arith)),
      λ i ne. rw (==_ne i num ne) refl,
    )

abbrev pub flat : ℕ → Segment
flat access = record { base = 0; limit = 2 ^ 20 - 1; access = access; flags = 0xC }

-- `init_gdt` loads a descriptor of the five entries at the table's address: a null segment, and
-- four segments from 0 whose limit is 2^20 - 1 pages, kernel code and data and user code and data
-- by their access bytes. The entries behind them stay.
pub init_gdt-segments :
    (address : ℕ) (s : Gdt)
    → address < 2 ^ 32
    → let t = init_gdt address s in
      (t.loaded ≡ some (record { limit = 5 * gdt_entry_size - 1; base = address }))
      × (segment_at 0 t ≡ record { base = 0; limit = 0; access = 0; flags = 0 })
      × (segment_at 1 t ≡ flat 0x9A)
      × (segment_at 2 t ≡ flat 0x92)
      × (segment_at 3 t ≡ flat 0xFA)
      × (segment_at 4 t ≡ flat 0xF2)
      × ((i : ℕ) → 5 ≤ i → segment_at i t ≡ segment_at i s)
unfolding init_gdt segment_at
init_gdt-segments address s h = (
  ap (λ (b : ℕ). some (record { limit = 39; base = b })) (omega arith),
  refl,
  refl,
  refl,
  refl,
  refl,
  λ i l. ground arith,
)
