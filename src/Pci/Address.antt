-- ===== src/Pci/Address.antt =====
-- The addresses that pci.cpp writes for a register of the configuration space.
use blue_os.Base.{ℕ, ◌+◌, ◌*◌, ◌/◌, ◌%◌, ◌^◌, ◌<◌, ◌≡◌, sym, ap, ◌∙◌, bit_or, arith}
use blue_os.Base.Bits.{bit_and-low, bit_and-field, bit_or-fields}
use blue_os.Pci.{config_id}

-- The address of a function below 8 is made of fields that do not overlap: the enable bit, eight
-- bits of the bus, five of the device, the function, and the offset of a double word.
config_id-fields :
    (bus device function offset : ℕ)
    → function < 8
    → config_id bus device function offset
      ≡ 2 ^ 31 + bus % 256 * 2 ^ 16 + device % 32 * 2 ^ 11 + function * 2 ^ 8 + offset / 4 % 64 * 4
unfolding config_id
config_id-fields bus device function offset h =
    let b : ℕ = bus % 256 in
    let d : ℕ = device % 32 in
    let o : ℕ = offset / 4 % 64 in
    let same : function % 16 ≡ function = omega arith in
    let at_bus : 2 ^ 31 + b * 2 ^ 16 ≡ (2 ^ 15 + b) * 2 ^ 16 = omega arith in
    rw
      (
        bit_and-low 8 bus,
        bit_and-low 5 device,
        bit_and-low 4 function,
        bit_and-field 2 6 offset,
        same,
        bit_or-fields 31 1 (b * 2 ^ 16) (omega arith),
        at_bus,
        bit_or-fields 16 (2 ^ 15 + b) (d * 2 ^ 11) (omega arith),
      )
      (lower_fields (2 ^ 15 + b) d function o (omega arith) (omega arith) h)
  where
    lower_fields :
        (c d f o : ℕ)
        → d < 32
        → o < 64
        → f < 8
        → bit_or (bit_or (c * 2 ^ 16 + d * 2 ^ 11) (f * 2 ^ 8)) (o * 2 ^ 2)
          ≡ c * 2 ^ 16 + d * 2 ^ 11 + f * 2 ^ 8 + o * 4
    lower_fields c d f o hd ho hf =
        let e1 : c * 2 ^ 16 + d * 2 ^ 11 ≡ (32 * c + d) * 2 ^ 11 = omega arith in
        let e2 : (32 * c + d) * 2 ^ 11 + f * 2 ^ 8 ≡ (8 * (32 * c + d) + f) * 2 ^ 8 = omega arith in
        ap (λ (t : ℕ). bit_or (bit_or t (f * 2 ^ 8)) (o * 2 ^ 2)) e1
        ∙ ap (λ (t : ℕ). bit_or t (o * 2 ^ 2))
            (bit_or-fields 11 (32 * c + d) (f * 2 ^ 8) (omega arith) ∙ e2)
        ∙ bit_or-fields 8 (8 * (32 * c + d) + f) (o * 2 ^ 2) (omega arith)
        ∙ omega arith

-- The offset of a byte within its double word is no part of the address.
pub config_id-aligned :
    (bus device function offset : ℕ)
    → function < 8
    → config_id bus device function offset ≡ config_id bus device function (offset / 4 * 4)
config_id-aligned bus device function offset h =
    let e : offset / 4 % 64 ≡ offset / 4 * 4 / 4 % 64 = omega arith in
    config_id-fields bus device function offset h
    ∙ ap (λ (o : ℕ). 2 ^ 31 + bus % 256 * 2 ^ 16 + device % 32 * 2 ^ 11 + function * 2 ^ 8 + o * 4)
        e
    ∙ sym (config_id-fields bus device function (offset / 4 * 4) h)

pub config_id-bound :
    (bus device function offset : ℕ)
    → function < 8
    → config_id bus device function offset % 2 ^ 32 ≡ config_id bus device function offset
config_id-bound bus device function offset h =
    let e = config_id-fields bus device function offset h in omega arith
