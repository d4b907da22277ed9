-- ===== src/Pci/Line.antt =====
-- The line that the scan of pci.cpp prints for a function.
use blue_os.Base.{ℕ, ◌/◌, ◌%◌, ◌^◌, ◌<◌, ◌≡◌, refl, sym, List, [], ◌∷◌, arith, bit_and}
use blue_os.Base.Words.{and_0xff, and_0xff00, ◌>>>◌}
use blue_os.Screen.{print, hex8}
use blue_os.Screen.Strings.{
  hex8-AllNonzero, all_nonzero-AllNonzero, concat, AreAllNonzero, print-concat,
}
use blue_os.Ports.{Io, say}
use blue_os.Pci.{DeviceDescriptor, bus_text, device_text, function_text, vendor_text, report}

-- the parts of the line for a function, with its vendor and its device number, and the line
abbrev pub parts : (bus device function vendor id : ℕ) → List (List ℕ)
parts bus device function vendor id =
    bus_text
    ∷ hex8 bus
    ∷ device_text
    ∷ hex8 device
    ∷ function_text
    ∷ hex8 function
    ∷ vendor_text
    ∷ hex8 (vendor / 2 ^ 8)
    ∷ hex8 (vendor % 2 ^ 8)
    ∷ device_text
    ∷ hex8 (id / 2 ^ 8)
    ∷ hex8 (id % 2 ^ 8)
    ∷ (10 ∷ [])
    ∷ []

abbrev pub line : (bus device function vendor id : ℕ) → List ℕ
line bus device function vendor id = concat (parts bus device function vendor id)

pub parts-AreAllNonzero :
    (bus device function vendor id : ℕ) → AreAllNonzero (parts bus device function vendor id)
parts-AreAllNonzero bus device function vendor id =
    let number = hex8-AllNonzero in
    let text = all_nonzero-AllNonzero in
    (
      text bus_text refl,
      (
        number bus,
        (
          text device_text refl,
          (
            number device,
            (
              text function_text refl,
              (
                number function,
                (
                  text vendor_text refl,
                  (
                    number (vendor / 2 ^ 8),
                    (
                      number (vendor % 2 ^ 8),
                      (
                        text device_text refl,
                        (number (id / 2 ^ 8), (number (id % 2 ^ 8), (text (10 ∷ []) refl, tt))),
                      ),
                    ),
                  ),
                ),
              ),
            ),
          ),
        ),
      ),
    )

byte : (n : ℕ) → n < 256 → bit_and n 0xFF ≡ n
byte n h = omega (arith, and_0xff n)

high_byte : (n : ℕ) → n < 2 ^ 16 → bit_and n 0xFF00 >>> 8 ≡ n / 2 ^ 8
high_byte n h = rw (and_0xff00 n) (omega (arith, h))

-- `report` prints the line.
pub report-line :
    (bus device function : ℕ) (d : DeviceDescriptor) (io : Io)
    → bus < 256
    → device < 256
    → function < 256
    → d.vendor_id < 2 ^ 16
    → d.device_id < 2 ^ 16
    → (report bus device function d io).screen
      ≡ print (line bus device function d.vendor_id d.device_id) io.screen
unfolding report say
report-line bus device function d io hb hd hf hv hi =
    rw
      (
        byte bus hb,
        byte device hd,
        byte function hf,
        high_byte d.vendor_id hv,
        and_0xff d.vendor_id,
        high_byte d.device_id hi,
        and_0xff d.device_id,
      )
      (sym (
        print-concat (parts bus device function d.vendor_id d.device_id) io.screen
          (parts-AreAllNonzero bus device function d.vendor_id d.device_id)))
