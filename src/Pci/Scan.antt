-- ===== src/Pci/Scan.antt =====
-- What the scan of pci.cpp prints, against a listing that is read off a configuration space.
use blue_os.Base.{
  joined, ℕ, zero, suc, ◌+◌, ◌/◌, ◌%◌, ◌^◌, ◌<◌, ◌≤◌, ◌≡◌, inl, inr, refl, sym, ap, ◌∙◌, not, ◌&&◌,
  ◌||◌, List, [], arith, bit_and, ◌==◌, Bool-cases, if◌then◌else◌,
}
use blue_os.Base.Words.{and_0x80}
use blue_os.Screen.{print}
use blue_os.Screen.Strings.{AllNonzero, print-append, joined-AllNonzero, concat-AllNonzero}
use blue_os.Ports.{Device, Io}
use blue_os.Pci.{
  LeftOver, DeviceDescriptor, config_id, read, has_functions, get_device_descriptor,
  get_base_address_register, scan_bars, is_input_output, scan_function, scan_functions,
  scan_devices, scan_buses, select_drivers,
}
use blue_os.Pci.Descriptor.{
  Serves, AreWords, read-Serves, get_device_descriptor-Serves, descriptor-screen,
}
use blue_os.Pci.Line.{parts, line, parts-AreAllNonzero, report-line}

module _ (space : ℕ → ℕ) where
  -- A function is there when its vendor is neither 0x0000 nor 0xFFFF.
  abbrev pub listed : (bus device function : ℕ) → List ℕ
  listed bus device function =
      let word : ℕ = space (config_id bus device function 0) in
      let vendor : ℕ = word % 2 ^ 16 in
      if vendor == 0x0000 || vendor == 0xFFFF
      then []
      else line bus device function vendor (word / 2 ^ 16)

  -- A device has eight functions or one, by bit 23 of the word at 0x0C.
  abbrev pub functions_of : (bus device : ℕ) → ℕ
  functions_of bus device = if space (config_id bus device 0 0x0C) / 2 ^ 23 % 2 == 0 then 1 else 8

  -- the listing of the first `k` functions from `i` on, of devices, and of buses
  abbrev pub listing : List ℕ
  listing = joined 8 0 (λ bus.
      joined 32 0
        (λ device. joined (functions_of bus device) 0 (λ function. listed bus device function)))

base_address_register-screen :
    (dev : Device) (left_over : LeftOver) (bus device function bar_num : ℕ) (io : Io)
    → (get_base_address_register dev left_over bus device function bar_num io).1.screen ≡ io.screen
unfolding get_base_address_register read
base_address_register-screen dev left_over bus device function bar_num io = ground arith

-- The loop over the registers changes nothing of the descriptor but the port, and prints nothing.
scan_bars-same :
    (dev : Device) (left_over : LeftOver) (k bar_num bus device function : ℕ) (d : DeviceDescriptor)
    (io : Io)
    → let out = scan_bars dev left_over k bar_num bus device function (d, io) in
      (out.0.vendor_id ≡ d.vendor_id) × (out.0.device_id ≡ d.device_id) × (out.1.screen ≡ io.screen)
unfolding scan_bars
scan_bars-same dev left_over zero bar_num bus device function d io = (refl, refl, refl)
scan_bars-same dev left_over (suc k) bar_num bus device function d io =
    let (bar, io1) = get_base_address_register dev left_over bus device function bar_num io in
    let d1 =
      if not (bar.address == 0) && is_input_output bar.type_
      then record d { port_base = bar.address }
      else d in
    let vendor : d1.vendor_id ≡ d.vendor_id = ground arith in
    let id : d1.device_id ≡ d.device_id = ground arith in
    let (v, i, s) = scan_bars-same dev left_over k (bar_num + 1) bus device function d1 io1 in
    (
      v ∙ vendor,
      i ∙ id,
      s ∙ base_address_register-screen dev left_over bus device function bar_num io,
    )

many_functions :
    (w : ℕ)
    → (let n : ℕ = if not (bit_and (w / 2 ^ 16) 0x80 == 0) then 8 else 1 in n)
      ≡ (if w / 2 ^ 23 % 2 == 0 then 1 else 8)
many_functions w =
    let bits = and_0x80 (w / 2 ^ 16) in
    let same : w / 2 ^ 16 / 128 % 2 ≡ w / 2 ^ 23 % 2 = omega arith in rw (bits, same) (ground arith)

module _ (dev : Device) (left_over : LeftOver) (space : ℕ → ℕ) (serves : Serves dev space)
    (words : AreWords space) where
  scan_function-listed :
      (bus device function : ℕ) (io : Io)
      → bus < 8
      → device < 32
      → function < 8
      → (scan_function dev left_over bus device function io).screen
        ≡ print (listed space bus device function) io.screen
  unfolding scan_function
  scan_function-listed bus device function io hb hd hf =
      let (d, io1) = get_device_descriptor dev left_over bus device function io in
      let (both, _, _, vendor) =
        get_device_descriptor-Serves dev left_over space bus device function io serves words hf in
      let word : ℕ = space (config_id bus device function 0) in
      let small = words (config_id bus device function 0) in
      let id : d.device_id ≡ word / 2 ^ 16 = omega (arith, both, vendor) in
      let (d2, io2) = scan_bars dev left_over 6 0 bus device function (d, io1) in
      let (v, i, s) = scan_bars-same dev left_over 6 0 bus device function d io1 in
      let quiet = descriptor-screen dev left_over bus device function io in
      elim (Bool-cases (word % 2 ^ 16 == 0x0000 || word % 2 ^ 16 == 0xFFFF)) [
        | inl none_there ↦ rw (vendor, none_there) (unfold print in quiet)
        | inr there ↦
            rw (vendor, there)
              (report-line bus device function d2 io2 (omega arith) (omega arith) (omega arith)
                  (omega (arith, v, vendor)) (omega (arith, i, id, small))
                ∙ ap (λ (n : ℕ). print (line bus device function n d2.device_id) io2.screen)
                    (v ∙ vendor)
                ∙ ap (λ (n : ℕ). print (line bus device function (word % 2 ^ 16) n) io2.screen)
                    (i ∙ id)
                ∙ ap (print (line bus device function (word % 2 ^ 16) (word / 2 ^ 16))) (s ∙ quiet))
      ]

  listed-AllNonzero : (bus device function : ℕ) → AllNonzero (listed space bus device function)
  listed-AllNonzero bus device function =
      let word : ℕ = space (config_id bus device function 0) in
      elim (Bool-cases (word % 2 ^ 16 == 0x0000 || word % 2 ^ 16 == 0xFFFF)) [
        | inl none_there ↦ rw none_there tt
        | inr there ↦ rw there (
            concat-AllNonzero (parts bus device function (word % 2 ^ 16) (word / 2 ^ 16))
              (parts-AreAllNonzero bus device function (word % 2 ^ 16) (word / 2 ^ 16)))
      ]

  scan_functions-listed :
      (k function bus device : ℕ) (io : Io)
      → bus < 8
      → device < 32
      → function + k ≤ 8
      → (scan_functions dev left_over k function bus device io).screen
        ≡ print (joined k function (λ f. listed space bus device f)) io.screen
  unfolding scan_functions
  scan_functions-listed zero function bus device io hb hd hf = unfold print in refl
  scan_functions-listed (suc k) function bus device io hb hd hf =
      let rest = joined k (function + 1) (λ f. listed space bus device f) in
      scan_functions-listed k (function + 1) bus device
        (scan_function dev left_over bus device function io) hb hd (omega arith)
      ∙ ap (print rest) (scan_function-listed bus device function io hb hd (omega arith))
      ∙ sym (
          print-append (listed space bus device function) rest io.screen
            (listed-AllNonzero bus device function))

  -- the lines of a device
  abbrev device_lines : (bus device : ℕ) → List ℕ
  device_lines bus device =
      joined (functions_of space bus device) 0 (λ f. listed space bus device f)

  device_lines-AllNonzero : (bus device : ℕ) → AllNonzero (device_lines bus device)
  device_lines-AllNonzero bus device =
      joined-AllNonzero (functions_of space bus device) 0 (λ f. listed space bus device f)
        (listed-AllNonzero bus device)

  has_functions-functions_of :
      (bus device : ℕ) (io : Io)
      → functions_of space bus device ≡ (if (has_functions dev bus device io).0 then 8 else 1)
  unfolding has_functions
  has_functions-functions_of bus device io =
      let header = read-Serves dev space bus device 0 0x0E io serves words (omega arith) in
      rw header (sym (many_functions (space (config_id bus device 0 0x0C))))

  scan_devices-listed :
      (k device bus : ℕ) (io : Io)
      → bus < 8
      → device + k ≤ 32
      → (scan_devices dev left_over k device bus io).screen
        ≡ print (joined k device (device_lines bus)) io.screen
  unfolding scan_devices
  scan_devices-listed zero device bus io hb hd = unfold print in refl
  scan_devices-listed (suc k) device bus io hb hd =
      let (many, io1) = has_functions dev bus device io in
      let n : ℕ = if many then 8 else 1 in
      let rest = joined k (device + 1) (device_lines bus) in
      let quiet : io1.screen ≡ io.screen = unfold has_functions read in refl in
      scan_devices-listed k (device + 1) bus (scan_functions dev left_over n 0 bus device io1) hb
        (omega arith)
      ∙ ap (print rest) (
          scan_functions-listed n 0 bus device io1 hb (omega arith) (ground arith)
          ∙ ap (λ (m : ℕ). print (joined m 0 (λ f. listed space bus device f)) io1.screen)
              (sym (has_functions-functions_of bus device io))
          ∙ ap (print (device_lines bus device)) quiet)
      ∙ sym (
          print-append (device_lines bus device) rest io.screen
            (device_lines-AllNonzero bus device))

  scan_buses-listed :
      (k bus : ℕ) (io : Io)
      → bus + k ≤ 8
      → (scan_buses dev left_over k bus io).screen
        ≡ print (joined k bus (λ b. joined 32 0 (device_lines b))) io.screen
  unfolding scan_buses
  scan_buses-listed zero bus io hb = unfold print in refl
  scan_buses-listed (suc k) bus io hb =
      let lines = λ (b : ℕ). joined 32 0 (device_lines b) in
      let rest = joined k (bus + 1) lines in
      scan_buses-listed k (bus + 1) (scan_devices dev left_over 32 0 bus io) (omega arith)
      ∙ ap (print rest) (scan_devices-listed 32 0 bus io (omega arith) (omega arith))
      ∙ sym (
          print-append (lines bus) rest io.screen
            (joined-AllNonzero 32 0 (device_lines bus) (device_lines-AllNonzero bus)))

-- On a controller that serves a configuration space of 32-bit words, `selectDrivers` prints the
-- listing of that space and no more: a line for each function, of the first 8 buses with 32 devices
-- each, that has a vendor, in order; of a device that is not marked as one of many functions, only
-- the first counts.
pub select_drivers-listing :
    (dev : Device) (left_over : LeftOver) (space : ℕ → ℕ) (io : Io)
    → Serves dev space
    → AreWords space
    → (select_drivers dev left_over io).screen ≡ print (listing space) io.screen
unfolding select_drivers
select_drivers-listing dev left_over space io serves words =
    scan_buses-listed dev left_over space serves words 8 0 io (omega arith)
