-- ===== src/Ata/Wait.antt =====
-- The loops of ata.cpp that poll the status register, and the sector that `read28` takes.
use blue_os.Base.{
  ◌==◌, ℕ, zero, suc, ◌+◌, ◌-◌, ◌/◌, ◌%◌, ◌<◌, ◌≤◌, ◌≡◌, refl, ap, ◌∙◌, Bool, true, false, not,
  ◌&&◌, ◌||◌, some, List, ◌∷◌, arith, le→ltb, if◌then◌else◌, Bool-cases, inl, inr,
}
use blue_os.Base.Bits.{bit_and-low, bit_and-field}
use blue_os.Ports.{PortEvent, was_read, Device, Io, read8, say, drained}
use blue_os.Ata.{
  Ata, is_busy, has_error, wait, read_bytes, drain, read_data, read28, command28, reading_text,
}

-- the status and the trace after further reads of the status register
unfoldable pub poll : Device → Ata → ℕ → ℕ → Io → ℕ × Io
poll dev ata zero status io = (status, io)
poll dev ata (suc n) status io =
    let (next, io') = read8 dev ata.command_port io in poll dev ata n next io'

-- Bit 7 of a status says that the device is busy, and bit 0 that there was an error.
abbrev pub error_bit : ℕ → Bool
error_bit status = status % 2 == 1

abbrev pub settled : ℕ → Bool
settled status = status / 128 % 2 == 0 || error_bit status

pub has_error_lem : (status : ℕ) → has_error status ≡ error_bit status
unfolding has_error
has_error_lem status = ground (arith, bit_and-low 1 status)

is_busy_lem : (status : ℕ) → is_busy status ≡ not (status / 128 % 2 == 0)
unfolding is_busy
is_busy_lem status = ground (arith, bit_and-field 7 1 status)

settled_bits : (b e : Bool) → (not b && not e) ≡ not (b || e)
settled_bits true e = refl
settled_bits false true = refl
settled_bits false false = refl

settled_test : (status : ℕ) → (is_busy status && not (has_error status)) ≡ not (settled status)
settled_test status =
    rw (is_busy_lem status, has_error_lem status)
      (settled_bits (status / 128 % 2 == 0) (error_bit status))

unsettled-suc :
    (dev : Device) (ata : Ata) (k status : ℕ) (io : Io)
    → settled status ≡ false
    → (let (next, io') = read8 dev ata.command_port io in
        (j : ℕ) → j < k → settled ((poll dev ata j next io').0) ≡ false)
    → (j : ℕ) → j < suc k
    → settled ((poll dev ata j status io).0) ≡ false
unfolding poll
unsettled-suc dev ata k status io now later zero l = now
unsettled-suc dev ata k status io now later (suc j) l = later j (omega (arith, l))

-- The loop waits until the device is not busy or has an error, and no longer: if that is so after
-- `n` further reads of the status, a fuel above `n` is enough.
pub wait-settled :
    (dev : Device) (ata : Ata) (n fuel status : ℕ) (io : Io)
    → n < fuel
    → settled ((poll dev ata n status io).0) ≡ true
    → (k : ℕ) × (k ≤ n)
      × (wait dev ata fuel status io ≡ some (poll dev ata k status io))
      × (settled ((poll dev ata k status io).0) ≡ true)
      × ((j : ℕ) → j < k → settled ((poll dev ata j status io).0) ≡ false)
unfolding wait poll
wait-settled dev ata n zero status io l h = absurd (omega arith)
wait-settled dev ata zero (suc fuel) status io l h =
    (0, omega arith, rw (settled_test status, h) refl, h, λ j l. absurd (omega (arith, l)))
wait-settled dev ata (suc n) (suc fuel) status io l h = elim (Bool-cases (settled status)) [
  | inl s ↦ (0, omega arith, rw (settled_test status, s) refl, s, λ j l. absurd (omega (arith, l)))
  | inr s ↦
      (let (k, b, e, t, early) =
          wait-settled dev ata n fuel ((read8 dev ata.command_port io).0)
            ((read8 dev ata.command_port io).1) (omega arith) h in
        (
          suc k,
          omega arith,
          rw (settled_test status, s) e,
          t,
          unsettled-suc dev ata k status io s early,
        ))
]

pub say-trace : (cs : List ℕ) (io : Io) → (say cs io).trace ≡ io.trace
unfolding say
say-trace cs io = refl

drained-drained :
    (p m n : ℕ) (es : List PortEvent) → drained p n (drained p m es) ≡ drained p (m + n) es
unfolding drained
drained-drained p zero n es = let e : n ≡ 0 + n = omega arith in ap (λ (k : ℕ). drained p k es) e
drained-drained p (suc m) n es =
    let e : suc m + n ≡ suc (m + n) = omega arith in
    rw e (drained-drained p m n (was_read 16 p ∷ es))

read_bytes-drained :
    (dev : Device) (ata : Ata) (left : ℕ) (io : Io)
    → (read_bytes dev ata left io).trace ≡ drained ata.data_port ((left + 1) / 2) io.trace
unfolding read_bytes drained say
read_bytes-drained dev ata zero io = refl
read_bytes-drained dev ata (suc zero) io = refl
read_bytes-drained dev ata (suc (suc left)) io =
    let e : (suc (suc left) + 1) / 2 ≡ suc ((left + 1) / 2) = omega arith in
    rw e (read_bytes-drained dev ata left _)

drain-drained :
    (dev : Device) (ata : Ata) (left : ℕ) (io : Io)
    → (drain dev ata left io).trace ≡ drained ata.data_port ((left + 1) / 2) io.trace
unfolding drain drained
drain-drained dev ata zero io = refl
drain-drained dev ata (suc zero) io = refl
drain-drained dev ata (suc (suc left)) io =
    let e : (suc (suc left) + 1) / 2 ≡ suc ((left + 1) / 2) = omega arith in
    rw e (drain-drained dev ata left _)

read_data-drained :
    (dev : Device) (ata : Ata) (count status : ℕ) (io : Io)
    → count ≤ 512
    → (read_data dev ata count status io).trace
      ≡ (if has_error status then io.trace else drained ata.data_port 256 io.trace)
unfolding read_data
read_data-drained dev ata count status io few = elim (Bool-cases (has_error status)) [
  | inl e ↦ rw e (say-trace _ io)
  | inr e ↦ rw e (
      drain-drained dev ata (512 - (count + count % 2)) _
      ∙ ap (drained ata.data_port ((512 - (count + count % 2) + 1) / 2)) (
          read_bytes-drained dev ata count _
          ∙ ap (drained ata.data_port ((count + 1) / 2)) (say-trace reading_text io))
      ∙ drained-drained ata.data_port ((count + 1) / 2) ((512 - (count + count % 2) + 1) / 2)
          io.trace
      ∙ ap (λ (k : ℕ). drained ata.data_port k io.trace) (omega arith))
]

-- If the device, after the READ command for a sector below 2^28 and `n` further reads of its
-- status, is not busy or has an error, then `read28` returns, with a fuel above `n`: it polls at
-- most `n` times, up to the first status that is not busy or has an error and no further, and then
-- takes all 256 words of the sector, whatever count up to 512 is asked for, or none of them if that
-- status has the error bit.
pub read28-sector :
    (dev : Device) (ata : Ata) (n fuel sector count : ℕ) (io : Io)
    → sector ≤ 0x0FFFFFFF
    → count ≤ 512
    → n < fuel
    → let (status, start) = read8 dev ata.command_port (command28 ata 0x20 sector io) in
      settled ((poll dev ata n status start).0) ≡ true
      → (k : ℕ) × (k ≤ n)
        × (settled ((poll dev ata k status start).0) ≡ true)
        × ((j : ℕ) → j < k → settled ((poll dev ata j status start).0) ≡ false)
        × ((out : Io) × (read28 dev ata fuel sector count io ≡ some out)
            × (let (ready, io2) = poll dev ata k status start in
                out.trace
                ≡ (if error_bit ready then io2.trace else drained ata.data_port 256 io2.trace)))
unfolding read28
read28-sector dev ata n fuel sector count io low few l h =
    let start = read8 dev ata.command_port (command28 ata 0x20 sector io) in
    let (k, b, e, t, early) = wait-settled dev ata n fuel start.0 start.1 l h in
    let done = poll dev ata k start.0 start.1 in
    (
      k,
      b,
      t,
      early,
      (
        read_data dev ata count done.0 done.1,
        rw (le→ltb 0x0FFFFFFF sector low, e) refl,
        rw (← has_error_lem done.0) (read_data-drained dev ata count done.0 done.1 few),
      ),
    )
