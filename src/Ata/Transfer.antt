-- ===== src/Ata/Transfer.antt =====
-- The words that `write28` and `read28` of ata.cpp transfer for one sector.
use blue_os.Base.{
  ℕ, zero, suc, ◌+◌, ◌-◌, ◌*◌, ◌/◌, ◌%◌, ◌^◌, ◌<◌, ◌≤◌, ◌≡◌, refl, sym, ap, ◌∙◌, Bool, false, List,
  [], ◌∷◌, ◌++◌, arith, ◌==◌, le→ltb, ==_ne, replicate, append_assoc,
}
use blue_os.Base.Bits.{bit_or-fields, bit_or_comm}
use blue_os.Base.Words.{u16}
use blue_os.Ports.{PortEvent, written, Io, say, last_written, sent, last_written-sent}
use blue_os.Ata.{Ata, init, pair_word, write_bytes, fill, write28, command28, writing_text}
use blue_os.Ata.Command.{Addresses, command28-Addresses}

-- the words of a buffer, from byte `i` on, and a row of zeros
unfoldable words : (ℕ → ℕ) → (i left : ℕ) → List ℕ
words bytes i zero = []
words bytes i (suc zero) = u16 (bytes i) ∷ []
words bytes i (suc (suc left)) =
    u16 (pair_word (bytes i) (bytes (i + 1))) ∷ words bytes (i + 2) left

unfoldable zero_words : ℕ → List ℕ
zero_words zero = []
zero_words (suc zero) = 0 ∷ []
zero_words (suc (suc left)) = 0 ∷ zero_words left

-- words as bytes, the low byte first
unfoldable pub unpack : List ℕ → List ℕ
unpack [] = []
unpack (w ∷ ws) = w % 256 ∷ w / 256 ∷ unpack ws

-- `n` bytes of a buffer, from byte `i` on
unfoldable pub taken : (ℕ → ℕ) → (i n : ℕ) → List ℕ
taken bytes i zero = []
taken bytes i (suc n) = bytes i ∷ taken bytes (i + 1) n

abbrev pub zeros : ℕ → List ℕ
zeros n = replicate n 0

say-trace : (cs : List ℕ) (io : Io) → (say cs io).trace ≡ io.trace
unfolding say
say-trace cs io = refl

sent-append :
    (p : ℕ) (ws vs : List ℕ) (es : List PortEvent) → sent p (ws ++ vs) es ≡ sent p vs (sent p ws es)
unfolding sent
sent-append p [] vs es = refl
sent-append p (w ∷ ws) vs es = sent-append p ws vs (written 16 p w ∷ es)

write_bytes-sent :
    (ata : Ata) (bytes : ℕ → ℕ) (i left : ℕ) (io : Io)
    → (write_bytes ata bytes i left io).trace ≡ sent ata.data_port (words bytes i left) io.trace
unfolding write_bytes words sent say
write_bytes-sent ata bytes i zero io = refl
write_bytes-sent ata bytes i (suc zero) io = refl
write_bytes-sent ata bytes i (suc (suc left)) io = write_bytes-sent ata bytes (i + 2) left _

fill-sent :
    (ata : Ata) (left : ℕ) (io : Io)
    → (fill ata left io).trace ≡ sent ata.data_port (zero_words left) io.trace
unfolding fill zero_words sent
fill-sent ata zero io = refl
fill-sent ata (suc zero) io = refl
fill-sent ata (suc (suc left)) io = fill-sent ata left _

unpack-append : (ws vs : List ℕ) → unpack (ws ++ vs) ≡ unpack ws ++ unpack vs
unfolding unpack
unpack-append [] vs = refl
unpack-append (w ∷ ws) vs = ap (λ l. w % 256 ∷ w / 256 ∷ l) (unpack-append ws vs)

pair_word_lem :
    (low high : ℕ) → low < 256 → high < 256 → u16 (pair_word low high) ≡ high * 256 + low
unfolding pair_word
pair_word_lem low high a b =
    rw (bit_or_comm low (high * 2 ^ 8), bit_or-fields 8 high low (omega arith)) (omega arith)

-- A buffer of bytes is sent in order, with a zero byte behind an odd number of them.
unpack-words :
    (bytes : ℕ → ℕ)
    → ((j : ℕ) → bytes j < 256)
    → (i left : ℕ) → unpack (words bytes i left) ≡ taken bytes i left ++ zeros (left % 2)
unfolding unpack words taken
unpack-words bytes small i zero = refl
unpack-words bytes small i (suc zero) =
    let here = small i in
    rw
      (
        (let e : u16 (bytes i) % 256 ≡ bytes i = omega arith in e),
        (let e : u16 (bytes i) / 256 ≡ 0 = omega arith in e),
      )
      refl
unpack-words bytes small i (suc (suc left)) =
    let rest = unpack-words bytes small (i + 2) left in
    let at : i + 1 + 1 ≡ i + 2 = omega arith in
    let parity : suc (suc left) % 2 ≡ left % 2 = omega arith in
    let value = pair_word_lem (bytes i) (bytes (i + 1)) (small i) (small (i + 1)) in
    let low : u16 (pair_word (bytes i) (bytes (i + 1))) % 256 ≡ bytes i =
      omega (arith, value, small i) in
    let high : u16 (pair_word (bytes i) (bytes (i + 1))) / 256 ≡ bytes (i + 1) =
      omega (arith, value, small i) in
    rw (low, high, rest, at, parity) refl

unpack-zero_words : (k : ℕ) → unpack (zero_words (2 * k)) ≡ zeros (2 * k)
unfolding unpack zero_words
unpack-zero_words zero = refl
unpack-zero_words (suc k) =
    let e : 2 * suc k ≡ suc (suc (2 * k)) = omega arith in rw (e, unpack-zero_words k) refl

zeros-append : (m n : ℕ) → zeros m ++ zeros n ≡ zeros (m + n)
zeros-append zero n = ap (λ (k : ℕ). replicate k 0) (omega arith)
zeros-append (suc m) n =
    let e : suc m + n ≡ suc (m + n) = omega arith in rw e (ap (λ l. 0 ∷ l) (zeros-append m n))

-- The words of a whole sector: the buffer and zeros behind it.
abbrev sector_words : (ℕ → ℕ) → ℕ → List ℕ
sector_words bytes count = words bytes 0 count ++ zero_words (512 - (count + count % 2))

unpack-sector_words :
    (bytes : ℕ → ℕ) (count : ℕ)
    → ((j : ℕ) → bytes j < 256)
    → count ≤ 512
    → unpack (sector_words bytes count) ≡ taken bytes 0 count ++ zeros (512 - count)
unpack-sector_words bytes count small h =
    let k : ℕ = (512 - (count + count % 2)) / 2 in
    let even : 512 - (count + count % 2) ≡ 2 * k = omega arith in
    let total : count % 2 + 2 * k ≡ 512 - count = omega arith in
    unpack-append (words bytes 0 count) (zero_words (512 - (count + count % 2)))
    ∙ ap (λ l. l ++ unpack (zero_words (512 - (count + count % 2))))
        (unpack-words bytes small 0 count)
    ∙ ap (λ (m : ℕ). (taken bytes 0 count ++ zeros (count % 2)) ++ unpack (zero_words m)) even
    ∙ ap (λ l. (taken bytes 0 count ++ zeros (count % 2)) ++ l) (unpack-zero_words k)
    ∙ append_assoc (taken bytes 0 count) (zeros (count % 2)) (zeros (2 * k))
    ∙ ap (λ l. taken bytes 0 count ++ l) (zeros-append (count % 2) (2 * k))
    ∙ ap (λ (m : ℕ). taken bytes 0 count ++ zeros m) total

write28-sent :
    (ata : Ata) (sector : ℕ) (bytes : ℕ → ℕ) (count : ℕ) (io : Io)
    → sector ≤ 0x0FFFFFFF
    → count ≤ 512
    → (write28 ata sector bytes count io).trace
      ≡ sent ata.data_port (sector_words bytes count) (command28 ata 0x30 sector io).trace
unfolding write28
write28-sent ata sector bytes count io a b =
    rw (le→ltb 0x0FFFFFFF sector a, le→ltb 512 count b)
      (fill-sent ata (512 - (count + count % 2)) _
        ∙ ap (sent ata.data_port (zero_words (512 - (count + count % 2)))) (
            write_bytes-sent ata bytes 0 count _
            ∙ ap (sent ata.data_port (words bytes 0 count)) (say-trace writing_text _))
        ∙ sym (sent-append ata.data_port (words bytes 0 count) _ _))

data_apart :
    (master : Bool) (base : ℕ)
    → base + 0x206 < 2 ^ 16
    → (k : ℕ) → 0 < k
    → k < 8
    → (u16 base == u16 (base + k)) ≡ false
data_apart master base h k p q = ==_ne (u16 base) (u16 (base + k)) (omega arith)

-- `write28` of at most 512 bytes to a sector below 2^28, on a channel whose ports end below 2^16,
-- leaves the drive's registers with the drive, the sector number and the WRITE command, and then
-- sends words that are, as bytes, the buffer's bytes in order and zeros up to 512.
pub write28-sector :
    (master : Bool) (base sector : ℕ) (bytes : ℕ → ℕ) (count : ℕ) (io : Io)
    → base + 0x206 < 2 ^ 16
    → sector ≤ 0x0FFFFFFF
    → count ≤ 512
    → ((j : ℕ) → bytes j < 256)
    → let ata = init master base in
      let out = write28 ata sector bytes count io in
      Addresses ata 0x30 sector out
      × ((ws : List ℕ) × (out.trace ≡ sent ata.data_port ws (command28 ata 0x30 sector io).trace)
          × (unpack ws ≡ taken bytes 0 count ++ zeros (512 - count)))
write28-sector master base sector bytes count io apart low few small =
    let ata : Ata = init master base in
    let out : Io = write28 ata sector bytes count io in
    let start : Io = command28 ata 0x30 sector io in
    let ws : List ℕ = sector_words bytes count in
    let e : out.trace ≡ sent ata.data_port ws start.trace =
      write28-sent ata sector bytes count io low few in
    let a = command28-Addresses master base 0x30 sector io apart (omega arith) low in
    let keep : (k : ℕ)
        → 0 < k
        → k < 8
        → last_written (u16 (base + k)) out.trace ≡ last_written (u16 (base + k)) start.trace =
      λ k p q.
        ap (last_written (u16 (base + k))) e
        ∙ last_written-sent (u16 (base + k)) (u16 base) ws start.trace
            (data_apart master base apart k p q) in
    (
      record {
        device = a.device;
        low = a.low;
        mid = a.mid;
        high = a.high;
        to_device = keep 6 (omega arith) (omega arith) ∙ a.to_device;
        to_low = keep 3 (omega arith) (omega arith) ∙ a.to_low;
        to_mid = keep 4 (omega arith) (omega arith) ∙ a.to_mid;
        to_high = keep 5 (omega arith) (omega arith) ∙ a.to_high;
        to_count = keep 2 (omega arith) (omega arith) ∙ a.to_count;
        to_command = keep 7 (omega arith) (omega arith) ∙ a.to_command;
        drive = a.drive;
        whole = a.whole;
      },
      (ws, e, unpack-sector_words bytes count small few),
    )
