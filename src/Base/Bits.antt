-- ===== src/Base/Bits.antt =====
-- The masks and disjoint fields of the kernel's words, as arithmetic: `x & (2^k - 1)` is a
-- remainder, `x & (m << k)` masks the upper part, and `(q << k) | r` is a sum when `r` fits.
use Prim.Native.Nat.{
  ℕ, zero, suc, ◌+◌, ◌-◌, ◌*◌, ◌/◌, ◌%◌, ◌^◌, ◌≤◌, ◌<◌, min, max, bit_and, bit_or, digits,
  bit_and-bitwise, bit_or-bitwise,
}
use mathlib.Core.Path.{◌≡◌, refl, sym, ap, ◌∙◌}
use native.Mathlib.Nat.{
  pow-suc, pow-succ', one-le-pow, mul-one, div-one, div-div-eq-div-mul, div-add-mod, mod-lt,
}
use native.Mathlib.Omega.{arith}

-- The digit recursion does not depend on its count, as long as that is enough.
digits-eq :
    (z : ℕ → ℕ) (f : ℕ → ℕ → ℕ) (x b k l : ℕ) → x ≤ k → x ≤ l → digits z f k x b ≡ digits z f l x b
digits-eq z f zero b zero zero hk hl = refl
digits-eq z f zero b zero (suc l) hk hl = refl
digits-eq z f zero b (suc k) zero hk hl = refl
digits-eq z f zero b (suc k) (suc l) hk hl = refl
digits-eq z f (suc x) b zero l hk hl = absurd (omega arith)
digits-eq z f (suc x) b (suc k) zero hk hl = absurd (omega arith)
digits-eq z f (suc x) b (suc k) (suc l) hk hl =
    ap (λ (d : ℕ). d * 2 + f (suc x % 2) (b % 2))
      (digits-eq z f (suc x / 2) (b / 2) k l (omega arith) (omega arith))

-- One equation for the lowest digit.
and_digit : (a b : ℕ) → bit_and a b ≡ bit_and (a / 2) (b / 2) * 2 + min (a % 2) (b % 2)
and_digit zero b = omega (arith, bit_and-bitwise 0 b, bit_and-bitwise 0 (b / 2))
and_digit (suc a) b = omega (
  arith,
  bit_and-bitwise (suc a) b,
  bit_and-bitwise (suc a / 2) (b / 2),
  digits-eq (λ _. zero) min (suc a / 2) (b / 2) a (suc a / 2) (omega arith) (omega arith),
)

or_digit : (a b : ℕ) → bit_or a b ≡ bit_or (a / 2) (b / 2) * 2 + max (a % 2) (b % 2)
or_digit zero b = omega (arith, bit_or-bitwise 0 b, bit_or-bitwise 0 (b / 2))
or_digit (suc a) b = omega (
  arith,
  bit_or-bitwise (suc a) b,
  bit_or-bitwise (suc a / 2) (b / 2),
  digits-eq (λ y. y) max (suc a / 2) (b / 2) a (suc a / 2) (omega arith) (omega arith),
)

pub zero-bit_and : (b : ℕ) → bit_and 0 b ≡ 0
zero-bit_and b = bit_and-bitwise 0 b

pub zero-bit_or : (b : ℕ) → bit_or 0 b ≡ b
zero-bit_or b = bit_or-bitwise 0 b

-- A bound on the first number bounds the rounds that halve it away.
and_zero_upto : (k a : ℕ) → a ≤ k → bit_and a 0 ≡ 0
and_zero_upto zero a h = let e : a ≡ 0 = omega arith in rw e (zero-bit_and 0)
and_zero_upto (suc k) zero h = zero-bit_and 0
and_zero_upto (suc k) (suc a) h =
    omega (arith, and_digit (suc a) 0, and_zero_upto k (suc a / 2) (omega arith))

or_zero_upto : (k a : ℕ) → a ≤ k → bit_or a 0 ≡ a
or_zero_upto zero a h = let e : a ≡ 0 = omega arith in rw e (zero-bit_or 0)
or_zero_upto (suc k) zero h = zero-bit_or 0
or_zero_upto (suc k) (suc a) h =
    omega (arith, or_digit (suc a) 0, or_zero_upto k (suc a / 2) (omega arith))

pub bit_and-zero : (a : ℕ) → bit_and a 0 ≡ 0
bit_and-zero a = and_zero_upto a a (omega arith)

pub bit_or-zero : (a : ℕ) → bit_or a 0 ≡ a
bit_or-zero a = or_zero_upto a a (omega arith)

-- `a & (2^k - 1)`
and_low_at : (k q r : ℕ) → r < 2 ^ k → bit_and (2 ^ k * q + r) (2 ^ k - 1) ≡ r
and_low_at zero q r h = omega (arith, bit_and-zero (2 ^ 0 * q + r))
and_low_at (suc k) q r h =
    let twice : 2 ^ suc k * q ≡ 2 * (2 ^ k * q) =
      omega (arith, ap (λ (t : ℕ). t * q) (pow-suc 2 k)) in
    ground (
      arith,
      and_digit (2 ^ suc k * q + r) (2 ^ suc k - 1),
      pow-suc 2 k,
      twice,
      one-le-pow k 2,
      and_low_at k q (r / 2) (omega (arith, pow-suc 2 k)),
    )

-- `a & (m << k)` is `((a >> k) & m) << k`.
pub bit_and-shift : (k a m : ℕ) → bit_and a (m * 2 ^ k) ≡ bit_and (a / 2 ^ k) m * 2 ^ k
bit_and-shift zero a m = rw (mul-one m, div-one a) (omega arith)
bit_and-shift (suc k) a m =
    let twice : m * 2 ^ suc k ≡ 2 * (m * 2 ^ k) =
      omega (arith, ap (λ (t : ℕ). m * t) (pow-suc 2 k)) in
    let drop_one : a / 2 ^ suc k ≡ a / 2 / 2 ^ k =
      ap (λ (t : ℕ). a / t) (pow-succ' 2 k) ∙ sym (div-div-eq-div-mul a 2 (2 ^ k)) in
    let half : m * 2 ^ suc k / 2 ≡ m * 2 ^ k = omega arith in
    let even : m * 2 ^ suc k % 2 ≡ 0 = omega arith in
    let tail : bit_and (a / 2) (m * 2 ^ suc k / 2) ≡ bit_and (a / 2 ^ suc k) m * 2 ^ k =
      ap (bit_and (a / 2)) half
      ∙ bit_and-shift k (a / 2) m
      ∙ ap (λ (t : ℕ). bit_and t m * 2 ^ k) (sym drop_one) in
    let grow : bit_and (a / 2 ^ suc k) m * 2 ^ suc k ≡ 2 * (bit_and (a / 2 ^ suc k) m * 2 ^ k) =
      omega (arith, ap (λ (t : ℕ). bit_and (a / 2 ^ suc k) m * t) (pow-suc 2 k)) in
    omega (arith, and_digit a (m * 2 ^ suc k), tail, grow, even)

-- `(q << k) | r`
pub bit_or-fields : (k q r : ℕ) → r < 2 ^ k → bit_or (q * 2 ^ k) r ≡ q * 2 ^ k + r
bit_or-fields zero q r h = omega (arith, bit_or-zero (q * 2 ^ 0), ap (bit_or (q * 2 ^ 0)) (h0 r h))
  where
    h0 : (r : ℕ) → r < 2 ^ 0 → r ≡ 0
    h0 r h = omega arith
bit_or-fields (suc k) q r h =
    let twice : q * 2 ^ suc k ≡ 2 * (q * 2 ^ k) =
      omega (arith, ap (λ (t : ℕ). q * t) (pow-suc 2 k)) in
    ground (
      arith,
      or_digit (q * 2 ^ suc k) r,
      twice,
      bit_or-fields k q (r / 2) (omega (arith, pow-suc 2 k)),
    )

or_comm_upto : (k a b : ℕ) → a ≤ k → bit_or a b ≡ bit_or b a
or_comm_upto zero a b h = let e : a ≡ 0 = omega arith in rw (e, zero-bit_or b, bit_or-zero b) refl
or_comm_upto (suc k) zero b h = rw (zero-bit_or b, bit_or-zero b) refl
or_comm_upto (suc k) (suc a) b h = ground (
  arith,
  or_digit (suc a) b,
  or_digit b (suc a),
  or_comm_upto k (suc a / 2) (b / 2) (omega arith),
)

pub bit_or_comm : (a b : ℕ) → bit_or a b ≡ bit_or b a
bit_or_comm a b = or_comm_upto a a b (omega arith)

pub bit_and-low : (k a : ℕ) → bit_and a (2 ^ k - 1) ≡ a % 2 ^ k
bit_and-low k a =
    let pos : 0 < 2 ^ k = one-le-pow k 2 (omega arith) in
    ap (λ (t : ℕ). bit_and t (2 ^ k - 1)) (sym (div-add-mod a (2 ^ k)))
    ∙ and_low_at k (a / 2 ^ k) (a % 2 ^ k) (mod-lt a pos)

-- `a & (((1 << n) - 1) << k)`: the field of `n` bits at position `k`, in its place.
pub bit_and-field : (k n a : ℕ) → bit_and a ((2 ^ n - 1) * 2 ^ k) ≡ a / 2 ^ k % 2 ^ n * 2 ^ k
bit_and-field k n a =
    bit_and-shift k a (2 ^ n - 1) ∙ ap (λ (t : ℕ). t * 2 ^ k) (bit_and-low n (a / 2 ^ k))
