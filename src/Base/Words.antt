-- ===== src/Base/Words.antt =====
-- The fixed widths of C, and the masks that the kernel writes, each as arithmetic.
use Prim.Native.Nat.{ℕ, ◌+◌, ◌-◌, ◌*◌, ◌/◌, ◌%◌, ◌^◌, bit_and}
use mathlib.Core.Path.{◌≡◌}
use mathlib.Core.Bool.{Bool}
use blue_os.Base.Tests.{ltb, if◌then◌else◌}
use blue_os.Base.Bits.{bit_and-low, bit_and-field}

abbrev pub u8 : ℕ → ℕ
u8 n = n % 2 ^ 8

abbrev pub u16 : ℕ → ℕ
u16 n = n % 2 ^ 16

abbrev pub u32 : ℕ → ℕ
u32 n = n % 2 ^ 32

abbrev pub u64 : ℕ → ℕ
u64 n = n % 2 ^ 64

-- `a - b` on `uint32_t`
abbrev pub sub32 : ℕ → ℕ → ℕ
sub32 a b = (a + 2 ^ 32 - b) % 2 ^ 32

-- `a + b` on 32 bits, and `a < b` on `int32_t`, by their bit patterns
abbrev pub add32 : ℕ → ℕ → ℕ
add32 a b = (a + b) % 2 ^ 32

abbrev pub lts32 : ℕ → ℕ → Bool
lts32 a b = ltb ((a + 2 ^ 31) % 2 ^ 32) ((b + 2 ^ 31) % 2 ^ 32)

-- `a / k` on `int32_t`, by bit patterns, for a divisor `k` above 0: it rounds towards 0
abbrev pub divs32 : ℕ → ℕ → ℕ
divs32 a k = if ltb a (2 ^ 31) then a / k else (2 ^ 32 - (2 ^ 32 - a) / k) % 2 ^ 32

infixl 75 ◌<<<◌ ◌>>>◌
abbrev pub ◌<<<◌ : ℕ → ℕ → ℕ
x <<< k = x * 2 ^ k

abbrev pub ◌>>>◌ : ℕ → ℕ → ℕ
x >>> k = x / 2 ^ k

pub and_0x0f : (a : ℕ) → bit_and a 0x0f ≡ a % 16
and_0x0f a = bit_and-low 4 a

pub and_0xff : (a : ℕ) → bit_and a 0xff ≡ a % 256
and_0xff a = bit_and-low 8 a

pub and_0xffff : (a : ℕ) → bit_and a 0xffff ≡ a % 65536
and_0xffff a = bit_and-low 16 a

pub and_0xf0 : (a : ℕ) → bit_and a 0xf0 ≡ a / 16 % 16 * 16
and_0xf0 a = bit_and-field 4 4 a

pub and_0xff00 : (a : ℕ) → bit_and a 0xff00 ≡ a / 256 % 256 * 256
and_0xff00 a = bit_and-field 8 8 a

pub and_0x80 : (a : ℕ) → bit_and a 0x80 ≡ a / 128 % 2 * 128
and_0x80 a = bit_and-field 7 1 a

pub and_0x01 : (a : ℕ) → bit_and a 0x01 ≡ a % 2
and_0x01 a = bit_and-low 1 a
