-- ===== src/Base/Bits.antt =====
-- Bit operations on words: the single bits of `&`, `|` and `~`, and masks as arithmetic.
pub mod Half
use Half.{bit_or-half, bit_or-mod_two, bit_and-half, bit_and-mod_two}
use mars_os.Base.Tests.{◌==◌, if◌then◌else◌, u32_max}
use Prim.Native.Nat.{
  ℕ, zero, suc, ◌+◌, ◌-◌, ◌*◌, ◌/◌, ◌%◌, ◌^◌, ◌<◌, ◌≤◌, bit_and, bit_or, bit_and-bitwise,
}
use mathlib.Core.Path.{◌≡◌, refl, sym, ap}
use mathlib.Core.Logic.{◌≢◌}
use mathlib.Core.Bool.{Bool, true, false, not, ◌&&◌, ◌||◌}
use native.Mathlib.Omega.{arith}
use native.Mathlib.Nat.{pow-suc, one-le-pow, div-div-eq-div-mul}

-- Bit `k` of a number.
pub bit : ℕ → ℕ → Bool
bit a zero = a % 2 == 1
bit a (suc k) = bit (a / 2) k

-- `~x` on 32 bits.
abbrev pub not32 : ℕ → ℕ
not32 x = u32_max - x

pub bit-bit_or : (a b k : ℕ) → bit (bit_or a b) k ≡ (bit a k || bit b k)
unfolding bit
bit-bit_or a b zero = ground (arith, bit_or-mod_two a b)
bit-bit_or a b (suc k) = ground (arith, bit_or-half a b, bit-bit_or (a / 2) (b / 2) k)

pub bit-bit_and : (a b k : ℕ) → bit (bit_and a b) k ≡ (bit a k && bit b k)
unfolding bit
bit-bit_and a b zero = ground (arith, bit_and-mod_two a b)
bit-bit_and a b (suc k) = ground (arith, bit_and-half a b, bit-bit_and (a / 2) (b / 2) k)

pub bit-zero : (k : ℕ) → bit 0 k ≡ false
unfolding bit
bit-zero zero = refl
bit-zero (suc k) = bit-zero k

pow-half : (k : ℕ) → 2 ^ suc k / 2 ≡ 2 ^ k
pow-half k = omega (arith, pow-suc 2 k)

double : (q k : ℕ) → q * 2 ^ suc k ≡ 2 * (q * 2 ^ k)
double q k = omega (arith, ap (λ (t : ℕ). q * t) (pow-suc 2 k))

double_pow : (k : ℕ) → 2 ^ suc k ≡ 2 * 2 ^ k
double_pow k = omega (arith, pow-suc 2 k)

div-double : (a k : ℕ) → a / 2 ^ suc k ≡ a / 2 / 2 ^ k
div-double a k = rw (double_pow k) (sym (div-div-eq-div-mul a 2 (2 ^ k)))

mod-double : (a m : ℕ) → 0 < m → a % (2 * m) ≡ 2 * (a / 2 % m) + a % 2
mod-double a m h = grind arith

mod-pow_suc : (a k : ℕ) → a % 2 ^ suc k ≡ 2 * (a / 2 % 2 ^ k) + a % 2
mod-pow_suc a k = rw (double_pow k) (mod-double a (2 ^ k) (one-le-pow k 2 (omega arith)))

ones-half : (k : ℕ) → (2 ^ suc k - 1) / 2 ≡ 2 ^ k - 1
ones-half k = omega (arith, double_pow k, one-le-pow k 2)

pub bit-pow : (k j : ℕ) → bit (2 ^ k) j ≡ (j == k)
unfolding bit
bit-pow zero zero = refl
bit-pow zero (suc j) = ground (arith, bit-zero j)
bit-pow (suc k) zero = ground (arith, pow-suc 2 k)
bit-pow (suc k) (suc j) = rw (pow-half k) (ground (arith, bit-pow k j))

-- The complement within `w` bits.
pub bit-complement : (w x k : ℕ) → x < 2 ^ w → k < w → bit (2 ^ w - 1 - x) k ≡ not (bit x k)
unfolding bit
bit-complement zero x k h l = absurd (omega arith)
bit-complement (suc w) x zero h l = ground (arith, pow-suc 2 w)
bit-complement (suc w) x (suc k) h l =
    rw half (bit-complement w (x / 2) k (omega (arith, pow-suc 2 w)) (omega arith))
  where
    half : (2 ^ suc w - 1 - x) / 2 ≡ 2 ^ w - 1 - x / 2
    half = omega (arith, pow-suc 2 w)

bit_and-zero_below : (n a : ℕ) → a ≤ n → bit_and a 0 ≡ 0
bit_and-zero_below n zero h = refl
bit_and-zero_below zero (suc a) h = absurd (omega arith)
bit_and-zero_below (suc n) (suc a) h = omega (
  arith,
  bit_and-half (suc a) 0,
  bit_and-mod_two (suc a) 0,
  bit_and-zero_below n (suc a / 2) (omega arith),
)

pub bit_and-zero : (a : ℕ) → bit_and a 0 ≡ 0
bit_and-zero a = bit_and-zero_below a a (omega arith)

bit_or-zero_below : (n a : ℕ) → a ≤ n → bit_or a 0 ≡ a
bit_or-zero_below n zero h = refl
bit_or-zero_below zero (suc a) h = absurd (omega arith)
bit_or-zero_below (suc n) (suc a) h = omega (
  arith,
  bit_or-half (suc a) 0,
  bit_or-mod_two (suc a) 0,
  bit_or-zero_below n (suc a / 2) (omega arith),
)

-- `a & (1 << k)` is zero or the bit itself.
pub bit_and-pow : (k a : ℕ) → bit_and a (2 ^ k) ≡ (if bit a k then 2 ^ k else 0)
unfolding bit
bit_and-pow zero a = ground (arith, bit_and-half a 1, bit_and-mod_two a 1, bit_and-zero (a / 2))
bit_and-pow (suc k) a = ground (
  arith,
  bit_and-half a (2 ^ suc k),
  bit_and-mod_two a (2 ^ suc k),
  pow-half k,
  pow-suc 2 k,
  bit_and-pow k (a / 2),
)

-- A mask of `k` low ones is the remainder by `2 ^ k`.
pub bit_and-ones : (k a : ℕ) → bit_and a (2 ^ k - 1) ≡ a % 2 ^ k
bit_and-ones zero a = omega (arith, bit_and-zero a)
bit_and-ones (suc k) a = ground (
  arith,
  bit_and-half a (2 ^ suc k - 1),
  bit_and-mod_two a (2 ^ suc k - 1),
  double_pow k,
  one-le-pow k 2,
  ones-half k,
  mod-pow_suc a k,
  bit_and-ones k (a / 2),
)

-- A mask with `k` low zeros.
pub bit_and-high : (k a m : ℕ) → bit_and a (m * 2 ^ k) ≡ bit_and (a / 2 ^ k) m * 2 ^ k
bit_and-high zero a m = ground arith
bit_and-high (suc k) a m = ground (
  arith,
  bit_and-half a (m * 2 ^ suc k),
  bit_and-mod_two a (m * 2 ^ suc k),
  double m k,
  double (bit_and (a / 2 ^ suc k) m) k,
  div-double a k,
  bit_and-high k (a / 2) m,
)

-- `(q << k) | r` is a sum when `r` fits in the low `k` bits.
pub bit_or-zero : (a : ℕ) → bit_or a 0 ≡ a
bit_or-zero a = bit_or-zero_below a a (omega arith)

pub bit_or-low : (k q r : ℕ) → r < 2 ^ k → bit_or (q * 2 ^ k) r ≡ q * 2 ^ k + r
bit_or-low zero q r h = ground (arith, bit_or-zero_below (q * 1) (q * 1) (omega arith))
bit_or-low (suc k) q r h = ground (
  arith,
  bit_or-half (q * 2 ^ suc k) r,
  bit_or-mod_two (q * 2 ^ suc k) r,
  double q k,
  bit_or-low k q (r / 2) (omega (arith, pow-suc 2 k)),
)

pub bit_or-lt : (k a b : ℕ) → a < 2 ^ k → b < 2 ^ k → bit_or a b < 2 ^ k
bit_or-lt zero a b g h = ground (arith, bit_or-zero_below 0 0 (omega arith))
bit_or-lt (suc k) a b g h = omega (
  arith,
  bit_or-half a b,
  bit_or-mod_two a b,
  pow-suc 2 k,
  bit_or-lt k (a / 2) (b / 2) (omega (arith, pow-suc 2 k)) (omega (arith, pow-suc 2 k)),
)

pub bit_and-le : (k a b : ℕ) → a < 2 ^ k → bit_and a b ≤ a
bit_and-le zero a b h = ground (arith, bit_and-bitwise 0 b)
bit_and-le (suc k) a b h = omega (
  arith,
  bit_and-half a b,
  bit_and-mod_two a b,
  bit_and-le k (a / 2) (b / 2) (omega (arith, pow-suc 2 k)),
)

bit_or-zero_left_below : (n a : ℕ) → a ≤ n → bit_or 0 a ≡ a
bit_or-zero_left_below n zero h = refl
bit_or-zero_left_below zero (suc a) h = absurd (omega arith)
bit_or-zero_left_below (suc n) (suc a) h = omega (
  arith,
  bit_or-half 0 (suc a),
  bit_or-mod_two 0 (suc a),
  bit_or-zero_left_below n (suc a / 2) (omega arith),
)

pub bit_or-low_left : (k q r : ℕ) → r < 2 ^ k → bit_or r (q * 2 ^ k) ≡ q * 2 ^ k + r
bit_or-low_left zero q r h = ground (arith, bit_or-zero_left_below (q * 1) (q * 1) (omega arith))
bit_or-low_left (suc k) q r h = ground (
  arith,
  bit_or-half r (q * 2 ^ suc k),
  bit_or-mod_two r (q * 2 ^ suc k),
  double q k,
  bit_or-low_left k q (r / 2) (omega (arith, pow-suc 2 k)),
)
