-- ===== src/Pmm/Bitmap.antt =====
-- The words of the bitmap as one bit for each frame.
use mars_os.Base.{
  ℕ, zero, suc, ◌+◌, ◌*◌, ◌/◌, ◌%◌, ◌^◌, ◌<◌, ◌≡◌, Bool, true, false, ◌==◌, if◌then◌else◌, arith,
}
use mars_os.Base.Bits.{
  bit, not32, bit-bit_or, bit-bit_and, bit-pow, bit-complement, bit_and-pow, bit_and-ones,
  bit_and-high,
}
use native.Mathlib.Nat.{pow-suc, one-le-pow}
use Prim.Native.Nat.{bit_and}
use mars_os.Pmm.{Pmm, bit_is_set, set_bit, clear_bit, align_down_4k, align_up_4k}

-- The bit of frame `i`.
unfoldable pub frame_set : Pmm → ℕ → Bool
frame_set p i = bit (p.bitmap (i / 32)) (i % 32)

low_five : (i : ℕ) → bit_and i 31 ≡ i % 32
low_five i = bit_and-ones 5 i

pow-lt : (k w : ℕ) → k < w → 2 ^ k < 2 ^ w
pow-lt k zero h = absurd (omega arith)
pow-lt zero (suc w) h = omega (arith, pow-suc 2 w, one-le-pow w 2)
pow-lt (suc k) (suc w) h = omega (arith, pow-suc 2 w, pow-suc 2 k, pow-lt k w (omega arith))

pub bit_is_set-frame_set : (p : Pmm) (i : ℕ) → bit_is_set p i ≡ frame_set p i
unfolding bit_is_set frame_set
bit_is_set-frame_set p i =
    rw (low_five i)
      (ground (arith, bit_and-pow (i % 32) (p.bitmap (i / 32)), one-le-pow (i % 32) 2))

pub frame_set-set_bit :
    (p : Pmm) (i j : ℕ) → frame_set (set_bit p i) j ≡ (if i == j then true else frame_set p j)
unfolding set_bit frame_set
frame_set-set_bit p i j = rw (low_five i) (
    ground
      (arith, bit-bit_or (p.bitmap (i / 32)) (2 ^ (i % 32)) (j % 32), bit-pow (i % 32) (j % 32)))

pub frame_set-clear_bit :
    (p : Pmm) (i j : ℕ) → frame_set (clear_bit p i) j ≡ (if i == j then false else frame_set p j)
unfolding clear_bit frame_set
frame_set-clear_bit p i j = rw (low_five i) (
    ground (
      arith,
      bit-bit_and (p.bitmap (i / 32)) (not32 (2 ^ (i % 32))) (j % 32),
      bit-complement 32 (2 ^ (i % 32)) (j % 32),
      pow-lt (i % 32) 32,
      bit-pow (i % 32) (j % 32),
    ))

-- The alignments as arithmetic.
pub align_down_4k-div : (x : ℕ) → x < 2 ^ 32 → align_down_4k x ≡ x / 4096 * 4096
unfolding align_down_4k
align_down_4k-div x h = omega (arith, bit_and-high 12 x 1048575, bit_and-ones 20 (x / 4096))

pub align_up_4k-div : (x : ℕ) → align_up_4k x ≡ (x + 4095) % 2 ^ 32 / 4096 * 4096
unfolding align_up_4k
align_up_4k-div x = align_down_4k-div ((x + 4095) % 2 ^ 32) (omega arith)
