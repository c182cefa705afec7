-- ===== src/Paging/Words.antt =====
-- The flags and the frame of an entry of kernel/paging.c as arithmetic.
use mars_os.Base.{ℕ, ◌+◌, ◌*◌, ◌/◌, ◌%◌, ◌^◌, ◌<◌, ◌≡◌, ◌==◌, if◌then◌else◌, arith}
use mars_os.Base.Bits.{bit_and-ones, bit_and-high, bit_or-low, bit_or-zero}
use mars_os.Base.Bits.Half.{bit_and-half, bit_and-mod_two, bit_or-half, bit_or-mod_two}
use Prim.Native.Nat.{bit_and, bit_or}

pub bit_and-offset : (w : ℕ) → bit_and w 0xFFF ≡ w % 4096
bit_and-offset w = bit_and-ones 12 w

pub bit_and-frame : (w : ℕ) → w < 2 ^ 32 → bit_and w 0xFFFFF000 ≡ w / 4096 * 4096
bit_and-frame w h = omega (arith, bit_and-high 12 w 1048575, bit_and-ones 20 (w / 4096))

pub bit_and-present : (w : ℕ) → bit_and w 1 ≡ w % 2
bit_and-present w = bit_and-ones 1 w

pub bit_and-user : (w : ℕ) → bit_and w 4 ≡ w / 4 % 2 * 4
bit_and-user w =
    let a : bit_and w 4 / 2 ≡ bit_and (w / 2) 2 = bit_and-half w 4 in
    let b : bit_and (w / 2) 2 / 2 ≡ bit_and (w / 2 / 2) 1 = bit_and-half (w / 2) 2 in
    omega (arith, a, b, bit_and-mod_two w 4, bit_and-mod_two (w / 2) 2, bit_and-present (w / 2 / 2))

pub bit_and-user_present : (w : ℕ) → bit_and w 5 ≡ w % 2 + w / 4 % 2 * 4
bit_and-user_present w =
    let a : bit_and w 5 / 2 ≡ bit_and (w / 2) 2 = bit_and-half w 5 in
    let b : bit_and (w / 2) 2 / 2 ≡ bit_and (w / 2 / 2) 1 = bit_and-half (w / 2) 2 in
    omega (arith, a, b, bit_and-mod_two w 5, bit_and-mod_two (w / 2) 2, bit_and-present (w / 2 / 2))

-- Setting the user flag changes no other bit.
pub bit_or-user : (w : ℕ) → bit_or w 4 ≡ (if w / 4 % 2 == 1 then w else w + 4)
bit_or-user w =
    let a : bit_or w 4 / 2 ≡ bit_or (w / 2) 2 = bit_or-half w 4 in
    let b : bit_or (w / 2) 2 / 2 ≡ bit_or (w / 2 / 2) 1 = bit_or-half (w / 2) 2 in
    let c : bit_or (w / 2 / 2) 1 / 2 ≡ bit_or (w / 2 / 2 / 2) 0 = bit_or-half (w / 2 / 2) 1 in
    let d : bit_or (w / 2 / 2 / 2) 0 ≡ w / 2 / 2 / 2 = bit_or-zero (w / 2 / 2 / 2) in
    ground (
      arith,
      a,
      b,
      c,
      d,
      bit_or-mod_two w 4,
      bit_or-mod_two (w / 2) 2,
      bit_or-mod_two (w / 2 / 2) 1,
    )

pub bit_or-offset : (q r : ℕ) → r < 4096 → bit_or (q * 4096) r ≡ q * 4096 + r
bit_or-offset q r h = bit_or-low 12 q r h

pub bit_or-present : (w : ℕ) → bit_or w 1 ≡ (if w % 2 == 1 then w else w + 1)
bit_or-present w =
    let a : bit_or w 1 / 2 ≡ bit_or (w / 2) 0 = bit_or-half w 1 in
    ground (arith, a, bit_or-zero (w / 2), bit_or-mod_two w 1)
