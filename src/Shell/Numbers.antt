-- ===== src/Shell/Numbers.antt =====
-- The number parsers of kernel/kernel.c accept just the numbers that fit in 32 bits.
use mars_os.Base.{
  ℕ, ◌+◌, ◌-◌, ◌*◌, ◌%◌, ◌^◌, ◌≤◌, ◌<◌, ◌≡◌, refl, ◌∙◌, ap, true, false, not, ◌&&◌, List, [], ◌∷◌,
  length, Option, none, some, ◌==◌, ltb, if◌then◌else◌, arith, Bool-cases, inl, inr,
}
use mars_os.Base.Text.{c_str}
use mars_os.Shell.{parse_loop, parse_u32, auto_digit, auto_loop, parse_u32_auto, has_hex_prefix}
use mars_os.Vga.{dec_digits}
use mars_os.Vga.Numbers.{dec_value, all_digits, is_digit, dec_digits-Printed}

dec_value-le : (value : ℕ) (s : List ℕ) → value ≤ dec_value value s
unfolding dec_value
dec_value-le value [] = omega arith
dec_value-le value (c ∷ s) = omega (arith, dec_value-le (value * 10 + (c - 48)) s)

-- What the loop gives, in one formula.
abbrev pub fitting : ℕ → List ℕ → Option ℕ
fitting value s =
    if all_digits s && ltb (dec_value value s) (2 ^ 32) then some (dec_value value s) else none

parse_loop-fitting :
    (value : ℕ) (s : List ℕ) → value < 2 ^ 32 → parse_loop value s ≡ fitting value (c_str s)
unfolding parse_loop all_digits dec_value c_str
parse_loop-fitting value [] h = ground arith
parse_loop-fitting value (ch ∷ s) h = elim (Bool-cases (ch == 0)) [
  | inl end_ ↦ ground arith
  | inr more ↦
      let next = (value * 10 + (ch - 48)) % 2 ^ 32 in
      let rest = parse_loop-fitting next s (omega arith) in
      elim (Bool-cases (is_digit ch && ltb (value * 10 + (ch - 48)) (2 ^ 32))) [
        | inl fits ↦
            let e : next ≡ value * 10 + (ch - 48) = ground arith in
            let r : parse_loop next s ≡ fitting (value * 10 + (ch - 48)) (c_str s) =
              rest ∙ ap (λ v. fitting v (c_str s)) e in
            ground (arith, r, e)
        | inr over ↦
            let big = dec_value-le (value * 10 + (ch - 48)) (c_str s) in ground (arith, big)
      ]
]

-- `parse_u32` gives the number that a text of decimal digits stands for if it fits in 32 bits, and
-- refuses every other text, the empty one included.
pub parse_u32_lem :
    (s : List ℕ)
    → parse_u32 s ≡ (
        if not (length (c_str s) == 0)
          && (all_digits (c_str s) && ltb (dec_value 0 (c_str s)) (2 ^ 32))
        then some (dec_value 0 (c_str s))
        else none)
unfolding parse_u32 c_str
parse_u32_lem [] = refl
parse_u32_lem (ch ∷ s) = ground (arith, parse_loop-fitting 0 (ch ∷ s) (omega arith))

c_str-digits : (s : List ℕ) → all_digits s ≡ true → c_str s ≡ s
unfolding all_digits c_str
c_str-digits [] h = refl
c_str-digits (c ∷ s) h = ground (arith, c_str-digits s (ground arith))

dec_digits-nonempty :
    (n : ℕ) (s : List ℕ) → dec_digits n ≡ some s → dec_value 0 s ≡ n → (length s == 0) ≡ false
unfolding dec_digits dec_value
dec_digits-nonempty n [] e v = ground (arith, e, v)
dec_digits-nonempty n (c ∷ s) e v = ground arith

-- What the screen prints for a 32-bit number, the shell reads back as that number.
pub parse_u32-dec_digits :
    (n : ℕ) → n < 2 ^ 32 → (s : List ℕ) × (dec_digits n ≡ some s) × (parse_u32 s ≡ some n)
parse_u32-dec_digits n h =
    let (s, got, d, v, l) = dec_digits-Printed n h in
    let c = c_str-digits s d in
    (s, got, parse_u32_lem s ∙ (rw c (ground (arith, d, v, dec_digits-nonempty n s got v))))

auto_loop-decimal : (value : ℕ) (s : List ℕ) → auto_loop 10 value s ≡ parse_loop value s
unfolding auto_loop parse_loop auto_digit
auto_loop-decimal value [] = refl
auto_loop-decimal value (ch ∷ s) =
    ground (arith, auto_loop-decimal ((value * 10 + (ch - 48)) % 2 ^ 32) s)

-- Without the prefix, the two parsers agree.
pub parse_u32_auto-decimal :
    (s : List ℕ) → has_hex_prefix s ≡ false → parse_u32_auto s ≡ parse_u32 s
unfolding parse_u32_auto parse_u32
parse_u32_auto-decimal s h = ground (arith, auto_loop-decimal 0 s)
