-- ===== src/Vga/Numbers.antt =====
-- The numbers that kernel/vga.c prints.
use mars_os.Base.{
  ℕ, zero, suc, ◌+◌, ◌-◌, ◌*◌, ◌/◌, ◌%◌, ◌^◌, ◌≤◌, ◌<◌, ◌≡◌, refl, sym, ◌∙◌, ap, Bool, true, ◌&&◌,
  List, [], ◌∷◌, length, some, ◌==◌, leb, arith, Bool-cases, inl, inr,
}
use mars_os.Vga.{Vga, puts, put_dec32, dec_loop, dec_digits}

-- The number that decimal digits stand for, after `value`.
unfoldable pub dec_value : ℕ → List ℕ → ℕ
dec_value value [] = value
dec_value value (c ∷ s) = dec_value (value * 10 + (c - 48)) s

abbrev pub is_digit : ℕ → Bool
is_digit c = leb 48 c && leb c 57

unfoldable pub all_digits : List ℕ → Bool
all_digits [] = true
all_digits (c ∷ s) = is_digit c && all_digits s

pow10 : ℕ → ℕ
pow10 zero = 1
pow10 (suc n) = 10 * pow10 n

pub record Printed (value rounds : ℕ) (s : List ℕ) : Type 0 where
  pub digits : all_digits s ≡ true
  pub value_eq : dec_value 0 s ≡ value
  pub length_le : length s ≤ rounds

dec_loop-digits :
    (rounds value : ℕ) (buf : List ℕ)
    → value < pow10 rounds
    → all_digits buf ≡ true
    → (s : List ℕ) × (dec_loop rounds value buf ≡ some s)
      × (all_digits s ≡ true)
      × (dec_value 0 s ≡ dec_value value buf)
      × (length s ≤ length buf + rounds)
unfolding dec_loop dec_value all_digits pow10
dec_loop-digits zero value buf h d =
    let e : value ≡ 0 = omega arith in
    (buf, ground arith, d, ap (λ n. dec_value n buf) (sym e), omega arith)
dec_loop-digits (suc rounds) value buf h d = elim (Bool-cases (value == 0)) [
  | inl zero_ ↦
      let e : value ≡ 0 = ground arith in
      (buf, ground arith, d, ap (λ n. dec_value n buf) (sym e), omega arith)
  | inr more ↦
      let (s, got, a, v, l) =
        dec_loop-digits rounds (value / 10) ((48 + value % 10) ∷ buf) (omega arith)
          (ground arith) in
      let e : value / 10 * 10 + (48 + value % 10 - 48) ≡ value = omega arith in
      (s, ground (arith, got), a, v ∙ ap (λ n. dec_value n buf) e, omega (arith, l))
]

-- Every 32-bit number is printed, in at most the 10 bytes of the buffer, as decimal digits that
-- stand for it.
pub dec_digits-Printed :
    (value : ℕ)
    → value < 2 ^ 32
    → (s : List ℕ) × (dec_digits value ≡ some s)
      × (all_digits s ≡ true)
      × (dec_value 0 s ≡ value)
      × (length s ≤ 10)
unfolding dec_digits pow10
dec_digits-Printed value h = elim (Bool-cases (value == 0)) [
  | inl zero_ ↦
      let e : value ≡ 0 = ground arith in
      (48 ∷ [], ground arith, unfold all_digits in refl, unfold dec_value in sym e, omega arith)
  | inr more ↦
      let (s, got, a, v, l) =
        dec_loop-digits 10 value [] (omega arith) (unfold all_digits in refl) in
      (s, ground (arith, got), a, unfold dec_value in v, l)
]

-- A 32-bit number is printed.
pub put_dec32-some :
    (v : Vga) (value : ℕ) → value < 2 ^ 32 → (w : Vga) × (put_dec32 v value ≡ some w)
unfolding put_dec32
put_dec32-some v value h =
    let (s, e, _, _, _) = dec_digits-Printed value h in (puts v s, ground (arith, e))
