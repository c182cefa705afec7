-- ===== src/Image/Hex.antt =====
-- Reading the hexadecimal text of a program, `parse_user_image_hex` of kernel/process.c.
use mars_os.Base.{
  ℕ, zero, suc, ◌+◌, ◌*◌, ◌/◌, ◌%◌, ◌≤◌, ◌<◌, ◌≡◌, refl, ◌∙◌, ap, Bool, true, false, not, ◌&&◌,
  List, [], ◌∷◌, ◌++◌, length, some, ◌==◌, leb, ltb, if◌then◌else◌, arith, Bool-cases, Option-cases,
  inl, inr, append-nil, append_assoc, length-append, drop,
}
use mars_os.Base.Text.{codes}
use mars_os.Image.{
  Parsed, parse_hex_nibble, skip_ws, str_eq_n, hex_loop, hex_body, parse_user_image_hex,
}

length-skip_ws : (p : List ℕ) → length (skip_ws p) ≤ length p
unfolding skip_ws
length-skip_ws [] = omega arith
length-skip_ws (c ∷ p) = ground (arith, length-skip_ws p)

-- Within as many rounds as there are bytes and one more, the loop ends; it stores at most `cap` bytes.
hex_loop-ends :
    (fuel : ℕ) (p : List ℕ) (cap : ℕ) (code : List ℕ)
    → length p < fuel
    → length code ≤ cap
    → (r : Parsed) × (hex_loop fuel p cap code ≡ some r) × (length r.code ≤ cap)
unfolding hex_loop
hex_loop-ends zero p cap code h l = absurd (omega arith)
hex_loop-ends (suc fuel) text cap code h l =
    cases (λ p code'. hex_loop-ends fuel p cap code') (skip_ws text) refl
  where
    cases :
        ((p code' : List ℕ)
          → length p < fuel
          → length code' ≤ cap
          → (r : Parsed) × (hex_loop fuel p cap code' ≡ some r) × (length r.code ≤ cap))
        → (q : List ℕ) → skip_ws text ≡ q
        → (r : Parsed) × (hex_loop (suc fuel) text cap code ≡ some r) × (length r.code ≤ cap)
    cases again [] e = (record { ok = not (length code == 0); code = code }, ground (arith, e), l)
    cases again (c ∷ []) e =
        (record { ok = c == 0 && not (length code == 0); code = code }, ground (arith, e), l)
    cases again (c ∷ d ∷ rest) e = elim (Bool-cases (c == 0)) [
      | inl end_ ↦ (record { ok = not (length code == 0); code = code }, ground (arith, e), l)
      | inr more ↦ elim (Bool-cases (d == 0)) [
        | inl odd ↦ (record { ok = false; code = code }, ground (arith, e), l)
        | inr pair ↦ elim (Option-cases (parse_hex_nibble c)) [
          | inl bad ↦ (record { ok = false; code = code }, ground (arith, e), l)
          | inr (hi, p) ↦ elim (Option-cases (parse_hex_nibble d)) [
            | inl bad ↦ (record { ok = false; code = code }, ground (arith, e), l)
            | inr (lo, q) ↦ elim (Bool-cases (leb cap (length code))) [
              | inl full ↦ (record { ok = false; code = code }, ground (arith, e), l)
              | inr room ↦
                  let longer : length (code ++ (hi * 16 + lo) ∷ []) ≡ length code + 1 =
                    length-append code ((hi * 16 + lo) ∷ []) in
                  let shorter : length rest < fuel =
                    omega (arith, length-skip_ws text, ap length e) in
                  let (r, got, k) =
                    again rest (code ++ (hi * 16 + lo) ∷ []) shorter (ground (arith, longer)) in
                  (r, ground (arith, e, got), k)
            ]
          ]
        ]
      ]
    ]

-- A number below 16 as a lower-case digit.
pub hex_char : ℕ → ℕ
hex_char n = if ltb n 10 then 48 + n else 87 + n

-- The bytes, two digits each.
unfoldable pub hex_text : List ℕ → List ℕ
hex_text [] = []
hex_text (b ∷ bs) = hex_char (b / 16) ∷ hex_char (b % 16) ∷ hex_text bs

unfoldable pub all_bytes : List ℕ → Bool
all_bytes [] = true
all_bytes (b ∷ bs) = ltb b 256 && all_bytes bs

parse_hex_nibble-hex_char :
    (n : ℕ) → n < 16 → (parse_hex_nibble (hex_char n) ≡ some n) × (48 ≤ hex_char n)
unfolding parse_hex_nibble hex_char
parse_hex_nibble-hex_char n h = (ground arith, ground arith)

skip_ws-digit : (c : ℕ) (p : List ℕ) → 48 ≤ c → skip_ws (c ∷ p) ≡ c ∷ p
unfolding skip_ws
skip_ws-digit c p h = ground arith

hex_loop-hex_text :
    (fuel : ℕ) (bs : List ℕ) (cap : ℕ) (code : List ℕ)
    → length bs < fuel
    → length code + length bs ≤ cap
    → all_bytes bs ≡ true
    → hex_loop fuel (hex_text bs) cap code
      ≡ some (record { ok = not (length code + length bs == 0); code = code ++ bs })
unfolding hex_loop hex_text all_bytes
hex_loop-hex_text zero bs cap code h l a = absurd (omega arith)
hex_loop-hex_text (suc fuel) [] cap code h l a =
    let z : length code + 0 ≡ length code = omega arith in
    unfold skip_ws in (rw z (rw (append-nil code) refl))
hex_loop-hex_text (suc fuel) (b ∷ bs) cap code h l a =
    let (hi, p) = parse_hex_nibble-hex_char (b / 16) (ground arith) in
    let (lo, q) = parse_hex_nibble-hex_char (b % 16) (omega arith) in
    let e : b / 16 * 16 + b % 16 ≡ b = omega arith in
    let w = skip_ws-digit (hex_char (b / 16)) (hex_char (b % 16) ∷ hex_text bs) p in
    let rest =
      hex_loop-hex_text fuel bs cap (code ++ (b / 16 * 16 + b % 16) ∷ []) (omega arith)
        (omega (arith, length-append code ((b / 16 * 16 + b % 16) ∷ []))) (ground arith) in
    let one : hex_loop (suc fuel) (hex_text (b ∷ bs)) cap code
        ≡ hex_loop fuel (hex_text bs) cap (code ++ (b / 16 * 16 + b % 16) ∷ []) =
      ground (arith, w, hi, lo) in
    let longer : (length (code ++ (b / 16 * 16 + b % 16) ∷ []) + length bs == 0)
        ≡ (length code + suc (length bs) == 0) =
      ground (arith, length-append code ((b / 16 * 16 + b % 16) ∷ [])) in
    one
    ∙ rest
    ∙ ap (λ z. some (record { ok = not z; code = (code ++ (b / 16 * 16 + b % 16) ∷ []) ++ bs }))
        longer
    ∙ ap (λ cs. some (record { ok = not (length code + suc (length bs) == 0); code = cs }))
        (append_assoc code ((b / 16 * 16 + b % 16) ∷ []) bs)
    ∙ ap
        (λ x.
          some (record { ok = not (length code + suc (length bs) == 0); code = code ++ x ∷ bs }))
        e

-- A program written as hexadecimal digits after the word MARSHEX is read back byte for byte, if it
-- is not empty and fits, in a round for each byte and one more.
pub parse_user_image_hex-hex_text :
    (bs : List ℕ) (fuel cap : ℕ)
    → all_bytes bs ≡ true
    → 0 < length bs
    → length bs ≤ cap
    → length bs < fuel
    → parse_user_image_hex fuel (codes "MARSHEX" ++ hex_text bs) cap
      ≡ some (record { ok = true; code = bs })
unfolding parse_user_image_hex
parse_user_image_hex-hex_text bs fuel cap a some_ fits rounds =
    let body : hex_body (codes "MARSHEX" ++ hex_text bs) ≡ hex_text bs =
      unfold hex_body skip_ws str_eq_n in refl in
    let r = hex_loop-hex_text fuel bs cap [] rounds (omega arith) a in ground (arith, body, r)

length-drop : (n : ℕ) (p : List ℕ) → length (drop n p) ≤ length p
length-drop zero p = omega arith
length-drop (suc n) [] = omega arith
length-drop (suc n) (c ∷ p) = omega (arith, length-drop n p)

length-hex_body : (text : List ℕ) → length (hex_body text) ≤ length text
unfolding hex_body
length-hex_body text = ground (arith, length-skip_ws text, length-drop 7 (skip_ws text))

-- On any text, with as many rounds as it has bytes and one more, the reader ends, and it never
-- stores more than `code_cap` bytes.
pub parse_user_image_hex-ends :
    (text : List ℕ) (code_cap : ℕ)
    → (r : Parsed) × (parse_user_image_hex (length text + 1) text code_cap ≡ some r)
      × (length r.code ≤ code_cap)
unfolding parse_user_image_hex
parse_user_image_hex-ends text code_cap = elim (Bool-cases (code_cap == 0)) [
  | inl none_ ↦ (record { ok = false; code = [] }, ground arith, omega arith)
  | inr some_ ↦
      let (r, got, l) =
        hex_loop-ends (length text + 1) (hex_body text) code_cap []
          (omega (arith, length-hex_body text)) (omega arith) in
      (r, ground (arith, got), l)
]
