-- ===== src/Image.antt =====
-- The program images of kernel/process.c: the hexadecimal text of a stored program, the loader of
-- a one-page ELF file, and the two programs that the kernel writes itself.
pub mod Hex
pub mod Elf
pub mod Tests
use mars_os.Base.{
  ℕ, zero, suc, ◌+◌, ◌-◌, ◌*◌, ◌/◌, ◌%◌, ◌^◌, min, Bool, true, false, not, ◌&&◌, ◌||◌, List, [],
  ◌∷◌, ◌++◌, length, Option, none, some, ◌==◌, leb, ltb, if◌then◌else◌, drop,
}
use mars_os.Base.Text.{codes}

pub parse_hex_nibble : ℕ → Option ℕ
parse_hex_nibble c =
    if leb 48 c && leb c 57
    then some (c - 48)
    else if leb 97 c && leb c 102
    then some (10 + (c - 97))
    else if leb 65 c && leb c 70
    then some (10 + (c - 65))
    else none

abbrev pub is_ws : ℕ → Bool
is_ws c = c == 32 || (c == 9 || (c == 10 || c == 13))

pub skip_ws : List ℕ → List ℕ
skip_ws [] = []
skip_ws (c ∷ p) = let rest = skip_ws p in if is_ws c then rest else c ∷ p

-- The text starts with `word`.
pub str_eq_n : List ℕ → List ℕ → Bool
str_eq_n p [] = true
str_eq_n [] (d ∷ word) = false
str_eq_n (c ∷ p) (d ∷ word) = let rest = str_eq_n p word in if c == d then rest else false

-- Whether the text was accepted, with the bytes stored so far.
pub record Parsed : Type 0 where
  pub ok : Bool
  pub code : List ℕ

-- while (1), on fuel; `none` where the fuel runs out.
pub hex_loop : ℕ → List ℕ → ℕ → List ℕ → Option Parsed
hex_loop zero p cap code = none
hex_loop (suc fuel) p cap code = elim (skip_ws p) [
  | [] ↦ some (record { ok = not (length code == 0); code = code })
  | c ∷ [] ↦ some (record { ok = c == 0 && not (length code == 0); code = code })
  | c ∷ d ∷ rest ↦
      if c == 0
      then some (record { ok = not (length code == 0); code = code })
      else if d == 0
      then some (record { ok = false; code = code })
      else (elim (parse_hex_nibble c) [
        | none ↦ some (record { ok = false; code = code })
        | some hi ↦ elim (parse_hex_nibble d) [
          | none ↦ some (record { ok = false; code = code })
          | some lo ↦ elim (leb cap (length code)) [
            | true ↦ some (record { ok = false; code = code })
            | false ↦ hex_loop fuel rest cap (code ++ (hi * 16 + lo) ∷ [])
          ]
        ]
      ])
]

pub hex_body : List ℕ → List ℕ
unfolding skip_ws str_eq_n
hex_body text = let p = skip_ws text in if str_eq_n p (codes "MARSHEX") then drop 7 p else p

pub parse_user_image_hex : ℕ → List ℕ → ℕ → Option Parsed
unfolding hex_loop hex_body
parse_user_image_hex fuel text code_cap =
    if code_cap == 0
    then some (record { ok = false; code = [] })
    else hex_loop fuel (hex_body text) code_cap []

-- The instruction `mov eax, 17; int 0x80`, `left` times.
pings : ℕ → List ℕ
pings zero = []
pings (suc left) = 0xB8 ∷ 17 ∷ 0 ∷ 0 ∷ 0 ∷ 0xCD ∷ 0x80 ∷ pings left

pub emit_exit_only_program : List ℕ
emit_exit_only_program = 0xCD ∷ 0x81 ∷ 0xEB ∷ 0xFE ∷ []

pub emit_ping_program : ℕ → List ℕ
unfolding pings emit_exit_only_program
emit_ping_program ping_count =
    let n = if ping_count == 0 then 1 else if ltb 32 ping_count then 32 else ping_count in
    pings n ++ emit_exit_only_program
