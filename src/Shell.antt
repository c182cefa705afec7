-- ===== src/Shell.antt =====
-- The text routines of the shell of kernel/kernel.c: comparing, reading numbers and splitting words.
-- A string is the list of its bytes, ended by a zero byte or the end of the list.
pub mod Numbers
pub mod History
pub mod Tests
use mars_os.Base.{
  ℕ, zero, suc, ◌+◌, ◌-◌, ◌*◌, ◌/◌, ◌%◌, ◌^◌, Bool, true, false, not, ◌&&◌, ◌||◌, List, [], ◌∷◌,
  ◌++◌, length, Option, none, some, ◌==◌, leb, ltb, if◌then◌else◌, u32_max,
}

-- while (*prefix != '\0').
pub starts_with : List ℕ → List ℕ → Bool
starts_with text [] = true
starts_with [] (d ∷ prefix) = d == 0
starts_with (c ∷ text) (d ∷ prefix) =
    let rest = starts_with text prefix in if d == 0 then true else if c == d then rest else false

-- while (*s != '\0'), with both tests for an overflow.
pub parse_loop : ℕ → List ℕ → Option ℕ
parse_loop value [] = some value
parse_loop value (ch ∷ s) =
    let digit = ch - 48 in
    let next = (value * 10 + digit) % 2 ^ 32 in
    let rest = parse_loop next s in
    if ch == 0
    then some value
    else if ltb ch 48 || ltb 57 ch
    then none
    else if ltb (u32_max / 10) value
    then none
    else if ltb next digit
    then none
    else rest

-- *s == '\0'
abbrev pub is_end : List ℕ → Bool
is_end [] = true
is_end (c ∷ s) = c == 0

pub parse_u32 : List ℕ → Option ℕ
parse_u32 s = if is_end s then none else parse_loop 0 s

pub auto_digit : ℕ → ℕ → Option ℕ
auto_digit base ch =
    if leb 48 ch && leb ch 57
    then some (ch - 48)
    else if base == 16 && (leb 97 ch && leb ch 102)
    then some (10 + (ch - 97))
    else if base == 16 && (leb 65 ch && leb ch 70)
    then some (10 + (ch - 65))
    else none

pub auto_loop : ℕ → ℕ → List ℕ → Option ℕ
auto_loop base value [] = some value
auto_loop base value (ch ∷ s) = if ch == 0 then some value else (elim (auto_digit base ch) [
  | none ↦ none
  | some digit ↦
      let next = (value * base + digit) % 2 ^ 32 in
      let rest = auto_loop base next s in
      if leb base digit
      then none
      else if ltb (u32_max / base) value
      then none
      else if ltb next digit
      then none
      else rest
])

-- The two characters 0x, or 0X.
abbrev pub has_hex_prefix : List ℕ → Bool
has_hex_prefix (c ∷ d ∷ s) = c == 48 && (d == 120 || d == 88)
has_hex_prefix _ = false

abbrev drop_two : List ℕ → List ℕ
drop_two (c ∷ d ∷ s) = s
drop_two s = s

pub parse_u32_auto : List ℕ → Option ℕ
parse_u32_auto s =
    if is_end s
    then none
    else if has_hex_prefix s
    then (if is_end (drop_two s) then none else auto_loop 16 0 (drop_two s))
    else auto_loop 10 0 s

pub skip_spaces : List ℕ → List ℕ
skip_spaces [] = []
skip_spaces (c ∷ s) = let rest = skip_spaces s in if c == 32 then rest else c ∷ s

-- The word, cut to `room` bytes, and what follows the whole word.
read_word : ℕ → List ℕ → List ℕ × List ℕ
read_word room [] = ([], [])
read_word room (c ∷ s) =
    let (token, rest) = read_word (room - 1) s in
    if c == 0 || c == 32 then ([], c ∷ s) else if ltb 0 room then (c ∷ token, rest) else ([], rest)

pub read_token : List ℕ → ℕ → List ℕ × List ℕ
unfolding read_word skip_spaces
read_token s token_size = read_word (token_size - 1) (skip_spaces s)
