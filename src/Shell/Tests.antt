-- ===== src/Shell/Tests.antt =====
-- Concrete inputs of the text routines of kernel/kernel.c.
use mars_os.Base.{
  ◌≡◌, ◌^◌, refl, true, not, ◌&&◌, [], ◌∷◌, ◌++◌, length, none, some, ltb, ◌==◌, if◌then◌else◌,
  arith,
}
use mars_os.Base.Text.{codes, copy_within, c_str}
use mars_os.Shell.{
  starts_with, parse_u32, parse_u32_auto, parse_loop, auto_digit, auto_loop, read_token, read_word,
  skip_spaces,
}
use mars_os.Shell.History.{
  History, store_history, store_history_lem, lines, drop_oldest, is_skipped,
}
use mars_os.Shell.Numbers.{parse_u32_lem}
use mars_os.Vga.Numbers.{all_digits, dec_value}

too_big : parse_u32 (codes "4294967296") ≡ none
unfolding parse_u32 parse_loop
too_big = refl

hex_word : parse_u32_auto (codes "0xFfffffff") ≡ some 4294967295
unfolding parse_u32_auto auto_loop auto_digit
hex_word = refl

first_token : read_token (codes "  kill 12") 4 ≡ (codes "kil", codes " 12")
unfolding read_token read_word skip_spaces
first_token = refl

has_prefix : starts_with (codes "sleep 5") (codes "sleep ") ≡ true
unfolding starts_with
has_prefix = refl

parse_u32_lem_example : parse_u32 (codes "42") ≡ (
    if not (length (c_str (codes "42")) == 0)
      && (all_digits (c_str (codes "42")) && ltb (dec_value 0 (c_str (codes "42"))) (2 ^ 32))
    then some (dec_value 0 (c_str (codes "42")))
    else none)
parse_u32_lem_example = parse_u32_lem (codes "42")

abbrev one_line : History
one_line = record { row = λ i. codes "help"; history_count = 1 }

store_history_lem_example : lines (store_history one_line (codes "ps")) ≡ (
    if is_skipped one_line (codes "ps")
    then lines one_line
    else (if ltb 1 8 then lines one_line else drop_oldest (lines one_line))
      ++ (copy_within 127 (codes "ps") ∷ []))
store_history_lem_example = store_history_lem one_line (codes "ps") (omega arith)
