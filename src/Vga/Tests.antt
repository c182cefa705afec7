-- ===== src/Vga/Tests.antt =====
-- Concrete screens and numbers for kernel/vga.c.
use mars_os.Base.{ℕ, ◌≡◌, ◌≤◌, refl, true, List, [], ◌∷◌, length, some, arith}
use mars_os.Base.Text.{codes}
use mars_os.Vga.{
  Vga, putc, put_cell, puts, dec_digits, dec_loop, hex_digits, put_hex32, put_hex64, put_dec32,
}
use mars_os.Vga.Screen.{OnScreen, puts-OnScreen}
use mars_os.Vga.Numbers.{dec_value, all_digits, dec_digits-Printed}

-- The cursor at the end of the last line.
abbrev last_line : Vga
last_line = record { cells = λ i. i; cursor_row = 24; cursor_col = 79 }

last_line-OnScreen : OnScreen last_line
last_line-OnScreen = record { row_in = omega arith; col_in = omega arith }

digits_907 : dec_digits 907 ≡ some (codes "907")
unfolding dec_digits dec_loop
digits_907 = refl

digits_beef : hex_digits 8 0xBEEF ≡ codes "0000BEEF"
unfolding hex_digits
digits_beef = refl

puts_empty : puts last_line [] ≡ last_line
unfolding puts
puts_empty = refl

-- The cursor at home.
abbrev home : Vga
home = record { cells = λ i. 0; cursor_row = 0; cursor_col = 0 }

hex_widths : (put_hex32 home 0).cursor_col ∷ (put_hex64 home 0).cursor_col ∷ [] ≡ 10 ∷ 18 ∷ []
unfolding put_hex32 put_hex64 puts putc put_cell hex_digits
hex_widths = refl

dec_width : put_dec32 home 120 ≡ some (puts home (codes "120"))
unfolding put_dec32 puts putc put_cell dec_digits dec_loop
dec_width = refl

puts-OnScreen_example :
    OnScreen (puts last_line (codes "ok"))
    × ((puts last_line (codes "ok")).cells 2000 ≡ last_line.cells 2000)
puts-OnScreen_example = puts-OnScreen last_line (codes "ok") 2000 last_line-OnScreen (omega arith)

dec_digits-Printed_example :
    (s : List ℕ) × (dec_digits 4294967295 ≡ some s)
    × (all_digits s ≡ true)
    × (dec_value 0 s ≡ 4294967295)
    × (length s ≤ 10)
dec_digits-Printed_example = dec_digits-Printed 4294967295 (omega arith)
