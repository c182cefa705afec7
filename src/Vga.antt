-- ===== src/Vga.antt =====
-- kernel/vga.c: the text screen of 25 rows of 80 cells and its cursor. The memory at 0xB8000 is a
-- function from cell numbers to 16-bit words.
pub mod Screen
pub mod Numbers
pub mod Tests
use mars_os.Base.{
  ℕ, zero, suc, ◌+◌, ◌-◌, ◌*◌, ◌/◌, ◌%◌, ◌^◌, Bool, true, false, ◌&&◌, List, [], ◌∷◌, ◌==◌, leb,
  get_or, Option, none, some, if◌then◌else◌,
}
use mars_os.Base.Text.{codes}

pub record Vga : Type 0 where
  pub cells : ℕ → ℕ
  pub cursor_row : ℕ
  pub cursor_col : ℕ

abbrev pub vga_width : ℕ
vga_width = 80

abbrev pub vga_height : ℕ
vga_height = 25

-- The colour 0x07 above a space.
abbrev pub blank : ℕ
blank = 0x0720

abbrev pub cell : ℕ → ℕ
cell c = 0x0700 + c % 2 ^ 8

abbrev pub write : (ℕ → ℕ) → ℕ → ℕ → ℕ → ℕ
write cells i x = λ j. if i == j then x else cells j

-- The columns of a row from `col` on, copied to the row above.
copy_cols : ℕ → ℕ → ℕ → (ℕ → ℕ) → ℕ → ℕ
copy_cols zero row col cells = cells
copy_cols (suc left) row col cells =
    copy_cols left row (col + 1)
      (write cells ((row - 1) * vga_width + col) (cells (row * vga_width + col)))

copy_rows : ℕ → ℕ → (ℕ → ℕ) → ℕ → ℕ
copy_rows zero row cells = cells
copy_rows (suc left) row cells = copy_rows left (row + 1) (copy_cols vga_width row 0 cells)

-- `left` blanks from cell `i` on.
clear_cells : ℕ → ℕ → (ℕ → ℕ) → ℕ → ℕ
clear_cells zero i cells = cells
clear_cells (suc left) i cells = clear_cells left (i + 1) (write cells i blank)

pub scroll : Vga → Vga
scroll v = record v {
  cells =
      clear_cells vga_width ((vga_height - 1) * vga_width) (copy_rows (vga_height - 1) 1 v.cells);
}

pub newline : Vga → Vga
newline v =
    let row = (v.cursor_row + 1) % 2 ^ 32 in
    if leb vga_height row
    then record (scroll v) { cursor_row = vga_height - 1; cursor_col = 0 }
    else record v { cursor_row = row; cursor_col = 0 }

pub backspace : Vga → Vga
backspace v =
    if v.cursor_col == 0 && v.cursor_row == 0
    then v
    else (let row = if v.cursor_col == 0 then v.cursor_row - 1 else v.cursor_row in
        let col = (if v.cursor_col == 0 then vga_width else v.cursor_col) - 1 in
        record {
          cells = write v.cells (row * vga_width + col) blank;
          cursor_row = row;
          cursor_col = col;
        })

-- The store at the cursor, which then moves on.
pub put_cell : Vga → ℕ → Vga
put_cell v c = record v {
  cells = write v.cells (v.cursor_row * vga_width + v.cursor_col) (cell c);
  cursor_col = (v.cursor_col + 1) % 2 ^ 32;
}

pub putc : Vga → ℕ → Vga
putc v c =
    if c == 10
    then newline v
    else if c == 8
    then backspace v
    else if leb vga_width v.cursor_col
    then put_cell (newline v) c
    else put_cell v c

pub puts : Vga → List ℕ → Vga
puts v [] = v
puts v (c ∷ s) = let rest = puts (putc v c) s in if c == 0 then v else rest

-- The digits of the `left` lowest nibbles, the highest first.
unfoldable pub hex_digits : ℕ → ℕ → List ℕ
hex_digits zero value = []
hex_digits (suc left) value =
    get_or (codes "0123456789ABCDEF") (value / 16 ^ left % 16) 0 ∷ hex_digits left value

pub put_hex32 : Vga → ℕ → Vga
put_hex32 v value = puts (puts v (codes "0x")) (hex_digits 8 value)

pub put_hex64 : Vga → ℕ → Vga
put_hex64 v value = puts (puts v (codes "0x")) (hex_digits 16 value)

-- The buffer with its last byte first; `none` where the rounds do not suffice.
pub dec_loop : ℕ → ℕ → List ℕ → Option (List ℕ)
dec_loop zero value buf = if value == 0 then some buf else none
dec_loop (suc rounds) value buf =
    let more = dec_loop rounds (value / 10) ((48 + value % 10) ∷ buf) in
    if value == 0 then some buf else more

unfoldable pub dec_digits : ℕ → Option (List ℕ)
dec_digits value = if value == 0 then some (codes "0") else dec_loop 10 value []

pub put_dec32 : Vga → ℕ → Option Vga
put_dec32 v value = elim (dec_digits value) [ none ↦ none | some s ↦ some (puts v s) ]

pub clear : Vga → Vga
clear v = record {
  cells = clear_cells (vga_width * vga_height) 0 v.cells;
  cursor_row = 0;
  cursor_col = 0;
}
