-- ===== src/Vga/Screen.antt =====
-- kernel/vga.c: the cursor stays on the screen, and so does what is written.
use mars_os.Base.{
  ℕ, zero, suc, ◌+◌, ◌-◌, ◌*◌, ◌%◌, ◌^◌, ◌≤◌, ◌<◌, ◌≡◌, refl, sym, ◌∙◌, ap, ◌&&◌, List, [], ◌∷◌,
  ◌==◌, leb, ltb, if◌then◌else◌, arith, Bool-cases, inl, inr,
}
use mathlib.Core.Path.{subst}
use mars_os.Vga.{
  Vga, blank, write, copy_cols, copy_rows, clear_cells, scroll, newline, backspace, put_cell, putc,
  puts, clear,
}

copy_cols-cell :
    (left row col : ℕ) (cells : ℕ → ℕ) (j : ℕ)
    → 0 < row
    → col + left ≡ 80
    → copy_cols left row col cells j
      ≡ (if leb ((row - 1) * 80 + col) j && ltb j (row * 80) then cells (j + 80) else cells j)
unfolding copy_cols
copy_cols-cell zero row col cells j h e = ground arith
copy_cols-cell (suc left) row col cells j h e =
    let rest =
      copy_cols-cell left row (col + 1)
        (write cells ((row - 1) * 80 + col) (cells (row * 80 + col))) j h (omega arith) in
    elim (Bool-cases ((row - 1) * 80 + col == j)) [
      | inl here ↦
          let k : row * 80 + col ≡ j + 80 = ground arith in ground (arith, rest, ap cells k)
      | inr other ↦ ground (arith, rest)
    ]

copy_rows-cell :
    (left row : ℕ) (cells : ℕ → ℕ) (j : ℕ)
    → 0 < row
    → row + left ≡ 25
    → copy_rows left row cells j
      ≡ (if leb ((row - 1) * 80) j && ltb j 1920 then cells (j + 80) else cells j)
unfolding copy_rows
copy_rows-cell zero row cells j h e = ground arith
copy_rows-cell (suc left) row cells j h e =
    let next : ℕ → ℕ = copy_cols 80 row 0 cells in
    let rest = copy_rows-cell left (row + 1) next j (omega arith) (omega arith) in
    ground (
      arith,
      rest,
      copy_cols-cell 80 row 0 cells j h refl,
      copy_cols-cell 80 row 0 cells (j + 80) h refl,
    )

clear_cells-cell :
    (left i : ℕ) (cells : ℕ → ℕ) (j : ℕ)
    → clear_cells left i cells j ≡ (if leb i j && ltb j (i + left) then blank else cells j)
unfolding clear_cells
clear_cells-cell zero i cells j = ground arith
clear_cells-cell (suc left) i cells j =
    ground (arith, clear_cells-cell left (i + 1) (write cells i blank) j)

-- Scrolling moves every row up and blanks the last, and writes nowhere else.
pub scroll-cells :
    (v : Vga) (j : ℕ)
    → (scroll v).cells j
      ≡ (if ltb j 1920 then v.cells (j + 80) else if ltb j 2000 then blank else v.cells j)
unfolding scroll
scroll-cells v j =
    ground
      (arith, clear_cells-cell 80 1920 (copy_rows 24 1 v.cells) j, copy_rows-cell 24 1 v.cells j)

pub record OnScreen (v : Vga) : Type 0 where
  pub row_in : v.cursor_row < 25
  pub col_in : v.cursor_col ≤ 80

newline-OnScreen : (v : Vga) → OnScreen v → OnScreen (newline v) × ((newline v).cursor_col ≡ 0)
unfolding newline
newline-OnScreen v s = elim (Bool-cases (leb 25 ((v.cursor_row + 1) % 2 ^ 32))) [
  | inl full ↦ (record { row_in = ground arith; col_in = ground arith }, ground arith)
  | inr room ↦ (record { row_in = ground arith; col_in = ground arith }, ground arith)
]

backspace-OnScreen : (v : Vga) → OnScreen v → OnScreen (backspace v)
unfolding backspace
backspace-OnScreen v s = record {
  row_in = ground (arith, s.row_in, s.col_in);
  col_in = ground (arith, s.row_in, s.col_in);
}

put_cell-OnScreen : (v : Vga) (c : ℕ) → OnScreen v → v.cursor_col < 80 → OnScreen (put_cell v c)
unfolding put_cell
put_cell-OnScreen v c s h = record { row_in = s.row_in; col_in = omega arith }

-- A character keeps the cursor on the screen, whichever it is.
pub putc-OnScreen : (v : Vga) (c : ℕ) → OnScreen v → OnScreen (putc v c)
putc-OnScreen v c s = elim (Bool-cases (c == 10)) [
  | inl line ↦
      let e : putc v c ≡ newline v = unfold putc in (ground arith) in
      subst OnScreen (sym e) (newline-OnScreen v s).0
  | inr other ↦ elim (Bool-cases (c == 8)) [
    | inl back ↦
        let e : putc v c ≡ backspace v = unfold putc in (ground arith) in
        subst OnScreen (sym e) (backspace-OnScreen v s)
    | inr plain ↦ elim (Bool-cases (leb 80 v.cursor_col)) [
      | inl wide ↦
          let e : putc v c ≡ put_cell (newline v) c = unfold putc in (ground arith) in
          let (t, z) = newline-OnScreen v s in
          subst OnScreen (sym e) (put_cell-OnScreen (newline v) c t (omega (arith, z)))
      | inr fits ↦
          let e : putc v c ≡ put_cell v c = unfold putc in (ground arith) in
          subst OnScreen (sym e) (put_cell-OnScreen v c s (ground arith))
    ]
  ]
]

-- Cell `j` is as it was.
abbrev Keeps : ℕ → Vga → Vga → Type 0
Keeps j v q = q.cells j ≡ v.cells j

newline-Keeps : (v : Vga) (j : ℕ) → 2000 ≤ j → Keeps j v (newline v)
unfolding newline
newline-Keeps v j h = ground (arith, scroll-cells v j)

put_cell-Keeps :
    (v : Vga) (c j : ℕ) → OnScreen v → v.cursor_col < 80 → 2000 ≤ j → Keeps j v (put_cell v c)
unfolding put_cell
put_cell-Keeps v c j s h k =
    let n : v.cursor_row * 80 + v.cursor_col < j = omega (arith, s.row_in) in ground arith

backspace-Keeps : (v : Vga) (j : ℕ) → OnScreen v → 2000 ≤ j → Keeps j v (backspace v)
unfolding backspace
backspace-Keeps v j s h = ground (arith, s.row_in, s.col_in)

putc-Keeps : (v : Vga) (c j : ℕ) → OnScreen v → 2000 ≤ j → Keeps j v (putc v c)
putc-Keeps v c j s h = elim (Bool-cases (leb 80 v.cursor_col)) [
  | inl wide ↦
      let (t, z) = newline-OnScreen v s in
      unfold putc in
      (ground (
        arith,
        newline-Keeps v j h,
        backspace-Keeps v j s h,
        put_cell-Keeps (newline v) c j t (omega (arith, z)) h,
      ))
  | inr fits ↦
      unfold putc in
      (ground (
        arith,
        newline-Keeps v j h,
        backspace-Keeps v j s h,
        put_cell-Keeps v c j s (ground arith) h,
      ))
]

-- Printing any text keeps the cursor on the screen and writes no memory beyond its 2000 cells.
pub puts-OnScreen :
    (v : Vga) (s : List ℕ) (j : ℕ)
    → OnScreen v
    → 2000 ≤ j
    → OnScreen (puts v s) × ((puts v s).cells j ≡ v.cells j)
unfolding puts
puts-OnScreen v [] j o h = (o, refl)
puts-OnScreen v (c ∷ s) j o h =
    let (t, k) = puts-OnScreen (putc v c) s j (putc-OnScreen v c o) h in
    elim (Bool-cases (c == 0)) [
      | inl end_ ↦ rw end_ (o, refl)
      | inr more ↦ rw more (t, k ∙ putc-Keeps v c j o h)
    ]

-- Clearing blanks the 2000 cells and no other, and sends the cursor home.
pub clear-cells :
    (v : Vga) (j : ℕ)
    → ((clear v).cells j ≡ (if ltb j 2000 then blank else v.cells j)) × OnScreen (clear v)
unfolding clear
clear-cells v j = (
  ground (arith, clear_cells-cell 2000 0 v.cells j),
  record { row_in = omega arith; col_in = omega arith },
)

-- Typing a printable character and erasing it restores the cursor, if the line had room for it.
pub backspace-putc :
    (v : Vga) (c : ℕ)
    → OnScreen v
    → v.cursor_col < 80
    → 32 ≤ c
    → let q = backspace (putc v c) in
      (q.cursor_row ≡ v.cursor_row)
      × (q.cursor_col ≡ v.cursor_col)
      × (q.cells (v.cursor_row * 80 + v.cursor_col) ≡ blank)
unfolding putc put_cell backspace
backspace-putc v c s room plain =
    let e : (v.cursor_col + 1) % 2 ^ 32 ≡ v.cursor_col + 1 = omega arith in
    (ground (arith, e), ground (arith, e), ground (arith, e))
