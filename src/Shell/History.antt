-- ===== src/Shell/History.antt =====
-- The history of the shell of kernel/kernel.c: eight rows, the oldest line first. A row is its text.
use mars_os.Base.{
  ℕ, zero, suc, ◌+◌, ◌-◌, ◌≤◌, ◌<◌, ◌≡◌, refl, sym, ◌∙◌, ap, Bool, true, false, ◌&&◌, ◌||◌, List,
  [], ◌∷◌, ◌++◌, ◌==◌, leb, ltb, if◌then◌else◌, arith, Bool-cases, inl, inr,
}
use mars_os.Base.Text.{str_eq, copy_within}

pub record History : Type 0 where
  pub row : ℕ → List ℕ
  pub history_count : ℕ

abbrev pub shell_line_max : ℕ
shell_line_max = 128

abbrev pub shell_history_max : ℕ
shell_history_max = 8

abbrev write_row : (ℕ → List ℕ) → ℕ → List ℕ → ℕ → List ℕ
write_row row i t = λ x. if x == i then t else row x

pub is_empty : List ℕ → Bool
is_empty [] = true
is_empty (c ∷ s) = c == 0

-- history[row - 1] = history[row] for the `left` rows from `i` on.
pub shift_rows : ℕ → ℕ → (ℕ → List ℕ) → ℕ → List ℕ
shift_rows zero i row = row
shift_rows (suc left) i row = shift_rows left (i + 1) (write_row row (i - 1) (row i))

pub store_history : History → List ℕ → History
unfolding is_empty shift_rows
store_history h line =
    let copy = copy_within (shell_line_max - 1) line in
    if is_empty line
    then h
    else if ltb 0 h.history_count && str_eq (h.row (h.history_count - 1)) line
    then h
    else if ltb h.history_count shell_history_max
    then record h {
      row = write_row h.row h.history_count copy;
      history_count = h.history_count + 1;
    }
    else record h {
      row = write_row (shift_rows (shell_history_max - 1) 1 h.row) (shell_history_max - 1) copy;
    }

-- The lines from row `i` on.
unfoldable pub lines_from : (ℕ → List ℕ) → ℕ → ℕ → List (List ℕ)
lines_from row zero i = []
lines_from row (suc left) i = row i ∷ lines_from row left (i + 1)

abbrev pub lines : History → List (List ℕ)
lines h = lines_from h.row h.history_count 0

shift_rows_lem :
    (left i : ℕ) (row : ℕ → List ℕ) (x : ℕ)
    → 0 < i
    → shift_rows left i row x
      ≡ (if leb i (x + 1) && ltb (x + 1) (i + left) then row (x + 1) else row x)
unfolding shift_rows
shift_rows_lem zero i row x h = ground arith
shift_rows_lem (suc left) i row x h =
    let next = shift_rows_lem left (i + 1) (write_row row (i - 1) (row i)) x (omega arith) in
    elim (Bool-cases (i == x + 1)) [
      | inl same ↦ let e : row i ≡ row (x + 1) = ap row (ground arith) in ground (arith, next, e)
      | inr other ↦ ground (arith, next)
    ]

lines_from_congr :
    (left i : ℕ) (row row' : ℕ → List ℕ) (shift : ℕ)
    → ((x : ℕ) → i ≤ x → x < i + left → row' x ≡ row (x + shift))
    → lines_from row' left i ≡ lines_from row left (i + shift)
unfolding lines_from
lines_from_congr zero i row row' shift same = refl
lines_from_congr (suc left) i row row' shift same =
    let e : i + 1 + shift ≡ i + shift + 1 = omega arith in
    let rest =
      lines_from_congr left (i + 1) row row' shift (λ x g h. same x (omega arith) (omega arith)) in
    let tail = rest ∙ ap (lines_from row left) e in
    ap (λ t. t ∷ lines_from row' left (i + 1)) (same i (omega arith) (omega arith))
    ∙ ap (λ t. row (i + shift) ∷ t) tail

lines_from-last :
    (left i : ℕ) (row : ℕ → List ℕ)
    → lines_from row (suc left) i ≡ lines_from row left i ++ (row (i + left) ∷ [])
unfolding lines_from
lines_from-last zero i row = let e : i ≡ i + 0 = omega arith in ap (λ n. row n ∷ []) e
lines_from-last (suc left) i row =
    let e : i + 1 + left ≡ i + suc left = omega arith in
    ap (λ t. row i ∷ t)
      (lines_from-last left (i + 1) row ∙ ap (λ n. lines_from row left (i + 1) ++ (row n ∷ [])) e)

unfoldable pub drop_oldest : List (List ℕ) → List (List ℕ)
drop_oldest [] = []
drop_oldest (t ∷ ts) = ts

-- The line is empty, or the newest one once more.
unfoldable pub is_skipped : History → List ℕ → Bool
unfolding is_empty
is_skipped h line =
    is_empty line || ltb 0 h.history_count && str_eq (h.row (h.history_count - 1)) line

skipped : (h : History) (line : List ℕ) → is_skipped h line ≡ true → store_history h line ≡ h
unfolding store_history is_skipped
skipped h line skip = ground arith

module _ (h : History) (line : List ℕ) (kept : is_skipped h line ≡ false) where
  abbrev copy : List ℕ
  copy = copy_within 127 line

  store-room :
      h.history_count < 8
      → store_history h line ≡ record h {
        row = write_row h.row h.history_count copy;
        history_count = h.history_count + 1;
      }
  unfolding store_history is_skipped
  store-room room = ground arith

  store-full :
      8 ≤ h.history_count
      → store_history h line ≡ record h { row = write_row (shift_rows 7 1 h.row) 7 copy }
  unfolding store_history is_skipped
  store-full full = ground arith

  room-lines : h.history_count < 8 → lines (store_history h line) ≡ lines h ++ (copy ∷ [])
  room-lines room =
      let n = h.history_count in
      let row' = write_row h.row n copy in
      let e : n + 1 ≡ suc n = omega arith in
      let old : lines_from row' n 0 ≡ lines_from h.row n 0 =
        lines_from_congr n 0 h.row row' 0 (λ x g l.
          let m : (x == n) ≡ false = ground arith in
          let here : x ≡ x + 0 = omega arith in rw m (ap h.row here)) in
      let hit : (0 + n == n) ≡ true = ground arith in
      let new : row' (0 + n) ≡ copy = rw hit refl in
      ap lines (store-room room)
      ∙ ap (λ k. lines_from row' k 0) e
      ∙ lines_from-last n 0 row'
      ∙ ap (λ t. lines_from row' n 0 ++ (t ∷ [])) new
      ∙ ap (λ t. t ++ (copy ∷ [])) old

  full-lines :
      h.history_count ≡ 8 → lines (store_history h line) ≡ drop_oldest (lines h) ++ (copy ∷ [])
  full-lines full =
      let row' = write_row (shift_rows 7 1 h.row) 7 copy in
      let moved : lines_from row' 7 0 ≡ lines_from h.row 7 1 =
        lines_from_congr 7 0 h.row row' 1 (λ x g l.
          let m : (x == 7) ≡ false = ground arith in
          let in_ : leb 1 (x + 1) && ltb (x + 1) (1 + 7) ≡ true = ground arith in
          rw m (shift_rows_lem 7 1 h.row x (omega arith) ∙ rw in_ refl)) in
      let oldest : drop_oldest (lines h) ≡ lines_from h.row 7 1 =
        ap (λ k. drop_oldest (lines_from h.row k 0)) full
        ∙ (unfold drop_oldest lines_from in refl) in
      ap lines (store-full (omega (arith, full)))
      ∙ ap (λ k. lines_from row' k 0) full
      ∙ lines_from-last 7 0 row'
      ∙ ap (λ t. t ++ (copy ∷ [])) (moved ∙ sym oldest)

-- The history keeps the newest eight lines, in order: a line that is not empty and not the newest one
-- again joins the end, cut to 127 bytes, and the oldest of eight goes.
pub store_history_lem :
    (h : History) (line : List ℕ)
    → h.history_count ≤ 8
    → lines (store_history h line) ≡ (
        if is_skipped h line
        then lines h
        else (if ltb h.history_count 8 then lines h else drop_oldest (lines h))
          ++ (copy_within 127 line ∷ []))
store_history_lem h line bound = elim (Bool-cases (is_skipped h line)) [
  | inl skip ↦ rw skip (ap lines (skipped h line skip))
  | inr kept ↦ elim (Bool-cases (ltb h.history_count 8)) [
    | inl room ↦ rw kept (rw room (room-lines h line kept (ground arith)))
    | inr full ↦ rw kept (rw full (full-lines h line kept (ground arith)))
  ]
]
