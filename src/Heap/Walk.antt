-- ===== src/Heap/Walk.antt =====
-- The walks over the blocks of kernel/kheap.c end, at the block that fits first or at the last one.
use mars_os.Base.{
  ℕ, zero, suc, ◌+◌, ◌*◌, ◌≤◌, ◌<◌, ◌≡◌, refl, ◌∙◌, ap, true, false, ◌&&◌, List, [], ◌∷◌, ◌++◌,
  some, ◌==◌, leb, if◌then◌else◌, arith, Bool-cases, inl, inr,
}
use mars_os.Heap.{Block, first_fit, tail_loop}
use mars_os.Heap.Cells.{Cell, span, has_fit, span-append}
use mars_os.Heap.Chain.{IsLinked}

-- The pointer to the block at `a` in a heap that ends at `e`.
abbrev pub link : ℕ → ℕ → ℕ
link e a = if a == e then 0 else a

-- The address of the first block that fits, 0 if none does.
unfoldable pub fit_at : ℕ → ℕ → List Cell → ℕ
fit_at want a [] = 0
fit_at want a (c ∷ cs) = if c.free && leb want c.size then a else fit_at want (a + 16 + c.size) cs

first_fit-hit :
    (rounds : ℕ) (st : ℕ → Block) (a want : ℕ)
    → (a == 0) ≡ false
    → (st a).free && leb want (st a).size ≡ true
    → first_fit (suc rounds) st a want ≡ some a
unfolding first_fit
first_fit-hit rounds st a want there hit = ground arith

first_fit-miss :
    (rounds : ℕ) (st : ℕ → Block) (a want : ℕ)
    → (a == 0) ≡ false
    → (st a).free && leb want (st a).size ≡ false
    → first_fit (suc rounds) st a want ≡ first_fit rounds st (st a).next want
unfolding first_fit
first_fit-miss rounds st a want there miss = ground arith

tail_loop-end :
    (rounds : ℕ) (st : ℕ → Block) (a : ℕ) → (st a).next ≡ 0 → tail_loop (suc rounds) st a ≡ some a
unfolding tail_loop
tail_loop-end rounds st a end_ = ground arith

tail_loop-next :
    (rounds : ℕ) (st : ℕ → Block) (a : ℕ)
    → ((st a).next == 0) ≡ false
    → tail_loop (suc rounds) st a ≡ tail_loop rounds st (st a).next
unfolding tail_loop
tail_loop-next rounds st a more = ground arith

pub first_fit-fit_at :
    (rounds e : ℕ) (st : ℕ → Block) (prev a want : ℕ) (cs : List Cell)
    → IsLinked e st prev a cs
    → a + span cs ≡ e
    → 0 < a
    → span cs < 16 * rounds
    → first_fit rounds st (link e a) want ≡ some (fit_at want a cs)
unfolding first_fit IsLinked span fit_at
first_fit-fit_at zero e st prev a want cs l whole start enough = absurd (omega arith)
first_fit-fit_at (suc rounds) e st prev a want [] l whole start enough =
    let last : (a == e) ≡ true = ground arith in rw last refl
first_fit-fit_at (suc rounds) e st prev a want (c ∷ cs) (b, l) whole start enough =
    let more : (a == e) ≡ false = ground arith in
    let there : (a == 0) ≡ false = ground arith in
    let rest =
      first_fit-fit_at rounds e st a (a + 16 + c.size) want cs l (omega arith) (omega arith)
        (omega arith) in
    let here : link e a ≡ a = rw more refl in
    let test : (st a).free && leb want (st a).size ≡ (c.free && leb want c.size) =
      rw b.free_eq (rw b.size_eq refl) in
    ap (λ p. first_fit (suc rounds) st p want) here
    ∙ elim (Bool-cases (c.free && leb want c.size)) [
      | inl hit ↦ first_fit-hit rounds st a want there (test ∙ hit) ∙ rw hit refl
      | inr miss ↦
          first_fit-miss rounds st a want there (test ∙ miss)
          ∙ ap (λ p. first_fit rounds st p want) b.next_eq
          ∙ rest
          ∙ rw miss refl
    ]

pub fit_at-none : (want a : ℕ) (cs : List Cell) → has_fit want cs ≡ false → fit_at want a cs ≡ 0
unfolding fit_at has_fit
fit_at-none want a [] h = refl
fit_at-none want a (c ∷ cs) h = ground (arith, fit_at-none want (a + 16 + c.size) cs (ground arith))

pub fit_at-place :
    (want a : ℕ) (xs : List Cell) (c : Cell) (ys : List Cell)
    → has_fit want xs ≡ false
    → c.free ≡ true
    → want ≤ c.size
    → fit_at want a (xs ++ (c ∷ ys)) ≡ a + span xs
unfolding fit_at has_fit span
fit_at-place want a [] c ys h free fits = ground arith
fit_at-place want a (x ∷ xs) c ys h free fits =
    ground (arith, fit_at-place want (a + 16 + x.size) xs c ys (ground arith) free fits)

pub tail_loop-last :
    (rounds e : ℕ) (st : ℕ → Block) (prev a : ℕ) (ws : List Cell) (z : Cell)
    → IsLinked e st prev a (ws ++ (z ∷ []))
    → a + span (ws ++ (z ∷ [])) ≡ e
    → span (ws ++ (z ∷ [])) < 16 * rounds
    → tail_loop rounds st a ≡ some (a + span ws)
unfolding tail_loop IsLinked span
tail_loop-last zero e st prev a ws z l whole enough = absurd (omega arith)
tail_loop-last (suc rounds) e st prev a [] z (b, _) whole enough =
    let end_ : (st a).next ≡ 0 = ground (arith, b.next_eq) in
    let here : a ≡ a + 0 = omega arith in tail_loop-end rounds st a end_ ∙ ap some here
tail_loop-last (suc rounds) e st prev a (w ∷ ws) z (b, l) whole enough =
    let n = a + 16 + w.size in
    let later = span-append ws (z ∷ []) in
    let next : (st a).next ≡ n = ground (arith, b.next_eq, later) in
    let more : ((st a).next == 0) ≡ false = ground arith in
    let rest = tail_loop-last rounds e st a n ws z l (omega arith) (omega arith) in
    let there : n + span ws ≡ a + (16 + w.size + span ws) = omega arith in
    tail_loop-next rounds st a more ∙ ap (tail_loop rounds st) next ∙ rest ∙ ap some there
