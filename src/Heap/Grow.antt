-- ===== src/Heap/Grow.antt =====
-- A page more at the end of the heap of kernel/kheap.c.
use mars_os.Base.{
  ℕ, ◌+◌, ◌^◌, ◌≤◌, ◌<◌, ◌≡◌, refl, sym, ◌∙◌, ap, true, false, List, [], ◌∷◌, ◌++◌, ◌==◌, arith,
  Bool-cases, inl, inr,
}
use mathlib.Core.Path.{subst}
use mars_os.Heap.{Block, put, add_page, add32, header}
use mars_os.Heap.Cells.{Cell, span, grow, span-append}
use mars_os.Heap.Chain.{IsBlock, IsLinked, IsLinked-parts, IsLinked-append, IsLinked-local, last_of}

-- The blocks before the last have the same links in a longer heap.
IsLinked-longer :
    (e e' : ℕ) (st : ℕ → Block) (prev a : ℕ) (cs : List Cell)
    → IsLinked e st prev a cs
    → a + span cs < e
    → e ≤ e'
    → IsLinked e' st prev a cs
unfolding IsLinked span
IsLinked-longer e e' st prev a [] l h g = tt
IsLinked-longer e e' st prev a (c ∷ cs) (b, l) h g = (
  record {
    size_eq = b.size_eq;
    free_eq = b.free_eq;
    next_eq = ground (arith, b.next_eq);
    prev_eq = b.prev_eq;
  },
  IsLinked-longer e e' st a (a + 16 + c.size) cs l (omega arith) g,
)

grow-snoc : (ws : List Cell) (z : Cell) → grow (ws ++ (z ∷ [])) ≡ ws ++ grow (z ∷ [])
unfolding grow
grow-snoc [] z = refl
grow-snoc (w ∷ []) z = refl
grow-snoc (w ∷ v ∷ ws) z = ap (λ t. w ∷ t) (grow-snoc (v ∷ ws) z)

grow-free : (z : Cell) → z.free ≡ true → grow (z ∷ []) ≡ record z { size = z.size + 4096 } ∷ []
unfolding grow
grow-free z f = ground arith

grow-held :
    (z : Cell) → z.free ≡ false → grow (z ∷ []) ≡ z ∷ record { size = 4080; free = true } ∷ []
unfolding grow
grow-held z f = ground arith

module _ (e : ℕ) (st : ℕ → Block) (a : ℕ) (ws : List Cell) (z : Cell)
    (l : IsLinked e st 0 a (ws ++ (z ∷ []))) (whole : a + span (ws ++ (z ∷ [])) ≡ e)
    (bound : e + 4096 < 2 ^ 32) (start : 16 ≤ a) where
  abbrev at : ℕ
  at = a + span ws

  ends : at + 16 + z.size ≡ e
  unfolding span
  ends = omega (arith, span-append ws (z ∷ []), whole)

  here : IsBlock e (st at) (last_of 0 a ws) at z
  unfolding IsLinked
  here = (IsLinked-parts e st 0 a ws (z ∷ []) l).1.0

  abbrev last_block : ℕ → Block
  last_block = put st at (record (st at) { size = z.size + 4096 })

  abbrev added : Block
  added = record { size = 4080; free = true; next = 0; prev = at }

  abbrev new_block : ℕ → Block
  new_block = put (put st e added) at (record (st at) { next = e })

  add_page-free : z.free ≡ true → add_page st at ≡ last_block
  unfolding add_page
  add_page-free f =
      let size : add32 (st at).size 4096 ≡ z.size + 4096 = ground (arith, here.size_eq, ends) in
      let free : (st at).free ≡ true = here.free_eq ∙ f in rw size (rw free refl)

  add_page-held : z.free ≡ false → add_page st at ≡ new_block
  unfolding add_page
  add_page-held f =
      let free : (st at).free ≡ false = here.free_eq ∙ f in
      let q : add32 (add32 at header) (st at).size ≡ e = ground (arith, here.size_eq, ends) in
      let apart : (at == e) ≡ false = ground (arith, ends) in rw free (rw q (rw apart refl))

  front : (st' : ℕ → Block) → ((x : ℕ) → x < at → st' x ≡ st x) → IsLinked (e + 4096) st' 0 a ws
  front st' same =
      IsLinked-local (e + 4096) st st' 0 a ws
        (IsLinked-longer e (e + 4096) st 0 a ws (IsLinked-parts e st 0 a ws (z ∷ []) l).0
          (omega (arith, ends)) (omega arith))
        (λ x g h. same x h)

  last_block-IsLinked :
      IsLinked (e + 4096) last_block (last_of 0 a ws) at (record z { size = z.size + 4096 } ∷ [])
  unfolding IsLinked
  last_block-IsLinked =
      let hit : (at == at) ≡ true = ground arith in
      let end_ : (at + 16 + (z.size + 4096) == e + 4096) ≡ true = ground (arith, ends) in
      let stop : (st at).next ≡ 0 = ground (arith, here.next_eq, ends) in
      rw hit (
        record {
          size_eq = refl;
          free_eq = here.free_eq;
          next_eq = rw end_ stop;
          prev_eq = here.prev_eq;
        },
        tt,
      )

  new_block-IsLinked :
      IsLinked
        (e + 4096)
        new_block
        (last_of 0 a ws)
        at
        (z ∷ record { size = 4080; free = true } ∷ [])
  unfolding IsLinked
  new_block-IsLinked =
      let hit : (at == at) ≡ true = ground arith in
      let q : at + 16 + z.size ≡ e = ends in
      let apart : (e == at) ≡ false = ground (arith, ends) in
      let hit_e : (e == e) ≡ true = ground arith in
      let first : new_block at ≡ record (st at) { next = e } = rw hit refl in
      let second : new_block e ≡ added = rw apart (rw hit_e refl) in
      let inner : (e == e + 4096) ≡ false = ground arith in
      let end_ : (e + 16 + 4080 == e + 4096) ≡ true = ground arith in
      (
        subst (λ w. IsBlock (e + 4096) w (last_of 0 a ws) at z) (sym first)
            record {
              size_eq = here.size_eq;
              free_eq = here.free_eq;
              next_eq = rw q (rw inner refl);
              prev_eq = here.prev_eq;
            },
        (
          rw q (
              subst (λ w. IsBlock (e + 4096) w at e record { size = 4080; free = true })
                (sym second)
                record { size_eq = refl; free_eq = refl; next_eq = rw end_ refl; prev_eq = refl }),
          tt,
        ),
      )

  -- The new page is a block at the end, or belongs to the last one if that is free.
  pub add_page-IsLinked : IsLinked (e + 4096) (add_page st at) 0 a (grow (ws ++ (z ∷ [])))
  add_page-IsLinked =
      let on = λ (st' : ℕ → Block) (cs : List Cell) (same : (x : ℕ) → x < at → st' x ≡ st x).
        IsLinked-append (e + 4096) st' 0 a ws cs (front st' same) in
      subst (IsLinked (e + 4096) (add_page st at) 0 a) (sym (grow-snoc ws z))
        (elim (Bool-cases z.free) [
          | inl f ↦ rw (add_page-free f) (
              subst (λ t. IsLinked (e + 4096) last_block 0 a (ws ++ t)) (sym (grow-free z f))
                (on last_block _ (λ x h. let m : (x == at) ≡ false = ground arith in rw m refl)
                  last_block-IsLinked))
          | inr f ↦ rw (add_page-held f) (
              subst (λ t. IsLinked (e + 4096) new_block 0 a (ws ++ t)) (sym (grow-held z f))
                (on new_block _
                  (λ x h.
                    let m : (x == at) ≡ false = ground arith in
                    let k : (x == e) ≡ false = ground (arith, ends) in rw m (rw k refl))
                  new_block-IsLinked))
        ])
