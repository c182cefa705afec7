-- ===== src/Heap/Absorb.antt =====
-- A block of kernel/kheap.c takes in the one after it.
use mars_os.Base.{
  ℕ, ◌+◌, ◌^◌, ◌≤◌, ◌<◌, ◌≡◌, refl, sym, true, false, List, [], ◌∷◌, ◌++◌, ◌==◌, if◌then◌else◌,
  arith, Bool-cases, inl, inr,
}
use mathlib.Core.Path.{subst}
use mars_os.Heap.{Block, put, absorb, link_back, add32, header}
use mars_os.Heap.Cells.{Cell, span, span-append}
use mars_os.Heap.Chain.{IsBlock, IsLinked, IsLinked-parts, last_of, relink}

module _ (e : ℕ) (st : ℕ → Block) (prev a : ℕ) (xs : List Cell) (b c : Cell) (ys : List Cell)
    (l : IsLinked e st prev a (xs ++ (b ∷ c ∷ ys))) (whole : a + span (xs ++ (b ∷ c ∷ ys)) ≡ e)
    (bound : e < 2 ^ 32) (start : 16 ≤ a) where
  abbrev at : ℕ
  at = a + span xs

  abbrev second : ℕ
  second = at + 16 + b.size

  abbrev third : ℕ
  third = second + 16 + c.size

  ends : third + span ys ≡ e
  unfolding span
  ends = omega (arith, span-append xs (b ∷ c ∷ ys), whole)

  pub here :
      IsBlock e (st at) (last_of prev a xs) at b
      × (IsBlock e (st second) at second c × IsLinked e st second third ys)
  unfolding IsLinked
  here = (IsLinked-parts e st prev a xs (b ∷ c ∷ ys) l).1

  abbrev joined : Cell
  joined = record b { size = b.size + 16 + c.size }

  abbrev absorbed : ℕ → Block
  absorbed =
      let st₁ = put st at (record (st at) { size = joined.size; next = (st second).next }) in
      if third == e then st₁ else put st₁ third (record (st third) { prev = at })

  absorb-eq : absorb st at second ≡ absorbed
  unfolding absorb link_back
  absorb-eq =
      let (f, (s, _)) = here in
      let size : add32 (st at).size (add32 header (st second).size) ≡ joined.size =
        ground (arith, f.size_eq, s.size_eq, ends) in
      rw size (elim (Bool-cases (third == e)) [
        | inl last ↦
            let no_next : (st second).next ≡ 0 = ground (arith, s.next_eq) in
            rw last (rw no_next refl)
        | inr more ↦
            let next : (st second).next ≡ third = ground (arith, s.next_eq) in
            let there : (third == 0) ≡ false = ground arith in
            let apart : (third == at) ≡ false = ground arith in
            rw more (rw next (rw there (rw apart refl)))
      ])

  absorbed-front : absorbed at ≡ record (st at) { size = joined.size; next = (st second).next }
  absorbed-front =
      let hit : (at == at) ≡ true = ground arith in
      let apart : (at == third) ≡ false = ground arith in
      elim (Bool-cases (third == e)) [
        | inl last ↦ rw last (rw hit refl)
        | inr more ↦ rw more (rw apart (rw hit refl))
      ]

  absorbed-next : (third == e) ≡ false → absorbed third ≡ record (st third) { prev = at }
  absorbed-next more = let hit : (third == third) ≡ true = ground arith in rw more (rw hit refl)

  absorbed-other : (x : ℕ) → (x == at) ≡ false → (x == third) ≡ false → absorbed x ≡ st x
  absorbed-other x m k = elim (Bool-cases (third == e)) [
    | inl last ↦ rw last (rw m refl)
    | inr more ↦ rw more (rw k (rw m refl))
  ]

  absorbed-made : IsLinked e absorbed (last_of prev a xs) at (joined ∷ [])
  unfolding IsLinked
  absorbed-made =
      let (f, (s, _)) = here in
      let end_ : at + 16 + (b.size + 16 + c.size) ≡ third = omega arith in
      (
        subst (λ w. IsBlock e w (last_of prev a xs) at joined) (sym absorbed-front)
            record {
              size_eq = refl;
              free_eq = f.free_eq;
              next_eq = rw end_ s.next_eq;
              prev_eq = f.prev_eq;
            },
        tt,
      )

  -- A block that takes in the next one leaves the headers of the blocks with the two joined.
  pub absorb-IsLinked : IsLinked e (absorb st at second) prev a (xs ++ (joined ∷ ys))
  unfolding span last_of
  absorb-IsLinked =
      let m : at + span (b ∷ c ∷ []) ≡ third = omega arith in
      subst (λ w. IsLinked e w prev a (xs ++ (joined ∷ ys))) (sym absorb-eq)
        (relink e st absorbed prev a xs (b ∷ c ∷ []) (joined ∷ []) ys l (omega arith) absorbed-made
          (λ x g h. absorbed-other x (ground arith) (ground arith))
          (
            λ h.
                subst (λ z. absorbed z ≡ record (st z) { prev = at }) (sym m)
                  (absorbed-next (ground (arith, ends))),
            λ x g h. absorbed-other x (ground arith) (ground arith),
          ))
