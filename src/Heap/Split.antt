-- ===== src/Heap/Split.antt =====
-- A block of kernel/kheap.c is given away, its rest split off.
use mars_os.Base.{
  ℕ, ◌+◌, ◌-◌, ◌^◌, ◌≤◌, ◌<◌, ◌≡◌, refl, sym, ◌∙◌, ap, Bool, true, false, List, [], ◌∷◌, ◌++◌, ◌==◌,
  leb, if◌then◌else◌, arith, Bool-cases, inl, inr,
}
use mathlib.Core.Path.{subst, fun_ext}
use mars_os.Heap.{Block, put, split_block, link_back, add32, sub32, header}
use mars_os.Heap.Cells.{Cell, span, split, span-split, span-append}
use mars_os.Heap.Chain.{IsBlock, IsLinked, IsLinked-parts, last_of, relink, first-prev}

-- The headers after a block is given away.
abbrev pub used_up : (ℕ → Block) → ℕ → ℕ → ℕ → Block
used_up st p want = let st' = split_block st p want in put st' p (record (st' p) { free = false })

module _ (e : ℕ) (st : ℕ → Block) (prev p want : ℕ) (c : Cell) (b : IsBlock e (st p) prev p c)
    (bound : e < 2 ^ 32) (inside : p + 16 + c.size ≤ e) (fits : want ≤ c.size)
    (start : 16 ≤ p) where
  abbrev n : ℕ
  n = p + 16 + c.size

  abbrev small : Bool
  small = leb c.size (want + 24)

  test : leb (st p).size (add32 (add32 want header) 8) ≡ small
  test = ground (arith, b.size_eq)

  used_up-whole : small ≡ true → used_up st p want ≡ put st p (record (st p) { free = false })
  unfolding split_block
  used_up-whole s = rw test (rw s refl)

  abbrev q : ℕ
  q = p + 16 + want

  abbrev rest : Block
  rest = record { size = c.size - want - 16; free = true; next = (st p).next; prev = p }

  abbrev cut_store : ℕ → Block
  cut_store =
      let st₁ = put st q rest in
      let st₂ = if n == e then st₁ else put st₁ n (record (st n) { prev = q }) in
      put st₂ p (record (st p) { next = q; size = want; free = false })

  pub cut_store-front : cut_store p ≡ record (st p) { next = q; size = want; free = false }
  cut_store-front = let hit : (p == p) ≡ true = ground arith in rw hit refl

  pub cut_store-rest : small ≡ false → cut_store q ≡ rest
  cut_store-rest s =
      let qp : (q == p) ≡ false = ground arith in
      let hit : (q == q) ≡ true = ground arith in
      let qn : (q == n) ≡ false = ground arith in
      elim (Bool-cases (n == e)) [
        | inl last ↦ rw qp (rw last (rw hit refl))
        | inr more ↦ rw qp (rw more (rw qn (rw hit refl)))
      ]

  pub cut_store-next : (n == e) ≡ false → cut_store n ≡ record (st n) { prev = q }
  cut_store-next more =
      let np : (n == p) ≡ false = ground arith in
      let hit : (n == n) ≡ true = ground arith in rw np (rw more (rw hit refl))

  pub cut_store-other :
      (x : ℕ) → (x == p) ≡ false → (x == q) ≡ false → (x == n) ≡ false → cut_store x ≡ st x
  cut_store-other x xp xq xn = elim (Bool-cases (n == e)) [
    | inl last ↦ rw xp (rw last (rw xq refl))
    | inr more ↦ rw xp (rw more (rw xn (rw xq refl)))
  ]

  used_up-cut : (x : ℕ) → small ≡ false → used_up st p want x ≡ cut_store x
  unfolding split_block link_back
  used_up-cut x s =
      let pp : (p == p) ≡ true = ground arith in
      let at_q : add32 (add32 p header) want ≡ q = ground arith in
      let left : sub32 (sub32 (st p).size want) header ≡ c.size - want - 16 =
        ground (arith, b.size_eq) in
      let pq : (p == q) ≡ false = ground arith in
      rw test (
        rw s (
          rw at_q (
            rw left (
              rw pq (elim (Bool-cases (n == e)) [
                | inl last ↦
                    let no_next : (st p).next ≡ 0 = ground (arith, b.next_eq) in
                    rw last (
                      rw no_next (
                        rw pq (
                          rw pp (elim (Bool-cases (x == p)) [
                            | inl hit ↦ rw hit refl
                            | inr miss ↦ rw miss refl
                          ]))))
                | inr more ↦
                    let next : (st p).next ≡ n = ground (arith, b.next_eq) in
                    let there : (n == 0) ≡ false = ground arith in
                    let nq : (n == q) ≡ false = ground arith in
                    let pn : (p == n) ≡ false = ground arith in
                    rw more (
                      rw next (
                        rw there (
                          rw nq (
                            rw pn (
                              rw pq (
                                rw pp (elim (Bool-cases (x == p)) [
                                  | inl hit ↦ rw hit refl
                                  | inr miss ↦ rw miss refl
                                ])))))))
              ])))))

module _ (e : ℕ) (st : ℕ → Block) (prev a want : ℕ) (xs : List Cell) (c : Cell) (ys : List Cell)
    (l : IsLinked e st prev a (xs ++ (c ∷ ys))) (whole : a + span (xs ++ (c ∷ ys)) ≡ e)
    (bound : e < 2 ^ 32) (start : 16 ≤ a) (fits : want ≤ c.size) where
  abbrev at : ℕ
  at = a + span xs

  abbrev before : ℕ
  before = last_of prev a xs

  ends : at + 16 + c.size + span ys ≡ e
  unfolding span
  ends = omega (arith, span-append xs (c ∷ ys), whole)

  here : IsBlock e (st at) before at c
  unfolding IsLinked
  here = (IsLinked-parts e st prev a xs (c ∷ ys) l).1.0

  inside : at + 16 + c.size ≤ e
  inside = omega (arith, ends)

  -- The headers of the one or two blocks that are made, and what becomes of the others.
  record Cut (st' : ℕ → Block) : Type 0 where
    made : IsLinked e st' before at (split want c)
    size_is : (st' at).size ≡ (if leb c.size (want + 24) then c.size else want)
    lower : (x : ℕ) → x < at → st' x ≡ st x
    next :
        0 < span ys
        → st' (at + 16 + c.size)
          ≡ record (st (at + 16 + c.size)) { prev = last_of before at (split want c) }
    higher : (x : ℕ) → at + 16 + c.size < x → st' x ≡ st x

  -- The block after the one that is taken has it before itself.
  old_next : 0 < span ys → st (at + 16 + c.size) ≡ record (st (at + 16 + c.size)) { prev = at }
  old_next some_ =
      let rest = (IsLinked-parts e st prev a xs (c ∷ ys) l).1 in
      first-prev e st at (at + 16 + c.size) ys (unfold IsLinked in rest.1) some_

  whole-Cut : leb c.size (want + 24) ≡ true → Cut (put st at (record (st at) { free = false }))
  unfolding IsLinked split last_of
  whole-Cut s =
      let hit : (at == at) ≡ true = ground arith in
      let miss : (at + 16 + c.size == at) ≡ false = ground arith in
      record {
        made = rw s (
            rw hit (
              record {
                size_eq = here.size_eq;
                free_eq = refl;
                next_eq = here.next_eq;
                prev_eq = here.prev_eq;
              },
              tt,
            ));
        size_is = rw s (rw hit here.size_eq);
        lower = λ x h. let miss : (x == at) ≡ false = ground arith in rw miss refl;
        next = λ h. rw s (rw miss (old_next h));
        higher = λ x h. let miss : (x == at) ≡ false = ground arith in rw miss refl;
      }

  cut_store-Cut :
      leb c.size (want + 24) ≡ false
      → Cut (cut_store e st before at want c here bound inside fits (omega arith))
  unfolding IsLinked split last_of
  cut_store-Cut s =
      let front = cut_store-front e st before at want c here bound inside fits (omega arith) in
      let rest_ = cut_store-rest e st before at want c here bound inside fits (omega arith) s in
      let other = cut_store-other e st before at want c here bound inside fits (omega arith) in
      let far : (at + 16 + want == e) ≡ false = ground (arith, inside) in
      let end_ : at + 16 + want + 16 + (c.size - want - 16) ≡ at + 16 + c.size = ground arith in
      record {
        made = rw s (
          subst (λ w. IsBlock e w before at record { size = want; free = false }) (sym front)
              record {
                size_eq = refl;
                free_eq = refl;
                next_eq = rw far refl;
                prev_eq = here.prev_eq;
              },
          (
            subst
                (λ w.
                  IsBlock e w at (at + 16 + want) record { size = c.size - want - 16; free = true })
                (sym rest_)
                record {
                  size_eq = refl;
                  free_eq = refl;
                  next_eq = rw end_ here.next_eq;
                  prev_eq = refl;
                },
            tt,
          ),
        );
        size_is = rw s (ap (λ w. w.size) front);
        lower = λ x h. other x (ground arith) (ground arith) (ground arith);
        next = λ h. rw s (
            cut_store-next e st before at want c here bound inside fits (omega arith)
              (ground (arith, ends)));
        higher = λ x h. other x (ground arith) (ground arith) (ground arith);
      }

  taken_store-Cut : Cut (used_up st at want)
  taken_store-Cut = elim (Bool-cases (leb c.size (want + 24))) [
    | inl s ↦
        subst Cut (sym (used_up-whole e st before at want c here bound inside fits (omega arith) s))
          (whole-Cut s)
    | inr s ↦
        subst Cut
          (sym (
            fun_ext
              (λ x. used_up-cut e st before at want c here bound inside fits (omega arith) x s)))
          (cut_store-Cut s)
  ]

  -- Giving a free block away leaves the headers of the blocks with that one split.
  pub used_up-IsLinked : IsLinked e (used_up st at want) prev a (xs ++ (split want c ++ ys))
  used_up-IsLinked =
      let k = taken_store-Cut in
      let m : at + span (c ∷ []) ≡ at + 16 + c.size = unfold span in (omega arith) in
      relink e st (used_up st at want) prev a xs (c ∷ []) (split want c) ys l
        (span-split want c fits ∙ (unfold span in (omega arith))) k.made (λ x g h. k.lower x h)
        (
          λ h.
              subst
                (λ z.
                  used_up st at want z ≡ record (st z) { prev = last_of before at (split want c) })
                (sym m) (k.next h),
          λ x g h. k.higher x (omega (arith, m)),
        )

  -- The size in the header of the block that is given away.
  pub used_up-size :
      (used_up st at want at).size ≡ (if leb c.size (want + 24) then c.size else want)
  used_up-size = taken_store-Cut.size_is
