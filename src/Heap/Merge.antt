-- ===== src/Heap/Merge.antt =====
-- A block of kernel/kheap.c is given back, and joined with its neighbours.
use mars_os.Base.{
  ℕ, ◌+◌, ◌^◌, ◌≤◌, ◌<◌, ◌≡◌, refl, sym, ◌∙◌, ap, Bool, true, false, List, [], ◌∷◌, ◌++◌,
  append_assoc, ◌==◌, if◌then◌else◌, arith,
}
use mathlib.Core.Path.{subst}
use mars_os.Heap.{Block, put, absorb, merge_next, merge_prev, coalesce}
use mars_os.Heap.Cells.{
  Cell, span, span-append, join_next, join_prev, release, release-snoc, Snoc, snoc,
}
use mars_os.Heap.Chain.{IsBlock, IsLinked, IsLinked-parts, last_of, relink, first-prev}
use mars_os.Heap.Absorb.{absorb-IsLinked, here}

module _ (e : ℕ) (st : ℕ → Block) (prev a : ℕ) (xs : List Cell) (c : Cell) (ys : List Cell)
    (l : IsLinked e st prev a (xs ++ (c ∷ ys))) (whole : a + span (xs ++ (c ∷ ys)) ≡ e)
    (bound : e < 2 ^ 32) (start : 16 ≤ a) where
  abbrev spot : ℕ
  spot = a + span xs

  pub found :
      IsBlock e (st spot) (last_of prev a xs) spot c × IsLinked e st spot (spot + 16 + c.size) ys
  unfolding IsLinked
  found = (IsLinked-parts e st prev a xs (c ∷ ys) l).1

  pub freed-IsLinked :
      IsLinked e
        (put st spot (record (st spot) { free = true }))
        prev
        a
        (xs ++ (record c { free = true } ∷ ys))
  unfolding IsLinked span last_of
  freed-IsLinked =
      let (f, rest) = found in
      let hit : (spot == spot) ≡ true = ground arith in
      let m : spot + span (c ∷ []) ≡ spot + 16 + c.size = omega arith in
      let n = spot + 16 + c.size in
      let st' = put st spot (record (st spot) { free = true }) in
      let other : (x : ℕ) → (x == spot) ≡ false → st' x ≡ st x = λ x h. rw h refl in
      let far : (n == spot) ≡ false = ground arith in
      relink e st st' prev a xs (c ∷ []) (record c { free = true } ∷ []) ys l refl
        (rw hit (
          record { size_eq = f.size_eq; free_eq = refl; next_eq = f.next_eq; prev_eq = f.prev_eq },
          tt,
        ))
        (λ x g h. other x (ground arith))
        (
          λ h.
              subst (λ z. st' z ≡ record (st z) { prev = spot }) (sym m)
                (rw far (first-prev e st spot n ys rest h)),
          λ x g h. other x (ground arith),
        )

merge_next-eq :
    (st : ℕ → Block) (p n : ℕ) (free : Bool)
    → (st p).next ≡ n
    → (n == 0) ≡ false
    → (st n).free ≡ free
    → merge_next st p ≡ (if free then absorb st p n else st)
unfolding merge_next
merge_next-eq st p n free next there f = rw next (rw there (rw f refl))

merge_next-end : (st : ℕ → Block) (p : ℕ) → (st p).next ≡ 0 → merge_next st p ≡ st
unfolding merge_next
merge_next-end st p e = rw e refl

merge_prev-eq :
    (st : ℕ → Block) (p r : ℕ) (free : Bool)
    → (st p).prev ≡ r
    → (r == 0) ≡ false
    → (st r).free ≡ free
    → merge_prev st p ≡ (if free then absorb st r p else st)
unfolding merge_prev
merge_prev-eq st p r free prev there f = rw prev (rw there (rw f refl))

-- Both of two stores are in order.
either-prev :
    (e prev a : ℕ) (ws : List Cell) (t : Bool) (st₁ st₂ : ℕ → Block) (cs₁ cs₂ : List Cell)
    → IsLinked e st₁ prev a (ws ++ cs₁)
    → IsLinked e st₂ prev a (ws ++ cs₂)
    → IsLinked e (if t then st₁ else st₂) prev a (ws ++ (if t then cs₁ else cs₂))
either-prev e prev a ws true st₁ st₂ cs₁ cs₂ l k = l
either-prev e prev a ws false st₁ st₂ cs₁ cs₂ l k = k

either-next :
    (e prev a : ℕ) (ws : List Cell) (t : Bool) (st₁ st₂ : ℕ → Block) (c₁ c₂ : Cell × List Cell)
    → IsLinked e st₁ prev a (ws ++ (c₁.0 ∷ c₁.1))
    → IsLinked e st₂ prev a (ws ++ (c₂.0 ∷ c₂.1))
    → let c = if t then c₁ else c₂ in IsLinked e (if t then st₁ else st₂) prev a (ws ++ (c.0 ∷ c.1))
either-next e prev a ws true st₁ st₂ c₁ c₂ l k = l
either-next e prev a ws false st₁ st₂ c₁ c₂ l k = k

-- The first half of `heap_coalesce` on the headers.
pub merge_next-IsLinked :
    (e : ℕ) (st : ℕ → Block) (prev a : ℕ) (xs : List Cell) (c : Cell) (ys : List Cell)
    → IsLinked e st prev a (xs ++ (c ∷ ys))
    → a + span (xs ++ (c ∷ ys)) ≡ e
    → e < 2 ^ 32
    → 16 ≤ a
    → let (d, ds) = join_next c ys in
      IsLinked e (merge_next st (a + span xs)) prev a (xs ++ (d ∷ ds))
unfolding join_next span
merge_next-IsLinked e st prev a xs c [] l whole bound start =
    let (f, _) = found e st prev a xs c [] l whole bound start in
    let last : (a + span xs + 16 + c.size == e) ≡ true =
      ground (arith, span-append xs (c ∷ []), whole) in
    let none_ : (st (a + span xs)).next ≡ 0 = ground (arith, f.next_eq) in
    subst (λ w. IsLinked e w prev a (xs ++ (c ∷ []))) (sym (merge_next-end st (a + span xs) none_))
      l
merge_next-IsLinked e st prev a xs c (d ∷ ds) l whole bound start =
    let p = a + span xs in
    let n = p + 16 + c.size in
    let (f, rest) = found e st prev a xs c (d ∷ ds) l whole bound start in
    let more : (n == e) ≡ false = ground (arith, span-append xs (c ∷ d ∷ ds), whole) in
    let next : (st p).next ≡ n = ground (arith, f.next_eq) in
    let there : (n == 0) ≡ false = ground arith in
    let free : (st n).free ≡ d.free = unfold IsLinked in rest.0.free_eq in
    subst (λ w. let (d', ds') = join_next c (d ∷ ds) in IsLinked e w prev a (xs ++ (d' ∷ ds')))
      (sym (merge_next-eq st p n d.free next there free))
      (either-next e prev a xs d.free _ _ (record c { size = c.size + 16 + d.size }, ds) (c, d ∷ ds)
        (absorb-IsLinked e st prev a xs c d ds l whole bound start) l)

last_of-snoc :
    (prev a : ℕ) (ws : List Cell) (x : Cell) → last_of prev a (ws ++ (x ∷ [])) ≡ a + span ws
unfolding last_of span
last_of-snoc prev a [] x = omega arith
last_of-snoc prev a (w ∷ ws) x = last_of-snoc a (a + 16 + w.size) ws x ∙ omega arith

-- The second half where a block stands before.
pub merge_prev-IsLinked :
    (e : ℕ) (st : ℕ → Block) (prev a : ℕ) (ws : List Cell) (x c : Cell) (ys : List Cell)
    → IsLinked e st prev a (ws ++ (x ∷ c ∷ ys))
    → a + span (ws ++ (x ∷ c ∷ ys)) ≡ e
    → e < 2 ^ 32
    → 16 ≤ a
    → IsLinked e (merge_prev st (a + span ws + 16 + x.size)) prev a (ws ++ join_prev x (c, ys))
unfolding join_prev IsLinked
merge_prev-IsLinked e st prev a ws x c ys l whole bound start =
    let (f, (s, _)) = here e st prev a ws x c ys l whole bound start in
    let r = a + span ws in
    let before : (st (r + 16 + x.size)).prev ≡ r = s.prev_eq in
    let there : (r == 0) ≡ false = ground arith in
    let free : (st r).free ≡ x.free = f.free_eq in
    subst (λ w. IsLinked e w prev a (ws ++ join_prev x (c, ys)))
      (sym (merge_prev-eq st (r + 16 + x.size) r x.free before there free))
      (either-prev e prev a ws x.free _ _ (record x { size = x.size + 16 + c.size } ∷ ys)
        (x ∷ c ∷ ys) (absorb-IsLinked e st prev a ws x c ys l whole bound start) l)

-- The first block has none before it.
merge_prev-first :
    (e : ℕ) (st : ℕ → Block) (a : ℕ) (c : Cell) (ys : List Cell)
    → IsLinked e st 0 a (c ∷ ys)
    → merge_prev st a ≡ st
unfolding merge_prev IsLinked
merge_prev-first e st a c ys (b, _) = let none_ : (st a).prev ≡ 0 = b.prev_eq in rw none_ refl

span-join_next :
    (c : Cell) (ys : List Cell) → let (d, ds) = join_next c ys in span (d ∷ ds) ≡ span (c ∷ ys)
unfolding span join_next
span-join_next c [] = refl
span-join_next c (d ∷ ds) = ground arith

abbrev pub freed : (ℕ → Block) → ℕ → ℕ → Block
freed st p = put st p (record (st p) { free = true })

-- What `kfree` does to the headers, where the block `c` after `xs` is given back.
unfoldable pub Released : ℕ → (ℕ → Block) → ℕ → List Cell → Cell → List Cell → Type 0
Released e st a xs c ys =
    IsLinked e st 0 a (xs ++ (c ∷ ys))
    → a + span (xs ++ (c ∷ ys)) ≡ e
    → e < 2 ^ 32
    → 16 ≤ a
    → IsLinked e (coalesce (freed st (a + span xs)) (a + span xs)) 0 a (release xs c ys)

merged :
    (e : ℕ) (st : ℕ → Block) (a : ℕ) (xs : List Cell) (c : Cell) (ys : List Cell)
    → IsLinked e st 0 a (xs ++ (c ∷ ys))
    → a + span (xs ++ (c ∷ ys)) ≡ e
    → e < 2 ^ 32
    → 16 ≤ a
    → let p = a + span xs in
      let (d, ds) = join_next (record c { free = true }) ys in
      IsLinked e (merge_next (freed st p) p) 0 a (xs ++ (d ∷ ds)) × (a + span (xs ++ (d ∷ ds)) ≡ e)
merged e st a xs c ys l whole bound start =
    let c' : Cell = record c { free = true } in
    let same : span (c' ∷ ys) ≡ span (c ∷ ys) = unfold span in refl in
    let whole' : a + span (xs ++ (c' ∷ ys)) ≡ e =
      omega (arith, span-append xs (c' ∷ ys), span-append xs (c ∷ ys), same, whole) in
    let (d, ds) = join_next c' ys in
    (
      merge_next-IsLinked e (freed st (a + span xs)) 0 a xs c' ys
          (freed-IsLinked e st 0 a xs c ys l whole bound start) whole' bound start,
      omega
          (arith, span-append xs (d ∷ ds), span-append xs (c' ∷ ys), span-join_next c' ys, whole'),
    )

one_span : (z : Cell) → span (z ∷ []) ≡ 16 + z.size
unfolding span
one_span z = omega arith

coalesce-first :
    (e : ℕ) (st : ℕ → Block) (a : ℕ) (c : Cell) (ys : List Cell) → Released e st a [] c ys
unfolding Released release coalesce span
coalesce-first e st a c ys l whole bound start =
    let here_ : a + 0 ≡ a = omega arith in
    let (k, _) = merged e st a [] c ys l whole bound start in
    let (d, ds) = join_next (record c { free = true }) ys in
    let st' = merge_next (freed st (a + 0)) (a + 0) in
    let same : merge_prev st' (a + 0) ≡ st' =
      ap (merge_prev st') here_ ∙ merge_prev-first e st' a d ds k in
    subst (λ w. IsLinked e w 0 a (d ∷ ds)) (sym same) k

coalesce-after :
    (e : ℕ) (st : ℕ → Block) (a : ℕ) (ws : List Cell) (z c : Cell) (ys : List Cell)
    → Released e st a (ws ++ (z ∷ [])) c ys
unfolding Released coalesce
coalesce-after e st a ws z c ys l whole bound start =
    let xs = ws ++ (z ∷ []) in
    let (d, ds) = join_next (record c { free = true }) ys in
    let (k, whole') = merged e st a xs c ys l whole bound start in
    let assoc : xs ++ (d ∷ ds) ≡ ws ++ (z ∷ d ∷ ds) = append_assoc ws (z ∷ []) (d ∷ ds) in
    let st' = merge_next (freed st (a + span xs)) (a + span xs) in
    let spot_ : a + span xs ≡ a + span ws + 16 + z.size =
      omega (arith, span-append ws (z ∷ []), one_span z) in
    let done =
      merge_prev-IsLinked e st' 0 a ws z d ds (subst (IsLinked e st' 0 a) assoc k)
        (ap (λ t. a + span t) (sym assoc) ∙ whole') bound start in
    subst (λ q. IsLinked e (merge_prev st' q) 0 a (release xs c ys)) (sym spot_)
      (subst (IsLinked e _ 0 a) (sym (release-snoc ws z c ys)) done)

-- Giving a block back leaves the headers of the blocks with that one joined to its free neighbours.
pub coalesce-IsLinked :
    (e : ℕ) (st : ℕ → Block) (a : ℕ) (xs : List Cell) (c : Cell) (ys : List Cell)
    → Released e st a xs c ys
unfolding Snoc
coalesce-IsLinked e st a [] c ys = coalesce-first e st a c ys
coalesce-IsLinked e st a (x ∷ xs) c ys =
    let (ws, z, eq) = snoc x xs in
    subst (λ t. Released e st a t c ys) (sym eq) (coalesce-after e st a ws z c ys)
