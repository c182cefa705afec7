-- ===== src/Heap/Chain.antt =====
-- The headers of kernel/kheap.c as a list of blocks.
use mars_os.Base.{
  ℕ, ◌+◌, ◌≤◌, ◌<◌, ◌≡◌, refl, sym, ap, List, [], ◌∷◌, ◌++◌, ◌==◌, if◌then◌else◌, arith,
}
use mathlib.Core.Path.{subst}
use mars_os.Heap.{Block}
use mars_os.Heap.Cells.{Cell, span}

-- The header of a block with address `a`, in a heap that ends at `e`.
pub record IsBlock (e : ℕ) (b : Block) (prev a : ℕ) (c : Cell) : Type 0 where
  pub size_eq : b.size ≡ c.size
  pub free_eq : b.free ≡ c.free
  pub next_eq : b.next ≡ (if a + 16 + c.size == e then 0 else a + 16 + c.size)
  pub prev_eq : b.prev ≡ prev

-- The headers of the blocks from address `a` on, in both directions.
unfoldable pub IsLinked : ℕ → (ℕ → Block) → ℕ → ℕ → List Cell → Type 0
IsLinked e st prev a [] = Unit
IsLinked e st prev a (c ∷ cs) = IsBlock e (st a) prev a c × IsLinked e st a (a + 16 + c.size) cs

-- The address of the last of some blocks, `prev` if there is none.
unfoldable pub last_of : ℕ → ℕ → List Cell → ℕ
last_of prev a [] = prev
last_of prev a (c ∷ cs) = last_of a (a + 16 + c.size) cs

module _ (e : ℕ) (st st' : ℕ → Block) where
  -- The headers depend on the words at their addresses only.
  pub IsLinked-local :
      (prev a : ℕ) (cs : List Cell)
      → IsLinked e st prev a cs
      → ((x : ℕ) → a ≤ x → x < a + span cs → st' x ≡ st x)
      → IsLinked e st' prev a cs
  unfolding IsLinked span
  IsLinked-local prev a [] l same = tt
  IsLinked-local prev a (c ∷ cs) (b, l) same = (
    subst (λ w. IsBlock e w prev a c) (sym (same a (omega arith) (omega arith))) b,
    IsLinked-local a (a + 16 + c.size) cs l (λ x g h. same x (omega arith) (omega arith)),
  )

  -- The first block with another before it.
  pub IsLinked-prev :
      (prev prev' a : ℕ) (cs : List Cell)
      → IsLinked e st prev a cs
      → (0 < span cs → st' a ≡ record (st a) { prev = prev' })
      → ((x : ℕ) → a < x → x < a + span cs → st' x ≡ st x)
      → IsLinked e st' prev' a cs
  unfolding IsLinked span
  IsLinked-prev prev prev' a [] l first same = tt
  IsLinked-prev prev prev' a (c ∷ cs) (b, l) first same = (
    subst (λ w. IsBlock e w prev' a c) (sym (first (omega arith)))
        record { size_eq = b.size_eq; free_eq = b.free_eq; next_eq = b.next_eq; prev_eq = refl },
    IsLinked-local a (a + 16 + c.size) cs l (λ x g h. same x (omega arith) (omega arith)),
  )

pub IsLinked-append :
    (e : ℕ) (st : ℕ → Block) (prev a : ℕ) (xs ys : List Cell)
    → IsLinked e st prev a xs
    → IsLinked e st (last_of prev a xs) (a + span xs) ys
    → IsLinked e st prev a (xs ++ ys)
unfolding IsLinked last_of span
IsLinked-append e st prev a [] ys l k =
    let here : a + 0 ≡ a = omega arith in subst (λ x. IsLinked e st prev x ys) here k
IsLinked-append e st prev a (x ∷ xs) ys (b, l) k = (
  b,
  IsLinked-append e st a (a + 16 + x.size) xs ys l
      (subst (λ z. IsLinked e st (last_of a (a + 16 + x.size) xs) z ys) (omega arith) k),
)

pub IsLinked-parts :
    (e : ℕ) (st : ℕ → Block) (prev a : ℕ) (xs ys : List Cell)
    → IsLinked e st prev a (xs ++ ys)
    → IsLinked e st prev a xs × IsLinked e st (last_of prev a xs) (a + span xs) ys
unfolding IsLinked last_of span
IsLinked-parts e st prev a [] ys l = (tt, subst (λ x. IsLinked e st prev x ys) (omega arith) l)
IsLinked-parts e st prev a (x ∷ xs) ys (b, l) =
    let (front, back) = IsLinked-parts e st a (a + 16 + x.size) xs ys l in
    (
      (b, front),
      subst (λ z. IsLinked e st (last_of a (a + 16 + x.size) xs) z ys) (omega arith) back,
    )

pub record-prev : (b : Block) (v : ℕ) → b.prev ≡ v → b ≡ record b { prev = v }
record-prev b v e = let f : ℕ → Block = λ w. record b { prev = w } in ap f e

-- The first of some blocks has the address before it in its header.
pub first-prev :
    (e : ℕ) (st : ℕ → Block) (prev a : ℕ) (ys : List Cell)
    → IsLinked e st prev a ys
    → 0 < span ys
    → st a ≡ record (st a) { prev = prev }
unfolding IsLinked span
first-prev e st prev a [] l some_ = absurd (omega arith)
first-prev e st prev a (y ∷ ys) (b, l) some_ = record-prev (st a) prev b.prev_eq

-- Blocks in the middle are replaced by others of the same bytes.
pub relink :
    (e : ℕ) (st st' : ℕ → Block) (prev a : ℕ) (xs mid mid' ys : List Cell)
    → IsLinked e st prev a (xs ++ (mid ++ ys))
    → span mid' ≡ span mid
    → IsLinked e st' (last_of prev a xs) (a + span xs) mid'
    → ((x : ℕ) → a ≤ x → x < a + span xs → st' x ≡ st x)
    → (let n = a + span xs + span mid in
        (0 < span ys
          → st' n ≡ record (st n) { prev = last_of (last_of prev a xs) (a + span xs) mid' })
        × ((x : ℕ) → n < x → x < n + span ys → st' x ≡ st x))
    → IsLinked e st' prev a (xs ++ (mid' ++ ys))
relink e st st' prev a xs mid mid' ys l same new before (first, after) =
    let (front, rest) = IsLinked-parts e st prev a xs (mid ++ ys) l in
    let (_, back) = IsLinked-parts e st (last_of prev a xs) (a + span xs) mid ys rest in
    let m = a + span xs in
    let p = last_of prev a xs in
    let moved =
      IsLinked-prev e st st' (last_of p m mid) (last_of p m mid') (m + span mid) ys back first
        after in
    IsLinked-append e st' prev a xs (mid' ++ ys) (IsLinked-local e st st' prev a xs front before) (
      IsLinked-append e st' p m mid' ys new
        (subst (λ z. IsLinked e st' (last_of p m mid') z ys) (ap (λ n. m + n) (sym same)) moved))
