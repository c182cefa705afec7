-- ===== src/Heap/Cells.antt =====
-- What kernel/kheap.c promises, with no addresses in it: the blocks in the order of the memory.
use mars_os.Base.{
  ℕ, ◌+◌, ◌-◌, ◌%◌, ◌≤◌, ◌<◌, ◌≡◌, ◌⊎◌, refl, ap, Bool, true, false, ◌&&◌, ◌||◌, List, [], ◌∷◌,
  ◌++◌, ◌==◌, leb, ltb, if◌then◌else◌, arith, Bool-cases, inl, inr,
}

pub record Cell : Type 0 where
  pub size : ℕ
  pub free : Bool

-- The bytes of the blocks with their headers.
unfoldable pub span : List Cell → ℕ
span [] = 0
span (c ∷ cs) = 16 + c.size + span cs

-- The bytes that are given away.
unfoldable pub given : List Cell → ℕ
given [] = 0
given (c ∷ cs) = (if c.free then 0 else c.size) + given cs

-- The first `size` bytes of a free block; the rest is a block if it holds more than 8 bytes.
unfoldable pub split : ℕ → Cell → List Cell
split size c =
    if leb c.size (size + 24)
    then record c { free = false } ∷ []
    else record { size = size; free = false }
      ∷ record { size = c.size - size - 16; free = true }
      ∷ []

-- Some block is free and large enough.
unfoldable pub has_fit : ℕ → List Cell → Bool
has_fit want [] = false
has_fit want (c ∷ cs) = c.free && leb want c.size || has_fit want cs

-- A page more at the end.
unfoldable pub grow : List Cell → List Cell
grow [] = []
grow (c ∷ []) =
    if c.free
    then record c { size = c.size + 4096 } ∷ []
    else c ∷ record { size = 4080; free = true } ∷ []
grow (c ∷ d ∷ cs) = c ∷ grow (d ∷ cs)

pub span-append : (xs ys : List Cell) → span (xs ++ ys) ≡ span xs + span ys
unfolding span
span-append [] ys = omega arith
span-append (x ∷ xs) ys = ground (arith, span-append xs ys)

pub given-append : (xs ys : List Cell) → given (xs ++ ys) ≡ given xs + given ys
unfolding given
given-append [] ys = omega arith
given-append (x ∷ xs) ys = ground (arith, given-append xs ys)

pub span-split : (size : ℕ) (c : Cell) → size ≤ c.size → span (split size c) ≡ 16 + c.size
unfolding span split
span-split size c h = ground arith

pub span-grow : (c : Cell) (cs : List Cell) → span (grow (c ∷ cs)) ≡ span (c ∷ cs) + 4096
unfolding span grow
span-grow c [] = ground arith
span-grow c (d ∷ cs) = ground (arith, span-grow d cs)

pub given-grow : (cs : List Cell) → given (grow cs) ≡ given cs
unfolding given grow
given-grow [] = refl
given-grow (c ∷ []) = ground arith
given-grow (c ∷ d ∷ cs) = ground (arith, given-grow (d ∷ cs))

-- The first block that is free and large enough, with the blocks around it.
pub record Place (want : ℕ) (cs : List Cell) : Type 0 where
  pub before : List Cell
  pub chosen : Cell
  pub after : List Cell
  pub whole : cs ≡ before ++ (chosen ∷ after)
  pub is_free : chosen.free ≡ true
  pub fits : want ≤ chosen.size
  pub first : has_fit want before ≡ false

pub place : (want : ℕ) (cs : List Cell) → (has_fit want cs ≡ false) ⊎ Place want cs
unfolding has_fit
place want [] = inl refl
place want (c ∷ cs) = elim (Bool-cases (c.free && leb want c.size)) [
  | inl here ↦ inr record {
    before = [];
    chosen = c;
    after = cs;
    whole = refl;
    is_free = ground arith;
    fits = ground arith;
    first = refl;
  }
  | inr skip ↦ elim (place want cs) [
    | inl none_ ↦ inl (ground arith)
    | inr p ↦ inr record {
      before = c ∷ p.before;
      chosen = p.chosen;
      after = p.after;
      whole = ap (λ t. c ∷ t) p.whole;
      is_free = p.is_free;
      fits = p.fits;
      first = ground (arith, p.first);
    }
  ]
]

-- A block takes in the next one if that is free: it, and the blocks after it.
unfoldable pub join_next : Cell → List Cell → Cell × List Cell
join_next c [] = (c, [])
join_next c (d ∷ ds) =
    if d.free then (record c { size = c.size + 16 + d.size }, ds) else (c, d ∷ ds)

-- The block before takes it in if that is free.
unfoldable pub join_prev : Cell → Cell × List Cell → List Cell
join_prev x (c, ys) = if x.free then record x { size = x.size + 16 + c.size } ∷ ys else x ∷ c ∷ ys

-- Block `c`, after `xs` and before `ys`, is given back.
unfoldable pub release : List Cell → Cell → List Cell → List Cell
release [] c ys = let (d, ds) = join_next (record c { free = true }) ys in d ∷ ds
release (x ∷ []) c ys = join_prev x (join_next (record c { free = true }) ys)
release (x ∷ y ∷ xs) c ys = x ∷ release (y ∷ xs) c ys

pub release-snoc :
    (ws : List Cell) (x c : Cell) (ys : List Cell)
    → release (ws ++ (x ∷ [])) c ys ≡ ws ++ join_prev x (join_next (record c { free = true }) ys)
unfolding release
release-snoc [] x c ys = refl
release-snoc (w ∷ []) x c ys = refl
release-snoc (w ∷ v ∷ ws) x c ys = ap (λ t. w ∷ t) (release-snoc (v ∷ ws) x c ys)

unfoldable pub Snoc : List Cell → Type 0
Snoc xs = (ws : List Cell) × (x : Cell) × (xs ≡ ws ++ (x ∷ []))

pub snoc : (x : Cell) (xs : List Cell) → Snoc (x ∷ xs)
unfolding Snoc
snoc x [] = ([], x, refl)
snoc x (y ∷ xs) = let (ws, z, e) = snoc y xs in (x ∷ ws, z, ap (λ t. x ∷ t) e)

-- No byte is lost, and what was given of the block is given no more.
pub release-span :
    (xs : List Cell) (c : Cell) (ys : List Cell) → span (release xs c ys) ≡ span (xs ++ (c ∷ ys))
unfolding span release join_next join_prev
release-span [] c [] = refl
release-span [] c (y ∷ ys) = ground arith
release-span (x ∷ []) c [] = ground arith
release-span (x ∷ []) c (y ∷ ys) = ground arith
release-span (x ∷ z ∷ xs) c ys = ground (arith, release-span (z ∷ xs) c ys)

pub release-given :
    (xs : List Cell) (c : Cell) (ys : List Cell)
    → c.free ≡ false
    → given (release xs c ys) + c.size ≡ given (xs ++ (c ∷ ys))
unfolding given release join_next join_prev
release-given [] c [] h = ground arith
release-given [] c (y ∷ ys) h = ground arith
release-given (x ∷ []) c [] h = ground arith
release-given (x ∷ []) c (y ∷ ys) h = ground arith
release-given (x ∷ z ∷ xs) c ys h = ground (arith, release-given (z ∷ xs) c ys h)

-- The sizes are multiples of 8, and no block is empty.
unfoldable pub eights : List Cell → Bool
eights [] = true
eights (c ∷ cs) = c.size % 8 == 0 && (ltb 0 c.size && eights cs)

pub release-eights :
    (xs : List Cell) (c : Cell) (ys : List Cell)
    → eights (xs ++ (c ∷ ys)) ≡ true
    → eights (release xs c ys) ≡ true
unfolding eights release join_next join_prev
release-eights [] c [] h = ground arith
release-eights [] c (y ∷ ys) h = ground arith
release-eights (x ∷ []) c [] h = ground arith
release-eights (x ∷ []) c (y ∷ ys) h = ground arith
release-eights (x ∷ z ∷ xs) c ys h = ground (arith, release-eights (z ∷ xs) c ys (ground arith))

pub eights-grow : (cs : List Cell) → eights cs ≡ true → eights (grow cs) ≡ true
unfolding eights grow
eights-grow [] h = refl
eights-grow (c ∷ []) h = ground arith
eights-grow (c ∷ d ∷ cs) h = ground (arith, eights-grow (d ∷ cs) (ground arith))

pub eights-split :
    (xs : List Cell) (want : ℕ) (c : Cell) (ys : List Cell)
    → eights (xs ++ (c ∷ ys)) ≡ true
    → want % 8 ≡ 0
    → 0 < want
    → eights (xs ++ (split want c ++ ys)) ≡ true
unfolding eights split
eights-split [] want c ys h whole some_ = elim (Bool-cases (leb c.size (want + 24))) [
  | inl s ↦ ground arith
  | inr s ↦ ground arith
]
eights-split (x ∷ xs) want c ys h whole some_ =
    ground (arith, eights-split xs want c ys (ground arith) whole some_)

pub eights-at :
    (xs : List Cell) (c : Cell) (ys : List Cell)
    → eights (xs ++ (c ∷ ys)) ≡ true
    → (c.size % 8 ≡ 0) × (0 < c.size) × (span xs % 8 ≡ 0)
unfolding eights span
eights-at [] c ys h = ground arith
eights-at (x ∷ xs) c ys h = ground (arith, eights-at xs c ys (ground arith))

pub given-split :
    (want : ℕ) (c : Cell) → given (split want c) ≡ (if leb c.size (want + 24) then c.size else want)
unfolding given split
given-split want c = elim (Bool-cases (leb c.size (want + 24))) [
  | inl s ↦ ground arith
  | inr s ↦ ground arith
]

pub given-le-span : (cs : List Cell) → given cs ≤ span cs
unfolding given span
given-le-span [] = omega arith
given-le-span (c ∷ cs) = ground (arith, given-le-span cs)

-- The bytes before and after a block, with its own.
pub span-around :
    (xs : List Cell) (c : Cell) (ys : List Cell)
    → span (xs ++ (c ∷ ys)) ≡ span xs + (16 + c.size + span ys)
unfolding span
span-around xs c ys = span-append xs (c ∷ ys)

pub given-around :
    (xs : List Cell) (c : Cell) (ys : List Cell)
    → given (xs ++ (c ∷ ys)) ≡ given xs + ((if c.free then 0 else c.size) + given ys)
unfolding given
given-around xs c ys = given-append xs (c ∷ ys)
