-- ===== src/Paging/Tables.antt =====
-- A directory and its tables of kernel/paging.c as one map from pages to entries.
pub mod Write
pub mod Flags
pub mod New
use mars_os.Base.{
  ℕ, zero, suc, ◌+◌, ◌-◌, ◌*◌, ◌/◌, ◌%◌, ◌^◌, ◌≤◌, ◌<◌, ◌≡◌, ◌≢◌, refl, sym, ◌∙◌, ap, Bool, true,
  false, not, ◌&&◌, ◌||◌, ◌==◌, leb, ltb, if◌then◌else◌, arith, Bool-cases, inl, inr,
}
use mars_os.Pmm.{Pmm}
use mars_os.Pmm.Bitmap.{frame_set}
use mars_os.Paging.{write, slot, fill_loop}

pub fill_loop-slot :
    (left i base : ℕ) (f word : ℕ → ℕ) (j : ℕ)
    → fill_loop left i base f word (slot base j)
      ≡ (if leb i j && ltb j (i + left) then f j else word (slot base j))
unfolding fill_loop
fill_loop-slot zero i base f word j = ground arith
fill_loop-slot (suc left) i base f word j = elim (Bool-cases (i == j)) [
  | inl same ↦
      let e : f i ≡ f j = ap f (ground arith) in
      ground (arith, e, fill_loop-slot left (i + 1) base f (write word (slot base i) (f i)) j)
  | inr other ↦
      ground (arith, fill_loop-slot left (i + 1) base f (write word (slot base i) (f i)) j)
]

-- Address `a` lies outside of the page at `base`.
abbrev pub is_outside : ℕ → ℕ → Bool
is_outside base a = ltb a base || leb (base + 4096) a

pub fill_loop-outside :
    (left i base : ℕ) (f word : ℕ → ℕ) (a : ℕ)
    → i + left ≤ 1024
    → is_outside base a ≡ true
    → fill_loop left i base f word a ≡ word a
unfolding fill_loop
fill_loop-outside zero i base f word a h o = refl
fill_loop-outside (suc left) i base f word a h o =
    fill_loop-outside left (i + 1) base f (write word (slot base i) (f i)) a (omega arith) o
    ∙ ground arith

abbrev pub odd : ℕ → Bool
odd w = w % 2 == 1

abbrev pub base_of : ℕ → ℕ
base_of w = w / 4096 * 4096

module _ (dir : ℕ) (word : ℕ → ℕ) where
  -- Entry `i` of the directory.
  abbrev pub entry : ℕ → ℕ
  entry i = word (slot dir i)

  -- Entry `j` of the table of entry `i`.
  abbrev pub page_entry : ℕ → ℕ → ℕ
  page_entry i j = word (slot (base_of (entry i)) j)

  -- The entry that maps page `j` of table `i`, 0 if none does.
  unfoldable pub leaf : ℕ → ℕ → ℕ
  leaf i j = if odd (entry i) && odd (page_entry i j) then page_entry i j else 0

-- The directory and its tables stand in frames that are in use, no two in the same.
pub record IsTables (pmm : Pmm) (dir : ℕ) (word : ℕ → ℕ) : Type 0 where
  pub aligned : base_of dir ≡ dir
  pub dir_lt : dir < 2 ^ 32
  pub dir_held : frame_set pmm (dir / 4096) ≡ true
  pub entry_lt : (i : ℕ) → i < 1024 → entry dir word i < 2 ^ 32
  pub table_held :
      (i : ℕ)
      → i < 1024
      → odd (entry dir word i) ≡ true
      → frame_set pmm (entry dir word i / 4096) ≡ true
  pub table_ne :
      (i : ℕ) → i < 1024 → odd (entry dir word i) ≡ true → entry dir word i / 4096 ≢ dir / 4096
  pub table_inj :
      (i j : ℕ)
      → i < 1024
      → j < 1024
      → odd (entry dir word i) ≡ true
      → odd (entry dir word j) ≡ true
      → entry dir word i / 4096 ≡ entry dir word j / 4096
      → i ≡ j
  pub page_lt :
      (i j : ℕ)
      → i < 1024
      → j < 1024
      → odd (entry dir word i) ≡ true
      → page_entry dir word i j < 2 ^ 32
