-- ===== src/Paging/Identity.antt =====
-- `paging_init`: what the memory is translated to when it is done.
use mars_os.Base.{
  ℕ, ◌+◌, ◌*◌, ◌/◌, ◌%◌, ◌^◌, ◌≤◌, ◌<◌, ◌≡◌, ◌≢◌, refl, sym, ◌∙◌, ap, Bool, true, false, not, ◌&&◌,
  none, some, leb, ltb, if◌then◌else◌, arith, Bool-cases, inl, inr,
}
use mathlib.Core.Path.{subst}
use mars_os.Pmm.{highest_address}
use mars_os.Pmm.Bitmap.{align_up_4k-div}
use mars_os.Paging.{
  Space, active_directory, identity_entry, init_tables, identity_limit, init, map_low, translate,
  table_slot, pd_index, pt_index,
}
use mars_os.Paging.Tables.{base_of, leaf, IsTables}
use mars_os.Paging.Ensure.{IsSpace, translate-leaf, leaf_of}
use mars_os.Paging.Start.{
  Mapped, init_tables_lem, cleared, cleared-Mapped, cleared-entry, HasDirectory, identity_entry_lem,
}

-- The end of the memory that `paging_init` means to map, and its number of tables.
abbrev pub limit_of : Space → ℕ
limit_of s = identity_limit (highest_address s.pmm)

abbrev pub tables_for : ℕ → ℕ
tables_for limit = (limit + 0x3FFFFF) / 2 ^ 22

pub identity_limit-bounds :
    (highest : ℕ)
    → (identity_limit highest % 4096 ≡ 0)
      × (0x400000 ≤ identity_limit highest)
      × (identity_limit highest < 2 ^ 32)
unfolding identity_limit
identity_limit-bounds highest = ground (arith, align_up_4k-div highest)

unfoldable turned_on : Space → ℕ → Space
turned_on s' dir = record s' { kernel_dir_phys = dir; current_dir_phys = dir; is_enabled = true }

abbrev attempt : Space → Bool × Space
attempt s = init_tables (tables_for (limit_of s)) 0 (limit_of s) (cleared s)

map_low-few :
    (s : Space) (limit count : ℕ)
    → ltb 1024 count ≡ false
    → map_low limit count s ≡ (
        let (done, s') = init_tables count 0 limit s in
        if not done then record s' { is_enabled = false } else record s' {
          kernel_dir_phys = s.page_directory;
          current_dir_phys = s.page_directory;
          is_enabled = true;
        })
unfolding map_low
map_low-few s limit count few = rw few refl

map_low-none : (s : Space) (limit : ℕ) → map_low limit 0 s ≡ turned_on s s.page_directory
unfolding map_low init_tables turned_on
map_low-none s limit = refl

init-eq :
    (s : Space)
    → s.pmm.initialized ≡ true
    → limit_of s ≤ 0xFFC00000
    → init s ≡ (
        let (done, s') = attempt s in
        if not done then record s' { is_enabled = false } else record s' {
          kernel_dir_phys = s.page_directory;
          current_dir_phys = s.page_directory;
          is_enabled = true;
        })
unfolding init
init-eq s ready small =
    let whole : (limit_of s + 0x3FFFFF) % 2 ^ 32 / 2 ^ 22 ≡ tables_for (limit_of s) = omega arith in
    let few : ltb 1024 (tables_for (limit_of s)) ≡ false = ground arith in
    ground (arith, ready)
    ∙ ap (λ n. map_low (limit_of s) n (cleared s)) whole
    ∙ map_low-few (cleared s) (limit_of s) (tables_for (limit_of s)) few

turned_on-IsSpace :
    (s' : Space) (dir limit count : ℕ)
    → dir ≢ 0
    → s'.page_directory ≡ dir
    → Mapped s' limit count
    → IsSpace (turned_on s' dir)
      × ((i j : ℕ)
          → i < 1024
          → j < 1024
          → leaf_of (turned_on s' dir) i j ≡ (if ltb i count then identity_entry limit i j else 0))
unfolding turned_on active_directory
turned_on-IsSpace s' dir limit count n same m =
    let e : active_directory (turned_on s' dir) ≡ s'.page_directory = ground (arith, same) in
    (
      record {
        on = refl;
        pmm_valid = m.valid;
        tables = subst (λ d. IsTables s'.pmm d s'.word) (sym e) m.tables;
      },
      λ i j g k.
          subst (λ d. leaf d s'.word i j ≡ (if ltb i count then identity_entry limit i j else 0))
            (sym e) (m.leaves i j g k),
    )

identity-leaf :
    (s : Space) (limit a : ℕ)
    → a < 2 ^ 32
    → limit % 4096 ≡ 0
    → IsSpace s
    → leaf_of s (pd_index a) (pt_index a) ≡ (
        if ltb (pd_index a) (tables_for limit)
        then identity_entry limit (pd_index a) (pt_index a)
        else 0)
    → translate s a ≡ (if ltb a limit then some a else none)
identity-leaf s limit a h whole v l =
    let e = identity_entry_lem limit (pd_index a) (pt_index a) (omega arith) in
    let phys : pd_index a * 4194304 + pt_index a * 4096 ≡ base_of a = omega arith in
    let below : ltb (base_of a) limit ≡ ltb a limit = ground arith in
    let made : leaf_of s (pd_index a) (pt_index a) ≡ (if ltb a limit then base_of a + 3 else 0) =
      l ∙ ground (arith, e, phys, below) in
    ground (arith, translate-leaf s a v, made)

module _ (s : Space) (d : HasDirectory s) (small : limit_of s ≤ 0xFFC00000) where
  abbrev room : Bool
  room = leb (s.pmm.used + tables_for (limit_of s)) s.pmm.total

  init-on :
      room ≡ true
      → IsSpace (init s)
        × ((a : ℕ)
            → a < 2 ^ 32
            → translate (init s) a ≡ (if ltb a (limit_of s) then some a else none))
  init-on enough =
      let (done, dir, mapped) =
        init_tables_lem (tables_for (limit_of s)) 0 (limit_of s) (cleared s)
          (cleared-Mapped s (limit_of s) d) (omega arith) in
      let made = done ∙ enough in
      let (space, leaves) =
        turned_on-IsSpace (attempt s).1 s.page_directory (limit_of s) (0 + tables_for (limit_of s))
          d.not_null dir (mapped made) in
      let eq : init s ≡ turned_on (attempt s).1 s.page_directory =
        init-eq s d.valid.is_ready small ∙ (unfold turned_on in (rw made refl)) in
      rw eq (
        space,
        λ a h.
            identity-leaf (turned_on (attempt s).1 s.page_directory) (limit_of s) a h
              (identity_limit-bounds (highest_address s.pmm)).0 space
              (leaves (pd_index a) (pt_index a) (omega arith) (omega arith) ∙ ground arith),
      )

  init-off : room ≡ false → init s ≡ record (attempt s).1 { is_enabled = false }
  init-off short =
      let (done, dir, mapped) =
        init_tables_lem (tables_for (limit_of s)) 0 (limit_of s) (cleared s)
          (cleared-Mapped s (limit_of s) d) (omega arith) in
      let made = done ∙ short in init-eq s d.valid.is_ready small ∙ rw made refl

  -- Once paging is on, the tables are in order.
  pub init-IsSpace : room ≡ true → IsSpace (init s)
  init-IsSpace enough = (init-on enough).0

translate-off : (s : Space) (a : ℕ) → s.is_enabled ≡ false → translate s a ≡ none
unfolding translate
translate-off s a off = ground arith

init-identity_limit :
    (s : Space) (a : ℕ)
    → HasDirectory s
    → limit_of s ≤ 0xFFC00000
    → a < 2 ^ 32
    → let enough = leb (s.pmm.used + tables_for (limit_of s)) s.pmm.total in
      ((init s).is_enabled ≡ enough)
      × (translate (init s) a ≡ (if enough && ltb a (limit_of s) then some a else none))
init-identity_limit s a d small h =
    elim (Bool-cases (leb (s.pmm.used + tables_for (limit_of s)) s.pmm.total)) [
      | inl enough ↦ let (space, t) = init-on s d small enough in rw enough (space.on, t a h)
      | inr short ↦
          let off : (init s).is_enabled ≡ false = rw (init-off s d small short) refl in
          rw short (off, translate-off (init s) a off)
    ]

-- The end of what is mapped for a memory that ends at `highest`: 4 MB, or the end rounded up to a
-- page.
abbrev pub mapped_end : ℕ → ℕ
mapped_end highest = if ltb highest 0x400000 then 0x400000 else (highest + 4095) / 4096 * 4096

limit-mapped_end :
    (s : Space)
    → s.pmm.initialized ≡ true
    → s.pmm.highest_end ≤ 0xFFC00000
    → limit_of s ≡ mapped_end s.pmm.highest_end
unfolding identity_limit highest_address
limit-mapped_end s ready h = ground (arith, ready, align_up_4k-div s.pmm.highest_end)

-- For a memory that ends at 0xFFC00000 at most, `paging_init` turns paging on exactly if there are
-- frames for a table for each 4 MB of what it maps: the memory up to its end, rounded up to a page,
-- or 4 MB if the memory ends before. Then every address below that is translated to itself, and no
-- other is translated.
pub init-translate :
    (s : Space) (a : ℕ)
    → HasDirectory s
    → s.pmm.highest_end ≤ 0xFFC00000
    → a < 2 ^ 32
    → let limit = mapped_end s.pmm.highest_end in
      let enough = leb (s.pmm.used + (limit + 0x3FFFFF) / 2 ^ 22) s.pmm.total in
      ((init s).is_enabled ≡ enough)
      × (translate (init s) a ≡ (if enough && ltb a limit then some a else none))
init-translate s a d small h =
    let e = limit-mapped_end s d.valid.is_ready small in
    let bound : mapped_end s.pmm.highest_end ≤ 0xFFC00000 = ground arith in
    subst
      (λ l.
        let enough = leb (s.pmm.used + (l + 0x3FFFFF) / 2 ^ 22) s.pmm.total in
        ((init s).is_enabled ≡ enough)
        × (translate (init s) a ≡ (if enough && ltb a l then some a else none)))
      e (init-identity_limit s a d (omega (arith, e, bound)) h)

wraps-eq :
    (s : Space)
    → s.pmm.initialized ≡ true
    → (limit_of s + 0x3FFFFF) % 2 ^ 32 / 2 ^ 22 ≡ 0
    → init s ≡ turned_on (cleared s) s.page_directory
unfolding init
wraps-eq s ready wrapped =
    let first : init s
        ≡ map_low (limit_of s) ((limit_of s + 0x3FFFFF) % 2 ^ 32 / 2 ^ 22) (cleared s) =
      ground (arith, ready) in
    first
    ∙ ap (λ n. map_low (limit_of s) n (cleared s)) wrapped
    ∙ map_low-none (cleared s) (limit_of s)

empty-translate :
    (s : Space) (a : ℕ) → a < 2 ^ 32 → translate (turned_on (cleared s) s.page_directory) a ≡ none
unfolding translate table_slot active_directory turned_on
empty-translate s a h = let e = cleared-entry s (pd_index a) (omega arith) in ground (arith, e)

-- Where the memory ends past 0xFFC00000, `paging_init` turns paging on with an empty directory: the
-- number of its tables wraps to 0 before it is compared with 1024, and no address is translated.
pub init_wraps :
    (s : Space) (a : ℕ)
    → s.pmm.initialized ≡ true
    → 0xFFC00000 < limit_of s
    → a < 2 ^ 32
    → ((init s).is_enabled ≡ true) × (translate (init s) a ≡ none)
unfolding turned_on
init_wraps s a ready big h =
    let bound = (identity_limit-bounds (highest_address s.pmm)).2 in
    let wrapped : (limit_of s + 0x3FFFFF) % 2 ^ 32 / 2 ^ 22 ≡ 0 = omega arith in
    let eq = wraps-eq s ready wrapped in rw eq (refl, empty-translate s a h)
