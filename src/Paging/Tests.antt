-- ===== src/Paging/Tests.antt =====
-- A concrete directory of kernel/paging.c: page 5 is the process's frame 9.
use mars_os.Base.{
  ℕ, ◌+◌, ◌/◌, ◌%◌, ◌^◌, ◌<◌, ◌≡◌, ◌≢◌, refl, true, false, not, ◌&&◌, [], ◌∷◌, none, some, ◌==◌,
  leb, ltb, if◌then◌else◌, arith, Bool-cases, inl, inr, ◌⊎◌,
}
use mars_os.Pmm.{highest_address, alloc_frame, align_up_4k, align_down_4k}
use mars_os.Pmm.Tests.{one_frame, one_frame-IsValid, one_frame-set}
use mars_os.Paging.{
  Space, active_directory, slot, init, translate, user_accessible, map_page, unmap_page,
  current_directory_phys, clone_kernel_directory, switch_directory, identity_limit, check_range,
}
use mars_os.Paging.Tables.{IsTables, entry, leaf}
use mars_os.Paging.Ensure.{IsSpace, leaf_of, translate-leaf}
use mars_os.Paging.Map.{map_page_lem, unmap_page_lem, is_mapped, has_room, is_aligned}
use mars_os.Paging.Access.{is_user_byte, user_accessible_sound}
use mars_os.Paging.Identity.{init-translate, init_wraps, limit_of, mapped_end}
use mars_os.Paging.Clone.{clone_kernel_directory_lem, kernel_entry}
use mars_os.Paging.Start.{HasDirectory}

abbrev pub one_page : Space
one_page = record {
  word = λ a. if a == 0x1000 then 0x2007 else if a == 0x2014 then 0x9007 else 0;
  pmm = one_frame;
  is_enabled = true;
  kernel_dir_phys = 0x1000;
  current_dir_phys = 0x1000;
  page_directory = 0x1000;
}

one_page-entry : (i : ℕ) → i < 1024 → entry 0x1000 one_page.word i ≡ (if i == 0 then 0x2007 else 0)
one_page-entry i h = ground arith

one_page-IsTables : IsTables one_frame 0x1000 one_page.word
one_page-IsTables = record {
  aligned = refl;
  dir_lt = omega arith;
  dir_held = one_frame-set 1 (omega arith);
  entry_lt = λ i h. ground (arith, one_page-entry i h);
  table_held = λ i h o. ground (arith, one_page-entry i h, one_frame-set 2 (omega arith));
  table_ne = λ i h o. ground (arith, one_page-entry i h);
  table_inj = λ i j h k o p e. ground (arith, one_page-entry i h, one_page-entry j k);
  page_lt = λ i j h k o. ground arith;
}

pub one_page-IsSpace : IsSpace one_page
unfolding active_directory
one_page-IsSpace = record { on = refl; pmm_valid = one_frame-IsValid; tables = one_page-IsTables }

one_page-leaf : (i j : ℕ) → i < 1024 → (leaf_of one_page i j ≡ 0) ⊎ (leaf_of one_page i j ≡ 0x9007)
unfolding leaf active_directory
one_page-leaf i j h = elim (Bool-cases (i == 0)) [
  | inl first ↦ elim (Bool-cases (j == 5)) [
    | inl there ↦ inr (ground (arith, one_page-entry i h))
    | inr away ↦ inl (ground (arith, one_page-entry i h))
  ]
  | inr other ↦ inl (ground (arith, one_page-entry i h))
]

-- No address is translated to the frame before.
pub one_page_elsewhere : (a : ℕ) → a < 2 ^ 32 → translate one_page a ≢ some 0x8000
one_page_elsewhere a h e =
    let i = a / 2 ^ 22 % 2 ^ 10 in
    let j = a / 2 ^ 12 % 2 ^ 10 in
    elim (one_page-leaf i j (omega arith)) [
      | inl none_ ↦ absurd (ground (arith, none_, translate-leaf one_page a one_page-IsSpace))
      | inr there ↦ absurd (ground (arith, there, translate-leaf one_page a one_page-IsSpace))
    ]

map_page_lem_example :
    let (done, s') = map_page one_page 0x6000 0xA000 7 in
    (done ≡ (
      is_aligned 0x6000
      && is_aligned 0xA000
      && (not (is_mapped one_page 0x6000) && has_room one_page 0x6000)))
    × IsSpace s'
    × (translate s' 0x6010 ≡ (
        if done && 0x6010 / 4096 == 0x6000 / 4096
        then some (0xA000 + 0x6010 % 4096)
        else translate one_page 0x6010))
map_page_lem_example =
    map_page_lem one_page 0x6000 0xA000 7 0x6010 one_page-IsSpace (omega arith) (omega arith)
      (omega arith)

unmap_page_lem_example :
    let (done, s') = unmap_page one_page 0x5000 in
    (done ≡ (is_aligned 0x5000 && is_mapped one_page 0x5000))
    × IsSpace s'
    × (translate s' 0x5004
        ≡ (if done && 0x5004 / 4096 == 0x5000 / 4096 then none else translate one_page 0x5004))
unmap_page_lem_example =
    unmap_page_lem one_page 0x5000 0x5004 one_page-IsSpace (omega arith) (omega arith)

accepted : user_accessible one_page 0x5FF0 16 ≡ some true
unfolding user_accessible active_directory check_range
accepted = refl

user_accessible_sound_example :
    (0x5FF8 < 2 ^ 32) × (translate one_page 0x5FF8 ≢ none) × (is_user_byte one_page 0x5FF8 ≡ true)
user_accessible_sound_example =
    user_accessible_sound one_page 0x5FF0 16 0x5FF8 one_page-IsSpace (omega arith) (omega arith)
      accepted (omega arith) (omega arith)

abbrev booting : Space
booting = record one_page { page_directory = 0x3000; is_enabled = false }

booting-HasDirectory : HasDirectory booting
booting-HasDirectory = record {
  valid = one_frame-IsValid;
  aligned = refl;
  not_null = omega arith;
  directory_lt = omega arith;
  held = one_frame-set 3 (omega arith);
}

init-translate_example :
    let limit = mapped_end booting.pmm.highest_end in
    let enough = leb (booting.pmm.used + (limit + 0x3FFFFF) / 2 ^ 22) booting.pmm.total in
    ((init booting).is_enabled ≡ enough)
    × (translate (init booting) 0x1234 ≡ (if enough && ltb 0x1234 limit then some 0x1234 else none))
init-translate_example =
    init-translate booting 0x1234 booting-HasDirectory (omega arith) (omega arith)

-- The memory ends at 0xFFD00000.
abbrev large : Space
large = record booting { pmm = record one_frame { highest_end = 0xFFD00000 } }

large-limit : limit_of large ≡ 0xFFD00000
unfolding identity_limit highest_address align_up_4k align_down_4k
large-limit = refl

init_wraps_example : ((init large).is_enabled ≡ true) × (translate (init large) 0x1234 ≡ none)
init_wraps_example = init_wraps large 0x1234 refl (omega (arith, large-limit)) (omega arith)

-- Entry 0 is put into the new directory.
clone_kernel_directory_lem_example :
    let (frame, pmm) = alloc_frame one_frame in
    let (dir, s') = clone_kernel_directory one_page in
    (dir ≡ some frame)
    × (s'.pmm ≡ pmm)
    × (s'.word (slot frame 0) ≡ kernel_entry (one_page.word (slot 0x1000 0)))
    × (s'.word 0x2014 ≡ 0x9007)
clone_kernel_directory_lem_example =
    clone_kernel_directory_lem one_page 0 0x2014 refl one_frame-IsValid (omega arith) refl
      (one_frame-set 1 (omega arith)) (omega arith) (one_frame-set 2 (omega arith))

switched :
    current_directory_phys (switch_directory one_page 0x7000)
      ∷ current_directory_phys (switch_directory one_page 0x7004)
      ∷ current_directory_phys (switch_directory booting 0x7000)
      ∷ []
    ≡ 0x7000 ∷ 0x1000 ∷ 0 ∷ []
unfolding current_directory_phys switch_directory
switched = refl
