-- ===== src/Paging.antt =====
-- kernel/paging.c: page directories and tables of 1024 words each. The kernel reaches a table under
-- its physical address, since the low memory is mapped to itself, so the words of all of them are
-- one function from addresses. The processor's registers and its page cache are not modelled.
pub mod Words
pub mod Tables
pub mod Ensure
pub mod Map
pub mod Walk
pub mod Access
pub mod Start
pub mod Identity
pub mod Clone
pub mod Frames
pub mod Tests
use mars_os.Base.{
  ℕ, zero, suc, ◌+◌, ◌-◌, ◌*◌, ◌/◌, ◌%◌, ◌^◌, Bool, true, false, not, ◌&&◌, ◌||◌, Option, none,
  some, ◌==◌, leb, ltb, if◌then◌else◌, u32_max,
}
use mars_os.Pmm.{Pmm, alloc_frame, align_up_4k, highest_address}
use Prim.Native.Nat.{bit_and, bit_or}

pub record Space : Type 0 where
  pub word : ℕ → ℕ
  pub pmm : Pmm
  pub is_enabled : Bool
  pub kernel_dir_phys : ℕ
  pub current_dir_phys : ℕ
  pub page_directory : ℕ

abbrev pub flag_present : ℕ
flag_present = 1

abbrev pub flag_rw : ℕ
flag_rw = 2

abbrev pub flag_user : ℕ
flag_user = 4

abbrev pub frame_mask : ℕ
frame_mask = 0xFFFFF000

abbrev pub write : (ℕ → ℕ) → ℕ → ℕ → ℕ → ℕ
write word a v = λ x. if x == a then v else word x

abbrev pub store : Space → ℕ → ℕ → Space
store s a v = record s { word = write s.word a v }

-- `page_directory` is the address of the kernel's own directory.
pub active_directory : Space → ℕ
active_directory s = if s.current_dir_phys == 0 then s.page_directory else s.current_dir_phys

abbrev pub pd_index : ℕ → ℕ
pd_index virt = virt / 2 ^ 22 % 2 ^ 10

abbrev pub pt_index : ℕ → ℕ
pt_index virt = virt / 2 ^ 12 % 2 ^ 10

-- `directory[i]`, or `table[i]`.
abbrev pub slot : ℕ → ℕ → ℕ
slot base i = base + i * 4

abbrev pub is_present : ℕ → Bool
is_present w = not (bit_and w flag_present == 0)

abbrev pub is_user : ℕ → Bool
is_user w = not (bit_and w flag_user == 0)

-- for (i …) table[i] = f i, for the `left` words from the `i`-th on.
pub fill_loop : ℕ → ℕ → ℕ → (ℕ → ℕ) → (ℕ → ℕ) → ℕ → ℕ
fill_loop zero i base f word = word
fill_loop (suc left) i base f word = fill_loop left (i + 1) base f (write word (slot base i) (f i))

pub alloc_table : Space → Option ℕ × Space
alloc_table s =
    let (frame, pmm) = alloc_frame s.pmm in
    if frame == 0
    then (none, record s { pmm = pmm })
    else (some frame, record s { pmm = pmm; word = fill_loop 1024 0 frame (λ i. 0) s.word })

-- The directory's entry: a new table where there is none, and the user flag where it is asked for.
pub ensure_table : Space → ℕ → ℕ → Bool × Space
unfolding alloc_table
ensure_table s entry flags =
    if not (is_present (s.word entry))
    then (let (table, s') = alloc_table s in
        elim table [
          | none ↦ (false, s')
          | some t ↦
              let pde_flags =
                if is_user flags
                then bit_or (bit_or flag_present flag_rw) flag_user
                else bit_or flag_present flag_rw in
              (true, store s' entry (bit_or t pde_flags))
        ])
    else if is_user flags
    then (true, store s entry (bit_or (s.word entry) flag_user))
    else (true, s)

pub put_entry : Space → ℕ → ℕ → ℕ → ℕ → Bool × Space
put_entry s entry pt phys flags =
    let a = slot (bit_and (s.word entry) frame_mask) pt in
    if is_present (s.word a)
    then (false, s)
    else (true, store s a (bit_or (bit_and phys frame_mask) (bit_and flags 0xFFF)))

pub map_page : Space → ℕ → ℕ → ℕ → Bool × Space
unfolding ensure_table put_entry active_directory
map_page s virt phys flags =
    if not s.is_enabled
    then (false, s)
    else if not (bit_and virt 0xFFF == 0) || not (bit_and phys 0xFFF == 0)
    then (false, s)
    else (let flags' = if is_present flags then flags else bit_or flags flag_present in
        let entry = slot (active_directory s) (pd_index virt) in
        let (there, s') = ensure_table s entry flags' in
        if there then put_entry s' entry (pt_index virt) phys flags' else (false, s'))

-- The address of the table's entry for a page, if the directory has the table.
pub table_slot : Space → ℕ → Option ℕ
unfolding active_directory
table_slot s virt =
    let pde = s.word (slot (active_directory s) (pd_index virt)) in
    if is_present pde then some (slot (bit_and pde frame_mask) (pt_index virt)) else none

pub unmap_page : Space → ℕ → Bool × Space
unfolding table_slot
unmap_page s virt =
    if not s.is_enabled || not (bit_and virt 0xFFF == 0)
    then (false, s)
    else (elim (table_slot s virt) [
      | none ↦ (false, s)
      | some a ↦ if is_present (s.word a) then (true, store s a 0) else (false, s)
    ])

pub translate : Space → ℕ → Option ℕ
unfolding table_slot
translate s virt = if not s.is_enabled then none else (elim (table_slot s virt) [
  | none ↦ none
  | some a ↦
      if is_present (s.word a)
      then some (bit_or (bit_and (s.word a) frame_mask) (bit_and virt 0xFFF))
      else none
])

abbrev pub user_present : ℕ
user_present = bit_or flag_present flag_user

-- Both entries of a page have the present and the user flag.
pub user_page : Space → ℕ → Bool
unfolding active_directory
user_page s page =
    let pde = s.word (slot (active_directory s) (pd_index page)) in
    let pte = s.word (slot (bit_and pde frame_mask) (pt_index page)) in
    if not (bit_and pde user_present == user_present)
    then false
    else if not (bit_and pte user_present == user_present)
    then false
    else true

-- while (1) from `page` to `last`, both the first addresses of pages; `none` where the rounds end.
pub page_loop : (ℕ → Bool) → ℕ → ℕ → ℕ → Option Bool
page_loop test zero page last = none
page_loop test (suc rounds) page last = elim (test page) [
  | false ↦ some false
  | true ↦ elim (leb last page) [
    | true ↦ some true
    | false ↦ page_loop test rounds ((page + 0x1000) % 2 ^ 32) last
  ]
]

-- The bytes from `start` on fit below 2³², and the test holds of their pages.
pub check_range : (ℕ → Bool) → ℕ → ℕ → Option Bool
unfolding page_loop
check_range test start size =
    if ltb (u32_max - (size - 1)) start
    then some false
    else (let end_ = start + size - 1 in
        page_loop test 1048576 (bit_and start frame_mask) (bit_and end_ frame_mask))

pub user_accessible : Space → ℕ → ℕ → Option Bool
unfolding user_page
user_accessible s virt size =
    if not s.is_enabled || size == 0 then some false else check_range (user_page s) virt size

unfoldable pub kernel_directory_phys : Space → ℕ
kernel_directory_phys s = s.kernel_dir_phys

unfoldable pub current_directory_phys : Space → ℕ
current_directory_phys s = if not s.is_enabled then 0 else s.current_dir_phys

-- The `left` entries from the `i`-th on, without those of user space.
pub clone_loop : ℕ → ℕ → ℕ → ℕ → (ℕ → ℕ) → ℕ → ℕ
clone_loop zero i new_dir kernel_dir word = word
clone_loop (suc left) i new_dir kernel_dir word =
    let pde = word (slot kernel_dir i) in
    clone_loop left (i + 1) new_dir kernel_dir
      (write word (slot new_dir i) (if is_user pde then 0 else pde))

pub clone_kernel_directory : Space → Option ℕ × Space
clone_kernel_directory s =
    if not s.is_enabled
    then (none, s)
    else (let (frame, pmm) = alloc_frame s.pmm in
        if frame == 0 then (none, record s { pmm = pmm }) else (
          some frame,
          record s { pmm = pmm; word = clone_loop 1024 0 frame s.kernel_dir_phys s.word },
        ))

unfoldable pub switch_directory : Space → ℕ → Space
switch_directory s directory_phys =
    if not s.is_enabled || directory_phys == 0
    then s
    else if not (bit_and directory_phys 0xFFF == 0)
    then s
    else record s { current_dir_phys = directory_phys }

-- The entries of the identity map: the `e`-th page of the `pd`-th table.
pub identity_entry : ℕ → ℕ → ℕ → ℕ
identity_entry identity_end pd e =
    let phys = bit_or (pd * 2 ^ 22) (e * 2 ^ 12) in
    if ltb phys identity_end then bit_or (bit_or phys flag_present) flag_rw else 0

-- The `left` tables from the `pd`-th on, and whether there were frames for all.
pub init_tables : ℕ → ℕ → ℕ → Space → Bool × Space
unfolding alloc_table
init_tables zero pd identity_end s = (true, s)
init_tables (suc left) pd identity_end s =
    let (table, s₁) = alloc_table s in
    elim table [
      | none ↦ (false, s₁)
      | some t ↦
          let s₂ = record s₁ {
            word = fill_loop 1024 0 t (identity_entry identity_end pd) s₁.word;
          } in
          init_tables left (pd + 1) identity_end
            (store s₂ (slot s.page_directory pd) (bit_or (bit_or t flag_present) flag_rw))
    ]

pub identity_limit : ℕ → ℕ
identity_limit highest =
    let end_ = align_up_4k highest in if ltb end_ 0x400000 then 0x400000 else end_

-- The tables of `count` times 4 MB from 0 on, and paging is on if there were frames for them.
pub map_low : ℕ → ℕ → Space → Space
unfolding init_tables
map_low limit count s =
    let pd_count = if ltb 1024 count then 1024 else count in
    let identity_end = if ltb 1024 count then u32_max else limit in
    let (done, s') = init_tables pd_count 0 identity_end s in
    if not done then record s' { is_enabled = false } else record s' {
      kernel_dir_phys = s.page_directory;
      current_dir_phys = s.page_directory;
      is_enabled = true;
    }

pub init : Space → Space
unfolding map_low identity_limit
init s =
    let s₀ = record s { word = fill_loop 1024 0 s.page_directory (λ i. 0) s.word } in
    if not s.pmm.initialized
    then record s₀ { is_enabled = false }
    else (let limit = identity_limit (highest_address s.pmm) in
        map_low limit ((limit + 0x3FFFFF) % 2 ^ 32 / 2 ^ 22) s₀)
