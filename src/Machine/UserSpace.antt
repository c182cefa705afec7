-- ===== src/Machine/UserSpace.antt =====
-- The pages of a process, in kernel/process.c: they are taken out of its directory, and their table
-- and frames go back to the frame manager.
pub mod Pages
use mars_os.Base.{
  ℕ, zero, suc, ◌+◌, ◌-◌, ◌*◌, ◌/◌, ◌%◌, ◌^◌, Bool, true, false, not, ◌||◌, ◌==◌, if◌then◌else◌,
}
use Prim.Native.Nat.{bit_and}
use mars_os.Pmm.{free_frame}
use mars_os.Paging.{
  Space, slot, is_present, is_user, pd_index, frame_mask, store, unmap_page, switch_directory,
  current_directory_phys, kernel_directory_phys,
}

abbrev pub user_code_vaddr : ℕ
user_code_vaddr = 0x40000000

abbrev pub user_stack_top : ℕ
user_stack_top = 0x40002000

abbrev pub user_stack_page : ℕ
user_stack_page = user_stack_top - 0x1000

-- pmm_free_frame(frame)
abbrev pub give_back : Space → ℕ → Space
give_back s frame = record s { pmm = (free_frame s.pmm frame).1 }

empty_loop : ℕ → ℕ → (ℕ → ℕ) → ℕ → Bool
empty_loop zero i word table = true
empty_loop (suc left) i word table =
    let rest = empty_loop left (i + 1) word table in
    if is_present (word (slot table i)) then false else rest

pub table_is_empty : (ℕ → ℕ) → ℕ → Bool
unfolding empty_loop
table_is_empty word table = empty_loop 1024 0 word table

unfoldable pub release_user_table : Space → ℕ → ℕ → Space
unfolding table_is_empty
release_user_table s cr3 virt =
    let entry = slot cr3 (pd_index virt) in
    let table = bit_and (s.word entry) frame_mask in
    if cr3 == 0
    then s
    else if not (is_present (s.word entry))
    then s
    else if not (is_user (s.word entry))
    then s
    else if table_is_empty s.word table
    then store (give_back s table) entry 0
    else s

-- The directory is switched to, and the two pages of a process are unmapped in it.
abbrev pub without_user_pages : Space → ℕ → Space
without_user_pages s cr3 =
    (unmap_page (unmap_page (switch_directory s cr3) user_code_vaddr).1 user_stack_page).1

unfoldable pub unmap_user_pages : Space → ℕ → Space
unfolding release_user_table
unmap_user_pages s cr3 =
    let prev_cr3 = current_directory_phys s in
    if cr3 == 0 || cr3 == kernel_directory_phys s
    then s
    else release_user_table (switch_directory (without_user_pages s cr3) prev_cr3) cr3
        user_code_vaddr

-- The end of `process_build_user_image` after a failure.
unfoldable pub abandon_image : Space → ℕ → ℕ → ℕ → ℕ → Bool → Bool → Space
unfolding release_user_table
abandon_image s prev_cr3 cr3 code_frame stack_frame code_mapped stack_mapped =
    let s₁ = if stack_mapped then (unmap_page s user_stack_page).1 else s in
    let s₂ = if code_mapped then (unmap_page s₁ user_code_vaddr).1 else s₁ in
    let s₃ =
      if stack_mapped || code_mapped then release_user_table s₂ cr3 user_code_vaddr else s₂ in
    let s₄ = if stack_frame == 0 then s₃ else give_back s₃ stack_frame in
    let s₅ = if code_frame == 0 then s₄ else give_back s₄ code_frame in switch_directory s₅ prev_cr3
