-- ===== src/Machine/Program/Beside.antt =====
-- Building the program of a process changes its memory, and no process, task or file.
use mars_os.Base.{ℕ, ◌≡◌, refl, not, ◌||◌, List, Option, ◌==◌, if_both_snd, option_both}
use mars_os.Allocator.{Allocator}
use mars_os.Pmm.{alloc_frame}
use mars_os.Paging.{Space, current_directory_phys, map_page}
use mars_os.Machine.{Machine}
use mars_os.Machine.UserSpace.{user_code_vaddr, user_stack_page, without_user_pages}
use mars_os.Machine.Program.{Built, build_user_image, fill_pages}

module _ (alloc : Allocator) where
  -- What stands beside the memory is as it was.
  pub record Beside (m m' : Machine alloc) : Type 0 where
    pub same_processes : m'.processes ≡ m.processes
    pub same_scheduler : m'.scheduler ≡ m.scheduler
    pub same_vfs : m'.vfs ≡ m.vfs

  fill_pages-Beside :
      (m : Machine alloc) (s : Space) (prev cr3 : ℕ) (b : Built) (id : ℕ) (name : Option (List ℕ))
      → Beside m (fill_pages alloc m s prev cr3 b id name).1
  unfolding fill_pages
  fill_pages-Beside m s prev cr3 b id name =
      option_both (λ (r : Option Built × Machine alloc). Beside m r.1) _ _ _
        (record { same_processes = refl; same_scheduler = refl; same_vfs = refl })
        (λ x. record { same_processes = refl; same_scheduler = refl; same_vfs = refl })

  pub build_user_image-Beside :
      (m : Machine alloc) (cr3 id : ℕ) (name : Option (List ℕ))
      → Beside m (build_user_image alloc m cr3 id name).1
  unfolding build_user_image
  build_user_image-Beside m cr3 id name =
      let s₁ = without_user_pages m.space cr3 in
      let (code, pmm₁) = alloc_frame s₁.pmm in
      let (stack, pmm₂) = alloc_frame pmm₁ in
      let s₂ : Space = record s₁ { pmm = pmm₂ } in
      let (code_mapped, s₃) = map_page s₂ user_code_vaddr code 7 in
      let (stack_mapped, s₄) = map_page s₃ user_stack_page stack 7 in
      let b : Built = record { code_frame = code; stack_frame = stack; entry = user_code_vaddr } in
      let P = Beside m in
      if_both_snd P (code == 0 || stack == 0) _ _
        (record { same_processes = refl; same_scheduler = refl; same_vfs = refl })
        (if_both_snd P (not code_mapped) _ _
          (record { same_processes = refl; same_scheduler = refl; same_vfs = refl })
          (if_both_snd P (not stack_mapped) _ _
            (record { same_processes = refl; same_scheduler = refl; same_vfs = refl })
            (fill_pages-Beside m s₄ (current_directory_phys m.space) cr3 b id name)))
