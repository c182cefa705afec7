-- ===== src/Usermode.antt =====
-- kernel/usermode.c: the pages and the program of the test of user mode. The entry into user mode is
-- assembly; what it is given is a result.
pub mod Prepared
mod Tests
use mars_os.Base.{
  ℕ, ◌+◌, ◌-◌, Bool, true, false, not, ◌||◌, List, [], ◌∷◌, length, get_or, Option, none, some,
  ◌==◌, ltb, if◌then◌else◌,
}
use mars_os.Pmm.{alloc_frame}
use mars_os.Paging.{Space, map_page, unmap_page}
use mars_os.Machine.{byte_at, store_page}
use mars_os.Machine.UserSpace.{give_back, user_code_vaddr, user_stack_top, user_stack_page}
use mars_os.Machine.Program.{mem_copy}

pub record Usermode : Type 0 where
  pub prepared : Bool
  pub space : Space
  pub byte : ℕ → ℕ

-- Two system calls, and the exit.
pub test_program : List ℕ
test_program = 0xB8 ∷ 17 ∷ 0 ∷ 0 ∷ 0 ∷ 0xCD ∷ 0x80 ∷ 0xCD ∷ 0x80 ∷ 0xCD ∷ 0x81 ∷ 0xEB ∷ 0xFE ∷ []

abbrev give_if : Space → ℕ → Space
give_if s frame = if frame == 0 then s else give_back s frame

pub prepare : Usermode → Bool × Usermode
unfolding test_program
prepare u =
    let (code, pmm₁) = alloc_frame u.space.pmm in
    let (stack, pmm₂) = alloc_frame pmm₁ in
    let s₁ = record u.space { pmm = pmm₂ } in
    let (code_mapped, s₂) = map_page s₁ user_code_vaddr code 7 in
    let (stack_mapped, s₃) = map_page s₂ user_stack_page stack 7 in
    let page : ℕ → ℕ = λ i. byte_at s₃ u.byte (user_code_vaddr + i) in
    if u.prepared
    then (true, u)
    else if code == 0 || stack == 0
    then (false, record u { space = give_if (give_if s₁ code) stack })
    else if not code_mapped
    then (false, record u { space = give_back (give_back s₂ stack) code })
    else if not stack_mapped
    then (
      false,
      record u { space = give_back (give_back (unmap_page s₃ user_code_vaddr).1 stack) code },
    )
    else (
      true,
      record u {
        prepared = true;
        space = s₃;
        byte =
            store_page s₃ u.byte user_code_vaddr
              (mem_copy page (λ i. get_or test_program i 0) (length test_program));
      },
    )

unfoldable pub is_prepared : Usermode → Bool
is_prepared u = u.prepared

-- The kernel's stack for the task segment, and the entry and the stack that user mode starts with.
unfoldable pub enter_test : Usermode → ℕ → Option (ℕ × ℕ × ℕ)
enter_test u kernel_stack_top =
    if not u.prepared then none else some (kernel_stack_top, user_code_vaddr, user_stack_top - 16)
