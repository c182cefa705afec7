-- ===== src/Machine/Program.antt =====
-- `process_build_user_image` of kernel/process.c: the pages of a new process, and its program in them.
pub mod Beside
use mars_os.Base.{
  ℕ, zero, suc, ◌+◌, ◌%◌, ◌^◌, Bool, true, false, not, ◌||◌, List, [], ◌∷◌, ◌++◌, length, get_or,
  Option, none, some, ◌==◌, leb, ltb, if◌then◌else◌,
}
use mars_os.Base.Text.{codes, str_len}
use mars_os.Allocator.{Allocator}
use mars_os.Pmm.{alloc_frame}
use mars_os.Paging.{Space, map_page, switch_directory, current_directory_phys}
use mars_os.Vfs.{Vfs, read_file}
use mars_os.Image.{parse_user_image_hex, emit_exit_only_program, emit_ping_program}
use mars_os.Image.Elf.{Image, is_elf32_image, load_elf32_single_page}
use mars_os.Machine.{Machine, byte_at, store_page, store_bytes}
use mars_os.Machine.UserSpace.{user_code_vaddr, user_stack_page, without_user_pages, abandon_image}

-- The status of a load: 0, -1, or 1, with the bytes that it wrote to the buffer.
pub data Loaded : Type 0 where
  missing : Loaded
  rejected bytes : List ℕ → Loaded

-- The rest of `alt_name` from its `i`-th byte on, or nothing where it does not fit in 40.
alt_name : ℕ → List ℕ → Option (List ℕ)
alt_name i [] = some []
alt_name i (c ∷ name) =
    let rest = alt_name (i + 1) name in
    if c == 0
    then some []
    else if leb 40 (i + 1)
    then none
    else elim rest [ none ↦ none | some t ↦ some (c ∷ t) ]

-- The reader has a round for each byte of the text and one more.
image_of_text : List ℕ → ℕ → Loaded
image_of_text text dst_cap =
    if ltb (str_len text) 2
    then rejected []
    else (elim (parse_user_image_hex (length text + 1) text dst_cap) [
      | none ↦ rejected []
      | some r ↦ if r.ok then bytes r.code else rejected r.code
    ])

pub load_user_image_bytes_from_vfs : Vfs → Option (List ℕ) → ℕ → Loaded
unfolding alt_name image_of_text
load_user_image_bytes_from_vfs v none dst_cap = missing
load_user_image_bytes_from_vfs v (some name) dst_cap =
    if str_len name == 0 then missing else (elim (read_file v (some name)) [
      | some text ↦ image_of_text text dst_cap
      | none ↦ elim (alt_name 4 name) [
        | none ↦ missing
        | some alt ↦ elim (read_file v (some (codes "app." ++ alt))) [
          | none ↦ missing
          | some text ↦ image_of_text text dst_cap
        ]
      ]
    ])

-- A page after `mem_zero_u8`, and after `mem_copy_u8` to its start.
abbrev pub mem_zero : (ℕ → ℕ) → ℕ → ℕ → ℕ
mem_zero page n = λ i. if ltb i n then 0 else page i

abbrev pub mem_copy : (ℕ → ℕ) → (ℕ → ℕ) → ℕ → ℕ → ℕ
mem_copy page src n = λ i. if ltb i n then src i else page i

-- The page and the entry point for the loaded bytes, or nothing. The bytes are read where they were
-- stored, so that what lies behind them in memory is read too.
pub place_image : (ℕ → ℕ) → (ℕ → ℕ) → ℕ → Option ((ℕ → ℕ) × ℕ)
place_image page image loaded_len =
    let m : Image = record { byte = image; len = loaded_len } in
    if is_elf32_image m
    then load_elf32_single_page m page user_code_vaddr 0x1000
    else if ltb 0x1000 loaded_len
    then none
    else some (mem_copy (mem_zero page 0x1000) image loaded_len, user_code_vaddr)

-- The program that the kernel writes itself.
pub builtin_image : (ℕ → ℕ) → ℕ → (ℕ → ℕ) × ℕ
builtin_image page user_prog_id =
    let program =
      if user_prog_id == 1
      then emit_exit_only_program
      else if user_prog_id == 2
      then emit_ping_program 8
      else emit_ping_program 2 in
    (mem_copy (mem_zero page 0x1000) (λ i. get_or program i 0) (length program), user_code_vaddr)

-- The status, where there is a buffer for the stored program.
pub load_image : Vfs → ℕ → Option (List ℕ) → Loaded
unfolding load_user_image_bytes_from_vfs
load_image v image program_name =
    if image == 0 then missing else load_user_image_bytes_from_vfs v program_name 0x4000

-- The bytes in the buffer.
pub written : Loaded → List ℕ
written missing = []
written (rejected b) = b
written (bytes b) = b

-- The code page and the entry point, by the stored program if it was loaded.
pub choose_image : Loaded → (ℕ → ℕ) → ℕ → (ℕ → ℕ) → Option ((ℕ → ℕ) × ℕ)
unfolding place_image builtin_image
choose_image missing image user_prog_id page = some (builtin_image page user_prog_id)
choose_image (rejected b) image user_prog_id page = none
choose_image (bytes b) image user_prog_id page = place_image page image (length b)

pub record Built : Type 0 where
  pub code_frame : ℕ
  pub stack_frame : ℕ
  pub entry : ℕ

module _ (alloc : Allocator) where
  open alloc use {kmalloc, kfree, in_space, space_of}

  -- Both pages are mapped, and the new directory is active: the heap grows in it. A read of the
  -- buffer at an address without translation, which faults, gives 0. What a loader that gives up
  -- left in the code page is left out: its frame is given back.
  unfoldable pub fill_pages :
      Machine alloc → Space → ℕ → ℕ → Built → ℕ → Option (List ℕ) → Option Built × Machine alloc
  unfolding choose_image load_image written
  fill_pages m s prev_cr3 cr3 b user_prog_id program_name =
      let (image, heap) = kmalloc (in_space m.memory.heap s) 0x4000 in
      let s' = space_of heap in
      let loaded = load_image m.vfs image program_name in
      let byte =
        store_bytes s' (store_page s m.byte user_stack_page (λ i. 0)) image (written loaded) in
      let page : ℕ → ℕ = λ i. byte_at s' byte (user_code_vaddr + i) in
      let buffer : ℕ → ℕ = λ i. byte_at s' byte ((image + i) % 2 ^ 32) in
      let memory = record m.memory { heap = if image == 0 then heap else kfree heap image } in
      elim (choose_image loaded buffer user_prog_id page) [
        | none ↦ (
          none,
          record m {
            space = abandon_image s' prev_cr3 cr3 b.code_frame b.stack_frame true true;
            byte = byte;
            memory = memory;
          },
        )
        | some (page', entry) ↦ (
          some (record b { entry = entry }),
          record m {
            space = switch_directory s' prev_cr3;
            byte = store_page s' byte user_code_vaddr page';
            memory = memory;
          },
        )
      ]

  unfoldable pub build_user_image :
      Machine alloc → ℕ → ℕ → Option (List ℕ) → Option Built × Machine alloc
  unfolding fill_pages abandon_image
  build_user_image m cr3 user_prog_id program_name =
      let prev_cr3 = current_directory_phys m.space in
      let s₁ = without_user_pages m.space cr3 in
      let (code, pmm₁) = alloc_frame s₁.pmm in
      let (stack, pmm₂) = alloc_frame pmm₁ in
      let s₂ = record s₁ { pmm = pmm₂ } in
      let (code_mapped, s₃) = map_page s₂ user_code_vaddr code 7 in
      let (stack_mapped, s₄) = map_page s₃ user_stack_page stack 7 in
      let b : Built = record { code_frame = code; stack_frame = stack; entry = user_code_vaddr } in
      if code == 0 || stack == 0
      then (none, record m { space = abandon_image s₂ prev_cr3 cr3 code stack false false })
      else if not code_mapped
      then (none, record m { space = abandon_image s₃ prev_cr3 cr3 code stack false false })
      else if not stack_mapped
      then (none, record m { space = abandon_image s₄ prev_cr3 cr3 code stack true false })
      else fill_pages m s₄ prev_cr3 cr3 b user_prog_id program_name
