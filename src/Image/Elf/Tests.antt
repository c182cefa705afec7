-- ===== src/Image/Elf/Tests.antt =====
-- A concrete ELF file for the loader of kernel/process.c.
use mars_os.Base.{
  ℕ, ◌+◌, ◌≡◌, ◌≤◌, ◌<◌, refl, true, false, [], ◌∷◌, some, ltb, get_or, if◌then◌else◌, arith,
}
use mars_os.Image.Elf.{
  Image, Loading, is_elf32_image, load_elf32_single_page, header_ok, segment_ok, ehdr_of, phdr_of,
  half_at, word_at, load_loop, load_segment,
}
use mars_os.Image.Elf.Load.{load_elf32_single_page-inside}

-- A file of 88 bytes: the header, one program header, and 4 bytes of code for address 0x40000000.
abbrev small_elf : Image
small_elf = record {
  byte = λ i.
      get_or
        (0x7F ∷ 69 ∷ 76 ∷ 70 ∷ 1 ∷ 1 ∷ 1 ∷ 0 ∷ 0 ∷ 0 ∷ 0 ∷ 0 ∷ 0 ∷ 0 ∷ 0 ∷ 0 ∷ 2 ∷ 0 ∷ 3 ∷ 0 ∷ 1 ∷ 0
          ∷ 0 ∷ 0 ∷ 0 ∷ 0 ∷ 0 ∷ 0x40 ∷ 52 ∷ 0 ∷ 0 ∷ 0 ∷ 0 ∷ 0 ∷ 0 ∷ 0 ∷ 0 ∷ 0 ∷ 0 ∷ 0 ∷ 52 ∷ 0 ∷ 32
          ∷ 0 ∷ 1 ∷ 0 ∷ 0 ∷ 0 ∷ 0 ∷ 0 ∷ 0 ∷ 0 ∷ 1 ∷ 0 ∷ 0 ∷ 0 ∷ 84 ∷ 0 ∷ 0 ∷ 0 ∷ 0 ∷ 0 ∷ 0 ∷ 0x40
          ∷ 0 ∷ 0 ∷ 0 ∷ 0x40 ∷ 4 ∷ 0 ∷ 0 ∷ 0 ∷ 8 ∷ 0 ∷ 0 ∷ 0 ∷ 5 ∷ 0 ∷ 0 ∷ 0 ∷ 0 ∷ 0 ∷ 0 ∷ 0 ∷ 0xCD
          ∷ 0x81 ∷ 0xEB ∷ 0xFE ∷ [])
        i 0;
  len = 88;
}

is_small_elf : is_elf32_image small_elf ≡ true
unfolding is_elf32_image
is_small_elf = refl

-- What the loader makes of it.
abbrev empty_page : Loading
empty_page = record {
  code = λ i. if ltb i 4096 then 0 else 0xFF;
  loaded_any = false;
  entry_in_load = false;
}

abbrev small_page : ℕ → ℕ
small_page =
    (load_segment small_elf (ehdr_of small_elf) 0x40000000 (phdr_of small_elf 52) empty_page).code

small_loads :
    load_elf32_single_page small_elf (λ i. 0xFF) 0x40000000 4096 ≡ some (small_page, 0x40000000)
unfolding load_elf32_single_page header_ok segment_ok ehdr_of phdr_of half_at word_at load_loop
    load_segment
small_loads = refl

load_elf32_single_page-inside_example :
    (small_page 4096 ≡ 0xFF) × (0x40000000 ≤ 0x40000000) × (0x40000000 < 0x40000000 + 4096)
load_elf32_single_page-inside_example =
    load_elf32_single_page-inside small_elf (λ i. 0xFF) small_page 0x40000000 4096 0x40000000 4096
      (omega arith) (omega arith) small_loads
