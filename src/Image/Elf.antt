-- ===== src/Image/Elf.antt =====
-- `process_is_elf32_image` and `process_load_elf32_single_page` of kernel/process.c. An image is its
-- bytes; past its length `byte` gives what lies behind the image in memory.
pub mod Load
pub mod Tests
use mars_os.Base.{
  ℕ, zero, suc, ◌+◌, ◌-◌, ◌*◌, ◌/◌, ◌%◌, ◌^◌, Bool, true, false, not, ◌&&◌, ◌||◌, Option, none,
  some, ◌==◌, leb, ltb, if◌then◌else◌, u32_max,
}

-- An address space of bytes around the image, counted from its first byte.
pub record Image : Type 0 where
  pub byte : ℕ → ℕ
  pub len : ℕ

pub half_at : Image → ℕ → ℕ
half_at m a = m.byte a + m.byte (a + 1) * 256

pub word_at : Image → ℕ → ℕ
unfolding half_at
word_at m a = half_at m a + half_at m (a + 2) * 65536

pub record Ehdr : Type 0 where
  pub e_type : ℕ
  pub e_machine : ℕ
  pub e_version : ℕ
  pub e_entry : ℕ
  pub e_phoff : ℕ
  pub e_ehsize : ℕ
  pub e_phentsize : ℕ
  pub e_phnum : ℕ

pub record Phdr : Type 0 where
  pub p_type : ℕ
  pub p_offset : ℕ
  pub p_vaddr : ℕ
  pub p_filesz : ℕ
  pub p_memsz : ℕ

pub ehdr_of : Image → Ehdr
ehdr_of m = record {
  e_type = half_at m 16;
  e_machine = half_at m 18;
  e_version = word_at m 20;
  e_entry = word_at m 24;
  e_phoff = word_at m 28;
  e_ehsize = half_at m 40;
  e_phentsize = half_at m 42;
  e_phnum = half_at m 44;
}

pub phdr_of : Image → ℕ → Phdr
phdr_of m a = record {
  p_type = word_at m a;
  p_offset = word_at m (a + 4);
  p_vaddr = word_at m (a + 8);
  p_filesz = word_at m (a + 16);
  p_memsz = word_at m (a + 20);
}

abbrev pub has_magic : Image → Bool
has_magic m = m.byte 0 == 0x7F && (m.byte 1 == 69 && (m.byte 2 == 76 && m.byte 3 == 70))

pub is_elf32_image : Image → Bool
is_elf32_image m = not (ltb m.len 52) && has_magic m

-- The checks before anything is written. The subtraction wraps, as the source's does.
pub header_ok : Image → Ehdr → Bool
header_ok m eh =
    not (ltb m.len 52)
    && (has_magic m
        && (m.byte 4 == 1
            && (m.byte 5 == 1
                && (m.byte 6 == 1
                    && (eh.e_machine == 3
                        && (eh.e_type == 2
                            && (eh.e_version == 1
                                && (eh.e_ehsize == 52
                                    && (eh.e_phentsize == 32
                                        && (leb eh.e_phoff m.len
                                            && (eh.e_phnum == 0
                                                || leb eh.e_phoff (
                                                    (m.len + 2 ^ 32 - eh.e_phnum * eh.e_phentsize)
                                                    % 2 ^ 32))))))))))))

-- The checks of a segment to load.
pub segment_ok : Image → Phdr → ℕ → ℕ → Bool
segment_ok m ph code_vaddr code_size =
    leb ph.p_vaddr (u32_max - ph.p_memsz)
    && (leb ph.p_filesz ph.p_memsz
        && (leb ph.p_offset m.len
            && (leb ph.p_filesz (m.len - ph.p_offset)
                && (leb code_vaddr ph.p_vaddr
                    && (leb (ph.p_vaddr - code_vaddr) code_size
                        && leb ph.p_memsz (code_size - (ph.p_vaddr - code_vaddr)))))))

-- The copy of the file's part and the zeros behind it, in the page.
pub store_segment : Image → Phdr → ℕ → (ℕ → ℕ) → ℕ → ℕ
store_segment m ph code_vaddr code = λ i.
    let off = ph.p_vaddr - code_vaddr in
    if leb off i && ltb i (off + ph.p_filesz)
    then m.byte (ph.p_offset + (i - off))
    else if leb off i && ltb i (off + ph.p_memsz)
    then 0
    else code i

pub record Loading : Type 0 where
  pub code : ℕ → ℕ
  pub loaded_any : Bool
  pub entry_in_load : Bool

abbrev pub skips : Phdr → Bool
skips ph = not (ph.p_type == 1) || ph.p_memsz == 0

pub load_segment : Image → Ehdr → ℕ → Phdr → Loading → Loading
unfolding store_segment
load_segment m eh code_vaddr ph l = record {
  code = store_segment m ph code_vaddr l.code;
  loaded_any = true;
  entry_in_load =
      l.entry_in_load || (leb ph.p_vaddr eh.e_entry && ltb eh.e_entry (ph.p_vaddr + ph.p_memsz));
}

-- The `left` program headers from the `i`-th on; `none` where one is refused.
pub load_loop : ℕ → ℕ → Image → Ehdr → ℕ → ℕ → Loading → Option Loading
load_loop zero i m eh code_vaddr code_size l = some l
load_loop (suc left) i m eh code_vaddr code_size l =
    let ph = phdr_of m ((eh.e_phoff + i * eh.e_phentsize) % 2 ^ 32) in
    elim (skips ph) [
      | true ↦ load_loop left (i + 1) m eh code_vaddr code_size l
      | false ↦ elim (segment_ok m ph code_vaddr code_size) [
        | true ↦
            load_loop left (i + 1) m eh code_vaddr code_size (load_segment m eh code_vaddr ph l)
        | false ↦ none
      ]
    ]

-- The page and the entry point, or nothing.
pub load_elf32_single_page : Image → (ℕ → ℕ) → ℕ → ℕ → Option ((ℕ → ℕ) × ℕ)
load_elf32_single_page m code code_vaddr code_size =
    let eh = ehdr_of m in
    let start : Loading = record {
      code = λ i. if ltb i code_size then 0 else code i;
      loaded_any = false;
      entry_in_load = false;
    } in
    elim (header_ok m eh) [
      | false ↦ none
      | true ↦ elim (load_loop eh.e_phnum 0 m eh code_vaddr code_size start) [
        | none ↦ none
        | some l ↦
            if not l.loaded_any
              || ((ltb eh.e_entry code_vaddr || leb ((code_vaddr + code_size) % 2 ^ 32) eh.e_entry)
                  || not l.entry_in_load)
            then none
            else some (l.code, eh.e_entry)
      ]
    ]
