-- ===== src/Image/Elf/Load.antt =====
-- The ELF loader of kernel/process.c writes in its page only, and enters what it loaded.
use mars_os.Base.{
  ℕ, zero, suc, ◌+◌, ◌*◌, ◌%◌, ◌^◌, ◌≤◌, ◌<◌, ◌≡◌, ◌∙◌, true, false, some, ltb, if◌then◌else◌,
  arith, Bool-cases, Option-cases, inl, inr,
}
use mars_os.Image.Elf.{
  Image, Ehdr, Phdr, Loading, ehdr_of, phdr_of, header_ok, segment_ok, store_segment, load_segment,
  load_loop, load_elf32_single_page, skips,
}

store_segment-inside :
    (m : Image) (ph : Phdr) (vaddr size : ℕ) (code : ℕ → ℕ) (i : ℕ)
    → segment_ok m ph vaddr size ≡ true
    → size ≤ i
    → store_segment m ph vaddr code i ≡ code i
unfolding store_segment segment_ok
store_segment-inside m ph vaddr size code i ok h = ground (arith, ok)

load_loop-inside :
    (left i : ℕ) (m : Image) (eh : Ehdr) (vaddr size j : ℕ) (l q : Loading)
    → size ≤ j
    → load_loop left i m eh vaddr size l ≡ some q
    → q.code j ≡ l.code j
unfolding load_loop load_segment
load_loop-inside zero i m eh vaddr size j l q h e = ground (arith, e)
load_loop-inside (suc left) i m eh vaddr size j l q h e =
    let ph = phdr_of m ((eh.e_phoff + i * eh.e_phentsize) % 2 ^ 32) in
    elim (Bool-cases (skips ph)) [
      | inl skip ↦ load_loop-inside left (i + 1) m eh vaddr size j l q h (ground (arith, e))
      | inr load ↦ elim (Bool-cases (segment_ok m ph vaddr size)) [
        | inl ok ↦
            load_loop-inside left (i + 1) m eh vaddr size j (load_segment m eh vaddr ph l) q h
              (ground (arith, e))
            ∙ store_segment-inside m ph vaddr size l.code j ok h
        | inr bad ↦ absurd (ground (arith, e))
      ]
    ]

-- The page before its segments are loaded.
abbrev emptied : (ℕ → ℕ) → ℕ → Loading
emptied code size = record {
  code = λ i. if ltb i size then 0 else code i;
  loaded_any = false;
  entry_in_load = false;
}

-- Where the loader succeeds, it has changed no byte behind the page, and the entry point lies in
-- the page: whatever the file says.
pub load_elf32_single_page-inside :
    (m : Image) (code page : ℕ → ℕ) (vaddr size entry j : ℕ)
    → vaddr + size < 2 ^ 32
    → size ≤ j
    → load_elf32_single_page m code vaddr size ≡ some (page, entry)
    → (page j ≡ code j) × (vaddr ≤ entry) × (entry < vaddr + size)
unfolding load_elf32_single_page
load_elf32_single_page-inside m code page vaddr size entry j fits h e =
    elim (Bool-cases (header_ok m (ehdr_of m))) [
      | inl ok ↦
          elim (Option-cases
            (load_loop (ehdr_of m).e_phnum 0 m (ehdr_of m) vaddr size (emptied code size))) [
              | inl none_ ↦ absurd (ground (arith, e))
              | inr (l, got) ↦
                  let inside =
                    load_loop-inside (ehdr_of m).e_phnum 0 m (ehdr_of m) vaddr size j
                      (emptied code size) l h got in
                  ground (arith, e, inside)
            ]
      | inr bad ↦ absurd (ground (arith, e))
    ]
