-- ===== src/Pmm/Boot.antt =====
-- `pmm_init` and `pmm_reserve_multiboot_data` of kernel/pmm.c, over the structures of
-- kernel/multiboot.h. What the boot loader left in memory is a parameter: the structure at an address.
pub mod Loops
pub mod Reserve
pub mod Fresh
pub mod Offered
pub mod Ready
use mars_os.Base.{
  ℕ, zero, suc, ◌+◌, ◌*◌, ◌%◌, ◌^◌, Bool, true, false, not, ◌&&◌, ◌||◌, Option, none, some, List,
  [], ◌∷◌, ◌++◌, length, ◌==◌, leb, ltb, if◌then◌else◌, u32_max,
}
use Prim.Native.Nat.{bit_and}
use mars_os.Pmm.{
  Pmm, Region, align_up_4k, align_down_4k, mark_region_usable, reserve_range, add32, max_regions,
}

pub record MmapEntry : Type 0 where
  pub size : ℕ
  pub addr : ℕ
  pub len : ℕ
  pub kind : ℕ

pub record BootModule : Type 0 where
  pub mod_start : ℕ
  pub mod_end : ℕ
  pub string : ℕ

pub record BootInfo : Type 0 where
  pub address : ℕ
  pub flags : ℕ
  pub cmdline : ℕ
  pub mods_count : ℕ
  pub mods_addr : ℕ
  pub mmap_length : ℕ
  pub mmap_addr : ℕ

pub record BootMemory : Type 0 where
  pub entry_at : ℕ → MmapEntry
  pub module_at : ℕ → BootModule
  pub byte_at : ℕ → ℕ

-- The map flag, bit 6.
abbrev pub has_mmap : BootInfo → Bool
has_mmap mbi = not (bit_and mbi.flags (2 ^ 6) == 0)

-- The bytes of a string and its terminator, at most 4096.
string_span : ℕ → BootMemory → ℕ → ℕ → ℕ
string_span zero mem s len = len
string_span (suc left) mem s len = elim (mem.byte_at (add32 s len) == 0) [
  | true ↦ len + 1
  | false ↦ string_span left mem s (len + 1)
]

reserve_string : Pmm → BootMemory → ℕ → Pmm
reserve_string p mem s =
    if s == 0
    then p
    else (let span = string_span 4096 mem s 0 in
        let len = if span == 0 then 1 else span in reserve_range p s (add32 s len))

reserve_module : Pmm → BootMemory → BootModule → Pmm
unfolding reserve_string
reserve_module p mem m =
    let q = if ltb m.mod_start m.mod_end then reserve_range p m.mod_start m.mod_end else p in
    reserve_string q mem m.string

-- The `left` modules from the `i`-th on.
reserve_modules : ℕ → Pmm → BootMemory → ℕ → ℕ → Pmm
unfolding reserve_module
reserve_modules zero p mem mods i = p
reserve_modules (suc left) p mem mods i =
    reserve_modules left (reserve_module p mem (mem.module_at (add32 mods (i * 16)))) mem mods
      (i + 1)

pub reserve_multiboot_data : Pmm → BootMemory → BootInfo → Pmm
unfolding reserve_string reserve_modules
reserve_multiboot_data p mem mbi =
    let p₁ = reserve_range p mbi.address (add32 mbi.address 52) in
    let p₂ =
      if has_mmap mbi
      then reserve_range p₁ mbi.mmap_addr (add32 mbi.mmap_addr mbi.mmap_length)
      else p₁ in
    let p₃ = reserve_string p₂ mem mbi.cmdline in
    if ltb 0 mbi.mods_count && not (mbi.mods_addr == 0)
    then (let p₄ =
          reserve_range p₃ mbi.mods_addr (add32 mbi.mods_addr (mbi.mods_count * 16 % 2 ^ 32)) in
        reserve_modules mbi.mods_count p₄ mem mbi.mods_addr 0)
    else p₃

-- The bounds of an entry's region, as the code clips and aligns them.
pub entry_start : ℕ → MmapEntry → ℕ
entry_start required_start e =
    let low = if ltb e.addr 0x100000 then 0x100000 else e.addr in
    let start = align_up_4k (low % 2 ^ 32) in
    if ltb start required_start then align_up_4k required_start else start

pub entry_end : MmapEntry → ℕ
entry_end e =
    let high = (e.addr + e.len) % 2 ^ 64 in
    align_down_4k (if ltb u32_max high then u32_max else high)

abbrev pub is_clipped_out : MmapEntry → Bool
is_clipped_out e =
    let low = if ltb e.addr 0x100000 then 0x100000 else e.addr in
    let high = (e.addr + e.len) % 2 ^ 64 in leb (if ltb u32_max high then u32_max else high) low

-- `pmm_region_start[pmm_region_count] = …; pmm_region_count++`, and the frames marked.
pub add_region : Pmm → Region → Pmm
add_region p r =
    mark_region_usable
      (record p {
        regions = p.regions ++ r ∷ [];
        highest_end = if ltb p.highest_end r.end_ then r.end_ else p.highest_end;
      })
      r.start r.end_

-- The body of the loop over the map.
pub init_entry : ℕ → Pmm → MmapEntry → Pmm
init_entry required_start p e =
    let start = entry_start required_start e in
    let end_ = entry_end e in
    if not (e.kind == 1) || is_clipped_out e
    then p
    else if ltb start end_ && ltb (length p.regions) max_regions
    then add_region p (record { start = start; end_ = end_ })
    else p

-- while (entry < mmap_end), on fuel; `none` where the fuel runs out.
pub init_entries : ℕ → ℕ → Pmm → BootMemory → ℕ → ℕ → Option Pmm
init_entries zero required_start p mem entry mmap_end = none
init_entries (suc fuel) required_start p mem entry mmap_end = elim (ltb entry mmap_end) [
  | false ↦ some p
  | true ↦
      let e = mem.entry_at entry in
      init_entries fuel required_start (init_entry required_start p e) mem
        (add32 entry (e.size + 4)) mmap_end
]

abbrev pub blank : Pmm
blank = record {
  regions = [];
  total = 0;
  used = 0;
  bitmap = λ i. u32_max;
  hint_frame = 0;
  highest_end = 0;
  initialized = false;
}

pub init : ℕ → Pmm → BootMemory → BootInfo → ℕ → Option Pmm
init fuel p mem mbi kernel_end =
    if not (has_mmap mbi)
    then some (record p { initialized = false })
    else (elim (init_entries fuel (align_up_4k kernel_end) blank mem mbi.mmap_addr
        (add32 mbi.mmap_addr mbi.mmap_length)) [
          | none ↦ none
          | some q ↦
              if length q.regions == 0
              then some (record q { initialized = false })
              else some (record (reserve_multiboot_data q mem mbi) { initialized = true })
        ])
