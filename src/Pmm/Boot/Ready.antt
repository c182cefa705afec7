-- ===== src/Pmm/Boot/Ready.antt =====
-- `pmm_init` ends, and leaves exact counters with the boot loader's data reserved.
use mars_os.Base.{
  ℕ, ◌+◌, ◌*◌, ◌/◌, ◌%◌, ◌^◌, ◌<◌, ◌≡◌, Bool, true, false, not, ◌&&◌, ◌⊎◌, length, ◌==◌, leb, ltb,
  if◌then◌else◌,
}
use mars_os.Pmm.{Pmm, reserve_range, add32}
use mars_os.Pmm.Bitmap.{frame_set}
use mars_os.Pmm.Valid.{IsValid, usable}
use mars_os.Pmm.Boot.{BootInfo, BootMemory, has_mmap, reserve_modules, reserve_multiboot_data}
use mars_os.Pmm.Boot.Reserve.{Counted, after_frame}
use mars_os.Pmm.Boot.Fresh.{Fresh}

-- The later state has the same regions, at least the same bits set, and exact counters.
record Keeps (p q : Pmm) : Type 0 where
  still : (i : ℕ) → frame_set p i ≡ true → frame_set q i ≡ true
  same_regions : q.regions ≡ p.regions
  counted : Counted q

-- The addresses that the boot loader left are 32-bit words.
pub record IsWords (mem : BootMemory) (mbi : BootInfo) : Type 0 where
  pub address_lt : mbi.address < 2 ^ 32
  pub mmap_lt : mbi.mmap_addr < 2 ^ 32
  pub cmdline_lt : mbi.cmdline < 2 ^ 32
  pub mods_lt : mbi.mods_addr < 2 ^ 32
  pub start_lt : (a : ℕ) → (mem.module_at a).mod_start < 2 ^ 32
  pub string_lt : (a : ℕ) → (mem.module_at a).string < 2 ^ 32

-- The state after the structure itself is reserved.
abbrev with_info : Pmm → BootInfo → Pmm
with_info p mbi = reserve_range p mbi.address (add32 mbi.address 52)

abbrev with_map : Pmm → BootInfo → Pmm
with_map p mbi =
    if has_mmap mbi then reserve_range p mbi.mmap_addr (add32 mbi.mmap_addr mbi.mmap_length) else p

abbrev with_modules : Pmm → BootMemory → BootInfo → Pmm
with_modules p mem mbi =
    if ltb 0 mbi.mods_count && not (mbi.mods_addr == 0)
    then reserve_modules mbi.mods_count
        (reserve_range p mbi.mods_addr (add32 mbi.mods_addr (mbi.mods_count * 16 % 2 ^ 32))) mem
        mbi.mods_addr 0
    else p

-- The map fits in the address space, and so does each entry of it.
pub record MapFits (mem : BootMemory) (mbi : BootInfo) : Type 0 where
  pub map_fits : mbi.mmap_addr + mbi.mmap_length < 2 ^ 32
  pub entry_fits :
      (a : ℕ) → a < mbi.mmap_addr + mbi.mmap_length → a + ((mem.entry_at a).size + 4) < 2 ^ 32

-- The frames of the multiboot structure.
abbrev pub holds_info : BootInfo → ℕ → Bool
holds_info mbi i = leb (mbi.address / 4096) i && ltb i (after_frame (mbi.address + 52))

-- What `pmm_init` makes of the state that the map left.
abbrev finished : Pmm → BootMemory → BootInfo → Pmm
finished q mem mbi =
    if length q.regions == 0
    then record q { initialized = false }
    else record (reserve_multiboot_data q mem mbi) { initialized = true }

abbrev IsReady : Pmm → BootInfo → ℕ → Type 0
IsReady q mbi i =
    (((length q.regions == 0) ≡ true) × (q.initialized ≡ false))
    ⊎ (((length q.regions == 0) ≡ false)
        × (q.initialized ≡ true)
        × IsValid q
        × ((usable q i && (holds_info mbi i && not (frame_set q i))) ≡ false))
