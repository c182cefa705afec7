-- ===== src/Segments.antt =====
-- kernel/gdt.c: the segment descriptors and the task state segment. What the processor loads is a
-- result; the addresses of the two structures are the linker's.
pub mod Descriptors
mod Tests
use mars_os.Base.{ℕ, zero, suc, ◌+◌, ◌-◌, ◌*◌, ◌/◌, ◌%◌, ◌^◌, ◌==◌, if◌then◌else◌}
use Prim.Native.Nat.{bit_and, bit_or}

pub record GdtEntry : Type 0 where
  pub limit_low : ℕ
  pub base_low : ℕ
  pub base_mid : ℕ
  pub access : ℕ
  pub granularity : ℕ
  pub base_high : ℕ

pub record GdtPtr : Type 0 where
  pub limit : ℕ
  pub base : ℕ

-- The fields that are not 0; a selector is 32 bits here.
pub record TssEntry : Type 0 where
  pub esp0 : ℕ
  pub ss0 : ℕ
  pub es : ℕ
  pub cs : ℕ
  pub ss : ℕ
  pub ds : ℕ
  pub fs : ℕ
  pub gs : ℕ
  pub iomap_base : ℕ

-- `gdt` has 6 entries; the last two are what `gdt_flush` and `tss_flush` load.
pub record Gdt : Type 0 where
  pub gdt : ℕ → GdtEntry
  pub tss : TssEntry
  pub gdt_descriptor : GdtPtr
  pub data_selector : ℕ
  pub tss_selector : ℕ

-- The size of the task state segment: 25 words and two halves.
abbrev pub tss_size : ℕ
tss_size = 104

pub entry_for : ℕ → ℕ → ℕ → ℕ → GdtEntry
entry_for base limit access flags = record {
  limit_low = bit_and limit 0xFFFF;
  base_low = bit_and base 0xFFFF;
  base_mid = bit_and (base / 2 ^ 16) 0xFF;
  access = access;
  granularity = bit_or (bit_and (limit / 2 ^ 16) 0x0F) (bit_and flags 0xF0);
  base_high = bit_and (base / 2 ^ 24) 0xFF;
}

pub set_entry : Gdt → ℕ → ℕ → ℕ → ℕ → ℕ → Gdt
unfolding entry_for
set_entry g index base limit access flags = record g {
  gdt = λ i. if i == index then entry_for base limit access flags else g.gdt i;
}

pub set_kernel_stack : Gdt → ℕ → Gdt
set_kernel_stack g kernel_stack_top = record g { tss = record g.tss { esp0 = kernel_stack_top } }

-- The `left` entries from the `i`-th on.
clear_loop : ℕ → ℕ → Gdt → Gdt
unfolding set_entry
clear_loop zero i g = g
clear_loop (suc left) i g = clear_loop left (i + 1) (set_entry g i 0 0 0 0)

pub init : Gdt → ℕ → ℕ → ℕ → Gdt
unfolding clear_loop set_entry
init g kernel_stack_top tss_address gdt_address =
    let g₀ = clear_loop 6 0 g in
    let g₁ = set_entry g₀ 1 0 0xFFFFF 0x9A 0xC0 in
    let g₂ = set_entry g₁ 2 0 0xFFFFF 0x92 0xC0 in
    let g₃ = set_entry g₂ 3 0 0xFFFFF 0xFA 0xC0 in
    let g₄ = set_entry g₃ 4 0 0xFFFFF 0xF2 0xC0 in
    let tss : TssEntry = record {
      esp0 = kernel_stack_top;
      ss0 = 0x10;
      es = 0x13;
      cs = 0x0B;
      ss = 0x13;
      ds = 0x13;
      fs = 0x13;
      gs = 0x13;
      iomap_base = tss_size;
    } in
    let g₅ = set_entry (record g₄ { tss = tss }) 5 tss_address (tss_size - 1) 0x89 0 in
    record g₅ {
      gdt_descriptor = record { limit = 6 * 8 - 1; base = gdt_address };
      data_selector = 0x10;
      tss_selector = 0x28;
    }
