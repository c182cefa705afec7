-- ===== src/Segments/Descriptors.antt =====
-- What the processor reads out of the descriptors of kernel/gdt.c.
use mars_os.Base.{
  ℕ, ◌+◌, ◌-◌, ◌*◌, ◌/◌, ◌%◌, ◌^◌, ◌≤◌, ◌<◌, ◌≡◌, refl, ◌==◌, if◌then◌else◌, arith, Bool-cases, inl,
  inr,
}
use Prim.Native.Nat.{bit_and, bit_or}
use mars_os.Base.Bits.{bit_and-ones, bit_and-high, bit_or-low_left}
use mars_os.Segments.{Gdt, GdtEntry, entry_for, set_entry, init, tss_size}

-- The base address, the limit and the privilege level of a descriptor, as the processor joins them.
unfoldable pub base_of : GdtEntry → ℕ
base_of e = e.base_low + e.base_mid * 2 ^ 16 + e.base_high * 2 ^ 24

unfoldable pub limit_of : GdtEntry → ℕ
limit_of e = e.limit_low + e.granularity % 16 * 2 ^ 16

unfoldable pub dpl_of : GdtEntry → ℕ
dpl_of e = e.access / 32 % 4

-- The present bit, and the last byte of the segment: with the granularity bit the limit counts pages
-- of 4096 bytes.
unfoldable pub present_of : GdtEntry → ℕ
present_of e = e.access / 128 % 2

unfoldable pub last_of : GdtEntry → ℕ
last_of e = if e.granularity / 128 % 2 == 1 then limit_of e * 4096 + 4095 else limit_of e

entry_for-base :
    (base limit access flags : ℕ)
    → base < 2 ^ 32
    → base_of (entry_for base limit access flags) ≡ base
unfolding base_of entry_for
entry_for-base base limit access flags h =
    omega
      (arith, bit_and-ones 16 base, bit_and-ones 8 (base / 2 ^ 16), bit_and-ones 8 (base / 2 ^ 24))

entry_for-limit :
    (base limit access flags : ℕ)
    → limit < 2 ^ 20
    → limit_of (entry_for base limit access flags) ≡ limit
unfolding limit_of entry_for
entry_for-limit base limit access flags h =
    let low = bit_and (limit / 2 ^ 16) 15 in
    let l : low ≡ limit / 2 ^ 16 % 2 ^ 4 = bit_and-ones 4 (limit / 2 ^ 16) in
    let f : bit_and flags 0xF0 ≡ bit_and (flags / 2 ^ 4) 15 * 2 ^ 4 = bit_and-high 4 flags 15 in
    let joined : bit_or low (bit_and (flags / 2 ^ 4) 15 * 2 ^ 4)
        ≡ bit_and (flags / 2 ^ 4) 15 * 2 ^ 4 + low =
      bit_or-low_left 4 (bit_and (flags / 2 ^ 4) 15) low (omega (arith, l)) in
    rw f (rw joined (omega (arith, l, bit_and-ones 16 limit)))

-- An entry that is set is read back with its base and its limit, if these fit in 32 and 20 bits, and
-- with its level; every other entry is as it was.
pub set_entry_lem :
    (g : Gdt) (index base limit access flags j : ℕ)
    → base < 2 ^ 32
    → limit < 2 ^ 20
    → let g' = set_entry g index base limit access flags in
      (base_of (g'.gdt index) ≡ base)
      × (limit_of (g'.gdt index) ≡ limit)
      × (dpl_of (g'.gdt index) ≡ access / 32 % 4)
      × (g'.gdt j ≡ (if j == index then g'.gdt index else g.gdt j))
unfolding set_entry dpl_of entry_for
set_entry_lem g index base limit access flags j h l =
    let e = entry_for-base base limit access flags h in
    let f = entry_for-limit base limit access flags l in
    (ground (arith, e), ground (arith, f), ground arith, ground arith)

-- After `gdt_init` the five segments are present, the kernel's segments (1 and 2) and the task segment (5) are of level 0 and those
-- of user mode (3 and 4) of level 3; the first four go from 0 to the last 32-bit address, with the
-- limit counted in pages, and the task segment lies at the address of the task state segment, with
-- its size.
pub init-descriptors :
    (g : Gdt) (stack tss_address gdt_address i : ℕ)
    → tss_address < 2 ^ 32
    → 1 ≤ i
    → i ≤ 5
    → let g' = init g stack tss_address gdt_address in
      (base_of (g'.gdt i) ≡ (if i == 5 then tss_address else 0))
      × (last_of (g'.gdt i) ≡ (if i == 5 then tss_size - 1 else 0xFFFFFFFF))
      × (present_of (g'.gdt i) ≡ 1)
      × (dpl_of (g'.gdt i) ≡ (if i == 3 then 3 else if i == 4 then 3 else 0))
      × (g'.tss.esp0 ≡ stack)
unfolding init set_entry entry_for dpl_of base_of limit_of last_of present_of
init-descriptors g stack tss_address gdt_address i h l u =
    let b = entry_for-base tss_address 103 0x89 0 h in
    let m = entry_for-limit tss_address 103 0x89 0 (omega arith) in
    elim (Bool-cases (i == 5)) [
      | inl task ↦ (ground (arith, b), ground (arith, m), ground arith, ground arith, refl)
      | inr code ↦ elim (Bool-cases (i == 4)) [
        | inl user_data ↦ (let e : i ≡ 4 = ground arith in rw e (refl, refl, refl, refl, refl))
        | inr below ↦ elim (Bool-cases (i == 3)) [
          | inl user_code ↦ (let e : i ≡ 3 = ground arith in rw e (refl, refl, refl, refl, refl))
          | inr kernel ↦ elim (Bool-cases (i == 2)) [
            | inl data_ ↦ (let e : i ≡ 2 = ground arith in rw e (refl, refl, refl, refl, refl))
            | inr first ↦ (let e : i ≡ 1 = ground arith in rw e (refl, refl, refl, refl, refl))
          ]
        ]
      ]
    ]
