-- ===== src/Pmm/Boot/Offered.antt =====
-- Which memory maps give `pmm_init` of kernel/pmm.c a region.
use mars_os.Base.{
  ℕ, zero, suc, ◌+◌, ◌*◌, ◌/◌, ◌%◌, ◌^◌, ◌<◌, ◌≡◌, refl, ◌∙◌, ap, Bool, false, not, ◌&&◌, ◌||◌,
  List, [], ◌∷◌, length, ◌==◌, ltb, if◌then◌else◌, arith, Bool-cases, inl, inr, u32_max,
  length-append,
}
use mars_os.Pmm.{Pmm, Region}
use mars_os.Pmm.Bitmap.{align_down_4k-div, align_up_4k-div}
use mars_os.Pmm.Boot.{
  MmapEntry, BootMemory, add_region, init_entry, is_clipped_out, entry_start, entry_end,
}
use mars_os.Pmm.Boot.Fresh.{
  Fresh, frames, add_region-eq, Marked-region, entry_start-lem, entry_end-lem,
}

-- The entry is of usable memory and holds a whole frame at or above 1 MB and frame `k`. Its start is
-- rounded up in 32 bits, and its end is cut to the 32-bit addresses.
unfoldable pub offers : ℕ → MmapEntry → Bool
offers k e =
    let low = if ltb e.addr 0x100000 then 0x100000 else e.addr in
    let sum = (e.addr + e.len) % 2 ^ 64 in
    let high = if ltb u32_max sum then u32_max else sum in
    let first = (low + 4095) % 2 ^ 32 / 4096 in
    e.kind == 1 && (ltb low high && ltb (if ltb first k then k else first) (high / 4096))

-- Some entry of the map does, from the one at `entry` on.
unfoldable pub is_offered : ℕ → ℕ → BootMemory → ℕ → ℕ → Bool
is_offered zero k mem entry mmap_end = false
is_offered (suc rounds) k mem entry mmap_end =
    let e = mem.entry_at entry in
    let later = is_offered rounds k mem (entry + (e.size + 4)) mmap_end in
    ltb entry mmap_end && (offers k e || later)

adds-offers :
    (k : ℕ) (e : MmapEntry)
    → k < 1048576
    → (not (not (e.kind == 1) || is_clipped_out e) && ltb (entry_start (k * 4096) e) (entry_end e))
      ≡ offers k e
unfolding entry_start entry_end offers
adds-offers k e h = ground (
  arith,
  align_up_4k-div (k * 4096),
  align_up_4k-div (low % 2 ^ 32),
  align_down_4k-div high (ground arith),
)
  where
    low : ℕ
    low = if ltb e.addr 0x100000 then 0x100000 else e.addr

    high : ℕ
    high = let sum = (e.addr + e.len) % 2 ^ 64 in if ltb u32_max sum then u32_max else sum

add_region-length :
    (p : Pmm) (lo hi : ℕ)
    → lo < 1048576
    → hi < 1048576
    → Fresh p
    → length (add_region p (frames lo hi)).regions ≡ length p.regions + 1
add_region-length p lo hi l h v =
    let m = Marked-region p lo hi 1048576 refl l h v in
    ap (λ (q : Pmm). length q.regions) (add_region-eq p lo hi l h)
    ∙ ap (λ (rs : List Region). length rs) m.same_regions
    ∙ length-append p.regions (frames lo hi ∷ [])

-- After an entry there is no region exactly if there was none and the entry offers none.
pub init_entry-empty :
    (k : ℕ) (p : Pmm) (e : MmapEntry)
    → k < 1048576
    → Fresh p
    → (length (init_entry (k * 4096) p e).regions == 0)
      ≡ (length p.regions == 0 && not (offers k e))
unfolding init_entry
init_entry-empty k p e h v = elim (Bool-cases (adds && ltb (length p.regions) 32)) [
  | inl add ↦
      let (lo, l, above, e₁) = entry_start-lem k e h in
      let (hi, m, e₂) = entry_end-lem e in
      let same : init_entry (k * 4096) p e ≡ add_region p (frames lo hi) = ground (arith, e₁, e₂) in
      let longer = ap (λ (q : Pmm). length q.regions) same ∙ add_region-length p lo hi l m v in
      ground (arith, longer, adds-offers k e h)
  | inr keep ↦
      let same : init_entry (k * 4096) p e ≡ p = ground arith in
      let kept = ap (λ (q : Pmm). length q.regions) same in ground (arith, kept, adds-offers k e h)
]
  where
    adds : Bool
    adds =
        not (not (e.kind == 1) || is_clipped_out e) && ltb (entry_start (k * 4096) e) (entry_end e)
