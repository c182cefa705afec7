-- ===== src/Pmm/Boot/Fresh.antt =====
-- While the memory map is read: just the frames of the regions so far are free.
use mars_os.Base.{
  ℕ, ◌+◌, ◌*◌, ◌/◌, ◌%◌, ◌^◌, ◌≤◌, ◌<◌, ◌≡◌, refl, sym, Bool, true, false, not, ◌&&◌, ◌||◌, List,
  [], ◌∷◌, ◌++◌, length, ◌==◌, leb, ltb, if◌then◌else◌, arith, Bool-cases, inl, inr, ◌∙◌, u32_max,
}
use mars_os.Base.Bits.{bit-complement, bit-zero}
use mars_os.Base.Count.{count, count_congr, count-none}
use mathlib.Core.Path.{subst, ap₂}
use mars_os.Pmm.{
  Pmm, Region, frame_in_regions, in_some, mark_loop, mark_region_usable, align_up_4k, align_down_4k,
}
use mars_os.Pmm.Bitmap.{frame_set, align_down_4k-div, align_up_4k-div}
use mars_os.Pmm.Valid.{usable, taken, usable_congr}
use mars_os.Pmm.Boot.{
  MmapEntry, add_region, init_entry, is_clipped_out, entry_start, entry_end, blank,
}
use mars_os.Pmm.Boot.Loops.{unset, TotalCounts, Marked, mark_loop-Marked}
use mars_os.Pmm.Boot.Reserve.{Counted}

pub record Fresh (p : Pmm) : Type 0 where
  pub free_usable : (i : ℕ) → i < 1048576 → frame_set p i ≡ not (usable p i)
  pub total_counts : TotalCounts p
  pub none_used : p.used ≡ 0
  pub null_reserved : usable p 0 ≡ false
  pub hint_in : p.hint_frame < 1048576

pub blank-Fresh : Fresh blank
unfolding usable frame_in_regions
blank-Fresh = record {
  free_usable = λ i l. all_set i;
  total_counts = sym (count-none (unset blank) 1048576 (λ i l. ground (arith, all_set i)));
  none_used = refl;
  null_reserved = refl;
  hint_in = omega arith;
}
  where
    all_set : (i : ℕ) → frame_set blank i ≡ true
    all_set i =
        unfold frame_set in (ground (arith, bit-complement 32 0 (i % 32), bit-zero (i % 32)))

in_some-append :
    (rs : List Region) (r : Region) (f : ℕ)
    → in_some (rs ++ r ∷ []) f ≡ (in_some rs f || (leb r.start f && ltb f r.end_))
unfolding in_some
in_some-append [] r f = ground arith
in_some-append (x ∷ rs) r f = ground (arith, in_some-append rs r f)

-- The table with one more region, before its frames are marked.
abbrev pub with_region : Pmm → Region → Pmm
with_region p r = record p {
  regions = p.regions ++ r ∷ [];
  highest_end = if ltb p.highest_end r.end_ then r.end_ else p.highest_end;
}

abbrev pub frames : ℕ → ℕ → Region
frames lo hi = record { start = lo * 4096; end_ = hi * 4096 }

usable-with_region :
    (p : Pmm) (lo hi i : ℕ)
    → usable (with_region p (frames lo hi)) i ≡ (usable p i || (leb lo i && ltb i hi))
unfolding usable frame_in_regions
usable-with_region p lo hi i = ground (arith, in_some-append p.regions (frames lo hi) (i * 4096))

frame_set-with_region :
    (p : Pmm) (r : Region) (i : ℕ) → frame_set (with_region p r) i ≡ frame_set p i
unfolding frame_set
frame_set-with_region p r i = refl

pub add_region-eq :
    (p : Pmm) (lo hi : ℕ)
    → lo < 1048576
    → hi < 1048576
    → add_region p (frames lo hi)
      ≡ mark_loop 1048576 (with_region p (frames lo hi)) (lo * 4096) (hi * 4096)
unfolding add_region mark_region_usable
add_region-eq p lo hi l h =
    let a : align_up_4k (lo * 4096) ≡ lo * 4096 = omega (arith, align_up_4k-div (lo * 4096)) in
    let b : align_down_4k (hi * 4096) ≡ hi * 4096 =
      omega (arith, align_down_4k-div (hi * 4096) (omega arith)) in
    ap₂ (mark_loop 1048576 (with_region p (frames lo hi))) a b

pub Marked-region :
    (p : Pmm) (lo hi fuel : ℕ)
    → fuel ≡ 1048576
    → lo < 1048576
    → hi < 1048576
    → Fresh p
    → Marked
        (with_region p (frames lo hi))
        lo
        hi
        (mark_loop fuel (with_region p (frames lo hi)) (lo * 4096) (hi * 4096))
Marked-region p lo hi fuel e l h v =
    mark_loop-Marked fuel (with_region p (frames lo hi)) lo hi (omega arith) l h (
      v.total_counts
      ∙ count_congr (unset p) (unset (with_region p (frames lo hi))) 1048576
          (λ i g. ground (arith, frame_set-with_region p (frames lo hi) i)))

total_usable : (p : Pmm) → Fresh p → p.total ≡ count (usable p) 1048576
total_usable p v =
    v.total_counts
    ∙ count_congr (unset p) (usable p) 1048576 (λ i g. ground (arith, v.free_usable i g))

none_taken : (p : Pmm) → Fresh p → count (taken p) 1048576 ≡ 0
none_taken p v = count-none (taken p) 1048576 (λ i g. ground (arith, v.free_usable i g))

-- Adding a region of whole frames, from `lo` to `hi`.
add_region-Fresh :
    (p : Pmm) (lo hi : ℕ)
    → 0 < lo
    → lo < 1048576
    → hi < 1048576
    → Fresh p
    → Fresh (add_region p (frames lo hi))
add_region-Fresh p lo hi pos l h v =
    subst Fresh (sym (add_region-eq p lo hi l h))
      (finish _ (Marked-region p lo hi 1048576 refl l h v))
  where
    finish : (q : Pmm) → Marked (with_region p (frames lo hi)) lo hi q → Fresh q
    finish q m = record {
      free_usable = λ i g. ground (
        arith,
        m.bits i,
        frame_set-with_region p (frames lo hi) i,
        v.free_usable i g,
        usable_congr (with_region p (frames lo hi)) q m.same_regions i,
        usable-with_region p lo hi i,
      );
      total_counts = m.total_counts;
      none_used = m.same_used ∙ v.none_used;
      null_reserved = ground (
        arith,
        usable_congr (with_region p (frames lo hi)) q m.same_regions 0,
        usable-with_region p lo hi 0,
        v.null_reserved,
      );
      hint_in = omega (arith, m.same_hint, v.hint_in);
    }

-- The state that the map leaves is counted, before anything is reserved.
pub Fresh-Counted : (p : Pmm) → Fresh p → Counted p
unfolding usable frame_set frame_in_regions
Fresh-Counted p v = record {
  is_ready = refl;
  hint_in = v.hint_in;
  total_eq = total_usable p v;
  used_eq = v.none_used ∙ sym (none_taken p v);
  null_reserved = v.null_reserved;
  rest_reserved = λ i l e. ground (arith, v.free_usable i l);
}

-- The start of an entry's region lies at or above the end of the kernel.
pub entry_start-lem :
    (k : ℕ) (e : MmapEntry)
    → k < 1048576
    → (lo : ℕ) × (lo < 1048576) × (k ≤ lo) × (entry_start (k * 4096) e ≡ lo * 4096)
unfolding entry_start
entry_start-lem k e h = elim (Bool-cases (ltb start (k * 4096))) [
  | inl under ↦ (k, h, omega arith, ground (arith, align_up_4k-div (k * 4096)))
  | inr over ↦ (
    (low % 2 ^ 32 + 4095) % 2 ^ 32 / 4096,
    omega arith,
    ground (arith, align_up_4k-div (low % 2 ^ 32)),
    ground (arith, align_up_4k-div (low % 2 ^ 32)),
  )
]
  where
    low : ℕ
    low = if ltb e.addr 0x100000 then 0x100000 else e.addr

    start : ℕ
    start = align_up_4k (low % 2 ^ 32)

pub entry_end-lem : (e : MmapEntry) → (hi : ℕ) × (hi < 1048576) × (entry_end e ≡ hi * 4096)
unfolding entry_end
entry_end-lem e = (high / 4096, ground arith, align_down_4k-div high (ground arith))
  where
    high : ℕ
    high = let sum = (e.addr + e.len) % 2 ^ 64 in if ltb u32_max sum then u32_max else sum

-- One entry of the map keeps the state fresh.
pub init_entry-Fresh :
    (k : ℕ) (p : Pmm) (e : MmapEntry)
    → 0 < k
    → k < 1048576
    → Fresh p
    → Fresh (init_entry (k * 4096) p e)
unfolding init_entry
init_entry-Fresh k p e pos h v = elim (Bool-cases adds) [
  | inl add ↦
      let (lo, l, above, e₁) = entry_start-lem k e h in
      let (hi, m, e₂) = entry_end-lem e in
      let same : init_entry (k * 4096) p e ≡ add_region p (frames lo hi) = ground (arith, e₁, e₂) in
      subst Fresh (sym same) (add_region-Fresh p lo hi (omega arith) l m v)
  | inr keep ↦ let same : init_entry (k * 4096) p e ≡ p = ground arith in subst Fresh (sym same) v
]
  where
    adds : Bool
    adds =
        not (not (e.kind == 1) || is_clipped_out e)
        && (ltb (entry_start (k * 4096) e) (entry_end e) && ltb (length p.regions) 32)
