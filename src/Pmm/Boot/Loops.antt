-- ===== src/Pmm/Boot/Loops.antt =====
-- What marking and reserving a range of frames does to the bitmap and the counters.
use mars_os.Base.{
  ℕ, zero, suc, ◌+◌, ◌*◌, ◌/◌, ◌%◌, ◌^◌, ◌≤◌, ◌<◌, ◌≡◌, refl, Bool, true, false, not, ◌&&◌, ◌==◌,
  leb, ltb, ltb→lt, ltb-false→le, if◌then◌else◌, arith, Bool-cases, inl, inr, ◌∙◌,
}
use mars_os.Base.Count.{count, count_congr, count-insert, count-le_bound}
use mars_os.Pmm.{Pmm, mark_frame, mark_loop, bit_is_set, clear_bit}
use mars_os.Pmm.Bitmap.{frame_set, bit_is_set-frame_set, frame_set-clear_bit}

abbrev pub unset : Pmm → ℕ → Bool
unset p i = not (frame_set p i)

-- While the map is read: every frame whose bit is clear is counted.
abbrev pub TotalCounts : Pmm → Type 0
TotalCounts p = p.total ≡ count (unset p) 1048576

-- The marked range is clear, the rest of the state as it was.
pub record Marked (p : Pmm) (lo hi : ℕ) (q : Pmm) : Type 0 where
  pub bits : (i : ℕ) → frame_set q i ≡ (frame_set p i && not (leb lo i && ltb i hi))
  pub total_counts : TotalCounts q
  pub same_used : q.used ≡ p.used
  pub same_regions : q.regions ≡ p.regions
  pub same_hint : q.hint_frame ≡ p.hint_frame

frame_set-mark :
    (p : Pmm) (i j : ℕ) → frame_set (mark_frame p i) j ≡ (if i == j then false else frame_set p j)
unfolding mark_frame
frame_set-mark p i j = elim (Bool-cases (bit_is_set p i)) [
  | inl held ↦
      let e : mark_frame p i ≡ record (clear_bit p i) { total = (p.total + 1) % 2 ^ 32 } =
        ground arith in
      rw e (unfold frame_set in frame_set-clear_bit p i j)
  | inr clear ↦ ground (arith, bit_is_set-frame_set p i)
]

mark_frame-rest :
    (p : Pmm) (i : ℕ)
    → let q = mark_frame p i in
      (q.used ≡ p.used) × (q.regions ≡ p.regions) × (q.hint_frame ≡ p.hint_frame)
unfolding mark_frame clear_bit
mark_frame-rest p i = ground arith

total-mark_held :
    (p : Pmm) (i : ℕ) → frame_set p i ≡ true → (mark_frame p i).total ≡ (p.total + 1) % 2 ^ 32
unfolding mark_frame
total-mark_held p i h = ground (arith, bit_is_set-frame_set p i)

total-mark_clear : (p : Pmm) (i : ℕ) → frame_set p i ≡ false → (mark_frame p i).total ≡ p.total
unfolding mark_frame
total-mark_clear p i h = ground (arith, bit_is_set-frame_set p i)

mark_frame-TotalCounts :
    (p : Pmm) (i : ℕ) → i < 1048576 → TotalCounts p → TotalCounts (mark_frame p i)
mark_frame-TotalCounts p i l t = elim (Bool-cases (frame_set p i)) [
  | inl held ↦
      let more : count (unset (mark_frame p i)) 1048576 ≡ count (unset p) 1048576 + 1 =
        count-insert (unset p) (unset (mark_frame p i)) 1048576 i l (ground arith)
          (ground (arith, frame_set-mark p i i)) (λ j n. ground (arith, frame_set-mark p i j)) in
      omega (arith, more, total-mark_held p i held, count-le_bound (unset p) 1048576)
  | inr clear ↦
      let same : count (unset (mark_frame p i)) 1048576 ≡ count (unset p) 1048576 =
        count_congr (unset (mark_frame p i)) (unset p) 1048576
          (λ j h. ground (arith, frame_set-mark p i j)) in
      omega (arith, same, total-mark_clear p i clear)
]

mark_frame-Marked :
    (p : Pmm) (i : ℕ) → i < 1048576 → TotalCounts p → Marked p i (suc i) (mark_frame p i)
mark_frame-Marked p i l t = record {
  bits = λ j. ground (arith, frame_set-mark p i j);
  total_counts = mark_frame-TotalCounts p i l t;
  same_used = (mark_frame-rest p i).0;
  same_regions = (mark_frame-rest p i).1;
  same_hint = (mark_frame-rest p i).2;
}

Marked-trans :
    (p q r : Pmm) (lo mid hi : ℕ)
    → lo ≤ mid
    → mid ≤ hi
    → Marked p lo mid q
    → Marked q mid hi r
    → Marked p lo hi r
Marked-trans p q r lo mid hi h k a b = record {
  bits = λ j. ground (arith, a.bits j, b.bits j);
  total_counts = b.total_counts;
  same_used = b.same_used ∙ a.same_used;
  same_regions = b.same_regions ∙ a.same_regions;
  same_hint = b.same_hint ∙ a.same_hint;
}

Marked-none : (p : Pmm) (lo hi : ℕ) → hi ≤ lo → TotalCounts p → Marked p lo hi p
Marked-none p lo hi h t = record {
  bits = λ j. ground arith;
  total_counts = t;
  same_used = refl;
  same_regions = refl;
  same_hint = refl;
}

-- Whole frames from `lo` to `hi`; the fuel is at least the number of frames.
pub mark_loop-Marked :
    (fuel : ℕ) (p : Pmm) (lo hi : ℕ)
    → hi ≤ lo + fuel
    → lo < 1048576
    → hi < 1048576
    → TotalCounts p
    → Marked p lo hi (mark_loop fuel p (lo * 4096) (hi * 4096))
unfolding mark_loop
mark_loop-Marked zero p lo hi f l h t = Marked-none p lo hi (omega arith) t
mark_loop-Marked (suc fuel) p lo hi f l h t = elim (Bool-cases (ltb lo hi)) [
  | inl more ↦
      let below : lo < hi = ltb→lt lo hi more in
      let one = mark_frame-Marked p lo l t in
      rw (step below) (
        Marked-trans p (mark_frame p lo) _ lo (suc lo) hi (omega arith) below one (
          mark_loop-Marked fuel (mark_frame p lo) (suc lo) hi (omega arith) (omega arith) h
            one.total_counts))
  | inr done ↦ rw (stop (ltb-false→le lo hi done)) (Marked-none p lo hi (ltb-false→le lo hi done) t)
]
  where
    step :
        lo < hi
        → mark_loop (suc fuel) p (lo * 4096) (hi * 4096)
          ≡ mark_loop fuel (mark_frame p lo) (suc lo * 4096) (hi * 4096)
    step below =
        let index : lo * 4096 / 4096 ≡ lo = omega arith in
        let next : (lo * 4096 + 4096) % 2 ^ 32 ≡ suc lo * 4096 = omega arith in
        ground (arith, index, next)

    stop : hi ≤ lo → mark_loop (suc fuel) p (lo * 4096) (hi * 4096) ≡ p
    stop above = ground arith
