-- ===== src/Pmm/Free.antt =====
-- `pmm_free_frame` takes back what is in use, and nothing else.
use mars_os.Base.{
  ℕ, ◌+◌, ◌-◌, ◌*◌, ◌/◌, ◌%◌, ◌^◌, ◌<◌, ◌≡◌, refl, sym, Bool, true, false, ◌&&◌, ◌==◌, ltb,
  if◌then◌else◌, arith, Bool-cases, inl, inr, ap, ◌∙◌,
}
use mars_os.Base.Bits.{bit_and-ones}
use mars_os.Base.Count.{count-pos}
use mars_os.Pmm.{Pmm, alloc_frame, free_frame, give_frame, align_down_4k, frame_in_regions, in_some}
use mars_os.Pmm.Bitmap.{frame_set, bit_is_set-frame_set, align_down_4k-div}
use mars_os.Pmm.Valid.{IsValid, usable, taken, give_frame-IsValid, frame_set-give}
use mars_os.Pmm.Alloc.{alloc_frame-Allocated}

-- An aligned address of usable memory that is in use.
abbrev pub is_in_use : Pmm → ℕ → Bool
is_in_use p frame = frame % 4096 == 0 && (frame_in_regions p frame && frame_set p (frame / 4096))

free_frame-eq :
    (p : Pmm) (frame : ℕ)
    → IsValid p
    → frame < 2 ^ 32
    → free_frame p frame
      ≡ (is_in_use p frame, (if is_in_use p frame then give_frame p (frame / 4096) else p))
unfolding free_frame
free_frame-eq p frame v h = elim (Bool-cases (frame % 4096 == 0)) [
  | inl aligned ↦
      let down : align_down_4k frame ≡ frame = ground (arith, align_down_4k-div frame h) in
      rw (down, bit_and-ones 12 frame)
        (ground (arith, v.is_ready, bit_is_set-frame_set p (frame / 4096)))
  | inr off ↦ rw (bit_and-ones 12 frame) (ground (arith, v.is_ready))
]

-- The call succeeds exactly for an aligned address of usable memory that is in use. Then that frame
-- and no other is free again, and one frame fewer is counted; otherwise nothing changes. The
-- counters agree with the bitmap.
pub free_frame_lem :
    (p : Pmm) (frame j : ℕ)
    → IsValid p
    → frame < 2 ^ 32
    → let (freed, p') = free_frame p frame in
      (freed ≡ is_in_use p frame)
      × (frame_set p' j ≡ (if freed && frame / 4096 == j then false else frame_set p j))
      × (p.used ≡ p'.used + (if freed then 1 else 0))
      × (p'.regions ≡ p.regions)
      × IsValid p'
      × (p'.total ≡ p.total)
      × (p'.highest_end ≡ p.highest_end)
      × (p' ≡ (if freed then p' else p))
unfolding give_frame usable
free_frame_lem p frame j v h = elim (Bool-cases (is_in_use p frame)) [
  | inl held ↦
      let e : free_frame p frame ≡ (true, give_frame p (frame / 4096)) =
        ground (arith, free_frame-eq p frame v h) in
      rw e (
        sym held,
        frame_set-give p (frame / 4096) j,
        some_used held,
        refl,
        give_frame-IsValid p (frame / 4096) v (omega arith) (mem held) (ground arith),
        refl,
        refl,
        refl,
      )
  | inr idle ↦
      let e : free_frame p frame ≡ (false, p) = ground (arith, free_frame-eq p frame v h) in
      rw e (sym idle, refl, omega arith, refl, v, refl, refl, refl)
]
  where
    mem : is_in_use p frame ≡ true → usable p (frame / 4096) ≡ true
    mem held =
        let back : frame / 4096 * 4096 ≡ frame = ground arith in
        unfold usable in (rw back (ground arith))

    some_used :
        is_in_use p frame ≡ true → p.used ≡ (if ltb 0 p.used then p.used - 1 else p.used) + 1
    some_used held =
        let pos : 0 < p.used = omega (
          arith,
          v.used_eq,
          count-pos (taken p) 1048576 (frame / 4096) (omega arith) (ground (arith, mem held)),
        ) in
        ground arith

in_regions_congr :
    (p q : Pmm) → q.regions ≡ p.regions → (f : ℕ) → frame_in_regions q f ≡ frame_in_regions p f
unfolding frame_in_regions
in_regions_congr p q e f = ap (λ rs. in_some rs f) e

-- Freeing the frame that was just given restores the bitmap and the counter.
pub free-alloc :
    (p : Pmm) (j : ℕ)
    → IsValid p
    → p.used < p.total
    → let (f, p') = alloc_frame p in
      let (freed, p'') = free_frame p' f in
      (freed ≡ true) × (frame_set p'' j ≡ frame_set p j) × (p''.used ≡ p.used) × IsValid p''
free-alloc p j v h =
    let a = alloc_frame-Allocated p v h in
    let f = (alloc_frame p).0 in
    let p' = (alloc_frame p).1 in
    let held : is_in_use p' f ≡ true =
      ground (
        arith,
        a.aligned,
        a.memory,
        a.now_used (f / 4096),
        in_regions_congr p p' a.same_regions f,
      ) in
    let (freed, bits, used, regions, valid, total, end_, rest) =
      free_frame_lem p' f j a.valid a.address in
    (
      freed ∙ held,
      ground (arith, bits, freed, held, a.now_used j, a.was_free),
      ground (arith, used, freed, held, a.counted),
      valid,
    )
