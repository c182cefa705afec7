-- ===== src/Heap/Kernel.antt =====
-- The pages of the kernel's heap: kernel/pmm.c and kernel/paging.c behind the heap's interface.
use mars_os.Base.{
  ℕ, ◌+◌, ◌-◌, ◌^◌, ◌≤◌, ◌<◌, ◌≡◌, refl, sym, Bool, true, false, ◌==◌, ltb, ltb→lt, ltb-false→le,
  if◌then◌else◌, arith, Bool-cases, inl, inr,
}
use mathlib.Core.Path.{subst}
use mars_os.Pmm.{Pmm, alloc_frame}
use mars_os.Pmm.Alloc.{alloc_frame-Allocated, alloc_frame_exhausted}
use mars_os.Paging.{Space, map_page}
use mars_os.Paging.Ensure.{IsSpace}
use mars_os.Paging.Map.{map_page_lem}
use mars_os.Paging.Frames.{Later, map_page-Later, allocated-IsSpace}
use mars_os.Heap.{PageSource}

-- One round of `heap_map_more` and of `kheap_init`: a frame, mapped for the kernel.
unfoldable pub map_next : Space → ℕ → Bool × Space
map_next s virt =
    let (frame, pmm) = alloc_frame s.pmm in
    if frame == 0
    then (false, record s { pmm = pmm })
    else map_page (record s { pmm = pmm }) virt frame 3

abbrev pub frames_left : Space → ℕ
frames_left s = s.pmm.total - s.pmm.used

fewer_left :
    (p p₁ p₂ : Pmm)
    → p₁.used ≡ p.used + 1
    → p₁.total ≡ p.total
    → Later p₁ p₂
    → p.used < p.total
    → p₂.total - p₂.used < p.total - p.used
fewer_left p p₁ p₂ u t l room = omega (arith, l.same_total, l.used_le)

module _ (s : Space) (virt : ℕ) (v : IsSpace s) where
  abbrev taken_frame : Space
  taken_frame = record s { pmm = (alloc_frame s.pmm).1 }

  map_next-full : s.pmm.total ≤ s.pmm.used → map_next s virt ≡ (false, s)
  unfolding map_next
  map_next-full full = rw (alloc_frame_exhausted s.pmm full) refl

  map_next-frame :
      s.pmm.used < s.pmm.total → map_next s virt ≡ map_page taken_frame virt (alloc_frame s.pmm).0 3
  unfolding map_next
  map_next-frame room =
      let off : ((alloc_frame s.pmm).0 == 0) ≡ false =
        ground (arith, (alloc_frame-Allocated s.pmm v.pmm_valid room).not_null) in
      rw off refl

  map_next_sound : virt < 2 ^ 32 → IsSpace (map_next s virt).1
  map_next_sound h = elim (Bool-cases (ltb s.pmm.used s.pmm.total)) [
    | inl room ↦
        let a = alloc_frame-Allocated s.pmm v.pmm_valid (ltb→lt _ _ room) in
        subst (λ r. IsSpace r.1) (sym (map_next-frame (ltb→lt _ _ room)))
          (map_page_lem taken_frame virt (alloc_frame s.pmm).0 3 0
            (allocated-IsSpace s v (ltb→lt _ _ room)) h a.address (omega arith)).1
    | inr full ↦ subst (λ r. IsSpace r.1) (sym (map_next-full (ltb-false→le _ _ full))) v
  ]

  map_next-left :
      (frames_left (map_next s virt).1 ≤ frames_left s)
      × ((map_next s virt).0 ≡ true → frames_left (map_next s virt).1 < frames_left s)
  map_next-left = elim (Bool-cases (ltb s.pmm.used s.pmm.total)) [
    | inl room ↦
        let a = alloc_frame-Allocated s.pmm v.pmm_valid (ltb→lt _ _ room) in
        let m = map_page-Later taken_frame virt (alloc_frame s.pmm).0 3 a.valid in
        let less : frames_left (map_next s virt).1 < frames_left s =
          subst (λ r. frames_left r.1 < frames_left s) (sym (map_next-frame (ltb→lt _ _ room)))
            (fewer_left s.pmm (alloc_frame s.pmm).1 _ a.counted a.same_total m (ltb→lt _ _ room)) in
        (omega (arith, less), λ e. less)
    | inr full ↦
        subst
          (λ r. (frames_left r.1 ≤ frames_left s) × (r.0 ≡ true → frames_left r.1 < frames_left s))
          (sym (map_next-full (ltb-false→le _ _ full))) (omega arith, λ e. absurd (ground arith))
  ]

-- The frames and the kernel's tables as the heap uses them.
pub kernel_pages : PageSource
kernel_pages = record {
  State = Space;
  map_next = map_next;
  left = frames_left;
  IsSound = IsSpace;
  sound = λ s virt v h. map_next_sound s virt v h;
  not_more = λ s virt v. (map_next-left s virt v).0;
  fewer = λ s virt v. (map_next-left s virt v).1;
}
