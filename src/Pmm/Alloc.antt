-- ===== src/Pmm/Alloc.antt =====
-- `pmm_alloc_frame` gives a free frame whenever there is one.
use mars_os.Base.{
  ℕ, zero, suc, ◌+◌, ◌-◌, ◌*◌, ◌/◌, ◌%◌, ◌^◌, ◌≤◌, ◌<◌, ◌≡◌, refl, sym, ◌≢◌, true, false, none,
  some, ◌==◌, if◌then◌else◌, arith, Bool-cases, Option-cases, inl, inr,
}
use mars_os.Base.Count.{count_gap}
use mars_os.Pmm.{Pmm, alloc_frame, scan, next_index, is_free, take_frame, frame_in_regions}
use mars_os.Pmm.Bitmap.{frame_set}
use mars_os.Pmm.Valid.{
  IsValid, usable, taken, is_free_lem, take_frame-IsValid, frame_set-take, used-le-total,
}

-- The index that the scan looks at after `k` rounds from `i`.
abbrev round_from : ℕ → ℕ → ℕ
round_from i k = (i + k) % 1048576

round_from-next : (i k : ℕ) → i < 1048576 → round_from (next_index i) k ≡ round_from i (suc k)
unfolding next_index
round_from-next i k h = ground arith

next_index-lt : (i : ℕ) → i < 1048576 → next_index i < 1048576
unfolding next_index
next_index-lt i h = ground arith

scan-none :
    (left : ℕ) (p : Pmm) (i k : ℕ)
    → i < 1048576
    → k < left
    → scan left p i ≡ none
    → is_free p (round_from i k) ≡ false
unfolding scan
scan-none zero p i k h l e = absurd (omega arith)
scan-none (suc left) p i zero h l e = let here : round_from i 0 ≡ i = omega arith in ground arith
scan-none (suc left) p i (suc k) h l e =
    rw (sym (round_from-next i k h))
      (scan-none left p (next_index i) k (next_index-lt i h) (omega arith) (ground arith))

scan-some :
    (left : ℕ) (p : Pmm) (i : ℕ) {j : ℕ}
    → i < 1048576
    → scan left p i ≡ some j
    → (j < 1048576) × (is_free p j ≡ true)
unfolding scan
scan-some zero p i h e = absurd (ground arith)
scan-some (suc left) p i h e = elim (Bool-cases (is_free p i)) [
  | inl hit ↦ ground arith
  | inr miss ↦ scan-some left p (next_index i) (next_index-lt i h) (ground arith)
]

-- The whole round finds a free frame if there is one.
scan-finds :
    (p : Pmm) (j : ℕ)
    → p.hint_frame < 1048576
    → j < 1048576
    → is_free p j ≡ true
    → (left : ℕ) → left ≡ 1048576
    → scan left p p.hint_frame ≢ none
scan-finds p j h l f left all e =
    let k : ℕ = (j + 1048576 - p.hint_frame) % 1048576 in
    let there : round_from p.hint_frame k ≡ j = omega arith in
    let busy : is_free p j ≡ false =
      rw there at (scan-none left p p.hint_frame k h (omega arith) e) in
    cc

-- What is promised of the frame at address `f`, and of the state after.
pub record Allocated (p : Pmm) (f : ℕ) (p' : Pmm) : Type 0 where
  pub not_null : f ≢ 0
  pub aligned : f % 4096 ≡ 0
  pub address : f < 2 ^ 32
  pub memory : frame_in_regions p f ≡ true
  pub was_free : frame_set p (f / 4096) ≡ false
  pub now_used : (j : ℕ) → frame_set p' j ≡ (if f / 4096 == j then true else frame_set p j)
  pub counted : p'.used ≡ p.used + 1
  pub same_total : p'.total ≡ p.total
  pub same_regions : p'.regions ≡ p.regions
  pub valid : IsValid p'

take_frame-Allocated :
    (p : Pmm) (i : ℕ)
    → IsValid p
    → i < 1048576
    → is_free p i ≡ true
    → Allocated p (i * 4096) (take_frame p i)
unfolding take_frame usable
take_frame-Allocated p i v l f = record {
  not_null = ground (arith, v.null_reserved, is_free_lem p i l);
  aligned = omega arith;
  address = omega arith;
  memory = mem;
  was_free = rw index (ground (arith, is_free_lem p i l));
  now_used = λ j. rw index (frame_set-take p i j);
  counted = omega (arith, used-le-total p v);
  same_total = refl;
  same_regions = refl;
  valid =
      take_frame-IsValid p i v l (ground (arith, is_free_lem p i l))
        (ground (arith, is_free_lem p i l));
}
  where
    mem : frame_in_regions p (i * 4096) ≡ true
    mem = unfold usable in (ground (arith, is_free_lem p i l))

    index : i * 4096 / 4096 ≡ i
    index = omega arith

-- While fewer frames are in use than there are, the call gives an aligned frame of memory that was
-- not in use; afterwards just that frame is in use too, and the counters agree with the bitmap.
pub alloc_frame-Allocated :
    (p : Pmm) → IsValid p → p.used < p.total → Allocated p (alloc_frame p).0 (alloc_frame p).1
unfolding alloc_frame
alloc_frame-Allocated p v h = elim (Option-cases (scan 1048576 p p.hint_frame)) [
  | inl e ↦ absurd (full e)
  | inr (i, e) ↦
      let (l, f) = scan-some 1048576 p p.hint_frame v.hint_in e in
      let small : i * 4096 % 2 ^ 32 ≡ i * 4096 = omega arith in
      let result : alloc_frame p ≡ (i * 4096, take_frame p i) =
        ground (arith, e, v.is_ready, small) in
      rw result (take_frame-Allocated p i v l f)
]
  where
    full : scan 1048576 p p.hint_frame ≢ none
    full =
        let (j, l, busy, mem) =
          count_gap (taken p) (usable p) 1048576 (omega (arith, v.used_eq, v.total_eq)) in
        scan-finds p j v.hint_in l (ground (arith, is_free_lem p j l)) 1048576 refl

-- With every frame in use the call gives 0 and changes nothing.
pub alloc_frame_exhausted : (p : Pmm) → p.total ≤ p.used → alloc_frame p ≡ (0, p)
unfolding alloc_frame
alloc_frame_exhausted p h = ground arith
