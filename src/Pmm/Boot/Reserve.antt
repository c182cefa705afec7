-- ===== src/Pmm/Boot/Reserve.antt =====
-- Reserving a range of frames: which bits it sets, and that the counters follow.
use mars_os.Base.{
  ℕ, zero, suc, ◌+◌, ◌*◌, ◌/◌, ◌%◌, ◌^◌, ◌≤◌, ◌<◌, ◌≡◌, refl, true, false, not, ◌&&◌, ◌||◌, ◌==◌,
  leb, ltb, ltb→lt, ltb-false→le, if◌then◌else◌, arith, Bool-cases, inl, inr, ◌∙◌,
}
use mars_os.Pmm.{
  Pmm, frame_in_regions, reserve_frame, reserve_loop, reserve_range, take_frame, align_up_4k,
  align_down_4k,
}
use mars_os.Pmm.Bitmap.{frame_set, bit_is_set-frame_set, align_down_4k-div, align_up_4k-div}
use mars_os.Pmm.Valid.{IsValid, usable, usable_congr, take_frame-IsValid, frame_set-take}

-- Valid but for the flag, which `pmm_init` sets at its end.
abbrev pub Counted : Pmm → Type 0
Counted p = IsValid (record p { initialized = true })

pub record Reserved (p : Pmm) (lo hi : ℕ) (q : Pmm) : Type 0 where
  pub bits : (i : ℕ) → frame_set q i ≡ (frame_set p i || (usable p i && (leb lo i && ltb i hi)))
  pub same_regions : q.regions ≡ p.regions
  pub counted : Counted q

hint-IsValid : (p : Pmm) (h : ℕ) → IsValid p → h < 1048576 → IsValid (record p { hint_frame = h })
unfolding usable frame_set frame_in_regions
hint-IsValid p h v l = record {
  is_ready = v.is_ready;
  hint_in = l;
  total_eq = v.total_eq;
  used_eq = v.used_eq;
  null_reserved = v.null_reserved;
  rest_reserved = v.rest_reserved;
}

reserve_frame-taken :
    (p : Pmm) (i : ℕ)
    → usable p i ≡ true
    → frame_set p i ≡ false
    → reserve_frame p (i * 4096) i ≡ record (take_frame p i) { hint_frame = p.hint_frame }
unfolding reserve_frame take_frame usable
reserve_frame-taken p i u s = ground (arith, bit_is_set-frame_set p i)

reserve_frame-left :
    (p : Pmm) (i : ℕ)
    → (usable p i && not (frame_set p i)) ≡ false
    → reserve_frame p (i * 4096) i ≡ p
unfolding reserve_frame usable
reserve_frame-left p i u = ground (arith, bit_is_set-frame_set p i)

abbrev flagged : Pmm → Pmm
flagged p = record p { initialized = true }

frame_set-flagged : (p : Pmm) (i : ℕ) → frame_set (flagged p) i ≡ frame_set p i
unfolding frame_set
frame_set-flagged p i = refl

-- The state after a frame is reserved: taken, with the hint as it was.
abbrev kept_hint : Pmm → ℕ → Pmm
kept_hint p i = record (take_frame p i) { hint_frame = p.hint_frame }

kept_hint-Counted :
    (p : Pmm) (i : ℕ)
    → i < 1048576
    → usable p i ≡ true
    → frame_set p i ≡ false
    → Counted p
    → Counted (kept_hint p i)
unfolding take_frame
kept_hint-Counted p i l u s v =
    hint-IsValid (take_frame (flagged p) i) p.hint_frame
      (take_frame-IsValid (flagged p) i v l (usable_congr p (flagged p) refl i ∙ u)
        (frame_set-flagged p i ∙ s))
      v.hint_in

frame_set-kept_hint :
    (p : Pmm) (i j : ℕ) → frame_set (kept_hint p i) j ≡ (if i == j then true else frame_set p j)
unfolding frame_set
frame_set-kept_hint p i j = unfold frame_set in frame_set-take p i j

regions-kept_hint : (p : Pmm) (i : ℕ) → (kept_hint p i).regions ≡ p.regions
unfolding take_frame
regions-kept_hint p i = refl

reserve_frame-Reserved :
    (p : Pmm) (i : ℕ)
    → i < 1048576
    → Counted p
    → Reserved p i (suc i) (reserve_frame p (i * 4096) i)
reserve_frame-Reserved p i l v = elim (Bool-cases (usable p i && not (frame_set p i))) [
  | inl free ↦
      let u : usable p i ≡ true = ground arith in
      let s : frame_set p i ≡ false = ground arith in
      rw (reserve_frame-taken p i u s) (record {
        bits = λ j. ground (arith, frame_set-kept_hint p i j);
        same_regions = regions-kept_hint p i;
        counted = kept_hint-Counted p i l u s v;
      })
  | inr shut ↦
      rw (reserve_frame-left p i shut)
        (record { bits = λ j. ground arith; same_regions = refl; counted = v })
]

Reserved-trans :
    (p q r : Pmm) (lo mid hi : ℕ)
    → lo ≤ mid
    → mid ≤ hi
    → Reserved p lo mid q
    → Reserved q mid hi r
    → Reserved p lo hi r
Reserved-trans p q r lo mid hi h k a b = record {
  bits = λ j. ground (arith, a.bits j, b.bits j, usable_congr p q a.same_regions j);
  same_regions = b.same_regions ∙ a.same_regions;
  counted = b.counted;
}

pub Reserved-none : (p : Pmm) (lo hi : ℕ) → hi ≤ lo → Counted p → Reserved p lo hi p
Reserved-none p lo hi h v = record { bits = λ j. ground arith; same_regions = refl; counted = v }

-- Whole frames from `lo` to `hi`; the fuel is at least the number of frames.
reserve_loop-Reserved :
    (fuel : ℕ) (p : Pmm) (lo hi : ℕ)
    → hi ≤ lo + fuel
    → lo < 1048576
    → hi < 1048576
    → Counted p
    → Reserved p lo hi (reserve_loop fuel p (lo * 4096) (hi * 4096))
unfolding reserve_loop
reserve_loop-Reserved zero p lo hi f l h v = Reserved-none p lo hi (omega arith) v
reserve_loop-Reserved (suc fuel) p lo hi f l h v = elim (Bool-cases (ltb lo hi)) [
  | inl more ↦
      let below : lo < hi = ltb→lt lo hi more in
      let one = reserve_frame-Reserved p lo l v in
      rw (step below) (
        Reserved-trans p (reserve_frame p (lo * 4096) lo) _ lo (suc lo) hi (omega arith) below one (
          reserve_loop-Reserved fuel (reserve_frame p (lo * 4096) lo) (suc lo) hi (omega arith)
            (omega arith) h one.counted))
  | inr done ↦
      rw (stop (ltb-false→le lo hi done)) (Reserved-none p lo hi (ltb-false→le lo hi done) v)
]
  where
    step :
        lo < hi
        → reserve_loop (suc fuel) p (lo * 4096) (hi * 4096)
          ≡ reserve_loop fuel (reserve_frame p (lo * 4096) lo) (suc lo * 4096) (hi * 4096)
    step below =
        let index : lo * 4096 / 4096 ≡ lo = omega arith in
        let next : (lo * 4096 + 4096) % 2 ^ 32 ≡ suc lo * 4096 = omega arith in
        ground (arith, index, next)

    stop : hi ≤ lo → reserve_loop (suc fuel) p (lo * 4096) (hi * 4096) ≡ p
    stop above = ground arith

-- The first and the last but one frame that a range of addresses touches.
abbrev pub first_frame : ℕ → ℕ
first_frame start = start / 4096

abbrev pub after_frame : ℕ → ℕ
after_frame end_ = (end_ + 4095) % 2 ^ 32 / 4096

-- Reserving `start` to `end_` sets the bits of the usable frames from `start / 4096` up to where the
-- rounded end lies, if that does not wrap, changes no other bit, and keeps the counters exact.
pub reserve_range-Reserved :
    (p : Pmm) (start end_ : ℕ)
    → start < 2 ^ 32
    → Counted p
    → Reserved p (first_frame start) (after_frame end_) (reserve_range p start end_)
unfolding reserve_range
reserve_range-Reserved p start end_ h v =
    elim (Bool-cases (leb (align_up_4k end_) (align_down_4k start))) [
      | inl empty ↦
          let e : reserve_range p start end_ ≡ p = ground arith in
          rw e (
            Reserved-none p _ _ (ground (arith, align_down_4k-div start h, align_up_4k-div end_)) v)
      | inr some_ ↦
          let e : reserve_range p start end_
              ≡ reserve_loop 1048576 p (first_frame start * 4096) (after_frame end_ * 4096) =
            ground (arith, align_down_4k-div start h, align_up_4k-div end_) in
          rw e (loop 1048576 refl)
    ]
  where
    loop :
        (fuel : ℕ)
        → fuel ≡ 1048576
        → Reserved p
            (first_frame start)
            (after_frame end_)
            (reserve_loop fuel p (first_frame start * 4096) (after_frame end_ * 4096))
    loop fuel e =
        reserve_loop-Reserved fuel p (first_frame start) (after_frame end_) (omega arith)
          (omega arith) (omega arith) v
