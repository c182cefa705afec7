-- ===== src/Pmm/Valid.antt =====
-- The counters against the bitmap: what every call after `pmm_init` keeps.
use mars_os.Base.{
  ℕ, ◌+◌, ◌*◌, ◌%◌, ◌^◌, ◌≤◌, ◌<◌, ◌≡◌, refl, sym, ◌∙◌, ap, Bool, true, false, not, ◌&&◌, ◌==◌,
  if◌then◌else◌, arith, Bool-cases, inl, inr,
}
use mars_os.Base.Count.{count, count_congr, count-insert, count-le, count-le_bound}
use mars_os.Pmm.{Pmm, frame_in_regions, in_some, take_frame, give_frame, is_free}
use mars_os.Pmm.Bitmap.{frame_set, bit_is_set-frame_set, frame_set-set_bit, frame_set-clear_bit}

-- Frame `i` belongs to a usable region.
unfoldable pub usable : Pmm → ℕ → Bool
usable p i = frame_in_regions p (i * 4096)

-- It does and is in use.
abbrev pub taken : Pmm → ℕ → Bool
taken p i = usable p i && frame_set p i

pub record IsValid (p : Pmm) : Type 0 where
  pub is_ready : p.initialized ≡ true
  pub hint_in : p.hint_frame < 1048576
  pub total_eq : p.total ≡ count (usable p) 1048576
  pub used_eq : p.used ≡ count (taken p) 1048576
  pub null_reserved : usable p 0 ≡ false
  pub rest_reserved : (i : ℕ) → i < 1048576 → frame_set p i ≡ false → usable p i ≡ true

pub used-le-total : (p : Pmm) → IsValid p → (p.used ≤ p.total) × (p.total ≤ 1048576)
used-le-total p v = (
  omega
      (arith, v.used_eq, v.total_eq, count-le (taken p) (usable p) 1048576 (λ i l h. ground arith)),
  omega (arith, v.total_eq, count-le_bound (usable p) 1048576),
)

pub usable_congr : (p q : Pmm) → q.regions ≡ p.regions → (i : ℕ) → usable q i ≡ usable p i
unfolding usable frame_in_regions
usable_congr p q e i = ap (λ rs. in_some rs (i * 4096)) e

pub is_free_lem :
    (p : Pmm) (i : ℕ) → i < 1048576 → is_free p i ≡ (not (frame_set p i) && usable p i)
unfolding is_free usable
is_free_lem p i h =
    let e : i * 4096 % 2 ^ 32 ≡ i * 4096 = omega arith in
    rw e (ground (arith, bit_is_set-frame_set p i))

-- Two states with the same regions, of which the second has just frame `k` more in use.
pub taken_more :
    (p q : Pmm) (k : ℕ)
    → q.regions ≡ p.regions
    → k < 1048576
    → usable p k ≡ true
    → frame_set p k ≡ false
    → ((j : ℕ) → frame_set q j ≡ (if k == j then true else frame_set p j))
    → count (taken q) 1048576 ≡ count (taken p) 1048576 + 1
taken_more p q k same l u s set =
    count-insert (taken p) (taken q) 1048576 k l (ground arith)
      (ground (arith, usable_congr p q same k, set k))
      (λ i n. ground (arith, usable_congr p q same i, set i))

pub frame_set-take :
    (p : Pmm) (i j : ℕ) → frame_set (take_frame p i) j ≡ (if i == j then true else frame_set p j)
unfolding take_frame frame_set
frame_set-take p i j = unfold frame_set in frame_set-set_bit p i j

pub frame_set-give :
    (p : Pmm) (i j : ℕ) → frame_set (give_frame p i) j ≡ (if i == j then false else frame_set p j)
unfolding give_frame frame_set
frame_set-give p i j = unfold frame_set in frame_set-clear_bit p i j

-- Taking a usable free frame, with any next hint.
pub take_frame-IsValid :
    (p : Pmm) (k : ℕ)
    → IsValid p
    → k < 1048576
    → usable p k ≡ true
    → frame_set p k ≡ false
    → IsValid (take_frame p k)
unfolding take_frame
take_frame-IsValid p k v l u s = record {
  is_ready = v.is_ready;
  hint_in = omega arith;
  total_eq =
      v.total_eq
      ∙ count_congr (usable p) (usable (take_frame p k)) 1048576
          (λ i h. sym (usable_congr p (take_frame p k) refl i));
  used_eq = omega (
    arith,
    used-le-total p v,
    v.used_eq,
    taken_more p (take_frame p k) k refl l u s (frame_set-take p k),
  );
  null_reserved = usable_congr p (take_frame p k) refl 0 ∙ v.null_reserved;
  rest_reserved = λ i h e.
      usable_congr p (take_frame p k) refl i
      ∙ v.rest_reserved i h (ground (arith, frame_set-take p k i));
}

pub give_frame-IsValid :
    (p : Pmm) (k : ℕ)
    → IsValid p
    → k < 1048576
    → usable p k ≡ true
    → frame_set p k ≡ true
    → IsValid (give_frame p k)
unfolding give_frame
give_frame-IsValid p k v l u s = record {
  is_ready = v.is_ready;
  hint_in = ground (arith, v.hint_in);
  total_eq =
      v.total_eq
      ∙ count_congr (usable p) (usable (give_frame p k)) 1048576
          (λ i h. sym (usable_congr p (give_frame p k) refl i));
  used_eq = ground (arith, v.used_eq, less);
  null_reserved = usable_congr p (give_frame p k) refl 0 ∙ v.null_reserved;
  rest_reserved = λ i h e. elim (Bool-cases (k == i)) [
    | inl same ↦ usable_congr p (give_frame p k) refl i ∙ ground arith
    | inr other ↦
        usable_congr p (give_frame p k) refl i
        ∙ v.rest_reserved i h (ground (arith, frame_set-give p k i))
  ];
}
  where
    less : count (taken p) 1048576 ≡ count (taken (give_frame p k)) 1048576 + 1
    less =
        taken_more (give_frame p k) p k refl l (usable_congr p (give_frame p k) refl k ∙ u)
          (ground (arith, frame_set-give p k k)) (λ j. ground (arith, frame_set-give p k j))
