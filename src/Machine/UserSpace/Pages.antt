-- ===== src/Machine/UserSpace/Pages.antt =====
-- Two new frames mapped as the code and the stack page of a process.
use mars_os.Base.{
  ℕ, ◌+◌, ◌/◌, ◌%◌, ◌^◌, ◌<◌, ◌≡◌, ◌≢◌, refl, ap, Bool, true, Option, some, ◌==◌, ltb, ltb→lt,
  ltb-false→le, if◌then◌else◌, arith, Bool-cases, inl, inr,
}
use mars_os.Pmm.{Pmm, alloc_frame}
use mars_os.Pmm.Valid.{IsValid}
use mars_os.Pmm.Alloc.{alloc_frame-Allocated, alloc_frame_exhausted}
use mars_os.Paging.{Space, map_page, translate}
use mars_os.Paging.Ensure.{IsSpace}
use mars_os.Paging.Map.{map_page_lem}
use mars_os.Paging.Frames.{allocated-IsSpace, translate-pmm}
use mars_os.Machine.UserSpace.{user_code_vaddr, user_stack_page}

-- A translation where the two pages lead to two frames.
unfoldable pub with_pages : ℕ → ℕ → (ℕ → Option ℕ) → ℕ → Option ℕ
with_pages code stack old w =
    if w / 4096 == user_stack_page / 4096
    then some (stack + w % 4096)
    else if w / 4096 == user_code_vaddr / 4096
    then some (code + w % 4096)
    else old w

-- An allocation that gives a frame.
given : (p : Pmm) → IsValid p → (alloc_frame p).0 ≢ 0 → p.used < p.total
given p v n = elim (Bool-cases (ltb p.used p.total)) [
  | inl room ↦ ltb→lt _ _ room
  | inr full ↦ absurd (n (ap (λ r. r.0) (alloc_frame_exhausted p (ltb-false→le _ _ full))))
]

module _ (s : Space) where
  abbrev pub code_of : ℕ
  code_of = (alloc_frame s.pmm).0

  abbrev pub stack_of : ℕ
  stack_of = (alloc_frame (alloc_frame s.pmm).1).0

  abbrev pub with_frames : Space
  with_frames = record s { pmm = (alloc_frame (alloc_frame s.pmm).1).1 }

  abbrev pub with_code : Bool × Space
  with_code = map_page with_frames user_code_vaddr code_of 7

  abbrev pub with_stack : Bool × Space
  with_stack = map_page with_code.1 user_stack_page stack_of 7

  module _ (v : IsSpace s) where
    with_frames-IsSpace : code_of ≢ 0 → stack_of ≢ 0 → IsSpace with_frames
    with_frames-IsSpace n k =
        let room = given s.pmm v.pmm_valid n in
        let a = alloc_frame-Allocated s.pmm v.pmm_valid room in
        let s₁ : Space = record s { pmm = (alloc_frame s.pmm).1 } in
        let v₁ = allocated-IsSpace s v room in allocated-IsSpace s₁ v₁ (given s₁.pmm a.valid k)

    pub with_stack-pages :
        (w : ℕ)
        → code_of ≢ 0
        → stack_of ≢ 0
        → with_code.0 ≡ true
        → with_stack.0 ≡ true
        → w < 2 ^ 32
        → IsSpace with_stack.1
          × (translate with_stack.1 w ≡ with_pages code_of stack_of (translate s) w)
    unfolding with_pages
    with_stack-pages w n k c t h =
        let room = given s.pmm v.pmm_valid n in
        let a = alloc_frame-Allocated s.pmm v.pmm_valid room in
        let b = alloc_frame-Allocated (alloc_frame s.pmm).1 a.valid (given _ a.valid k) in
        let (_, v₃, e₃) =
          map_page_lem with_frames user_code_vaddr code_of 7 w (with_frames-IsSpace n k)
            (omega arith) a.address h in
        let (_, v₄, e₄) =
          map_page_lem with_code.1 user_stack_page stack_of 7 w v₃ (omega arith) b.address h in
        let p = translate-pmm s (alloc_frame (alloc_frame s.pmm).1).1 w in
        (v₄, rw (e₄, t) (rw (e₃, c) (rw p refl)))
