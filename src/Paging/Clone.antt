-- ===== src/Paging/Clone.antt =====
-- `paging_clone_kernel_directory`: a directory for a new process.
use mars_os.Base.{
  ℕ, zero, suc, ◌+◌, ◌/◌, ◌%◌, ◌≤◌, ◌<◌, ◌≡◌, ◌≢◌, refl, ◌∙◌, ap, true, false, ◌&&◌, some, ◌==◌,
  leb, ltb, if◌then◌else◌, arith, Bool-cases, inl, inr,
}
use mars_os.Pmm.{Pmm, alloc_frame}
use mars_os.Pmm.Valid.{IsValid}
use mars_os.Pmm.Bitmap.{frame_set}
use mars_os.Pmm.Alloc.{alloc_frame-Allocated}
use mars_os.Paging.{Space, write, slot, is_user, clone_loop, clone_kernel_directory}
use mars_os.Paging.Tables.{is_outside}

-- The entry that a new directory takes over.
abbrev pub kernel_entry : ℕ → ℕ
kernel_entry pde = if is_user pde then 0 else pde

clone_loop-outside :
    (left i dir old : ℕ) (word : ℕ → ℕ) (a : ℕ)
    → i + left ≤ 1024
    → is_outside dir a ≡ true
    → clone_loop left i dir old word a ≡ word a
unfolding clone_loop
clone_loop-outside zero i dir old word a h o = refl
clone_loop-outside (suc left) i dir old word a h o =
    clone_loop-outside left (i + 1) dir old
      (write word (slot dir i) (kernel_entry (word (slot old i)))) a (omega arith) o
    ∙ ground arith

clone_loop-slot :
    (left i dir old : ℕ) (word : ℕ → ℕ) (j : ℕ)
    → i + left ≤ 1024
    → ((k : ℕ) → k < 1024 → is_outside dir (slot old k) ≡ true)
    → clone_loop left i dir old word (slot dir j) ≡ (
        if leb i j && ltb j (i + left) then kernel_entry (word (slot old j)) else word (slot dir j))
unfolding clone_loop
clone_loop-slot zero i dir old word j h o = ground arith
clone_loop-slot (suc left) i dir old word j h o =
    let word' = write word (slot dir i) (kernel_entry (word (slot old i))) in
    let rest = clone_loop-slot left (i + 1) dir old word' j (omega arith) o in
    elim (Bool-cases (leb 1024 j)) [
      | inl past ↦ rest ∙ ground arith
      | inr in_ ↦
          let kept : word' (slot old j) ≡ word (slot old j) = ground (arith, o j (ground arith)) in
          elim (Bool-cases (i == j)) [
            | inl same ↦
                let e : word (slot old i) ≡ word (slot old j) =
                  ap (λ k. word (slot old k)) (ground arith) in
                rest ∙ ground (arith, e)
            | inr other ↦ rest ∙ (rw kept (ground arith))
          ]
    ]

outside-of : (f a : ℕ) → f % 4096 ≡ 0 → f / 4096 ≢ a / 4096 → is_outside f a ≡ true
outside-of f a h n = ground arith

held-apart : (p : Pmm) (i j : ℕ) → frame_set p i ≡ false → frame_set p j ≡ true → i ≢ j
held-apart p i j free held e = absurd (ground (arith, ap (frame_set p) e))

nonzero : (f : ℕ) → f ≢ 0 → (f == 0) ≡ false
nonzero f h = ground arith

in_reach : (i : ℕ) → i < 1024 → leb 0 i && ltb i (0 + 1024) ≡ true
in_reach i h = ground arith

entry_page : (dir k : ℕ) → dir % 4096 ≡ 0 → k < 1024 → slot dir k / 4096 ≡ dir / 4096
entry_page dir k h l = omega arith

clone-eq :
    (s : Space)
    → s.is_enabled ≡ true
    → ((alloc_frame s.pmm).0 == 0) ≡ false
    → clone_kernel_directory s ≡ (
        let (frame, pmm) = alloc_frame s.pmm in
        (
          some frame,
          record s { pmm = pmm; word = clone_loop 1024 0 frame s.kernel_dir_phys s.word },
        ))
unfolding clone_kernel_directory
clone-eq s on off = ground arith

-- With a frame left, the new directory stands in a frame that was free; it has the entries of the
-- kernel's directory without those of user space, and no word of a frame in use changes.
pub clone_kernel_directory_lem :
    (s : Space) (i a : ℕ)
    → s.is_enabled ≡ true
    → IsValid s.pmm
    → s.pmm.used < s.pmm.total
    → s.kernel_dir_phys % 4096 ≡ 0
    → frame_set s.pmm (s.kernel_dir_phys / 4096) ≡ true
    → i < 1024
    → frame_set s.pmm (a / 4096) ≡ true
    → let (frame, pmm) = alloc_frame s.pmm in
      let (dir, s') = clone_kernel_directory s in
      (dir ≡ some frame)
      × (s'.pmm ≡ pmm)
      × (s'.word (slot frame i) ≡ kernel_entry (s.word (slot s.kernel_dir_phys i)))
      × (s'.word a ≡ s.word a)
clone_kernel_directory_lem s i a on v room aligned held h used =
    let f = (alloc_frame s.pmm).0 in
    let made = alloc_frame-Allocated s.pmm v room in
    let apart = held-apart s.pmm (f / 4096) (s.kernel_dir_phys / 4096) made.was_free held in
    let other = held-apart s.pmm (f / 4096) (a / 4096) made.was_free used in
    let outside = outside-of f a made.aligned other in
    let cloned = clone_loop 1024 0 f s.kernel_dir_phys s.word in
    let there : leb 0 i && ltb i (0 + 1024) ≡ true = in_reach i h in
    let entries : cloned (slot f i) ≡ kernel_entry (s.word (slot s.kernel_dir_phys i)) =
      clone_loop-slot 1024 0 f s.kernel_dir_phys s.word i (omega arith) (λ k l.
        outside-of f (slot s.kernel_dir_phys k) made.aligned
          (λ e. apart (e ∙ entry_page s.kernel_dir_phys k aligned l)))
      ∙ rw there refl in
    let rest : cloned a ≡ s.word a =
      clone_loop-outside 1024 0 f s.kernel_dir_phys s.word a (omega arith) outside in
    let off = nonzero f made.not_null in rw (clone-eq s on off) (refl, refl, entries, rest)
