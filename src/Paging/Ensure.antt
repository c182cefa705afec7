-- ===== src/Paging/Ensure.antt =====
-- The state of kernel/paging.c as a map from pages to entries, and the table that a mapping makes sure of.
use mars_os.Base.{
  ℕ, ◌+◌, ◌/◌, ◌%◌, ◌^◌, ◌≤◌, ◌<◌, ◌≡◌, ◌≢◌, refl, sym, ◌∙◌, ap, true, false, ◌||◌, none, some,
  ◌==◌, ltb, ltb→lt, ltb-false→le, if◌then◌else◌, arith, Bool-cases, inl, inr,
}
use Prim.Native.Nat.{bit_and, bit_or}
use mars_os.Pmm.{Pmm, alloc_frame}
use mars_os.Pmm.Valid.{IsValid}
use mars_os.Pmm.Alloc.{alloc_frame-Allocated, alloc_frame_exhausted}
use mars_os.Paging.{
  Space, active_directory, slot, is_present, is_user, pd_index, pt_index, alloc_table, ensure_table,
  translate, table_slot, fill_loop, write,
}
use mars_os.Paging.Words.{
  bit_and-offset, bit_and-frame, bit_and-present, bit_or-user, bit_or-offset,
}
use mars_os.Paging.Tables.{
  IsTables, odd, base_of, entry, page_entry, leaf, fill_loop-slot, fill_loop-outside, is_outside,
}
use mars_os.Paging.Tables.Flags.{leaf-flag_write, flag_write-IsTables}
use mars_os.Paging.Tables.New.{leaf-new_table, new_table-IsTables, entry-new_table}

-- Paging is on, and the current directory's tables are in order, in frames in use.
pub record IsSpace (s : Space) : Type 0 where
  pub on : s.is_enabled ≡ true
  pub pmm_valid : IsValid s.pmm
  pub tables : IsTables s.pmm (active_directory s) s.word

abbrev pub entry_of : Space → ℕ → ℕ
entry_of s i = entry (active_directory s) s.word i

abbrev pub leaf_of : Space → ℕ → ℕ → ℕ
leaf_of s i j = leaf (active_directory s) s.word i j

pub present-odd : (w : ℕ) → is_present w ≡ odd w
present-odd w = ground (arith, bit_and-present w)

-- The entry of a page by the tables, and the translation by it.
pub translate-leaf :
    (s : Space) (virt : ℕ)
    → IsSpace s
    → translate s virt ≡ (
        let e = leaf_of s (pd_index virt) (pt_index virt) in
        if e == 0 then none else some (base_of e + virt % 4096))
unfolding translate table_slot leaf
translate-leaf s virt v =
    let w = entry_of s (pd_index virt) in
    let frame : bit_and w 0xFFFFF000 ≡ base_of w =
      bit_and-frame w (v.tables.entry_lt (pd_index virt) (omega arith)) in
    elim (Bool-cases (odd w)) [
      | inl there ↦
          let p = page_entry (active_directory s) s.word (pd_index virt) (pt_index virt) in
          let small : p < 2 ^ 32 =
            v.tables.page_lt (pd_index virt) (pt_index virt) (omega arith) (omega arith) there in
          let e : bit_or (bit_and p 0xFFFFF000) (bit_and virt 0xFFF) ≡ base_of p + virt % 4096 =
            rw (bit_and-frame p small)
              (rw (bit_and-offset virt) (bit_or-offset (p / 4096) (virt % 4096) (omega arith))) in
          rw (frame) (ground (arith, v.on, present-odd w, present-odd p, e))
      | inr absent ↦ ground (arith, v.on, present-odd w)
    ]

zero_slot :
    (frame : ℕ) (word : ℕ → ℕ) (j : ℕ)
    → j < 1024
    → fill_loop 1024 0 frame (λ i. 0) word (slot frame j) ≡ 0
zero_slot frame word j h = ground (arith, fill_loop-slot 1024 0 frame (λ i. 0) word j)

-- What making sure of a table leaves.
pub record Ensured (s : Space) (pd : ℕ) (s' : Space) : Type 0 where
  pub valid : IsSpace s'
  pub same_dir : active_directory s' ≡ active_directory s
  pub there : odd (entry_of s' pd) ≡ true
  pub leaves : (i j : ℕ) → i < 1024 → j < 1024 → leaf_of s' i j ≡ leaf_of s i j

-- A space with other words and frames, under the same directory.
abbrev pub with_words : Space → Pmm → (ℕ → ℕ) → Space
with_words s pmm word = record s { pmm = pmm; word = word }

dir-with_words :
    (s : Space) (pmm : Pmm) (word : ℕ → ℕ)
    → active_directory (with_words s pmm word) ≡ active_directory s
unfolding active_directory
dir-with_words s pmm word = refl

pub with_words-IsSpace :
    (s : Space) (pmm : Pmm) (word : ℕ → ℕ)
    → s.is_enabled ≡ true
    → IsValid pmm
    → IsTables pmm (active_directory s) word
    → IsSpace (with_words s pmm word)
unfolding active_directory
with_words-IsSpace s pmm word on v t = record { on = on; pmm_valid = v; tables = t }

with_words-Ensured :
    (s : Space) (pd : ℕ) (pmm : Pmm) (word : ℕ → ℕ)
    → IsSpace (with_words s pmm word)
    → odd (entry (active_directory s) word pd) ≡ true
    → ((i j : ℕ)
        → i < 1024
        → j < 1024
        → leaf (active_directory s) word i j ≡ leaf (active_directory s) s.word i j)
    → Ensured s pd (with_words s pmm word)
unfolding active_directory
with_words-Ensured s pd pmm word v o l = record {
  valid = v;
  same_dir = dir-with_words s pmm word;
  there = o;
  leaves = l;
}

module _ (s : Space) (v : IsSpace s) (pd flags : ℕ) (h : pd < 1024) where
  abbrev at : ℕ
  at = slot (active_directory s) pd

  ensure-kernel :
      odd (entry_of s pd) ≡ true → is_user flags ≡ false → ensure_table s at flags ≡ (true, s)
  unfolding ensure_table
  ensure-kernel there kernel = ground (arith, present-odd (entry_of s pd))

  ensure-user :
      odd (entry_of s pd) ≡ true
      → is_user flags ≡ true
      → ensure_table s at flags
        ≡ (true, with_words s s.pmm (write s.word at (bit_or (entry_of s pd) 4)))
  unfolding ensure_table
  ensure-user there user = ground (arith, present-odd (entry_of s pd))

  ensure-present :
      odd (entry_of s pd) ≡ true
      → ((ensure_table s at flags).0 ≡ true) × Ensured s pd (ensure_table s at flags).1
  ensure-present there = elim (Bool-cases (is_user flags)) [
    | inl user ↦
        let x = bit_or (entry_of s pd) 4 in
        let small : x < 2 ^ 32 =
          ground (arith, bit_or-user (entry_of s pd), v.tables.entry_lt pd h) in
        let kept : odd x ≡ true = ground (arith, bit_or-user (entry_of s pd)) in
        let same : x / 4096 ≡ entry_of s pd / 4096 = ground (arith, bit_or-user (entry_of s pd)) in
        let tables =
          flag_write-IsTables s.pmm (active_directory s) s.word v.tables pd h there x small kept
            same in
        rw (ensure-user there user) (
          refl,
          with_words-Ensured s pd s.pmm _ (with_words-IsSpace s s.pmm _ v.on v.pmm_valid tables)
              (ground arith)
              (leaf-flag_write s.pmm (active_directory s) s.word v.tables pd h there x small kept
                same),
        )
    | inr kernel ↦
        rw (ensure-kernel there kernel)
          (refl, record { valid = v; same_dir = refl; there = there; leaves = λ i j g k. refl })
  ]

  ensure-exhausted :
      odd (entry_of s pd) ≡ false → s.pmm.total ≤ s.pmm.used → ensure_table s at flags ≡ (false, s)
  unfolding ensure_table alloc_table
  ensure-exhausted absent full =
      ground (arith, present-odd (entry_of s pd), alloc_frame_exhausted s.pmm full)

  abbrev fresh_frame : ℕ
  fresh_frame = (alloc_frame s.pmm).0

  abbrev fresh_entry : ℕ
  fresh_entry = bit_or fresh_frame (if is_user flags then 7 else 3)

  abbrev emptied : ℕ → ℕ
  emptied = fill_loop 1024 0 fresh_frame (λ i. 0) s.word

  ensure-new :
      odd (entry_of s pd) ≡ false
      → fresh_frame ≢ 0
      → ensure_table s at flags
        ≡ (true, with_words s (alloc_frame s.pmm).1 (write emptied at fresh_entry))
  unfolding ensure_table alloc_table
  ensure-new absent n = ground (arith, present-odd (entry_of s pd))

  unchanged :
      (i j : ℕ)
      → odd (entry_of s pd) ≡ false
      → (if i == pd then 0 else leaf_of s i j) ≡ leaf_of s i j
  unfolding leaf
  unchanged i j absent = elim (Bool-cases (i == pd)) [
    | inl same ↦
        let e : entry_of s i ≡ entry_of s pd = ap (entry_of s) (ground arith) in ground (arith, e)
    | inr other ↦ ground arith
  ]

  ensure-fresh :
      odd (entry_of s pd) ≡ false
      → s.pmm.used < s.pmm.total
      → ((ensure_table s at flags).0 ≡ true) × Ensured s pd (ensure_table s at flags).1
  ensure-fresh absent room =
      let a = alloc_frame-Allocated s.pmm v.pmm_valid room in
      let aligned : base_of fresh_frame ≡ fresh_frame = omega (arith, a.aligned) in
      let e : fresh_entry ≡ fresh_frame + (if is_user flags then 7 else 3) =
        rw (sym aligned)
          (bit_or-offset (fresh_frame / 4096) (if is_user flags then 7 else 3) (ground arith)) in
      let small : fresh_entry < 2 ^ 32 = ground (arith, e, a.aligned, a.address) in
      let made : odd fresh_entry ≡ true = ground (arith, e, a.aligned) in
      let same : base_of fresh_entry ≡ fresh_frame = ground (arith, e, a.aligned) in
      let pmm' = (alloc_frame s.pmm).1 in
      let out = λ (b : ℕ) (o : is_outside fresh_frame b ≡ true).
        fill_loop-outside 1024 0 fresh_frame (λ j. 0) s.word b (omega arith) o in
      let zeros = λ (j : ℕ) (k : j < 1024). zero_slot fresh_frame s.word j k in
      let tables =
        new_table-IsTables s.pmm pmm' (active_directory s) s.word v.tables pd h absent fresh_frame
          fresh_entry aligned small made same a.was_free a.now_used emptied (λ j. 0) out zeros
          (λ j k. omega arith) in
      let first =
        entry-new_table s.pmm pmm' (active_directory s) s.word v.tables pd h absent fresh_frame
          fresh_entry aligned small made same a.was_free a.now_used emptied (λ j. 0) out zeros
          (λ j k. omega arith) pd h in
      let leaves =
        leaf-new_table s.pmm pmm' (active_directory s) s.word v.tables pd h absent fresh_frame
          fresh_entry aligned small made same a.was_free a.now_used emptied (λ j. 0) out zeros
          (λ j k. omega arith) in
      rw (ensure-new absent a.not_null) (
        refl,
        with_words-Ensured s pd pmm' _ (with_words-IsSpace s pmm' _ v.on a.valid tables)
            (ground (arith, first, made)) (λ i j g k. leaves i j g k ∙ unchanged i j absent),
      )

  -- A table is there afterwards exactly if it was, or a frame is left for it; if not, nothing changes.
  pub ensure_table_lem :
      let (done, s') = ensure_table s at flags in
      (done ≡ (odd (entry_of s pd) || ltb s.pmm.used s.pmm.total))
      × (if done then Ensured s pd s' else (s' ≡ s))
  ensure_table_lem = elim (Bool-cases (odd (entry_of s pd))) [
    | inl there ↦ let (e, r) = ensure-present there in rw e (rw there (refl, r))
    | inr absent ↦ elim (Bool-cases (ltb s.pmm.used s.pmm.total)) [
      | inl room ↦ let (e, r) = ensure-fresh absent (ltb→lt _ _ room) in rw e (ground arith, r)
      | inr full ↦ rw (ensure-exhausted absent (ltb-false→le _ _ full)) (ground arith, refl)
    ]
  ]
