-- ===== src/Paging/Tables/Flags.antt =====
-- Setting flags of an entry of a directory that is present.
use mars_os.Base.{
  ℕ, ◌/◌, ◌^◌, ◌<◌, ◌≡◌, ◌≢◌, sym, ◌∙◌, ap, true, ◌==◌, if◌then◌else◌, arith, Bool-cases, inl, inr,
}
use mars_os.Pmm.{Pmm}
use mars_os.Paging.{write, slot}
use mars_os.Paging.Tables.{odd, base_of, entry, page_entry, leaf, IsTables}

module _ (pmm : Pmm) (dir : ℕ) (word : ℕ → ℕ) (t : IsTables pmm dir word) (pd : ℕ) (h : pd < 1024)
    (there : odd (entry dir word pd) ≡ true) (x : ℕ) (small : x < 2 ^ 32) (kept : odd x ≡ true)
    (same : x / 4096 ≡ entry dir word pd / 4096) where
  abbrev pub flag_write : ℕ → ℕ
  flag_write = write word (slot dir pd) x

  pub entry-flag_write :
      (i : ℕ) → entry dir flag_write i ≡ (if i == pd then x else entry dir word i)
  entry-flag_write i = ground arith

  -- Every entry keeps its frame and whether it is present.
  frame-flag_write : (i : ℕ) → entry dir flag_write i / 4096 ≡ entry dir word i / 4096
  frame-flag_write i = elim (Bool-cases (i == pd)) [
    | inl e ↦
        let c : entry dir word i ≡ entry dir word pd = ap (entry dir word) (ground arith) in
        ground (arith, c)
    | inr n ↦ ground arith
  ]

  odd-flag_write : (i : ℕ) → odd (entry dir flag_write i) ≡ odd (entry dir word i)
  odd-flag_write i = elim (Bool-cases (i == pd)) [
    | inl e ↦
        let c : entry dir word i ≡ entry dir word pd = ap (entry dir word) (ground arith) in
        ground (arith, c)
    | inr n ↦ ground arith
  ]

  page_entry-flag_write :
      (i j : ℕ)
      → i < 1024
      → j < 1024
      → odd (entry dir word i) ≡ true
      → page_entry dir flag_write i j ≡ page_entry dir word i j
  page_entry-flag_write i j g k o = rw (frame-flag_write i) (
      let n : slot (base_of (entry dir word i)) j ≢ slot dir pd =
        omega (arith, t.table_ne i g o, t.aligned) in
      ground arith)

  pub leaf-flag_write :
      (i j : ℕ) → i < 1024 → j < 1024 → leaf dir flag_write i j ≡ leaf dir word i j
  unfolding leaf
  leaf-flag_write i j g k = elim (Bool-cases (odd (entry dir word i))) [
    | inl o ↦ ground (arith, odd-flag_write i, page_entry-flag_write i j g k o)
    | inr e ↦ ground (arith, odd-flag_write i)
  ]

  pub flag_write-IsTables : IsTables pmm dir flag_write
  flag_write-IsTables = record {
    aligned = t.aligned;
    dir_lt = t.dir_lt;
    dir_held = t.dir_held;
    entry_lt = λ i g. ground (arith, t.entry_lt i g);
    table_held = λ i g o. rw (frame-flag_write i) (t.table_held i g (sym (odd-flag_write i) ∙ o));
    table_ne = λ i g o. rw (frame-flag_write i) (t.table_ne i g (sym (odd-flag_write i) ∙ o));
    table_inj = λ i j g k o p e.
        t.table_inj i j g k (sym (odd-flag_write i) ∙ o) (sym (odd-flag_write j) ∙ p)
          (sym (frame-flag_write i) ∙ e ∙ frame-flag_write j);
    page_lt = λ i j g k o.
        let o' = sym (odd-flag_write i) ∙ o in
        rw (page_entry-flag_write i j g k o') (t.page_lt i j g k o');
  }
