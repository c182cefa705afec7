-- ===== src/Paging/Tables/Write.antt =====
-- Writing an entry of a table of kernel/paging.c.
use mars_os.Base.{
  ℕ, ◌/◌, ◌^◌, ◌<◌, ◌≡◌, ◌≢◌, sym, ◌∙◌, ap, true, false, ◌&&◌, ◌==◌, if◌then◌else◌, arith,
  Bool-cases, inl, inr,
}
use mars_os.Pmm.{Pmm}
use mars_os.Paging.{write, slot}
use mars_os.Paging.Tables.{odd, base_of, entry, page_entry, leaf, IsTables}

module _ (pmm : Pmm) (dir : ℕ) (word : ℕ → ℕ) (t : IsTables pmm dir word) (pd pt : ℕ)
    (h : pd < 1024) (l : pt < 1024) (there : odd (entry dir word pd) ≡ true) (x : ℕ) where
  abbrev pub table_write : ℕ → ℕ
  table_write = write word (slot (base_of (entry dir word pd)) pt) x

  entry-table_write : (i : ℕ) → i < 1024 → entry dir table_write i ≡ entry dir word i
  entry-table_write i g =
      let n : slot dir i ≢ slot (base_of (entry dir word pd)) pt =
        omega (arith, t.table_ne pd h there, t.aligned) in
      ground arith

  page_entry-table_write :
      (i j : ℕ)
      → i < 1024
      → j < 1024
      → odd (entry dir word i) ≡ true
      → page_entry dir table_write i j ≡ (if i == pd && j == pt then x else page_entry dir word i j)
  page_entry-table_write i j g k o = rw (entry-table_write i g) (elim (Bool-cases (i == pd)) [
    | inl same ↦
        let e : entry dir word i ≡ entry dir word pd = ap (entry dir word) (ground arith) in
        ground (arith, e)
    | inr other ↦
        let n : entry dir word i / 4096 ≢ entry dir word pd / 4096 =
          λ c. absurd (ground (arith, t.table_inj i pd g h o there c)) in
        let n' : slot (base_of (entry dir word i)) j ≢ slot (base_of (entry dir word pd)) pt =
          omega (arith, n) in
        ground arith
  ])

  pub leaf-table_write :
      (i j : ℕ)
      → i < 1024
      → j < 1024
      → leaf dir table_write i j
        ≡ (if i == pd && j == pt then (if odd x then x else 0) else leaf dir word i j)
  unfolding leaf
  leaf-table_write i j g k = elim (Bool-cases (odd (entry dir word i))) [
    | inl o ↦ ground (arith, entry-table_write i g, page_entry-table_write i j g k o)
    | inr e ↦
        let n : (i == pd) ≡ false = elim (Bool-cases (i == pd)) [
          | inl same ↦
              let c : entry dir word i ≡ entry dir word pd = ap (entry dir word) (ground arith) in
              absurd (ground (arith, c))
          | inr other ↦ other
        ] in
        ground (arith, entry-table_write i g)
  ]

  pub table_write-IsTables : x < 2 ^ 32 → IsTables pmm dir table_write
  table_write-IsTables small = record {
    aligned = t.aligned;
    dir_lt = t.dir_lt;
    dir_held = t.dir_held;
    entry_lt = λ i g. rw (entry-table_write i g) (t.entry_lt i g);
    table_held = λ i g. rw (entry-table_write i g) (t.table_held i g);
    table_ne = λ i g. rw (entry-table_write i g) (t.table_ne i g);
    table_inj =
        λ i j g k. rw (entry-table_write i g) (rw (entry-table_write j k) (t.table_inj i j g k));
    page_lt = λ i j g k o.
        let o' : odd (entry dir word i) ≡ true = ap odd (sym (entry-table_write i g)) ∙ o in
        ground (arith, page_entry-table_write i j g k o', t.page_lt i j g k o');
  }
