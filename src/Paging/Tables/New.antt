-- ===== src/Paging/Tables/New.antt =====
-- A new table for an entry of a directory that was absent; its frame was free.
use mars_os.Base.{
  ℕ, ◌/◌, ◌^◌, ◌<◌, ◌≡◌, ◌≢◌, sym, ◌∙◌, ap, true, false, ◌==◌, if◌then◌else◌, arith, Bool-cases,
  inl, inr,
}
use mars_os.Pmm.{Pmm}
use mars_os.Pmm.Bitmap.{frame_set}
use mars_os.Paging.{write, slot}
use mars_os.Paging.Tables.{is_outside, odd, base_of, entry, page_entry, leaf, IsTables}

module _ (pmm pmm' : Pmm) (dir : ℕ) (word : ℕ → ℕ) (t : IsTables pmm dir word) (pd : ℕ)
    (h : pd < 1024) (absent : odd (entry dir word pd) ≡ false) (frame x : ℕ)
    (aligned : base_of frame ≡ frame) (small : x < 2 ^ 32) (made : odd x ≡ true)
    (same : base_of x ≡ frame) (free : frame_set pmm (frame / 4096) ≡ false)
    (used : (i : ℕ) → frame_set pmm' i ≡ (if frame / 4096 == i then true else frame_set pmm i))
    (filled f : ℕ → ℕ) (outside : (a : ℕ) → is_outside frame a ≡ true → filled a ≡ word a)
    (inside : (j : ℕ) → j < 1024 → filled (slot frame j) ≡ f j)
    (f_lt : (j : ℕ) → j < 1024 → f j < 2 ^ 32) where
  abbrev pub new_table : ℕ → ℕ
  new_table = write filled (slot dir pd) x

  apart-dir : frame / 4096 ≢ dir / 4096
  apart-dir e = absurd (ground (arith, e, t.dir_held))

  pub entry-new_table :
      (i : ℕ) → i < 1024 → entry dir new_table i ≡ (if i == pd then x else entry dir word i)
  entry-new_table i g =
      let o : is_outside frame (slot dir i) ≡ true = ground (arith, apart-dir, t.aligned) in
      ground (arith, outside (slot dir i) o)

  apart-table :
      (i : ℕ) → i < 1024 → odd (entry dir word i) ≡ true → frame / 4096 ≢ entry dir word i / 4096
  apart-table i g o e = absurd (ground (arith, e, t.table_held i g o))

  page_entry-old :
      (i j : ℕ)
      → i < 1024
      → j < 1024
      → (i == pd) ≡ false
      → odd (entry dir word i) ≡ true
      → page_entry dir new_table i j ≡ page_entry dir word i j
  page_entry-old i j g k n o =
      let a = slot (base_of (entry dir word i)) j in
      let e : entry dir new_table i ≡ entry dir word i = ground (arith, entry-new_table i g) in
      let out : is_outside frame a ≡ true = ground (arith, apart-table i g o) in
      let d : a ≢ slot dir pd = omega (arith, t.table_ne i g o, t.aligned) in
      rw e (ground (arith, d, outside a out))

  page_entry-new :
      (i j : ℕ) → i < 1024 → j < 1024 → (i == pd) ≡ true → page_entry dir new_table i j ≡ f j
  page_entry-new i j g k y =
      let e : entry dir new_table i ≡ x = ground (arith, entry-new_table i g) in
      let d : slot frame j ≢ slot dir pd = omega (arith, apart-dir, t.aligned) in
      rw e (rw same (ground (arith, d, inside j k)))

  pub leaf-new_table :
      (i j : ℕ)
      → i < 1024
      → j < 1024
      → leaf dir new_table i j
        ≡ (if i == pd then (if odd (f j) then f j else 0) else leaf dir word i j)
  unfolding leaf
  leaf-new_table i j g k = elim (Bool-cases (i == pd)) [
    | inl y ↦
        let c : entry dir word i ≡ entry dir word pd = ap (entry dir word) (ground arith) in
        ground (arith, c, page_entry-new i j g k y)
    | inr n ↦ elim (Bool-cases (odd (entry dir word i))) [
      | inl o ↦ ground (arith, entry-new_table i g, page_entry-old i j g k n o)
      | inr e ↦ ground (arith, entry-new_table i g)
    ]
  ]

  frame-new_table :
      (i : ℕ)
      → i < 1024
      → entry dir new_table i / 4096 ≡ (if i == pd then frame / 4096 else entry dir word i / 4096)
  frame-new_table i g =
      let f : x / 4096 ≡ frame / 4096 = omega (arith, same) in
      ground (arith, entry-new_table i g, f)

  -- An entry that is present now and is not the new one was present before.
  was_present :
      (i : ℕ)
      → i < 1024
      → (i == pd) ≡ false
      → odd (entry dir new_table i) ≡ true
      → odd (entry dir word i) ≡ true
  was_present i g n o = ground (arith, entry-new_table i g)

  new_table-inj :
      (i j : ℕ)
      → i < 1024
      → j < 1024
      → odd (entry dir new_table i) ≡ true
      → odd (entry dir new_table j) ≡ true
      → entry dir new_table i / 4096 ≡ entry dir new_table j / 4096
      → i ≡ j
  new_table-inj i j g k o p e =
      let f = sym (frame-new_table i g) ∙ e ∙ frame-new_table j k in
      elim (Bool-cases (i == pd)) [
        | inl y ↦ elim (Bool-cases (j == pd)) [
          | inl z ↦ ground arith
          | inr m ↦ absurd (ground (arith, f, apart-table j k (was_present j k m p)))
        ]
        | inr n ↦ elim (Bool-cases (j == pd)) [
          | inl z ↦ absurd (ground (arith, f, apart-table i g (was_present i g n o)))
          | inr m ↦
              t.table_inj i j g k (was_present i g n o) (was_present j k m p) (ground (arith, f))
        ]
      ]

  pub new_table-IsTables : IsTables pmm' dir new_table
  new_table-IsTables = record {
    aligned = t.aligned;
    dir_lt = t.dir_lt;
    dir_held = ground (arith, used (dir / 4096), t.dir_held);
    entry_lt = λ i g. ground (arith, entry-new_table i g, t.entry_lt i g);
    table_held = λ i g o. elim (Bool-cases (i == pd)) [
      | inl y ↦ rw (frame-new_table i g) (ground (arith, used (frame / 4096)))
      | inr n ↦
          rw (frame-new_table i g)
            (ground (arith, used (entry dir word i / 4096), t.table_held i g (was_present i g n o)))
    ];
    table_ne = λ i g o. elim (Bool-cases (i == pd)) [
      | inl y ↦ rw (frame-new_table i g) (ground (arith, apart-dir))
      | inr n ↦ rw (frame-new_table i g) (ground (arith, t.table_ne i g (was_present i g n o)))
    ];
    table_inj = λ i j g k o p e. new_table-inj i j g k o p e;
    page_lt = λ i j g k o. elim (Bool-cases (i == pd)) [
      | inl y ↦ rw (page_entry-new i j g k y) (f_lt j k)
      | inr n ↦
          let o' = was_present i g n o in rw (page_entry-old i j g k n o') (t.page_lt i j g k o')
    ];
  }
