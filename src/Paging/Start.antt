-- ===== src/Paging/Start.antt =====
-- `paging_init`: the tables that map the low memory to itself.
use mars_os.Base.{
  ℕ, zero, suc, ◌+◌, ◌*◌, ◌/◌, ◌^◌, ◌≤◌, ◌<◌, ◌≡◌, ◌≢◌, refl, sym, ◌∙◌, true, false, ◌==◌, leb, ltb,
  ltb→lt, ltb-false→le, if◌then◌else◌, arith, Bool-cases, inl, inr,
}
use Prim.Native.Nat.{bit_or}
use mathlib.Core.Path.{subst}
use mars_os.Base.Bits.{bit_or-low}
use mars_os.Base.Bits.Half.{bit_or-half, bit_or-mod_two}
use mars_os.Pmm.{alloc_frame}
use mars_os.Pmm.Valid.{IsValid, used-le-total}
use mars_os.Pmm.Alloc.{alloc_frame-Allocated, alloc_frame_exhausted}
use mars_os.Pmm.Bitmap.{frame_set}
use mars_os.Paging.{Space, slot, write, fill_loop, alloc_table, identity_entry, init_tables}
use mars_os.Paging.Words.{bit_or-present, bit_or-offset}
use mars_os.Paging.Tables.{
  IsTables, odd, base_of, entry, leaf, fill_loop-slot, fill_loop-outside, is_outside,
}
use mars_os.Paging.Tables.New.{leaf-new_table, new_table-IsTables, entry-new_table}
use mars_os.Paging.Ensure.{with_words}

-- The two flags of an entry of the kernel's.
kernel_flags : (q : ℕ) → bit_or (bit_or (q * 4096) 1) 2 ≡ q * 4096 + 3
kernel_flags q =
    let a : bit_or (q * 4096) 1 ≡ q * 4096 + 1 = bit_or-offset q 1 (omega arith) in
    let w : ℕ = q * 4096 + 1 in
    let b : bit_or w 2 / 2 ≡ bit_or (w / 2) 1 = bit_or-half w 2 in
    let c : bit_or w 2 ≡ q * 4096 + 3 =
      ground (arith, b, bit_or-present (w / 2), bit_or-mod_two w 2) in
    rw a c

pub identity_entry_lem :
    (limit i j : ℕ)
    → j < 1024
    → identity_entry limit i j
      ≡ (let phys = i * 4194304 + j * 4096 in if ltb phys limit then phys + 3 else 0)
unfolding identity_entry
identity_entry_lem limit i j h =
    let q : ℕ = i * 1024 + j in
    let low : bit_or (i * 2 ^ 22) (j * 2 ^ 12) ≡ q * 4096 =
      bit_or-low 22 i (j * 2 ^ 12) (omega arith) ∙ omega arith in
    rw low (rw (kernel_flags q) (ground arith))

-- The first `pd` tables are made, and the directory has no other.
pub record Mapped (s : Space) (limit pd : ℕ) : Type 0 where
  pub valid : IsValid s.pmm
  pub tables : IsTables s.pmm s.page_directory s.word
  pub rest : (i : ℕ) → pd ≤ i → i < 1024 → entry s.page_directory s.word i ≡ 0
  pub leaves :
      (i j : ℕ)
      → i < 1024
      → j < 1024
      → leaf s.page_directory s.word i j ≡ (if ltb i pd then identity_entry limit i j else 0)

module _ (s : Space) (limit pd : ℕ) (m : Mapped s limit pd) (h : pd < 1024) where
  abbrev frame : ℕ
  frame = (alloc_frame s.pmm).0

  abbrev filled : ℕ → ℕ
  filled = fill_loop 1024 0 frame (identity_entry limit pd) (fill_loop 1024 0 frame (λ i. 0) s.word)

  abbrev next : Space
  next =
      with_words s (alloc_frame s.pmm).1
        (write filled (slot s.page_directory pd) (bit_or (bit_or frame 1) 2))

  init_tables-next :
      (left : ℕ)
      → frame ≢ 0
      → init_tables (suc left) pd limit s ≡ init_tables left (pd + 1) limit next
  unfolding init_tables alloc_table
  init_tables-next left n = ground arith

  init_tables-full :
      (left : ℕ) → s.pmm.total ≤ s.pmm.used → init_tables (suc left) pd limit s ≡ (false, s)
  unfolding init_tables alloc_table
  init_tables-full left full = ground (arith, alloc_frame_exhausted s.pmm full)

  filled-outside : (a : ℕ) → is_outside frame a ≡ true → filled a ≡ s.word a
  filled-outside a o =
      fill_loop-outside 1024 0 frame (identity_entry limit pd)
        (fill_loop 1024 0 frame (λ i. 0) s.word) a (omega arith) o
      ∙ fill_loop-outside 1024 0 frame (λ i. 0) s.word a (omega arith) o

  filled-inside : (j : ℕ) → j < 1024 → filled (slot frame j) ≡ identity_entry limit pd j
  filled-inside j k = ground (
    arith,
    fill_loop-slot 1024 0 frame (identity_entry limit pd) (fill_loop 1024 0 frame (λ i. 0) s.word)
        j,
  )

  next-Mapped : s.pmm.used < s.pmm.total → Mapped next limit (pd + 1)
  next-Mapped room =
      let a = alloc_frame-Allocated s.pmm m.valid room in
      let aligned : base_of frame ≡ frame = omega (arith, a.aligned) in
      let x : ℕ = bit_or (bit_or frame 1) 2 in
      let e : x ≡ frame + 3 = rw (sym aligned) (kernel_flags (frame / 4096)) in
      let small : x < 2 ^ 32 = omega (arith, e, a.aligned, a.address) in
      let made : odd x ≡ true = ground (arith, e, a.aligned) in
      let same : base_of x ≡ frame = omega (arith, e, a.aligned) in
      let absent : odd (entry s.page_directory s.word pd) ≡ false =
        ground (arith, m.rest pd (omega arith) h) in
      let bound = λ (j : ℕ) (k : j < 1024).
        subst (λ v. v < 2 ^ 32) (sym (identity_entry_lem limit pd j k)) (ground arith) in
      record {
        valid = a.valid;
        tables =
            new_table-IsTables s.pmm (alloc_frame s.pmm).1 s.page_directory s.word m.tables pd h
              absent frame x aligned small made same a.was_free a.now_used filled
              (identity_entry limit pd) filled-outside filled-inside bound;
        rest = λ i g k. ground (
          arith,
          entry-new_table s.pmm (alloc_frame s.pmm).1 s.page_directory s.word m.tables pd h absent
              frame x aligned small made same a.was_free a.now_used filled (identity_entry limit pd)
              filled-outside filled-inside bound i k,
          m.rest i (omega arith) k,
        );
        leaves = λ i j g k.
            leaf-new_table s.pmm (alloc_frame s.pmm).1 s.page_directory s.word m.tables pd h absent
              frame x aligned small made same a.was_free a.now_used filled (identity_entry limit pd)
              filled-outside filled-inside bound i j g k
            ∙ next_leaf i j g k;
      }
    where
      next_leaf :
          (i j : ℕ)
          → i < 1024
          → j < 1024
          → (if i == pd
              then (if odd (identity_entry limit pd j) then identity_entry limit pd j else 0)
              else leaf s.page_directory s.word i j)
            ≡ (if ltb i (pd + 1) then identity_entry limit i j else 0)
      next_leaf i j g k = elim (Bool-cases (i == pd)) [
        | inl same ↦ ground (arith, identity_entry_lem limit i j k, identity_entry_lem limit pd j k)
        | inr other ↦ ground (arith, m.leaves i j g k)
      ]

pub init_tables_lem :
    (left pd limit : ℕ) (s : Space)
    → Mapped s limit pd
    → pd + left ≤ 1024
    → let (done, s') = init_tables left pd limit s in
      (done ≡ leb (s.pmm.used + left) s.pmm.total)
      × (s'.page_directory ≡ s.page_directory)
      × (done ≡ true → Mapped s' limit (pd + left))
unfolding init_tables
init_tables_lem zero pd limit s m h =
    let here : pd ≡ pd + 0 = omega arith in
    (ground (arith, used-le-total s.pmm m.valid), refl, λ e. subst (λ k. Mapped s limit k) here m)
init_tables_lem (suc left) pd limit s m h = elim (Bool-cases (ltb s.pmm.used s.pmm.total)) [
  | inl room ↦
      let a = alloc_frame-Allocated s.pmm m.valid (ltb→lt _ _ room) in
      let n = next-Mapped s limit pd m (omega arith) (ltb→lt _ _ room) in
      let (done, dir, mapped) =
        init_tables_lem left (pd + 1) limit (next s limit pd m (omega arith)) n (omega arith) in
      let e : pd + 1 + left ≡ pd + suc left = omega arith in
      let s' = (init_tables left (pd + 1) limit (next s limit pd m (omega arith))).1 in
      rw (init_tables-next s limit pd m (omega arith) left a.not_null) (
        done ∙ ground (arith, a.counted, a.same_total),
        dir,
        λ t. subst (λ k. Mapped s' limit k) e (mapped t),
      )
  | inr full ↦
      rw (init_tables-full s limit pd m (omega arith) left (ltb-false→le _ _ full))
        (ground arith, refl, λ e. absurd (ground arith))
]

-- The directory that `paging_init` starts from.
abbrev pub cleared : Space → Space
cleared s = record s { word = fill_loop 1024 0 s.page_directory (λ i. 0) s.word }

pub cleared-entry : (s : Space) (i : ℕ) → i < 1024 → entry s.page_directory (cleared s).word i ≡ 0
cleared-entry s i h = ground (arith, fill_loop-slot 1024 0 s.page_directory (λ i. 0) s.word i)

-- The kernel's directory is an array of its image, in a frame that the manager does not give.
pub record HasDirectory (s : Space) : Type 0 where
  pub valid : IsValid s.pmm
  pub aligned : base_of s.page_directory ≡ s.page_directory
  pub not_null : s.page_directory ≢ 0
  pub directory_lt : s.page_directory < 2 ^ 32
  pub held : frame_set s.pmm (s.page_directory / 4096) ≡ true

pub cleared-Mapped : (s : Space) (limit : ℕ) → HasDirectory s → Mapped (cleared s) limit 0
unfolding leaf
cleared-Mapped s limit d = record {
  valid = d.valid;
  tables = record {
    aligned = d.aligned;
    dir_lt = d.directory_lt;
    dir_held = d.held;
    entry_lt = λ i h. ground (arith, cleared-entry s i h);
    table_held = λ i h o. absurd (ground (arith, cleared-entry s i h));
    table_ne = λ i h o. absurd (ground (arith, cleared-entry s i h));
    table_inj = λ i j h k o p e. absurd (ground (arith, cleared-entry s i h));
    page_lt = λ i j h k o. absurd (ground (arith, cleared-entry s i h));
  };
  rest = λ i g h. cleared-entry s i h;
  leaves = λ i j h k. ground (arith, cleared-entry s i h);
}
