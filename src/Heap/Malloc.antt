-- ===== src/Heap/Malloc.antt =====
-- `kmalloc` returns: the first block that fits, where need be after the heap has grown, or 0.
use mars_os.Base.{
  ℕ, zero, suc, ◌+◌, ◌*◌, ◌/◌, ◌%◌, ◌^◌, ◌≤◌, ◌<◌, ◌≡◌, refl, sym, ◌∙◌, ap, true, false, not, List,
  ◌++◌, Option, some, ◌==◌, arith, Bool-cases, inl, inr, ◌⊎◌,
}
use mathlib.Core.Path.{subst}
use mars_os.Heap.{
  Heap, PageSource, heap_start, rounds_for, first_fit, use_block, map_more, malloc_loop, kmalloc,
  align_up_8, grow_pages,
}
use mars_os.Heap.Cells.{Cell, span, split, has_fit, Place, place}
use mars_os.Heap.Walk.{first_fit-fit_at, fit_at-none, fit_at-place, link, fit_at}
use mars_os.Heap.Valid.{IsHeap, use_block_lem}
use mars_os.Heap.Pages.{
  with_pages, with_pages_add, after_pages, after_pages_add, fails_after, IsReady, map_more_lem,
}

module _ (P : PageSource) where
  -- The heap grew by no page, or by eight of them last, and no block fitted before these.
  abbrev Needed : ℕ → List Cell → ℕ → Type 0
  Needed want cs pages =
      (pages ≡ 0) ⊎ ((k : ℕ) × (k + grow_pages ≡ pages) × (has_fit want (with_pages k cs) ≡ false))

  -- How `kmalloc` ends, after `pages` pages more, no more than are needed: with the first block that
  -- fits, or with 0 where the next page failed to be mapped and, at most seven pages before, no block
  -- fitted. Before, the blocks are `cs`, and the heap ends at `end_` and takes its pages from
  -- `source`.
  pub data Served (want : ℕ) (source : P.State) (end_ : ℕ) (cs : List Cell) (pages : ℕ)
      : ℕ → Heap P.State → Type 0 where
    given_away :
        {h' : Heap P.State}
        → (cs' : List Cell) → cs' ≡ with_pages pages cs
        → Needed want cs pages
        → (p : Place want cs') → IsReady P h' (p.before ++ (split want p.chosen ++ p.after))
        → Served want source end_ cs pages (heap_start + span p.before + 16) h'
    refused :
        {h' : Heap P.State}
        → (k : ℕ) → (k ≤ pages)
        → pages < k + grow_pages
        → has_fit want (with_pages k cs) ≡ false
        → fails_after P pages source end_ ≡ true
        → IsReady P h' (with_pages pages cs)
        → Served want source end_ cs pages 0 h'

  -- It returns, after `pages` pages more than `h` has.
  pub record Returns (r : Option (ℕ × Heap P.State)) (want : ℕ) (h : Heap P.State) (cs : List Cell)
      : Type 0 where
    pub ptr : ℕ
    pub heap' : Heap P.State
    pub pages : ℕ
    pub returns : r ≡ some (ptr, heap')
    pub served : Served want h.pages h.end_ cs pages ptr heap'

  module _ (want : ℕ) (multiple : want % 8 ≡ 0) (some_ : 0 < want) where
    malloc_loop-fits :
        (rounds p : ℕ) (h : Heap P.State)
        → first_fit (rounds_for h.total) h.block h.head want ≡ some p
        → (p == 0) ≡ false
        → malloc_loop P (suc rounds) h want ≡ some (use_block h p want)
    unfolding malloc_loop
    malloc_loop-fits rounds p h found there = ground arith

    malloc_loop-refused :
        (rounds : ℕ) (h h' : Heap P.State)
        → first_fit (rounds_for h.total) h.block h.head want ≡ some 0
        → map_more P grow_pages h ≡ some (false, h')
        → malloc_loop P (suc rounds) h want ≡ some (0, h')
    unfolding malloc_loop
    malloc_loop-refused rounds h h' found more = ground arith

    malloc_loop-again :
        (rounds : ℕ) (h h' : Heap P.State)
        → first_fit (rounds_for h.total) h.block h.head want ≡ some 0
        → map_more P grow_pages h ≡ some (true, h')
        → malloc_loop P (suc rounds) h want ≡ malloc_loop P rounds h' want
    unfolding malloc_loop
    malloc_loop-again rounds h h' found more = ground arith

    walk :
        (h : Heap P.State) (cs : List Cell)
        → IsReady P h cs
        → first_fit (rounds_for h.total) h.block h.head want ≡ some (fit_at want heap_start cs)
    walk h cs r =
        let v = r.heap in
        let start : h.head ≡ link h.end_ heap_start =
          ground (arith, v.head_eq, v.whole, v.not_empty) in
        ap (λ p. first_fit (rounds_for h.total) h.block p want) start
        ∙ first_fit-fit_at (rounds_for h.total) h.end_ h.block 0 heap_start want cs v.linked v.whole
            (omega arith) (omega (arith, v.total_eq))

    used-sound :
        (h : Heap P.State) (p : ℕ) → P.IsSound h.pages → P.IsSound (use_block h p want).1.pages
    unfolding use_block
    used-sound h p s = s

    used-room :
        (h : Heap P.State) (p : ℕ)
        → h.end_ + 4096 * P.left h.pages < 2 ^ 32
        → let h' = (use_block h p want).1 in h'.end_ + 4096 * P.left h'.pages < 2 ^ 32
    unfolding use_block
    used-room h p s = s

    -- What `kmalloc` does after some pages, from before them.
    Needed-later :
        (cs : List Cell) (m n : ℕ)
        → m ≡ grow_pages
        → has_fit want cs ≡ false
        → Needed want (with_pages m cs) n
        → Needed want cs (m + n)
    unfolding with_pages
    Needed-later cs m n whole none_ (inl e) = inr (0, omega arith, none_)
    Needed-later cs m n whole none_ (inr (k, e, none')) =
        inr (m + k, omega arith, ap (has_fit want) (sym (with_pages_add m k cs)) ∙ none')

    later :
        (source : P.State) (end_ : ℕ) (cs : List Cell) (m n : ℕ) {ptr : ℕ} {h' : Heap P.State}
        → m ≡ grow_pages
        → has_fit want cs ≡ false
        → Served want (after_pages P m source end_) (end_ + 4096 * m) (with_pages m cs) n ptr h'
        → Served want source end_ cs (m + n) ptr h'
    later source end_ cs m n whole first_ (given_away cs' e needed p r) =
        given_away cs' (e ∙ with_pages_add m n cs) (Needed-later cs m n whole first_ needed) p r
    later source end_ cs m n whole first_ (refused k low high none_ fails r) =
        let last : end_ + 4096 * (m + n) ≡ end_ + 4096 * m + 4096 * n = omega arith in
        refused (m + k) (omega arith) (omega arith)
          (ap (has_fit want) (sym (with_pages_add m k cs)) ∙ none_)
          (ap (λ a. not (P.map_next (after_pages P (m + n) source end_) a).0) last
            ∙ ap (λ s. not (P.map_next s (end_ + 4096 * m + 4096 * n)).0)
                (sym (after_pages_add P m n source end_))
            ∙ fails)
          (subst (IsReady P _) (with_pages_add m n cs) r)

    malloc_loop-placed :
        (rounds : ℕ) (h : Heap P.State) (cs : List Cell)
        → IsReady P h cs
        → Place want cs
        → Returns (malloc_loop P (suc rounds) h want) want h cs
    unfolding with_pages
    malloc_loop-placed rounds h cs r p =
        let v = r.heap in
        let at = fit_at-place want heap_start p.before p.chosen p.after p.first p.is_free p.fits in
        let found = walk h cs r ∙ ap some (ap (fit_at want heap_start) p.whole ∙ at) in
        let there : (heap_start + span p.before == 0) ≡ false = ground arith in
        let (ptr, heap) =
          use_block_lem h want p.before p.chosen p.after (subst (IsHeap h) p.whole v) p.is_free
            p.fits multiple some_ in
        record {
          ptr = heap_start + span p.before + 16;
          heap' = (use_block h (heap_start + span p.before) want).1;
          pages = 0;
          returns =
              malloc_loop-fits rounds (heap_start + span p.before) h found there
              ∙ ap (λ q. some (q, (use_block h (heap_start + span p.before) want).1)) ptr;
          served = given_away cs refl (inl refl) p record {
            heap = heap;
            sound = used-sound h (heap_start + span p.before) r.sound;
            room = used-room h (heap_start + span p.before) r.room;
          };
        }

    pub malloc_loop_lem :
        (rounds : ℕ) (h : Heap P.State) (cs : List Cell)
        → IsReady P h cs
        → P.left h.pages < rounds
        → Returns (malloc_loop P rounds h want) want h cs
    malloc_loop_lem zero h cs r enough = absurd (omega arith)
    malloc_loop_lem (suc rounds) h cs r enough = elim (place want cs) [
      | inr p ↦ malloc_loop-placed rounds h cs r p
      | inl none_ ↦
          let nowhere = walk h cs r ∙ ap some (fit_at-none want heap_start cs none_) in
          let m = map_more_lem P grow_pages h cs r in
          elim (Bool-cases m.done) [
            | inr stopped ↦ record {
              ptr = 0;
              heap' = m.heap';
              pages = m.pages;
              returns =
                  malloc_loop-refused rounds h m.heap' nowhere
                    (m.returns ∙ ap (λ t. some (t, m.heap')) stopped);
              served =
                  refused 0 (omega arith) (m.short stopped) (unfold with_pages in none_)
                    (m.fails stopped) m.is_ready';
            }
            | inl more ↦
                let rest =
                  malloc_loop_lem rounds m.heap' (with_pages m.pages cs) m.is_ready'
                    (omega (arith, m.fewer more)) in
                record {
                  ptr = rest.ptr;
                  heap' = rest.heap';
                  pages = m.pages + rest.pages;
                  returns =
                      malloc_loop-again rounds h m.heap' nowhere
                        (m.returns ∙ ap (λ t. some (t, m.heap')) more)
                      ∙ rest.returns;
                  served = later h.pages h.end_ cs m.pages rest.pages (m.whole more) none_ (
                      subst
                        (λ s.
                          Served want s (h.end_ + 4096 * m.pages) (with_pages m.pages cs) rest.pages
                            rest.ptr rest.heap')
                        (m.pages_eq more)
                        (subst
                          (λ a.
                            Served want m.heap'.pages a (with_pages m.pages cs) rest.pages rest.ptr
                              rest.heap')
                          m.end_eq rest.served));
                }
          ]
    ]

  align_up_8-eq : (size : ℕ) → size ≤ 0x7FFFFFFF → align_up_8 size ≡ (size + 7) / 8 * 8
  unfolding align_up_8
  align_up_8-eq size h = omega arith

  kmalloc-eq :
      (h : Heap P.State) (size : ℕ)
      → h.is_ready ≡ true
      → 0 < size
      → size ≤ 0x7FFFFFFF
      → kmalloc P h size ≡ malloc_loop P (P.left h.pages + 1) h (align_up_8 size)
  unfolding kmalloc
  kmalloc-eq h size ready some_ small = ground arith

  -- On a heap in order, where all the pages that are left fit below 2 ^ 32 behind its end, `kmalloc`
  -- returns for every size it accepts: with the bytes after the header of the first free block that
  -- has as many as the size rounded up to a multiple of 8, cut to them, after some pages more, the
  -- last eight of which were mapped when no block fitted; or with 0, if the next page failed to be
  -- mapped and no block fitted before the heap last grew. In both cases the blocks are in order, and
  -- no other block changes.
  pub kmalloc_lem :
      (h : Heap P.State) (cs : List Cell) (size : ℕ)
      → IsReady P h cs
      → 0 < size
      → size ≤ 0x7FFFFFFF
      → Returns (kmalloc P h size) ((size + 7) / 8 * 8) h cs
  kmalloc_lem h cs size r some_ small =
      let eq =
        kmalloc-eq h size r.heap.ready some_ small
        ∙ ap (malloc_loop P (P.left h.pages + 1) h) (align_up_8-eq size small) in
      subst (λ t. Returns t ((size + 7) / 8 * 8) h cs) (sym eq)
        (malloc_loop_lem ((size + 7) / 8 * 8) (omega arith) (omega arith) (P.left h.pages + 1) h cs
          r (omega arith))
