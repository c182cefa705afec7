-- ===== src/Heap/Pages.antt =====
-- The heap of kernel/kheap.c grows by pages.
use mars_os.Base.{
  ℕ, zero, suc, ◌+◌, ◌*◌, ◌^◌, ◌≤◌, ◌<◌, ◌≡◌, refl, sym, ◌∙◌, ap, Bool, true, false, not, List, [],
  ◌∷◌, ◌++◌, some, arith, Bool-cases, inl, inr,
}
use mathlib.Core.Path.{subst}
use mars_os.Heap.{Heap, PageSource, heap_start, add32, rounds_for, tail_loop, add_page, map_more}
use mars_os.Heap.Cells.{Cell, span, grow, Snoc, snoc, span-grow, given-grow, eights-grow}
use mars_os.Heap.Chain.{IsLinked}
use mars_os.Heap.Walk.{tail_loop-last}
use mars_os.Heap.Grow.{add_page-IsLinked}
use mars_os.Heap.Valid.{IsHeap}

-- The blocks after a number of pages more.
unfoldable pub with_pages : ℕ → List Cell → List Cell
with_pages zero cs = cs
with_pages (suc n) cs = with_pages n (grow cs)

pub with_pages_add :
    (m n : ℕ) (cs : List Cell) → with_pages n (with_pages m cs) ≡ with_pages (m + n) cs
unfolding with_pages
with_pages_add zero n cs = let e : n ≡ 0 + n = omega arith in ap (λ k. with_pages k cs) e
with_pages_add (suc m) n cs =
    let e : suc (m + n) ≡ suc m + n = omega arith in
    with_pages_add m n (grow cs) ∙ ap (λ k. with_pages k cs) e

-- The last block, which a heap has.
last_cell : (cs : List Cell) → 0 < span cs → Snoc cs
unfolding span
last_cell [] h = absurd (omega arith)
last_cell (c ∷ cs) h = snoc c cs

span-grow_lem : (cs : List Cell) → 0 < span cs → span (grow cs) ≡ span cs + 4096
unfolding span
span-grow_lem [] h = absurd (omega arith)
span-grow_lem (c ∷ cs) h = unfold span in (span-grow c cs)

module _ (P : PageSource) where
  -- The heap is in order, and the pages that are left do not fill its addresses.
  pub record IsReady (h : Heap P.State) (cs : List Cell) : Type 0 where
    pub heap : IsHeap h cs
    pub sound : P.IsSound h.pages
    pub room : h.end_ + 4096 * P.left h.pages < 2 ^ 32

  -- The source after it was asked for a number of pages, from the address on.
  unfoldable pub after_pages : ℕ → P.State → ℕ → P.State
  after_pages zero s virt = s
  after_pages (suc n) s virt = after_pages n (P.map_next s virt).1 (virt + 4096)

  pub after_pages_add :
      (m n : ℕ) (s : P.State) (virt : ℕ)
      → after_pages n (after_pages m s virt) (virt + 4096 * m) ≡ after_pages (m + n) s virt
  unfolding after_pages
  after_pages_add zero n s virt =
      let e : n ≡ 0 + n = omega arith in
      let k : virt + 4096 * 0 ≡ virt = omega arith in
      ap (after_pages n s) k ∙ ap (λ j. after_pages j s virt) e
  after_pages_add (suc m) n s virt =
      let e : suc (m + n) ≡ suc m + n = omega arith in
      let k : virt + 4096 * suc m ≡ virt + 4096 + 4096 * m = omega arith in
      let s' = (P.map_next s virt).1 in
      ap (after_pages n (after_pages m s' (virt + 4096))) k
      ∙ after_pages_add m n s' (virt + 4096)
      ∙ ap (λ j. after_pages j s virt) e

  -- The page after these fails to be mapped.
  abbrev pub fails_after : ℕ → P.State → ℕ → Bool
  fails_after n s virt = not (P.map_next (after_pages n s virt) (virt + 4096 * n)).0

  fails_after-suc :
      (n : ℕ) (s : P.State) (virt : ℕ)
      → fails_after (suc n) s virt ≡ fails_after n (P.map_next s virt).1 (virt + 4096)
  unfolding after_pages
  fails_after-suc n s virt =
      let e : virt + 4096 * suc n ≡ virt + 4096 + 4096 * n = omega arith in
      ap (λ a. not (P.map_next (after_pages n (P.map_next s virt).1 (virt + 4096)) a).0) e

  abbrev grown : Heap P.State → Heap P.State
  grown h = record h {
    pages = (P.map_next h.pages h.end_).1;
    end_ = add32 h.end_ 4096;
    total = add32 h.total 4096;
  }

  add_page-IsReady :
      (h : Heap P.State) (cs ws : List Cell) (z : Cell)
      → IsReady h cs
      → cs ≡ ws ++ (z ∷ [])
      → (P.map_next h.pages h.end_).0 ≡ true
      → (tail_loop (rounds_for (grown h).total) h.block h.head ≡ some (heap_start + span ws))
        × IsReady (record (grown h) { block = add_page h.block (heap_start + span ws) }) (grow cs)
  add_page-IsReady h cs ws z r e mapped =
      let v = r.heap in
      let fewer = P.fewer h.pages h.end_ r.sound mapped in
      let end_ : add32 h.end_ 4096 ≡ h.end_ + 4096 = omega (arith, r.room, fewer) in
      let total : add32 h.total 4096 ≡ h.total + 4096 =
        omega (arith, r.room, fewer, v.whole, v.total_eq) in
      let longer = span-grow_lem cs v.not_empty in
      let linked = subst (λ t. IsLinked h.end_ h.block 0 heap_start t) e v.linked in
      let whole = ap (λ t. heap_start + span t) (sym e) ∙ v.whole in
      (
        rw total (
            rw v.head_eq (
              tail_loop-last (rounds_for (h.total + 4096)) h.end_ h.block 0 heap_start ws z linked
                whole
                (subst (λ t. span t < 16 * rounds_for (h.total + 4096)) e
                  (omega (arith, v.total_eq))))),
        record {
          heap = record {
            ready = v.ready;
            head_eq = v.head_eq;
            linked =
                subst
                  (λ d. IsLinked d (add_page h.block (heap_start + span ws)) 0 heap_start (grow cs))
                  (sym end_)
                  (subst
                    (λ t.
                      IsLinked (h.end_ + 4096) (add_page h.block (heap_start + span ws)) 0
                        heap_start (grow t))
                    (sym e)
                    (add_page-IsLinked h.end_ h.block heap_start ws z linked whole
                      (omega (arith, r.room, fewer)) (omega arith)));
            whole = omega (arith, end_, longer, v.whole);
            bound = omega (arith, end_, r.room, fewer);
            total_eq = omega (arith, total, longer, v.total_eq);
            used_eq = v.used_eq ∙ sym (given-grow cs);
            sizes = eights-grow cs v.sizes;
            not_empty = omega (arith, longer);
          };
          sound = P.sound h.pages h.end_ r.sound r.heap.bound;
          room = omega (arith, end_, r.room, fewer);
        },
      )

  map_more-failed :
      (count : ℕ) (h : Heap P.State)
      → (P.map_next h.pages h.end_).0 ≡ false
      → map_more P (suc count) h ≡ some (false, record h { pages = (P.map_next h.pages h.end_).1 })
  unfolding map_more
  map_more-failed count h failed = ground arith

  map_more-mapped :
      (count tail : ℕ) (h : Heap P.State)
      → (P.map_next h.pages h.end_).0 ≡ true
      → tail_loop (rounds_for (grown h).total) h.block h.head ≡ some tail
      → map_more P (suc count) h
        ≡ map_more P count (record (grown h) { block = add_page h.block tail })
  unfolding map_more
  map_more-mapped count tail h mapped found = ground arith

  -- What `heap_map_more` leaves: `pages` pages more than before.
  pub record More (count : ℕ) (h : Heap P.State) (cs : List Cell) : Type 0 where
    pub done : Bool
    pub heap' : Heap P.State
    pub pages : ℕ
    pub returns : map_more P count h ≡ some (done, heap')
    pub is_ready' : IsReady heap' (with_pages pages cs)
    pub whole : done ≡ true → pages ≡ count
    pub end_eq : heap'.end_ ≡ h.end_ + 4096 * pages
    pub pages_eq : done ≡ true → heap'.pages ≡ after_pages pages h.pages h.end_
    pub fails : done ≡ false → fails_after pages h.pages h.end_ ≡ true
    pub short : done ≡ false → pages < count
    pub fewer : done ≡ true → P.left heap'.pages + count ≤ P.left h.pages

  pub map_more_lem :
      (count : ℕ) (h : Heap P.State) (cs : List Cell) → IsReady h cs → More count h cs
  unfolding map_more with_pages Snoc after_pages
  map_more_lem zero h cs r = record {
    done = true;
    heap' = h;
    pages = 0;
    returns = refl;
    is_ready' = r;
    whole = λ e. refl;
    end_eq = omega arith;
    pages_eq = λ e. refl;
    fails = λ e. absurd (ground arith);
    short = λ e. absurd (ground arith);
    fewer = λ e. omega arith;
  }
  map_more_lem (suc count) h cs r = elim (Bool-cases (P.map_next h.pages h.end_).0) [
    | inr failed ↦ record {
      done = false;
      heap' = record h { pages = (P.map_next h.pages h.end_).1 };
      pages = 0;
      returns = map_more-failed count h failed;
      is_ready' = record {
        heap = record {
          ready = r.heap.ready;
          head_eq = r.heap.head_eq;
          linked = r.heap.linked;
          whole = r.heap.whole;
          bound = r.heap.bound;
          total_eq = r.heap.total_eq;
          used_eq = r.heap.used_eq;
          sizes = r.heap.sizes;
          not_empty = r.heap.not_empty;
        };
        sound = P.sound h.pages h.end_ r.sound r.heap.bound;
        room = omega (arith, r.room, P.not_more h.pages h.end_ r.sound);
      };
      whole = λ e. absurd (ground arith);
      end_eq = omega arith;
      pages_eq = λ e. absurd (ground arith);
      fails =
          λ e. let k : h.end_ + 4096 * 0 ≡ h.end_ = omega arith in rw k (ground (arith, failed));
      short = λ e. omega arith;
      fewer = λ e. absurd (ground arith);
    }
    | inl mapped ↦
        let (ws, z, e) = last_cell cs r.heap.not_empty in
        let (tail, r') = add_page-IsReady h cs ws z r e mapped in
        let s' = (P.map_next h.pages h.end_).1 in
        let end_ : add32 h.end_ 4096 ≡ h.end_ + 4096 =
          omega (arith, r.room, P.fewer h.pages h.end_ r.sound mapped) in
        let m =
          map_more_lem count (record (grown h) { block = add_page h.block (heap_start + span ws) })
            (grow cs) r' in
        record {
          done = m.done;
          heap' = m.heap';
          pages = suc m.pages;
          returns = map_more-mapped count (heap_start + span ws) h mapped tail ∙ m.returns;
          is_ready' = m.is_ready';
          whole = λ t. ap suc (m.whole t);
          end_eq = omega (arith, m.end_eq, end_);
          pages_eq = λ t. m.pages_eq t ∙ ap (after_pages m.pages s') end_;
          fails = λ t.
              fails_after-suc m.pages h.pages h.end_
              ∙ ap (λ a. fails_after m.pages s' a) (sym end_)
              ∙ m.fails t;
          short = λ t. omega (arith, m.short t);
          fewer = λ t. omega (arith, m.fewer t, P.fewer h.pages h.end_ r.sound mapped);
        }
  ]
