-- ===== src/Heap/Start.antt =====
-- `kheap_init`: a heap of one free block.
use mars_os.Base.{
  ℕ, zero, suc, ◌+◌, ◌*◌, ◌^◌, ◌≤◌, ◌<◌, ◌≡◌, refl, sym, ap, Bool, true, false, [], ◌∷◌, arith,
  Bool-cases, inl, inr,
}
use mathlib.Core.Path.{subst}
use mars_os.Heap.{Heap, PageSource, heap_start, init, put, map_pages, initial_pages}
use mars_os.Heap.Cells.{Cell, span, given, eights}
use mars_os.Heap.Chain.{IsLinked}
use mars_os.Heap.Valid.{IsHeap}
use mars_os.Heap.Pages.{IsReady}

abbrev pub first_cell : Cell
first_cell = record { size = 65520; free = true }

module _ (P : PageSource) where
  map_pages-failed :
      (count i : ℕ) (pages : P.State)
      → (P.map_next pages (heap_start + i * 4096)).0 ≡ false
      → map_pages P (suc count) i pages ≡ (false, (P.map_next pages (heap_start + i * 4096)).1)
  unfolding map_pages
  map_pages-failed count i pages failed = ground arith

  map_pages-mapped :
      (count i : ℕ) (pages : P.State)
      → (P.map_next pages (heap_start + i * 4096)).0 ≡ true
      → map_pages P (suc count) i pages
        ≡ map_pages P count (i + 1) (P.map_next pages (heap_start + i * 4096)).1
  unfolding map_pages
  map_pages-mapped count i pages mapped = ground arith

  map_pages_lem :
      (count i : ℕ) (pages : P.State)
      → P.IsSound pages
      → i + count ≤ initial_pages
      → let (mapped, pages') = map_pages P count i pages in
        P.IsSound pages'
        × (P.left pages' ≤ P.left pages)
        × (mapped ≡ true → P.left pages' + count ≤ P.left pages)
  unfolding map_pages
  map_pages_lem zero i pages v h = (v, omega arith, λ e. omega arith)
  map_pages_lem (suc count) i pages v h =
      let virt : ℕ = heap_start + i * 4096 in
      let small : virt < 2 ^ 32 = omega arith in
      elim (Bool-cases (P.map_next pages virt).0) [
        | inr failed ↦
            subst
              (λ r.
                P.IsSound r.1
                × (P.left r.1 ≤ P.left pages)
                × (r.0 ≡ true → P.left r.1 + suc count ≤ P.left pages))
              (sym (map_pages-failed count i pages failed))
              (P.sound pages virt v small, P.not_more pages virt v, λ e. absurd (ground arith))
        | inl mapped ↦
            let (sound, less, fewer) =
              map_pages_lem count (i + 1) (P.map_next pages virt).1 (P.sound pages virt v small)
                (omega arith) in
            let one = P.fewer pages virt v mapped in
            subst
              (λ r.
                P.IsSound r.1
                × (P.left r.1 ≤ P.left pages)
                × (r.0 ≡ true → P.left r.1 + suc count ≤ P.left pages))
              (sym (map_pages-mapped count i pages mapped))
              (sound, omega (arith, less, one), λ e. omega (arith, fewer e, one))
      ]

  abbrev mapping : Heap P.State → Bool × P.State
  mapping h = map_pages P initial_pages 0 h.pages

  abbrev started : Heap P.State → Heap P.State
  started h = record h {
    block = put h.block heap_start record { size = 65520; free = true; next = 0; prev = 0 };
    head = heap_start;
    end_ = heap_start + 65536;
    total = 65536;
    used = 0;
    is_ready = true;
    pages = (mapping h).1;
  }

  init-mapped : (h : Heap P.State) → (mapping h).0 ≡ true → init P h ≡ (true, started h)
  unfolding init
  init-mapped h mapped = rw mapped refl

  init-failed :
      (h : Heap P.State)
      → (mapping h).0 ≡ false
      → init P h ≡ (false, record h { pages = (mapping h).1 })
  unfolding init
  init-failed h failed = rw failed refl

  started-IsHeap : (h : Heap P.State) → IsHeap (started h) (first_cell ∷ [])
  unfolding IsLinked span given eights
  started-IsHeap h = record {
    ready = refl;
    head_eq = refl;
    linked = (record { size_eq = refl; free_eq = refl; next_eq = refl; prev_eq = refl }, tt);
    whole = refl;
    bound = omega arith;
    total_eq = refl;
    used_eq = refl;
    sizes = refl;
    not_empty = omega arith;
  }

  -- When the first 16 pages are mapped, `kheap_init` leaves a heap of one free block over all of them.
  pub init-IsReady :
      (h : Heap P.State)
      → P.IsSound h.pages
      → heap_start + 4096 * P.left h.pages < 2 ^ 32
      → (init P h).0 ≡ true
      → IsReady P (init P h).1 (first_cell ∷ [])
  init-IsReady h v room ok =
      let (sound, _, fewer) = map_pages_lem initial_pages 0 h.pages v (omega arith) in
      elim (Bool-cases (mapping h).0) [
        | inl mapped ↦
            subst (λ r. IsReady P r.1 (first_cell ∷ [])) (sym (init-mapped h mapped))
              record {
                heap = started-IsHeap h;
                sound = sound;
                room = omega (arith, fewer mapped, room);
              }
        | inr failed ↦
            let not_done : (init P h).0 ≡ false = ap (λ r. r.0) (init-failed h failed) in
            absurd (ground arith)
      ]
