-- ===== src/Heap/Tests.antt =====
-- A heap of kernel/kheap.c over 40 pages.
use mars_os.Base.{
  ℕ, ◌+◌, ◌-◌, ◌*◌, ◌/◌, ◌≡◌, refl, true, false, [], ◌∷◌, ◌==◌, if◌then◌else◌, arith,
}
use mars_os.Heap.{
  Heap, PageSource, heap_start, init, map_pages, kmalloc, kfree, total_bytes, used_bytes, link_back,
  coalesce, merge_next, merge_prev, absorb,
}
use mars_os.Heap.Cells.{Cell, release, span, given, eights}
use mars_os.Heap.Chain.{IsLinked}
use mars_os.Heap.Valid.{IsHeap, kfree_lem}
use mars_os.Heap.Malloc.{Returns, kmalloc_lem}
use mars_os.Heap.Start.{first_cell, init-IsReady}

-- A source with a number of pages.
abbrev counted : PageSource
counted = record {
  State = ℕ;
  map_next = λ n virt. if n == 0 then (false, n) else (true, n - 1);
  left = λ n. n;
  IsSound = λ n. n ≡ n;
  sound = λ n virt v h. refl;
  not_more = λ n virt v. ground arith;
  fewer = λ n virt v ok. ground arith;
}

abbrev blank : Heap ℕ
blank = record {
  block = λ a. record { size = 0; free = false; next = 0; prev = 0 };
  head = 0;
  end_ = 0;
  total = 0;
  used = 0;
  is_ready = false;
  pages = 40;
}

init_done : (init counted blank).0 ≡ true
unfolding init map_pages
init_done = refl

kmalloc_lem_example :
    Returns counted
      (kmalloc counted (init counted blank).1 20)
      ((20 + 7) / 8 * 8)
      (init counted blank).1
      (first_cell ∷ [])
kmalloc_lem_example =
    kmalloc_lem counted (init counted blank).1 (first_cell ∷ []) 20
      (init-IsReady counted blank refl (omega arith) init_done) (omega arith) (omega arith)

-- 24 bytes are given away, the rest is free.
abbrev given_cell : Cell
given_cell = record { size = 24; free = false }

abbrev rest_cell : Cell
rest_cell = record { size = 65480; free = true }

abbrev in_use : Heap ℕ
in_use = record blank {
  block = λ a.
      if a == heap_start
      then record { size = 24; free = false; next = heap_start + 40; prev = 0 }
      else record { size = 65480; free = true; next = 0; prev = heap_start };
  head = heap_start;
  end_ = heap_start + 65536;
  total = 65536;
  used = 24;
  is_ready = true;
}

in_use-IsHeap : IsHeap in_use (given_cell ∷ rest_cell ∷ [])
unfolding IsLinked span given eights
in_use-IsHeap = record {
  ready = refl;
  head_eq = refl;
  linked = (
    record { size_eq = refl; free_eq = refl; next_eq = refl; prev_eq = refl },
    (record { size_eq = refl; free_eq = refl; next_eq = refl; prev_eq = refl }, tt),
  );
  whole = refl;
  bound = omega arith;
  total_eq = refl;
  used_eq = refl;
  sizes = refl;
  not_empty = omega arith;
}

kfree_lem_example :
    IsHeap (kfree in_use (heap_start + span [] + 16)) (release [] given_cell (rest_cell ∷ []))
kfree_lem_example = kfree_lem in_use [] given_cell (rest_cell ∷ []) in_use-IsHeap refl

counters :
    total_bytes (kfree in_use 0xD0000010)
      ∷ used_bytes (kfree in_use 0xD0000010)
      ∷ used_bytes (kfree in_use 0xD0000004)
      ∷ []
    ≡ 65536 ∷ 0 ∷ 24 ∷ []
unfolding total_bytes used_bytes kfree coalesce merge_next merge_prev absorb link_back
counters = refl
