-- ===== src/Heap/Valid.antt =====
-- The heap of kernel/kheap.c as a list of blocks: what holds of it, and that giving away and giving
-- back keep that.
use mars_os.Base.{
  ℕ, ◌+◌, ◌-◌, ◌%◌, ◌^◌, ◌≤◌, ◌<◌, ◌≡◌, refl, sym, ◌∙◌, ap, true, false, List, ◌∷◌, ◌++◌, ◌==◌, leb,
  ltb, arith,
}
use mars_os.Heap.{Heap, heap_start, header, kfree, coalesce, use_block, add32}
use mars_os.Heap.Cells.{
  Cell, span, given, eights, split, release, release-span, release-given, release-eights,
  given-append, given-split, given-le-span, span-around, given-around, span-append, span-split,
  eights-at, eights-split,
}
use mars_os.Heap.Chain.{IsLinked}
use mars_os.Heap.Split.{used_up, used_up-IsLinked, used_up-size}
use mars_os.Heap.Merge.{found, freed, coalesce-IsLinked, Released}

-- The heap has these blocks, one after the other from its start to its end, with their headers in
-- both directions; its counters are the bytes of all, and those that are given away.
pub record IsHeap {S : Type 0} (h : Heap S) (cs : List Cell) : Type 0 where
  pub ready : h.is_ready ≡ true
  pub head_eq : h.head ≡ heap_start
  pub linked : IsLinked h.end_ h.block 0 heap_start cs
  pub whole : heap_start + span cs ≡ h.end_
  pub bound : h.end_ < 2 ^ 32
  pub total_eq : h.total ≡ span cs
  pub used_eq : h.used ≡ given cs
  pub sizes : eights cs ≡ true
  pub not_empty : 0 < span cs

kfree-eq :
    {S : Type 0} (h : Heap S) (p size : ℕ)
    → h.is_ready ≡ true
    → heap_start ≤ p
    → p + 16 < h.end_
    → (h.block p).free ≡ false
    → (h.block p).size ≡ size
    → size ≤ h.used
    → kfree h (p + 16) ≡ record h { used = h.used - size; block = coalesce (freed h.block p) p }
unfolding kfree
kfree-eq h p size ready low high held s enough =
    let null : (p + 16 == 0) ≡ false = ground arith in
    let under : ltb (p + 16) (heap_start + header) ≡ false = ground arith in
    let over : leb h.end_ (p + 16) ≡ false = ground arith in
    let back : p + 16 - header ≡ p = omega arith in
    let covered : leb size h.used ≡ true = ground arith in
    rw ready (rw null (rw under (rw over (rw back (rw held (rw s (rw covered refl)))))))

-- `kfree` of the address of a block that is given away makes it free and joins it with the free
-- blocks next to it; all other blocks stay as they are, and the heap keeps its order.
pub kfree_lem :
    {S : Type 0} (h : Heap S) (xs : List Cell) (c : Cell) (ys : List Cell)
    → IsHeap h (xs ++ (c ∷ ys))
    → c.free ≡ false
    → IsHeap (kfree h (heap_start + span xs + 16)) (release xs c ys)
kfree_lem h xs c ys v held =
    let p = heap_start + span xs in
    let (_, some_, _) = eights-at xs c ys v.sizes in
    let (b, _) = found h.end_ h.block 0 heap_start xs c ys v.linked v.whole v.bound (omega arith) in
    let room : p + 16 + c.size ≤ h.end_ = omega (arith, span-around xs c ys, v.whole) in
    let less : c.size + given xs ≤ h.used = ground (arith, given-around xs c ys, v.used_eq) in
    rw
      (kfree-eq h p c.size v.ready (omega arith) (omega (arith, room, some_)) (b.free_eq ∙ held)
        b.size_eq (omega (arith, less)))
      record {
        ready = v.ready;
        head_eq = v.head_eq;
        linked =
            unfold Released in
            coalesce-IsLinked h.end_ h.block heap_start xs c ys v.linked v.whole v.bound
              (omega arith);
        whole = ap (λ n. heap_start + n) (release-span xs c ys) ∙ v.whole;
        bound = v.bound;
        total_eq = v.total_eq ∙ sym (release-span xs c ys);
        used_eq = omega (arith, release-given xs c ys held, v.used_eq);
        sizes = release-eights xs c ys v.sizes;
        not_empty = omega (arith, release-span xs c ys, v.not_empty);
      }

-- A block that is free and large enough is given away: it is cut to the size wanted.
pub use_block_lem :
    {S : Type 0} (h : Heap S) (want : ℕ) (xs : List Cell) (c : Cell) (ys : List Cell)
    → IsHeap h (xs ++ (c ∷ ys))
    → c.free ≡ true
    → want ≤ c.size
    → want % 8 ≡ 0
    → 0 < want
    → let (ptr, h') = use_block h (heap_start + span xs) want in
      (ptr ≡ heap_start + span xs + 16) × IsHeap h' (xs ++ (split want c ++ ys))
unfolding use_block
use_block_lem h want xs c ys v free fits multiple some_ =
    let p = heap_start + span xs in
    let st' = used_up h.block p want in
    let around = span-around xs c ys in
    let size : (st' p).size ≡ given (split want c) =
      used_up-size h.end_ h.block 0 heap_start want xs c ys v.linked v.whole v.bound (omega arith)
        fits
      ∙ sym (given-split want c) in
    let less : given (split want c) ≤ c.size = ground (arith, given-split want c) in
    let before : h.used ≡ given xs + given ys = ground (arith, v.used_eq, given-around xs c ys) in
    let after : given (xs ++ (split want c ++ ys)) ≡ h.used + given (split want c) =
      omega (arith, given-append xs (split want c ++ ys), given-append (split want c) ys, before) in
    let same : span (xs ++ (split want c ++ ys)) ≡ span (xs ++ (c ∷ ys)) = omega (
      arith,
      span-append xs (split want c ++ ys),
      span-append (split want c) ys,
      span-split want c fits,
      around,
    ) in
    let ptr : add32 p header ≡ p + 16 = omega (arith, v.whole, v.bound, around) in
    (
      ptr,
      record {
        ready = v.ready;
        head_eq = v.head_eq;
        linked =
            used_up-IsLinked h.end_ h.block 0 heap_start want xs c ys v.linked v.whole v.bound
              (omega arith) fits;
        whole = ap (λ n. heap_start + n) same ∙ v.whole;
        bound = v.bound;
        total_eq = v.total_eq ∙ sym same;
        used_eq = omega (
          arith,
          size,
          less,
          before,
          after,
          around,
          v.whole,
          v.bound,
          given-le-span xs,
          given-le-span ys,
        );
        sizes = eights-split xs want c ys v.sizes multiple some_;
        not_empty = omega (arith, same, v.not_empty);
      },
    )
