-- ===== src/Heap.antt =====
-- kernel/kheap.c: the kernel's heap, a doubly linked list of blocks that lie one after the other. A
-- block's header stands at its address; the headers are one function from addresses. The frames and
-- the directory are behind `PageSource`.
pub mod Cells
pub mod Chain
pub mod Split
pub mod Absorb
pub mod Merge
pub mod Walk
pub mod Grow
pub mod Valid
pub mod Pages
pub mod Malloc
pub mod Kernel
pub mod Start
mod Tests
use mars_os.Base.{
  ℕ, zero, suc, ◌+◌, ◌-◌, ◌*◌, ◌/◌, ◌%◌, ◌^◌, ◌≤◌, ◌<◌, ◌≡◌, Bool, true, false, not, ◌&&◌, ◌||◌,
  Option, none, some, ◌==◌, leb, ltb, if◌then◌else◌,
}

-- `pmm_alloc_frame` with `paging_map_page` under the address given, and what is left of both.
pub record PageSource : Type 1 where
  pub State : Type 0
  pub map_next : State → ℕ → Bool × State
  pub left : State → ℕ
  pub IsSound : State → Type 0
  pub sound : (s : State) (virt : ℕ) → IsSound s → virt < 2 ^ 32 → IsSound (map_next s virt).1
  pub not_more : (s : State) (virt : ℕ) → IsSound s → left (map_next s virt).1 ≤ left s
  pub fewer :
      (s : State) (virt : ℕ)
      → IsSound s
      → (map_next s virt).0 ≡ true
      → left (map_next s virt).1 < left s

pub record Block : Type 0 where
  pub size : ℕ
  pub free : Bool
  pub next : ℕ
  pub prev : ℕ

pub record Heap (S : Type 0) : Type 0 where
  pub block : ℕ → Block
  pub head : ℕ
  pub end_ : ℕ
  pub total : ℕ
  pub used : ℕ
  pub is_ready : Bool
  pub pages : S

abbrev pub heap_start : ℕ
heap_start = 0xD0000000

abbrev pub initial_pages : ℕ
initial_pages = 16

abbrev pub grow_pages : ℕ
grow_pages = 8

-- sizeof(heap_block_t)
abbrev pub header : ℕ
header = 16

abbrev pub add32 : ℕ → ℕ → ℕ
add32 a b = (a + b) % 2 ^ 32

-- For a below 2³².
abbrev pub sub32 : ℕ → ℕ → ℕ
sub32 a b = (a + 2 ^ 32 - b) % 2 ^ 32

-- `value + 7` without its three low bits.
pub align_up_8 : ℕ → ℕ
align_up_8 value = add32 value 7 / 8 * 8

abbrev pub put : (ℕ → Block) → ℕ → Block → ℕ → Block
put block p b = λ x. if x == p then b else block x

-- if (p != 0) p->prev = q;
pub link_back : (ℕ → Block) → ℕ → ℕ → ℕ → Block
link_back block p q = if not (p == 0) then put block p (record (block p) { prev = q }) else block

pub split_block : (ℕ → Block) → ℕ → ℕ → ℕ → Block
unfolding link_back
split_block block p size =
    if leb (block p).size (add32 (add32 size header) 8)
    then block
    else (let q = add32 (add32 p header) size in
        let made : Block = record {
          size = sub32 (sub32 (block p).size size) header;
          free = true;
          next = (block p).next;
          prev = p;
        } in
        let block₁ = put block q made in
        let block₂ = link_back block₁ (block₁ p).next q in
        put block₂ p (record (block₂ p) { next = q; size = size }))

-- Block `p` takes in block `n`, which is after it.
pub absorb : (ℕ → Block) → ℕ → ℕ → ℕ → Block
unfolding link_back
absorb block p n =
    let grown : Block = record (block p) {
      size = add32 (block p).size (add32 header (block n).size);
      next = (block n).next;
    } in
    link_back (put block p grown) (block n).next p

-- The first half of `heap_coalesce`: the block takes in the next one if that is free.
pub merge_next : (ℕ → Block) → ℕ → ℕ → Block
unfolding absorb
merge_next block p =
    let n = (block p).next in if not (n == 0) && (block n).free then absorb block p n else block

-- The second half: the previous block takes in the block if it is free.
pub merge_prev : (ℕ → Block) → ℕ → ℕ → Block
unfolding absorb
merge_prev block p =
    let r = (block p).prev in if not (r == 0) && (block r).free then absorb block r p else block

pub coalesce : (ℕ → Block) → ℕ → ℕ → Block
unfolding merge_next merge_prev
coalesce block p = merge_prev (merge_next block p) p

-- while (tail->next != 0); `none` where the rounds end.
pub tail_loop : ℕ → (ℕ → Block) → ℕ → Option ℕ
tail_loop zero block p = none
tail_loop (suc rounds) block p = elim ((block p).next == 0) [
  | true ↦ some p
  | false ↦ tail_loop rounds block (block p).next
]

-- The new page goes to the last block, or into a block of its own.
pub add_page : (ℕ → Block) → ℕ → ℕ → Block
add_page block tail =
    if (block tail).free
    then put block tail (record (block tail) { size = add32 (block tail).size 4096 })
    else (let q = add32 (add32 tail header) (block tail).size in
        let made : Block = record { size = 4096 - header; free = true; next = 0; prev = tail } in
        let block₁ = put block q made in put block₁ tail (record (block₁ tail) { next = q }))

-- The rounds of the walks: a block has 16 bytes at least.
abbrev pub rounds_for : ℕ → ℕ
rounds_for total = total / header + 1

-- The walk of `kmalloc`: the address of the first block that fits, 0 if none does.
pub first_fit : ℕ → (ℕ → Block) → ℕ → ℕ → Option ℕ
first_fit zero block p want = none
first_fit (suc rounds) block p want = elim (p == 0) [
  | true ↦ some 0
  | false ↦ elim ((block p).free && leb want (block p).size) [
    | true ↦ some p
    | false ↦ first_fit rounds block (block p).next want
  ]
]

-- A block that fits is given away.
pub use_block : {S : Type 0} → Heap S → ℕ → ℕ → ℕ × Heap S
unfolding split_block
use_block h p want =
    let block₁ = split_block h.block p want in
    let block₂ = put block₁ p (record (block₁ p) { free = false }) in
    (add32 p header, record h { block = block₂; used = add32 h.used (block₂ p).size })

module _ (P : PageSource) where
  -- `heap_map_more`
  pub map_more : ℕ → Heap P.State → Option (Bool × Heap P.State)
  unfolding tail_loop add_page
  map_more zero h = some (true, h)
  map_more (suc count) h =
      let (mapped, pages) = P.map_next h.pages h.end_ in
      elim mapped [
        | false ↦ some (false, record h { pages = pages })
        | true ↦
            let grown = record h {
              pages = pages;
              end_ = add32 h.end_ 4096;
              total = add32 h.total 4096;
            } in
            elim (tail_loop (rounds_for grown.total) h.block h.head) [
              | none ↦ none
              | some tail ↦ map_more count (record grown { block = add_page h.block tail })
            ]
      ]

  pub map_pages : ℕ → ℕ → P.State → Bool × P.State
  map_pages zero i pages = (true, pages)
  map_pages (suc count) i pages =
      let (mapped, pages') = P.map_next pages (heap_start + i * 4096) in
      elim mapped [ false ↦ (false, pages') | true ↦ map_pages count (i + 1) pages' ]

  pub init : Heap P.State → Bool × Heap P.State
  unfolding map_pages
  init h =
      let (mapped, pages) = map_pages initial_pages 0 h.pages in
      let first : Block = record {
        size = initial_pages * 4096 - header;
        free = true;
        next = 0;
        prev = 0;
      } in
      if not mapped then (false, record h { pages = pages }) else (
        true,
        record h {
          block = put h.block heap_start first;
          head = heap_start;
          end_ = heap_start + initial_pages * 4096;
          total = initial_pages * 4096;
          used = 0;
          is_ready = true;
          pages = pages;
        },
      )

  -- The outer loop of `kmalloc`.
  pub malloc_loop : ℕ → Heap P.State → ℕ → Option (ℕ × Heap P.State)
  unfolding first_fit use_block map_more
  malloc_loop zero h want = none
  malloc_loop (suc rounds) h want = elim (first_fit (rounds_for h.total) h.block h.head want) [
    | none ↦ none
    | some p ↦ elim (p == 0) [
      | false ↦ some (use_block h p want)
      | true ↦ elim (map_more grow_pages h) [
        | none ↦ none
        | some (more, h') ↦ elim more [ false ↦ some (0, h') | true ↦ malloc_loop rounds h' want ]
      ]
    ]
  ]

  pub kmalloc : Heap P.State → ℕ → Option (ℕ × Heap P.State)
  unfolding malloc_loop align_up_8
  kmalloc h size =
      if not h.is_ready || size == 0
      then some (0, h)
      else if ltb 0x7FFFFFFF size
      then some (0, h)
      else malloc_loop (P.left h.pages + 1) h (align_up_8 size)

pub kfree : {S : Type 0} → Heap S → ℕ → Heap S
unfolding coalesce
kfree h ptr =
    if not h.is_ready || ptr == 0
    then h
    else if ltb ptr (heap_start + header) || leb h.end_ ptr
    then h
    else (let p = ptr - header in
        if (h.block p).free then h else record h {
          used = if leb (h.block p).size h.used then h.used - (h.block p).size else 0;
          block = coalesce (put h.block p (record (h.block p) { free = true })) p;
        })

pub total_bytes : {S : Type 0} → Heap S → ℕ
total_bytes h = h.total

pub used_bytes : {S : Type 0} → Heap S → ℕ
used_bytes h = h.used
