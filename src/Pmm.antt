-- ===== src/Pmm.antt =====
-- kernel/pmm.c: physical frames of 4096 bytes, a bit for each, set while it is in use or not memory.
pub mod Bitmap
pub mod Valid
pub mod Alloc
pub mod Free
pub mod Boot
pub mod Tests
use mars_os.Base.{
  ℕ, zero, suc, ◌+◌, ◌-◌, ◌*◌, ◌/◌, ◌%◌, ◌^◌, Bool, true, false, not, ◌&&◌, ◌||◌, Option, none,
  some, List, [], ◌∷◌, ◌++◌, length, ◌==◌, leb, ltb, if◌then◌else◌,
}
use mars_os.Base.Bits.{not32}
use Prim.Native.Nat.{bit_and, bit_or}

abbrev pub page_size : ℕ
page_size = 4096

abbrev pub max_regions : ℕ
max_regions = 32

abbrev pub max_frames : ℕ
max_frames = 1048576

-- `region_start[i]` and `region_end[i]` of the regions in use.
pub record Region : Type 0 where
  pub start : ℕ
  pub end_ : ℕ

pub record Pmm : Type 0 where
  pub regions : List Region
  pub total : ℕ
  pub used : ℕ
  pub bitmap : ℕ → ℕ
  pub hint_frame : ℕ
  pub highest_end : ℕ
  pub initialized : Bool

unfoldable pub align_down_4k : ℕ → ℕ
align_down_4k value = bit_and value (not32 (page_size - 1))

unfoldable pub align_up_4k : ℕ → ℕ
unfolding align_down_4k
align_up_4k value = align_down_4k ((value + (page_size - 1)) % 2 ^ 32)

abbrev pub write_word : (ℕ → ℕ) → ℕ → ℕ → ℕ → ℕ
write_word bitmap w v i = if i == w then v else bitmap i

pub bit_is_set : Pmm → ℕ → Bool
bit_is_set p i = not (bit_and (p.bitmap (i / 2 ^ 5)) (2 ^ bit_and i 31) == 0)

pub set_bit : Pmm → ℕ → Pmm
set_bit p i =
    let w = i / 2 ^ 5 in
    record p { bitmap = write_word p.bitmap w (bit_or (p.bitmap w) (2 ^ bit_and i 31)) }

pub clear_bit : Pmm → ℕ → Pmm
clear_bit p i =
    let w = i / 2 ^ 5 in
    record p { bitmap = write_word p.bitmap w (bit_and (p.bitmap w) (not32 (2 ^ bit_and i 31))) }

in_some : List Region → ℕ → Bool
in_some [] frame = false
in_some (r ∷ rs) frame =
    let rest = in_some rs frame in if leb r.start frame && ltb frame r.end_ then true else rest

unfoldable pub frame_in_regions : Pmm → ℕ → Bool
unfolding in_some
frame_in_regions p frame = in_some p.regions frame

abbrev pub add32 : ℕ → ℕ → ℕ
add32 a b = (a + b) % 2 ^ 32

-- One round of `pmm_mark_region_usable`.
pub mark_frame : Pmm → ℕ → Pmm
unfolding bit_is_set clear_bit
mark_frame p i = if bit_is_set p i then record (clear_bit p i) { total = add32 p.total 1 } else p

-- while (frame < limit), on fuel: a frame for each round, so `max_frames` rounds are enough.
pub mark_loop : ℕ → Pmm → ℕ → ℕ → Pmm
unfolding mark_frame
mark_loop zero p frame limit = p
mark_loop (suc fuel) p frame limit = elim (ltb frame limit) [
  | false ↦ p
  | true ↦ elim (leb max_frames (frame / page_size)) [
    | true ↦ p
    | false ↦ mark_loop fuel (mark_frame p (frame / page_size)) (add32 frame page_size) limit
  ]
]

pub mark_region_usable : Pmm → ℕ → ℕ → Pmm
mark_region_usable p start end_ = mark_loop max_frames p (align_up_4k start) (align_down_4k end_)

-- One round of `pmm_reserve_range`.
pub reserve_frame : Pmm → ℕ → ℕ → Pmm
unfolding frame_in_regions bit_is_set set_bit
reserve_frame p frame i =
    if frame_in_regions p frame && not (bit_is_set p i)
    then record (set_bit p i) { used = add32 p.used 1 }
    else p

pub reserve_loop : ℕ → Pmm → ℕ → ℕ → Pmm
unfolding reserve_frame
reserve_loop zero p frame limit = p
reserve_loop (suc fuel) p frame limit = elim (ltb frame limit) [
  | false ↦ p
  | true ↦ elim (leb max_frames (frame / page_size)) [
    | true ↦ p
    | false ↦
        reserve_loop fuel (reserve_frame p frame (frame / page_size)) (add32 frame page_size) limit
  ]
]

pub reserve_range : Pmm → ℕ → ℕ → Pmm
reserve_range p start end_ =
    let lo = align_down_4k start in
    let hi = align_up_4k end_ in if leb hi lo then p else reserve_loop max_frames p lo hi

-- The scan of `pmm_alloc_frame`: the index of the first free frame of a region, from `i` round.
pub next_index : ℕ → ℕ
next_index i = if leb max_frames (i + 1) then 0 else i + 1

pub is_free : Pmm → ℕ → Bool
unfolding frame_in_regions bit_is_set
is_free p i = not (bit_is_set p i) && frame_in_regions p (i * page_size % 2 ^ 32)

pub scan : ℕ → Pmm → ℕ → Option ℕ
unfolding is_free next_index
scan zero p i = none
scan (suc left) p i = elim (is_free p i) [ true ↦ some i | false ↦ scan left p (next_index i) ]

pub take_frame : Pmm → ℕ → Pmm
unfolding set_bit
take_frame p i = record (set_bit p i) { hint_frame = (i + 1) % max_frames; used = add32 p.used 1 }

-- The frame's address, 0 for none.
pub alloc_frame : Pmm → ℕ × Pmm
alloc_frame p =
    if not p.initialized
    then (0, p)
    else if leb p.total p.used
    then (0, p)
    else (elim (scan max_frames p p.hint_frame) [
      | none ↦ (0, p)
      | some i ↦ (i * page_size % 2 ^ 32, take_frame p i)
    ])

pub give_frame : Pmm → ℕ → Pmm
unfolding clear_bit
give_frame p i = record (clear_bit p i) {
  hint_frame = if ltb i p.hint_frame then i else p.hint_frame;
  used = if ltb 0 p.used then p.used - 1 else p.used;
}

pub free_frame : Pmm → ℕ → Bool × Pmm
free_frame p frame =
    let addr = align_down_4k frame in
    let i = addr / page_size in
    if not p.initialized
    then (false, p)
    else if not (bit_and frame (page_size - 1) == 0)
    then (false, p)
    else if leb max_frames i
    then (false, p)
    else if not (frame_in_regions p addr)
    then (false, p)
    else if not (bit_is_set p i)
    then (false, p)
    else (true, give_frame p i)

pub total_frames : Pmm → ℕ
total_frames p = if p.initialized then p.total else 0

pub used_frames : Pmm → ℕ
used_frames p = if p.initialized then p.used else 0

pub free_frames : Pmm → ℕ
free_frames p = if not p.initialized || leb p.total p.used then 0 else p.total - p.used

unfoldable pub highest_address : Pmm → ℕ
highest_address p = if p.initialized then p.highest_end else 0
