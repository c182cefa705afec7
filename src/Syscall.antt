-- ===== src/Syscall.antt =====
-- kernel/syscall.c: the checks of the pointers that a process passes, and the copy of its strings.
-- The memory of the current directory is a function from addresses to bytes.
pub mod Copy
mod Tests
use mars_os.Base.{
  ℕ, zero, suc, ◌+◌, ◌-◌, ◌*◌, ◌/◌, ◌%◌, ◌^◌, ◌≤◌, ◌<◌, ◌≡◌, Bool, true, false, not, ◌&&◌, ◌||◌,
  List, [], ◌∷◌, Option, none, some, ◌==◌, leb, ltb, if◌then◌else◌,
}
use mars_os.Paging.{Space, translate, check_range, user_accessible}

-- paging_translate(page, &phys)
pub is_mapped_page : Space → ℕ → Bool
is_mapped_page s page = elim (translate s page) [ none ↦ false | some phys ↦ true ]

-- The walk is that of `paging_user_accessible` with another test; `none` where its rounds end.
unfoldable pub ptr_range_mapped : Space → ℕ → ℕ → Option Bool
unfolding is_mapped_page
ptr_range_mapped s ptr size =
    if ptr == 0 || size == 0 then some false else check_range (is_mapped_page s) ptr size

unfoldable pub ptr_range_ok : Space → ℕ → ℕ → Bool → Option Bool
unfolding ptr_range_mapped
ptr_range_ok s ptr size user_only = elim (ptr_range_mapped s ptr size) [
  | none ↦ none
  | some mapped ↦
      if not mapped then some false else if user_only then user_accessible s ptr size else some true
]

-- What a copy comes to: UINT32_MAX, or the bytes copied before the terminator.
pub data Copied : Type 0 where
  failed : Copied
  text : List ℕ → Copied

abbrev pub with_byte : ℕ → Option Copied → Option Copied
with_byte c none = none
with_byte c (some failed) = some failed
with_byte c (some (text t)) = some (text (c ∷ t))

-- The rounds from `src + i` on, with room for `room` bytes and the terminator; the byte after them
-- has to be the terminator. `none` where the walk of a check ends.
pub copy_loop : (ℕ → Option Bool) → (ℕ → ℕ) → ℕ → ℕ → Option Copied
copy_loop ok byte zero a = elim (ok a) [
  | none ↦ none
  | some false ↦ some failed
  | some true ↦ if byte a == 0 then some (text []) else some failed
]
copy_loop ok byte (suc room) a = elim (ok a) [
  | none ↦ none
  | some false ↦ some failed
  | some true ↦ elim (byte a == 0) [
    | true ↦ some (text [])
    | false ↦ with_byte (byte a) (copy_loop ok byte room ((a + 1) % 2 ^ 32))
  ]
]

-- For a `dst` that is not null.
pub copy_in_string : Space → (ℕ → ℕ) → ℕ → ℕ → Bool → Option Copied
unfolding copy_loop ptr_range_ok
copy_in_string s byte dst_size src user_only =
    if src == 0 || dst_size == 0
    then some failed
    else copy_loop (λ a. ptr_range_ok s a 1 user_only) byte (dst_size - 1) src
