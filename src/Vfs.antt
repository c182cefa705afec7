-- ===== src/Vfs.antt =====
-- kernel/vfs.c: a table of named files in memory. `text` stands for the bytes of the buffer that
-- `data` points to, up to the terminator. A nullable string argument is an `Option`.
pub mod Files
pub mod Store
pub mod Tests
use mars_os.Base.{
  ℕ, suc, ◌+◌, ◌-◌, ◌%◌, ◌^◌, Bool, true, false, not, ◌&&◌, ◌||◌, Option, none, some, List, [], ◌∷◌,
  length, get_or, set, take, replicate, ◌==◌, ltb, if◌then◌else◌,
}
use mars_os.Base.Text.{str_len, str_eq, str_copy, copy_within, codes}
use mars_os.Allocator.{Allocator}
use mathlib.Core.Option

pub record VfsFile : Type 0 where
  pub name : List ℕ
  pub data_ptr : ℕ
  pub text : List ℕ
  pub len : ℕ
  pub used : Bool

pub record Vfs : Type 0 where
  pub files : List VfsFile
  pub ready : Bool

abbrev pub vfs_max_files : ℕ
vfs_max_files = 64

abbrev pub vfs_name_max : ℕ
vfs_name_max = 32

abbrev pub empty_file : VfsFile
empty_file = record { name = []; data_ptr = 0; text = []; len = 0; used = false }

-- `name[0] == '\0'`
starts_empty : List ℕ → Bool
starts_empty [] = true
starts_empty (c ∷ s) = c == 0

pub name_valid : Option (List ℕ) → Bool
unfolding starts_empty
name_valid none = false
name_valid (some name) = if starts_empty name then false else ltb (str_len name) vfs_name_max

-- The index of the first used file of that name.
pub find_file : List VfsFile → List ℕ → Option ℕ
find_file [] name = none
find_file (f ∷ fs) name =
    let rest = Option.map suc (find_file fs name) in
    if f.used && str_eq f.name name then some 0 else rest

pub find_free_slot : List VfsFile → Option ℕ
find_free_slot [] = none
find_free_slot (f ∷ fs) =
    let rest = Option.map suc (find_free_slot fs) in if not f.used then some 0 else rest

-- The loop that copies `len` bytes, and the terminator behind them.
copy_bytes : ℕ → List ℕ → List ℕ
copy_bytes n src = take n src

module _ (alloc : Allocator) where
  open alloc use {Heap, kmalloc, kfree}

  -- The file takes the new buffer.
  fill_slot : Vfs → ℕ → VfsFile → ℕ → List ℕ → ℕ → Vfs
  fill_slot v idx f buf text len = record v {
    files = set v.files idx (record f { data_ptr = buf; text = text; len = len });
  }

  write_new : Vfs → Heap → List ℕ → ℕ → List ℕ → ℕ → Bool × Vfs × Heap
  unfolding fill_slot
  write_new v heap name buf text len = elim (find_free_slot v.files) [
    | none ↦ (false, v, kfree heap buf)
    | some idx ↦
        let f = get_or v.files idx empty_file in
        let named = record f { used = true; name = str_copy f.name name vfs_name_max } in
        (true, fill_slot v idx named buf text len, heap)
  ]

  write_old : Vfs → Heap → ℕ → ℕ → List ℕ → ℕ → Bool × Vfs × Heap
  unfolding fill_slot
  write_old v heap idx buf text len =
      let f = get_or v.files idx empty_file in
      let heap' = if f.data_ptr == 0 then heap else kfree heap f.data_ptr in
      (true, fill_slot v idx f buf text len, heap')

  write_buffer : Vfs → Heap → List ℕ → ℕ → List ℕ → ℕ → Bool × Vfs × Heap
  unfolding write_new write_old
  write_buffer v heap name buf text len =
      if buf == 0 then (false, v, heap) else (elim (find_file v.files name) [
        | none ↦ write_new v heap name buf text len
        | some idx ↦ write_old v heap idx buf text len
      ])

  -- The result, the table and the heap after the call.
  pub write_file : Vfs → Heap → Option (List ℕ) → Option (List ℕ) → Bool × Vfs × Heap
  unfolding write_buffer copy_bytes
  write_file v heap name none = (false, v, heap)
  write_file v heap none (some bytes) = (false, v, heap)
  write_file v heap (some name) (some bytes) =
      if not v.ready || not (name_valid (some name))
      then (false, v, heap)
      else (let len = str_len bytes in
          let (buf, heap') = kmalloc heap ((len + 1) % 2 ^ 32) in
          write_buffer v heap' name buf (copy_bytes len bytes) len)

  abbrev reset : Vfs
  reset = record { files = replicate vfs_max_files empty_file; ready = true }

  -- `app` is the generated `app_hello_ping_marshex`. Each write that fails ends the call.
  pub init : Heap → List ℕ → Bool × Vfs × Heap
  unfolding write_file
  init heap app =
      let (ok, v, h) =
        write_file reset heap (some (codes "welcome.txt"))
          (some (codes "Welcome to Mars OS ramfs.")) in
      let (ok', v', h') = write_file v h (some (codes "app.hello_ping")) (some app) in
      let (ok'', v'', h'') = write_file v' h' (some (codes "app.helloapp")) (some app) in
      if not ok then (false, v, h) else if not ok' then (false, v', h') else (ok'', v'', h'')

-- The buffer's text, or `none` for the null pointer.
pub read_file : Vfs → Option (List ℕ) → Option (List ℕ)
read_file v none = none
read_file v (some name) =
    if not v.ready || not (name_valid (some name)) then none else (elim (find_file v.files name) [
      | none ↦ none
      | some idx ↦
          let f = get_or v.files idx empty_file in if f.data_ptr == 0 then none else some f.text
    ])

-- The result, `none` for -1, and what `out` holds.
unfoldable pub read_file_into :
    Vfs → Option (List ℕ) → Option (List ℕ) → ℕ → Option ℕ × Option (List ℕ)
read_file_into v name none out_size = (none, none)
read_file_into v none (some out) out_size = (none, some out)
read_file_into v (some name) (some out) out_size =
    if not v.ready || not (name_valid (some name)) || out_size == 0
    then (none, some out)
    else (elim (find_file v.files name) [
      | none ↦ (none, some out)
      | some idx ↦
          let f = get_or v.files idx empty_file in
          let copied = copy_within (out_size - 1) f.text in
          if f.data_ptr == 0 then (some 0, some []) else (some (length copied), some copied)
    ])

pub count_used : List VfsFile → ℕ
count_used [] = 0
count_used (f ∷ fs) = (if f.used then 1 else 0) + count_used fs

pub file_count : Vfs → ℕ
unfolding count_used
file_count v = if v.ready then count_used v.files else 0

-- The loop's `seen` against `index`, counted down.
name_at : List VfsFile → ℕ → Option (List ℕ)
name_at [] index = none
name_at (f ∷ fs) index =
    let rest = name_at fs (if f.used then index - 1 else index) in
    if f.used && index == 0 then some f.name else rest

pub file_name_at : Vfs → ℕ → Option (List ℕ)
unfolding name_at
file_name_at v index = if v.ready then name_at v.files index else none
