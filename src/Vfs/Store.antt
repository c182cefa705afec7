-- ===== src/Vfs/Store.antt =====
-- The file table as a store from names to texts.
use mars_os.Base.{
  ℕ, suc, ◌+◌, ◌%◌, ◌^◌, ◌≡◌, refl, Bool, true, false, not, ◌&&◌, ◌||◌, Option, none, some, List,
  [], ◌∷◌, arith, length, take, get_or, set, get_or-set_self, get_or-set_ne, ◌==◌, if◌then◌else◌,
  ◌≢◌, ◌⊎◌, inl, inr, Bool-cases, Option-cases,
}
use mars_os.Base.Text.{
  c_str, str_eq, str_eq_iff, str_len, str_len-length, str_copy, str_copy-take, copy_within-take,
  take_all, c_str-take,
}
use mars_os.Allocator.{Allocator}
use mars_os.Vfs.{
  VfsFile, Vfs, find_file, find_free_slot, empty_file, name_valid, starts_empty, copy_bytes,
  write_file, fill_slot, write_new, write_old, write_buffer, read_file, read_file_into, file_count,
  vfs_name_max,
}
use mars_os.Vfs.Files.{
  Holds, find_file-some, find_file_congr, find_file-set_same, find_free_slot-some,
  find_file-set_new, find_file-set_other, count_used-set_new, count_used-set_same,
}

-- A name that the calls accept.
abbrev pub IsName : List ℕ → Type 0
IsName name = name_valid (some name) ≡ true

-- What a file holds: its text, for a used slot that holds a buffer.
abbrev pub stored : List VfsFile → List ℕ → Option VfsFile
stored fs name = elim (find_file fs name) [ none ↦ none | some i ↦ some (get_or fs i empty_file) ]

-- Filling the slot of a file, under its name.
stored-set_old :
    (fs : List VfsFile) (i : ℕ) (f' : VfsFile) (name other : List ℕ)
    → find_file fs name ≡ some i
    → f'.used ≡ (get_or fs i empty_file).used
    → f'.name ≡ (get_or fs i empty_file).name
    → stored (set fs i f') other ≡ (if str_eq name other then some f' else stored fs other)
stored-set_old fs i f' name other e u n = elim (Bool-cases (str_eq name other)) [
  | inl same ↦ ground (
    arith,
    find_file-set_same fs i f' other u n,
    find_file-some fs name i e,
    find_file_congr fs name other ((str_eq_iff name other).0 same),
    get_or-set_self fs i f' empty_file,
  )
  | inr differ ↦ elim (Option-cases (find_file fs other)) [
    | inl o ↦ ground (arith, find_file-set_same fs i f' other u n)
    | inr (j, o) ↦ ground (
      arith,
      find_file-set_same fs i f' other u n,
      find_file-some fs name i e,
      find_file-some fs other j o,
      str_eq_iff name other,
      get_or-set_ne fs i j f' empty_file,
    )
  ]
]

-- Filling a free slot, under a name that no file had.
stored-set_new :
    (fs : List VfsFile) (i : ℕ) (f' : VfsFile) (name other : List ℕ)
    → find_file fs name ≡ none
    → find_free_slot fs ≡ some i
    → Holds f' name
    → stored (set fs i f') other ≡ (if str_eq name other then some f' else stored fs other)
stored-set_new fs i f' name other e free h = elim (Bool-cases (str_eq name other)) [
  | inl same ↦ ground (
    arith,
    find_free_slot-some fs i free,
    find_file-set_new fs i f' other,
    str_eq_iff name other,
    find_file_congr fs name other ((str_eq_iff name other).0 same),
    get_or-set_self fs i f' empty_file,
  )
  | inr differ ↦ elim (Option-cases (find_file fs other)) [
    | inl o ↦ ground (
      arith,
      find_file-set_other fs i f' other,
      find_free_slot-some fs i free,
      str_eq_iff name other,
    )
    | inr (j, o) ↦ ground (
      arith,
      find_file-set_other fs i f' other,
      find_free_slot-some fs i free,
      str_eq_iff name other,
      find_file-some fs other j o,
      get_or-set_ne fs i j f' empty_file,
    )
  ]
]

take_len : (s : List ℕ) → take (length (c_str s)) s ≡ c_str s
unfolding c_str
take_len [] = refl
take_len (c ∷ s) = ground (arith, take_len s)

-- A valid name fits in the field, so the file is found under it.
copied_name : (old name : List ℕ) → IsName name → c_str (str_copy old name 32) ≡ c_str name
unfolding name_valid
copied_name old name h = ground (
  arith,
  str_copy-take old name 31,
  str_len-length name,
  take_all 31 (c_str name),
  c_str-take 31 name,
)

c_str-starts_empty : (n m : List ℕ) → c_str n ≡ c_str m → starts_empty n ≡ starts_empty m
unfolding c_str starts_empty
c_str-starts_empty [] [] e = refl
c_str-starts_empty [] (d ∷ m) e = ground arith
c_str-starts_empty (c ∷ n) [] e = ground arith
c_str-starts_empty (c ∷ n) (d ∷ m) e = ground arith

name_valid_congr : (n m : List ℕ) → c_str n ≡ c_str m → name_valid (some n) ≡ name_valid (some m)
unfolding name_valid
name_valid_congr n m e =
    ground (arith, c_str-starts_empty n m e, str_len-length n, str_len-length m)

abbrev is_some : {A : Type 0} → Option A → Bool
is_some none = false
is_some (some a) = true

-- A read, in terms of the file found.
read_file-stored :
    (v : Vfs) (name : List ℕ)
    → read_file v (some name) ≡ (
        if v.ready && name_valid (some name)
        then (elim (stored v.files name) [
          | none ↦ none
          | some f ↦ if f.data_ptr == 0 then none else some f.text
        ])
        else none)
unfolding read_file
read_file-stored v name = elim (Option-cases (find_file v.files name)) [
  | inl e ↦ ground (arith, e)
  | inr (i, e) ↦ ground (arith, e)
]

-- A bounded read stores and counts as much of what a read gives as fits beside the terminator.
pub read_file_into-read_file :
    (v : Vfs) (name out : List ℕ) (size : ℕ) (text : List ℕ)
    → read_file v (some name) ≡ some text
    → read_file_into v (some name) (some out) (suc size)
      ≡ (some (length (take size (c_str text))), some (take size (c_str text)))
unfolding read_file read_file_into
read_file_into-read_file v name out size text h = elim (Option-cases (find_file v.files name)) [
  | inl e ↦ absurd (ground (arith, e))
  | inr (i, e) ↦ ground (arith, e, copy_within-take size text)
]

module _ (alloc : Allocator) (v : Vfs) (heap : alloc.Heap) (name bytes : List ℕ) where
  -- The address of the buffer that the call asks for.
  abbrev buffer : ℕ
  buffer = (alloc.kmalloc heap ((str_len bytes + 1) % 2 ^ 32)).0

  abbrev pub written : Bool × Vfs × alloc.Heap
  written = write_file alloc v heap (some name) (some bytes)

  -- The call succeeds exactly if the table is ready, the name valid, the buffer there, and the
  -- file or a free slot is found.
  write-succeeds : written.0 ≡ (
      v.ready
      && name_valid (some name)
      && not (buffer == 0)
      && (is_some (find_file v.files name) || is_some (find_free_slot v.files)))
  unfolding write_file write_buffer write_new write_old
  write-succeeds = elim (Option-cases (find_file v.files name)) [
    | inl e ↦ elim (Option-cases (find_free_slot v.files)) [
      | inl o ↦ ground (arith, e, o)
      | inr (i, o) ↦ ground (arith, e, o)
    ]
    | inr (i, e) ↦ ground (arith, e)
  ]

  -- A call that fails leaves the table as it was.
  pub write-fails : written.0 ≡ false → written.1 ≡ v
  unfolding write_file write_buffer write_new write_old
  write-fails h = elim (Option-cases (find_file v.files name)) [
    | inl e ↦ elim (Option-cases (find_free_slot v.files)) [
      | inl o ↦ ground (arith, e, o)
      | inr (i, o) ↦ ground (arith, e, o)
    ]
    | inr (i, e) ↦ ground (arith, e)
  ]

  -- A write that succeeds fills one slot: it had the file, or was free and the name is new.
  record Filled : Type 0 where
    slot : ℕ
    file : VfsFile
    files_eq : written.1 ≡ record v { files = set v.files slot file }
    text_eq : file.text ≡ c_str bytes
    len_eq : file.len ≡ length (c_str bytes)
    buffer_eq : file.data_ptr ≡ buffer
    buffer_ne : buffer ≢ 0
    ready_eq : v.ready ≡ true
    name_ok : IsName name
    old_or_new :
        ((find_file v.files name ≡ some slot)
          × (file.used ≡ (get_or v.files slot empty_file).used)
          × (file.name ≡ (get_or v.files slot empty_file).name))
        ⊎ ((find_file v.files name ≡ none) × (find_free_slot v.files ≡ some slot) × Holds file name)

  write-Filled : written.0 ≡ true → Filled
  unfolding write_file write_buffer write_new write_old fill_slot copy_bytes
  write-Filled h = elim (Option-cases (find_file v.files name)) [
    | inl e ↦ elim (Option-cases (find_free_slot v.files)) [
      | inl o ↦ absurd (ground (arith, write-succeeds, e, o))
      | inr (i, o) ↦ record {
        slot = i;
        file = record (get_or v.files i empty_file) {
          name = str_copy (get_or v.files i empty_file).name name vfs_name_max;
          data_ptr = buffer;
          text = take (str_len bytes) bytes;
          len = str_len bytes;
          used = true;
        };
        files_eq = ground (arith, e, o);
        text_eq = ground (arith, take_len bytes, str_len-length bytes);
        len_eq = str_len-length bytes;
        buffer_eq = refl;
        buffer_ne = ground (arith, write-succeeds);
        ready_eq = ground (arith, write-succeeds);
        name_ok = ground (arith, write-succeeds);
        old_or_new = inr (e, o, (refl, copied_name _ name (ground (arith, write-succeeds))));
      }
    ]
    | inr (i, e) ↦ record {
      slot = i;
      file = record (get_or v.files i empty_file) {
        data_ptr = buffer;
        text = take (str_len bytes) bytes;
        len = str_len bytes;
      };
      files_eq = ground (arith, e);
      text_eq = ground (arith, take_len bytes, str_len-length bytes);
      len_eq = str_len-length bytes;
      buffer_eq = refl;
      buffer_ne = ground (arith, write-succeeds);
      ready_eq = ground (arith, write-succeeds);
      name_ok = ground (arith, write-succeeds);
      old_or_new = inl (e, refl, refl);
    }
  ]

  stored-write :
      (w : Filled) (other : List ℕ)
      → stored written.1.files other
        ≡ (if str_eq name other then some w.file else stored v.files other)
  stored-write w other = elim w.old_or_new [
    | inl (e, u, n) ↦ rw w.files_eq (stored-set_old v.files w.slot w.file name other e u n)
    | inr (e, o, n) ↦ rw w.files_eq (stored-set_new v.files w.slot w.file name other e o n)
  ]

  -- After a write that succeeds, a read of the name, in whatever buffer it stands, gives the text
  -- written, and a read of any other name what it gave before.
  pub read-write :
      (other : List ℕ)
      → written.0 ≡ true
      → read_file written.1 (some other)
        ≡ (if str_eq name other then some (c_str bytes) else read_file v (some other))
  read-write other h =
      let w = write-Filled h in
      ground (
        arith,
        stored-write w other,
        w.files_eq,
        w.text_eq,
        w.buffer_eq,
        w.buffer_ne,
        w.ready_eq,
        w.name_ok,
        str_eq_iff name other,
        name_valid_congr name other,
        read_file-stored written.1 other,
        read_file-stored v other,
      )

  -- A write that succeeds adds one to the number of files if the name was new, and otherwise keeps it.
  pub file_count-write :
      written.0 ≡ true
      → file_count written.1 ≡ file_count v + (if is_some (find_file v.files name) then 0 else 1)
  unfolding file_count
  file_count-write h =
      let w = write-Filled h in
      elim w.old_or_new [
        | inl (e, u, n) ↦
            ground (arith, w.files_eq, w.ready_eq, e, count_used-set_same v.files w.slot w.file u)
        | inr (e, o, n) ↦ ground (
          arith,
          w.files_eq,
          w.ready_eq,
          e,
          find_free_slot-some v.files w.slot o,
          count_used-set_new v.files w.slot w.file,
        )
      ]
