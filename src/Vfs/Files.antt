-- ===== src/Vfs/Files.antt =====
-- The searches of the file table, and what filling a slot does to them.
use mars_os.Base.{
  ℕ, zero, suc, ◌+◌, ◌<◌, ◌≡◌, refl, true, false, none, some, List, [], ◌∷◌, arith, length, get_or,
  set, ◌≢◌, inl, inr, Option-cases,
}
use mars_os.Base.Text.{c_str, str_eq_iff}
use mars_os.Vfs.{VfsFile, find_file, find_free_slot, empty_file, count_used}

-- The slot holds a used file of this name.
abbrev pub Holds : VfsFile → List ℕ → Type 0
Holds f name = (f.used ≡ true) × (c_str f.name ≡ c_str name)

pub find_file-some :
    (fs : List VfsFile) (name : List ℕ) (i : ℕ)
    → find_file fs name ≡ some i
    → (i < length fs) × Holds (get_or fs i empty_file) name
unfolding find_file
find_file-some [] name i e = absurd (ground arith)
find_file-some (f ∷ fs) name zero e = elim (Option-cases (find_file fs name)) [
  | inl o ↦ ground (arith, str_eq_iff f.name name)
  | inr (j, o) ↦ ground (arith, str_eq_iff f.name name)
]
find_file-some (f ∷ fs) name (suc i) e = elim (Option-cases (find_file fs name)) [
  | inl o ↦ absurd (ground arith)
  | inr (j, o) ↦
      let same : j ≡ i = ground arith in
      let rest = find_file-some fs name i (ground arith) in (omega arith, rest.1)
]

-- Equal texts are found alike.
pub find_file_congr :
    (fs : List VfsFile) (n m : List ℕ) → c_str n ≡ c_str m → find_file fs n ≡ find_file fs m
unfolding find_file
find_file_congr [] n m e = refl
find_file_congr (f ∷ fs) n m e =
    ground (arith, find_file_congr fs n m e, str_eq_iff f.name n, str_eq_iff f.name m)

-- Filling the slot of a file does not move the files.
pub find_file-set_same :
    (fs : List VfsFile) (i : ℕ) (f' : VfsFile) (name : List ℕ)
    → f'.used ≡ (get_or fs i empty_file).used
    → f'.name ≡ (get_or fs i empty_file).name
    → find_file (set fs i f') name ≡ find_file fs name
unfolding find_file
find_file-set_same [] i f' name u n = refl
find_file-set_same (f ∷ fs) zero f' name u n = ground arith
find_file-set_same (f ∷ fs) (suc i) f' name u n =
    ground (arith, find_file-set_same fs i f' name u n)

pub find_free_slot-some :
    (fs : List VfsFile) (i : ℕ)
    → find_free_slot fs ≡ some i
    → (i < length fs) × ((get_or fs i empty_file).used ≡ false)
unfolding find_free_slot
find_free_slot-some [] i e = absurd (ground arith)
find_free_slot-some (f ∷ fs) zero e = elim (Option-cases (find_free_slot fs)) [
  | inl o ↦ ground arith
  | inr (j, o) ↦ ground arith
]
find_free_slot-some (f ∷ fs) (suc i) e = elim (Option-cases (find_free_slot fs)) [
  | inl o ↦ absurd (ground arith)
  | inr (j, o) ↦
      let same : j ≡ i = ground arith in
      let rest = find_free_slot-some fs i (ground arith) in (omega arith, rest.1)
]

-- A new file in a free slot is found under its name, if no file had that name.
pub find_file-set_new :
    (fs : List VfsFile) (i : ℕ) (f' : VfsFile) (name : List ℕ)
    → i < length fs
    → Holds f' name
    → find_file fs name ≡ none
    → find_file (set fs i f') name ≡ some i
unfolding find_file
find_file-set_new [] i f' name l h e = absurd (omega arith)
find_file-set_new (f ∷ fs) zero f' name l h e = ground (arith, str_eq_iff f'.name name)
find_file-set_new (f ∷ fs) (suc i) f' name l h e =
    ground (arith, find_file-set_new fs i f' name (omega arith) h)

-- The other names are found where they were.
pub find_file-set_other :
    (fs : List VfsFile) (i : ℕ) (f' : VfsFile) (name : List ℕ)
    → (get_or fs i empty_file).used ≡ false
    → c_str f'.name ≢ c_str name
    → find_file (set fs i f') name ≡ find_file fs name
unfolding find_file
find_file-set_other [] i f' name u n = refl
find_file-set_other (f ∷ fs) zero f' name u n = ground (arith, str_eq_iff f'.name name)
find_file-set_other (f ∷ fs) (suc i) f' name u n =
    ground (arith, find_file-set_other fs i f' name u n)

pub count_used-set_new :
    (fs : List VfsFile) (i : ℕ) (f' : VfsFile)
    → i < length fs
    → (get_or fs i empty_file).used ≡ false
    → f'.used ≡ true
    → count_used (set fs i f') ≡ count_used fs + 1
unfolding count_used
count_used-set_new [] i f' l u n = absurd (omega arith)
count_used-set_new (f ∷ fs) zero f' l u n = ground arith
count_used-set_new (f ∷ fs) (suc i) f' l u n =
    ground (arith, count_used-set_new fs i f' (omega arith) u n)

pub count_used-set_same :
    (fs : List VfsFile) (i : ℕ) (f' : VfsFile)
    → f'.used ≡ (get_or fs i empty_file).used
    → count_used (set fs i f') ≡ count_used fs
unfolding count_used
count_used-set_same [] i f' u = refl
count_used-set_same (f ∷ fs) zero f' u = ground arith
count_used-set_same (f ∷ fs) (suc i) f' u = ground (arith, count_used-set_same fs i f' u)

pub find_free_slot-none : (fs : List VfsFile) → find_free_slot fs ≡ none → count_used fs ≡ length fs
unfolding find_free_slot count_used
find_free_slot-none [] e = refl
find_free_slot-none (f ∷ fs) e = elim (Option-cases (find_free_slot fs)) [
  | inl o ↦ ground (arith, find_free_slot-none fs o)
  | inr (j, o) ↦ absurd (ground arith)
]
