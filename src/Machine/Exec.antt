-- ===== src/Machine/Exec.antt =====
-- kernel/exec.c: the programs that can be started by name.
use mars_os.Base.{
  ℕ, ◌+◌, ◌-◌, ◌^◌, Bool, false, List, [], ◌∷◌, length, get_elem?, Option, none, some, ◌==◌, leb,
  if◌then◌else◌,
}
use mars_os.Base.Text.{codes, copy_within, str_eq}
use mars_os.Allocator.{Allocator}
use mars_os.Machine.{Machine, Linked}
use mars_os.Machine.Spawn.{spawn_user, spawn_kernel}

pub data ExecMode : Type 0 where
  kernel user : ExecMode

pub record ProgramEntry : Type 0 where
  pub name : List ℕ
  pub mode : ExecMode
  pub entry : ℕ
  pub user_prog_id : ℕ

abbrev program : List ℕ → ExecMode → ℕ → ℕ → ProgramEntry
program name mode entry user_prog_id = record {
  name = name;
  mode = mode;
  entry = entry;
  user_prog_id = user_prog_id;
}

abbrev pub programs : Linked → List ProgramEntry
programs at =
    program (codes "counter") kernel at.app_counter 0
    ∷ program (codes "writer") kernel at.app_writer 0
    ∷ program (codes "hello_ping") user 0 0
    ∷ program (codes "helloapp") user 0 0
    ∷ program (codes "userprobe") user 0 1
    ∷ program (codes "uping") user 0 2
    ∷ []

unfoldable pub program_count : Linked → ℕ
program_count at = length (programs at)

pub program_name_at : Linked → ℕ → Option (List ℕ)
unfolding program_count
program_name_at at index =
    if leb (program_count at) index
    then none
    else (elim (get_elem? (programs at) index) [ none ↦ none | some p ↦ some p.name ])

-- The result, `none` for -1, and what is stored at a non-null `out`.
unfoldable pub name_copy_at : Linked → ℕ → ℕ → Option ℕ × Option (List ℕ)
unfolding program_name_at
name_copy_at at index out_size = elim (program_name_at at index) [
  | none ↦ (none, none)
  | some name ↦
      let t = copy_within (out_size - 1) name in
      if out_size == 0 then (some 0, none) else (some (length t), some t)
]

-- A null name is the name of no program.
abbrev pub has_name : ProgramEntry → Option (List ℕ) → Bool
has_name p none = false
has_name p (some name) = str_eq p.name name

-- A pid from 2³¹ on is negative as an `int`.
abbrev pub as_int : Option ℕ → Option ℕ
as_int none = none
as_int (some pid) = if leb (2 ^ 31) pid then none else some pid

module _ (alloc : Allocator) (at : Linked) where
  -- The program with index `i`, in its mode.
  pub spawn_in_mode : Machine alloc → ℕ → ProgramEntry → ExecMode → Option ℕ × Machine alloc
  spawn_in_mode m i p user = spawn_user alloc at m (some p.name) 0 p.user_prog_id
  spawn_in_mode m i p kernel = spawn_kernel alloc at m (some p.name) p.entry (i + 1)

  pub spawn_program : Machine alloc → ℕ → ProgramEntry → Option ℕ × Machine alloc
  unfolding spawn_in_mode
  spawn_program m i p = let r = spawn_in_mode m i p p.mode in (as_int r.0, r.1)

  pub spawn_loop :
      Machine alloc → Option (List ℕ) → ℕ → List ProgramEntry → Option ℕ × Machine alloc
  unfolding spawn_program
  spawn_loop m name i [] = (none, m)
  spawn_loop m name i (p ∷ ps) =
      let rest = spawn_loop m name (i + 1) ps in
      if has_name p name then spawn_program m i p else rest

  pub spawn : Machine alloc → Option (List ℕ) → Option ℕ × Machine alloc
  unfolding spawn_loop
  spawn m name = spawn_loop m name 0 (programs at)
