-- ===== src/Process.antt =====
-- The process table of kernel/process.c, its identifiers and its queries, with the masks and the
-- `process_info_t` of kernel/process.h. The scheduler's current task and the kernel's page directory
-- are arguments of the calls that ask for them.
pub mod Table
pub mod Pids
pub mod Free
pub mod Tests
use mars_os.Base.{
  ℕ, zero, suc, ◌+◌, ◌-◌, ◌*◌, ◌/◌, ◌%◌, ◌^◌, Bool, true, false, not, ◌&&◌, ◌||◌, List, [], ◌∷◌,
  ◌++◌, length, Option, none, some, ◌==◌, leb, ltb, if◌then◌else◌, replicate,
}
use mars_os.Base.Text.{codes}
use Prim.Native.Nat.{bit_and}

pub record Process : Type 0 where
  pub pid : ℕ
  pub tid : ℕ
  pub cr3 : ℕ
  pub user_code_frame : ℕ
  pub user_stack_frame : ℕ
  pub user_entry : ℕ
  pub syscall_mask_low : ℕ
  pub is_kernel : Bool
  pub active : Bool
  pub name : List ℕ

pub record Processes : Type 0 where
  pub table : List Process
  pub next_pid : ℕ
  pub ready : Bool

abbrev pub process_max : ℕ
process_max = 32

abbrev pub no_process : Process
no_process = record {
  pid = 0;
  tid = 0;
  cr3 = 0;
  user_code_frame = 0;
  user_stack_frame = 0;
  user_entry = 0;
  syscall_mask_low = 0;
  is_kernel = false;
  active = false;
  name = [];
}

abbrev pub syscall_mask_kernel : ℕ
syscall_mask_kernel = 0xFFFFFFFF

pub process_init : ℕ → Processes
process_init kernel_directory = record {
  table =
      record no_process {
        pid = 1;
        cr3 = kernel_directory;
        syscall_mask_low = syscall_mask_kernel;
        is_kernel = true;
        active = true;
        name = codes "kernel";
      }
      ∷ replicate (process_max - 1) no_process;
  next_pid = 2;
  ready = true;
}

-- The index of the first inactive entry, counted from `i`.
find_free_slot : ℕ → List Process → Option ℕ
find_free_slot i [] = none
find_free_slot i (p ∷ ps) =
    let rest = find_free_slot (i + 1) ps in if not p.active then some i else rest

pub process_find_free_slot : Processes → Option ℕ
unfolding find_free_slot
process_find_free_slot s = find_free_slot 0 s.table

pub pid_in_use : List Process → ℕ → Bool
pid_in_use [] pid = false
pid_in_use (p ∷ ps) pid =
    let rest = pid_in_use ps pid in if p.active && p.pid == pid then true else rest

abbrev pub at_least_two : ℕ → ℕ
at_least_two pid = if ltb pid 2 then 2 else pid

-- The tries left; a pid is a 32-bit word, and the next one is at least 2.
pub alloc_pid_loop : ℕ → List Process → ℕ → ℕ × ℕ
alloc_pid_loop zero table next_pid = (2, next_pid)
alloc_pid_loop (suc left) table next_pid =
    let pid = at_least_two next_pid in
    let next = at_least_two ((pid + 1) % 2 ^ 32) in
    let later = alloc_pid_loop left table next in
    if not (pid_in_use table pid) then (pid, next) else later

pub process_alloc_pid : Processes → ℕ × Processes
unfolding alloc_pid_loop
process_alloc_pid s =
    let (pid, next) = alloc_pid_loop (process_max + 1) s.table s.next_pid in
    (pid, record s { next_pid = next })

unfoldable pub find_by_tid : List Process → ℕ → Option Process
find_by_tid [] tid = none
find_by_tid (p ∷ ps) tid =
    let rest = find_by_tid ps tid in if p.active && p.tid == tid then some p else rest

count_active : List Process → ℕ
count_active [] = 0
count_active (p ∷ ps) = let rest = count_active ps in if p.active then rest + 1 else rest

pub process_count : Processes → ℕ
unfolding count_active
process_count s = if not s.ready then 0 else count_active s.table

unfoldable pub process_current_pid : Processes → ℕ → ℕ
unfolding find_by_tid
process_current_pid s tid =
    if not s.ready then 0 else (elim (find_by_tid s.table tid) [ none ↦ 0 | some p ↦ p.pid ])

-- The active entry with `index - seen` active ones before it.
active_at : ℕ → ℕ → List Process → Option Process
active_at seen index [] = none
active_at seen index (p ∷ ps) =
    let next = active_at (seen + 1) index ps in
    let same = active_at seen index ps in
    if p.active then (if seen == index then some p else next) else same

pub process_pid_at : Processes → ℕ → Option (ℕ × List ℕ)
unfolding active_at
process_pid_at s index =
    if not s.ready
    then none
    else (elim (active_at 0 index s.table) [ none ↦ none | some p ↦ some (p.pid, p.name) ])

pub record ProcessInfo : Type 0 where
  pub pid : ℕ
  pub tid : ℕ
  pub cr3 : ℕ
  pub user_code_frame : ℕ
  pub user_stack_frame : ℕ
  pub user_entry : ℕ
  pub syscall_mask_low : ℕ
  pub is_kernel : Bool

pub info_of : Process → ProcessInfo
info_of p = record {
  pid = p.pid;
  tid = p.tid;
  cr3 = p.cr3;
  user_code_frame = p.user_code_frame;
  user_stack_frame = p.user_stack_frame;
  user_entry = p.user_entry;
  syscall_mask_low = p.syscall_mask_low;
  is_kernel = p.is_kernel;
}

pub process_info_at : Processes → ℕ → Option ProcessInfo
unfolding active_at
process_info_at s index =
    if not s.ready
    then none
    else (elim (active_at 0 index s.table) [ none ↦ none | some p ↦ some (info_of p) ])

unfoldable pub process_syscall_allowed : Processes → ℕ → ℕ → Bool
unfolding find_by_tid
process_syscall_allowed s tid syscall_no =
    if not s.ready || leb 32 syscall_no then false else (elim (find_by_tid s.table tid) [
      | none ↦ false
      | some p ↦ not (bit_and p.syscall_mask_low (2 ^ syscall_no) == 0)
    ])

unfoldable pub process_current_is_kernel : Processes → ℕ → Bool
unfolding find_by_tid
process_current_is_kernel s tid =
    if not s.ready
    then true
    else (elim (find_by_tid s.table tid) [ none ↦ true | some p ↦ p.is_kernel ])

-- The directory that the processor is switched to.
pub process_activate_tid : Processes → ℕ → ℕ → ℕ
unfolding find_by_tid
process_activate_tid s kernel_directory tid = elim (find_by_tid s.table tid) [
  | none ↦ kernel_directory
  | some p ↦ if p.cr3 == 0 then kernel_directory else p.cr3
]
