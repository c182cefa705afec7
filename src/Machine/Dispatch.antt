-- ===== src/Machine/Dispatch.antt =====
-- `syscall_dispatch` of kernel/syscall.c over the components. A check or a copy whose walk does not
-- end, which there is none of (Syscall/Copy), counts as refused.
pub mod Allowed
pub mod User
pub mod Cases
pub mod Writes
use mars_os.Base.{
  ℕ, zero, suc, ◌+◌, ◌-◌, ◌%◌, ◌^◌, Bool, true, false, not, ◌&&◌, ◌||◌, List, [], ◌∷◌, Option, none,
  some, ◌==◌, if◌then◌else◌,
}
use mars_os.Base.Text.{str_len}
use mars_os.Allocator.{Allocator}
use mars_os.Paging.{Space, switch_directory, kernel_directory_phys}
use mars_os.Process.{
  process_syscall_allowed, process_current_is_kernel, process_current_pid, process_count,
  process_activate_tid,
}
use mars_os.Scheduler.{current_task_id, task_count, runnable_count, exit_current}
use mars_os.Vfs.{file_count, read_file_into, write_file}
use mars_os.Ipc.{Received, send, recv, pending_count}
use mars_os.Timer.{get_ticks32}
use mars_os.Syscall.{Copied, failed, text, copy_in_string, ptr_range_ok}
use mars_os.Machine.{Machine, Linked, byte_at, store_string}
use mars_os.Machine.Exec.{program_count, name_copy_at, spawn}

abbrev pub denied : ℕ
denied = 0xFFFFFFFD

abbrev pub minus_one : ℕ
minus_one = 0xFFFFFFFF

-- An `int` result as the word returned.
abbrev pub word_of : Option ℕ → ℕ
word_of none = minus_one
word_of (some n) = n

abbrev pub word_of_bool : Bool → ℕ
word_of_bool true = 1
word_of_bool false = 0

-- A call that returns -1 stores nothing.
abbrev pub stored_out : Option ℕ → Option (List ℕ) → Option (List ℕ)
stored_out none out = none
stored_out (some n) out = out

module _ (alloc : Allocator) where
  open alloc use {Heap, total_bytes, used_bytes, in_space, space_of}

  abbrev pub user_only_ptrs : Machine alloc → Bool
  user_only_ptrs m = not (process_current_is_kernel m.processes (current_task_id m.scheduler))

  -- The string at a pointer, copied to a buffer of `size` bytes.
  pub string_in : Machine alloc → ℕ → ℕ → Option (List ℕ)
  string_in m size ptr =
      elim (copy_in_string m.space (byte_at m.space m.byte) size ptr (user_only_ptrs m)) [
        | none ↦ none
        | some failed ↦ none
        | some (text t) ↦ some t
      ]

  -- The same where an empty string is refused.
  pub name_in : Machine alloc → ℕ → ℕ → Option (List ℕ)
  unfolding string_in
  name_in m size ptr = elim (string_in m size ptr) [
    | none ↦ none
    | some t ↦ if str_len t == 0 then none else some t
  ]

  pub range_ok : Machine alloc → ℕ → ℕ → Bool
  range_ok m ptr size = elim (ptr_range_ok m.space ptr size (user_only_ptrs m)) [
    | none ↦ false
    | some ok ↦ ok
  ]

  -- What a call leaves at `out_ptr`.
  pub put_out : Machine alloc → ℕ → Option (List ℕ) → Machine alloc
  put_out m ptr none = m
  put_out m ptr (some t) = record m { byte = store_string m.space m.byte ptr t }

  pub vfs_read : Machine alloc → ℕ → ℕ → ℕ → ℕ × Machine alloc
  unfolding name_in range_ok put_out
  vfs_read m name_ptr out_ptr out_size = elim (name_in m 40 name_ptr) [
    | none ↦ (minus_one, m)
    | some name ↦
        let (n, out) = read_file_into m.vfs (some name) (some []) out_size in
        if not (range_ok m out_ptr out_size)
        then (minus_one, m)
        else (word_of n, put_out m out_ptr (stored_out n out))
  ]

  pub vfs_write : Machine alloc → ℕ → ℕ → ℕ × Machine alloc
  unfolding name_in string_in
  vfs_write m name_ptr data_ptr = elim (name_in m 40 name_ptr) [
    | none ↦ (0, m)
    | some name ↦ elim (string_in m 128 data_ptr) [
      | none ↦ (0, m)
      | some bytes ↦
          let (ok, v, heap) =
            write_file alloc m.vfs (in_space m.memory.heap m.space) (some name) (some bytes) in
          (
            word_of_bool ok,
            record m { vfs = v; memory = record m.memory { heap = heap }; space = space_of heap },
          )
    ]
  ]

  pub exec_spawn : Linked → Machine alloc → ℕ → ℕ × Machine alloc
  unfolding name_in
  exec_spawn at m name_ptr = elim (name_in m 40 name_ptr) [
    | none ↦ (minus_one, m)
    | some name ↦ let (pid, m') = spawn alloc at m (some name) in (word_of pid, m')
  ]

  pub exec_name_at : Linked → Machine alloc → ℕ → ℕ → ℕ → ℕ × Machine alloc
  unfolding range_ok put_out
  exec_name_at at m index out_ptr out_size =
      if not (range_ok m out_ptr out_size)
      then (minus_one, m)
      else (let (n, out) = name_copy_at at index out_size in (word_of n, put_out m out_ptr out))

  pub ipc_send : Machine alloc → ℕ → ℕ → ℕ × Machine alloc
  unfolding name_in
  ipc_send m to_pid msg_ptr =
      let from_pid = process_current_pid m.processes (current_task_id m.scheduler) in
      elim (name_in m 64 msg_ptr) [
        | none ↦ (0, m)
        | some message ↦
            let (sent, q) = send m.ipc from_pid to_pid (some message) in
            (word_of_bool sent, record m { ipc = q })
      ]

  pub ipc_recv : Machine alloc → ℕ → ℕ → ℕ × Machine alloc
  unfolding range_ok put_out
  ipc_recv m out_ptr out_size =
      let pid = process_current_pid m.processes (current_task_id m.scheduler) in
      let r = recv m.ipc pid (some []) out_size (some 0) in
      if not (range_ok m out_ptr out_size) then (minus_one, m) else (
        word_of r.result,
        put_out (record m { ipc = r.after }) out_ptr (stored_out r.result r.out),
      )

  -- `sp` is the stack pointer that the switch saves. Where a task is switched to, the call does not
  -- come back to the one that exits.
  pub process_exit : Machine alloc → ℕ → ℕ × Machine alloc
  process_exit m sp =
      let (next, scheduler) = exit_current m.scheduler sp in
      let kernel = kernel_directory_phys m.space in
      let space : Space = elim next [
        | none ↦ m.space
        | some t ↦ switch_directory m.space (process_activate_tid m.processes kernel t)
      ] in
      (0, record m { scheduler = scheduler; space = space })

  pub user_ping : Machine alloc → ℕ × Machine alloc
  user_ping m = let n = (m.user_ping_count + 1) % 2 ^ 32 in (n, record m { user_ping_count = n })

  -- The call with a number; `ebx`, `edx` and `ecx` are frame[4], frame[5] and frame[6].
  pub answer : Linked → Machine alloc → ℕ → ℕ → ℕ → ℕ → ℕ → ℕ × Machine alloc
  unfolding vfs_read vfs_write exec_spawn exec_name_at ipc_send ipc_recv process_exit user_ping
  answer at m sp number f4 f5 f6 =
      if number == 0
      then (get_ticks32 m.timer, m)
      else if number == 1
      then (total_bytes m.memory.heap, m)
      else if number == 2
      then (used_bytes m.memory.heap, m)
      else if number == 3
      then (task_count m.scheduler, m)
      else if number == 4
      then (runnable_count m.scheduler, m)
      else if number == 5
      then (current_task_id m.scheduler, m)
      else if number == 6
      then (file_count m.vfs, m)
      else if number == 7
      then vfs_read m f4 f6 f5
      else if number == 8
      then vfs_write m f4 f6
      else if number == 9
      then (process_count m.processes, m)
      else if number == 10
      then (process_current_pid m.processes (current_task_id m.scheduler), m)
      else if number == 11
      then (program_count at, m)
      else if number == 12
      then exec_spawn at m f4
      else if number == 13
      then exec_name_at at m f4 f6 f5
      else if number == 14
      then ipc_send m f4 f6
      else if number == 15
      then ipc_recv m f6 f5
      else if number == 16
      then (pending_count m.ipc, m)
      else if number == 17
      then user_ping m
      else if number == 18
      then (m.user_ping_count, m)
      else if number == 19
      then process_exit m sp
      else (minus_one, m)

  -- The call of a task, by the registers it saved.
  pub dispatch : Linked → Machine alloc → ℕ → (ℕ → ℕ) → ℕ × Machine alloc
  unfolding answer
  dispatch at m sp frame =
      if not (process_syscall_allowed m.processes (current_task_id m.scheduler) (frame 7))
      then (denied, m)
      else answer at m sp (frame 7) (frame 4) (frame 5) (frame 6)
