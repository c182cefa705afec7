-- ===== src/Machine/Dispatch/User.antt =====
-- What the system calls of a process in user mode leave as it was.
use mars_os.Base.{
  ℕ, ◌≡◌, refl, true, not, List, [], Option, none, some, if◌then◌else◌, arith, Bool-cases,
  Option-cases, inl, inr,
}
use mars_os.Allocator.{Allocator}
use mars_os.Paging.{Space, switch_directory, kernel_directory_phys}
use mars_os.Process.{Process, find_by_tid, process_activate_tid, process_current_pid}
use mars_os.Scheduler.{current_task_id, exit_current}
use mars_os.Vfs.{read_file_into}
use mars_os.Ipc.{recv}
use mars_os.Machine.{Machine, Linked}
use mars_os.Machine.Spawn.{syscall_mask_user}
use mars_os.Machine.Exec.{name_copy_at}
use mars_os.Machine.Dispatch.{
  denied, answer, dispatch, vfs_read, exec_name_at, ipc_send, ipc_recv, process_exit, user_ping,
  put_out, name_in, range_ok, stored_out,
}
use mars_os.Machine.Dispatch.Cases.{guarded, answer-cases}
use mars_os.Machine.Dispatch.Allowed.{is_user_call, user-allowed}

module _ (alloc : Allocator) where
  -- The processes, the files, the heap and the stacks, the clock, the frames and the page tables.
  pub record Kept (m m' : Machine alloc) : Type 0 where
    pub same_processes : m'.processes ≡ m.processes
    pub same_vfs : m'.vfs ≡ m.vfs
    pub same_memory : m'.memory ≡ m.memory
    pub same_timer : m'.timer ≡ m.timer
    pub same_frames : m'.space.pmm ≡ m.space.pmm
    pub same_tables : m'.space.word ≡ m.space.word

  kept : (m : Machine alloc) → Kept m m
  kept m = record {
    same_processes = refl;
    same_vfs = refl;
    same_memory = refl;
    same_timer = refl;
    same_frames = refl;
    same_tables = refl;
  }

  put_out-Kept :
      (m n : Machine alloc) (ptr : ℕ) (out : Option (List ℕ))
      → Kept m n
      → Kept m (put_out alloc n ptr out)
  unfolding put_out
  put_out-Kept m n ptr none k = k
  put_out-Kept m n ptr (some t) k = record {
    same_processes = k.same_processes;
    same_vfs = k.same_vfs;
    same_memory = k.same_memory;
    same_timer = k.same_timer;
    same_frames = k.same_frames;
    same_tables = k.same_tables;
  }

  vfs_read-Kept :
      (m : Machine alloc) (name_ptr out_ptr size : ℕ)
      → Kept m (vfs_read alloc m name_ptr out_ptr size).1
  unfolding vfs_read
  vfs_read-Kept m name_ptr out_ptr size = elim (Option-cases (name_in alloc m 40 name_ptr)) [
    | inl e ↦ rw (vfs_read, e) (kept m)
    | inr (name, e) ↦
        let r = read_file_into m.vfs (some name) (some []) size in
        rw (vfs_read, e)
          (guarded alloc (Kept m) (not (range_ok alloc m out_ptr size)) _ _ (λ t. kept m)
            (λ t. put_out-Kept m m out_ptr (stored_out r.0 r.1) (kept m)))
  ]

  exec_name_at-Kept :
      (at : Linked) (m : Machine alloc) (index out_ptr size : ℕ)
      → Kept m (exec_name_at alloc at m index out_ptr size).1
  unfolding exec_name_at
  exec_name_at-Kept at m index out_ptr size =
      guarded alloc (Kept m) (not (range_ok alloc m out_ptr size)) _ _ (λ t. kept m)
        (λ t. put_out-Kept m m out_ptr (name_copy_at at index size).1 (kept m))

  ipc_send-Kept :
      (m : Machine alloc) (to_pid msg_ptr : ℕ) → Kept m (ipc_send alloc m to_pid msg_ptr).1
  unfolding ipc_send
  ipc_send-Kept m to_pid msg_ptr = elim (Option-cases (name_in alloc m 64 msg_ptr)) [
    | inl e ↦ rw (ipc_send, e) (kept m)
    | inr (message, e) ↦
        rw (ipc_send, e)
          (record {
            same_processes = refl;
            same_vfs = refl;
            same_memory = refl;
            same_timer = refl;
            same_frames = refl;
            same_tables = refl;
          })
  ]

  ipc_recv-Kept : (m : Machine alloc) (out_ptr size : ℕ) → Kept m (ipc_recv alloc m out_ptr size).1
  unfolding ipc_recv
  ipc_recv-Kept m out_ptr size =
      let pid = process_current_pid m.processes (current_task_id m.scheduler) in
      let r = recv m.ipc pid (some []) size (some 0) in
      guarded alloc (Kept m) (not (range_ok alloc m out_ptr size)) _ _ (λ t. kept m)
        (λ t.
          put_out-Kept m (record m { ipc = r.after }) out_ptr (stored_out r.result r.out)
            (record {
              same_processes = refl;
              same_vfs = refl;
              same_memory = refl;
              same_timer = refl;
              same_frames = refl;
              same_tables = refl;
            }))

  switch_directory-word : (s : Space) (d : ℕ) → (switch_directory s d).word ≡ s.word
  unfolding switch_directory
  switch_directory-word s d = ground arith

  switch_directory-pmm : (s : Space) (d : ℕ) → (switch_directory s d).pmm ≡ s.pmm
  unfolding switch_directory
  switch_directory-pmm s d = ground arith

  process_exit-Kept : (m : Machine alloc) (sp : ℕ) → Kept m (process_exit alloc m sp).1
  unfolding process_exit
  process_exit-Kept m sp = elim (Option-cases ((exit_current m.scheduler sp).0)) [
    | inl e ↦ record {
      same_processes = refl;
      same_vfs = refl;
      same_memory = refl;
      same_timer = refl;
      same_frames = rw (process_exit, e) refl;
      same_tables = rw (process_exit, e) refl;
    }
    | inr (t, e) ↦
        let d = process_activate_tid m.processes (kernel_directory_phys m.space) t in
        record {
          same_processes = refl;
          same_vfs = refl;
          same_memory = refl;
          same_timer = refl;
          same_frames = rw (process_exit, e) (switch_directory-pmm m.space d);
          same_tables = rw (process_exit, e) (switch_directory-word m.space d);
        }
  ]

  user_ping-Kept : (m : Machine alloc) → Kept m (user_ping alloc m).1
  unfolding user_ping
  user_ping-Kept m = record {
    same_processes = refl;
    same_vfs = refl;
    same_memory = refl;
    same_timer = refl;
    same_frames = refl;
    same_tables = refl;
  }

  answer-Kept :
      (at : Linked) (m : Machine alloc) (sp number f4 f5 f6 : ℕ)
      → is_user_call number ≡ true
      → Kept m (answer alloc at m sp number f4 f5 f6).1
  unfolding is_user_call
  answer-Kept at m sp number f4 f5 f6 h =
      answer-cases alloc (Kept m) at m sp number f4 f5 f6 (kept m) (vfs_read-Kept m f4 f6 f5)
        (λ t. absurd (ground arith)) (λ t. absurd (ground arith)) (exec_name_at-Kept at m f4 f6 f5)
        (ipc_send-Kept m f4 f6) (ipc_recv-Kept m f6 f5) (user_ping-Kept m) (process_exit-Kept m sp)

  -- The current task's process has the mask of user mode. A call other than 8, 12 and those from 20
  -- on is answered, every other is refused with 0xFFFFFFFD and changes nothing. Whichever it is, the
  -- process table, the files, the heap, the frames and the page tables stay as they were.
  pub user_dispatch-Kept :
      (at : Linked) (m : Machine alloc) (sp : ℕ) (frame : ℕ → ℕ) (p : Process)
      → m.processes.ready ≡ true
      → find_by_tid m.processes.table (current_task_id m.scheduler) ≡ some p
      → p.syscall_mask_low ≡ syscall_mask_user
      → let r = dispatch alloc at m sp frame in
        (r ≡ (
          if is_user_call (frame 7)
          then answer alloc at m sp (frame 7) (frame 4) (frame 5) (frame 6)
          else (denied, m)))
        × Kept m r.1
  unfolding dispatch
  user_dispatch-Kept at m sp frame p ready found mask =
      let e = user-allowed m.processes (current_task_id m.scheduler) (frame 7) p ready found mask in
      elim (Bool-cases (is_user_call (frame 7))) [
        | inl yes_ ↦
            rw (e, yes_) (refl, answer-Kept at m sp (frame 7) (frame 4) (frame 5) (frame 6) yes_)
        | inr no_ ↦ rw (e, no_) (refl, kept m)
      ]
