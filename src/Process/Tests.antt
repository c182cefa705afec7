-- ===== src/Process/Tests.antt =====
-- A concrete process table for kernel/process.c.
use mars_os.Base.{◌≤◌, ◌<◌, ◌^◌, arith, ◌≡◌, refl, true, false, [], ◌∷◌, some, replicate}
use mars_os.Base.Text.{codes}
use mars_os.Process.{
  Processes, no_process, process_init, process_alloc_pid, alloc_pid_loop, pid_in_use,
  process_find_free_slot, find_free_slot, process_current_pid, find_by_tid, process_pid_at,
  active_at, process_syscall_allowed, process_current_is_kernel, process_activate_tid,
}
use mars_os.Process.Pids.{process_alloc_pid-fresh}

-- The kernel, and a process with pid 4 whose task is 2.
abbrev two_processes : Processes
two_processes = record {
  table =
      record no_process {
        pid = 1;
        cr3 = 0x1000;
        is_kernel = true;
        active = true;
        name = codes "kernel";
      }
      ∷ no_process
      ∷ record no_process {
        pid = 4;
        tid = 2;
        syscall_mask_low = 5;
        active = true;
        name = codes "app";
      }
      ∷ replicate 29 no_process;
  next_pid = 4;
  ready = true;
}

next_free_pid : (process_alloc_pid two_processes).0 ≡ 5
unfolding process_alloc_pid alloc_pid_loop pid_in_use
next_free_pid = refl

free_slot : process_find_free_slot two_processes ≡ some 1
unfolding process_find_free_slot find_free_slot
free_slot = refl

pid_of_task : process_current_pid two_processes 2 ≡ 4
unfolding process_current_pid find_by_tid
pid_of_task = refl

second_listed : process_pid_at two_processes 1 ≡ some (4, codes "app")
unfolding process_pid_at active_at
second_listed = refl

masked_calls :
    process_syscall_allowed two_processes 2 2 ∷ process_syscall_allowed two_processes 2 1 ∷ []
    ≡ true ∷ false ∷ []
unfolding process_syscall_allowed find_by_tid
masked_calls = refl

kernel_task :
    process_current_is_kernel two_processes 0 ∷ process_current_is_kernel two_processes 2 ∷ []
    ≡ true ∷ false ∷ []
unfolding process_current_is_kernel find_by_tid
kernel_task = refl

directories :
    process_activate_tid two_processes 0x5000 0 ∷ process_activate_tid two_processes 0x5000 2 ∷ []
    ≡ 0x1000 ∷ 0x5000 ∷ []
unfolding process_activate_tid find_by_tid
directories = refl

kernel_first : process_current_pid (process_init 0x5000) 0 ≡ 1
unfolding process_current_pid find_by_tid process_init
kernel_first = refl

process_alloc_pid-fresh_example :
    let (pid, s') = process_alloc_pid two_processes in
    (pid_in_use two_processes.table pid ≡ false)
    × (2 ≤ pid)
    × (s'.table ≡ two_processes.table)
    × (s'.next_pid < 2 ^ 32)
process_alloc_pid-fresh_example = process_alloc_pid-fresh two_processes (omega arith) (omega arith)
