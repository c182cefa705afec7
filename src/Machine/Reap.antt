-- ===== src/Machine/Reap.antt =====
-- `process_reap` of kernel/process.c: the processes whose tasks have ended leave the table.
pub mod Dead
use mars_os.Base.{
  ℕ, zero, suc, ◌+◌, Bool, true, false, not, ◌&&◌, ◌||◌, List, get_or, set, ◌==◌, if◌then◌else◌,
}
use mars_os.Allocator.{Allocator}
use mars_os.Paging.{Space, kernel_directory_phys}
use mars_os.Process.{Process, Processes, no_process, process_max}
use mars_os.Scheduler.{Scheduler, task_is_zombie, reap_task}
use mars_os.Machine.{Machine}
use mars_os.Machine.UserSpace.{give_back, unmap_user_pages}

-- An active process other than the kernel's, whose task is a zombie.
abbrev pub is_dead : Scheduler → Process → Bool
is_dead s p = p.active && (not (p.tid == 0) && task_is_zombie s p.tid)

-- The pages, the directory and the frames of a process are given back.
pub release_memory : Space → Process → Space
unfolding unmap_user_pages
release_memory s p =
    let s₁ = unmap_user_pages s p.cr3 in
    let s₂ =
      if not (p.cr3 == 0) && not (p.cr3 == kernel_directory_phys s₁)
      then give_back s₁ p.cr3
      else s₁ in
    let s₃ = if p.user_code_frame == 0 then s₂ else give_back s₂ p.user_code_frame in
    if p.user_stack_frame == 0 then s₃ else give_back s₃ p.user_stack_frame

module _ (alloc : Allocator) where
  -- The entry is cleared, and then its task is reaped.
  pub bury : Machine alloc → ℕ → Process → Machine alloc
  unfolding release_memory
  bury m i p =
      let (reaped, scheduler, heap) = reap_task alloc m.scheduler m.memory.heap p.tid in
      record m {
        space = release_memory m.space p;
        processes = record m.processes { table = set m.processes.table i no_process };
        scheduler = scheduler;
        memory = record m.memory { heap = heap };
      }

  -- One round of the loop.
  pub reap_at : Machine alloc → ℕ → Machine alloc
  unfolding bury
  reap_at m i =
      let p = get_or m.processes.table i no_process in
      if is_dead m.scheduler p then bury m i p else m

  -- The `left` entries from the `i`-th on.
  pub reap_loop : ℕ → ℕ → Machine alloc → Machine alloc
  unfolding reap_at
  reap_loop zero i m = m
  reap_loop (suc left) i m = reap_loop left (i + 1) (reap_at m i)

  pub reap : Machine alloc → Machine alloc
  unfolding reap_loop
  reap m = if not m.processes.ready then m else reap_loop process_max 0 m
