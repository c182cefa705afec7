-- ===== src/Machine/Spawn/Spawned.antt =====
-- What a spawn does to the process table and to the tasks, whether it succeeds or fails.
use mars_os.Base.{
  ℕ, ◌+◌, ◌^◌, ◌≤◌, ◌<◌, ◌≡◌, refl, Bool, true, false, not, ◌&&◌, ◌||◌, List, length, get_or, set,
  Option, none, some, ◌==◌, if◌then◌else◌, arith, length-set, ap, if_both, Bool-cases, Option-cases,
  inl, inr,
}
use mathlib.Core.Path.{subst}
use mars_os.Allocator.{Allocator}
use mars_os.Paging.{clone_kernel_directory, kernel_directory_phys}
use mars_os.Process.{
  Process, Processes, no_process, pid_in_use, process_alloc_pid, process_find_free_slot,
  syscall_mask_kernel,
}
use mars_os.Process.Pids.{process_alloc_pid-fresh}
use mars_os.Process.Free.{process_find_free_slot-some}
use mars_os.Scheduler.{Scheduler, create_task, runnable, task_at}
use mars_os.Scheduler.Invariant.{IsValid}
use mars_os.Scheduler.Slots.{create_task-some, create_task-none, is_open}
use mars_os.Vfs.{Vfs}
use mars_os.Machine.{Machine, Linked}
use mars_os.Machine.UserSpace.{user_code_vaddr}
use mars_os.Machine.Program.{Built, build_user_image}
use mars_os.Machine.Program.Beside.{Beside, build_user_image-Beside}
use mars_os.Machine.Spawn.{
  enter_process, new_process, start_process, spawn_kernel_in, spawn_user_in, spawn_common,
  syscall_mask_user, with_space,
}

-- At most 32 entries, and a next pid that is a 32-bit word.
pub record IsTable (ps : Processes) : Type 0 where
  pub size : length ps.table ≤ 32
  pub next_lt : ps.next_pid < 2 ^ 32

-- A new process in an entry that was inactive, under a pid that was in use nowhere, with the mask of
-- its mode and a runnable task other than the kernel's in a slot that was open.
pub record Spawned (ps : Processes) (s : Scheduler) (is_kernel : Bool) (pid : ℕ) (ps' : Processes)
    (s' : Scheduler) : Type 0 where
  pub slot : ℕ
  pub entry : Process
  pub in_table : slot < length ps.table
  pub was_inactive : (get_or ps.table slot no_process).active ≡ false
  pub table : ps'.table ≡ set ps.table slot entry
  pub has_pid : entry.pid ≡ pid
  pub new_pid : pid_in_use ps.table pid ≡ false
  pub pid_ge : 2 ≤ pid
  pub is_active : entry.active ≡ true
  pub mode : entry.is_kernel ≡ is_kernel
  pub mask : entry.syscall_mask_low ≡ (if is_kernel then syscall_mask_kernel else syscall_mask_user)
  pub task_pos : 1 ≤ entry.tid
  pub task_lt : entry.tid < 16
  pub task_open : is_open s entry.tid ≡ true
  pub task_ready : (task_at s' entry.tid).state ≡ runnable
  pub tasks_valid : IsValid s'
  pub after_valid : IsTable ps'

module _ (alloc : Allocator) where
  -- How a spawn ends: it fails and no process, task or file has changed, or there is a new process.
  pub data Outcome (ps : Processes) (s : Scheduler) (v : Vfs) (is_kernel : Bool)
      : Option ℕ × Machine alloc → Type 0 where
    refused :
        (m' : Machine alloc)
        → m'.processes ≡ ps
        → m'.scheduler ≡ s
        → m'.vfs ≡ v
        → Outcome ps s v is_kernel (none, m')
    spawned :
        (pid : ℕ) (m' : Machine alloc)
        → Spawned ps s is_kernel pid m'.processes m'.scheduler
        → m'.vfs ≡ v
        → Outcome ps s v is_kernel (some pid, m')

-- The new process is in the table.
record Entered (ps : Processes) (slot tid : ℕ) (is_kernel : Bool) (pid : ℕ) (ps' : Processes)
    : Type 0 where
  entry : Process
  table : ps'.table ≡ set ps.table slot entry
  has_pid : entry.pid ≡ pid
  has_tid : entry.tid ≡ tid
  new_pid : pid_in_use ps.table pid ≡ false
  pid_ge : 2 ≤ pid
  is_active : entry.active ≡ true
  mode : entry.is_kernel ≡ is_kernel
  mask : entry.syscall_mask_low ≡ (if is_kernel then syscall_mask_kernel else syscall_mask_user)
  after_valid : IsTable ps'

enter_process-Entered :
    (ps : Processes) (slot tid cr3 : ℕ) (b : Built) (is_kernel : Bool) (name : Option (List ℕ))
    → IsTable ps
    → let (pid, ps') = enter_process ps slot tid cr3 b is_kernel name in
      Entered ps slot tid is_kernel pid ps'
unfolding enter_process new_process
enter_process-Entered ps slot tid cr3 b is_kernel name t =
    let (pid, ps') = process_alloc_pid ps in
    let (new_pid, pid_ge, same, next) = process_alloc_pid-fresh ps t.next_lt t.size in
    let old = (get_or ps'.table slot no_process).name in
    let p = new_process pid tid cr3 b is_kernel old name in
    record {
      entry = p;
      table = ap (λ table. set table slot p) same;
      has_pid = refl;
      has_tid = refl;
      new_pid = new_pid;
      pid_ge = pid_ge;
      is_active = refl;
      mode = refl;
      mask = refl;
      after_valid = record {
        size = omega (arith, length-set ps'.table slot p, ap length same, t.size);
        next_lt = next;
      };
    }

module _ (alloc : Allocator) (at : Linked) where
  start_process-Outcome :
      (m : Machine alloc) (slot cr3 : ℕ) (b : Built) (is_kernel : Bool) (entry arg : ℕ)
      (name : Option (List ℕ))
      → IsTable m.processes
      → IsValid m.scheduler
      → slot < length m.processes.table
      → (get_or m.processes.table slot no_process).active ≡ false
      → Outcome alloc m.processes m.scheduler m.vfs is_kernel
          (start_process alloc at m slot cr3 b is_kernel entry arg name)
  unfolding start_process
  start_process-Outcome m slot cr3 b is_kernel entry arg name t v l free =
      let boot = at.scheduler_task_bootstrap in
      let c = create_task alloc m.scheduler (with_space m) entry arg name boot in
      elim (Option-cases c.0) [
        | inl e ↦
            let same = create_task-none alloc m.scheduler v (with_space m) entry arg name boot e in
            rw (start_process, e) (refused _ refl same refl)
        | inr (tid, e) ↦
            let made =
              create_task-some alloc m.scheduler v (with_space m) entry arg name boot tid 0 e in
            let n = enter_process-Entered m.processes slot tid cr3 b is_kernel name t in
            rw (start_process, e)
              (spawned _ _
                (record {
                  slot = slot;
                  entry = n.entry;
                  in_table = l;
                  was_inactive = free;
                  table = n.table;
                  has_pid = n.has_pid;
                  new_pid = n.new_pid;
                  pid_ge = n.pid_ge;
                  is_active = n.is_active;
                  mode = n.mode;
                  mask = n.mask;
                  task_pos = omega (arith, made.0, n.has_tid);
                  task_lt = omega (arith, made.1, n.has_tid);
                  task_open = rw n.has_tid made.2;
                  task_ready = rw n.has_tid made.3;
                  tasks_valid = made.7;
                  after_valid = n.after_valid;
                })
                refl)
      ]

  carry :
      (m n : Machine alloc) (is_kernel : Bool) (r : Option ℕ × Machine alloc)
      → Beside alloc m n
      → Outcome alloc n.processes n.scheduler n.vfs is_kernel r
      → Outcome alloc m.processes m.scheduler m.vfs is_kernel r
  carry m n is_kernel r k o =
      subst (λ ps. Outcome alloc ps m.scheduler m.vfs is_kernel r) k.same_processes
        (subst (λ s. Outcome alloc n.processes s m.vfs is_kernel r) k.same_scheduler
          (subst (λ v. Outcome alloc n.processes n.scheduler v is_kernel r) k.same_vfs o))

  spawn_user_in-Outcome :
      (m : Machine alloc) (slot : ℕ) (name : Option (List ℕ)) (arg : ℕ)
      → IsTable m.processes
      → IsValid m.scheduler
      → slot < length m.processes.table
      → (get_or m.processes.table slot no_process).active ≡ false
      → Outcome alloc m.processes m.scheduler m.vfs false (spawn_user_in alloc at m slot name arg)
  unfolding spawn_user_in
  spawn_user_in-Outcome m slot name arg t v l free =
      let id = if arg == 0 then 1 else arg in
      let c = clone_kernel_directory m.space in
      let m₁ : Machine alloc = record m { space = c.1 } in
      elim (Option-cases c.0) [
        | inl e ↦ rw (spawn_user_in, e) (refused _ refl refl refl)
        | inr (cr3, e) ↦
            let r = build_user_image alloc m₁ cr3 id name in
            let k = build_user_image-Beside alloc m₁ cr3 id name in
            elim (Option-cases r.0) [
              | inl n ↦
                  rw (spawn_user_in, e, n) (refused _ k.same_processes k.same_scheduler k.same_vfs)
              | inr (b, n) ↦
                  let task = at.process_user_task_entry in
                  let o =
                    start_process-Outcome r.1 slot cr3 b false task (slot + 1) name
                      (rw k.same_processes t) (rw k.same_scheduler v) (rw k.same_processes l)
                      (rw k.same_processes free) in
                  rw (spawn_user_in, e, n) (carry m₁ r.1 false _ k o)
            ]
      ]

  -- On a table and tasks in order, a spawn either fails, and no process, task or file has changed,
  -- or makes one new process: in an entry that was inactive, under a pid that no other has, with the
  -- mask and the mode asked for, and with a task that may run. Both stay in order.
  pub spawn_common-Outcome :
      (m : Machine alloc) (name : Option (List ℕ)) (entry arg : ℕ) (is_kernel : Bool)
      → IsTable m.processes
      → IsValid m.scheduler
      → Outcome alloc m.processes m.scheduler m.vfs is_kernel
          (spawn_common alloc at m name entry arg is_kernel)
  unfolding spawn_common spawn_kernel_in
  spawn_common-Outcome m name entry arg is_kernel t v =
      let P = Outcome alloc m.processes m.scheduler m.vfs is_kernel in
      let stop : P (none, m) = refused m refl refl refl in
      let stuck = not m.processes.ready || (is_kernel && entry == 0) in
      if_both P stuck _ _ stop (elim (Option-cases (process_find_free_slot m.processes)) [
        | inl e ↦ rw e stop
        | inr (slot, e) ↦
            let (l, free) = process_find_free_slot-some m.processes slot e in
            let b : Built = record { code_frame = 0; stack_frame = 0; entry = user_code_vaddr } in
            let dir = kernel_directory_phys m.space in
            rw e (elim (Bool-cases is_kernel) [
              | inl k ↦ rw k (start_process-Outcome m slot dir b true entry arg name t v l free)
              | inr u ↦ rw u (spawn_user_in-Outcome m slot name arg t v l free)
            ])
      ])
