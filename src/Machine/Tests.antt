-- ===== src/Machine/Tests.antt =====
-- A concrete machine: its current task is that of a process in user mode, and a process is dead.
use mars_os.Base.{ℕ, ◌<◌, ◌≡◌, refl, true, false, ◌∷◌, some, ◌==◌, if◌then◌else◌, replicate, arith}
use mars_os.Base.Text.{codes}
use mars_os.Paging.Tests.{one_page, one_page-IsSpace, one_page_elsewhere}
use mars_os.Process.{Process, no_process, find_by_tid}
use mars_os.Scheduler.{current_task_id}
use mars_os.Scheduler.Tests.{busy, busy-IsValid, bump, memory}
use mars_os.Vfs.{empty_file}
use mars_os.Machine.{Machine, Linked}
use mars_os.Machine.Spawn.{spawn_common, syscall_mask_user}
use mars_os.Machine.Spawn.Spawned.{IsTable, Outcome, spawn_common-Outcome}
use mars_os.Machine.Reap.{is_dead, reap}
use mars_os.Machine.Reap.Dead.{Reaped, process_at, reap-Reaped}
use mars_os.Machine.Dispatch.{dispatch, answer, denied}
use mars_os.Machine.Dispatch.Allowed.{is_user_call}
use mars_os.Machine.Dispatch.User.{Kept, user_dispatch-Kept}
use mars_os.Machine.Dispatch.Writes.{IsForeign, user_dispatch-writes}
use mars_os.Ipc

abbrev caller : Process
caller = record no_process {
  pid = 2;
  tid = 1;
  cr3 = 0x1000;
  syscall_mask_low = syscall_mask_user;
  active = true;
  name = codes "uping";
}

abbrev machine : Machine bump
machine = record {
  processes = record {
    table =
        record no_process { pid = 1; is_kernel = true; active = true; name = codes "kernel" }
        ∷ caller
        ∷ record no_process { pid = 3; tid = 3; active = true; name = codes "gone" }
        ∷ replicate 29 no_process;
    next_pid = 4;
    ready = true;
  };
  space = one_page;
  scheduler = busy;
  memory = memory;
  vfs = record { files = replicate 64 empty_file; ready = true };
  ipc = Ipc.init;
  timer = record { timer_ticks = 0; timer_hz = 100 };
  byte = λ a. 0;
  user_ping_count = 0;
}

abbrev linked : Linked
linked = record {
  scheduler_task_bootstrap = 0x2000;
  process_user_task_entry = 0x2100;
  app_counter = 0x2200;
  app_writer = 0x2300;
}

-- A read of 16 bytes at most, to the process's page.
abbrev registers : ℕ → ℕ
registers i = if i == 7 then 7 else if i == 4 then 0x5000 else if i == 5 then 16 else 0x5800

machine-IsTable : IsTable machine.processes
machine-IsTable = record { size = omega arith; next_lt = omega arith }

caller_found : find_by_tid machine.processes.table (current_task_id busy) ≡ some caller
unfolding find_by_tid current_task_id
caller_found = refl

kernel_byte : IsForeign one_page 0x8000
unfolding IsForeign
kernel_byte a h p e = one_page_elsewhere a h e

user_dispatch-Kept_example :
    let r = dispatch bump linked machine 0x3000 registers in
    (r ≡ (
      if is_user_call 7
      then answer bump linked machine 0x3000 7 0x5000 16 0x5800
      else (denied, machine)))
    × Kept bump machine r.1
user_dispatch-Kept_example =
    user_dispatch-Kept bump linked machine 0x3000 registers caller refl caller_found refl

user_dispatch-writes_example : (dispatch bump linked machine 0x3000 registers).1.byte 0x8000 ≡ 0
user_dispatch-writes_example =
    user_dispatch-writes bump linked machine 0x3000 registers caller 0x8000 one_page-IsSpace refl
      caller_found refl refl (omega arith) (omega arith) kernel_byte

spawn_common-Outcome_example :
    Outcome bump machine.processes busy machine.vfs false
      (spawn_common bump linked machine (some (codes "uping")) 0 2 false)
spawn_common-Outcome_example =
    spawn_common-Outcome bump linked machine (some (codes "uping")) 0 2 false machine-IsTable
      busy-IsValid

reap-Reaped_example :
    let m' = reap bump machine in
    Reaped bump machine m'
    × ((k : ℕ) → k < 32 → is_dead m'.scheduler (process_at bump m' k) ≡ false)
reap-Reaped_example = reap-Reaped bump machine refl busy-IsValid
