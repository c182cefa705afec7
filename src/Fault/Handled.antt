-- ===== src/Fault/Handled.antt =====
-- What a page fault does to the tasks.
use mars_os.Base.{
  ℕ, ◌^◌, ◌<◌, ◌≡◌, ◌≢◌, refl, Bool, true, false, not, ◌&&◌, ◌||◌, List, Option, some, ◌==◌, arith,
  Bool-cases, inl, inr,
}
use mars_os.Base.Text.{codes}
use mars_os.Vga
use mars_os.Vga.{Vga}
use mars_os.Vga.Numbers.{put_dec32-some}
use mars_os.Scheduler.{exit_current, current_task_id, task_is_zombie}
use mars_os.Scheduler.Invariant.{IsValid, exit_current-switches}
use mars_os.Process.{process_current_pid}
use mars_os.Fault.{
  Machine, log_fault_flags_vga, flag_texts, has_flag, report_vga, report_serial, handle_page_fault,
}

report_vga-some :
    (v : Vga) (headline : List ℕ) (cr2 e pid tid : ℕ)
    → pid < 2 ^ 32
    → tid < 2 ^ 32
    → (w : Vga) × (report_vga v headline cr2 e pid tid ≡ some w)
unfolding report_vga
report_vga-some v headline cr2 e pid tid h l =
    let v₁ = Vga.put_hex32 (Vga.puts (Vga.puts v headline) (codes "cr2=")) cr2 in
    let v₂ = Vga.puts (Vga.put_hex32 (Vga.puts v₁ (codes " err=")) e) (codes " pid=") in
    let (v₃, p) = put_dec32-some v₂ pid h in
    let (v₄, t) = put_dec32-some (Vga.puts v₃ (codes " tid=")) tid l in
    (Vga.putc (log_fault_flags_vga v₄ (flag_texts e)) 10, ground (arith, p, t))

user_headline : List ℕ
user_headline = codes "\nuser page fault: task terminated\n"

user_serial : List ℕ
user_serial = codes "user page fault: task terminated cr2="

panic_headline : List ℕ
panic_headline = codes "\n\nKERNEL PANIC: page fault\n"

panic_serial : List ℕ
panic_serial = codes "KERNEL PANIC: page fault cr2="

module _ (m : Machine) (error_code cr2 sp : ℕ) (w : Vga) where
  abbrev tid : ℕ
  tid = m.scheduler.current_task

  abbrev pid : ℕ
  pid = process_current_pid m.processes tid

  user_fault :
      has_flag error_code 4 && not (tid == 0) ≡ true
      → report_vga m.vga user_headline cr2 error_code pid tid ≡ some w
      → handle_page_fault m error_code cr2 sp
        ≡ some record m {
          vga = w;
          serial = report_serial m.serial user_serial cr2 error_code pid tid;
          scheduler = (exit_current m.scheduler sp).1;
        }
  unfolding handle_page_fault current_task_id user_headline user_serial
  user_fault user e = rw user (rw e refl)

  kernel_fault :
      has_flag error_code 4 && not (tid == 0) ≡ false
      → report_vga m.vga panic_headline cr2 error_code pid tid ≡ some w
      → handle_page_fault m error_code cr2 sp
        ≡ some record m {
          vga = w;
          serial = report_serial m.serial panic_serial cr2 error_code pid tid;
          is_halted = true;
        }
  unfolding handle_page_fault current_task_id panic_headline panic_serial
  kernel_fault kernel e = rw kernel (rw e refl)

-- The task that caused the fault, and the machine after the handler.
pub record Handled (m : Machine) (is_user : Bool) (r : Option Machine) : Type 0 where
  pub after : Machine
  pub returns : r ≡ some after
  pub in_order : IsValid after.scheduler
  pub halted : after.is_halted ≡ (m.is_halted || not is_user)
  pub processes_kept : after.processes ≡ m.processes
  pub zombie : (task_is_zombie after.scheduler m.scheduler.current_task || not is_user) ≡ true
  pub switched : (after.scheduler.current_task == m.scheduler.current_task) ≡ not is_user

-- In a valid task table `paging_handle_page_fault` returns. A fault in user mode of a task other than
-- the kernel's leaves that task a zombie and another one running; every other fault halts the machine
-- and leaves the current task. The table stays valid, and the process table is as it was.
pub handle_page_fault_lem :
    (m : Machine) (error_code cr2 sp : ℕ)
    → IsValid m.scheduler
    → process_current_pid m.processes m.scheduler.current_task < 2 ^ 32
    → Handled m
        (has_flag error_code 4 && not (m.scheduler.current_task == 0))
        (handle_page_fault m error_code cr2 sp)
handle_page_fault_lem m error_code cr2 sp v small =
    let tid = m.scheduler.current_task in
    let pid = process_current_pid m.processes tid in
    let tid_lt : tid < 2 ^ 32 = omega (arith, v.in_range) in
    elim (Bool-cases (has_flag error_code 4 && not (tid == 0))) [
      | inl user ↦
          let (w, e) = report_vga-some m.vga user_headline cr2 error_code pid tid small tid_lt in
          let not_kernel : tid ≢ 0 = ground (arith, user) in
          let (_, valid, other, dead) = exit_current-switches m.scheduler v not_kernel sp in
          rw user record {
            after = record m {
              vga = w;
              serial = report_serial m.serial user_serial cr2 error_code pid tid;
              scheduler = (exit_current m.scheduler sp).1;
            };
            returns = user_fault m error_code cr2 sp w user e;
            in_order = valid;
            halted = ground arith;
            processes_kept = refl;
            zombie = ground (arith, dead);
            switched = ground (arith, other);
          }
      | inr kernel ↦
          let (w, e) = report_vga-some m.vga panic_headline cr2 error_code pid tid small tid_lt in
          rw kernel record {
            after = record m {
              vga = w;
              serial = report_serial m.serial panic_serial cr2 error_code pid tid;
              is_halted = true;
            };
            returns = kernel_fault m error_code cr2 sp w kernel e;
            in_order = v;
            halted = ground arith;
            processes_kept = refl;
            zombie = ground arith;
            switched = ground arith;
          }
    ]
