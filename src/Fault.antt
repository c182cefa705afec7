-- ===== src/Fault.antt =====
-- The page fault handler of kernel/paging.c, with what it prints and whom it ends. The address of the
-- fault (register cr2) is an argument, as is the stack pointer that a switch of the task saves.
pub mod Handled
mod Tests
use mars_os.Base.{
  ℕ, Bool, true, false, not, ◌&&◌, ◌||◌, List, [], ◌∷◌, ◌++◌, Option, none, some, ◌==◌,
  if◌then◌else◌,
}
use Prim.Native.Nat.{bit_and}
use mars_os.Base.Text.{codes}
use mars_os.Vga
use mars_os.Vga.{Vga}
use mars_os.Serial
use mars_os.Serial.{Serial}
use mars_os.Scheduler.{Scheduler, exit_current, current_task_id}
use mars_os.Process.{Processes, process_current_pid}

pub record Machine : Type 0 where
  pub vga : Vga
  pub serial : Serial
  pub scheduler : Scheduler
  pub processes : Processes
  pub is_halted : Bool

abbrev pub has_flag : ℕ → ℕ → Bool
has_flag error_code flag = not (bit_and error_code flag == 0)

-- The strings of `paging_log_fault_flags_vga` and of `paging_log_fault_flags_serial`.
pub flag_texts : ℕ → List (List ℕ)
flag_texts e =
    codes " flags="
    ∷ (if has_flag e 1 then codes "P" else codes "NP")
    ∷ (if has_flag e 2 then codes "|W" else codes "|R")
    ∷ (if has_flag e 4 then codes "|U" else codes "|K")
    ∷ ((if has_flag e 8 then codes "|RSVD" ∷ [] else [])
        ++ (if has_flag e 16 then codes "|IF" ∷ [] else []))

pub log_fault_flags_vga : Vga → List (List ℕ) → Vga
log_fault_flags_vga v [] = v
log_fault_flags_vga v (t ∷ ts) = log_fault_flags_vga (Vga.puts v t) ts

pub log_fault_flags_serial : Serial → List (List ℕ) → Serial
log_fault_flags_serial s [] = s
log_fault_flags_serial s (t ∷ ts) = log_fault_flags_serial (Serial.puts s t) ts

-- What goes to the screen; `none` where the printing of a number runs out of rounds.
pub report_vga : Vga → List ℕ → ℕ → ℕ → ℕ → ℕ → Option Vga
unfolding flag_texts log_fault_flags_vga
report_vga v headline cr2 e pid tid =
    let v₁ = Vga.put_hex32 (Vga.puts (Vga.puts v headline) (codes "cr2=")) cr2 in
    let v₂ = Vga.put_hex32 (Vga.puts v₁ (codes " err=")) e in
    elim (Vga.put_dec32 (Vga.puts v₂ (codes " pid=")) pid) [
      | none ↦ none
      | some v₃ ↦ elim (Vga.put_dec32 (Vga.puts v₃ (codes " tid=")) tid) [
        | none ↦ none
        | some v₄ ↦ some (Vga.putc (log_fault_flags_vga v₄ (flag_texts e)) 10)
      ]
    ]

pub report_serial : Serial → List ℕ → ℕ → ℕ → ℕ → ℕ → Serial
unfolding flag_texts log_fault_flags_serial
report_serial s headline cr2 e pid tid =
    let s₁ = Serial.put_hex32 (Serial.puts s headline) cr2 in
    let s₂ = Serial.put_hex32 (Serial.puts s₁ (codes " err=")) e in
    let s₃ = Serial.put_hex32 (Serial.puts s₂ (codes " pid=")) pid in
    let s₄ = Serial.put_hex32 (Serial.puts s₃ (codes " tid=")) tid in
    Serial.puts (log_fault_flags_serial s₄ (flag_texts e)) (codes "\n")

pub handle_page_fault : Machine → ℕ → ℕ → ℕ → Option Machine
unfolding report_vga report_serial
handle_page_fault m error_code cr2 sp =
    let tid = current_task_id m.scheduler in
    let pid = process_current_pid m.processes tid in
    if has_flag error_code 4 && not (tid == 0)
    then (elim (report_vga m.vga (codes "\nuser page fault: task terminated\n") cr2 error_code pid
        tid) [
          | none ↦ none
          | some v ↦ some record m {
            vga = v;
            serial =
                report_serial m.serial (codes "user page fault: task terminated cr2=") cr2
                  error_code pid tid;
            scheduler = (exit_current m.scheduler sp).1;
          }
        ])
    else (elim (report_vga m.vga (codes "\n\nKERNEL PANIC: page fault\n") cr2 error_code pid tid) [
      | none ↦ none
      | some v ↦ some record m {
        vga = v;
        serial =
            report_serial m.serial (codes "KERNEL PANIC: page fault cr2=") cr2 error_code pid tid;
        is_halted = true;
      }
    ])
