-- ===== src/Fault/Tests.antt =====
-- A page fault of task 1 in user mode.
use mars_os.Base.{◌≡◌, refl, true, false, not, ◌&&◌, [], ◌∷◌, ◌==◌, arith}
use mars_os.Base.Text.{codes}
use mars_os.Serial.{Serial, puts, putc}
use mars_os.Scheduler.Tests.{busy, busy-IsValid}
use mars_os.Process.{process_current_pid}
use mars_os.Fault.{Machine, has_flag, handle_page_fault, flag_texts}
use mars_os.Fault.Handled.{Handled, handle_page_fault_lem}

abbrev quiet : Serial
quiet = record { serial_ready = false; sent = [] }

abbrev machine : Machine
machine = record {
  vga = record { cells = λ i. 0; cursor_row = 0; cursor_col = 0 };
  serial = quiet;
  scheduler = busy;
  processes = record { table = []; next_pid = 2; ready = false };
  is_halted = false;
}

handle_page_fault_lem_example :
    Handled machine (has_flag 6 4 && not (1 == 0)) (handle_page_fault machine 6 0x1000 0x3000)
unfolding process_current_pid
handle_page_fault_lem_example =
    handle_page_fault_lem machine 6 0x1000 0x3000 busy-IsValid (omega arith)

flags : flag_texts 6 ≡ codes " flags=" ∷ codes "NP" ∷ codes "|W" ∷ codes "|U" ∷ []
unfolding flag_texts
flags = refl

abbrev ready : Serial
ready = record { serial_ready = true; sent = [] }

line : (puts ready (codes "\n")).sent ≡ (0x3F8, 13) ∷ (0x3F8, 10) ∷ []
unfolding puts putc
line = refl
