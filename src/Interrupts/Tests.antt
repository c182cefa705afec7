-- ===== src/Interrupts/Tests.antt =====
-- Concrete stubs for kernel/interrupts.c.
use mars_os.Base.{◌≡◌, refl, arith}
use mars_os.Keyboard.{Keyboard}
use mars_os.Interrupts.{Stubs, fill_idt, init}
use mars_os.Interrupts.Gates.{
  AreWords, handler_of, dpl_of, present_of, kind_of, stub_for, fill_idt-gates,
}

abbrev stubs : Stubs
stubs = record {
  irq0 = 0x100000;
  irq1 = 0x100010;
  irq_master = 0x100020;
  irq_slave = 0x100030;
  isr_fault = 0x100040;
  page_fault = 0x100050;
  syscall = 0x100060;
  usermode_exit = 0x100070;
}

stubs-AreWords : AreWords stubs
stubs-AreWords = record {
  irq0_lt = omega arith;
  irq1_lt = omega arith;
  irq_master_lt = omega arith;
  irq_slave_lt = omega arith;
  isr_fault_lt = omega arith;
  page_fault_lt = omega arith;
  syscall_lt = omega arith;
  usermode_exit_lt = omega arith;
}

fill_idt-gates_example :
    (handler_of (fill_idt 8 stubs 0x80) ≡ stub_for stubs 0x80)
    × (present_of (fill_idt 8 stubs 0x80) ≡ 1)
    × ((fill_idt 8 stubs 0x80).selector ≡ 8)
    × (kind_of (fill_idt 8 stubs 0x80) ≡ 15)
    × (dpl_of (fill_idt 8 stubs 0x80) ≡ 3)
fill_idt-gates_example = fill_idt-gates 8 stubs 0x80 stubs-AreWords

loaded : (k : Keyboard) → (init 8 stubs k).0 ≡ fill_idt 8 stubs
unfolding init
loaded k = refl
