-- ===== src/Interrupts.antt =====
-- kernel/interrupts.c: the interrupt table, and what goes to the interrupt controllers. The addresses
-- of the assembly stubs are the linker's, and the code selector is the processor's.
pub mod Gates
pub mod Panic
mod Tests
use mars_os.Base.{
  ℕ, zero, suc, ◌+◌, ◌-◌, ◌*◌, ◌/◌, ◌%◌, ◌^◌, List, [], ◌∷◌, ◌==◌, if◌then◌else◌, Option, none,
  some,
}
use Prim.Native.Nat.{bit_and}
use mars_os.Base.Text.{codes}
use mars_os.Keyboard
use mars_os.Keyboard.{Keyboard}
use mars_os.Vga
use mars_os.Vga.{Vga}
use mars_os.Serial
use mars_os.Serial.{Serial}

pub record IdtEntry : Type 0 where
  pub offset_low : ℕ
  pub selector : ℕ
  pub zero_ : ℕ
  pub type_attr : ℕ
  pub offset_high : ℕ

pub record Stubs : Type 0 where
  pub irq0 : ℕ
  pub irq1 : ℕ
  pub irq_master : ℕ
  pub irq_slave : ℕ
  pub isr_fault : ℕ
  pub page_fault : ℕ
  pub syscall : ℕ
  pub usermode_exit : ℕ

abbrev pub interrupt_gate : ℕ
interrupt_gate = 0x8E

abbrev pub trap_gate_user : ℕ
trap_gate_user = 0xEF

abbrev pub no_gate : IdtEntry
no_gate = record { offset_low = 0; selector = 0; zero_ = 0; type_attr = 0; offset_high = 0 }

abbrev pub Idt : Type 0
Idt = ℕ → IdtEntry

pub set_gate_attr : Idt → ℕ → ℕ → ℕ → ℕ → Idt
set_gate_attr idt cs vector addr type_attr = λ v.
    if v == vector
    then record {
      offset_low = bit_and addr 0xFFFF;
      selector = cs;
      zero_ = 0;
      type_attr = type_attr;
      offset_high = bit_and (addr / 2 ^ 16) 0xFFFF;
    }
    else idt v

pub set_gate : Idt → ℕ → ℕ → ℕ → Idt
unfolding set_gate_attr
set_gate idt cs vector addr = set_gate_attr idt cs vector addr interrupt_gate

-- for (vec = …; …; vec++) idt_set_gate(vec, handler), for the `left` vectors from `vec` on.
pub set_gates : ℕ → ℕ → ℕ → ℕ → Idt → Idt
unfolding set_gate
set_gates zero vec cs addr idt = idt
set_gates (suc left) vec cs addr idt = set_gates left (vec + 1) cs addr (set_gate idt cs vec addr)

-- The 256 entries are cleared before the gates are set.
pub fill_idt : ℕ → Stubs → Idt
unfolding set_gates set_gate set_gate_attr
fill_idt cs stubs =
    let t₁ = set_gates 32 0 cs stubs.isr_fault (λ v. no_gate) in
    let t₂ = set_gate t₁ cs 0x0E stubs.page_fault in
    let t₃ = set_gates 8 0x20 cs stubs.irq_master t₂ in
    let t₄ = set_gates 8 0x28 cs stubs.irq_slave t₃ in
    let t₅ = set_gate_attr t₄ cs 0x80 stubs.syscall trap_gate_user in
    let t₆ = set_gate_attr t₅ cs 0x81 stubs.usermode_exit trap_gate_user in
    let t₇ = set_gate t₆ cs 0x20 stubs.irq0 in set_gate t₇ cs 0x21 stubs.irq1

-- The bytes for the ports.
pub pic_remap_and_mask : List (ℕ × ℕ)
pic_remap_and_mask =
    (0x20, 0x11)
    ∷ (0xA0, 0x11)
    ∷ (0x21, 0x20)
    ∷ (0xA1, 0x28)
    ∷ (0x21, 0x04)
    ∷ (0xA1, 0x02)
    ∷ (0x21, 0x01)
    ∷ (0xA1, 0x01)
    ∷ (0x21, 0xFC)
    ∷ (0xA1, 0xFF)
    ∷ []

-- The table that is loaded, the bytes sent, and the keyboard.
pub init : ℕ → Stubs → Keyboard → Idt × List (ℕ × ℕ) × Keyboard
unfolding fill_idt pic_remap_and_mask
init cs stubs k = (fill_idt cs stubs, pic_remap_and_mask, Keyboard.buffer_reset k)

-- What the screen and the port get before the machine halts; `none` where the printing of a number
-- runs out of rounds.
pub fault_panic : Vga → Serial → ℕ → ℕ → Option (Vga × Serial)
fault_panic v s pid tid =
    let s₁ = Serial.puts (Serial.puts s (codes "KERNEL PANIC: CPU exception\n")) (codes "pid=") in
    let s₂ = Serial.puts (Serial.put_hex32 s₁ pid) (codes " tid=") in
    let s₃ = Serial.puts (Serial.put_hex32 s₂ tid) (codes "\n") in
    elim (Vga.put_dec32
      (Vga.puts (Vga.puts v (codes "\n\nKERNEL PANIC: CPU exception\n")) (codes "pid=")) pid) [
        | none ↦ none
        | some v₁ ↦ elim (Vga.put_dec32 (Vga.puts v₁ (codes " tid=")) tid) [
          | none ↦ none
          | some v₂ ↦ some (
            Vga.puts (Vga.putc v₂ 10) (codes "System halted\n"),
            Serial.puts s₃ (codes "System halted\n"),
          )
        ]
      ]
