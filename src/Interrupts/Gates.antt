-- ===== src/Interrupts/Gates.antt =====
-- What each interrupt enters after `interrupts_init` of kernel/interrupts.c, and which of them a
-- program in user mode can raise.
use mars_os.Base.{
  ℕ, zero, suc, ◌+◌, ◌*◌, ◌/◌, ◌%◌, ◌^◌, ◌<◌, ◌≡◌, ◌∙◌, Bool, ◌&&◌, ◌||◌, ◌==◌, leb, ltb,
  if◌then◌else◌, arith,
}
use mars_os.Base.Bits.{bit_and-ones}
use mars_os.Interrupts.{
  Idt, IdtEntry, Stubs, set_gate_attr, set_gate, set_gates, fill_idt, no_gate, interrupt_gate,
  trap_gate_user,
}

-- The address that a gate enters, and the level from which an instruction may raise it.
unfoldable pub handler_of : IdtEntry → ℕ
handler_of e = e.offset_low + e.offset_high * 2 ^ 16

unfoldable pub dpl_of : IdtEntry → ℕ
dpl_of e = e.type_attr / 32 % 4

-- The present bit and the kind of the gate (14 for an interrupt gate, 15 for a trap gate).
unfoldable pub present_of : IdtEntry → ℕ
present_of e = e.type_attr / 128 % 2

unfoldable pub kind_of : IdtEntry → ℕ
kind_of e = e.type_attr % 32

-- The stub that each vector is for; 0 for a vector without one.
unfoldable pub stub_for : Stubs → ℕ → ℕ
stub_for stubs v =
    if v == 0x80
    then stubs.syscall
    else if v == 0x81
    then stubs.usermode_exit
    else if v == 0x0E
    then stubs.page_fault
    else if leb v 0x1F
    then stubs.isr_fault
    else if v == 0x20
    then stubs.irq0
    else if v == 0x21
    then stubs.irq1
    else if leb v 0x27
    then stubs.irq_master
    else if leb v 0x2F
    then stubs.irq_slave
    else 0

handler-set_gate_attr :
    (idt : Idt) (cs w addr attr v : ℕ)
    → addr < 2 ^ 32
    → handler_of (set_gate_attr idt cs w addr attr v)
      ≡ (if v == w then addr else handler_of (idt v))
unfolding handler_of set_gate_attr
handler-set_gate_attr idt cs w addr attr v h =
    ground (arith, bit_and-ones 16 addr, bit_and-ones 16 (addr / 2 ^ 16))

attr-set_gate_attr :
    (idt : Idt) (cs w addr attr v : ℕ)
    → (set_gate_attr idt cs w addr attr v).type_attr ≡ (if v == w then attr else (idt v).type_attr)
unfolding set_gate_attr
attr-set_gate_attr idt cs w addr attr v = ground arith

selector-set_gate_attr :
    (idt : Idt) (cs w addr attr v : ℕ)
    → (set_gate_attr idt cs w addr attr v).selector ≡ (if v == w then cs else (idt v).selector)
unfolding set_gate_attr
selector-set_gate_attr idt cs w addr attr v = ground arith

abbrev in_gates : ℕ → ℕ → ℕ → Bool
in_gates vec left v = leb vec v && ltb v (vec + left)

handler-set_gates :
    (left vec cs addr : ℕ) (idt : Idt) (v : ℕ)
    → addr < 2 ^ 32
    → handler_of (set_gates left vec cs addr idt v)
      ≡ (if in_gates vec left v then addr else handler_of (idt v))
unfolding set_gates set_gate
handler-set_gates zero vec cs addr idt v h = ground arith
handler-set_gates (suc left) vec cs addr idt v h =
    let idt' = set_gate idt cs vec addr in
    handler-set_gates left (vec + 1) cs addr idt' v h
    ∙ ground (arith, handler-set_gate_attr idt cs vec addr interrupt_gate v h)

attr-set_gates :
    (left vec cs addr : ℕ) (idt : Idt) (v : ℕ)
    → (set_gates left vec cs addr idt v).type_attr
      ≡ (if in_gates vec left v then 0x8E else (idt v).type_attr)
unfolding set_gates set_gate
attr-set_gates zero vec cs addr idt v = ground arith
attr-set_gates (suc left) vec cs addr idt v =
    attr-set_gates left (vec + 1) cs addr (set_gate idt cs vec addr) v
    ∙ ground (arith, attr-set_gate_attr idt cs vec addr interrupt_gate v)

selector-set_gates :
    (left vec cs addr : ℕ) (idt : Idt) (v : ℕ)
    → (set_gates left vec cs addr idt v).selector
      ≡ (if in_gates vec left v then cs else (idt v).selector)
unfolding set_gates set_gate
selector-set_gates zero vec cs addr idt v = ground arith
selector-set_gates (suc left) vec cs addr idt v =
    selector-set_gates left (vec + 1) cs addr (set_gate idt cs vec addr) v
    ∙ ground (arith, selector-set_gate_attr idt cs vec addr interrupt_gate v)

-- The stubs have 32-bit addresses.
pub record AreWords (stubs : Stubs) : Type 0 where
  pub irq0_lt : stubs.irq0 < 2 ^ 32
  pub irq1_lt : stubs.irq1 < 2 ^ 32
  pub irq_master_lt : stubs.irq_master < 2 ^ 32
  pub irq_slave_lt : stubs.irq_slave < 2 ^ 32
  pub isr_fault_lt : stubs.isr_fault < 2 ^ 32
  pub page_fault_lt : stubs.page_fault < 2 ^ 32
  pub syscall_lt : stubs.syscall < 2 ^ 32
  pub usermode_exit_lt : stubs.usermode_exit < 2 ^ 32

-- The handlers after each of the eight steps.
last_handler :
    (stubs : Stubs) (v h₁ h₂ h₃ h₄ h₅ h₆ h₇ h₈ : ℕ)
    → h₁ ≡ (if in_gates 0 32 v then stubs.isr_fault else 0)
    → h₂ ≡ (if v == 0x0E then stubs.page_fault else h₁)
    → h₃ ≡ (if in_gates 0x20 8 v then stubs.irq_master else h₂)
    → h₄ ≡ (if in_gates 0x28 8 v then stubs.irq_slave else h₃)
    → h₅ ≡ (if v == 0x80 then stubs.syscall else h₄)
    → h₆ ≡ (if v == 0x81 then stubs.usermode_exit else h₅)
    → h₇ ≡ (if v == 0x20 then stubs.irq0 else h₆)
    → h₈ ≡ (if v == 0x21 then stubs.irq1 else h₇)
    → h₈ ≡ stub_for stubs v
unfolding stub_for
last_handler stubs v h₁ h₂ h₃ h₄ h₅ h₆ h₇ h₈ e₁ e₂ e₃ e₄ e₅ e₆ e₇ e₈ = ground arith

last_attr :
    (v l₁ l₂ l₃ l₄ l₅ l₆ l₇ l₈ : ℕ)
    → l₁ ≡ (if in_gates 0 32 v then 0x8E else 0)
    → l₂ ≡ (if v == 0x0E then 0x8E else l₁)
    → l₃ ≡ (if in_gates 0x20 8 v then 0x8E else l₂)
    → l₄ ≡ (if in_gates 0x28 8 v then 0x8E else l₃)
    → l₅ ≡ (if v == 0x80 then 0xEF else l₄)
    → l₆ ≡ (if v == 0x81 then 0xEF else l₅)
    → l₇ ≡ (if v == 0x20 then 0x8E else l₆)
    → l₈ ≡ (if v == 0x21 then 0x8E else l₇)
    → l₈ ≡ (if v == 0x80 || v == 0x81 then 0xEF else if leb v 0x2F then 0x8E else 0)
last_attr v l₁ l₂ l₃ l₄ l₅ l₆ l₇ l₈ e₁ e₂ e₃ e₄ e₅ e₆ e₇ e₈ = ground arith

last_selector :
    (cs v l₁ l₂ l₃ l₄ l₅ l₆ l₇ l₈ : ℕ)
    → l₁ ≡ (if in_gates 0 32 v then cs else 0)
    → l₂ ≡ (if v == 0x0E then cs else l₁)
    → l₃ ≡ (if in_gates 0x20 8 v then cs else l₂)
    → l₄ ≡ (if in_gates 0x28 8 v then cs else l₃)
    → l₅ ≡ (if v == 0x80 then cs else l₄)
    → l₆ ≡ (if v == 0x81 then cs else l₅)
    → l₇ ≡ (if v == 0x20 then cs else l₆)
    → l₈ ≡ (if v == 0x21 then cs else l₇)
    → l₈ ≡ (if v == 0x80 || v == 0x81 || leb v 0x2F then cs else 0)
last_selector cs v l₁ l₂ l₃ l₄ l₅ l₆ l₇ l₈ e₁ e₂ e₃ e₄ e₅ e₆ e₇ e₈ = ground arith

-- The vectors that have a gate.
abbrev pub has_gate : ℕ → Bool
has_gate v = v == 0x80 || v == 0x81 || leb v 0x2F

attr-bits :
    (attr v : ℕ)
    → attr ≡ (if v == 0x80 || v == 0x81 then 0xEF else if leb v 0x2F then 0x8E else 0)
    → (attr / 128 % 2 ≡ (if has_gate v then 1 else 0))
      × (attr % 32 ≡ (if v == 0x80 || v == 0x81 then 15 else if has_gate v then 14 else 0))
      × (attr / 32 % 4 ≡ (if v == 0x80 || v == 0x81 then 3 else 0))
attr-bits attr v e = (ground arith, ground arith, ground arith)

-- After `interrupts_init`, if the stubs have 32-bit addresses, the present gates are those of 0 to
-- 0x2F, 0x80 and 0x81. Each enters its stub in the kernel's code segment, through a trap gate for
-- 0x80 and 0x81 and an interrupt gate for the others, and a program in user mode can raise 0x80, the
-- system call, and 0x81, the exit, and no other.
pub fill_idt-gates :
    (cs : ℕ) (stubs : Stubs) (v : ℕ)
    → AreWords stubs
    → (handler_of (fill_idt cs stubs v) ≡ stub_for stubs v)
      × (present_of (fill_idt cs stubs v) ≡ (if has_gate v then 1 else 0))
      × ((fill_idt cs stubs v).selector ≡ (if has_gate v then cs else 0))
      × (kind_of (fill_idt cs stubs v)
          ≡ (if v == 0x80 || v == 0x81 then 15 else if has_gate v then 14 else 0))
      × (dpl_of (fill_idt cs stubs v) ≡ (if v == 0x80 || v == 0x81 then 3 else 0))
unfolding fill_idt set_gate handler_of dpl_of present_of kind_of
fill_idt-gates cs stubs v w =
    let t₁ = set_gates 32 0 cs stubs.isr_fault (λ x. no_gate) in
    let t₂ = set_gate t₁ cs 0x0E stubs.page_fault in
    let t₃ = set_gates 8 0x20 cs stubs.irq_master t₂ in
    let t₄ = set_gates 8 0x28 cs stubs.irq_slave t₃ in
    let t₅ = set_gate_attr t₄ cs 0x80 stubs.syscall trap_gate_user in
    let t₆ = set_gate_attr t₅ cs 0x81 stubs.usermode_exit trap_gate_user in
    let t₇ = set_gate t₆ cs 0x20 stubs.irq0 in
    let attr : (fill_idt cs stubs v).type_attr
        ≡ (if v == 0x80 || v == 0x81 then 0xEF else if leb v 0x2F then 0x8E else 0) =
      last_attr v _ _ _ _ _ _ _ _ (attr-set_gates 32 0 cs stubs.isr_fault (λ x. no_gate) v)
        (attr-set_gate_attr t₁ cs 0x0E stubs.page_fault interrupt_gate v)
        (attr-set_gates 8 0x20 cs stubs.irq_master t₂ v)
        (attr-set_gates 8 0x28 cs stubs.irq_slave t₃ v)
        (attr-set_gate_attr t₄ cs 0x80 stubs.syscall trap_gate_user v)
        (attr-set_gate_attr t₅ cs 0x81 stubs.usermode_exit trap_gate_user v)
        (attr-set_gate_attr t₆ cs 0x20 stubs.irq0 interrupt_gate v)
        (attr-set_gate_attr t₇ cs 0x21 stubs.irq1 interrupt_gate v) in
    let bits = attr-bits _ v attr in
    (
      last_handler stubs v _ _ _ _ _ _ _ _
          (handler-set_gates 32 0 cs stubs.isr_fault (λ x. no_gate) v w.isr_fault_lt)
          (handler-set_gate_attr t₁ cs 0x0E stubs.page_fault interrupt_gate v w.page_fault_lt)
          (handler-set_gates 8 0x20 cs stubs.irq_master t₂ v w.irq_master_lt)
          (handler-set_gates 8 0x28 cs stubs.irq_slave t₃ v w.irq_slave_lt)
          (handler-set_gate_attr t₄ cs 0x80 stubs.syscall trap_gate_user v w.syscall_lt)
          (handler-set_gate_attr t₅ cs 0x81 stubs.usermode_exit trap_gate_user v w.usermode_exit_lt)
          (handler-set_gate_attr t₆ cs 0x20 stubs.irq0 interrupt_gate v w.irq0_lt)
          (handler-set_gate_attr t₇ cs 0x21 stubs.irq1 interrupt_gate v w.irq1_lt),
      bits.0,
      last_selector cs v _ _ _ _ _ _ _ _
          (selector-set_gates 32 0 cs stubs.isr_fault (λ x. no_gate) v)
          (selector-set_gate_attr t₁ cs 0x0E stubs.page_fault interrupt_gate v)
          (selector-set_gates 8 0x20 cs stubs.irq_master t₂ v)
          (selector-set_gates 8 0x28 cs stubs.irq_slave t₃ v)
          (selector-set_gate_attr t₄ cs 0x80 stubs.syscall trap_gate_user v)
          (selector-set_gate_attr t₅ cs 0x81 stubs.usermode_exit trap_gate_user v)
          (selector-set_gate_attr t₆ cs 0x20 stubs.irq0 interrupt_gate v)
          (selector-set_gate_attr t₇ cs 0x21 stubs.irq1 interrupt_gate v),
      bits.1,
      bits.2,
    )
