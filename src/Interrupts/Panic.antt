-- ===== src/Interrupts/Panic.antt =====
-- `interrupts_fault_panic` of kernel/interrupts.c prints its report to the end.
use mars_os.Base.{ℕ, ◌^◌, ◌<◌, ◌≡◌, some, arith, Option-cases, inl, inr}
use mars_os.Base.Text.{codes}
use mars_os.Vga
use mars_os.Vga.{Vga}
use mars_os.Vga.Numbers.{put_dec32-some}
use mars_os.Serial.{Serial}
use mars_os.Interrupts.{fault_panic}

pub fault_panic-some :
    (v : Vga) (s : Serial) (pid tid : ℕ)
    → pid < 2 ^ 32
    → tid < 2 ^ 32
    → (r : Vga × Serial) × (fault_panic v s pid tid ≡ some r)
unfolding fault_panic
fault_panic-some v s pid tid h l =
    let v₁ = Vga.puts (Vga.puts v (codes "\n\nKERNEL PANIC: CPU exception\n")) (codes "pid=") in
    let (v₂, p) = put_dec32-some v₁ pid h in
    let (v₃, t) = put_dec32-some (Vga.puts v₂ (codes " tid=")) tid l in
    elim (Option-cases (fault_panic v s pid tid)) [
      | inl e ↦ absurd (ground (arith, e, p, t))
      | inr found ↦ found
    ]
