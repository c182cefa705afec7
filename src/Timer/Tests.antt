-- ===== src/Timer/Tests.antt =====
-- A timer of kernel/timer.c at 100 interrupts a second.
use mars_os.Base.{◌≡◌, refl, [], ◌∷◌}
use mars_os.Timer.{init}

divisor : (init 100).1 ≡ (0x43, 0x36) ∷ (0x40, 0x9B) ∷ (0x40, 0x2E) ∷ []
unfolding init
divisor = refl
