-- ===== src/Usermode/Prepared.antt =====
-- What `usermode_prepare` of kernel/usermode.c does to the current directory.
use mars_os.Base.{ℕ, ◌≡◌, Bool, true, false}
use mars_os.Paging.{translate}
use mars_os.Paging.Ensure.{IsSpace}
use mars_os.Machine.UserSpace.Pages.{code_of, stack_of, with_pages}
use mars_os.Usermode.{Usermode, is_prepared}

-- How a preparation ends, seen at the address `w`: it is refused and may be tried again, or the code
-- and the stack page lead to two new frames, and every other address where it did.
pub data Outcome (u : Usermode) (w : ℕ) : Bool × Usermode → Type 0 where
  refused : (u' : Usermode) → is_prepared u' ≡ false → Outcome u w (false, u')
  ready :
      (u' : Usermode)
      → is_prepared u' ≡ true
      → IsSpace u'.space
      → translate u'.space w ≡ with_pages (code_of u.space) (stack_of u.space) (translate u.space) w
      → Outcome u w (true, u')
