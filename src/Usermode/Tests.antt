-- ===== src/Usermode/Tests.antt =====
-- A concrete start of the test of kernel/usermode.c.
use mars_os.Base.{false, true, some, ◌≡◌, refl}
use mars_os.Paging.Tests.{one_page}
use mars_os.Usermode.{Usermode, enter_test}

abbrev fresh : Usermode
fresh = record { prepared = false; space = one_page; byte = λ a. 0 }

entered :
    enter_test (record fresh { prepared = true }) 0x9000 ≡ some (0x9000, 0x40000000, 0x40001FF0)
unfolding enter_test
entered = refl
