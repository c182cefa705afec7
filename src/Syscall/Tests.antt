-- ===== src/Syscall/Tests.antt =====
-- A string of kernel/syscall.c in the kernel's memory.
use mars_os.Base.{ℕ, true, ◌==◌, if◌then◌else◌, arith}
use mars_os.Paging.Tests.{one_page}
use mars_os.Syscall.{copy_in_string}
use mars_os.Syscall.Copy.{Ends, byte_ok, copy_in_string_lem}

-- "ab" at 0x5000, which is a process's page.
abbrev memory : ℕ → ℕ
memory a = if a == 0x5000 then 97 else if a == 0x5001 then 98 else 0

copy_in_string_lem_example :
    Ends (byte_ok one_page true) memory 39 0x5000 (copy_in_string one_page memory 40 0x5000 true)
copy_in_string_lem_example = copy_in_string_lem one_page memory 40 0x5000 true (omega arith)
