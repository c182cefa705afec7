-- ===== src/Vfs/Tests.antt =====
-- A concrete file table for kernel/vfs.c.
use mars_os.Base.{ℕ, ◌+◌, ◌≡◌, refl, true, [], ◌∷◌, some, if◌then◌else◌}
use mars_os.Base.Text.{codes, c_str, str_eq, str_len, str_copy}
use mars_os.Allocator.{Allocator}
use mars_os.Paging.{Space}
use mars_os.Paging.Tests.{one_page}
use mars_os.Vfs.{
  Vfs, empty_file, find_file, find_free_slot, name_valid, read_file, file_name_at, write_file,
  write_buffer, write_new, write_old, fill_slot, starts_empty, name_at, init,
}
use mars_os.Vfs.Store.{written, read-write}

abbrev bump : Allocator
bump = record {
  Heap = ℕ × Space;
  kmalloc = λ h n. (h.0, (h.0 + n, h.1));
  kfree = λ h a. h;
  total_bytes = λ h. h.0;
  used_bytes = λ h. h.0;
  in_space = λ h s. (h.0, s);
  space_of = λ h. h.1;
  space_of-in_space = λ h s. refl;
}

-- One file and two free slots.
abbrev one_file : Vfs
one_file = record {
  files =
      record {
        name = codes "notes";
        data_ptr = 0x100000;
        text = codes "mars";
        len = 4;
        used = true;
      }
      ∷ empty_file
      ∷ empty_file
      ∷ [];
  ready = true;
}

first_name : file_name_at one_file 0 ≡ some (codes "notes")
unfolding file_name_at name_at
first_name = refl

written_there :
    (written bump one_file (0x200000, one_page) (codes "log") (codes "boot ok")).0 ≡ true
unfolding write_file write_buffer write_new fill_slot name_valid starts_empty find_file
    find_free_slot str_len str_eq
written_there = refl

welcome_there : (init bump (0x200000, one_page) (codes "MARSHEX CD81")).0 ≡ true
unfolding init write_file write_buffer write_new write_old fill_slot name_valid starts_empty
    find_file find_free_slot str_len str_eq str_copy
welcome_there = refl

read-write_example :
    read_file
      (written bump one_file (0x200000, one_page) (codes "log") (codes "boot ok")).1
      (some (codes "notes"))
    ≡ (if str_eq (codes "log") (codes "notes")
        then some (c_str (codes "boot ok"))
        else read_file one_file (some (codes "notes")))
read-write_example =
    read-write bump one_file (0x200000, one_page) (codes "log") (codes "boot ok") (codes "notes")
      written_there

notes_there : read_file one_file (some (codes "notes")) ≡ some (codes "mars")
unfolding read_file name_valid starts_empty find_file str_len str_eq
notes_there = refl
