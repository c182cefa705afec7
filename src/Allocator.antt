-- ===== src/Allocator.antt =====
-- The kernel heap as its clients see it (kernel/kheap.h): `kmalloc` returns an address, 0 when it
-- fails, and `kfree` takes one; the last two give its size and the bytes in use. The heap's state is
-- a type of the implementation's. A heap that grows takes frames, and maps them in the directory
-- that is active: a client hands both to it with `in_space`, and takes them back with `space_of`.
use mars_os.Base.{ℕ, ◌≡◌}
use mars_os.Paging.{Space}

pub record Allocator : Type 1 where
  pub Heap : Type 0
  pub kmalloc : Heap → ℕ → ℕ × Heap
  pub kfree : Heap → ℕ → Heap
  pub total_bytes : Heap → ℕ
  pub used_bytes : Heap → ℕ
  pub in_space : Heap → Space → Heap
  pub space_of : Heap → Space
  pub space_of-in_space : (h : Heap) (s : Space) → space_of (in_space h s) ≡ s
