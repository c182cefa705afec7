-- ===== src/Machine.antt =====
-- The kernel's components side by side, as the processes of kernel/process.c, the programs of
-- kernel/exec.c and the calls of kernel/syscall.c use them. The heap is an argument.
pub mod UserSpace
pub mod Program
pub mod Spawn
pub mod Exec
pub mod Reap
pub mod Dispatch
mod Tests
use mars_os.Base.{
  ℕ, zero, suc, ◌+◌, ◌%◌, ◌^◌, List, [], ◌∷◌, none, some, ◌&&◌, leb, ltb, ◌==◌, ◌-◌, if◌then◌else◌,
}
use mars_os.Allocator.{Allocator}
use mars_os.Paging.{Space, translate}
use mars_os.Process.{Processes}
use mars_os.Scheduler.{Scheduler, Memory}
use mars_os.Vfs.{Vfs}
use mars_os.Ipc.{Ipc}
use mars_os.Timer.{Timer}

-- `byte` is the contents of the frames that processes use, and of the kernel's data, by physical
-- address; the words of the page tables are in `space`, and those of the task stacks and the headers
-- of the heap's blocks in `memory`.
pub record Machine (alloc : Allocator) : Type 0 where
  pub processes : Processes
  pub space : Space
  pub scheduler : Scheduler
  pub memory : Memory alloc
  pub vfs : Vfs
  pub ipc : Ipc
  pub timer : Timer
  pub byte : ℕ → ℕ
  pub user_ping_count : ℕ

-- The addresses that the linker gives to the functions that tasks enter.
pub record Linked : Type 0 where
  pub scheduler_task_bootstrap : ℕ
  pub process_user_task_entry : ℕ
  pub app_counter : ℕ
  pub app_writer : ℕ

-- The byte at an address of the current directory.
pub byte_at : Space → (ℕ → ℕ) → ℕ → ℕ
byte_at s byte a = elim (translate s a) [ none ↦ 0 | some phys ↦ byte phys ]

-- A page of the current directory takes new bytes, given by their place in the page.
pub store_page : Space → (ℕ → ℕ) → ℕ → (ℕ → ℕ) → ℕ → ℕ
store_page s byte virt page = elim (translate s virt) [
  | none ↦ byte
  | some base ↦ λ a. if leb base a && ltb a (base + 0x1000) then page (a - base) else byte a
]

-- One byte is stored at an address of the current directory.
unfoldable pub store_byte : Space → (ℕ → ℕ) → ℕ → ℕ → ℕ → ℕ
store_byte s byte a c = elim (translate s a) [
  | none ↦ byte
  | some phys ↦ λ b. if b == phys then c else byte b
]

-- The bytes and the terminator are stored from an address of the current directory on.
pub store_string : Space → (ℕ → ℕ) → ℕ → List ℕ → ℕ → ℕ
unfolding store_byte
store_string s byte a [] = store_byte s byte a 0
store_string s byte a (c ∷ t) = store_string s (store_byte s byte a c) ((a + 1) % 2 ^ 32) t

-- The same without a terminator.
pub store_bytes : Space → (ℕ → ℕ) → ℕ → List ℕ → ℕ → ℕ
unfolding store_byte
store_bytes s byte a [] = byte
store_bytes s byte a (c ∷ t) = store_bytes s (store_byte s byte a c) ((a + 1) % 2 ^ 32) t
