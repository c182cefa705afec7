-- ===== src/Machine/Spawn.antt =====
-- `process_spawn_common` of kernel/process.c. The interrupts are off between the new task and its
-- entry in the table, so that the steps are one.
pub mod Spawned
use mars_os.Base.{
  ℕ, zero, suc, ◌+◌, ◌-◌, ◌%◌, ◌^◌, Bool, true, false, not, ◌&&◌, ◌||◌, List, [], ◌∷◌, get_or, set,
  Option, none, some, ◌==◌, if◌then◌else◌,
}
use Prim.Native.Nat.{bit_or}
use mars_os.Base.Text.{codes, str_copy}
use mars_os.Allocator.{Allocator}
use mars_os.Paging.{Space, clone_kernel_directory, kernel_directory_phys}
use mars_os.Process.{
  Process, Processes, no_process, process_find_free_slot, process_alloc_pid, syscall_mask_kernel,
}
use mars_os.Scheduler.{create_task, Memory}
use mars_os.Machine.{Machine, Linked}
use mars_os.Machine.UserSpace.{user_code_vaddr, give_back, unmap_user_pages}
use mars_os.Machine.Program.{Built, build_user_image}

abbrev pub syscall_bits : List ℕ → ℕ
syscall_bits [] = 0
syscall_bits (x ∷ xs) = bit_or (2 ^ x) (syscall_bits xs)

abbrev pub syscall_mask_user : ℕ
syscall_mask_user =
    syscall_bits
      (0 ∷ 1 ∷ 2 ∷ 3 ∷ 4 ∷ 5 ∷ 6 ∷ 7 ∷ 9 ∷ 10 ∷ 11 ∷ 13 ∷ 14 ∷ 15 ∷ 16 ∷ 17 ∷ 18 ∷ 19 ∷ [])

pub new_process : ℕ → ℕ → ℕ → Built → Bool → List ℕ → Option (List ℕ) → Process
new_process pid tid cr3 b is_kernel old_name name = record {
  pid = pid;
  tid = tid;
  cr3 = cr3;
  user_code_frame = b.code_frame;
  user_stack_frame = b.stack_frame;
  user_entry = b.entry;
  syscall_mask_low = if is_kernel then syscall_mask_kernel else syscall_mask_user;
  is_kernel = is_kernel;
  active = true;
  name = str_copy old_name (elim name [ none ↦ codes "proc" | some n ↦ n ]) 16;
}

-- The pid, and the table with the new process.
pub enter_process : Processes → ℕ → ℕ → ℕ → Built → Bool → Option (List ℕ) → ℕ × Processes
unfolding new_process
enter_process ps slot tid cr3 b is_kernel name =
    let (pid, ps') = process_alloc_pid ps in
    let old = (get_or ps'.table slot no_process).name in
    let p = new_process pid tid cr3 b is_kernel old name in
    (pid, record ps' { table = set ps'.table slot p })

-- Where there is no task for the new process, its memory is given back.
abbrev pub discard : Space → ℕ → Built → Space
discard s cr3 b =
    give_back (give_back (give_back (unmap_user_pages s cr3) b.stack_frame) b.code_frame) cr3

-- The memory, with the heap that grows in the active directory.
abbrev pub with_space : {alloc : Allocator} → Machine alloc → Memory alloc
with_space {alloc} m = record m.memory { heap = alloc.in_space m.memory.heap m.space }

module _ (alloc : Allocator) (at : Linked) where
  open alloc use {space_of}

  -- The task and the entry. The arguments before the last are those of `scheduler_create_task`.
  pub start_process :
      Machine alloc → ℕ → ℕ → Built → Bool → ℕ → ℕ → Option (List ℕ) → Option ℕ × Machine alloc
  unfolding enter_process
  start_process m slot cr3 b is_kernel entry arg name =
      let (tid, scheduler, memory) =
        create_task alloc m.scheduler (with_space m) entry arg name at.scheduler_task_bootstrap in
      let s = space_of memory.heap in
      elim tid [
        | none ↦ (
          none,
          record m {
            scheduler = scheduler;
            memory = memory;
            space = if is_kernel then s else discard s cr3 b;
          },
        )
        | some t ↦
            let (pid, ps) = enter_process m.processes slot t cr3 b is_kernel name in
            (
              some pid,
              record m { scheduler = scheduler; memory = memory; processes = ps; space = s },
            )
      ]

  pub spawn_kernel_in : Machine alloc → ℕ → Option (List ℕ) → ℕ → ℕ → Option ℕ × Machine alloc
  unfolding start_process
  spawn_kernel_in m slot name entry arg =
      let b : Built = record { code_frame = 0; stack_frame = 0; entry = user_code_vaddr } in
      start_process m slot (kernel_directory_phys m.space) b true entry arg name

  pub spawn_user_in : Machine alloc → ℕ → Option (List ℕ) → ℕ → Option ℕ × Machine alloc
  unfolding start_process build_user_image
  spawn_user_in m slot name arg =
      let user_prog_id = if arg == 0 then 1 else arg in
      let (cloned, s) = clone_kernel_directory m.space in
      elim cloned [
        | none ↦ (none, record m { space = s })
        | some cr3 ↦
            let (built, m') =
              build_user_image alloc (record m { space = s }) cr3 user_prog_id name in
            elim built [
              | none ↦ (none, record m' { space = give_back m'.space cr3 })
              | some b ↦
                  start_process m' slot cr3 b false at.process_user_task_entry (slot + 1) name
            ]
      ]

  -- The pid, or `none` for -1.
  pub spawn_common : Machine alloc → Option (List ℕ) → ℕ → ℕ → Bool → Option ℕ × Machine alloc
  unfolding spawn_kernel_in spawn_user_in
  spawn_common m name entry arg is_kernel =
      if not m.processes.ready || (is_kernel && entry == 0)
      then (none, m)
      else (elim (process_find_free_slot m.processes) [
        | none ↦ (none, m)
        | some slot ↦
            if is_kernel
            then spawn_kernel_in m slot name entry arg
            else spawn_user_in m slot name arg
      ])

  unfoldable pub spawn_user : Machine alloc → Option (List ℕ) → ℕ → ℕ → Option ℕ × Machine alloc
  unfolding spawn_common
  spawn_user m name entry arg = spawn_common m name entry arg false

  unfoldable pub spawn_kernel : Machine alloc → Option (List ℕ) → ℕ → ℕ → Option ℕ × Machine alloc
  unfolding spawn_common
  spawn_kernel m name entry arg = spawn_common m name entry arg true
