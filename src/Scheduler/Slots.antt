-- ===== src/Scheduler/Slots.antt =====
-- Creating and reaping tasks: which slot is taken, and what stays as it was.
use mars_os.Base.{
  ℕ, zero, suc, ◌+◌, ◌≤◌, ◌<◌, ◌≡◌, refl, sym, ◌≢◌, ◌==◌, if◌then◌else◌, arith, Bool, true, false,
  not, ◌&&◌, ◌||◌, Option, none, some, List, length-set, get_or_beyond, Bool-cases, Option-cases,
  inl, inr, ◌∙◌,
}
use mars_os.Base.Text.{str_copy, codes}
use mars_os.Allocator.{Allocator}
use mars_os.Scheduler.{
  Scheduler, Task, task_at, set_task, runnable, is_unused, is_running, is_zombie, no_task,
  create_task, reap_task, find_slot, initial_stack, Memory,
}
use mars_os.Scheduler.Table.{task_at-set_task}
use mars_os.Scheduler.Invariant.{IsValid}

-- A slot that a new task may take.
abbrev pub is_open : Scheduler → ℕ → Bool
is_open s i = is_unused (task_at s i).state || is_zombie (task_at s i).state

record Slot (s : Scheduler) (from rounds idx : ℕ) : Type 0 where
  lower : from ≤ idx
  upper : idx < from + rounds
  opened : is_open s idx ≡ true
  first : (j : ℕ) → from ≤ j → j < idx → is_open s j ≡ false

module _ (alloc : Allocator) where
  find_slot-Slot :
      (rounds : ℕ) (s : Scheduler) (from idx : ℕ)
      → find_slot alloc rounds s from ≡ some idx
      → Slot s from rounds idx
  unfolding find_slot
  find_slot-Slot zero s from idx e = absurd (ground arith)
  find_slot-Slot (suc rounds) s from idx e = elim (Bool-cases (is_open s from)) [
    | inl here ↦ record {
      lower = ground arith;
      upper = ground arith;
      opened = ground arith;
      first = λ j l g. absurd (ground arith);
    }
    | inr busy ↦
        let rest = find_slot-Slot rounds s (from + 1) idx (ground arith) in
        record {
          lower = omega (arith, rest.lower);
          upper = omega (arith, rest.upper);
          opened = rest.opened;
          first = λ j l g. elim (Bool-cases (from == j)) [
            | inl same ↦ ground arith
            | inr later ↦ rest.first j (ground arith) g
          ];
        }
  ]

  find_slot-none :
      (rounds : ℕ) (s : Scheduler) (from j : ℕ)
      → find_slot alloc rounds s from ≡ none
      → from ≤ j
      → j < from + rounds
      → is_open s j ≡ false
  unfolding find_slot
  find_slot-none zero s from j e l g = absurd (omega arith)
  find_slot-none (suc rounds) s from j e l g = elim (Bool-cases (from == j)) [
    | inl same ↦ ground arith
    | inr later ↦ find_slot-none rounds s (from + 1) j (ground arith) (ground arith) (omega arith)
  ]

-- A valid table stays so when an open slot other than task 0's takes a task that does not run.
set_task-IsValid :
    (s : Scheduler) (idx : ℕ) (t : Task)
    → IsValid s
    → idx < 16
    → idx ≢ 0
    → idx ≢ s.current_task
    → is_running t.state ≡ false
    → IsValid (set_task s idx t)
set_task-IsValid s idx t v l pos other still = record {
  size = length-set s.tasks idx t ∙ v.size;
  in_range = v.in_range;
  is_started = v.is_started;
  current_running =
      ground (arith, task_at-set_task s idx s.current_task t, v.current_running, v.size);
  alone = λ i n. ground (arith, task_at-set_task s idx i t, v.alone i, v.size);
  kernel_used = ground (arith, task_at-set_task s idx 0 t, v.kernel_used, v.size);
  kernel_alive = ground (arith, task_at-set_task s idx 0 t, v.kernel_alive, v.size);
}

module _ (alloc : Allocator) (s : Scheduler) (v : IsValid s) where
  -- Reaping succeeds exactly for a zombie other than task 0, and frees its slot; otherwise it
  -- changes nothing. The table stays valid.
  pub reap_task_lem :
      (heap : alloc.Heap) (tid : ℕ)
      → let (reaped, s', heap') = reap_task alloc s heap tid in
        (reaped ≡ (not (tid == 0) && is_zombie (task_at s tid).state))
        × (s' ≡ (if reaped then set_task s tid no_task else s))
        × IsValid s'
  unfolding reap_task
  reap_task_lem heap tid = elim (Bool-cases (not (tid == 0) && is_zombie (task_at s tid).state)) [
    | inl dead ↦
        let done : reap_task alloc s heap tid ≡ (
          true,
          set_task s tid no_task,
          (if (task_at s tid).stack_base == 0
              then heap
              else alloc.kfree heap (task_at s tid).stack_base),
        ) =
          ground (arith, get_or_beyond s.tasks tid no_task, v.size) in
        rw done (
          sym dead,
          refl,
          set_task-IsValid s tid no_task v
              (ground (arith, get_or_beyond s.tasks tid no_task, v.size)) (ground arith)
              (ground (arith, v.current_running)) refl,
        )
    | inr alive ↦
        let undone : reap_task alloc s heap tid ≡ (false, s, heap) = ground arith in
        rw undone (sym alive, refl, v)
  ]

  module _ (m : Memory alloc) (entry arg : ℕ) (name : Option (List ℕ)) (bootstrap : ℕ) where
    abbrev pub created : Option ℕ × Scheduler × Memory alloc
    created = create_task alloc s m entry arg name bootstrap

    record Created (idx : ℕ) : Type 0 where
      slot : Slot s 1 15 idx
      task : Task
      table : created.1 ≡ set_task s idx task
      is_ready : task.state ≡ runnable
      entry_eq : task.entry ≡ entry
      arg_eq : task.arg ≡ arg

    create_task-Created : (idx : ℕ) → created.0 ≡ some idx → Created idx
    unfolding create_task
    create_task-Created idx h = elim (Option-cases (find_slot alloc 15 s 1)) [
      | inl o ↦ absurd (ground (arith, o))
      | inr (i, o) ↦
          let t = task_at s idx in
          let stack = (alloc.kmalloc m.heap 8192).0 in
          record {
            slot = find_slot-Slot alloc 15 s 1 idx (ground (arith, o));
            task = record {
              sp = (initial_stack alloc m.word stack bootstrap).1;
              stack_base = stack;
              entry = entry;
              arg = arg;
              state = runnable;
              name = str_copy t.name (elim name [ none ↦ codes "task" | some n ↦ n ]) 16;
            };
            table = ground (arith, o);
            is_ready = refl;
            entry_eq = refl;
            arg_eq = refl;
          }
    ]

    -- A task that is created stands in an open slot, not task 0's, runnable, with its entry and
    -- argument; every other slot is as it was, and the table stays valid.
    pub create_task-some :
        (idx j : ℕ)
        → created.0 ≡ some idx
        → let t = task_at created.1 idx in
          (1 ≤ idx)
          × (idx < 16)
          × (is_open s idx ≡ true)
          × (t.state ≡ runnable)
          × (t.entry ≡ entry)
          × (t.arg ≡ arg)
          × (task_at created.1 j ≡ (if idx == j then t else task_at s j))
          × IsValid created.1
    create_task-some idx j h =
        let c = create_task-Created idx h in
        let same = task_at-set_task s idx idx c.task (omega (arith, v.size, c.slot.upper)) in
        let other = task_at-set_task s idx j c.task (omega (arith, v.size, c.slot.upper)) in
        rw c.table (
          c.slot.lower,
          c.slot.upper,
          c.slot.opened,
          ground (arith, same, c.is_ready),
          ground (arith, same, c.entry_eq),
          ground (arith, same, c.arg_eq),
          ground (arith, same, other),
          set_task-IsValid s idx c.task v c.slot.upper (omega (arith, c.slot.lower))
              (ground (arith, c.slot.opened, v.current_running)) (ground (arith, c.is_ready)),
        )

    -- For an entry that is not null, a call succeeds if some slot from 1 on is open and the heap
    -- gives a stack.
    pub create_task-succeeds :
        (j : ℕ)
        → entry ≢ 0
        → 1 ≤ j
        → j < 16
        → is_open s j ≡ true
        → (alloc.kmalloc m.heap 8192).0 ≢ 0
        → created.0 ≢ none
    unfolding create_task
    create_task-succeeds j e l g o k = elim (Option-cases (find_slot alloc 15 s 1)) [
      | inl n ↦ absurd (ground (arith, find_slot-none alloc 15 s 1 j n l g))
      | inr (i, n) ↦ ground (arith, n, v.is_started)
    ]

    -- A call that fails leaves the table as it was.
    pub create_task-none : created.0 ≡ none → created.1 ≡ s
    unfolding create_task
    create_task-none h = elim (Option-cases (find_slot alloc 15 s 1)) [
      | inl o ↦ ground (arith, o)
      | inr (i, o) ↦ ground (arith, o)
    ]
