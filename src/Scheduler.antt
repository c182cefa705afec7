-- ===== src/Scheduler.antt =====
-- kernel/scheduler.c: sixteen tasks, switched round robin. The stack pointer that a switch saves is
-- what `context_switch` (assembly) finds in the register: an argument of the calls that switch.
pub mod Table
pub mod Pick
pub mod Invariant
pub mod Fair
pub mod Slots
pub mod Tests
use mars_os.Base.{
  ℕ, zero, suc, ◌+◌, ◌-◌, ◌%◌, ◌^◌, Bool, true, false, not, ◌&&◌, ◌||◌, Option, none, some, List,
  [], ◌∷◌, length, get_or, set, replicate, ◌==◌, leb, ltb, if◌then◌else◌,
}
use mars_os.Base.Text.{str_copy, codes}
use mars_os.Allocator.{Allocator}

pub data TaskState : Type 0 where
  unused runnable running zombie : TaskState

pub record Task : Type 0 where
  pub sp : ℕ
  pub stack_base : ℕ
  pub entry : ℕ
  pub arg : ℕ
  pub state : TaskState
  pub name : List ℕ

pub record Scheduler : Type 0 where
  pub tasks : List Task
  pub started : Bool
  pub current_task : ℕ
  pub tick_since_switch : ℕ
  pub preempt_pending : Bool

abbrev pub max_tasks : ℕ
max_tasks = 16

abbrev pub task_stack_size : ℕ
task_stack_size = 8192

abbrev pub quantum_ticks : ℕ
quantum_ticks = 10

abbrev pub no_task : Task
no_task = record { sp = 0; stack_base = 0; entry = 0; arg = 0; state = unused; name = [] }

-- `tasks[i]`
abbrev pub task_at : Scheduler → ℕ → Task
task_at s i = get_or s.tasks i no_task

abbrev pub set_task : Scheduler → ℕ → Task → Scheduler
set_task s i t = record s { tasks = set s.tasks i t }

abbrev pub set_state : Scheduler → ℕ → TaskState → Scheduler
set_state s i st = set_task s i (record (task_at s i) { state = st })

abbrev pub is_unused : TaskState → Bool
is_unused unused = true
is_unused runnable = false
is_unused running = false
is_unused zombie = false

abbrev pub is_runnable : TaskState → Bool
is_runnable unused = false
is_runnable runnable = true
is_runnable running = false
is_runnable zombie = false

abbrev pub is_running : TaskState → Bool
is_running unused = false
is_running runnable = false
is_running running = true
is_running zombie = false

abbrev pub is_zombie : TaskState → Bool
is_zombie unused = false
is_zombie runnable = false
is_zombie running = false
is_zombie zombie = true

-- for (i = 1; i < MAX_TASKS; i++), with the rounds left first.
pub pick_loop : ℕ → Scheduler → ℕ → Option ℕ
pick_loop zero s i = none
pick_loop (suc rounds) s i =
    let rest = pick_loop rounds s (i + 1) in
    let idx = (s.current_task + i) % max_tasks in
    if is_runnable (task_at s idx).state then some idx else rest

-- `none` is -1.
pub pick_next : Scheduler → Option ℕ
unfolding pick_loop
pick_next s = if not s.started then none else (elim (pick_loop 15 s 1) [
  | some idx ↦ some idx
  | none ↦
      if not (s.current_task == 0)
        && (not (is_unused (task_at s 0).state) && not (is_zombie (task_at s 0).state))
      then some 0
      else none
])

-- `context_switch(&tasks[prev].sp, tasks[current_task].sp)`: the pointer that is saved.
abbrev pub save_sp : Scheduler → ℕ → ℕ → Scheduler
save_sp s prev sp = set_task s prev (record (task_at s prev) { sp = sp })

-- One round of the loop of `scheduler_task_exit` on the marked table: the task switched to, whose
-- address space `process_activate_tid` installs, or `none` where the processor halts.
abbrev pub exit_round : Scheduler → ℕ → Option ℕ × Scheduler
exit_round s sp = elim (pick_next s) [
  | none ↦ (none, s)
  | some next ↦ (
    some next,
    save_sp (set_state (record s { current_task = next }) next running) s.current_task sp,
  )
]

pub task_exit : Scheduler → ℕ → Option ℕ × Scheduler
task_exit s sp = exit_round (set_state s s.current_task zombie) sp

pub exit_current : Scheduler → ℕ → Option ℕ × Scheduler
unfolding task_exit
exit_current s sp =
    if not s.started then (none, s) else if s.current_task == 0 then (none, s) else task_exit s sp

pub init : Scheduler
init = record {
  tasks =
      record no_task { state = running; name = str_copy [] (codes "kernel") 16 }
      ∷ replicate 15 no_task;
  started = true;
  current_task = 0;
  tick_since_switch = 0;
  preempt_pending = false;
}

-- The task that the call switches to, whose address space `process_activate_tid` installs.
pub yield : Scheduler → ℕ → Option ℕ × Scheduler
yield s sp = if not s.started then (none, s) else (elim (pick_next s) [
  | none ↦ (none, s)
  | some next ↦
      let prev = s.current_task in
      let s₁ = if is_running (task_at s prev).state then set_state s prev runnable else s in
      let s₂ = set_state (record s₁ { current_task = next }) next running in
      let s₃ = record s₂ { tick_since_switch = 0; preempt_pending = false } in
      (some next, save_sp s₃ prev sp)
])

unfoldable pub on_tick : Scheduler → Scheduler
on_tick s =
    if not s.started
    then s
    else (let ticks = (s.tick_since_switch + 1) % 2 ^ 32 in
        record s {
          tick_since_switch = ticks;
          preempt_pending = if leb quantum_ticks ticks then true else s.preempt_pending;
        })

unfoldable pub run_pending : Scheduler → ℕ → Option ℕ × Scheduler
unfolding yield
run_pending s sp = if s.preempt_pending then yield s sp else (none, s)

count_tasks : (TaskState → Bool) → List Task → ℕ
count_tasks p [] = 0
count_tasks p (t ∷ ts) = (if p t.state then 1 else 0) + count_tasks p ts

pub task_count : Scheduler → ℕ
unfolding count_tasks
task_count s = count_tasks (λ st. not (is_unused st)) s.tasks

pub runnable_count : Scheduler → ℕ
unfolding count_tasks
runnable_count s = count_tasks (λ st. is_runnable st || is_running st) s.tasks

unfoldable pub current_task_id : Scheduler → ℕ
current_task_id s = s.current_task

unfoldable pub task_is_zombie : Scheduler → ℕ → Bool
task_is_zombie s tid = if leb max_tasks tid then false else is_zombie (task_at s tid).state

module _ (alloc : Allocator) where
  open alloc use {Heap, kmalloc, kfree}

  -- The words of memory, by address, and the heap.
  pub record Memory : Type 0 where
    pub word : ℕ → ℕ
    pub heap : Heap

  -- `sp--; *sp = value;`
  push_word : (ℕ → ℕ) × ℕ → ℕ → (ℕ → ℕ) × ℕ
  push_word (word, sp) value =
      let sp' = (sp + 2 ^ 32 - 4) % 2 ^ 32 in ((λ a. if a == sp' then value else word a), sp')

  -- The first frame of a task: the return address and the saved ebp, ebx, esi and edi.
  initial_stack : (ℕ → ℕ) → ℕ → ℕ → (ℕ → ℕ) × ℕ
  unfolding push_word
  initial_stack word stack bootstrap =
      push_word
        (push_word
          (push_word (push_word (push_word (word, (stack + task_stack_size) % 2 ^ 32) bootstrap) 0)
            0)
          0)
        0

  -- The index of the first slot from 1 on that is unused or a zombie.
  find_slot : ℕ → Scheduler → ℕ → Option ℕ
  find_slot zero s idx = none
  find_slot (suc rounds) s idx =
      let rest = find_slot rounds s (idx + 1) in
      let st = (task_at s idx).state in if is_unused st || is_zombie st then some idx else rest

  -- A null name stands for "task". `bootstrap` is the address of `scheduler_task_bootstrap`.
  pub create_task : Scheduler → Memory → ℕ → ℕ → Option (List ℕ) → ℕ → Option ℕ × Scheduler × Memory
  unfolding find_slot initial_stack
  create_task s m entry arg name bootstrap =
      if not s.started || entry == 0 then (none, s, m) else (elim (find_slot 15 s 1) [
        | none ↦ (none, s, m)
        | some idx ↦
            let (stack, heap₁) = kmalloc m.heap task_stack_size in
            let t = task_at s idx in
            let heap₂ =
              if is_zombie t.state && not (t.stack_base == 0)
              then kfree heap₁ t.stack_base
              else heap₁ in
            let (word, sp) = initial_stack m.word stack bootstrap in
            let named = str_copy t.name (elim name [ none ↦ codes "task" | some n ↦ n ]) 16 in
            let t' : Task = record {
              sp = sp;
              stack_base = stack;
              entry = entry;
              arg = arg;
              state = runnable;
              name = named;
            } in
            if stack == 0
            then (none, s, record m { heap = heap₁ })
            else (some idx, set_task s idx t', record { word = word; heap = heap₂ })
      ])

  pub reap_task : Scheduler → Heap → ℕ → Bool × Scheduler × Heap
  reap_task s heap tid =
      if tid == 0 || leb max_tasks tid
      then (false, s, heap)
      else if not (is_zombie (task_at s tid).state)
      then (false, s, heap)
      else (let base = (task_at s tid).stack_base in
          (true, set_task s tid no_task, if base == 0 then heap else kfree heap base))
