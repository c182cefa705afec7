-- ===== src/Scheduler/Table.antt =====
-- Reading the task table after a slot has been written.
use mars_os.Base.{
  ℕ, ◌<◌, ◌≡◌, ◌==◌, if◌then◌else◌, arith, length, length-set, get_or-set_self, get_or-set_ne,
}
use mars_os.Scheduler.{Scheduler, Task, TaskState, task_at, set_task, set_state, save_sp, no_task}

pub task_at-set_task :
    (s : Scheduler) (i j : ℕ) (t : Task)
    → i < length s.tasks
    → task_at (set_task s i t) j ≡ (if i == j then t else task_at s j)
task_at-set_task s i j t l =
    ground (arith, get_or-set_self s.tasks i t no_task l, get_or-set_ne s.tasks i j t no_task)

pub state-set_state :
    (s : Scheduler) (i j : ℕ) (st : TaskState)
    → i < length s.tasks
    → (task_at (set_state s i st) j).state ≡ (if i == j then st else (task_at s j).state)
state-set_state s i j st l =
    ground (arith, task_at-set_task s i j (record (task_at s i) { state = st }) l)

pub state-save_sp :
    (s : Scheduler) (i j sp : ℕ)
    → i < length s.tasks
    → (task_at (save_sp s i sp) j).state ≡ (task_at s j).state
state-save_sp s i j sp l =
    ground (arith, task_at-set_task s i j (record (task_at s i) { sp = sp }) l)

pub length-set_task :
    (s : Scheduler) (i : ℕ) (t : Task) → length (set_task s i t).tasks ≡ length s.tasks
length-set_task s i t = length-set s.tasks i t
