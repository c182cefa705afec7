-- ===== src/Scheduler/Invariant.antt =====
-- The state of the scheduler between calls, which every call keeps.
use mars_os.Base.{
  ℕ, zero, suc, ◌+◌, ◌%◌, ◌<◌, ◌≡◌, refl, ◌≢◌, ◌==◌, if◌then◌else◌, arith, Bool, true, false, some,
  length, length-set, get_or-replicate, leb, Bool-cases, Option-cases, inl, inr, ap, ◌∙◌, ◌^◌, sym,
}
use mathlib.Core.Path.{subst}
use mars_os.Scheduler.{
  Scheduler, Task, TaskState, runnable, running, zombie, task_at, set_state, save_sp, is_runnable,
  is_unused, is_running, is_zombie, no_task, pick_loop, pick_next, yield, on_tick, run_pending,
  task_exit, exit_current, init, task_is_zombie,
}
use mars_os.Scheduler.Table.{state-set_state, state-save_sp}
use mars_os.Scheduler.Pick.{pick_loop-Found, Picked, pick_next-Picked}

-- A started scheduler whose current task, and no other, is running; the kernel's task 0 is alive.
pub record IsValid (s : Scheduler) : Type 0 where
  pub size : length s.tasks ≡ 16
  pub in_range : s.current_task < 16
  pub is_started : s.started ≡ true
  pub current_running : is_running (task_at s s.current_task).state ≡ true
  pub alone : (i : ℕ) → i ≢ s.current_task → is_running (task_at s i).state ≡ false
  pub kernel_used : is_unused (task_at s 0).state ≡ false
  pub kernel_alive : is_zombie (task_at s 0).state ≡ false

-- What the choice of the next task promises: an index in range, of a task that may run.
pub record Choice (s : Scheduler) (next : ℕ) : Type 0 where
  pub in_range : next < 16
  pub other : next ≢ s.current_task
  pub waiting : is_runnable (task_at s next).state ≡ true

-- The current task may not be picked, nor one that runs.
pick_next-Choice :
    (s : Scheduler) (next : ℕ)
    → is_runnable (task_at s s.current_task).state ≡ false
    → (0 ≢ s.current_task → is_running (task_at s 0).state ≡ false)
    → pick_next s ≡ some next
    → Choice s next
unfolding pick_next
pick_next-Choice s next busy idle e = elim (Option-cases (pick_loop 15 s 1)) [
  | inl o ↦ record {
    in_range = ground (arith, o);
    other = ground (arith, o);
    waiting = ground (arith, o, idle);
  }
  | inr (idx, o) ↦
      let f = pick_loop-Found 15 s 1 o in
      let same : next ≡ idx = ground (arith, o) in
      record {
        in_range = omega (arith, f.index);
        other = ground (arith, f.is_ready);
        waiting = ground (arith, f.is_ready);
      }
]

-- The table after a switch from `prev` to `next`, `prev` having been given the state `left`.
abbrev pub switched : Scheduler → TaskState → ℕ → ℕ → Scheduler
switched s left next sp =
    let s₁ = set_state s s.current_task left in
    save_sp (set_state (record s₁ { current_task = next }) next running) s.current_task sp

pub state-switched :
    (s : Scheduler) (left : TaskState) (next sp j : ℕ)
    → length s.tasks ≡ 16
    → s.current_task < 16
    → next < 16
    → (task_at (switched s left next sp) j).state
      ≡ (if next == j then running else if s.current_task == j then left else (task_at s j).state)
state-switched s left next sp j size c n =
    state-save_sp s₂ s.current_task j sp (omega (arith, l₁, l₂))
    ∙ state-set_state s₁ next j running (omega (arith, l₁))
    ∙ ap (λ st. if next == j then running else st)
        (state-set_state s s.current_task j left (omega arith))
  where
    s₁ : Scheduler
    s₁ = record (set_state s s.current_task left) { current_task = next }

    s₂ : Scheduler
    s₂ = set_state s₁ next running

    l₁ : length s₁.tasks ≡ 16
    l₁ = length-set s.tasks s.current_task _ ∙ size

    l₂ : length s₂.tasks ≡ 16
    l₂ = length-set s₁.tasks next _ ∙ l₁

length-switched :
    (s : Scheduler) (left : TaskState) (next sp : ℕ)
    → length (switched s left next sp).tasks ≡ length s.tasks
length-switched s left next sp =
    length-set _ s.current_task _ ∙ length-set _ next _ ∙ length-set _ s.current_task _

-- A switch that gives up the processor in the state `left` leaves a valid table, if only the task
-- that is left was running before.
switched-IsValid :
    (s : Scheduler) (left : TaskState) (next sp : ℕ)
    → length s.tasks ≡ 16
    → s.current_task < 16
    → s.started ≡ true
    → is_running left ≡ false
    → (s.current_task ≡ 0 → left ≡ runnable)
    → ((i : ℕ) → i ≢ s.current_task → is_running (task_at s i).state ≡ false)
    → is_unused (task_at s 0).state ≡ false
    → is_zombie (task_at s 0).state ≡ false
    → next < 16
    → IsValid (switched s left next sp)
switched-IsValid s left next sp size c st gone kernel alone used alive n = record {
  size = length-switched s left next sp ∙ size;
  in_range = n;
  is_started = st;
  current_running = ground (arith, state-switched s left next sp next size c n);
  alone = λ i ne. ground (arith, state-switched s left next sp i size c n, alone i);
  kernel_used = ground (arith, state-switched s left next sp 0 size c n);
  kernel_alive = ground (arith, state-switched s left next sp 0 size c n);
}

pub yield-switched :
    (s : Scheduler) (sp next : ℕ)
    → IsValid s
    → pick_next s ≡ some next
    → yield s sp ≡ (
      some next,
      record (switched s runnable next sp) { tick_since_switch = 0; preempt_pending = false },
    )
unfolding yield
yield-switched s sp next v e = ground (arith, e)

ticks-IsValid :
    (s : Scheduler) (ticks : ℕ) (pending : Bool)
    → IsValid s
    → IsValid (record s { tick_since_switch = ticks; preempt_pending = pending })
ticks-IsValid s ticks pending v = record {
  size = v.size;
  in_range = v.in_range;
  is_started = v.is_started;
  current_running = v.current_running;
  alone = v.alone;
  kernel_used = v.kernel_used;
  kernel_alive = v.kernel_alive;
}

pub valid-Choice : (s : Scheduler) (next : ℕ) → IsValid s → pick_next s ≡ some next → Choice s next
valid-Choice s next v e = pick_next-Choice s next (ground (arith, v.current_running)) (v.alone 0) e

-- Giving up the processor keeps the table valid.
pub yield-IsValid : (s : Scheduler) (sp : ℕ) → IsValid s → IsValid (yield s sp).1
unfolding yield
yield-IsValid s sp v = elim (Option-cases (pick_next s)) [
  | inl o ↦ let stays : (yield s sp).1 ≡ s = ground (arith, o) in subst IsValid (sym stays) v
  | inr (next, o) ↦
      subst (λ r. IsValid r.1) (sym (yield-switched s sp next v o))
        (ticks-IsValid _ 0 false (
          switched-IsValid s runnable next sp v.size v.in_range v.is_started refl (λ _. refl)
            v.alone v.kernel_used v.kernel_alive (valid-Choice s next v o).in_range))
]

pub run_pending-IsValid : (s : Scheduler) (sp : ℕ) → IsValid s → IsValid (run_pending s sp).1
unfolding run_pending
run_pending-IsValid s sp v = elim (Bool-cases s.preempt_pending) [
  | inl p ↦
      let e : (run_pending s sp).1 ≡ (yield s sp).1 = ground arith in
      subst IsValid (sym e) (yield-IsValid s sp v)
  | inr p ↦ let e : (run_pending s sp).1 ≡ s = ground arith in subst IsValid (sym e) v
]

pub on_tick-IsValid : (s : Scheduler) → IsValid s → IsValid (on_tick s)
unfolding on_tick
on_tick-IsValid s v =
    let ticks = (s.tick_since_switch + 1) % 2 ^ 32 in
    let e : on_tick s ≡ record s {
      tick_since_switch = ticks;
      preempt_pending = if leb 10 ticks then true else s.preempt_pending;
    } =
      ground (arith, v.is_started) in
    subst IsValid (sym e) (ticks-IsValid s _ _ v)

init-alone : (i : ℕ) → i ≢ init.current_task → is_running (task_at init i).state ≡ false
unfolding init
init-alone zero n = absurd (n refl)
init-alone (suc i) n = ap (λ (t : Task). is_running t.state) (get_or-replicate 15 i no_task)

pub init-IsValid : IsValid init
unfolding init
init-IsValid = record {
  size = refl;
  in_range = omega arith;
  is_started = refl;
  current_running = refl;
  alone = λ i n. init-alone i n;
  kernel_used = refl;
  kernel_alive = refl;
}

abbrev marked : Scheduler → Scheduler
marked s = set_state s s.current_task zombie

module _ (s : Scheduler) (v : IsValid s) (not_kernel : s.current_task ≢ 0) where
  marked-Picked : Picked (marked s) 0
  marked-Picked =
      pick_next-Picked (marked s) 0 v.is_started v.in_range (omega arith) (λ e. not_kernel (sym e))
        (ground (arith, state-set_state s s.current_task 0 zombie, v.alone 0))

  marked-Choice : Choice (marked s) marked-Picked.next
  marked-Choice =
      pick_next-Choice (marked s) marked-Picked.next
        (ground (arith, state-set_state s s.current_task s.current_task zombie))
        (λ n. ground (arith, state-set_state s s.current_task 0 zombie, v.alone 0))
        marked-Picked.picked

  exit_current-switched :
      (sp : ℕ)
      → exit_current s sp ≡ (some marked-Picked.next, switched s zombie marked-Picked.next sp)
  unfolding exit_current task_exit
  exit_current-switched sp = ground (arith, marked-Picked.picked, v.is_started)

  -- A task other than the kernel's that exits always finds a successor, so the call does not halt
  -- for want of one; the table stays valid, and the task is left a zombie.
  pub exit_current-switches :
      (sp : ℕ)
      → let (next, s') = exit_current s sp in
        (next ≡ some s'.current_task)
        × IsValid s'
        × (s'.current_task ≢ s.current_task)
        × (task_is_zombie s' s.current_task ≡ true)
  unfolding task_is_zombie
  exit_current-switches sp = rw (exit_current-switched sp) (
    refl,
    switched-IsValid s zombie next sp v.size v.in_range v.is_started refl
        (λ e. absurd (not_kernel e)) v.alone v.kernel_used v.kernel_alive marked-Choice.in_range,
    marked-Choice.other,
    ground (
      arith,
      marked-Choice.other,
      state-switched s zombie next sp s.current_task v.size v.in_range marked-Choice.in_range,
    ),
  )
    where
      next : ℕ
      next = marked-Picked.next
