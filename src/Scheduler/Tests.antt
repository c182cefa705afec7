-- ===== src/Scheduler/Tests.antt =====
-- A concrete task table for kernel/scheduler.c.
use mars_os.Base.{
  ℕ, zero, suc, ◌+◌, ◌≡◌, ◌≤◌, ◌≢◌, refl, ap, true, false, [], ◌∷◌, none, some, replicate,
  get_or-replicate, arith,
}
use mars_os.Allocator.{Allocator}
use mars_os.Paging.{Space}
use mars_os.Paging.Tests.{one_page}
use mars_os.Scheduler.{
  Scheduler, Task, runnable, running, zombie, no_task, task_at, is_running, yield, task_count,
  count_tasks, runnable_count, current_task_id, exit_current, task_is_zombie, Memory, create_task,
}
use mars_os.Scheduler.Invariant.{IsValid, exit_current-switches, yield-IsValid}
use mars_os.Scheduler.Fair.{yields, yield_fair}

-- Task 1 runs; the kernel and task 2 wait; task 3 is dead.
abbrev pub busy : Scheduler
busy = record {
  tasks =
      record no_task { state = runnable }
      ∷ record no_task { state = running }
      ∷ record no_task { state = runnable }
      ∷ record no_task { state = zombie }
      ∷ replicate 12 no_task;
  started = true;
  current_task = 1;
  tick_since_switch = 3;
  preempt_pending = false;
}

pub busy-IsValid : IsValid busy
busy-IsValid = record {
  size = refl;
  in_range = omega arith;
  is_started = refl;
  current_running = refl;
  alone = λ i n. others i n;
  kernel_used = refl;
  kernel_alive = refl;
}
  where
    others : (i : ℕ) → i ≢ 1 → is_running (task_at busy i).state ≡ false
    others zero n = refl
    others (suc zero) n = absurd (n refl)
    others (suc (suc zero)) n = refl
    others (suc (suc (suc zero))) n = refl
    others (suc (suc (suc (suc i)))) n =
        ap (λ (t : Task). is_running t.state) (get_or-replicate 12 i no_task)

counts : task_count busy ∷ runnable_count busy ∷ current_task_id busy ∷ [] ≡ 4 ∷ 3 ∷ 1 ∷ []
unfolding task_count runnable_count count_tasks current_task_id
counts = refl

-- A heap that only grows.
abbrev pub bump : Allocator
bump = record {
  Heap = ℕ × Space;
  kmalloc = λ h n. (h.0, (h.0 + n, h.1));
  kfree = λ h a. h;
  total_bytes = λ h. h.0;
  used_bytes = λ h. h.0;
  in_space = λ h s. (h.0, s);
  space_of = λ h. h.1;
  space_of-in_space = λ h s. refl;
}

abbrev pub memory : Memory bump
memory = record { word = λ a. 0; heap = (0x200000, one_page) }

takes_dead_slot : (create_task bump busy memory 0x1000 7 none 0x2000).0 ≡ some 3
unfolding create_task
takes_dead_slot = refl

yield_fair_example : (k : ℕ) × (k ≤ 15) × ((yields k 0 busy (λ i. 0)).current_task ≡ 2)
yield_fair_example = yield_fair busy 2 (λ i. 0) busy-IsValid (omega arith) refl

yield-IsValid_example : IsValid (yield busy 0x3000).1
yield-IsValid_example = yield-IsValid busy 0x3000 busy-IsValid

exit_current-switches_example :
    ((exit_current busy 0x3000).0 ≡ some (exit_current busy 0x3000).1.current_task)
    × IsValid (exit_current busy 0x3000).1
    × ((exit_current busy 0x3000).1.current_task ≢ 1)
    × (task_is_zombie (exit_current busy 0x3000).1 1 ≡ true)
exit_current-switches_example = exit_current-switches busy busy-IsValid (omega arith) 0x3000
