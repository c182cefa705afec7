-- ===== src/Machine/Reap/Dead.antt =====
-- Which processes `process_reap` of kernel/process.c takes out of the table, and which tasks.
use mars_os.Base.{
  ℕ, zero, suc, ◌+◌, ◌≤◌, ◌<◌, ◌≡◌, refl, sym, ◌∙◌, ap, true, false, not, ◌&&◌, length, get_or,
  get_or_beyond, get_or-set_self, get_or-set_ne, set, length-set, ◌==◌, leb, arith, if_false,
  Bool-cases, inl, inr, ◌⊎◌,
}
use mathlib.Core.Path.{subst}
use mars_os.Allocator.{Allocator}
use mars_os.Process.{Process, no_process}
use mars_os.Scheduler.{Scheduler, task_at, set_task, no_task, task_is_zombie, reap_task, is_zombie}
use mars_os.Scheduler.Invariant.{IsValid}
use mars_os.Scheduler.Slots.{reap_task_lem}
use mars_os.Scheduler.Table.{task_at-set_task}
use mars_os.Machine.{Machine}
use mars_os.Machine.Reap.{is_dead, bury, reap_at, reap_loop, reap}

module _ (alloc : Allocator) where
  abbrev pub process_at : Machine alloc → ℕ → Process
  process_at m k = get_or m.processes.table k no_process

  -- From one machine to a later one: each entry is as it was, or cleared where its task was a zombie;
  -- and no task became a zombie.
  pub record Reaped (m m' : Machine alloc) : Type 0 where
    pub valid : IsValid m'.scheduler
    pub same_size : length m'.processes.table ≡ length m.processes.table
    pub no_zombie :
        (t : ℕ) → task_is_zombie m.scheduler t ≡ false → task_is_zombie m'.scheduler t ≡ false
    pub entries :
        (k : ℕ)
        → (process_at m' k ≡ process_at m k)
          ⊎ ((process_at m' k ≡ no_process) × (is_dead m.scheduler (process_at m k) ≡ true))
    pub same_files : m'.vfs ≡ m.vfs

  -- A slot that is cleared makes no task a zombie.
  cleared-alive :
      (s : Scheduler) (tid t : ℕ)
      → length s.tasks ≡ 16
      → task_is_zombie s t ≡ false
      → task_is_zombie (set_task s tid no_task) t ≡ false
  unfolding task_is_zombie
  cleared-alive s tid t size h = elim (Bool-cases (leb 16 tid)) [
    | inl far ↦ elim (Bool-cases (leb 16 t)) [
      | inl high ↦ rw high refl
      | inr low ↦ ground (arith, get_or-set_ne s.tasks tid t no_task no_task)
    ]
    | inr near ↦ ground (arith, task_at-set_task s tid t no_task)
  ]

  -- The reaping of a zombie other than task 0 clears its slot.
  reap_task-cleared :
      (m : Machine alloc) (tid : ℕ)
      → IsValid m.scheduler
      → (not (tid == 0) && task_is_zombie m.scheduler tid) ≡ true
      → let s' = (reap_task alloc m.scheduler m.memory.heap tid).1 in
        (s' ≡ set_task m.scheduler tid no_task) × IsValid s'
  unfolding task_is_zombie
  reap_task-cleared m tid v dead =
      let (done, after, valid) = reap_task_lem alloc m.scheduler v m.memory.heap tid in
      let e : (not (tid == 0) && is_zombie (task_at m.scheduler tid).state) ≡ true = ground arith in
      (ground (arith, done, after, e), valid)

  same_entry : (m : Machine alloc) → IsValid m.scheduler → Reaped m m
  same_entry m v = record {
    valid = v;
    same_size = refl;
    no_zombie = λ t h. h;
    entries = λ k. inl refl;
    same_files = refl;
  }

  bury-Reaped :
      (m : Machine alloc) (i : ℕ)
      → IsValid m.scheduler
      → is_dead m.scheduler (process_at m i) ≡ true
      → Reaped m (bury alloc m i (process_at m i))
        × (process_at (bury alloc m i (process_at m i)) i ≡ no_process)
  unfolding bury
  bury-Reaped m i v dead =
      let table = m.processes.table in
      let tid = (process_at m i).tid in
      let in_table : i < length table = ground (arith, get_or_beyond table i no_process) in
      let (e, valid) = reap_task-cleared m tid v (ground arith) in
      let own = get_or-set_self table i no_process no_process in_table in
      (
        record {
          valid = valid;
          same_size = length-set table i no_process;
          no_zombie = λ t h. rw e (cleared-alive m.scheduler tid t v.size h);
          entries = λ k. elim (Bool-cases (i == k)) [
            | inl hit ↦
                let same : i ≡ k = ground arith in
                inr (
                  subst (λ j. get_or (set table i no_process) j no_process ≡ no_process) same own,
                  subst (λ j. is_dead m.scheduler (process_at m j) ≡ true) same dead,
                )
            | inr miss ↦ inl (get_or-set_ne table i k no_process no_process (ground arith))
          ];
          same_files = refl;
        },
        own,
      )

  -- A process whose task was no zombie is not dead later, nor is a cleared entry.
  still_alive :
      (m m' : Machine alloc) (p : Process)
      → Reaped m m'
      → is_dead m.scheduler p ≡ false
      → is_dead m'.scheduler p ≡ false
  still_alive m m' p r h = elim (Bool-cases (task_is_zombie m.scheduler p.tid)) [
    | inl z ↦ ground (arith, z)
    | inr a ↦ ground (arith, r.no_zombie p.tid a)
  ]

  settled :
      (m m' : Machine alloc) (k : ℕ)
      → Reaped m m'
      → is_dead m.scheduler (process_at m k) ≡ false
      → is_dead m'.scheduler (process_at m' k) ≡ false
  settled m m' k r h = elim (r.entries k) [
    | inl e ↦ rw e (still_alive m m' (process_at m k) r h)
    | inr (e, dead) ↦ rw e refl
  ]

  then_Reaped : (m n o : Machine alloc) → Reaped m n → Reaped n o → Reaped m o
  then_Reaped m n o r q = record {
    valid = q.valid;
    same_size = q.same_size ∙ r.same_size;
    no_zombie = λ t h. q.no_zombie t (r.no_zombie t h);
    entries = λ k. elim (q.entries k) [
      | inl e ↦ elim (r.entries k) [ inl d ↦ inl (e ∙ d) | inr (d, dead) ↦ inr (e ∙ d, dead) ]
      | inr (e, dead) ↦ elim (r.entries k) [
        | inl d ↦ elim (Bool-cases (is_dead m.scheduler (process_at m k))) [
          | inl was ↦ inr (e, was)
          | inr not_ ↦ absurd (ground (arith, dead, settled m n k r not_))
        ]
        | inr (d, was) ↦ inr (e, was)
      ]
    ];
    same_files = q.same_files ∙ r.same_files;
  }

  reap_at-Reaped :
      (m : Machine alloc) (i : ℕ)
      → IsValid m.scheduler
      → Reaped m (reap_at alloc m i)
        × (is_dead (reap_at alloc m i).scheduler (process_at (reap_at alloc m i) i) ≡ false)
  unfolding reap_at
  reap_at-Reaped m i v = elim (Bool-cases (is_dead m.scheduler (process_at m i))) [
    | inl dead ↦ let (r, e) = bury-Reaped m i v dead in rw (reap_at, dead) (r, rw e refl)
    | inr alive ↦ rw (reap_at, alive) (same_entry m v, alive)
  ]

  reap_loop-Reaped :
      (left i : ℕ) (m : Machine alloc)
      → IsValid m.scheduler
      → let m' = reap_loop alloc left i m in
        Reaped m m'
        × ((k : ℕ) → i ≤ k → k < i + left → is_dead m'.scheduler (process_at m' k) ≡ false)
  unfolding reap_loop
  reap_loop-Reaped zero i m v = (same_entry m v, λ k l g. absurd (omega arith))
  reap_loop-Reaped (suc left) i m v =
      let n = reap_at alloc m i in
      let (r, own) = reap_at-Reaped m i v in
      let o = reap_loop alloc left (i + 1) n in
      let (q, rest) = reap_loop-Reaped left (i + 1) n r.valid in
      (
        then_Reaped m n o r q,
        λ k l g. elim (Bool-cases (i == k)) [
          | inl hit ↦
              let same : i ≡ k = ground arith in
              subst (λ j. is_dead o.scheduler (process_at o j) ≡ false) same (settled n o i q own)
          | inr later ↦ rest k (ground arith) (omega arith)
        ],
      )

  -- On tasks in order, reaping clears only entries of active processes whose tasks are zombies, and
  -- leaves every other entry as it was; afterwards no such process is left among the 32 entries. No
  -- task becomes a zombie, the tasks stay in order, and the files are as they were.
  pub reap-Reaped :
      (m : Machine alloc)
      → m.processes.ready ≡ true
      → IsValid m.scheduler
      → let m' = reap alloc m in
        Reaped m m' × ((k : ℕ) → k < 32 → is_dead m'.scheduler (process_at m' k) ≡ false)
  unfolding reap
  reap-Reaped m ready v =
      let (r, all) = reap_loop-Reaped 32 0 m v in
      let o = reap_loop alloc 32 0 m in
      let e : reap alloc m ≡ o = if_false (not m.processes.ready) m o (ap not ready) in
      subst
        (λ m'. Reaped m m' × ((k : ℕ) → k < 32 → is_dead m'.scheduler (process_at m' k) ≡ false))
        (sym e) (r, λ k h. all k (omega arith) (omega arith))
