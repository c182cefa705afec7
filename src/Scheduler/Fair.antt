-- ===== src/Scheduler/Fair.antt =====
-- Round robin is fair: a task that may run is reached within as many switches as it is places behind.
use mars_os.Base.{
  ℕ, zero, suc, ◌+◌, ◌≤◌, ◌<◌, ◌≡◌, ◌≢◌, ◌==◌, arith, true, Bool-cases, inl, inr, ◌⊎◌, ◌^◌,
}
use mars_os.Scheduler.{Scheduler, runnable, yield, run_pending, on_tick, quantum_ticks}
use mars_os.Scheduler.Pick.{
  behind, runnable_at, places_to, places_to-pos, places_to-lt, pick_next-Picked,
}
use mars_os.Scheduler.Invariant.{
  IsValid, yield-IsValid, valid-Choice, yield-switched, state-switched,
}

-- `n` calls in a row, the k-th of all saving the stack pointer `sps k`; `i` calls came before.
pub yields : ℕ → ℕ → Scheduler → (ℕ → ℕ) → Scheduler
yields zero i s sps = s
yields (suc n) i s sps = yields n (i + 1) (yield s (sps i)).1 sps

-- One switch reaches the task or comes nearer to it, and leaves it runnable.
record Nearer (s : Scheduler) (t : ℕ) (s' : Scheduler) : Type 0 where
  reached_or :
      (s'.current_task ≡ t)
      ⊎ ((t ≢ s'.current_task) × (runnable_at s' t ≡ true) × (places_to s' t < places_to s t))

nearer :
    (s : Scheduler) (t next k : ℕ)
    → s.current_task < 16
    → t < 16
    → 0 < k
    → k ≤ places_to s t
    → next ≡ behind s k
    → next ≢ t
    → places_to (record s { current_task = next }) t < places_to s t
unfolding places_to
nearer s t next k c h pos le e n = omega arith

yield-Nearer :
    (s : Scheduler) (t sp : ℕ)
    → IsValid s
    → t < 16
    → t ≢ s.current_task
    → runnable_at s t ≡ true
    → Nearer s t (yield s sp).1
unfolding places_to
yield-Nearer s t sp v h n ready =
    let p = pick_next-Picked s t v.is_started v.in_range h n ready in
    let c = valid-Choice s p.next v p.picked in
    rw (yield-switched s sp p.next v p.picked) (elim (Bool-cases (p.next == t)) [
      | inl hit ↦ record { reached_or = inl (ground arith) }
      | inr miss ↦ record {
        reached_or = inr (
          ground arith,
          ground (arith, state-switched s runnable p.next sp t v.size v.in_range c.in_range),
          nearer s t p.next p.places v.in_range h p.places_pos p.no_further p.index (ground arith),
        );
      }
    ])

-- In a valid table a runnable task is the current one after at most as many calls of
-- `scheduler_yield` as it is places behind the current one.
pub yields-reach :
    (n i : ℕ) (s : Scheduler) (t : ℕ) (sps : ℕ → ℕ)
    → IsValid s
    → t < 16
    → t ≢ s.current_task
    → runnable_at s t ≡ true
    → places_to s t ≤ n
    → (k : ℕ) × (k ≤ n) × ((yields k i s sps).current_task ≡ t)
unfolding yields
yields-reach zero i s t sps v h ne ready d =
    absurd (omega (arith, places_to-pos s t h v.in_range ne))
yields-reach (suc n) i s t sps v h ne ready d =
    elim ((yield-Nearer s t (sps i) v h ne ready).reached_or) [
      | inl hit ↦ (1, omega arith, hit)
      | inr (ne', ready', less) ↦
          let (k, le, hit) =
            yields-reach n (i + 1) (yield s (sps i)).1 t sps (yield-IsValid s (sps i) v) h ne'
              ready' (omega arith) in
          (suc k, omega arith, hit)
    ]

-- Whatever runnable task it is, fifteen calls are enough.
pub yield_fair :
    (s : Scheduler) (t : ℕ) (sps : ℕ → ℕ)
    → IsValid s
    → t < 16
    → runnable_at s t ≡ true
    → (k : ℕ) × (k ≤ 15) × ((yields k 0 s sps).current_task ≡ t)
yield_fair s t sps v h ready =
    yields-reach 15 0 s t sps v h (ground (arith, v.current_running)) ready
      (omega (arith, places_to-lt s t))

-- Ten ticks of the timer without a switch make the next check for preemption give up the processor.
pub ticks : ℕ → Scheduler → Scheduler
ticks zero s = s
ticks (suc n) s = on_tick (ticks n s)

ticks-counted :
    (n : ℕ) (s : Scheduler)
    → s.started ≡ true
    → s.tick_since_switch + n < 2 ^ 32
    → ((ticks n s).tick_since_switch ≡ s.tick_since_switch + n) × ((ticks n s).started ≡ true)
unfolding ticks on_tick
ticks-counted zero s st h = (omega arith, st)
ticks-counted (suc n) s st h = ground (arith, ticks-counted n s st (omega arith))

-- On a started scheduler, once ten or more ticks have come since the last switch (and the counter
-- does not wrap), the next check for preemption is a call of `scheduler_yield`.
pub quantum-preempts :
    (n : ℕ) (s : Scheduler) (sp : ℕ)
    → s.started ≡ true
    → 0 < n
    → s.tick_since_switch + n < 2 ^ 32
    → quantum_ticks ≤ s.tick_since_switch + n
    → run_pending (ticks n s) sp ≡ yield (ticks n s) sp
unfolding ticks on_tick run_pending
quantum-preempts zero s sp st pos h q = absurd (omega arith)
quantum-preempts (suc n) s sp st pos h q = ground (arith, ticks-counted n s st (omega arith))
