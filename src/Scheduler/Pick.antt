-- ===== src/Scheduler/Pick.antt =====
-- Which task `scheduler_pick_next` takes.
use mars_os.Base.{
  ℕ, zero, suc, ◌+◌, ◌-◌, ◌%◌, ◌≤◌, ◌<◌, ◌≡◌, ◌≢◌, ◌==◌, arith, Bool, true, false, none, some, leb,
  leb→le, leb-false→lt, Bool-cases, Option-cases, inl, inr,
}
use mars_os.Scheduler.{Scheduler, task_at, is_runnable, pick_loop, pick_next}

-- The task `k` places behind the current one.
abbrev pub behind : Scheduler → ℕ → ℕ
behind s k = (s.current_task + k) % 16

abbrev pub runnable_at : Scheduler → ℕ → Bool
runnable_at s i = is_runnable (task_at s i).state

pub record Found (s : Scheduler) (i rounds idx : ℕ) : Type 0 where
  pub places : ℕ
  pub from : i ≤ places
  pub upto : places < i + rounds
  pub index : idx ≡ behind s places
  pub is_ready : runnable_at s idx ≡ true
  pub first : (j : ℕ) → i ≤ j → j < places → runnable_at s (behind s j) ≡ false

pub pick_loop-Found :
    (rounds : ℕ) (s : Scheduler) (i : ℕ) {idx : ℕ}
    → pick_loop rounds s i ≡ some idx
    → Found s i rounds idx
unfolding pick_loop
pick_loop-Found zero s i e = absurd (ground arith)
pick_loop-Found (suc rounds) s i {idx} e = elim (Bool-cases (runnable_at s (behind s i))) [
  | inl yes_ready ↦ record {
    places = i;
    from = omega arith;
    upto = omega arith;
    index = ground arith;
    is_ready = ground arith;
    first = λ j l g. absurd (omega arith);
  }
  | inr busy ↦
      let rest = pick_loop-Found rounds s (i + 1) {idx = idx} (ground arith) in
      record {
        places = rest.places;
        from = omega (arith, rest.from);
        upto = omega (arith, rest.upto);
        index = rest.index;
        is_ready = rest.is_ready;
        first = λ j l g. elim (Bool-cases (i == j)) [
          | inl same ↦ ground arith
          | inr later ↦ rest.first j (ground arith) g
        ];
      }
]

pub pick_loop-none :
    (rounds : ℕ) (s : Scheduler) (i j : ℕ)
    → pick_loop rounds s i ≡ none
    → i ≤ j
    → j < i + rounds
    → runnable_at s (behind s j) ≡ false
unfolding pick_loop
pick_loop-none zero s i j e l g = absurd (omega arith)
pick_loop-none (suc rounds) s i j e l g = elim (Bool-cases (i == j)) [
  | inl same ↦ ground arith
  | inr later ↦ pick_loop-none rounds s (i + 1) j (ground arith) (ground arith) (omega arith)
]

-- A runnable task other than the current one is some places behind it.
unfoldable pub places_to : (s : Scheduler) (t : ℕ) → ℕ
places_to s t = (t + 16 - s.current_task) % 16

pub behind-places_to :
    (s : Scheduler) (t : ℕ) → t < 16 → s.current_task < 16 → behind s (places_to s t) ≡ t
unfolding places_to
behind-places_to s t h c = omega arith

pub places_to-lt : (s : Scheduler) (t : ℕ) → places_to s t < 16
unfolding places_to
places_to-lt s t = omega arith

pub places_to-pos :
    (s : Scheduler) (t : ℕ) → t < 16 → s.current_task < 16 → t ≢ s.current_task → 0 < places_to s t
unfolding places_to
places_to-pos s t h c n = omega arith

-- With a runnable task other than the current one, the loop finds one, and no further behind.
pub record Picked (s : Scheduler) (t : ℕ) : Type 0 where
  pub next : ℕ
  pub picked : pick_next s ≡ some next
  pub places : ℕ
  pub places_pos : 0 < places
  pub no_further : places ≤ places_to s t
  pub index : next ≡ behind s places
  pub is_ready : runnable_at s next ≡ true
  pub first : (j : ℕ) → 0 < j → j < places → runnable_at s (behind s j) ≡ false

pub pick_next-Picked :
    (s : Scheduler) (t : ℕ)
    → s.started ≡ true
    → s.current_task < 16
    → t < 16
    → t ≢ s.current_task
    → runnable_at s t ≡ true
    → Picked s t
unfolding pick_next
pick_next-Picked s t started c h n ready = elim (Option-cases (pick_loop 15 s 1)) [
  | inl e ↦ absurd (
      ground (
        arith,
        pick_loop-none 15 s 1 (places_to s t) e,
        behind-places_to s t h c,
        places_to-pos s t h c n,
        places_to-lt s t,
      ))
  | inr (idx, e) ↦
      let f = pick_loop-Found 15 s 1 e in
      record {
        next = idx;
        picked = ground (arith, e);
        places = f.places;
        places_pos = omega (arith, f.from);
        no_further = elim (Bool-cases (leb f.places (places_to s t))) [
          | inl le ↦ leb→le _ _ le
          | inr gt ↦
              let busy : runnable_at s t ≡ false =
                rw (behind-places_to s t h c) at
                  (f.first (places_to s t) (places_to-pos s t h c n) (leb-false→lt _ _ gt)) in
              absurd (cc)
        ];
        index = f.index;
        is_ready = f.is_ready;
        first = λ j l g. f.first j (omega arith) g;
      }
]
