-- ===== src/Process/Pids.antt =====
-- `process_alloc_pid` of kernel/process.c gives an identifier that no active process has.
use mars_os.Base.{
  ℕ, zero, suc, ◌+◌, ◌-◌, ◌%◌, ◌^◌, ◌≤◌, ◌<◌, ◌≡◌, ◌≢◌, refl, ◌∙◌, ap, true, false, ◌&&◌, List, [],
  ◌∷◌, length, ◌==◌, arith, Bool-cases, inl, inr,
}
use mars_os.Process.{
  Process, Processes, pid_in_use, alloc_pid_loop, process_alloc_pid, at_least_two,
}

-- A table with one entry fewer, which has the same pids in use but perhaps for one.
record Removed (table : List Process) (pid : ℕ) : Type 0 where
  rest : List Process
  shorter : length table ≡ suc (length rest)
  others : (q : ℕ) → q ≢ pid → pid_in_use rest q ≡ pid_in_use table q

remove : (table : List Process) (pid : ℕ) → pid_in_use table pid ≡ true → Removed table pid
unfolding pid_in_use
remove [] pid h = absurd (ground arith)
remove (p ∷ ps) pid h = elim (Bool-cases (p.active && p.pid == pid)) [
  | inl here ↦ record { rest = ps; shorter = refl; others = λ q n. ground arith }
  | inr below ↦
      let r = remove ps pid (ground arith) in
      record {
        rest = p ∷ r.rest;
        shorter = ap suc r.shorter;
        others = λ q n. ground (arith, r.others q n);
      }
]

-- The pid of the try after `k` others.
abbrev candidate : ℕ → ℕ → ℕ
candidate next k = 2 + (at_least_two next - 2 + k) % 0xFFFFFFFE

abbrev after : ℕ → ℕ
after next = at_least_two ((at_least_two next + 1) % 2 ^ 32)

candidate-after : (next k : ℕ) → next < 2 ^ 32 → candidate (after next) k ≡ candidate next (suc k)
candidate-after next k h = ground arith

candidate-zero : (next : ℕ) → next < 2 ^ 32 → candidate next 0 ≡ at_least_two next
candidate-zero next h = ground arith

candidate-ne : (next k : ℕ) → next < 2 ^ 32 → k < 1000 → candidate next (suc k) ≢ candidate next 0
candidate-ne next k h l = ground arith

-- With fewer entries left than tries, one of the tries succeeds.
alloc_pid_loop-fresh :
    (left next : ℕ) (table rest : List Process)
    → next < 2 ^ 32
    → left < 1000
    → length rest < left
    → ((k : ℕ)
        → k < left
        → pid_in_use rest (candidate next k) ≡ pid_in_use table (candidate next k))
    → let (pid, next') = alloc_pid_loop left table next in
      (pid_in_use table pid ≡ false) × (2 ≤ pid) × (2 ≤ next') × (next' < 2 ^ 32)
unfolding alloc_pid_loop
alloc_pid_loop-fresh zero next table rest h s l same = absurd (omega arith)
alloc_pid_loop-fresh (suc left) next table rest h s l same =
    elim (Bool-cases (pid_in_use table (at_least_two next))) [
      | inl held ↦
          let e : pid_in_use rest (candidate next 0) ≡ true =
            same 0 (omega arith) ∙ ap (pid_in_use table) (candidate-zero next h) ∙ held in
          let r = remove rest (candidate next 0) e in
          let later =
            alloc_pid_loop-fresh left (after next) table r.rest (ground arith) (omega arith)
              (omega (arith, r.shorter))
              (λ k g.
                let c = candidate-after next k h in
                rw c (
                  r.others (candidate next (suc k)) (candidate-ne next k h (omega arith))
                  ∙ same (suc k) (omega arith))) in
          rw held later
      | inr free ↦ rw free (free, ground arith, ground arith, ground arith)
    ]

-- With at most 32 entries in the table, the pid given is at least 2 and no active process has it;
-- the table is as it was.
pub process_alloc_pid-fresh :
    (s : Processes)
    → s.next_pid < 2 ^ 32
    → length s.table ≤ 32
    → let (pid, s') = process_alloc_pid s in
      (pid_in_use s.table pid ≡ false) × (2 ≤ pid) × (s'.table ≡ s.table) × (s'.next_pid < 2 ^ 32)
unfolding process_alloc_pid
process_alloc_pid-fresh s h l =
    let (free, low, low', high) =
      alloc_pid_loop-fresh 33 s.next_pid s.table s.table h (omega arith) (omega arith)
        (λ k g. refl) in
    (free, low, refl, high)
