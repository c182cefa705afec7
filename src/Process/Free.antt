-- ===== src/Process/Free.antt =====
-- `process_find_free_slot` of kernel/process.c finds an inactive entry, if there is one.
use mars_os.Base.{
  ℕ, suc, ◌+◌, ◌-◌, ◌≤◌, ◌<◌, ◌≡◌, false, List, [], ◌∷◌, length, get_or, some, arith, Bool-cases,
  inl, inr,
}
use mathlib.Core.Path.{subst}
use mars_os.Process.{Process, Processes, no_process, find_free_slot, process_find_free_slot}

-- An inactive entry of the table, counted from `i`.
record Free (i : ℕ) (ps : List Process) (slot : ℕ) : Type 0 where
  low : i ≤ slot
  in_table : slot < i + length ps
  inactive : (get_or ps (slot - i) no_process).active ≡ false

find_free_slot-Free :
    (i : ℕ) (ps : List Process) (slot : ℕ) → find_free_slot i ps ≡ some slot → Free i ps slot
unfolding find_free_slot
find_free_slot-Free i [] slot h = absurd (ground arith)
find_free_slot-Free i (p ∷ ps) slot h = elim (Bool-cases p.active) [
  | inl busy ↦
      let r = find_free_slot-Free (i + 1) ps slot (ground arith) in
      let e : slot - i ≡ suc (slot - (i + 1)) = omega (arith, r.low) in
      record {
        low = omega (arith, r.low);
        in_table = omega (arith, r.in_table);
        inactive = rw e r.inactive;
      }
  | inr free ↦
      let e : slot ≡ i = ground arith in
      let d : slot - i ≡ 0 = omega arith in
      record { low = omega arith; in_table = omega arith; inactive = rw d free }
]

pub process_find_free_slot-some :
    (s : Processes) (slot : ℕ)
    → process_find_free_slot s ≡ some slot
    → (slot < length s.table) × ((get_or s.table slot no_process).active ≡ false)
unfolding process_find_free_slot
process_find_free_slot-some s slot h =
    let f = find_free_slot-Free 0 s.table slot h in
    let e : slot - 0 ≡ slot = omega arith in
    (
      omega (arith, f.in_table),
      subst (λ i. (get_or s.table i no_process).active ≡ false) e f.inactive,
    )
