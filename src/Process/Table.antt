-- ===== src/Process/Table.antt =====
-- The queries of the process table of kernel/process.c: they list just the active entries, in order.
use mars_os.Base.{
  ℕ, zero, suc, ◌+◌, ◌≡◌, refl, true, List, [], ◌∷◌, length, get_elem?, none, some, if◌then◌else◌,
  arith,
}
use mars_os.Process.{
  Process, Processes, active_at, count_active, process_count, process_info_at, info_of,
}

-- The active processes, in the table's order.
unfoldable pub actives : List Process → List Process
actives [] = []
actives (p ∷ ps) = let rest = actives ps in if p.active then p ∷ rest else rest

count_active-actives : (ps : List Process) → count_active ps ≡ length (actives ps)
unfolding count_active actives
count_active-actives [] = refl
count_active-actives (p ∷ ps) = ground (arith, count_active-actives ps)

active_at-actives :
    (ps : List Process) (seen k : ℕ) → active_at seen (seen + k) ps ≡ get_elem? (actives ps) k
unfolding active_at actives
active_at-actives [] seen k = refl
active_at-actives (p ∷ ps) seen zero = ground (arith, active_at-actives ps seen 0)
active_at-actives (p ∷ ps) seen (suc k) =
    let e : seen + suc k ≡ seen + 1 + k = omega arith in
    let next : active_at (seen + 1) (seen + suc k) ps ≡ get_elem? (actives ps) k =
      rw e (active_at-actives ps (seen + 1) k) in
    ground (arith, next, active_at-actives ps seen (suc k))

-- The information at an index is that of the active process there, for indices below the count of
-- processes, and nothing from there on.
pub process_info_at-actives :
    (s : Processes) (k : ℕ)
    → s.ready ≡ true
    → (process_count s ≡ length (actives s.table))
      × (process_info_at s k
          ≡ (elim (get_elem? (actives s.table) k) [ none ↦ none | some p ↦ some (info_of p) ]))
unfolding process_info_at process_count
process_info_at-actives s k r = (
  ground (arith, r, count_active-actives s.table),
  ground (arith, r, active_at-actives s.table 0 k),
)
