-- ===== src/Machine/Dispatch/Allowed.antt =====
-- Which system calls a process that was spawned for user mode may make.
use mars_os.Base.{
  ℕ, zero, suc, ◌^◌, ◌<◌, ◌≡◌, refl, Bool, true, not, ◌&&◌, some, ◌==◌, leb, ltb, if◌then◌else◌,
  arith, Bool-cases, inl, inr,
}
use Prim.Native.Nat.{bit_and}
use mars_os.Process.{Process, Processes, find_by_tid, process_syscall_allowed}
use mars_os.Machine.Spawn.{syscall_mask_user}

-- All calls but the writing of files (8) and the starting of programs (12).
unfoldable pub is_user_call : ℕ → Bool
is_user_call number = ltb number 20 && (not (number == 8) && not (number == 12))

-- Two tests agree on the numbers below a bound.
agree : ℕ → (ℕ → Bool) → (ℕ → Bool) → Bool
agree zero f g = true
agree (suc n) f g = (if f n then g n else not (g n)) && agree n f g

agree-at : (n : ℕ) (f g : ℕ → Bool) (i : ℕ) → agree n f g ≡ true → i < n → f i ≡ g i
unfolding agree
agree-at zero f g i h l = absurd (omega arith)
agree-at (suc n) f g i h l = elim (Bool-cases (i == n)) [
  | inl last ↦ (let e : i ≡ n = ground arith in rw e (ground arith))
  | inr before ↦ agree-at n f g i (ground arith) (ground arith)
]

abbrev in_mask : ℕ → Bool
in_mask number = not (bit_and syscall_mask_user (2 ^ number) == 0)

mask_user : (number : ℕ) → number < 32 → in_mask number ≡ is_user_call number
unfolding is_user_call
mask_user number l = agree-at 32 in_mask is_user_call number (unfold agree in refl) l

pub user-allowed :
    (ps : Processes) (tid number : ℕ) (p : Process)
    → ps.ready ≡ true
    → find_by_tid ps.table tid ≡ some p
    → p.syscall_mask_low ≡ syscall_mask_user
    → process_syscall_allowed ps tid number ≡ is_user_call number
unfolding process_syscall_allowed
user-allowed ps tid number p r found mask = elim (Bool-cases (leb 32 number)) [
  | inl high ↦ unfold is_user_call in ground arith
  | inr low ↦ let e = mask_user number (ground arith) in rw (found, r, low, mask) e
]
