-- ===== src/Base/Count.antt =====
-- How many numbers below a bound pass a test, and where one that passes is found.
use mars_os.Base.Tests.{◌==◌, if◌then◌else◌, Bool-cases}
use Prim.Native.Nat.{ℕ, zero, suc, ◌+◌, ◌≤◌, ◌<◌}
use mathlib.Core.Path.{◌≡◌, refl}
use mathlib.Core.Logic.{◌≢◌, inl, inr}
use mathlib.Core.Bool.{Bool, true, false, not, ◌&&◌}
use native.Mathlib.Omega.{arith}

pub count : (ℕ → Bool) → ℕ → ℕ
count p zero = 0
count p (suc n) = (if p n then 1 else 0) + count p n

pub count-zero : (p : ℕ → Bool) → count p 0 ≡ 0
unfolding count
count-zero p = refl

-- Tests that agree below the bound count alike.
pub count_congr : (p q : ℕ → Bool) (n : ℕ) → ((i : ℕ) → i < n → p i ≡ q i) → count p n ≡ count q n
unfolding count
count_congr p q zero h = refl
count_congr p q (suc n) h =
    ground (arith, h n (omega arith), count_congr p q n (λ i l. h i (omega arith)))

pub count-le :
    (p q : ℕ → Bool) (n : ℕ) → ((i : ℕ) → i < n → p i ≡ true → q i ≡ true) → count p n ≤ count q n
unfolding count
count-le p q zero h = omega arith
count-le p q (suc n) h =
    ground (arith, h n (omega arith), count-le p q n (λ i l. h i (omega arith)))

-- One more number passes.
pub count-insert :
    (p q : ℕ → Bool) (n k : ℕ)
    → k < n
    → p k ≡ false
    → q k ≡ true
    → ((i : ℕ) → i ≢ k → q i ≡ p i)
    → count q n ≡ count p n + 1
unfolding count
count-insert p q zero k h e f g = absurd (omega arith)
count-insert p q (suc n) k h e f g = elim (Bool-cases (n == k)) [
  | inl same ↦ ground (arith, count_congr p q n (below same))
  | inr other ↦ ground (arith, g n (ground arith), count-insert p q n k (ground arith) e f g)
]
  where
    below : (n == k) ≡ true → (i : ℕ) → i < n → p i ≡ q i
    below s i l = ground (arith, g i (ground arith))

-- Where fewer numbers pass `p` than `q`, one passes `q` and fails `p`.
pub count_gap :
    (p q : ℕ → Bool) (n : ℕ)
    → count p n < count q n
    → (i : ℕ) × (i < n) × (p i ≡ false) × (q i ≡ true)
unfolding count
count_gap p q zero h = absurd (omega arith)
count_gap p q (suc n) h = elim (Bool-cases (q n && not (p n))) [
  | inl here ↦ (n, omega arith, ground arith, ground arith)
  | inr below ↦ let (i, l, e, f) = count_gap p q n (ground arith) in (i, omega arith, e, f)
]

pub count-le_bound : (p : ℕ → Bool) (n : ℕ) → count p n ≤ n
unfolding count
count-le_bound p zero = omega arith
count-le_bound p (suc n) = ground (arith, count-le_bound p n)

pub count-pos : (p : ℕ → Bool) (n k : ℕ) → k < n → p k ≡ true → 0 < count p n
unfolding count
count-pos p zero k h e = absurd (omega arith)
count-pos p (suc n) k h e = elim (Bool-cases (n == k)) [
  | inl same ↦ ground arith
  | inr below ↦ ground (arith, count-pos p n k (ground arith) e)
]

pub count-none : (p : ℕ → Bool) (n : ℕ) → ((i : ℕ) → i < n → p i ≡ false) → count p n ≡ 0
unfolding count
count-none p zero h = refl
count-none p (suc n) h =
    ground (arith, h n (omega arith), count-none p n (λ i l. h i (omega arith)))
