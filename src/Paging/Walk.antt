-- ===== src/Paging/Walk.antt =====
-- The walks over the pages of a range of kernel/paging.c and kernel/syscall.c.
use mars_os.Base.{
  ℕ, zero, suc, ◌+◌, ◌-◌, ◌*◌, ◌/◌, ◌%◌, ◌^◌, ◌≤◌, ◌<◌, ◌≡◌, refl, ap, Bool, true, false, not, ◌&&◌,
  some, ◌==◌, leb, ltb, arith, Bool-cases, inl, inr,
}
use mars_os.Paging.{Space, page_loop, check_range, user_accessible, user_page}
use mars_os.Paging.Words.{bit_and-frame}

-- The test holds of every number below the bound.
unfoldable pub every : (ℕ → Bool) → ℕ → Bool
every p zero = true
every p (suc n) = p 0 && every (λ i. p (suc i)) n

every_congr : (p q : ℕ → Bool) (n : ℕ) → ((i : ℕ) → p i ≡ q i) → every p n ≡ every q n
unfolding every
every_congr p q zero h = refl
every_congr p q (suc n) h =
    ground (arith, h 0, every_congr (λ i. p (suc i)) (λ i. q (suc i)) n (λ i. h (suc i)))

pub every-at : (p : ℕ → Bool) (n i : ℕ) → every p n ≡ true → i < n → p i ≡ true
unfolding every
every-at p zero i h l = absurd (omega arith)
every-at p (suc n) zero h l = ground arith
every-at p (suc n) (suc i) h l = every-at (λ j. p (suc j)) n i (ground arith) (omega arith)

abbrev pages_from : (ℕ → Bool) → ℕ → ℕ → Bool
pages_from test k n = every (λ i. test ((k + i) * 4096)) n

pages_from-step :
    (test : ℕ → Bool) (k n : ℕ)
    → pages_from test k (suc n) ≡ (test (k * 4096) && pages_from test (k + 1) n)
unfolding every
pages_from-step test k n =
    let here : k + 0 ≡ k = omega arith in
    let same =
      every_congr (λ i. test ((k + suc i) * 4096)) (λ i. test ((k + 1 + i) * 4096)) n
        (λ i. ap (λ x. test (x * 4096)) (omega arith)) in
    rw here (rw same refl)

-- From page number `k` to page number `m`.
page_loop-every :
    (rounds : ℕ) (test : ℕ → Bool) (k m : ℕ)
    → k ≤ m
    → m < 1048576
    → m < k + rounds
    → page_loop test rounds (k * 4096) (m * 4096) ≡ some (pages_from test k (m - k + 1))
unfolding page_loop
page_loop-every zero test k m h l f = absurd (omega arith)
page_loop-every (suc rounds) test k m h l f =
    let count : m - k + 1 ≡ suc (m - k) = omega arith in
    let split = pages_from-step test k (m - k) in
    elim (Bool-cases (test (k * 4096))) [
      | inr bad ↦ rw count (rw split (ground arith))
      | inl good ↦ elim (Bool-cases (m == k)) [
        | inl last ↦
            let none_left : m - k ≡ 0 = ground arith in
            rw count (rw split (rw none_left (unfold every in (ground arith))))
        | inr more ↦
            let next : (k * 4096 + 0x1000) % 2 ^ 32 ≡ (k + 1) * 4096 = ground arith in
            let fewer : m - k ≡ m - (k + 1) + 1 = ground arith in
            let rest = page_loop-every rounds test (k + 1) m (ground arith) l (omega arith) in
            rw count (rw split (ground (arith, next, fewer, rest)))
      ]
    ]

-- The pages of the `size` bytes from `start` on.
abbrev pub all_pages : (ℕ → Bool) → ℕ → ℕ → Bool
all_pages test start size =
    every (λ i. test ((start / 4096 + i) * 4096)) ((start + size - 1) / 4096 - start / 4096 + 1)

pub check_range-every :
    (test : ℕ → Bool) (start size : ℕ)
    → start < 2 ^ 32
    → 0 < size
    → size < 2 ^ 32
    → check_range test start size ≡ some (leb (start + size) (2 ^ 32) && all_pages test start size)
unfolding check_range
check_range-every test start size h pos l = elim (Bool-cases (leb (start + size) (2 ^ 32))) [
  | inr wraps ↦ let e : ltb (0xFFFFFFFF - (size - 1)) start ≡ true = ground arith in ground arith
  | inl fits ↦
      let e : ltb (0xFFFFFFFF - (size - 1)) start ≡ false = ground arith in
      let last : start + size - 1 < 2 ^ 32 = ground arith in
      let a = bit_and-frame start h in
      let b = bit_and-frame (start + size - 1) last in
      let walk = loop 1048576 refl (ground arith) in rw e (rw (a, b) (rw fits walk))
]
  where
    loop :
        (fuel : ℕ)
        → fuel ≡ 1048576
        → start + size ≤ 2 ^ 32
        → page_loop test fuel (start / 4096 * 4096) ((start + size - 1) / 4096 * 4096)
          ≡ some (all_pages test start size)
    loop fuel e fits =
        page_loop-every fuel test (start / 4096) ((start + size - 1) / 4096) (omega arith)
          (omega arith) (omega arith)

-- `paging_user_accessible` ends on every range, and accepts one exactly if paging is on, the range
-- is not empty, does not wrap, and each of its pages has the user flag in both entries.
pub user_accessible_lem :
    (s : Space) (virt size : ℕ)
    → virt < 2 ^ 32
    → size < 2 ^ 32
    → user_accessible s virt size
      ≡ some (
          s.is_enabled
          && not (size == 0)
          && (leb (virt + size) (2 ^ 32) && all_pages (user_page s) virt size))
unfolding user_accessible
user_accessible_lem s virt size h l = elim (Bool-cases (size == 0)) [
  | inl empty ↦ ground arith
  | inr some_ ↦ ground (arith, check_range-every (user_page s) virt size h (ground arith) l)
]
