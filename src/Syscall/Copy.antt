-- ===== src/Syscall/Copy.antt =====
-- What `copy_in_string` of kernel/syscall.c reads: bytes that the process may read, up to a terminator.
use mars_os.Base.{
  ℕ, zero, suc, ◌+◌, ◌-◌, ◌*◌, ◌/◌, ◌%◌, ◌^◌, ◌≤◌, ◌<◌, ◌≡◌, ◌≢◌, refl, sym, ◌∙◌, ap, Bool, true,
  false, not, ◌&&◌, ◌||◌, List, [], ◌∷◌, length, Option, some, ◌==◌, leb, if◌then◌else◌, arith,
  Bool-cases, inl, inr,
}
use mathlib.Core.Path.{subst}
use mars_os.Paging.{Space, user_page, user_accessible, check_range}
use mars_os.Paging.Walk.{check_range-every, user_accessible_lem, every, all_pages}
use mars_os.Syscall.{
  is_mapped_page, ptr_range_mapped, ptr_range_ok, Copied, failed, text, with_byte, copy_loop,
  copy_in_string,
}

abbrev pub page_of : ℕ → ℕ
page_of a = a / 4096 * 4096

-- The byte at `a` may be read: its page is there, and for a process it is one of its own.
unfoldable pub byte_ok : Space → Bool → ℕ → Bool
byte_ok s user_only a =
    not (a == 0)
    && (is_mapped_page s (page_of a)
        && (if user_only then s.is_enabled && user_page s (page_of a) else true))

one_page : (test : ℕ → Bool) (a : ℕ) → all_pages test a 1 ≡ test (page_of a)
unfolding every
one_page test a =
    let count : (a + 1 - 1) / 4096 - a / 4096 + 1 ≡ 1 = omega arith in
    let here : (a / 4096 + 0) * 4096 ≡ page_of a = omega arith in rw count (rw here (ground arith))

mapped-byte :
    (s : Space) (a : ℕ)
    → a < 2 ^ 32
    → ptr_range_mapped s a 1 ≡ some (not (a == 0) && is_mapped_page s (page_of a))
unfolding ptr_range_mapped
mapped-byte s a h =
    let fits : leb (a + 1) (2 ^ 32) ≡ true = ground arith in
    let e : check_range (is_mapped_page s) a 1 ≡ some (is_mapped_page s (page_of a)) =
      check_range-every (is_mapped_page s) a 1 h (omega arith) (omega arith)
      ∙ ap some (rw fits (one_page (is_mapped_page s) a)) in
    elim (Bool-cases (a == 0)) [ inl null ↦ rw null refl | inr there ↦ rw there e ]

user-byte :
    (s : Space) (a : ℕ)
    → a < 2 ^ 32
    → user_accessible s a 1 ≡ some (s.is_enabled && user_page s (page_of a))
user-byte s a h =
    let fits : leb (a + 1) (2 ^ 32) ≡ true = ground arith in
    user_accessible_lem s a 1 h (omega arith)
    ∙ ap some (rw fits (ground (arith, one_page (user_page s) a)))

pub ptr_range_ok-byte :
    (s : Space) (user_only : Bool) (a : ℕ)
    → a < 2 ^ 32
    → ptr_range_ok s a 1 user_only ≡ some (byte_ok s user_only a)
unfolding ptr_range_ok byte_ok
ptr_range_ok-byte s user_only a h = ground (arith, mapped-byte s a h, user-byte s a h)

-- A string in the memory whose bytes, and its terminator, may be read.
unfoldable pub IsString : (ℕ → Bool) → (ℕ → ℕ) → ℕ → List ℕ → Type 0
IsString ok byte a [] = (ok a ≡ true) × (byte a ≡ 0)
IsString ok byte a (c ∷ t) =
    ((ok a ≡ true) × (byte a ≡ c) × (c ≢ 0)) × IsString ok byte ((a + 1) % 2 ^ 32) t

-- How a copy ends: it fails, or has a string of at most `room` bytes.
pub data Ends (ok : ℕ → Bool) (byte : ℕ → ℕ) (room a : ℕ) : Option Copied → Type 0 where
  refused : Ends ok byte room a (some failed)
  copied :
      (t : List ℕ) → length t ≤ room → IsString ok byte a t → Ends ok byte room a (some (text t))

module _ (ok : ℕ → Option Bool) (fine : ℕ → Bool) (byte : ℕ → ℕ)
    (same : (a : ℕ) → a < 2 ^ 32 → ok a ≡ some (fine a)) where
  loop-refused : (room a : ℕ) → ok a ≡ some false → copy_loop ok byte room a ≡ some failed
  unfolding copy_loop
  loop-refused zero a e = ground arith
  loop-refused (suc room) a e = ground arith

  loop-ended :
      (room a : ℕ) → ok a ≡ some true → byte a ≡ 0 → copy_loop ok byte room a ≡ some (text [])
  unfolding copy_loop
  loop-ended zero a e z = ground arith
  loop-ended (suc room) a e z = ground arith

  loop-long : (a : ℕ) → ok a ≡ some true → byte a ≢ 0 → copy_loop ok byte 0 a ≡ some failed
  unfolding copy_loop
  loop-long a e z = ground arith

  loop-next :
      (room a : ℕ)
      → ok a ≡ some true
      → byte a ≢ 0
      → copy_loop ok byte (suc room) a
        ≡ with_byte (byte a) (copy_loop ok byte room ((a + 1) % 2 ^ 32))
  unfolding copy_loop
  loop-next room a e z = ground arith

  with_byte-Ends :
      (room a : ℕ) {r : Option Copied}
      → fine a ≡ true
      → byte a ≢ 0
      → Ends fine byte room ((a + 1) % 2 ^ 32) r
      → Ends fine byte (suc room) a (with_byte (byte a) r)
  unfolding IsString
  with_byte-Ends room a f z refused = refused
  with_byte-Ends room a f z (copied t l s) = copied (byte a ∷ t) (omega arith) ((f, refl, z), s)

  copy_loop-cases :
      (room a : ℕ)
      → a < 2 ^ 32
      → (ok a ≡ some true → byte a ≢ 0 → Ends fine byte room a (copy_loop ok byte room a))
      → Ends fine byte room a (copy_loop ok byte room a)
  unfolding IsString
  copy_loop-cases room a h further = elim (Bool-cases (fine a)) [
    | inr bad ↦
        subst (Ends fine byte room a) (sym (loop-refused room a (same a h ∙ ap some bad))) refused
    | inl good ↦ elim (Bool-cases (byte a == 0)) [
      | inl end_ ↦
          subst (Ends fine byte room a)
            (sym (loop-ended room a (same a h ∙ ap some good) (ground arith)))
            (copied [] (omega arith) (good, ground arith))
      | inr more ↦ further (same a h ∙ ap some good) (ground arith)
    ]
  ]

  copy_loop-Ends : (room a : ℕ) → a < 2 ^ 32 → Ends fine byte room a (copy_loop ok byte room a)
  copy_loop-Ends zero a h =
      copy_loop-cases 0 a h (λ e z. subst (Ends fine byte 0 a) (sym (loop-long a e z)) refused)
  copy_loop-Ends (suc room) a h =
      let rest = copy_loop-Ends room ((a + 1) % 2 ^ 32) (omega arith) in
      copy_loop-cases (suc room) a h (λ e z.
        subst (Ends fine byte (suc room) a) (sym (loop-next room a e z))
          (with_byte-Ends room a (ground (arith, same a h)) z rest))

-- `copy_in_string` returns on every pointer and size. What it returns, if not the failure, is the
-- string at the pointer, which is shorter than the buffer; each of its bytes and its terminator may
-- be read: they are mapped, and for a process they lie in its own pages.
pub copy_in_string_lem :
    (s : Space) (byte : ℕ → ℕ) (dst_size src : ℕ) (user_only : Bool)
    → src < 2 ^ 32
    → Ends
        (byte_ok s user_only)
        byte
        (dst_size - 1)
        src
        (copy_in_string s byte dst_size src user_only)
unfolding copy_in_string
copy_in_string_lem s byte dst_size src user_only h = elim (Bool-cases (src == 0 || dst_size == 0)) [
  | inl none_ ↦ rw none_ refused
  | inr there ↦ rw there (
      copy_loop-Ends (λ a. ptr_range_ok s a 1 user_only) (byte_ok s user_only) byte
        (ptr_range_ok-byte s user_only) (dst_size - 1) src h)
]
