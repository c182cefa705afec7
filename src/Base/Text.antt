-- ===== src/Base/Text.antt =====
-- C strings: the `str_len`, `str_eq` and `str_copy` of kernel/vfs.c, kernel/scheduler.c and
-- kernel/process.c. A string is the list of its bytes; a zero byte, or the list's end, ends it.
use mars_os.Base.Tests.{◌==◌, if◌then◌else◌}
use mars_os.Base.Lists.{length, take}
use Prim.Native.Nat.{ℕ, zero, suc, ◌+◌, ◌-◌, ◌≤◌}
use Prim.Native.Char.{code}
use Prim.Native.String.{String}
use mathlib.Core.Path.{◌≡◌, refl, ap}
use mathlib.Core.Logic.{◌↔◌}
use mathlib.Core.Bool.{Bool, true, false, ◌&&◌, ◌||◌}
use mathlib.Core.List.{List, [], ◌∷◌}
use native.Mathlib.Omega.{arith}

-- The bytes of a string literal.
abbrev pub codes : String → List ℕ
codes String.[] = []
codes (String.◌∷◌ c s) = code c ∷ codes s

-- The text of a buffer: its bytes before the terminator.
unfoldable pub c_str : List ℕ → List ℕ
c_str [] = []
c_str (c ∷ s) = if c == 0 then [] else c ∷ c_str s

-- while (s[n] != '\0') n++;
str_len_from : ℕ → List ℕ → ℕ
str_len_from n [] = n
str_len_from n (c ∷ s) = let rest = str_len_from (n + 1) s in if c == 0 then n else rest

unfoldable pub str_len : List ℕ → ℕ
unfolding str_len_from
str_len s = str_len_from 0 s

unfoldable pub str_eq : List ℕ → List ℕ → Bool
str_eq [] [] = true
str_eq [] (d ∷ t) = d == 0
str_eq (c ∷ s) [] = c == 0
str_eq (c ∷ s) (d ∷ t) =
    let rest = str_eq s t in
    if c == 0 || d == 0 then (c == 0 && d == 0) else if c == d then rest else false

-- while (i + 1u < max_len && src[i] != '\0') with the room left counted down.
unfoldable pub copy_within : ℕ → List ℕ → List ℕ
copy_within zero src = []
copy_within (suc room) [] = []
copy_within (suc room) (c ∷ src) =
    let rest = copy_within room src in if c == 0 then [] else c ∷ rest

-- What `dst` holds after the call; it is unchanged for a size of zero.
unfoldable pub str_copy : List ℕ → List ℕ → ℕ → List ℕ
unfolding copy_within
str_copy dst src max_len = if max_len == 0 then dst else copy_within (max_len - 1) src

str_len_from-add : (n : ℕ) (s : List ℕ) → str_len_from n s ≡ n + length (c_str s)
unfolding str_len_from c_str
str_len_from-add n [] = omega arith
str_len_from-add n (c ∷ s) = ground (arith, str_len_from-add (n + 1) s)

pub str_len-length : (s : List ℕ) → str_len s ≡ length (c_str s)
unfolding str_len
str_len-length s = omega (arith, str_len_from-add 0 s)

-- The comparison decides whether the two texts are equal.
pub str_eq_iff : (s t : List ℕ) → (str_eq s t ≡ true) ↔ (c_str s ≡ c_str t)
unfolding str_eq c_str
str_eq_iff [] [] = ((λ _. refl), (λ _. refl))
str_eq_iff [] (d ∷ t) = ground arith
str_eq_iff (c ∷ s) [] = ground arith
str_eq_iff (c ∷ s) (d ∷ t) = ground (arith, str_eq_iff s t)

pub copy_within-take : (n : ℕ) (s : List ℕ) → copy_within n s ≡ take n (c_str s)
unfolding copy_within c_str
copy_within-take zero s = refl
copy_within-take (suc n) [] = refl
copy_within-take (suc n) (c ∷ s) = ground (arith, copy_within-take n s)

-- The copy holds as much of the text as fits beside the terminator.
pub str_copy-take : (dst src : List ℕ) (n : ℕ) → str_copy dst src (suc n) ≡ take n (c_str src)
unfolding str_copy
str_copy-take dst src n = ground (arith, copy_within-take n src)

pub c_str-take : (n : ℕ) (s : List ℕ) → c_str (take n (c_str s)) ≡ take n (c_str s)
unfolding c_str
c_str-take zero s = refl
c_str-take (suc n) [] = refl
c_str-take (suc n) (c ∷ s) = ground (arith, c_str-take n s)

pub take_all : (n : ℕ) (s : List ℕ) → length s ≤ n → take n s ≡ s
take_all zero [] h = refl
take_all zero (c ∷ s) h = absurd (omega arith)
take_all (suc n) [] h = refl
take_all (suc n) (c ∷ s) h = ap (λ r. c ∷ r) (take_all n s (omega arith))

pub c_str_idem : (s : List ℕ) → c_str (c_str s) ≡ c_str s
unfolding c_str
c_str_idem [] = refl
c_str_idem (c ∷ s) = ground (arith, c_str_idem s)

pub length-take_le : (n : ℕ) (s : List ℕ) → length (take n s) ≤ n
length-take_le zero s = omega arith
length-take_le (suc n) [] = omega arith
length-take_le (suc n) (c ∷ s) = omega (arith, length-take_le n s)
