-- ===== src/Keyboard/Ring.antt =====
-- The ring of kernel/keyboard.c as a queue of at most 255 characters.
use mars_os.Base.{
  ℕ, zero, suc, ◌+◌, ◌-◌, ◌%◌, ◌^◌, ◌≤◌, ◌<◌, ◌≡◌, refl, ◌∙◌, ap, ◌≢◌, true, false, List, [], ◌∷◌,
  ◌++◌, not, length, ◌==◌, ltb, ltb→lt, if◌then◌else◌, arith, Bool-cases, inl, inr,
}
use mars_os.Keyboard.{Keyboard, buffer_push, try_getchar}

-- `n` characters from index `t` on, around the end of the buffer.
unfoldable pub ring_from : ℕ → (ℕ → ℕ) → ℕ → List ℕ
ring_from zero b t = []
ring_from (suc n) b t = b t ∷ ring_from n b ((t + 1) % 2 ^ 8)

abbrev pub held : Keyboard → ℕ
held k = (k.buffer_head + 256 - k.buffer_tail) % 2 ^ 8

-- The characters typed and not yet read, the oldest first.
unfoldable pub pending : Keyboard → List ℕ
unfolding ring_from
pending k = ring_from (held k) k.buffer k.buffer_tail

pub record IsValid (k : Keyboard) : Type 0 where
  pub head_in : k.buffer_head < 256
  pub tail_in : k.buffer_tail < 256

length-ring_from : (n : ℕ) (b : ℕ → ℕ) (t : ℕ) → length (ring_from n b t) ≡ n
unfolding ring_from
length-ring_from zero b t = refl
length-ring_from (suc n) b t = ap suc (length-ring_from n b ((t + 1) % 2 ^ 8))

ring_from-snoc :
    (n : ℕ) (b : ℕ → ℕ) (t : ℕ)
    → t < 256
    → ring_from (suc n) b t ≡ ring_from n b t ++ b ((t + n) % 2 ^ 8) ∷ []
unfolding ring_from
ring_from-snoc zero b t h = let e : (t + 0) % 2 ^ 8 ≡ t = omega arith in rw e refl
ring_from-snoc (suc n) b t h =
    let e : ((t + 1) % 2 ^ 8 + n) % 2 ^ 8 ≡ (t + suc n) % 2 ^ 8 = omega arith in
    ap (λ r. b t ∷ r)
      (ring_from-snoc n b ((t + 1) % 2 ^ 8) (omega arith)
        ∙ ap (λ i. ring_from n b ((t + 1) % 2 ^ 8) ++ b i ∷ []) e)

-- A write outside of the `n` characters is not seen.
ring_from-write :
    (n : ℕ) (b : ℕ → ℕ) (t h c : ℕ)
    → t < 256
    → h < 256
    → n ≤ (h + 256 - t) % 2 ^ 8
    → ring_from n (λ i. if h == i then c else b i) t ≡ ring_from n b t
unfolding ring_from
ring_from-write zero b t h c l m far = refl
ring_from-write (suc n) b t h c l m far =
    let rest : ring_from n (λ i. if h == i then c else b i) ((t + 1) % 2 ^ 8)
        ≡ ring_from n b ((t + 1) % 2 ^ 8) =
      ring_from-write n b ((t + 1) % 2 ^ 8) h c (omega arith) m (omega arith) in
    let here : h ≢ t = omega arith in ground (arith, rest)

pub length-pending : (k : Keyboard) → length (pending k) ≡ held k
unfolding pending
length-pending k = length-ring_from (held k) k.buffer k.buffer_tail

pub buffer_push-IsValid : (k : Keyboard) (c : ℕ) → IsValid k → IsValid (buffer_push k c)
unfolding buffer_push
buffer_push-IsValid k c v = elim (Bool-cases ((k.buffer_head + 1) % 2 ^ 8 == k.buffer_tail)) [
  | inl full ↦ record { head_in = ground (arith, v.head_in); tail_in = ground (arith, v.tail_in) }
  | inr room ↦ record { head_in = ground (arith, v.head_in); tail_in = ground (arith, v.tail_in) }
]

held-full :
    (k : Keyboard)
    → IsValid k
    → ((k.buffer_head + 1) % 2 ^ 8 == k.buffer_tail) ≡ not (ltb (held k) 255)
held-full k v = ground (arith, v.head_in, v.tail_in)

held-empty : (k : Keyboard) → IsValid k → (k.buffer_head == k.buffer_tail) ≡ (held k == 0)
held-empty k v = ground (arith, v.head_in, v.tail_in)

-- Pushing onto a queue with room.
pending-push_room :
    (k : Keyboard) (c : ℕ)
    → IsValid k
    → held k < 255
    → pending (record k {
      buffer = λ i. if k.buffer_head == i then c else k.buffer i;
      buffer_head = (k.buffer_head + 1) % 2 ^ 8;
    })
      ≡ pending k ++ c ∷ []
unfolding pending
pending-push_room k c v room =
    let b : ℕ → ℕ = λ i. if k.buffer_head == i then c else k.buffer i in
    let more : ((k.buffer_head + 1) % 2 ^ 8 + 256 - k.buffer_tail) % 2 ^ 8 ≡ suc (held k) =
      omega (arith, v.head_in, v.tail_in) in
    let last : (k.buffer_tail + held k) % 2 ^ 8 ≡ k.buffer_head =
      omega (arith, v.head_in, v.tail_in) in
    let seen : b k.buffer_head ≡ c = ground arith in
    ap (λ n. ring_from n b k.buffer_tail) more
    ∙ ring_from-snoc (held k) b k.buffer_tail v.tail_in
    ∙ ap (λ i. ring_from (held k) b k.buffer_tail ++ b i ∷ []) last
    ∙ ap (λ x. ring_from (held k) b k.buffer_tail ++ x ∷ []) seen
    ∙ ap (λ r. r ++ c ∷ [])
        (ring_from-write (held k) k.buffer k.buffer_tail k.buffer_head c v.tail_in v.head_in
          (omega arith))

-- A character pushed is the last of the queue, unless 255 characters wait: then it is dropped.
pub pending-buffer_push :
    (k : Keyboard) (c : ℕ)
    → IsValid k
    → pending (buffer_push k c)
      ≡ (if ltb (length (pending k)) 255 then pending k ++ c ∷ [] else pending k)
unfolding buffer_push
pending-buffer_push k c v = rw (length-pending k) (elim (Bool-cases (ltb (held k) 255)) [
  | inl room ↦
      let e : buffer_push k c ≡ record k {
        buffer = λ i. if k.buffer_head == i then c else k.buffer i;
        buffer_head = (k.buffer_head + 1) % 2 ^ 8;
      } =
        ground (arith, held-full k v) in
      ap pending e ∙ pending-push_room k c v (ltb→lt (held k) 255 room) ∙ (rw room refl)
  | inr full ↦
      let e : buffer_push k c ≡ k = ground (arith, held-full k v) in ap pending e ∙ (rw full refl)
])

-- The oldest character of a queue, 0 if there is none, and the rest.
abbrev pub queue_take : List ℕ → ℕ × List ℕ
queue_take [] = (0, [])
queue_take (c ∷ cs) = (c, cs)

pending-empty : (k : Keyboard) → held k ≡ 0 → pending k ≡ []
unfolding pending ring_from
pending-empty k e = ap (λ n. ring_from n k.buffer k.buffer_tail) e

pending-more :
    (k : Keyboard)
    → IsValid k
    → 0 < held k
    → pending k
      ≡ k.buffer k.buffer_tail ∷ pending (record k { buffer_tail = (k.buffer_tail + 1) % 2 ^ 8 })
unfolding pending ring_from
pending-more k v h =
    let n = (k.buffer_head + 256 - (k.buffer_tail + 1) % 2 ^ 8) % 2 ^ 8 in
    let e : held k ≡ suc n = omega (arith, v.head_in, v.tail_in) in
    ap (λ m. ring_from m k.buffer k.buffer_tail) e

-- Reading takes the oldest character of the queue; an empty queue gives 0 and stays empty.
pub pending-try_getchar :
    (k : Keyboard)
    → IsValid k
    → let (c, q) = try_getchar k in (c, pending q) ≡ queue_take (pending k)
unfolding try_getchar
pending-try_getchar k v = elim (Bool-cases (held k == 0)) [
  | inl none_ ↦
      let e : pending k ≡ [] = pending-empty k (ground arith) in
      let f : (k.buffer_head == k.buffer_tail) ≡ true = held-empty k v ∙ none_ in rw f (rw e refl)
  | inr some_ ↦
      let f : (k.buffer_head == k.buffer_tail) ≡ false = held-empty k v ∙ some_ in
      rw f (rw (pending-more k v (ground arith)) refl)
]

pub try_getchar-IsValid : (k : Keyboard) → IsValid k → IsValid ((try_getchar k).1)
unfolding try_getchar
try_getchar-IsValid k v = record {
  head_in = ground (arith, v.head_in);
  tail_in = ground (arith, v.tail_in);
}
