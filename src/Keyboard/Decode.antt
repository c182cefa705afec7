-- ===== src/Keyboard/Decode.antt =====
-- What the scancode decoder of kernel/keyboard.c stores.
use mars_os.Base.{
  ℕ, ◌≡◌, refl, ◌∙◌, ap, Bool, true, false, not, ◌&&◌, ◌||◌, List, [], ◌∷◌, ◌++◌, length, ◌==◌, ltb,
  get_or, if◌then◌else◌, arith, Bool-cases, inl, inr, ◌↔◌,
}
use Prim.Native.Nat.{bit_and}
use mars_os.Keyboard.{
  Keyboard, keymap, keymap_shift, buffer_push, handle_extended, handle_scancode, try_getchar,
  buffer_reset,
}
use mars_os.Keyboard.Ring.{
  IsValid, pending, ring_from, pending-buffer_push, buffer_push-IsValid, pending-try_getchar,
  queue_take,
}

unfoldable pub no_zero : List ℕ → Bool
no_zero [] = true
no_zero (c ∷ cs) = not (c == 0) && no_zero cs

-- The indices are in range, and no character waiting is the zero that stands for none.
pub record IsTyped (k : Keyboard) : Type 0 where
  pub in_range : IsValid k
  pub nonzero : no_zero (pending k) ≡ true

no_zero-snoc : (cs : List ℕ) (c : ℕ) → no_zero (cs ++ c ∷ []) ≡ (no_zero cs && not (c == 0))
unfolding no_zero
no_zero-snoc [] c = ground arith
no_zero-snoc (x ∷ cs) c = ground (arith, no_zero-snoc cs c)

buffer_push-IsTyped :
    (k : Keyboard) (c : ℕ) → (c == 0) ≡ false → IsTyped k → IsTyped (buffer_push k c)
buffer_push-IsTyped k c h v = record {
  in_range = buffer_push-IsValid k c v.in_range;
  nonzero =
      rw (pending-buffer_push k c v.in_range) (elim (Bool-cases (ltb (length (pending k)) 255)) [
        | inl room ↦ rw room (no_zero-snoc (pending k) c ∙ ground (arith, v.nonzero))
        | inr full ↦ rw full v.nonzero
      ]);
}

-- The flags of the decoder do not touch the ring.
pending-flags :
    (k : Keyboard) (s e : Bool) → pending (record k { shift = s; extended = e }) ≡ pending k
unfolding pending
pending-flags k s e = refl

flags-IsTyped :
    (k : Keyboard) (s e : Bool) → IsTyped k → IsTyped (record k { shift = s; extended = e })
unfolding pending
flags-IsTyped k s e v = record {
  in_range = record { head_in = v.in_range.head_in; tail_in = v.in_range.tail_in };
  nonzero = v.nonzero;
}

if-IsTyped : (b : Bool) (p q : Keyboard) → IsTyped p → IsTyped q → IsTyped (if b then p else q)
if-IsTyped true p q v w = v
if-IsTyped false p q v w = w

handle_extended-IsTyped : (k : Keyboard) (s : ℕ) → IsTyped k → IsTyped (handle_extended k s)
unfolding handle_extended
handle_extended-IsTyped k s v =
    let q = record k { extended = false } in
    let w : IsTyped q = flags-IsTyped k k.shift false v in
    if-IsTyped (not (bit_and s 0x80 == 0)) _ _ w (
      if-IsTyped (s == 0x48) _ _ (buffer_push-IsTyped q 0x11 refl w) (
        if-IsTyped (s == 0x50) _ _ (buffer_push-IsTyped q 0x12 refl w) (
          if-IsTyped (s == 0x4B) _ _ (buffer_push-IsTyped q 0x13 refl w) (
            if-IsTyped (s == 0x4D) _ _ (buffer_push-IsTyped q 0x14 refl w)
              (if-IsTyped (s == 0x53) _ _ (buffer_push-IsTyped q 0x15 refl w) w)))))

pushed-IsTyped :
    (k : Keyboard) (c : ℕ) → IsTyped k → IsTyped (if c == 0 then k else buffer_push k c)
pushed-IsTyped k c v = elim (Bool-cases (c == 0)) [
  | inl none_ ↦ rw none_ v
  | inr some_ ↦ rw some_ (buffer_push-IsTyped k c some_ v)
]

-- Whatever scancode arrives, the decoder keeps its indices in range and never stores a zero.
pub handle_scancode-IsTyped : (k : Keyboard) (s : ℕ) → IsTyped k → IsTyped (handle_scancode k s)
unfolding handle_scancode
handle_scancode-IsTyped k s v = if-IsTyped (s == 0xE0) _ _ (flags-IsTyped k k.shift true v) (
    if-IsTyped k.extended _ _ (handle_extended-IsTyped k s v) (
      if-IsTyped (s == 0x2A || s == 0x36) _ _ (flags-IsTyped k true k.extended v) (
        if-IsTyped (s == 0xAA || s == 0xB6) _ _ (flags-IsTyped k false k.extended v) (
          if-IsTyped (not (bit_and s 0x80 == 0)) _ _ v
            (pushed-IsTyped k (get_or (if k.shift then keymap_shift else keymap) s 0) v)))))

-- So the reader's 0 says just that no character waits.
pub try_getchar-zero : (k : Keyboard) → IsTyped k → ((try_getchar k).0 ≡ 0) ↔ (pending k ≡ [])
unfolding no_zero
try_getchar-zero k v =
    zero_iff (pending k) (try_getchar k).0 (ap (λ r. r.0) (pending-try_getchar k v.in_range))
      v.nonzero
  where
    zero_iff :
        (cs : List ℕ) (c : ℕ) → c ≡ (queue_take cs).0 → no_zero cs ≡ true → (c ≡ 0) ↔ (cs ≡ [])
    zero_iff [] c e n = ground (arith, e)
    zero_iff (x ∷ cs) c e n = ground (arith, e)

-- A key release, or the prefix of one, types nothing.
pub handle_scancode-release :
    (k : Keyboard) (s : ℕ)
    → (bit_and s 0x80 == 0) ≡ false
    → pending (handle_scancode k s) ≡ pending k
unfolding handle_scancode handle_extended
handle_scancode-release k s h = rw shape (pending-flags k shift_ extended_)
  where
    shift_ : Bool
    shift_ =
        if s == 0xE0 || k.extended
        then k.shift
        else if s == 0x2A || s == 0x36
        then true
        else if s == 0xAA || s == 0xB6
        then false
        else k.shift

    extended_ : Bool
    extended_ = s == 0xE0

    shape : handle_scancode k s ≡ record k { shift = shift_; extended = extended_ }
    shape = ground (arith, h)

pub pending-buffer_reset : (k : Keyboard) → pending (buffer_reset k) ≡ []
unfolding pending ring_from buffer_reset
pending-buffer_reset k = refl
