-- ===== src/Keyboard/Tests.antt =====
-- Concrete keyboards: the ring of kernel/keyboard.c and its decoder run on key presses.
use mars_os.Base.{◌≡◌, refl, false, [], ◌∷◌, arith}
use mars_os.Keyboard.{Keyboard, buffer_push, handle_scancode, isr}
use mars_os.Keyboard.Ring.{pending, ring_from}
use mars_os.Keyboard.Decode.{IsTyped, no_zero, handle_scancode-IsTyped}

-- The letter `a` typed, at the end of the buffer.
abbrev one_typed : Keyboard
one_typed = record {
  shift = false;
  extended = false;
  buffer_head = 0;
  buffer_tail = 255;
  buffer = λ i. 97;
}

one_typed-IsTyped : IsTyped one_typed
unfolding no_zero pending ring_from
one_typed-IsTyped = record {
  in_range = record { head_in = omega arith; tail_in = omega arith };
  nonzero = refl;
}

shifted_b : pending (handle_scancode (handle_scancode one_typed 0x2A) 0x30) ≡ 97 ∷ 66 ∷ []
unfolding handle_scancode buffer_push pending ring_from
shifted_b = refl

idle_isr : isr one_typed 0 0x30 ≡ one_typed
unfolding isr
idle_isr = refl

handle_scancode-IsTyped_example : IsTyped (handle_scancode one_typed 0x1E)
handle_scancode-IsTyped_example = handle_scancode-IsTyped one_typed 0x1E one_typed-IsTyped
