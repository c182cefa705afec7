-- ===== src/Serial.antt =====
-- kernel/serial.c: the serial port. The bytes that go to a port are collected in order; the wait until
-- the device takes one is not modelled.
use mars_os.Base.{ℕ, ◌+◌, Bool, true, not, List, [], ◌∷◌, ◌++◌, ◌==◌, if◌then◌else◌}
use mars_os.Base.Text.{codes}
use mars_os.Vga.{hex_digits}

pub record Serial : Type 0 where
  pub serial_ready : Bool
  pub sent : List (ℕ × ℕ)

abbrev pub com1 : ℕ
com1 = 0x3F8

unfoldable pub init : Serial → Serial
init s = record s {
  serial_ready = true;
  sent =
      s.sent
      ++ ((com1 + 1, 0)
          ∷ (com1 + 3, 0x80)
          ∷ (com1 + 0, 3)
          ∷ (com1 + 1, 0)
          ∷ (com1 + 3, 3)
          ∷ (com1 + 2, 0xC7)
          ∷ (com1 + 4, 0x0B)
          ∷ []);
}

unfoldable pub putc : Serial → ℕ → Serial
putc s c = if not s.serial_ready then s else record s { sent = s.sent ++ ((com1, c) ∷ []) }

unfoldable pub puts : Serial → List ℕ → Serial
unfolding putc
puts s [] = s
puts s (c ∷ t) =
    let rest = puts (putc (if c == 10 then putc s 13 else s) c) t in if c == 0 then s else rest

unfoldable pub put_each : Serial → List ℕ → Serial
unfolding putc
put_each s [] = s
put_each s (c ∷ t) = put_each (putc s c) t

unfoldable pub put_hex32 : Serial → ℕ → Serial
unfolding puts put_each
put_hex32 s value = put_each (puts s (codes "0x")) (hex_digits 8 value)
