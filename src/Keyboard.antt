-- ===== src/Keyboard.antt =====
-- kernel/keyboard.c and the key codes of kernel/keyboard.h: the scancode decoder and its ring of
-- characters. The two ports the interrupt handler reads are its arguments.
pub mod Ring
pub mod Decode
pub mod Tests
use mars_os.Base.{
  ℕ, ◌+◌, ◌%◌, ◌^◌, Bool, true, false, not, ◌||◌, List, [], ◌∷◌, ◌++◌, get_or, ◌==◌, if◌then◌else◌,
}
use mars_os.Base.Text.{codes}
use Prim.Native.Nat.{bit_and}

pub record Keyboard : Type 0 where
  pub shift : Bool
  pub extended : Bool
  pub buffer_head : ℕ
  pub buffer_tail : ℕ
  pub buffer : ℕ → ℕ

abbrev pub key_special_up : ℕ
key_special_up = 0x11

abbrev key_special_down : ℕ
key_special_down = 0x12

abbrev key_special_left : ℕ
key_special_left = 0x13

abbrev key_special_right : ℕ
key_special_right = 0x14

abbrev key_special_delete : ℕ
key_special_delete = 0x15

-- From scancode 0 to scancode 0x39; the rest of the table is zero.
abbrev pub keymap : List ℕ
keymap =
    0 ∷ 0 ∷ codes "1234567890-="
    ++ 8 ∷ 9 ∷ codes "qwertyuiop[]"
    ++ 10 ∷ 0 ∷ codes "asdfghjkl;'`"
    ++ 0 ∷ codes "\\zxcvbnm,./"
    ++ 0 ∷ 0 ∷ 0 ∷ codes " "

abbrev pub keymap_shift : List ℕ
keymap_shift =
    0 ∷ 0 ∷ codes "!@#$%^&*()_+"
    ++ 8 ∷ 9 ∷ codes "QWERTYUIOP{}"
    ++ 10 ∷ 0 ∷ codes "ASDFGHJKL:\"~"
    ++ 0 ∷ codes "|ZXCVBNM<>?"
    ++ 0 ∷ 0 ∷ 0 ∷ codes " "

-- The indices are bytes.
pub buffer_push : Keyboard → ℕ → Keyboard
buffer_push k c =
    let next = (k.buffer_head + 1) % 2 ^ 8 in
    if next == k.buffer_tail
    then k
    else record k { buffer = λ i. if k.buffer_head == i then c else k.buffer i; buffer_head = next }

-- The scancode after the prefix 0xE0.
pub handle_extended : Keyboard → ℕ → Keyboard
handle_extended k scancode =
    let q = record k { extended = false } in
    if not (bit_and scancode 0x80 == 0)
    then q
    else if scancode == 0x48
    then buffer_push q key_special_up
    else if scancode == 0x50
    then buffer_push q key_special_down
    else if scancode == 0x4B
    then buffer_push q key_special_left
    else if scancode == 0x4D
    then buffer_push q key_special_right
    else if scancode == 0x53
    then buffer_push q key_special_delete
    else q

pub handle_scancode : Keyboard → ℕ → Keyboard
handle_scancode k scancode =
    if scancode == 0xE0
    then record k { extended = true }
    else if k.extended
    then handle_extended k scancode
    else if scancode == 0x2A || scancode == 0x36
    then record k { shift = true }
    else if scancode == 0xAA || scancode == 0xB6
    then record k { shift = false }
    else if not (bit_and scancode 0x80 == 0)
    then k
    else (let c = get_or (if k.shift then keymap_shift else keymap) scancode 0 in
        if c == 0 then k else buffer_push k c)

-- The status port, then the data port.
pub isr : Keyboard → ℕ → ℕ → Keyboard
isr k status data_ = if bit_and status 1 == 0 then k else handle_scancode k data_

pub buffer_reset : Keyboard → Keyboard
buffer_reset k = record k { shift = false; extended = false; buffer_head = 0; buffer_tail = 0 }

pub try_getchar : Keyboard → ℕ × Keyboard
try_getchar k =
    if k.buffer_head == k.buffer_tail
    then (0, k)
    else (k.buffer k.buffer_tail, record k { buffer_tail = (k.buffer_tail + 1) % 2 ^ 8 })
