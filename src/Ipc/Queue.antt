-- ===== src/Ipc/Queue.antt =====
-- The messages in flight as a list in slot order, and what one call does to it.
use mars_os.Base.{ℕ, ◌≡◌, Bool, true, false, List, [], ◌∷◌, ◌++◌, if◌then◌else◌, ◌≢◌}
use mars_os.Ipc.{IpcMessage}

-- What a receiver can see of a message.
pub record Letter : Type 0 where
  pub sender : ℕ
  pub receiver : ℕ
  pub body : List ℕ

abbrev pub letter : IpcMessage → Letter
letter m = record { sender = m.from_pid; receiver = m.to_pid; body = m.text }

abbrev pub in_flight : List IpcMessage → List Letter
in_flight [] = []
in_flight (m ∷ ms) = if m.used then letter m ∷ in_flight ms else in_flight ms

abbrev pub has_free : List IpcMessage → Bool
has_free [] = false
has_free (m ∷ ms) = if m.used then has_free ms else true

-- The list with a letter put in somewhere.
pub record Inserted (l : Letter) (before after : List Letter) : Type 0 where
  pub front : List Letter
  pub back : List Letter
  pub split : before ≡ front ++ back
  pub joined : after ≡ front ++ l ∷ back

-- No letter of the list is for the process.
abbrev pub NoneFor : ℕ → List Letter → Type 0
NoneFor pid [] = Unit {0}
NoneFor pid (l ∷ ls) = (l.receiver ≢ pid) × NoneFor pid ls
