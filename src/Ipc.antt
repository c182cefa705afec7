-- ===== src/Ipc.antt =====
-- kernel/ipc.c: a table of messages between processes. A nullable pointer to a buffer or a word is
-- an `Option` of what it points to, and a call returns what it leaves there.
pub mod Queue
pub mod Laws
pub mod Delivery
pub mod Tests
use mars_os.Base.{
  ℕ, ◌+◌, ◌-◌, Bool, true, false, not, ◌&&◌, ◌||◌, Option, none, some, List, [], ◌∷◌, length,
  replicate, ◌==◌, if◌then◌else◌,
}
use mars_os.Base.Text.{copy_within}

pub record IpcMessage : Type 0 where
  pub from_pid : ℕ
  pub to_pid : ℕ
  pub text : List ℕ
  pub used : Bool

pub record Ipc : Type 0 where
  pub messages : List IpcMessage
  pub ready : Bool

abbrev pub ipc_max_messages : ℕ
ipc_max_messages = 64

abbrev pub ipc_text_max : ℕ
ipc_text_max = 64

-- The copied text; its length is the count returned.
unfoldable pub str_copy : ℕ → List ℕ → List ℕ
str_copy dst_size src = if dst_size == 0 then [] else copy_within (dst_size - 1) src

abbrev pub empty_message : IpcMessage
empty_message = record { from_pid = 0; to_pid = 0; text = []; used = false }

pub init : Ipc
init = record { messages = replicate ipc_max_messages empty_message; ready = true }

-- The first free slot takes the message; an empty text leaves the slot free, its pids written.
pub send_loop : ℕ → ℕ → List ℕ → List IpcMessage → Bool × List IpcMessage
send_loop from_pid to_pid message [] = (false, [])
send_loop from_pid to_pid message (m ∷ ms) =
    let copied = str_copy ipc_text_max message in
    let named = record m { from_pid = from_pid; to_pid = to_pid; text = copied } in
    let (sent, rest) = send_loop from_pid to_pid message ms in
    if not m.used
    then (if length copied == 0
        then (false, named ∷ ms)
        else (true, record named { used = true } ∷ ms))
    else (sent, m ∷ rest)

pub send : Ipc → ℕ → ℕ → Option (List ℕ) → Bool × Ipc
unfolding send_loop
send q from_pid to_pid none = (false, q)
send q from_pid to_pid (some message) =
    if not q.ready || to_pid == 0
    then (false, q)
    else (let (sent, ms) = send_loop from_pid to_pid message q.messages in
        (sent, record q { messages = ms }))

-- The first used slot for the process: its message, and the table with the slot cleared.
pub recv_loop : ℕ → List IpcMessage → Option (IpcMessage × List IpcMessage)
recv_loop to_pid [] = none
recv_loop to_pid (m ∷ ms) =
    let rest = recv_loop to_pid ms in
    if m.used && m.to_pid == to_pid
    then some (m, empty_message ∷ ms)
    else elim rest [ none ↦ none | some (found, ms') ↦ some (found, m ∷ ms') ]

-- The result is `none` for -1; then what `out` and `from_pid_out` hold.
pub record Received : Type 0 where
  pub result : Option ℕ
  pub out : Option (List ℕ)
  pub from_pid_out : Option ℕ
  pub after : Ipc

abbrev store_pid : Option ℕ → ℕ → Option ℕ
store_pid none v = none
store_pid (some old) v = some v

unfoldable pub recv : Ipc → ℕ → Option (List ℕ) → ℕ → Option ℕ → Received
unfolding recv_loop
recv q to_pid none out_size from_pid_out = record {
  result = none;
  out = none;
  from_pid_out = from_pid_out;
  after = q;
}
recv q to_pid (some out) out_size from_pid_out =
    if not q.ready || to_pid == 0 || out_size == 0
    then record { result = none; out = some out; from_pid_out = from_pid_out; after = q }
    else (elim (recv_loop to_pid q.messages) [
      | none ↦ record { result = some 0; out = some []; from_pid_out = from_pid_out; after = q }
      | some (m, ms) ↦ record {
        result = some (length (str_copy out_size m.text));
        out = some (str_copy out_size m.text);
        from_pid_out = store_pid from_pid_out m.from_pid;
        after = record q { messages = ms };
      }
    ])

pub count_used : List IpcMessage → ℕ
count_used [] = 0
count_used (m ∷ ms) = (if m.used then 1 else 0) + count_used ms

pub pending_count : Ipc → ℕ
unfolding count_used
pending_count q = if q.ready then count_used q.messages else 0
