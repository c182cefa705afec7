-- ===== src/Ipc/Delivery.antt =====
-- What `ipc_send` and `ipc_recv` promise their callers.
use mars_os.Base.{
  ℕ, suc, ◌≡◌, refl, Bool, true, false, not, ◌&&◌, some, List, [], ◌∷◌, ◌++◌, arith, length, take,
  ◌==◌, ◌≢◌,
}
use mars_os.Base.Text.{c_str, c_str-take}
use mathlib.Core.Path.{subst}
use mars_os.Ipc.{Ipc, send_loop, send, recv}
use mars_os.Ipc.Queue.{Letter, in_flight, has_free, Inserted, NoneFor}
use mars_os.Ipc.Laws.{
  str_copy-take, send_loop-sent, send_loop-failed, send_loop-Inserted, recv_loop-eq-none,
  recv_loop-Took,
}

-- The calls that are accepted: the table is ready, the receiver named, a slot free, the text not empty.
abbrev pub accepts : Ipc → ℕ → List ℕ → Bool
accepts q to text =
    q.ready && not (to == 0) && (has_free q.messages && not (length (take 63 (c_str text)) == 0))

module _ (q : Ipc) (to : ℕ) (out : List ℕ) where
  -- With a letter in flight for the process, a receive takes the first such letter in slot order.
  pub recv_takes_first :
      (out_size pid : ℕ) (l : Letter)
      → (front back : List Letter) → q.ready ≡ true
      → to ≢ 0
      → in_flight q.messages ≡ front ++ l ∷ back
      → NoneFor to front
      → l.receiver ≡ to
      → let r = recv q to (some out) (suc out_size) (some pid) in
        (r.result ≡ some (length (take out_size (c_str l.body))))
        × (r.out ≡ some (take out_size (c_str l.body)))
        × (r.from_pid_out ≡ some l.sender)
        × (in_flight r.after.messages ≡ front ++ back)
  unfolding recv
  recv_takes_first out_size pid l front back ready named e none_before addressed =
      let t = recv_loop-Took to l addressed back q.messages front e none_before in
      ground (arith, t.taken, t.same, t.others, str_copy-take out_size t.message.text)

  -- Without one, a receive returns 0 and the empty text, and changes nothing.
  pub recv_nothing :
      (out_size pid : ℕ)
      → q.ready ≡ true
      → to ≢ 0
      → NoneFor to (in_flight q.messages)
      → recv q to (some out) (suc out_size) (some pid)
        ≡ record { result = some 0; out = some []; from_pid_out = some pid; after = q }
  unfolding recv
  recv_nothing out_size pid ready named n = ground (arith, recv_loop-eq-none to q.messages n)

-- A receive with a one-byte buffer takes the first letter for the process and returns what it
-- returns when there is none: 0 and the empty text.
pub recv_one_byte :
    (q : Ipc) (to pid : ℕ) (out : List ℕ) (l : Letter) (front back : List Letter)
    → q.ready ≡ true
    → to ≢ 0
    → in_flight q.messages ≡ front ++ l ∷ back
    → NoneFor to front
    → l.receiver ≡ to
    → let r = recv q to (some out) 1 (some pid) in
      (r.result ≡ some 0) × (r.out ≡ some []) × (in_flight r.after.messages ≡ front ++ back)
recv_one_byte q to pid out l front back ready named e n addressed =
    let (result, text, sender, rest) =
      recv_takes_first q to out 0 pid l front back ready named e n addressed in
    (result, text, rest)

NoneFor-front :
    (pid : ℕ) (front back : List Letter) → NoneFor pid (front ++ back) → NoneFor pid front
NoneFor-front pid [] back n = tt
NoneFor-front pid (l ∷ ls) back n = (n.0, NoneFor-front pid ls back n.1)

ready-send :
    (q : Ipc) (from to : ℕ) (text : List ℕ) → (send q from to (some text)).1.ready ≡ q.ready
unfolding send
ready-send q from to text = ground arith

module _ (q : Ipc) (from to : ℕ) (text : List ℕ) where
  -- An accepted send reports success and adds one letter, with the first 63 bytes of the text, to
  -- the letters in flight, which keep their order.
  pub send_accepted :
      accepts q to text ≡ true
      → let (sent, q') = send q from to (some text) in
        (sent ≡ true)
        × Inserted
            (record { sender = from; receiver = to; body = take 63 (c_str text) })
            (in_flight q.messages)
            (in_flight q'.messages)
  unfolding send
  send_accepted h =
      let ok : (send_loop from to text q.messages).0 ≡ true =
        ground (arith, send_loop-sent from to text q.messages, str_copy-take 63 text) in
      let put = send_loop-Inserted from to text q.messages ok in
      (
        ground (arith, ok),
        record {
          front = put.front;
          back = put.back;
          split = put.split;
          joined = ground (arith, put.joined, ok, str_copy-take 63 text);
        },
      )

  -- A send that is not accepted reports failure and leaves the letters in flight as they were.
  pub send_refused :
      accepts q to text ≡ false
      → let (sent, q') = send q from to (some text) in
        (sent ≡ false) × (in_flight q'.messages ≡ in_flight q.messages)
  unfolding send
  send_refused h = ground (
    arith,
    send_loop-sent from to text q.messages,
    send_loop-failed from to text q.messages,
    str_copy-take 63 text,
  )

  -- After an accepted send to a process that had no letter, a receive with room for `n` bytes and
  -- the terminator returns the number and the bytes of the text, at most 63 and `n` of them, and
  -- the sender; then the letters in flight are what they were before the send.
  pub recv-send :
      (out : List ℕ) (n pid : ℕ)
      → accepts q to text ≡ true
      → NoneFor to (in_flight q.messages)
      → let r = recv (send q from to (some text)).1 to (some out) (suc n) (some pid) in
        let body = take n (take 63 (c_str text)) in
        (r.result ≡ some (length body))
        × (r.out ≡ some body)
        × (r.from_pid_out ≡ some from)
        × (in_flight r.after.messages ≡ in_flight q.messages)
  recv-send out n pid h fresh =
      let (sent, put) = send_accepted h in
      let got =
        recv_takes_first (send q from to (some text)).1 to out n pid
          (record { sender = from; receiver = to; body = take 63 (c_str text) }) put.front put.back
          (ground (arith, ready-send q from to text)) (ground arith) put.joined
          (NoneFor-front to put.front put.back (subst (NoneFor to) put.split fresh)) refl in
      ground (arith, got, c_str-take 63 text, put.split)
