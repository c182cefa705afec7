-- ===== src/Ipc/Laws.antt =====
-- What sending and receiving do to the letters in flight.
use mars_os.Base.{
  ℕ, suc, ◌≡◌, refl, true, false, not, ◌&&◌, none, some, List, [], ◌∷◌, ◌++◌, arith, length, take,
  ◌==◌, inl, inr, Bool-cases,
}
use mars_os.Base.Text.{c_str, copy_within-take}
use mars_os.Ipc.{
  IpcMessage, str_copy, send_loop, recv_loop, count_used, ipc_text_max, empty_message,
}
use mars_os.Ipc.Queue.{Letter, letter, in_flight, has_free, Inserted, NoneFor}

pub str_copy-take : (n : ℕ) (s : List ℕ) → str_copy (suc n) s ≡ take n (c_str s)
unfolding str_copy
str_copy-take n s = ground (arith, copy_within-take n s)

abbrev pub sent_letter : ℕ → ℕ → List ℕ → Letter
sent_letter from to message = record {
  sender = from;
  receiver = to;
  body = str_copy ipc_text_max message;
}

module _ (from to : ℕ) (text : List ℕ) where
  abbrev pub after_loop : List IpcMessage → List IpcMessage
  after_loop ms = (send_loop from to text ms).1

  pub send_loop-sent :
      (ms : List IpcMessage)
      → (send_loop from to text ms).0
        ≡ (has_free ms && not (length (str_copy ipc_text_max text) == 0))
  unfolding send_loop
  send_loop-sent [] = refl
  send_loop-sent (m ∷ ms) = ground (arith, send_loop-sent ms)

  pub send_loop-failed :
      (ms : List IpcMessage)
      → (send_loop from to text ms).0 ≡ false
      → in_flight (after_loop ms) ≡ in_flight ms
  unfolding send_loop
  send_loop-failed [] h = refl
  send_loop-failed (m ∷ ms) h = ground (arith, send_loop-failed ms)

  pub send_loop-Inserted :
      (ms : List IpcMessage)
      → (send_loop from to text ms).0 ≡ true
      → Inserted (sent_letter from to text) (in_flight ms) (in_flight (after_loop ms))
  unfolding send_loop
  send_loop-Inserted [] h = cc
  send_loop-Inserted (m ∷ ms) h = elim (Bool-cases m.used) [
    | inl u ↦
        let rest = send_loop-Inserted ms (ground arith) in
        record {
          front = letter m ∷ rest.front;
          back = rest.back;
          split = ground (arith, rest.split);
          joined = ground (arith, rest.joined);
        }
    | inr f ↦ record {
      front = [];
      back = in_flight ms;
      split = ground arith;
      joined = ground arith;
    }
  ]

  pub length-send_loop : (ms : List IpcMessage) → length (after_loop ms) ≡ length ms
  unfolding send_loop
  length-send_loop [] = refl
  length-send_loop (m ∷ ms) = ground (arith, length-send_loop ms)

pub recv_loop-eq-none :
    (pid : ℕ) (ms : List IpcMessage) → NoneFor pid (in_flight ms) → recv_loop pid ms ≡ none
unfolding recv_loop
recv_loop-eq-none pid [] n = refl
recv_loop-eq-none pid (m ∷ ms) n = elim (Bool-cases m.used) [
  | inl u ↦ ground (arith, (go u).0, recv_loop-eq-none pid ms (go u).1)
  | inr f ↦ ground (arith, recv_loop-eq-none pid ms (rw (f, in_flight) at n))
]
  where
    go : m.used ≡ true → NoneFor pid (letter m ∷ in_flight ms)
    go u = rw (u, in_flight) at n

-- Where the letters in flight are `front`, then one for the process, then `back`, and `front` has
-- none for it, the loop takes that letter.
pub record Took (pid : ℕ) (ms : List IpcMessage) (l : Letter) (left : List Letter) : Type 0 where
  pub message : IpcMessage
  pub rest : List IpcMessage
  pub taken : recv_loop pid ms ≡ some (message, rest)
  pub same : letter message ≡ l
  pub others : in_flight rest ≡ left

module _ (pid : ℕ) (l : Letter) (addressed : l.receiver ≡ pid) (back : List Letter) where
  pub recv_loop-Took :
      (ms : List IpcMessage) (front : List Letter)
      → in_flight ms ≡ front ++ l ∷ back
      → NoneFor pid front
      → Took pid ms l (front ++ back)
  unfolding recv_loop
  recv_loop-Took [] [] e n = absurd (ground arith)
  recv_loop-Took [] (f ∷ fs) e n = absurd (ground arith)
  recv_loop-Took (m ∷ ms) front e n = elim (Bool-cases m.used) [
    | inl u ↦ go front (recv_loop-Took ms) e n u
    | inr f ↦
        let t = recv_loop-Took ms front (ground arith) n in
        record {
          message = t.message;
          rest = m ∷ t.rest;
          taken = ground (arith, t.taken);
          same = t.same;
          others = ground (arith, t.others);
        }
  ]
    where
      go :
          (front : List Letter)
          → ((fs : List Letter)
              → in_flight ms ≡ fs ++ l ∷ back
              → NoneFor pid fs
              → Took pid ms l (fs ++ back))
          → in_flight (m ∷ ms) ≡ front ++ l ∷ back
          → NoneFor pid front
          → m.used ≡ true
          → Took pid (m ∷ ms) l (front ++ back)
      go [] ih e n u = record {
        message = m;
        rest = empty_message ∷ ms;
        taken = ground (arith, addressed);
        same = ground arith;
        others = ground arith;
      }
      go (f ∷ fs) ih e n u =
          let t = ih fs (ground arith) n.1 in
          record {
            message = t.message;
            rest = m ∷ t.rest;
            taken = ground (arith, t.taken);
            same = t.same;
            others = ground (arith, t.others);
          }

pub count_used-length : (ms : List IpcMessage) → count_used ms ≡ length (in_flight ms)
unfolding count_used
count_used-length [] = refl
count_used-length (m ∷ ms) = ground (arith, count_used-length ms)
