-- ===== src/Ipc/Tests.antt =====
-- Concrete message tables for kernel/ipc.c.
use mars_os.Base.{◌≡◌, refl, true, [], ◌∷◌, length, take, some, arith}
use mars_os.Base.Text.{codes, c_str}
use mars_os.Ipc.{Ipc, empty_message, init, send, recv, pending_count, count_used}
use mars_os.Ipc.Queue.{Letter, in_flight}
use mars_os.Ipc.Delivery.{recv-send, recv_one_byte}

-- A letter to process 3, then one to process 2.
abbrev two_letters : Ipc
two_letters = record {
  messages =
      record { from_pid = 1; to_pid = 3; text = codes "up"; used = true }
      ∷ record { from_pid = 4; to_pid = 2; text = codes "hello"; used = true }
      ∷ empty_message
      ∷ [];
  ready = true;
}

abbrev to_three : Letter
to_three = record { sender = 1; receiver = 3; body = codes "up" }

abbrev to_two : Letter
to_two = record { sender = 4; receiver = 2; body = codes "hello" }

empty_at_start : pending_count init ≡ 0
unfolding pending_count init count_used
empty_at_start = refl

recv-send_example :
    let r = recv (send two_letters 5 9 (some (codes "again"))).1 9 (some []) 4 (some 0) in
    let body = take 3 (take 63 (c_str (codes "again"))) in
    (r.result ≡ some (length body))
    × (r.out ≡ some body)
    × (r.from_pid_out ≡ some 5)
    × (in_flight r.after.messages ≡ in_flight two_letters.messages)
recv-send_example =
    recv-send two_letters 5 9 (codes "again") [] 3 0 (unfold c_str in refl)
      (omega arith, (omega arith, tt))

recv_one_byte_example :
    let r = recv two_letters 2 (some []) 1 (some 0) in
    (r.result ≡ some 0) × (r.out ≡ some []) × (in_flight r.after.messages ≡ to_three ∷ [])
recv_one_byte_example =
    recv_one_byte two_letters 2 0 [] to_two (to_three ∷ []) [] refl (omega arith) refl
      (omega arith, tt) refl
