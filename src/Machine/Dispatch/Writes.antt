-- ===== src/Machine/Dispatch/Writes.antt =====
-- What the system calls of a process store in memory: bytes of its own pages.
use mars_os.Base.{
  ℕ, zero, suc, ◌+◌, ◌-◌, ◌%◌, ◌^◌, ◌≤◌, ◌<◌, ◌≡◌, ◌≢◌, refl, ◌∙◌, ap, Bool, true, false, List, [],
  ◌∷◌, length, get_or, Option, none, some, ◌==◌, ltb, arith, Bool-cases, Option-cases, inl, inr,
}
use mars_os.Base.Text.{copy_within}
use mars_os.Allocator.{Allocator}
use mars_os.Paging.{Space, translate, user_accessible}
use mars_os.Paging.Ensure.{IsSpace}
use mars_os.Paging.Access.{is_user_byte, user_accessible_sound}
use mars_os.Process.{Process, find_by_tid, process_current_pid, process_current_is_kernel}
use mars_os.Scheduler.{current_task_id}
use mars_os.Vfs.{Vfs, read_file_into, find_file, empty_file}
use mars_os.Ipc.{Ipc, recv, recv_loop, str_copy}
use mars_os.Syscall.{ptr_range_mapped, ptr_range_ok}
use mars_os.Machine.{Machine, Linked, store_byte, store_string}
use mars_os.Machine.Spawn.{syscall_mask_user}
use mars_os.Machine.Exec.{name_copy_at, program_name_at}
use mars_os.Machine.Dispatch.{
  dispatch, answer, vfs_read, exec_name_at, ipc_send, ipc_recv, process_exit, user_ping, put_out,
  name_in, range_ok, stored_out, user_only_ptrs,
}
use mars_os.Machine.Dispatch.Allowed.{is_user_call}
use mars_os.Machine.Dispatch.Cases.{answer-cases}
use mars_os.Machine.Dispatch.User.{user_dispatch-Kept}

-- No page of the process at an address of the directory stands over the byte.
unfoldable pub IsForeign : Space → ℕ → Type 0
IsForeign s b = (a : ℕ) → a < 2 ^ 32 → is_user_byte s a ≡ true → translate s a ≢ some b

-- One byte stored.
store_byte-other :
    (s : Space) (byte : ℕ → ℕ) (a c b : ℕ)
    → translate s a ≢ some b
    → store_byte s byte a c b ≡ byte b
unfolding store_byte
store_byte-other s byte a c b n = elim (Option-cases (translate s a)) [
  | inl e ↦ rw (store_byte, e) refl
  | inr (phys, e) ↦ elim (Bool-cases (b == phys)) [
    | inl hit ↦ absurd (n (e ∙ ap some (ground arith)))
    | inr miss ↦ rw (store_byte, e) (rw miss refl)
  ]
]

store_string-outside :
    (s : Space) (byte : ℕ → ℕ) (a : ℕ) (t : List ℕ) (size b : ℕ)
    → length t < size
    → a + size ≤ 2 ^ 32
    → ((x : ℕ) → a ≤ x → x < a + size → translate s x ≢ some b)
    → store_string s byte a t b ≡ byte b
unfolding store_string
store_string-outside s byte a [] size b l h n =
    store_byte-other s byte a 0 b (n a (omega arith) (omega arith))
store_string-outside s byte a (c ∷ t) size b l h n =
    let next : (a + 1) % 2 ^ 32 ≡ a + 1 = omega arith in
    rw next (
      store_string-outside s (store_byte s byte a c) (a + 1) t (size - 1) b (omega arith)
        (omega arith) (λ x g k. n x (omega arith) (omega arith))
      ∙ store_byte-other s byte a c b (n a (omega arith) (omega arith)))

-- The text and its terminator fit in the buffer.
abbrev fits : ℕ → Option (List ℕ) → Bool
fits size none = true
fits size (some t) = ltb (length t) size

length-copy_within : (room : ℕ) (src : List ℕ) → length (copy_within room src) ≤ room
unfolding copy_within
length-copy_within zero src = omega arith
length-copy_within (suc room) [] = omega arith
length-copy_within (suc room) (c ∷ src) = ground (arith, length-copy_within room src)

read_file_into-fits :
    (v : Vfs) (name out : List ℕ) (size : ℕ)
    → let r = read_file_into v (some name) (some out) size in fits size (stored_out r.0 r.1) ≡ true
unfolding read_file_into
read_file_into-fits v name out size = elim (Option-cases (find_file v.files name)) [
  | inl e ↦ ground (arith, e)
  | inr (idx, e) ↦
      ground (arith, e, length-copy_within (size - 1) (get_or v.files idx empty_file).text)
]

recv-fits :
    (q : Ipc) (pid size : ℕ) (out : List ℕ)
    → let r = recv q pid (some out) size (some 0) in fits size (stored_out r.result r.out) ≡ true
unfolding recv str_copy
recv-fits q pid size out = elim (Option-cases (recv_loop pid q.messages)) [
  | inl e ↦ ground (arith, e)
  | inr ((found, ms), e) ↦ ground (arith, e, length-copy_within (size - 1) found.text)
]

name_copy_at-fits :
    (at : Linked) (index size : ℕ) → 0 < size → fits size (name_copy_at at index size).1 ≡ true
unfolding name_copy_at
name_copy_at-fits at index size h = elim (Option-cases (program_name_at at index)) [
  | inl e ↦ rw (name_copy_at, e) refl
  | inr (name, e) ↦ rw (name_copy_at, e) (ground (arith, length-copy_within (size - 1) name))
]

module _ (alloc : Allocator) (m : Machine alloc) (b : ℕ) (v : IsSpace m.space)
    (user : user_only_ptrs alloc m ≡ true) (foreign : IsForeign m.space b) where
  range_ok-accessible :
      (ptr size : ℕ)
      → range_ok alloc m ptr size ≡ true
      → user_accessible m.space ptr size ≡ some true
  unfolding range_ok ptr_range_ok
  range_ok-accessible ptr size h = elim (Option-cases (ptr_range_mapped m.space ptr size)) [
    | inl e ↦ absurd (ground (arith, e))
    | inr (mapped, e) ↦ elim (Option-cases (user_accessible m.space ptr size)) [
      | inl u ↦ absurd (ground (arith, e, u, user))
      | inr (ok, u) ↦ ground (arith, e, u, user)
    ]
  ]

  -- The byte is what it was.
  abbrev Same : Machine alloc → Type 0
  Same m' = m'.byte b ≡ m.byte b

  put_out-Same :
      (n : Machine alloc) (ptr size : ℕ) (out : Option (List ℕ))
      → n.space ≡ m.space
      → n.byte ≡ m.byte
      → ptr < 2 ^ 32
      → size < 2 ^ 32
      → range_ok alloc m ptr size ≡ true
      → fits size out ≡ true
      → Same (put_out alloc n ptr out)
  unfolding put_out IsForeign
  put_out-Same n ptr size none sp by h l ok f = ap (λ g. g b) by
  put_out-Same n ptr size (some t) sp by h l ok f =
      let sound = λ (x : ℕ) (g : ptr ≤ x) (k : x < ptr + size).
        user_accessible_sound m.space ptr size x v h l (range_ok-accessible ptr size ok) g k in
      let last = sound (ptr + size - 1) (ground arith) (ground arith) in
      rw (put_out, sp, by)
        (store_string-outside m.space m.byte ptr t size b (ground arith) (ground (arith, last.0))
          (λ x g k. foreign x (sound x g k).0 (sound x g k).2))

  range_ok-pos : (ptr size : ℕ) → range_ok alloc m ptr size ≡ true → 0 < size
  unfolding range_ok ptr_range_ok ptr_range_mapped
  range_ok-pos ptr size h = ground arith

  module _ (f4 f5 f6 : ℕ) (small5 : f5 < 2 ^ 32) (small6 : f6 < 2 ^ 32) where
    vfs_read-Same : Same (vfs_read alloc m f4 f6 f5).1
    unfolding vfs_read
    vfs_read-Same = elim (Option-cases (name_in alloc m 40 f4)) [
      | inl e ↦ rw (vfs_read, e) refl
      | inr (name, e) ↦
          let r = read_file_into m.vfs (some name) (some []) f5 in
          rw (vfs_read, e)
            (elim (Bool-cases (range_ok alloc m f6 f5)) [
              | inl ok ↦ rw ok (
                  put_out-Same m f6 f5 (stored_out r.0 r.1) refl refl small6 small5 ok
                    (read_file_into-fits m.vfs name [] f5))
              | inr bad ↦ rw bad refl
            ])
    ]

    exec_name_at-Same : (at : Linked) → Same (exec_name_at alloc at m f4 f6 f5).1
    unfolding exec_name_at
    exec_name_at-Same at = elim (Bool-cases (range_ok alloc m f6 f5)) [
      | inl ok ↦
          rw (exec_name_at, ok)
            (put_out-Same m f6 f5 (name_copy_at at f4 f5).1 refl refl small6 small5 ok
              (name_copy_at-fits at f4 f5 (range_ok-pos f6 f5 ok)))
      | inr bad ↦ rw (exec_name_at, bad) refl
    ]

    ipc_recv-Same : Same (ipc_recv alloc m f6 f5).1
    unfolding ipc_recv
    ipc_recv-Same =
        let pid = process_current_pid m.processes (current_task_id m.scheduler) in
        let r = recv m.ipc pid (some []) f5 (some 0) in
        elim (Bool-cases (range_ok alloc m f6 f5)) [
          | inl ok ↦
              rw (ipc_recv, ok)
                (put_out-Same (record m { ipc = r.after }) f6 f5 (stored_out r.result r.out) refl
                  refl small6 small5 ok (recv-fits m.ipc pid f5 []))
          | inr bad ↦ rw (ipc_recv, bad) refl
        ]

    ipc_send-Same : Same (ipc_send alloc m f4 f6).1
    unfolding ipc_send
    ipc_send-Same = elim (Option-cases (name_in alloc m 64 f6)) [
      | inl e ↦ rw (ipc_send, e) refl
      | inr (message, e) ↦ rw (ipc_send, e) refl
    ]

    answer-Same :
        (at : Linked) (sp number : ℕ)
        → is_user_call number ≡ true
        → Same (answer alloc at m sp number f4 f5 f6).1
    unfolding is_user_call user_ping process_exit
    answer-Same at sp number h =
        answer-cases alloc Same at m sp number f4 f5 f6 refl vfs_read-Same
          (λ t. absurd (ground arith)) (λ t. absurd (ground arith)) (exec_name_at-Same at)
          ipc_send-Same ipc_recv-Same refl refl

-- A system call of a process in user mode, with the mask of one, changes no byte of memory that does
-- not stand under an address of its directory in a page with the user flag in both entries. The
-- page tables are in order, and the registers are 32-bit words.
pub user_dispatch-writes :
    (alloc : Allocator) (at : Linked) (m : Machine alloc) (sp : ℕ) (frame : ℕ → ℕ) (p : Process)
    (b : ℕ)
    → IsSpace m.space
    → m.processes.ready ≡ true
    → find_by_tid m.processes.table (current_task_id m.scheduler) ≡ some p
    → p.syscall_mask_low ≡ syscall_mask_user
    → p.is_kernel ≡ false
    → frame 5 < 2 ^ 32
    → frame 6 < 2 ^ 32
    → IsForeign m.space b
    → (dispatch alloc at m sp frame).1.byte b ≡ m.byte b
unfolding process_current_is_kernel
user_dispatch-writes alloc at m sp frame p b v ready found mask user h5 h6 foreign =
    let e = (user_dispatch-Kept alloc at m sp frame p ready found mask).0 in
    let only : user_only_ptrs alloc m ≡ true = rw (found) (ground (arith, ready, found, user)) in
    elim (Bool-cases (is_user_call (frame 7))) [
      | inl yes_ ↦
          rw (e, yes_)
            (answer-Same alloc m b v only foreign (frame 4) (frame 5) (frame 6) h5 h6 at sp
              (frame 7) yes_)
      | inr no_ ↦ rw (e, no_) refl
    ]
