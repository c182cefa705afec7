-- ===== src/Machine/Dispatch/Cases.antt =====
-- What holds after each of the calls that `syscall_dispatch` answers holds after its answer.
use mars_os.Base.{ℕ, ◌≡◌, refl, Bool, true, false, ◌==◌, if◌then◌else◌}
use mars_os.Allocator.{Allocator}
use mars_os.Machine.{Machine, Linked}
use mars_os.Machine.Dispatch.{
  answer, vfs_read, vfs_write, exec_spawn, exec_name_at, ipc_send, ipc_recv, process_exit,
  user_ping,
}

module _ (alloc : Allocator) (P : Machine alloc → Type 0) where
  -- Either branch of a test has it.
  pub guarded :
      (t : Bool) (x y : ℕ × Machine alloc)
      → (t ≡ true → P x.1)
      → (t ≡ false → P y.1)
      → P (if t then x else y).1
  guarded true x y f g = f refl
  guarded false x y f g = g refl

  pub answer-cases :
      (at : Linked) (m : Machine alloc) (sp number f4 f5 f6 : ℕ)
      → P m
      → P (vfs_read alloc m f4 f6 f5).1
      → ((number == 8) ≡ true → P (vfs_write alloc m f4 f6).1)
      → ((number == 12) ≡ true → P (exec_spawn alloc at m f4).1)
      → P (exec_name_at alloc at m f4 f6 f5).1
      → P (ipc_send alloc m f4 f6).1
      → P (ipc_recv alloc m f6 f5).1
      → P (user_ping alloc m).1
      → P (process_exit alloc m sp).1
      → P (answer alloc at m sp number f4 f5 f6).1
  unfolding answer
  answer-cases at m sp number f4 f5 f6 idle read write spawn name send recv ping exit =
      guarded (number == 0) _ _ (λ t. idle)
        (λ t.
          guarded (number == 1) _ _ (λ t. idle)
            (λ t.
              guarded (number == 2) _ _ (λ t. idle)
                (λ t.
                  guarded (number == 3) _ _ (λ t. idle)
                    (λ t.
                      guarded (number == 4) _ _ (λ t. idle)
                        (λ t.
                          guarded (number == 5) _ _ (λ t. idle)
                            (λ t.
                              guarded (number == 6) _ _ (λ t. idle)
                                (λ t.
                                  guarded (number == 7) _ _ (λ t. read)
                                    (λ t. guarded (number == 8) _ _ write (λ t.
                                      guarded (number == 9) _ _ (λ t. idle)
                                        (λ t.
                                          guarded (number == 10) _ _ (λ t. idle)
                                            (λ t.
                                              guarded (number == 11) _ _ (λ t. idle)
                                                (λ t. guarded (number == 12) _ _ spawn (λ t.
                                                  guarded (number == 13) _ _ (λ t. name)
                                                    (λ t.
                                                      guarded (number == 14) _ _ (λ t. send)
                                                        (λ t.
                                                          guarded (number == 15) _ _ (λ t. recv)
                                                            (λ t.
                                                            guarded (number == 16) _ _ (λ t. idle)
                                                            (λ t.
                                                            guarded (number == 17) _ _ (λ t. ping)
                                                            (λ t.
                                                            guarded (number == 18) _ _ (λ t. idle)
                                                            (λ t.
                                                            guarded (number == 19) _ _ (λ t. exit)
                                                            (λ t. idle))))))))))))))))))))
