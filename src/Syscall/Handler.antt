-- ===== src/Syscall/Handler.antt =====
-- The system call handler as a whole, with the delivery of a signal at its end.
use archarch.Base.{
  ℕ, ◌%◌, ◌^◌, ltb, ◌≢◌, inl, inr, refl, sym, ◌∙◌, Bool, true, false, ◌==◌, if◌then◌else◌,
  Bool-cases, Option, none, some, List, int_of_reg, is_neg,
}
use archarch.Memory.{Memory}
use archarch.Kmalloc.{Heap, kmalloc, kfree}
use archarch.Fat16
use archarch.Fat16.Read.{Outcome, done, failed, read_file, read_result}
use archarch.Fd.{fd_open, fd_pipe, fd_dup2}
use archarch.Fd.Read.{fd_read, fd_write}
use archarch.Task.{Kernel, Image}
use archarch.Signal.Deliver.{Regs, Delivery}
use archarch.Sched.{sched_wait}
use archarch.Sched.Valid.{IsValid}
use archarch.Sched.Exit.{sched_exit-Exited}
use archarch.Syscall.{
  after_deliver, after_call, after_load, after_kmalloc, after_find, sys_wait, exec_file, sys_exec,
  sys_sbrk_call, sys_fork, sys_kill, sys_signal, later_call, syscall, resume_call, parked, Handled,
  returns, departs, hangs, deliver, syscall_handler,
}
use archarch.Syscall.Files.{
  Machine, Called, Pending, answers, put_kernel, current_fdt, load_list, load_string, path_max,
  sys_read, sys_write, sys_open, sys_pipe, sys_listdir, sys_dup2,
}
use archarch.Sched.Joins.{GoesOn, sched_fork-GoesOn}
use archarch.Syscall.Keeps.{
  sys_sbrk-GoesOn, signal_set_handler-GoesOn, signal_send-GoesOn, sched_wait-WaitKeeps,
  DeliveryKeeps, same_task, other_task, signal_deliver-DeliveryKeeps,
}
use archarch.Syscall.Calls.{
  CallKeeps, answer_keeps, resume_keeps, leave_keeps, park_keeps, stuck_keeps, heap_changed,
  after_read-CallKeeps, after_write-CallKeeps, go_on-CallKeeps, after_open-CallKeeps,
  after_pipe-CallKeeps, after_dup2-CallKeeps, after_wait-CallKeeps, sys_close-CallKeeps,
  sys_yield-CallKeeps, start_program-CallKeeps, CallKeeps-current,
}

-- The scheduler's invariant, wherever the processor is after the call.
pub data HandledKeeps : Handled → Type 0 where
  return_keeps : (regs : Regs) (s : Machine) → IsValid s.kernel → HandledKeeps (returns regs s)
  depart_keeps : (s : Machine) → IsValid s.kernel → HandledKeeps (departs s)
  parked_keeps :
      (pending : Pending) (s : Machine) → IsValid s.kernel → HandledKeeps (parked pending s)
  hang_keeps : HandledKeeps hangs

module _ (image : Image) where
  after_load-CallKeeps :
      (name : List ℕ) (code : ℕ) (s freed : Machine) (o : Option Outcome)
      → IsValid s.kernel
      → GoesOn s.kernel freed.kernel
      → CallKeeps s.kernel (after_load image name code s freed o)
  unfolding after_load
  after_load-CallKeeps name code s freed none v g = stuck_keeps
  after_load-CallKeeps name code s freed (some (failed out)) v g = answer_keeps _ _ g
  after_load-CallKeeps name code s freed (some (done out)) v g =
      elim (Bool-cases (is_neg (read_result (done out)))) [
        | inl neg ↦ rw (neg, after_load) (answer_keeps _ _ g)
        | inr ok ↦ rw (ok, after_load) (start_program-CallKeeps image s v name out code)
      ]

  after_kmalloc-CallKeeps :
      (name : List ℕ) (f : Fat16.File) (s : Machine) (o : Option (ℕ × Heap))
      → IsValid s.kernel
      → CallKeeps s.kernel (after_kmalloc image name f s o)
  unfolding after_kmalloc
  after_kmalloc-CallKeeps name f s none v = stuck_keeps
  after_kmalloc-CallKeeps name f s (some (code, h)) v = elim (Bool-cases (code == 0)) [
    | inl null ↦ rw (null, after_kmalloc) (answer_keeps _ _ (heap_changed s.kernel _ v))
    | inr ok ↦
        let (v1, same1) = heap_changed s.kernel (record s.kernel.io { heap = h }) v in
        rw (ok, after_kmalloc)
          (CallKeeps-current s.kernel _ _ same1 (
            after_load-CallKeeps name code
              (put_kernel (record s.kernel { io = record s.kernel.io { heap = h } }) s)
              (put_kernel (record s.kernel { io = record s.kernel.io { heap = kfree code h } }) s)
              (read_file s.kernel.io.root_fs f f.file_size) v1
              (heap_changed _ (record s.kernel.io { heap = kfree code h }) v1)))
  ]

  after_find-CallKeeps :
      (name : List ℕ) (s : Machine) (o : Option Fat16.File)
      → IsValid s.kernel
      → CallKeeps s.kernel (after_find image name s o)
  unfolding after_find
  after_find-CallKeeps name s none v = answer_keeps _ _ (v, refl)
  after_find-CallKeeps name s (some f) v =
      after_kmalloc-CallKeeps name f s (kmalloc 2 f.file_size s.kernel.io.heap) v

  module _ (s : Machine) (v : IsValid s.kernel) (busy : s.kernel.current_task ≢ 0) where
    answers-CallKeeps :
        (r : ℕ) (k : Kernel) (m : Memory)
        → GoesOn s.kernel k
        → CallKeeps s.kernel (answers r (record s { kernel = k; mem = m }))
    answers-CallKeeps r k m g = answer_keeps _ _ g

    sys_sbrk_call-CallKeeps : (a : ℕ) → CallKeeps s.kernel (sys_sbrk_call image a s)
    unfolding sys_sbrk_call
    sys_sbrk_call-CallKeeps a = answers-CallKeeps _ _ _ (sys_sbrk-GoesOn image s.kernel v a s.mem)

    sys_fork-CallKeeps : (regs : Regs) → CallKeeps s.kernel (sys_fork image regs s)
    unfolding sys_fork
    sys_fork-CallKeeps regs =
        answers-CallKeeps _ _ _ (sched_fork-GoesOn image s.kernel v regs s.mem)

    sys_kill-CallKeeps : (a b : ℕ) → CallKeeps s.kernel (sys_kill image a b s)
    unfolding sys_kill
    sys_kill-CallKeeps a b =
        answers-CallKeeps _ _ _ (signal_send-GoesOn image s.kernel v (int_of_reg a) (int_of_reg b))

    sys_signal-CallKeeps : (a b : ℕ) → CallKeeps s.kernel (sys_signal image a b s)
    unfolding sys_signal
    sys_signal-CallKeeps a b =
        answers-CallKeeps _ _ _ (signal_set_handler-GoesOn image s.kernel v (int_of_reg a) b)

    sys_listdir-CallKeeps : (a b : ℕ) → CallKeeps s.kernel (sys_listdir a b s)
    unfolding sys_listdir
    sys_listdir-CallKeeps a b = answer_keeps _ _ (v, refl)

    sys_exec-CallKeeps : (a b : ℕ) → CallKeeps s.kernel (sys_exec image a b s)
    unfolding sys_exec exec_file
    sys_exec-CallKeeps a b =
        let name = load_string (if ltb 30 (b % 2 ^ 32) then 30 else b % 2 ^ 32) a s.user in
        after_find-CallKeeps name s (Fat16.open_file s.kernel.io.root_fs name) v

    if_keeps :
        (b : Bool) (x y : Called)
        → CallKeeps s.kernel x
        → CallKeeps s.kernel y
        → CallKeeps s.kernel (if b then x else y)
    if_keeps true x y p q = p
    if_keeps false x y p q = q

    later_call-CallKeeps : (regs : Regs) → CallKeeps s.kernel (later_call image regs s)
    unfolding later_call sys_pipe sys_dup2 sys_wait
    later_call-CallKeeps regs =
        let fd = int_of_reg (regs 0) in
        if_keeps _ _ _ (sys_exec-CallKeeps (regs 0) (regs 1)) (
          if_keeps _ _ _
            (after_wait-CallKeeps image s v (sched_wait image fd s.kernel)
              (sched_wait-WaitKeeps image s.kernel v fd busy))
            (if_keeps _ _ _ (sys_sbrk_call-CallKeeps (regs 0)) (
              if_keeps _ _ _ (sys_listdir-CallKeeps (regs 0) (regs 1)) (
                if_keeps _ _ _ (sys_fork-CallKeeps regs) (
                  if_keeps _ _ _
                    (after_pipe-CallKeeps image s v (regs 0) (fd_pipe (current_fdt s) s.kernel.io))
                    (if_keeps _ _ _
                      (after_dup2-CallKeeps image s v (
                        fd_dup2 image.console_file (current_fdt s) fd (int_of_reg (regs 1))
                          s.kernel.io))
                      (if_keeps _ _ _ (sys_kill-CallKeeps (regs 0) (regs 1)) (
                        if_keeps _ _ _ (sys_signal-CallKeeps (regs 0) (regs 1)) (
                          if_keeps _ _ _ (resume_keeps _ _ (v, refl))
                            (answer_keeps _ _ (v, refl)))))))))))

    syscall-CallKeeps : (regs : Regs) → CallKeeps s.kernel (syscall image regs s)
    unfolding syscall sys_read sys_write sys_open
    syscall-CallKeeps regs =
        let fd = int_of_reg (regs 0) in
        let fdt = current_fdt s in
        let io = s.kernel.io in
        if_keeps _ _ _
          (after_read-CallKeeps image s v (regs 1) (fd_read fdt fd (regs 2 % 2 ^ 32) io))
          (if_keeps _ _ _
            (after_write-CallKeeps image s v
              (fd_write fdt fd (load_list (regs 2 % 2 ^ 32) (regs 1) s.user) io))
            (if_keeps _ _ _
              (after_open-CallKeeps image s v
                (fd_open fdt (load_string path_max (regs 0) s.user) (int_of_reg (regs 1)) io))
              (if_keeps _ _ _ (sys_close-CallKeeps image s v (regs 0)) (
                if_keeps _ _ _ (answer_keeps _ _ (v, refl)) (
                  if_keeps _ _ _ (leave_keeps _ (sched_exit-Exited image s.kernel v busy).valid) (
                    if_keeps _ _ _ (sys_yield-CallKeeps image s v) (later_call-CallKeeps regs)))))))

  after_deliver-HandledKeeps :
      (s : Machine) (d : Delivery) → DeliveryKeeps image d → HandledKeeps (after_deliver s d)
  unfolding after_deliver
  after_deliver-HandledKeeps s _ (same_task r regs m k' v) = return_keeps _ _ v
  after_deliver-HandledKeeps s _ (other_task k' v) = depart_keeps _ v

  after_call-HandledKeeps :
      (regs : Regs) (k : Kernel) (c : Called)
      → k.current_task ≢ 0
      → CallKeeps k c
      → HandledKeeps (after_call image regs c)
  unfolding after_call deliver
  after_call-HandledKeeps regs k _ busy (answer_keeps r s (v, e)) =
      after_deliver-HandledKeeps s _
        (signal_deliver-DeliveryKeeps image _ s.user s.kernel v (λ z. busy (sym e ∙ z)))
  after_call-HandledKeeps regs k _ busy (resume_keeps regs' s (v, e)) =
      after_deliver-HandledKeeps s _
        (signal_deliver-DeliveryKeeps image _ s.user s.kernel v (λ z. busy (sym e ∙ z)))
  after_call-HandledKeeps regs k _ busy (leave_keeps s v) = depart_keeps s v
  after_call-HandledKeeps regs k _ busy (park_keeps w s v) = parked_keeps w s v
  after_call-HandledKeeps regs k _ busy stuck_keeps = hang_keeps

  -- `syscall_handler`, called by a task other than the idle one with the scheduler's invariant, with
  -- any number and any arguments: when it returns to the caller or leaves the processor to another
  -- task, the scheduler's invariant holds, also where a read or a write of a pipe calls `sched_yield`.
  -- The same is true of the rest of a read, a write, a wait or a yield that gave up the processor, for
  -- every state in which its task runs again with the invariant. It says nothing of a call that does not come back: one that is caught in
  -- `kmalloc` or in a cyclic cluster chain, that waits for the console, or in which the kernel faults.
  pub syscall_handler-HandledKeeps :
      (regs : Regs) (s : Machine)
      → IsValid s.kernel
      → s.kernel.current_task ≢ 0
      → HandledKeeps (syscall_handler image regs s)
        × ((pending : Pending) → HandledKeeps (resume_call image regs pending s))
  unfolding syscall_handler resume_call
  syscall_handler-HandledKeeps regs s v busy = (
    after_call-HandledKeeps regs s.kernel _ busy (syscall-CallKeeps s v busy regs),
    λ pending. after_call-HandledKeeps regs s.kernel _ busy (go_on-CallKeeps image s v pending),
  )
