-- ===== src/Syscall/Calls.antt =====
-- Single system calls keep the scheduler's invariant.
use archarch.Base.{
  ℕ, ◌≡◌, inl, inr, refl, ◌∙◌, arith, ◌==◌, Bool-cases, Option, none, some, List, length, ℤ,
}
use archarch.Fd
use archarch.Fd.Objects.{FdTable, Io}
use archarch.Fd.{fd_open, fd_pipe, fd_dup2, Dup}
use archarch.Fd.Read.{
  Reading, Writing, read, yields, waits, never_returns, wrote, yields_to_write, read_pipe,
  write_pipe,
}
use archarch.Task.{Kernel, Image}
use archarch.Signal.Deliver.{Regs}
use archarch.Sched.{Waiting, sched_yield}
use archarch.Sched.Valid.{IsValid, IsValid-IsSettled, sched_yield-IsValid}
use archarch.Syscall.{after_wait, sys_yield, start_program}
use archarch.Syscall.Files.{
  Machine, Called, Pending, to_read, to_return, to_write, parks, go_on, answers, resumes, leaves,
  stuck, put_fdt, current_fdt, store_list, after_read, after_write, after_open, after_pipe,
  after_dup2, sys_close,
}
use archarch.Sched.Joins.{GoesOn, SameStates-GoesOn, sched_create_user-GoesOn}
use archarch.Syscall.Keeps.{WaitKeeps, goes_on, gives_up}

-- A call keeps the scheduler's invariant, and the current task if it does not leave.
pub data CallKeeps (k : Kernel) : Called → Type 0 where
  answer_keeps : (r : ℕ) (s : Machine) → GoesOn k s.kernel → CallKeeps k (answers r s)
  resume_keeps : (regs : Regs) (s : Machine) → GoesOn k s.kernel → CallKeeps k (resumes regs s)
  leave_keeps : (s : Machine) → IsValid s.kernel → CallKeeps k (leaves s)
  park_keeps : (pending : Pending) (s : Machine) → IsValid s.kernel → CallKeeps k (parks pending s)
  stuck_keeps : CallKeeps k stuck

-- The same task, after a change of the heap.
pub heap_changed : (k : Kernel) (io : Io) → IsValid k → GoesOn k (record k { io = io })
heap_changed k io v =
    SameStates-GoesOn k _ (record { count = refl; current = refl; state = λ j. refl }) v

module _ (image : Image) (s : Machine) (v : IsValid s.kernel) where
  pub put_fdt-GoesOn : (fdt : FdTable) (io : Io) → GoesOn s.kernel (put_fdt fdt io s).kernel
  unfolding put_fdt
  put_fdt-GoesOn fdt io =
      SameStates-GoesOn s.kernel _
        (record { count = refl; current = refl; state = λ j. ground arith }) v

  -- After `sched_yield`, with the objects changed before.
  yielded-IsValid : (io : Io) → IsValid (sched_yield image (record s.kernel { io = io }))
  yielded-IsValid io =
      sched_yield-IsValid image (record s.kernel { io = io })
        (IsValid-IsSettled (record s.kernel { io = io }) (heap_changed s.kernel io v).0)

  pub after_read-CallKeeps : (b : ℕ) (r : Reading) → CallKeeps s.kernel (after_read image b s r)
  unfolding after_read
  after_read-CallKeeps b (read r bytes io) = answer_keeps _ _ (put_fdt-GoesOn (current_fdt s) io)
  after_read-CallKeeps b (yields p count) = park_keeps _ _ (yielded-IsValid s.kernel.io)
  after_read-CallKeeps b (waits io) = stuck_keeps
  after_read-CallKeeps b never_returns = stuck_keeps

  pub after_write-CallKeeps : (w : Writing) → CallKeeps s.kernel (after_write image s w)
  unfolding after_write
  after_write-CallKeeps (wrote r io) = answer_keeps _ _ (put_fdt-GoesOn (current_fdt s) io)
  after_write-CallKeeps (yields_to_write p count rest io) = park_keeps _ _ (yielded-IsValid io)

  pub go_on-CallKeeps : (pending : Pending) → CallKeeps s.kernel (go_on image pending s)
  unfolding go_on
  go_on-CallKeeps (to_read b p count) = after_read-CallKeeps b (read_pipe p count s.kernel.io)
  go_on-CallKeeps (to_return r) = answer_keeps _ _ (v, refl)
  go_on-CallKeeps (to_write p count rest) =
      after_write-CallKeeps (write_pipe p count rest s.kernel.io)

  pub after_open-CallKeeps : (o : Option (ℤ × FdTable × Io)) → CallKeeps s.kernel (after_open s o)
  unfolding after_open
  after_open-CallKeeps none = stuck_keeps
  after_open-CallKeeps (some (r, fdt, io)) = answer_keeps _ _ (put_fdt-GoesOn fdt io)

  pub after_pipe-CallKeeps :
      (a : ℕ) (o : Option (ℤ × FdTable × Io)) → CallKeeps s.kernel (after_pipe a s o)
  unfolding after_pipe
  after_pipe-CallKeeps a none = stuck_keeps
  after_pipe-CallKeeps a (some (r, fdt, io)) = answer_keeps _ _ (put_fdt-GoesOn fdt io)

  pub after_dup2-CallKeeps : (d : Dup) → CallKeeps s.kernel (after_dup2 s d)
  unfolding after_dup2
  after_dup2-CallKeeps (Fd.returned r fdt io) = answer_keeps _ _ (put_fdt-GoesOn fdt io)
  after_dup2-CallKeeps Fd.fault = stuck_keeps

  pub after_wait-CallKeeps :
      (w : Waiting) → WaitKeeps image s.kernel v w → CallKeeps s.kernel (after_wait s w)
  unfolding after_wait
  after_wait-CallKeeps _ (goes_on r k' g) = answer_keeps _ _ g
  after_wait-CallKeeps _ (gives_up k' v') = park_keeps _ _ v'

  pub sys_close-CallKeeps : (a : ℕ) → CallKeeps s.kernel (sys_close image a s)
  unfolding sys_close
  sys_close-CallKeeps a = answer_keeps _ _ (put_fdt-GoesOn _ _)

  pub sys_yield-CallKeeps : CallKeeps s.kernel (sys_yield image s)
  unfolding sys_yield
  sys_yield-CallKeeps =
      let k' = sched_yield image s.kernel in
      let valid = sched_yield-IsValid image s.kernel (IsValid-IsSettled s.kernel v) in
      elim (Bool-cases (k'.current_task == s.kernel.current_task)) [
        | inl stays ↦ rw (stays, sys_yield) (answer_keeps _ _ (valid, ground (arith, stays)))
        | inr moves ↦ rw (moves, sys_yield) (park_keeps _ _ valid)
      ]

  pub start_program-CallKeeps :
      (name bytes : List ℕ) (code : ℕ) → CallKeeps s.kernel (start_program image name bytes code s)
  unfolding start_program
  start_program-CallKeeps name bytes code =
      let (v', same) =
        sched_create_user-GoesOn image s.kernel v name code (length bytes)
          (store_list bytes code s.mem) in
      let (w, e) = heap_changed _ _ v' in answer_keeps _ _ (w, e ∙ same)

pub CallKeeps-current :
    (k k' : Kernel) (c : Called) → k'.current_task ≡ k.current_task → CallKeeps k' c → CallKeeps k c
CallKeeps-current k k' _ same (answer_keeps r s (v, e)) = answer_keeps r s (v, e ∙ same)
CallKeeps-current k k' _ same (resume_keeps regs s (v, e)) = resume_keeps regs s (v, e ∙ same)
CallKeeps-current k k' _ same (leave_keeps s v) = leave_keeps s v
CallKeeps-current k k' _ same (park_keeps w s v) = park_keeps w s v
CallKeeps-current k k' _ same stuck_keeps = stuck_keeps
