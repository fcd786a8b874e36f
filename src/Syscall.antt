-- ===== src/Syscall.antt =====
-- System calls: syscall.c. The kernel finds user buffers in the current address space, whose bytes
-- are one memory here, and the kernel's own address space is another; that both show the same RAM is
-- not modelled, and the user pages that a call touches are taken as mapped.
pub mod Break
pub mod Listing
pub mod Files
pub mod Bounds
pub mod Undisturbed
pub mod Sbrk
pub mod Keeps
pub mod Calls
pub mod Handler
mod Tests
use archarch.Base.{
  ℕ, zero, suc, ◌+◌, ◌-◌, ◌*◌, ◌/◌, ◌%◌, ◌^◌, Bool, true, false, not, ◌==◌, ltb, leb, if◌then◌else◌,
  Option, none, some, List, [], ◌∷◌, ◌++◌, length, upd, ℤ, pos, negsuc, minus_one, is_neg, int_is,
  int_of_reg, reg_of_int,
}
use archarch.Memory.{Memory, store32}
use archarch.Kmalloc.{Heap, kmalloc, kfree}
use archarch.Fat16
use archarch.Fat16.Read.{Outcome, done, failed, read_file, read_result}
use archarch.Fd.Objects.{Io, FdTable}
use archarch.Fd
use archarch.Fd.{Dup, fd_open, fd_close, fd_pipe, fd_dup2, two_free_fds}
use archarch.Task.{Task, Kernel, Image, set_task}
use archarch.Signal.Send.{signal_send}
use archarch.Signal.Deliver.{
  Regs, Delivery, delivered, switched, signal_deliver, signal_return, signal_set_handler,
}
use archarch.Sched
use archarch.Sched.{Waiting, sched_yield, sched_exit, sched_wait}
use archarch.Sched.User.{sched_create_user, sched_fork}
use archarch.Syscall.Break.{sys_sbrk}
use archarch.Syscall.Files.{
  Machine, Called, Pending, parks, to_return, go_on, answers, resumes, leaves, stuck, put_kernel,
  store_list, load_string, sys_read, sys_write, sys_open, sys_pipe, sys_listdir, sys_close,
  sys_dup2,
}

unfoldable pub after_wait : Machine → Waiting → Called
after_wait s (Sched.returned r k') = answers (reg_of_int r) (put_kernel k' s)
after_wait s (Sched.waits k') = parks (to_return 0) (put_kernel k' s)

-- What a system call leaves: the registers for the return to the user, another task on the
-- processor, the processor given up with a call that goes on when its task runs again, or a call
-- that is `stuck`.
pub data Handled : Type 0 where
  returns : Regs → Machine → Handled
  departs : Machine → Handled
  parked : Pending → Machine → Handled
  hangs : Handled

unfoldable pub after_deliver : Machine → Delivery → Handled
after_deliver s (delivered _ regs' user' k') =
    returns regs' (record s { kernel = k'; user = user' })
after_deliver s (switched k') = departs (put_kernel k' s)

module _ (image : Image) where
  unfoldable pub sys_yield : Machine → Called
  sys_yield s =
      let k' = sched_yield image s.kernel in
      let s' = put_kernel k' s in
      if k'.current_task == s.kernel.current_task then answers 0 s' else parks (to_return 0) s'

  unfoldable pub sys_wait : (arg0 : ℕ) → Machine → Called
  unfolding after_wait
  sys_wait arg0 s = after_wait s (sched_wait image (int_of_reg arg0) s.kernel)

  -- The program of `bytes`, which stands at `code` on the heap, becomes a task.
  unfoldable pub start_program : (name bytes : List ℕ) → (code : ℕ) → Machine → Called
  unfolding store_list
  start_program name bytes code s =
      let (tid, k, mem) =
        sched_create_user image name code (length bytes) s.kernel (store_list bytes code s.mem) in
      let k' : Kernel = record k { io = record k.io { heap = kfree code k.io.heap } } in
      answers (if is_neg tid then 2 ^ 64 - 1 else reg_of_int tid)
        (record s { kernel = k'; mem = mem })

  -- What follows the reading of the file `name` into the buffer at `code`; `freed` is the state
  -- with the buffer freed.
  unfoldable pub after_load :
      (name : List ℕ) (code : ℕ) (s freed : Machine) → Option Outcome → Called
  unfolding start_program store_list
  after_load name code s freed none = stuck
  after_load name code s freed (some (failed out)) =
      answers (2 ^ 64 - 1) (record freed { mem = store_list out code s.mem })
  after_load name code s freed (some (done out)) =
      if is_neg (read_result (done out))
      then answers (2 ^ 64 - 1) (record freed { mem = store_list out code s.mem })
      else start_program name out code s

  -- The buffer for the file: none is a `kmalloc` that does not return.
  unfoldable pub after_kmalloc : (name : List ℕ) → Fat16.File → Machine → Option (ℕ × Heap) → Called
  unfolding after_load
  after_kmalloc name f s none = stuck
  after_kmalloc name f s (some (code, h)) =
      let io : Io = record s.kernel.io { heap = h } in
      let s1 = put_kernel (record s.kernel { io = io }) s in
      let freed = put_kernel (record s.kernel { io = record io { heap = kfree code h } }) s in
      let loaded = after_load name code s1 freed (read_file io.root_fs f f.file_size) in
      if code == 0 then answers (2 ^ 64 - 1) s1 else loaded

  unfoldable pub after_find : (name : List ℕ) → Machine → Option Fat16.File → Called
  unfolding after_kmalloc
  after_find name s none = answers (2 ^ 64 - 1) s
  after_find name s (some f) = after_kmalloc name f s (kmalloc 2 f.file_size s.kernel.io.heap)

  -- SYS_EXEC of the file `name`.
  unfoldable pub exec_file : List ℕ → Machine → Called
  unfolding after_find
  exec_file name s = after_find name s (Fat16.open_file s.kernel.io.root_fs name)

  -- The name is cut at 30 bytes.
  unfoldable pub sys_exec : (arg0 arg1 : ℕ) → Machine → Called
  unfolding exec_file load_string
  sys_exec arg0 arg1 s =
      let name_len = arg1 % 2 ^ 32 in
      exec_file (load_string (if ltb 30 name_len then 30 else name_len) arg0 s.user) s

  unfoldable pub sys_sbrk_call : (arg0 : ℕ) → Machine → Called
  sys_sbrk_call arg0 s =
      let (r, k, mem) = sys_sbrk arg0 s.kernel s.mem in
      answers r (record s { kernel = k; mem = mem })

  unfoldable pub sys_fork : Regs → Machine → Called
  sys_fork regs s =
      let (r, k, mem) = sched_fork image regs s.kernel s.mem in
      answers (reg_of_int r) (record s { kernel = k; mem = mem })

  unfoldable pub sys_kill : (arg0 arg1 : ℕ) → Machine → Called
  sys_kill arg0 arg1 s =
      let (r, k) = signal_send (int_of_reg arg0) (int_of_reg arg1) s.kernel in
      answers (reg_of_int r) (put_kernel k s)

  unfoldable pub sys_signal : (arg0 arg1 : ℕ) → Machine → Called
  sys_signal arg0 arg1 s =
      let (r, k) = signal_set_handler (int_of_reg arg0) arg1 s.kernel in answers r (put_kernel k s)

  -- The cases of the `switch` from SYS_EXEC on.
  unfoldable pub later_call : Regs → Machine → Called
  later_call regs s =
      let num = regs 8 in
      let arg0 = regs 0 in
      let arg1 = regs 1 in
      if num == 7
      then sys_exec arg0 arg1 s
      else if num == 8
      then sys_wait arg0 s
      else if num == 9
      then sys_sbrk_call arg0 s
      else if num == 10
      then sys_listdir arg0 arg1 s
      else if num == 11
      then sys_fork regs s
      else if num == 12
      then sys_pipe arg0 s
      else if num == 13
      then sys_dup2 image arg0 arg1 s
      else if num == 14
      then sys_kill arg0 arg1 s
      else if num == 15
      then sys_signal arg0 arg1 s
      else if num == 16
      then resumes (signal_return s.user regs) s
      else answers (2 ^ 64 - 1) s

  -- The `switch`.
  unfoldable pub syscall : Regs → Machine → Called
  unfolding later_call
  syscall regs s =
      let num = regs 8 in
      let arg0 = regs 0 in
      let arg1 = regs 1 in
      let arg2 = regs 2 in
      if num == 0
      then sys_read image arg0 arg1 arg2 s
      else if num == 1
      then sys_write image arg0 arg1 arg2 s
      else if num == 2
      then sys_open arg0 arg1 s
      else if num == 3
      then sys_close image arg0 s
      else if num == 4
      then answers s.kernel.current_task s
      else if num == 5
      then leaves (put_kernel (sched_exit image s.kernel) s)
      else if num == 6
      then sys_yield s
      else later_call regs s

  -- `signal_deliver(regs)` at the end of the handler.
  unfoldable pub deliver : Regs → Machine → Handled
  unfolding after_deliver
  deliver regs s = after_deliver s (signal_deliver image regs s.user s.kernel)

  unfoldable pub after_call : Regs → Called → Handled
  unfolding deliver
  after_call regs (answers r s) = deliver (upd regs 0 r) s
  after_call regs (resumes regs' s) = deliver regs' s
  after_call regs (leaves s) = departs s
  after_call regs (parks pending s) = parked pending s
  after_call regs stuck = hangs

  unfoldable pub syscall_handler : Regs → Machine → Handled
  unfolding after_call
  syscall_handler regs s = after_call regs (syscall regs s)

  -- The rest of the handler for a call that gave up the processor, when its task runs again: `regs`
  -- are the registers with which the task made the call.
  unfoldable pub resume_call : Regs → Pending → Machine → Handled
  unfolding after_call go_on
  resume_call regs pending s = after_call regs (go_on image pending s)
