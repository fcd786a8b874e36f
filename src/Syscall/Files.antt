-- ===== src/Syscall/Files.antt =====
-- The system calls on descriptors of syscall.c, and the state that all calls change.
use archarch.Base.{
  ℕ, zero, suc, ◌+◌, ◌%◌, ◌^◌, ◌==◌, if◌then◌else◌, Option, none, some, List, [], ◌∷◌, ◌++◌, length,
  upd, ℤ, int_is, int_of_reg, reg_of_int,
}
use archarch.Memory.{Memory, store32}
use archarch.Fd.Objects.{Io, FdTable}
use archarch.Fd
use archarch.Fd.{Dup, fd_open, fd_close, fd_pipe, fd_dup2, two_free_fds}
use archarch.Fd.Read.{
  Reading, Writing, read, yields, waits, never_returns, wrote, yields_to_write, fd_read, fd_write,
  read_pipe, write_pipe,
}
use archarch.Task.{Kernel, Image, set_task}
use archarch.Signal.Deliver.{Regs}
use archarch.Sched.{sched_yield}
use archarch.Syscall.Listing.{listdir_text}

pub record Machine : Type 0 where
  pub kernel : Kernel
  pub user : Memory
  pub mem : Memory

-- What is left of a call that gave up the processor: its result, or `count` bytes to read from the pipe at `p` into
-- the buffer, or `rest` of the `count` bytes to write to it.
pub data Pending : Type 0 where
  to_read : (buf p count : ℕ) → Pending
  to_return : ℕ → Pending
  to_write : (p count : ℕ) → (rest : List ℕ) → Pending

-- What one case of the `switch` does: it puts a value in x0 (`sigreturn` replaces all registers), it
-- leaves the processor to another task, it gives up the processor in the middle of a read or a write
-- of a pipe, or the call does not come back: no characters come in from the console any more, it is
-- caught in `kmalloc`, or the kernel faults.
pub data Called : Type 0 where
  parks : Pending → Machine → Called
  answers : ℕ → Machine → Called
  resumes : Regs → Machine → Called
  leaves : Machine → Called
  stuck : Called

abbrev pub put_kernel : Kernel → Machine → Machine
put_kernel k s = record s { kernel = k }

-- `current_fdt`, and the state with another table and other objects.
abbrev pub current_fdt : Machine → FdTable
current_fdt s = (s.kernel.tasks s.kernel.current_task).fdt

unfoldable pub put_fdt : FdTable → Io → Machine → Machine
put_fdt fdt io s =
    let k = s.kernel in
    let t = k.tasks k.current_task in
    put_kernel (record (set_task k.current_task (record t { fdt = fdt }) k) { io = io }) s

unfoldable pub load_list : ℕ → ℕ → Memory → List ℕ
load_list zero a m = []
load_list (suc n) a m = m a ∷ load_list n (a + 1) m

unfoldable pub store_list : List ℕ → ℕ → Memory → Memory
store_list [] a m = m
store_list (b ∷ bs) a m = store_list bs (a + 1) (upd m a b)

-- The characters in front of the NUL, of at most `n`; a string without one among them is taken as
-- what these `n` are.
unfoldable pub load_string : ℕ → ℕ → Memory → List ℕ
load_string zero a m = []
load_string (suc n) a m = let rest = load_string n (a + 1) m in if m a == 0 then [] else m a ∷ rest

-- How many characters of a path are looked at; the 8.3 name is settled by the first of them.
abbrev pub path_max : ℕ
path_max = 4096

-- The result of a call that changes the descriptors.
unfoldable pub after_open : Machine → Option (ℤ × FdTable × Io) → Called
unfolding put_fdt
after_open s none = stuck
after_open s (some (r, fdt, io)) = answers (reg_of_int r) (put_fdt fdt io s)

unfoldable pub sys_open : (arg0 arg1 : ℕ) → Machine → Called
unfolding after_open load_string
sys_open arg0 arg1 s =
    after_open s
      (fd_open (current_fdt s) (load_string path_max arg0 s.user) (int_of_reg arg1) s.kernel.io)

-- The user's array of two descriptors.
unfoldable pub store_fds : ℕ → Option (ℕ × ℕ) → Memory → Memory
store_fds a none m = m
store_fds a (some (rfd, wfd)) m = store32 (a + 4) wfd (store32 a rfd m)

unfoldable pub after_pipe : (user_fds : ℕ) → Machine → Option (ℤ × FdTable × Io) → Called
unfolding put_fdt store_fds
after_pipe user_fds s none = stuck
after_pipe user_fds s (some (r, fdt, io)) =
    let user' = store_fds user_fds (two_free_fds (current_fdt s)) s.user in
    answers (reg_of_int r)
      (record (put_fdt fdt io s) { user = if int_is r 0 then user' else s.user })

unfoldable pub sys_pipe : (arg0 : ℕ) → Machine → Called
unfolding after_pipe
sys_pipe arg0 s = after_pipe arg0 s (fd_pipe (current_fdt s) s.kernel.io)

unfoldable pub sys_listdir : (arg0 arg1 : ℕ) → Machine → Called
unfolding store_list
sys_listdir arg0 arg1 s =
    let text = listdir_text (arg1 % 2 ^ 32) s.kernel.io.root_fs in
    answers (length text) (record s { user = store_list (text ++ (0 ∷ [])) arg0 s.user })

unfoldable pub after_dup2 : Machine → Dup → Called
unfolding put_fdt
after_dup2 s (Fd.returned r fdt io) = answers (reg_of_int r) (put_fdt fdt io s)
after_dup2 s Fd.fault = stuck

module _ (image : Image) where
  -- The result of `fd_read`, with the bytes that it put into the buffer.
  unfoldable pub after_read : (buf : ℕ) → Machine → Reading → Called
  unfolding put_fdt store_list
  after_read buf s (read r bytes io) =
      answers (reg_of_int r)
        (record (put_fdt (current_fdt s) io s) { user = store_list bytes buf s.user })
  after_read buf s (yields p count) =
      parks (to_read buf p count) (put_kernel (sched_yield image s.kernel) s)
  after_read buf s (waits io) = stuck
  after_read buf s never_returns = stuck

  unfoldable pub sys_read : (arg0 arg1 arg2 : ℕ) → Machine → Called
  unfolding after_read
  sys_read arg0 arg1 arg2 s =
      after_read arg1 s (fd_read (current_fdt s) (int_of_reg arg0) (arg2 % 2 ^ 32) s.kernel.io)

  unfoldable pub after_write : Machine → Writing → Called
  unfolding put_fdt
  after_write s (wrote r io) = answers (reg_of_int r) (put_fdt (current_fdt s) io s)
  after_write s (yields_to_write p count rest io) =
      parks (to_write p count rest) (put_kernel (sched_yield image (record s.kernel { io = io })) s)

  unfoldable pub sys_write : (arg0 arg1 arg2 : ℕ) → Machine → Called
  unfolding after_write load_list
  sys_write arg0 arg1 arg2 s = after_write s (
      fd_write (current_fdt s) (int_of_reg arg0) (load_list (arg2 % 2 ^ 32) arg1 s.user)
        s.kernel.io)

  -- The task runs again: the call returns, or looks at the pipe once more.
  unfoldable pub go_on : Pending → Machine → Called
  unfolding after_read after_write
  go_on (to_read buf p count) s = after_read buf s (read_pipe p count s.kernel.io)
  go_on (to_return r) s = answers r s
  go_on (to_write p count rest) s = after_write s (write_pipe p count rest s.kernel.io)

  unfoldable pub sys_close : (arg0 : ℕ) → Machine → Called
  unfolding put_fdt
  sys_close arg0 s =
      let (r, fdt, io) =
        fd_close image.console_file (current_fdt s) (int_of_reg arg0) s.kernel.io in
      answers (reg_of_int r) (put_fdt fdt io s)

  unfoldable pub sys_dup2 : (arg0 arg1 : ℕ) → Machine → Called
  unfolding after_dup2
  sys_dup2 arg0 arg1 s =
      after_dup2 s
        (fd_dup2 image.console_file (current_fdt s) (int_of_reg arg0) (int_of_reg arg1) s.kernel.io)
