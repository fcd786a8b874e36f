-- ===== src/Fd/Objects.antt =====
-- The state that the file descriptor layer works on: the objects at heap addresses, the file
-- system, and the serial console as the characters still to come and those sent.
use archarch.Base.{
  ℕ, zero, suc, Bool, true, false, ◌||◌, ◌==◌, leb, if◌then◌else◌, Option, none, some, List, upd, ℤ,
  pos, negsuc,
}
use archarch.Kmalloc.{Heap}
use archarch.Fat16
use archarch.Pipe.{Pipe}

pub data FileType : Type 0 where
  none_type : FileType
  console : FileType
  file : FileType
  pipe_end : FileType

pub record OpenFile : Type 0 where
  pub type : FileType
  pub flags : ℤ
  pub ref_count : ℤ
  pub first_cluster : ℕ
  pub file_size : ℕ
  pub position : ℕ
  pub current_cluster : ℕ
  pub pipe : ℕ

-- What `kzalloc` leaves.
abbrev pub no_file : OpenFile
no_file = record {
  type = none_type;
  flags = pos 0;
  ref_count = pos 0;
  first_cluster = 0;
  file_size = 0;
  position = 0;
  current_cluster = 0;
  pipe = 0;
}

pub record Io : Type 0 where
  pub heap : Heap
  pub files : ℕ → OpenFile
  pub pipes : ℕ → Pipe
  pub root_fs : Fat16.Fs
  pub uart_in : List ℕ
  pub uart_out : List ℕ

-- `struct fd_table`: the address of an open file for each descriptor.
abbrev pub FdTable : Type 0
FdTable = ℕ → ℕ

abbrev pub max_fds : ℕ
max_fds = 16

abbrev pub set_file : ℕ → OpenFile → Io → Io
set_file f o io = record io { files = upd io.files f o }

abbrev pub set_pipe : ℕ → Pipe → Io → Io
set_pipe a p io = record io { pipes = upd io.pipes a p }

-- `ref_count++`, `ref_count--` and `ref_count <= 0` of an `int`.
abbrev pub bump : ℤ → ℤ
bump (pos n) = pos (suc n)
bump (negsuc zero) = pos 0
bump (negsuc (suc n)) = negsuc n

abbrev pub drop : ℤ → ℤ
drop (pos zero) = negsuc 0
drop (pos (suc n)) = pos n
drop (negsuc n) = negsuc (suc n)

abbrev pub is_gone : ℤ → Bool
is_gone (pos zero) = true
is_gone (pos (suc n)) = false
is_gone (negsuc n) = true

abbrev pub is_pipe : FileType → Bool
is_pipe pipe_end = true
is_pipe _ = false

-- `fd < 0 || fd >= MAX_FDS_PER_TASK || !fdt->fds[fd]`, the test that most calls begin with.
unfoldable pub lookup_fd : FdTable → ℤ → Option ℕ
lookup_fd fdt (negsuc n) = none
lookup_fd fdt (pos n) = if leb max_fds n || fdt n == 0 then none else some n
