-- ===== src/Fd.antt =====
-- The file descriptor layer: fd.c and the records of fd.h. Open files and pipes are objects at heap
-- addresses; a table maps a descriptor to an address, 0 for NULL.
pub mod Objects
pub mod Read
pub mod Refs
pub mod Dup2
mod Tests
use archarch.Base.{
  ℕ, zero, suc, ◌+◌, ◌-◌, ◌%◌, ◌^◌, Bool, true, false, not, ◌&&◌, ◌||◌, ◌==◌, ltb, leb,
  if◌then◌else◌, Option, none, some, List, [], ◌∷◌, ◌++◌, upd, length, ℤ, pos, negsuc, minus_one,
  int_is,
}
use archarch.Kmalloc.{Heap, kmalloc, kfree}
use archarch.Fat16
use archarch.Pipe.{Pipe, new_pipe, drain, fill, pipe_buf_size}
use archarch.Fd.Objects.{
  FileType, OpenFile, no_file, Io, FdTable, max_fds, lookup_fd, bump, drop, is_gone, is_pipe,
  set_file, set_pipe, none_type, console, file, pipe_end,
}

-- The descriptors from `i` on, with `n` left to look at.
unfoldable pub find_free_from : ℕ → ℕ → FdTable → Option ℕ
find_free_from zero i fdt = none
find_free_from (suc n) i fdt =
    let rest = find_free_from n (i + 1) fdt in if fdt i == 0 then some i else rest

unfoldable pub find_free_fd : FdTable → Option ℕ
unfolding find_free_from
find_free_fd = find_free_from max_fds 0

-- `kzalloc(sizeof(struct open_file))`, the object with it. `none` is a call that does not return;
-- two rounds are enough for one that does.
unfoldable pub alloc_file : Io → Option (ℕ × Io)
alloc_file io = elim (kmalloc 2 40 io.heap) [
  | none ↦ none
  | some (p, h) ↦
      let io' : Io = record io { heap = h } in
      some (p, if p == 0 then io' else set_file p no_file io')
]

-- The end of a pipe is marked closed when the last reference to it is gone; the pipe itself goes
-- with its second end.
unfoldable pub close_end : (f : ℕ) → OpenFile → Io → Io
close_end f o io =
    let p = io.pipes o.pipe in
    let p' : Pipe =
      if int_is o.flags 0
      then record p { read_open = false }
      else if int_is o.flags 1
      then record p { write_open = false }
      else p in
    let io1 = set_pipe o.pipe p' io in
    if not p'.read_open && not p'.write_open
    then set_file f (record o { pipe = 0 }) (record io1 { heap = kfree o.pipe io1.heap })
    else io1

-- What `fd_dup2` leaves: its result, or the fault of a write through NULL.
pub data Dup : Type 0 where
  returned : ℤ → FdTable → Io → Dup
  fault : Dup

unfoldable pub dup_to : ℕ → ℕ → FdTable → Io → Dup
dup_to old new fdt io =
    let f = fdt old in
    let o = io.files f in
    if f == 0
    then fault
    else returned (pos new) (upd fdt new f)
        (set_file f (record o { ref_count = bump o.ref_count }) io)

module _ (console_file : ℕ) where
  unfoldable pub free_file : ℕ → Io → Io
  free_file f io =
      if not (f == 0) && not (f == console_file) then record io { heap = kfree f io.heap } else io

  unfoldable pub fd_table_init : Io → FdTable × Io
  fd_table_init io =
      let c = io.files console_file in
      (
        upd (upd (upd (λ i. 0) 0 console_file) 1 console_file) 2 console_file,
        set_file console_file (record c { ref_count = bump (bump (bump c.ref_count)) }) io,
      )

  -- `fd_close` of a descriptor that stands for the open file at `f`.
  unfoldable pub release_file : ℕ → Io → Io
  release_file f io =
      let old = io.files f in
      let o : OpenFile = record old { ref_count = drop old.ref_count } in
      let io1 = set_file f o io in
      let io2 =
        if is_pipe o.type && not (o.pipe == 0) && is_gone o.ref_count
        then close_end f o io1
        else io1 in
      if is_gone o.ref_count && not (f == console_file) then free_file f io2 else io2

  unfoldable pub fd_close : FdTable → ℤ → Io → ℤ × FdTable × Io
  fd_close fdt fd io = elim (lookup_fd fdt fd) [
    | none ↦ (minus_one, fdt, io)
    | some n ↦ (pos 0, upd fdt n 0, release_file (fdt n) io)
  ]

  -- `fd_table_destroy`, from the `i`-th descriptor on.
  unfoldable pub destroy_from : ℕ → ℕ → FdTable → Io → FdTable × Io
  destroy_from zero i fdt io = (fdt, io)
  destroy_from (suc n) i fdt io =
      let (_, fdt', io') = fd_close fdt (pos i) io in
      destroy_from n (i + 1) (if fdt i == 0 then fdt else fdt') (if fdt i == 0 then io else io')

  unfoldable pub fd_table_destroy : FdTable → Io → FdTable × Io
  fd_table_destroy = destroy_from max_fds 0

  unfoldable pub fd_dup2 : FdTable → ℤ → ℤ → Io → Dup
  fd_dup2 fdt oldfd (negsuc new) io = returned minus_one fdt io
  fd_dup2 fdt oldfd (pos new) io = elim (lookup_fd fdt oldfd) [
    | none ↦ returned minus_one fdt io
    | some old ↦
        let (_, fdt', io') = fd_close fdt (pos new) io in
        if leb max_fds new
        then returned minus_one fdt io
        else if fdt new == 0
        then dup_to old new fdt io
        else dup_to old new fdt' io'
  ]

-- `fd_table_dup`, from the `i`-th descriptor on: `dst` shares the open files of `src`.
unfoldable pub dup_from : ℕ → ℕ → FdTable → FdTable → Io → FdTable × Io
dup_from zero i dst src io = (dst, io)
dup_from (suc n) i dst src io =
    let f = src i in
    let o = io.files f in
    dup_from n (i + 1) (upd dst i f) src
      (if f == 0 then io else set_file f (record o { ref_count = bump o.ref_count }) io)

unfoldable pub fd_table_dup : FdTable → FdTable → Io → FdTable × Io
fd_table_dup = dup_from max_fds 0

unfoldable pub opened : Fat16.File → ℤ → OpenFile
opened f flags = record no_file {
  type = file;
  flags = flags;
  ref_count = pos 1;
  first_cluster = f.first_cluster;
  file_size = f.file_size;
  position = 0;
  current_cluster = f.first_cluster;
}

unfoldable pub fd_open : FdTable → List ℕ → ℤ → Io → Option (ℤ × FdTable × Io)
unfolding find_free_fd alloc_file opened
fd_open fdt path flags io = elim (find_free_fd fdt) [
  | none ↦ some (minus_one, fdt, io)
  | some fd ↦ elim (Fat16.open_file io.root_fs path) [
    | none ↦ some (minus_one, fdt, io)
    | some fat_file ↦ elim (alloc_file io) [
      | none ↦ none
      | some (f, io1) ↦
          if f == 0
          then some (minus_one, fdt, io1)
          else some (pos fd, upd fdt fd f, set_file f (opened fat_file flags) io1)
    ]
  ]
]

unfoldable pub pipe_file : ℕ → ℕ → OpenFile
pipe_file p flags = record no_file {
  type = pipe_end;
  flags = pos flags;
  ref_count = pos 1;
  pipe = p;
}

-- `kzalloc(sizeof(struct pipe))` and the two flags that are set at once.
unfoldable pub alloc_pipe : Io → Option (ℕ × Io)
alloc_pipe io = elim (kmalloc 2 4116 io.heap) [
  | none ↦ none
  | some (p, h) ↦
      let io' : Io = record io { heap = h } in
      some (p, if p == 0 then io' else set_pipe p new_pipe io')
]

-- The two descriptors that `fd_pipe` would use: the first is marked while the second is sought.
unfoldable pub two_free_fds : FdTable → Option (ℕ × ℕ)
unfolding find_free_fd
two_free_fds fdt = elim (find_free_fd fdt) [
  | none ↦ none
  | some rfd ↦ elim (find_free_fd (upd fdt rfd 1)) [ none ↦ none | some wfd ↦ some (rfd, wfd) ]
]

-- The two open files of a pipe at `p`, on the descriptors `rfd` and `wfd`.
unfoldable pub connect : ℕ → ℕ → ℕ → FdTable → Io → Option (ℤ × FdTable × Io)
unfolding alloc_file pipe_file
connect p rfd wfd fdt io = elim (alloc_file io) [
  | none ↦ none
  | some (rf, io1) ↦
      let io2 = set_file rf (pipe_file p 0) io1 in
      let rest : Option (ℤ × FdTable × Io) = elim (alloc_file io2) [
        | none ↦ none
        | some (wf, io3) ↦
            if wf == 0
            then some (minus_one, fdt, record io3 { heap = kfree rf (kfree p io3.heap) })
            else some (pos 0, upd (upd fdt rfd rf) wfd wf, set_file wf (pipe_file p 1) io3)
      ] in
      if rf == 0 then some (minus_one, fdt, record io1 { heap = kfree p io1.heap }) else rest
]

-- `fd_pipe`. On success the descriptors are those of `two_free_fds`.
unfoldable pub fd_pipe : FdTable → Io → Option (ℤ × FdTable × Io)
unfolding two_free_fds alloc_pipe connect
fd_pipe fdt io = elim (two_free_fds fdt) [
  | none ↦ some (minus_one, fdt, io)
  | some (rfd, wfd) ↦ elim (alloc_pipe io) [
    | none ↦ none
    | some (p, io1) ↦ if p == 0 then some (minus_one, fdt, io1) else connect p rfd wfd fdt io1
  ]
]
