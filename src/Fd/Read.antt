-- ===== src/Fd/Read.antt =====
-- `fd_read` and `fd_write` of fd.c. At a pipe a call ends where it gives up the
-- processor, with what it is about to do when its task runs again.
use Prim.Native.Nat.{min}
use archarch.Base.{
  ℕ, ◌-◌, ◌%◌, ◌^◌, Bool, true, not, ◌&&◌, ◌||◌, ◌==◌, ltb, leb, if◌then◌else◌, none, some, List,
  [], ◌∷◌, ◌++◌, length, take, drop, ℤ, pos, minus_one, is_neg, int_of_reg,
}
use archarch.Base.Word.{add32, sub32}
use archarch.Kmalloc.{kmalloc, kfree}
use archarch.Fat16
use archarch.Fat16.Read.{done, failed, read_file, read_result}
use archarch.Pipe.{drain, fill}
use archarch.Fd.Objects.{
  Io, FdTable, lookup_fd, none_type, console, file, pipe_end, set_file, set_pipe,
}

-- What `fd_read` leaves: its result and the bytes that it wrote to the caller's buffer, from the
-- start of the buffer on; `yields` is a call that gives up the processor at the empty pipe `p` and
-- then looks again, `waits` one for which no more characters come in from the console, and
-- `never_returns` one that is caught in `kmalloc` or in a cyclic cluster chain.
pub data Reading : Type 0 where
  read : ℤ → List ℕ → Io → Reading
  yields : (p count : ℕ) → Reading
  waits : Io → Reading
  never_returns : Reading

-- The line editor. `limit` is `count - 1`; `line` is what stands in the buffer, and the characters
-- that are echoed go behind `echo`.
unfoldable pub edit_line : ℕ → List ℕ → List ℕ → List ℕ → Io → Reading
edit_line limit [] line echo io =
    let io' : Io = record io { uart_in = []; uart_out = io.uart_out ++ echo } in
    if ltb (length line) limit then waits io' else read (int_of_reg (length line)) line io'
edit_line limit (c ∷ input) line echo io =
    let io' : Io = record io { uart_in = c ∷ input; uart_out = io.uart_out ++ echo } in
    let io'' : Io = record io {
      uart_in = input;
      uart_out = io.uart_out ++ (echo ++ (b'\r' ∷ b'\n' ∷ []));
    } in
    let full_line = line ++ (b'\n' ∷ []) in
    let erase = (c == 127) || (c == 8) in
    let printable = leb 32 c && ltb c 127 in
    let line' =
      if erase then take (length line - 1) line else if printable then line ++ (c ∷ []) else line in
    let echo' =
      if erase
      then (if length line == 0 then echo else echo ++ (8 ∷ b' ' ∷ 8 ∷ []))
      else if printable
      then echo ++ (c ∷ [])
      else echo in
    let rest = edit_line limit input line' echo' io in
    if not (ltb (length line) limit)
    then read (int_of_reg (length line)) line io'
    else if (c == b'\r') || (c == b'\n')
    then read (int_of_reg (length full_line)) full_line io''
    else rest

-- The pipe at `p` is looked at once: the bytes that it holds, the end of the data if its write end is
-- closed, or `sched_yield` and once more around `while (p->count == 0)`.
unfoldable pub read_pipe : ℕ → ℕ → Io → Reading
read_pipe p count io =
    let (out, q) = drain count (io.pipes p) in
    if not ((io.pipes p).count == 0)
    then read (int_of_reg (length out)) out (set_pipe p q io)
    else if not (io.pipes p).write_open
    then read (pos 0) [] io
    else yields p count

-- `bytes > (int)position` for a result `bytes` that is not negative.
unfoldable pub int_lt_size : ℕ → ℕ → Bool
int_lt_size position bytes =
    let p = position % 2 ^ 32 in if ltb p (2 ^ 31) then ltb p bytes else true

-- The second read of a file, into a buffer of its own; `first` is what the first read put into the
-- caller's buffer, which the bytes from `position` on then overwrite from its start.
unfoldable pub second_read : ℕ → Fat16.File → (count : ℕ) → List ℕ → Io → Reading
unfolding int_lt_size
second_read f tmp count first io =
    let o = io.files f in
    let wanted = add32 o.position count in
    elim (kmalloc 2 wanted io.heap) [
      | none ↦ never_returns
      | some (tmpbuf, h) ↦
          let io1 : Io = record io { heap = h } in
          let io2 : Io = record io { heap = kfree tmpbuf h } in
          let second : Reading = elim (read_file io.root_fs tmp wanted) [
            | none ↦ never_returns
            | some (failed out) ↦ read (pos 0) first io2
            | some (done out) ↦
                let actual = min (length out - o.position) count in
                let data' = take actual (drop o.position out) in
                if int_lt_size o.position (length out)
                then read (int_of_reg actual) (data' ++ drop actual first)
                    (set_file f (record o { position = add32 o.position actual }) io2)
                else read (pos 0) first io2
          ] in
          if tmpbuf == 0 then read minus_one first io1 else second
    ]

-- A read of a file: first into the caller's buffer, from the beginning of the file up to
-- `position + count`, and then once more.
unfoldable pub read_disk : ℕ → ℕ → Io → Reading
unfolding second_read
read_disk f count io =
    let o = io.files f in
    let count' = min count (o.file_size - o.position) in
    let tmp : Fat16.File = record {
      first_cluster = o.first_cluster;
      file_size = o.file_size;
      position = o.position;
      current_cluster = o.first_cluster;
    } in
    let first : Reading = elim (read_file io.root_fs tmp (add32 o.position count')) [
      | none ↦ never_returns
      | some (failed out) ↦ read minus_one out io
      | some (done out) ↦
          if is_neg (read_result (done out))
          then read minus_one out io
          else if ltb o.position (length out)
          then second_read f tmp count' out io
          else read (pos 0) out io
    ] in
    if leb o.file_size o.position then read (pos 0) [] io else first

unfoldable pub fd_read : FdTable → ℤ → ℕ → Io → Reading
unfolding edit_line read_pipe read_disk
fd_read fdt fd count io = elim (lookup_fd fdt fd) [
  | none ↦ read minus_one [] io
  | some n ↦
      let f = fdt n in
      let o = io.files f in
      elim o.type [
        | console ↦ edit_line (sub32 count 1) io.uart_in [] [] io
        | pipe_end ↦ if o.pipe == 0 then read minus_one [] io else read_pipe o.pipe count io
        | file ↦ read_disk f count io
        | none_type ↦ read minus_one [] io
      ]
]

pub data Writing : Type 0 where
  wrote : ℤ → Io → Writing
  yields_to_write : (p count : ℕ) → List ℕ → Io → Writing

-- The characters that a write to the console sends: a line feed goes with a carriage return.
unfoldable pub cooked : List ℕ → List ℕ
cooked [] = []
cooked (c ∷ s) = if c == b'\n' then b'\r' ∷ c ∷ cooked s else c ∷ cooked s

-- The loops of a write to the pipe at `p`, with `src` still to be written of `count` bytes, up to the
-- `sched_yield` at a full pipe.
unfoldable pub write_pipe : ℕ → ℕ → List ℕ → Io → Writing
write_pipe p count src io =
    let (rest, q) = fill src (io.pipes p) in
    let io' = set_pipe p q io in
    elim rest [
      | [] ↦ wrote (int_of_reg count) io'
      | c ∷ left ↦
          if q.read_open then yields_to_write p count (c ∷ left) io' else wrote minus_one io'
    ]

unfoldable pub fd_write : FdTable → ℤ → List ℕ → Io → Writing
unfolding cooked write_pipe
fd_write fdt fd src io = elim (lookup_fd fdt fd) [
  | none ↦ wrote minus_one io
  | some n ↦
      let o = io.files (fdt n) in
      elim o.type [
        | console ↦
            wrote (int_of_reg (length src)) (record io { uart_out = io.uart_out ++ cooked src })
        | pipe_end ↦
            if (o.pipe == 0) || not (io.pipes o.pipe).read_open
            then wrote minus_one io
            else write_pipe o.pipe (length src) src io
        | file ↦ wrote minus_one io
        | none_type ↦ wrote minus_one io
      ]
]
