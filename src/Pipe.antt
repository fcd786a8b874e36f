-- ===== src/Pipe.antt =====
-- The pipe buffer of fd.h, and the two loops of fd.c that move bytes through it.
pub mod Queue
pub mod Stream
mod Tests
use archarch.Base.{
  ℕ, zero, suc, ◌+◌, ◌-◌, ◌%◌, Bool, true, false, ◌==◌, ltb, if◌then◌else◌, List, [], ◌∷◌, upd,
}

abbrev pub pipe_buf_size : ℕ
pipe_buf_size = 4096

pub record Pipe : Type 0 where
  pub buf : ℕ → ℕ
  pub read_pos : ℕ
  pub write_pos : ℕ
  pub count : ℕ
  pub read_open : Bool
  pub write_open : Bool

-- What `kzalloc` leaves, with both ends opened by `fd_pipe`.
abbrev pub new_pipe : Pipe
new_pipe = record {
  buf = λ i. 0;
  read_pos = 0;
  write_pos = 0;
  count = 0;
  read_open = true;
  write_open = true;
}

-- The body of the read loop: one byte goes out.
unfoldable pub pop_byte : Pipe → ℕ × Pipe
pop_byte p = (
  p.buf p.read_pos,
  record p { read_pos = (p.read_pos + 1) % pipe_buf_size; count = p.count - 1 },
)

-- `while (total < count && p->count > 0)`, with `n` bytes still wanted.
unfoldable pub drain : ℕ → Pipe → List ℕ × Pipe
drain zero p = ([], p)
drain (suc n) p =
    let (byte, p') = pop_byte p in
    let (rest, q) = drain n p' in if p.count == 0 then ([], p) else (byte ∷ rest, q)

-- The body of the write loop: one byte goes in.
unfoldable pub push_byte : ℕ → Pipe → Pipe
push_byte byte p = record p {
  buf = upd p.buf p.write_pos byte;
  write_pos = (p.write_pos + 1) % pipe_buf_size;
  count = p.count + 1;
}

-- `while (total < count && p->count < PIPE_BUF_SIZE)`: the bytes that did not fit are left.
unfoldable pub fill : List ℕ → Pipe → List ℕ × Pipe
fill [] p = ([], p)
fill (byte ∷ src) p =
    let done = fill src (push_byte byte p) in
    if ltb p.count pipe_buf_size then done else (byte ∷ src, p)
