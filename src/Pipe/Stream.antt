-- ===== src/Pipe/Stream.antt =====
-- A writer and a reader on one pipe, in any interleaving of their loops' runs. Between two runs of
-- a loop the task may give up the processor, so that another task's loop runs next.
use mathlib.Core.List.{append_assoc}
use archarch.Base.{
  ℕ, ◌-◌, ◌≡◌, refl, sym, ap, ◌∙◌, arith, Bool, false, List, ◌++◌, take, drop, take-append-drop,
}
use archarch.Pipe.{Pipe, pipe_buf_size, drain, fill}
use archarch.Pipe.Queue.{IsValid, contents, drain_lem, fill_lem}

-- The pipe, the bytes that the write loops have put into it and those that the read loops have
-- taken out, since it was empty.
pub record Stream : Type 0 where
  pub pipe : Pipe
  pub sent : List ℕ
  pub received : List ℕ

pub data Step : Stream → Stream → Type 0 where
  write :
      (s : Stream) (src : List ℕ)
      → Step s (record s {
        pipe = (fill src s.pipe).1;
        sent = s.sent ++ take (pipe_buf_size - s.pipe.count) src;
      })
  read :
      (s : Stream) (n : ℕ)
      → Step s (record s { pipe = (drain n s.pipe).1; received = s.received ++ (drain n s.pipe).0 })
  close_read : (s : Stream) → Step s (record s { pipe = record (s.pipe) { read_open = false } })
  close_write : (s : Stream) → Step s (record s { pipe = record (s.pipe) { write_open = false } })

pub data Reach (s : Stream) : Stream → Type 0 where
  here : Reach s s
  next : {t u : Stream} → Reach s t → Step t u → Reach s u

-- What went in is what came out, followed by what the pipe holds.
pub record InOrder (s : Stream) : Type 0 where
  pub valid : IsValid s.pipe
  pub order : s.sent ≡ s.received ++ contents s.pipe

-- The bytes do not depend on whether the ends are open.
contents_ends :
    (p : Pipe) (r w : Bool) → contents (record p { read_open = r; write_open = w }) ≡ contents p
unfolding contents
contents_ends p r w = refl

Step-InOrder : {s t : Stream} → Step s t → InOrder s → InOrder t
Step-InOrder (write s src) i = record {
  valid = (fill_lem src s.pipe i.valid).2;
  order =
      ap (λ l. l ++ take (pipe_buf_size - s.pipe.count) src) i.order
      ∙ append_assoc s.received (contents s.pipe) _
      ∙ ap (λ l. s.received ++ l) (sym ((fill_lem src s.pipe i.valid).0));
}
Step-InOrder (read s n) i =
    let (out, left, w, _, _) = drain_lem n s.pipe i.valid in
    record {
      valid = w;
      order =
          i.order
          ∙ ap (λ l. s.received ++ l) (sym (take-append-drop n (contents s.pipe)))
          ∙ (rw (out, left)
              (sym
                (append_assoc s.received (take n (contents s.pipe)) (drop n (contents s.pipe)))));
    }
Step-InOrder (close_read s) i = record {
  valid = omega (arith, i.valid);
  order = i.order ∙ ap (λ l. s.received ++ l) (sym (contents_ends s.pipe false s.pipe.write_open));
}
Step-InOrder (close_write s) i = record {
  valid = omega (arith, i.valid);
  order = i.order ∙ ap (λ l. s.received ++ l) (sym (contents_ends s.pipe s.pipe.read_open false));
}

-- From a pipe that is in order: however the runs of the write loop and of the read loop follow one another, and whenever the
-- ends are closed, the bytes that came out are the first of those that went in, in the same order,
-- and the pipe holds the others. No byte is lost, doubled or reordered.
pub Reach-InOrder : {s t : Stream} → Reach s t → InOrder s → InOrder t
Reach-InOrder here i = i
Reach-InOrder (next r st) i = Step-InOrder st (Reach-InOrder r i)
