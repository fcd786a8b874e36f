-- ===== src/Pipe/Tests.antt =====
-- Runs of the pipe's loops, and the pipe's theorems at concrete pipes.
use archarch.Base.{◌%◌, ◌≡◌, refl, arith, [], ◌∷◌}
use archarch.Pipe.{Pipe, new_pipe, drain, pop_byte, fill, push_byte}
use archarch.Pipe.Queue.{contents, window}
use archarch.Pipe.Stream.{Stream, here, next, write, read, InOrder, Reach-InOrder}

-- Three bytes, of which two stand at the end of the buffer and one at its beginning.
abbrev wrapped : Pipe
wrapped = record new_pipe { buf = λ i. i % 256; read_pos = 4094; write_pos = 1; count = 3 }

loops_run :
    ((drain 2 wrapped).0 ≡ 254 ∷ 255 ∷ [])
    × (contents (drain 2 wrapped).1 ≡ 0 ∷ [])
    × (contents (fill (7 ∷ 8 ∷ []) wrapped).1 ≡ 254 ∷ 255 ∷ 0 ∷ 7 ∷ 8 ∷ [])
unfolding drain pop_byte fill push_byte contents window
loops_run = (refl, refl, refl)

abbrev start : Stream
start = record { pipe = new_pipe; sent = []; received = [] }

abbrev after_write : Stream
after_write = record start { pipe = (fill (1 ∷ 2 ∷ 3 ∷ []) new_pipe).1; sent = 1 ∷ 2 ∷ 3 ∷ [] }

start-InOrder : InOrder start
unfolding contents window
start-InOrder = record { valid = omega arith; order = refl }

Reach-InOrder_example : InOrder (record after_write {
  pipe = (drain 2 after_write.pipe).1;
  received = (drain 2 after_write.pipe).0;
})
Reach-InOrder_example =
    Reach-InOrder (next (next here (write start (1 ∷ 2 ∷ 3 ∷ []))) (read after_write 2))
      start-InOrder
