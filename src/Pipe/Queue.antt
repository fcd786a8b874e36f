-- ===== src/Pipe/Queue.antt =====
-- A pipe is a queue of at most 4096 bytes.
use native.Mathlib.Decide.{dec_lt, ℕ_discrete}
use mathlib.Core.List.{append-nil, append_assoc}
use archarch.Base.{
  ℕ, zero, suc, ◌+◌, ◌-◌, ◌%◌, ◌≤◌, ◌<◌, ◌≡◌, ◌≢◌, refl, sym, ap, ◌∙◌, arith, ==_ne, ==_iff,
  drop-nil, lt→ltb, le→ltb, List, [], ◌∷◌, ◌++◌, upd, length, take, drop, take-nil,
}
use archarch.Pipe.{Pipe, pipe_buf_size, pop_byte, drain, push_byte, fill}

pub record IsValid (p : Pipe) : Type 0 where
  pub read_in : p.read_pos < pipe_buf_size
  pub count_in : p.count ≤ pipe_buf_size
  pub write_at : p.write_pos ≡ (p.read_pos + p.count) % pipe_buf_size

-- The `n` bytes from position `h` on, going round at the end of the buffer.
unfoldable pub window : (ℕ → ℕ) → ℕ → ℕ → List ℕ
window buf h zero = []
window buf h (suc n) = buf h ∷ window buf ((h + 1) % pipe_buf_size) n

-- What the pipe holds, the oldest byte first.
unfoldable pub contents : Pipe → List ℕ
contents p = window p.buf p.read_pos p.count

length-window : (buf : ℕ → ℕ) (h n : ℕ) → length (window buf h n) ≡ n
unfolding window
length-window buf h zero = refl
length-window buf h (suc n) = ap suc (length-window buf ((h + 1) % pipe_buf_size) n)

pub length-contents : (p : Pipe) → length (contents p) ≡ p.count
unfolding contents
length-contents p = length-window p.buf p.read_pos p.count

window_split :
    (buf : ℕ → ℕ) (h n : ℕ)
    → n ≢ 0
    → window buf h n ≡ buf h ∷ window buf ((h + 1) % pipe_buf_size) (n - 1)
unfolding window
window_split buf h zero ne = absurd (ne refl)
window_split buf h (suc n) ne = let e : suc n - 1 ≡ n = omega arith in rw e

-- A byte that is written outside a window does not show in it.
window-upd :
    (buf : ℕ → ℕ) (h n i byte : ℕ)
    → h < pipe_buf_size
    → i < pipe_buf_size
    → ((k : ℕ) → k < n → (h + k) % pipe_buf_size ≢ i)
    → window (upd buf i byte) h n ≡ window buf h n
unfolding window
window-upd buf h zero i byte hh hi away = refl
window-upd buf h (suc n) i byte hh hi away =
    rw (==_ne i h (λ e. away 0 (omega arith) (omega arith))) (
      ap (λ r. buf h ∷ r)
        (window-upd buf ((h + 1) % pipe_buf_size) n i byte (omega arith) hi
          (λ k lt e. away (k + 1) (omega arith) (omega arith))))

-- A byte that is written behind a window extends it.
window-push :
    (buf : ℕ → ℕ) (h n i byte : ℕ)
    → h < pipe_buf_size
    → n < pipe_buf_size
    → i ≡ (h + n) % pipe_buf_size
    → window (upd buf i byte) h (suc n) ≡ window buf h n ++ (byte ∷ [])
unfolding window
window-push buf h zero i byte hh hn e = let same : i ≡ h = omega arith in rw same (ground arith)
window-push buf h (suc n) i byte hh hn e = rw (==_ne i h (omega arith)) (
    ap (λ r. buf h ∷ r)
      (window-push buf ((h + 1) % pipe_buf_size) n i byte (omega arith) (omega arith)
        (omega arith)))

-- Reading one byte takes the first one off.
pub pop_byte_lem :
    (p : Pipe)
    → IsValid p
    → p.count ≢ 0
    → let (byte, q) = pop_byte p in (contents p ≡ byte ∷ contents q) × IsValid q
unfolding pop_byte contents
pop_byte_lem p v ne = (window_split p.buf p.read_pos p.count ne, omega (arith, v))

-- Writing one byte puts it behind the others.
pub push_byte_lem :
    (byte : ℕ) (p : Pipe)
    → IsValid p
    → p.count < pipe_buf_size
    → (contents (push_byte byte p) ≡ contents p ++ (byte ∷ [])) × IsValid (push_byte byte p)
unfolding push_byte contents
push_byte_lem byte p v room = (
  (let e : p.count + 1 ≡ suc p.count = omega arith in
      rw e (window-push p.buf p.read_pos p.count p.write_pos byte v.read_in room v.write_at)),
  omega (arith, v),
)

abbrev pub Drained : ℕ → Pipe → List ℕ × Pipe → Type 0
Drained n p (out, q) =
    (out ≡ take n (contents p))
    × (contents q ≡ drop n (contents p))
    × IsValid q
    × (q.read_open ≡ p.read_open)
    × (q.write_open ≡ p.write_open)

abbrev pub Filled : List ℕ → Pipe → List ℕ × Pipe → Type 0
Filled src p (rest, q) =
    (contents q ≡ contents p ++ take (pipe_buf_size - p.count) src)
    × (rest ≡ drop (pipe_buf_size - p.count) src)
    × IsValid q
    × (q.read_open ≡ p.read_open)
    × (q.write_open ≡ p.write_open)

contents_of_empty : (p : Pipe) → p.count ≡ 0 → contents p ≡ []
unfolding contents window
contents_of_empty p e = rw e

ends_pop_byte :
    (p : Pipe)
    → ((pop_byte p).1.read_open ≡ p.read_open) × ((pop_byte p).1.write_open ≡ p.write_open)
unfolding pop_byte
ends_pop_byte p = (refl, refl)

push_byte-count : (byte : ℕ) (p : Pipe) → (push_byte byte p).count ≡ p.count + 1
unfolding push_byte
push_byte-count byte p = refl

ends_push_byte :
    (byte : ℕ) (p : Pipe)
    → ((push_byte byte p).read_open ≡ p.read_open) × ((push_byte byte p).write_open ≡ p.write_open)
unfolding push_byte
ends_push_byte byte p = (refl, refl)

-- In a valid pipe the read loop of `fd_read` takes the oldest bytes, as many as are wanted and there, in order,
-- and leaves the others; the buffer's indices stay in range.
pub drain_lem : (n : ℕ) (p : Pipe) → IsValid p → Drained n p (drain n p)
unfolding drain
drain_lem zero p v = (refl, refl, v, refl, refl)
drain_lem (suc n) p v = elim (ℕ_discrete p.count 0) [
  | yes e ↦ rw ((==_iff p.count 0).1 e, contents_of_empty p e) (refl, refl, v, refl, refl)
  | no ne ↦
      let (first, v') = pop_byte_lem p v ne in
      let (out, left, w, r, o) = drain_lem n (pop_byte p).1 v' in
      rw (==_ne p.count 0 ne, first)
        (ap (λ l. (pop_byte p).0 ∷ l) out, left, w, r ∙ ends_pop.0, o ∙ ends_pop.1)
]
  where
    ends_pop : ((pop_byte p).1.read_open ≡ p.read_open) × ((pop_byte p).1.write_open ≡ p.write_open)
    ends_pop = ends_pop_byte p

-- In a valid pipe the write loop of `fd_write` puts bytes behind those that are there, in order, until it has no
-- more of them or the buffer is full; what is left is the rest of its bytes.
pub fill_lem : (src : List ℕ) (p : Pipe) → IsValid p → Filled src p (fill src p)
unfolding fill
fill_lem [] p v = (
  rw take-nil (sym (append-nil (contents p))),
  sym (drop-nil (pipe_buf_size - p.count)),
  v,
  refl,
  refl,
)
fill_lem (byte ∷ src) p v = elim (dec_lt p.count pipe_buf_size) [
  | no full ↦
      let room : pipe_buf_size - p.count ≡ 0 = omega arith in
      rw (le→ltb p.count pipe_buf_size (omega arith), room)
        (sym (append-nil (contents p)), refl, v, refl, refl)
  | yes less ↦
      let (held, v') = push_byte_lem byte p v less in
      let (moved, left, w, r, o) = fill_lem src (push_byte byte p) v' in
      let room : pipe_buf_size - p.count ≡ suc (pipe_buf_size - (push_byte byte p).count) =
        omega (arith, counted) in
      rw (lt→ltb p.count pipe_buf_size less, room)
        (
          moved ∙ (rw held (append_assoc (contents p) (byte ∷ []) _)),
          left,
          w,
          r ∙ ends.0,
          o ∙ ends.1,
        )
]
  where
    counted : (push_byte byte p).count ≡ p.count + 1
    counted = push_byte-count byte p

    ends :
        ((push_byte byte p).read_open ≡ p.read_open)
        × ((push_byte byte p).write_open ≡ p.write_open)
    ends = ends_push_byte byte p
