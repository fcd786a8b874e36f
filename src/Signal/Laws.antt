-- ===== src/Signal/Laws.antt =====
-- Which signal is delivered, and that SIGKILL ends the task.
use native.Mathlib.Decide.{ℕ_discrete}
use archarch.Base.{
  ℕ, zero, suc, ◌+◌, ◌≤◌, ◌<◌, ◌≡◌, ◌≢◌, refl, ◌∙◌, arith, Bool, true, false, ltb, leb, ◌||◌, upd,
  ◌⊎◌, inl, inr, Option, none, some, Bool-cases, ℤ, pos, negsuc, minus_one,
}
use archarch.Task.{Task, Kernel, Image, finished, is_unused, is_finished, is_blocked}
use archarch.Sched.{sched_exit}
use archarch.Sched.Valid.{IsValid, state_of}
use archarch.Sched.Exit.{Exited, sched_exit-Exited}
use archarch.Memory.{Memory}
use archarch.Signal.Send.{signal_send, sched_get_task, post}
use archarch.Signal.Deliver.{
  Regs, switched, lowest_from, lowest_pending, clear_pending, killed, act, signal_deliver,
  signal_set_handler,
}

-- What the search over the mask finds.
abbrev pub Lowest : (ℕ → Bool) → ℕ → ℕ → Option ℕ → Type 0
Lowest pending first last none = (j : ℕ) → first ≤ j → j < last → pending j ≡ false
Lowest pending first last (some sig) =
    (first ≤ sig)
    × (sig < last)
    × (pending sig ≡ true)
    × ((j : ℕ) → first ≤ j → j < sig → pending j ≡ false)

Lowest-step :
    (pending : ℕ → Bool) (i last : ℕ) (r : Option ℕ)
    → pending i ≡ false
    → Lowest pending (i + 1) last r
    → Lowest pending i last r
Lowest-step pending i last none e s =
    λ j h h'. elim (ℕ_discrete j i) [ yes same ↦ rw same e | no other ↦ s j (omega arith) h' ]
Lowest-step pending i last (some sig) e (above, below, found, before) = (
  omega arith,
  below,
  found,
  λ j h h'. elim (ℕ_discrete j i) [ yes same ↦ rw same e | no other ↦ before j (omega arith) h' ],
)

lowest_from-Lowest :
    (n i last : ℕ) (pending : ℕ → Bool)
    → i + n ≡ last
    → Lowest pending i last (lowest_from n i pending)
unfolding lowest_from
lowest_from-Lowest zero i last pending e = λ j h h'. absurd (omega arith)
lowest_from-Lowest (suc n) i last pending e = elim (Bool-cases (pending i)) [
  | inl found ↦
      rw (found, lowest_from) (omega arith, omega arith, found, λ j h h'. absurd (omega arith))
  | inr other ↦
      rw (other, lowest_from)
        (Lowest-step pending i last _ other
          (lowest_from-Lowest n (i + 1) last pending (omega arith)))
]

-- The signal that `signal_deliver` acts on is the lowest of 1 to 31 whose bit is set, and it finds
-- none just when no such bit is set.
pub lowest_pending-Lowest : (pending : ℕ → Bool) → Lowest pending 1 32 (lowest_pending pending)
unfolding lowest_pending
lowest_pending-Lowest pending = lowest_from-Lowest 31 1 32 pending (omega arith)

-- SIGKILL keeps the action that the task has for it, whatever number and handler the call is given.
pub signal_set_handler-kill :
    (sig : ℤ) (handler j : ℕ) (k : Kernel)
    → ((signal_set_handler sig handler k).1.tasks j).sig.handlers 9 ≡ (k.tasks j).sig.handlers 9
unfolding signal_set_handler sched_get_task
signal_set_handler-kill (negsuc s) handler j k = refl
signal_set_handler-kill (pos s) handler j k = ground arith

module _ (image : Image) (regs : Regs) (m : Memory) (k : Kernel) where
  signal_deliver-kill :
      k.current_task < k.num_tasks
      → (k.tasks k.current_task).is_user ≡ true
      → lowest_pending ((k.tasks k.current_task).sig.pending) ≡ some 9
      → signal_deliver image regs m k
        ≡ killed image (pos 1) regs m (clear_pending k.current_task 9 k)
  unfolding signal_deliver act sched_get_task
  signal_deliver-kill inside user lowest = ground (arith, lowest, user)

  clear_pending-IsValid : IsValid k → IsValid (clear_pending k.current_task 9 k)
  unfolding clear_pending
  clear_pending-IsValid v = record {
    inside = v.inside;
    bounded = v.bounded;
    current_runs = ground (arith, v.current_runs);
    one_runs = λ j h other. ground (arith, v.one_runs j h other);
    idle_lives = ground (arith, v.idle_lives);
  }

  -- SIGKILL cannot be caught: when it is the lowest signal pending for a user task, the task is
  -- finished and another one runs, whatever handler it has set.
  pub signal_deliver_kills :
      IsValid k
      → k.current_task ≢ 0
      → (k.tasks k.current_task).is_user ≡ true
      → lowest_pending ((k.tasks k.current_task).sig.pending) ≡ some 9
      → (k' : Kernel) × (signal_deliver image regs m k ≡ switched k')
        × (state_of k' k.current_task ≡ finished)
        × (k'.current_task ≢ k.current_task)
        × IsValid k'
  unfolding killed clear_pending
  signal_deliver_kills v busy user lowest =
      let k1 = clear_pending k.current_task 9 k in
      let ends : Exited image k1 (sched_exit image k1) =
        sched_exit-Exited image k1 (clear_pending-IsValid v) busy in
      (
        sched_exit image k1,
        signal_deliver-kill v.inside user lowest ∙ ground (arith, ends.moved),
        ends.ended,
        ends.moved,
        ends.valid,
      )

post_pending : (s : ℕ) (t : Task) → (post s t).sig.pending ≡ upd t.sig.pending s true
unfolding post
post_pending s t = ground arith

post_state : (s : ℕ) (t : Task) → is_blocked ((post s t).state) ≡ false
unfolding post
post_state s t = ground arith

-- A signal from 1 to 31 to a task that was created and has not finished is pending for it, with its
-- other signals as they were, and the task does not wait any more; every other call returns -1 and
-- changes nothing.
pub signal_send_lem :
    (tid sig : ℤ) (k : Kernel)
    → ((i s : ℕ) × (tid ≡ pos i)
        × (sig ≡ pos s)
        × (i < k.num_tasks)
        × (1 ≤ s)
        × (s < 32)
        × (let k' = (signal_send tid sig k).1 in
            ((signal_send tid sig k).0 ≡ pos 0)
            × ((k'.tasks i).sig.pending ≡ upd ((k.tasks i).sig.pending) s true)
            × (is_blocked (state_of k' i) ≡ false)
            × ((j : ℕ) → j ≢ i → k'.tasks j ≡ k.tasks j)))
      ⊎ (signal_send tid sig k ≡ (minus_one, k))
unfolding signal_send sched_get_task
signal_send_lem tid (negsuc s) k = inr refl
signal_send_lem (negsuc i) (pos s) k = inr refl
signal_send_lem (pos i) (pos s) k = elim (Bool-cases (leb k.num_tasks i)) [
  | inl out ↦ inr (ground arith)
  | inr inside ↦ elim (Bool-cases (refused i s)) [
    | inl fails ↦ inr (ground arith)
    | inr goes ↦ inl (
      i,
      s,
      refl,
      refl,
      ground arith,
      ground arith,
      ground arith,
      (
        ground arith,
        ground (arith, post_pending s (k.tasks i)),
        ground (arith, post_state s (k.tasks i)),
        λ j other. ground arith,
      ),
    )
  ]
]
  where
    refused : ℕ → ℕ → Bool
    refused i s = ltb s 1 || leb 32 s || is_unused (state_of k i) || is_finished (state_of k i)
