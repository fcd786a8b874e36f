-- ===== src/Signal/Handlers.antt =====
-- What a handler of a signal finds, and that `signal_return` restores the registers.
use archarch.Base.{
  ℕ, ◌+◌, ◌%◌, ◌^◌, ◌≤◌, ◌<◌, ◌≡◌, ◌≢◌, refl, sym, ap, ◌∙◌, arith, true, false, some, pos,
}
use archarch.Task.{Kernel, Image}
use archarch.Memory.{Memory, load_bytes}
use archarch.Signal.Send.{sched_get_task}
use archarch.Signal.Deliver.{
  Regs, delivered, frame_address, push_frame, enter_handler, clear_pending, lowest_pending, act,
  signal_deliver, signal_return,
}
use archarch.Signal.Frames.{Words, push_frame_elsewhere, trampoline, signal_return-push_frame}

-- What a handler finds: its registers, the two instructions that it returns to, which make the
-- call of `signal_return`, and its stack, of which nothing in use has changed.
pub record Handled (sig handler : ℕ) (regs : Regs) (m : Memory) (regs' : Regs) (m' : Memory)
    : Type 0 where
  pub starts : regs' 32 ≡ handler
  pub argument : regs' 0 ≡ sig
  pub aligned : regs' 31 % 16 ≡ 0
  pub below_stack : regs' 31 + 288 ≤ regs 31
  pub move : load_bytes 4 (regs' 30) m' ≡ 0xd2800208
  pub svc : load_bytes 4 (regs' 30 + 4) m' ≡ 0xd4000001
  pub stack_kept : (b : ℕ) → regs 31 ≤ b → m' b ≡ m b

-- The current task's signal `sig` is no longer pending; all else is as it was.
pub record OneTaken (sig : ℕ) (k k' : Kernel) : Type 0 where
  pub taken : (k'.tasks k.current_task).sig.pending sig ≡ false
  pub others :
      (j : ℕ)
      → j ≢ sig
      → (k'.tasks k.current_task).sig.pending j ≡ (k.tasks k.current_task).sig.pending j
  pub handlers :
      (j : ℕ) → (k'.tasks k.current_task).sig.handlers j ≡ (k.tasks k.current_task).sig.handlers j
  pub state : (k'.tasks k.current_task).state ≡ (k.tasks k.current_task).state
  pub rest : (i : ℕ) → i ≢ k.current_task → k'.tasks i ≡ k.tasks i
  pub current : k'.current_task ≡ k.current_task
  pub count : k'.num_tasks ≡ k.num_tasks

clear_pending-OneTaken :
    (sig : ℕ) (k : Kernel) → OneTaken sig k (clear_pending k.current_task sig k)
unfolding clear_pending
clear_pending-OneTaken sig k = record {
  taken = ground arith;
  others = λ j h. ground arith;
  handlers = λ j. ground arith;
  state = ground arith;
  rest = λ i h. ground arith;
  current = refl;
  count = refl;
}

enter_handler-stack :
    (frame sig handler : ℕ) (regs : Regs) → enter_handler frame sig handler regs 31 ≡ frame
unfolding enter_handler
enter_handler-stack frame sig handler regs = refl

frame_address_lem :
    (sp : ℕ) → 288 ≤ sp → sp < 2 ^ 64 → (frame_address sp % 16 ≡ 0) × (frame_address sp + 288 ≤ sp)
unfolding frame_address
frame_address_lem sp room word = (omega arith, omega arith)

push_frame-Handled :
    (sig handler : ℕ) (regs : Regs) (m : Memory)
    → 288 ≤ regs 31
    → regs 31 < 2 ^ 64
    → Handled sig handler regs m
        (enter_handler (frame_address (regs 31)) sig handler regs)
        (push_frame (frame_address (regs 31)) sig regs m)
unfolding enter_handler
push_frame-Handled sig handler regs m room word =
    let (even, below) = frame_address_lem (regs 31) room word in
    let (first, second) = trampoline (frame_address (regs 31)) sig regs m in
    record {
      starts = refl;
      argument = refl;
      aligned = even;
      below_stack = below;
      move = first;
      svc = second;
      stack_kept = λ b above.
          push_frame_elsewhere (frame_address (regs 31)) sig b regs m (omega (arith, below));
    }

module _ (image : Image) (sig : ℕ) (regs : Regs) (m : Memory) (k : Kernel) where
  abbrev current_handler : ℕ
  current_handler = (k.tasks k.current_task).sig.handlers sig

  pub signal_deliver-eq :
      k.current_task < k.num_tasks
      → (k.tasks k.current_task).is_user ≡ true
      → lowest_pending ((k.tasks k.current_task).sig.pending) ≡ some sig
      → sig ≢ 9
      → current_handler ≢ 0
      → current_handler ≢ 1
      → signal_deliver image regs m k
        ≡ delivered
            (pos 1)
            (enter_handler (frame_address (regs 31)) sig current_handler regs)
            (push_frame (frame_address (regs 31)) sig regs m)
            (clear_pending k.current_task sig k)
  unfolding signal_deliver act sched_get_task
  signal_deliver-eq inside user lowest not_kill handles not_ignored = ground (arith, lowest, user)

  -- A user task whose lowest pending signal is not SIGKILL and has a handler, and whose stack pointer
  -- SP_EL0 is a 64-bit value of at least 288: it goes on in the handler, with the signal's number,
  -- below its stack. Of its signals that one alone is no longer pending; its handlers and its
  -- state, the other tasks and the current task stay as they are.
  pub signal_deliver-Handled :
      k.current_task < k.num_tasks
      → (k.tasks k.current_task).is_user ≡ true
      → lowest_pending ((k.tasks k.current_task).sig.pending) ≡ some sig
      → sig ≢ 9
      → current_handler ≢ 0
      → current_handler ≢ 1
      → 288 ≤ regs 31
      → regs 31 < 2 ^ 64
      → (regs' : Regs) × (m' : Memory) × (k' : Kernel) × (signal_deliver image regs m k
          ≡ delivered (pos 1) regs' m' k')
        × Handled sig current_handler regs m regs' m'
        × OneTaken sig k k'
  signal_deliver-Handled inside user lowest not_kill handles not_ignored room word = (
    enter_handler (frame_address (regs 31)) sig current_handler regs,
    push_frame (frame_address (regs 31)) sig regs m,
    clear_pending k.current_task sig k,
    signal_deliver-eq inside user lowest not_kill handles not_ignored,
    push_frame-Handled sig current_handler regs m room word,
    clear_pending-OneTaken sig k,
  )

  -- When a handler that `signal_deliver` started returns, with its stack pointer and the saved
  -- registers as they were, `signal_return` gives the task all of its registers back.
  pub signal_return-signal_deliver :
      (regs' : Regs) (m' : Memory) (k' : Kernel) (m2 : Memory) (regs2 : Regs) (j : ℕ)
      → k.current_task < k.num_tasks
      → (k.tasks k.current_task).is_user ≡ true
      → lowest_pending ((k.tasks k.current_task).sig.pending) ≡ some sig
      → sig ≢ 9
      → current_handler ≢ 0
      → current_handler ≢ 1
      → Words regs
      → signal_deliver image regs m k ≡ delivered (pos 1) regs' m' k'
      → ((b : ℕ) → regs' 31 ≤ b → b < regs' 31 + 272 → m2 b ≡ m' b)
      → regs2 31 ≡ regs' 31
      → j < 34
      → signal_return m2 regs2 j ≡ regs j
  signal_return-signal_deliver regs' m' k' m2 regs2 j inside user lowest not_kill handles
        not_ignored words runs keeps at h =
      let e = sym (signal_deliver-eq inside user lowest not_kill handles not_ignored) ∙ runs in
      let regs_are : enter_handler (frame_address (regs 31)) sig current_handler regs ≡ regs' =
        cc in
      let m_is : push_frame (frame_address (regs 31)) sig regs m ≡ m' = cc in
      let frame_is : regs' 31 ≡ frame_address (regs 31) =
        sym (ap (λ f. f 31) regs_are)
        ∙ enter_handler-stack (frame_address (regs 31)) sig current_handler regs in
      signal_return-push_frame (frame_address (regs 31)) sig regs m m2 regs2 words
        (λ b low high.
          keeps b (omega (arith, frame_is)) (omega (arith, frame_is)) ∙ sym (ap (λ n. n b) m_is))
        (at ∙ frame_is) j h
