-- ===== src/Signal/Tests.antt =====
-- Runs of signal.c, and the theorems on signals at a concrete task.
use archarch.Base.{ℕ, ◌≡◌, ◌≢◌, refl, arith, true, some, upd, pos, minus_one, if◌then◌else◌, ◌==◌}
use archarch.Sched.Sample.{image, zeroed, task, io}
use archarch.Task.{Task, Kernel, unused, ready, running, blocked, finished}
use archarch.Sched.Valid.{IsValid, state_of}
use archarch.Memory.{Memory}
use archarch.Signal.Deliver.{
  Regs, delivered, switched, lowest_pending, lowest_from, clear_pending, signal_deliver,
  signal_return, enter_handler, push_frame, frame_address,
}
use archarch.Signal.Frames.{Words}
use archarch.Signal.Handlers.{
  Handled, OneTaken, signal_deliver-eq, signal_deliver-Handled, signal_return-signal_deliver,
}
use archarch.Signal.Laws.{signal_deliver_kills}

-- SIGUSR1 (10) and SIGTERM (15) are pending for it, and it has a handler for SIGUSR1.
abbrev user_task : Task
user_task = record (task running minus_one (pos 2)) {
  sig = record {
    handlers = λ s. if s == 10 then 0x400100 else 0;
    pending = λ s. if s == 10 then true else s == 15;
  };
}

-- The idle task is ready, task 1 runs, its parent 2 waits for it, and 3 is ready.
abbrev table : ℕ → Task
table i =
    if i == 0
    then task ready minus_one minus_one
    else if i == 1
    then user_task
    else if i == 2
    then task blocked (pos 1) minus_one
    else if i == 3
    then task ready minus_one minus_one
    else task unused minus_one minus_one

abbrev busy : Kernel
busy = record {
  tasks = table;
  current_task = 1;
  num_tasks = 4;
  start_info = λ i. (0, 0);
  io = io;
  cpu = zeroed;
  ttbr0_el1 = 0x7000;
}

busy-IsValid : IsValid busy
busy-IsValid = record {
  inside = omega arith;
  bounded = omega arith;
  current_runs = refl;
  one_runs = λ j h other. ground arith;
  idle_lives = refl;
}

abbrev regs : Regs
regs i = if i == 31 then 0x7fff10 else i

abbrev mem : Memory
mem a = 0

lowest_is_ten : lowest_pending (user_task.sig.pending) ≡ some 10
unfolding lowest_pending lowest_from
lowest_is_ten = refl

signal_deliver-Handled_example :
    (regs' : Regs) × (m' : Memory) × (k' : Kernel) × (signal_deliver image regs mem busy
      ≡ delivered (pos 1) regs' m' k')
    × Handled 10 0x400100 regs mem regs' m'
    × OneTaken 10 busy k'
signal_deliver-Handled_example =
    signal_deliver-Handled image 10 regs mem busy (omega arith) refl lowest_is_ten (omega arith)
      (omega arith) (omega arith) (omega arith) (omega arith)

words : Words regs
words i h = ground arith

signal_return-signal_deliver_example :
    signal_return
      (push_frame (frame_address 0x7fff10) 10 regs mem)
      (enter_handler (frame_address 0x7fff10) 10 0x400100 regs)
      30
    ≡ 30
signal_return-signal_deliver_example =
    signal_return-signal_deliver image 10 regs mem busy
      (enter_handler (frame_address 0x7fff10) 10 0x400100 regs)
      (push_frame (frame_address 0x7fff10) 10 regs mem) (clear_pending 1 10 busy)
      (push_frame (frame_address 0x7fff10) 10 regs mem)
      (enter_handler (frame_address 0x7fff10) 10 0x400100 regs) 30 (omega arith) refl lowest_is_ten
      (omega arith) (omega arith) (omega arith) words
      (signal_deliver-eq image 10 regs mem busy (omega arith) refl lowest_is_ten (omega arith)
        (omega arith) (omega arith))
      (λ b low high. refl) refl (omega arith)

-- The same task with SIGKILL pending in front of the others, and a handler that was put in for it.
abbrev doomed : Kernel
doomed = record busy {
  tasks = upd table 1 (record user_task {
    sig = record { handlers = λ s. 0x400100; pending = λ s. if s == 9 then true else s == 15 };
  });
}

doomed-IsValid : IsValid doomed
doomed-IsValid = record {
  inside = omega arith;
  bounded = omega arith;
  current_runs = refl;
  one_runs = λ j h other. ground arith;
  idle_lives = refl;
}

lowest_is_kill : lowest_pending ((doomed.tasks 1).sig.pending) ≡ some 9
unfolding lowest_pending lowest_from
lowest_is_kill = refl

signal_deliver_kills_example :
    (k' : Kernel) × (signal_deliver image regs mem doomed ≡ switched k')
    × (state_of k' 1 ≡ finished)
    × (k'.current_task ≢ 1)
    × IsValid k'
signal_deliver_kills_example =
    signal_deliver_kills image regs mem doomed doomed-IsValid (omega arith) refl lowest_is_kill
