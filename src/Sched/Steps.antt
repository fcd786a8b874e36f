-- ===== src/Sched/Steps.antt =====
-- Runs of the scheduler: every sequence of its calls, and signals, keeps its invariant.
use mathlib.Core.Path.{subst}
use archarch.Base.{
  ℕ, ◌≡◌, ◌≢◌, refl, ap, ◌∙◌, arith, leb, List, inl, inr, Bool-cases, ℤ, pos, negsuc,
}
use archarch.Task.{Kernel, Image, is_running, sched_max_tasks}
use archarch.Signal.Send.{signal_send, sched_get_task}
use archarch.Memory.{Memory}
use archarch.Signal.Deliver.{Regs}
use archarch.Sched.User.{sched_create_user, sched_fork}
use archarch.Sched.Joins.{sched_create_user-GoesOn, sched_fork-GoesOn}
use archarch.Sched.{
  returned, waits, sched_init, clear_tasks, sched_yield, sched_tick, sched_exit, sched_wait,
  sched_create, block_on,
}
use archarch.Sched.Valid.{
  IsValid, IsSettled, IsValid-IsSettled, sched_yield-IsValid, sched_tick-IsValid,
}
use archarch.Sched.Exit.{signal_send-state, signal_send_counts, sched_exit-Exited}

-- A call of the current task, or the timer's. The idle task neither ends nor waits.
pub data Step (image : Image) : Kernel → Kernel → Type 0 where
  yields : (k : Kernel) → Step image k (sched_yield image k)
  tick : (k : Kernel) → Step image k (sched_tick image k)
  exits : (k : Kernel) → k.current_task ≢ 0 → Step image k (sched_exit image k)
  blocks :
      (tid : ℤ) (k k' : Kernel)
      → k.current_task ≢ 0
      → sched_wait image tid k ≡ waits k'
      → Step image k k'
  waited :
      (tid r : ℤ) (k k' : Kernel)
      → k.current_task ≢ 0
      → sched_wait image tid k ≡ returned r k'
      → Step image k k'
  sends : (tid sig : ℤ) (k : Kernel) → Step image k (signal_send tid sig k).1
  creates :
      (name : List ℕ) (entry arg : ℕ) (k : Kernel)
      → Step image k (sched_create image name entry arg k).1
  creates_user :
      (name : List ℕ) (code size : ℕ) (m : Memory) (k : Kernel)
      → Step image k (sched_create_user image name code size k m).1
  forks : (regs : Regs) (m : Memory) (k : Kernel) → Step image k (sched_fork image regs k m).1

pub data Reach (image : Image) (k : Kernel) : Kernel → Type 0 where
  here : Reach image k k
  next : {k' k'' : Kernel} → Reach image k k' → Step image k' k'' → Reach image k k''

pub signal_send-IsValid : (tid sig : ℤ) (k : Kernel) → IsValid k → IsValid (signal_send tid sig k).1
unfolding signal_send sched_get_task
signal_send-IsValid tid (negsuc s) k v = v
signal_send-IsValid (negsuc i) (pos s) k v = v
signal_send-IsValid (pos i) (pos s) k v =
    let (count, current) = signal_send_counts (pos i) (pos s) k in
    record {
      inside = rw (count, current) v.inside;
      bounded = rw count v.bounded;
      current_runs =
          rw current (
            ap is_running (signal_send-state i s k k.current_task)
            ∙ ground (arith, v.current_runs));
      one_runs =
          rw current (λ j h other. ground (arith, signal_send-state i s k j, v.one_runs j h other));
      idle_lives = ground (arith, signal_send-state i s k 0, v.idle_lives);
    }

module _ (image : Image) where
  pub block_on-IsSettled :
      (tid : ℕ) (k : Kernel) → IsValid k → k.current_task ≢ 0 → IsSettled (block_on image tid k)
  unfolding block_on
  block_on-IsSettled tid k v busy = record {
    inside = v.inside;
    bounded = v.bounded;
    not_ready = ground arith;
    one_runs = λ j h other. ground (arith, v.one_runs j h);
    idle_lives = ground (arith, v.idle_lives);
  }

  pub sched_wait-IsValid :
      (tid : ℤ) (k k' : Kernel)
      → IsValid k
      → k.current_task ≢ 0
      → sched_wait image tid k ≡ waits k'
      → IsValid k'
  unfolding sched_wait
  sched_wait-IsValid (negsuc n) k k' v busy e = absurd cc
  sched_wait-IsValid (pos tid) k k' v busy e =
      let same : sched_yield image (block_on image tid k) ≡ k' = ground arith in
      subst IsValid same
        (sched_yield-IsValid image (block_on image tid k) (block_on-IsSettled tid k v busy))

  sched_wait_returns :
      (tid r : ℤ) (k k' : Kernel)
      → IsValid k
      → k.current_task ≢ 0
      → sched_wait image tid k ≡ returned r k'
      → IsValid k'
  unfolding sched_wait
  sched_wait_returns (negsuc n) r k k' v busy e = subst IsValid (ground arith) v
  sched_wait_returns (pos tid) r k k' v busy e =
      let valid =
        sched_yield-IsValid image (block_on image tid k) (block_on-IsSettled tid k v busy) in
      ground (arith, v, valid)

  sched_create-IsValid :
      (name : List ℕ) (entry arg : ℕ) (k : Kernel)
      → IsValid k
      → IsValid (sched_create image name entry arg k).1
  unfolding sched_create
  sched_create-IsValid name entry arg k v = elim (Bool-cases (leb sched_max_tasks k.num_tasks)) [
    | inl full ↦ rw (full, sched_create) v
    | inr room ↦
        rw (room, sched_create)
          (record {
            inside = ground (arith, v.inside);
            bounded = ground arith;
            current_runs = ground (arith, v.inside, v.current_runs);
            one_runs = λ j h other. ground (arith, v.one_runs j h);
            idle_lives = ground (arith, v.inside, v.idle_lives);
          })
  ]

  Step-IsValid : (k k' : Kernel) → Step image k k' → IsValid k → IsValid k'
  Step-IsValid k _ (yields _) v = sched_yield-IsValid image k (IsValid-IsSettled k v)
  Step-IsValid k _ (tick _) v = sched_tick-IsValid image k v
  Step-IsValid k _ (exits _ busy) v = (sched_exit-Exited image k v busy).valid
  Step-IsValid k k' (blocks tid _ _ busy e) v = sched_wait-IsValid tid k k' v busy e
  Step-IsValid k k' (waited tid r _ _ busy e) v = sched_wait_returns tid r k k' v busy e
  Step-IsValid k _ (sends tid sig _) v = signal_send-IsValid tid sig k v
  Step-IsValid k _ (creates name entry arg _) v = sched_create-IsValid name entry arg k v
  Step-IsValid k _ (creates_user name code size m _) v =
      (sched_create_user-GoesOn image k v name code size m).0
  Step-IsValid k _ (forks regs m _) v = (sched_fork-GoesOn image k v regs m).0

  -- From a state with the scheduler's invariant, every sequence of `sched_yield`, `sched_tick`,
  -- `sched_exit`, `sched_wait`, `sched_create`, `sched_create_user`, `sched_fork` and `signal_send`
  -- in which the idle task neither ends nor waits leads to a state with the invariant: the current
  -- task is in the table and is running, no other task is running, and the idle task can run.
  pub Reach-IsValid : (k k' : Kernel) → Reach image k k' → IsValid k → IsValid k'
  Reach-IsValid k _ here v = v
  Reach-IsValid k k'' (next {k'} r s) v = Step-IsValid k' k'' s (Reach-IsValid k k' r v)

-- `sched_init` leaves the idle task, running, and no other.
pub sched_init-IsValid : (idle : List ℕ) (k : Kernel) → IsValid (sched_init idle k)
unfolding sched_init clear_tasks
sched_init-IsValid idle k = record {
  inside = omega arith;
  bounded = omega arith;
  current_runs = refl;
  one_runs = λ j h other. ground arith;
  idle_lives = refl;
}
