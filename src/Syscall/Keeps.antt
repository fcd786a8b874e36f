-- ===== src/Syscall/Keeps.antt =====
-- Every system call keeps the scheduler's invariant.
use archarch.Base.{
  ℕ, ◌≢◌, inl, inr, refl, sym, ◌∙◌, arith, leb, ◌==◌, Bool-cases, Option-cases, ℤ, pos, negsuc,
}
use archarch.Memory.{Memory}
use archarch.Task.{Kernel, Image, is_finished}
use archarch.Signal.Send.{signal_send, sched_get_task}
use archarch.Signal.Deliver.{
  Regs, Delivery, delivered, switched, signal_deliver, signal_set_handler, killed, act,
  clear_pending, lowest_pending,
}
use archarch.Sched
use archarch.Sched.{Waiting, sched_yield, sched_exit, sched_wait, block_on}
use archarch.Sched.Valid.{IsValid, sched_yield-IsValid}
use archarch.Sched.Exit.{sched_exit-Exited, signal_send_counts}
use archarch.Sched.Steps.{signal_send-IsValid, block_on-IsSettled}
use archarch.Sched.Joins.{SameStates, GoesOn, SameStates-GoesOn}
use archarch.Syscall.Break.{sys_sbrk}

module _ (image : Image) where
  module _ (k : Kernel) (v : IsValid k) where
    sys_sbrk-SameStates : (inc : ℕ) (m : Memory) → SameStates k (sys_sbrk inc k m).1
    unfolding sys_sbrk
    sys_sbrk-SameStates inc m = record {
      count = ground arith;
      current = ground arith;
      state = λ j. ground arith;
    }

    pub sys_sbrk-GoesOn : (inc : ℕ) (m : Memory) → GoesOn k (sys_sbrk inc k m).1
    sys_sbrk-GoesOn inc m = SameStates-GoesOn k _ (sys_sbrk-SameStates inc m) v

    signal_set_handler-SameStates :
        (sig : ℤ) (handler : ℕ) → SameStates k (signal_set_handler sig handler k).1
    unfolding signal_set_handler sched_get_task
    signal_set_handler-SameStates (negsuc n) handler = record {
      count = refl;
      current = refl;
      state = λ j. refl;
    }
    signal_set_handler-SameStates (pos n) handler = record {
      count = ground arith;
      current = ground arith;
      state = λ j. ground arith;
    }

    pub signal_set_handler-GoesOn :
        (sig : ℤ) (handler : ℕ) → GoesOn k (signal_set_handler sig handler k).1
    signal_set_handler-GoesOn sig handler =
        SameStates-GoesOn k _ (signal_set_handler-SameStates sig handler) v

    pub signal_send-GoesOn : (tid sig : ℤ) → GoesOn k (signal_send tid sig k).1
    signal_send-GoesOn tid sig = (signal_send-IsValid tid sig k v, (signal_send_counts tid sig k).1)

    -- What `sched_wait` leaves of the scheduler.
    pub data WaitKeeps : Waiting → Type 0 where
      goes_on : (r : ℤ) (k' : Kernel) → GoesOn k k' → WaitKeeps (Sched.returned r k')
      gives_up : (k' : Kernel) → IsValid k' → WaitKeeps (Sched.waits k')

    pub sched_wait-WaitKeeps : (tid : ℤ) → k.current_task ≢ 0 → WaitKeeps (sched_wait image tid k)
    unfolding sched_wait
    sched_wait-WaitKeeps (negsuc n) busy = goes_on _ _ (v, refl)
    sched_wait-WaitKeeps (pos tid) busy =
        let k' = sched_yield image (block_on image tid k) in
        let valid =
          sched_yield-IsValid image (block_on image tid k)
            (block_on-IsSettled image tid k v busy) in
        elim (Bool-cases (leb k.num_tasks tid)) [
          | inl no_task ↦ rw (no_task, sched_wait) (goes_on _ _ (v, refl))
          | inr a_task ↦ elim (Bool-cases (is_finished (k.tasks tid).state)) [
            | inl over ↦ rw (a_task, over, sched_wait) (goes_on _ _ (v, refl))
            | inr alive ↦ elim (Bool-cases (k'.current_task == k.current_task)) [
              | inl stays ↦
                  rw (a_task, alive, stays, sched_wait) (goes_on _ _ (valid, ground (arith, stays)))
              | inr moves ↦ rw (a_task, alive, moves, sched_wait) (gives_up _ valid)
            ]
          ]
        ]

  -- What `signal_deliver` leaves of the scheduler.
  pub data DeliveryKeeps : Delivery → Type 0 where
    same_task :
        (r : ℤ) (regs : Regs) (m : Memory) (k' : Kernel)
        → IsValid k'
        → DeliveryKeeps (delivered r regs m k')
    other_task : (k' : Kernel) → IsValid k' → DeliveryKeeps (switched k')

  module _ (k : Kernel) (v : IsValid k) (busy : k.current_task ≢ 0) where
    killed-DeliveryKeeps :
        (r : ℤ) (regs : Regs) (m : Memory) → DeliveryKeeps (killed image r regs m k)
    unfolding killed
    killed-DeliveryKeeps r regs m =
        let valid = (sched_exit-Exited image k v busy).valid in
        elim (Bool-cases ((sched_exit image k).current_task == k.current_task)) [
          | inl stays ↦ rw (stays, killed) (same_task _ _ _ _ valid)
          | inr moves ↦ rw (moves, killed) (other_task _ valid)
        ]

    act-DeliveryKeeps :
        (sig handler : ℕ) (regs : Regs) (m : Memory)
        → DeliveryKeeps (act image sig handler regs m k)
    unfolding act
    act-DeliveryKeeps sig handler regs m = elim (Bool-cases (sig == 9)) [
      | inl kill ↦ rw (kill, act) (killed-DeliveryKeeps (pos 1) regs m)
      | inr a ↦ elim (Bool-cases (handler == 1)) [
        | inl ignore ↦ rw (a, ignore, act) (same_task _ _ _ _ v)
        | inr b ↦ elim (Bool-cases (handler == 0)) [
          | inr c ↦ rw (a, b, c, act) (same_task _ _ _ _ v)
          | inl default ↦ elim (Bool-cases (sig == 17)) [
            | inl child ↦ rw (a, b, default, child, act) (same_task _ _ _ _ v)
            | inr d ↦ rw (a, b, default, d, act) (killed-DeliveryKeeps (pos 0) regs m)
          ]
        ]
      ]
    ]

  clear_pending-GoesOn : (i sig : ℕ) (k : Kernel) → IsValid k → GoesOn k (clear_pending i sig k)
  unfolding clear_pending
  clear_pending-GoesOn i sig k v =
      SameStates-GoesOn k _ (record { count = refl; current = refl; state = λ j. ground arith }) v

  pub signal_deliver-DeliveryKeeps :
      (regs : Regs) (m : Memory) (k : Kernel)
      → IsValid k
      → k.current_task ≢ 0
      → DeliveryKeeps (signal_deliver image regs m k)
  unfolding signal_deliver
  signal_deliver-DeliveryKeeps regs m k v busy =
      elim (Option-cases (sched_get_task (pos k.current_task) k)) [
        | inl e ↦ rw (e, signal_deliver) (same_task _ _ _ _ v)
        | inr (i, e) ↦ elim (Bool-cases (k.tasks i).is_user) [
          | inr kernel_task ↦ rw (e, kernel_task, signal_deliver) (same_task _ _ _ _ v)
          | inl user ↦ elim (Option-cases (lowest_pending (k.tasks i).sig.pending)) [
            | inl quiet ↦ rw (e, user, quiet, signal_deliver) (same_task _ _ _ _ v)
            | inr (sig, e') ↦
                let (v', same) = clear_pending-GoesOn i sig k v in
                rw (e, user, e', signal_deliver)
                  (act-DeliveryKeeps (clear_pending i sig k) v' (λ z. busy (sym same ∙ z)) sig
                    ((k.tasks i).sig.handlers sig) regs m)
          ]
        ]
      ]
