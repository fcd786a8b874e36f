-- ===== src/Sched/Exit.antt =====
-- `sched_exit`, `sched_wait` and the waking of tasks.
use archarch.Base.{
  ℕ, zero, suc, ◌+◌, ◌≡◌, ◌≢◌, refl, ap, ◌∙◌, arith, Bool, true, false, not, ◌&&◌, ◌||◌, ◌==◌, ltb,
  leb, if◌then◌else◌, inl, inr, ℤ, pos, negsuc, int_is,
}
use archarch.Task.{Task, Kernel, Image, is_ready, is_blocked, ready, finished}
use archarch.Signal.Send.{signal_send, sched_get_task, post}
use archarch.Sched.{
  pick_next, sched_yield, sched_exit, finish, end_task, tell_parent, wake_one, wake_from,
}
use archarch.Sched.Valid.{
  IsValid, IsSettled, state_of, state_of-switch_to, switch_to_counts, sched_yield-IsValid,
  pick_next-IsSettled,
}

abbrev pub SameCounts : Kernel → Kernel → Type 0
SameCounts k' k = (k'.num_tasks ≡ k.num_tasks) × (k'.current_task ≡ k.current_task)

-- A task that blocks because it waits for `me`.
abbrev pub waits_for : ℕ → Task → Bool
waits_for me t = is_blocked t.state && int_is t.wait_for_tid me

wake_one-state :
    (i me : ℕ) (k : Kernel) (j : ℕ)
    → state_of (wake_one i me k) j
      ≡ (if i == j && waits_for me (k.tasks j) then ready else state_of k j)
unfolding wake_one
wake_one-state i me k j = ground arith

waits_for-wake_one :
    (i me : ℕ) (k : Kernel) (j : ℕ)
    → waits_for me ((wake_one i me k).tasks j)
      ≡ (if i == j then false else waits_for me (k.tasks j))
unfolding wake_one
waits_for-wake_one i me k j = ground arith

wake_from-state :
    (n i me : ℕ) (k : Kernel) (j : ℕ)
    → state_of (wake_from n i me k) j
      ≡ (if leb i j && ltb j (i + n) && waits_for me (k.tasks j) then ready else state_of k j)
unfolding wake_from
wake_from-state zero i me k j = ground arith
wake_from-state (suc n) i me k j =
    let e = wake_from-state n (i + 1) me (wake_one i me k) j in
    e ∙ rw (waits_for-wake_one i me k j, wake_one-state i me k j) (ground arith)

wake_from_counts : (n i me : ℕ) (k : Kernel) → SameCounts (wake_from n i me k) k
unfolding wake_from wake_one
wake_from_counts zero i me k = (refl, refl)
wake_from_counts (suc n) i me k =
    let (a, b) = wake_from_counts n (i + 1) me (wake_one i me k) in
    (a ∙ ground arith, b ∙ ground arith)

pub signal_send-state :
    (i s : ℕ) (k : Kernel) (j : ℕ)
    → state_of (signal_send (pos i) (pos s) k).1 j ≡ (
        if i == j && ltb j k.num_tasks && ltb 0 s && ltb s 32 && is_blocked (state_of k j)
        then ready
        else state_of k j)
unfolding signal_send sched_get_task post
signal_send-state i s k j = ground arith

pub signal_send_counts : (tid sig : ℤ) (k : Kernel) → SameCounts (signal_send tid sig k).1 k
unfolding signal_send sched_get_task post
signal_send_counts tid (negsuc s) k = (refl, refl)
signal_send_counts (negsuc i) (pos s) k = (refl, refl)
signal_send_counts (pos i) (pos s) k = ground arith

-- A task that a signal woke does not wait any more, and no other is touched.
pub waits_for-signal_send :
    (tid sig : ℤ) (me : ℕ) (k : Kernel) (j : ℕ)
    → let k' = (signal_send tid sig k).1 in
      waits_for me (k'.tasks j) ≡ is_blocked (state_of k' j) && waits_for me (k.tasks j)
unfolding signal_send sched_get_task post
waits_for-signal_send tid (negsuc s) me k j = ground arith
waits_for-signal_send (negsuc i) (pos s) me k j = ground arith
waits_for-signal_send (pos i) (pos s) me k j = ground arith

tell_parent-state :
    (parent : ℤ) (k : Kernel) (j : ℕ)
    → state_of (tell_parent parent k) j ≡ (
        if int_is parent j && ltb j k.num_tasks && is_blocked (state_of k j)
        then ready
        else state_of k j)
unfolding tell_parent
tell_parent-state (negsuc n) k j = ground arith
tell_parent-state (pos i) k j = signal_send-state i 17 k j ∙ ground arith

tell_parent_counts : (parent : ℤ) (k : Kernel) → SameCounts (tell_parent parent k) k
unfolding tell_parent
tell_parent_counts (negsuc n) k = (refl, refl)
tell_parent_counts (pos i) k = signal_send_counts (pos i) (pos 17) k

waits_for-tell_parent :
    (parent : ℤ) (me : ℕ) (k : Kernel) (j : ℕ)
    → waits_for me ((tell_parent parent k).tasks j)
      ≡ is_blocked (state_of (tell_parent parent k) j) && waits_for me (k.tasks j)
unfolding tell_parent
waits_for-tell_parent (negsuc n) me k j = ground arith
waits_for-tell_parent (pos i) me k j = waits_for-signal_send (pos i) (pos 17) me k j

module _ (image : Image) where
  -- `sched_exit` wakes a blocked task that waits for the one that ends, or that is its parent.
  abbrev pub woken_by_exit : Kernel → ℕ → Bool
  woken_by_exit k j =
      ltb j k.num_tasks
      && (int_is (k.tasks j).wait_for_tid k.current_task
          || int_is (k.tasks k.current_task).parent_tid j)

  end_task_counts : (k : Kernel) → SameCounts (end_task image k) k
  unfolding end_task
  end_task_counts k = (refl, refl)

  end_task-state :
      (k : Kernel) (j : ℕ)
      → state_of (end_task image k) j ≡ (if j == k.current_task then finished else state_of k j)
  unfolding end_task
  end_task-state k j = ground arith

  waits_for-end_task :
      (k : Kernel) (me j : ℕ)
      → waits_for me ((end_task image k).tasks j)
        ≡ not (j == k.current_task) && waits_for me (k.tasks j)
  unfolding end_task
  waits_for-end_task k me j = ground arith

  finish_counts : (k : Kernel) → SameCounts (finish image k) k
  unfolding finish
  finish_counts k =
      let (a, b) = wake_from_counts _ 0 k.current_task _ in
      let (c, d) = tell_parent_counts ((k.tasks k.current_task).parent_tid) (end_task image k) in
      let (e, f) = end_task_counts k in (a ∙ c ∙ e, b ∙ d ∙ f)

  finish-state :
      (k : Kernel) (j : ℕ)
      → state_of (finish image k) j ≡ (
          if j == k.current_task
          then finished
          else if is_blocked (state_of k j) && woken_by_exit k j
          then ready
          else state_of k j)
  unfolding finish
  finish-state k j =
      let parent = (k.tasks k.current_task).parent_tid in
      let told = tell_parent parent (end_task image k) in
      let count : told.num_tasks ≡ k.num_tasks =
        (tell_parent_counts parent (end_task image k)).0 ∙ (end_task_counts k).0 in
      wake_from-state told.num_tasks 0 k.current_task told j
      ∙ rw
          (
            count,
            waits_for-tell_parent parent k.current_task (end_task image k) j,
            tell_parent-state parent (end_task image k) j,
            waits_for-end_task k k.current_task j,
            end_task-state k j,
          )
          (ground (arith, (end_task_counts k).0))

  finish-IsSettled : (k : Kernel) → IsValid k → k.current_task ≢ 0 → IsSettled (finish image k)
  finish-IsSettled k v busy =
      let (count, current) = finish_counts k in
      record {
        inside = rw (current, count) v.inside;
        bounded = rw count v.bounded;
        not_ready = rw current (rw (finish-state k k.current_task) (ground arith));
        one_runs = rw current (λ j h other. rw (finish-state k j) (ground (arith, v.one_runs j h)));
        idle_lives = rw (finish-state k 0) (ground (arith, v.idle_lives));
      }

  -- What a `sched_exit` of a task that is not idle leaves.
  pub record Exited (k k' : Kernel) : Type 0 where
    pub valid : IsValid k'
    pub moved : k'.current_task ≢ k.current_task
    pub ended : state_of k' k.current_task ≡ finished
    pub woken :
        (j : ℕ)
        → j ≢ k.current_task
        → is_blocked (state_of k' j) ≡ is_blocked (state_of k j) && not (woken_by_exit k j)

  yield-finished :
      (k : Kernel) (me : ℕ)
      → IsSettled k
      → k.current_task ≡ me
      → state_of k me ≡ finished
      → (pick_next k ≢ me) × (is_ready (state_of k (pick_next k)) ≡ true)
  yield-finished k me s is ended = elim ((pick_next-IsSettled k s).1) [
    | inl found ↦ ((λ e. absurd (ground (arith, ap (state_of k) e))), found)
    | inr (same, runs) ↦ absurd (ground (arith, ap (state_of k) is))
  ]

  -- `sched_exit` of a task other than the idle one never comes back to it: another task runs, the
  -- scheduler's invariant holds, the task is finished, and of the blocked tasks just those that wait
  -- for it and its parent are woken.
  pub sched_exit-Exited :
      (k : Kernel) → IsValid k → k.current_task ≢ 0 → Exited k (sched_exit image k)
  unfolding sched_exit sched_yield
  sched_exit-Exited k v busy =
      let s = finish-IsSettled k v busy in
      let (count, current) = finish_counts k in
      let ended : state_of (finish image k) k.current_task ≡ finished =
        finish-state k k.current_task ∙ ground arith in
      let (moves, found) = yield-finished (finish image k) k.current_task s current ended in
      let moves' : pick_next (finish image k) ≢ (finish image k).current_task =
        λ e. moves (e ∙ current) in
      record {
        valid = unfold sched_yield in sched_yield-IsValid image (finish image k) s;
        moved = rw (switch_to_counts image (pick_next (finish image k)) (finish image k)).1 moves;
        ended =
            state_of-switch_to image (pick_next (finish image k)) (finish image k) k.current_task
              moves'
            ∙ ground (arith, ended, moves);
        woken = λ j other.
            ap is_blocked
              (state_of-switch_to image (pick_next (finish image k)) (finish image k) j moves')
            ∙ ground (arith, finish-state k j, found, current);
      }
