-- ===== src/Sched/Valid.antt =====
-- The scheduler's invariant, and that a switch keeps it.
use native.Mathlib.Decide.{ℕ_discrete}
use native.Mathlib.Nat.{mod-lt, mod-eq_of_lt, add-mod_right}
use mathlib.Core.Path.{subst}
use archarch.Base.{
  ℕ, ◌+◌, ◌-◌, ◌%◌, ◌≤◌, ◌<◌, ◌≡◌, ◌≢◌, refl, ap, ◌∙◌, arith, true, false, ◌&&◌, ◌||◌, ◌==◌, ltb,
  if◌then◌else◌, inl, inr, ◌⊎◌, Bool-cases,
}
use archarch.Task.{TaskState, Kernel, Image, sched_max_tasks, is_ready, is_running, running, ready}
use archarch.Sched.{
  pick_next, switch_to, sched_yield, sched_tick, tick_count, mmu_switch_ttbr0, context_switch,
}
use archarch.Sched.Pick.{place, pick_next-Picked}

abbrev pub state_of : Kernel → ℕ → TaskState
state_of k j = (k.tasks j).state

-- Between the calls of the scheduler the current task is running and no other is; the idle task
-- never ends and never waits.
pub record IsValid (k : Kernel) : Type 0 where
  pub inside : k.current_task < k.num_tasks
  pub bounded : k.num_tasks ≤ sched_max_tasks
  pub current_runs : is_running (state_of k k.current_task) ≡ true
  pub one_runs :
      (j : ℕ) → j < sched_max_tasks → j ≢ k.current_task → is_running (state_of k j) ≡ false
  pub idle_lives : is_ready (state_of k 0) || is_running (state_of k 0) ≡ true

-- Before a switch, the current task may also have ended or have begun to wait, unless it is idle.
pub record IsSettled (k : Kernel) : Type 0 where
  pub inside : k.current_task < k.num_tasks
  pub bounded : k.num_tasks ≤ sched_max_tasks
  pub not_ready : is_ready (state_of k k.current_task) ≡ false
  pub one_runs :
      (j : ℕ) → j < sched_max_tasks → j ≢ k.current_task → is_running (state_of k j) ≡ false
  pub idle_lives : is_ready (state_of k 0) || is_running (state_of k 0) ≡ true

pub IsValid-IsSettled : (k : Kernel) → IsValid k → IsSettled k
IsValid-IsSettled k v = record {
  inside = v.inside;
  bounded = v.bounded;
  not_ready = ground (arith, v.current_runs);
  one_runs = v.one_runs;
  idle_lives = v.idle_lives;
}

-- Every task has a place behind the current one.
pub place_of :
    (k : Kernel) (j : ℕ)
    → k.current_task < k.num_tasks
    → j < k.num_tasks
    → (i : ℕ) × (1 ≤ i) × (i < k.num_tasks + 1) × (place k i ≡ j)
place_of k j inside h = elim (Bool-cases (ltb k.current_task j)) [
  | inl after ↦
      let e : k.current_task + (j - k.current_task) ≡ j = ground arith in
      (j - k.current_task, ground arith, ground arith, ap (λ m. m % k.num_tasks) e ∙ mod-eq_of_lt h)
  | inr before ↦
      let e : k.current_task + (j + k.num_tasks - k.current_task) ≡ j + k.num_tasks =
        ground arith in
      (
        j + k.num_tasks - k.current_task,
        ground arith,
        ground arith,
        ap (λ m. m % k.num_tasks) e ∙ add-mod_right j k.num_tasks ∙ mod-eq_of_lt h,
      )
]

-- With the idle task alive, `pick_next` stays with a running task or finds one that is ready.
pub pick_next-IsSettled :
    (k : Kernel)
    → IsSettled k
    → (pick_next k < k.num_tasks)
      × ((is_ready (state_of k (pick_next k)) ≡ true)
          ⊎ ((pick_next k ≡ k.current_task) × (is_running (state_of k k.current_task) ≡ true)))
pick_next-IsSettled k s = elim (pick_next-Picked k) [
  | inl (i, is, (above, below, found, before)) ↦
      rw is (mod-lt (k.current_task + i) (omega (arith, s.inside)), inl found)
  | inr (none_ready, is) ↦
      let (i, above, below, at) = place_of k 0 s.inside (omega (arith, s.inside)) in
      let idle : is_ready (state_of k 0) ≡ false =
        subst (λ j. is_ready (state_of k j) ≡ false) at (none_ready i above below) in
      let runs : is_running (state_of k 0) ≡ true = ground (arith, s.idle_lives) in
      let current : 0 ≡ k.current_task = elim (ℕ_discrete 0 k.current_task) [
        | yes same ↦ same
        | no other ↦ absurd (ground (arith, s.one_runs 0 (omega arith) other))
      ] in
      let runs' : is_running (state_of k k.current_task) ≡ true =
        subst (λ j. is_running (state_of k j) ≡ true) current runs in
      let is' : pick_next k ≡ k.current_task = ground (arith, is) in
      rw is' (s.inside, inr (refl, runs'))
]

module _ (image : Image) where
  -- The states that a switch to `next` leaves.
  pub state_of-switch_to :
      (next : ℕ) (k : Kernel) (j : ℕ)
      → next ≢ k.current_task
      → state_of (switch_to image next k) j ≡ (
          if j == next
          then running
          else if j == k.current_task && is_running (state_of k j)
          then ready
          else state_of k j)
  unfolding switch_to mmu_switch_ttbr0 context_switch
  state_of-switch_to next k j ne = ground arith

  pub switch_to_counts :
      (next : ℕ) (k : Kernel)
      → ((switch_to image next k).num_tasks ≡ k.num_tasks)
        × ((switch_to image next k).current_task ≡ next)
  unfolding switch_to mmu_switch_ttbr0 context_switch
  switch_to_counts next k = ground arith

  switch_to-same : (k : Kernel) → switch_to image k.current_task k ≡ k
  unfolding switch_to
  switch_to-same k = ground arith

  switch_to-IsValid :
      (next : ℕ) (k : Kernel)
      → IsSettled k
      → next < k.num_tasks
      → next ≢ k.current_task
      → is_ready (state_of k next) ≡ true
      → IsValid (switch_to image next k)
  switch_to-IsValid next k s inside ne is_next =
      let (count, current) = switch_to_counts next k in
      record {
        inside = rw (count, current) inside;
        bounded = rw count s.bounded;
        current_runs = rw current (rw (state_of-switch_to next k next ne) (ground arith));
        one_runs =
            rw current
              (λ j h other. rw (state_of-switch_to next k j ne) (ground (arith, s.one_runs j h)));
        idle_lives =
            rw (state_of-switch_to next k 0 ne)
              (ground (arith, s.idle_lives, s.one_runs 0 (omega arith)));
      }

  pub sched_yield-IsValid : (k : Kernel) → IsSettled k → IsValid (sched_yield image k)
  unfolding sched_yield
  sched_yield-IsValid k s = elim (ℕ_discrete (pick_next k) k.current_task) [
    | yes same ↦
        let current : is_running (state_of k k.current_task) ≡ true =
          elim ((pick_next-IsSettled k s).1) [
            | inl found ↦ absurd (ground (arith, same, s.not_ready))
            | inr (is, runs) ↦ runs
          ] in
        rw same (
          rw (switch_to-same k) (record {
            inside = s.inside;
            bounded = s.bounded;
            current_runs = current;
            one_runs = s.one_runs;
            idle_lives = s.idle_lives;
          }))
    | no other ↦
        switch_to-IsValid (pick_next k) k s ((pick_next-IsSettled k s).0) other
          (elim ((pick_next-IsSettled k s).1) [
            | inl found ↦ found
            | inr (is, runs) ↦ absurd (other is)
          ])
  ]

  tick_count-IsValid : (k : Kernel) → IsValid k → IsValid (tick_count k)
  unfolding tick_count
  tick_count-IsValid k v = record {
    inside = v.inside;
    bounded = v.bounded;
    current_runs = ground (arith, v.current_runs);
    one_runs = λ j h ne. ground (arith, v.one_runs j h ne);
    idle_lives = ground (arith, v.idle_lives);
  }

  pub sched_tick-IsValid : (k : Kernel) → IsValid k → IsValid (sched_tick image k)
  unfolding sched_tick
  sched_tick-IsValid k v =
      let step : IsValid (sched_yield image (tick_count k)) =
        sched_yield-IsValid (tick_count k)
          (IsValid-IsSettled (tick_count k) (tick_count-IsValid k v)) in
      unfold sched_yield in step
