-- ===== src/Sched/Fair.antt =====
-- Fairness: a task that is ready runs after at most as many ticks as there are tasks.
use native.Mathlib.Decide.{ℕ_discrete}
use native.Mathlib.Nat.{mod-add-mod}
use mathlib.Core.Path.{subst}
use archarch.Base.{
  ℕ, zero, suc, ◌+◌, ◌-◌, ◌%◌, ◌≤◌, ◌<◌, ◌≡◌, ◌≢◌, ap, ◌∙◌, arith, true, false, Bool-cases, ltb,
  inl, inr, ◌⊎◌,
}
use archarch.Task.{Kernel, Image, is_ready}
use archarch.Sched.{pick_next, switch_to, sched_tick, tick_count, mmu_switch_ttbr0, context_switch}
use archarch.Sched.Pick.{place, pick_next-Picked}
use archarch.Sched.Valid.{state_of, place_of, switch_to_counts}

module _ (image : Image) where
  -- `n` timer ticks with nothing between them.
  unfoldable pub ticks : ℕ → Kernel → Kernel
  ticks zero k = k
  ticks (suc n) k = ticks n (sched_tick image k)

  stays_ready :
      (next j : ℕ) (k : Kernel)
      → next ≢ j
      → is_ready (state_of k j) ≡ true
      → is_ready (state_of (switch_to image next k) j) ≡ true
  unfolding switch_to mmu_switch_ttbr0 context_switch
  stays_ready next j k ne waits = ground arith

  place-place :
      (k : Kernel) (next p i : ℕ)
      → next ≡ place k p
      → p ≤ i
      → place (switch_to image next k) (i - p) ≡ place k i
  place-place k next p i is below =
      let (count, current) = switch_to_counts image next k in
      let sum : k.current_task + p + (i - p) ≡ k.current_task + i = omega arith in
      rw (current, count)
        (ap (λ m. (m + (i - p)) % k.num_tasks) is
          ∙ mod-add-mod (k.current_task + p) k.num_tasks (i - p)
          ∙ ap (λ m. m % k.num_tasks) sum)

  -- Where the ready task `j`, `i` places ahead, is after a switch: it runs, or it comes nearer.
  abbrev Nearer : ℕ → ℕ → Kernel → Type 0
  Nearer j i k =
      (k.current_task ≡ j)
      ⊎ ((m : ℕ) × (1 ≤ m) × (m < i) × (place k m ≡ j) × (is_ready (state_of k j) ≡ true))

  switch-Nearer :
      (j i : ℕ) (k : Kernel)
      → 1 ≤ i
      → i < k.num_tasks + 1
      → place k i ≡ j
      → is_ready (state_of k j) ≡ true
      → Nearer j i (switch_to image (pick_next k) k)
  switch-Nearer j i k above below at waits = elim (pick_next-Picked k) [
    | inr (none_ready, is) ↦
        let not_ready : is_ready (state_of k j) ≡ false =
          subst (λ m. is_ready (state_of k m) ≡ false) at (none_ready i above below) in
        absurd (ground arith)
    | inl (p, is, (above', below', found, before)) ↦
        let near : p ≤ i = elim (Bool-cases (ltb i p)) [
          | inl early' ↦
              let early : i < p = ground arith in
              let not_ready : is_ready (state_of k j) ≡ false =
                subst (λ m. is_ready (state_of k m) ≡ false) at (before i above early) in
              absurd (ground arith)
          | inr late ↦ ground arith
        ] in
        let current = (switch_to_counts image (pick_next k) k).1 in
        elim (ℕ_discrete (pick_next k) j) [
          | yes same ↦ inl (current ∙ same)
          | no other ↦
              let further : p ≢ i = λ e. other (is ∙ ap (place k) e ∙ at) in
              inr (
                i - p,
                omega (arith, further),
                omega (arith, further),
                place-place k (pick_next k) p i is near ∙ at,
                stays_ready (pick_next k) j k other waits,
              )
        ]
  ]

  tick-Nearer :
      (j i : ℕ) (k : Kernel)
      → 1 ≤ i
      → i < k.num_tasks + 1
      → place k i ≡ j
      → is_ready (state_of k j) ≡ true
      → Nearer j i (sched_tick image k)
  unfolding sched_tick tick_count
  tick-Nearer j i k above below at waits =
      switch-Nearer j i (tick_count k) above below at (ground arith)

  num_tasks-sched_tick : (k : Kernel) → (sched_tick image k).num_tasks ≡ k.num_tasks
  unfolding sched_tick tick_count
  num_tasks-sched_tick k = (switch_to_counts image (pick_next (tick_count k)) (tick_count k)).0

  ticks-approach :
      (i j fuel : ℕ) (k : Kernel)
      → i ≤ fuel
      → 1 ≤ i
      → i < k.num_tasks + 1
      → place k i ≡ j
      → is_ready (state_of k j) ≡ true
      → (n : ℕ) × (1 ≤ n) × (n ≤ i) × ((ticks n k).current_task ≡ j)
  unfolding ticks
  ticks-approach i j zero k enough above below at waits = absurd (omega arith)
  ticks-approach i j (suc fuel) k enough above below at waits =
      elim (tick-Nearer j i k above below at waits) [
        | inl now ↦ (1, omega arith, omega arith, now)
        | inr (m, above', nearer, at', waits') ↦
            let count = num_tasks-sched_tick k in
            let (n, some_ticks, few, runs) =
              ticks-approach m j fuel (sched_tick image k) (omega arith) above'
                (rw count (omega arith)) at' waits' in
            (suc n, omega arith, omega arith, runs)
      ]

  -- A task that is ready runs after at least one and at most `num_tasks` timer ticks, when nothing
  -- but the ticks switches tasks or changes their states.
  pub ticks_reach :
      (j : ℕ) (k : Kernel)
      → k.current_task < k.num_tasks
      → j < k.num_tasks
      → is_ready (state_of k j) ≡ true
      → (n : ℕ) × (1 ≤ n) × (n ≤ k.num_tasks) × ((ticks n k).current_task ≡ j)
  ticks_reach j k inside h waits =
      let (i, above, below, at) = place_of k j inside h in
      let (n, some_ticks, few, runs) = ticks-approach i j i k (omega arith) above below at waits in
      (n, some_ticks, omega arith, runs)
