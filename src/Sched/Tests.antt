-- ===== src/Sched/Tests.antt =====
-- Runs of sched.c, and the scheduler's theorems at a concrete task table.
use archarch.Base.{ℕ, ◌≤◌, ◌≡◌, refl, arith, pos, minus_one, if◌then◌else◌, ◌==◌}
use archarch.Pmm.{page_to_addr}
use archarch.Mmu.Alloc.{page_to_addr-eq}
use archarch.Mmu.Sample.{some_used, some_used-used, some_used-Taken}
use archarch.Sched.User.{sched_fork}
use archarch.Sched.Copy.{IsRun}
use archarch.Sched.Fork.{Forked, sched_fork-Forked}
use archarch.Sched.Sample.{image, zeroed, task, io, user_kernel}
use archarch.Task.{Task, Kernel, unused, ready, running, blocked}
use archarch.Signal.Send.{signal_send}
use archarch.Sched.{sched_exit, sched_tick, pick_next, pick_from}
use archarch.Sched.Valid.{IsValid}
use archarch.Sched.Fair.{ticks, ticks_reach}
use archarch.Sched.Exit.{Exited, sched_exit-Exited}
use archarch.Sched.Steps.{here, next, sends, tick, Reach-IsValid}

-- The idle task is ready, task 1 runs, its parent 2 waits for it, and 3 is ready.
abbrev table : ℕ → Task
table i =
    if i == 0
    then task ready minus_one minus_one
    else if i == 1
    then task running minus_one (pos 2)
    else if i == 2
    then task blocked (pos 1) minus_one
    else if i == 3
    then task ready minus_one minus_one
    else task unused minus_one minus_one

abbrev busy : Kernel
busy = record {
  tasks = table;
  current_task = 1;
  num_tasks = 4;
  start_info = λ i. (0, 0);
  io = io;
  cpu = zeroed;
  ttbr0_el1 = 0x7000;
}

busy-IsValid : IsValid busy
busy-IsValid = record {
  inside = omega arith;
  bounded = omega arith;
  current_runs = refl;
  one_runs = λ j h other. ground arith;
  idle_lives = refl;
}

-- Task 2 is blocked and passed over.
picks_three : pick_next busy ≡ 3
unfolding pick_next pick_from
picks_three = refl

ticks_reach_example : (n : ℕ) × (1 ≤ n) × (n ≤ 4) × ((ticks image n busy).current_task ≡ 0)
ticks_reach_example = ticks_reach image 0 busy (omega arith) (omega arith) refl

sched_exit-Exited_example : Exited image busy (sched_exit image busy)
sched_exit-Exited_example = sched_exit-Exited image busy busy-IsValid (omega arith)

-- A signal wakes task 2, a tick goes on to it, and it ends.
Reach-IsValid_example : IsValid (sched_tick image (signal_send (pos 2) (pos 10) busy).1)
Reach-IsValid_example =
    Reach-IsValid image busy (sched_tick image (signal_send (pos 2) (pos 10) busy).1)
      (next (next here (sends (pos 2) (pos 10) busy)) (tick (signal_send (pos 2) (pos 10) busy).1))
      busy-IsValid

code_IsRun : IsRun 0x40001000 2 some_used
code_IsRun = record {
  start = 1;
  fits = omega arith;
  is = unfold page_to_addr in refl;
  used = λ j lo hi. some_used-used j (omega arith);
}

stack_IsRun : IsRun 0x40003000 4 some_used
stack_IsRun = record {
  start = 3;
  fits = omega arith;
  is = unfold page_to_addr in refl;
  used = λ j lo hi. some_used-used j (omega arith);
}

sched_fork-Forked_example :
    Forked image (λ i. 5) user_kernel (λ a. 0) (sched_fork image (λ i. 5) user_kernel (λ a. 0))
sched_fork-Forked_example =
    sched_fork-Forked image (λ i. 5) user_kernel (λ a. 0) (omega arith) (omega arith)
      (λ q h free. omega (arith, page_to_addr-eq q h)) (λ i h. omega arith) refl
      some_used-Taken.valid code_IsRun stack_IsRun (omega arith) (omega arith)
