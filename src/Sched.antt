-- ===== src/Sched.antt =====
-- The round-robin scheduler: sched.c, with context_switch.S and `mmu_switch_ttbr0` of mmu.c. A
-- switch ends a function's run in the state the next task finds; the caller goes on when a later
-- switch returns to it.
pub mod Pick
pub mod Valid
pub mod Fair
pub mod Exit
pub mod User
pub mod Copy
pub mod Twin
pub mod Fork
pub mod Sample
mod Tests
pub mod Joins
pub mod Steps
use archarch.Base.{
  ℕ, zero, suc, ◌+◌, ◌-◌, ◌*◌, ◌/◌, ◌%◌, ◌^◌, ◌≡◌, Bool, true, false, not, ◌&&◌, ◌||◌, ◌==◌, ltb,
  leb, if◌then◌else◌, Option, none, some, List, upd, ℤ, pos, negsuc, minus_one, int_is, is_neg,
}
use archarch.Base.Word.{add64}
use archarch.Fd.{fd_table_destroy}
use archarch.Task.{
  Task, TaskState, Context, Kernel, Image, unused, ready, running, blocked, finished,
  sched_max_tasks, sched_stack_size, is_ready, is_running, is_blocked, is_finished, set_task,
  set_state,
}
use archarch.Signal.Send.{signal_init, signal_send}

-- The loop of `pick_next`: `n` tasks are left to look at, the next of them `i` after the current.
unfoldable pub pick_from : ℕ → ℕ → Kernel → Option ℕ
pick_from zero i k = none
pick_from (suc n) i k =
    let idx = (k.current_task + i) % k.num_tasks in
    let rest = pick_from n (i + 1) k in if is_ready (k.tasks idx).state then some idx else rest

unfoldable pub pick_next : Kernel → ℕ
unfolding pick_from
pick_next k = elim (pick_from k.num_tasks 1 k) [
  | some idx ↦ idx
  | none ↦ if is_running (k.tasks k.current_task).state then k.current_task else 0
]

-- The registers go to the old task's context and come from the new one's.
unfoldable pub context_switch : ℕ → ℕ → Kernel → Kernel
context_switch prev next k = record k {
  tasks = upd k.tasks prev (record (k.tasks prev) { ctx = k.cpu });
  cpu = (k.tasks next).ctx;
}

unfoldable pub tick_count : Kernel → Kernel
tick_count k =
    let t = k.tasks k.current_task in
    set_task k.current_task (record t { ticks = add64 t.ticks 1 }) k

-- The registers of a task that has not run: it starts at `pc` on the stack `sp`.
unfoldable pub first_context : ℕ → ℕ → Context
first_context pc sp = record {
  x19 = 0;
  x20 = 0;
  x21 = 0;
  x22 = 0;
  x23 = 0;
  x24 = 0;
  x25 = 0;
  x26 = 0;
  x27 = 0;
  x28 = 0;
  x29 = 0;
  x30 = pc;
  sp = sp;
}

unfoldable pub wake_one : ℕ → ℕ → Kernel → Kernel
wake_one i me k =
    let t = k.tasks i in
    if is_blocked t.state && int_is t.wait_for_tid me
    then set_task i (record t { state = ready; wait_for_tid = minus_one }) k
    else k

-- Tasks that wait for `me` are woken, from the `i`-th on.
unfoldable pub wake_from : ℕ → ℕ → ℕ → Kernel → Kernel
wake_from zero i me k = k
wake_from (suc n) i me k = wake_from n (i + 1) me (wake_one i me k)

-- SIGCHLD to the parent, if there is one.
unfoldable pub tell_parent : ℤ → Kernel → Kernel
tell_parent (negsuc n) k = k
tell_parent (pos parent) k = (signal_send (pos parent) (pos 17) k).1

-- The loop of `sched_init`.
unfoldable pub clear_tasks : ℕ → ℕ → (ℕ → Task) → ℕ → Task
clear_tasks zero i ts = ts
clear_tasks (suc n) i ts =
    clear_tasks n (i + 1)
      (upd ts i (record (ts i) { state = unused; id = i; ticks = 0; wait_for_tid = minus_one }))

unfoldable pub sched_init : List ℕ → Kernel → Kernel
unfolding clear_tasks
sched_init idle k =
    let ts = clear_tasks sched_max_tasks 0 k.tasks in
    record k {
      tasks = upd ts 0 (record (ts 0) { state = running; name = idle });
      current_task = 0;
      num_tasks = 1;
    }

-- `sched_wait`: its result, or the switch to another task; a task that is switched back to later
-- returns 0.
pub data Waiting : Type 0 where
  returned : ℤ → Kernel → Waiting
  waits : Kernel → Waiting

module _ (image : Image) where
  unfoldable pub mmu_switch_ttbr0 : ℕ → Kernel → Kernel
  mmu_switch_ttbr0 pgd k = record k { ttbr0_el1 = if pgd == 0 then image.boot_l1_pa else pgd }

  unfoldable pub switch_to : ℕ → Kernel → Kernel
  unfolding mmu_switch_ttbr0 context_switch
  switch_to next k =
      let prev = k.current_task in
      let k1 = if is_running (k.tasks prev).state then set_state prev ready k else k in
      let k2 : Kernel = record (set_state next running k1) { current_task = next } in
      if next == prev
      then k
      else context_switch prev next (mmu_switch_ttbr0 ((k2.tasks next).ttbr0) k2)

  unfoldable pub sched_yield : Kernel → Kernel
  sched_yield k = switch_to (pick_next k) k

  -- After the count, the body is that of `switch_to`.
  unfoldable pub sched_tick : Kernel → Kernel
  sched_tick k = let k1 = tick_count k in switch_to (pick_next k1) k1

  -- The current task is marked finished and its descriptors are closed.
  unfoldable pub end_task : Kernel → Kernel
  end_task k =
      let me = k.current_task in
      let closed = fd_table_destroy image.console_file ((k.tasks me).fdt) k.io in
      record (set_task me (record (k.tasks me) { state = finished; fdt = closed.0 }) k) {
        io = closed.1;
      }

  -- `sched_exit` up to its `sched_yield`.
  unfoldable pub finish : Kernel → Kernel
  finish k =
      let me = k.current_task in
      let told = tell_parent ((k.tasks me).parent_tid) (end_task k) in
      wake_from told.num_tasks 0 me told

  unfoldable pub sched_exit : Kernel → Kernel
  sched_exit k = sched_yield (finish k)

  unfoldable pub block_on : ℕ → Kernel → Kernel
  block_on tid k =
      set_task k.current_task
        (record (k.tasks k.current_task) { state = blocked; wait_for_tid = pos tid }) k

  unfoldable pub sched_wait : ℤ → Kernel → Waiting
  sched_wait (negsuc n) k = returned minus_one k
  sched_wait (pos tid) k =
      let k' = sched_yield (block_on tid k) in
      if leb k.num_tasks tid
      then returned minus_one k
      else if is_finished (k.tasks tid).state
      then returned (pos 0) k
      else if k'.current_task == k.current_task
      then returned (pos 0) k'
      else waits k'

  -- `sched_create`. The table entry keeps its `id`, its signals and its descriptors.
  unfoldable pub sched_create : List ℕ → ℕ → ℕ → Kernel → ℤ × Kernel
  sched_create name entry arg k =
      let id = k.num_tasks in
      let top = image.task_stacks + (id + 1) * sched_stack_size in
      let t : Task = record (k.tasks id) {
        ctx = first_context image.task_wrapper (top / 16 * 16);
        state = ready;
        name = name;
        ticks = 0;
        is_user = false;
        user_entry = 0;
        user_sp = 0;
        ttbr0 = 0;
        code_pa = 0;
        code_pages = 0;
        stack_pa = 0;
        heap_break = 0;
        wait_for_tid = minus_one;
        parent_tid = minus_one;
      } in
      if leb sched_max_tasks id then (minus_one, k) else (
        pos id,
        record (set_task id t k) {
          num_tasks = id + 1;
          start_info = upd k.start_info id (entry, arg);
        },
      )
