-- ===== src/Signal/Send.antt =====
-- Sending a signal: `signal_init`, `signal_send`, and `sched_get_task` of sched.c, which finds the
-- task.
use archarch.Base.{
  ℕ, true, false, ◌||◌, leb, ltb, if◌then◌else◌, Option, none, some, upd, ℤ, pos, negsuc, minus_one,
}
use archarch.Task.{Task, SignalState, Kernel, ready, is_unused, is_finished, is_blocked, set_task}

abbrev pub nsig : ℕ
nsig = 32

-- Every signal has its default action (0), and none is pending.
abbrev pub signal_init : SignalState
signal_init = record { handlers = λ i. 0; pending = λ i. false }

-- `sched_get_task`: NULL, or the index of a task that was created.
unfoldable pub sched_get_task : ℤ → Kernel → Option ℕ
sched_get_task (negsuc n) k = none
sched_get_task (pos n) k = if leb k.num_tasks n then none else some n

unfoldable pub post : ℕ → Task → Task
post sig t =
    let t1 : Task = record t { sig = record t.sig { pending = upd t.sig.pending sig true } } in
    if is_blocked t.state then record t1 { state = ready; wait_for_tid = minus_one } else t1

unfoldable pub signal_send : ℤ → ℤ → Kernel → ℤ × Kernel
signal_send tid (negsuc sig) k = (minus_one, k)
signal_send tid (pos sig) k = elim (sched_get_task tid k) [
  | none ↦ (minus_one, k)
  | some i ↦
      let t = k.tasks i in
      if ltb sig 1 || leb nsig sig || is_unused t.state || is_finished t.state
      then (minus_one, k)
      else (pos 0, set_task i (post sig t) k)
]
