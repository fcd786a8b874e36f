-- ===== src/Irq/Fault.antt =====
-- A fault of the current task: `unhandled_sync_el0` of irq.c.
use archarch.Base.{
  ℕ, ◌≤◌, ◌<◌, ◌≡◌, ◌≢◌, ◌⊎◌, inl, inr, refl, arith, true, false, leb, ltb, Bool-cases, ==_refl,
  upd, pos,
}
use archarch.Task.{
  TaskState, running, unused, ready, blocked, finished, Task, Kernel, Image, set_task, is_running,
  is_unused, is_finished,
}
use archarch.Signal.Send.{sched_get_task, post, signal_send}
use archarch.Sched.Valid.{IsValid}
use archarch.Sched.Steps.{signal_send-IsValid}
use archarch.Sched.Exit.{Exited, sched_exit-Exited}
use archarch.Irq.{unhandled_sync_el0}

-- What a fault in the kernel `k` leads to.
abbrev pub Faulted : Image → Kernel → Kernel → Type 0
Faulted image k k' =
    let me = k.current_task in
    ((1 < (k.tasks me).sig.handlers 11)
      × (k'.current_task ≡ me)
      × ((k'.tasks me).sig.pending ≡ upd (k.tasks me).sig.pending 11 true)
      × ((j : ℕ) → j ≢ me → k'.tasks j ≡ k.tasks j)
      × IsValid k')
    ⊎ (((k.tasks me).sig.handlers 11 ≤ 1) × Exited image k k')

runs_lives :
    (state : TaskState)
    → is_running state ≡ true
    → (is_unused state ≡ false) × (is_finished state ≡ false)
runs_lives running h = (refl, refl)
runs_lives unused h = absurd (cc h)
runs_lives ready h = absurd (cc h)
runs_lives blocked h = absurd (cc h)
runs_lives finished h = absurd (cc h)

sent :
    (k : Kernel)
    → IsValid k
    → (signal_send (pos k.current_task) (pos 11) k).1
      ≡ set_task k.current_task (post 11 (k.tasks k.current_task)) k
unfolding signal_send sched_get_task
sent k v =
    let (lives, lasts) = runs_lives (k.tasks k.current_task).state v.current_runs in
    let inside : leb k.num_tasks k.current_task ≡ false = ground (arith, v.inside) in
    rw (inside, lives, lasts, signal_send, sched_get_task) refl

post-pending : (t : Task) → (post 11 t).sig.pending ≡ upd t.sig.pending 11 true
unfolding post
post-pending t = ground arith

-- `unhandled_sync_el0` for a task other than the idle one, under the scheduler's invariant: if the task
-- has a handler for SIGSEGV, the function returns with that signal pending for it and with the same
-- task current, and no other task changes; without one the task ends as with `sched_exit`. The
-- invariant holds again. What the entry code does after the function has returned is not part of it.
pub unhandled_sync_el0-Faulted :
    (image : Image) (k : Kernel)
    → IsValid k
    → k.current_task ≢ 0
    → Faulted image k (unhandled_sync_el0 image k)
unfolding unhandled_sync_el0
unhandled_sync_el0-Faulted image k v busy =
    let me = k.current_task in
    let inside : leb k.num_tasks me ≡ false = ground (arith, v.inside) in
    elim (Bool-cases (ltb 1 ((k.tasks me).sig.handlers 11))) [
      | inr none_there ↦
          rw (inside, none_there)
            (inr (ground (arith, none_there), sched_exit-Exited image k v busy))
      | inl there ↦
          rw (inside, there)
            (inl (
              ground (arith, there),
              rw (sent k v) refl,
              rw (sent k v, ==_refl me) (post-pending (k.tasks me)),
              λ j ne. rw (sent k v) (ground (arith, ne)),
              signal_send-IsValid (pos me) (pos 11) k v,
            ))
    ]
