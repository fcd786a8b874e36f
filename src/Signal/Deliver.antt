-- ===== src/Signal/Deliver.antt =====
-- Delivering a signal: `signal_deliver`, `signal_return` and `signal_set_handler` of signal.c.
use archarch.Base.{
  ℕ, zero, suc, ◌+◌, ◌-◌, ◌*◌, ◌/◌, ◌^◌, Bool, false, ◌||◌, ◌==◌, leb, ltb, if◌then◌else◌, Option,
  none, some, upd, ℤ, pos, negsuc,
}
use archarch.Base.Word.{sub64}
use archarch.Task.{Kernel, Image, set_task}
use archarch.Sched.{sched_exit}
use archarch.Signal.Send.{sched_get_task, nsig}
use archarch.Memory.{Memory, load64, store64, store32}

-- The saved frame: x0 to x30, SP_EL0, ELR_EL1 and SPSR_EL1.
abbrev pub Regs : Type 0
Regs = ℕ → ℕ

abbrev pub sigframe_size : ℕ
sigframe_size = 288

-- The loop over the pending mask: `n` signals are left to look at, from `i` on.
unfoldable pub lowest_from : ℕ → ℕ → (ℕ → Bool) → Option ℕ
lowest_from zero i pending = none
lowest_from (suc n) i pending =
    let rest = lowest_from n (i + 1) pending in if pending i then some i else rest

unfoldable pub lowest_pending : (ℕ → Bool) → Option ℕ
unfolding lowest_from
lowest_pending = lowest_from (nsig - 1) 1

-- `frame[i] = regs[i]`, for `n` registers.
unfoldable pub save_regs : ℕ → ℕ → ℕ → Regs → Memory → Memory
save_regs zero i frame regs m = m
save_regs (suc n) i frame regs m =
    save_regs n (i + 1) frame regs (store64 (frame + i * 8) (regs i) m)

-- `regs[i] = frame[i]`, for `n` registers.
unfoldable pub load_regs : ℕ → ℕ → ℕ → Memory → Regs → Regs
load_regs zero i frame m regs = regs
load_regs (suc n) i frame m regs =
    load_regs n (i + 1) frame m (upd regs i (load64 (frame + i * 8) m))

-- Room for the frame on the user's stack, 16-byte aligned.
unfoldable pub frame_address : ℕ → ℕ
frame_address sp = sub64 sp sigframe_size / 16 * 16

-- The registers, the signal's number and the two instructions of `sigreturn_trampoline`.
unfoldable pub push_frame : (frame sig : ℕ) → Regs → Memory → Memory
unfolding save_regs
push_frame frame sig regs m =
    let m1 = save_regs 34 0 frame regs m in
    let m2 = store64 (frame + 34 * 8) sig m1 in
    let m3 = store32 (frame + 35 * 8) 0xd2800208 m2 in store32 (frame + 35 * 8 + 4) 0xd4000001 m3

unfoldable pub enter_handler : (frame sig handler : ℕ) → Regs → Regs
enter_handler frame sig handler regs =
    upd (upd (upd (upd regs 0 sig) 30 (frame + 35 * 8)) 31 frame) 32 handler

unfoldable pub clear_pending : ℕ → ℕ → Kernel → Kernel
clear_pending i sig k =
    let t = k.tasks i in
    set_task i (record t { sig = record t.sig { pending = upd t.sig.pending sig false } }) k

-- What `signal_deliver` does: it returns, or `sched_exit` in it leaves the task for good.
pub data Delivery : Type 0 where
  delivered : ℤ → Regs → Memory → Kernel → Delivery
  switched : Kernel → Delivery

module _ (image : Image) where
  -- `sched_exit`, with the result of the lines behind it, should it find no other task.
  unfoldable pub killed : ℤ → Regs → Memory → Kernel → Delivery
  killed r regs m k =
      let k' = sched_exit image k in
      if k'.current_task == k.current_task then delivered r regs m k' else switched k'

  -- SIGKILL, SIG_IGN, SIG_DFL with `signal_default_action`, where SIGCHLD is ignored, and a handler.
  unfoldable pub act : (sig handler : ℕ) → Regs → Memory → Kernel → Delivery
  unfolding killed push_frame enter_handler frame_address
  act sig handler regs m k =
      let frame = frame_address (regs 31) in
      if sig == 9
      then killed (pos 1) regs m k
      else if handler == 1
      then delivered (pos 0) regs m k
      else if handler == 0
      then (if sig == 17 then delivered (pos 0) regs m k else killed (pos 0) regs m k)
      else delivered (pos 1) (enter_handler frame sig handler regs) (push_frame frame sig regs m) k

  -- With no bit of the mask set, the search finds none.
  unfoldable pub signal_deliver : Regs → Memory → Kernel → Delivery
  unfolding lowest_pending clear_pending act
  signal_deliver regs m k = elim (sched_get_task (pos k.current_task) k) [
    | none ↦ delivered (pos 0) regs m k
    | some i ↦
        let t = k.tasks i in
        let act_on : Delivery = elim (lowest_pending t.sig.pending) [
          | none ↦ delivered (pos 0) regs m k
          | some sig ↦ act sig (t.sig.handlers sig) regs m (clear_pending i sig k)
        ] in
        if t.is_user then act_on else delivered (pos 0) regs m k
  ]

unfoldable pub signal_return : Memory → Regs → Regs
unfolding load_regs
signal_return m regs = load_regs 34 0 (regs 31) m regs

-- The previous handler, or (uint64_t)-1.
unfoldable pub signal_set_handler : ℤ → ℕ → Kernel → ℕ × Kernel
signal_set_handler (negsuc n) handler k = (2 ^ 64 - 1, k)
signal_set_handler (pos sig) handler k = elim (sched_get_task (pos k.current_task) k) [
  | none ↦ (2 ^ 64 - 1, k)
  | some i ↦
      let t = k.tasks i in
      if ltb sig 1 || leb nsig sig || sig == 9 then (2 ^ 64 - 1, k) else (
        t.sig.handlers sig,
        set_task i (record t { sig = record t.sig { handlers = upd t.sig.handlers sig handler } })
            k,
      )
]
