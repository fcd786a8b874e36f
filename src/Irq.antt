-- ===== src/Irq.antt =====
-- Interrupt dispatch: irq.c. What the interrupt controller and the devices answer comes in as
-- arguments, and what is written to the controller and the timer goes out as a list.
pub mod Dispatch
pub mod Fault
mod Tests
use archarch.Base.{
  ℕ, zero, suc, ◌+◌, ◌%◌, ◌^◌, ◌≡◌, Bool, true, false, not, ◌&&◌, ◌||◌, ◌==◌, leb, ltb,
  if◌then◌else◌, List, [], ◌∷◌, upd, pos,
}
use archarch.Base.Word.{add64}
use archarch.Task.{Kernel, Image}
use archarch.Signal.Send.{signal_send}
use archarch.Sched.{sched_tick, sched_exit}

-- A device on an interrupt line: its address, the flag that it raises and the line.
pub record IrqDevEntry : Type 0 where
  pub vpci : ℕ
  pub flag : ℕ
  pub irq_id : ℕ
  pub active : Bool

-- The flags, by number, the ticks and the dispatch table.
pub record Irq : Type 0 where
  pub pending : ℕ → Bool
  pub irq_timer_ticks : ℕ
  pub timer_registered : Bool
  pub irq_devs : ℕ → IrqDevEntry
  pub irq_dev_count : ℕ

abbrev pub irq_rng_pending : ℕ
irq_rng_pending = 0

abbrev pub irq_blk_pending : ℕ
irq_blk_pending = 1

abbrev pub irq_net_rx_pending : ℕ
irq_net_rx_pending = 2

abbrev pub irq_gpu_pending : ℕ
irq_gpu_pending = 3

abbrev pub irq_input_pending : ℕ
irq_input_pending = 4

abbrev pub max_irq_devs : ℕ
max_irq_devs = 8

abbrev pub timer_irq_id : ℕ
timer_irq_id = 30

unfoldable pub deactivate : ℕ → ℕ → (ℕ → IrqDevEntry) → ℕ → IrqDevEntry
deactivate zero i devs = devs
deactivate (suc n) i devs = deactivate n (i + 1) (upd devs i (record (devs i) { active = false }))

unfoldable pub irq_init : Irq → Irq
unfolding deactivate
irq_init irq = record {
  pending = λ f. false;
  irq_timer_ticks = 0;
  timer_registered = false;
  irq_devs = deactivate max_irq_devs 0 irq.irq_devs;
  irq_dev_count = 0;
}

unfoldable pub register_dev : (vpci flag irq_id : ℕ) → Irq → Irq
register_dev vpci flag irq_id irq =
    let i = irq.irq_dev_count in
    if leb max_irq_devs i then irq else record irq {
      irq_devs =
          upd irq.irq_devs i (record { vpci = vpci; flag = flag; irq_id = irq_id; active = true });
      irq_dev_count = i + 1;
    }

unfoldable pub irq_register_rng : (vpci irq_id : ℕ) → Irq → Irq
irq_register_rng vpci irq_id = register_dev vpci irq_rng_pending irq_id

unfoldable pub irq_register_blk : (vpci irq_id : ℕ) → Irq → Irq
irq_register_blk vpci irq_id = register_dev vpci irq_blk_pending irq_id

unfoldable pub irq_register_net : (vpci irq_id : ℕ) → Irq → Irq
irq_register_net vpci irq_id = register_dev vpci irq_net_rx_pending irq_id

unfoldable pub irq_register_gpu : (vpci irq_id : ℕ) → Irq → Irq
irq_register_gpu vpci irq_id = register_dev vpci irq_gpu_pending irq_id

unfoldable pub irq_register_input : (vpci irq_id : ℕ) → Irq → Irq
irq_register_input vpci irq_id = register_dev vpci irq_input_pending irq_id

unfoldable pub irq_register_timer : Irq → Irq
irq_register_timer irq = record irq { timer_registered = true }

-- The walk over the table, from the `i`-th entry on. `isr i` is what entry `i`'s status register
-- gives when it is read.
unfoldable pub raise_from : ℕ → ℕ → (iar : ℕ) → (ℕ → ℕ) → (ℕ → IrqDevEntry) → (ℕ → Bool) → ℕ → Bool
raise_from zero i iar isr devs pending = pending
raise_from (suc n) i iar isr devs pending =
    let e = devs i in
    let fired = e.active && e.irq_id == iar && isr i % 2 == 1 in
    raise_from n (i + 1) iar isr devs (if fired then upd pending e.flag true else pending)

-- What the handler writes.
pub data Write : Type 0 where
  timer_rearm : Write
  gic_eoi : ℕ → Write

module _ (image : Image) where
  -- `iar` is what `gic_ack` gives.
  unfoldable pub irq_handler : (iar : ℕ) → (ℕ → ℕ) → Irq → Kernel → Irq × List Write × Kernel
  irq_handler iar isr irq k =
      if leb 1020 iar
      then (irq, [], k)
      else if iar == timer_irq_id && irq.timer_registered
      then (
        record irq { irq_timer_ticks = add64 irq.irq_timer_ticks 1 },
        timer_rearm ∷ gic_eoi iar ∷ [],
        sched_tick image k,
      )
      else if iar == timer_irq_id
      then (irq, gic_eoi iar ∷ [], k)
      else (
        record irq { pending = raise_from irq.irq_dev_count 0 iar isr irq.irq_devs irq.pending },
        gic_eoi iar ∷ [],
        k,
      )

-- `unhandled_sync_el0`, without its lines for the log: a fault of the current task. SIGSEGV is 11, and
-- a value above SIG_IGN, 1, is the address of a handler.
unfoldable pub unhandled_sync_el0 : Image → Kernel → Kernel
unhandled_sync_el0 image k =
    let me = k.current_task in
    let sent = (signal_send (pos me) (pos 11) k).1 in
    if not (leb k.num_tasks me) && ltb 1 ((k.tasks me).sig.handlers 11)
    then sent
    else sched_exit image k
