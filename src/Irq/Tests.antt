-- ===== src/Irq/Tests.antt =====
-- Runs of irq.c, and its theorem at a line that two devices share.
use archarch.Base.{
  ℕ, ◌<◌, ◌≡◌, refl, arith, true, false, [], ◌∷◌, if◌then◌else◌, ◌==◌, ◌⊎◌, minus_one,
}
use archarch.Task.{Kernel, running, unused}
use archarch.Sched.Sample.{image, zeroed, task, io}
use archarch.Irq.{Irq, gic_eoi, irq_handler, irq_blk_pending, irq_net_rx_pending, raise_from}
use archarch.Sched.Sample.{user_kernel-IsValid, user_kernel}
use archarch.Irq.{unhandled_sync_el0}
use archarch.Irq.Fault.{Faulted, unhandled_sync_el0-Faulted}
use archarch.Irq.Dispatch.{fired, irq_handler-fired}

abbrev idle : Kernel
idle = record {
  tasks = λ i. if i == 0 then task running minus_one minus_one else task unused minus_one minus_one;
  current_task = 0;
  num_tasks = 1;
  start_info = λ i. (0, 0);
  io = io;
  cpu = zeroed;
  ttbr0_el1 = 0x7000;
}

abbrev shared_line : Irq
shared_line = record {
  pending = λ f. false;
  irq_timer_ticks = 0;
  timer_registered = true;
  irq_devs = λ i. record {
    vpci = 0x5000;
    flag = if i == 0 then irq_blk_pending else irq_net_rx_pending;
    irq_id = 35;
    active = true;
  };
  irq_dev_count = 2;
}

-- Only the second device has used a buffer.
abbrev second_isr : ℕ → ℕ
second_isr i = if i == 1 then 1 else 0

net_is_raised :
    (irq_handler image 35 second_isr shared_line idle).0.pending irq_net_rx_pending ≡ true
unfolding irq_handler raise_from
net_is_raised = refl

blk_is_not : (irq_handler image 35 second_isr shared_line idle).0.pending irq_blk_pending ≡ false
unfolding irq_handler raise_from
blk_is_not = refl

irq_handler-fired_example :
    let (irq', writes, k') = irq_handler image 35 second_isr shared_line idle in
    (writes ≡ gic_eoi 35 ∷ [])
    × (k' ≡ idle)
    × ((j : ℕ)
        → j < 2
        → fired 35 second_isr shared_line.irq_devs j ≡ true
        → irq'.pending (shared_line.irq_devs j).flag ≡ true)
    × ((f : ℕ)
        → irq'.pending f ≡ true
        → (shared_line.pending f ≡ true)
          ⊎ ((j : ℕ) × (j < 2)
              × (fired 35 second_isr shared_line.irq_devs j ≡ true)
              × ((shared_line.irq_devs j).flag ≡ f)))
irq_handler-fired_example =
    irq_handler-fired image 35 second_isr shared_line idle (omega arith) (omega arith)

unhandled_sync_el0-Faulted_example :
    Faulted image user_kernel (unhandled_sync_el0 image user_kernel)
unhandled_sync_el0-Faulted_example =
    unhandled_sync_el0-Faulted image user_kernel user_kernel-IsValid (omega arith)
