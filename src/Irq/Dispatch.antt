-- ===== src/Irq/Dispatch.antt =====
-- Which flags an interrupt raises.
use native.Mathlib.Decide.{ℕ_discrete}
use mathlib.Core.Path.{subst}
use archarch.Base.{
  ℕ, zero, suc, ◌+◌, ◌%◌, ◌≤◌, ◌<◌, ◌≡◌, ◌≢◌, refl, sym, arith, Bool, true, false, ◌&&◌, ◌==◌,
  ==_refl, ==_ne, leb, Bool-cases, [], ◌∷◌, ◌⊎◌, inl, inr,
}
use archarch.Task.{Kernel, Image}
use archarch.Irq.{IrqDevEntry, Irq, gic_eoi, timer_irq_id, raise_from, irq_handler}

-- Entry `i` is active, on the line `iar`, and its device says that it has used a buffer.
abbrev pub fired : ℕ → (ℕ → ℕ) → (ℕ → IrqDevEntry) → ℕ → Bool
fired iar isr devs i = (devs i).active && (devs i).irq_id == iar && isr i % 2 == 1

raise_from_keeps :
    (n i iar : ℕ) (isr : ℕ → ℕ) (devs : ℕ → IrqDevEntry) (pending : ℕ → Bool) (f : ℕ)
    → pending f ≡ true
    → raise_from n i iar isr devs pending f ≡ true
unfolding raise_from
raise_from_keeps zero i iar isr devs pending f h = h
raise_from_keeps (suc n) i iar isr devs pending f h =
    raise_from_keeps n (i + 1) iar isr devs _ f (ground arith)

raise_from-fired :
    (n i j iar : ℕ) (isr : ℕ → ℕ) (devs : ℕ → IrqDevEntry) (pending : ℕ → Bool)
    → i ≤ j
    → j < i + n
    → fired iar isr devs j ≡ true
    → raise_from n i iar isr devs pending (devs j).flag ≡ true
unfolding raise_from
raise_from-fired zero i j iar isr devs pending h h' e = absurd (omega arith)
raise_from-fired (suc n) i j iar isr devs pending h h' e = elim (ℕ_discrete i j) [
  | yes same ↦
      let e' : fired iar isr devs i ≡ true =
        subst (λ k. fired iar isr devs k ≡ true) (sym same) e in
      subst (λ k. raise_from (suc n) i iar isr devs pending (devs k).flag ≡ true) same
        (raise_from_keeps n (i + 1) iar isr devs _ (devs i).flag
          (rw e' (rw (==_refl (devs i).flag) refl)))
  | no other ↦ raise_from-fired n (i + 1) j iar isr devs _ (omega (arith, other)) (omega arith) e
]

raise_from-only :
    (n i iar : ℕ) (isr : ℕ → ℕ) (devs : ℕ → IrqDevEntry) (pending : ℕ → Bool) (f : ℕ)
    → raise_from n i iar isr devs pending f ≡ true
    → (pending f ≡ true)
      ⊎ ((j : ℕ) × (i ≤ j) × (j < i + n) × (fired iar isr devs j ≡ true) × ((devs j).flag ≡ f))
unfolding raise_from
raise_from-only zero i iar isr devs pending f h = inl h
raise_from-only (suc n) i iar isr devs pending f h =
    elim (raise_from-only n (i + 1) iar isr devs _ f h) [
      | inr (j, low, high, e, is) ↦ inr (j, omega arith, omega arith, e, is)
      | inl old ↦ elim (Bool-cases (fired iar isr devs i)) [
        | inr quiet ↦ inl (ground arith)
        | inl fires ↦ elim (ℕ_discrete (devs i).flag f) [
          | yes same ↦ inr (i, omega arith, omega arith, fires, same)
          | no other ↦ inl (ground arith)
        ]
      ]
    ]

-- An interrupt that is neither the timer's nor spurious: the handler ends it once, switches no
-- task, raises the flag of every registered device on the line whose status says that it has used
-- a buffer, and raises no other flag.
pub irq_handler-fired :
    (image : Image) (iar : ℕ) (isr : ℕ → ℕ) (irq : Irq) (k : Kernel)
    → iar < 1020
    → iar ≢ timer_irq_id
    → let (irq', writes, k') = irq_handler image iar isr irq k in
      (writes ≡ gic_eoi iar ∷ [])
      × (k' ≡ k)
      × ((j : ℕ)
          → j < irq.irq_dev_count
          → fired iar isr irq.irq_devs j ≡ true
          → irq'.pending (irq.irq_devs j).flag ≡ true)
      × ((f : ℕ)
          → irq'.pending f ≡ true
          → (irq.pending f ≡ true)
            ⊎ ((j : ℕ) × (j < irq.irq_dev_count)
                × (fired iar isr irq.irq_devs j ≡ true)
                × ((irq.irq_devs j).flag ≡ f)))
unfolding irq_handler
irq_handler-fired image iar isr irq k known device =
    let real : leb 1020 iar ≡ false = ground arith in
    rw (real, ==_ne iar timer_irq_id device)
      (
        refl,
        refl,
        λ j h e.
            raise_from-fired irq.irq_dev_count 0 j iar isr irq.irq_devs irq.pending (omega arith)
              (omega arith) e,
        λ f e. elim (raise_from-only irq.irq_dev_count 0 iar isr irq.irq_devs irq.pending f e) [
          | inl old ↦ inl old
          | inr (j, low, high, fires, is) ↦ inr (j, omega arith, fires, is)
        ],
      )
