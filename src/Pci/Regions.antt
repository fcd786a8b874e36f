-- ===== src/Pci/Regions.antt =====
-- The memory regions that `pci_assign_bars` hands out.
use archarch.Base.{
  ℕ, zero, suc, ◌+◌, ◌-◌, ◌*◌, ◌%◌, ◌^◌, ◌≤◌, ◌<◌, ◌≡◌, ◌≢◌, ◌⊎◌, inl, inr, refl, sym, ◌∙◌, arith,
  Bool, true, false,
}
use native.Mathlib.Decide.{ℕ_discrete}
use archarch.Pci.{
  Mmio, PciDevice, Pci, mem_size, is_mem64, assign_bar, assign_from, pci_assign_bars,
}
use archarch.Pci.Writes.{Writes, told, told-slot}
use archarch.Pci.Register.{is_memory, Answers, Answers-slot, assign_bar-Assigned}

-- A memory region of the register's size, between `lo` and `hi`.
abbrev pub Region : (size lo hi addr : ℕ) → Type 0
Region size lo hi addr = (addr % size ≡ 0) × (lo ≤ addr) × (addr + size ≤ hi)

-- What the registers from `i` on, `n` in number, get from the memory between `lo` and `hi`.
pub record Laid (sized : ℕ → ℕ) (n i lo hi : ℕ) (bar : ℕ → ℕ) : Type 0 where
  pub grows : lo ≤ hi
  pub bounded : hi ≤ lo + n * 2 ^ 25
  pub each :
      (j : ℕ)
      → i ≤ j
      → j < i + n
      → is_memory (sized j) ≡ true
      → Region (mem_size (sized j)) lo hi (bar j)
        ⊎ ((bar j ≡ 0) × (0 < j) × (is_mem64 (sized (j - 1)) ≡ true))
  pub ordered :
      (j k : ℕ)
      → i ≤ j
      → j < k
      → k < i + n
      → is_memory (sized j) ≡ true
      → is_memory (sized k) ≡ true
      → bar j ≢ 0
      → bar k ≢ 0
      → bar j + mem_size (sized j) ≤ bar k

module _ {sized : ℕ → ℕ} {n i lo hi : ℕ} {bar : ℕ → ℕ} where
  -- An upper half, and the registers behind it.
  Laid-skip :
      bar i ≡ 0
      → 0 < i
      → is_mem64 (sized (i - 1)) ≡ true
      → Laid sized n (i + 1) lo hi bar
      → Laid sized (suc n) i lo hi bar
  Laid-skip none positive wide l = record {
    grows = l.grows;
    bounded = omega (arith, l.bounded);
    each = λ j h h' m. elim (ℕ_discrete j i) [
      | yes e ↦ inr (rw e (none, positive, wide))
      | no ne ↦ l.each j (omega arith) (omega arith) m
    ];
    ordered = λ j k h h' h'' m m' nonzero nonzero'. elim (ℕ_discrete j i) [
      | yes e ↦ absurd (nonzero (rw e none))
      | no ne ↦ l.ordered j k (omega arith) h' (omega arith) m m' nonzero nonzero'
    ];
  }

  Laid-suc :
      (mid : ℕ)
      → lo ≤ mid
      → mid ≤ lo + 2 ^ 25
      → (is_memory (sized i) ≡ true
          → (bar i % mem_size (sized i) ≡ 0) × (lo ≤ bar i) × (bar i + mem_size (sized i) ≡ mid))
      → Laid sized n (i + 1) mid hi bar
      → Laid sized (suc n) i lo hi bar
  Laid-suc mid grows bounded here l = record {
    grows = omega (arith, l.grows);
    bounded = omega (arith, l.bounded);
    each = λ j h h' m. elim (ℕ_discrete j i) [
      | yes e ↦
          let (even, above, size) = here (rw e at m) in
          rw e (inl (even, above, omega (arith, size, l.grows)))
      | no ne ↦ elim (l.each j (omega arith) (omega arith) m) [
        | inl (even, above, below) ↦ inl (even, omega arith, below)
        | inr upper ↦ inr upper
      ]
    ];
    ordered = λ j k h h' h'' m m' nonzero nonzero'. elim (ℕ_discrete j i) [
      | yes e ↦
          let (even, above, size) = here (rw e at m) in
          rw e (elim (l.each k (omega arith) (omega arith) m') [
            | inl (_, above', _) ↦ omega (arith, size, above')
            | inr (zero', _, _) ↦ absurd (nonzero' zero')
          ])
      | no ne ↦ l.ordered j k (omega arith) h' (omega arith) m m' nonzero nonzero'
    ];
  }

module _ {D : Type 0} (mmio : Mmio D) (w : Writes mmio) (sized : ℕ → ℕ) where
  -- Each memory register among the `n` from `i` on was told the region that the record has.
  abbrev pub Told : (n i : ℕ) → PciDevice → D → (ℕ → ℕ) → Type 0
  Told n i dev d bar =
      (j : ℕ) → i ≤ j → j < i + n → is_memory (sized j) ≡ true → told w dev d j ≡ bar j

  -- What is left of the loop, with the registers before `i` as they are.
  abbrev Left : (n i : ℕ) (skip : Bool) → PciDevice → Pci D → Type 0
  Left n i skip dev s =
      let r = assign_from mmio n i skip dev s in
      Laid sized n i s.mmio32_alloc r.1.mmio32_alloc r.0.bar
      × Told n i dev r.1.devices r.0.bar
      × ((j : ℕ)
          → j < i
          → (r.0.bar j ≡ dev.bar j) × (told w dev r.1.devices j ≡ told w dev s.devices j))

  Told-suc :
      (n i : ℕ) (dev : PciDevice) (d : D) (bar : ℕ → ℕ)
      → (is_memory (sized i) ≡ true → told w dev d i ≡ bar i)
      → Told n (i + 1) dev d bar
      → Told (suc n) i dev d bar
  Told-suc n i dev d bar here later j h h' m = elim (ℕ_discrete j i) [
    | yes e ↦ rw e (here (rw e at m))
    | no ne ↦ later j (omega arith) (omega arith) m
  ]

  assign_from-Left :
      (n i : ℕ) (skip : Bool) (dev : PciDevice) (s : Pci D)
      → i + n ≡ 6
      → Answers mmio dev sized
      → s.mmio32_alloc + n * 2 ^ 25 ≤ 2 ^ 32
      → (skip ≡ true
          → (dev.bar i ≡ 0)
            × (told w dev s.devices i ≡ 0)
            × (0 < i)
            × (is_mem64 (sized (i - 1)) ≡ true))
      → Left n i skip dev s
  unfolding assign_from
  assign_from-Left zero i skip dev s six a low upper = (
    record {
      grows = omega arith;
      bounded = omega arith;
      each = λ j h h' m. absurd (omega arith);
      ordered = λ j k h h' h'' m m' nonzero nonzero'. absurd (omega arith);
    },
    λ j h h' m. absurd (omega arith),
    λ j h. (refl, refl),
  )
  assign_from-Left (suc n) i true dev s six a low upper =
      let (l, laid, kept) =
        assign_from-Left n (i + 1) false dev s (omega arith) a (omega arith) (λ e. absurd (cc e)) in
      let (none, silent, positive, wide) = upper refl in
      let (same, same') = kept i (omega arith) in
      (
        Laid-skip (same ∙ none) positive wide l,
        Told-suc n i dev _ _ (λ m. same' ∙ silent ∙ sym none ∙ sym same) laid,
        λ j h. kept j (omega arith),
      )
  assign_from-Left (suc n) i false dev s six a low upper =
      let g = assign_bar-Assigned mmio w sized i dev s (omega arith) a (omega arith) in
      let before : i + 1 - 1 ≡ i = omega arith in
      let r = assign_bar mmio i dev s in
      let again : (d : D) (j : ℕ) → told w r.1 d j ≡ told w dev d j =
        λ d j. told-slot w dev r.1 d j g.slot in
      let (l, laid, kept) =
        assign_from-Left n (i + 1) r.0 r.1 r.2 (omega arith) (Answers-slot g.slot a)
          (omega (arith, g.bounded))
          (λ e.
            let (none, silent, wide) = g.next e in
            (none, again r.2.devices (i + 1) ∙ silent, omega arith, rw before wide)) in
      let (same, same') = kept i (omega arith) in
      let final = (assign_from mmio n (i + 1) r.0 r.1 r.2).1.devices in
      let still : (j : ℕ) → j < i + 1 → told w dev final j ≡ told w dev r.2.devices j =
        λ j h. sym (again final j) ∙ (kept j h).1 ∙ again r.2.devices j in
      (
        Laid-suc _ g.grows g.bounded (λ m. rw same (g.here m)) l,
        Told-suc n i dev _ _ (λ m. still i (omega arith) ∙ g.told_here m ∙ sym same)
            (λ j h h' m. sym (again final j) ∙ laid j h h' m),
        λ j h. ((kept j (omega arith)).0 ∙ g.kept j h, still j (omega arith) ∙ g.told_before j h),
      )

  -- `pci_assign_bars` for a device whose memory registers ask for powers of two of at most 16
  -- megabytes, with room below 4 gigabytes: the allocator moves up, and each memory register that is
  -- not the upper half of a 64-bit one gets a multiple of its size, where the region of that size lies
  -- between the allocator's old place and its new one; regions of later registers lie behind those of
  -- earlier ones, so that no two overlap. The value that was last written to each memory register of
  -- the device itself is the one in its record.
  pub pci_assign_bars-Laid :
      (dev : PciDevice) (s : Pci D)
      → Answers mmio dev sized
      → s.mmio32_alloc + 6 * 2 ^ 25 ≤ 2 ^ 32
      → let r = pci_assign_bars mmio dev s in
        Laid sized 6 0 s.mmio32_alloc r.1.mmio32_alloc r.0.bar × Told 6 0 dev r.1.devices r.0.bar
  unfolding pci_assign_bars
  pci_assign_bars-Laid dev s a low =
      let (l, laid, kept) = assign_from-Left 6 0 false dev s refl a low (λ e. absurd (cc e)) in
      (l, laid)
