-- ===== src/Pci/Register.antt =====
-- One register of a device: the region that it gets.
use archarch.Base.{
  ℕ, ◌+◌, ◌-◌, ◌*◌, ◌/◌, ◌%◌, ◌^◌, ◌≤◌, ◌<◌, ◌≡◌, inl, inr, refl, sym, ◌∙◌, arith, Bool, true,
  false, not, ◌&&◌, Bool-cases, upd,
}
use native.Mathlib.Nat.{mul-mod_left, div-add-mod', mod-lt}
use archarch.Base.Word.{add64, sub64}
use archarch.Base.Bits.{and_bits-mask, power_positive}
use archarch.Pci.{
  Mmio, PciDevice, Pci, align_up, mem_size, is_absent, is_io, is_mem64, set_bar, alloc_mmio32,
  alloc_pio, bar_reg, probe, assign_io, assign_mem64, assign_mem32, assign_bar,
}
use archarch.Pci.Writes.{Writes, told, told-write}

-- A power of two, of at most 16 megabytes.
pub record IsSize (size : ℕ) : Type 0 where
  pub bits : ℕ
  pub is : size ≡ 2 ^ bits
  pub small : size ≤ 2 ^ 24
  pub few : bits ≤ 64

next_multiple :
    (p x : ℕ)
    → 0 < p
    → ((x + p - 1) / p * p % p ≡ 0) × (x ≤ (x + p - 1) / p * p) × ((x + p - 1) / p * p < x + p)
next_multiple p x positive =
    let whole = div-add-mod' (x + p - 1) p in
    let rest = mod-lt (x + p - 1) positive in
    (
      mul-mod_left ((x + p - 1) / p) p,
      omega (arith, whole, rest, positive),
      omega (arith, whole, rest, positive),
    )

-- `align_up` goes on to the next multiple of the size.
align_up_lem :
    (size x : ℕ)
    → IsSize size
    → x < 2 ^ 32
    → (align_up size x % size ≡ 0) × (x ≤ align_up size x) × (align_up size x < x + size)
unfolding align_up
align_up_lem size x s low =
    let positive : 0 < size = omega (arith, s.is, power_positive s.bits) in
    let sum : sub64 (add64 x size) 1 ≡ x + size - 1 = omega (arith, s.small, positive) in
    let mask : sub64 0 size ≡ 2 ^ 64 - 2 ^ s.bits = omega (arith, s.is, s.small, positive) in
    let e = and_bits-mask 64 s.bits (x + size - 1) s.few (omega (arith, s.small)) in
    let up : align_up size x ≡ (x + size - 1) / size * size =
      rw (sum, mask, align_up) (e ∙ rw (sym s.is) refl) in
    rw up (next_multiple size x positive)

abbrev pub is_memory : ℕ → Bool
is_memory sized = not (is_absent sized) && not (is_io sized)

-- What one register changes, where `t` and `t'` are what the registers of the device were told
-- before and after. `here` is about a memory register, `next` about a 64-bit one.
pub record Assigned (i sized lo hi : ℕ) (skip : Bool) (dev dev' : PciDevice) (t t' : ℕ → ℕ)
    : Type 0 where
  pub told_before : (j : ℕ) → j < i → t' j ≡ t j
  pub told_here : is_memory sized ≡ true → t' i ≡ dev'.bar i
  pub kept : (j : ℕ) → j < i → dev'.bar j ≡ dev.bar j
  pub slot : (dev'.bus ≡ dev.bus) × (dev'.dev ≡ dev.dev) × (dev'.func ≡ dev.func)
  pub grows : lo ≤ hi
  pub bounded : hi ≤ lo + 2 ^ 25
  pub next : skip ≡ true → (dev'.bar (i + 1) ≡ 0) × (t' (i + 1) ≡ 0) × (is_mem64 sized ≡ true)
  pub here :
      is_memory sized ≡ true
      → (dev'.bar i % mem_size sized ≡ 0) × (lo ≤ dev'.bar i) × (dev'.bar i + mem_size sized ≡ hi)

-- A register that is not for memory.
other-Assigned :
    (i sized lo value addr : ℕ) (dev : PciDevice) (t t' : ℕ → ℕ)
    → ((j : ℕ) → j < i → t' j ≡ t j)
    → is_memory sized ≡ false
    → Assigned i sized lo lo false dev (set_bar i value addr dev) t t'
unfolding set_bar
other-Assigned i sized lo value addr dev t t' quiet other = record {
  told_before = quiet;
  told_here = λ m. absurd (cc (m, other));
  kept = λ j h. ground arith;
  slot = (refl, refl, refl);
  grows = omega arith;
  bounded = omega arith;
  next = λ e. absurd (cc e);
  here = λ m. absurd (cc (m, other));
}

-- The state of the allocator behind a region, and the register's value.
module _ {D : Type 0} (mmio : Mmio D) (w : Writes mmio) (i sized : ℕ) (dev : PciDevice) (s : Pci D)
    (t : ℕ → ℕ) (quiet : (j : ℕ) → j < i → told w dev s.devices j ≡ t j)
    (size : IsSize (mem_size sized)) (low : s.mmio32_alloc + 2 ^ 25 ≤ 2 ^ 32) where
  abbrev at : ℕ
  at = align_up (mem_size sized) s.mmio32_alloc

  placed :
      (at % mem_size sized ≡ 0)
      × (s.mmio32_alloc ≤ at)
      × (at + mem_size sized ≤ s.mmio32_alloc + 2 ^ 25)
      × (at % 2 ^ 32 ≡ at)
      × (add64 at (mem_size sized) ≡ at + mem_size sized)
  placed =
      let (even, above, near) = align_up_lem (mem_size sized) s.mmio32_alloc size (omega arith) in
      (
        even,
        above,
        omega (arith, near, size.small),
        omega (arith, near, size.small),
        omega (arith, near, size.small),
      )

  assign_mem32-Assigned :
      let r = assign_mem32 mmio i sized dev s in
      Assigned i sized s.mmio32_alloc r.1.mmio32_alloc false dev r.0 t (told w dev r.1.devices)
  unfolding assign_mem32 alloc_mmio32 set_bar
  assign_mem32-Assigned =
      let (even, above, near, same, sum) = placed in
      let value : upd dev.bar i (at % 2 ^ 32) i ≡ at = ground (arith, same) in
      record {
        kept = λ j h. ground arith;
        slot = (refl, refl, refl);
        grows = omega (arith, above, sum);
        bounded = omega (arith, near, sum);
        next = λ e. absurd (cc e);
        told_before =
            λ j h. ground (arith, told-write w dev s.devices i j (at % 2 ^ 32), quiet j h);
        told_here = λ m. ground (arith, told-write w dev s.devices i i (at % 2 ^ 32));
        here = λ m. rw (value, sum) (even, above, refl);
      }

  assign_mem64-Assigned :
      is_mem64 sized ≡ true
      → let r = assign_mem64 mmio i sized dev s in
        Assigned i sized s.mmio32_alloc r.1.mmio32_alloc true dev r.0 t (told w dev r.1.devices)
  unfolding assign_mem64 alloc_mmio32 set_bar
  assign_mem64-Assigned wide =
      let (even, above, near, same, sum) = placed in
      let d1 = mmio.mmio_write32 (bar_reg mmio dev i) (at % 2 ^ 32) s.devices in
      let value : upd (upd dev.bar i (at % 2 ^ 32)) (i + 1) 0 i ≡ at = ground (arith, same) in
      record {
        kept = λ j h. ground arith;
        slot = (refl, refl, refl);
        grows = omega (arith, above, sum);
        bounded = omega (arith, near, sum);
        next = λ e. (ground arith, ground (arith, told-write w dev d1 (i + 1) (i + 1) 0), wide);
        told_before = λ j h. ground (
          arith,
          told-write w dev d1 (i + 1) j 0,
          told-write w dev s.devices i j (at % 2 ^ 32),
          quiet j h,
        );
        told_here = λ m.
            ground (
              arith,
              told-write w dev d1 (i + 1) i 0,
              told-write w dev s.devices i i (at % 2 ^ 32),
            );
        here = λ m. rw (value, sum) (even, above, refl);
      }

-- What the registers of a device answer when all ones were written to them: their sizes.
pub record Answers {D : Type 0} (mmio : Mmio D) (dev : PciDevice) (sized : ℕ → ℕ) : Type 0 where
  pub tells :
      (i : ℕ)
      → i < 6
      → (d : D)
      → mmio.mmio_read32 (bar_reg mmio dev i) (mmio.mmio_write32 (bar_reg mmio dev i) 0xFFFFFFFF d)
        ≡ sized i
  pub sizes : (i : ℕ) → i < 6 → is_memory (sized i) ≡ true → IsSize (mem_size (sized i))

-- The registers of the device stay where they are.
pub Answers-slot :
    {D : Type 0} {mmio : Mmio D} {dev dev' : PciDevice} {sized : ℕ → ℕ}
    → (dev'.bus ≡ dev.bus) × (dev'.dev ≡ dev.dev) × (dev'.func ≡ dev.func)
    → Answers mmio dev sized
    → Answers mmio dev' sized
Answers-slot (e, e', e'') a = record {
  tells = λ i h d. rw (e, e', e'') (a.tells i h d);
  sizes = a.sizes;
}

module _ {D : Type 0} (mmio : Mmio D) (w : Writes mmio) (sized : ℕ → ℕ) where
  -- Only register `i` is told something.
  quiet_here :
      (i j v : ℕ) (dev : PciDevice) (d : D)
      → j < i
      → told w dev (mmio.mmio_write32 (bar_reg mmio dev i) v d) j ≡ told w dev d j
  quiet_here i j v dev d h = ground (arith, told-write w dev d i j v)

  pub assign_bar-Assigned :
      (i : ℕ) (dev : PciDevice) (s : Pci D)
      → i < 6
      → Answers mmio dev sized
      → s.mmio32_alloc + 2 ^ 25 ≤ 2 ^ 32
      → let r = assign_bar mmio i dev s in
        Assigned i
          (sized i)
          s.mmio32_alloc
          r.2.mmio32_alloc
          r.0
          dev
          r.1
          (told w dev s.devices)
          (told w dev r.2.devices)
  unfolding assign_bar probe assign_io alloc_pio
  assign_bar-Assigned i dev s h a low =
      let t = told w dev s.devices in
      let r = probe mmio dev i s in
      let quiet : (j : ℕ) → j < i → told w dev r.1.devices j ≡ t j = λ j h'.
        quiet_here i j (mmio.mmio_read32 (bar_reg mmio dev i) s.devices) dev _ h'
        ∙ quiet_here i j 0xFFFFFFFF dev s.devices h' in
      rw (a.tells i h s.devices) (elim (Bool-cases (is_absent (sized i))) [
        | inl e ↦ rw e (other-Assigned i (sized i) _ 0 0 dev t _ quiet (ground (arith, e)))
        | inr e ↦ elim (Bool-cases (is_io (sized i))) [
          | inl e' ↦
              rw (e, e')
                (other-Assigned i (sized i) _ _ _ dev t _
                  (λ j h'. quiet_here i j _ dev _ h' ∙ quiet j h') (ground (arith, e, e')))
          | inr e' ↦
              let size = a.sizes i h (ground (arith, e, e')) in
              elim (Bool-cases (is_mem64 (sized i))) [
                | inl wide ↦
                    rw (e, e', wide)
                      (assign_mem64-Assigned mmio w i (sized i) dev r.1 t quiet size low wide)
                | inr narrow ↦
                    rw (e, e', narrow)
                      (assign_mem32-Assigned mmio w i (sized i) dev r.1 t quiet size low)
              ]
        ]
      ])
