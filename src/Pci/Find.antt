-- ===== src/Pci/Find.antt =====
-- The search for a virtio device: the loop of `pci_find_virtio_blk` and the others.
use archarch.Base.{
  ℕ, zero, suc, ◌+◌, ◌/◌, ◌%◌, ◌≢◌, sym, ==_refl, ==_ne, ◌≤◌, ◌<◌, ◌≡◌, ◌⊎◌, inl, inr, refl, ◌∙◌,
  arith, Bool, true, false, ◌&&◌, ◌||◌, ◌==◌, Bool-cases,
}
use native.Mathlib.Decide.{ℕ_discrete}
use archarch.Pci.{
  Mmio, PciDevice, Pci, pci_ecam_addr, assign_bar, assign_from, assign_io, assign_mem64,
  assign_mem32, set_bar, enabled, virtio_pci_vendor, vendor_at, device_at, found_at, flagged,
  find_from, pci_assign_bars, pci_enable_device,
}
use archarch.Pci.Writes.{Writes}

-- The same function of the same device.
record SameId (a b : PciDevice) : Type 0 where
  bus : b.bus ≡ a.bus
  dev : b.dev ≡ a.dev
  func : b.func ≡ a.func
  vendor : b.vendor_id ≡ a.vendor_id
  device : b.device_id ≡ a.device_id

SameId-trans : (a b c : PciDevice) → SameId a b → SameId b c → SameId a c
SameId-trans a b c e e' = record {
  bus = e'.bus ∙ e.bus;
  dev = e'.dev ∙ e.dev;
  func = e'.func ∙ e.func;
  vendor = e'.vendor ∙ e.vendor;
  device = e'.device ∙ e.device;
}

module _ {D : Type 0} (mmio : Mmio D) where
  assign_bar-SameId : (i : ℕ) (dev : PciDevice) (s : Pci D) → SameId dev (assign_bar mmio i dev s).1
  unfolding assign_bar assign_io assign_mem64 assign_mem32 set_bar
  assign_bar-SameId i dev s = record {
    bus = ground arith;
    dev = ground arith;
    func = ground arith;
    vendor = ground arith;
    device = ground arith;
  }

  assign_from-SameId :
      (n i : ℕ) (skip : Bool) (dev : PciDevice) (s : Pci D)
      → SameId dev (assign_from mmio n i skip dev s).0
  unfolding assign_from
  assign_from-SameId zero i skip dev s = record {
    bus = refl;
    dev = refl;
    func = refl;
    vendor = refl;
    device = refl;
  }
  assign_from-SameId (suc n) i true dev s = assign_from-SameId n (i + 1) false dev s
  assign_from-SameId (suc n) i false dev s =
      let r = assign_bar mmio i dev s in
      SameId-trans dev r.1 _ (assign_bar-SameId i dev s) (assign_from-SameId n (i + 1) r.0 r.1 r.2)

  pci_assign_bars-SameId : (dev : PciDevice) (s : Pci D) → SameId dev (pci_assign_bars mmio dev s).0
  unfolding pci_assign_bars
  pci_assign_bars-SameId dev s = assign_from-SameId 6 0 false dev s

module _ {D : Type 0} (mmio : Mmio D) (w : Writes mmio) (transitional modern : ℕ) where
  -- The device in the slot is of the kind that is looked for.
  abbrev pub is_wanted : ℕ → D → Bool
  is_wanted slot d =
      vendor_at mmio slot d == virtio_pci_vendor
      && (device_at mmio slot d == transitional || device_at mmio slot d == modern)

  -- The state behind the regions of the device in slot `k`.
  abbrev pub with_regions : ℕ → PciDevice → Pci D → PciDevice × Pci D
  with_regions k out s = pci_assign_bars mmio (found_at mmio k out s.devices) s

  -- The record of the device in slot `k`, and its command register: bits 0 to 2 are set, bit 10 is
  -- clear and the others are those that were read.
  pub record SetUp (k : ℕ) (out : PciDevice) (s : Pci D) (dev : PciDevice) (s' : Pci D)
      : Type 0 where
    pub slot : (dev.bus ≡ 0) × (dev.dev ≡ k) × (dev.func ≡ 0)
    pub vendor : dev.vendor_id ≡ vendor_at mmio k s.devices
    pub device : dev.device_id ≡ device_at mmio k s.devices
    pub regions :
        (dev.bar ≡ (with_regions k out s).0.bar)
        × (dev.bar_addr ≡ (with_regions k out s).0.bar_addr)
    pub handed_out : s'.mmio32_alloc ≡ (with_regions k out s).1.mmio32_alloc
    pub on : w.last (pci_ecam_addr 0 k 0 0x04) s'.devices % 8 ≡ 7
    pub interrupts : w.last (pci_ecam_addr 0 k 0 0x04) s'.devices / 1024 % 2 ≡ 0
    pub others :
        let read = mmio.mmio_read16 (pci_ecam_addr 0 k 0 0x04) (with_regions k out s).1.devices in
        let cmd = w.last (pci_ecam_addr 0 k 0 0x04) s'.devices in
        (cmd / 8 % 128 ≡ read / 8 % 128) × (cmd / 2048 ≡ read / 2048)
    pub elsewhere :
        (b : ℕ)
        → b ≢ pci_ecam_addr 0 k 0 0x04
        → w.last b s'.devices ≡ w.last b (with_regions k out s).1.devices
    pub pin : dev.irq_pin ≡ mmio.mmio_read8 (pci_ecam_addr 0 k 0 0x3D) s'.devices

  -- The first of the `n` slots from `slot` on that is wanted, or none of them.
  abbrev pub FirstFound : (n slot : ℕ) → PciDevice → Pci D → Bool × PciDevice × Pci D → Type 0
  FirstFound n slot out s r =
      ((k : ℕ) × (slot ≤ k)
        × (k < slot + n)
        × (is_wanted k s.devices ≡ true)
        × ((j : ℕ) → slot ≤ j → j < k → is_wanted j s.devices ≡ false)
        × (r.0 ≡ true)
        × SetUp k out s r.1 r.2)
      ⊎ (((j : ℕ) → slot ≤ j → j < slot + n → is_wanted j s.devices ≡ false)
          × (r ≡ (false, out, s)))

  enabled_lem :
      (cmd : ℕ)
      → (enabled mmio cmd % 8 ≡ 7)
        × (enabled mmio cmd / 1024 % 2 ≡ 0)
        × (enabled mmio cmd / 8 % 128 ≡ cmd / 8 % 128)
        × (enabled mmio cmd / 2048 ≡ cmd / 2048)
  enabled_lem cmd = (omega arith, omega arith, omega arith, omega arith)

  pci_enable_device-SetUp :
      (k : ℕ) (out : PciDevice) (s : Pci D)
      → let a = with_regions k out s in
        let r = pci_enable_device mmio a.0 a.1 in SetUp k out s r.0 r.1
  unfolding pci_enable_device
  pci_enable_device-SetUp k out s =
      let a = with_regions k out s in
      let id = pci_assign_bars-SameId mmio (found_at mmio k out s.devices) s in
      let reg : pci_ecam_addr a.0.bus a.0.dev a.0.func 0x04 ≡ pci_ecam_addr 0 k 0 0x04 =
        rw (id.bus, id.dev, id.func) refl in
      let cmd = mmio.mmio_read16 (pci_ecam_addr 0 k 0 0x04) a.1.devices in
      let there : w.last (pci_ecam_addr 0 k 0 0x04)
            (mmio.mmio_write16 (pci_ecam_addr 0 k 0 0x04) (enabled mmio cmd) a.1.devices)
          ≡ enabled mmio cmd =
        w.write16 (pci_ecam_addr 0 k 0 0x04) (pci_ecam_addr 0 k 0 0x04) (enabled mmio cmd)
          a.1.devices
        ∙ rw (==_refl (pci_ecam_addr 0 k 0 0x04)) refl in
      let (on, interrupts, low, high) = enabled_lem cmd in
      record {
        slot = (id.bus, id.dev, id.func);
        vendor = id.vendor;
        device = id.device;
        regions = (refl, refl);
        handed_out = refl;
        on = rw (reg, there) on;
        interrupts = rw (reg, there) interrupts;
        others = (rw (reg, there) low, rw (reg, there) high);
        elsewhere = λ b h. rw reg (
            w.write16 (pci_ecam_addr 0 k 0 0x04) b (enabled mmio cmd) a.1.devices
            ∙ rw (==_ne (pci_ecam_addr 0 k 0 0x04) b (λ e. h (sym e))) refl);
        pin = rw (id.bus, id.dev, id.func) refl;
      }

  found-SetUp :
      (n slot : ℕ) (out : PciDevice) (s : Pci D)
      → is_wanted slot s.devices ≡ true
      → let r = find_from mmio (suc n) slot transitional modern out s in
        (r.0 ≡ true) × SetUp slot out s r.1 r.2
  unfolding find_from
  found-SetUp n slot out s here =
      let a = with_regions slot out s in
      let hit : find_from mmio (suc n) slot transitional modern out s
          ≡ flagged mmio true (pci_enable_device mmio a.0 a.1) =
        ground (arith, here) in
      rw hit (refl, pci_enable_device-SetUp slot out s)

  later :
      (slot j : ℕ) (d : D)
      → is_wanted slot d ≡ false
      → (slot + 1 ≤ j → is_wanted j d ≡ false)
      → slot ≤ j
      → is_wanted j d ≡ false
  later slot j d here rest h = elim (ℕ_discrete j slot) [
    | yes e ↦ rw e here
    | no ne ↦ rest (omega arith)
  ]

  -- The search among `n` slots of the bus sets up the device in the first slot whose vendor and
  -- device number are those wanted, and tells so: the record has the device's place and numbers, the
  -- regions of `pci_assign_bars` and the interrupt pin that the device answers; the value last written
  -- to its command register has bits 0 to 2 set and bit 10 clear, with the other bits as they were
  -- read, and behind the regions nothing else was written. Without a device it changes nothing.
  pub find_from-FirstFound :
      (n slot : ℕ) (out : PciDevice) (s : Pci D)
      → FirstFound n slot out s (find_from mmio n slot transitional modern out s)
  unfolding find_from
  find_from-FirstFound zero slot out s = inr (λ j h h'. absurd (omega arith), refl)
  find_from-FirstFound (suc n) slot out s = elim (Bool-cases (is_wanted slot s.devices)) [
    | inl here ↦
        let (ok, up) = found-SetUp n slot out s here in
        inl (slot, omega arith, omega arith, here, λ j h h'. absurd (omega arith), ok, up)
    | inr other ↦
        let on : find_from mmio (suc n) slot transitional modern out s
            ≡ find_from mmio n (slot + 1) transitional modern out s =
          ground (arith, other) in
        elim (find_from-FirstFound n (slot + 1) out s) [
          | inl (k, lo, hi, is, before, ok, up) ↦ inl (
            k,
            omega arith,
            omega arith,
            is,
            λ j h h'. later slot j _ other (λ l. before j l h') h,
            rw on ok,
            rw on up,
          )
          | inr (before, e) ↦
              inr (λ j h h'. later slot j _ other (λ l. before j l (omega arith)) h, on ∙ e)
        ]
  ]
