-- ===== src/Pci.antt =====
-- PCI: pci.c and pci.h. The registers of the devices are a parameter, an interface that reads and
-- writes at addresses; what is printed is left out, and with it `pci_enumerate`.
pub mod Writes
pub mod Register
pub mod Regions
pub mod Find
mod Tests
use archarch.Base.{
  ℕ, zero, suc, ◌+◌, ◌-◌, ◌*◌, ◌/◌, ◌%◌, ◌^◌, Bool, true, false, not, ◌&&◌, ◌||◌, ◌==◌,
  if◌then◌else◌, upd,
}
use archarch.Base.Word.{add32, sub32, add64, sub64}
use archarch.Base.Bits.{and_bits}
use archarch.Kmalloc.{kern_va_offset, phys_to_virt}

-- Device registers: `mmio_read32` and the others of types.h.
pub record Mmio (D : Type 0) : Type 0 where
  pub mmio_read8 : ℕ → D → ℕ
  pub mmio_read16 : ℕ → D → ℕ
  pub mmio_read32 : ℕ → D → ℕ
  pub mmio_write16 : ℕ → ℕ → D → D
  pub mmio_write32 : ℕ → ℕ → D → D

pub record PciDevice : Type 0 where
  pub bus : ℕ
  pub dev : ℕ
  pub func : ℕ
  pub vendor_id : ℕ
  pub device_id : ℕ
  pub irq_pin : ℕ
  pub bar : ℕ → ℕ
  pub bar_addr : ℕ → ℕ

-- The two allocators, and the devices.
pub record Pci (D : Type 0) : Type 0 where
  pub mmio32_alloc : ℕ
  pub pio_alloc : ℕ
  pub devices : D

abbrev pub pci_ecam_base : ℕ
pci_ecam_base = 0x4010000000 + kern_va_offset

abbrev pub pci_mmio32_base_pa : ℕ
pci_mmio32_base_pa = 0x10000000

abbrev pub pci_pio_base_pa : ℕ
pci_pio_base_pa = 0x3EFF0000

abbrev pub pci_bar0 : ℕ
pci_bar0 = 0x10

abbrev pub virtio_pci_vendor : ℕ
virtio_pci_vendor = 0x1AF4

-- The fields do not overlap for a slot below 32, a function below 8 and an offset below 4096, so that
-- `|` is a sum.
unfoldable pub pci_ecam_addr : (bus dev func offset : ℕ) → ℕ
pci_ecam_addr bus dev func offset =
    pci_ecam_base + bus * 2 ^ 20 + dev * 2 ^ 15 + func * 2 ^ 12 + offset

-- `(x + size - 1) & ~((uintptr_t)size - 1)`
unfoldable pub align_up : (size x : ℕ) → ℕ
align_up size x = and_bits 64 (sub64 (add64 x size) 1) (sub64 0 size)

-- The size that an I/O register tells: `(~mask + 1) & 0xFFFF` with `mask = sized & 0xFFFFFFFC`.
abbrev pub io_size : ℕ → ℕ
io_size sized = sub32 0 (sized / 4 * 4) % 2 ^ 16

-- `~mask + 1` with `mask = sized & 0xFFFFFFF0`
abbrev pub mem_size : ℕ → ℕ
mem_size sized = sub32 0 (sized / 16 * 16)

abbrev pub is_absent : ℕ → Bool
is_absent sized = sized == 0 || sized == 0xFFFFFFFF

abbrev pub is_io : ℕ → Bool
is_io sized = sized % 2 == 1

-- `type == 0x02`
abbrev pub is_mem64 : ℕ → Bool
is_mem64 sized = sized / 2 % 4 == 2

-- An entry of both arrays. An index of 6, which a 64-bit register in the last place leads to, is
-- outside the arrays; here it is an entry that nothing reads.
unfoldable pub set_bar : (i value addr : ℕ) → PciDevice → PciDevice
set_bar i value addr dev = record dev {
  bar = upd dev.bar i value;
  bar_addr = upd dev.bar_addr i addr;
}

unfoldable pub pci_get_irq : PciDevice → ℕ
pci_get_irq dev = if dev.irq_pin == 0 then 0 else 3 + add32 (dev.irq_pin - 1) dev.dev % 4 + 32

module _ {D : Type 0} (mmio : Mmio D) where
  unfoldable pub alloc_mmio32 : ℕ → Pci D → ℕ × Pci D
  alloc_mmio32 size s =
      let addr = align_up size s.mmio32_alloc in (addr, record s { mmio32_alloc = add64 addr size })

  unfoldable pub alloc_pio : ℕ → Pci D → ℕ × Pci D
  alloc_pio size s =
      let addr = align_up size s.pio_alloc in (addr, record s { pio_alloc = add64 addr size })

  abbrev pub bar_reg : PciDevice → ℕ → ℕ
  bar_reg dev i = pci_ecam_addr dev.bus dev.dev dev.func (pci_bar0 + i * 4)

  abbrev pub write_bar : PciDevice → ℕ → ℕ → Pci D → Pci D
  write_bar dev i v s = record s { devices = mmio.mmio_write32 (bar_reg dev i) v s.devices }

  -- What the register answers after all ones were written to it; its value is then put back.
  unfoldable pub probe : PciDevice → ℕ → Pci D → ℕ × Pci D
  probe dev i s =
      let orig = mmio.mmio_read32 (bar_reg dev i) s.devices in
      let s1 = write_bar dev i 0xFFFFFFFF s in
      let sized = mmio.mmio_read32 (bar_reg dev i) s1.devices in (sized, write_bar dev i orig s1)

  unfoldable pub assign_io : (i sized : ℕ) → PciDevice → Pci D → PciDevice × Pci D
  assign_io i sized dev s =
      let r = alloc_pio (io_size sized) s in
      let pio_offset = sub64 r.0 pci_pio_base_pa % 2 ^ 32 in
      let value = if pio_offset % 2 == 1 then pio_offset else pio_offset + 1 in
      (set_bar i value (phys_to_virt r.0) dev, write_bar dev i value r.1)

  unfoldable pub assign_mem64 : (i sized : ℕ) → PciDevice → Pci D → PciDevice × Pci D
  assign_mem64 i sized dev s =
      let r = alloc_mmio32 (mem_size sized) s in
      let value = r.0 % 2 ^ 32 in
      (
        set_bar (i + 1) 0 0 (set_bar i value (phys_to_virt r.0) dev),
        write_bar dev (i + 1) 0 (write_bar dev i value r.1),
      )

  unfoldable pub assign_mem32 : (i sized : ℕ) → PciDevice → Pci D → PciDevice × Pci D
  assign_mem32 i sized dev s =
      let r = alloc_mmio32 (mem_size sized) s in
      let value = r.0 % 2 ^ 32 in
      (set_bar i value (phys_to_virt r.0) dev, write_bar dev i value r.1)

  abbrev pub flagged : Bool → PciDevice × Pci D → Bool × PciDevice × Pci D
  flagged b r = (b, r.0, r.1)

  -- The register `i`; true says that the next one is the upper half of a 64-bit address.
  unfoldable pub assign_bar : ℕ → PciDevice → Pci D → Bool × PciDevice × Pci D
  assign_bar i dev s =
      let r = probe dev i s in
      if is_absent r.0
      then (false, set_bar i 0 0 dev, r.1)
      else if is_io r.0
      then flagged false (assign_io i r.0 dev r.1)
      else if is_mem64 r.0
      then flagged true (assign_mem64 i r.0 dev r.1)
      else flagged false (assign_mem32 i r.0 dev r.1)

  -- The loop, with `n` registers left; `skip` is the `i++` of a 64-bit one before.
  unfoldable pub assign_from : (n i : ℕ) → (skip : Bool) → PciDevice → Pci D → PciDevice × Pci D
  assign_from zero i skip dev s = (dev, s)
  assign_from (suc n) i true dev s = assign_from n (i + 1) false dev s
  assign_from (suc n) i false dev s =
      let r = assign_bar i dev s in assign_from n (i + 1) r.0 r.1 r.2

  unfoldable pub pci_assign_bars : PciDevice → Pci D → PciDevice × Pci D
  pci_assign_bars = assign_from 6 0 false

  -- `cmd | 0x7`, and `& ~(1 << 10)`
  abbrev pub enabled : ℕ → ℕ
  enabled cmd = let on = cmd / 8 * 8 + 7 in on - on / 1024 % 2 * 1024

  unfoldable pub pci_enable_device : PciDevice → Pci D → PciDevice × Pci D
  pci_enable_device dev s =
      let reg = pci_ecam_addr dev.bus dev.dev dev.func 0x04 in
      let cmd = enabled (mmio.mmio_read16 reg s.devices) in
      let s1 = record s { devices = mmio.mmio_write16 reg cmd s.devices } in
      let pin = mmio.mmio_read8 (pci_ecam_addr dev.bus dev.dev dev.func 0x3D) s1.devices in
      (record dev { irq_pin = pin }, s1)

  abbrev pub vendor_at : ℕ → D → ℕ
  vendor_at slot d = mmio.mmio_read16 (pci_ecam_addr 0 slot 0 0x00) d

  abbrev pub device_at : ℕ → D → ℕ
  device_at slot d = mmio.mmio_read16 (pci_ecam_addr 0 slot 0 0x02) d

  abbrev pub found_at : ℕ → PciDevice → D → PciDevice
  found_at slot out d = record out {
    bus = 0;
    dev = slot;
    func = 0;
    vendor_id = vendor_at slot d;
    device_id = device_at slot d;
  }

  -- The loop that the functions below share, with `n` slots left.
  unfoldable pub find_from :
      (n slot transitional modern : ℕ) → PciDevice → Pci D → Bool × PciDevice × Pci D
  find_from zero slot transitional modern out s = (false, out, s)
  find_from (suc n) slot transitional modern out s =
      let id = device_at slot s.devices in
      let rest = find_from n (slot + 1) transitional modern out s in
      let a = pci_assign_bars (found_at slot out s.devices) s in
      if not (vendor_at slot s.devices == virtio_pci_vendor)
      then rest
      else if not (id == transitional) && not (id == modern)
      then rest
      else flagged true (pci_enable_device a.0 a.1)

  unfoldable pub pci_find_virtio_rng : PciDevice → Pci D → Bool × PciDevice × Pci D
  pci_find_virtio_rng = find_from 32 0 0x1005 0x1044

  unfoldable pub pci_find_virtio_blk : PciDevice → Pci D → Bool × PciDevice × Pci D
  pci_find_virtio_blk = find_from 32 0 0x1001 0x1042

  unfoldable pub pci_find_virtio_gpu : PciDevice → Pci D → Bool × PciDevice × Pci D
  pci_find_virtio_gpu = find_from 32 0 0x1050 0x1050

  unfoldable pub pci_find_virtio_net : PciDevice → Pci D → Bool × PciDevice × Pci D
  pci_find_virtio_net = find_from 32 0 0x1000 0x1041
