-- ===== src/Pci/Tests.antt =====
-- A device with two memory registers.
use archarch.Base.{ℕ, ◌+◌, ◌*◌, ◌/◌, refl, arith, ◌==◌, if◌then◌else◌, upd}
use native.Mathlib.Decide.{ℕ_discrete}
use archarch.Pci.{Mmio, PciDevice, Pci, pci_ecam_addr, pci_assign_bars, find_from}
use archarch.Pci.Register.{Answers}
use archarch.Pci.Writes.{Writes}
use archarch.Pci.Regions.{Laid, Told, pci_assign_bars-Laid}
use archarch.Pci.Find.{FirstFound, find_from-FirstFound}

abbrev register : ℕ → ℕ
register i = pci_ecam_addr 0 2 0 (0x10 + i * 4)

-- Register 0 is for 4 kilobytes, register 4 for 16, with 64-bit addresses.
abbrev mmio : Mmio (ℕ → ℕ)
mmio = record {
  mmio_read8 = λ a d. 1;
  mmio_read16 = λ a d. if a == pci_ecam_addr 0 2 0 0 then 0x1AF4 else 0x1042;
  mmio_read32 = λ a d.
      if a == register 0
      then d a / 0x1000 * 0x1000
      else if a == register 4
      then d a / 0x4000 * 0x4000 + 4
      else 0;
  mmio_write16 = λ a v d. upd d a v;
  mmio_write32 = λ a v d. upd d a v;
}

abbrev device : PciDevice
device = record {
  bus = 0;
  dev = 2;
  func = 0;
  vendor_id = 0x1AF4;
  device_id = 0x1042;
  irq_pin = 0;
  bar = λ i. 0;
  bar_addr = λ i. 0;
}

abbrev start : Pci (ℕ → ℕ)
start = record { mmio32_alloc = 0x11000000; pio_alloc = 0x3EFF1000; devices = λ a. 0 }

abbrev sized : ℕ → ℕ
sized i = if i == 0 then 0xFFFFF000 else if i == 4 then 0xFFFFC004 else 0

device-Answers : Answers mmio device sized
unfolding pci_ecam_addr
device-Answers = record {
  tells = λ i h d. ground arith;
  sizes = λ i h m. elim (ℕ_discrete i 0) [
    | yes e ↦ rw e (record { bits = 12; is = refl; small = omega arith; few = omega arith })
    | no ne ↦ elim (ℕ_discrete i 4) [
      | yes e ↦ rw e (record { bits = 14; is = refl; small = omega arith; few = omega arith })
      | no ne' ↦ absurd (ground (arith, ne, ne', m))
    ]
  ];
}

writes : Writes mmio
writes = record {
  last = λ a d. d a;
  write32 = λ a b v d. ground arith;
  write16 = λ a b v d. ground arith;
}

pci_assign_bars-Laid_example :
    let r = pci_assign_bars mmio device start in
    Laid sized 6 0 0x11000000 r.1.mmio32_alloc r.0.bar
    × Told mmio writes sized 6 0 device r.1.devices r.0.bar
pci_assign_bars-Laid_example =
    pci_assign_bars-Laid mmio writes sized device start device-Answers (omega arith)

find_from-FirstFound_example :
    FirstFound mmio writes 0x1001 0x1042 32 0 device start
      (find_from mmio 32 0 0x1001 0x1042 device start)
find_from-FirstFound_example = find_from-FirstFound mmio writes 0x1001 0x1042 32 0 device start
