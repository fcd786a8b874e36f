-- ===== src/Pci/Writes.antt =====
-- What was last written to the registers of a device.
use archarch.Base.{ℕ, ◌≡◌, refl, ◌∙◌, arith, ◌==◌, if◌then◌else◌}
use archarch.Pci.{Mmio, PciDevice, pci_ecam_addr, bar_reg}

-- A view of the devices: what was last written at an address. A write changes it there, and nowhere
-- else.
pub record Writes {D : Type 0} (mmio : Mmio D) : Type 0 where
  pub last : ℕ → D → ℕ
  pub write32 :
      (a b v : ℕ) (d : D) → last b (mmio.mmio_write32 a v d) ≡ (if a == b then v else last b d)
  pub write16 :
      (a b v : ℕ) (d : D) → last b (mmio.mmio_write16 a v d) ≡ (if a == b then v else last b d)

-- What register `j` of the device was told last.
abbrev pub told : {D : Type 0} {mmio : Mmio D} → Writes mmio → PciDevice → D → ℕ → ℕ
told {mmio = mmio} w dev d j = w.last (bar_reg mmio dev j) d

bar_reg-eq :
    {D : Type 0} (mmio : Mmio D) (dev : PciDevice) (i j : ℕ)
    → (bar_reg mmio dev i == bar_reg mmio dev j) ≡ (i == j)
unfolding pci_ecam_addr
bar_reg-eq mmio dev i j = ground arith

pub told-write :
    {D : Type 0} {mmio : Mmio D} (w : Writes mmio) (dev : PciDevice) (d : D) (i j v : ℕ)
    → told w dev (mmio.mmio_write32 (bar_reg mmio dev i) v d) j
      ≡ (if i == j then v else told w dev d j)
told-write {mmio = mmio} w dev d i j v =
    w.write32 (bar_reg mmio dev i) (bar_reg mmio dev j) v d ∙ rw (bar_reg-eq mmio dev i j) refl

pub told-slot :
    {D : Type 0} {mmio : Mmio D} (w : Writes mmio) (dev dev' : PciDevice) (d : D) (j : ℕ)
    → (dev'.bus ≡ dev.bus) × (dev'.dev ≡ dev.dev) × (dev'.func ≡ dev.func)
    → told w dev' d j ≡ told w dev d j
told-slot w dev dev' d j (e, e', e'') = rw (e, e', e'') refl
