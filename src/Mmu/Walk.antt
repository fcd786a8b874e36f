-- ===== src/Mmu/Walk.antt =====
-- The translation of an address by the hardware, through three levels of tables, as a description
-- of what the tables mean: bits 38 to 30, 29 to 21 and 20 to 12 of the address select the entries.
-- A block entry, which mmu.c never writes, counts as a fault.
use archarch.Base.{
  ℕ, ◌+◌, ◌/◌, ◌%◌, ◌^◌, ◌≡◌, refl, arith, false, if◌then◌else◌, Option, none, some,
}
use archarch.Memory.{Memory}
use archarch.Mmu.{is_table}
use archarch.Mmu.Entries.{out_address}
use archarch.Mmu.Alloc.{slot}

abbrev pub l1_idx : ℕ → ℕ
l1_idx va = va / 2 ^ 30 % 512

abbrev pub l2_idx : ℕ → ℕ
l2_idx va = va / 2 ^ 21 % 512

abbrev pub l3_idx : ℕ → ℕ
l3_idx va = va / 2 ^ 12 % 512

unfoldable pub translate : (pgd va : ℕ) → Memory → Option ℕ
translate pgd va m =
    let e1 = slot pgd (l1_idx va) m in
    let e2 = slot (out_address e1) (l2_idx va) m in
    let e3 = slot (out_address e2) (l3_idx va) m in
    if is_table e1
    then (if is_table e2
        then (if is_table e3 then some (out_address e3 + va % 4096) else none)
        else none)
    else none

-- A walk whose entries are known.
pub translate-mapped :
    (pgd va e1 e2 e3 : ℕ) (m : Memory)
    → slot pgd (l1_idx va) m ≡ e1
    → slot (out_address e1) (l2_idx va) m ≡ e2
    → slot (out_address e2) (l3_idx va) m ≡ e3
    → translate pgd va m ≡ (
        if is_table e1
        then (if is_table e2
            then (if is_table e3 then some (out_address e3 + va % 4096) else none)
            else none)
        else none)
unfolding translate
translate-mapped pgd va e1 e2 e3 m h1 h2 h3 = rw (h1, h2, h3) refl

pub translate_fault1 :
    (pgd va : ℕ) (m : Memory)
    → is_table (slot pgd (l1_idx va) m) ≡ false
    → translate pgd va m ≡ none
unfolding translate
translate_fault1 pgd va m h = ground (arith, h)

pub translate_fault2 :
    (pgd va e1 : ℕ) (m : Memory)
    → slot pgd (l1_idx va) m ≡ e1
    → is_table (slot (out_address e1) (l2_idx va) m) ≡ false
    → translate pgd va m ≡ none
unfolding translate
translate_fault2 pgd va e1 m h1 h = rw (h1, h) (ground arith)

pub translate_fault3 :
    (pgd va e1 e2 : ℕ) (m : Memory)
    → slot pgd (l1_idx va) m ≡ e1
    → slot (out_address e1) (l2_idx va) m ≡ e2
    → is_table (slot (out_address e2) (l3_idx va) m) ≡ false
    → translate pgd va m ≡ none
unfolding translate
translate_fault3 pgd va e1 e2 m h1 h2 h = rw (h1, h2, h) (ground arith)
