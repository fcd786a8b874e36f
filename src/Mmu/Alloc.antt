-- ===== src/Mmu/Alloc.antt =====
-- Tables in the RAM: their entries by physical address, and what the allocation of one does.
use archarch.Base.{
  ℕ, ◌+◌, ◌-◌, ◌*◌, ◌^◌, ◌≤◌, ◌<◌, ◌≡◌, ◌≢◌, ◌⊎◌, inl, inr, refl, ap, ◌∙◌, arith, true, ◌&&◌, ltb,
  leb, ◌==◌, if◌then◌else◌, ==_ne,
}
use archarch.Memory.{Memory}
use archarch.Kmalloc.{phys_to_virt}
use archarch.Pmm.{Pmm, ram_base, ram_end, total_pages, page_to_addr, bit_test, alloc_page}
use archarch.Pmm.Valid.{IsValid}
use archarch.Pmm.Alloc.{alloc_page-eq}
use archarch.Pmm.Effect.{NoRun-free_pages, Taken, Succeeded, Failed, alloc_pages_effect}
use archarch.Mmu.{Space, entry, set_entry, zero_table, map_from, alloc_table, page_entry}
use archarch.Mmu.Entries.{IsAligned, entry-set_entry, entry-zero_table, entry-map_from}

-- A page of the RAM that the allocator has given out.
pub record IsUsed (pa : ℕ) (p : Pmm) : Type 0 where
  pub number : ℕ
  pub inside : number < total_pages
  pub is : pa ≡ page_to_addr number
  pub used : bit_test number p ≡ true

pub record IsPage (pa : ℕ) : Type 0 where
  pub aligned : IsAligned pa
  pub above : ram_base ≤ pa
  pub below : pa < ram_end

pub page_to_addr-eq : (n : ℕ) → n < total_pages → page_to_addr n ≡ ram_base + n * 4096
unfolding page_to_addr
page_to_addr-eq n h = omega arith

pub IsUsed-IsPage : (pa : ℕ) (p : Pmm) → IsUsed pa p → IsPage pa
IsUsed-IsPage pa p u = record {
  aligned = omega (arith, u, page_to_addr-eq u.number u.inside);
  above = omega (arith, u, page_to_addr-eq u.number u.inside);
  below = omega (arith, u, page_to_addr-eq u.number u.inside);
}

-- The entry `j` of the table at the physical address `pa`.
unfoldable pub slot : ℕ → ℕ → Memory → ℕ
slot pa j m = entry (phys_to_virt pa) j m

pub slot-set_entry :
    (p i q j v : ℕ) (m : Memory)
    → IsPage p
    → IsPage q
    → i < 512
    → j < 512
    → v < 2 ^ 64
    → slot q j (set_entry (phys_to_virt p) i v m) ≡ (if p == q && i == j then v else slot q j m)
unfolding slot
slot-set_entry p i q j v m hp hq hi hj hv =
    entry-set_entry (phys_to_virt p) i (phys_to_virt q) j v m (omega (arith, hp))
      (omega (arith, hq)) hi hj hv
    ∙ ground (arith, hp, hq)

pub slot-zero_table :
    (p q j : ℕ) (m : Memory)
    → IsPage p
    → IsPage q
    → j < 512
    → slot q j (zero_table (phys_to_virt p) m) ≡ (if p == q then 0 else slot q j m)
unfolding slot
slot-zero_table p q j m hp hq hj =
    entry-zero_table (phys_to_virt p) (phys_to_virt q) j m (omega (arith, hp)) (omega (arith, hq))
      hj
    ∙ ground (arith, hp, hq)

pub slot-map_from :
    (n c : ℕ) (at : ℕ → ℕ) (pa p q j : ℕ) (m : Memory)
    → ((k : ℕ) → k < 512 → c + k < 512 → at k ≡ c + k)
    → IsAligned pa
    → pa + 512 * 4096 ≤ 2 ^ 48
    → IsPage p
    → IsPage q
    → j < 512
    → c + n ≤ 512
    → slot q j (map_from n 0 at pa (phys_to_virt p) m) ≡ (
        if p == q && leb c j && ltb j (c + n) then page_entry (pa + (j - c) * 4096) else slot q j m)
unfolding slot
slot-map_from n c at pa p q j m step ha lo hp hq hj fits =
    entry-map_from n 0 c at pa (phys_to_virt p) (phys_to_virt q) j m step ha lo (omega (arith, hp))
      (omega (arith, hq)) hj (omega arith)
    ∙ ground (arith, hp, hq)

-- What the allocation of a table at `pa` does.
pub record Fresh (pa : ℕ) (s s' : Space) : Type 0 where
  pub valid : IsValid s'.pmm
  pub used : IsUsed pa s'.pmm
  pub was_free : ¬ IsUsed pa s.pmm
  pub keeps : (q : ℕ) → IsUsed q s.pmm → IsUsed q s'.pmm
  pub cleared :
      (q j : ℕ) → IsPage q → j < 512 → slot q j s'.mem ≡ (if pa == q then 0 else slot q j s.mem)
  pub counted : s'.pmm.free_pages + 1 ≡ s.pmm.free_pages

-- The two outcomes of `pmm_alloc_page` with `zero_table`.
abbrev pub TableAllocated : Space → ℕ × Space → Type 0
TableAllocated s (pa, s') =
    ((pa ≢ 0) × Fresh pa s s') ⊎ ((pa ≡ 0) × (s' ≡ s) × (s.pmm.free_pages ≡ 0))

same_page : (n k : ℕ) → n < total_pages → k < total_pages → page_to_addr n ≡ page_to_addr k → n ≡ k
same_page n k hn hk e = omega (arith, page_to_addr-eq n hn, page_to_addr-eq k hk)

alloc_page_effect : (p : Pmm) → IsValid p → Succeeded 1 p (alloc_page p) ⊎ Failed 1 p (alloc_page p)
alloc_page_effect p v = rw (alloc_page-eq p) (alloc_pages_effect 1 p v (omega arith))

Taken-IsUsed : (start : ℕ) (p q : Pmm) → Taken 1 start p q → IsUsed (page_to_addr start) q
Taken-IsUsed start p q t = record {
  number = start;
  inside = omega (arith, t.fits);
  is = refl;
  used = t.after start ∙ ground arith;
}

Taken-was_free : (start : ℕ) (p q : Pmm) → Taken 1 start p q → ¬ IsUsed (page_to_addr start) p
Taken-was_free start p q t u =
    let e : start ≡ u.number = same_page start u.number (omega (arith, t.fits)) u.inside u.is in
    cc (ap (λ n. bit_test n p) e, u.used, t.before start (omega arith) (omega arith))

Taken-keeps : (start : ℕ) (p q : Pmm) → Taken 1 start p q → (pa : ℕ) → IsUsed pa p → IsUsed pa q
Taken-keeps start p q t pa u = record {
  number = u.number;
  inside = u.inside;
  is = u.is;
  used = t.after u.number ∙ ground (arith, u.used);
}

Taken-Fresh :
    (start : ℕ) (s : Space) (q : Pmm)
    → Taken 1 start s.pmm q
    → Fresh
        (page_to_addr start)
        s
        (record { pmm = q; mem = zero_table (phys_to_virt (page_to_addr start)) s.mem })
Taken-Fresh start s q t = record {
  valid = t.valid;
  used = Taken-IsUsed start s.pmm q t;
  was_free = Taken-was_free start s.pmm q t;
  keeps = Taken-keeps start s.pmm q t;
  cleared = λ u j page hj.
      slot-zero_table (page_to_addr start) u j s.mem
        (IsUsed-IsPage _ q (Taken-IsUsed start s.pmm q t)) page hj;
  counted = t.counted;
}

pub alloc_table-TableAllocated : (s : Space) → IsValid s.pmm → TableAllocated s (alloc_table s)
unfolding alloc_table
alloc_table-TableAllocated s v = elim (alloc_page_effect s.pmm v) [
  | inl (start, e, t) ↦
      let used = IsUsed-IsPage _ _ (Taken-IsUsed start s.pmm _ t) in
      rw (e, ==_ne (page_to_addr start) 0 (omega (arith, used.above)))
        (inl (omega (arith, used.above), Taken-Fresh start s _ t))
  | inr (e, same, none) ↦ rw (e, same) (inr (refl, refl, NoRun-free_pages s.pmm v none))
]
