-- ===== src/Mmu/Step.antt =====
-- One step of the walks in mmu.c: the table that an entry names, allocated if there is none.
use archarch.Base.{
  ℕ, ◌<◌, ◌≡◌, ◌≢◌, inl, inr, sym, ◌∙◌, arith, true, false, Option, none, some, Bool-cases,
}
use archarch.Kmalloc.{phys_to_virt}
use archarch.Pmm.{Pmm}
use archarch.Pmm.Valid.{IsValid}
use archarch.Mmu.{Space, is_table, target, table_entry, next_table, set_entry, put_mem}
use archarch.Mmu.Entries.{table_entry-Names}
use archarch.Mmu.Alloc.{
  IsUsed, IsUsed-IsPage, Fresh, slot, slot-set_entry, alloc_table-TableAllocated,
}
use archarch.Mmu.Tree.{Child, Change}

-- The entry `i` of the table at `t` now names the new, empty table at `pa`.
pub record Linked (t i pa : ℕ) (s s' : Space) : Type 0 where
  pub used : IsUsed pa s'.pmm
  pub was_free : ¬ IsUsed pa s.pmm
  pub change : Change t i (table_entry pa) s s'
  pub empty : (j : ℕ) → j < 512 → slot pa j s'.mem ≡ 0

-- What `table_entry` of a page in use says.
pub table_entry-Child :
    (owner : ℕ → ℕ) (p : Pmm) (pa k : ℕ)
    → IsUsed pa p
    → owner pa ≡ k
    → Child owner p (table_entry pa) k
table_entry-Child owner p pa k used place =
    let page = IsUsed-IsPage pa p used in
    let (n, same) = table_entry-Names pa page.aligned (omega (arith, page.below)) in
    record { out = n.out ∙ sym same; used = rw same used; place = rw same place }

pub table_entry_valid :
    (pa : ℕ) (p : Pmm)
    → IsUsed pa p
    → (is_table (table_entry pa) ≡ true) × (target (table_entry pa) ≡ pa)
table_entry_valid pa p used =
    let page = IsUsed-IsPage pa p used in
    let (n, same) = table_entry-Names pa page.aligned (omega (arith, page.below)) in (n.valid, same)

pub Fresh-Linked :
    (t i pa : ℕ) (s s1 : Space)
    → IsUsed t s.pmm
    → i < 512
    → Fresh pa s s1
    → Linked t i pa s (put_mem (set_entry (phys_to_virt t) i (table_entry pa) s1.mem) s1)
Fresh-Linked t i pa s s1 used hi f =
    let page = IsUsed-IsPage pa _ f.used in
    let at = IsUsed-IsPage t _ used in
    let word = (table_entry-Names pa page.aligned (omega (arith, page.below))).0.word in
    let other : (q : ℕ) → IsUsed q s.pmm → pa ≢ q = λ q u e. f.was_free (rw e u) in
    record {
      used = f.used;
      was_free = f.was_free;
      change = record {
        valid = f.valid;
        keeps = f.keeps;
        written = λ q j u hj.
            let page' = IsUsed-IsPage q _ u in
            slot-set_entry t i q j (table_entry pa) s1.mem at page' hi hj word
            ∙ ground (arith, f.cleared q j page' hj, other q u);
      };
      empty = λ j hj.
          slot-set_entry t i pa j (table_entry pa) s1.mem at page hi hj word
          ∙ ground (arith, f.cleared pa j page hj, other t used);
    }

-- The three outcomes of a step from the table at `t`.
pub data Stepped (t i : ℕ) (s : Space) (r : Option ℕ × Space) : Type 0 where
  existing :
      is_table (slot t i s.mem) ≡ true
      → r ≡ (some (phys_to_virt (target (slot t i s.mem))), s)
      → Stepped t i s r
  linked :
      (pa : ℕ) (s' : Space)
      → is_table (slot t i s.mem) ≡ false
      → Linked t i pa s s'
      → r ≡ (some (phys_to_virt pa), s')
      → Stepped t i s r
  failed : s.pmm.free_pages ≡ 0 → r ≡ (none, s) → Stepped t i s r

pub next_table-Stepped :
    (t i : ℕ) (s : Space)
    → IsValid s.pmm
    → IsUsed t s.pmm
    → i < 512
    → Stepped t i s (next_table (phys_to_virt t) i s)
unfolding next_table slot
next_table-Stepped t i s v used hi = elim (Bool-cases (is_table (slot t i s.mem))) [
  | inl is ↦ existing is (ground (arith, is))
  | inr new ↦ elim (alloc_table-TableAllocated s v) [
    | inl (ne, f) ↦
        linked _ _ new (unfold slot in Fresh-Linked t i _ s _ used hi f) (ground (arith, new, ne))
    | inr (e, same, full) ↦ failed full (ground (arith, new, e, same))
  ]
]
