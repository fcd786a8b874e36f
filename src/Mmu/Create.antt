-- ===== src/Mmu/Create.antt =====
-- `mmu_create_user_pgd`, table by table: what each of its blocks leaves in the tables.
use archarch.Base.{
  ℕ, ◌+◌, ◌-◌, ◌*◌, ◌/◌, ◌%◌, ◌^◌, ◌≤◌, ◌<◌, ◌≡◌, ◌≢◌, ◌⊎◌, inl, inr, refl, sym, ◌∙◌, arith, true,
  false, ◌&&◌, ltb, leb, ◌==◌, if◌then◌else◌, Option, none, some, Bool, ==_ne,
}
use mathlib.Core.Path.{subst}
use archarch.Base.Word.{sub64, mul32}
use archarch.Kmalloc.{phys_to_virt}
use archarch.Memory.{Memory}
use archarch.Pmm.{page_size}
use archarch.Pmm.Valid.{IsValid}
use archarch.Mmu.{
  Space, table_entry, page_entry, set_entry, put_mem, map_from, code_idx, stack_idx, map_code,
  map_stack, next_table, alloc_table, user_va_stack,
}
use archarch.Mmu.Entries.{IsAligned, table_entry-Names}
use archarch.Mmu.Alloc.{
  IsUsed, IsPage, IsUsed-IsPage, Fresh, slot, slot-set_entry, slot-map_from,
  alloc_table-TableAllocated,
}
use archarch.Mmu.Tree.{Change}

-- The entries of a table that maps `n` pages at `pa`, the first of them by the entry `c`.
abbrev pub leaf_entry : (c n pa j : ℕ) → ℕ
leaf_entry c n pa j = if leb c j && ltb j (c + n) then page_entry (pa + (j - c) * 4096) else 0

-- A table with these entries, in a new page at `t3`, that the entry `i` of the table at `t` names.
pub record Hung (t i t3 c n pa : ℕ) (s s' : Space) : Type 0 where
  pub used : IsUsed t3 s'.pmm
  pub was_free : ¬ IsUsed t3 s.pmm
  pub change : Change t i (table_entry t3) s s'
  pub contents : (j : ℕ) → j < 512 → slot t3 j s'.mem ≡ leaf_entry c n pa j
  pub counted : s'.pmm.free_pages + 1 ≡ s.pmm.free_pages

module _ (t i t3 c n pa : ℕ) {s s1 : Space} (at : ℕ → ℕ)
    (step : (k : ℕ) → k < 512 → c + k < 512 → at k ≡ c + k) (aligned : IsAligned pa)
    (low : pa + 512 * 4096 ≤ 2 ^ 48) (fits : c + n ≤ 512) (used : IsUsed t s.pmm) (hi : i < 512)
    (f : Fresh t3 s s1) where
  page : IsPage t3
  page = IsUsed-IsPage t3 _ f.used

  table : IsPage t
  table = IsUsed-IsPage t _ used

  word : table_entry t3 < 2 ^ 64
  word = (table_entry-Names t3 page.aligned (omega (arith, page.below))).0.word

  other : (q : ℕ) → IsUsed q s.pmm → t3 ≢ q
  other q u e = f.was_free (rw e u)

  abbrev fill : Memory → Memory
  fill m = map_from n 0 at pa (phys_to_virt t3) m

  abbrev link : Memory → Memory
  link m = set_entry (phys_to_virt t) i (table_entry t3) m

  -- What the two writes do, in either order, once their effect on memory is known.
  writes-Hung :
      (m : Memory)
      → ((q j : ℕ)
          → IsPage q
          → j < 512
          → slot q j m ≡ (
              if t == q && i == j
              then table_entry t3
              else if t3 == q
              then leaf_entry c n pa j
              else slot q j s.mem))
      → Hung t i t3 c n pa s (put_mem m s1)
  writes-Hung m effect = record {
    used = f.used;
    was_free = f.was_free;
    change = record {
      valid = f.valid;
      keeps = f.keeps;
      written = λ q j u hj. effect q j (IsUsed-IsPage q _ u) hj ∙ ground (arith, other q u);
    };
    contents = λ j hj. effect t3 j page hj ∙ ground (arith, other t used);
    counted = f.counted;
  }

  slot-fill :
      (q j : ℕ) (m : Memory)
      → IsPage q
      → j < 512
      → slot q j (fill m) ≡ (
          if t3 == q && leb c j && ltb j (c + n)
          then page_entry (pa + (j - c) * 4096)
          else slot q j m)
  slot-fill q j m hq hj = slot-map_from n c at pa t3 q j m step aligned low page hq hj fits

  slot-link :
      (q j : ℕ) (m : Memory)
      → IsPage q
      → j < 512
      → slot q j (link m) ≡ (if t == q && i == j then table_entry t3 else slot q j m)
  slot-link q j m hq hj = slot-set_entry t i q j (table_entry t3) m table hq hi hj word

  pub fill-link-Hung : Hung t i t3 c n pa s (put_mem (link (fill s1.mem)) s1)
  fill-link-Hung = writes-Hung _ (λ q j hq hj.
      ground
        (arith, slot-link q j (fill s1.mem) hq hj, slot-fill q j s1.mem hq hj, f.cleared q j hq hj))

  pub link-fill-Hung : Hung t i t3 c n pa s (put_mem (fill (link s1.mem)) s1)
  link-fill-Hung = writes-Hung _ (λ q j hq hj. ground (
    arith,
    slot-fill q j (link s1.mem) hq hj,
    slot-link q j s1.mem hq hj,
    f.cleared q j hq hj,
    other t used,
  ))

-- The two outcomes of a block that maps pages: false leaves everything as it was.
abbrev pub BlockMapped : (t i c n pa : ℕ) → Space → Bool × Space → Type 0
BlockMapped t i c n pa s (ok, s') =
    ((ok ≡ true) × (t3 : ℕ) × Hung t i t3 c n pa s s')
    ⊎ ((ok ≡ false) × (s' ≡ s) × (s.pmm.free_pages ≡ 0))

-- A step by an entry that names no table.
next_table-none :
    (t i : ℕ) (s : Space)
    → slot t i s.mem ≡ 0
    → (alloc_table s).0 ≡ 0
    → next_table (phys_to_virt t) i s ≡ (none, (alloc_table s).1)
unfolding next_table slot
next_table-none t i s empty e = rw (empty, e, next_table) refl

next_table-new :
    (t i : ℕ) (s : Space)
    → slot t i s.mem ≡ 0
    → (alloc_table s).0 ≢ 0
    → let (pa, s1) = alloc_table s in
      next_table (phys_to_virt t) i s
      ≡ (some (phys_to_virt pa), put_mem (set_entry (phys_to_virt t) i (table_entry pa) s1.mem) s1)
unfolding next_table slot
next_table-new t i s empty ne = rw (empty, ==_ne _ 0 ne, next_table) refl

module _ (n pa l2 : ℕ) (s : Space) (v : IsValid s.pmm) (used : IsUsed l2 s.pmm)
    (aligned : IsAligned pa) (low : pa + 512 * 4096 ≤ 2 ^ 48) (fits : n ≤ 512) where
  code_step : (k : ℕ) → k < 512 → 0 + k < 512 → code_idx k ≡ 0 + k
  unfolding code_idx
  code_step k hk hk' = omega arith

  pub map_code-BlockMapped : BlockMapped l2 2 0 n pa s (map_code pa n (phys_to_virt l2) s)
  unfolding map_code
  map_code-BlockMapped = elim (alloc_table-TableAllocated s v) [
    | inr (e, same, full) ↦ rw (e, same, map_code) (inr (refl, refl, full))
    | inl (ne, f) ↦
        rw (==_ne _ 0 ne, map_code)
          (inl (
            refl,
            _,
            fill-link-Hung l2 2 _ 0 n pa code_idx code_step aligned low (omega arith) used
                (omega arith) f,
          ))
  ]

  abbrev pub stack_base : ℕ
  stack_base = sub64 user_va_stack (mul32 n page_size)

  stack_step : 0 < n → (k : ℕ) → k < 512 → 512 - n + k < 512 → stack_idx stack_base k ≡ 512 - n + k
  unfolding stack_idx
  stack_step positive k hk hk' = omega arith

  -- What the stack's block does with the table that it has found or made.
  abbrev fill_stack : Option ℕ × Space → Bool × Space
  fill_stack r = elim r.0 [
    | none ↦ (false, r.1)
    | some l3 ↦ (true, put_mem (map_from n 0 (stack_idx stack_base) pa l3 r.1.mem) r.1)
  ]

  -- The stack's block, where no table is named by its entry yet.
  pub map_stack-BlockMapped :
      0 < n
      → slot l2 3 s.mem ≡ 0
      → BlockMapped l2 3 (512 - n) n pa s (map_stack pa n (phys_to_virt l2) s)
  unfolding map_stack
  map_stack-BlockMapped positive empty =
      let at3 : stack_base / 2 ^ 21 % 512 ≡ 3 = omega arith in
      let block : Option ℕ × Space → Type 0 =
        λ r. BlockMapped l2 3 (512 - n) n pa s (fill_stack r) in
      subst (λ i. block (next_table (phys_to_virt l2) i s)) (sym at3)
        (elim (alloc_table-TableAllocated s v) [
          | inr (e, same, full) ↦
              subst block (sym (next_table-none l2 3 s empty e)) (inr (refl, same, full))
          | inl (ne, f) ↦ subst block (sym (next_table-new l2 3 s empty ne)) (
              inl (
                refl,
                _,
                link-fill-Hung l2 3 _ (512 - n) n pa (stack_idx stack_base) (stack_step positive)
                    aligned low (omega arith) used (omega arith) f,
              ))
        ])
