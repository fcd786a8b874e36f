-- ===== src/Mmu/User.antt =====
-- The four tables of a new user address space, and what they mean: a well-formed tree that maps the
-- code and the stack and nothing else.
use archarch.Base.{
  ℕ, ◌+◌, ◌-◌, ◌*◌, ◌/◌, ◌%◌, ◌^◌, ◌≤◌, ◌<◌, ◌≡◌, ◌≢◌, ◌⊎◌, inl, inr, refl, sym, ◌∙◌, arith, true,
  ◌&&◌, ltb, leb, ◌==◌, if◌then◌else◌, Option, none, some, upd,
}
use native.Mathlib.Decide.{ℕ_discrete}
use archarch.Pmm.Valid.{IsValid}
use archarch.Mmu.{Space, is_table, target, table_entry, user_va_stack, user_va_code}
use archarch.Mmu.Entries.{IsAligned, page_entry-Names}
use archarch.Mmu.Alloc.{IsUsed, slot}
use archarch.Mmu.Tree.{Child, IsTree}
use archarch.Mmu.Walk.{
  translate, translate_fault1, translate_fault2, translate-mapped, l1_idx, l2_idx, l3_idx,
}
use archarch.Mmu.Step.{table_entry-Child, table_entry_valid}
use archarch.Mmu.Create.{leaf_entry}

-- What a user address translates to when `n` pages of code at `code_pa` and `k` pages of stack at
-- `stack_pa` are mapped.
abbrev pub user_map : (code_pa n stack_pa k va : ℕ) → Option ℕ
user_map code_pa n stack_pa k va =
    if leb user_va_code va && ltb va (user_va_code + n * 4096)
    then some (code_pa + (va - user_va_code))
    else if leb (user_va_stack - k * 4096) va && ltb va user_va_stack
    then some (stack_pa + (va - (user_va_stack - k * 4096)))
    else none

pub record Layout (l1 l2 l3 l3' code_pa n stack_pa k : ℕ) (s : Space) : Type 0 where
  pub valid : IsValid s.pmm
  pub used1 : IsUsed l1 s.pmm
  pub used2 : IsUsed l2 s.pmm
  pub used3 : IsUsed l3 s.pmm
  pub used4 : IsUsed l3' s.pmm
  pub apart12 : l1 ≢ l2
  pub apart13 : l1 ≢ l3
  pub apart14 : l1 ≢ l3'
  pub apart23 : l2 ≢ l3
  pub apart24 : l2 ≢ l3'
  pub apart34 : l3 ≢ l3'
  pub root : (j : ℕ) → j < 512 → slot l1 j s.mem ≡ (if 0 == j then table_entry l2 else 0)
  pub dir :
      (j : ℕ)
      → j < 512
      → slot l2 j s.mem ≡ (if 3 == j then table_entry l3' else if 2 == j then table_entry l3 else 0)
  pub code : (j : ℕ) → j < 512 → slot l3 j s.mem ≡ leaf_entry 0 n code_pa j
  pub stack : (j : ℕ) → j < 512 → slot l3' j s.mem ≡ leaf_entry (512 - k) k stack_pa j

module _ {l1 l2 l3 l3' code_pa n stack_pa k : ℕ} {s : Space}
    (l : Layout l1 l2 l3 l3' code_pa n stack_pa k s) where
  abbrev pub owner : ℕ → ℕ
  owner = upd (upd (upd (upd (λ q. 0) l1 0) l2 1) l3 515) l3' 516

  child2 : Child owner s.pmm (table_entry l2) 1
  child2 = table_entry-Child owner s.pmm l2 1 l.used2 (ground (arith, l.apart23, l.apart24))

  child3 : Child owner s.pmm (table_entry l3) 515
  child3 = table_entry-Child owner s.pmm l3 515 l.used3 (ground (arith, l.apart34))

  child4 : Child owner s.pmm (table_entry l3') 516
  child4 = table_entry-Child owner s.pmm l3' 516 l.used4 (ground arith)

  root_entry : slot l1 0 s.mem ≡ table_entry l2
  root_entry = l.root 0 (omega arith)

  target2 : target (table_entry l2) ≡ l2
  target2 = (table_entry_valid l2 s.pmm l.used2).1

  Layout-leaves :
      (j : ℕ)
      → j < 512
      → is_table (slot l2 j s.mem) ≡ true
      → Child owner s.pmm (slot l2 j s.mem) (513 + 0 * 512 + j)
  Layout-leaves j hj = elim (ℕ_discrete 3 j) [
    | yes e ↦ rw (sym e, l.dir 3 (omega arith)) (λ _. child4)
    | no ne ↦ elim (ℕ_discrete 2 j) [
      | yes e ↦ rw (sym e, l.dir 2 (omega arith)) (λ _. child3)
      | no ne' ↦
          let empty : slot l2 j s.mem ≡ 0 = l.dir j hj ∙ ground (arith, ne, ne') in
          λ is. absurd (ground (arith, is, empty))
    ]
  ]

  pub Layout-IsTree : IsTree l1 owner s
  Layout-IsTree = record {
    valid = l.valid;
    root = l.used1;
    place = ground (arith, l.apart12, l.apart13, l.apart14);
    dirs = λ i hi. elim (ℕ_discrete 0 i) [
      | yes e ↦ rw (sym e, root_entry) (λ _. child2)
      | no ne ↦
          let empty : slot l1 i s.mem ≡ 0 = l.root i hi ∙ ground (arith, ne) in
          λ is. absurd (ground (arith, is, empty))
    ];
    leaves = λ i j hi hj. elim (ℕ_discrete 0 i) [
      | yes e ↦ rw (sym e, root_entry, target2) (λ _. Layout-leaves j hj)
      | no ne ↦
          let empty : slot l1 i s.mem ≡ 0 = l.root i hi ∙ ground (arith, ne) in
          λ is. absurd (ground (arith, is, empty))
    ];
  }

  -- A walk that reaches one of the two lower tables.
  translate-leaf :
      (va t c m pa : ℕ)
      → l1_idx va ≡ 0
      → slot l2 (l2_idx va) s.mem ≡ table_entry t
      → Child owner s.pmm (table_entry t) (owner t)
      → is_table (table_entry t) ≡ true
      → target (table_entry t) ≡ t
      → slot t (l3_idx va) s.mem ≡ leaf_entry c m pa (l3_idx va)
      → IsAligned pa
      → pa + 512 * 4096 ≤ 2 ^ 48
      → translate l1 va s.mem ≡ (
          if leb c (l3_idx va) && ltb (l3_idx va) (c + m)
          then some (pa + (l3_idx va - c) * 4096 + va % 4096)
          else none)
  translate-leaf va t c m pa h1 h2 child is tgt h3 aligned low =
      let n = page_entry-Names (pa + (l3_idx va - c) * 4096) (omega arith) (omega arith) in
      translate-mapped l1 va (table_entry l2) (table_entry t) (leaf_entry c m pa (l3_idx va)) s.mem
        (rw h1 root_entry) (rw (child2.out, target2) h2) (rw (child.out, tgt) h3)
      ∙ ground (arith, (table_entry_valid l2 s.pmm l.used2).0, is, n.valid, n.out)

  translate-unmapped :
      (va : ℕ)
      → (l1_idx va ≢ 0) ⊎ ((l2_idx va ≢ 2) × (l2_idx va ≢ 3))
      → translate l1 va s.mem ≡ none
  translate-unmapped va away = elim (ℕ_discrete (l1_idx va) 0) [
    | no ne ↦
        let empty : slot l1 (l1_idx va) s.mem ≡ 0 =
          l.root (l1_idx va) (omega arith) ∙ ground (arith, ne) in
        translate_fault1 l1 va s.mem (ground (arith, empty))
    | yes e ↦
        let empty : slot l2 (l2_idx va) s.mem ≡ 0 =
          l.dir (l2_idx va) (omega arith) ∙ ground (arith, e, away) in
        translate_fault2 l1 va (table_entry l2) s.mem (rw e root_entry)
          (rw (child2.out, target2, empty) refl)
  ]

  module _ (aligned : IsAligned code_pa) (low : code_pa + 512 * 4096 ≤ 2 ^ 48)
      (aligned' : IsAligned stack_pa) (low' : stack_pa + 512 * 4096 ≤ 2 ^ 48) (few : n ≤ 512)
      (some' : 0 < k) (few' : k ≤ 512) where
    translate-code :
        (va : ℕ)
        → va < 2 ^ 39
        → va / 2 ^ 21 ≡ 2
        → translate l1 va s.mem ≡ user_map code_pa n stack_pa k va
    translate-code va hv h =
        translate-leaf va l3 0 n code_pa (omega arith)
          (let at : l2_idx va ≡ 2 = omega arith in rw at (l.dir 2 (omega arith)))
          (table_entry-Child owner s.pmm l3 _ l.used3 refl) ((table_entry_valid l3 s.pmm l.used3).0)
          ((table_entry_valid l3 s.pmm l.used3).1) (l.code (l3_idx va) (omega arith)) aligned low
        ∙ ground arith

    translate-stack :
        (va : ℕ)
        → va < 2 ^ 39
        → va / 2 ^ 21 ≡ 3
        → translate l1 va s.mem ≡ user_map code_pa n stack_pa k va
    translate-stack va hv h =
        translate-leaf va l3' (512 - k) k stack_pa (omega arith)
          (let at : l2_idx va ≡ 3 = omega arith in rw at (l.dir 3 (omega arith)))
          (table_entry-Child owner s.pmm l3' _ l.used4 refl)
          ((table_entry_valid l3' s.pmm l.used4).0) ((table_entry_valid l3' s.pmm l.used4).1)
          (l.stack (l3_idx va) (omega arith)) aligned' low'
        ∙ ground arith

    pub Layout-translate :
        (va : ℕ) → va < 2 ^ 39 → translate l1 va s.mem ≡ user_map code_pa n stack_pa k va
    Layout-translate va hv = elim (ℕ_discrete (va / 2 ^ 21) 2) [
      | yes e ↦ translate-code va hv e
      | no ne ↦ elim (ℕ_discrete (va / 2 ^ 21) 3) [
        | yes e ↦ translate-stack va hv e
        | no ne' ↦
            translate-unmapped va (elim (ℕ_discrete (l1_idx va) 0) [
              | no far ↦ inl far
              | yes e ↦ inr (λ e'. ne (omega arith), λ e'. ne' (omega arith))
            ])
            ∙ ground (arith, ne, ne')
      ]
    ]
