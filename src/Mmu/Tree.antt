-- ===== src/Mmu/Tree.antt =====
-- The invariant of a page table tree: the pages of its tables are pages that the allocator has given
-- out, and no two places of the tree share one. `owner` says for each page its place: 0 is the root,
-- 1 + i the table of the root's entry i, 513 + 512 * i + j the table of that one's entry j.
use archarch.Base.{
  ℕ, ◌+◌, ◌*◌, ◌<◌, ◌≡◌, ◌≢◌, ◌⊎◌, inl, inr, refl, sym, ap, ◌∙◌, arith, true, ◌&&◌, ◌==◌,
  if◌then◌else◌, Bool-cases,
}
use archarch.Pmm.{Pmm}
use archarch.Pmm.Valid.{IsValid}
use archarch.Mmu.{Space, is_table, target}
use archarch.Mmu.Entries.{out_address}
use archarch.Mmu.Alloc.{IsUsed, slot}
use archarch.Mmu.Walk.{
  translate, translate_fault1, translate_fault2, translate-mapped, l1_idx, l2_idx, l3_idx,
}

-- The entry `e` names the table of the place `k`.
pub record Child (owner : ℕ → ℕ) (p : Pmm) (e k : ℕ) : Type 0 where
  pub out : out_address e ≡ target e
  pub used : IsUsed (target e) p
  pub place : owner (target e) ≡ k

pub record IsTree (pgd : ℕ) (owner : ℕ → ℕ) (s : Space) : Type 0 where
  pub valid : IsValid s.pmm
  pub root : IsUsed pgd s.pmm
  pub place : owner pgd ≡ 0
  pub dirs :
      (i : ℕ)
      → i < 512
      → is_table (slot pgd i s.mem) ≡ true
      → Child owner s.pmm (slot pgd i s.mem) (1 + i)
  pub leaves :
      (i j : ℕ)
      → i < 512
      → j < 512
      → is_table (slot pgd i s.mem) ≡ true
      → is_table (slot (target (slot pgd i s.mem)) j s.mem) ≡ true
      → Child owner s.pmm (slot (target (slot pgd i s.mem)) j s.mem) (513 + i * 512 + j)

-- Of the pages in use, one entry of one page changes.
pub record Change (t i v : ℕ) (s s' : Space) : Type 0 where
  pub valid : IsValid s'.pmm
  pub keeps : (q : ℕ) → IsUsed q s.pmm → IsUsed q s'.pmm
  pub written :
      (q j : ℕ)
      → IsUsed q s.pmm
      → j < 512
      → slot q j s'.mem ≡ (if t == q && i == j then v else slot q j s.mem)

module _ {pgd : ℕ} {owner : ℕ → ℕ} {s s' : Space} {t i v k : ℕ} (tree : IsTree pgd owner s)
    (change : Change t i v s s') (at : owner t ≡ k) where
  -- An entry of another place keeps its value.
  slot_kept :
      (q j place : ℕ)
      → IsUsed q s.pmm
      → owner q ≡ place
      → j < 512
      → (place ≢ k) ⊎ (i ≢ j)
      → slot q j s'.mem ≡ slot q j s.mem
  slot_kept q j place used there hj apart = change.written q j used hj ∙ elim apart [
    | inl ne ↦
        let other : t ≢ q = λ e. ne (sym there ∙ sym (ap owner e) ∙ at) in ground (arith, other)
    | inr ne ↦ ground (arith, ne)
  ]

  pub root_kept : (j : ℕ) → j < 512 → (0 ≢ k) ⊎ (i ≢ j) → slot pgd j s'.mem ≡ slot pgd j s.mem
  root_kept j hj apart = slot_kept pgd j 0 tree.root tree.place hj apart

  pub dir_kept :
      (a j : ℕ)
      → a < 512
      → j < 512
      → is_table (slot pgd a s.mem) ≡ true
      → (1 + a ≢ k) ⊎ (i ≢ j)
      → slot (target (slot pgd a s.mem)) j s'.mem ≡ slot (target (slot pgd a s.mem)) j s.mem
  dir_kept a j ha hj is apart =
      let c = tree.dirs a ha is in
      slot_kept (target (slot pgd a s.mem)) j (1 + a) c.used c.place hj apart

  module _ (owner' : ℕ → ℕ) (extends : (q : ℕ) → IsUsed q s.pmm → owner' q ≡ owner q) where
    Child-kept : (e place : ℕ) → Child owner s.pmm e place → Child owner' s'.pmm e place
    Child-kept e place c = record {
      out = c.out;
      used = change.keeps (target e) c.used;
      place = extends (target e) c.used ∙ c.place;
    }

    pub old_dir :
        (a : ℕ)
        → a < 512
        → (0 ≢ k) ⊎ (i ≢ a)
        → is_table (slot pgd a s'.mem) ≡ true
        → Child owner' s'.pmm (slot pgd a s'.mem) (1 + a)
    old_dir a ha apart = rw (root_kept a ha apart) (λ is. Child-kept _ (1 + a) (tree.dirs a ha is))

    pub old_leaf :
        (a b : ℕ)
        → a < 512
        → b < 512
        → (0 ≢ k) ⊎ (i ≢ a)
        → (1 + a ≢ k) ⊎ (i ≢ b)
        → is_table (slot pgd a s'.mem) ≡ true
        → is_table (slot (target (slot pgd a s'.mem)) b s'.mem) ≡ true
        → Child owner' s'.pmm (slot (target (slot pgd a s'.mem)) b s'.mem) (513 + a * 512 + b)
    old_leaf a b ha hb apart apart' = rw (root_kept a ha apart) (λ is.
        rw (dir_kept a b ha hb is apart')
          (λ is'. Child-kept _ (513 + a * 512 + b) (tree.leaves a b ha hb is is')))

  -- A walk that does not meet the entry is not changed.
  pub translate_kept :
      (va : ℕ)
      → (0 ≢ k) ⊎ (i ≢ l1_idx va)
      → (1 + l1_idx va ≢ k) ⊎ (i ≢ l2_idx va)
      → (513 + l1_idx va * 512 + l2_idx va ≢ k) ⊎ (i ≢ l3_idx va)
      → translate pgd va s'.mem ≡ translate pgd va s.mem
  translate_kept va apart1 apart2 apart3 =
      let a = l1_idx va in
      let e1 = slot pgd a s.mem in
      let e2 = slot (target e1) (l2_idx va) s.mem in
      let same1 = root_kept a (omega arith) apart1 in
      elim (Bool-cases (is_table e1)) [
        | inr fault ↦
            translate_fault1 pgd va s'.mem (rw same1 fault)
            ∙ sym (translate_fault1 pgd va s.mem fault)
        | inl is ↦
            let c = tree.dirs a (omega arith) is in
            let same2 = dir_kept a (l2_idx va) (omega arith) (omega arith) is apart2 in
            elim (Bool-cases (is_table e2)) [
              | inr fault ↦
                  translate_fault2 pgd va e1 s'.mem same1 (rw (c.out, same2) fault)
                  ∙ sym (translate_fault2 pgd va e1 s.mem refl (rw c.out fault))
              | inl is2 ↦
                  let d = tree.leaves a (l2_idx va) (omega arith) (omega arith) is is2 in
                  let e3 = slot (target e2) (l3_idx va) s.mem in
                  let same3 =
                    slot_kept (target e2) (l3_idx va) _ d.used d.place (omega arith) apart3 in
                  translate-mapped pgd va e1 e2 e3 s'.mem same1 (rw c.out same2) (rw d.out same3)
                  ∙ sym
                      (translate-mapped pgd va e1 e2 e3 s.mem refl (rw c.out refl) (rw d.out refl))
            ]
      ]
