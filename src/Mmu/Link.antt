-- ===== src/Mmu/Link.antt =====
-- A new table, linked into a tree by its root or by a table below the root: the tree stays
-- well-formed, and no translation changes.
use archarch.Base.{
  ℕ, ◌+◌, ◌*◌, ◌<◌, ◌≡◌, ◌≢◌, ◌⊎◌, inl, inr, refl, sym, ◌∙◌, arith, true, false, upd,
}
use native.Mathlib.Decide.{ℕ_discrete}
use archarch.Mmu.{Space, is_table, target, table_entry}
use archarch.Mmu.Alloc.{IsUsed, slot}
use archarch.Mmu.Tree.{Child, IsTree, old_dir, old_leaf, root_kept, translate_kept}
use archarch.Mmu.Walk.{
  translate, translate_fault1, translate_fault2, translate_fault3, l1_idx, l2_idx, l3_idx,
}
use archarch.Mmu.Step.{Linked, table_entry-Child, table_entry_valid}

abbrev pub SameWalks : ℕ → Space → Space → Type 0
SameWalks pgd s s' = (va : ℕ) → translate pgd va s'.mem ≡ translate pgd va s.mem

-- After a step from the root: the entry `a` names the table at `t`.
pub record Dir (pgd a t : ℕ) (s s' : Space) : Type 0 where
  pub owner : ℕ → ℕ
  pub tree : IsTree pgd owner s'
  pub is : is_table (slot pgd a s'.mem) ≡ true
  pub names : target (slot pgd a s'.mem) ≡ t
  pub same : SameWalks pgd s s'

-- After the second step: that table's entry `b` names the table at `t`.
pub record Leaf (pgd a b t : ℕ) (s s' : Space) : Type 0 where
  pub owner : ℕ → ℕ
  pub tree : IsTree pgd owner s'
  pub is : is_table (slot pgd a s'.mem) ≡ true
  pub is2 : is_table (slot (target (slot pgd a s'.mem)) b s'.mem) ≡ true
  pub names : target (slot (target (slot pgd a s'.mem)) b s'.mem) ≡ t
  pub same : SameWalks pgd s s'

not_table : (e : ℕ) → e ≡ 0 → is_table e ≡ false
not_table e h = ground (arith, h)

module _ {pgd : ℕ} {owner : ℕ → ℕ} {s s' : Space} {a pa : ℕ} (tree : IsTree pgd owner s) where
  module _ (ha : a < 512) (new : is_table (slot pgd a s.mem) ≡ false)
      (link : Linked pgd a pa s s') where
    owner1 : ℕ → ℕ
    owner1 = upd owner pa (1 + a)

    extends1 : (q : ℕ) → IsUsed q s.pmm → owner1 q ≡ owner q
    unfolding owner1
    extends1 q u = let other : pa ≢ q = λ e. link.was_free (rw e u) in ground (arith, other)

    root_entry : slot pgd a s'.mem ≡ table_entry pa
    root_entry = link.change.written pgd a tree.root ha ∙ ground arith

    place1 : owner1 pa ≡ 1 + a
    unfolding owner1
    place1 = ground arith

    linked_empty : (j : ℕ) → j < 512 → is_table (slot (target (table_entry pa)) j s'.mem) ≡ false
    linked_empty j hj =
        rw ((table_entry_valid pa s'.pmm link.used).1) (not_table _ (link.empty j hj))

    linked1-IsTree : IsTree pgd owner1 s'
    linked1-IsTree = record {
      valid = link.change.valid;
      root = link.change.keeps pgd tree.root;
      place = extends1 pgd tree.root ∙ tree.place;
      dirs = λ i hi. elim (ℕ_discrete a i) [
        | yes e ↦
            rw (sym e, root_entry)
              (λ _. table_entry-Child owner1 s'.pmm pa (1 + a) link.used place1)
        | no ne ↦ old_dir tree link.change tree.place owner1 extends1 i hi (inr ne)
      ];
      leaves = λ i j hi hj. elim (ℕ_discrete a i) [
        | yes e ↦ rw (sym e, root_entry) (λ _ is. absurd (cc (is, linked_empty j hj)))
        | no ne ↦
            old_leaf tree link.change tree.place owner1 extends1 i j hi hj (inr ne)
              (inl (omega arith))
      ];
    }

    linked1-SameWalks : SameWalks pgd s s'
    linked1-SameWalks va = elim (ℕ_discrete a (l1_idx va)) [
      | no ne ↦
          translate_kept tree link.change tree.place va (inr ne) (inl (omega arith))
            (inl (omega arith))
      | yes e ↦
          translate_fault2 pgd va (table_entry pa) s'.mem (rw (sym e) root_entry) (
            rw ((table_entry-Child owner1 s'.pmm pa (1 + a) link.used place1).out)
              (linked_empty (l2_idx va) (omega arith)))
          ∙ sym (translate_fault1 pgd va s.mem (rw (sym e) new))
    ]

    pub linked-Dir : Dir pgd a pa s s'
    linked-Dir = record {
      owner = owner1;
      tree = linked1-IsTree;
      is = rw root_entry ((table_entry_valid pa s'.pmm link.used).0);
      names = rw root_entry ((table_entry_valid pa s'.pmm link.used).1);
      same = linked1-SameWalks;
    }

  module _ {b : ℕ} (ha : a < 512) (hb : b < 512) (up : is_table (slot pgd a s.mem) ≡ true)
      (new : is_table (slot (target (slot pgd a s.mem)) b s.mem) ≡ false)
      (link : Linked (target (slot pgd a s.mem)) b pa s s') where
    owner2 : ℕ → ℕ
    owner2 = upd owner pa (513 + a * 512 + b)

    extends2 : (q : ℕ) → IsUsed q s.pmm → owner2 q ≡ owner q
    unfolding owner2
    extends2 q u = let other : pa ≢ q = λ e. link.was_free (rw e u) in ground (arith, other)

    dir : Child owner s.pmm (slot pgd a s.mem) (1 + a)
    dir = tree.dirs a ha up

    root_same : slot pgd a s'.mem ≡ slot pgd a s.mem
    root_same = root_kept tree link.change dir.place a ha (inl (omega arith))

    dir_entry : slot (target (slot pgd a s.mem)) b s'.mem ≡ table_entry pa
    dir_entry = link.change.written (target (slot pgd a s.mem)) b dir.used hb ∙ ground arith

    child2 : Child owner2 s'.pmm (table_entry pa) (513 + a * 512 + b)
    child2 =
        table_entry-Child owner2 s'.pmm pa (513 + a * 512 + b) link.used
          (unfold owner2 in ground arith)

    at_place : (i j : ℕ) → ((a ≡ i) × (b ≡ j)) ⊎ ((1 + i ≢ 1 + a) ⊎ (b ≢ j))
    at_place i j = elim (ℕ_discrete a i) [
      | no ne ↦ inr (inl (omega arith))
      | yes e ↦ elim (ℕ_discrete b j) [ yes e' ↦ inl (e, e') | no ne ↦ inr (inr ne) ]
    ]

    linked2-IsTree : IsTree pgd owner2 s'
    linked2-IsTree = record {
      valid = link.change.valid;
      root = link.change.keeps pgd tree.root;
      place = extends2 pgd tree.root ∙ tree.place;
      dirs = λ i hi. old_dir tree link.change dir.place owner2 extends2 i hi (inl (omega arith));
      leaves = λ i j hi hj. elim (at_place i j) [
        | inl (e, e') ↦ rw (sym e, sym e', root_same, dir_entry) (λ _ _. child2)
        | inr apart ↦
            old_leaf tree link.change dir.place owner2 extends2 i j hi hj (inl (omega arith)) apart
      ];
    }

    linked2-SameWalks : SameWalks pgd s s'
    linked2-SameWalks va = elim (at_place (l1_idx va) (l2_idx va)) [
      | inr apart ↦
          translate_kept tree link.change dir.place va (inl (omega arith)) apart (inl (omega arith))
      | inl (e, e') ↦
          translate_fault3 pgd va (slot pgd a s.mem) (table_entry pa) s'.mem (rw (sym e) root_same)
            (rw (dir.out, sym e') dir_entry)
            (rw (child2.out, (table_entry_valid pa s'.pmm link.used).1)
              (not_table _ (link.empty (l3_idx va) (omega arith))))
          ∙ sym (
              translate_fault2 pgd va (slot pgd a s.mem) s.mem (rw (sym e) refl)
                (rw (dir.out, sym e') new))
    ]

    pub linked-Leaf : Leaf pgd a b pa s s'
    linked-Leaf = record {
      owner = owner2;
      tree = linked2-IsTree;
      is = rw root_same up;
      is2 = rw (root_same, dir_entry) ((table_entry_valid pa s'.pmm link.used).0);
      names = rw (root_same, dir_entry) ((table_entry_valid pa s'.pmm link.used).1);
      same = linked2-SameWalks;
    }
