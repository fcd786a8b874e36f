-- ===== src/Mmu/Map.antt =====
-- `mmu_map_user_page_in_pgd`: it keeps the tree well-formed, and what it does to the translation.
use archarch.Base.{
  ℕ, ◌+◌, ◌*◌, ◌/◌, ◌%◌, ◌^◌, ◌<◌, ◌≡◌, ◌⊎◌, inl, inr, refl, sym, ◌∙◌, arith, ◌==◌, if◌then◌else◌,
  Option, none, some, Bool, ℤ, pos, minus_one,
}
use native.Mathlib.Decide.{ℕ_discrete}
use archarch.Kmalloc.{phys_to_virt}
use archarch.Mmu.{
  Space, target, page_entry, next_table, set_entry, put_mem, mmu_map_user_page_in_pgd,
}
use archarch.Mmu.Entries.{IsAligned, page_entry-Names}
use archarch.Mmu.Alloc.{IsUsed, IsUsed-IsPage, slot, slot-set_entry}
use archarch.Mmu.Tree.{
  Child, IsTree, Change, old_dir, old_leaf, root_kept, dir_kept, translate_kept,
}
use archarch.Mmu.Walk.{translate, translate-mapped, l1_idx, l2_idx, l3_idx}
use archarch.Mmu.Step.{existing, linked, failed, next_table-Stepped}
use archarch.Mmu.Link.{Dir, Leaf, linked-Dir, linked-Leaf}

abbrev DirStep : (pgd a : ℕ) → Space → Option ℕ × Space → Type 0
DirStep pgd a s r =
    ((t : ℕ) × (r.0 ≡ some (phys_to_virt t)) × Dir pgd a t s r.1)
    ⊎ ((r.0 ≡ none) × (r.1 ≡ s) × (s.pmm.free_pages ≡ 0))

next_table-DirStep :
    (pgd a : ℕ) (owner : ℕ → ℕ) (s : Space)
    → IsTree pgd owner s
    → a < 512
    → DirStep pgd a s (next_table (phys_to_virt pgd) a s)
next_table-DirStep pgd a owner s tree ha =
    elim (next_table-Stepped pgd a s tree.valid tree.root ha) [
      | existing is e ↦ rw e (
          inl (
            target (slot pgd a s.mem),
            refl,
            record { owner = owner; tree = tree; is = is; names = refl; same = λ va. refl },
          ))
      | linked pa s' new link e ↦ rw e (inl (pa, refl, linked-Dir tree ha new link))
      | failed full e ↦ rw e (inr (refl, refl, full))
    ]

abbrev LeafStep : (pgd a b : ℕ) → (s s1 : Space) → Option ℕ × Space → Type 0
LeafStep pgd a b s s1 r =
    ((t : ℕ) × (r.0 ≡ some (phys_to_virt t)) × Leaf pgd a b t s r.1)
    ⊎ ((r.0 ≡ none) × (r.1 ≡ s1) × (s1.pmm.free_pages ≡ 0))

-- What holds since `s1` holds since `s`.
Leaf-since :
    {pgd a b t t1 : ℕ} {s s1 s2 : Space}
    → Dir pgd a t1 s s1
    → Leaf pgd a b t s1 s2
    → Leaf pgd a b t s s2
Leaf-since d l = record {
  owner = l.owner;
  tree = l.tree;
  is = l.is;
  is2 = l.is2;
  names = l.names;
  same = λ va. l.same va ∙ d.same va;
}

next_table-LeafStep :
    (pgd a b t : ℕ) (s s1 : Space)
    → a < 512
    → b < 512
    → Dir pgd a t s s1
    → LeafStep pgd a b s s1 (next_table (phys_to_virt t) b s1)
next_table-LeafStep pgd a b t s s1 ha hb d =
    rw (sym d.names)
      (elim (next_table-Stepped (target (slot pgd a s1.mem)) b s1 d.tree.valid
        ((d.tree.dirs a ha d.is).used) hb) [
          | existing is e ↦ rw e (
              inl (
                target (slot (target (slot pgd a s1.mem)) b s1.mem),
                refl,
                Leaf-since d (record {
                  owner = d.owner;
                  tree = d.tree;
                  is = d.is;
                  is2 = is;
                  names = refl;
                  same = λ va. refl;
                }),
              ))
          | linked pa s' new link e ↦
              rw e (inl (pa, refl, Leaf-since d (linked-Leaf d.tree ha hb d.is new link)))
          | failed full e ↦ rw e (inr (refl, refl, full))
        ])

-- Two addresses of the same page: they agree in bits 38 to 12.
abbrev pub same_page : ℕ → ℕ → Bool
same_page va va' = va / 4096 % 2 ^ 27 == va' / 4096 % 2 ^ 27

-- Writing the entry of a page.
module _ {pgd a b t : ℕ} {s s2 : Space} (l : Leaf pgd a b t s s2) (ha : a < 512) (hb : b < 512)
    {c pa : ℕ} (hc : c < 512) (aligned : IsAligned pa) (low : pa < 2 ^ 48) where
  abbrev written : Space
  written = put_mem (set_entry (phys_to_virt t) c (page_entry pa) s2.mem) s2

  leaf : Child l.owner s2.pmm (slot (target (slot pgd a s2.mem)) b s2.mem) (513 + a * 512 + b)
  leaf = l.tree.leaves a b ha hb l.is l.is2

  table-IsUsed : IsUsed t s2.pmm
  table-IsUsed = rw l.names at leaf.used

  table_place : l.owner t ≡ 513 + a * 512 + b
  table_place = rw l.names at leaf.place

  page-Change : Change t c (page_entry pa) s2 written
  page-Change = record {
    valid = l.tree.valid;
    keeps = λ q u. u;
    written = λ q j u hj.
        slot-set_entry t c q j (page_entry pa) s2.mem (IsUsed-IsPage t _ table-IsUsed)
          (IsUsed-IsPage q _ u) hc hj ((page_entry-Names pa aligned low).word);
  }

  written-IsTree : IsTree pgd l.owner written
  written-IsTree = record {
    valid = l.tree.valid;
    root = l.tree.root;
    place = l.tree.place;
    dirs = λ i hi.
        old_dir l.tree page-Change table_place l.owner (λ q u. refl) i hi (inl (omega arith));
    leaves = λ i j hi hj.
        old_leaf l.tree page-Change table_place l.owner (λ q u. refl) i j hi hj (inl (omega arith))
          (inl (omega arith));
  }

  translate-here :
      (va : ℕ)
      → l1_idx va ≡ a
      → l2_idx va ≡ b
      → l3_idx va ≡ c
      → translate pgd va written.mem ≡ some (pa + va % 4096)
  translate-here va h1 h2 h3 =
      let n = page_entry-Names pa aligned low in
      let dir = l.tree.dirs a ha l.is in
      translate-mapped pgd va (slot pgd a s2.mem) (slot (target (slot pgd a s2.mem)) b s2.mem)
        (page_entry pa) written.mem
        (rw h1 (root_kept l.tree page-Change table_place a ha (inl (omega arith))))
        (rw (dir.out, h2)
          (dir_kept l.tree page-Change table_place a b ha hb l.is (inl (omega arith))))
        (rw (leaf.out, l.names, h3) (page-Change.written t c table-IsUsed hc ∙ ground arith))
      ∙ rw (l.is, l.is2, n.valid, n.out) refl

  translate-written :
      (va va' : ℕ)
      → l1_idx va ≡ a
      → l2_idx va ≡ b
      → l3_idx va ≡ c
      → translate pgd va' written.mem
        ≡ (if same_page va va' then some (pa + va' % 4096) else translate pgd va' s.mem)
  translate-written va va' h1 h2 h3 = elim (ℕ_discrete (va / 4096 % 2 ^ 27) (va' / 4096 % 2 ^ 27)) [
    | yes e ↦ translate-here va' (omega arith) (omega arith) (omega arith) ∙ ground (arith, e)
    | no ne ↦
        translate_kept l.tree page-Change table_place va' (inl (omega arith)) (inl (omega arith))
          (elim (ℕ_discrete (513 + l1_idx va' * 512 + l2_idx va') (513 + a * 512 + b)) [
            | yes e ↦ inr (λ e'. ne (omega arith))
            | no ne' ↦ inl ne'
          ])
        ∙ l.same va'
        ∙ ground (arith, ne)
  ]

-- The outcomes of `mmu_map_user_page_in_pgd`.
abbrev pub PageMapped : (pgd va pa : ℕ) → Space → ℤ × Space → Type 0
PageMapped pgd va pa s (r, s') =
    (owner : ℕ → ℕ) × IsTree pgd owner s'
    × (((r ≡ pos 0)
          × ((va' : ℕ)
              → translate pgd va' s'.mem
                ≡ (if same_page va va' then some (pa + va' % 4096) else translate pgd va' s.mem)))
        ⊎ ((r ≡ minus_one)
            × (s'.pmm.free_pages ≡ 0)
            × ((va' : ℕ) → translate pgd va' s'.mem ≡ translate pgd va' s.mem)))

-- On a well-formed tree `mmu_map_user_page_in_pgd` of an aligned page below 2^48 leaves a well-formed
-- tree. If it returns 0, the addresses of the page at `va` translate to the page at `pa`, and no
-- other translation changes; otherwise it returns -1, no page of the
-- RAM is free any more, and no translation changes.
pub map_user_page-PageMapped :
    (pgd va pa : ℕ) (owner : ℕ → ℕ) (s : Space)
    → IsTree pgd owner s
    → IsAligned pa
    → pa < 2 ^ 48
    → PageMapped pgd va pa s (mmu_map_user_page_in_pgd pgd va pa s)
unfolding mmu_map_user_page_in_pgd
map_user_page-PageMapped pgd va pa owner s tree aligned low =
    elim (next_table-DirStep pgd (l1_idx va) owner s tree (omega arith)) [
      | inr (e, e', full) ↦
          rw (e, e', mmu_map_user_page_in_pgd) (owner, tree, inr (refl, full, λ va'. refl))
      | inl (t, e, d) ↦
          rw (e, mmu_map_user_page_in_pgd)
            (elim (next_table-LeafStep pgd (l1_idx va) (l2_idx va) t s _ (omega arith) (omega arith)
              d) [
                | inr (e2, e2', full) ↦
                    rw (e2, e2', mmu_map_user_page_in_pgd)
                      (d.owner, d.tree, inr (refl, full, d.same))
                | inl (t2, e2, l) ↦
                    rw (e2, mmu_map_user_page_in_pgd)
                      (
                        l.owner,
                        written-IsTree l (omega arith) (omega arith) (omega arith) aligned low,
                        inl (
                          refl,
                          λ va'.
                              translate-written l (omega arith) (omega arith) (omega arith) aligned
                                low va va' refl refl refl,
                        ),
                      )
              ])
    ]
