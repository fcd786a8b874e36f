-- ===== src/Syscall/Undisturbed.antt =====
-- A new page for the heap: nothing changes in the pages that are in use.
use archarch.Base.{
  ℕ, zero, suc, ◌+◌, ◌*◌, ◌≤◌, ◌<◌, ◌≡◌, ◌≢◌, ◌⊎◌, inl, inr, refl, ap, ◌∙◌, arith, true, Bool-cases,
  upd,
}
use archarch.Memory.{Memory, load_bytes_same}
use archarch.Kmalloc.{phys_to_virt}
use archarch.Pmm.{Pmm, page_size, page_to_addr, bit_test}
use archarch.Pmm.Valid.{IsValid}
use archarch.Pmm.Effect.{Taken}
use archarch.Mmu.{Space, is_table, target, entry}
use archarch.Mmu.Alloc.{IsUsed, slot, page_to_addr-eq}
use archarch.Mmu.Tree.{Child, IsTree}
use archarch.Mmu.Walk.{translate, l1_idx, l2_idx, l3_idx}
use archarch.Sched.User.{zero_bytes}

-- Nothing changes in the pages that are in use.
pub record Undisturbed (s s' : Space) : Type 0 where
  pub valid : IsValid s'.pmm
  keeps : (q : ℕ) → IsUsed q s.pmm → IsUsed q s'.pmm
  pub same : (q j : ℕ) → IsUsed q s.pmm → j < 512 → slot q j s'.mem ≡ slot q j s.mem

module _ {pgd : ℕ} {owner : ℕ → ℕ} {s s' : Space} (tree : IsTree pgd owner s)
    (u : Undisturbed s s') where
  Child-keeps : (e k : ℕ) → Child owner s.pmm e k → Child owner s'.pmm e k
  Child-keeps e k c = record { out = c.out; used = u.keeps (target e) c.used; place = c.place }

  root_same : (i : ℕ) → i < 512 → slot pgd i s'.mem ≡ slot pgd i s.mem
  root_same i hi = u.same pgd i tree.root hi

  dir_same :
      (i j : ℕ)
      → i < 512
      → j < 512
      → is_table (slot pgd i s.mem) ≡ true
      → slot (target (slot pgd i s.mem)) j s'.mem ≡ slot (target (slot pgd i s.mem)) j s.mem
  dir_same i j hi hj is = u.same _ j ((tree.dirs i hi is).used) hj

  pub Undisturbed-IsTree : IsTree pgd owner s'
  Undisturbed-IsTree = record {
    valid = u.valid;
    root = u.keeps pgd tree.root;
    place = tree.place;
    dirs = λ i hi. rw (root_same i hi) (λ is. Child-keeps _ (1 + i) (tree.dirs i hi is));
    leaves = λ i j hi hj. rw (root_same i hi) (λ is.
        rw (dir_same i j hi hj is)
          (λ is'. Child-keeps _ (513 + i * 512 + j) (tree.leaves i j hi hj is is')));
  }

  pub Undisturbed-translate : (va : ℕ) → translate pgd va s'.mem ≡ translate pgd va s.mem
  unfolding translate
  Undisturbed-translate va =
      let a = l1_idx va in
      let b = l2_idx va in
      elim (Bool-cases (is_table (slot pgd a s.mem))) [
        | inr fault ↦ rw (root_same a (omega arith), fault) refl
        | inl is ↦
            let c = tree.dirs a (omega arith) is in
            elim (Bool-cases (is_table (slot (target (slot pgd a s.mem)) b s.mem))) [
              | inr fault ↦
                  rw
                    (
                      root_same a (omega arith),
                      c.out,
                      dir_same a b (omega arith) (omega arith) is,
                      is,
                      fault,
                    )
                    refl
              | inl is' ↦
                  let d = tree.leaves a b (omega arith) (omega arith) is is' in
                  rw
                    (
                      root_same a (omega arith),
                      c.out,
                      dir_same a b (omega arith) (omega arith) is,
                      d.out,
                      u.same _ (l3_idx va) d.used (omega arith),
                    )
                    refl
            ]
      ]

zero_bytes_elsewhere :
    (n i dst b : ℕ) (m : Memory) → (b < dst + i) ⊎ (dst + i + n ≤ b) → zero_bytes n i dst m b ≡ m b
unfolding zero_bytes
zero_bytes_elsewhere zero i dst b m away = refl
zero_bytes_elsewhere (suc n) i dst b m away =
    zero_bytes_elsewhere n (i + 1) dst b (upd m (dst + i) 0) (ground (arith, away))
    ∙ ground (arith, away)

-- The new page, zeroed.
pub zeroed-Undisturbed :
    (start : ℕ) (s : Space) (q : Pmm)
    → Taken 1 start s.pmm q
    → Undisturbed s
        (record { pmm = q; mem = zero_bytes page_size 0 (phys_to_virt (page_to_addr start)) s.mem })
unfolding slot entry
zeroed-Undisturbed start s q t = record {
  valid = t.valid;
  keeps = λ pa u. record {
    number = u.number;
    inside = u.inside;
    is = u.is;
    used = t.after u.number ∙ ground (arith, u.used);
  };
  same = λ pa j u hj.
      let other : start ≢ u.number = λ e.
        cc (ap (λ n. bit_test n s.pmm) e, u.used, t.before start (omega arith) (omega arith)) in
      load_bytes_same 8 _ s.mem _ (λ b lo hi.
        zero_bytes_elsewhere page_size 0 (phys_to_virt (page_to_addr start)) b s.mem (
          ground (
            arith,
            other,
            u.is,
            page_to_addr-eq start (omega (arith, t.fits)),
            page_to_addr-eq u.number u.inside,
          )));
}
