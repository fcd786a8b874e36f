-- ===== src/Syscall/Sbrk.antt =====
-- SYS_SBRK: the pages between the old and the new break are mapped, and no other translation changes.
use archarch.Base.{
  ℕ, zero, suc, ◌+◌, ◌-◌, ◌*◌, ◌%◌, ◌^◌, ◌≤◌, ◌<◌, ◌≡◌, ◌⊎◌, inl, inr, refl, ap, ◌∙◌, arith, Bool,
  true, false, ltb, leb, if◌then◌else◌, Bool-cases, ==_ne, Option, none, some,
}
use archarch.Base.Word.{add64}
use archarch.Memory.{Memory}
use archarch.Pmm.{page_size, page_align_up, page_to_addr, ram_base}
use archarch.Pmm.Alloc.{alloc_page-eq}
use archarch.Pmm.Effect.{NoRun-free_pages, free_pages-free_page, alloc_pages_effect}
use archarch.Mmu.{Space, user_va_guard}
use archarch.Mmu.Alloc.{page_to_addr-eq}
use archarch.Mmu.Tree.{IsTree}
use archarch.Mmu.Walk.{translate}
use archarch.Mmu.Map.{same_page, map_user_page-PageMapped}
use archarch.Task.{Task, Kernel}
use archarch.Sched.User.{space_of}
use archarch.Syscall.Break.{map_heap_page, map_heap, heap_rounds, sys_sbrk}
use archarch.Syscall.Undisturbed.{Undisturbed-IsTree, Undisturbed-translate, zeroed-Undisturbed}

-- After a round of the loop that succeeds: the page at `va` is mapped, and nothing else changes.
abbrev PageAdded : (pgd va : ℕ) → Space → Bool × Space → Type 0
PageAdded pgd va s (ok, s') =
    ((ok ≡ false) × (s'.pmm.free_pages ≤ 1))
    ⊎ ((ok ≡ true)
        × (owner : ℕ → ℕ) × IsTree pgd owner s'
        × (pa : ℕ) × ((va' : ℕ)
            → translate pgd va' s'.mem
              ≡ (if same_page va va' then some (pa + va' % 4096) else translate pgd va' s.mem)))

map_heap_page-PageAdded :
    (pgd va : ℕ) (owner : ℕ → ℕ) (s : Space)
    → IsTree pgd owner s
    → PageAdded pgd va s (map_heap_page pgd va s)
unfolding map_heap_page
map_heap_page-PageAdded pgd va owner s tree =
    elim (alloc_pages_effect 1 s.pmm tree.valid (omega arith)) [
      | inr (e, same, full) ↦
          rw (alloc_page-eq s.pmm, e, same, map_heap_page)
            (inl (refl, omega (arith, NoRun-free_pages s.pmm tree.valid full)))
      | inl (start, e, t) ↦
          let pa = page_to_addr start in
          let page : pa ≡ ram_base + start * 4096 = page_to_addr-eq start (omega (arith, t.fits)) in
          let u = zeroed-Undisturbed start s _ t in
          rw (alloc_page-eq s.pmm, e, ==_ne pa 0 (omega (arith, page)), map_heap_page)
            (let (owner', tree', outcome) =
                map_user_page-PageMapped pgd va pa owner _ (Undisturbed-IsTree tree u)
                  (omega (arith, page)) (omega (arith, page, t.fits)) in
              elim outcome [
                | inr (r, full, _) ↦
                    rw (r, map_heap_page)
                      (inl (refl, omega (arith, full, free_pages-free_page pa _)))
                | inl (r, maps) ↦
                    rw (r, map_heap_page)
                      (inr (
                        refl,
                        owner',
                        tree',
                        pa,
                        λ va'. maps va' ∙ rw (Undisturbed-translate tree u va') refl,
                      ))
              ])
    ]

abbrev pub is_mapped : Option ℕ → Bool
is_mapped none = false
is_mapped (some pa) = true

-- `n` pages from `va` on are mapped, and every other address below 2^39 is translated as before.
pub record Grown (n pgd va : ℕ) (s s' : Space) : Type 0 where
  pub owner : ℕ → ℕ
  pub tree : IsTree pgd owner s'
  pub inside :
      (va' : ℕ) → va ≤ va' → va' < va + n * 4096 → is_mapped (translate pgd va' s'.mem) ≡ true
  pub outside :
      (va' : ℕ)
      → va' < 2 ^ 39
      → (va' < va) ⊎ (va + n * 4096 ≤ va')
      → translate pgd va' s'.mem ≡ translate pgd va' s.mem

abbrev HeapMapped : (n pgd va : ℕ) → Space → Bool × Space → Type 0
HeapMapped n pgd va s (ok, s') =
    ((ok ≡ false) × (s'.pmm.free_pages ≤ 1)) ⊎ ((ok ≡ true) × Grown n pgd va s s')

-- A round, and the rounds behind it.
Grown-suc :
    (n pgd va pa : ℕ) (s s1 s2 : Space)
    → va % 4096 ≡ 0
    → va + suc n * 4096 ≤ 2 ^ 39
    → ((va' : ℕ)
        → translate pgd va' s1.mem
          ≡ (if same_page va va' then some (pa + va' % 4096) else translate pgd va' s.mem))
    → Grown n pgd (va + page_size) s1 s2
    → Grown (suc n) pgd va s s2
Grown-suc n pgd va pa s s1 s2 aligned fits first g = record {
  owner = g.owner;
  tree = g.tree;
  inside = λ va' lo hi. elim (Bool-cases (ltb va' (va + 4096))) [
    | inl here ↦
        let at : same_page va va' ≡ true = ground (arith, here) in
        ap is_mapped (g.outside va' (omega arith) (inl (ground (arith, here))) ∙ first va')
        ∙ rw at refl
    | inr later ↦ g.inside va' (ground (arith, later)) (omega arith)
  ];
  outside = λ va' low away.
      let not_here : same_page va va' ≡ false = ground (arith, away) in
      g.outside va' low (ground (arith, away)) ∙ first va' ∙ rw not_here refl;
}

map_heap-HeapMapped :
    (n pgd va : ℕ) (owner : ℕ → ℕ) (s : Space)
    → IsTree pgd owner s
    → va % 4096 ≡ 0
    → va + n * 4096 ≤ 2 ^ 39
    → HeapMapped n pgd va s (map_heap n pgd va s)
unfolding map_heap
map_heap-HeapMapped zero pgd va owner s tree aligned fits = inr (
  refl,
  record {
    owner = owner;
    tree = tree;
    inside = λ va' lo hi. absurd (omega arith);
    outside = λ va' low away. refl;
  },
)
map_heap-HeapMapped (suc n) pgd va owner s tree aligned fits =
    elim (map_heap_page-PageAdded pgd va owner s tree) [
      | inl (e, full) ↦ rw (e, map_heap) (inl (refl, full))
      | inr (e, owner', tree', pa, first) ↦
          rw (e, map_heap)
            (elim (map_heap-HeapMapped n pgd (va + page_size) owner' _ tree' (omega arith)
              (omega arith)) [
                | inl e' ↦ inl e'
                | inr (e', g) ↦ inr (e', Grown-suc n pgd va pa s _ _ aligned fits first g)
              ])
    ]

-- The two outcomes of a call of SYS_SBRK that asks for memory.
abbrev pub SbrkDone : (increment : ℕ) → Kernel → Memory → ℕ × Kernel × Memory → Type 0
SbrkDone increment k m (r, k', m') =
    let t = k.tasks k.current_task in
    let t' = k'.tasks k.current_task in
    ((r ≡ t.heap_break)
      × (t'.heap_break ≡ t.heap_break + increment)
      × Grown (heap_rounds t.heap_break (t.heap_break + increment)) t.ttbr0
          (page_align_up t.heap_break) (space_of k m) (record { pmm = k'.io.heap.pmm; mem = m' }))
    ⊎ ((r ≡ 2 ^ 64 - 1) × (t'.heap_break ≡ t.heap_break) × (k'.io.heap.pmm.free_pages ≤ 1))

module _ (k : Kernel) (m : Memory) (owner : ℕ → ℕ)
    (tree : IsTree (k.tasks k.current_task).ttbr0 owner (space_of k m)) where
  abbrev me : Task
  me = k.tasks k.current_task

  -- `sbrk(increment)` in a user task with a well-formed page table, with the new break below the
  -- guard page of the stack: either it returns the old break, moves the break by `increment`, maps
  -- every page from the old break, rounded up, to the new one, and changes no other translation; or
  -- it returns -1, the break is as before, and at most one page of the RAM is free.
  pub sys_sbrk-SbrkDone :
      (increment : ℕ)
      → k.current_task < k.num_tasks
      → me.is_user ≡ true
      → 0 < increment
      → me.heap_break + increment < user_va_guard
      → SbrkDone increment k m (sys_sbrk increment k m)
  unfolding sys_sbrk
  sys_sbrk-SbrkDone increment inside user positive low =
      let new : add64 me.heap_break increment ≡ me.heap_break + increment = omega arith in
      let rounds = heap_rounds me.heap_break (me.heap_break + increment) in
      let exists : leb k.num_tasks k.current_task ≡ false = ground arith in
      let below : leb user_va_guard (me.heap_break + increment) ≡ false = ground arith in
      elim (map_heap-HeapMapped rounds me.ttbr0 (page_align_up me.heap_break) owner (space_of k m)
        tree (omega arith) (omega arith)) [
          | inl (e, full) ↦
              rw (new, exists, user, ==_ne increment 0 (omega arith), below, e, sys_sbrk)
                (inr (refl, refl, full))
          | inr (e, g) ↦
              rw (new, exists, user, ==_ne increment 0 (omega arith), below, e, sys_sbrk)
                (inl (refl, ground arith, g))
        ]

-- Whatever the increment is, 64 bits wide: a break below the guard page of the stack stays below it.
pub sys_sbrk_below :
    (increment : ℕ) (k : Kernel) (m : Memory) (i : ℕ)
    → (k.tasks i).heap_break < user_va_guard
    → ((sys_sbrk increment k m).1.tasks i).heap_break < user_va_guard
unfolding sys_sbrk
sys_sbrk_below increment k m i h = ground arith
