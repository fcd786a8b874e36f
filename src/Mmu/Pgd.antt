-- ===== src/Mmu/Pgd.antt =====
-- `mmu_create_user_pgd` as a whole.
use archarch.Base.{
  ℕ, ◌+◌, ◌-◌, ◌*◌, ◌^◌, ◌≤◌, ◌<◌, ◌≡◌, ◌≢◌, ◌⊎◌, inl, inr, refl, ◌∙◌, arith, ◌==◌, if◌then◌else◌,
  ==_ne,
}
use archarch.Memory.{Memory}
use archarch.Kmalloc.{phys_to_virt}
use archarch.Pmm.{Pmm, free_page, release_page}
use archarch.Pmm.Valid.{IsValid, free_page-IsValid}
use archarch.Pmm.Effect.{page_to_addr-inside}
use archarch.Mmu.{
  Space, table_entry, set_entry, put_mem, map_code, map_user, alloc_table, mmu_create_user_pgd,
}
use archarch.Mmu.Entries.{IsAligned}
use archarch.Mmu.Alloc.{IsUsed, IsPage, IsUsed-IsPage, Fresh, slot, alloc_table-TableAllocated}
use archarch.Mmu.Tree.{IsTree}
use archarch.Mmu.Walk.{translate}
use archarch.Mmu.Step.{Fresh-Linked}
use archarch.Mmu.Create.{Hung, map_code-BlockMapped, map_stack-BlockMapped}
use archarch.Mmu.User.{Layout, user_map, owner, Layout-IsTree, Layout-translate}

-- The upper two tables, the second linked into the first.
record Upper (l1 l2 : ℕ) (s s3 : Space) : Type 0 where
  valid : IsValid s3.pmm
  used1 : IsUsed l1 s3.pmm
  used2 : IsUsed l2 s3.pmm
  apart : l1 ≢ l2
  keeps : (q : ℕ) → IsUsed q s.pmm → IsUsed q s3.pmm
  kept : (q j : ℕ) → IsUsed q s.pmm → j < 512 → slot q j s3.mem ≡ slot q j s.mem
  fresh1 : ¬ IsUsed l1 s.pmm
  fresh2 : ¬ IsUsed l2 s.pmm
  root : (j : ℕ) → j < 512 → slot l1 j s3.mem ≡ (if 0 == j then table_entry l2 else 0)
  dir : (j : ℕ) → j < 512 → slot l2 j s3.mem ≡ 0

Fresh-Upper :
    (l1 l2 : ℕ) (s s1 s2 : Space)
    → Fresh l1 s s1
    → Fresh l2 s1 s2
    → Upper l1 l2 s (put_mem (set_entry (phys_to_virt l1) 0 (table_entry l2) s2.mem) s2)
Fresh-Upper l1 l2 s s1 s2 f1 f2 =
    let link = Fresh-Linked l1 0 l2 s1 s2 f1.used (omega arith) f2 in
    let page = IsUsed-IsPage l1 _ f1.used in
    record {
      valid = f2.valid;
      used1 = f2.keeps l1 f1.used;
      used2 = f2.used;
      apart = λ e. f2.was_free (rw e at f1.used);
      keeps = λ q u. f2.keeps q (f1.keeps q u);
      kept = λ q j u hj.
          let other : l1 ≢ q = λ e. f1.was_free (rw e u) in
          link.change.written q j (f1.keeps q u) hj
          ∙ ground (arith, other, f1.cleared q j (IsUsed-IsPage q _ u) hj);
      fresh1 = f1.was_free;
      fresh2 = λ u. f2.was_free (f1.keeps l2 u);
      root = λ j hj. link.change.written l1 j f1.used hj ∙ ground (arith, f1.cleared l1 j page hj);
      dir = λ j hj. link.empty j hj;
    }

-- The second table once the code is mapped.
dir4 :
    {l1 l2 l3 code_pa n : ℕ} {s s3 s4 : Space}
    → Upper l1 l2 s s3
    → Hung l2 2 l3 0 n code_pa s3 s4
    → (j : ℕ) → j < 512
    → slot l2 j s4.mem ≡ (if 2 == j then table_entry l3 else 0)
dir4 {l2 = l2} u c j hj = c.change.written l2 j u.used2 hj ∙ ground (arith, u.dir j hj)

module _ {l1 l2 l3 l3' code_pa n stack_pa k : ℕ} {s s3 s4 s5 : Space} (u : Upper l1 l2 s s3)
    (c : Hung l2 2 l3 0 n code_pa s3 s4) (h : Hung l2 3 l3' (512 - k) k stack_pa s4 s5) where
  apart3 : (q : ℕ) → IsUsed q s3.pmm → q ≢ l3
  apart3 q used e = c.was_free (rw e at used)

  apart4 : (q : ℕ) → IsUsed q s4.pmm → q ≢ l3'
  apart4 q used e = h.was_free (rw e at used)

  -- What was in use before keeps its words.
  words_kept : (q j : ℕ) → IsUsed q s.pmm → j < 512 → slot q j s5.mem ≡ slot q j s.mem
  words_kept q j used hj =
      let other : l2 ≢ q = λ e. u.fresh2 (rw e used) in
      h.change.written q j (c.change.keeps q (u.keeps q used)) hj
      ∙ ground (arith, other, c.change.written q j (u.keeps q used) hj, u.kept q j used hj)

  tables_free :
      (¬ IsUsed l1 s.pmm) × (¬ IsUsed l2 s.pmm) × (¬ IsUsed l3 s.pmm) × (¬ IsUsed l3' s.pmm)
  tables_free = (
    u.fresh1,
    u.fresh2,
    λ used. c.was_free (u.keeps l3 used),
    λ used. h.was_free (c.change.keeps l3' (u.keeps l3' used)),
  )

  Upper-Layout : Layout l1 l2 l3 l3' code_pa n stack_pa k s5
  Upper-Layout = record {
    valid = h.change.valid;
    used1 = h.change.keeps l1 (c.change.keeps l1 u.used1);
    used2 = h.change.keeps l2 (c.change.keeps l2 u.used2);
    used3 = h.change.keeps l3 c.used;
    used4 = h.used;
    apart12 = u.apart;
    apart13 = apart3 l1 u.used1;
    apart14 = apart4 l1 (c.change.keeps l1 u.used1);
    apart23 = apart3 l2 u.used2;
    apart24 = apart4 l2 (c.change.keeps l2 u.used2);
    apart34 = apart4 l3 c.used;
    root = λ j hj.
        h.change.written l1 j (c.change.keeps l1 u.used1) hj
        ∙ ground (arith, c.change.written l1 j u.used1 hj, u.root j hj, u.apart);
    dir = λ j hj.
        h.change.written l2 j (c.change.keeps l2 u.used2) hj ∙ ground (arith, dir4 u c j hj);
    code = λ j hj.
        h.change.written l3 j c.used hj ∙ ground (arith, c.contents j hj, apart3 l2 u.used2);
    stack = λ j hj. h.contents j hj;
  }

-- The pages of the RAM that are free in `p` have the same words in `m'` as in `m`.
abbrev pub KeepsFree : Pmm → Memory → Memory → Type 0
KeepsFree p m m' = (q j : ℕ) → ¬ IsUsed q p → IsPage q → j < 512 → slot q j m' ≡ slot q j m

-- The outcomes of `mmu_create_user_pgd`: an address space, or 0 with `lost` pages that stay marked
-- used.
pub data Created (code_pa n stack_pa k : ℕ) (s : Space) (r : ℕ × Space) : Type 0 where
  created :
      (owner : ℕ → ℕ)
      → r.0 ≢ 0
      → IsTree r.0 owner r.1
      → ((m : Memory)
          → KeepsFree s.pmm r.1.mem m
          → (va : ℕ) → va < 2 ^ 39
          → translate r.0 va m ≡ user_map code_pa n stack_pa k va)
      → ((q : ℕ) → IsUsed q s.pmm → IsUsed q r.1.pmm)
      → ((q j : ℕ) → IsUsed q s.pmm → j < 512 → slot q j r.1.mem ≡ slot q j s.mem)
      → Created code_pa n stack_pa k s r
  no_pages :
      (lost : ℕ)
      → (lost ≡ 0) ⊎ ((lost ≡ 2) ⊎ (lost ≡ 3))
      → r.0 ≡ 0
      → s.pmm.free_pages < 4
      → IsValid r.1.pmm
      → r.1.pmm.free_pages + lost ≡ s.pmm.free_pages
      → Created code_pa n stack_pa k s r

-- Only the four tables matter, which are in pages that were free.
Layout-same :
    {l1 l2 l3 l3' code_pa n stack_pa k : ℕ} {s : Space} {p : Pmm}
    → Layout l1 l2 l3 l3' code_pa n stack_pa k s
    → (¬ IsUsed l1 p) × (¬ IsUsed l2 p) × (¬ IsUsed l3 p) × (¬ IsUsed l3' p)
    → (m : Memory) → KeepsFree p s.mem m
    → Layout l1 l2 l3 l3' code_pa n stack_pa k (put_mem m s)
Layout-same {l1} {l2} {l3} {l3'} l (f1, f2, f3, f4) m same = record {
  valid = l.valid;
  used1 = l.used1;
  used2 = l.used2;
  used3 = l.used3;
  used4 = l.used4;
  apart12 = l.apart12;
  apart13 = l.apart13;
  apart14 = l.apart14;
  apart23 = l.apart23;
  apart24 = l.apart24;
  apart34 = l.apart34;
  root = λ j hj. same l1 j f1 (IsUsed-IsPage l1 _ l.used1) hj ∙ l.root j hj;
  dir = λ j hj. same l2 j f2 (IsUsed-IsPage l2 _ l.used2) hj ∙ l.dir j hj;
  code = λ j hj. same l3 j f3 (IsUsed-IsPage l3 _ l.used3) hj ∙ l.code j hj;
  stack = λ j hj. same l3' j f4 (IsUsed-IsPage l3' _ l.used4) hj ∙ l.stack j hj;
}

-- Freeing a page in use adds it to the free ones.
free_page_counted :
    (pa : ℕ) (p : Pmm) → IsValid p → IsUsed pa p → (free_page pa p).free_pages ≡ p.free_pages + 1
unfolding free_page release_page
free_page_counted pa p v used =
    let (lo, hi, same) = page_to_addr-inside used.number used.inside in
    rw used.is (ground (arith, v.all, used.used, lo, hi, same))

module _ (code_pa n stack_pa k : ℕ) (aligned : IsAligned code_pa)
    (low : code_pa + 512 * 4096 ≤ 2 ^ 48) (aligned' : IsAligned stack_pa)
    (low' : stack_pa + 512 * 4096 ≤ 2 ^ 48) (few : n ≤ 512) (positive : 0 < k)
    (few' : k ≤ 512) where
  Layout-Created :
      {l1 l2 l3 l3' : ℕ} (s s5 : Space)
      → l1 ≢ 0
      → ((q : ℕ) → IsUsed q s.pmm → IsUsed q s5.pmm)
      → ((q j : ℕ) → IsUsed q s.pmm → j < 512 → slot q j s5.mem ≡ slot q j s.mem)
      → (¬ IsUsed l1 s.pmm) × (¬ IsUsed l2 s.pmm) × (¬ IsUsed l3 s.pmm) × (¬ IsUsed l3' s.pmm)
      → Layout l1 l2 l3 l3' code_pa n stack_pa k s5
      → Created code_pa n stack_pa k s (l1, s5)
  Layout-Created s s5 ne keeps kept free l =
      created (owner l) ne (Layout-IsTree l)
        (λ m same.
          Layout-translate (Layout-same l free m same) aligned low aligned' low' few positive few')
        keeps kept

  Upper-Created :
      (l1 l2 : ℕ) (s s2 : Space)
      → l1 ≢ 0
      → s2.pmm.free_pages + 2 ≡ s.pmm.free_pages
      → Upper l1 l2 s (put_mem (set_entry (phys_to_virt l1) 0 (table_entry l2) s2.mem) s2)
      → Created code_pa n stack_pa k s (map_user code_pa n stack_pa k l1 l2 s2)
  unfolding map_user
  Upper-Created l1 l2 s s2 ne counted u =
      let s3 = put_mem (set_entry (phys_to_virt l1) 0 (table_entry l2) s2.mem) s2 in
      elim (map_code-BlockMapped n code_pa l2 s3 u.valid u.used2 aligned low few) [
        | inr (e, same, full) ↦
            rw (e, same, map_user)
              (no_pages 2 (inr (inl refl)) refl (omega (arith, full, counted)) u.valid counted)
        | inl (e, l3, c) ↦
            let s4 = (map_code code_pa n (phys_to_virt l2) s3).1 in
            let empty : slot l2 3 s4.mem ≡ 0 = dir4 u c 3 (omega arith) ∙ ground arith in
            elim (map_stack-BlockMapped k stack_pa l2 s4 c.change.valid (c.change.keeps l2 u.used2)
              aligned' low' few' positive empty) [
                | inr (e', same, full) ↦
                    rw (e, e', same, map_user)
                      (no_pages 3 (inr (inr refl)) refl (omega (arith, full, c.counted, counted))
                        c.change.valid (omega (arith, c.counted, counted)))
                | inl (e', l3', h) ↦
                    rw (e, e', map_user)
                      (Layout-Created s _ ne
                        (λ q used. h.change.keeps q (c.change.keeps q (u.keeps q used)))
                        (words_kept u c h) (tables_free u c h) (Upper-Layout u c h))
              ]
      ]

  -- `mmu_create_user_pgd` of at most 512 pages of code and of 1 to 512 pages of stack, at aligned
  -- addresses from which 2 megabytes lie below 2^48, with a page allocator whose counters agree with
  -- its bitmap: either it returns the root of a well-formed tree, in which the addresses below 2^39
  -- translate to the code from USER_VA_CODE on and to the stack below USER_VA_STACK and the others,
  -- the guard page with them, fault, whatever is later written to the pages that were in use, and
  -- every page in use stays in use and keeps its words; or it returns 0, fewer than four pages of
  -- the RAM were free, and no, two
  -- or three pages that it has allocated stay marked as used.
  pub create_user_pgd-Created :
      (s : Space)
      → IsValid s.pmm
      → Created code_pa n stack_pa k s (mmu_create_user_pgd code_pa n stack_pa k s)
  unfolding mmu_create_user_pgd
  create_user_pgd-Created s v = elim (alloc_table-TableAllocated s v) [
    | inr (e, same, full) ↦ rw (e, same) (no_pages 0 (inl refl) refl (omega arith) v (omega arith))
    | inl (ne, f1) ↦
        let s1 = (alloc_table s).1 in
        elim (alloc_table-TableAllocated s1 f1.valid) [
          | inr (e, same, full) ↦
              rw (==_ne _ 0 ne, e, same)
                (no_pages 0 (inl refl) refl (omega (arith, full, f1.counted))
                  (free_page-IsValid f1.valid _)
                  (omega (arith, f1.counted, free_page_counted _ _ f1.valid f1.used)))
          | inl (ne', f2) ↦
              rw (==_ne _ 0 ne, ==_ne _ 0 ne')
                (Upper-Created _ _ s _ ne (omega (arith, f1.counted, f2.counted))
                  (Fresh-Upper _ _ s s1 _ f1 f2))
        ]
  ]
