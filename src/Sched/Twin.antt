-- ===== src/Sched/Twin.antt =====
-- The pages of a forked task: a new address space with copies of the parent's code and stack.
use archarch.Pmm.Alloc.{NoRun}
use archarch.Base.{
  ℕ, ◌+◌, ◌*◌, ◌%◌, ◌^◌, ◌≤◌, ◌<◌, ◌≡◌, ◌≢◌, ◌⊎◌, inl, inr, refl, ◌∙◌, arith, true, ==_ne, Option,
  none, some,
}
use native.Mathlib.Decide.{dec_le, dec_lt}
use archarch.Base.Word.{add64, mul32}
use archarch.Memory.{Memory}
use archarch.Kmalloc.{phys_to_virt}
use archarch.Pmm.{Pmm, page_size, total_pages, page_to_addr, bit_test, alloc_pages}
use archarch.Pmm.Valid.{IsValid}
use archarch.Pmm.Count.{FreeRun}
use archarch.Pmm.Effect.{Taken, alloc_pages_effect}
use archarch.Mmu.{Space, mmu_create_user_pgd, user_stack_pages}
use archarch.Mmu.Alloc.{IsUsed, slot, page_to_addr-eq}
use archarch.Mmu.Tree.{IsTree}
use archarch.Mmu.Walk.{translate}
use archarch.Mmu.User.{user_map}
use archarch.Mmu.Pgd.{KeepsFree, Created, created, no_pages, create_user_pgd-Created}
use archarch.Sched.User.{copy_bytes, new_image}
use archarch.Sched.Copy.{IsRun, runs-Apart, slot-copied, slot-copy_bytes_elsewhere}

-- What the pages of the child have to do with the parent's, which are `n` of code at `o_code` and 4
-- of stack at `o_stack` in the memory `m`.
pub record Twin (n o_code o_stack c st pgd : ℕ) (p : Pmm) (m : Memory) (s' : Space) : Type 0 where
  pub owner : ℕ → ℕ
  pub tree : IsTree pgd owner s'
  pub maps :
      (m' : Memory)
      → KeepsFree p s'.mem m'
      → (va : ℕ) → va < 2 ^ 39
      → translate pgd va m' ≡ user_map c n st 4 va
  pub code_start : ℕ
  pub code_is : c ≡ page_to_addr code_start
  pub code_fits : code_start + n ≤ total_pages
  pub code_free : FreeRun n code_start p
  pub stack_start : ℕ
  pub stack_is : st ≡ page_to_addr stack_start
  pub stack_fits : stack_start + 4 ≤ total_pages
  pub stack_free : FreeRun 4 stack_start p
  pub code_words :
      (i j : ℕ)
      → i < n
      → j < 512
      → slot (page_to_addr (code_start + i)) j s'.mem ≡ slot (o_code + i * 4096) j m
  pub stack_words :
      (i j : ℕ)
      → i < 4
      → j < 512
      → slot (page_to_addr (stack_start + i)) j s'.mem ≡ slot (o_stack + i * 4096) j m

page_offset : (a i : ℕ) → a + i < total_pages → page_to_addr (a + i) ≡ page_to_addr a + i * 4096
page_offset a i h = omega (arith, page_to_addr-eq a (omega arith), page_to_addr-eq (a + i) h)

next_page : (a : ℕ) → a + 1 < total_pages → add64 (page_to_addr a) page_size ≡ page_to_addr (a + 1)
next_page a h = omega (arith, page_to_addr-eq a (omega arith), page_to_addr-eq (a + 1) h)

-- There is no room for a program of `n` pages: not for its pages, or behind them not for its stack with
-- the guard page, or not for four page tables.
abbrev pub NoRoom : ℕ → Pmm → Type 0
NoRoom n p =
    NoRun n p ⊎ ((q : Pmm) × (start : ℕ) × Taken n start p q × (NoRun 5 q ⊎ (q.free_pages < 9)))

module _ {n cn gn : ℕ} {p q1 q2 : Pmm} (t1 : Taken n cn p q1) (t2 : Taken 5 gn q1 q2) where
  code_page-IsUsed : (i : ℕ) → i < n → IsUsed (page_to_addr (cn + i)) q2
  code_page-IsUsed i hi = record {
    number = cn + i;
    inside = omega (arith, t1.fits);
    is = refl;
    used = t2.after (cn + i) ∙ ground (arith, t1.after (cn + i));
  }

  stack_page-IsUsed : (i : ℕ) → i < 4 → IsUsed (page_to_addr (gn + 1 + i)) q2
  stack_page-IsUsed i hi = record {
    number = gn + 1 + i;
    inside = omega (arith, t2.fits);
    is = refl;
    used = t2.after (gn + 1 + i) ∙ ground arith;
  }

  -- A page that is in use when the stack is allocated is none of its pages.
  not_stack : (q : ℕ) → bit_test q q1 ≡ true → (q < gn + 1) ⊎ (gn + 1 + 4 ≤ q)
  not_stack q used = elim (dec_lt q (gn + 1)) [
    | yes h ↦ inl h
    | no h ↦ elim (dec_le (gn + 1 + 4) q) [
      | yes h' ↦ inr h'
      | no h' ↦ absurd (cc (used, t2.before q (omega arith) (omega arith)))
    ]
  ]

  not_code : (q : ℕ) → bit_test q p ≡ true → (q < cn) ⊎ (cn + n ≤ q)
  not_code q used = elim (dec_lt q cn) [
    | yes h ↦ inl h
    | no h ↦ elim (dec_le (cn + n) q) [
      | yes h' ↦ inr h'
      | no h' ↦ absurd (cc (used, t1.before q (omega arith) (omega arith)))
    ]
  ]

  still_used : (q : ℕ) → bit_test q p ≡ true → bit_test q q1 ≡ true
  still_used q used = t1.after q ∙ ground (arith, used)

  IsUsed-later : (q : ℕ) → IsUsed q p → IsUsed q q2
  IsUsed-later q u = record {
    number = u.number;
    inside = u.inside;
    is = u.is;
    used = t2.after u.number ∙ ground (arith, still_used u.number u.used);
  }

  stack_FreeRun : FreeRun 4 (gn + 1) p
  stack_FreeRun j lo hi =
      let free = t2.before j (omega arith) (omega arith) in ground (arith, t1.after j, free)

module _ {o_code o_stack n : ℕ} {p : Pmm} (code : IsRun o_code n p) (stack : IsRun o_stack 4 p)
    (positive : 0 < n) (few : n ≤ 512) (m : Memory) where
  abbrev fill_code : ℕ → Memory → Memory
  fill_code dst = copy_bytes (mul32 n page_size) 0 dst (phys_to_virt o_code)

  abbrev fill_stack : ℕ → Memory → Memory
  fill_stack dst = copy_bytes (user_stack_pages * page_size) 0 dst (phys_to_virt o_stack)

  module _ {cn gn : ℕ} {q1 q2 : Pmm} (t1 : Taken n cn p q1) (t2 : Taken 5 gn q1 q2) where
    abbrev m1 : Memory
    m1 = fill_code (phys_to_virt (page_to_addr cn)) m

    abbrev m2 : Memory
    m2 = fill_stack (phys_to_virt (page_to_addr (gn + 1))) m1

    copied_code :
        (i j : ℕ)
        → i < n
        → j < 512
        → slot (page_to_addr (cn + i)) j m2 ≡ slot (o_code + i * 4096) j m
    copied_code i j hi hj =
        let size : mul32 n page_size ≡ n * 4096 = omega arith in
        let from : o_code + i * 4096 ≡ page_to_addr (code.start + i) =
          omega (arith, code, page_offset code.start i (omega (arith, code.fits))) in
        slot-copy_bytes_elsewhere 4 (gn + 1) (phys_to_virt o_stack) (cn + i) j m1
          (omega (arith, t2.fits)) (omega (arith, t1.fits))
          (not_stack t1 t2 (cn + i) (t1.after (cn + i) ∙ ground arith)) (omega arith) hj
        ∙ rw (size, from, code.is)
            (slot-copied n cn code.start i j m
              (elim (runs-Apart n code.start cn p code.used t1.before) [
                | inl h ↦ inr h
                | inr h ↦ inl h
              ])
              t1.fits code.fits hi hj)

    copied_stack :
        (i j : ℕ)
        → i < 4
        → j < 512
        → slot (page_to_addr (gn + 1 + i)) j m2 ≡ slot (o_stack + i * 4096) j m
    copied_stack i j hi hj =
        let size : mul32 n page_size ≡ n * 4096 = omega arith in
        let from : o_stack + i * 4096 ≡ page_to_addr (stack.start + i) =
          omega (arith, stack, page_offset stack.start i (omega (arith, stack.fits))) in
        let used : bit_test (stack.start + i) p ≡ true =
          stack.used (stack.start + i) (omega arith) (omega arith) in
        let first : slot (page_to_addr (gn + 1 + i)) j m2
            ≡ slot (page_to_addr (stack.start + i)) j m1 =
          rw stack.is (
            slot-copied 4 (gn + 1) stack.start i j m1
              (elim (runs-Apart 4 stack.start (gn + 1) q1
                (λ b lo hi. still_used t1 t2 b (stack.used b lo hi))
                (λ b lo hi. t2.before b (omega arith) (omega arith))) [
                  | inl h ↦ inr h
                  | inr h ↦ inl h
                ])
              (omega (arith, t2.fits)) stack.fits hi hj) in
        first
        ∙ rw (size, from)
            (slot-copy_bytes_elsewhere n cn (phys_to_virt o_code) (stack.start + i) j m t1.fits
              (omega (arith, stack.fits)) (not_code t1 t2 (stack.start + i) used) positive hj)

  -- The two outcomes of the copy.
  pub data Twinned (mem : Memory) (r : Option (ℕ × ℕ × ℕ) × Space) : Type 0 where
    twinned :
        (c st pgd : ℕ)
        → r.0 ≡ some (c, st, pgd)
        → Twin n o_code o_stack c st pgd p m r.1
        → Twinned mem r
    failed : r.0 ≡ none → NoRoom n p → Twinned mem r

  page_ready :
      (a : ℕ)
      → a < total_pages
      → (page_to_addr a % 4096 ≡ 0) × (page_to_addr a + 512 * 4096 ≤ 2 ^ 48) × (page_to_addr a ≢ 0)
  page_ready a h = (
    omega (arith, page_to_addr-eq a h),
    omega (arith, page_to_addr-eq a h),
    omega (arith, page_to_addr-eq a h),
  )

  module _ {cn gn : ℕ} {q1 q2 : Pmm} (t1 : Taken n cn p q1) (t2 : Taken 5 gn q1 q2) where
    abbrev made : ℕ × Space
    made =
        mmu_create_user_pgd (page_to_addr cn) n (page_to_addr (gn + 1)) user_stack_pages
          (record { pmm = q2; mem = m2 t1 t2 })

    made-Twin :
        (owner : ℕ → ℕ)
        → IsTree made.0 owner made.1
        → ((m' : Memory)
            → KeepsFree q2 made.1.mem m'
            → (va : ℕ) → va < 2 ^ 39
            → translate made.0 va m' ≡ user_map (page_to_addr cn) n (page_to_addr (gn + 1)) 4 va)
        → ((q j : ℕ) → IsUsed q q2 → j < 512 → slot q j made.1.mem ≡ slot q j (m2 t1 t2))
        → Twin n o_code o_stack (page_to_addr cn) (page_to_addr (gn + 1)) made.0 p m made.1
    made-Twin owner tree maps kept = record {
      owner = owner;
      tree = tree;
      maps = λ m' same. maps m' (λ q j free. same q j (λ u. free (IsUsed-later t1 t2 q u)));
      code_start = cn;
      code_is = refl;
      code_fits = t1.fits;
      code_free = t1.before;
      stack_start = gn + 1;
      stack_is = refl;
      stack_fits = omega (arith, t2.fits);
      stack_free = stack_FreeRun t1 t2;
      code_words = λ i j hi hj.
          kept (page_to_addr (cn + i)) j (code_page-IsUsed t1 t2 i hi) hj
          ∙ copied_code t1 t2 i j hi hj;
      stack_words = λ i j hi hj.
          kept (page_to_addr (gn + 1 + i)) j (stack_page-IsUsed t1 t2 i hi) hj
          ∙ copied_stack t1 t2 i j hi hj;
    }

    made-Created :
        Created
          (page_to_addr cn)
          n
          (page_to_addr (gn + 1))
          4
          (record { pmm = q2; mem = m2 t1 t2 })
          made
    made-Created =
        let (a, b, _) = page_ready cn (omega (arith, t1.fits)) in
        let (a', b', _) = page_ready (gn + 1) (omega (arith, t2.fits)) in
        create_user_pgd-Created (page_to_addr cn) n (page_to_addr (gn + 1)) 4 a b a' b' few
          (omega arith) (omega arith) (record { pmm = q2; mem = m2 t1 t2 }) t2.valid

  pub new_image-Twinned :
      IsValid p → Twinned m (new_image n fill_code fill_stack (record { pmm = p; mem = m }))
  unfolding new_image
  new_image-Twinned v = elim (alloc_pages_effect n p v positive) [
    | inr (e, _, full) ↦ rw (e, new_image) (failed refl (inl full))
    | inl (cn, e, t1) ↦
        let q1 = (alloc_pages n p).1 in
        let (_, _, ne) = page_ready cn (omega (arith, t1.fits)) in
        elim (alloc_pages_effect 5 q1 t1.valid (omega arith)) [
          | inr (e', _, full) ↦
              rw (e, ==_ne _ 0 ne, e', new_image) (failed refl (inr (q1, cn, t1, inl full)))
          | inl (gn, e', t2) ↦
              let (_, _, ne') = page_ready gn (omega (arith, t2.fits)) in
              rw
                (
                  e,
                  e',
                  next_page gn (omega (arith, t2.fits)),
                  ==_ne _ 0 ne,
                  ==_ne _ 0 ne',
                  new_image,
                )
                (elim (made-Created t1 t2) [
                  | no_pages lost _ e'' few_left _ _ ↦
                      rw (e'', new_image)
                        (failed refl (inr (q1, cn, t1, inr (omega (arith, few_left, t2.counted)))))
                  | created owner ne'' tree maps _ kept ↦
                      rw (==_ne _ 0 ne'', new_image)
                        (twinned _ _ _ refl (made-Twin t1 t2 owner tree maps kept))
                ])
        ]
  ]
