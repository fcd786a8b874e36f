-- ===== src/Pmm/Alloc.antt =====
-- First fit: what `pmm_alloc_page` and `pmm_alloc_pages` return, on success and on failure.
use archarch.Base.{
  ℕ, zero, suc, ◌+◌, ◌-◌, ◌≤◌, ◌<◌, ◌≡◌, ◌≢◌, ◌⊎◌, inl, inr, refl, arith, true, false, ◌==◌,
  if◌then◌else◌, Bool-cases, ==_iff, ==_ne,
}
use native.Mathlib.Decide.{dec_le, ℕ_discrete}
use archarch.Pmm.{
  Pmm, total_pages, bit_test, set_run, take_run, take_page, alloc_pages_from, alloc_pages,
  alloc_page_from, alloc_page,
}
use archarch.Pmm.Count.{FreeRun}

-- The first run of `n` free pages begins at `start`.
pub record FirstRun (n start : ℕ) (p : Pmm) : Type 0 where
  pub fits : start + n ≤ total_pages
  pub free : FreeRun n start p
  pub first : (s : ℕ) → s < start → ¬ FreeRun n s p

-- No run of `n` free pages lies in the RAM.
abbrev pub NoRun : ℕ → Pmm → Type 0
NoRun n p = (s : ℕ) → s + n ≤ total_pages → ¬ FreeRun n s p

-- The two outcomes of an allocation of `n` pages.
pub data Allocated (n : ℕ) (p : Pmm) (r : ℕ × Pmm) : Type 0 where
  found : (start : ℕ) → FirstRun n start p → r ≡ take_run n start p → Allocated n p r
  exhausted : NoRun n p → r ≡ (0, p) → Allocated n p r

module _ (count : ℕ) (p : Pmm) where
  -- What the scan knows when it is about to look at page `i`.
  record Scan (i run start : ℕ) : Type 0 where
    small : run < count
    behind : run ≤ i
    begins : 0 < run → start + run ≡ i
    free : (j : ℕ) → i ≤ j + run → j < i → bit_test j p ≡ false
    maximal : (run ≡ i) ⊎ (bit_test (i - run - 1) p ≡ true)
    none_before : (s : ℕ) → s + count ≤ i → ¬ FreeRun count s p

  -- A run that ends with page `i` needs page `i` free.
  ends_here :
      {i run start s : ℕ}
      → Scan i run start
      → s + count ≤ i + 1
      → FreeRun count s p
      → (s + count ≡ i + 1) × (bit_test i p ≡ false)
  ends_here {i} {s = s} sc fits free = elim (dec_le (s + count) i) [
    | yes h ↦ absurd (sc.none_before s h free)
    | no h ↦ (omega arith, free i (omega (arith, sc)) (omega arith))
  ]

  Scan-skip : {i run start : ℕ} → Scan i run start → bit_test i p ≡ true → Scan (i + 1) 0 start
  Scan-skip {i} sc used = record {
    small = omega (arith, sc);
    behind = omega arith;
    begins = λ h. absurd (omega arith);
    free = λ j lo hi. absurd (omega arith);
    maximal = inr (let e : i + 1 - 0 - 1 ≡ i = omega arith in rw e used);
    none_before = λ s fits free. cc (used, (ends_here sc fits free).1);
  }

  -- The page before a run of free pages that is too short is used, or does not exist.
  starts_after :
      {i run start s : ℕ}
      → Scan i run start
      → s + count ≤ i + 1
      → FreeRun count s p
      → i + 1 ≤ s + (run + 1)
  starts_after {i} {run} {s = s} sc fits free = elim (dec_le (i + 1) (s + (run + 1))) [
    | yes h ↦ h
    | no h ↦ elim sc.maximal [
      | inl e ↦ omega (arith, sc)
      | inr e ↦
          absurd (cc (e, free (i - run - 1) (omega arith) (omega (arith, ends_here sc fits free))))
    ]
  ]

  abbrev begin : (i run start : ℕ) → ℕ
  begin i run start = if run == 0 then i else start

  begin_lem : {i run start : ℕ} → Scan i run start → begin i run start + run ≡ i
  begin_lem sc = ground (arith, sc.begins)

  Scan-free :
      {i run start : ℕ}
      → Scan i run start
      → bit_test i p ≡ false
      → (j : ℕ) → i + 1 ≤ j + (run + 1)
      → j < i + 1
      → bit_test j p ≡ false
  Scan-free {i} sc clear j lo hi = elim (dec_le i j) [
    | yes h ↦ let e : j ≡ i = omega arith in rw e clear
    | no h ↦ sc.free j (omega arith) (omega arith)
  ]

  Scan-grow :
      {i run start : ℕ}
      → Scan i run start
      → bit_test i p ≡ false
      → run + 1 ≢ count
      → Scan (i + 1) (run + 1) (begin i run start)
  Scan-grow {i} {run} {start} sc clear short = record {
    small = omega (arith, sc);
    behind = omega (arith, sc);
    begins = λ h. omega (arith, begin_lem sc);
    free = Scan-free sc clear;
    maximal = elim sc.maximal [
      | inl e ↦ inl (omega arith)
      | inr e ↦ inr (let same : i + 1 - (run + 1) - 1 ≡ i - run - 1 = omega arith in rw same e)
    ];
    none_before =
        λ s fits free. omega (arith, sc, starts_after sc fits free, ends_here sc fits free);
  }

  Scan-found :
      {i run start : ℕ}
      → Scan i run start
      → i < total_pages
      → bit_test i p ≡ false
      → run + 1 ≡ count
      → FirstRun count (begin i run start) p
  Scan-found {i} {run} {start} sc inside clear full = record {
    fits = omega (arith, begin_lem sc);
    free =
        λ j lo hi. Scan-free sc clear j (omega (arith, begin_lem sc)) (omega (arith, begin_lem sc));
    first = λ s lt. sc.none_before s (omega (arith, begin_lem sc));
  }

  alloc_pages_from_lem :
      (n i run start : ℕ)
      → i + n ≡ total_pages
      → Scan i run start
      → Allocated count p (alloc_pages_from count n i run start p)
  unfolding alloc_pages_from
  alloc_pages_from_lem zero i run start e sc =
      exhausted (λ s fits. sc.none_before s (omega arith)) refl
  alloc_pages_from_lem (suc n) i run start e sc = elim (Bool-cases (bit_test i p)) [
    | inl used ↦ rw used (alloc_pages_from_lem n (i + 1) 0 start (omega arith) (Scan-skip sc used))
    | inr clear ↦ elim (ℕ_discrete (run + 1) count) [
      | yes full ↦
          rw (clear, (==_iff (run + 1) count).1 full)
            (found _ (Scan-found sc (omega arith) clear full) refl)
      | no short ↦
          rw (clear, ==_ne (run + 1) count short)
            (alloc_pages_from_lem n (i + 1) (run + 1) (begin i run start) (omega arith)
              (Scan-grow sc clear short))
    ]
  ]

-- `pmm_alloc_pages` of at least one page takes the first run of free pages that is long enough,
-- and fails, changing nothing, exactly if there is none.
pub alloc_pages_lem : (count : ℕ) (p : Pmm) → 0 < count → Allocated count p (alloc_pages count p)
unfolding alloc_pages
alloc_pages_lem count p positive = rw (==_ne count 0 (omega arith)) (
    alloc_pages_from_lem count p total_pages 0 0 0 (omega arith) (record {
      small = positive;
      behind = omega arith;
      begins = λ h. absurd (omega arith);
      free = λ j lo hi. absurd (omega arith);
      maximal = inl refl;
      none_before = λ s fits free. omega arith;
    }))

alloc_page_from-lem :
    (n i run start : ℕ) (p : Pmm)
    → run ≡ 0
    → alloc_page_from n i p ≡ alloc_pages_from 1 n i run start p
unfolding alloc_page_from alloc_pages_from take_page take_run set_run
alloc_page_from-lem zero i run start p e = refl
alloc_page_from-lem (suc n) i run start p e =
    ground (arith, alloc_page_from-lem n (i + 1) 0 start p refl)

-- `pmm_alloc_page` returns, and leaves, what `pmm_alloc_pages(1)` does.
pub alloc_page-eq : (p : Pmm) → alloc_page p ≡ alloc_pages 1 p
unfolding alloc_page alloc_pages
alloc_page-eq p = alloc_page_from-lem total_pages 0 0 0 p refl
