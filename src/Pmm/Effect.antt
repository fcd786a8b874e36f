-- ===== src/Pmm/Effect.antt =====
-- What a caller of pmm.c observes: allocation and freeing, page by page.
use archarch.Base.{
  Bool-cases, ℕ, zero, suc, ◌+◌, ◌≤◌, ◌<◌, ◌≡◌, ◌≢◌, ◌⊎◌, inl, inr, refl, ◌∙◌, arith, true, false,
  ◌&&◌, ltb, leb, ◌==◌, if◌then◌else◌,
}
use archarch.Base.Word.{add64, mul32}
use archarch.Pmm.{
  Pmm, total_pages, ram_base, ram_end, page_size, bit_test, set_run, take_run, page_to_addr,
  addr_to_page, alloc_pages, free_page, release_page, free_pages_from, free_pages, bit_clear,
}
use archarch.Pmm.Bits.{IsBytes, bit_test-bit_clear}
use archarch.Pmm.Count.{
  count_used-full, FreeRun, bit_test-set_run, bit_test-counters, count_used, count_used-ext,
  count_used-le, count_used-set_run, free_pages-set_run,
}
use archarch.Pmm.Valid.{IsValid, take_run-IsValid, free_page-IsValid}
use archarch.Pmm.Alloc.{FirstRun, NoRun, found, exhausted, alloc_pages_lem}

pub page_to_addr-inside :
    (i : ℕ)
    → i < total_pages
    → (ram_base ≤ page_to_addr i) × (page_to_addr i < ram_end) × (addr_to_page (page_to_addr i) ≡ i)
unfolding page_to_addr addr_to_page
page_to_addr-inside i h = omega arith

bit_test-take_run :
    (n start j : ℕ) (p : Pmm)
    → IsBytes p
    → bit_test j (take_run n start p).1
      ≡ (if leb start j && ltb j (start + n) then true else bit_test j p)
unfolding take_run
bit_test-take_run n start j p bytes =
    bit_test-counters j _ _ (set_run n start p) ∙ bit_test-set_run n start j p bytes

-- What a successful allocation of `n` pages from page `start` on does.
pub record Taken (n start : ℕ) (p q : Pmm) : Type 0 where
  pub valid : IsValid q
  pub fits : start + n ≤ total_pages
  pub before : FreeRun n start p
  pub after :
      (j : ℕ) → bit_test j q ≡ (if leb start j && ltb j (start + n) then true else bit_test j p)
  pub counted : q.free_pages + n ≡ p.free_pages

pub take_run-Taken :
    (n start : ℕ) (p : Pmm)
    → IsValid p
    → FirstRun n start p
    → Taken n start p (take_run n start p).1
unfolding take_run
take_run-Taken n start p v run = record {
  valid = unfold take_run in take_run-IsValid v n start run.free run.fits;
  fits = run.fits;
  before = run.free;
  after = λ j. unfold take_run in bit_test-take_run n start j p v.bytes;
  counted = omega (
    arith,
    v,
    free_pages-set_run n start p,
    count_used-set_run n start total_pages p v.bytes run.free run.fits,
    count_used-le total_pages (set_run n start p),
  );
}

take_run_addr : (n start : ℕ) (p : Pmm) → (take_run n start p).0 ≡ page_to_addr start
unfolding take_run
take_run_addr n start p = refl

abbrev pub Succeeded : ℕ → Pmm → ℕ × Pmm → Type 0
Succeeded n p (a, q) = (start : ℕ) × (a ≡ page_to_addr start) × Taken n start p q

abbrev pub Failed : ℕ → Pmm → ℕ × Pmm → Type 0
Failed n p (a, q) = (a ≡ 0) × (q ≡ p) × NoRun n p

-- In a valid state `pmm_alloc_pages(count)` either hands out `count` pages of the RAM that were
-- all free, marks exactly those used and takes them off the free count, or there is no such run
-- of pages, and it returns 0 and changes nothing.
pub alloc_pages_effect :
    (count : ℕ) (p : Pmm)
    → IsValid p
    → 0 < count
    → Succeeded count p (alloc_pages count p) ⊎ Failed count p (alloc_pages count p)
alloc_pages_effect count p v positive = elim (alloc_pages_lem count p positive) [
  | found start run e ↦
      inl (rw e (start, take_run_addr count start p, take_run-Taken count start p v run))
  | exhausted none e ↦ inr (rw e (refl, refl, none))
]

-- With no free page in the RAM, none is counted.
pub NoRun-free_pages : (p : Pmm) → IsValid p → NoRun 1 p → p.free_pages ≡ 0
NoRun-free_pages p v none =
    let full : (j : ℕ) → j < total_pages → bit_test j p ≡ true = λ j h.
      elim (Bool-cases (bit_test j p)) [
        | inl used ↦ used
        | inr free ↦
            absurd
              (none j (omega arith) (λ i lo hi. let same : i ≡ j = omega arith in rw same free))
      ] in
    omega (arith, v, count_used-full total_pages p full)

pub free_pages-free_page : (addr : ℕ) (p : Pmm) → (free_page addr p).free_pages ≤ p.free_pages + 1
unfolding free_page release_page
free_pages-free_page addr p = ground arith

-- `pmm_free_page` of a page's address makes that page free, and no other page changes.
pub bit_test-free_page :
    (i j : ℕ) (p : Pmm)
    → IsBytes p
    → i < total_pages
    → bit_test j (free_page (page_to_addr i) p) ≡ (if i == j then false else bit_test j p)
unfolding free_page release_page
bit_test-free_page i j p bytes h = ground (
  arith,
  page_to_addr-inside i h,
  bit_test-bit_clear i j p bytes,
  bit_test-counters j (bit_clear i p).free_pages 0 (bit_clear i p),
)

next_page :
    (start i : ℕ)
    → start + i < total_pages
    → add64 (page_to_addr start) (mul32 i page_size) ≡ page_to_addr (start + i)
unfolding page_to_addr
next_page start i h = omega arith

free_pages_from-IsValid :
    (n i addr : ℕ) (p : Pmm) → IsValid p → IsValid (free_pages_from n i addr p)
unfolding free_pages_from
free_pages_from-IsValid zero i addr p v = v
free_pages_from-IsValid (suc n) i addr p v =
    free_pages_from-IsValid n (i + 1) addr _ (free_page-IsValid v (add64 addr (mul32 i page_size)))

bit_test-free_pages_from :
    (n i start j : ℕ) (p : Pmm)
    → IsValid p
    → start + i + n ≤ total_pages
    → bit_test j (free_pages_from n i (page_to_addr start) p)
      ≡ (if leb (start + i) j && ltb j (start + i + n) then false else bit_test j p)
unfolding free_pages_from
bit_test-free_pages_from zero i start j p v fits = ground arith
bit_test-free_pages_from (suc n) i start j p v fits =
    rw (free_pages_from, next_page start i (omega arith))
      (ground (
        arith,
        bit_test-free_pages_from n (i + 1) start j (free_page (page_to_addr (start + i)) p)
            (free_page-IsValid v (page_to_addr (start + i))) (omega arith),
        bit_test-free_page (start + i) j p v.bytes (omega arith),
      ))

restores :
    (n start : ℕ) (p q : Pmm)
    → IsValid p
    → Taken n start p q
    → let r = free_pages_from n 0 (page_to_addr start) q in
      ((j : ℕ) → j < total_pages → bit_test j r ≡ bit_test j p)
      × (r.free_pages ≡ p.free_pages)
      × (r.used_pages ≡ p.used_pages)
restores n start p q v t = (bits, omega (arith, v, v', count), omega (arith, v, v', count))
  where
    v' : IsValid (free_pages_from n 0 (page_to_addr start) q)
    v' = free_pages_from-IsValid n 0 (page_to_addr start) q t.valid

    bits :
        (j : ℕ)
        → j < total_pages
        → bit_test j (free_pages_from n 0 (page_to_addr start) q) ≡ bit_test j p
    bits j h = ground (
      arith,
      bit_test-free_pages_from n 0 start j q t.valid (omega (arith, t)),
      t.after j,
      t.before j,
    )

    count :
        count_used total_pages (free_pages_from n 0 (page_to_addr start) q)
        ≡ count_used total_pages p
    count = count_used-ext total_pages _ p (λ j h. bits j h)

-- Freeing the pages that `pmm_alloc_pages` handed out gives back the bitmap and the counters as
-- they were before the allocation.
pub free_pages-alloc_pages :
    (count : ℕ) (p : Pmm)
    → IsValid p
    → 0 < count
    → (alloc_pages count p).0 ≢ 0
    → let (a, q) = alloc_pages count p in
      let r = free_pages a count q in
      ((j : ℕ) → j < total_pages → bit_test j r ≡ bit_test j p)
      × (r.free_pages ≡ p.free_pages)
      × (r.used_pages ≡ p.used_pages)
unfolding free_pages
free_pages-alloc_pages count p v positive nonzero = elim (alloc_pages_effect count p v positive) [
  | inl (start, e, taken) ↦ rw e (restores count start p _ v taken)
  | inr (e, _, _) ↦ absurd (nonzero e)
]
