-- ===== src/Pmm/Valid.antt =====
-- The invariant of the allocator: the counters say how many bits are set. Taking a run of free
-- pages, freeing a used page and `pmm_init` establish it.
use archarch.Base.{ℕ, ◌+◌, ◌*◌, ◌%◌, ◌^◌, ◌≤◌, ◌<◌, ◌≡◌, refl, sym, ◌∙◌, arith, true, false, ltb}
use native.Mathlib.Nat.{zero-div}
use archarch.Pmm.{
  Pmm, total_pages, ram_base, ram_end, bit_clear, bit_test, set_run, take_page, release_page,
  take_run, init, addr_to_page, free_page, all_free, reserved_count, page_size,
}
use archarch.Pmm.Bits.{IsBytes, bit_clear-IsBytes}
use archarch.Pmm.Count.{
  count_used, count_used-le, count_used-counters, bit_test-counters, count_used-bit_clear, FreeRun,
  set_run-IsBytes, bit_test-set_run, count_used-set_run, free_pages-set_run, used_pages-set_run,
  count_used-zero,
}

pub record IsValid (p : Pmm) : Type 0 where
  pub bytes : IsBytes p
  pub counted : p.used_pages ≡ count_used total_pages p
  pub all : p.free_pages + p.used_pages ≡ total_pages

-- What is left to check of a state that differs from a checked bitmap in its counters.
counters-IsValid :
    (f u : ℕ) (p : Pmm)
    → IsBytes p
    → u ≡ count_used total_pages p
    → f + u ≡ total_pages
    → IsValid (record p { free_pages = f; used_pages = u })
counters-IsValid f u p bytes counted all = record {
  bytes = bytes;
  counted = omega (arith, count_used-counters total_pages f u p);
  all = all;
}

module _ {p : Pmm} (v : IsValid p) where
  pub take_run-IsValid :
      (n start : ℕ) → FreeRun n start p → start + n ≤ total_pages → IsValid (take_run n start p).1
  unfolding take_run
  take_run-IsValid n start free fits =
      counters-IsValid _ _ (set_run n start p) (set_run-IsBytes n start p v.bytes)
        (omega (arith, v, count, below, free_pages-set_run n start p, used_pages-set_run n start p))
        (omega (arith, v, count, below, free_pages-set_run n start p, used_pages-set_run n start p))
    where
      count : count_used total_pages (set_run n start p) ≡ count_used total_pages p + n
      count = count_used-set_run n start total_pages p v.bytes free fits

      below : count_used total_pages (set_run n start p) ≤ total_pages
      below = count_used-le total_pages (set_run n start p)

  pub take_page-IsValid : (i : ℕ) → i < total_pages → bit_test i p ≡ false → IsValid (take_page i p)
  unfolding take_run take_page set_run
  take_page-IsValid i inside clear =
      take_run-IsValid 1 i (λ j lo hi. let e : j ≡ i = omega arith in rw e clear) (omega arith)

  pub release_page-IsValid :
      (i : ℕ) → i < total_pages → bit_test i p ≡ true → IsValid (release_page i p)
  unfolding release_page bit_clear
  release_page-IsValid i inside used =
      counters-IsValid _ _ (bit_clear i p) (bit_clear-IsBytes i p v.bytes)
        (omega (arith, v, count, below)) (omega (arith, v, count, below))
    where
      count : count_used total_pages (bit_clear i p) + 1 ≡ count_used total_pages p
      count = ground (arith, count_used-bit_clear i p v.bytes total_pages used)

      below : count_used total_pages p ≤ total_pages
      below = count_used-le total_pages p

  pub free_page-IsValid : (addr : ℕ) → IsValid (free_page addr p)
  unfolding free_page addr_to_page
  free_page-IsValid addr = ground (arith, release_page-IsValid (addr_to_page addr))

pub all_free-clear : (j : ℕ) → bit_test j all_free ≡ false
unfolding bit_test
all_free-clear j = ground (arith, zero-div (2 ^ (j % 8)))

pub all_free-IsValid : IsValid all_free
all_free-IsValid = record {
  bytes = λ i. omega arith;
  counted = sym (count_used-zero total_pages all_free all_free-clear);
  all = refl;
}

-- For a kernel that ends inside the RAM the pages below its end are reserved.
reserved_count_bounds :
    (kernel_end : ℕ)
    → ram_base ≤ kernel_end
    → kernel_end ≤ ram_end
    → (kernel_end ≤ ram_base + reserved_count kernel_end * page_size)
      × (ram_base + reserved_count kernel_end * page_size < kernel_end + page_size)
      × (reserved_count kernel_end ≤ total_pages)
unfolding reserved_count
reserved_count_bounds kernel_end lo hi = omega arith

module _ (kernel_end : ℕ) (lo : ram_base ≤ kernel_end) (hi : kernel_end ≤ ram_end) where
  pub init-IsValid : IsValid (init kernel_end)
  unfolding init take_run
  init-IsValid =
      take_run-IsValid all_free-IsValid (reserved_count kernel_end) 0 (λ j _ _. all_free-clear j)
        (omega (arith, reserved_count_bounds kernel_end lo hi))

  bit_test-init : (j : ℕ) → bit_test j (init kernel_end) ≡ ltb j (reserved_count kernel_end)
  unfolding init
  bit_test-init j =
      bit_test-counters j _ _ (set_run (reserved_count kernel_end) 0 all_free)
      ∙ ground (
        arith,
        bit_test-set_run (reserved_count kernel_end) 0 j all_free all_free-IsValid.bytes,
        all_free-clear j,
      )

  -- `pmm_init` of a kernel end inside the RAM leaves a valid allocator, in which a page is used
  -- exactly if its first byte lies below `kernel_end`.
  pub init_reserves :
      IsValid (init kernel_end)
      × ((j : ℕ) → bit_test j (init kernel_end) ≡ ltb (ram_base + j * page_size) kernel_end)
  init_reserves =
      (init-IsValid, λ j. ground (arith, reserved_count_bounds kernel_end lo hi, bit_test-init j))
