-- ===== src/Pmm/Tests.antt =====
-- Runs of pmm.c, and the allocator's theorems at concrete states.
use archarch.Base.{ℕ, ◌<◌, ◌≡◌, ◌≢◌, refl, arith}
use archarch.Pmm.{
  total_pages, init, bit_test, bit_set, bit_clear, set_run, take_run, take_page, page_to_addr,
  addr_to_page, alloc_pages_from, alloc_pages, alloc_page_from, alloc_page, free_page, release_page,
  free_pages, free_pages_from, mark_used, mark_from,
}
use archarch.Pmm.Valid.{init-IsValid}
use archarch.Pmm.Alloc.{Allocated, alloc_pages_lem}
use archarch.Pmm.Effect.{free_pages-alloc_pages}

-- A kernel that ends within the fourth page of the RAM.
abbrev kernel_end : ℕ
kernel_end = 0x40003210

alloc_runs :
    ((alloc_pages 3 (init kernel_end)).0 ≡ 0x40004000)
    × ((alloc_page (alloc_pages 3 (init kernel_end)).1).0 ≡ 0x40007000)
    × ((free_page 0x40001000 (init kernel_end)).free_pages ≡ 32765)
    × ((alloc_page (free_page 0x40001000 (init kernel_end))).0 ≡ 0x40001000)
    × ((mark_used 0x40003000 0x40006001 (init kernel_end)).used_pages ≡ 7)
    × ((free_pages 0x40000000 4 (init kernel_end)).used_pages ≡ 0)
unfolding init alloc_pages alloc_pages_from take_run set_run bit_set page_to_addr alloc_page
    alloc_page_from take_page free_page free_pages free_pages_from mark_used mark_from addr_to_page
    bit_test bit_clear release_page
alloc_runs = (refl, refl, refl, refl, refl, refl)

alloc_pages_lem_example : Allocated 3 (init kernel_end) (alloc_pages 3 (init kernel_end))
alloc_pages_lem_example = alloc_pages_lem 3 (init kernel_end) (omega arith)

nonzero : (alloc_pages 3 (init kernel_end)).0 ≢ 0
unfolding init alloc_pages alloc_pages_from take_run set_run bit_set page_to_addr bit_test
nonzero = omega arith

free_pages-alloc_pages_example :
    let (a, q) = alloc_pages 3 (init kernel_end) in
    let r = free_pages a 3 q in
    ((j : ℕ) → j < total_pages → bit_test j r ≡ bit_test j (init kernel_end))
    × (r.free_pages ≡ (init kernel_end).free_pages)
    × (r.used_pages ≡ (init kernel_end).used_pages)
free_pages-alloc_pages_example =
    free_pages-alloc_pages 3 (init kernel_end) (init-IsValid kernel_end (omega arith) (omega arith))
      (omega arith) nonzero
