-- ===== src/Kmalloc/Grow.antt =====
-- `kmalloc` when no block is large enough: it returns if the page allocator can help, and never
-- returns if it cannot.
use archarch.Base.{
  ℕ, zero, suc, ◌^◌, ◌≤◌, ◌<◌, ◌≡◌, ◌≢◌, refl, arith, ==_ne, none, some, Option-cases, inl, inr,
}
use archarch.Base.Word.{add64, mul32}
use archarch.Pmm.{page_size, alloc_pages}
use archarch.Kmalloc.{
  Heap, header_size, align16, Fit, first_fit, take_fit, kmalloc, heap_grow, pages_needed,
  phys_to_virt, add_pages,
}
use archarch.Kmalloc.Alloc.{IsSmall, first_fit-add_pages}

-- The heap after the pages were asked for.
abbrev asked : ℕ → Heap → Heap
asked pages h = record h { pmm = (alloc_pages pages h.pmm).1 }

heap_grow-add_pages :
    (pages : ℕ) (h : Heap)
    → (alloc_pages pages h.pmm).0 ≢ 0
    → heap_grow pages h
      ≡ add_pages (phys_to_virt (alloc_pages pages h.pmm).0) (mul32 pages page_size) (asked pages h)
unfolding heap_grow
heap_grow-add_pages pages h got = rw (==_ne (alloc_pages pages h.pmm).0 0 got)

-- For 1 to 2^30 bytes, in a heap of blocks that are small against the address space: if no block is
-- large enough, but the page allocator has the pages that are needed, `kmalloc` returns after it has called itself once, and the pointer is one into a block.
pub kmalloc_returns :
    (size : ℕ) (h : Heap)
    → 0 < size
    → size ≤ 2 ^ 30
    → IsSmall h.blocks
    → first_fit (align16 size) h.blocks ≡ none
    → (alloc_pages (pages_needed (align16 size)) h.pmm).0 ≢ 0
    → (f : Fit) × (kmalloc 2 size h
        ≡ some (
          add64 f.block.addr header_size,
          take_fit (align16 size) f (heap_grow (pages_needed (align16 size)) h),
        ))
      × (first_fit (align16 size) (heap_grow (pages_needed (align16 size)) h).blocks ≡ some f)
unfolding kmalloc
kmalloc_returns size h positive small blocks miss got =
    elim (Option-cases
      (first_fit (align16 size) (heap_grow (pages_needed (align16 size)) h).blocks)) [
        | inl again ↦ absurd (fits again)
        | inr (f, found) ↦ (
          f,
          rw (
            ==_ne size 0 (omega arith),
            miss,
            ==_ne (align16 size) 0 (omega arith),
            facts,
            found,
            facts,
          ),
          found,
        )
      ]
  where
    facts : align16 (align16 size) ≡ align16 size
    facts = omega arith

    fits : first_fit (align16 size) (heap_grow (pages_needed (align16 size)) h).blocks ≢ none
    fits = rw (heap_grow-add_pages (pages_needed (align16 size)) h got) (
        first_fit-add_pages (align16 size)
          (phys_to_virt (alloc_pages (pages_needed (align16 size)) h.pmm).0)
          (asked (pages_needed (align16 size)) h) (omega arith) blocks)

heap_grow-none :
    (pages : ℕ) (h : Heap) → alloc_pages pages h.pmm ≡ (0, h.pmm) → heap_grow pages h ≡ h
unfolding heap_grow
heap_grow-none pages h e = rw e

-- For 1 to 2^62 bytes: if no block is large enough and the page allocator has no run of the pages that are needed,
-- `kmalloc` does not return: it calls itself for ever, whatever the number of rounds, and never
-- reaches the NULL that its header promises.
pub kmalloc_never_returns :
    (fuel size : ℕ) (h : Heap)
    → 0 < size
    → size ≤ 2 ^ 62
    → first_fit (align16 size) h.blocks ≡ none
    → alloc_pages (pages_needed (align16 size)) h.pmm ≡ (0, h.pmm)
    → kmalloc fuel size h ≡ none
unfolding kmalloc
kmalloc_never_returns zero size h positive small miss dry = refl
kmalloc_never_returns (suc fuel) size h positive small miss dry =
    rw (==_ne size 0 (omega arith), miss, heap_grow-none (pages_needed (align16 size)) h dry)
      (kmalloc_never_returns fuel (align16 size) h (omega arith) (omega arith) (rw again miss)
        (rw again dry))
  where
    again : align16 (align16 size) ≡ align16 size
    again = omega arith
