-- ===== src/Kmalloc/Tests.antt =====
-- Runs of kmalloc.c, and the heap's theorems at concrete heaps.
use archarch.Base.{ℕ, ◌+◌, ◌≡◌, refl, arith, true, false, some, none, [], ◌∷◌, if◌then◌else◌, ◌==◌}
use mathlib.Core.Option
use archarch.Base.Word.{add64}
use archarch.Pmm.{
  Pmm, total_pages, all_free, alloc_pages, alloc_pages_from, take_run, set_run, bit_set, bit_test,
  page_to_addr,
}
use archarch.Kmalloc.{
  Block, Heap, Fit, header_size, first_fit, take_fit, heap_grow, kmalloc, kfree, pages_needed,
}
use archarch.Kmalloc.Tiles.{Tiles, live_size}
use archarch.Kmalloc.Alloc.{Handed, kmalloc-Handed}
use archarch.Kmalloc.Grow.{kmalloc_returns, kmalloc_never_returns}
use archarch.Kmalloc.Free.{kfree_lem}
use archarch.Kmalloc.Gap.{kfree_bridges_gap}

-- A page allocator with no free page left.
abbrev dry : Pmm
dry = record { bitmap = λ i. 255; free_pages = 0; used_pages = total_pages }

-- A used block of 64 bytes, a free one of 160 and a used one of 16.
abbrev three : Heap
three = record {
  blocks =
      record { addr = 0x1000; size = 64; free = false }
      ∷ record { addr = 0x1060; size = 160; free = true }
      ∷ record { addr = 0x1120; size = 16; free = false }
      ∷ [];
  heap_end = 0x1120;
  total_allocated = 80;
  total_freed = 0;
  heap_size = 0x150;
  pmm = all_free;
}

kmalloc-Handed_example :
    (p : ℕ) × (h' : Heap) × (kmalloc 1 40 three ≡ some (p, h')) × Handed 48 0x1000 0x1150 three p h'
unfolding first_fit
kmalloc-Handed_example =
    kmalloc-Handed 0 40 0x1000 0x1150 three (omega arith) (omega arith) (omega arith) (omega arith)
      (ground arith)

-- The free block is split behind the 48 bytes.
split_runs : Option.map (λ (r : ℕ × Heap). r.0) (kmalloc 1 40 three) ≡ some 0x1080
unfolding kmalloc first_fit
split_runs = refl

kmalloc_returns_example :
    (f : Fit) × (kmalloc 2 5000 three
      ≡ some
          (add64 f.block.addr header_size, take_fit 5008 f (heap_grow (pages_needed 5008) three)))
    × (first_fit 5008 (heap_grow (pages_needed 5008) three).blocks ≡ some f)
unfolding first_fit pages_needed alloc_pages alloc_pages_from take_run set_run bit_set bit_test
    page_to_addr
kmalloc_returns_example =
    kmalloc_returns 5000 three (omega arith) (omega arith) (omega arith) refl (omega arith)

empty_dry : Heap
empty_dry = record three { pmm = dry }

kmalloc_never_returns_example : kmalloc 1000 5000 (record three { pmm = dry }) ≡ none
unfolding first_fit pages_needed alloc_pages alloc_pages_from bit_test
kmalloc_never_returns_example =
    kmalloc_never_returns 1000 5000 (record three { pmm = dry }) (omega arith) (omega arith) refl
      refl

kfree_lem_example :
    let h' = kfree (0x1000 + 32) three in
    Tiles 0x1000 h'.blocks 0x1150
    × ((x : ℕ) → live_size x h'.blocks ≡ (if 0x1000 == x then none else live_size x three.blocks))
unfolding live_size
kfree_lem_example =
    kfree_lem three 0x1000 0x1150 0x1000 64 (omega arith) (omega arith) (omega arith) refl

-- Two blocks of the kernel's heap with a page between them, and used ones around them.
abbrev first_block : Block
first_block = record { addr = 0xFFFFFF8040000000; size = 64; free = false }

abbrev freed : Block
freed = record { addr = 0xFFFFFF8040000060; size = 64; free = false }

abbrev far : Block
far = record { addr = 0xFFFFFF80400010C0; size = 160; free = true }

abbrev last_block : Block
last_block = record { addr = 0xFFFFFF8040001180; size = 16; free = false }

abbrev apart : Heap
apart = record three { blocks = first_block ∷ freed ∷ far ∷ last_block ∷ [] }

kfree_bridges_gap_example :
    (kfree (0xFFFFFF8040000060 + 32) apart).blocks
    ≡ first_block ∷ record { addr = 0xFFFFFF8040000060; size = 256; free = true } ∷ last_block ∷ []
kfree_bridges_gap_example =
    kfree_bridges_gap apart (first_block ∷ []) (last_block ∷ []) freed far refl (omega arith, refl)
      (omega arith, tt) (omega arith) (omega arith) refl
