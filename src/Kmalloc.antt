-- ===== src/Kmalloc.antt =====
-- The kernel heap: kmalloc.c over the page allocator, and the address helpers of kva.h. The chain
-- of block headers is the list of its blocks from `heap_start` on, in the order of the `next`
-- pointers; each block keeps the address of its header.
pub mod Tiles
mod Tests
pub mod Alloc
pub mod Grow
pub mod Free
pub mod Gap
use archarch.Base.{
  ℕ, zero, suc, ◌+◌, ◌-◌, ◌*◌, ◌/◌, ◌%◌, ◌^◌, Bool, true, false, not, ◌&&◌, ◌||◌, ◌==◌, ltb, leb,
  if◌then◌else◌, Option, none, some, List, [], ◌∷◌, ◌++◌, upd,
}
use archarch.Base.Word.{add64, sub64, mul32}
use archarch.Pmm.{Pmm, page_size, alloc_pages}

abbrev pub kern_va_offset : ℕ
kern_va_offset = 0xFFFFFF8000000000

abbrev pub phys_to_virt : ℕ → ℕ
phys_to_virt pa = add64 pa kern_va_offset

abbrev pub virt_to_phys : ℕ → ℕ
virt_to_phys va = sub64 va kern_va_offset

abbrev pub heap_initial_pages : ℕ
heap_initial_pages = 16

-- `(x + 15) & ~15UL`
abbrev pub align16 : ℕ → ℕ
align16 x = add64 x 15 / 16 * 16

-- `struct block_header` takes 24 bytes.
abbrev pub header_size : ℕ
header_size = align16 24

pub record Block : Type 0 where
  pub addr : ℕ
  pub size : ℕ
  pub free : Bool

pub record Heap : Type 0 where
  pub blocks : List Block
  pub heap_end : ℕ
  pub total_allocated : ℕ
  pub total_freed : ℕ
  pub heap_size : ℕ
  pub pmm : Pmm

unfoldable pub find_block : ℕ → List Block → Option Block
find_block a [] = none
find_block a (b ∷ bs) = if b.addr == a then some b else find_block a bs

-- `heap_end->size += n`
unfoldable pub extend_block : ℕ → ℕ → List Block → List Block
extend_block a n [] = []
extend_block a n (b ∷ bs) =
    if b.addr == a then record b { size = add64 b.size n } ∷ bs else b ∷ extend_block a n bs

-- The last block ends where the new pages begin, and is free.
unfoldable pub extends : ℕ → List Block → ℕ → Bool
unfolding find_block
extends heap_end bs new_pages = elim (find_block heap_end bs) [
  | none ↦ false
  | some b ↦ not (heap_end == 0) && add64 (add64 heap_end header_size) b.size == new_pages && b.free
]

-- `heap_grow` with the pages at `new_pages`. In three of its four branches a new free block becomes
-- the last one; in the fourth the last block grows.
unfoldable pub add_pages : ℕ → ℕ → Heap → Heap
unfolding extends extend_block
add_pages new_pages grow_size h =
    if extends h.heap_end h.blocks new_pages
    then record h {
      blocks = extend_block h.heap_end grow_size h.blocks;
      heap_size = add64 h.heap_size grow_size;
    }
    else record h {
      blocks =
          h.blocks
          ++ (record { addr = new_pages; size = sub64 grow_size header_size; free = true } ∷ []);
      heap_end = new_pages;
      heap_size = add64 h.heap_size grow_size;
    }

unfoldable pub heap_grow : ℕ → Heap → Heap
heap_grow pages h =
    let (pa, pmm') = alloc_pages pages h.pmm in
    let h' : Heap = record h { pmm = pmm' } in
    if pa == 0 then h' else add_pages (phys_to_virt pa) (mul32 pages page_size) h'

-- `kmalloc_init`
unfoldable pub init : Pmm → Heap
init pmm = heap_grow heap_initial_pages (record {
  blocks = [];
  heap_end = 0;
  total_allocated = 0;
  total_freed = 0;
  heap_size = 0;
  pmm = pmm;
})

-- What taking `size` bytes of block `b` leaves in the chain: the block, used, and what is split off.
unfoldable pub split : ℕ → Block → List Block
split size b =
    if leb (add64 (add64 size header_size) 16) b.size
    then record { addr = b.addr; size = size; free = false }
      ∷ record {
        addr = add64 (add64 b.addr header_size) size;
        size = sub64 (sub64 b.size size) header_size;
        free = true;
      }
      ∷ []
    else record b { free = false } ∷ []

-- Whether `split` makes a second block, which then is the last one if `b` was.
unfoldable pub splits : ℕ → Block → Bool
splits size b = leb (add64 (add64 size header_size) 16) b.size

-- A hit of the first-fit search: the block that is taken, and the chain afterwards.
pub record Fit : Type 0 where
  pub block : Block
  pub chain : List Block

unfoldable pub first_fit : ℕ → List Block → Option Fit
unfolding split
first_fit size [] = none
first_fit size (b ∷ bs) =
    let rest = first_fit size bs in
    if b.free && leb size b.size
    then some (record { block = b; chain = split size b ++ bs })
    else elim rest [ none ↦ none | some f ↦ some (record { block = f.block; chain = b ∷ f.chain }) ]

-- The size that the taken block has when it is handed out.
unfoldable pub taken_size : ℕ → Block → ℕ
unfolding splits
taken_size size b = if splits size b then size else b.size

unfoldable pub take_fit : ℕ → Fit → Heap → Heap
unfolding taken_size splits
take_fit size f h = record h {
  blocks = f.chain;
  heap_end =
      if splits size f.block && f.block.addr == h.heap_end
      then add64 (add64 f.block.addr header_size) size
      else h.heap_end;
  total_allocated = add64 h.total_allocated (taken_size size f.block);
}

unfoldable pub pages_needed : ℕ → ℕ
pages_needed size =
    let n = add64 (add64 size header_size) (page_size - 1) / page_size % 2 ^ 32 in
    if ltb n 4 then 4 else n

-- `kmalloc`, which calls itself again after the heap was grown. `none` is a call that has not
-- returned after `fuel` rounds.
unfoldable pub kmalloc : (fuel : ℕ) → ℕ → Heap → Option (ℕ × Heap)
kmalloc zero size h = none
kmalloc (suc fuel) size h =
    let size' = align16 size in
    let retry = kmalloc fuel size' (heap_grow (pages_needed size') h) in
    if size == 0 then some (0, h) else elim (first_fit size' h.blocks) [
      | some f ↦ some (add64 f.block.addr header_size, take_fit size' f h)
      | none ↦ retry
    ]

-- The first free neighbour behind a block that was just freed.
unfoldable pub merge_next : Block → List Block → List Block
merge_next b [] = b ∷ []
merge_next b (n ∷ ns) =
    if n.free then record b { size = add64 b.size (add64 header_size n.size) } ∷ ns else b ∷ n ∷ ns

-- The chain after the block at `a` is marked free and has taken in its free successor.
unfoldable pub release : ℕ → List Block → List Block
unfolding merge_next
release a [] = []
release a (b ∷ bs) =
    if b.addr == a then merge_next (record b { free = true }) bs else b ∷ release a bs

-- The chain after a free predecessor has taken in the block at `a`.
unfoldable pub merge_prev : ℕ → List Block → List Block
merge_prev a [] = []
merge_prev a (p ∷ []) = p ∷ []
merge_prev a (p ∷ b ∷ bs) =
    if b.addr == a
    then (if p.free
        then record p { size = add64 p.size (add64 header_size b.size) } ∷ bs
        else p ∷ b ∷ bs)
    else p ∷ merge_prev a (b ∷ bs)

-- `heap_end` after the two merges: it moves back when its block was taken in.
unfoldable pub end_after_next : ℕ → ℕ → List Block → ℕ
end_after_next a heap_end [] = heap_end
end_after_next a heap_end (b ∷ []) = heap_end
end_after_next a heap_end (b ∷ n ∷ bs) =
    if b.addr == a
    then (if n.free && n.addr == heap_end then a else heap_end)
    else end_after_next a heap_end (n ∷ bs)

unfoldable pub end_after_prev : ℕ → ℕ → List Block → ℕ
end_after_prev a heap_end [] = heap_end
end_after_prev a heap_end (p ∷ []) = heap_end
end_after_prev a heap_end (p ∷ b ∷ bs) =
    if b.addr == a
    then (if p.free && a == heap_end then p.addr else heap_end)
    else end_after_prev a heap_end (b ∷ bs)

-- The body of `kfree`, given the address of the block's header. An address that no block has
-- changes nothing here; the source would write through it, which the theorems rule out.
unfoldable pub free_block : ℕ → Heap → Heap
free_block a h = elim (find_block a h.blocks) [
  | none ↦ h
  | some b ↦ record h {
    blocks = merge_prev a (release a h.blocks);
    heap_end = end_after_prev a (end_after_next a h.heap_end h.blocks) (release a h.blocks);
    total_freed = add64 h.total_freed b.size;
  }
]

unfoldable pub kfree : ℕ → Heap → Heap
kfree ptr h = if ptr == 0 then h else free_block (sub64 ptr header_size) h

-- The loop of `kmalloc_dump_stats`.
pub record Stats : Type 0 where
  pub free_blocks : ℕ
  pub used_blocks : ℕ
  pub free_bytes : ℕ
  pub used_bytes : ℕ

unfoldable pub stats : List Block → Stats
stats [] = record { free_blocks = 0; used_blocks = 0; free_bytes = 0; used_bytes = 0 }
stats (b ∷ bs) =
    let s = stats bs in
    if b.free
    then record s { free_blocks = s.free_blocks + 1; free_bytes = s.free_bytes + b.size }
    else record s { used_blocks = s.used_blocks + 1; used_bytes = s.used_bytes + b.size }
