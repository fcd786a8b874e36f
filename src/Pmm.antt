-- ===== src/Pmm.antt =====
-- The page frame allocator: pmm.c and the constants of pmm.h. The bitmap is an array of bytes,
-- kept as a function of the index; what is printed on the console is left out.
pub mod Bits
pub mod Count
mod Tests
pub mod Effect
pub mod Alloc
pub mod Valid
use Prim.Native.Nat.{bit_and, bit_or}
use archarch.Base.{
  ℕ, zero, suc, ◌+◌, ◌-◌, ◌*◌, ◌/◌, ◌%◌, ◌^◌, Bool, true, false, not, ◌&&◌, ◌||◌, ◌==◌, ltb, leb,
  if◌then◌else◌, upd,
}
use archarch.Base.Word.{add32, sub32, mul32, add64, sub64}

abbrev pub page_size : ℕ
page_size = 4096

abbrev pub ram_base : ℕ
ram_base = 0x40000000

abbrev pub ram_size : ℕ
ram_size = 128 * 1024 * 1024

abbrev pub ram_end : ℕ
ram_end = ram_base + ram_size

abbrev pub total_pages : ℕ
total_pages = ram_size / page_size

-- `a & ~(PAGE_SIZE - 1)` clears the low twelve bits.
abbrev pub page_align_down : ℕ → ℕ
page_align_down a = a / page_size * page_size

abbrev pub page_align_up : ℕ → ℕ
page_align_up a = page_align_down (add64 a (page_size - 1))

pub record Pmm : Type 0 where
  pub bitmap : ℕ → ℕ
  pub free_pages : ℕ
  pub used_pages : ℕ

-- `bitmap[page / 8] |= (1 << (page % 8))`
unfoldable pub bit_set : ℕ → Pmm → Pmm
bit_set page p = record p {
  bitmap = upd p.bitmap (page / 8) (bit_or (p.bitmap (page / 8)) (2 ^ (page % 8)) % 256);
}

-- `bitmap[page / 8] &= ~(1 << (page % 8))`: of the complement only the low eight bits matter.
unfoldable pub bit_clear : ℕ → Pmm → Pmm
bit_clear page p = record p {
  bitmap = upd p.bitmap (page / 8) (bit_and (p.bitmap (page / 8)) (255 - 2 ^ (page % 8)));
}

-- `(bitmap[page / 8] >> (page % 8)) & 1`
unfoldable pub bit_test : ℕ → Pmm → Bool
bit_test page p = p.bitmap (page / 8) / 2 ^ (page % 8) % 2 == 1

unfoldable pub addr_to_page : ℕ → ℕ
addr_to_page addr = sub64 addr ram_base / page_size % 2 ^ 32

unfoldable pub page_to_addr : ℕ → ℕ
page_to_addr page = add64 ram_base (page * page_size % 2 ^ 64)

-- `for (j = start; j < start + n; j++) bit_set(j)`
unfoldable pub set_run : ℕ → ℕ → Pmm → Pmm
unfolding bit_set
set_run zero start p = p
set_run (suc n) start p = set_run n (start + 1) (bit_set start p)

-- The state after the first loop of `pmm_init`: every page is free.
abbrev pub all_free : Pmm
all_free = record { bitmap = λ i. 0; free_pages = total_pages; used_pages = 0 }

-- How many pages `pmm_init` reserves.
unfoldable pub reserved_count : ℕ → ℕ
reserved_count kernel_end = sub64 (page_align_up kernel_end) ram_base / page_size % 2 ^ 32

-- `pmm_init(kernel_end)`; the state before it does not matter.
unfoldable pub init : ℕ → Pmm
unfolding set_run reserved_count
init kernel_end =
    let n = reserved_count kernel_end in
    let p = set_run n 0 all_free in
    record p { used_pages = add32 p.used_pages n; free_pages = sub32 p.free_pages n }

-- The body of an allocation, and of `pmm_mark_used`: the page becomes used.
unfoldable pub take_page : ℕ → Pmm → Pmm
unfolding bit_set
take_page i p =
    let q = bit_set i p in
    record q { free_pages = sub32 q.free_pages 1; used_pages = add32 q.used_pages 1 }

-- The scan of `pmm_alloc_page` with `n` pages left to look at; 0 is a failure.
unfoldable pub alloc_page_from : ℕ → ℕ → Pmm → ℕ × Pmm
unfolding take_page bit_test page_to_addr
alloc_page_from zero i p = (0, p)
alloc_page_from (suc n) i p =
    let rest = alloc_page_from n (i + 1) p in
    if not (bit_test i p) then (page_to_addr i, take_page i p) else rest

unfoldable pub alloc_page : Pmm → ℕ × Pmm
alloc_page = alloc_page_from total_pages 0

-- The page becomes free.
unfoldable pub release_page : ℕ → Pmm → Pmm
unfolding bit_clear
release_page page p =
    let q = bit_clear page p in
    record q { free_pages = add32 q.free_pages 1; used_pages = sub32 q.used_pages 1 }

-- `pmm_free_page(addr)`: an address outside the RAM, or of a page that is free, changes nothing.
unfoldable pub free_page : ℕ → Pmm → Pmm
unfolding addr_to_page bit_test release_page
free_page addr p =
    let page = addr_to_page addr in
    if ltb addr ram_base || leb ram_end addr
    then p
    else if bit_test page p
    then release_page page p
    else p

-- What `pmm_alloc_pages` does with a run of `count` free pages that begins at `start`.
unfoldable pub take_run : ℕ → ℕ → Pmm → ℕ × Pmm
unfolding set_run page_to_addr
take_run count start p =
    let q = set_run count start p in
    (
      page_to_addr start,
      record q { free_pages = sub32 q.free_pages count; used_pages = add32 q.used_pages count },
    )

-- The first-fit scan of `pmm_alloc_pages`, with `n` pages left to look at.
unfoldable pub alloc_pages_from : ℕ → (n i run start : ℕ) → Pmm → ℕ × Pmm
unfolding take_run bit_test
alloc_pages_from count zero i run start p = (0, p)
alloc_pages_from count (suc n) i run start p =
    let start' = if run == 0 then i else start in
    let rest = alloc_pages_from count n (i + 1) (run + 1) start' p in
    let skip = alloc_pages_from count n (i + 1) 0 start p in
    if bit_test i p then skip else if run + 1 == count then take_run count start' p else rest

unfoldable pub alloc_pages : ℕ → Pmm → ℕ × Pmm
alloc_pages count p = if count == 0 then (0, p) else alloc_pages_from count total_pages 0 0 0 p

-- `pmm_free_pages(addr, count)`, from the `i`-th page on.
unfoldable pub free_pages_from : (n i addr : ℕ) → Pmm → Pmm
unfolding free_page
free_pages_from zero i addr p = p
free_pages_from (suc n) i addr p =
    free_pages_from n (i + 1) addr (free_page (add64 addr (mul32 i page_size)) p)

unfoldable pub free_pages : ℕ → ℕ → Pmm → Pmm
free_pages addr count = free_pages_from count 0 addr

unfoldable pub mark_from : (n i : ℕ) → Pmm → Pmm
unfolding take_page bit_test
mark_from zero i p = p
mark_from (suc n) i p = mark_from n (i + 1) (if bit_test i p then p else take_page i p)

-- The loop ends at `last` or at the last page, whichever comes first.
unfoldable pub mark_used : ℕ → ℕ → Pmm → Pmm
mark_used start end p =
    let start' = if ltb start ram_base then ram_base else start in
    let end' = if ltb ram_end end then ram_end else end in
    let first = addr_to_page (page_align_down start') in
    let last = addr_to_page (page_align_up end') in
    let stop = if ltb last total_pages then last else total_pages in
    mark_from (stop - first) first p
