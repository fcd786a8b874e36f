-- ===== src/Mmu.antt =====
-- User page tables: mmu.c and mmu.h. Tables are pages of 512 words in memory, named by their address
-- in the kernel's address space; the page allocator gives the pages. What is printed on the console
-- and the barriers are left out.
pub mod Entries
pub mod Alloc
pub mod Tree
pub mod Walk
pub mod Step
pub mod Link
pub mod Map
pub mod Create
pub mod User
pub mod Pgd
pub mod Sample
mod Tests
use archarch.Base.{
  ℕ, zero, suc, ◌+◌, ◌*◌, ◌/◌, ◌%◌, ◌^◌, Bool, true, false, ◌==◌, if◌then◌else◌, Option, none, some,
  ℤ, pos, minus_one,
}
use archarch.Base.Word.{add64, sub64, mul32}
use archarch.Memory.{Memory, load64, store64}
use archarch.Kmalloc.{phys_to_virt}
use archarch.Pmm.{Pmm, page_size, alloc_page, free_page}

abbrev pub user_va_code : ℕ
user_va_code = 0x00400000

abbrev pub user_va_stack : ℕ
user_va_stack = 0x00800000

abbrev pub user_stack_pages : ℕ
user_stack_pages = 4

abbrev pub user_va_guard : ℕ
user_va_guard = sub64 user_va_stack ((user_stack_pages + 1) * page_size)

abbrev pub pt_entries : ℕ
pt_entries = 512

-- What the functions change: the allocator and memory.
pub record Space : Type 0 where
  pub pmm : Pmm
  pub mem : Memory

abbrev pub put_mem : Memory → Space → Space
put_mem m s = record s { mem = m }

-- `table[i]`
unfoldable pub entry : ℕ → ℕ → Memory → ℕ
entry table i m = load64 (table + i * 8) m

-- `table[i] = v`
unfoldable pub set_entry : ℕ → ℕ → ℕ → Memory → Memory
set_entry table i v m = store64 (table + i * 8) v m

-- `a | 1 << k`
unfoldable pub or_bit : ℕ → ℕ → ℕ
or_bit k a = if a / 2 ^ k % 2 == 1 then a else a + 2 ^ k

-- `pa | PTE_VALID | PTE_TABLE`
unfoldable pub table_entry : ℕ → ℕ
table_entry pa = or_bit 1 (or_bit 0 pa)

-- `pa | PTE_VALID | PTE_PAGE | PTE_AF | PTE_ATTR_NORMAL | PTE_SH_INNER | PTE_AP_RW_ALL | PTE_PXN`
unfoldable pub page_entry : ℕ → ℕ
page_entry pa =
    or_bit 53 (or_bit 6 (or_bit 9 (or_bit 8 (or_bit 2 (or_bit 10 (or_bit 1 (or_bit 0 pa)))))))

-- `(e & 0x3) == 0x3`
abbrev pub is_table : ℕ → Bool
is_table e = e % 4 == 3

-- `e & ~0xFFF`
abbrev pub target : ℕ → ℕ
target e = e / 4096 * 4096

-- The loop of `zero_table`, with `n` entries left to clear.
unfoldable pub zero_from : ℕ → ℕ → ℕ → Memory → Memory
zero_from zero i table m = m
zero_from (suc n) i table m = zero_from n (i + 1) table (set_entry table i 0 m)

unfoldable pub zero_table : ℕ → Memory → Memory
zero_table table m = zero_from pt_entries 0 table m

-- `pmm_alloc_page` and, on success, `zero_table`: the page's physical address, or 0.
unfoldable pub alloc_table : Space → ℕ × Space
alloc_table s =
    let r = alloc_page s.pmm in
    (
      r.0,
      record { pmm = r.1; mem = if r.0 == 0 then s.mem else zero_table (phys_to_virt r.0) s.mem },
    )

-- The table that the entry names; without one, a new table that it then names.
unfoldable pub next_table : ℕ → ℕ → Space → Option ℕ × Space
next_table table i s =
    let e = entry table i s.mem in
    let r = alloc_table s in
    let linked = put_mem (set_entry table i (table_entry r.0) r.1.mem) r.1 in
    if is_table e
    then (some (phys_to_virt (target e)), s)
    else if r.0 == 0
    then (none, r.1)
    else (some (phys_to_virt r.0), linked)

-- The loops that map `n` pages, from page `p` of `pa` on; `at` says which entry a page has.
unfoldable pub map_from : ℕ → ℕ → (at : ℕ → ℕ) → (pa table : ℕ) → Memory → Memory
map_from zero p at pa table m = m
map_from (suc n) p at pa table m =
    map_from n (p + 1) at pa table
      (set_entry table (at p) (page_entry (add64 pa (mul32 p page_size))) m)

-- `((USER_VA_CODE >> 12) + p) & 0x1FF`
unfoldable pub code_idx : ℕ → ℕ
code_idx p = (user_va_code / 2 ^ 12 + p) % 512

-- `(va >> 12) & 0x1FF` with `va = stack_va_base + p * PAGE_SIZE`
unfoldable pub stack_idx : ℕ → ℕ → ℕ
stack_idx base p = add64 base (mul32 p page_size) / 2 ^ 12 % 512

-- The block that maps the code: false is `return 0`.
unfoldable pub map_code : (code_pa code_pages l2 : ℕ) → Space → Bool × Space
map_code code_pa code_pages l2 s =
    let r = alloc_table s in
    let filled = map_from code_pages 0 code_idx code_pa (phys_to_virt r.0) r.1.mem in
    let linked = set_entry l2 (user_va_code / 2 ^ 21 % 512) (table_entry r.0) filled in
    if r.0 == 0 then (false, r.1) else (true, put_mem linked r.1)

-- The block that maps the stack.
unfoldable pub map_stack : (stack_pa stack_pages l2 : ℕ) → Space → Bool × Space
map_stack stack_pa stack_pages l2 s =
    let base = sub64 user_va_stack (mul32 stack_pages page_size) in
    let r = next_table l2 (base / 2 ^ 21 % 512) s in
    elim r.0 [
      | none ↦ (false, r.1)
      | some l3 ↦ (true, put_mem (map_from stack_pages 0 (stack_idx base) stack_pa l3 r.1.mem) r.1)
    ]

-- `mmu_create_user_pgd` once both upper tables exist.
unfoldable pub map_user :
    (code_pa code_pages stack_pa stack_pages l1_pa l2_pa : ℕ) → Space → ℕ × Space
map_user code_pa code_pages stack_pa stack_pages l1_pa l2_pa s =
    let l2 = phys_to_virt l2_pa in
    let s1 = put_mem (set_entry (phys_to_virt l1_pa) 0 (table_entry l2_pa) s.mem) s in
    let c = map_code code_pa code_pages l2 s1 in
    let k = map_stack stack_pa stack_pages l2 c.1 in
    if c.0 then (if k.0 then (l1_pa, k.1) else (0, k.1)) else (0, c.1)

unfoldable pub mmu_create_user_pgd :
    (code_pa code_pages stack_pa stack_pages : ℕ) → Space → ℕ × Space
mmu_create_user_pgd code_pa code_pages stack_pa stack_pages s =
    let r1 = alloc_table s in
    let r2 = alloc_table r1.1 in
    if r1.0 == 0
    then (0, r1.1)
    else if r2.0 == 0
    then (0, record r2.1 { pmm = free_page r1.0 r2.1.pmm })
    else map_user code_pa code_pages stack_pa stack_pages r1.0 r2.0 r2.1

unfoldable pub mmu_map_user_page_in_pgd : (pgd va pa : ℕ) → Space → ℤ × Space
mmu_map_user_page_in_pgd pgd va pa s =
    let r2 = next_table (phys_to_virt pgd) (va / 2 ^ 30 % 512) s in
    elim r2.0 [
      | none ↦ (minus_one, r2.1)
      | some l2 ↦
          let r3 = next_table l2 (va / 2 ^ 21 % 512) r2.1 in
          elim r3.0 [
            | none ↦ (minus_one, r3.1)
            | some l3 ↦
                (pos 0, put_mem (set_entry l3 (va / 2 ^ 12 % 512) (page_entry pa) r3.1.mem) r3.1)
          ]
    ]
