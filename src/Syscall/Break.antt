-- ===== src/Syscall/Break.antt =====
-- SYS_SBRK of syscall.c: the break of the current task, and the pages mapped below it.
use archarch.Base.{
  ℕ, zero, suc, ◌+◌, ◌-◌, ◌/◌, ◌^◌, Bool, true, false, not, ◌||◌, ◌==◌, leb, if◌then◌else◌, is_neg,
}
use archarch.Base.Word.{add64}
use archarch.Memory.{Memory}
use archarch.Kmalloc.{phys_to_virt}
use archarch.Pmm.{page_size, page_align_up, alloc_page, free_page}
use archarch.Mmu.{Space, mmu_map_user_page_in_pgd, user_va_guard}
use archarch.Task.{Kernel, set_task}
use archarch.Sched.User.{zero_bytes, space_of, put_pmm}

-- A zeroed page for the loop's next round; false leaves the loop with `failed` set.
unfoldable pub map_heap_page : (pgd va : ℕ) → Space → Bool × Space
map_heap_page pgd va s =
    let r = alloc_page s.pmm in
    let zeroed : Space = record {
      pmm = r.1;
      mem = zero_bytes page_size 0 (phys_to_virt r.0) s.mem;
    } in
    let g = mmu_map_user_page_in_pgd pgd va r.0 zeroed in
    if r.0 == 0
    then (false, record s { pmm = r.1 })
    else if is_neg g.0
    then (false, record g.1 { pmm = free_page r.0 g.1.pmm })
    else (true, g.1)

-- The loop, with `n` pages left to map, the next of them at `va`.
unfoldable pub map_heap : ℕ → (pgd va : ℕ) → Space → Bool × Space
map_heap zero pgd va s = (true, s)
map_heap (suc n) pgd va s =
    let g = map_heap_page pgd va s in
    let rest = map_heap n pgd (va + page_size) g.1 in if g.0 then rest else (false, g.1)

-- How many rounds the loop from `map_from` to `page_end` has, both page-aligned.
abbrev pub heap_rounds : (old_break new_break : ℕ) → ℕ
heap_rounds old_break new_break = (page_align_up new_break - page_align_up old_break) / page_size

-- The result for the register x0, with the state.
unfoldable pub sys_sbrk : (increment : ℕ) → Kernel → Memory → ℕ × Kernel × Memory
unfolding map_heap
sys_sbrk increment k m =
    let t = k.tasks k.current_task in
    let old_break = t.heap_break in
    let new_break = add64 old_break increment in
    let r =
      map_heap (heap_rounds old_break new_break) t.ttbr0 (page_align_up old_break) (space_of k m) in
    let k' = put_pmm r.1.pmm k in
    if leb k.num_tasks k.current_task || not t.is_user
    then (2 ^ 64 - 1, k, m)
    else if increment == 0
    then (old_break, k, m)
    else if leb user_va_guard new_break
    then (2 ^ 64 - 1, k, m)
    else if r.0
    then (old_break, set_task k.current_task (record t { heap_break = new_break }) k', r.1.mem)
    else (2 ^ 64 - 1, k', r.1.mem)
