-- ===== src/Sched/User.antt =====
-- User tasks: `sched_create_user` and `sched_fork` of sched.c, with `fork_child_return`. Memory is
-- the kernel's address space; cache maintenance is left out.
use archarch.Base.{
  ℕ, zero, suc, ◌+◌, ◌-◌, ◌*◌, ◌/◌, true, false, not, ◌==◌, leb, if◌then◌else◌, Option, none, some,
  List, upd, ℤ, pos, minus_one,
}
use archarch.Base.Word.{add32, add64, sub64, mul32}
use archarch.Memory.{Memory, store64}
use archarch.Kmalloc.{phys_to_virt}
use archarch.Pmm.{Pmm, page_size, alloc_pages, free_pages}
use archarch.Mmu.{Space, mmu_create_user_pgd, user_va_code, user_va_stack, user_stack_pages}
use archarch.Fd.{fd_table_init, fd_table_dup}
use archarch.Task.{Task, Kernel, Image, ready, set_task, sched_max_tasks, sched_stack_size}
use archarch.Signal.Send.{signal_init}
use archarch.Signal.Deliver.{Regs, save_regs, load_regs}
use archarch.Sched.{first_context}

-- `dst[i] = src[i]`, for `n` bytes from the `i`-th on.
unfoldable pub copy_bytes : (n i dst src : ℕ) → Memory → Memory
copy_bytes zero i dst src m = m
copy_bytes (suc n) i dst src m = copy_bytes n (i + 1) dst src (upd m (dst + i) (m (src + i)))

-- `dst[i] = 0`, for `n` bytes from the `i`-th on.
unfoldable pub zero_bytes : (n i dst : ℕ) → Memory → Memory
zero_bytes zero i dst m = m
zero_bytes (suc n) i dst m = zero_bytes n (i + 1) dst (upd m (dst + i) 0)

-- The pages for a program of `code_size` bytes, with four more for its BSS.
unfoldable pub user_code_pages : ℕ → ℕ
user_code_pages code_size =
    let n = add32 code_size (page_size - 1) / page_size in add32 (if n == 0 then 1 else n) 4

-- The program, and zeros behind it.
unfoldable pub load_code : (code code_size code_pages dst : ℕ) → Memory → Memory
load_code code code_size code_pages dst m =
    zero_bytes (mul32 code_pages page_size - code_size) code_size dst
      (copy_bytes code_size 0 dst code m)

-- The pages of a new user task: code, stack with a guard page below it, and page tables. `fill_code`
-- and `fill_stack` write to the new pages, at the addresses they are given. On a failure what was
-- allocated here is freed. The result is the code, the stack and the page table.
unfoldable pub new_image :
    (code_pages : ℕ) (fill_code fill_stack : ℕ → Memory → Memory)
    → Space
    → Option (ℕ × ℕ × ℕ) × Space
new_image code_pages fill_code fill_stack s =
    let c = alloc_pages code_pages s.pmm in
    let m1 = fill_code (phys_to_virt c.0) s.mem in
    let a = alloc_pages (user_stack_pages + 1) c.1 in
    let stack = add64 a.0 page_size in
    let m2 = fill_stack (phys_to_virt stack) m1 in
    let g =
      mmu_create_user_pgd c.0 code_pages stack user_stack_pages (record { pmm = a.1; mem = m2 }) in
    let undone = free_pages a.0 (user_stack_pages + 1) (free_pages c.0 code_pages g.1.pmm) in
    if c.0 == 0
    then (none, record s { pmm = c.1 })
    else if a.0 == 0
    then (none, record { pmm = free_pages c.0 code_pages a.1; mem = m1 })
    else if g.0 == 0
    then (none, record { pmm = undone; mem = g.1.mem })
    else (some (c.0, stack, g.0), g.1)

-- The allocator stands in the heap's state.
abbrev pub space_of : Kernel → Memory → Space
space_of k m = record { pmm = k.io.heap.pmm; mem = m }

abbrev pub put_pmm : Pmm → Kernel → Kernel
put_pmm p k = record k { io = record k.io { heap = record k.io.heap { pmm = p } } }

-- What `sched_create_user` and `sched_fork` set alike in the table entry of a new user task.
unfoldable pub user_task : (code code_pages stack pgd : ℕ) → Task → Task
user_task code code_pages stack pgd t = record t {
  state = ready;
  ticks = 0;
  is_user = true;
  user_entry = user_va_code;
  user_sp = user_va_stack;
  ttbr0 = pgd;
  code_pa = code;
  code_pages = code_pages;
  stack_pa = stack;
  wait_for_tid = minus_one;
}

module _ (image : Image) where
  -- The top of a task's kernel stack, 16-byte aligned.
  unfoldable pub kstack_top : ℕ → ℕ
  kstack_top id = (image.task_stacks + (id + 1) * sched_stack_size) / 16 * 16

  -- The table entry that `sched_create_user` fills in.
  unfoldable pub enter_user : (name : List ℕ) (code code_pages stack pgd : ℕ) → Kernel → ℤ × Kernel
  unfolding user_task
  enter_user name code code_pages stack pgd k =
      let id = k.num_tasks in
      let f = fd_table_init image.console_file k.io in
      let t : Task = record (user_task code code_pages stack pgd (k.tasks id)) {
        name = name;
        heap_break = add64 user_va_code (mul32 code_pages page_size);
        parent_tid = minus_one;
        fdt = f.0;
        sig = signal_init;
        ctx = first_context image.task_wrapper (kstack_top id);
      } in
      (pos id, record (set_task id t k) { num_tasks = id + 1; io = f.1 })

  -- The program is the `code_size` bytes at `code`.
  unfoldable pub sched_create_user :
      (name : List ℕ) (code code_size : ℕ) → Kernel → Memory → ℤ × Kernel × Memory
  unfolding enter_user new_image
  sched_create_user name code code_size k m =
      let code_pages = user_code_pages code_size in
      let r =
        new_image code_pages (load_code code code_size code_pages) (λ dst m. m) (space_of k m) in
      let made : ℤ × Kernel × Memory = elim r.0 [
        | none ↦ (minus_one, put_pmm r.1.pmm k, r.1.mem)
        | some (c, stack, pgd) ↦
            let e = enter_user name c code_pages stack pgd (put_pmm r.1.pmm k) in
            (e.0, e.1, r.1.mem)
      ] in
      if leb sched_max_tasks k.num_tasks then (minus_one, k, m) else made

  -- The frame of the child's first return: the parent's registers, with x0 = 0.
  unfoldable pub child_frame : ℕ → ℕ
  child_frame id = sub64 (kstack_top id) 272

  unfoldable pub push_child_frame : ℕ → Regs → Memory → Memory
  push_child_frame id parent_regs m =
      let frame = child_frame id in store64 frame 0 (save_regs 34 0 frame parent_regs m)

  -- The table entry that `sched_fork` fills in.
  unfoldable pub enter_child : (code stack pgd : ℕ) → Kernel → ℤ × Kernel
  unfolding user_task
  enter_child code stack pgd k =
      let id = k.num_tasks in
      let parent = k.tasks k.current_task in
      let f = fd_table_dup (k.tasks id).fdt parent.fdt k.io in
      let t : Task = record (user_task code parent.code_pages stack pgd (k.tasks id)) {
        name = parent.name;
        heap_break = parent.heap_break;
        parent_tid = pos k.current_task;
        fdt = f.0;
        sig = record { handlers = parent.sig.handlers; pending = λ i. false };
        ctx = first_context image.fork_child_return (child_frame id);
      } in
      (pos id, record (set_task id t k) { num_tasks = id + 1; io = f.1 })

  -- The pages of the child, copies of the parent's.
  unfoldable pub copy_image : Kernel → Memory → Option (ℕ × ℕ × ℕ) × Space
  unfolding new_image
  copy_image k m =
      let parent = k.tasks k.current_task in
      new_image parent.code_pages
        (λ dst. copy_bytes (mul32 parent.code_pages page_size) 0 dst (phys_to_virt parent.code_pa))
        (λ dst. copy_bytes (user_stack_pages * page_size) 0 dst (phys_to_virt parent.stack_pa))
        (space_of k m)

  unfoldable pub sched_fork : Regs → Kernel → Memory → ℤ × Kernel × Memory
  unfolding copy_image enter_child push_child_frame
  sched_fork parent_regs k m =
      let r = copy_image k m in
      let made : ℤ × Kernel × Memory = elim r.0 [
        | none ↦ (minus_one, put_pmm r.1.pmm k, r.1.mem)
        | some (c, stack, pgd) ↦
            let e = enter_child c stack pgd (put_pmm r.1.pmm k) in
            (e.0, e.1, push_child_frame k.num_tasks parent_regs r.1.mem)
      ] in
      if not (k.tasks k.current_task).is_user
      then (minus_one, k, m)
      else if leb sched_max_tasks k.num_tasks
      then (minus_one, k, m)
      else made

-- The registers that `fork_child_return` restores before its `eret`, from the frame at `sp`.
unfoldable pub fork_child_return : (sp : ℕ) → Memory → Regs → Regs
unfolding load_regs
fork_child_return sp m regs = load_regs 34 0 sp m regs
